-- ===== src/Responder/Sound/Probes.antt =====
-- `parseProbe`, `sendProbeMsg` and `parseEmit` of lltdResponder/lltdBlock.c: probes and memory.
use lltdresponder.Base.{
  ℕ, zero, suc, ◌+◌, ◌==◌, ◌≡◌, refl, Bool, false, ◌&&◌, if◌then◌else◌, List, Bool-cases, inl, inr,
  u16,
}
use lltdresponder.Wire.Address.{EthernetAddress}
use lltdresponder.Port.{Port}
use lltdresponder.Responder.State.{Probe, IfaceState, perform, set_active_mapper}
use lltdresponder.Port.{free}
use lltdresponder.Responder.Probes.{
  seen, add_probe, send_ack, send_probe_frame, send_probe_msg, emit_one, emit_loop, parse_emit,
  probe_of_frame, record_probe, parse_probe,
}
use lltdresponder.Responder.Triple.{
  Triple, triple_bind, triple_lift, triple_then, triple_get, triple_read, triple_if, triple_done,
  triple_return,
}
use lltdresponder.Responder.Sound.{
  Sound, Keeps, free-Sound, sleep-Sound, send_frame-Sound, modify-Sound, Untouched, Untouched-if,
  triple_malloc, triple_no_malloc, add_probe-Sound,
}

pub set_active_mapper-Untouched :
    (real_src eth_src : EthernetAddress) (st : IfaceState)
    → Untouched st (set_active_mapper real_src eth_src st)
unfolding set_active_mapper
set_active_mapper-Untouched real_src eth_src st =
    Untouched-if _ (record { list = refl; list_count = refl; icon = refl })
      (record { list = refl; list_count = refl; icon = refl })

drop_state :
    (k : ℕ) (st : IfaceState)
    → Triple (λ w. Sound (suc k) w × (w.st ≡ st)) (perform free) (λ _. Sound k)
drop_state k st = record { holds = λ w s. (free-Sound k).holds w s.0 }

probe_of_frame-Sound : (p : Port) (frame : List ℕ) (k : ℕ) → Keeps k (probe_of_frame p frame)
unfolding probe_of_frame
probe_of_frame-Sound p frame k = triple_lift _ λ opcode.
    triple_lift _ λ source. triple_lift _ λ dest. triple_lift _ λ real_source. triple_return _

-- The block becomes a probe of the list, or is freed.
keep_or_free :
    (k : ℕ) (q : Probe) (st : IfaceState)
    → Triple
        (λ w. Sound (suc k) w × (w.st ≡ st))
        (if seen q.source_addr q.real_source_addr st.see_list then perform free else add_probe q)
        (λ _. Sound k)
keep_or_free k q st = elim (Bool-cases (seen q.source_addr q.real_source_addr st.see_list)) [
  | inl e ↦ rw e (drop_state k st)
  | inr e ↦ rw e (add_probe-Sound k q st e)
]

pub parse_probe-Sound : (p : Port) (frame : List ℕ) (k : ℕ) → Keeps k (parse_probe p frame)
unfolding parse_probe record_probe
parse_probe-Sound p frame k = triple_lift _ λ real_dest.
    triple_if _
      (triple_no_malloc p k
        (triple_bind (probe_of_frame-Sound p frame (suc k))
          λ q. triple_get λ st. keep_or_free k q st)
        triple_done)
      triple_done

send_ack-Sound : (p : Port) (probe : List ℕ) (k : ℕ) → Keeps k (send_ack p probe)
unfolding send_ack
send_ack-Sound p probe k =
    triple_read λ st. triple_lift _ λ b. triple_bind (send_frame-Sound p k b.0) λ sent. triple_done

send_probe_msg-Sound :
    (p : Port) (src dst : EthernetAddress) (pause_ms type k : ℕ) (ack : Bool)
    → Keeps k (send_probe_msg p src dst pause_ms type ack)
unfolding send_probe_msg send_probe_frame
send_probe_msg-Sound p src dst pause_ms type k ack =
    triple_malloc p k
      (triple_read λ st. triple_lift _ λ b. triple_then (sleep-Sound (suc k) pause_ms) (
        triple_bind (send_frame-Sound p (suc k) b.0) λ sent.
          triple_then (triple_if (sent && ack) (send_ack-Sound p b.0 (suc k)) triple_done)
            (triple_then (free-Sound k) (triple_return sent))))
      (triple_return false)

emit_one-Sound :
    (p : Port) (frame : List ℕ) (offset k : ℕ) (ack : Bool) → Keeps k (emit_one p frame offset ack)
unfolding emit_one
emit_one-Sound p frame offset k ack = triple_lift _ λ type.
    triple_if _
      (triple_lift _ λ pause. triple_lift _ λ source. triple_lift _ λ dest.
        triple_bind (send_probe_msg-Sound p source dest pause type k ack) λ sent. triple_done)
      triple_done

emit_loop-Sound :
    (p : Port) (frame : List ℕ) (n offset k : ℕ) → Keeps k (emit_loop p frame n offset)
unfolding emit_loop
emit_loop-Sound p frame zero offset k = triple_done
emit_loop-Sound p frame (suc n) offset k =
    triple_then (emit_one-Sound p frame offset k (n == 0))
      (emit_loop-Sound p frame n (u16 (offset + 14)) k)

pub parse_emit-Sound : (p : Port) (frame : List ℕ) (k : ℕ) → Keeps k (parse_emit p frame)
unfolding parse_emit
parse_emit-Sound p frame k = triple_lift _ λ seq.
    triple_then (modify-Sound k _ (λ st. (record { list = refl; list_count = refl; icon = refl })))
      (triple_lift _ λ real_src. triple_lift _ λ eth_src.
        triple_then (modify-Sound k _ (set_active_mapper-Untouched real_src eth_src))
          (triple_lift _ λ num_descs. emit_loop-Sound p frame _ 0 k))
