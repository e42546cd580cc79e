-- ===== src/Responder/Total/Probes.antt =====
-- Faults of `sendProbeMsg`, `parseEmit`, `parseProbe` and `parseQuery` of lltdResponder/lltdBlock.c.
use lltdresponder.Base.{
  ℕ, zero, suc, ◌+◌, ◌*◌, ◌≤◌, ◌≡◌, refl, ◌==◌, if◌then◌else◌, Bool, false, not, ◌&&◌, ◌||◌, some,
  List, length, replicate, u16, arith,
}
use lltdresponder.Protocol.{opcode_ack, opcode_probe, opcode_train, tos_discovery}
use lltdresponder.Wire.Endian.{lltd_ntohs}
use lltdresponder.Wire.Address.{EthernetAddress, compare_ethernet_address}
use lltdresponder.Wire.Header.{read_u16, set_lltd_header_ex}
use lltdresponder.Wire.Header.Reads.{get_elem?-some, read_u16-some, read_address-some}
use lltdresponder.Wire.Header.Writes.{set_lltd_header_ex-Sized}
use lltdresponder.Port.{Port, free, sleep}
use lltdresponder.Responder.Probes.{
  our_mac, send_ack, send_probe_frame, send_probe_msg, emit_one, emit_loop, parse_emit, seen,
  probe_of_frame, record_probe, parse_probe,
}
use lltdresponder.Responder.Query.{effective_mtu, answer_query, parse_query}
use lltdresponder.Responder.Total.Buffers.{query_response_some}
use lltdresponder.Responder.Total.{
  Total, Total-bind, Total-then, Total-lift, Total-lift_to, Total-get, Total-if, Total-done,
  Total-modify, Total-perform, Total-return, Total-send, Total-malloc, Total-clear_probes,
}

-- A header is returned for a buffer that holds one.
header_returns :
    (p : Port) (buffer : List ℕ) (a b c d : EthernetAddress) (seq opcode tos : ℕ)
    → 32 ≤ length buffer
    → (x : List ℕ × ℕ) × (set_lltd_header_ex p.little buffer a b c d seq opcode tos ≡ some x)
      × (length x.0 ≡ length buffer)
header_returns p buffer a b c d seq opcode tos h =
    let (o, r, e, l, s) =
      set_lltd_header_ex-Sized p.little (length buffer) buffer refl a b c d seq opcode tos h in
    ((o, r), e, l)

module _ (p : Port) where
  send_ack-Total : (probe : List ℕ) → 32 ≤ length probe → Total (send_ack p probe)
  unfolding send_ack
  send_ack-Total probe h = Total-get λ st.
      let (x, e, l) =
        header_returns p probe (our_mac p) st.mapper_apparent (our_mac p) st.mapper_real
          st.mapper_seq opcode_ack tos_discovery h in
      Total-lift_to _ _ x e (Total-bind (Total-send p x.0) λ ok. Total-done)

  send_probe_msg-Total :
      (src dst : EthernetAddress) (pause type : ℕ) (ack : Bool)
      → Total (send_probe_msg p src dst pause type ack)
  unfolding send_probe_msg send_probe_frame
  send_probe_msg-Total src dst pause type ack = Total-bind (Total-malloc p) λ ok.
      Total-if ok
        (λ t. Total-get λ st.
          let (x, e, l) =
            header_returns p (replicate 32 0) src dst (our_mac p) st.mapper_real 0
              (if type == 1 then opcode_probe else opcode_train) tos_discovery (omega arith) in
          Total-lift_to _ _ x e (
            Total-then (Total-perform (sleep pause)) (
              Total-bind (Total-send p x.0) λ sent.
                Total-then
                  (Total-if (sent && ack) (λ u. send_ack-Total x.0 (omega (arith, l)))
                    (λ u. Total-done))
                  (Total-then (Total-perform free) (Total-return sent)))))
        (λ t. Total-return false)

module _ (p : Port) (frame : List ℕ) where
  emit_one-Total :
      (offset : ℕ) (ack : Bool)
      → 34 + offset + 14 ≤ length frame
      → Total (emit_one p frame offset ack)
  unfolding emit_one
  emit_one-Total offset ack h =
      Total-lift _ (get_elem?-some frame (34 + offset) (omega (arith, h))) λ type t.
        Total-if (type == 1 || type == 0)
          (λ u. Total-lift _ (get_elem?-some frame (34 + offset + 1) (omega (arith, h))) λ pause a.
            Total-lift _ (read_address-some frame (34 + offset + 2) (omega (arith, h))) λ source b.
              Total-lift _ (read_address-some frame (34 + offset + 8) (omega (arith, h))) λ dest c.
                Total-bind (send_probe_msg-Total p source dest pause type ack) λ sent. Total-done)
          (λ u. Total-done)

  emit_loop-Total :
      (n offset : ℕ) → 34 + offset + 14 * n ≤ length frame → Total (emit_loop p frame n offset)
  unfolding emit_loop
  emit_loop-Total zero offset h = Total-done
  emit_loop-Total (suc n) offset h =
      Total-then (emit_one-Total offset (n == 0) (omega (arith, h)))
        (emit_loop-Total n (u16 (offset + 14)) (omega (arith, h)))

  module _ (big : 36 ≤ length frame) where
    pub parse_emit-Total :
        ((count : ℕ)
          → read_u16 p.little frame 32 ≡ some count
          → 34 + 14 * lltd_ntohs p.little count ≤ length frame)
        → Total (parse_emit p frame)
    unfolding parse_emit
    parse_emit-Total fits =
        Total-lift _ (read_u16-some p.little frame 30 (omega (arith, big))) λ seq a.
          Total-then (Total-modify _) (
            Total-lift _ (read_address-some frame 24 (omega (arith, big))) λ real b.
              Total-lift _ (read_address-some frame 6 (omega (arith, big))) λ eth c.
                Total-then (Total-modify _) (
                  Total-lift _ (read_u16-some p.little frame 32 (omega (arith, big))) λ count d.
                    emit_loop-Total (lltd_ntohs p.little count) 0 (omega (arith, fits count d))))

    probe_of_frame-Total : Total (probe_of_frame p frame)
    unfolding probe_of_frame
    probe_of_frame-Total = Total-lift _ (get_elem?-some frame 17 (omega (arith, big))) λ opcode b.
        Total-lift _ (read_address-some frame 6 (omega (arith, big))) λ source c.
          Total-lift _ (read_address-some frame 0 (omega (arith, big))) λ dest d.
            Total-lift _ (read_address-some frame 24 (omega (arith, big))) λ real e. Total-return _

    record_probe-Total : Total (record_probe p frame)
    unfolding record_probe
    record_probe-Total = Total-bind (Total-malloc p) λ ok.
        Total-if (not ok) (λ u. Total-done)
          (λ u. Total-bind probe_of_frame-Total λ q. Total-get λ st.
            Total-if (seen q.source_addr q.real_source_addr st.see_list) (λ v. Total-perform free)
              (λ v. Total-modify _))

    pub parse_probe-Total : Total (parse_probe p frame)
    unfolding parse_probe
    parse_probe-Total =
        Total-lift _ (read_address-some frame 18 (omega (arith, big))) λ real_dest a.
          Total-if (compare_ethernet_address real_dest (our_mac p)) (λ t. record_probe-Total)
            (λ t. Total-done)

    pub parse_query-Total : 34 ≤ effective_mtu p → Total (parse_query p frame)
    unfolding parse_query answer_query
    parse_query-Total mtu =
        Total-lift _ (read_u16-some p.little frame 30 (omega (arith, big))) λ seq a.
          Total-lift _ (read_address-some frame 24 (omega (arith, big))) λ real b.
            Total-lift _ (read_address-some frame 6 (omega (arith, big))) λ eth c.
              Total-then (Total-modify _) (
                Total-bind (Total-malloc p) λ ok.
                  Total-if (not ok) (λ u. Total-done)
                    (λ u. Total-get λ st.
                      Total-lift _
                        (query_response_some p.little (effective_mtu p) (our_mac p) _ st.mapper_seq
                          st.see_list_count st.see_list mtu)
                        λ x e.
                          Total-bind (Total-send p _)
                            λ sent. Total-then (Total-perform free) Total-clear_probes))
