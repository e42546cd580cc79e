-- ===== src/Responder/Sound/Frame.antt =====
-- `parseFrame` of lltdResponder/lltdBlock.c with all its handlers: the list of probes and the memory.
use lltdresponder.Base.{
  ℕ, suc, ◌==◌, not, ◌≡◌, refl, Bool, true, false, if◌then◌else◌, Option, none, some, List, ◌∙◌, ap,
  arith,
}
use lltdresponder.Wire.Endian.{lltd_ntohs}
use lltdresponder.Protocol.{
  tos_discovery, tos_quick_discovery, opcode_discover, opcode_hello, opcode_emit, opcode_train,
  opcode_probe, opcode_query, opcode_query_large_tlv, opcode_reset,
}
use lltdresponder.Port.{alloc, free, Port}
use lltdresponder.Responder.State.{
  IfaceState, World, M, ◌>>=◌, ◌>>◌, return, done, perform, modify, mapper_matches,
  set_mapper_generation,
}
use lltdresponder.Responder.Query.{answer_query, parse_query}
use lltdresponder.Responder.LargeTlv.{
  Payload, payload_of, no_payload, cached_icon, icon_payload, requested_payload,
  send_large_tlv_response, answer_large_tlv, parse_query_large_tlv,
}
use lltdresponder.Responder.Hello.{keep_generation, send_hello, answer_hello}
use lltdresponder.Responder.Dispatch.{
  store_generation, note_mapper, reset_discovery, answer_if_matching, dispatch_discovery,
  dispatch_quick_discovery, dispatch, handle_frame,
}
use lltdresponder.Responder.Triple.{
  Triple, triple_bind, triple_lift, triple_then, triple_get, triple_read, triple_if, triple_done,
  triple_return, triple_from, After,
}
use lltdresponder.Responder.Sound.{
  Sound, Keeps, icon_blocks, allocs, frees, free-Sound, sleep-Sound, send_frame-Sound, modify-Sound,
  triple_no_malloc, clear_seen_probes-Sound, clear_icon_cache-Sound, Untouched, Untouched-if,
}
use lltdresponder.Responder.Sound.Probes.{
  set_active_mapper-Untouched, parse_probe-Sound, parse_emit-Sound,
}

pub parse_query-Sound : (p : Port) (frame : List ℕ) (k : ℕ) → Keeps k (parse_query p frame)
unfolding parse_query answer_query
parse_query-Sound p frame k = triple_lift _ λ seq. triple_lift _ λ real_src.
    triple_lift _ λ eth_src.
      triple_then
        (modify-Sound k _ (λ st. (record { list = refl; list_count = refl; icon = refl })))
        (triple_no_malloc p k
          (triple_read λ st. triple_lift _ λ b.
            triple_bind (send_frame-Sound p (suc k) _)
              λ sent. triple_then (free-Sound k) (clear_seen_probes-Sound k))
          triple_done)

-- Blocks in use while a payload is: one more if it is to be freed.
abbrev Owned : ℕ → Payload × Bool → World → Type 0
Owned k r = Sound (if r.1 then suc k else k)

alloc-Sound : (k : ℕ) → Triple (Sound k) (perform alloc) (λ _. Sound (suc k))
unfolding allocs frees
alloc-Sound k = record {
  holds = λ w s. record {
    counted = s.counted;
    distinct = s.distinct;
    balance = omega (arith, s.balance);
  };
}

abbrev HasIcon : ℕ → Option (List ℕ) → World → Type 0
HasIcon k icon w = Sound k w × (w.st.small_icon ≡ icon)

store_icon-Sound :
    (k : ℕ) (icon : List ℕ)
    → Triple
        (HasIcon k none)
        (do
          perform alloc
          modify (λ st. record st { small_icon = some icon })
          return (payload_of (some icon)))
        (λ _. Sound k)
unfolding ◌>>=◌ allocs frees
store_icon-Sound k icon = record {
  holds = λ w s.
      let blocks : icon_blocks w.st.small_icon ≡ 0 = ap icon_blocks s.1 in
      record {
        counted = s.0.counted;
        distinct = s.0.distinct;
        balance = omega (arith, s.0.balance, blocks);
      };
}

fetch_icon-Sound :
    (k : ℕ) (image : Option (List ℕ))
    → Triple
        (HasIcon k none)
        (elim image [
          | none ↦ return no_payload
          | some icon ↦ (do
            perform alloc
            modify (λ st. record st { small_icon = some icon })
            return (payload_of (some icon)))
        ])
        (λ _. Sound k)
fetch_icon-Sound k none = triple_from (λ w s. s.0) (triple_return no_payload)
fetch_icon-Sound k (some icon) = store_icon-Sound k icon

cached_icon-Sound :
    (p : Port) (k : ℕ) (icon : Option (List ℕ))
    → Triple (HasIcon k icon) (cached_icon p icon) (λ _. Sound k)
unfolding cached_icon
cached_icon-Sound p k (some icon) =
    triple_from (λ w s. s.0) (triple_return (payload_of (some icon)))
cached_icon-Sound p k none = fetch_icon-Sound k p.icon_image

-- The icon is allocated once, and then belongs to the state.
icon_payload-Sound : (p : Port) (k : ℕ) → Keeps k (icon_payload p)
unfolding icon_payload
icon_payload-Sound p k = triple_get λ st.
    triple_from (λ w s. (s.0, ap (λ (t : IfaceState). t.small_icon) s.1))
      (cached_icon-Sound p k st.small_icon)

return-Owned : (k : ℕ) (r : Payload × Bool) → Triple (Owned k r) (return r) (Owned k)
return-Owned k r = record { holds = λ w s. s }

name_payload-Sound :
    (k : ℕ) (friendly_name : Option (List ℕ))
    → Triple
        (Sound k)
        (elim friendly_name [
          | none ↦ return (no_payload, false)
          | some name ↦ (do perform alloc; return (payload_of (some name), true))
        ])
        (Owned k)
name_payload-Sound k none = return-Owned k (no_payload, false)
name_payload-Sound k (some name) =
    triple_then (alloc-Sound k) (return-Owned k (payload_of (some name), true))

requested_payload-Sound :
    (p : Port) (type k : ℕ) → Triple (Sound k) (requested_payload p type) (Owned k)
unfolding requested_payload
requested_payload-Sound p type k =
    triple_if _ (triple_bind (icon_payload-Sound p k) λ payload. return-Owned k _) (
      triple_if _ (name_payload-Sound k p.friendly_name) (
        triple_if _ (triple_no_malloc p k (triple_lift _ λ id. return-Owned k _) (return-Owned k _))
          (return-Owned k _)))

send_large_tlv_response-Sound :
    (p : Port) (frame : List ℕ) (payload : Payload) (offset k : ℕ)
    → Keeps k (send_large_tlv_response p frame payload offset)
unfolding send_large_tlv_response
send_large_tlv_response-Sound p frame payload offset k = triple_lift _ λ real_src.
    triple_lift _ λ eth_src.
      triple_no_malloc p k
        (triple_read
          λ st. triple_lift _ λ b. triple_bind (send_frame-Sound p (suc k) _) λ sent. free-Sound k)
        triple_done

free_if :
    (k : ℕ) (should : Bool)
    → Triple
        (Sound (if should then suc k else k))
        (if should then perform free else done)
        (λ _. Sound k)
free_if k true = free-Sound k
free_if k false = triple_done

answer_large_tlv-Sound : (p : Port) (frame : List ℕ) (k : ℕ) → Keeps k (answer_large_tlv p frame)
unfolding answer_large_tlv
answer_large_tlv-Sound p frame k = triple_lift _ λ offset. triple_lift _ λ type.
    triple_bind (requested_payload-Sound p type k)
      λ r. triple_then (send_large_tlv_response-Sound p frame r.0 _ _) (free_if k r.1)

pub parse_query_large_tlv-Sound :
    (p : Port) (frame : List ℕ) (k : ℕ) → Keeps k (parse_query_large_tlv p frame)
unfolding parse_query_large_tlv
parse_query_large_tlv-Sound p frame k = triple_lift _ λ seq. triple_if _ triple_done (
    triple_lift _ λ real_src. triple_lift _ λ eth_src.
      triple_then
        (modify-Sound k _ (λ st.
          let u =
            set_active_mapper-Untouched real_src eth_src
              (record st { mapper_seq = lltd_ntohs p.little seq }) in
          record { list = u.list; list_count = u.list_count; icon = u.icon }))
        (answer_large_tlv-Sound p frame k))

set_mapper_generation-Untouched :
    (tos generation : ℕ) (st : IfaceState) → Untouched st (set_mapper_generation tos generation st)
unfolding set_mapper_generation
set_mapper_generation-Untouched tos generation st =
    Untouched-if _ (record { list = refl; list_count = refl; icon = refl })
      (record { list = refl; list_count = refl; icon = refl })

pub answer_hello-Sound : (p : Port) (frame : List ℕ) (k : ℕ) → Keeps k (answer_hello p frame)
unfolding answer_hello send_hello keep_generation
answer_hello-Sound p frame k =
    triple_no_malloc p k
      (triple_lift _ λ real_src. triple_lift _ λ eth_src.
        triple_then (modify-Sound (suc k) _ (set_active_mapper-Untouched real_src eth_src)) (
          triple_lift _ λ seq.
            triple_then
              (modify-Sound (suc k) _
                (λ st. (record { list = refl; list_count = refl; icon = refl })))
              (triple_lift _ λ generation. triple_lift _ λ tos.
                triple_then
                  (modify-Sound (suc k) _ (λ st.
                    Untouched-if _ (set_mapper_generation-Untouched tos _ st)
                      (record { list = refl; list_count = refl; icon = refl })))
                  (triple_read λ st.
                    triple_lift _
                      λ b. triple_bind (send_frame-Sound p (suc k) _) λ sent. free-Sound k))))
      triple_done

store_generation-Untouched :
    (tos generation : ℕ) (s st : IfaceState)
    → Untouched s st
    → Untouched s (store_generation tos generation st)
unfolding store_generation
store_generation-Untouched tos generation s st h =
    Untouched-if _ (h_then (set_mapper_generation-Untouched tos generation st))
      (Untouched-if _ (h_then (set_mapper_generation-Untouched tos generation st)) h)
  where
    h_then : {st' : IfaceState} → Untouched st st' → Untouched s st'
    h_then u = record {
      list = u.list ∙ h.list;
      list_count = u.list_count ∙ h.list_count;
      icon = u.icon ∙ h.icon;
    }

note_mapper-Sound :
    (p : Port) (frame : List ℕ) (opcode tos k : ℕ) → Keeps k (note_mapper p frame opcode tos)
unfolding note_mapper
note_mapper-Sound p frame opcode tos k =
    triple_if (opcode == opcode_discover)
      (triple_lift _ λ generation. triple_lift _ λ real_src. triple_lift _ λ eth_src.
        triple_read λ st. triple_if (not (mapper_matches st real_src)) (triple_return false) (
          triple_then
            (modify-Sound k _ (λ s.
              store_generation-Untouched tos _ s _
                (set_active_mapper-Untouched real_src eth_src s)))
            (triple_return true)))
      (triple_if (opcode == opcode_hello) (triple_lift _ λ generation. triple_return true)
        (triple_return true))

reset_discovery-Sound : (k : ℕ) → Keeps k reset_discovery
unfolding reset_discovery
reset_discovery-Sound k = triple_then (clear_seen_probes-Sound k) (
    triple_then (clear_icon_cache-Sound k)
      (modify-Sound k _ (λ st. (record { list = refl; list_count = refl; icon = refl }))))

answer_if_matching-Sound :
    (p : Port) (frame : List ℕ) (wait : M (Unit {0})) (k : ℕ)
    → Keeps k wait
    → Keeps k (answer_if_matching p frame wait)
unfolding answer_if_matching
answer_if_matching-Sound p frame wait k h = triple_read λ st.
    triple_lift _ λ real_src. triple_if _ (triple_then h (answer_hello-Sound p frame k)) triple_done

dispatch-Sound :
    (p : Port) (frame : List ℕ) (tos opcode k : ℕ) → Keeps k (dispatch p frame tos opcode)
unfolding dispatch dispatch_discovery dispatch_quick_discovery
dispatch-Sound p frame tos opcode k =
    triple_if (tos == tos_discovery)
      (triple_if (opcode == opcode_discover)
        (answer_if_matching-Sound p frame _ k (sleep-Sound k 10))
        (triple_if (opcode == opcode_emit) (parse_emit-Sound p frame k) (
          triple_if (opcode == opcode_train) (parse_probe-Sound p frame k) (
            triple_if (opcode == opcode_probe) (parse_probe-Sound p frame k) (
              triple_if (opcode == opcode_query) (parse_query-Sound p frame k) (
                triple_if (opcode == opcode_query_large_tlv) (parse_query_large_tlv-Sound p frame k)
                  (triple_if (opcode == opcode_reset) (reset_discovery-Sound k) triple_done)))))))
      (triple_if (tos == tos_quick_discovery)
        (triple_if (opcode == opcode_discover) (answer_if_matching-Sound p frame _ k triple_done) (
          triple_if (opcode == opcode_query_large_tlv) (parse_query_large_tlv-Sound p frame k) (
            triple_if (opcode == opcode_reset)
              (modify-Sound k _ (λ st. (record { list = refl; list_count = refl; icon = refl })))
              triple_done)))
        triple_done)

handle_frame-Keeps : (p : Port) (frame : List ℕ) (k : ℕ) → Keeps k (handle_frame p frame)
unfolding handle_frame
handle_frame-Keeps p frame k = triple_lift _ λ opcode. triple_lift _ λ tos.
    triple_bind (note_mapper-Sound p frame opcode tos k)
      λ go_on. triple_if go_on (dispatch-Sound p frame tos opcode k) triple_done

-- Whatever frame arrives and whatever the platform answers: if no two probes of the list of seen
-- probes have the same sender and real sender, its counter is its length modulo 2^32, and the
-- number of allocations that were not freed is that of the listed probes, the icon if there is one,
-- and `k` others, then all this holds again when the frame has been handled, unless the handler
-- faults. The numbers are counted; which block is freed is not told apart.
pub handle_frame-Sound :
    (p : Port) (frame : List ℕ) (k : ℕ) (w : World)
    → Sound k w
    → After (λ _. Sound k) (handle_frame p frame w)
handle_frame-Sound p frame k w s = (handle_frame-Keeps p frame k).holds w s
