-- ===== src/Responder/Dispatch.antt =====
-- `parseFrame` of lltdResponder/lltdBlock.c: the state of the interface is looked up, the mapper and
-- its generation are recorded, and the handler is chosen by type of service and opcode.
use lltdresponder.Base.{
  ℕ, ◌==◌, if◌then◌else◌, Bool, true, false, ◌&&◌, not, Option, none, some, List,
}
use lltdresponder.Protocol.{
  tos_discovery, tos_quick_discovery, opcode_discover, opcode_hello, opcode_emit, opcode_train,
  opcode_probe, opcode_query, opcode_query_large_tlv, opcode_reset,
}
use lltdresponder.Wire.Endian.{lltd_ntohs}
use lltdresponder.Wire.Header.{
  read_u16, header_tos, header_opcode, header_source, header_real_source,
}
use lltdresponder.Port.{Effect, sleep, Port}
use lltdresponder.Responder.State.{
  IfaceState, M, ◌>>=◌, ◌>>◌, return, done, lift, get, modify, perform,
  lltd_state_clear_seen_probes, lltd_state_clear_icon_cache, mapper_generation_for_tos,
  set_mapper_generation, mapper_matches, set_active_mapper, store_iface, lltd_state_for_iface,
}
use lltdresponder.Responder.Probes.{parse_emit, parse_probe}
use lltdresponder.Responder.Query.{parse_query}
use lltdresponder.Responder.LargeTlv.{parse_query_large_tlv}
use lltdresponder.Responder.Hello.{answer_hello}

-- The two stores to `*slot`: the second overwrites what differs.
unfoldable pub store_generation : ℕ → ℕ → IfaceState → IfaceState
store_generation tos generation st =
    if mapper_generation_for_tos st tos == 0 && not (generation == 0)
    then set_mapper_generation tos generation st
    else (if not (mapper_generation_for_tos st tos == generation)
        then set_mapper_generation tos generation st
        else st)

-- What happens before the dispatch; false if the function returns here.
unfoldable pub note_mapper : Port → List ℕ → ℕ → ℕ → M Bool
unfolding store_generation
note_mapper p frame opcode tos =
    if opcode == opcode_discover
    then (do
      generation ← lift (read_u16 p.little frame 32)
      real_src ← lift (header_real_source frame)
      eth_src ← lift (header_source frame)
      st ← get
      if not (mapper_matches st real_src) then return false else (do
        modify λ s.
            store_generation tos (lltd_ntohs p.little generation)
              (set_active_mapper real_src eth_src s)
        return true))
    else (if opcode == opcode_hello
        then (do _ ← lift (read_u16 p.little frame 32); return true)
        else return true)

unfoldable pub reset_discovery : M (Unit {0})
reset_discovery = do
  lltd_state_clear_seen_probes
  lltd_state_clear_icon_cache
  modify λ st. record st {
    mapper_known = false;
    mapper_seq = 0;
    mapper_gen_topology = 0;
    mapper_gen_quick = 0;
  }

unfoldable pub answer_if_matching : Port → List ℕ → M (Unit {0}) → M (Unit {0})
answer_if_matching p frame wait = do
  st ← get
  real_src ← lift (header_real_source frame)
  if mapper_matches st real_src then (do wait; answer_hello p frame) else done

unfoldable pub dispatch_discovery : Port → List ℕ → ℕ → M (Unit {0})
unfolding reset_discovery answer_if_matching
dispatch_discovery p frame opcode =
    if opcode == opcode_discover
    then answer_if_matching p frame (perform (sleep 10))
    else (if opcode == opcode_emit
        then parse_emit p frame
        else (if opcode == opcode_train
            then parse_probe p frame
            else (if opcode == opcode_probe
                then parse_probe p frame
                else (if opcode == opcode_query
                    then parse_query p frame
                    else (if opcode == opcode_query_large_tlv
                        then parse_query_large_tlv p frame
                        else (if opcode == opcode_reset then reset_discovery else done))))))

unfoldable pub dispatch_quick_discovery : Port → List ℕ → ℕ → M (Unit {0})
unfolding answer_if_matching
dispatch_quick_discovery p frame opcode =
    if opcode == opcode_discover
    then answer_if_matching p frame done
    else (if opcode == opcode_query_large_tlv
        then parse_query_large_tlv p frame
        else (if opcode == opcode_reset
            then modify (λ st. record st { mapper_known = false; mapper_gen_quick = 0 })
            else done))

unfoldable pub dispatch : Port → List ℕ → ℕ → ℕ → M (Unit {0})
unfolding dispatch_discovery dispatch_quick_discovery
dispatch p frame tos opcode =
    if tos == tos_discovery
    then dispatch_discovery p frame opcode
    else (if tos == tos_quick_discovery then dispatch_quick_discovery p frame opcode else done)

-- `parseFrame` on the state of one interface.
unfoldable pub handle_frame : Port → List ℕ → M (Unit {0})
unfolding note_mapper dispatch
handle_frame p frame = do
  opcode ← lift (header_opcode frame)
  tos ← lift (header_tos frame)
  go_on ← note_mapper p frame opcode tos
  if go_on then dispatch p frame tos opcode else done

-- The whole function: a null frame is ignored, and so is any frame if there is no memory for the
-- state of its interface.
unfoldable pub parse_frame :
    Port
    → Option (List ℕ)
    → (ctx : ℕ) (states : List (ℕ × IfaceState)) (history : List Effect)
    → Option (List (ℕ × IfaceState) × List Effect)
unfolding handle_frame
parse_frame p none ctx states history = some (states, history)
parse_frame p (some frame) ctx states history = elim (lltd_state_for_iface p ctx states history) [
  | none ↦ some (states, history)
  | some (st, states', history') ↦
      elim (handle_frame p frame (record { st = st; history = history' })) [
        | none ↦ none
        | some (_, w) ↦ some (store_iface ctx w.st states', w.history)
      ]
]
