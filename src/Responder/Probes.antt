-- ===== src/Responder/Probes.antt =====
-- `sendProbeMsg`, `parseEmit` and `parseProbe` of lltdResponder/lltdBlock.c.
use lltdresponder.Base.{
  ℕ, zero, suc, ◌+◌, ◌==◌, if◌then◌else◌, Bool, false, ◌&&◌, ◌||◌, not, List, [], ◌∷◌, get_elem?,
  replicate, u16, u32,
}
use mathlib.Core.Option
use lltdresponder.Protocol.{opcode_probe, opcode_train, opcode_ack, tos_discovery}
use lltdresponder.Wire.Endian.{lltd_htons, lltd_ntohs}
use lltdresponder.Wire.Address.{
  EthernetAddress, zero_address, compare_ethernet_address, read_address,
}
use lltdresponder.Wire.Header.{
  demultiplex_header_size, read_u16, header_destination, header_source, header_opcode,
  header_real_destination, header_real_source, header_seq_number, set_lltd_header_ex,
}
use lltdresponder.Port.{free, sleep, Port}
use lltdresponder.Responder.State.{
  Probe, M, ◌>>=◌, ◌>>◌, return, done, lift, get, modify, perform, malloc, send_frame,
  set_active_mapper,
}

-- Zero unless the platform knows the address.
abbrev pub our_mac : Port → EthernetAddress
our_mac p = Option.get_or p.mac_address zero_address

-- The second frame, back to the mapper; a failure is only logged.
unfoldable pub send_ack : Port → List ℕ → M (Unit {0})
send_ack p probe = do
  st ← get
  (b, _) ← lift (
      set_lltd_header_ex p.little probe (our_mac p) st.mapper_apparent (our_mac p) st.mapper_real
        st.mapper_seq opcode_ack tos_discovery)
  _ ← send_frame p b
  done

-- The frame itself, in a buffer that was allocated.
unfoldable pub send_probe_frame : Port → EthernetAddress → EthernetAddress → ℕ → ℕ → Bool → M Bool
unfolding send_ack
send_probe_frame p src dst pause_ms type ack = do
  st ← get
  (b, _) ← lift (
      set_lltd_header_ex p.little (replicate demultiplex_header_size 0) src dst (our_mac p)
        st.mapper_real 0 (if type == 1 then opcode_probe else opcode_train) tos_discovery)
  perform (sleep pause_ms)
  sent ← send_frame p b
  (if sent && ack then send_ack p b else done)
  perform free
  return sent

unfoldable pub send_probe_msg : Port → EthernetAddress → EthernetAddress → ℕ → ℕ → Bool → M Bool
unfolding send_probe_frame
send_probe_msg p src dst pause_ms type ack = do
  ok ← malloc p
  if ok then send_probe_frame p src dst pause_ms type ack else return false

-- One entry of the list of an Emit frame, at an offset behind the upper header.
unfoldable pub emit_one : Port → List ℕ → ℕ → Bool → M (Unit {0})
unfolding send_probe_msg
emit_one p frame offset_emitee ack = do
  let emitee = 34 + offset_emitee
  type ← lift (get_elem? frame emitee)
  if type == 1 || type == 0
      then (do
        pause ← lift (get_elem? frame (emitee + 1))
        source ← lift (read_address frame (emitee + 2))
        dest ← lift (read_address frame (emitee + 8))
        _ ← send_probe_msg p source dest pause type ack
        done)
      else done

-- The loop, with `n` entries to go; the last one asks for the ACK. The offset is a uint16_t.
unfoldable pub emit_loop : Port → List ℕ → ℕ → ℕ → M (Unit {0})
unfolding emit_one
emit_loop p frame zero offset_emitee = done
emit_loop p frame (suc n) offset_emitee = do
  emit_one p frame offset_emitee (n == 0)
  emit_loop p frame n (u16 (offset_emitee + 14))

unfoldable pub parse_emit : Port → List ℕ → M (Unit {0})
unfolding emit_loop
parse_emit p frame = do
  seq ← lift (header_seq_number p.little frame)
  modify (λ st. record st { mapper_seq = lltd_ntohs p.little seq })
  real_src ← lift (header_real_source frame)
  eth_src ← lift (header_source frame)
  modify (set_active_mapper real_src eth_src)
  num_descs ← lift (read_u16 p.little frame 32)
  emit_loop p frame (lltd_ntohs p.little num_descs) 0

-- Whether a probe of these senders is listed.
unfoldable pub seen : EthernetAddress → EthernetAddress → List Probe → Bool
seen source real_source [] = false
seen source real_source (q ∷ qs) =
    compare_ethernet_address source q.source_addr
      && compare_ethernet_address real_source q.real_source_addr
    || seen source real_source qs

abbrev pub add_probe : Probe → M (Unit {0})
add_probe q =
    modify
      λ st. record st { see_list = q ∷ st.see_list; see_list_count = u32 (st.see_list_count + 1) }

-- The probe that a frame stands for.
unfoldable pub probe_of_frame : Port → List ℕ → M Probe
probe_of_frame p frame = do
  opcode ← lift (header_opcode frame)
  source ← lift (header_source frame)
  dest ← lift (header_destination frame)
  real_source ← lift (header_real_source frame)
  return (record {
    type = lltd_htons p.little (if opcode == opcode_probe then 1 else 0);
    real_source_addr = real_source;
    source_addr = source;
    dest_addr = dest;
  })

-- The probe is allocated before the list is searched, and freed if it is there already.
unfoldable pub record_probe : Port → List ℕ → M (Unit {0})
unfolding probe_of_frame seen
record_probe p frame = do
  ok ← malloc p
  if not ok then done else (do
    q ← probe_of_frame p frame
    st ← get
    (if seen q.source_addr q.real_source_addr st.see_list then perform free else add_probe q))

unfoldable pub parse_probe : Port → List ℕ → M (Unit {0})
unfolding record_probe
parse_probe p frame = do
  real_dest ← lift (header_real_destination frame)
  if compare_ethernet_address real_dest (our_mac p) then record_probe p frame else done
