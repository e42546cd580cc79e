-- ===== src/Responder/Query.antt =====
-- `parseQuery` of lltdResponder/lltdBlock.c: the answer that lists the probes seen.
pub mod Response
use lltdresponder.Base.{
  ℕ, zero, suc, ◌+◌, ◌-◌, ◌/◌, ◌==◌, ltb, if◌then◌else◌, Bool, true, false, not, Option, none, some,
  List, [], ◌∷◌, ◌++◌, replicate, take, u16,
}
use lltdresponder.Base.Fault.{write}
use lltdresponder.Protocol.{opcode_query_resp, tos_discovery}
use lltdresponder.Wire.Endian.{lltd_htons, lltd_ntohs, store16}
use lltdresponder.Wire.Address.{
  EthernetAddress, ethernet_broadcast, compare_ethernet_address, address_bytes,
}
use lltdresponder.Wire.Header.{
  header_source, header_real_source, header_seq_number, set_lltd_header,
}
use lltdresponder.Port.{free, Port}
use lltdresponder.Responder.State.{
  Probe, M, ◌>>=◌, ◌>>◌, done, lift, get, modify, perform, malloc, send_frame,
  lltd_state_clear_seen_probes,
}
use lltdresponder.Responder.Probes.{our_mac}

-- 1500 if the platform does not know the MTU, or says 0.
unfoldable pub effective_mtu : Port → ℕ
effective_mtu p = elim p.mtu [ none ↦ 1500 | some mtu ↦ if mtu == 0 then 1500 else mtu ]

-- The answer goes to the sender, or to everybody if the frame came through a bridge.
unfoldable pub response_destination : EthernetAddress → EthernetAddress → EthernetAddress
response_destination real_src eth_src =
    if not (compare_ethernet_address real_src eth_src) then ethernet_broadcast else real_src

-- `lltd_probe_desc_wire_t`, 20 bytes.
abbrev pub probe_desc : Bool → Probe → List ℕ
probe_desc little q =
    store16 little q.type
    ++ address_bytes q.real_source_addr
    ++ address_bytes q.source_addr
    ++ address_bytes q.dest_addr

-- The loop: the buffer and the offset afterwards.
unfoldable pub write_descs : Bool → ℕ → List ℕ → ℕ → ℕ → List Probe → Option (List ℕ × ℕ)
write_descs little mtu buffer offset remaining [] = some (buffer, offset)
write_descs little mtu buffer offset zero (q ∷ qs) = some (buffer, offset)
write_descs little mtu buffer offset (suc remaining) (q ∷ qs) = elim (ltb mtu (offset + 20)) [
  | true ↦ some (buffer, offset)
  | false ↦ elim (write buffer offset (probe_desc little q)) [
    | none ↦ none
    | some b ↦ write_descs little mtu b (offset + 20) remaining qs
  ]
]

unfoldable pub max_descs : ℕ → ℕ
max_descs mtu = if ltb 34 mtu then (mtu - 34) / 20 else 0

-- `see_list_count` or `max_descs`, cast to uint16_t.
unfoldable pub num_descs : ℕ → ℕ → ℕ
unfolding max_descs
num_descs mtu count = if ltb (max_descs mtu) count then u16 (max_descs mtu) else u16 count

-- The frame in a zeroed buffer of `mtu` bytes, and its length.
unfoldable pub query_response :
    Bool → (mtu : ℕ) (our dest : EthernetAddress) (seq count : ℕ) → List Probe → Option (List ℕ × ℕ)
unfolding num_descs write_descs
query_response little mtu our dest seq count probes =
    let n = num_descs mtu count in
    elim (set_lltd_header little (replicate mtu 0) our dest seq opcode_query_resp tos_discovery) [
      | none ↦ none
      | some (b, offset) ↦ elim (write b 32 (store16 little (lltd_htons little n))) [
        | none ↦ none
        | some b' ↦ write_descs little mtu b' (offset + 2) n probes
      ]
    ]

unfoldable pub answer_query : Port → EthernetAddress → M (Unit {0})
unfolding effective_mtu query_response
answer_query p dest = do
  ok ← malloc p
  if not ok then done else (do
    st ← get
    (buffer, offset) ← lift (
        query_response p.little (effective_mtu p) (our_mac p) dest st.mapper_seq st.see_list_count
          st.see_list)
    _ ← send_frame p (take offset buffer)
    perform free
    lltd_state_clear_seen_probes)

unfoldable pub parse_query : Port → List ℕ → M (Unit {0})
unfolding answer_query response_destination
parse_query p frame = do
  seq ← lift (header_seq_number p.little frame)
  real_src ← lift (header_real_source frame)
  eth_src ← lift (header_source frame)
  modify λ st. record st {
    mapper_seq = lltd_ntohs p.little seq;
    mapper_real = real_src;
    mapper_apparent = eth_src;
    mapper_known = true;
  }
  answer_query p (response_destination real_src eth_src)
