-- ===== src/Responder/LargeTlv.antt =====
-- `sendLargeTlvResponse` and `parseQueryLargeTlv` of lltdResponder/lltdBlock.c: a property that does
-- not fit a Hello frame is fetched in chunks.
pub mod Chunks
pub mod Answer
use lltdresponder.Base.{
  ℕ, zero, suc, ◌+◌, ◌-◌, ◌==◌, ltb, if◌then◌else◌, Bool, true, false, ◌&&◌, not, Option, none,
  some, List, [], ◌∷◌, get_elem?, replicate, take, length, u16,
}
use Prim.Native.Nat.{bit_or}
use lltdresponder.Base.Fault.{write, read}
use lltdresponder.Protocol.{
  opcode_query_large_tlv_resp, tos_discovery, tlv_icon_image, tlv_friendly_name, tlv_hw_id_property,
}
use lltdresponder.Wire.Endian.{lltd_htons, lltd_ntohs, store16}
use lltdresponder.Wire.Address.{EthernetAddress}
use lltdresponder.Wire.Header.{
  read_u16, header_source, header_real_source, header_seq_number, set_lltd_header,
}
use lltdresponder.Port.{alloc, free, Port}
use lltdresponder.Responder.State.{
  M, ◌>>=◌, ◌>>◌, return, done, lift, get, modify, perform, malloc, send_frame, set_active_mapper,
}
use lltdresponder.Responder.Probes.{our_mac}
use lltdresponder.Responder.Query.{effective_mtu, response_destination}

-- The data of a property: null, or a block of bytes, with the size that goes with it.
pub record Payload : Type 0 where
  pub block : Option (List ℕ)
  pub size : ℕ

unfoldable pub max_payload : ℕ → ℕ
max_payload mtu = if ltb 34 mtu then u16 (mtu - 34) else 0

-- `bytesToWrite`, and `header->length` before it is put in network order.
unfoldable pub chunk_length : ℕ → Payload → ℕ → ℕ × ℕ
chunk_length room payload offset = elim payload.block [
  | none ↦ (0, 0)
  | some block ↦
      if payload.size == 0
      then (0, 0)
      else (if ltb (offset + room) payload.size
          then (room, bit_or room 0x8000)
          else (if ltb offset payload.size
              then (u16 (payload.size - offset), u16 (payload.size - offset))
              else (0, 0)))
]

-- The bytes that are copied: none for a null pointer or a length of 0.
unfoldable pub chunk_bytes : Payload → ℕ → ℕ → Option (List ℕ)
chunk_bytes payload offset zero = some []
chunk_bytes payload offset (suc n) = elim payload.block [
  | none ↦ some []
  | some block ↦ read block offset (suc n)
]

-- The frame, cut to the size that is sent.
unfoldable pub large_tlv_response :
    Bool
    → (mtu : ℕ) (our dest : EthernetAddress) (seq : ℕ) → Payload
    → (offset : ℕ) → Option (List ℕ)
unfolding max_payload chunk_length chunk_bytes
large_tlv_response little mtu our dest seq payload offset =
    let room = max_payload mtu in
    let (n, len) = chunk_length room payload offset in
    elim (set_lltd_header little (replicate (34 + room) 0) our dest seq opcode_query_large_tlv_resp
      tos_discovery) [
        | none ↦ none
        | some (b, _) ↦ elim (write b 32 (store16 little (lltd_htons little len))) [
          | none ↦ none
          | some b' ↦ elim (chunk_bytes payload offset n) [
            | none ↦ none
            | some bytes ↦ elim (write b' 34 bytes) [
              | none ↦ none
              | some b'' ↦ some (take (34 + n) b'')
            ]
          ]
        ]
      ]

unfoldable pub send_large_tlv_response : Port → List ℕ → Payload → ℕ → M (Unit {0})
unfolding large_tlv_response
send_large_tlv_response p frame payload offset = do
  real_src ← lift (header_real_source frame)
  eth_src ← lift (header_source frame)
  ok ← malloc p
  if not ok then done else (do
    st ← get
    buffer ← lift (
        large_tlv_response p.little (effective_mtu p) (our_mac p)
          (response_destination real_src eth_src) st.mapper_seq payload offset)
    _ ← send_frame p buffer
    perform free)

-- The loop that measures a UCS-2 text: the offset of the first pair of zeros, else the default.
unfoldable pub ucs2_size : ℕ → ℕ → List ℕ → ℕ
ucs2_size default i [] = default
ucs2_size default i (a ∷ []) = default
ucs2_size default i (a ∷ b ∷ rest) =
    let later = ucs2_size default (i + 2) rest in if a == 0 && b == 0 then i else later

abbrev pub no_payload : Payload
no_payload = record { block = none; size = 0 }

abbrev pub payload_of : Option (List ℕ) → Payload
payload_of none = no_payload
payload_of (some bytes) = record { block = some bytes; size = length bytes }

-- The icon is kept between requests: by the icon that the state has.
unfoldable pub cached_icon : Port → Option (List ℕ) → M Payload
cached_icon p (some icon) = return (payload_of (some icon))
cached_icon p none = elim p.icon_image [
  | none ↦ return no_payload
  | some icon ↦ (do
    perform alloc
    modify (λ st. record st { small_icon = some icon })
    return (payload_of (some icon)))
]

unfoldable pub icon_payload : Port → M Payload
unfolding cached_icon
icon_payload p = do st ← get; cached_icon p st.small_icon

-- The data of the requested property, and whether it is freed after the answer.
unfoldable pub requested_payload : Port → ℕ → M (Payload × Bool)
unfolding icon_payload ucs2_size
requested_payload p type =
    if type == tlv_icon_image
    then (do payload ← icon_payload p; return (payload, false))
    else (if type == tlv_friendly_name
        then (elim p.friendly_name [
          | none ↦ return (no_payload, false)
          | some name ↦ (do perform alloc; return (payload_of (some name), true))
        ])
        else (if type == tlv_hw_id_property
            then (do
              ok ← malloc p
              if not ok then return (no_payload, false) else (do
                id ← lift (write (replicate 64 0) 0 (p.hw_id 64).0)
                return (record { block = some id; size = ucs2_size 64 0 id }, true)))
            else return (no_payload, false)))

unfoldable pub answer_large_tlv : Port → List ℕ → M (Unit {0})
unfolding requested_payload send_large_tlv_response
answer_large_tlv p frame = do
  offset ← lift (read_u16 p.little frame 34)
  type ← lift (get_elem? frame 32)
  (payload, should_free) ← requested_payload p type
  send_large_tlv_response p frame payload (lltd_ntohs p.little offset)
  if should_free then perform free else done

unfoldable pub parse_query_large_tlv : Port → List ℕ → M (Unit {0})
unfolding answer_large_tlv
parse_query_large_tlv p frame = do
  seq ← lift (header_seq_number p.little frame)
  if lltd_ntohs p.little seq == 0 then done else (do
    real_src ← lift (header_real_source frame)
    eth_src ← lift (header_source frame)
    modify λ st.
        set_active_mapper real_src eth_src (record st { mapper_seq = lltd_ntohs p.little seq })
    answer_large_tlv p frame)
