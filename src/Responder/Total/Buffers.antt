-- ===== src/Responder/Total/Buffers.antt =====
-- The buffers that the handlers of lltdResponder/lltdBlock.c build frames in, and the room in them.
use lltdresponder.Base.{
  ℕ, zero, suc, ◌+◌, ◌≤◌, ◌<◌, ◌⊎◌, ◌≡◌, refl, ◌∙◌, ltb, Bool, true, false, Option, none, some,
  List, [], ◌∷◌, length, replicate, length-replicate, arith, Option-cases, inl, inr,
}
use lltdresponder.Base.Returns.{Returns}
use lltdresponder.Base.Writes.{Block, write-Block, Sized, sized_then, block_then}
use lltdresponder.Protocol.{
  opcode_hello, opcode_query_resp, opcode_query_large_tlv_resp, tos_discovery,
}
use lltdresponder.Wire.Endian.{store16, lltd_htons}
use lltdresponder.Wire.Address.{EthernetAddress, ethernet_broadcast}
use lltdresponder.Wire.Header.{set_lltd_header}
use lltdresponder.Wire.Header.Reads.{read-some}
use lltdresponder.Wire.Header.Layout.{set_lltd_header-ex}
use lltdresponder.Wire.Header.Writes.{
  set_lltd_header_ex-Sized, set_hello_header-Sized, length-store16,
}
use lltdresponder.Port.{Port}
use lltdresponder.Tlv.{Setter}
use lltdresponder.Tlv.Fits.{
  TakeAll, no_more, and_then, TakeAll-append, Documented, station_setters-TakeAll,
  wifi_setters-TakeAll, last_setters-TakeAll,
}
use lltdresponder.Responder.State.{Probe}
use lltdresponder.Responder.Probes.{our_mac}
use lltdresponder.Responder.Query.{probe_desc, write_descs, query_response, num_descs}
use lltdresponder.Responder.Query.Response.{length-probe_desc}
use lltdresponder.Responder.LargeTlv.{
  Payload, large_tlv_response, max_payload, chunk_length, chunk_bytes,
}
use lltdresponder.Responder.Hello.{write_tlvs, wifi_setters, hello_setters, hello_frame}

pub set_lltd_header-Sized :
    (little : Bool) (n : ℕ) (buffer : List ℕ) (source dest : EthernetAddress) (seq opcode tos : ℕ)
    → length buffer ≡ n
    → 32 ≤ n
    → Sized n 32 (set_lltd_header little buffer source dest seq opcode tos)
set_lltd_header-Sized little n buffer source dest seq opcode tos l h =
    rw (set_lltd_header-ex little buffer source dest seq opcode tos)
      (set_lltd_header_ex-Sized little n buffer l source dest source dest seq opcode tos h)

pub write_tlvs_some :
    (sets : List Setter) (k : ℕ) (buffer : List ℕ) (offset : ℕ)
    → TakeAll k sets
    → offset + k ≤ length buffer
    → Returns (write_tlvs sets buffer offset)
unfolding write_tlvs
write_tlvs_some [] k buffer offset t h = (_, refl)
write_tlvs_some (set ∷ sets) k buffer offset (and_then a c _ _ _ le first rest) h =
    let (b, r, e, l, s) = first buffer offset (omega (arith, le, h)) in
    let (x, e') = write_tlvs_some sets c b (offset + r) rest (omega (arith, le, h, l, s)) in
    (x, rw e e')

hello_setters-TakeAll : (p : Port) → Documented p → TakeAll 160 (hello_setters p)
unfolding hello_setters wifi_setters
hello_setters-TakeAll p d =
    TakeAll-append 94 66 160 _ _ (omega arith) (station_setters-TakeAll p d) (
      TakeAll-append 55 11 66 _ _ (omega arith)
        (elim (Option-cases p.wifi_mode) [
          | inl e ↦ rw e (no_more 55)
          | inr (mode, e) ↦ rw e (wifi_setters-TakeAll p d)
        ])
        (last_setters-TakeAll p d))

-- A Hello frame fits a buffer of 206 bytes.
pub hello_frame_some :
    (p : Port) (mtu : ℕ) (apparent current : EthernetAddress) (generation tos : ℕ)
    → Documented p
    → 206 ≤ mtu
    → Returns (hello_frame p mtu apparent current generation tos)
unfolding hello_frame
hello_frame_some p mtu apparent current generation tos d h =
    sized_then _ _
      (set_lltd_header-Sized p.little mtu (replicate mtu 0) (our_mac p) ethernet_broadcast 0
        opcode_hello tos (length-replicate mtu 0) (omega (arith, h)))
      λ b1 r1 l1 s1.
        sized_then _ _
          (set_hello_header-Sized p.little mtu b1 l1 r1 apparent current generation
            (omega (arith, h, s1)))
          λ b2 r2 l2 s2.
            write_tlvs_some (hello_setters p) 160 b2 (r1 + r2) (hello_setters-TakeAll p d)
              (omega (arith, h, l2, s1, s2))

stop_or_go :
    {A : Type 0} (full : Bool) (a b : Option A)
    → Returns a
    → (full ≡ false → Returns b)
    → Returns (elim full [ true ↦ a | false ↦ b ])
stop_or_go true a b r go = r
stop_or_go false a b r go = go refl

write_descs_some :
    (little : Bool) (mtu : ℕ) (buffer : List ℕ) (offset n : ℕ) (qs : List Probe)
    → length buffer ≡ mtu
    → Returns (write_descs little mtu buffer offset n qs)
unfolding write_descs
write_descs_some little mtu buffer offset n [] l = (_, refl)
write_descs_some little mtu buffer offset zero (q ∷ qs) l = (_, refl)
write_descs_some little mtu buffer offset (suc n) (q ∷ qs) l =
    stop_or_go (ltb mtu (offset + 20)) _ _ (_, refl)
      λ fits.
        let room : offset + 20 ≤ mtu = ground (arith, fits) in
        block_then _ _
          (write-Block buffer offset (probe_desc little q)
            (omega (arith, l, room, length-probe_desc little q)))
          λ b l'. write_descs_some little mtu b (offset + 20) n qs (l' ∙ l)

-- The answer to a Query fits a buffer of 34 bytes, and larger ones.
pub query_response_some :
    (little : Bool) (mtu : ℕ) (our dest : EthernetAddress) (seq count : ℕ) (probes : List Probe)
    → 34 ≤ mtu
    → Returns (query_response little mtu our dest seq count probes)
unfolding query_response
query_response_some little mtu our dest seq count probes h =
    let n = num_descs mtu count in
    sized_then _ _
      (set_lltd_header-Sized little mtu (replicate mtu 0) our dest seq opcode_query_resp
        tos_discovery (length-replicate mtu 0) (omega (arith, h)))
      λ b1 r1 l1 s1.
        block_then _ _
          (write-Block b1 32 (store16 little (lltd_htons little n))
            (omega (arith, h, l1, length-store16 little (lltd_htons little n))))
          λ b2 l2. write_descs_some little mtu b2 (r1 + 2) n probes (l2 ∙ l1)

-- The data of a property are there up to its size.
abbrev pub Whole : Payload → Type 0
Whole payload = elim payload.block [ none ↦ Unit {0} | some block ↦ payload.size ≤ length block ]

abbrev data_of : List ℕ → ℕ → Payload
data_of block size = record { block = some block; size = size }

chunk_length_inside :
    (room size offset : ℕ) (block : List ℕ)
    → room < 65536
    → let n = (chunk_length room (data_of block size) offset).0 in
      (n ≤ room) × ((n ≡ 0) ⊎ (offset + n ≤ size))
unfolding chunk_length
chunk_length_inside room size offset block small = ground (arith, small)

copied :
    (block : List ℕ) (size offset n : ℕ)
    → (n ≡ 0) ⊎ (offset + n ≤ size)
    → size ≤ length block
    → Block n (chunk_bytes (data_of block size) offset n)
unfolding chunk_bytes
copied block size offset zero h whole = ([], refl, refl)
copied block size offset (suc n) (inl none_left) whole = absurd (omega (arith, none_left))
copied block size offset (suc n) (inr inside) whole =
    read-some block offset (suc n) (omega (arith, inside, whole))

chunk_Fits :
    (room : ℕ) (o : Option (List ℕ)) (size offset : ℕ)
    → room < 65536
    → Whole (record { block = o; size = size })
    → let n = (chunk_length room (record { block = o; size = size }) offset).0 in
      (n ≤ room) × Block n (chunk_bytes (record { block = o; size = size }) offset n)
unfolding chunk_length chunk_bytes
chunk_Fits room none size offset small whole = (omega arith, ([], refl, refl))
chunk_Fits room (some block) size offset small whole =
    let inside = chunk_length_inside room size offset block small in
    (inside.0, copied block size offset _ inside.1 whole)

max_payload_small : (mtu : ℕ) → max_payload mtu < 65536
unfolding max_payload
max_payload_small mtu = ground arith

-- The answer to a QueryLargeTlv fits its buffer.
pub large_tlv_response_some :
    (little : Bool) (mtu : ℕ) (our dest : EthernetAddress) (seq : ℕ) (payload : Payload)
    (offset : ℕ)
    → Whole payload
    → Returns (large_tlv_response little mtu our dest seq payload offset)
unfolding large_tlv_response
large_tlv_response_some little mtu our dest seq payload offset whole =
    let room = max_payload mtu in
    let (le, copy) =
      chunk_Fits room payload.block payload.size offset (max_payload_small mtu) whole in
    let (n, len) = chunk_length room payload offset in
    sized_then _ _
      (set_lltd_header-Sized little (34 + room) (replicate (34 + room) 0) our dest seq
        opcode_query_large_tlv_resp tos_discovery (length-replicate (34 + room) 0) (omega arith))
      λ b1 r1 l1 s1.
        block_then _ _
          (write-Block b1 32 (store16 little (lltd_htons little len))
            (omega (arith, l1, length-store16 little (lltd_htons little len))))
          λ b2 l2. block_then _ _ copy λ bytes l3.
            block_then _ _ (write-Block b2 34 bytes (omega (arith, l1, l2, l3, le)))
              λ b3 l4. (_, refl)
