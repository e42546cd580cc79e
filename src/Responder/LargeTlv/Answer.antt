-- ===== src/Responder/LargeTlv/Answer.antt =====
-- The answer to a QueryLargeTlv frame, byte for byte: `sendLargeTlvResponse` of
-- lltdResponder/lltdBlock.c.
use mathlib.Core.List.{append_assoc}
use lltdresponder.Base.{
  ℕ, zero, suc, ◌+◌, ◌-◌, ◌^◌, ◌<◌, ◌≤◌, ◌≡◌, refl, sym, ap, ◌∙◌, Bool, some, List, [], ◌∷◌, ◌++◌,
  length, take, drop, arith, length-append, length-take, length-drop, length-replicate,
}
use lltdresponder.Base.Fault.{write}
use lltdresponder.Protocol.{opcode_query_large_tlv_resp, tos_discovery}
use lltdresponder.Wire.Endian.{lltd_htons, store16, be16}
use lltdresponder.Wire.Address.{EthernetAddress}
use lltdresponder.Wire.Header.{set_lltd_header}
use lltdresponder.Wire.Header.Layout.{header_bytes, lltd_header}
use lltdresponder.Responder.Query.Response.{answer_header, answer_number, write_next, zeros}
use lltdresponder.Responder.LargeTlv.{
  Payload, payload_of, max_payload, chunk_length, chunk_bytes, large_tlv_response,
}
use lltdresponder.Responder.LargeTlv.Chunks.{
  chunk_size, length_field, chunk_length_lem, chunk_bytes_lem,
}

take-append : (n : ℕ) (xs ys : List ℕ) → n ≡ length xs → take n (xs ++ ys) ≡ xs
take-append zero [] ys e = refl
take-append zero (x ∷ xs) ys e = absurd (omega arith)
take-append (suc n) [] ys e = absurd (omega arith)
take-append (suc n) (x ∷ xs) ys e = rw (take-append n xs ys (omega arith)) refl

large_tlv_response_steps :
    (little : Bool) (mtu : ℕ) (our dest : EthernetAddress) (seq : ℕ) (payload : Payload)
    (offset n len o : ℕ) (b b' b'' bytes : List ℕ)
    → chunk_length (max_payload mtu) payload offset ≡ (n, len)
    → set_lltd_header little
        (zeros (34 + max_payload mtu))
        our
        dest
        seq
        opcode_query_large_tlv_resp
        tos_discovery
      ≡ some (b, o)
    → write b 32 (store16 little (lltd_htons little len)) ≡ some b'
    → chunk_bytes payload offset n ≡ some bytes
    → write b' 34 bytes ≡ some b''
    → large_tlv_response little mtu our dest seq payload offset ≡ some (take (34 + n) b'')
unfolding large_tlv_response
large_tlv_response_steps little mtu our dest seq payload offset n len o b b' b'' bytes e f g h i =
    rw (large_tlv_response, f, e, g, e, h, i, e) refl

max_payload_lem : (mtu : ℕ) → 34 ≤ mtu → mtu < 2 ^ 15 → max_payload mtu ≡ mtu - 34
unfolding max_payload
max_payload_lem mtu h small = ground arith

-- For an MTU of at least 34 and below 2^15, a 16-bit sequence number, a property of less than
-- 2^16 bytes and an offset in it, an answer is the header, the length field and the next bytes
-- of the property, as many as fit the MTU and are there; it does not exceed the MTU.
pub large_tlv_response-bytes :
    (little : Bool) (mtu : ℕ) (our dest : EthernetAddress) (seq : ℕ) (block : List ℕ) (offset : ℕ)
    → 34 ≤ mtu
    → mtu < 2 ^ 15
    → seq < 2 ^ 16
    → length block < 2 ^ 16
    → offset ≤ length block
    → let room = mtu - 34 in
      let n = chunk_size room block offset in
      (large_tlv_response little mtu our dest seq (payload_of (some block)) offset
        ≡ some (
            (header_bytes
                (lltd_header our dest our dest seq opcode_query_large_tlv_resp tos_discovery)
              ++ be16 (length_field room block offset))
            ++ take n (drop offset block)))
      × (34 + n ≤ mtu)
large_tlv_response-bytes little mtu our dest seq block offset fits small s len o =
    let room = mtu - 34 in
    let n = chunk_size room block offset in
    let field = length_field room block offset in
    let h = lltd_header our dest our dest seq opcode_query_large_tlv_resp tos_discovery in
    let bytes = take n (drop offset block) in
    let some_room = max_payload_lem mtu fits small in
    let enough : length bytes ≡ n =
      unfold chunk_size in
      omega (arith, length-take n (drop offset block), length-drop offset block) in
    let narrow : n ≤ room = unfold chunk_size in omega arith in
    let pre = header_bytes h ++ be16 field in
    (
      large_tlv_response_steps little mtu our dest seq (payload_of (some block)) offset n field 32
            (header_bytes h ++ (0 ∷ 0 ∷ zeros (max_payload mtu))) (pre ++ zeros (max_payload mtu))
            (pre ++ (bytes ++ drop (length bytes) (zeros (max_payload mtu)))) bytes
            (rw some_room (chunk_length_lem room offset block (omega arith) len))
            (answer_header little (34 + max_payload mtu) (max_payload mtu) our dest seq _ _ refl s)
            (answer_number little h field (zeros (max_payload mtu))
              (unfold length_field in ground (arith, narrow)))
            (chunk_bytes_lem offset n block (unfold chunk_size in omega arith))
            (write_next pre (zeros (max_payload mtu)) bytes (
              omega
                (arith, enough, narrow, some_room, length-replicate {A = ℕ} (max_payload mtu) 0)))
          ∙ ap some (
              ap (λ b. take (34 + n) b)
                (sym (append_assoc pre bytes (drop (length bytes) (zeros (max_payload mtu)))))
              ∙ take-append (34 + n) (pre ++ bytes) _
                  (omega (arith, enough, length-append pre bytes))),
      omega (arith, narrow),
    )
