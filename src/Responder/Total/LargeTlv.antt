-- ===== src/Responder/Total/LargeTlv.antt =====
-- Faults of `parseQueryLargeTlv` of lltdResponder/lltdBlock.c.
use lltdresponder.Base.{
  ℕ, ◌+◌, ◌≤◌, ◌==◌, Bool, true, false, not, Option, none, some, List, [], ◌∷◌, length, replicate,
  arith,
}
use lltdresponder.Base.Writes.{write-Block}
use lltdresponder.Protocol.{tlv_icon_image, tlv_friendly_name, tlv_hw_id_property}
use lltdresponder.Wire.Endian.{lltd_ntohs}
use lltdresponder.Wire.Header.Reads.{get_elem?-some, read_u16-some, read_address-some}
use lltdresponder.Port.{Port, free, alloc}
use lltdresponder.Tlv.Fits.{Documented}
use lltdresponder.Responder.State.{◌>>◌, return, modify, perform}
use lltdresponder.Responder.Probes.{our_mac}
use lltdresponder.Responder.Query.{effective_mtu}
use lltdresponder.Responder.LargeTlv.{
  no_payload, payload_of, ucs2_size, answer_large_tlv, requested_payload, parse_query_large_tlv,
  send_large_tlv_response, icon_payload, cached_icon, Payload,
}
use lltdresponder.Responder.Total.Buffers.{large_tlv_response_some, Whole}
use lltdresponder.Responder.Total.{
  Total, Total-bind, Total-then, Total-lift, Total-Yields, Yields, Yields-return, Yields-if,
  Yields-after, Yields-bind, Yields-get, Yields-lift_to, Total-get, Total-if, Total-done,
  Total-modify, Total-perform, Total-send, Total-malloc,
}

payload_of-Whole : (o : Option (List ℕ)) → Whole (payload_of o)
payload_of-Whole none = tt
payload_of-Whole (some bytes) = omega arith

ucs2_size_le :
    (default i : ℕ) (text : List ℕ) → i + length text ≤ default → ucs2_size default i text ≤ default
unfolding ucs2_size
ucs2_size_le default i [] h = omega arith
ucs2_size_le default i (a ∷ []) h = omega arith
ucs2_size_le default i (a ∷ b ∷ rest) h =
    ground (arith, ucs2_size_le default (i + 2) rest (omega (arith, h)), h)

platform_icon-Yields :
    (icon : Option (List ℕ))
    → Yields Whole (elim icon [
      | none ↦ return no_payload
      | some icon ↦ (do
        perform alloc
        modify (λ st. record st { small_icon = some icon })
        return (payload_of (some icon)))
    ])
platform_icon-Yields none = Yields-return no_payload tt
platform_icon-Yields (some icon) =
    Yields-after (Total-perform alloc)
      λ u. Yields-after (Total-modify _) λ v. Yields-return _ (payload_of-Whole (some icon))

platform_name-Yields :
    (name : Option (List ℕ))
    → Yields
        (λ (x : Payload × Bool). Whole x.0)
        (elim name [
          | none ↦ return (no_payload, false)
          | some name ↦ (do perform alloc; return (payload_of (some name), true))
        ])
platform_name-Yields none = Yields-return _ tt
platform_name-Yields (some name) =
    Yields-after (Total-perform alloc) λ u. Yields-return _ (payload_of-Whole (some name))

cached_icon-Yields : (p : Port) (icon : Option (List ℕ)) → Yields Whole (cached_icon p icon)
unfolding cached_icon
cached_icon-Yields p (some icon) = Yields-return _ (payload_of-Whole (some icon))
cached_icon-Yields p none = platform_icon-Yields p.icon_image

module _ (p : Port) (frame : List ℕ) where
  module _ (big : 36 ≤ length frame) where
    -- The data of the requested property are there up to its size.
    requested_payload-Yields :
        (type : ℕ)
        → Documented p
        → Yields (λ (x : Payload × Bool). Whole x.0) (requested_payload p type)
    unfolding requested_payload icon_payload
    requested_payload-Yields type d =
        Yields-if (type == tlv_icon_image)
          (λ t.
            Yields-bind (Yields-get λ st. cached_icon-Yields p st.small_icon)
              λ payload whole. Yields-return _ whole)
          (λ t.
            Yields-if (type == tlv_friendly_name) (λ u. platform_name-Yields p.friendly_name)
              (λ u.
                Yields-if (type == tlv_hw_id_property)
                  (λ v. Yields-after (Total-malloc p) λ ok.
                    Yields-if (not ok) (λ w. Yields-return _ tt)
                      (λ w.
                        let (id, e, l) =
                          write-Block (replicate 64 0) 0 (p.hw_id 64).0
                            (omega (arith, (d.hw_id 64).0, (d.hw_id 64).1)) in
                        Yields-lift_to _ _ id e (
                          Yields-return _
                            (omega (arith, l, ucs2_size_le 64 0 id (omega (arith, l)))))))
                  (λ v. Yields-return _ tt)))

    send_large_tlv_response-Total :
        (payload : Payload) (offset : ℕ)
        → Whole payload
        → Total (send_large_tlv_response p frame payload offset)
    unfolding send_large_tlv_response
    send_large_tlv_response-Total payload offset whole =
        Total-lift _ (read_address-some frame 24 (omega (arith, big))) λ real b.
          Total-lift _ (read_address-some frame 6 (omega (arith, big))) λ eth c.
            Total-bind (Total-malloc p) λ ok.
              Total-if (not ok) (λ u. Total-done)
                (λ u. Total-get λ st.
                  Total-lift _
                    (large_tlv_response_some p.little (effective_mtu p) (our_mac p) _ st.mapper_seq
                      payload offset whole)
                    λ x e. Total-bind (Total-send p x) λ sent. Total-perform free)

    pub parse_query_large_tlv-Total : Documented p → Total (parse_query_large_tlv p frame)
    unfolding parse_query_large_tlv answer_large_tlv
    parse_query_large_tlv-Total d =
        Total-lift _ (read_u16-some p.little frame 30 (omega (arith, big))) λ seq a.
          Total-if (lltd_ntohs p.little seq == 0) (λ t. Total-done)
            (λ t. Total-lift _ (read_address-some frame 24 (omega (arith, big))) λ real b.
              Total-lift _ (read_address-some frame 6 (omega (arith, big))) λ eth c.
                Total-then (Total-modify _) (
                  Total-lift _ (read_u16-some p.little frame 34 (omega (arith, big))) λ offset e.
                    Total-lift _ (get_elem?-some frame 32 (omega (arith, big))) λ type f.
                      Total-Yields (requested_payload-Yields type d) λ x whole.
                        Total-then
                          (send_large_tlv_response-Total x.0 (lltd_ntohs p.little offset) whole)
                          (Total-if x.1 (λ u. Total-perform free) (λ u. Total-done))))
