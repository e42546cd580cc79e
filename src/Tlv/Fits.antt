-- ===== src/Tlv/Fits.antt =====
-- How much of the buffer each property of the Hello frame takes, if the platform keeps to what it documents.
use mathlib.Core.Option
use lltdresponder.Base.{
  ℕ, ◌+◌, ◌≤◌, ◌≡◌, refl, ◌∙◌, ltb, if◌then◌else◌, Option, none, some, List, [], ◌∷◌, ◌++◌, length,
  replicate, u8, arith, Option-cases, inl, inr,
}
use lltdresponder.Base.Writes.{Sized, Sized-write}
use lltdresponder.Wire.Header.Writes.{length-store16, length-store32}
use lltdresponder.Port.{Port, Fills, OfLength}
use lltdresponder.Protocol.{tlv_ssid, eofpropmarker}
use lltdresponder.Tlv.{
  Setter, set_tlv, set_text_tlv, set_empty_tlv, set_hostname_tlv, set_host_id_tlv,
  set_characteristics_tlv, set_perf_counter_tlv, set_qos_characteristics_tlv,
  set_physical_medium_tlv, set_ipv4_tlv, set_ipv6_tlv, set_link_speed_tlv, set_wireless_tlv,
  set_bssid_tlv, set_ssid_tlv, set_wifi_max_rate_tlv, set_wifi_rssi_tlv, set_icon_image_tlv,
  set_friendly_name_tlv, set_end_of_property_tlv, set_ap_association_table_tlv,
  set_repeater_ap_lineage_tlv, set_repeater_ap_table_tlv, set_nothing,
}

-- A setter that takes at most `k` bytes.
abbrev pub Takes : ℕ → Setter → Type 0
Takes k set =
    (buffer : List ℕ) (offset : ℕ)
    → offset + k ≤ length buffer
    → Sized (length buffer) k (set buffer offset)

set_tlv-Takes :
    (type size : ℕ) (payload : List ℕ)
    → length payload ≡ size
    → Takes (2 + size) (set_tlv type size payload)
unfolding set_tlv
set_tlv-Takes type size payload l buffer offset h =
    Sized-write buffer offset (type ∷ []) _ refl (omega (arith, h)) λ b1 l1.
      Sized-write b1 (offset + 1) (size ∷ []) _ l1 (omega (arith, h)) λ b2 l2.
        Sized-write b2 (offset + 2) payload _ l2 (omega (arith, h, l))
          λ b3 l3. (b3, 2 + size, refl, l3, omega arith)

set_text_tlv-Takes :
    (type limit : ℕ) (get : ℕ → List ℕ × ℕ)
    → Fills get
    → Takes (2 + limit) (set_text_tlv type limit get)
unfolding set_text_tlv
set_text_tlv-Takes type limit get fills buffer offset h =
    let written = if ltb limit (get limit).1 then limit else (get limit).1 in
    let room : written ≤ limit = ground (arith, (fills limit).1) in
    let text : length (get limit).0 ≤ limit = omega (arith, (fills limit).0, (fills limit).1) in
    Sized-write buffer offset (type ∷ []) _ refl (omega (arith, h)) λ b1 l1.
      Sized-write b1 (offset + 2) (get limit).0 _ l1 (omega (arith, h, text)) λ b2 l2.
        Sized-write b2 (offset + 1) (u8 written ∷ []) _ l2 (omega (arith, h))
          λ b3 l3. (b3, 2 + written, refl, l3, omega (arith, room))

set_empty_tlv-Takes : (type : ℕ) → Takes 2 (set_empty_tlv type)
unfolding set_empty_tlv
set_empty_tlv-Takes type buffer offset h =
    Sized-write buffer offset (type ∷ []) _ refl (omega (arith, h)) λ b1 l1.
      Sized-write b1 (offset + 1) (0 ∷ []) _ l1 (omega (arith, h))
        λ b2 l2. (b2, 2, refl, l2, omega arith)

set_nothing-Takes : Takes 0 set_nothing
unfolding set_nothing
set_nothing-Takes buffer offset h = (buffer, 0, refl, refl, omega arith)

set_end_of_property_tlv-Takes : Takes 1 set_end_of_property_tlv
unfolding set_end_of_property_tlv
set_end_of_property_tlv-Takes buffer offset h =
    Sized-write buffer offset (eofpropmarker ∷ []) _ refl (omega (arith, h))
      λ b l. (b, 1, refl, l, omega arith)

-- Setters that take at most `k` bytes together.
pub data TakeAll : ℕ → List Setter → Type 0 where
  no_more : (m : ℕ) → TakeAll m []
  and_then :
      (j k m : ℕ) (set : Setter) (sets : List Setter)
      → j + k ≤ m
      → Takes j set
      → TakeAll k sets
      → TakeAll m (set ∷ sets)

TakeAll-weaken : (k m : ℕ) (sets : List Setter) → k ≤ m → TakeAll k sets → TakeAll m sets
TakeAll-weaken k m [] h t = no_more m
TakeAll-weaken k m (set ∷ sets) h (and_then a b _ _ _ le first rest) =
    and_then a b m set sets (omega (arith, le, h)) first rest

pub TakeAll-append :
    (j k m : ℕ) (sets others : List Setter)
    → j + k ≤ m
    → TakeAll j sets
    → TakeAll k others
    → TakeAll m (sets ++ others)
TakeAll-append j k m [] others h t u = TakeAll-weaken k m others (omega (arith, h)) u
TakeAll-append j k m (set ∷ sets) others h (and_then a b _ _ _ le first rest) u =
    and_then a (b + k) m set (sets ++ others) (omega (arith, le, h)) first
      (TakeAll-append b k (b + k) sets others (omega arith) rest u)

-- What the setters rely on: texts of the length that is said, and addresses of 16 bytes.
pub record Documented (p : Port) : Type 0 where
  pub hostname : Fills p.hostname
  pub ssid : Fills p.ssid
  pub hw_id : Fills p.hw_id
  pub ipv6 : OfLength 16 p.ipv6_address

sixteen : (o : Option (List ℕ)) → OfLength 16 o → length (Option.get_or o (replicate 16 0)) ≡ 16
sixteen none h = refl
sixteen (some bytes) h = h

module _ (p : Port) (documented : Documented p) where
  set_ipv6_tlv-Takes : Takes 18 (set_ipv6_tlv p)
  unfolding set_ipv6_tlv
  set_ipv6_tlv-Takes = set_tlv-Takes _ 16 _ (sixteen p.ipv6_address documented.ipv6)

  set_wireless_tlv-Takes : Takes 3 (set_wireless_tlv p)
  unfolding set_wireless_tlv
  set_wireless_tlv-Takes buffer offset h = elim (Option-cases p.wifi_mode) [
    | inl e ↦ rw e (buffer, 0, refl, refl, omega arith)
    | inr (mode, e) ↦ rw e (set_tlv-Takes _ 1 _ refl buffer offset h)
  ]

  set_bssid_tlv-Takes : Takes 8 (set_bssid_tlv p)
  unfolding set_bssid_tlv
  set_bssid_tlv-Takes buffer offset h = elim (Option-cases p.bssid) [
    | inl e ↦ rw e (buffer, 0, refl, refl, omega arith)
    | inr (bssid, e) ↦ rw e (set_tlv-Takes _ 6 _ refl buffer offset h)
  ]

  set_ssid_tlv-Takes : Takes 34 (set_ssid_tlv p)
  unfolding set_ssid_tlv
  set_ssid_tlv-Takes buffer offset h =
      Sized-write buffer offset (tlv_ssid ∷ []) _ refl (omega (arith, h)) λ b1 l1.
        Sized-write b1 (offset + 1) (0 ∷ []) _ l1 (omega (arith, h)) λ b2 l2.
          let (b, r, e, l, s) =
            set_text_tlv-Takes tlv_ssid 32 p.ssid documented.ssid b2 offset
              (omega (arith, h, l2)) in
          (b, r, e, l ∙ l2, s)

  pub station_setters-TakeAll : TakeAll 94 (
      set_host_id_tlv p
      ∷ set_characteristics_tlv p
      ∷ set_physical_medium_tlv p
      ∷ set_ipv4_tlv p
      ∷ set_ipv6_tlv p
      ∷ set_perf_counter_tlv p
      ∷ set_link_speed_tlv p
      ∷ set_hostname_tlv p
      ∷ [])
  unfolding set_host_id_tlv set_characteristics_tlv set_physical_medium_tlv set_ipv4_tlv
      set_perf_counter_tlv set_link_speed_tlv set_hostname_tlv
  station_setters-TakeAll = and_then 8 86 94 _ _ (omega arith) (set_tlv-Takes _ 6 _ refl) (
      and_then 6 80 86 _ _ (omega arith) (set_tlv-Takes _ 4 _ (length-store32 p.little _)) (
        and_then 6 74 80 _ _ (omega arith) (set_tlv-Takes _ 4 _ (length-store32 p.little _)) (
          and_then 6 68 74 _ _ (omega arith) (set_tlv-Takes _ 4 _ (length-store32 p.little _)) (
            and_then 18 50 68 _ _ (omega arith) set_ipv6_tlv-Takes (
              and_then 10 40 50 _ _ (omega arith) (set_tlv-Takes _ 8 _ refl) (
                and_then 6 34 40 _ _ (omega arith) (set_tlv-Takes _ 4 _ (length-store32 p.little _))
                  (and_then 34 0 34 _ _ (omega arith)
                    (set_text_tlv-Takes _ 32 _ documented.hostname) (no_more 0))))))))

  pub wifi_setters-TakeAll : TakeAll 55 (
      set_wireless_tlv p
      ∷ set_bssid_tlv p
      ∷ set_ssid_tlv p
      ∷ set_wifi_max_rate_tlv p
      ∷ set_wifi_rssi_tlv p
      ∷ set_ap_association_table_tlv
      ∷ set_repeater_ap_lineage_tlv
      ∷ set_repeater_ap_table_tlv
      ∷ [])
  unfolding set_wifi_max_rate_tlv set_wifi_rssi_tlv set_ap_association_table_tlv
      set_repeater_ap_lineage_tlv set_repeater_ap_table_tlv
  wifi_setters-TakeAll = and_then 3 52 55 _ _ (omega arith) set_wireless_tlv-Takes (
      and_then 8 44 52 _ _ (omega arith) set_bssid_tlv-Takes (
        and_then 34 10 44 _ _ (omega arith) set_ssid_tlv-Takes (
          and_then 4 6 10 _ _ (omega arith) (set_tlv-Takes _ 2 _ (length-store16 p.little _)) (
            and_then 6 0 6 _ _ (omega arith) (set_tlv-Takes _ 4 _ (length-store32 p.little _)) (
              and_then 0 0 0 _ _ (omega arith) set_nothing-Takes (
                and_then 0 0 0 _ _ (omega arith) set_nothing-Takes
                  (and_then 0 0 0 _ _ (omega arith) set_nothing-Takes (no_more 0))))))))

  pub last_setters-TakeAll : TakeAll 11 (
      set_qos_characteristics_tlv p
      ∷ set_icon_image_tlv
      ∷ set_friendly_name_tlv
      ∷ set_end_of_property_tlv
      ∷ [])
  unfolding set_qos_characteristics_tlv set_icon_image_tlv set_friendly_name_tlv
  last_setters-TakeAll =
      and_then 6 5 11 _ _ (omega arith) (set_tlv-Takes _ 4 _ (length-store32 p.little _)) (
        and_then 2 3 5 _ _ (omega arith) (set_empty_tlv-Takes _) (
          and_then 2 1 3 _ _ (omega arith) (set_empty_tlv-Takes _)
            (and_then 1 0 1 _ _ (omega arith) set_end_of_property_tlv-Takes (no_more 0))))
