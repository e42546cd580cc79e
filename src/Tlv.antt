-- ===== src/Tlv.antt =====
-- lltdResponder/lltdTlvOps.c: the functions that write one property of the Hello frame each. Each
-- takes the buffer and the offset, and gives the buffer afterwards and the size that the function
-- returns; `none` is a store past the end of the buffer.
pub mod Fits
use lltdresponder.Base.{
  ℕ, ◌+◌, ◌*◌, ◌/◌, ◌%◌, ◌==◌, ltb, if◌then◌else◌, Option, none, some, List, [], ◌∷◌, replicate, u8,
  u32,
}
use mathlib.Core.Option
use Prim.Native.Nat.{bit_or}
use lltdresponder.Base.Fault.{◌>>=◌, write}
use lltdresponder.Protocol.{
  tlv_host_id, tlv_characterisics, tlv_if_type, tlv_wifimode, tlv_bssid, tlv_ssid, tlv_ipv4,
  tlv_ipv6, tlv_wifi_max_rate, tlv_perf_counter_frequency, tlv_link_speed, tlv_wifi_rssi,
  tlv_icon_image, tlv_hostname, tlv_support_url, tlv_friendly_name, tlv_uuid, tlv_hw_id_property,
  tlv_qos_characteristics, eofpropmarker, config_tlv_qos_l2_fwd, config_tlv_qos_vlan,
  config_tlv_qos_prio_tag,
}
use lltdresponder.Wire.Endian.{lltd_htons, lltd_htonl, store16, store32}
use lltdresponder.Wire.Address.{address_bytes, zero_address}
use lltdresponder.Port.{Port}

abbrev pub Setter : Type 0
Setter = List ℕ → ℕ → Option (List ℕ × ℕ)

-- The type, the length, and a payload copied behind them.
unfoldable pub set_tlv : ℕ → ℕ → List ℕ → Setter
set_tlv type length payload buffer offset = do
  b ← write buffer offset (type ∷ [])
  b ← write b (offset + 1) (length ∷ [])
  b ← write b (offset + 2) payload
  some (b, 2 + length)

-- A text that the platform writes straight into the buffer, with room for `limit` bytes: the type,
-- the text, and then the length, cut to the limit.
unfoldable pub set_text_tlv : ℕ → ℕ → (ℕ → List ℕ × ℕ) → Setter
set_text_tlv type limit get buffer offset = do
  b ← write buffer offset (type ∷ [])
  let written = if ltb limit (get limit).1 then limit else (get limit).1
  b ← write b (offset + 2) (get limit).0
  b ← write b (offset + 1) (u8 written ∷ [])
  some (b, 2 + written)

-- A property that is written in a type and a length alone.
unfoldable pub set_empty_tlv : ℕ → Setter
set_empty_tlv type buffer offset = do
  b ← write buffer offset (type ∷ [])
  b ← write b (offset + 1) (0 ∷ [])
  some (b, 2)

module _ (p : Port) where
  unfoldable pub set_hostname_tlv : Setter
  unfolding set_text_tlv
  set_hostname_tlv = set_text_tlv tlv_hostname 32 p.hostname

  unfoldable pub set_host_id_tlv : Setter
  unfolding set_tlv
  set_host_id_tlv = set_tlv tlv_host_id 6 (address_bytes (Option.get_or p.mac_address zero_address))

  unfoldable pub set_characteristics_tlv : Setter
  unfolding set_tlv
  set_characteristics_tlv =
      set_tlv tlv_characterisics 4
        (store32 p.little (lltd_htonl p.little (u32 (p.characteristics_flags * 65536))))

  -- 1,000,000 as eight bytes, the high one first.
  unfoldable pub set_perf_counter_tlv : Setter
  unfolding set_tlv
  set_perf_counter_tlv =
      let freq : ℕ = 1000000 in
      set_tlv tlv_perf_counter_frequency 8 (
        freq / 72057594037927936 % 256
        ∷ freq / 281474976710656 % 256
        ∷ freq / 1099511627776 % 256
        ∷ freq / 4294967296 % 256
        ∷ freq / 16777216 % 256
        ∷ freq / 65536 % 256
        ∷ freq / 256 % 256
        ∷ freq % 256
        ∷ [])

  unfoldable pub set_support_info_tlv : Setter
  unfolding set_text_tlv
  set_support_info_tlv = set_text_tlv tlv_support_url 64 p.support_url

  unfoldable pub set_uuid_tlv : Setter
  unfolding set_tlv set_empty_tlv
  set_uuid_tlv buffer offset = elim p.upnp_uuid [
    | some uuid ↦ set_tlv tlv_uuid 16 uuid buffer offset
    | none ↦ set_empty_tlv tlv_uuid buffer offset
  ]

  -- Nothing if there is no identifier: then the type and the length are not written either.
  unfoldable pub set_hardware_id_tlv : Setter
  set_hardware_id_tlv buffer offset = do
    b ← write buffer (offset + 2) (p.hw_id 64).0
    let data_len = if ltb 64 (p.hw_id 64).1 then 64 else (p.hw_id 64).1
    if data_len == 0
        then some (b, 0)
        else (write b offset (tlv_hw_id_property ∷ []) >>= λ b'.
            write b' (offset + 1) (u8 data_len ∷ []) >>= λ b''. some (b'', 2 + data_len))

  unfoldable pub set_qos_characteristics_tlv : Setter
  unfolding set_tlv
  set_qos_characteristics_tlv = set_tlv tlv_qos_characteristics 4 (
      store32 p.little (
        lltd_htonl p.little (
          bit_or (bit_or config_tlv_qos_l2_fwd config_tlv_qos_prio_tag) config_tlv_qos_vlan
          * 65536)))

  unfoldable pub set_physical_medium_tlv : Setter
  unfolding set_tlv
  set_physical_medium_tlv =
      set_tlv tlv_if_type 4 (store32 p.little (lltd_htonl p.little (Option.get_or p.if_type 0)))

  -- The address is in network order in memory already.
  unfoldable pub set_ipv4_tlv : Setter
  unfolding set_tlv
  set_ipv4_tlv = set_tlv tlv_ipv4 4 (store32 p.little (Option.get_or p.ipv4_address 0))

  unfoldable pub set_ipv6_tlv : Setter
  unfolding set_tlv
  set_ipv6_tlv = set_tlv tlv_ipv6 16 (Option.get_or p.ipv6_address (replicate 16 0))

  unfoldable pub set_link_speed_tlv : Setter
  unfolding set_tlv
  set_link_speed_tlv =
      set_tlv tlv_link_speed 4
        (store32 p.little (lltd_htonl p.little (Option.get_or p.link_speed_100bps 0)))

  unfoldable pub set_wireless_tlv : Setter
  unfolding set_tlv
  set_wireless_tlv buffer offset = elim p.wifi_mode [
    | none ↦ some (buffer, 0)
    | some mode ↦ set_tlv tlv_wifimode 1 (mode ∷ []) buffer offset
  ]

  unfoldable pub set_bssid_tlv : Setter
  unfolding set_tlv
  set_bssid_tlv buffer offset = elim p.bssid [
    | none ↦ some (buffer, 0)
    | some bssid ↦ set_tlv tlv_bssid 6 (address_bytes bssid) buffer offset
  ]

  -- The length is first stored as 0.
  unfoldable pub set_ssid_tlv : Setter
  unfolding set_text_tlv
  set_ssid_tlv buffer offset = do
    b ← write buffer offset (tlv_ssid ∷ [])
    b ← write b (offset + 1) (0 ∷ [])
    set_text_tlv tlv_ssid 32 p.ssid b offset

  unfoldable pub set_wifi_max_rate_tlv : Setter
  unfolding set_tlv
  set_wifi_max_rate_tlv =
      set_tlv tlv_wifi_max_rate 2
        (store16 p.little (lltd_htons p.little (Option.get_or p.wifi_max_rate 0)))

  -- (uint32_t)(int32_t) extends the sign of the int8_t.
  unfoldable pub set_wifi_rssi_tlv : Setter
  unfolding set_tlv
  set_wifi_rssi_tlv =
      let rssi = Option.get_or p.wifi_rssi 0 in
      let extended = if ltb rssi 128 then rssi else rssi + 0xffffff00 in
      set_tlv tlv_wifi_rssi 4 (store32 p.little (lltd_htonl p.little extended))

  unfoldable pub set_80211_medium_tlv : Setter
  unfolding set_tlv
  set_80211_medium_tlv =
      set_tlv tlv_if_type 4
        (store32 p.little (lltd_htonl p.little (Option.get_or p.wifi_phy_medium 0)))

unfoldable pub set_icon_image_tlv : Setter
unfolding set_empty_tlv
set_icon_image_tlv = set_empty_tlv tlv_icon_image

unfoldable pub set_friendly_name_tlv : Setter
unfolding set_empty_tlv
set_friendly_name_tlv = set_empty_tlv tlv_friendly_name

unfoldable pub set_end_of_property_tlv : Setter
set_end_of_property_tlv buffer offset = do b ← write buffer offset (eofpropmarker ∷ []); some (b, 1)

-- The properties that are not written yet: `setDetailedIconTLV`, `setComponentTableTLV`,
-- `setSeeslistWorkingSetTLV`, `setComponentTable` and the three tables of access points.
unfoldable pub set_nothing : Setter
set_nothing buffer offset = some (buffer, 0)

unfoldable pub set_ap_association_table_tlv : Setter
unfolding set_nothing
set_ap_association_table_tlv = set_nothing

unfoldable pub set_repeater_ap_lineage_tlv : Setter
unfolding set_nothing
set_repeater_ap_lineage_tlv = set_nothing

unfoldable pub set_repeater_ap_table_tlv : Setter
unfolding set_nothing
set_repeater_ap_table_tlv = set_nothing
