-- ===== src/Responder/Hello.antt =====
-- `answerHello` of lltdResponder/lltdBlock.c: the Hello frame that answers a Discover frame.
use lltdresponder.Base.{
  ℕ, ◌+◌, ◌==◌, if◌then◌else◌, ◌&&◌, not, Option, none, some, List, [], ◌∷◌, ◌++◌, replicate, take,
}
use lltdresponder.Protocol.{opcode_hello}
use lltdresponder.Wire.Endian.{lltd_ntohs}
use lltdresponder.Wire.Address.{EthernetAddress, ethernet_broadcast}
use lltdresponder.Wire.Header.{
  read_u16, header_tos, header_source, header_real_source, header_seq_number, set_lltd_header,
  set_hello_header,
}
use lltdresponder.Port.{free, Port}
use lltdresponder.Tlv.{
  Setter, set_hostname_tlv, set_host_id_tlv, set_characteristics_tlv, set_perf_counter_tlv,
  set_qos_characteristics_tlv, set_physical_medium_tlv, set_ipv4_tlv, set_ipv6_tlv,
  set_link_speed_tlv, set_wireless_tlv, set_bssid_tlv, set_ssid_tlv, set_wifi_max_rate_tlv,
  set_wifi_rssi_tlv, set_icon_image_tlv, set_friendly_name_tlv, set_end_of_property_tlv,
  set_ap_association_table_tlv, set_repeater_ap_lineage_tlv, set_repeater_ap_table_tlv,
}
use lltdresponder.Responder.State.{
  M, ◌>>=◌, ◌>>◌, done, lift, get, modify, perform, malloc, send_frame, set_active_mapper,
  mapper_generation_for_tos, set_mapper_generation,
}
use lltdresponder.Responder.Probes.{our_mac}
use lltdresponder.Responder.Query.{effective_mtu}

-- `offset += set…(buffer, offset)`, one after the other.
unfoldable pub write_tlvs : List Setter → Setter
write_tlvs [] buffer offset = some (buffer, offset)
write_tlvs (set ∷ sets) buffer offset = elim (set buffer offset) [
  | none ↦ none
  | some (b, n) ↦ write_tlvs sets b (offset + n)
]

-- The properties of an interface that has a Wi-Fi mode.
unfoldable pub wifi_setters : Port → List Setter
wifi_setters p =
    set_wireless_tlv p
    ∷ set_bssid_tlv p
    ∷ set_ssid_tlv p
    ∷ set_wifi_max_rate_tlv p
    ∷ set_wifi_rssi_tlv p
    ∷ set_ap_association_table_tlv
    ∷ set_repeater_ap_lineage_tlv
    ∷ set_repeater_ap_table_tlv
    ∷ []

unfoldable pub hello_setters : Port → List Setter
unfolding wifi_setters
hello_setters p =
    (set_host_id_tlv p
      ∷ set_characteristics_tlv p
      ∷ set_physical_medium_tlv p
      ∷ set_ipv4_tlv p
      ∷ set_ipv6_tlv p
      ∷ set_perf_counter_tlv p
      ∷ set_link_speed_tlv p
      ∷ set_hostname_tlv p
      ∷ [])
    ++ ((elim p.wifi_mode [ none ↦ [] | some mode ↦ wifi_setters p ])
        ++ (set_qos_characteristics_tlv p
            ∷ set_icon_image_tlv
            ∷ set_friendly_name_tlv
            ∷ set_end_of_property_tlv
            ∷ []))

-- The frame in a zeroed buffer of `mtu` bytes, and its length.
unfoldable pub hello_frame :
    Port
    → (mtu : ℕ) (apparent_mapper current_mapper : EthernetAddress) (generation tos : ℕ)
    → Option (List ℕ × ℕ)
unfolding write_tlvs hello_setters
hello_frame p mtu apparent_mapper current_mapper generation tos =
    elim (set_lltd_header p.little (replicate mtu 0) (our_mac p) ethernet_broadcast 0 opcode_hello
      tos) [
        | none ↦ none
        | some (b, offset) ↦
            elim (set_hello_header p.little b offset apparent_mapper current_mapper generation) [
              | none ↦ none
              | some (b', n) ↦ write_tlvs (hello_setters p) b' (offset + n)
            ]
      ]

-- The first generation that is not 0 is kept.
unfoldable pub keep_generation : ℕ → ℕ → M (Unit {0})
keep_generation tos generation = modify λ st.
    if mapper_generation_for_tos st tos == 0 && not (generation == 0)
    then set_mapper_generation tos generation st
    else st

-- `answerHello` behind the allocation of the buffer.
unfoldable pub send_hello : Port → List ℕ → M (Unit {0})
unfolding keep_generation hello_frame
send_hello p frame = do
  real_src ← lift (header_real_source frame)
  eth_src ← lift (header_source frame)
  modify (set_active_mapper real_src eth_src)
  seq ← lift (header_seq_number p.little frame)
  modify (λ st. record st { mapper_seq = lltd_ntohs p.little seq })
  generation ← lift (read_u16 p.little frame 32)
  tos ← lift (header_tos frame)
  keep_generation tos (lltd_ntohs p.little generation)
  st ← get
  (buffer, offset) ←
      lift (hello_frame p (effective_mtu p) eth_src real_src (mapper_generation_for_tos st tos) tos)
  _ ← send_frame p (take offset buffer)
  perform free

unfoldable pub answer_hello : Port → List ℕ → M (Unit {0})
unfolding send_hello
answer_hello p frame = do ok ← malloc p; if not ok then done else send_hello p frame
