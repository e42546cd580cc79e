-- ===== src/Protocol.antt =====
-- lltdResponder/lltdProtocol.h: the numbers of the protocol. The layout of the packed structures
-- stands with the functions that read and write them (Wire, Tlv, Responder).
use lltdresponder.Base.{ℕ}

abbrev pub lltd_ether_type : ℕ
lltd_ether_type = 0x88D9

-- Types of service.
abbrev pub tos_discovery : ℕ
tos_discovery = 0

abbrev pub tos_quick_discovery : ℕ
tos_quick_discovery = 1

-- Opcodes of the discovery service.
abbrev pub opcode_discover : ℕ
opcode_discover = 0

abbrev pub opcode_hello : ℕ
opcode_hello = 1

abbrev pub opcode_emit : ℕ
opcode_emit = 2

abbrev pub opcode_train : ℕ
opcode_train = 3

abbrev pub opcode_probe : ℕ
opcode_probe = 4

abbrev pub opcode_ack : ℕ
opcode_ack = 5

abbrev pub opcode_query : ℕ
opcode_query = 6

abbrev pub opcode_query_resp : ℕ
opcode_query_resp = 7

abbrev pub opcode_reset : ℕ
opcode_reset = 8

abbrev pub opcode_charge : ℕ
opcode_charge = 9

abbrev pub opcode_query_large_tlv : ℕ
opcode_query_large_tlv = 0x0B

abbrev pub opcode_query_large_tlv_resp : ℕ
opcode_query_large_tlv_resp = 0x0C

-- Types of the properties in a Hello frame.
abbrev pub tlv_host_id : ℕ
tlv_host_id = 0x01

abbrev pub tlv_characterisics : ℕ
tlv_characterisics = 0x02

abbrev pub tlv_if_type : ℕ
tlv_if_type = 0x03

abbrev pub tlv_wifimode : ℕ
tlv_wifimode = 0x04

abbrev pub tlv_bssid : ℕ
tlv_bssid = 0x05

abbrev pub tlv_ssid : ℕ
tlv_ssid = 0x06

abbrev pub tlv_ipv4 : ℕ
tlv_ipv4 = 0x07

abbrev pub tlv_ipv6 : ℕ
tlv_ipv6 = 0x08

abbrev pub tlv_wifi_max_rate : ℕ
tlv_wifi_max_rate = 0x09

abbrev pub tlv_perf_counter_frequency : ℕ
tlv_perf_counter_frequency = 0x0A

abbrev pub tlv_link_speed : ℕ
tlv_link_speed = 0x0C

abbrev pub tlv_wifi_rssi : ℕ
tlv_wifi_rssi = 0x0D

abbrev pub tlv_icon_image : ℕ
tlv_icon_image = 0x0E

abbrev pub tlv_hostname : ℕ
tlv_hostname = 0x0F

abbrev pub tlv_support_url : ℕ
tlv_support_url = 0x10

abbrev pub tlv_friendly_name : ℕ
tlv_friendly_name = 0x11

abbrev pub tlv_uuid : ℕ
tlv_uuid = 0x12

abbrev pub tlv_hw_id_property : ℕ
tlv_hw_id_property = 0x13

abbrev pub tlv_qos_characteristics : ℕ
tlv_qos_characteristics = 0x14

abbrev pub eofpropmarker : ℕ
eofpropmarker = 0x00

-- The bits of `Config_TLV_QOS_*`.
abbrev pub config_tlv_qos_l2_fwd : ℕ
config_tlv_qos_l2_fwd = 0x8000

abbrev pub config_tlv_qos_vlan : ℕ
config_tlv_qos_vlan = 0x4000

abbrev pub config_tlv_qos_prio_tag : ℕ
config_tlv_qos_prio_tag = 0x2000
