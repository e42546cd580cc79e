-- ===== src/Examples/Frames.antt =====
-- Frames, and what the responder does with them, at concrete bytes.
use lltdresponder.Base.{
  ℕ, ◌+◌, ◌-◌, ◌*◌, ◌≤◌, ◌≡◌, ◌≢◌, refl, true, none, some, List, [], ◌∷◌, ◌++◌, take, drop,
  replicate, arith,
}
use lltdresponder.Base.Fault.{◌>>=◌}
use lltdresponder.Protocol.{
  opcode_query_resp, opcode_query_large_tlv_resp, opcode_discover, opcode_hello, opcode_reset,
  tos_discovery,
}
use lltdresponder.Wire.Endian.{
  store16, store32, lltd_htons, lltd_htonl, lltd_ntohs, be16, be32, store16-htons, store32-htonl,
}
use lltdresponder.Wire.Address.{EthernetAddress, address}
use lltdresponder.Wire.Header.{
  header_destination, header_source, header_tos, header_opcode, header_real_destination,
  header_real_source, header_seq_number, set_lltd_header_ex,
}
use lltdresponder.Wire.Header.Layout.{
  DemultiplexHeader, header_bytes, zero_header, lltd_header, set_lltd_header_ex-bytes,
  header-fields,
}
use lltdresponder.Port.{Effect, Port}
use lltdresponder.Responder.State.{Probe, World, zero_state}
use lltdresponder.Responder.Probes.{seen}
use lltdresponder.Responder.Query.{query_response}
use lltdresponder.Responder.Query.Response.{listed, wire_descs, query_response-bytes}
use lltdresponder.Responder.LargeTlv.{payload_of, large_tlv_response}
use lltdresponder.Responder.LargeTlv.Chunks.{chunk_size, length_field, fetch, fetch-drop}
use lltdresponder.Responder.LargeTlv.Answer.{large_tlv_response-bytes}
use lltdresponder.Responder.Dispatch.{handle_frame}
use lltdresponder.Responder.Mapper.{handle_frame-foreign, handle_frame-reset}
use lltdresponder.Responder.Triple.{After}
use lltdresponder.Responder.Sound.{Sound, NoTwin, allocs, frees}
use lltdresponder.Responder.Sound.Frame.{handle_frame-Sound}

abbrev mapper : EthernetAddress
mapper = address 2 0 0 0 0 1

abbrev ours : EthernetAddress
ours = address 2 0 0 0 0 9

abbrev probe : Probe
probe = record { type = 256; real_source_addr = mapper; source_addr = mapper; dest_addr = ours }

store16-htons_example : store16 true (lltd_htons true 0x1234) ≡ be16 0x1234
store16-htons_example = store16-htons true 0x1234 (omega arith)

store32-htonl_example : store32 true (lltd_htonl true 0x12345678) ≡ be32 0x12345678
store32-htonl_example = store32-htonl true 0x12345678 (omega arith)

set_lltd_header_ex-bytes_example :
    set_lltd_header_ex true
      (header_bytes zero_header ++ (7 ∷ []))
      ours
      mapper
      ours
      mapper
      3
      opcode_hello
      tos_discovery
    ≡ some (
      header_bytes (lltd_header ours mapper ours mapper 3 opcode_hello tos_discovery) ++ (7 ∷ []),
      32,
    )
set_lltd_header_ex-bytes_example =
    set_lltd_header_ex-bytes true zero_header (7 ∷ []) ours mapper ours mapper 3 opcode_hello
      tos_discovery (omega arith)

abbrev header_of : ℕ → DemultiplexHeader
header_of opcode = lltd_header mapper ours mapper ours 3 opcode tos_discovery

header-fields_example :
    (header_destination (header_bytes (header_of 0) ++ []) ≡ some ours)
    × (header_source (header_bytes (header_of 0) ++ []) ≡ some mapper)
    × (header_tos (header_bytes (header_of 0) ++ []) ≡ some 0)
    × (header_opcode (header_bytes (header_of 0) ++ []) ≡ some 0)
    × (header_real_destination (header_bytes (header_of 0) ++ []) ≡ some ours)
    × (header_real_source (header_bytes (header_of 0) ++ []) ≡ some mapper)
    × ((header_seq_number true (header_bytes (header_of 0) ++ []) >>= λ s. some (lltd_ntohs true s))
        ≡ some 3)
header-fields_example = header-fields true (header_of 0) [] (omega arith)

query_response-bytes_example :
    (query_response true 80 ours mapper 3 1 (probe ∷ [])
      ≡ some (
        (header_bytes (lltd_header ours mapper ours mapper 3 opcode_query_resp tos_discovery)
              ++ be16 (listed 80 (probe ∷ [])))
            ++ (wire_descs true (take (listed 80 (probe ∷ [])) (probe ∷ []))
                ++ replicate (80 - 34 - 20 * listed 80 (probe ∷ [])) 0),
        34 + 20 * listed 80 (probe ∷ []),
      ))
    × (34 + 20 * listed 80 (probe ∷ []) ≤ 80)
query_response-bytes_example =
    query_response-bytes true 80 ours mapper 3 (probe ∷ []) (omega arith) (omega arith)
      (omega arith)

abbrev icon : List ℕ
icon = 1 ∷ 2 ∷ 3 ∷ 4 ∷ 5 ∷ []

fetch-drop_example : fetch 3 2 icon 0 ≡ some (drop 0 icon)
fetch-drop_example =
    fetch-drop 3 2 0 icon (omega arith) (omega arith) (omega arith) (omega arith) (omega arith)
      (omega arith)

large_tlv_response-bytes_example :
    (large_tlv_response true 36 ours mapper 3 (payload_of (some icon)) 2
      ≡ some (
          (header_bytes
              (lltd_header ours mapper ours mapper 3 opcode_query_large_tlv_resp tos_discovery)
            ++ be16 (length_field 2 icon 2))
          ++ take (chunk_size 2 icon 2) (drop 2 icon)))
    × (34 + chunk_size 2 icon 2 ≤ 36)
large_tlv_response-bytes_example =
    large_tlv_response-bytes true 36 ours mapper 3 icon 2 (omega arith) (omega arith) (omega arith)
      (omega arith) (omega arith)

-- A platform where all allocations succeed and little else is known.
abbrev port : Port
port = record {
  little = true;
  malloc = λ history. true;
  send_frame = λ history frame. true;
  mtu = none;
  icon_image = some icon;
  friendly_name = none;
  hostname = λ n. ([], 0);
  support_url = λ n. ([], 0);
  upnp_uuid = none;
  hw_id = λ n. ([], 0);
  mac_address = some ours;
  characteristics_flags = 0;
  if_type = none;
  ipv4_address = none;
  ipv6_address = none;
  link_speed_100bps = none;
  wifi_mode = none;
  bssid = none;
  ssid = λ n. ([], 0);
  wifi_max_rate = none;
  wifi_rssi = none;
  wifi_phy_medium = none;
}

-- A mapper is active, and one probe was seen.
abbrev world : World
world = record {
  st = record zero_state {
    see_list = probe ∷ [];
    see_list_count = 1;
    mapper_known = true;
    mapper_real = mapper;
  };
  history = Effect.alloc ∷ [];
}

world-Sound : Sound 0 world
unfolding NoTwin allocs frees seen
world-Sound = record { counted = refl; distinct = (tt, tt); balance = omega arith }

-- A Query is answered.
handle_frame-Sound_example :
    After (λ _. Sound 0) (handle_frame port (header_bytes (header_of 6) ++ []) world)
handle_frame-Sound_example =
    handle_frame-Sound port (header_bytes (header_of 6) ++ []) 0 world world-Sound

other_mapper : mapper ≢ ours
other_mapper e = cc

handle_frame-foreign_example :
    handle_frame port
      (header_bytes (lltd_header ours mapper ours mapper 3 opcode_discover tos_discovery)
        ++ (0 ∷ 1 ∷ []))
      world
    ≡ some (tt, world)
handle_frame-foreign_example =
    handle_frame-foreign port (lltd_header ours mapper ours mapper 3 opcode_discover tos_discovery)
      0 1 [] world refl refl other_mapper

handle_frame-reset_example :
    handle_frame port (header_bytes (header_of opcode_reset) ++ []) world
    ≡ some (
      tt,
      record {
        st = record zero_state { mapper_real = mapper };
        history = replicate 1 Effect.free ++ (Effect.alloc ∷ []);
      },
    )
handle_frame-reset_example = handle_frame-reset port (header_of opcode_reset) [] world refl refl
