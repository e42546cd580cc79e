-- ===== src/Examples/Ports.antt =====
-- The port of Linux, with a loopback interface that has an IPv6 address, at a Discover frame.
use lltdresponder.Base.{ℕ, true, some, List, [], ◌∷◌, ◌++◌, replicate, arith, refl, pos, negsuc}
use mathlib.Core.Option.{some-injective}
use lltdresponder.Base.Returns.{Returns}
use lltdresponder.Protocol.{opcode_discover, tos_discovery}
use lltdresponder.Wire.Address.{address, ethernet_broadcast}
use lltdresponder.Wire.Header.Layout.{header_bytes, lltd_header}
use lltdresponder.Port.Linux.{
  NetworkInterface, IfAddress, inet, inet6, linux_port, linux_port-parse_frame,
}
use lltdresponder.Responder.Dispatch.{parse_frame}
use lltdresponder.Responder.Total.Frame.{EmitFits}

abbrev loopback : NetworkInterface
loopback = record {
  device_name = 108 ∷ 111 ∷ [];
  if_type = 24;
  socket = pos 3;
  medium_type = 0;
  mtu = 1500;
  link_speed = 0;
  flags = 8;
  mac_address = address 2 0 0 0 0 9;
}

abbrev addresses : List IfAddress
addresses =
    record { name = 108 ∷ 111 ∷ []; address = inet 16777343 }
    ∷ record { name = 108 ∷ 111 ∷ []; address = inet6 (replicate 16 1) }
    ∷ []

abbrev discover : List ℕ
discover =
    header_bytes (
      lltd_header (address 2 0 0 0 0 1) ethernet_broadcast (address 2 0 0 0 0 1) ethernet_broadcast
        3 opcode_discover tos_discovery)
    ++ (0 ∷ 5 ∷ 0 ∷ 0 ∷ [])

not_emit : EmitFits true discover
not_emit count op at = absurd (omega (arith, some-injective _ _ op))

linux_port-parse_frame_example : Returns (
    parse_frame
      (linux_port true
        (λ history. true)
        (λ history frame. negsuc 0)
        true
        (some (104 ∷ replicate 255 0))
        (some addresses)
        loopback)
      (some discover)
      7
      []
      [])
linux_port-parse_frame_example =
    linux_port-parse_frame true (λ history. true) (λ history frame. negsuc 0) true
      (some (104 ∷ replicate 255 0)) (some addresses) loopback (tt, (refl, tt)) (omega arith)
      discover 7 [] [] (omega arith) not_emit
