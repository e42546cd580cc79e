-- ===== src/Daemon/Darwin/Hello.antt =====
-- `sendHelloMessageEx` of os/darwin/daemon/darwin-main.c: the daemon's own Hello frame, beside the one
-- of `answerHello`.
use mathlib.Core.Option
use lltdresponder.Base.{
  ℕ, ◌+◌, ◌≤◌, ◌≡◌, refl, sym, ap, ◌∙◌, if◌then◌else◌, Bool, true, false, not, Option, none, some,
  List, [], ◌∷◌, ◌++◌, replicate, length-replicate, take, arith, Bool-cases, inl, inr,
}
use lltdresponder.Base.Fault.{◌>>=◌}
use lltdresponder.Base.Returns.{Returns, Returns-bind, Returns-if}
use lltdresponder.Base.Writes.{sized_then}
use lltdresponder.Protocol.{opcode_hello}
use lltdresponder.Wire.Address.{EthernetAddress, zero_address, ethernet_broadcast}
use lltdresponder.Wire.Header.{set_lltd_header, set_hello_header}
use lltdresponder.Wire.Header.Writes.{set_hello_header-Sized}
use lltdresponder.Port.{Effect, alloc, free, send, Port}
use lltdresponder.Tlv.{
  Setter, set_hostname_tlv, set_host_id_tlv, set_characteristics_tlv, set_perf_counter_tlv,
  set_qos_characteristics_tlv, set_physical_medium_tlv, set_ipv4_tlv, set_ipv6_tlv,
  set_link_speed_tlv, set_icon_image_tlv, set_friendly_name_tlv, set_end_of_property_tlv,
}
use lltdresponder.Tlv.Fits.{
  TakeAll, no_more, TakeAll-append, Documented, station_setters-TakeAll, wifi_setters-TakeAll,
  last_setters-TakeAll,
}
use lltdresponder.Responder.Probes.{our_mac}
use lltdresponder.Responder.Hello.{write_tlvs, wifi_setters, hello_setters, hello_frame}
use lltdresponder.Responder.Total.Buffers.{set_lltd_header-Sized, write_tlvs_some}

-- What the daemon has read of the interface: `MTU`, and whether `interfaceType` is IEEE 802.11.
pub record Device : Type 0 where
  pub mtu : ℕ
  pub wireless : Bool

unfoldable pub station_setters : Port → Bool → List Setter
unfolding wifi_setters
station_setters p wireless =
    (set_host_id_tlv p
      ∷ set_characteristics_tlv p
      ∷ set_physical_medium_tlv p
      ∷ set_ipv4_tlv p
      ∷ set_ipv6_tlv p
      ∷ set_perf_counter_tlv p
      ∷ set_link_speed_tlv p
      ∷ set_hostname_tlv p
      ∷ [])
    ++ ((if wireless then wifi_setters p else [])
        ++ (set_qos_characteristics_tlv p
            ∷ set_icon_image_tlv
            ∷ set_friendly_name_tlv
            ∷ set_end_of_property_tlv
            ∷ []))

-- The frame in a zeroed buffer, and its length.
unfoldable pub message :
    (p : Port) (device : Device) (mac : EthernetAddress) (seq tos : ℕ)
    (mapper_real mapper_apparent : EthernetAddress) (generation : ℕ)
    → Option (List ℕ × ℕ)
unfolding write_tlvs station_setters
message p device mac seq tos mapper_real mapper_apparent generation =
    elim (set_lltd_header p.little (replicate device.mtu 0) mac ethernet_broadcast seq opcode_hello
      tos) [
        | none ↦ none
        | some (b, offset) ↦
            elim (set_hello_header p.little b offset mapper_apparent mapper_real generation) [
              | none ↦ none
              | some (b', n) ↦ write_tlvs (station_setters p device.wireless) b' (offset + n)
            ]
      ]

-- Whether `sendto` succeeds has no effect but a line in the log. `calloc` is an allocation.
unfoldable pub send_hello_message_ex :
    (p : Port) (device : Device) (mac : EthernetAddress) (seq tos : ℕ)
    (mapper_real mapper_apparent : EthernetAddress) (generation : ℕ)
    → List Effect
    → Option (List Effect)
unfolding message
send_hello_message_ex p device mac seq tos mapper_real mapper_apparent generation history =
    if not (p.malloc history) then some history else (do
      (buffer, offset) ← message p device mac seq tos mapper_real mapper_apparent generation
      some (free ∷ send (take offset buffer) ∷ alloc ∷ history))

station_setters-all_TakeAll :
    (p : Port) (wireless : Bool) → Documented p → TakeAll 160 (station_setters p wireless)
unfolding station_setters wifi_setters
station_setters-all_TakeAll p wireless d =
    TakeAll-append 94 66 160 _ _ (omega arith) (station_setters-TakeAll p d) (
      TakeAll-append 55 11 66 _ _ (omega arith)
        (elim (Bool-cases wireless) [
          | inl e ↦ rw e (wifi_setters-TakeAll p d)
          | inr e ↦ rw e (no_more 55)
        ])
        (last_setters-TakeAll p d))

message_some :
    (p : Port) (device : Device) (mac : EthernetAddress) (seq tos : ℕ)
    (real apparent : EthernetAddress) (generation : ℕ)
    → Documented p
    → 206 ≤ device.mtu
    → Returns (message p device mac seq tos real apparent generation)
unfolding message
message_some p device mac seq tos real apparent generation d h =
    sized_then _ _
      (set_lltd_header-Sized p.little device.mtu (replicate device.mtu 0) mac ethernet_broadcast seq
        opcode_hello tos (length-replicate device.mtu 0) (omega (arith, h)))
      λ b1 r1 l1 s1.
        sized_then _ _
          (set_hello_header-Sized p.little device.mtu b1 l1 r1 apparent real generation
            (omega (arith, h, s1)))
          λ b2 r2 l2 s2.
            write_tlvs_some (station_setters p device.wireless) 160 b2 (r1 + r2)
              (station_setters-all_TakeAll p device.wireless d) (omega (arith, h, l2, s1, s2))

pub send_hello_message_ex_some :
    (p : Port) (device : Device) (mac : EthernetAddress) (seq tos : ℕ)
    (real apparent : EthernetAddress) (generation : ℕ) (history : List Effect)
    → Documented p
    → 206 ≤ device.mtu
    → Returns (send_hello_message_ex p device mac seq tos real apparent generation history)
unfolding send_hello_message_ex
send_hello_message_ex_some p device mac seq tos real apparent generation history d h =
    Returns-if (not (p.malloc history)) _ _ (λ e. (_, refl))
      λ e.
        Returns-bind _ _ (message_some p device mac seq tos real apparent generation d h)
          (λ x e'. (_, refl))

-- The daemon sets the Wi-Fi properties when the core does.
abbrev pub Agree : Port → Device → Type 0
Agree p device = device.wireless ≡ elim p.wifi_mode [ none ↦ false | some mode ↦ true ]

same_choice :
    (wireless : Bool) (mode : Option ℕ) (sets : List Setter)
    → wireless ≡ elim mode [ none ↦ false | some m ↦ true ]
    → (if wireless then sets else []) ≡ elim mode [ none ↦ [] | some m ↦ sets ]
same_choice wireless none sets e = rw e refl
same_choice wireless (some m) sets e = rw e refl

station_setters-hello_setters :
    (p : Port) (device : Device)
    → Agree p device
    → station_setters p device.wireless ≡ hello_setters p
unfolding station_setters hello_setters
station_setters-hello_setters p device agree =
    ap
      (λ sets.
        (set_host_id_tlv p
          ∷ set_characteristics_tlv p
          ∷ set_physical_medium_tlv p
          ∷ set_ipv4_tlv p
          ∷ set_ipv6_tlv p
          ∷ set_perf_counter_tlv p
          ∷ set_link_speed_tlv p
          ∷ set_hostname_tlv p
          ∷ [])
        ++ (sets
            ++ (set_qos_characteristics_tlv p
                ∷ set_icon_image_tlv
                ∷ set_friendly_name_tlv
                ∷ set_end_of_property_tlv
                ∷ [])))
      (same_choice device.wireless p.wifi_mode (wifi_setters p) agree)

-- What both frames are: an address and a list of properties in one shape.
abbrev shape :
    (p : Port) (mtu tos : ℕ) (real apparent : EthernetAddress) (generation : ℕ)
    → EthernetAddress
    → List Setter
    → Option (List ℕ × ℕ)
shape p mtu tos real apparent generation mac sets =
    elim (set_lltd_header p.little (replicate mtu 0) mac ethernet_broadcast 0 opcode_hello tos) [
      | none ↦ none
      | some (b, offset) ↦ elim (set_hello_header p.little b offset apparent real generation) [
        | none ↦ none
        | some (b', n) ↦ write_tlvs sets b' (offset + n)
      ]
    ]

our_mac_known : (p : Port) (mac : EthernetAddress) → p.mac_address ≡ some mac → mac ≡ our_mac p
our_mac_known p mac known = sym (ap (λ o. Option.get_or o zero_address) known)

-- For the same mapper addresses, generation and service, and sequence number 0, the daemon builds the
-- same frame as the core.
pub message-hello_frame :
    (p : Port) (device : Device) (mac : EthernetAddress) (tos : ℕ) (real apparent : EthernetAddress)
    (generation : ℕ)
    → p.mac_address ≡ some mac
    → Agree p device
    → message p device mac 0 tos real apparent generation
      ≡ hello_frame p device.mtu apparent real generation tos
unfolding message hello_frame
message-hello_frame p device mac tos real apparent generation known agree =
    ap (λ m. shape p device.mtu tos real apparent generation m (station_setters p device.wireless))
      (our_mac_known p mac known)
    ∙ ap (shape p device.mtu tos real apparent generation (our_mac p))
        (station_setters-hello_setters p device agree)
