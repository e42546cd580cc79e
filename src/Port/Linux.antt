-- ===== src/Port/Linux.antt =====
-- os/linux/lltd_port.c: the port that answers for one `network_interface_t`. Whether an allocation
-- succeeds, how many bytes `sendto` sends, what `gethostname` leaves in its buffer of 256 bytes and
-- the list of `getifaddrs`, or their failure, are given from outside.
use lltdresponder.Base.{
  ℕ, ◌≤◌, ◌/◌, ◌==◌, Bool, true, false, ◌&&◌, not, if◌then◌else◌, Option, none, some, List, [], ◌∷◌,
  ◌≡◌, refl, arith, length, ℤ, pos, negsuc,
}
use Prim.Native.Nat.{bit_and, bit_or}
use lltdresponder.Wire.Address.{EthernetAddress}
use lltdresponder.Port.{Effect, Port, OfLength}
use lltdresponder.Port.Text.{get_text, get_host, get_host-Fills, responder_name, support_text}
use lltdresponder.Tlv.Fits.{Documented}
use lltdresponder.Responder.State.{IfaceState}
use lltdresponder.Responder.Query.{effective_mtu}
use lltdresponder.Responder.Dispatch.{parse_frame}
use lltdresponder.Responder.Total.Frame.{EmitFits, parse_frame_returns}
use lltdresponder.Base.Returns.{Returns}

-- The fields of `network_interface_t` that the port reads.
pub record NetworkInterface : Type 0 where
  pub device_name : List ℕ
  pub if_type : ℕ
  pub socket : ℤ
  pub medium_type : ℕ
  pub mtu : ℕ
  pub link_speed : ℕ
  pub flags : ℕ
  pub mac_address : EthernetAddress

-- `ifa_addr`: null, an address of a family, or one of another family.
pub data SocketAddress : Type 0 where
  no_address : SocketAddress
  inet : ℕ → SocketAddress
  inet6 : List ℕ → SocketAddress
  other_family : SocketAddress

pub record IfAddress : Type 0 where
  pub name : List ℕ
  pub address : SocketAddress

-- `strcmp(a, b) == 0`
unfoldable pub same_text : List ℕ → List ℕ → Bool
same_text [] [] = true
same_text [] (b ∷ ys) = false
same_text (a ∷ xs) [] = false
same_text (a ∷ xs) (b ∷ ys) = let rest = same_text xs ys in a == b && rest

-- One turn of a loop: this address, if it is of the family and belongs to the device, or what comes
-- later.
unfoldable pub inet_or : Bool → SocketAddress → Option ℕ → Option ℕ
inet_or ours no_address later = later
inet_or ours (inet s_addr) later = if not ours then later else some s_addr
inet_or ours (inet6 bytes) later = later
inet_or ours other_family later = later

unfoldable pub inet6_or : Bool → SocketAddress → Option (List ℕ) → Option (List ℕ)
inet6_or ours no_address later = later
inet6_or ours (inet s_addr) later = later
inet6_or ours (inet6 bytes) later = if not ours then later else some bytes
inet6_or ours other_family later = later

unfoldable pub find_inet : List ℕ → List IfAddress → Option ℕ
unfolding inet_or
find_inet device [] = none
find_inet device (a ∷ rest) = inet_or (same_text device a.name) a.address (find_inet device rest)

unfoldable pub find_inet6 : List ℕ → List IfAddress → Option (List ℕ)
unfolding inet6_or
find_inet6 device [] = none
find_inet6 device (a ∷ rest) = inet6_or (same_text device a.name) a.address (find_inet6 device rest)

-- `sendto` gives the number of bytes that it sent, or a negative number.
unfoldable pub send_frame :
    (List Effect → List ℕ → ℤ) → NetworkInterface → List Effect → List ℕ → Bool
send_frame sendto iface history [] = false
send_frame sendto iface history (b ∷ bs) = elim iface.socket [
  | negsuc n ↦ false
  | pos n ↦ elim (sendto history (b ∷ bs)) [ negsuc m ↦ false | pos m ↦ m == length (b ∷ bs) ]
]

unfoldable pub get_mtu : NetworkInterface → Option ℕ
get_mtu iface = some iface.mtu

-- By whether the buffer for the copy was allocated.
unfoldable pub get_friendly_name : Bool → Option (List ℕ)
get_friendly_name false = none
get_friendly_name true = some responder_name

unfoldable pub get_hostname : Option (List ℕ) → ℕ → List ℕ × ℕ
unfolding get_host
get_hostname gethostname = get_host gethostname

unfoldable pub get_support_url : ℕ → List ℕ × ℕ
unfolding get_text
get_support_url = get_text support_text 31

-- The identifier of the hardware: nothing is written.
unfoldable pub get_hw_id : ℕ → List ℕ × ℕ
get_hw_id dst_len = ([], 0)

-- The name of the wireless network: nothing is written.
unfoldable pub get_ssid : ℕ → List ℕ × ℕ
get_ssid dst_len = ([], 0)

-- IFM_FDX is 0x10, IFF_LOOPBACK is 8.
unfoldable pub get_characteristics_flags : NetworkInterface → ℕ
get_characteristics_flags iface =
    let duplex = if not (bit_and iface.medium_type 0x10 == 0) then 0x2000 else 0 in
    if not (bit_and iface.flags 8 == 0) then bit_or duplex 0x800 else duplex

unfoldable pub get_ipv4_address : Option (List IfAddress) → NetworkInterface → Option ℕ
unfolding find_inet
get_ipv4_address none iface = none
get_ipv4_address (some addresses) iface = find_inet iface.device_name addresses

unfoldable pub get_ipv6_address : Option (List IfAddress) → NetworkInterface → Option (List ℕ)
unfolding find_inet6
get_ipv6_address none iface = none
get_ipv6_address (some addresses) iface = find_inet6 iface.device_name addresses

unfoldable pub get_link_speed_100bps : NetworkInterface → Option ℕ
get_link_speed_100bps iface = some (iface.link_speed / 100)

unfoldable pub linux_port :
    (little : Bool) (malloc : List Effect → Bool) (sendto : List Effect → List ℕ → ℤ)
    (name_allocated : Bool) (gethostname : Option (List ℕ)) (getifaddrs : Option (List IfAddress))
    (iface : NetworkInterface)
    → Port
unfolding send_frame get_mtu get_friendly_name get_hostname get_support_url get_hw_id get_ssid
    get_characteristics_flags get_ipv4_address get_ipv6_address get_link_speed_100bps
linux_port little malloc sendto name_allocated gethostname getifaddrs iface = record {
  little = little;
  malloc = malloc;
  send_frame = send_frame sendto iface;
  mtu = get_mtu iface;
  icon_image = none;
  friendly_name = get_friendly_name name_allocated;
  hostname = get_hostname gethostname;
  support_url = get_support_url;
  upnp_uuid = none;
  hw_id = get_hw_id;
  mac_address = some iface.mac_address;
  characteristics_flags = get_characteristics_flags iface;
  if_type = some iface.if_type;
  ipv4_address = get_ipv4_address getifaddrs iface;
  ipv6_address = get_ipv6_address getifaddrs iface;
  link_speed_100bps = get_link_speed_100bps iface;
  wifi_mode = none;
  bssid = none;
  ssid = get_ssid;
  wifi_max_rate = none;
  wifi_rssi = none;
  wifi_phy_medium = none;
}

-- `getifaddrs` gives IPv6 addresses of 16 bytes.
abbrev pub SixteenBytes : SocketAddress → Type 0
SixteenBytes no_address = Unit
SixteenBytes (inet s_addr) = Unit
SixteenBytes (inet6 bytes) = length bytes ≡ 16
SixteenBytes other_family = Unit

abbrev pub AllSixteen : List IfAddress → Type 0
AllSixteen [] = Unit
AllSixteen (a ∷ rest) = SixteenBytes a.address × AllSixteen rest

inet6_or-OfLength :
    (ours : Bool) (a : SocketAddress) (later : Option (List ℕ))
    → SixteenBytes a
    → OfLength 16 later
    → OfLength 16 (inet6_or ours a later)
unfolding inet6_or
inet6_or-OfLength ours no_address later ok after = after
inet6_or-OfLength ours (inet s_addr) later ok after = after
inet6_or-OfLength true (inet6 bytes) later ok after = ok
inet6_or-OfLength false (inet6 bytes) later ok after = after
inet6_or-OfLength ours other_family later ok after = after

find_inet6-OfLength :
    (device : List ℕ) (addresses : List IfAddress)
    → AllSixteen addresses
    → OfLength 16 (find_inet6 device addresses)
unfolding find_inet6
find_inet6-OfLength device [] ok = tt
find_inet6-OfLength device (a ∷ rest) ok =
    inet6_or-OfLength (same_text device a.name) a.address (find_inet6 device rest) (ok.0)
      (find_inet6-OfLength device rest ok.1)

abbrev pub Addresses : Option (List IfAddress) → Type 0
Addresses none = Unit
Addresses (some addresses) = AllSixteen addresses

get_ipv6_address-OfLength :
    (getifaddrs : Option (List IfAddress)) (iface : NetworkInterface)
    → Addresses getifaddrs
    → OfLength 16 (get_ipv6_address getifaddrs iface)
unfolding get_ipv6_address
get_ipv6_address-OfLength none iface ok = tt
get_ipv6_address-OfLength (some addresses) iface ok =
    find_inet6-OfLength iface.device_name addresses ok

module _ (little : Bool) (malloc : List Effect → Bool) (sendto : List Effect → List ℕ → ℤ)
    (name_allocated : Bool) (gethostname : Option (List ℕ)) (getifaddrs : Option (List IfAddress))
    (iface : NetworkInterface) (sixteen : Addresses getifaddrs) where
  linux_port-Documented :
      Documented (linux_port little malloc sendto name_allocated gethostname getifaddrs iface)
  unfolding linux_port
  linux_port-Documented = record {
    hostname = unfold get_hostname in get_host-Fills gethostname;
    ssid = unfold get_ssid in λ n. (refl, omega arith);
    hw_id = unfold get_hw_id in λ n. (refl, omega arith);
    ipv6 = get_ipv6_address-OfLength getifaddrs iface sixteen;
  }

  linux_mtu :
      206 ≤ iface.mtu
      → 206
        ≤ effective_mtu
            (linux_port little malloc sendto name_allocated gethostname getifaddrs iface)
  unfolding effective_mtu linux_port get_mtu
  linux_mtu big = ground (arith, big)

  -- On Linux, for an interface with an MTU of at least 206 bytes, whichever of the system's calls
  -- fail and whatever the host name is, as long as the IPv6 addresses of `getifaddrs` have 16 bytes,
  -- every frame of at least 36 bytes whose Emit list, if it is an Emit, lies inside it, is handled
  -- without a fault.
  pub linux_port-parse_frame :
      206 ≤ iface.mtu
      → (frame : List ℕ) (ctx : ℕ) (states : List (ℕ × IfaceState)) (history : List Effect)
      → 36 ≤ length frame
      → EmitFits little frame
      → Returns (
          parse_frame
            (linux_port little malloc sendto name_allocated gethostname getifaddrs iface)
            (some frame)
            ctx
            states
            history)
  unfolding linux_port
  linux_port-parse_frame mtu_fits frame ctx states history big fits =
      parse_frame_returns
        (linux_port little malloc sendto name_allocated gethostname getifaddrs iface) frame big
        linux_port-Documented (linux_mtu mtu_fits) ctx states history fits
