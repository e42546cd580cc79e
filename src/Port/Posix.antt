-- ===== src/Port/Posix.antt =====
-- os/posix/lltd_port.c: the port that knows no interface. Whether an allocation succeeds and what
-- `gethostname` leaves in its buffer of 256 bytes, or that it fails, is given from outside.
use lltdresponder.Base.{
  ℕ, ◌≤◌, Bool, true, false, Option, none, some, List, [], refl, arith, length,
}
use lltdresponder.Base.Returns.{Returns}
use lltdresponder.Port.{Effect, Port}
use lltdresponder.Port.Text.{get_text, get_host, get_host-Fills, responder_name, support_text}
use lltdresponder.Tlv.Fits.{Documented}
use lltdresponder.Responder.State.{IfaceState}
use lltdresponder.Responder.Query.{effective_mtu}
use lltdresponder.Responder.Dispatch.{parse_frame}
use lltdresponder.Responder.Total.Frame.{EmitFits, parse_frame_returns}

unfoldable pub send_frame : List Effect → List ℕ → Bool
send_frame history frame = false

unfoldable pub get_mtu : Option ℕ
get_mtu = some 1500

-- By whether the buffer for the copy was allocated.
unfoldable pub get_friendly_name : Bool → Option (List ℕ)
get_friendly_name false = none
get_friendly_name true = some responder_name

unfoldable pub get_hostname : Option (List ℕ) → ℕ → List ℕ × ℕ
unfolding get_host
get_hostname gethostname = get_host gethostname

unfoldable pub get_support_url : ℕ → List ℕ × ℕ
unfolding get_text
get_support_url = get_text support_text 31

-- The identifier of the hardware: nothing is written.
unfoldable pub get_hw_id : ℕ → List ℕ × ℕ
get_hw_id dst_len = ([], 0)

-- The name of the wireless network: nothing is written.
unfoldable pub get_ssid : ℕ → List ℕ × ℕ
get_ssid dst_len = ([], 0)

unfoldable pub posix_port :
    (little : Bool) (malloc : List Effect → Bool) (name_allocated : Bool)
    (gethostname : Option (List ℕ))
    → Port
unfolding send_frame get_mtu get_friendly_name get_hostname get_support_url get_hw_id get_ssid
posix_port little malloc name_allocated gethostname = record {
  little = little;
  malloc = malloc;
  send_frame = send_frame;
  mtu = get_mtu;
  icon_image = none;
  friendly_name = get_friendly_name name_allocated;
  hostname = get_hostname gethostname;
  support_url = get_support_url;
  upnp_uuid = none;
  hw_id = get_hw_id;
  mac_address = none;
  characteristics_flags = 0;
  if_type = none;
  ipv4_address = none;
  ipv6_address = none;
  link_speed_100bps = none;
  wifi_mode = none;
  bssid = none;
  ssid = get_ssid;
  wifi_max_rate = none;
  wifi_rssi = none;
  wifi_phy_medium = none;
}

module _ (little : Bool) (malloc : List Effect → Bool) (name_allocated : Bool)
    (gethostname : Option (List ℕ)) where
  posix_port-Documented : Documented (posix_port little malloc name_allocated gethostname)
  unfolding posix_port
  posix_port-Documented = record {
    hostname = unfold get_hostname in get_host-Fills gethostname;
    ssid = unfold get_ssid in λ n. (refl, omega arith);
    hw_id = unfold get_hw_id in λ n. (refl, omega arith);
    ipv6 = tt;
  }

  posix_mtu : 206 ≤ effective_mtu (posix_port little malloc name_allocated gethostname)
  unfolding effective_mtu posix_port get_mtu
  posix_mtu = omega arith

  -- On this port, whatever the host name is and whichever allocations fail, every frame of at least 36 bytes whose Emit list,
  -- if it is an Emit, lies inside it, is handled without a fault.
  pub posix_port-parse_frame :
      (frame : List ℕ) (ctx : ℕ) (states : List (ℕ × IfaceState)) (history : List Effect)
      → 36 ≤ length frame
      → EmitFits little frame
      → Returns (
          parse_frame
            (posix_port little malloc name_allocated gethostname)
            (some frame)
            ctx
            states
            history)
  unfolding posix_port
  posix_port-parse_frame frame ctx states history big fits =
      parse_frame_returns (posix_port little malloc name_allocated gethostname) frame big
        posix_port-Documented posix_mtu ctx states history fits
