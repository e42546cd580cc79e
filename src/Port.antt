-- ===== src/Port.antt =====
-- lltdResponder/lltdPort.h: what the core asks of the platform. A `Port` holds the answers for one
-- interface, as they are while one frame is handled. `none` is a call that fails and leaves its
-- output alone; a call that fills a buffer gives, for the buffer's size, the bytes that it stores
-- and the length that it returns. Whether an allocation or a transmission succeeds may depend on
-- all that was done before. Logging has no effect on the core and is left out.
pub mod Text
pub mod Posix
pub mod Linux
use lltdresponder.Base.{ℕ, ◌≤◌, ◌≡◌, Bool, Option, none, some, List, length}
use lltdresponder.Wire.Address.{EthernetAddress}

-- What a handler does to the world.
pub data Effect : Type 0 where
  alloc : Effect
  free : Effect
  sleep : ℕ → Effect
  send : List ℕ → Effect

pub record Port : Type 0 where
  pub little : Bool  -- lltd_is_little_endian of lltdEndian.h
  pub malloc : List Effect → Bool
  pub send_frame : List Effect → List ℕ → Bool
  pub mtu : Option ℕ
  pub icon_image : Option (List ℕ)
  pub friendly_name : Option (List ℕ)
  pub hostname : ℕ → List ℕ × ℕ
  pub support_url : ℕ → List ℕ × ℕ
  pub upnp_uuid : Option (List ℕ)
  pub hw_id : ℕ → List ℕ × ℕ
  pub mac_address : Option EthernetAddress
  pub characteristics_flags : ℕ
  pub if_type : Option ℕ
  pub ipv4_address : Option ℕ
  pub ipv6_address : Option (List ℕ)
  pub link_speed_100bps : Option ℕ
  pub wifi_mode : Option ℕ
  pub bssid : Option EthernetAddress
  pub ssid : ℕ → List ℕ × ℕ
  pub wifi_max_rate : Option ℕ
  pub wifi_rssi : Option ℕ  -- int8_t, as its bit pattern
  pub wifi_phy_medium : Option ℕ

-- The documented behaviour of a call that fills a buffer: it stores as much as it says, and no
-- more than there is room for.
abbrev pub Fills : (ℕ → List ℕ × ℕ) → Type 0
Fills get = (n : ℕ) → (length (get n).0 ≡ (get n).1) × ((get n).1 ≤ n)

abbrev pub OfLength : ℕ → Option (List ℕ) → Type 0
OfLength n none = Unit
OfLength n (some bytes) = length bytes ≡ n
