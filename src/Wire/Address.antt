-- ===== src/Wire/Address.antt =====
-- `ethernet_address_t` of lltdResponder/lltdProtocol.h and `compareEthernetAddress` of lltdWire.c.
use lltdresponder.Base.{
  ℕ, ◌≡◌, ◌↔◌, Bool, true, ◌&&◌, ◌==◌, Option, none, some, List, [], ◌∷◌, arith,
}
use lltdresponder.Base.Fault.{◌>>=◌, read}

pub record EthernetAddress : Type 0 where
  pub a0 : ℕ
  pub a1 : ℕ
  pub a2 : ℕ
  pub a3 : ℕ
  pub a4 : ℕ
  pub a5 : ℕ

abbrev pub address : ℕ → ℕ → ℕ → ℕ → ℕ → ℕ → EthernetAddress
address a b c d e f = record { a0 = a; a1 = b; a2 = c; a3 = d; a4 = e; a5 = f }

abbrev pub ethernet_broadcast : EthernetAddress
ethernet_broadcast = address 0xff 0xff 0xff 0xff 0xff 0xff

abbrev pub zero_address : EthernetAddress
zero_address = address 0 0 0 0 0 0

abbrev pub address_bytes : EthernetAddress → List ℕ
address_bytes m = m.a0 ∷ m.a1 ∷ m.a2 ∷ m.a3 ∷ m.a4 ∷ m.a5 ∷ []

abbrev pub bytes_address : List ℕ → Option EthernetAddress
bytes_address (a ∷ b ∷ c ∷ d ∷ e ∷ f ∷ []) = some (address a b c d e f)
bytes_address _ = none

-- The address at an offset of a frame.
abbrev pub read_address : List ℕ → ℕ → Option EthernetAddress
read_address frame offset = read frame offset 6 >>= bytes_address

unfoldable pub compare_ethernet_address : EthernetAddress → EthernetAddress → Bool
compare_ethernet_address a b =
    a.a0 == b.a0
    && (a.a1 == b.a1 && (a.a2 == b.a2 && (a.a3 == b.a3 && (a.a4 == b.a4 && a.a5 == b.a5))))

-- `mac_equal` of lltdAutomata.c compares the same six bytes.
unfoldable pub mac_equal : EthernetAddress → EthernetAddress → Bool
mac_equal a b =
    a.a0 == b.a0
    && (a.a1 == b.a1 && (a.a2 == b.a2 && (a.a3 == b.a3 && (a.a4 == b.a4 && a.a5 == b.a5))))

pub compare_ethernet_address_iff :
    (a b : EthernetAddress) → (compare_ethernet_address a b ≡ true) ↔ (a ≡ b)
unfolding compare_ethernet_address
compare_ethernet_address_iff a b = (λ h. ground arith, λ h. ground arith)

pub mac_equal_iff : (a b : EthernetAddress) → (mac_equal a b ≡ true) ↔ (a ≡ b)
unfolding mac_equal
mac_equal_iff a b = (λ h. ground arith, λ h. ground arith)
