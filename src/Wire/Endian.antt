-- ===== src/Wire/Endian.antt =====
-- lltdResponder/lltdEndian.h, and how a host lays out an integer in memory. Whether the host is
-- little-endian is a parameter, `lltd_is_little_endian` of the source.
use Prim.Native.Nat.{bit_and, bit_or}
use mathlib.Core.Path.{ap₂}
use lltdresponder.Base.{
  ℕ, ◌+◌, ◌*◌, ◌/◌, ◌%◌, ◌^◌, ◌<◌, ◌≡◌, refl, Bool, true, false, if◌then◌else◌, List, [], ◌∷◌, u16,
  u32, arith,
}
use lltdresponder.Base.Bits.{bit_or-high_low, bit_and-byte, bit_and-high}

unfoldable pub lltd_bswap16 : ℕ → ℕ
lltd_bswap16 value = u16 (bit_or (value * 2 ^ 8) (value / 2 ^ 8))

unfoldable pub lltd_bswap32 : ℕ → ℕ
lltd_bswap32 value =
    bit_or
      (bit_or (bit_or (u32 (bit_and value 0xff * 2 ^ 24)) (u32 (bit_and value 0xff00 * 2 ^ 8)))
        (bit_and value 0xff0000 / 2 ^ 8))
      (bit_and value 0xff000000 / 2 ^ 24)

unfoldable pub lltd_htons : Bool → ℕ → ℕ
lltd_htons little value = if little then lltd_bswap16 value else value

unfoldable pub lltd_ntohs : Bool → ℕ → ℕ
unfolding lltd_htons
lltd_ntohs little value = lltd_htons little value

unfoldable pub lltd_htonl : Bool → ℕ → ℕ
lltd_htonl little value = if little then lltd_bswap32 value else value

-- The bytes of a uint16_t and of a uint32_t in the host's memory, and the value read back.
abbrev pub store16 : Bool → ℕ → List ℕ
store16 true v = v % 256 ∷ v / 256 ∷ []
store16 false v = v / 256 ∷ v % 256 ∷ []

abbrev pub load16 : Bool → ℕ → ℕ → ℕ
load16 true a b = b * 256 + a
load16 false a b = a * 256 + b

abbrev pub store32 : Bool → ℕ → List ℕ
store32 true v = v % 256 ∷ v / 256 % 256 ∷ v / 65536 % 256 ∷ v / 16777216 ∷ []
store32 false v = v / 16777216 ∷ v / 65536 % 256 ∷ v / 256 % 256 ∷ v % 256 ∷ []

-- Network order.
abbrev pub be16 : ℕ → List ℕ
be16 v = v / 256 ∷ v % 256 ∷ []

abbrev pub be32 : ℕ → List ℕ
be32 v = v / 16777216 ∷ v / 65536 % 256 ∷ v / 256 % 256 ∷ v % 256 ∷ []

pub bswap16_sum : (v : ℕ) → v < 2 ^ 16 → lltd_bswap16 v ≡ v % 256 * 256 + v / 256
unfolding lltd_bswap16
bswap16_sum v h = omega (arith, bit_or-high_low 8 v (v / 256) (omega arith))

mask-byte : (k v : ℕ) → bit_and v (0xff * 2 ^ k) ≡ v / 2 ^ k % 256 * 2 ^ k
mask-byte k v = rw (bit_and-high k v 0xff, bit_and-byte (v / 2 ^ k))

-- Four fields of eight bits, joined from the top.
join_bytes :
    (a b c d : ℕ)
    → b < 256
    → c < 256
    → d < 256
    → bit_or (bit_or (bit_or (a * 2 ^ 24) (b * 2 ^ 16)) (c * 2 ^ 8)) d
      ≡ a * 16777216 + b * 65536 + c * 256 + d
join_bytes a b c d hb hc hd =
    let top : bit_or (a * 2 ^ 24) (b * 2 ^ 16) ≡ (a * 2 ^ 8 + b) * 2 ^ 16 =
      omega (arith, bit_or-high_low 24 a (b * 2 ^ 16) (omega arith)) in
    let mid : bit_or ((a * 2 ^ 8 + b) * 2 ^ 16) (c * 2 ^ 8)
        ≡ ((a * 2 ^ 8 + b) * 2 ^ 8 + c) * 2 ^ 8 =
      omega (arith, bit_or-high_low 16 (a * 2 ^ 8 + b) (c * 2 ^ 8) (omega arith)) in
    rw (top, mid) (omega (arith, bit_or-high_low 8 ((a * 2 ^ 8 + b) * 2 ^ 8 + c) d (omega arith)))

bswap32_sum :
    (v : ℕ)
    → v < 2 ^ 32
    → lltd_bswap32 v
      ≡ v % 256 * 16777216 + v / 256 % 256 * 65536 + v / 65536 % 256 * 256 + v / 16777216
unfolding lltd_bswap32
bswap32_sum v h =
    let lowest : u32 (bit_and v 0xff * 2 ^ 24) ≡ v % 256 * 2 ^ 24 = omega (arith, bit_and-byte v) in
    let second : u32 (bit_and v 0xff00 * 2 ^ 8) ≡ v / 256 % 256 * 2 ^ 16 =
      omega (arith, mask-byte 8 v) in
    let third : bit_and v 0xff0000 / 2 ^ 8 ≡ v / 65536 % 256 * 2 ^ 8 =
      omega (arith, mask-byte 16 v) in
    let highest : bit_and v 0xff000000 / 2 ^ 24 ≡ v / 16777216 = omega (arith, mask-byte 24 v) in
    rw (lowest, second, third, highest)
      (join_bytes (v % 256) (v / 256 % 256) (v / 65536 % 256) (v / 16777216) (omega arith)
        (omega arith) (omega arith))

four_bytes :
    {a b c d a' b' c' d' : ℕ}
    → a ≡ a'
    → b ≡ b'
    → c ≡ c'
    → d ≡ d'
    → ◌≡◌ {A = List ℕ} (a ∷ b ∷ c ∷ d ∷ []) (a' ∷ b' ∷ c' ∷ d' ∷ [])
four_bytes p q r s = rw (p, q, r, s)

-- A 16-bit number that was converted by `lltd_htons` lies in network order in the memory of any
-- host.
pub store16-htons :
    (little : Bool) (v : ℕ) → v < 2 ^ 16 → store16 little (lltd_htons little v) ≡ be16 v
unfolding lltd_htons
store16-htons true v h = rw (bswap16_sum v h) (ap₂ (λ a b. a ∷ b ∷ []) (omega arith) (omega arith))
store16-htons false v h = refl

-- A 32-bit number that was converted by `lltd_htonl` lies in network order in the memory of any
-- host.
pub store32-htonl :
    (little : Bool) (v : ℕ) → v < 2 ^ 32 → store32 little (lltd_htonl little v) ≡ be32 v
unfolding lltd_htonl
store32-htonl true v h =
    rw (bswap32_sum v h) (four_bytes (omega arith) (omega arith) (omega arith) (omega arith))
store32-htonl false v h = refl

-- `lltd_ntohs` gives the number whose two bytes in network order any host has loaded.
pub ntohs-load16 :
    (little : Bool) (a b : ℕ)
    → a < 256
    → b < 256
    → lltd_ntohs little (load16 little a b) ≡ a * 256 + b
unfolding lltd_ntohs
ntohs-load16 true a b ha hb = omega (arith, bswap16_sum (b * 256 + a) (omega arith))
ntohs-load16 false a b ha hb = refl
