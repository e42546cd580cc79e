-- ===== src/Wire/Header/Reads.antt =====
-- Reads of the fields of lltdResponder/lltdProtocol.h, and the frames that have them.
use lltdresponder.Base.{
  ℕ, zero, suc, ◌+◌, ◌≤◌, ◌<◌, ◌≡◌, refl, Bool, some, List, [], ◌∷◌, length, get_elem?, arith,
}
use lltdresponder.Base.Fault.{read, read_head}
use lltdresponder.Wire.Endian.{load16}
use lltdresponder.Wire.Address.{EthernetAddress, address, bytes_address, read_address}
use lltdresponder.Wire.Header.{read_u16}

pub get_elem?-some {ℓ} :
    {A : Type ℓ} (xs : List A) (i : ℕ) → i < length xs → (x : A) × (get_elem? xs i ≡ some x)
get_elem?-some [] i h = absurd (omega arith)
get_elem?-some (x ∷ xs) zero h = (x, refl)
get_elem?-some (x ∷ xs) (suc i) h = get_elem?-some xs i (omega arith)

read_head-some :
    (n : ℕ) (block : List ℕ)
    → n ≤ length block
    → (bytes : List ℕ) × (read_head n block ≡ some bytes) × (length bytes ≡ n)
read_head-some zero block h = ([], refl, refl)
read_head-some (suc n) [] h = absurd (omega arith)
read_head-some (suc n) (x ∷ block) h =
    let (bytes, e, l) = read_head-some n block (omega arith) in
    (x ∷ bytes, rw e refl, omega (arith, l))

pub read-some :
    (block : List ℕ) (offset n : ℕ)
    → offset + n ≤ length block
    → (bytes : List ℕ) × (read block offset n ≡ some bytes) × (length bytes ≡ n)
read-some block zero n h = read_head-some n block (omega arith)
read-some [] (suc offset) zero h = absurd (omega arith)
read-some [] (suc offset) (suc n) h = absurd (omega arith)
read-some (x ∷ block) (suc offset) n h = read-some block offset n (omega arith)

two_bytes : (bytes : List ℕ) → length bytes ≡ 2 → (a : ℕ) × (b : ℕ) × (bytes ≡ a ∷ b ∷ [])
two_bytes [] h = absurd (omega arith)
two_bytes (a ∷ []) h = absurd (omega arith)
two_bytes (a ∷ b ∷ []) h = (a, b, refl)
two_bytes (a ∷ b ∷ c ∷ rest) h = absurd (omega arith)

six_bytes :
    (bytes : List ℕ) → length bytes ≡ 6 → (a : EthernetAddress) × (bytes_address bytes ≡ some a)
six_bytes ([]) h = absurd (omega arith)
six_bytes (x0 ∷ []) h = absurd (omega arith)
six_bytes (x0 ∷ x1 ∷ []) h = absurd (omega arith)
six_bytes (x0 ∷ x1 ∷ x2 ∷ []) h = absurd (omega arith)
six_bytes (x0 ∷ x1 ∷ x2 ∷ x3 ∷ []) h = absurd (omega arith)
six_bytes (x0 ∷ x1 ∷ x2 ∷ x3 ∷ x4 ∷ []) h = absurd (omega arith)
six_bytes (a ∷ b ∷ c ∷ d ∷ e ∷ f ∷ []) h = (address a b c d e f, refl)
six_bytes (a ∷ b ∷ c ∷ d ∷ e ∷ f ∷ g ∷ rest) h = absurd (omega arith)

pub read_u16-some :
    (little : Bool) (frame : List ℕ) (offset : ℕ)
    → offset + 2 ≤ length frame
    → (v : ℕ) × (read_u16 little frame offset ≡ some v)
read_u16-some little frame offset h =
    let (bytes, e, l) = read-some frame offset 2 h in
    let (a, b, same) = two_bytes bytes l in (load16 little a b, rw (read_u16, e, same) refl)

pub read_address-some :
    (frame : List ℕ) (offset : ℕ)
    → offset + 6 ≤ length frame
    → (a : EthernetAddress) × (read_address frame offset ≡ some a)
read_address-some frame offset h =
    let (bytes, e, l) = read-some frame offset 6 h in
    let (a, same) = six_bytes bytes l in (a, rw e same)
