-- ===== src/Base/Fault.antt =====
-- Steps that may fault, and memory as a list of bytes. `none` is an access outside the block.
use Prim.Native.Nat.{ℕ, zero, suc, ◌+◌, ◌≤◌, ◌<◌}
use mathlib.Core.Path.{◌≡◌, refl}
use mathlib.Core.List.{List, [], ◌∷◌, ◌++◌}
use mathlib.Core.Option.{Option, none, some}
use native.Mathlib.Omega.{arith}
use lltdresponder.Base.Lists.{length, drop}

infixl 5 ◌>>=◌
abbrev pub ◌>>=◌ {ℓ κ} : {A : Type ℓ} {B : Type κ} → Option A → (A → Option B) → Option B
none >>= f = none
some a >>= f = f a

abbrev pub prepend : List ℕ → Option (List ℕ) → Option (List ℕ)
prepend pre none = none
prepend pre (some xs) = some (pre ++ xs)

-- Stores at the start of a block.
abbrev pub overwrite : List ℕ → List ℕ → Option (List ℕ)
overwrite buffer [] = some buffer
overwrite [] (b ∷ bs) = none
overwrite (x ∷ buffer) (b ∷ bs) = prepend (b ∷ []) (overwrite buffer bs)

-- memcpy(buffer + offset, bytes, n), and each store through a pointer into the buffer.
abbrev pub write : List ℕ → ℕ → List ℕ → Option (List ℕ)
write buffer zero bytes = overwrite buffer bytes
write [] (suc offset) bytes = none
write (x ∷ buffer) (suc offset) bytes = prepend (x ∷ []) (write buffer offset bytes)

-- The `n` bytes at an offset.
abbrev pub read_head : ℕ → List ℕ → Option (List ℕ)
read_head zero block = some []
read_head (suc n) [] = none
read_head (suc n) (x ∷ block) = prepend (x ∷ []) (read_head n block)

abbrev pub read : List ℕ → ℕ → ℕ → Option (List ℕ)
read block zero n = read_head n block
read [] (suc offset) n = none
read (x ∷ block) (suc offset) n = read block offset n

pub overwrite_fits :
    (room bytes : List ℕ)
    → length bytes ≤ length room
    → overwrite room bytes ≡ some (bytes ++ drop (length bytes) room)
overwrite_fits room [] h = refl
overwrite_fits [] (b ∷ bytes) h = absurd (omega arith)
overwrite_fits (x ∷ room) (b ∷ bytes) h = rw (overwrite_fits room bytes (omega arith))

pub overwrite_overflows :
    (room bytes : List ℕ) → length room < length bytes → overwrite room bytes ≡ none
overwrite_overflows room [] h = absurd (omega arith)
overwrite_overflows [] (b ∷ bytes) h = refl
overwrite_overflows (x ∷ room) (b ∷ bytes) h = rw (overwrite_overflows room bytes (omega arith))

prepend-prepend :
    (x : ℕ) (pre : List ℕ) (o : Option (List ℕ))
    → prepend (x ∷ []) (prepend pre o) ≡ prepend (x ∷ pre) o
prepend-prepend x pre none = refl
prepend-prepend x pre (some xs) = refl

pub prepend-nil : (o : Option (List ℕ)) → prepend [] o ≡ o
prepend-nil none = refl
prepend-nil (some xs) = refl

-- A store behind a prefix leaves the prefix alone.
pub write_behind :
    (pre room : List ℕ) (k n : ℕ) (bytes : List ℕ)
    → n ≡ length pre + k
    → write (pre ++ room) n bytes ≡ prepend pre (write room k bytes)
write_behind [] room k n bytes e =
    let same : n ≡ k = omega arith in rw (same, prepend-nil (write room k bytes))
write_behind (x ∷ pre) room k zero bytes e = absurd (omega arith)
write_behind (x ∷ pre) room k (suc n) bytes e =
    rw (write_behind pre room k n bytes (omega arith)) (prepend-prepend x pre (write room k bytes))

pub read_behind :
    (pre block : List ℕ) (k n m : ℕ) → n ≡ length pre + k → read (pre ++ block) n m ≡ read block k m
read_behind [] block k n m e = let same : n ≡ k = omega arith in rw same
read_behind (x ∷ pre) block k zero m e = absurd (omega arith)
read_behind (x ∷ pre) block k (suc n) m e = read_behind pre block k n m (omega arith)

pub read_head-append : (bytes rest : List ℕ) → read_head (length bytes) (bytes ++ rest) ≡ some bytes
read_head-append [] rest = refl
read_head-append (b ∷ bytes) rest = rw (read_head-append bytes rest)
