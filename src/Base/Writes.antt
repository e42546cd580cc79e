-- ===== src/Base/Writes.antt =====
-- Stores that fit: they return, and leave the length of the block alone.
use Prim.Native.Nat.{ℕ, zero, suc, ◌+◌, ◌≤◌}
use mathlib.Core.Path.{◌≡◌, refl, ap, ◌∙◌}
use mathlib.Core.List.{List, [], ◌∷◌}
use mathlib.Core.Bool.{Bool, true, false}
use mathlib.Core.Option.{Option, none, some}
use native.Mathlib.Omega.{arith}
use lltdresponder.Base.Lists.{length}
use lltdresponder.Base.Tests.{if◌then◌else◌}
use lltdresponder.Base.Returns.{Returns}
use lltdresponder.Base.Fault.{◌>>=◌, write, overwrite}

-- A block of length `n`.
abbrev pub Block : ℕ → Option (List ℕ) → Type 0
Block n o = (b : List ℕ) × (o ≡ some b) × (length b ≡ n)

overwrite-Block :
    (room bytes : List ℕ) → length bytes ≤ length room → Block (length room) (overwrite room bytes)
overwrite-Block room [] h = (room, refl, refl)
overwrite-Block [] (b ∷ bytes) h = absurd (omega arith)
overwrite-Block (x ∷ room) (b ∷ bytes) h =
    let (r, e, l) = overwrite-Block room bytes (omega arith) in (b ∷ r, rw e refl, ap suc l)

pub write-Block :
    (buffer : List ℕ) (offset : ℕ) (bytes : List ℕ)
    → offset + length bytes ≤ length buffer
    → Block (length buffer) (write buffer offset bytes)
write-Block buffer zero bytes h = overwrite-Block buffer bytes (omega arith)
write-Block [] (suc offset) bytes h = absurd (omega arith)
write-Block (x ∷ buffer) (suc offset) bytes h =
    let (r, e, l) = write-Block buffer offset bytes (omega arith) in (x ∷ r, rw e refl, ap suc l)

-- A block of length `n`, and a number that is at most `k`.
abbrev pub Sized : ℕ → ℕ → Option (List ℕ × ℕ) → Type 0
Sized n k o = (b : List ℕ) × (r : ℕ) × (o ≡ some (b, r)) × (length b ≡ n) × (r ≤ k)

pub Sized-write :
    {n k : ℕ} (buffer : List ℕ) (offset : ℕ) (bytes : List ℕ) (f : List ℕ → Option (List ℕ × ℕ))
    → length buffer ≡ n
    → offset + length bytes ≤ n
    → ((b : List ℕ) → length b ≡ n → Sized n k (f b))
    → Sized n k (write buffer offset bytes >>= f)
Sized-write buffer offset bytes f l h next =
    let (b, e, l') = write-Block buffer offset bytes (omega (arith, l, h)) in
    let (c, r, e', l'', s) = next b (l' ∙ l) in (c, r, rw e e', l'', s)

pub Sized-if :
    {n k : ℕ} (t : Bool) (a b : Option (List ℕ × ℕ))
    → Sized n k a
    → Sized n k b
    → Sized n k (if t then a else b)
Sized-if true a b p q = p
Sized-if false a b p q = q

-- What follows a step that builds a block.
pub sized_then {ℓ} :
    {A : Type ℓ} {n k : ℕ} (o : Option (List ℕ × ℕ)) (f : List ℕ → ℕ → Option A)
    → Sized n k o
    → ((b : List ℕ) (r : ℕ) → length b ≡ n → r ≤ k → Returns (f b r))
    → Returns (elim o [ none ↦ none | some (b, r) ↦ f b r ])
sized_then o f (b, r, e, l, s) h = let (x, e') = h b r l s in (x, rw e e')

pub block_then {ℓ} :
    {A : Type ℓ} {n : ℕ} (o : Option (List ℕ)) (f : List ℕ → Option A)
    → Block n o
    → ((b : List ℕ) → length b ≡ n → Returns (f b))
    → Returns (elim o [ none ↦ none | some b ↦ f b ])
block_then o f (b, e, l) h = let (x, e') = h b l in (x, rw e e')
