-- ===== src/Base/Returns.antt =====
-- Steps that return: one rule for each way of composing steps that may fault.
use mathlib.Core.Path.{◌≡◌, refl}
use mathlib.Core.Bool.{Bool, true, false}
use mathlib.Core.Option.{Option, some}
use lltdresponder.Base.Tests.{if◌then◌else◌}
use lltdresponder.Base.Fault.{◌>>=◌}

abbrev pub Returns {ℓ} : {A : Type ℓ} → Option A → Type ℓ
Returns {A = A} o = (x : A) × (o ≡ some x)

pub Returns-bind {ℓ κ} :
    {A : Type ℓ} {B : Type κ} (m : Option A) (f : A → Option B)
    → Returns m
    → ((a : A) → m ≡ some a → Returns (f a))
    → Returns (m >>= f)
Returns-bind m f r h = let (b, e) = h r.0 r.1 in (b, rw r.1 e)

pub Returns-if {ℓ} :
    {A : Type ℓ} (t : Bool) (a b : Option A)
    → (t ≡ true → Returns a)
    → (t ≡ false → Returns b)
    → Returns (if t then a else b)
Returns-if true a b p q = p refl
Returns-if false a b p q = q refl
