-- ===== src/Responder/Total.antt =====
-- When a handler of lltdResponder/lltdBlock.c is total, and the rules for the steps of its monad.
pub mod Buffers
pub mod Probes
pub mod LargeTlv
pub mod Frame
use lltdresponder.Base.{
  ◌≡◌, refl, Bool, true, false, if◌then◌else◌, Option, none, some, ℕ, List, ◌∷◌, arith,
}
use lltdresponder.Base.Returns.{Returns, Returns-if}
use lltdresponder.Port.{Port, Effect, alloc}
use lltdresponder.Responder.State.{
  IfaceState, World, M, modify, perform, malloc, send_frame, lltd_state_clear_icon_cache, ◌>>=◌,
  ◌>>◌, return, done, lift, get, lltd_state_clear_seen_probes,
}

pub record Total {A : Type 0} (m : M A) : Type 0 where
  pub returns : (w : World) → Returns (m w)

Returns-then :
    {A B : Type 0} (o : Option (A × World)) (f : A → M B)
    → Returns o
    → ((a : A) → Total (f a))
    → Returns (elim o [ none ↦ none | some (a, w') ↦ f a w' ])
Returns-then none f r k = absurd (ground (arith, r.1))
Returns-then (some (a, w')) f r k = (k a).returns w'

pub Total-bind :
    {A B : Type 0} {m : M A} {f : A → M B} → Total m → ((a : A) → Total (f a)) → Total (m >>= f)
unfolding ◌>>=◌
Total-bind {m = m} {f = f} h k = record { returns = λ w. Returns-then (m w) f (h.returns w) k }

pub Total-then : {A B : Type 0} {m : M A} {n : M B} → Total m → Total n → Total (m >> n)
Total-then h k = Total-bind h (λ _. k)

-- A step that may fault, but does not here.
pub Total-lift :
    {A B : Type 0} {f : A → M B} (o : Option A)
    → Returns o
    → ((a : A) → o ≡ some a → Total (f a))
    → Total (lift o >>= f)
unfolding ◌>>=◌ lift
Total-lift o r k = record { returns = λ w. rw (lift, r.1) ((k r.0 r.1).returns w) }

pub Total-get :
    {B : Type 0} {f : IfaceState → M B} → ((st : IfaceState) → Total (f st)) → Total (get >>= f)
unfolding ◌>>=◌ get
Total-get k = record { returns = λ w. (k w.st).returns w }

pub Total-if :
    {A : Type 0} {m n : M A} (b : Bool)
    → (b ≡ true → Total m)
    → (b ≡ false → Total n)
    → Total (if b then m else n)
Total-if true h k = h refl
Total-if false h k = k refl

pub Total-done : Total done
Total-done = record { returns = λ w. (_, refl) }

pub Total-modify : (f : IfaceState → IfaceState) → Total (modify f)
Total-modify f = record { returns = λ w. (_, refl) }

pub Total-perform : (e : Effect) → Total (perform e)
Total-perform e = record { returns = λ w. (_, refl) }

pub Total-return : {A : Type 0} (a : A) → Total (return a)
Total-return a = record { returns = λ w. (_, refl) }

pub Total-send : (p : Port) (frame : List ℕ) → Total (send_frame p frame)
Total-send p frame = record { returns = λ w. (_, refl) }

pub Total-malloc : (p : Port) → Total (malloc p)
Total-malloc p = record {
  returns = λ w.
      Returns-if (p.malloc w.history) (some (true, record w { history = alloc ∷ w.history }))
        (some (false, w)) (λ t. (_, refl)) (λ t. (_, refl));
}

pub Total-clear_probes : Total lltd_state_clear_seen_probes
unfolding lltd_state_clear_seen_probes
Total-clear_probes = record { returns = λ w. (_, refl) }

pub Total-clear_icon : Total lltd_state_clear_icon_cache
unfolding lltd_state_clear_icon_cache
Total-clear_icon = record { returns = λ w. (_, refl) }

pub Total-lift_to :
    {A B : Type 0} (o : Option A) (f : A → M B) (a : A)
    → o ≡ some a
    → Total (f a)
    → Total (lift o >>= f)
unfolding ◌>>=◌ lift
Total-lift_to o f a e k = record { returns = λ w. rw (lift, e) (k.returns w) }

-- Never a fault, and a result with a property.
pub record Yields {A : Type 0} (Q : A → Type 0) (m : M A) : Type 0 where
  pub yields : (w : World) → (x : A × World) × (m w ≡ some x) × Q x.0

pub Yields-return : {A : Type 0} {Q : A → Type 0} (a : A) → Q a → Yields Q (return a)
Yields-return a q = record { yields = λ w. ((a, w), refl, q) }

pub Yields-if :
    {A : Type 0} {Q : A → Type 0} {m n : M A} (b : Bool)
    → (b ≡ true → Yields Q m)
    → (b ≡ false → Yields Q n)
    → Yields Q (if b then m else n)
Yields-if true h k = h refl
Yields-if false h k = k refl

-- After a handler that never faults.
pub Yields-after :
    {A B : Type 0} {Q : B → Type 0} {m : M A} {f : A → M B}
    → Total m
    → ((a : A) → Yields Q (f a))
    → Yields Q (m >>= f)
unfolding ◌>>=◌
Yields-after {Q = Q} {m = m} {f = f} h k = record {
  yields = λ w.
      let ((a, w'), e) = h.returns w in
      let (x, e', q) = (k a).yields w' in (x, rw (◌>>=◌, e) e', q);
}

pub Yields-bind :
    {A B : Type 0} {R : A → Type 0} {Q : B → Type 0} {m : M A} {f : A → M B}
    → Yields R m
    → ((a : A) → R a → Yields Q (f a))
    → Yields Q (m >>= f)
unfolding ◌>>=◌
Yields-bind {m = m} {f = f} h k = record {
  yields = λ w.
      let ((a, w'), e, r) = h.yields w in
      let (x, e', q) = (k a r).yields w' in (x, rw (◌>>=◌, e) e', q);
}

pub Yields-get :
    {B : Type 0} {Q : B → Type 0} {f : IfaceState → M B}
    → ((st : IfaceState) → Yields Q (f st))
    → Yields Q (get >>= f)
unfolding ◌>>=◌ get
Yields-get k = record { yields = λ w. (k w.st).yields w }

pub Yields-lift_to :
    {A B : Type 0} {Q : B → Type 0} (o : Option A) (f : A → M B) (a : A)
    → o ≡ some a
    → Yields Q (f a)
    → Yields Q (lift o >>= f)
unfolding ◌>>=◌ lift
Yields-lift_to o f a e k = record { yields = λ w. rw (lift, e) (k.yields w) }

pub Total-Yields :
    {A B : Type 0} {Q : A → Type 0} {m : M A} {f : A → M B}
    → Yields Q m
    → ((a : A) → Q a → Total (f a))
    → Total (m >>= f)
unfolding ◌>>=◌
Total-Yields {m = m} {f = f} h k = record {
  returns = λ w.
      let ((a, w'), e, r) = h.yields w in let (x, e') = (k a r).returns w' in (x, rw (◌>>=◌, e) e');
}
