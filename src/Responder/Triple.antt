-- ===== src/Responder/Triple.antt =====
-- Statements about the handlers of lltdResponder/lltdBlock.c: if `P` holds before and the handler
-- does not fault, `Q` holds of its result and of the world afterwards.
use lltdresponder.Base.{◌≡◌, refl, Bool, true, false, if◌then◌else◌, Option, none, some}
use lltdresponder.Responder.State.{IfaceState, World, M, ◌>>=◌, ◌>>◌, return, done, lift, get}

abbrev pub After : {A : Type 0} → (A → World → Type 0) → Option (A × World) → Type 0
After Q none = Unit
After Q (some (a, w)) = Q a w

pub record Triple {A : Type 0} (P : World → Type 0) (m : M A) (Q : A → World → Type 0)
    : Type 0 where
  pub holds : (w : World) → P w → After Q (m w)

After-elim :
    {A B : Type 0} (o : Option (A × World)) (f : A → M B) (R : A → World → Type 0)
    (Q : B → World → Type 0)
    → After R o
    → ((a : A) → Triple (R a) (f a) Q)
    → After Q (elim o [ none ↦ none | some (a, w') ↦ f a w' ])
After-elim none f R Q h k = tt
After-elim (some (a, w')) f R Q h k = (k a).holds w' h

pub triple_bind :
    {A B : Type 0} {P : World → Type 0} {m : M A} {f : A → M B} {R : A → World → Type 0}
    {Q : B → World → Type 0}
    → Triple P m R
    → ((a : A) → Triple (R a) (f a) Q)
    → Triple P (m >>= f) Q
unfolding ◌>>=◌
triple_bind {m = m} {f = f} {R = R} {Q = Q} h k = record {
  holds = λ w p. After-elim (m w) f R Q (h.holds w p) k;
}

After-lift :
    {A : Type 0} (P : World → Type 0) (o : Option A) (w : World)
    → P w
    → After (λ (a : A). P) (lift o w)
unfolding lift
After-lift P none w p = tt
After-lift P (some a) w p = p

pub triple_lift :
    {A B : Type 0} {P : World → Type 0} {f : A → M B} {Q : B → World → Type 0} (o : Option A)
    → ((a : A) → Triple P (f a) Q)
    → Triple P (lift o >>= f) Q
triple_lift {P = P} o k = triple_bind {m = lift o} (record { holds = After-lift P o }) k

pub triple_then :
    {A B : Type 0} {P R : World → Type 0} {m : M A} {n : M B} {Q : B → World → Type 0}
    → Triple P m (λ _. R)
    → Triple R n Q
    → Triple P (m >> n) Q
triple_then h k = triple_bind h (λ _. k)

-- The state that a handler reads is the state that holds now.
pub triple_get :
    {B : Type 0} {P : World → Type 0} {f : IfaceState → M B} {Q : B → World → Type 0}
    → ((st : IfaceState) → Triple (λ w. P w × (w.st ≡ st)) (f st) Q)
    → Triple P (get >>= f) Q
unfolding get
triple_get {P = P} k = triple_bind {m = get} (record { holds = λ w p. (p, refl) }) k

pub triple_read :
    {B : Type 0} {P : World → Type 0} {f : IfaceState → M B} {Q : B → World → Type 0}
    → ((st : IfaceState) → Triple P (f st) Q)
    → Triple P (get >>= f) Q
unfolding get
triple_read {P = P} k = triple_bind {m = get} (record { holds = λ w p. p }) k

pub triple_if :
    {A : Type 0} {P : World → Type 0} {m n : M A} {Q : A → World → Type 0} (b : Bool)
    → Triple P m Q
    → Triple P n Q
    → Triple P (if b then m else n) Q
triple_if true h k = h
triple_if false h k = k

pub triple_done : {P : World → Type 0} → Triple P done (λ _. P)
triple_done = record { holds = λ w p. p }

pub triple_return : {A : Type 0} {P : World → Type 0} (a : A) → Triple P (return a) (λ _. P)
triple_return a = record { holds = λ w p. p }

-- The same from a stronger condition.
pub triple_from :
    {A : Type 0} {P P' : World → Type 0} {m : M A} {Q : A → World → Type 0}
    → ((w : World) → P' w → P w)
    → Triple P m Q
    → Triple P' m Q
triple_from f h = record { holds = λ w p. h.holds w (f w p) }
