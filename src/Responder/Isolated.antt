-- ===== src/Responder/Isolated.antt =====
-- `parseFrame` of lltdResponder/lltdBlock.c and the list of the states of several interfaces.
use mathlib.Core.Option.{some-injective}
use lltdresponder.Base.{
  ℕ, ◌≡◌, ◌≢◌, refl, sym, ap, ◌∙◌, ◌==◌, if◌then◌else◌, Option, none, some, List, [], ◌∷◌, arith,
  Option-cases, Bool-cases, inl, inr,
}
use lltdresponder.Port.{Effect, alloc, Port}
use lltdresponder.Responder.State.{
  IfaceState, find_iface, store_iface, lltd_state_for_iface, zero_state,
}
use lltdresponder.Responder.Dispatch.{handle_frame, parse_frame}

find_iface-store_iface :
    (ctx other : ℕ) (new : IfaceState) (states : List (ℕ × IfaceState))
    → other ≢ ctx
    → find_iface other (store_iface ctx new states) ≡ find_iface other states
unfolding find_iface store_iface
find_iface-store_iface ctx other new [] apart = refl
find_iface-store_iface ctx other new ((c, st) ∷ rest) apart =
    let later = find_iface-store_iface ctx other new rest apart in ground (arith, apart, later)

find_iface-stored :
    (ctx : ℕ) (st new : IfaceState) (states : List (ℕ × IfaceState))
    → find_iface ctx states ≡ some st
    → find_iface ctx (store_iface ctx new states) ≡ some new
unfolding find_iface store_iface
find_iface-stored ctx st new [] e = ground (arith, e)
find_iface-stored ctx st new ((c, s) ∷ rest) e = elim (Bool-cases (c == ctx)) [
  | inl h ↦ simp h refl
  | inr h ↦ simp (h, find_iface-stored ctx st new rest (rw h at e)) refl
]

find_iface-new :
    (ctx : ℕ) (states : List (ℕ × IfaceState))
    → find_iface ctx ((ctx, zero_state) ∷ states) ≡ some zero_state
unfolding find_iface
find_iface-new ctx states = ground arith

find_iface-older :
    (ctx other : ℕ) (states : List (ℕ × IfaceState))
    → other ≢ ctx
    → find_iface other ((ctx, zero_state) ∷ states) ≡ find_iface other states
unfolding find_iface
find_iface-older ctx other states apart = ground (arith, apart)

-- What a frame does to the state of its own interface, which may have none yet.
module _ (p : Port) (frame : List ℕ) where
  abbrev own_start : Option IfaceState → List Effect → Option (IfaceState × List Effect)
  own_start (some st) history = some (st, history)
  own_start none history = if p.malloc history then some (zero_state, alloc ∷ history) else none

  abbrev pub handled : IfaceState → List Effect → Option (Option IfaceState × List Effect)
  handled st history = elim (handle_frame p frame (record { st = st; history = history })) [
    | none ↦ none
    | some (_, w) ↦ some (some w.st, w.history)
  ]

  abbrev pub own : Option IfaceState → List Effect → Option (Option IfaceState × List Effect)
  own o history = elim (own_start o history) [
    | none ↦ some (o, history)
    | some (st, history') ↦ handled st history'
  ]

  -- The states after a frame: that of its interface is handled alone, and the others are the same.
  record Isolates (ctx : ℕ) (before : List (ℕ × IfaceState)) (history : List Effect)
      (after : List (ℕ × IfaceState)) (history' : List Effect) : Type 0 where
    pub alone : own (find_iface ctx before) history ≡ some (find_iface ctx after, history')
    pub others : (other : ℕ) → other ≢ ctx → find_iface other after ≡ find_iface other before

  -- `parse_frame` behind `lltd_state_for_iface`.
  abbrev storing :
      ℕ
      → List (ℕ × IfaceState)
      → IfaceState
      → List Effect
      → Option (List (ℕ × IfaceState) × List Effect)
  storing ctx states st history =
      elim (handle_frame p frame (record { st = st; history = history })) [
        | none ↦ none
        | some (_, w) ↦ some (store_iface ctx w.st states, w.history)
      ]

  stored_alone :
      (ctx : ℕ) (st : IfaceState) (states after : List (ℕ × IfaceState))
      (history history' : List Effect)
      → find_iface ctx states ≡ some st
      → storing ctx states st history ≡ some (after, history')
      → (handled st history ≡ some (find_iface ctx after, history'))
        × ((other : ℕ) → other ≢ ctx → find_iface other after ≡ find_iface other states)
  stored_alone ctx st states after history history' found e =
      elim (Option-cases (handle_frame p frame (record { st = st; history = history }))) [
        | inl gone ↦ absurd (ground (arith, rw (storing, gone) at e))
        | inr ((u, w), done) ↦
            let same = some-injective _ _ (rw (storing, done) at e) in
            let stored : find_iface ctx after ≡ some w.st =
              ap (λ (x : List (ℕ × IfaceState) × List Effect). find_iface ctx x.0) (sym same)
              ∙ find_iface-stored ctx st w.st states found in
            (
              rw
                  (
                    handled,
                    done,
                    stored,
                    ap (λ (x : List (ℕ × IfaceState) × List Effect). x.1) (sym same),
                  )
                  refl,
              λ other apart.
                  ap (λ (x : List (ℕ × IfaceState) × List Effect). find_iface other x.0) (sym same)
                  ∙ find_iface-store_iface ctx other w.st states apart,
            )
      ]

  parse_frame-Isolates :
      (ctx : ℕ) (before : List (ℕ × IfaceState)) (history : List Effect)
      (after : List (ℕ × IfaceState)) (history' : List Effect)
      → parse_frame p (some frame) ctx before history ≡ some (after, history')
      → Isolates ctx before history after history'
  unfolding parse_frame lltd_state_for_iface
  parse_frame-Isolates ctx before history after history' e =
      elim (Option-cases (find_iface ctx before)) [
        | inr (st, found) ↦
            let parts =
              stored_alone ctx st before after history history' found
                (rw (parse_frame, lltd_state_for_iface, found) at e) in
            record { alone = rw found (parts.0); others = parts.1 }
        | inl new ↦ elim (Bool-cases (p.malloc history)) [
          | inl room ↦
              let parts =
                stored_alone ctx zero_state ((ctx, zero_state) ∷ before) after (alloc ∷ history)
                  history' (find_iface-new ctx before)
                  (rw (parse_frame, lltd_state_for_iface, new, room) at e) in
              record {
                alone = rw (own, new, own_start, room) (parts.0);
                others =
                    λ other apart. parts.1 other apart ∙ find_iface-older ctx other before apart;
              }
          | inr full ↦
              let same =
                some-injective _ _ (rw (parse_frame, lltd_state_for_iface, new, full) at e) in
              let kept : before ≡ after =
                ap (λ (x : List (ℕ × IfaceState) × List Effect). x.0) same in
              record {
                alone =
                    rw
                      (
                        own,
                        new,
                        own_start,
                        full,
                        sym kept,
                        new,
                        ap (λ (x : List (ℕ × IfaceState) × List Effect). x.1) same,
                      )
                      refl;
                others = λ other apart. ap (find_iface other) (sym kept);
              }
        ]
      ]

  -- A frame that is handled acts on the state of its own interface as if there were no other
  -- interface, and the state of any other interface stays the same.
  pub parse_frame-own :
      (ctx : ℕ) (before : List (ℕ × IfaceState)) (history : List Effect)
      (after : List (ℕ × IfaceState)) (history' : List Effect)
      → parse_frame p (some frame) ctx before history ≡ some (after, history')
      → (other : ℕ) → other ≢ ctx
      → (own (find_iface ctx before) history ≡ some (find_iface ctx after, history'))
        × (find_iface other after ≡ find_iface other before)
  parse_frame-own ctx before history after history' e other apart =
      let i = parse_frame-Isolates ctx before history after history' e in
      (i.alone, i.others other apart)
