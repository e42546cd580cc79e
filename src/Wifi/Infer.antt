-- ===== src/Wifi/Infer.antt =====
-- What `lltd_wifi_infer_params` of os/darwin/daemon/lltd_wifi_rates.c answers.
use mathlib.Core.Path.{subst}
use mathlib.Core.Option.{some-injective}
use lltdresponder.Base.{
  ℕ, zero, suc, ◌≤◌, ◌≡◌, ◌≢◌, refl, sym, ◌∙◌, ap, ◌⊎◌, inl, inr, Bool, true, false, Option, none,
  some, List, [], ◌∷◌, int_eq, ℤ, pos, negsuc, int_le, int_lt, int_succ, int_distance, arith,
  Bool-cases, Option-cases,
}
use lltdresponder.Wifi.{
  int_max, lltd_wifi_calc_rate, WifiRateParams, Best, no_params, family_options, conclude,
  search_nss, lltd_wifi_infer_params,
}
use lltdresponder.Wifi.Search.{AtMost, Within, Fits, Good, OfNss, Searched, search_nss-Searched}
use lltdresponder.Wifi.Valid.{Valid, Modern, lltd_wifi_calc_rate-Small, lltd_wifi_calc_rate-IsValid}
use lltdresponder.Wifi.Rates.{lltd_wifi_calc_rate_total}

-- What an answer says of a combination with some rate: the answer is at least as near to the
-- observed rate, or, if there is none, the combination is out of tolerance.
abbrev pub Nearer : ℤ → ℤ → ℕ → Option WifiRateParams → Type 0
Nearer observed tolerance rate none = int_lt tolerance (pos (int_distance observed rate)) ≡ true
Nearer observed tolerance rate (some p) =
    int_distance observed p.rate_mbps ≤ int_distance observed rate

-- What an answer says of itself: it is a combination of the family, its rate is the one of that
-- combination and is above 0, and the rate is within the tolerance.
abbrev pub Matches : ℤ → ℤ → ℤ → ℤ → Option WifiRateParams → Type 0
Matches family width observed tolerance none = Unit
Matches family width observed tolerance (some p) =
    Valid family p.nss p.mcs p.gi_ns
    × (lltd_wifi_calc_rate family width (pos p.nss) (pos p.mcs) (pos p.gi_ns) ≡ some p.rate_mbps)
    × (p.rate_mbps ≢ 0)
    × (int_le (pos (int_distance observed p.rate_mbps)) tolerance ≡ true)

-- The arguments are of type `int`; the observed rate is not within 10000 of INT_MIN, and the tolerance
-- is not INT_MAX.
abbrev pub Moderate : ℤ → ℤ → Type 0
Moderate observed tolerance =
    (int_le (negsuc 2147473646) observed ≡ true)
    × (int_le observed (pos 2147483647) ≡ true)
    × (int_lt tolerance (pos 2147483647) ≡ true)

distance-Fits :
    (observed : ℤ) (r : ℕ)
    → r ≤ 10000
    → int_le (negsuc 2147473646) observed ≡ true
    → int_le observed (pos 2147483647) ≡ true
    → Fits observed r
distance-Fits (pos a) r h l u = ground (arith, h, u)
distance-Fits (negsuc a) r h l u = ground (arith, h, l)

no_overflow : (t : ℤ) → int_lt t (pos 2147483647) ≡ true → int_eq t (pos int_max) ≡ false
no_overflow (pos t) h = ground (arith, h)
no_overflow (negsuc t) h = refl

succ_above : (t : ℤ) → int_le (int_succ t) t ≡ false
succ_above (pos t) = ground arith
succ_above (negsuc zero) = refl
succ_above (negsuc (suc t)) = ground arith

beyond : (t b d : ℤ) → int_le b t ≡ false → AtMost b d → int_lt t d ≡ true
beyond (pos t) (pos b) (pos d) h k = ground arith
beyond (pos t) (pos b) (negsuc d) h k = cc
beyond (pos t) (negsuc b) d h k = cc
beyond (negsuc t) b (pos d) h k = refl
beyond (negsuc t) (pos b) (negsuc d) h k = cc
beyond (negsuc t) (negsuc b) (negsuc d) h k = ground arith

same-Valid :
    (family : ℤ) (n m g n' m' g' : ℕ)
    → pos n ≡ pos n'
    → pos m ≡ pos m'
    → pos g ≡ pos g'
    → Valid family n' m' g'
    → Valid family n m g
same-Valid family n m g n' m' g' en em eg v =
    let a : n ≡ n' = cc en in let b : m ≡ m' = cc em in let c : g ≡ g' = cc eg in rw (a, b, c) v

true≢false : {A : Type 0} → (b : Bool) → b ≡ true → b ≡ false → A
true≢false b p q = cc

module _ (family width observed tolerance : ℤ) (moderate : Moderate observed tolerance)
    (modern : Modern family) (max : ℕ) (gis : List ℕ) where
  abbrev begin : Best
  begin = record { diff = int_succ tolerance; params = no_params }

  search :
      Searched family width observed
        (int_succ tolerance)
        begin
        (OfNss gis max 8 1)
        (search_nss family width observed gis max 8 1 begin)
  search =
      search_nss-Searched family width observed (int_succ tolerance)
        (λ n m g. lltd_wifi_calc_rate_total family width (pos n) (pos m) (pos g))
        (λ n m g r e.
          distance-Fits observed r
            (lltd_wifi_calc_rate-Small family width (pos n) (pos m) (pos g) r e) moderate.0
            moderate.1)
        gis max 8 1 begin

  too_far : (best : Best) → best.diff ≡ int_succ tolerance → int_le best.diff tolerance ≡ true → ⊥
  too_far best start near =
      true≢false (int_le (int_succ tolerance) tolerance) (rw start at near) (succ_above tolerance)

  closer : {a b : ℕ} → AtMost (pos a) (pos b) → a ≤ b
  closer h = ground (arith, h)

  found-Matches :
      (best : Best)
      → Good family width observed (int_succ tolerance) best
      → Matches family width observed tolerance (conclude tolerance best)
  unfolding conclude
  found-Matches best g = elim (Bool-cases (int_le best.diff tolerance)) [
    | inr far ↦ rw far tt
    | inl near ↦ rw near (elim g [
      | inl start ↦ absurd (too_far best start near)
      | inr (r, z, d) ↦
          let p = best.params in
          let (n, en, (m, g, em, eg, v)) =
            lltd_wifi_calc_rate-IsValid family width (pos p.nss) (pos p.mcs) (pos p.gi_ns)
              p.rate_mbps modern r z in
          (same-Valid family p.nss p.mcs p.gi_ns n m g en em eg v, r, z, rw d at near)
    ])
  ]

  found-Nearer :
      (best : Best) (rate : ℕ)
      → Good family width observed (int_succ tolerance) best
      → AtMost best.diff (pos (int_distance observed rate))
      → Nearer observed tolerance rate (conclude tolerance best)
  unfolding conclude
  found-Nearer best rate g h = elim (Bool-cases (int_le best.diff tolerance)) [
    | inr far ↦ rw far (beyond tolerance best.diff (pos (int_distance observed rate)) far h)
    | inl near ↦ rw near (elim g [
      | inl start ↦ absurd (too_far best start near)
      | inr (r, z, d) ↦ closer (rw d at h)
    ])
  ]

two : {g : ℕ} → (g ≡ 800) ⊎ (g ≡ 400) → Within g (800 ∷ 400 ∷ [])
two (inl a) = inl a
two (inr a) = inr (inl a)

three : {g : ℕ} → (g ≡ 800) ⊎ ((g ≡ 1600) ⊎ (g ≡ 3200)) → Within g (800 ∷ 1600 ∷ 3200 ∷ [])
three (inl a) = inl a
three (inr (inl a)) = inr (inl a)
three (inr (inr a)) = inr (inr (inl a))

infer_steps :
    (family width observed tolerance : ℤ) (max : ℕ) (gis : List ℕ) (best : Best)
    → int_lt tolerance (pos 2147483647) ≡ true
    → family_options family ≡ some (max, gis)
    → search_nss family width observed gis max 8 1
        (record { diff = int_succ tolerance; params = no_params })
      ≡ some best
    → lltd_wifi_infer_params family width observed tolerance ≡ some (conclude tolerance best)
unfolding lltd_wifi_infer_params
infer_steps family width observed tolerance max gis best t e f =
    rw (lltd_wifi_infer_params, e, no_overflow tolerance t, f) refl

infer_legacy :
    (family width observed tolerance : ℤ)
    → family_options family ≡ none
    → lltd_wifi_infer_params family width observed tolerance ≡ some none
unfolding lltd_wifi_infer_params
infer_legacy family width observed tolerance e = rw (lltd_wifi_infer_params, e) refl

is_number : (family : ℤ) (n : ℕ) → int_eq family (pos n) ≡ true → family ≡ pos n
is_number (pos m) n h = ap pos (ground (arith, h))
is_number (negsuc m) n h = cc

options-Modern :
    (family : ℤ) (options : ℕ × List ℕ) → family_options family ≡ some options → Modern family
unfolding family_options
options-Modern family options e = elim (Bool-cases (int_eq family (pos 3))) [
  | inl a ↦ inl (is_number family 3 a)
  | inr a ↦ elim (Bool-cases (int_eq family (pos 4))) [
    | inl b ↦ inr (inl (is_number family 4 b))
    | inr b ↦ elim (Bool-cases (int_eq family (pos 5))) [
      | inl c ↦ inr (inr (is_number family 5 c))
      | inr c ↦ absurd (ground (arith, rw (family_options, a, b, c) at e))
    ]
  ]
]

-- The search of a family goes through all of its combinations.
options-Valid :
    (family : ℤ)
    → Modern family
    → (max : ℕ) × (gis : List ℕ) × (family_options family ≡ some (max, gis))
      × ((n m g : ℕ) → Valid family n m g → OfNss gis max 8 1 n m g)
unfolding family_options
options-Valid family (inl f) = (
  7,
  800 ∷ 400 ∷ [],
  rw f refl,
  λ n m g v. elim v.1 [
    | inl (f', h, a) ↦ ((v.0.0, omega (arith, v.0.1)), h, two a)
    | inr (inl (f', h, a)) ↦ absurd (cc (f, f'))
    | inr (inr (f', h, a)) ↦ absurd (cc (f, f'))
  ],
)
options-Valid family (inr (inl f)) = (
  9,
  800 ∷ 400 ∷ [],
  rw f refl,
  λ n m g v. elim v.1 [
    | inl (f', h, a) ↦ absurd (cc (f, f'))
    | inr (inl (f', h, a)) ↦ ((v.0.0, omega (arith, v.0.1)), h, two a)
    | inr (inr (f', h, a)) ↦ absurd (cc (f, f'))
  ],
)
options-Valid family (inr (inr f)) = (
  11,
  800 ∷ 1600 ∷ 3200 ∷ [],
  rw f refl,
  λ n m g v. elim v.1 [
    | inl (f', h, a) ↦ absurd (cc (f, f'))
    | inr (inl (f', h, a)) ↦ absurd (cc (f, f'))
    | inr (inr (f', h, a)) ↦ ((v.0.0, omega (arith, v.0.1)), h, three a)
  ],
)

-- For any link, any `int` as observed rate that is not within 10000 of INT_MIN, and any tolerance below
-- INT_MAX, the search returns, and its answer is `none` or a combination that the family has (1 to 8
-- streams, a modulation and a guard interval of 802.11n, 802.11ac or 802.11ax), with the rate of that
-- combination, which is above 0 and within the tolerance.
pub lltd_wifi_infer_params-Matches :
    (family width observed tolerance : ℤ)
    → Moderate observed tolerance
    → (answer : Option WifiRateParams) × (lltd_wifi_infer_params family width observed tolerance
        ≡ some answer)
      × Matches family width observed tolerance answer
lltd_wifi_infer_params-Matches family width observed tolerance moderate =
    elim (Option-cases (family_options family)) [
      | inl e ↦ (none, infer_legacy family width observed tolerance e, tt)
      | inr ((max, gis), e) ↦
          let modern = options-Modern family (max, gis) e in
          let s = search family width observed tolerance moderate modern max gis in
          (
            conclude tolerance s.found,
            infer_steps family width observed tolerance max gis s.found moderate.2 e s.returns,
            found-Matches family width observed tolerance moderate modern max gis s.found
                (s.improves.good (inl refl)),
          )
    ]

-- The answer is the best of all. For 802.11n, 802.11ac and 802.11ax, any `int` as observed rate that is
-- not within 10000 of INT_MIN, and any tolerance below INT_MAX: no number of streams, modulation and
-- guard interval, whatever integers they are, has a rate above 0 at the same width that is nearer to
-- the observed rate than the answer, and if there is no answer, none has a rate above 0 within the
-- tolerance.
pub lltd_wifi_infer_params-Nearer :
    (family width observed tolerance nss mcs gi : ℤ) (rate : ℕ) (answer : Option WifiRateParams)
    → Moderate observed tolerance
    → Modern family
    → lltd_wifi_calc_rate family width nss mcs gi ≡ some rate
    → rate ≢ 0
    → lltd_wifi_infer_params family width observed tolerance ≡ some answer
    → Nearer observed tolerance rate answer
lltd_wifi_infer_params-Nearer family width observed tolerance nss mcs gi rate answer moderate modern
      r z a =
    let (max, gis, e, all) = options-Valid family modern in
    let s = search family width observed tolerance moderate modern max gis in
    let same : conclude tolerance s.found ≡ answer = some-injective _ _ (
      sym (infer_steps family width observed tolerance max gis s.found moderate.2 e s.returns)
      ∙ a) in
    let (n, en, (m, g, em, eg, v)) =
      lltd_wifi_calc_rate-IsValid family width nss mcs gi rate modern r z in
    subst (Nearer observed tolerance rate) same (
      found-Nearer family width observed tolerance moderate modern max gis s.found rate
        (s.improves.good (inl refl)) (s.covers n m g rate (all n m g v) (rw (en, em, eg) at r) z))
