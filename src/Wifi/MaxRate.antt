-- ===== src/Wifi/MaxRate.antt =====
-- `lltd_wifi_calc_max_rate` of os/darwin/daemon/lltd_wifi_rates.c and the rates of a family.
use native.Mathlib.Nat.{mul-le-mul_right}
use mathlib.Core.Path.{subst}
use mathlib.Core.Option.{some-injective}
use lltdresponder.Base.{
  ℕ, zero, suc, ◌*◌, ◌≤◌, ◌≡◌, ◌≢◌, ◌⊎◌, refl, sym, ap, ◌∙◌, ◌==◌, ltb, leb, if◌then◌else◌, Bool,
  true, false, ◌&&◌, ◌||◌, Option, none, some, List, [], ◌∷◌, get_elem?, ℤ, pos, negsuc, arith,
  Bool-cases, inl, inr, Option-cases,
}
use lltdresponder.Wifi.Tables.{Table, ht_rates_x10, vht_rates_1ss_x10, he_rates_1ss_x10}
use lltdresponder.Wifi.{
  width_to_index, gi_to_ht_vht_index, gi_to_he_index, cell, with_mcs, table_rate, vht_rate,
  family_rate, lltd_wifi_calc_rate, lltd_wifi_calc_max_rate, round_x10,
}

-- A bound of 0 bounds nothing.
abbrev list_below : ℕ → List ℕ → Bool
list_below b [] = true
list_below b (r ∷ rs) = (b == 0 || leb r b) && list_below b rs

abbrev row_below : List ℕ → List (List ℕ) → Bool
row_below [] row = true
row_below (b ∷ bs) [] = true
row_below (b ∷ bs) (rates ∷ row) = list_below b rates && row_below bs row

abbrev table_below : List ℕ → Table → Bool
table_below bs [] = true
table_below bs (row ∷ rows) = row_below bs row && table_below bs rows

list_below_get :
    (b : ℕ) (rates : List ℕ) (g r : ℕ)
    → list_below b rates ≡ true
    → get_elem? rates g ≡ some r
    → b ≢ 0
    → r ≤ b
list_below_get b [] g r h e z = cc
list_below_get b (x ∷ xs) zero r h e z = ground (arith, h, e, z)
list_below_get b (x ∷ xs) (suc g) r h e z = list_below_get b xs g r (ground (arith, h)) e z

row_below_get :
    (bs : List ℕ) (row : List (List ℕ)) (w b : ℕ) (rates : List ℕ)
    → row_below bs row ≡ true
    → get_elem? row w ≡ some rates
    → get_elem? bs w ≡ some b
    → list_below b rates ≡ true
row_below_get [] row w b rates h e f = cc
row_below_get (x ∷ bs) [] w b rates h e f = cc
row_below_get (x ∷ bs) (y ∷ row) zero b rates h e f = ground (arith, h, e, f)
row_below_get (x ∷ bs) (y ∷ row) (suc w) b rates h e f =
    row_below_get bs row w b rates (ground (arith, h)) e f

table_below_get :
    (bs : List ℕ) (table : Table) (m : ℕ) (row : List (List ℕ))
    → table_below bs table ≡ true
    → get_elem? table m ≡ some row
    → row_below bs row ≡ true
table_below_get bs [] m row h e = cc
table_below_get bs (x ∷ table) zero row h e = ground (arith, h, e)
table_below_get bs (x ∷ table) (suc m) row h e =
    table_below_get bs table m row (ground (arith, h)) e

cell_below :
    (bs : List ℕ) (table : Table) (m w g b r : ℕ)
    → table_below bs table ≡ true
    → get_elem? bs w ≡ some b
    → b ≢ 0
    → cell table m w g ≡ some r
    → r ≤ b
unfolding cell
cell_below bs table m w g b r h f z e = elim (Option-cases (get_elem? table m)) [
  | inl gone ↦ ground (arith, rw gone at e)
  | inr (row, p) ↦ elim (Option-cases (get_elem? row w)) [
    | inl gone ↦ ground (arith, rw (p, gone) at e)
    | inr (rates, q) ↦
        list_below_get b rates g r
          (row_below_get bs row w b rates (table_below_get bs table m row h p) q f) (rw (p, q) at e)
          z
  ]
]

round_le : (c b n : ℕ) → c ≤ b → round_x10 (c * n) ≤ round_x10 (b * n)
round_le c b n h = omega (arith, mul-le-mul_right n h)

module _ (bs : List ℕ) (table : Table) (max best nss : ℕ) where
  table_rate_le :
      (w g : Option ℕ) (mcs m r : ℕ)
      → table_below bs table ≡ true
      → ((i : ℕ) → w ≡ some i → get_elem? bs i ≡ cell table max i best)
      → table_rate table nss w (some best) max ≡ some m
      → m ≢ 0
      → table_rate table nss w g mcs ≡ some r
      → r ≤ m
  unfolding table_rate
  table_rate_le none g mcs m r h top e z f = absurd (z (sym (some-injective _ _ e)))
  table_rate_le (some w) none mcs m r h top e z f = omega (arith, some-injective _ _ f)
  table_rate_le (some w) (some g) mcs m r h top e z f =
      elim (Option-cases (cell table max w best)) [
        | inl gone ↦ ground (arith, rw gone at e)
        | inr (b, p) ↦ elim (Option-cases (cell table mcs w g)) [
          | inl gone ↦ ground (arith, rw gone at f)
          | inr (c, q) ↦
              let me : round_x10 (b * nss) ≡ m = some-injective _ _ (rw p at e) in
              let re : round_x10 (c * nss) ≡ r = some-injective _ _ (rw q at f) in
              let b0 : b ≢ 0 = λ e0. z (sym me ∙ rw e0 (omega arith)) in
              subst (λ x. x ≤ m) re
                (subst (λ x. round_x10 (c * nss) ≤ x) me
                  (round_le c b nss (cell_below bs table mcs w g b c h (top w refl ∙ p) b0 q)))
        ]
      ]

pub vht_rate-table :
    (nss mcs : ℕ) (w g : Option ℕ) → vht_rate nss w g mcs ≡ table_rate vht_rates_1ss_x10 nss w g mcs
unfolding vht_rate table_rate
vht_rate-table nss mcs none g = refl
vht_rate-table nss mcs (some w) none = refl
vht_rate-table nss mcs (some w) (some g) = elim (Option-cases (cell vht_rates_1ss_x10 mcs w g)) [
  | inl gone ↦ rw gone refl
  | inr (zero, p) ↦ rw p (ap (λ x. some x) (omega arith))
  | inr (suc c, p) ↦ let positive : (suc c == 0) ≡ false = ground arith in rw (p, positive) refl
]

with_mcs-zero_or :
    (mcs : ℤ) (max : ℕ) (rate : ℕ → Option ℕ) (r : ℕ)
    → with_mcs mcs max rate ≡ some r
    → (r ≡ 0) ⊎ ((m : ℕ) × (rate m ≡ some r))
unfolding with_mcs
with_mcs-zero_or (negsuc n) max rate r e = inl (sym (some-injective _ _ e))
with_mcs-zero_or (pos n) max rate r e = elim (Bool-cases (ltb max n)) [
  | inl over ↦ inl (sym (some-injective _ _ (rw over at e)))
  | inr fine ↦ inr (n, rw fine at e)
]

abbrev ht_bounds : List ℕ
ht_bounds = 722 ∷ 1500 ∷ []

abbrev vht_bounds : List ℕ
vht_bounds = 0 ∷ 2000 ∷ 4333 ∷ 8667 ∷ []

abbrev he_bounds : List ℕ
he_bounds = 1434 ∷ 2868 ∷ 6005 ∷ 12010 ∷ []

ht_top : (i : ℕ) → get_elem? ht_bounds i ≡ cell ht_rates_x10 7 i 1
unfolding cell
ht_top zero = refl
ht_top (suc zero) = refl
ht_top (suc (suc i)) = refl

vht_top : (i : ℕ) → get_elem? vht_bounds i ≡ cell vht_rates_1ss_x10 9 i 1
unfolding cell
vht_top zero = refl
vht_top (suc zero) = refl
vht_top (suc (suc zero)) = refl
vht_top (suc (suc (suc zero))) = refl
vht_top (suc (suc (suc (suc i)))) = refl

he_top : (i : ℕ) → get_elem? he_bounds i ≡ cell he_rates_1ss_x10 11 i 0
unfolding cell
he_top zero = refl
he_top (suc zero) = refl
he_top (suc (suc zero)) = refl
he_top (suc (suc (suc zero))) = refl
he_top (suc (suc (suc (suc i)))) = refl

-- The second rate is no higher than the first, if there is a first.
abbrev Bounds : Option ℕ → Option ℕ → Type 0
Bounds top rate = (m r : ℕ) → top ≡ some m → m ≢ 0 → rate ≡ some r → r ≤ m

guarded-Bounds :
    (bad : Bool) (p q : Option ℕ)
    → Bounds p q
    → Bounds (if bad then some 0 else p) (if bad then some 0 else q)
guarded-Bounds true p q h m r e z f = omega (arith, some-injective _ _ f)
guarded-Bounds false p q h m r e z f = h m r e z f

with_mcs-Bounds :
    (mcs : ℤ) (max : ℕ) (top : Option ℕ) (rate : ℕ → Option ℕ)
    → ((k : ℕ) → Bounds top (rate k))
    → Bounds top (with_mcs mcs max rate)
with_mcs-Bounds mcs max top rate h m r e z f = elim (with_mcs-zero_or mcs max rate r f) [
  | inl nothing ↦ omega (arith, nothing)
  | inr (k, g) ↦ h k m r e z g
]

module _ (width : ℤ) (n : ℕ) (mcs gi : ℤ) where
  ht-Bounds :
      Bounds
        (lltd_wifi_calc_max_rate (pos 3) width (pos n))
        (lltd_wifi_calc_rate (pos 3) width (pos n) mcs gi)
  unfolding lltd_wifi_calc_max_rate lltd_wifi_calc_rate family_rate with_mcs gi_to_ht_vht_index
  ht-Bounds = guarded-Bounds (ltb n 1 || ltb 8 n) _ _ (
      with_mcs-Bounds mcs 7 _ _ λ k m r e z f.
        table_rate_le ht_bounds ht_rates_x10 7 1 n (width_to_index width 1) (gi_to_ht_vht_index gi)
          k m r refl (λ i p. ht_top i) e z f)

  vht-Bounds :
      Bounds
        (lltd_wifi_calc_max_rate (pos 4) width (pos n))
        (lltd_wifi_calc_rate (pos 4) width (pos n) mcs gi)
  unfolding lltd_wifi_calc_max_rate lltd_wifi_calc_rate family_rate with_mcs gi_to_ht_vht_index
  vht-Bounds = guarded-Bounds (ltb n 1 || ltb 8 n) _ _ (
      with_mcs-Bounds mcs 9 _ _ λ k m r e z f.
        table_rate_le vht_bounds vht_rates_1ss_x10 9 1 n (width_to_index width 3)
          (gi_to_ht_vht_index gi) k m r refl (λ i p. vht_top i)
          (sym (vht_rate-table n 9 (width_to_index width 3) (some 1)) ∙ e) z
          (sym (vht_rate-table n k (width_to_index width 3) (gi_to_ht_vht_index gi)) ∙ f))

  he-Bounds :
      Bounds
        (lltd_wifi_calc_max_rate (pos 5) width (pos n))
        (lltd_wifi_calc_rate (pos 5) width (pos n) mcs gi)
  unfolding lltd_wifi_calc_max_rate lltd_wifi_calc_rate family_rate with_mcs gi_to_he_index
  he-Bounds = guarded-Bounds (ltb n 1 || ltb 8 n) _ _ (
      with_mcs-Bounds mcs 11 _ _ λ k m r e z f.
        table_rate_le he_bounds he_rates_1ss_x10 11 0 n (width_to_index width 3) (gi_to_he_index gi)
          k m r refl (λ i p. he_top i) e z f)

  legacy_b-Bounds :
      Bounds
        (lltd_wifi_calc_max_rate (pos 1) width (pos n))
        (lltd_wifi_calc_rate (pos 1) width (pos n) mcs gi)
  unfolding lltd_wifi_calc_max_rate lltd_wifi_calc_rate family_rate
  legacy_b-Bounds m r e z f = elim (Bool-cases (ltb n 1 || ltb 8 n)) [
    | inl bad ↦ omega (arith, some-injective _ _ (rw bad at f))
    | inr fine ↦ omega (arith, some-injective _ _ e, some-injective _ _ (rw fine at f))
  ]

  legacy_ag-Bounds :
      Bounds
        (lltd_wifi_calc_max_rate (pos 2) width (pos n))
        (lltd_wifi_calc_rate (pos 2) width (pos n) mcs gi)
  unfolding lltd_wifi_calc_max_rate lltd_wifi_calc_rate family_rate
  legacy_ag-Bounds m r e z f = elim (Bool-cases (ltb n 1 || ltb 8 n)) [
    | inl bad ↦ omega (arith, some-injective _ _ (rw bad at f))
    | inr fine ↦ omega (arith, some-injective _ _ e, some-injective _ _ (rw fine at f))
  ]

-- Where `lltd_wifi_calc_max_rate` gives a rate above 0, no rate that `lltd_wifi_calc_rate` computes for the same
-- family, width and number of streams is above it, whatever the modulation and the guard interval.
pub lltd_wifi_calc_max_rate-Bounds :
    (family width nss mcs gi : ℤ) (m r : ℕ)
    → lltd_wifi_calc_max_rate family width nss ≡ some m
    → m ≢ 0
    → lltd_wifi_calc_rate family width nss mcs gi ≡ some r
    → r ≤ m
unfolding lltd_wifi_calc_max_rate lltd_wifi_calc_rate
lltd_wifi_calc_max_rate-Bounds family width (negsuc n) mcs gi m r e z f =
    omega (arith, some-injective _ _ f)
lltd_wifi_calc_max_rate-Bounds (pos (suc zero)) width (pos n) mcs gi m r e z f =
    legacy_b-Bounds width n mcs gi m r e z f
lltd_wifi_calc_max_rate-Bounds (pos (suc (suc zero))) width (pos n) mcs gi m r e z f =
    legacy_ag-Bounds width n mcs gi m r e z f
lltd_wifi_calc_max_rate-Bounds (pos (suc (suc (suc zero)))) width (pos n) mcs gi m r e z f =
    ht-Bounds width n mcs gi m r e z f
lltd_wifi_calc_max_rate-Bounds (pos (suc (suc (suc (suc zero))))) width (pos n) mcs gi m r e z f =
    vht-Bounds width n mcs gi m r e z f
lltd_wifi_calc_max_rate-Bounds (pos (suc (suc (suc (suc (suc zero)))))) width (pos n) mcs gi m r e z
      f =
    he-Bounds width n mcs gi m r e z f
lltd_wifi_calc_max_rate-Bounds (pos zero) width (pos n) mcs gi m r e z f =
    absurd (z (sym (some-injective _ _ e)))
lltd_wifi_calc_max_rate-Bounds (pos (suc (suc (suc (suc (suc (suc k))))))) width (pos n) mcs gi m r
      e z f =
    absurd (z (ground (arith, e)))
lltd_wifi_calc_max_rate-Bounds (negsuc k) width (pos n) mcs gi m r e z f =
    absurd (z (sym (some-injective _ _ e)))
