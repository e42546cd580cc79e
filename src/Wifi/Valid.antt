-- ===== src/Wifi/Valid.antt =====
-- The combinations that have a rate in os/darwin/daemon/lltd_wifi_rates.c, and how large rates are.
use native.Mathlib.Nat.{mul-le-mul_right}
use mathlib.Core.Option.{some-injective}
use lltdresponder.Base.{
  ℕ, zero, suc, ◌≤◌, ◌≡◌, ◌≢◌, ◌⊎◌, refl, sym, ◌∙◌, ltb, leb, if◌then◌else◌, Bool, true, false,
  ◌&&◌, ◌||◌, Option, none, some, List, [], ◌∷◌, get_elem?, ℤ, pos, negsuc, int_eq, arith,
  Bool-cases, inl, inr, Option-cases,
}
use lltdresponder.Wifi.Tables.{Table, ht_rates_x10, vht_rates_1ss_x10, he_rates_1ss_x10}
use lltdresponder.Wifi.MaxRate.{vht_rate-table}
use lltdresponder.Wifi.{
  width_to_index, gi_to_ht_vht_index, gi_to_he_index, cell, with_mcs, table_rate, vht_rate,
  family_rate, lltd_wifi_calc_rate,
}

abbrev list_within : ℕ → List ℕ → Bool
list_within b [] = true
list_within b (r ∷ rs) = leb r b && list_within b rs

abbrev row_within : ℕ → List (List ℕ) → Bool
row_within b [] = true
row_within b (rates ∷ row) = list_within b rates && row_within b row

abbrev table_within : ℕ → Table → Bool
table_within b [] = true
table_within b (row ∷ rows) = row_within b row && table_within b rows

list_within_get :
    (b : ℕ) (rates : List ℕ) (g r : ℕ)
    → list_within b rates ≡ true
    → get_elem? rates g ≡ some r
    → r ≤ b
list_within_get b [] g r h e = cc
list_within_get b (x ∷ xs) zero r h e = ground (arith, h, e)
list_within_get b (x ∷ xs) (suc g) r h e = list_within_get b xs g r (ground (arith, h)) e

row_within_get :
    (b : ℕ) (row : List (List ℕ)) (w : ℕ) (rates : List ℕ)
    → row_within b row ≡ true
    → get_elem? row w ≡ some rates
    → list_within b rates ≡ true
row_within_get b [] w rates h e = cc
row_within_get b (x ∷ row) zero rates h e = ground (arith, h, e)
row_within_get b (x ∷ row) (suc w) rates h e = row_within_get b row w rates (ground (arith, h)) e

table_within_get :
    (b : ℕ) (table : Table) (m : ℕ) (row : List (List ℕ))
    → table_within b table ≡ true
    → get_elem? table m ≡ some row
    → row_within b row ≡ true
table_within_get b [] m row h e = cc
table_within_get b (x ∷ table) zero row h e = ground (arith, h, e)
table_within_get b (x ∷ table) (suc m) row h e =
    table_within_get b table m row (ground (arith, h)) e

cell_within :
    (b : ℕ) (table : Table) (m w g r : ℕ)
    → table_within b table ≡ true
    → cell table m w g ≡ some r
    → r ≤ b
unfolding cell
cell_within b table m w g r h e = elim (Option-cases (get_elem? table m)) [
  | inl gone ↦ ground (arith, rw gone at e)
  | inr (row, p) ↦ elim (Option-cases (get_elem? row w)) [
    | inl gone ↦ ground (arith, rw (p, gone) at e)
    | inr (rates, q) ↦
        list_within_get b rates g r
          (row_within_get b row w rates (table_within_get b table m row h p) q) (rw (p, q) at e)
  ]
]

abbrev Small : Option ℕ → Type 0
Small o = (r : ℕ) → o ≡ some r → r ≤ 10000

bounded-Small : (n : ℕ) → n ≤ 10000 → Small (some n)
bounded-Small n h r e = omega (arith, h, some-injective _ _ e)

table_rate-Small :
    (table : Table) (nss mcs : ℕ) (w g : Option ℕ)
    → table_within 12010 table ≡ true
    → nss ≤ 8
    → Small (table_rate table nss w g mcs)
unfolding table_rate
table_rate-Small table nss mcs none g h n r e = bounded-Small 0 (omega arith) r e
table_rate-Small table nss mcs (some w) none h n r e = bounded-Small 0 (omega arith) r e
table_rate-Small table nss mcs (some w) (some g) h n r e =
    elim (Option-cases (cell table mcs w g)) [
      | inl gone ↦ ground (arith, rw gone at e)
      | inr (c, p) ↦ omega (
        arith,
        some-injective _ _ (rw p at e),
        mul-le-mul_right nss (cell_within 12010 table mcs w g c h p),
        n,
      )
    ]

if-Small : {a b : Option ℕ} (t : Bool) → Small a → Small b → Small (if t then a else b)
if-Small true p q = p
if-Small false p q = q

with_mcs-Small :
    (mcs : ℤ) (max : ℕ) (rate : ℕ → Option ℕ)
    → ((m : ℕ) → Small (rate m))
    → Small (with_mcs mcs max rate)
unfolding with_mcs
with_mcs-Small (negsuc m) max rate h = bounded-Small 0 (omega arith)
with_mcs-Small (pos m) max rate h = if-Small (ltb max m) (bounded-Small 0 (omega arith)) (h m)

vht_rate-Small : (nss mcs : ℕ) (w g : Option ℕ) → nss ≤ 8 → Small (vht_rate nss w g mcs)
vht_rate-Small nss mcs w g n =
    rw (vht_rate-table nss mcs w g) (table_rate-Small vht_rates_1ss_x10 nss mcs w g refl n)

-- No rate is above 10000 Mbit/s.
pub lltd_wifi_calc_rate-Small :
    (family width nss mcs gi : ℤ) (r : ℕ)
    → lltd_wifi_calc_rate family width nss mcs gi ≡ some r
    → r ≤ 10000
unfolding lltd_wifi_calc_rate family_rate
lltd_wifi_calc_rate-Small family width (negsuc n) mcs gi = bounded-Small 0 (omega arith)
lltd_wifi_calc_rate-Small family width (pos n) mcs gi = elim (Bool-cases (ltb n 1 || ltb 8 n)) [
  | inl bad ↦ rw bad (bounded-Small 0 (omega arith))
  | inr good ↦
      let few : n ≤ 8 = ground (arith, good) in
      rw good (
        if-Small (int_eq family (pos 1)) (bounded-Small 11 (omega arith)) (
          if-Small (int_eq family (pos 2)) (bounded-Small 54 (omega arith)) (
            if-Small (int_eq family (pos 3))
              (with_mcs-Small mcs 7 _ λ m. table_rate-Small ht_rates_x10 n m _ _ refl few)
              (if-Small (int_eq family (pos 4))
                (with_mcs-Small mcs 9 _ λ m. vht_rate-Small n m _ _ few)
                (if-Small (int_eq family (pos 5))
                  (with_mcs-Small mcs 11 _ λ m. table_rate-Small he_rates_1ss_x10 n m _ _ refl few)
                  (bounded-Small 0 (omega arith)))))))
]

-- The combinations of a family: 1 to 8 streams, and the modulations and guard intervals of 802.11n,
-- 802.11ac and 802.11ax.
abbrev pub Valid : ℤ → ℕ → ℕ → ℕ → Type 0
Valid family nss mcs gi =
    ((1 ≤ nss) × (nss ≤ 8))
    × (((family ≡ pos 3) × (mcs ≤ 7) × ((gi ≡ 800) ⊎ (gi ≡ 400)))
        ⊎ (((family ≡ pos 4) × (mcs ≤ 9) × ((gi ≡ 800) ⊎ (gi ≡ 400)))
            ⊎ ((family ≡ pos 5) × (mcs ≤ 11) × ((gi ≡ 800) ⊎ ((gi ≡ 1600) ⊎ (gi ≡ 3200))))))

-- The families with modulations: 802.11n, 802.11ac and 802.11ax.
abbrev pub Modern : ℤ → Type 0
Modern family = (family ≡ pos 3) ⊎ ((family ≡ pos 4) ⊎ (family ≡ pos 5))

-- What an index says of the guard interval.
ht_vht_gi :
    (gi : ℤ) (i : ℕ)
    → gi_to_ht_vht_index gi ≡ some i
    → (g : ℕ) × (gi ≡ pos g) × ((g ≡ 800) ⊎ (g ≡ 400))
unfolding gi_to_ht_vht_index
ht_vht_gi (negsuc g) i e = cc
ht_vht_gi (pos g) i e = (g, refl, ground (arith, e))

he_gi :
    (gi : ℤ) (i : ℕ)
    → gi_to_he_index gi ≡ some i
    → (g : ℕ) × (gi ≡ pos g) × ((g ≡ 800) ⊎ ((g ≡ 1600) ⊎ (g ≡ 3200)))
unfolding gi_to_he_index
he_gi (negsuc g) i e = cc
he_gi (pos g) i e = (g, refl, ground (arith, e))

table_rate_gi :
    (table : Table) (nss : ℕ) (w g : Option ℕ) (mcs r : ℕ)
    → table_rate table nss w g mcs ≡ some r
    → r ≢ 0
    → (i : ℕ) × (g ≡ some i)
unfolding table_rate
table_rate_gi table nss none g mcs r e z = absurd (z (sym (some-injective _ _ e)))
table_rate_gi table nss (some w) none mcs r e z = absurd (z (sym (some-injective _ _ e)))
table_rate_gi table nss (some w) (some i) mcs r e z = (i, refl)

with_mcs-some :
    (mcs : ℤ) (max : ℕ) (rate : ℕ → Option ℕ) (r : ℕ)
    → with_mcs mcs max rate ≡ some r
    → r ≢ 0
    → (m : ℕ) × (mcs ≡ pos m) × (m ≤ max) × (rate m ≡ some r)
unfolding with_mcs
with_mcs-some (negsuc m) max rate r e z = absurd (z (sym (some-injective _ _ e)))
with_mcs-some (pos m) max rate r e z = elim (Bool-cases (ltb max m)) [
  | inl over ↦ absurd (z (sym (some-injective _ _ (rw over at e))))
  | inr fine ↦ (m, refl, ground (arith, fine), rw fine at e)
]

-- A combination of naturals that a family has.
abbrev pub IsValid : ℤ → ℕ → ℤ → ℤ → Type 0
IsValid family n mcs gi = (m : ℕ) × (g : ℕ) × (mcs ≡ pos m) × (gi ≡ pos g) × Valid family n m g

family_rate-IsValid :
    (family width : ℤ) (n : ℕ) (mcs gi : ℤ) (r : ℕ)
    → Modern family
    → (1 ≤ n) × (n ≤ 8)
    → family_rate family width n mcs gi ≡ some r
    → r ≢ 0
    → IsValid family n mcs gi
unfolding family_rate
family_rate-IsValid family width n mcs gi r (inl f) few e z =
    let (m, em, hm, rm) = with_mcs-some mcs 7 _ r (rw f at e) z in
    let (i, ei) =
      table_rate_gi ht_rates_x10 n (width_to_index width 1) (gi_to_ht_vht_index gi) m r rm z in
    let (g, eg, hg) = ht_vht_gi gi i ei in (m, g, em, eg, (few, inl (f, hm, hg)))
family_rate-IsValid family width n mcs gi r (inr (inl f)) few e z =
    let (m, em, hm, rm) = with_mcs-some mcs 9 _ r (rw f at e) z in
    let (i, ei) =
      table_rate_gi vht_rates_1ss_x10 n (width_to_index width 3) (gi_to_ht_vht_index gi) m r
        (sym (vht_rate-table n m (width_to_index width 3) (gi_to_ht_vht_index gi)) ∙ rm) z in
    let (g, eg, hg) = ht_vht_gi gi i ei in (m, g, em, eg, (few, inr (inl (f, hm, hg))))
family_rate-IsValid family width n mcs gi r (inr (inr f)) few e z =
    let (m, em, hm, rm) = with_mcs-some mcs 11 _ r (rw f at e) z in
    let (i, ei) =
      table_rate_gi he_rates_1ss_x10 n (width_to_index width 3) (gi_to_he_index gi) m r rm z in
    let (g, eg, hg) = he_gi gi i ei in (m, g, em, eg, (few, inr (inr (f, hm, hg))))

-- A combination with a rate is one of the family.
pub lltd_wifi_calc_rate-IsValid :
    (family width nss mcs gi : ℤ) (r : ℕ)
    → Modern family
    → lltd_wifi_calc_rate family width nss mcs gi ≡ some r
    → r ≢ 0
    → (n : ℕ) × (nss ≡ pos n) × IsValid family n mcs gi
unfolding lltd_wifi_calc_rate
lltd_wifi_calc_rate-IsValid family width (negsuc n) mcs gi r f e z =
    absurd (z (sym (some-injective _ _ e)))
lltd_wifi_calc_rate-IsValid family width (pos n) mcs gi r f e z =
    elim (Bool-cases (ltb n 1 || ltb 8 n)) [
      | inl bad ↦ absurd (z (sym (some-injective _ _ (rw bad at e))))
      | inr good ↦ (
        n,
        refl,
        family_rate-IsValid family width n mcs gi r f (ground (arith, good), ground (arith, good))
            (rw good at e) z,
      )
    ]
