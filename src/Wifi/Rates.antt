-- ===== src/Wifi/Rates.antt =====
-- `lltd_wifi_calc_rate` of os/darwin/daemon/lltd_wifi_rates.c and its accesses to the tables.
use lltdresponder.Base.{
  ℕ, zero, suc, ◌*◌, ◌<◌, ◌≡◌, refl, ◌==◌, ltb, if◌then◌else◌, Bool, true, false, ◌&&◌, ◌||◌,
  Option, none, some, List, [], ◌∷◌, get_elem?, length, ℤ, pos, negsuc, int_eq, arith, Bool-cases,
  inl, inr,
}
use lltdresponder.Wifi.Tables.{Table, ht_rates_x10, vht_rates_1ss_x10, he_rates_1ss_x10}
use lltdresponder.Wifi.{
  width_to_index, gi_to_ht_vht_index, gi_to_he_index, cell, with_mcs, table_rate, vht_rate,
  family_rate, lltd_wifi_calc_rate, round_x10,
}

-- Every row has as many lists as there are widths, and every list as many rates.
abbrev rectangle_row : ℕ → List (List ℕ) → Bool
rectangle_row gis [] = true
rectangle_row gis (r ∷ rs) = length r == gis && rectangle_row gis rs

abbrev rectangle : ℕ → ℕ → Table → Bool
rectangle widths gis [] = true
rectangle widths gis (row ∷ rows) =
    length row == widths && (rectangle_row gis row && rectangle widths gis rows)

get-some {ℓ} :
    {A : Type ℓ} (xs : List A) (i : ℕ) → i < length xs → (x : A) × (get_elem? xs i ≡ some x)
get-some [] i h = absurd (omega arith)
get-some (x ∷ xs) zero h = (x, refl)
get-some (x ∷ xs) (suc i) h = get-some xs i (omega arith)

row_lengths :
    (gis : ℕ) (row : List (List ℕ)) (w : ℕ) (rates : List ℕ)
    → rectangle_row gis row ≡ true
    → get_elem? row w ≡ some rates
    → length rates ≡ gis
row_lengths gis [] w rates h e = cc
row_lengths gis (r ∷ rs) zero rates h e = ground (arith, h, e)
row_lengths gis (r ∷ rs) (suc w) rates h e = row_lengths gis rs w rates (ground (arith, h)) e

table_lengths :
    (widths gis : ℕ) (table : Table) (mcs : ℕ) (row : List (List ℕ))
    → rectangle widths gis table ≡ true
    → get_elem? table mcs ≡ some row
    → (length row ≡ widths) × (rectangle_row gis row ≡ true)
table_lengths widths gis [] mcs row h e = cc
table_lengths widths gis (r ∷ rs) zero row h e = ground (arith, h, e)
table_lengths widths gis (r ∷ rs) (suc mcs) row h e =
    table_lengths widths gis rs mcs row (ground (arith, h)) e

cell_total :
    (widths gis : ℕ) (table : Table) (mcs w g : ℕ)
    → rectangle widths gis table ≡ true
    → mcs < length table
    → w < widths
    → g < gis
    → (r : ℕ) × (cell table mcs w g ≡ some r)
unfolding cell
cell_total widths gis table mcs w g h hm hw hg =
    let (row, e) = get-some table mcs hm in
    let shape = table_lengths widths gis table mcs row h e in
    let (rates, f) = get-some row w (omega (arith, shape.0)) in
    let (r, p) = get-some rates g (omega (arith, row_lengths gis row w rates shape.1 f)) in
    (r, rw (e, f) p)

pub width_bound : (width : ℤ) (max i : ℕ) → width_to_index width max ≡ some i → i < suc max
unfolding width_to_index
width_bound width max i e = ground (arith, e)

pub ht_vht_bound : (gi : ℤ) (i : ℕ) → gi_to_ht_vht_index gi ≡ some i → i < 2
unfolding gi_to_ht_vht_index
ht_vht_bound gi i e = ground (arith, e)

he_bound : (gi : ℤ) (i : ℕ) → gi_to_he_index gi ≡ some i → i < 3
unfolding gi_to_he_index
he_bound gi i e = ground (arith, e)

abbrev IsTotal : Option ℕ → Type 0
IsTotal o = (r : ℕ) × (o ≡ some r)

table_rate-IsTotal :
    (widths gis : ℕ) (table : Table) (nss mcs : ℕ) (w g : Option ℕ)
    → rectangle widths gis table ≡ true
    → mcs < length table
    → ((i : ℕ) → w ≡ some i → i < widths)
    → ((i : ℕ) → g ≡ some i → i < gis)
    → IsTotal (table_rate table nss w g mcs)
unfolding table_rate
table_rate-IsTotal widths gis table nss mcs none g h m hw hg = (0, refl)
table_rate-IsTotal widths gis table nss mcs (some w) none h m hw hg = (0, refl)
table_rate-IsTotal widths gis table nss mcs (some w) (some g) h m hw hg =
    let (r, e) = cell_total widths gis table mcs w g h m (hw w refl) (hg g refl) in
    (round_x10 (r * nss), rw e refl)

some_if :
    (t : Bool) (a b : ℕ)
    → ◌≡◌ {A = Option ℕ} (if t then some a else some b) (some (if t then a else b))
some_if true a b = refl
some_if false a b = refl

vht_rate-IsTotal :
    (nss mcs : ℕ) (w g : Option ℕ)
    → mcs < 10
    → ((i : ℕ) → w ≡ some i → i < 4)
    → ((i : ℕ) → g ≡ some i → i < 2)
    → IsTotal (vht_rate nss w g mcs)
unfolding vht_rate
vht_rate-IsTotal nss mcs none g m hw hg = (0, refl)
vht_rate-IsTotal nss mcs (some w) none m hw hg = (0, refl)
vht_rate-IsTotal nss mcs (some w) (some g) m hw hg =
    let (r, e) = cell_total 4 2 vht_rates_1ss_x10 mcs w g refl m (hw w refl) (hg g refl) in
    (if r == 0 then 0 else round_x10 (r * nss), rw e (some_if (r == 0) 0 (round_x10 (r * nss))))

with_mcs-IsTotal :
    (mcs : ℤ) (max : ℕ) (rate : ℕ → Option ℕ)
    → ((m : ℕ) → m < suc max → IsTotal (rate m))
    → IsTotal (with_mcs mcs max rate)
unfolding with_mcs
with_mcs-IsTotal (negsuc m) max rate h = (0, refl)
with_mcs-IsTotal (pos m) max rate h = elim (Bool-cases (ltb max m)) [
  | inl over ↦ (0, rw over refl)
  | inr fine ↦ rw fine (h m (ground (arith, fine)))
]

if_IsTotal : {a b : Option ℕ} (t : Bool) → IsTotal a → IsTotal b → IsTotal (if t then a else b)
if_IsTotal true p q = p
if_IsTotal false p q = q

family_rate-IsTotal :
    (family width : ℤ) (nss : ℕ) (mcs gi : ℤ) → IsTotal (family_rate family width nss mcs gi)
unfolding family_rate
family_rate-IsTotal family width nss mcs gi =
    if_IsTotal (int_eq family (pos 1)) (11, refl)
      (if_IsTotal (int_eq family (pos 2)) (54, refl)
        (if_IsTotal (int_eq family (pos 3))
          (with_mcs-IsTotal mcs 7 _ λ m h.
            table_rate-IsTotal 2 2 ht_rates_x10 nss m _ _ refl (omega arith) (width_bound width 1)
              (ht_vht_bound gi))
          (if_IsTotal (int_eq family (pos 4))
            (with_mcs-IsTotal mcs 9 _ λ m h.
              vht_rate-IsTotal nss m _ _ (omega arith) (width_bound width 3) (ht_vht_bound gi))
            (if_IsTotal (int_eq family (pos 5))
              (with_mcs-IsTotal mcs 11 _ λ m h.
                table_rate-IsTotal 4 3 he_rates_1ss_x10 nss m _ _ refl (omega arith)
                  (width_bound width 3) (he_bound gi))
              (0, refl)))))

-- The computation of a rate never reads outside its tables.
pub lltd_wifi_calc_rate_total :
    (family width nss mcs gi : ℤ) → (r : ℕ) × (lltd_wifi_calc_rate family width nss mcs gi ≡ some r)
unfolding lltd_wifi_calc_rate
lltd_wifi_calc_rate_total family width (negsuc n) mcs gi = (0, refl)
lltd_wifi_calc_rate_total family width (pos n) mcs gi =
    if_IsTotal (ltb n 1 || ltb 8 n) (0, refl) (family_rate-IsTotal family width n mcs gi)
