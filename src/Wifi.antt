-- ===== src/Wifi.antt =====
-- os/darwin/daemon/lltd_wifi_rates.c: the rates of Wi-Fi links, and what a rate says about the link.
-- An `int` is an integer of 32 bits. `none` is a read outside a table, or an operation whose result is
-- no `int`, which C leaves undefined.
pub mod Tables
pub mod Search
pub mod Rates
pub mod Valid
pub mod Infer
pub mod MaxRate
use lltdresponder.Base.{
  ℕ, zero, suc, ◌+◌, ◌*◌, ◌/◌, ◌==◌, ltb, if◌then◌else◌, Bool, true, false, ◌||◌, Option, none,
  some, List, [], ◌∷◌, get_elem?, ℤ, pos, negsuc, int_eq, int_lt, int_le, int_succ, int_distance,
}
use lltdresponder.Base.Fault.{◌>>=◌}
use lltdresponder.Wifi.Tables.{Table, ht_rates_x10, vht_rates_1ss_x10, he_rates_1ss_x10}

abbrev pub wifi_phy_legacy_b : ℕ
wifi_phy_legacy_b = 1

abbrev pub wifi_phy_legacy_ag : ℕ
wifi_phy_legacy_ag = 2

abbrev pub wifi_phy_ht : ℕ
wifi_phy_ht = 3

abbrev pub wifi_phy_vht : ℕ
wifi_phy_vht = 4

abbrev pub wifi_phy_he : ℕ
wifi_phy_he = 5

abbrev pub wifi_ht_max_mcs : ℕ
wifi_ht_max_mcs = 7

abbrev pub wifi_vht_max_mcs : ℕ
wifi_vht_max_mcs = 9

abbrev pub wifi_he_max_mcs : ℕ
wifi_he_max_mcs = 11

abbrev pub wifi_max_nss : ℕ
wifi_max_nss = 8

-- The index, or -1; a negative result is `none`.
unfoldable pub width_to_index : ℤ → ℕ → Option ℕ
width_to_index width_mhz max_index =
    let idx : Option ℕ =
      if int_eq width_mhz (pos 20)
      then some 0
      else if int_eq width_mhz (pos 40)
      then some 1
      else if int_eq width_mhz (pos 80)
      then some 2
      else if int_eq width_mhz (pos 160)
      then some 3
      else none in
    idx >>= λ i. if ltb max_index i then none else some i

unfoldable pub gi_to_ht_vht_index : ℤ → Option ℕ
gi_to_ht_vht_index gi_ns =
    if int_eq gi_ns (pos 800) then some 0 else if int_eq gi_ns (pos 400) then some 1 else none

unfoldable pub gi_to_he_index : ℤ → Option ℕ
gi_to_he_index gi_ns =
    if int_eq gi_ns (pos 800)
    then some 0
    else if int_eq gi_ns (pos 1600)
    then some 1
    else if int_eq gi_ns (pos 3200)
    then some 2
    else none

-- `table[mcs][width_idx][gi_idx]`
unfoldable pub cell : Table → ℕ → ℕ → ℕ → Option ℕ
cell table mcs width gi = do
  row ← get_elem? table mcs
  rates ← get_elem? row width
  get_elem? rates gi

abbrev pub round_x10 : ℕ → ℕ
round_x10 rate_x10 = (rate_x10 + 5) / 10

-- `mcs < 0 || mcs > max_mcs`
unfoldable pub with_mcs : ℤ → ℕ → (ℕ → Option ℕ) → Option ℕ
with_mcs (negsuc m) max_mcs rate = some 0
with_mcs (pos m) max_mcs rate = if ltb max_mcs m then some 0 else rate m

-- The rate for `nss` streams from the table of one stream, rounded; 0 for an index below 0.
unfoldable pub table_rate : Table → ℕ → Option ℕ → Option ℕ → ℕ → Option ℕ
unfolding cell
table_rate table nss (some width) (some gi) mcs = do
  rate_x10 ← cell table mcs width gi
  some (round_x10 (rate_x10 * nss))
table_rate table nss _ _ mcs = some 0

-- The same, with the test for a combination that is not valid.
unfoldable pub vht_rate : ℕ → Option ℕ → Option ℕ → ℕ → Option ℕ
unfolding cell
vht_rate nss (some width) (some gi) mcs = do
  rate_x10 ← cell vht_rates_1ss_x10 mcs width gi
  if rate_x10 == 0 then some 0 else some (round_x10 (rate_x10 * nss))
vht_rate nss _ _ mcs = some 0

-- `switch (phy_family)`, for a number of streams in range.
unfoldable pub family_rate : ℤ → ℤ → ℕ → ℤ → ℤ → Option ℕ
unfolding width_to_index gi_to_ht_vht_index gi_to_he_index with_mcs table_rate vht_rate
family_rate phy_family width_mhz nss mcs gi_ns =
    if int_eq phy_family (pos wifi_phy_legacy_b)
    then some 11
    else if int_eq phy_family (pos wifi_phy_legacy_ag)
    then some 54
    else if int_eq phy_family (pos wifi_phy_ht)
    then with_mcs mcs wifi_ht_max_mcs
        (table_rate ht_rates_x10 nss (width_to_index width_mhz 1) (gi_to_ht_vht_index gi_ns))
    else if int_eq phy_family (pos wifi_phy_vht)
    then with_mcs mcs wifi_vht_max_mcs
        (vht_rate nss (width_to_index width_mhz 3) (gi_to_ht_vht_index gi_ns))
    else if int_eq phy_family (pos wifi_phy_he)
    then with_mcs mcs wifi_he_max_mcs
        (table_rate he_rates_1ss_x10 nss (width_to_index width_mhz 3) (gi_to_he_index gi_ns))
    else some 0

unfoldable pub lltd_wifi_calc_rate : (phy_family width_mhz nss mcs gi_ns : ℤ) → Option ℕ
unfolding family_rate
lltd_wifi_calc_rate phy_family width_mhz (negsuc n) mcs gi_ns = some 0
lltd_wifi_calc_rate phy_family width_mhz (pos n) mcs gi_ns =
    if ltb n 1 || ltb wifi_max_nss n then some 0 else family_rate phy_family width_mhz n mcs gi_ns

pub record WifiRateParams : Type 0 where
  pub nss : ℕ
  pub mcs : ℕ
  pub gi_ns : ℕ
  pub rate_mbps : ℕ

-- `best_diff` and the parameters that go with it.
pub record Best : Type 0 where
  pub diff : ℤ
  pub params : WifiRateParams

abbrev pub no_params : WifiRateParams
no_params = record { nss = 0; mcs = 0; gi_ns = 0; rate_mbps = 0 }

abbrev pub int_max : ℕ
int_max = 0x7fffffff

-- The body of the loops, for a rate that was computed. The difference with the observed rate and its
-- absolute value are both an `int` just when the absolute value is at most INT_MAX.
unfoldable pub consider : ℤ → ℕ → ℕ → ℕ → ℕ → Best → Option Best
consider observed_mbps nss mcs gi_ns rate best =
    let diff = int_distance observed_mbps rate in
    if rate == 0
    then some best
    else if ltb int_max diff
    then none
    else if int_lt (pos diff) best.diff
    then some (record {
      diff = pos diff;
      params = record { nss = nss; mcs = mcs; gi_ns = gi_ns; rate_mbps = rate };
    })
    else some best

module _ (phy_family width_mhz observed_mbps : ℤ) where
  -- The loop over the guard intervals.
  unfoldable pub search_gi : List ℕ → ℕ → ℕ → Best → Option Best
  unfolding consider
  search_gi [] nss mcs best = some best
  search_gi (gi ∷ gis) nss mcs best =
      elim (lltd_wifi_calc_rate phy_family width_mhz (pos nss) (pos mcs) (pos gi)) [
        | none ↦ none
        | some rate ↦ elim (consider observed_mbps nss mcs gi rate best) [
          | none ↦ none
          | some best' ↦ search_gi gis nss mcs best'
        ]
      ]

  -- The loop over the modulations, `n` of them to go.
  unfoldable pub search_mcs : List ℕ → ℕ → ℕ → ℕ → Best → Option Best
  unfolding search_gi
  search_mcs gis zero nss mcs best = some best
  search_mcs gis (suc n) nss mcs best = elim (search_gi gis nss mcs best) [
    | none ↦ none
    | some best' ↦ search_mcs gis n nss (suc mcs) best'
  ]

  -- The loop over the numbers of streams, `n` of them to go.
  unfoldable pub search_nss : List ℕ → ℕ → ℕ → ℕ → Best → Option Best
  unfolding search_mcs
  search_nss gis max_mcs zero nss best = some best
  search_nss gis max_mcs (suc n) nss best = elim (search_mcs gis (suc max_mcs) nss 0 best) [
    | none ↦ none
    | some best' ↦ search_nss gis max_mcs n (suc nss) best'
  ]

-- The largest MCS and the guard intervals of a family; none for the others.
unfoldable pub family_options : ℤ → Option (ℕ × List ℕ)
family_options phy_family =
    if int_eq phy_family (pos wifi_phy_ht)
    then some (wifi_ht_max_mcs, 800 ∷ 400 ∷ [])
    else if int_eq phy_family (pos wifi_phy_vht)
    then some (wifi_vht_max_mcs, 800 ∷ 400 ∷ [])
    else if int_eq phy_family (pos wifi_phy_he)
    then some (wifi_he_max_mcs, 800 ∷ 1600 ∷ 3200 ∷ [])
    else none

-- The result -1 is the inner `none`.
unfoldable pub conclude : ℤ → Best → Option WifiRateParams
conclude tolerance_mbps best = if int_le best.diff tolerance_mbps then some best.params else none

unfoldable pub lltd_wifi_infer_params :
    (phy_family width_mhz observed_mbps tolerance_mbps : ℤ) → Option (Option WifiRateParams)
unfolding family_options search_nss conclude
lltd_wifi_infer_params phy_family width_mhz observed_mbps tolerance_mbps =
    elim (family_options phy_family) [
      | none ↦ some none
      | some (max_mcs, gis) ↦
          if int_eq tolerance_mbps (pos int_max)
          then none
          else elim (search_nss phy_family width_mhz observed_mbps gis max_mcs wifi_max_nss 1
              (record { diff = int_succ tolerance_mbps; params = no_params })) [
                | none ↦ none
                | some best ↦ some (conclude tolerance_mbps best)
              ]
    ]

unfoldable pub lltd_wifi_calc_max_rate : (phy_family width_mhz nss : ℤ) → Option ℕ
unfolding lltd_wifi_calc_rate
lltd_wifi_calc_max_rate phy_family width_mhz nss =
    if int_eq phy_family (pos wifi_phy_legacy_b)
    then some 11
    else if int_eq phy_family (pos wifi_phy_legacy_ag)
    then some 54
    else if int_eq phy_family (pos wifi_phy_ht)
    then lltd_wifi_calc_rate phy_family width_mhz nss (pos wifi_ht_max_mcs) (pos 400)
    else if int_eq phy_family (pos wifi_phy_vht)
    then lltd_wifi_calc_rate phy_family width_mhz nss (pos wifi_vht_max_mcs) (pos 400)
    else if int_eq phy_family (pos wifi_phy_he)
    then lltd_wifi_calc_rate phy_family width_mhz nss (pos wifi_he_max_mcs) (pos 800)
    else some 0

-- The modes of CoreWLAN are numbered from 0: none, a, b, g, n, ac, ax.
unfoldable pub lltd_wifi_phy_family_from_cwmode : ℤ → ℕ
lltd_wifi_phy_family_from_cwmode cw_phy_mode =
    if int_eq cw_phy_mode (pos 2)
    then wifi_phy_legacy_b
    else if int_eq cw_phy_mode (pos 1) || int_eq cw_phy_mode (pos 3)
    then wifi_phy_legacy_ag
    else if int_eq cw_phy_mode (pos 4)
    then wifi_phy_ht
    else if int_eq cw_phy_mode (pos 5)
    then wifi_phy_vht
    else if int_eq cw_phy_mode (pos 6)
    then wifi_phy_he
    else 0
