-- ===== src/Wifi/Search.antt =====
-- The loops of `lltd_wifi_infer_params` of os/darwin/daemon/lltd_wifi_rates.c, over all combinations.
use mathlib.Core.Path.{subst}
use lltdresponder.Base.{
  ℕ, zero, suc, ◌+◌, ◌≤◌, ◌<◌, ◌≡◌, ◌≢◌, refl, sym, ◌∙◌, ◌⊎◌, inl, inr, ◌==◌, ltb, if◌then◌else◌,
  true, false, Option, some, List, [], ◌∷◌, ℤ, pos, negsuc, int_lt, int_le, int_distance, arith,
  Bool-cases,
}
use mathlib.Core.Option.{some-injective}
use lltdresponder.Wifi.{
  int_max, lltd_wifi_calc_rate, Best, consider, search_gi, search_mcs, search_nss,
}

abbrev pub AtMost : ℤ → ℤ → Type 0
AtMost a b = int_le a b ≡ true

AtMost-refl : (a : ℤ) → AtMost a a
AtMost-refl (pos a) = ground arith
AtMost-refl (negsuc a) = ground arith

pub AtMost-trans : (a b c : ℤ) → AtMost a b → AtMost b c → AtMost a c
AtMost-trans (pos a) (pos b) (pos c) p q = ground arith
AtMost-trans (pos a) (pos b) (negsuc c) p q = cc
AtMost-trans (pos a) (negsuc b) c p q = cc
AtMost-trans (negsuc a) b (pos c) p q = refl
AtMost-trans (negsuc a) (pos b) (negsuc c) p q = cc
AtMost-trans (negsuc a) (negsuc b) (negsuc c) p q = ground arith

AtMost-lt : (a b : ℤ) → int_lt a b ≡ true → AtMost a b
AtMost-lt (pos a) (pos b) h = ground arith
AtMost-lt (pos a) (negsuc b) h = cc
AtMost-lt (negsuc a) (pos b) h = refl
AtMost-lt (negsuc a) (negsuc b) h = ground arith

abbrev pub Within : ℕ → List ℕ → Type 0
Within gi [] = ⊥
Within gi (x ∷ xs) = (gi ≡ x) ⊎ Within gi xs

abbrev made : ℤ → ℕ → ℕ → ℕ → ℕ → Best
made observed nss mcs gi rate = record {
  diff = pos (int_distance observed rate);
  params = record { nss = nss; mcs = mcs; gi_ns = gi; rate_mbps = rate };
}

-- What `consider` makes of a rate when nothing overflows.
abbrev considered : ℤ → ℕ → ℕ → ℕ → ℕ → Best → Best
considered observed nss mcs gi rate best =
    if rate == 0
    then best
    else if int_lt (pos (int_distance observed rate)) best.diff
    then made observed nss mcs gi rate
    else best

-- A rate whose distance from the observed one is an `int`.
abbrev pub Fits : ℤ → ℕ → Type 0
Fits observed rate = int_distance observed rate ≤ int_max

module _ (observed : ℤ) (nss mcs gi rate : ℕ) (best : Best) where
  consider-some :
      Fits observed rate
      → consider observed nss mcs gi rate best ≡ some (considered observed nss mcs gi rate best)
  unfolding consider
  consider-some fits =
      let small : ltb int_max (int_distance observed rate) ≡ false = ground (arith, fits) in
      elim (Bool-cases (rate == 0)) [
        | inl z ↦ rw z refl
        | inr n ↦ elim (Bool-cases (int_lt (pos (int_distance observed rate)) best.diff)) [
          | inl l ↦ rw (n, small, l) refl
          | inr l ↦ rw (n, small, l) refl
        ]
      ]

  -- A rate is passed over, or it is the best so far, or it is not.
  considered_cases :
      ((rate ≡ 0) × (considered observed nss mcs gi rate best ≡ best))
      ⊎ (((rate ≢ 0)
            × (int_lt (pos (int_distance observed rate)) best.diff ≡ true)
            × (considered observed nss mcs gi rate best ≡ made observed nss mcs gi rate))
          ⊎ ((int_lt (pos (int_distance observed rate)) best.diff ≡ false)
              × (considered observed nss mcs gi rate best ≡ best)))
  considered_cases = elim (Bool-cases (rate == 0)) [
    | inl z ↦ inl (ground (arith, z), rw z refl)
    | inr n ↦ elim (Bool-cases (int_lt (pos (int_distance observed rate)) best.diff)) [
      | inl l ↦ inr (inl (ground (arith, n), l, rw (n, l) refl))
      | inr l ↦ inr (inr (l, rw (n, l) refl))
    ]
  ]

  considered-AtMost : AtMost (considered observed nss mcs gi rate best).diff best.diff
  considered-AtMost = elim considered_cases [
    | inl (z, e) ↦ rw e (AtMost-refl best.diff)
    | inr (inl (n, l, e)) ↦ rw e (AtMost-lt (pos (int_distance observed rate)) best.diff l)
    | inr (inr (l, e)) ↦ rw e (AtMost-refl best.diff)
  ]

  considered_better :
      rate ≢ 0
      → AtMost (considered observed nss mcs gi rate best).diff (pos (int_distance observed rate))
  considered_better h = elim considered_cases [
    | inl (z, e) ↦ absurd (h z)
    | inr (inl (n, l, e)) ↦ rw e (AtMost-refl (pos (int_distance observed rate)))
    | inr (inr (l, e)) ↦ rw (e, l) refl
  ]

-- The combinations that a loop goes through.
abbrev OfGi : List ℕ → ℕ → ℕ → ℕ → ℕ → ℕ → Type 0
OfGi gis nss mcs n m g = (n ≡ nss) × (m ≡ mcs) × Within g gis

abbrev OfMcs : List ℕ → ℕ → ℕ → ℕ → ℕ → ℕ → ℕ → Type 0
OfMcs gis k nss mcs n m g = (n ≡ nss) × ((mcs ≤ m) × (m < mcs + k)) × Within g gis

abbrev pub OfNss : List ℕ → ℕ → ℕ → ℕ → ℕ → ℕ → ℕ → Type 0
OfNss gis max k nss n m g = ((nss ≤ n) × (n < nss + k)) × (m ≤ max) × Within g gis

first_or_later : (a k m : ℕ) → (a ≤ m) × (m < a + suc k) → (m ≡ a) ⊎ ((suc a ≤ m) × (m < suc a + k))
first_or_later a k m h = ground (arith, h)

module _ (family width observed : ℤ) where
  abbrev pub rate_of : ℕ → ℕ → ℕ → Option ℕ
  rate_of nss mcs gi = lltd_wifi_calc_rate family width (pos nss) (pos mcs) (pos gi)

  -- Nothing yet, or the rate of a combination with its distance.
  abbrev pub Good : ℤ → Best → Type 0
  Good start best =
      (best.diff ≡ start)
      ⊎ ((rate_of best.params.nss best.params.mcs best.params.gi_ns ≡ some best.params.rate_mbps)
          × (best.params.rate_mbps ≢ 0)
          × (best.diff ≡ pos (int_distance observed best.params.rate_mbps)))

  considered-Good :
      (start : ℤ) (nss mcs gi rate : ℕ) (best : Best)
      → rate_of nss mcs gi ≡ some rate
      → Good start best
      → Good start (considered observed nss mcs gi rate best)
  considered-Good start nss mcs gi rate best r g =
      elim (considered_cases observed nss mcs gi rate best) [
        | inl (z, e) ↦ rw e g
        | inr (inl (n, l, e)) ↦ rw e (inr (r, n, refl))
        | inr (inr (l, e)) ↦ rw e g
      ]

  -- What a search keeps: it finds no worse, and only rates of combinations.
  pub record Improves (start : ℤ) (best best' : Best) : Type 0 where
    pub less : AtMost best'.diff best.diff
    pub good : Good start best → Good start best'

  Improves-refl : (start : ℤ) (best : Best) → Improves start best best
  Improves-refl start best = record { less = AtMost-refl best.diff; good = λ g. g }

  Improves-trans :
      (start : ℤ) (a b c : Best) → Improves start a b → Improves start b c → Improves start a c
  Improves-trans start a b c p q = record {
    less = AtMost-trans c.diff b.diff a.diff q.less p.less;
    good = λ g. q.good (p.good g);
  }

  -- A search that starts from `best` returns, improves, and does no worse than any combination of
  -- a set with a rate.
  pub record Searched (start : ℤ) (best : Best) (C : ℕ → ℕ → ℕ → Type 0) (result : Option Best)
      : Type 0 where
    pub found : Best
    pub returns : result ≡ some found
    pub improves : Improves start best found
    pub covers :
        (n m g r : ℕ)
        → C n m g
        → rate_of n m g ≡ some r
        → r ≢ 0
        → AtMost found.diff (pos (int_distance observed r))

  module _ (start : ℤ) (total : (n m g : ℕ) → (r : ℕ) × (rate_of n m g ≡ some r))
      (fits : (n m g r : ℕ) → rate_of n m g ≡ some r → Fits observed r) where
    search_gi-Searched :
        (gis : List ℕ) (nss mcs : ℕ) (best : Best)
        → Searched start best (OfGi gis nss mcs) (search_gi family width observed gis nss mcs best)
    unfolding search_gi
    search_gi-Searched [] nss mcs best = record {
      found = best;
      returns = refl;
      improves = Improves-refl start best;
      covers = λ n m g r c e z. absurd c.2;
    }
    search_gi-Searched (gi ∷ gis) nss mcs best =
        let (rate, e) = total nss mcs gi in
        let next = considered observed nss mcs gi rate best in
        let rest = search_gi-Searched gis nss mcs next in
        record {
          found = rest.found;
          returns =
              rw
                (search_gi, e, consider-some observed nss mcs gi rate best (fits nss mcs gi rate e))
                rest.returns;
          improves =
              Improves-trans start best next rest.found
                (record {
                  less = considered-AtMost observed nss mcs gi rate best;
                  good = considered-Good start nss mcs gi rate best e;
                })
                rest.improves;
          covers = λ n m g r c e' z. elim c.2 [
            | inr later ↦ rest.covers n m g r (c.0, c.1, later) e' z
            | inl here ↦
                let same : rate ≡ r =
                  some-injective _ _ (sym e ∙ rw (sym c.0, sym c.1, sym here) e') in
                AtMost-trans rest.found.diff next.diff (pos (int_distance observed r))
                  rest.improves.less
                  (subst (λ (q : ℕ). AtMost next.diff (pos (int_distance observed q))) same
                    (considered_better observed nss mcs gi rate best
                      (λ zero_rate. z (sym same ∙ zero_rate))))
          ];
        }

    search_mcs-Searched :
        (gis : List ℕ) (k nss mcs : ℕ) (best : Best)
        → Searched start best
            (OfMcs gis k nss mcs)
            (search_mcs family width observed gis k nss mcs best)
    unfolding search_mcs
    search_mcs-Searched gis zero nss mcs best = record {
      found = best;
      returns = refl;
      improves = Improves-refl start best;
      covers = λ n m g r c e z. absurd (omega (arith, c.1.0, c.1.1));
    }
    search_mcs-Searched gis (suc k) nss mcs best =
        let head = search_gi-Searched gis nss mcs best in
        let rest = search_mcs-Searched gis k nss (suc mcs) head.found in
        record {
          found = rest.found;
          returns = rw (search_mcs, head.returns) rest.returns;
          improves = Improves-trans start best head.found rest.found head.improves rest.improves;
          covers = λ n m g r c e z. elim (first_or_later mcs k m c.1) [
            | inl here ↦
                AtMost-trans rest.found.diff head.found.diff (pos (int_distance observed r))
                  rest.improves.less (head.covers n m g r (c.0, here, c.2) e z)
            | inr later ↦ rest.covers n m g r (c.0, later, c.2) e z
          ];
        }

    pub search_nss-Searched :
        (gis : List ℕ) (max k nss : ℕ) (best : Best)
        → Searched start best
            (OfNss gis max k nss)
            (search_nss family width observed gis max k nss best)
    unfolding search_nss
    search_nss-Searched gis max zero nss best = record {
      found = best;
      returns = refl;
      improves = Improves-refl start best;
      covers = λ n m g r c e z. absurd (omega (arith, c.0.0, c.0.1));
    }
    search_nss-Searched gis max (suc k) nss best =
        let head = search_mcs-Searched gis (suc max) nss 0 best in
        let rest = search_nss-Searched gis max k (suc nss) head.found in
        record {
          found = rest.found;
          returns = rw (search_nss, head.returns) rest.returns;
          improves = Improves-trans start best head.found rest.found head.improves rest.improves;
          covers = λ n m g r c e z. elim (first_or_later nss k n c.0) [
            | inl here ↦
                AtMost-trans rest.found.diff head.found.diff (pos (int_distance observed r))
                  rest.improves.less
                  (head.covers n m g r (here, (omega arith, omega (arith, c.1)), c.2) e z)
            | inr later ↦ rest.covers n m g r (later, c.1, c.2) e z
          ];
        }
