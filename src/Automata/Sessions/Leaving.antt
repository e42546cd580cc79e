-- ===== src/Automata/Sessions/Leaving.antt =====
-- A session that is touched, one that is removed, and those that expire.
use lltdresponder.Base.{
  ℕ, suc, ◌+◌, ◌≤◌, ◌≡◌, refl, ap, ltb, if◌then◌else◌, Bool, false, ◌&&◌, none, some, List, [], ◌∷◌,
  length, arith, map, u64,
}
use lltdresponder.Wire.Address.{EthernetAddress, mac_equal_iff}
use lltdresponder.Automata.Sessions.{SessionEntry, matches, expire, drop_count}
use lltdresponder.Automata.Sessions.Slots.{first, change_first, same_key, matches-same_key}
use lltdresponder.Automata.Sessions.Counting.{valid_count, all_done, Distinct}

-- A change that leaves the key and the two flags alone.
abbrev pub touch : ℕ → ℕ → SessionEntry → SessionEntry
touch seq now e = record e { seq_number = seq; last_activity_ts = now }

abbrev pub invalidate : SessionEntry → SessionEntry
invalidate e = record e { valid = false }

module _ (test : SessionEntry → Bool) (seq now : ℕ) where
  pub valid_count-touch :
      (es : List SessionEntry) → valid_count (change_first test (touch seq now) es) ≡ valid_count es
  unfolding change_first valid_count
  valid_count-touch [] = refl
  valid_count-touch (e ∷ es) = ground (arith, valid_count-touch es)

  pub all_done-touch :
      (es : List SessionEntry) → all_done (change_first test (touch seq now) es) ≡ all_done es
  unfolding change_first all_done
  all_done-touch [] = refl
  all_done-touch (e ∷ es) = ground (arith, all_done-touch es)

  first-touch-none :
      (mac : EthernetAddress) (generation : ℕ) (es : List SessionEntry)
      → first (matches mac generation) es ≡ none
      → first (matches mac generation) (change_first test (touch seq now) es) ≡ none
  unfolding first change_first
  first-touch-none mac generation [] h = refl
  first-touch-none mac generation (e ∷ es) h = ground (arith, first-touch-none mac generation es)

  pub Distinct-touch :
      (es : List SessionEntry) → Distinct es → Distinct (change_first test (touch seq now) es)
  unfolding change_first
  Distinct-touch [] d = tt
  Distinct-touch (e ∷ es) d =
      ground (arith, Distinct-touch es, first-touch-none e.mapper_mac e.generation es)

module _ (mac : EthernetAddress) (generation : ℕ) where
  -- Looking up a key after its entry was touched, and another key.
  pub first-touch :
      (seq now : ℕ) (mac' : EthernetAddress) (generation' : ℕ) (es : List SessionEntry)
      (x : SessionEntry)
      → first (matches mac generation) es ≡ some x
      → first (matches mac' generation') (change_first (matches mac generation) (touch seq now) es)
        ≡ (if same_key mac generation mac' generation'
            then some (touch seq now x)
            else first (matches mac' generation') es)
  unfolding first change_first
  first-touch seq now mac' generation' [] x h = cc
  first-touch seq now mac' generation' (e ∷ es) x h = ground (
    arith,
    first-touch seq now mac' generation' es x,
    matches-same_key mac mac' generation generation' e,
    mac_equal_iff mac mac',
  )

  pub valid_count-remove :
      (es : List SessionEntry) (x : SessionEntry)
      → first (matches mac generation) es ≡ some x
      → suc (valid_count (change_first (matches mac generation) invalidate es)) ≡ valid_count es
  unfolding first change_first valid_count
  valid_count-remove [] x h = cc
  valid_count-remove (e ∷ es) x h = ground (arith, valid_count-remove es x)

  first-remove_none :
      (mac' : EthernetAddress) (generation' : ℕ) (es : List SessionEntry)
      → first (matches mac' generation') es ≡ none
      → first (matches mac' generation') (change_first (matches mac generation) invalidate es)
        ≡ none
  unfolding first change_first
  first-remove_none mac' generation' [] h = refl
  first-remove_none mac' generation' (e ∷ es) h =
      ground (arith, first-remove_none mac' generation' es)

  pub Distinct-remove :
      (es : List SessionEntry)
      → Distinct es
      → Distinct (change_first (matches mac generation) invalidate es)
  unfolding change_first
  Distinct-remove [] d = tt
  Distinct-remove (e ∷ es) d =
      ground (arith, Distinct-remove es, first-remove_none e.mapper_mac e.generation es)

  -- With no key in two slots, removing one slot removes the key, and no other.
  pub first-remove :
      (mac' : EthernetAddress) (generation' : ℕ) (es : List SessionEntry)
      → Distinct es
      → first (matches mac' generation') (change_first (matches mac generation) invalidate es) ≡ (
          if same_key mac generation mac' generation'
          then none
          else first (matches mac' generation') es)
  unfolding first change_first
  first-remove mac' generation' [] d = ground arith
  first-remove mac' generation' (e ∷ es) d = ground (
    arith,
    first-remove mac' generation' es,
    matches-same_key mac mac' generation generation' e,
    mac_equal_iff mac mac',
    mac_equal_iff e.mapper_mac mac,
  )

-- What the expiry loop does to each entry.
abbrev pub stale : ℕ → SessionEntry → Bool
stale now_s e = e.valid && ltb (u64 (e.last_activity_ts + 60)) now_s

abbrev pub age : ℕ → SessionEntry → SessionEntry
age now_s e = if stale now_s e then invalidate e else e

module _ (now_s : ℕ) where
  pub expire-map :
      (count : ℕ) (es : List SessionEntry) → (expire now_s count es).1 ≡ map (age now_s) es
  unfolding expire
  expire-map count [] = refl
  expire-map count (e ∷ es) =
      ap (λ (l : List SessionEntry). age now_s e ∷ l)
        (expire-map (if stale now_s e then drop_count count else count) es)

  pub expire-count :
      (count : ℕ) (es : List SessionEntry)
      → valid_count es ≤ count
      → (expire now_s count es).0 + valid_count es ≡ count + valid_count (map (age now_s) es)
  unfolding expire valid_count
  expire-count count [] h = refl
  expire-count count (e ∷ es) h =
      ground (arith, expire-count (if stale now_s e then drop_count count else count) es)

  pub length-age : (es : List SessionEntry) → length (map (age now_s) es) ≡ length es
  length-age [] = refl
  length-age (e ∷ es) = ap suc (length-age es)

  first-age-none :
      (mac : EthernetAddress) (generation : ℕ) (es : List SessionEntry)
      → first (matches mac generation) es ≡ none
      → first (matches mac generation) (map (age now_s) es) ≡ none
  unfolding first
  first-age-none mac generation [] h = refl
  first-age-none mac generation (e ∷ es) h = ground (arith, first-age-none mac generation es)

  pub Distinct-age : (es : List SessionEntry) → Distinct es → Distinct (map (age now_s) es)
  Distinct-age [] d = tt
  Distinct-age (e ∷ es) d =
      ground (arith, Distinct-age es, first-age-none e.mapper_mac e.generation es)

  -- A key is found after the expiry if it was found before and its entry is not stale.
  pub first-age :
      (mac : EthernetAddress) (generation : ℕ) (es : List SessionEntry)
      → Distinct es
      → first (matches mac generation) (map (age now_s) es)
        ≡ elim (first (matches mac generation) es) [
          | none ↦ none
          | some e ↦ if stale now_s e then none else some e
        ]
  unfolding first
  first-age mac generation [] d = refl
  first-age mac generation (e ∷ es) d = ground (
    arith,
    first-age mac generation es,
    first-age-none mac generation es,
    mac_equal_iff e.mapper_mac mac,
  )
