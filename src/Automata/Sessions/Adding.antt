-- ===== src/Automata/Sessions/Adding.antt =====
-- A new session in the first unused slot.
use lltdresponder.Base.{ℕ, suc, ◌≡◌, refl, Bool, false, none, some, List, [], ◌∷◌, length, arith}
use lltdresponder.Wire.Address.{EthernetAddress, mac_equal_iff}
use lltdresponder.Automata.Sessions.{SessionEntry, matches, unused, new_entry}
use lltdresponder.Automata.Sessions.Slots.{first, change_first, same_key}
use lltdresponder.Automata.Sessions.Counting.{valid_count, all_done, Distinct}

pub length-change_first :
    (test : SessionEntry → Bool) (f : SessionEntry → SessionEntry) (es : List SessionEntry)
    → length (change_first test f es) ≡ length es
unfolding change_first
length-change_first test f [] = refl
length-change_first test f (e ∷ es) = ground (arith, length-change_first test f es)

module _ (mac : EthernetAddress) (generation seq now : ℕ) where
  abbrev pub new : SessionEntry
  new = new_entry mac generation seq now

  pub first-add_other :
      (mac' : EthernetAddress) (generation' : ℕ) (es : List SessionEntry)
      → same_key mac generation mac' generation' ≡ false
      → first (matches mac' generation') (change_first unused (λ _. new) es)
        ≡ first (matches mac' generation') es
  unfolding first change_first
  first-add_other mac' generation' [] h = refl
  first-add_other mac' generation' (e ∷ es) h = ground (arith, first-add_other mac' generation' es)

  pub first-add_self :
      (es : List SessionEntry) (x : SessionEntry)
      → first (matches mac generation) es ≡ none
      → first unused es ≡ some x
      → first (matches mac generation) (change_first unused (λ _. new) es) ≡ some new
  unfolding first change_first
  first-add_self [] x h u = cc
  first-add_self (e ∷ es) x h u = ground (arith, first-add_self es x, mac_equal_iff mac mac)

  pub valid_count-add :
      (es : List SessionEntry) (x : SessionEntry)
      → first unused es ≡ some x
      → valid_count (change_first unused (λ _. new) es) ≡ suc (valid_count es)
  unfolding first change_first valid_count
  valid_count-add [] x u = cc
  valid_count-add (e ∷ es) x u = ground (arith, valid_count-add es x)

  pub all_done-add :
      (es : List SessionEntry) (x : SessionEntry)
      → first unused es ≡ some x
      → all_done (change_first unused (λ _. new) es) ≡ false
  unfolding first change_first all_done
  all_done-add [] x u = cc
  all_done-add (e ∷ es) x u = ground (arith, all_done-add es x)

  pub Distinct-add :
      (es : List SessionEntry)
      → first (matches mac generation) es ≡ none
      → Distinct es
      → Distinct (change_first unused (λ _. new) es)
  unfolding first change_first
  Distinct-add [] h d = tt
  Distinct-add (e ∷ es) h d = ground (
    arith,
    Distinct-add es,
    first-add_other e.mapper_mac e.generation es,
    mac_equal_iff e.mapper_mac mac,
    mac_equal_iff mac e.mapper_mac,
  )
