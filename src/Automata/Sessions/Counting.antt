-- ===== src/Automata/Sessions/Counting.antt =====
-- Used slots, counted and tested, and the status loop of the source.
use lltdresponder.Base.{
  ℕ, suc, ◌≤◌, ◌≡◌, refl, if◌then◌else◌, Bool, true, false, ◌&&◌, ◌||◌, not, none, List, [], ◌∷◌,
  length, arith,
}
use lltdresponder.Automata.Sessions.{SessionEntry, matches, complete_status}
use lltdresponder.Automata.Sessions.Slots.{first}

unfoldable pub valid_count : List SessionEntry → ℕ
valid_count [] = 0
valid_count (e ∷ es) = let rest = valid_count es in if e.valid then suc rest else rest

unfoldable pub all_done : List SessionEntry → Bool
all_done [] = true
all_done (e ∷ es) = (not e.valid || e.complete) && all_done es

abbrev pub Distinct : List SessionEntry → Type 0
Distinct [] = Unit {0}
Distinct (e ∷ es) =
    (e.valid ≡ true → first (matches e.mapper_mac e.generation) es ≡ none) × Distinct es

pub valid_count-le : (es : List SessionEntry) → valid_count es ≤ length es
unfolding valid_count
valid_count-le [] = omega arith
valid_count-le (e ∷ es) = ground (arith, valid_count-le es)

-- `complete_status` is the conjunction over the used slots.
complete_status-any : (es : List SessionEntry) → complete_status true es ≡ (true, all_done es)
unfolding complete_status all_done
complete_status-any [] = refl
complete_status-any (e ∷ es) = ground (arith, complete_status-any es)

pub complete_status-all_done :
    (es : List SessionEntry)
    → (not (complete_status false es).0 || (complete_status false es).1) ≡ all_done es
unfolding complete_status all_done
complete_status-all_done [] = refl
complete_status-all_done (e ∷ es) =
    ground (arith, complete_status-any es, complete_status-all_done es)
