-- ===== src/Automata/Sessions/Slots.antt =====
-- The slots of the table as a list: what the index loops find, and what a store at the index does.
use lltdresponder.Base.{
  ℕ, suc, ◌+◌, ◌≡◌, refl, ap, ◌⊎◌, inl, inr, ◌==◌, if◌then◌else◌, Bool, true, ◌&&◌, Option, none,
  some, List, [], ◌∷◌, get_elem?, arith, Bool-cases,
}
use Prim.Native.Nat.add
use lltdresponder.Wire.Address.{EthernetAddress, mac_equal, mac_equal_iff}
use lltdresponder.Automata.Sessions.{SessionEntry, matches, index_from, modify}

-- The first slot that passes, and the change of that slot.
unfoldable pub first : (SessionEntry → Bool) → List SessionEntry → Option SessionEntry
first test [] = none
first test (e ∷ es) = if test e then some e else first test es

unfoldable pub change_first :
    (SessionEntry → Bool) → (SessionEntry → SessionEntry) → List SessionEntry → List SessionEntry
change_first test f [] = []
change_first test f (e ∷ es) = if test e then f e ∷ es else e ∷ change_first test f es

-- What a loop finds: nothing, or the index of the first slot that passes.
abbrev pub Found : (SessionEntry → Bool) → ℕ → List SessionEntry → Type 0
Found test i es =
    ((index_from test i es ≡ none) × (first test es ≡ none))
    ⊎ ((k : ℕ) × (index_from test i es ≡ some (k + i))
        × (get_elem? es k ≡ first test es)
        × (e : SessionEntry) × (first test es ≡ some e)
        × ((f : SessionEntry → SessionEntry) → modify f es k ≡ change_first test f es))

pub index_from-Found :
    (test : SessionEntry → Bool) (i : ℕ) (es : List SessionEntry) → Found test i es
unfolding index_from first change_first modify
index_from-Found test i [] = inl (refl, refl)
index_from-Found test i (e ∷ es) = elim (Bool-cases (test e)) [
  | inl hit ↦ inr (0, rw (hit, add.zero i), rw hit, e, rw hit, λ f. rw hit)
  | inr miss ↦ elim (index_from-Found test (suc i) es) [
    | inl (p, q) ↦ inl (rw miss p, rw miss q)
    | inr (k, p, q, x, r, s) ↦ inr (
      suc k,
      rw (miss, p) (ap some (omega arith)),
      rw miss q,
      x,
      rw miss r,
      λ f. rw miss (ap (λ (l : List SessionEntry). e ∷ l) (s f)),
    )
  ]
]

-- The key of a session.
abbrev pub same_key : EthernetAddress → ℕ → EthernetAddress → ℕ → Bool
same_key mac generation mac' generation' = mac_equal mac mac' && generation == generation'

-- A slot of one key matches another key only if the keys are the same.
pub matches-same_key :
    (mac mac' : EthernetAddress) (generation generation' : ℕ) (e : SessionEntry)
    → matches mac generation e ≡ true
    → matches mac' generation' e ≡ same_key mac generation mac' generation'
matches-same_key mac mac' generation generation' e h =
    ground (arith, mac_equal_iff e.mapper_mac mac, mac_equal_iff e.mapper_mac mac')
