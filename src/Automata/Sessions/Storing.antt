-- ===== src/Automata/Sessions/Storing.antt =====
-- Stores through a pointer to a session of lltdResponder/lltdAutomata.c.
use lltdresponder.Base.{ℕ, zero, suc, ◌≡◌, refl, sym, ◌∙◌, none, List, [], ◌∷◌, length, arith, ap}
use lltdresponder.Automata.Sessions.{
  SessionEntry, SessionTable, matches, modify, session_table_update_complete_status,
}
use lltdresponder.Automata.Sessions.Slots.{first}
use lltdresponder.Automata.Sessions.Counting.{valid_count, Distinct}
use lltdresponder.Automata.Sessions.Invariant.{Inv, session_table_update_complete_status-Inv}
use lltdresponder.Wire.Address.{EthernetAddress}

-- The store keeps address, generation and validity.
pub record KeepsKey (f : SessionEntry → SessionEntry) : Type 0 where
  pub mac : (e : SessionEntry) → (f e).mapper_mac ≡ e.mapper_mac
  pub generation : (e : SessionEntry) → (f e).generation ≡ e.generation
  pub valid : (e : SessionEntry) → (f e).valid ≡ e.valid

module _ (f : SessionEntry → SessionEntry) (keeps : KeepsKey f) where
  length-modify : (es : List SessionEntry) (k : ℕ) → length (modify f es k) ≡ length es
  unfolding modify
  length-modify [] k = refl
  length-modify (e ∷ es) zero = refl
  length-modify (e ∷ es) (suc k) = ap suc (length-modify es k)

  valid_count-modify :
      (es : List SessionEntry) (k : ℕ) → valid_count (modify f es k) ≡ valid_count es
  unfolding modify valid_count
  valid_count-modify [] k = refl
  valid_count-modify (e ∷ es) zero = rw (keeps.valid e) refl
  valid_count-modify (e ∷ es) (suc k) = rw (valid_count-modify es k) refl

  matches-modify :
      (mac : EthernetAddress) (generation : ℕ) (e : SessionEntry)
      → matches mac generation (f e) ≡ matches mac generation e
  matches-modify mac generation e = rw (keeps.valid e, keeps.mac e, keeps.generation e) refl

  first-modify :
      (mac : EthernetAddress) (generation : ℕ) (es : List SessionEntry) (k : ℕ)
      → first (matches mac generation) es ≡ none
      → first (matches mac generation) (modify f es k) ≡ none
  unfolding modify first
  first-modify mac generation [] k h = refl
  first-modify mac generation (e ∷ es) zero h = ground (arith, h, matches-modify mac generation e)
  first-modify mac generation (e ∷ es) (suc k) h =
      ground (arith, h, first-modify mac generation es k)

  Distinct-modify : (es : List SessionEntry) (k : ℕ) → Distinct es → Distinct (modify f es k)
  unfolding modify
  Distinct-modify [] k d = tt
  Distinct-modify (e ∷ es) zero d =
      (λ v. rw (keeps.mac e, keeps.generation e) (d.0 (rw (keeps.valid e) at v)), d.1)
  Distinct-modify (e ∷ es) (suc k) d =
      (λ v. first-modify e.mapper_mac e.generation es k (d.0 v), Distinct-modify es k d.1)

  -- With the status computed again, such a store keeps the invariant.
  pub store-Inv :
      (t : SessionTable) (k : ℕ)
      → Inv t
      → Inv (session_table_update_complete_status (record t { entries = modify f t.entries k }))
  store-Inv t k v =
      session_table_update_complete_status-Inv (record t { entries = modify f t.entries k })
        (length-modify t.entries k ∙ v.sixteen) (v.counted ∙ sym (valid_count-modify t.entries k))
        (Distinct-modify t.entries k v.distinct)
