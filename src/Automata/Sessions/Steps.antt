-- ===== src/Automata/Sessions/Steps.antt =====
-- The operations of the table in terms of the first slot that passes a test.
use lltdresponder.Base.{
  ℕ, ◌+◌, ◌≡◌, ap, ◌∙◌, inl, inr, Bool, false, none, some, List, get_elem?, arith, u8,
}
use lltdresponder.Wire.Address.{EthernetAddress}
use lltdresponder.Automata.Sessions.{
  SessionEntry, SessionTable, matches, unused, index_from, modify, new_entry,
  session_table_update_complete_status, drop_count, session_table_add, session_table_remove,
  session_table_find,
}
use lltdresponder.Automata.Sessions.Slots.{first, change_first, index_from-Found}
use lltdresponder.Automata.Sessions.Leaving.{touch, invalidate}

-- The index that a loop from slot 0 finds, with the slot and what a store there does.
abbrev pub Hit : (SessionEntry → Bool) → List SessionEntry → SessionEntry → ℕ → Type 0
Hit test es x k =
    (index_from test 0 es ≡ some k)
    × (get_elem? es k ≡ some x)
    × ((f : SessionEntry → SessionEntry) → modify f es k ≡ change_first test f es)

pub first-Hit :
    (test : SessionEntry → Bool) (es : List SessionEntry) (x : SessionEntry)
    → first test es ≡ some x
    → (k : ℕ) × Hit test es x k
first-Hit test es x h = elim (index_from-Found test 0 es) [
  | inl (p, q) ↦ cc
  | inr (k, p, g, y, r, m) ↦ (k, (p ∙ ap some (omega arith), g ∙ h, m))
]

pub first-Miss :
    (test : SessionEntry → Bool) (es : List SessionEntry)
    → first test es ≡ none
    → index_from test 0 es ≡ none
first-Miss test es h = elim (index_from-Found test 0 es) [
  | inl (p, q) ↦ p
  | inr (k, p, g, y, r, m) ↦ cc
]

module _ (t : SessionTable) (mac : EthernetAddress) (generation : ℕ) where
  -- A session that has a slot is touched, and one that has none takes the first unused slot.
  pub session_table_add_known :
      (seq now : ℕ) (x : SessionEntry)
      → first (matches mac generation) t.entries ≡ some x
      → (k : ℕ) × (session_table_add t mac generation seq now ≡ (
        record t { entries = change_first (matches mac generation) (touch seq now) t.entries },
        some k,
      ))
  unfolding session_table_add session_table_find
  session_table_add_known seq now x h =
      let (k, hit) = first-Hit (matches mac generation) t.entries x h in
      (k, rw (hit.0, session_table_add) (rw (hit.2 (touch seq now))))

  pub session_table_add_new :
      (seq now : ℕ) (x : SessionEntry)
      → first (matches mac generation) t.entries ≡ none
      → first unused t.entries ≡ some x
      → (k : ℕ) × (session_table_add t mac generation seq now ≡ (
        record {
          entries = change_first unused (λ _. new_entry mac generation seq now) t.entries;
          count = u8 (t.count + 1);
          all_complete = false;
        },
        some k,
      ))
  unfolding session_table_add session_table_find
  session_table_add_new seq now x h u =
      let (k, hit) = first-Hit unused t.entries x u in
      (
        k,
        rw (first-Miss (matches mac generation) t.entries h, session_table_add, hit.0)
            (rw (hit.2 (λ _. new_entry mac generation seq now))),
      )

  pub session_table_add_full :
      (seq now : ℕ)
      → first (matches mac generation) t.entries ≡ none
      → first unused t.entries ≡ none
      → session_table_add t mac generation seq now ≡ (t, none)
  unfolding session_table_add session_table_find
  session_table_add_full seq now h u = rw (
    first-Miss (matches mac generation) t.entries h,
    session_table_add,
    first-Miss unused t.entries u,
  )

  pub session_table_remove_known :
      (x : SessionEntry)
      → first (matches mac generation) t.entries ≡ some x
      → session_table_remove t mac generation
        ≡ session_table_update_complete_status (record t {
          entries = change_first (matches mac generation) invalidate t.entries;
          count = drop_count t.count;
        })
  unfolding session_table_remove session_table_find
  session_table_remove_known x h =
      let (k, hit) = first-Hit (matches mac generation) t.entries x h in
      rw (hit.0, session_table_remove) (rw (hit.2 invalidate))

  pub session_table_remove_unknown :
      first (matches mac generation) t.entries ≡ none
      → session_table_remove t mac generation ≡ session_table_update_complete_status t
  unfolding session_table_remove session_table_find
  session_table_remove_unknown h =
      rw (first-Miss (matches mac generation) t.entries h, session_table_remove)
