-- ===== src/Automata/Sessions/View.antt =====
-- The table as a map from mapper and generation to an entry: what each operation does to it.
use lltdresponder.Base.{
  ℕ, ◌+◌, ◌≡◌, refl, ap, inl, inr, ltb, if◌then◌else◌, true, Option, none, some, List, [], ◌∷◌,
  length, arith, u64, Option-cases, ◌≢◌,
}
use lltdresponder.Wire.Address.{EthernetAddress, mac_equal_iff}
use lltdresponder.Automata.Sessions.{
  SessionEntry, SessionTable, matches, unused, new_entry, session_table_update_complete_status,
  session_table_add, session_table_remove, expire_sessions,
}
use lltdresponder.Automata.Sessions.Slots.{first, same_key}
use lltdresponder.Automata.Sessions.Counting.{valid_count}
use lltdresponder.Automata.Sessions.Adding.{first-add_other, first-add_self}
use lltdresponder.Automata.Sessions.Leaving.{
  touch, first-touch, first-remove, first-age, expire-map,
}
use lltdresponder.Automata.Sessions.Invariant.{Inv}
use lltdresponder.Automata.Sessions.Steps.{
  session_table_add_known, session_table_add_new, session_table_add_full,
  session_table_remove_known, session_table_remove_unknown,
}

-- The entry of a session, if it has one.
abbrev pub view : SessionTable → EthernetAddress → ℕ → Option SessionEntry
view t mac generation = first (matches mac generation) t.entries

module _ (t : SessionTable) (mac : EthernetAddress) (generation seq now : ℕ) where
  -- The entry that an addition leaves: a new one, or the old one with the new sequence number.
  pub added : SessionEntry
  added = elim (view t mac generation) [
    | none ↦ new_entry mac generation seq now
    | some x ↦ touch seq now x
  ]

  -- An addition that returns a slot binds the key to the entry `added`, a new one or the old one with
  -- the new sequence number and time, and changes no other key.
  pub view-session_table_add :
      (mac' : EthernetAddress) (generation' : ℕ)
      → (session_table_add t mac generation seq now).1 ≢ none
      → view (session_table_add t mac generation seq now).0 mac' generation'
        ≡ (if same_key mac generation mac' generation' then some added else view t mac' generation')
  unfolding added
  view-session_table_add mac' generation' ok = elim (Option-cases (view t mac generation)) [
    | inr (x, h) ↦ rw (
      (session_table_add_known t mac generation seq now x h).1,
      first-touch mac generation seq now mac' generation' t.entries x h,
      h,
      added,
    )
    | inl h ↦ elim (Option-cases (first unused t.entries)) [
      | inl u ↦ absurd (
          ok (
            ap (λ (p : SessionTable × Option ℕ). p.1)
              (session_table_add_full t mac generation seq now h u)))
      | inr (x, u) ↦
          rw ((session_table_add_new t mac generation seq now x h u).1, h, added)
            (ground (
              arith,
              mac_equal_iff mac mac',
              first-add_other mac generation seq now mac' generation' t.entries,
              first-add_self mac generation seq now t.entries x,
            ))
    ]
  ]

-- In a table that satisfies the invariant, after a removal the key is bound to nothing, and no
-- other key has changed.
pub view-session_table_remove :
    (t : SessionTable) (mac : EthernetAddress) (generation : ℕ) (mac' : EthernetAddress)
    (generation' : ℕ)
    → Inv t
    → view (session_table_remove t mac generation) mac' generation'
      ≡ (if same_key mac generation mac' generation' then none else view t mac' generation')
unfolding session_table_update_complete_status
view-session_table_remove t mac generation mac' generation' v =
    elim (Option-cases (view t mac generation)) [
      | inr (x, h) ↦
          rw (session_table_remove_known t mac generation x h)
            (first-remove mac generation mac' generation' t.entries v.distinct)
      | inl h ↦
          rw (session_table_remove_unknown t mac generation h)
            (ground (arith, mac_equal_iff mac mac'))
    ]

first-valid :
    (mac : EthernetAddress) (generation : ℕ) (es : List SessionEntry) (e : SessionEntry)
    → first (matches mac generation) es ≡ some e
    → e.valid ≡ true
unfolding first
first-valid mac generation [] e h = cc
first-valid mac generation (x ∷ es) e h = ground (arith, first-valid mac generation es e)

-- In a table that satisfies the invariant, the expiry unbinds the sessions that have been silent
-- for more than 60 seconds, which is the number of the code, and no other.
pub view-expire_sessions :
    (now_s : ℕ) (t : SessionTable) (mac : EthernetAddress) (generation : ℕ)
    → Inv t
    → view (expire_sessions now_s t) mac generation ≡ elim (view t mac generation) [
      | none ↦ none
      | some e ↦ if ltb (u64 (e.last_activity_ts + 60)) now_s then none else some e
    ]
unfolding expire_sessions session_table_update_complete_status
view-expire_sessions now_s t mac generation v =
    rw (expire-map now_s t.count t.entries, first-age now_s mac generation t.entries v.distinct)
      (elim (Option-cases (view t mac generation)) [
        | inl h ↦ rw h
        | inr (e, h) ↦ rw (h, first-valid mac generation t.entries e h)
      ])

full-count : (es : List SessionEntry) → first unused es ≡ none → valid_count es ≡ length es
unfolding first valid_count
full-count [] h = refl
full-count (e ∷ es) h = ground (arith, full-count es)

-- In a table that satisfies the invariant, an addition returns no slot only when the key is not
-- bound and all sixteen slots are used; then it changes nothing.
pub session_table_add_refused :
    (t : SessionTable) (mac : EthernetAddress) (generation seq now : ℕ)
    → Inv t
    → (session_table_add t mac generation seq now).1 ≡ none
    → (session_table_add t mac generation seq now ≡ (t, none))
      × (view t mac generation ≡ none)
      × (t.count ≡ 16)
session_table_add_refused t mac generation seq now v r =
    elim (Option-cases (view t mac generation)) [
      | inr (x, h) ↦ absurd (
          slot_returned
            (ap (λ (p : SessionTable × Option ℕ). p.1)
              (session_table_add_known t mac generation seq now x h).1)
            r)
      | inl h ↦ elim (Option-cases (first unused t.entries)) [
        | inr (x, u) ↦ absurd (
            slot_returned
              (ap (λ (p : SessionTable × Option ℕ). p.1)
                (session_table_add_new t mac generation seq now x h u).1)
              r)
        | inl u ↦ (
          session_table_add_full t mac generation seq now h u,
          h,
          omega (arith, v.counted, v.sixteen, full-count t.entries u),
        )
      ]
    ]
  where
    slot_returned : {o : Option ℕ} {k : ℕ} → o ≡ some k → o ≡ none → ⊥
    slot_returned p q = cc
