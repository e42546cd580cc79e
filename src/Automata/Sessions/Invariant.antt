-- ===== src/Automata/Sessions/Invariant.antt =====
-- What always holds of the session table: the count is the number of used slots, no session has
-- two slots, and the completion flag tells whether every used slot is complete.
use lltdresponder.Base.{
  ℕ, zero, suc, ◌+◌, ◌≡◌, refl, sym, ◌∙◌, inl, inr, true, false, none, some, length, replicate,
  arith, u8, Option-cases,
}
use mathlib.Core.Option.{some-injective}
use lltdresponder.Wire.Address.{EthernetAddress}
use lltdresponder.Automata.Sessions.{
  SessionEntry, SessionTable, matches, unused, new_entry, zero_entry,
  session_table_update_complete_status, session_table_create, session_table_add,
  session_table_remove, session_table_clear, expire_sessions,
}
use lltdresponder.Automata.Sessions.Slots.{first, change_first}
use lltdresponder.Automata.Sessions.Counting.{
  valid_count, all_done, Distinct, valid_count-le, complete_status-all_done,
}
use mathlib.Core.Path.{subst}
use lltdresponder.Automata.Sessions.Steps.{
  session_table_add_known, session_table_add_new, session_table_add_full,
  session_table_remove_known, session_table_remove_unknown,
}
use lltdresponder.Automata.Sessions.Adding.{
  length-change_first, valid_count-add, all_done-add, Distinct-add,
}
use lltdresponder.Automata.Sessions.Leaving.{
  touch, invalidate, valid_count-touch, all_done-touch, Distinct-touch, valid_count-remove,
  Distinct-remove, expire-map, expire-count, length-age, Distinct-age,
}

-- A cleared slot is in nobody's way.
Distinct-clear : (n : ℕ) → Distinct (replicate n zero_entry)
Distinct-clear zero = tt
Distinct-clear (suc n) = (λ e. cc, Distinct-clear n)

pub record Inv (t : SessionTable) : Type 0 where
  pub sixteen : length t.entries ≡ 16
  pub counted : t.count ≡ valid_count t.entries
  pub distinct : Distinct t.entries
  pub status : t.all_complete ≡ all_done t.entries

pub session_table_create-Inv : (t : SessionTable) → session_table_create true ≡ some t → Inv t
unfolding session_table_create valid_count all_done
session_table_create-Inv t e =
    subst Inv (some-injective _ _ e)
      (record { sixteen = refl; counted = refl; distinct = Distinct-clear 16; status = refl })

pub session_table_update_complete_status-Inv :
    (t : SessionTable)
    → length t.entries ≡ 16
    → t.count ≡ valid_count t.entries
    → Distinct t.entries
    → Inv (session_table_update_complete_status t)
unfolding session_table_update_complete_status
session_table_update_complete_status-Inv t l c d = record {
  sixteen = l;
  counted = c;
  distinct = d;
  status = complete_status-all_done t.entries;
}

add_known-Inv :
    (t : SessionTable) (mac : EthernetAddress) (generation seq now : ℕ)
    → Inv t
    → Inv (record t { entries = change_first (matches mac generation) (touch seq now) t.entries })
add_known-Inv t mac generation seq now v =
    let test = matches mac generation in
    record {
      sixteen = length-change_first test (touch seq now) t.entries ∙ v.sixteen;
      counted = v.counted ∙ sym (valid_count-touch test seq now t.entries);
      distinct = Distinct-touch test seq now t.entries v.distinct;
      status = v.status ∙ sym (all_done-touch test seq now t.entries);
    }

add_new-Inv :
    (t : SessionTable) (mac : EthernetAddress) (generation seq now : ℕ) (x : SessionEntry)
    → first (matches mac generation) t.entries ≡ none
    → first unused t.entries ≡ some x
    → Inv t
    → Inv (record {
      entries = change_first unused (λ _. new_entry mac generation seq now) t.entries;
      count = u8 (t.count + 1);
      all_complete = false;
    })
add_new-Inv t mac generation seq now x h u v =
    let grown = valid_count-add mac generation seq now t.entries x u in
    record {
      sixteen =
          length-change_first unused (λ _. new_entry mac generation seq now) t.entries ∙ v.sixteen;
      counted = omega (arith, grown, v.counted, v.sixteen, valid_count-le t.entries);
      distinct = Distinct-add mac generation seq now t.entries h v.distinct;
      status = sym (all_done-add mac generation seq now t.entries x u);
    }

-- Adding a session keeps the invariant, on every path.
pub session_table_add-Inv :
    (t : SessionTable) (mac : EthernetAddress) (generation seq now : ℕ)
    → Inv t
    → Inv (session_table_add t mac generation seq now).0
session_table_add-Inv t mac generation seq now v =
    elim (Option-cases (first (matches mac generation) t.entries)) [
      | inr (x, h) ↦
          rw ((session_table_add_known t mac generation seq now x h).1)
            (add_known-Inv t mac generation seq now v)
      | inl h ↦ elim (Option-cases (first unused t.entries)) [
        | inr (x, u) ↦
            rw ((session_table_add_new t mac generation seq now x h u).1)
              (add_new-Inv t mac generation seq now x h u v)
        | inl u ↦ rw (session_table_add_full t mac generation seq now h u) v
      ]
    ]

-- Removing a session keeps the invariant, whether it was there or not.
pub session_table_remove-Inv :
    (t : SessionTable) (mac : EthernetAddress) (generation : ℕ)
    → Inv t
    → Inv (session_table_remove t mac generation)
session_table_remove-Inv t mac generation v =
    elim (Option-cases (first (matches mac generation) t.entries)) [
      | inl h ↦
          rw (session_table_remove_unknown t mac generation h)
            (session_table_update_complete_status-Inv t v.sixteen v.counted v.distinct)
      | inr (x, h) ↦ rw (session_table_remove_known t mac generation x h) (
          session_table_update_complete_status-Inv _
            (length-change_first (matches mac generation) invalidate t.entries ∙ v.sixteen)
            (let less = valid_count-remove mac generation t.entries x h in
              ground (arith, less, v.counted))
            (Distinct-remove mac generation t.entries v.distinct))
    ]

pub session_table_clear-Inv : (t : SessionTable) → Inv (session_table_clear t)
unfolding session_table_clear valid_count all_done
session_table_clear-Inv t = record {
  sixteen = refl;
  counted = refl;
  distinct = Distinct-clear 16;
  status = refl;
}

-- The expiry of silent sessions keeps the invariant.
pub expire_sessions-Inv : (now_s : ℕ) (t : SessionTable) → Inv t → Inv (expire_sessions now_s t)
unfolding expire_sessions
expire_sessions-Inv now_s t v =
    let entries = expire-map now_s t.count t.entries in
    session_table_update_complete_status-Inv _ (rw entries (length-age now_s t.entries ∙ v.sixteen))
      (rw entries
        (omega (arith, expire-count now_s t.count t.entries (omega (arith, v.counted)), v.counted)))
      (rw entries (Distinct-age now_s t.entries v.distinct))
