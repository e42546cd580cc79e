-- ===== src/Examples/Table.antt =====
-- The session table at concrete sessions.
use lltdresponder.Base.{
  ℕ, ◌≡◌, ◌≢◌, refl, sym, ◌∙◌, ◌+◌, ◌++◌, zero, suc, ltb, if◌then◌else◌, true, false, none, some,
  List, [], ◌∷◌, u64,
}
use lltdresponder.Protocol.{opcode_discover}
use lltdresponder.Wire.Endian.{lltd_ntohs, lltd_htons}
use lltdresponder.Wire.Address.{EthernetAddress, address, address_bytes, mac_equal}
use lltdresponder.Automata.Sessions.{
  SessionTable, session_table_add, session_table_remove, session_table_clear, expire_sessions,
  session_table_find, index_from, modify,
}
use lltdresponder.Automata.Sessions.Slots.{same_key}
use lltdresponder.Automata.Sessions.Invariant.{
  Inv, session_table_add-Inv, session_table_remove-Inv, session_table_clear-Inv,
  expire_sessions-Inv,
}
use lltdresponder.Automata.Sessions.View.{
  view, added, view-session_table_add, view-session_table_remove, view-expire_sessions,
  session_table_add_refused,
}
use lltdresponder.Base.{length, pos, inl, inr}
use lltdresponder.Automata.Events.{derive_session_event}
use lltdresponder.Automata.Events.Laws.{
  changed_xid, event_number, StationsAt, Listed, others_only, derive_session_event-discover,
}

abbrev mapper : EthernetAddress
mapper = address 2 0 0 0 0 1

abbrev other : EthernetAddress
other = address 2 0 0 0 0 2

-- Sessions of one mapper with the generations below `n`.
fill : ℕ → SessionTable
fill zero = session_table_clear (record { entries = []; count = 0; all_complete = true })
fill (suc n) = (session_table_add (fill n) mapper n 1 100).0

fill-Inv : (n : ℕ) → Inv (fill n)
unfolding fill
fill-Inv zero = session_table_clear-Inv (record { entries = []; count = 0; all_complete = true })
fill-Inv (suc n) = session_table_add-Inv (fill n) mapper n 1 100 (fill-Inv n)

some_slot : (s : ℕ) → some s ≢ none
some_slot s e = cc

first_slot : (session_table_add (fill 1) mapper 0 2 105).1 ≡ some 0
unfolding fill session_table_add session_table_find session_table_clear index_from modify mac_equal
first_slot = refl

-- The session is known already: its sequence number changes.
view-session_table_add_example : view (session_table_add (fill 1) mapper 0 2 105).0 mapper 0 ≡ (
    if same_key mapper 0 mapper 0
    then some (added (fill 1) mapper 0 2 105)
    else view (fill 1) mapper 0)
view-session_table_add_example =
    view-session_table_add (fill 1) mapper 0 2 105 mapper 0 (λ e. some_slot 0 (sym first_slot ∙ e))

view-session_table_remove_example :
    view (session_table_remove (fill 2) mapper 0) mapper 1
    ≡ (if same_key mapper 0 mapper 1 then none else view (fill 2) mapper 1)
view-session_table_remove_example =
    view-session_table_remove (fill 2) mapper 0 mapper 1 (fill-Inv 2)

view-expire_sessions_example :
    view (expire_sessions 161 (fill 2)) mapper 1 ≡ elim (view (fill 2) mapper 1) [
      | none ↦ none
      | some e ↦ if ltb (u64 (e.last_activity_ts + 60)) 161 then none else some e
    ]
view-expire_sessions_example = view-expire_sessions 161 (fill 2) mapper 1 (fill-Inv 2)

full_refuses : (session_table_add (fill 16) other 0 1 100).1 ≡ none
unfolding fill session_table_add session_table_find session_table_clear index_from modify mac_equal
full_refuses = refl

session_table_add_refused_example :
    (session_table_add (fill 16) other 0 1 100 ≡ (fill 16, none))
    × (view (fill 16) other 0 ≡ none)
    × ((fill 16).count ≡ 16)
session_table_add_refused_example =
    session_table_add_refused (fill 16) other 0 1 100 (fill-Inv 16) full_refuses

session_table_add-Inv_example : Inv (session_table_add (fill 3) other 9 1 100).0
session_table_add-Inv_example = session_table_add-Inv (fill 3) other 9 1 100 (fill-Inv 3)

session_table_remove-Inv_example : Inv (session_table_remove (fill 3) mapper 1)
session_table_remove-Inv_example = session_table_remove-Inv (fill 3) mapper 1 (fill-Inv 3)

expire_sessions-Inv_example : Inv (expire_sessions 161 (fill 3))
expire_sessions-Inv_example = expire_sessions-Inv 161 (fill 3) (fill-Inv 3)

-- A Discover frame of `mapper` with transaction 5 and generation 1, which lists the mapper alone.
abbrev discover : List ℕ
discover =
    address_bytes other
    ++ (address_bytes mapper
        ++ ((0x88 ∷ 0xD9 ∷ 1 ∷ 0 ∷ 0 ∷ opcode_discover ∷ [])
            ++ (address_bytes other
                ++ (address_bytes mapper
                    ++ ((0 ∷ 5 ∷ 0 ∷ 1 ∷ 0 ∷ 1 ∷ [])
                        ++ (address_bytes other ++ (address_bytes mapper ++ (0 ∷ 0 ∷ []))))))))

stations_at : StationsAt discover 0 (mapper ∷ [])
stations_at = (refl, tt)

one : length (mapper ∷ []) ≡ lltd_ntohs false 1
unfolding lltd_ntohs lltd_htons
one = refl

not-Listed : Listed other (mapper ∷ []) → ⊥
not-Listed (inl e) = cc
not-Listed (inr l) = l

derive_session_event-discover_example :
    derive_session_event false (some discover) (some (fill 2)) (some other)
    ≡ some (
        pos (
          event_number false
            (changed_xid (view (fill 2) mapper (lltd_ntohs false 1)) (lltd_ntohs false 5))))
derive_session_event-discover_example =
    derive_session_event-discover false discover (fill 2) (some other) 1 5 1 mapper (mapper ∷ [])
      false refl refl refl refl refl one stations_at (others_only other mapper [] not-Listed)
