-- ===== src/Daemon/Darwin/Steps.antt =====
-- The steps of `lltdLoop` of os/darwin/daemon/darwin-main.c that handle a frame, one by one.
use mathlib.Core.Path.{subst}
use lltdresponder.Base.{
  ℕ, ◌≤◌, ◌≡◌, ◌≢◌, refl, sym, ◌==◌, inl, inr, if◌then◌else◌, Bool, true, false, Option, some, List,
  ◌∷◌, ℤ, pos, length, arith, Option-cases, sub64,
}
use lltdresponder.Protocol.{opcode_discover, opcode_reset}
use lltdresponder.Wire.Endian.{lltd_ntohs}
use lltdresponder.Wire.Address.{EthernetAddress}
use lltdresponder.Wire.Header.Reads.{get_elem?-some, read_u16-some, read_address-some}
use lltdresponder.Port.{Port}
use lltdresponder.Automata.Machine.{Automata, MappingState, switch_state_mapping}
use lltdresponder.Automata.Machine.Mapping
use lltdresponder.Automata.Sessions.{session_table_add, session_table_is_empty}
use lltdresponder.Automata.Sessions.Invariant.{
  session_table_add-Inv, session_table_update_complete_status-Inv,
}
use lltdresponder.Automata.Sessions.Storing.{KeepsKey, store-Inv}
use lltdresponder.Automata.Tick.Keeps.{IsMapping, TableInv, TableInv-clear, clear-empty}
use lltdresponder.Daemon.Darwin.{
  Interface, FrameClock, note_event, store_session, clear_sessions, on_discover, update_sessions,
}

-- Two interfaces with the same automata, the second with a table in order.
pub record Stored (i j : Interface) : Type 0 where
  pub mapping : j.mapping ≡ i.mapping
  pub session : j.session ≡ i.session
  pub enumeration : j.enumeration ≡ i.enumeration
  pub sessions : TableInv j.session_table

abbrev pub NoSessions : Interface → Type 0
NoSessions i = session_table_is_empty i.session_table ≡ true

note_event-KeepsKey : (event : ℤ) (now : ℕ) → KeepsKey (note_event event now)
unfolding note_event
note_event-KeepsKey event now = record {
  mac = λ e. refl;
  generation = λ e. refl;
  valid = λ e. refl;
}

store_session-Stored :
    (clock : FrameClock) (event : ℤ) (source : EthernetAddress) (generation seq tos : ℕ)
    (i : Interface)
    → TableInv i.session_table
    → Stored i (store_session clock event source generation seq tos i)
unfolding store_session
store_session-Stored clock event source generation seq tos i v =
    elim (Option-cases i.session_table) [
      | inl e ↦ rw e (record { mapping = refl; session = refl; enumeration = refl; sessions = tt })
      | inr (t, e) ↦
          let grown = session_table_add-Inv t source generation seq clock.added_s (rw e at v) in
          elim (Option-cases (session_table_add t source generation seq clock.added_s).1) [
            | inl s ↦
                rw (e, store_session, s)
                  (record {
                    mapping = refl;
                    session = refl;
                    enumeration = refl;
                    sessions =
                        session_table_update_complete_status-Inv _ grown.sixteen grown.counted
                          grown.distinct;
                  })
            | inr (k, s) ↦
                rw (e, store_session, s)
                  (record {
                    mapping = refl;
                    session = refl;
                    enumeration = refl;
                    sessions =
                        store-Inv (note_event event clock.activity_s)
                          (note_event-KeepsKey event clock.activity_s) _ k grown;
                  })
          ]
    ]

-- The sessions are updated: whatever becomes of them, only a Discover adds one.
abbrev pub SessionsUpdated : ℕ → Interface → Option Interface → Type 0
SessionsUpdated opcode i result =
    (j : Interface) × (result ≡ some j)
    × Stored i j
    × (opcode ≢ opcode_discover → NoSessions i → NoSessions j)

updated-if :
    (t : Bool) (opcode : ℕ) (i : Interface) (a b : Option Interface)
    → (t ≡ true → SessionsUpdated opcode i a)
    → (t ≡ false → SessionsUpdated opcode i b)
    → SessionsUpdated opcode i (if t then a else b)
updated-if true opcode i a b p q = p refl
updated-if false opcode i a b p q = q refl

module _ (p : Port) (clock : FrameClock) (frame : List ℕ) (big : 36 ≤ length frame) where
  on_discover_updated :
      (opcode : ℕ) (event : ℤ) (i : Interface)
      → opcode ≡ opcode_discover
      → TableInv i.session_table
      → SessionsUpdated opcode i (on_discover p clock frame event i)
  unfolding on_discover
  on_discover_updated opcode event i h v =
      let (generation, g) = read_u16-some p.little frame 32 (omega (arith, big)) in
      let (source, s) = read_address-some frame 24 (omega (arith, big)) in
      let (seq, q) = read_u16-some p.little frame 30 (omega (arith, big)) in
      let (tos, t) = get_elem?-some frame 15 (omega (arith, big)) in
      (
        store_session clock event source (lltd_ntohs p.little generation) (lltd_ntohs p.little seq)
            tos i,
        rw (g, s, q, t) refl,
        store_session-Stored clock event source _ _ tos i v,
        λ other. absurd (other h),
      )

  pub update_sessions_updated :
      (opcode : ℕ) (event : ℤ) (i : Interface)
      → TableInv i.session_table
      → SessionsUpdated opcode i (update_sessions p clock frame opcode event i)
  unfolding update_sessions clear_sessions
  update_sessions_updated opcode event i v =
      updated-if (opcode == opcode_discover) opcode i _ _
        (λ t. on_discover_updated opcode event i (ground (arith, t)) v)
        (λ t.
          updated-if (opcode == opcode_reset) opcode i _ _
            (λ u. (
              clear_sessions i,
              refl,
              record {
                mapping = refl;
                session = refl;
                enumeration = refl;
                sessions = TableInv-clear i.session_table;
              },
              λ other h. clear-empty i.session_table,
            ))
            (λ u. (
              i,
              refl,
              record { mapping = refl; session = refl; enumeration = refl; sessions = v },
              λ other h. h,
            )))

-- The switch of the mapping automaton on an opcode; a Discover leaves Quiescent.
abbrev pub Switched : ℕ → Automata MappingState → Option (Automata MappingState) → Type 0
Switched opcode a result =
    (b : Automata MappingState) × (result ≡ some b)
    × IsMapping b
    × (opcode ≡ opcode_discover → a.current_state ≡ 0 → b.current_state ≢ 0)

if-IsMapping :
    (t : Bool) (a b : Automata MappingState)
    → IsMapping a
    → IsMapping b
    → IsMapping (if t then a else b)
if-IsMapping true a b p q = p
if-IsMapping false a b p q = q

discover_leaves :
    (phase : Mapping.Phase) (ts x y : ℕ) (m : MappingState)
    → Mapping.code phase ≡ 0
    → let b =
        if Mapping.expired phase (sub64 x ts)
        then Mapping.mapping_in Mapping.quiescent y (some m)
        else Mapping.mapping_in (Mapping.next phase (pos opcode_discover)) x (some m) in
      b.current_state ≢ 0
discover_leaves Mapping.quiescent ts x y m z =
    rw (Mapping.expired-quiescent (sub64 x ts), Mapping.next_discover)
      λ e. absurd (omega (arith, e))
discover_leaves Mapping.command ts x y m z = λ e. absurd (omega (arith, z))
discover_leaves Mapping.emit ts x y m z = λ e. absurd (omega (arith, z))

Switched-in :
    (phase : Mapping.Phase) (ts : ℕ) (m : MappingState) (opcode x y : ℕ) (rest : List ℕ)
    → Switched opcode
        (Mapping.mapping_in phase ts (some m))
        (switch_state_mapping (Mapping.mapping_in phase ts (some m)) (pos opcode) (x ∷ y ∷ rest))
Switched-in phase ts m opcode x y rest = (
  if Mapping.expired phase (sub64 x ts)
      then Mapping.mapping_in Mapping.quiescent y (some m)
      else Mapping.mapping_in (Mapping.next phase (pos opcode)) x (some m),
  Mapping.switch_state_mapping-next phase (pos opcode) ts x y rest (some m),
  if-IsMapping (Mapping.expired phase (sub64 x ts)) _ _
      (record { phase = Mapping.quiescent; ts = y; extra = m; is = refl })
      (record { phase = Mapping.next phase (pos opcode); ts = x; extra = m; is = refl }),
  λ d z. rw d (discover_leaves phase ts x y m z),
)

pub switch_mapping-Switched :
    (a : Automata MappingState) (opcode x y : ℕ) (rest : List ℕ)
    → IsMapping a
    → Switched opcode a (switch_state_mapping a (pos opcode) (x ∷ y ∷ rest))
switch_mapping-Switched a opcode x y rest h =
    subst
      (λ (b : Automata MappingState).
        Switched opcode b (switch_state_mapping b (pos opcode) (x ∷ y ∷ rest)))
      (sym h.is) (Switched-in h.phase h.ts h.extra opcode x y rest)
