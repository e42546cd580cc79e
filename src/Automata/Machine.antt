-- ===== src/Automata/Machine.antt =====
-- lltdResponder/lltdAutomata.c: the three table-driven automata, how they are set up, and how they
-- switch state. `lltd_monotonic_seconds` is read once for each pass of a switch: the readings are a
-- list that the switch consumes. `none` is a fault: a null pointer used, or a row that is not there.
mod Passes
pub mod Mapping
pub mod Session
pub mod Enumeration
use lltdresponder.Base.{
  ℕ, suc, ◌==◌, if◌then◌else◌, ltb, Bool, true, false, ◌&&◌, ◌||◌, not, Option, none, some, List,
  [], ◌∷◌, get_elem?, ℤ, pos, negsuc, int_eq, sub64,
}
use lltdresponder.Protocol.{
  opcode_discover, opcode_emit, opcode_probe, opcode_query, opcode_reset, opcode_charge,
  opcode_query_large_tlv,
}

-- `state`, without the name that only the log prints: the timeout, in seconds.
pub record StateRow : Type 0 where
  pub timeout : ℕ

pub record Transition : Type 0 where
  pub from : ℕ
  pub to : ℕ
  pub with : ℤ

-- `automata`; the counts of rows are the lengths of the tables, and `extra` may be null.
pub record Automata (X : Type 0) : Type 0 where
  pub last_ts : ℕ
  pub current_state : ℕ
  pub transitions_table : List Transition
  pub states_table : List StateRow
  pub extra : Option X

abbrev pub row : ℕ → ℕ → ℤ → Transition
row from to with = record { from = from; to = to; with = with }

abbrev pub timeout_row : ℕ → StateRow
timeout_row n = record { timeout = n }

-- The loop over the transitions: a later match overwrites an earlier one. The result is the new
-- state and `find`, the index of the last match.
unfoldable pub scan : ℕ → ℤ → ℕ → ℕ → Option ℕ → List Transition → ℕ × Option ℕ
scan current input i new_state find [] = (new_state, find)
scan current input i new_state find (t ∷ ts) =
    let hit = current == t.from && int_eq t.with input in
    scan current input (suc i) (if hit then t.to else new_state) (if hit then some i else find) ts

abbrev pub is_some : Option ℕ → Bool
is_some none = false
is_some (some n) = true

module _ {X : Type 0} where
  -- The search and the assignment of `current_state`, after the test for a timeout.
  unfoldable pub fire : Automata X → ℤ → Bool → Automata X
  unfolding scan
  fire autom input timeout =
      let (new_state, find) =
        scan autom.current_state input 0 autom.current_state none autom.transitions_table in
      if not (autom.current_state == new_state) || is_some find || timeout
      then record autom { current_state = new_state }
      else autom

  -- `diff > timeout` on a state that has a timeout.
  unfoldable pub timed_out : Automata X → ℕ → Option Bool
  timed_out autom now = elim (get_elem? autom.states_table autom.current_state) [
    | none ↦ none
    | some s ↦ some (not (s.timeout == 0) && ltb s.timeout (sub64 now autom.last_ts))
  ]

  -- One pass, given whether the state has timed out.
  unfoldable pub pass : Automata X → ℤ → ℕ → Bool → Automata X
  pass autom input now timeout = record (fire autom (if timeout then negsuc 0 else input) timeout) {
    last_ts = now;
  }

  -- `switch_state_session`; on a timeout it calls itself with the input -1, and reads the clock
  -- again. `none` also when the readings run out.
  unfoldable pub switch_state_session : Automata X → ℤ → List ℕ → Option (Automata X)
  switch_state_session autom input [] = none
  switch_state_session autom input (now ∷ clock) = elim (timed_out autom now) [
    | none ↦ none
    | some true ↦ switch_state_session (pass autom input now true) (negsuc 0) clock
    | some false ↦ some (pass autom input now false)
  ]

  -- `switch_state_mapping` has the same body, but for the log.
  unfoldable pub switch_state_mapping : Automata X → ℤ → List ℕ → Option (Automata X)
  switch_state_mapping autom input [] = none
  switch_state_mapping autom input (now ∷ clock) = elim (timed_out autom now) [
    | none ↦ none
    | some true ↦ switch_state_mapping (pass autom input now true) (negsuc 0) clock
    | some false ↦ some (pass autom input now false)
  ]

  -- The enumeration automaton has no timeouts of its own; `now` is read at the end.
  unfoldable pub switch_state_enumeration : Automata X → ℤ → ℕ → Automata X
  switch_state_enumeration autom input now = record (fire autom input false) { last_ts = now }

-- The events of the enumeration automaton.
abbrev pub enum_sess_complete : ℕ
enum_sess_complete = 0

abbrev pub enum_sess_not_complete : ℕ
enum_sess_not_complete = 1

abbrev pub enum_hello : ℕ
enum_hello = 2

abbrev pub enum_new_session : ℕ
enum_new_session = 3

-- The events of the session automaton.
abbrev pub sess_discover_conflicting : ℕ
sess_discover_conflicting = 0

abbrev pub sess_reset : ℕ
sess_reset = 1

abbrev pub sess_discover_noack : ℕ
sess_discover_noack = 2

abbrev pub sess_discover_acking : ℕ
sess_discover_acking = 3

abbrev pub sess_discover_noack_chgd_xid : ℕ
sess_discover_noack_chgd_xid = 4

abbrev pub sess_discover_acking_chgd_xid : ℕ
sess_discover_acking_chgd_xid = 5

abbrev pub sess_topo_reset : ℕ
sess_topo_reset = 6

abbrev pub sess_hello : ℕ
sess_hello = 7

pub record MappingState : Type 0 where
  pub ctc : ℕ
  pub charge_timeout_ts : ℕ
  pub inactive_timeout_ts : ℕ

pub record BandState : Type 0 where
  pub ni : ℕ
  pub r : ℕ
  pub begun : Bool
  pub hello_timeout_ts : ℕ
  pub block_timeout_ts : ℕ

abbrev pub mapping_table : List Transition
mapping_table =
    row 0 1 (pos opcode_discover)
    ∷ row 1 0 (negsuc 0)
    ∷ row 1 0 (pos opcode_reset)
    ∷ row 1 1 (pos opcode_query)
    ∷ row 1 1 (pos opcode_query_large_tlv)
    ∷ row 1 1 (pos opcode_charge)
    ∷ row 1 1 (pos opcode_probe)
    ∷ row 1 2 (pos opcode_emit)
    ∷ row 2 2 (pos opcode_probe)
    ∷ row 2 2 (negsuc 1)
    ∷ row 2 1 (negsuc 2)
    ∷ row 2 0 (negsuc 0)
    ∷ row 2 0 (pos opcode_reset)
    ∷ []

abbrev pub mapping_states : List StateRow
mapping_states = timeout_row 0 ∷ timeout_row 5 ∷ timeout_row 30 ∷ []

-- The arguments say which of the two allocations succeed; the first is used without a test.
unfoldable pub init_automata_mapping : Bool → Bool → ℕ → Option (Automata MappingState)
init_automata_mapping false extra now = none
init_automata_mapping true extra now = some (record {
  last_ts = now;
  current_state = 0;
  transitions_table = mapping_table;
  states_table = mapping_states;
  extra =
      if extra
      then some (record { ctc = 0; charge_timeout_ts = 0; inactive_timeout_ts = 0 })
      else none;
})

abbrev pub enumeration_table : List Transition
enumeration_table =
    row 0 1 (pos enum_sess_not_complete)
    ∷ row 0 1 (pos enum_new_session)
    ∷ row 1 2 (pos enum_sess_complete)
    ∷ row 1 1 (pos enum_hello)
    ∷ row 1 1 (pos enum_new_session)
    ∷ row 2 1 (pos enum_sess_not_complete)
    ∷ row 2 0 (pos enum_sess_complete)
    ∷ row 2 1 (pos enum_new_session)
    ∷ []

abbrev pub enumeration_states : List StateRow
enumeration_states = timeout_row 0 ∷ timeout_row 60 ∷ timeout_row 30 ∷ []

abbrev pub band_alpha : ℕ
band_alpha = 45

-- Neither allocation is tested.
unfoldable pub init_automata_enumeration : Bool → Bool → ℕ → Option (Automata BandState)
init_automata_enumeration true true now = some (record {
  last_ts = now;
  current_state = 0;
  transitions_table = enumeration_table;
  states_table = enumeration_states;
  extra = some (record {
    ni = band_alpha;
    r = 0;
    begun = false;
    hello_timeout_ts = 0;
    block_timeout_ts = 0;
  });
})
init_automata_enumeration _ _ now = none

abbrev pub session_table_rows : List Transition
session_table_rows =
    row 1 0 (pos sess_discover_conflicting)
    ∷ row 0 1 (negsuc 0)
    ∷ row 0 1 (pos sess_reset)
    ∷ row 0 1 (pos sess_hello)
    ∷ row 0 1 (pos sess_topo_reset)
    ∷ row 1 2 (pos sess_discover_noack)
    ∷ row 2 1 (negsuc 0)
    ∷ row 2 1 (pos sess_reset)
    ∷ row 2 2 (pos sess_discover_noack_chgd_xid)
    ∷ row 2 3 (pos sess_discover_acking)
    ∷ row 2 3 (pos sess_discover_acking_chgd_xid)
    ∷ row 1 3 (pos sess_discover_acking)
    ∷ row 3 1 (pos opcode_reset)
    ∷ row 3 1 (negsuc 0)
    ∷ row 3 3 (pos sess_discover_acking_chgd_xid)
    ∷ row 3 2 (pos sess_discover_noack_chgd_xid)
    ∷ []

abbrev pub session_states : List StateRow
session_states = timeout_row 1 ∷ timeout_row 1 ∷ timeout_row 1 ∷ timeout_row 1 ∷ []

-- The session automaton has no extra data: `extra` is null.
unfoldable pub init_automata_session : Bool → ℕ → Option (Automata (Unit {0}))
init_automata_session false now = none
init_automata_session true now = some (record {
  last_ts = now;
  current_state = 1;
  transitions_table = session_table_rows;
  states_table = session_states;
  extra = none;
})
