-- ===== src/Automata/Machine/Enumeration.antt =====
-- The enumeration automaton of lltdResponder/lltdAutomata.c against a diagram in closed form. The
-- diagram is that of the source: it has no timeouts, Wait ends when all sessions are complete, and a
-- new session leads to Pausing, complete or not. Documentation/lltd_automata_specification.md and
-- Documentation/automata_runtime.md differ in these three points.
use lltdresponder.Base.{
  ℕ, ap, if◌then◌else◌, ◌≡◌, Bool, false, ◌||◌, Option, ℤ, pos, negsuc, int_eq, arith,
}
use lltdresponder.Automata.Machine.{
  Automata, BandState, enumeration_table, enumeration_states, fire, switch_state_enumeration,
  enum_sess_complete, enum_sess_not_complete, enum_new_session,
}

pub data Phase : Type 0 where
  quiescent pausing wait : Phase

abbrev pub code : Phase → ℕ
code quiescent = 0
code pausing = 1
code wait = 2

-- An automaton as `init_automata_enumeration` makes it, in some phase.
abbrev pub enumeration_in : Phase → ℕ → Option BandState → Automata BandState
enumeration_in phase ts extra = record {
  last_ts = ts;
  current_state = code phase;
  transitions_table = enumeration_table;
  states_table = enumeration_states;
  extra = extra;
}

-- A session that is not complete.
abbrev pub opens : ℤ → Bool
opens i = int_eq i (pos enum_sess_not_complete) || int_eq i (pos enum_new_session)

-- The diagram: it steps down from Pausing to Wait and from Wait to Quiescent while all sessions
-- are complete, and returns to Pausing when one is not. Every other input changes nothing.
pub next : Phase → ℤ → Phase
next quiescent i = if opens i then pausing else quiescent
next pausing i = if int_eq i (pos enum_sess_complete) then wait else pausing
next wait i =
    if opens i then pausing else (if int_eq i (pos enum_sess_complete) then quiescent else wait)

fire_lem :
    (phase : Phase) (i : ℤ) (ts : ℕ) (extra : Option BandState)
    → fire (enumeration_in phase ts extra) i false ≡ enumeration_in (next phase i) ts extra
unfolding fire next
fire_lem quiescent (pos n) ts extra = ground arith
fire_lem quiescent (negsuc n) ts extra = ground arith
fire_lem pausing (pos n) ts extra = ground arith
fire_lem pausing (negsuc n) ts extra = ground arith
fire_lem wait (pos n) ts extra = ground arith
fire_lem wait (negsuc n) ts extra = ground arith

-- The switch of the enumeration automaton takes the edge of the diagram of this file, for every input
-- and after any silence, and remembers its reading of the clock.
pub switch_state_enumeration-next :
    (phase : Phase) (i : ℤ) (ts now : ℕ) (extra : Option BandState)
    → switch_state_enumeration (enumeration_in phase ts extra) i now
      ≡ enumeration_in (next phase i) now extra
unfolding switch_state_enumeration
switch_state_enumeration-next phase i ts now extra =
    ap (λ (a : Automata BandState). record a { last_ts = now }) (fire_lem phase i ts extra)
