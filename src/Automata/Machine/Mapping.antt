-- ===== src/Automata/Machine/Mapping.antt =====
-- The mapping automaton of lltdResponder/lltdAutomata.c against a diagram in closed form. The diagram is
-- that of the source; Documentation has a timeout of 1 second in Command, ignores a Reset in Emit,
-- and enters Command by an acking Discover only.
use lltdresponder.Base.{
  ℕ, ap, ◌∙◌, ltb, Bool-cases, inl, inr, if◌then◌else◌, ◌≡◌, refl, Bool, true, false, ◌||◌, Option,
  some, List, ◌∷◌, ℤ, pos, negsuc, int_eq, arith, sub64,
}
use lltdresponder.Protocol.{opcode_discover, opcode_emit, opcode_reset}
use lltdresponder.Automata.Machine.Passes.{mapping_returns, mapping_repeats}
use lltdresponder.Automata.Machine.{
  Automata, MappingState, mapping_table, mapping_states, fire, timed_out, pass,
  switch_state_mapping,
}

pub data Phase : Type 0 where
  quiescent command emit : Phase

abbrev pub code : Phase → ℕ
code quiescent = 0
code command = 1
code emit = 2

-- An automaton as `init_automata_mapping` makes it, in some phase.
abbrev pub mapping_in : Phase → ℕ → Option MappingState → Automata MappingState
mapping_in phase ts extra = record {
  last_ts = ts;
  current_state = code phase;
  transitions_table = mapping_table;
  states_table = mapping_states;
  extra = extra;
}

-- The inactive timeout is the input -1, and the end of the emitees is -3.
abbrev pub ends_session : ℤ → Bool
ends_session i = int_eq i (pos opcode_reset) || int_eq i (negsuc 0)

-- The diagram: where an input leads. Every other input leaves the phase as it is.
pub next : Phase → ℤ → Phase
next quiescent i = if int_eq i (pos opcode_discover) then command else quiescent
next command i =
    if ends_session i then quiescent else (if int_eq i (pos opcode_emit) then emit else command)
next emit i = if ends_session i then quiescent else (if int_eq i (negsuc 2) then command else emit)

-- Whether a silence of `diff` seconds ends the phase.
pub expired : Phase → ℕ → Bool
expired quiescent diff = false
expired command diff = ltb 5 diff
expired emit diff = ltb 30 diff

fire_lem :
    (phase : Phase) (i : ℤ) (timeout : Bool) (ts : ℕ) (extra : Option MappingState)
    → fire (mapping_in phase ts extra) i timeout ≡ mapping_in (next phase i) ts extra
unfolding fire next
fire_lem quiescent (pos n) timeout ts extra = ground arith
fire_lem quiescent (negsuc n) timeout ts extra = ground arith
fire_lem command (pos n) timeout ts extra = ground arith
fire_lem command (negsuc n) timeout ts extra = ground arith
fire_lem emit (pos n) timeout ts extra = ground arith
fire_lem emit (negsuc n) timeout ts extra = ground arith

abbrev stamp : ℕ → Automata MappingState → Automata MappingState
stamp now a = record a { last_ts = now }

pass_lem :
    (phase : Phase) (i : ℤ) (ts now : ℕ) (extra : Option MappingState)
    → pass (mapping_in phase ts extra) i now false ≡ mapping_in (next phase i) now extra
unfolding pass
pass_lem phase i ts now extra = ap (stamp now) (fire_lem phase i false ts extra)

pass_timeout :
    (phase : Phase) (i : ℤ) (ts now : ℕ) (extra : Option MappingState)
    → pass (mapping_in phase ts extra) i now true ≡ mapping_in quiescent now extra
unfolding pass next
pass_timeout quiescent i ts now extra = ap (stamp now) (fire_lem quiescent (negsuc 0) true ts extra)
pass_timeout command i ts now extra = ap (stamp now) (fire_lem command (negsuc 0) true ts extra)
pass_timeout emit i ts now extra = ap (stamp now) (fire_lem emit (negsuc 0) true ts extra)

timed_out_lem :
    (phase : Phase) (ts now : ℕ) (extra : Option MappingState)
    → timed_out (mapping_in phase ts extra) now ≡ some (expired phase (sub64 now ts))
unfolding timed_out expired
timed_out_lem quiescent ts now extra = refl
timed_out_lem command ts now extra = refl
timed_out_lem emit ts now extra = refl

-- The switch of the mapping automaton, for every input and every two readings of the clock: it
-- takes the edge of the diagram of this file, unless the phase has been silent for more than 5
-- seconds in Command or 30 in Emit; then it is in Quiescent. Either way it returns, and remembers
-- its last reading.
pub switch_state_mapping-next :
    (phase : Phase) (i : ℤ) (ts now later : ℕ) (clock : List ℕ) (extra : Option MappingState)
    → switch_state_mapping (mapping_in phase ts extra) i (now ∷ later ∷ clock)
      ≡ some (
          if expired phase (sub64 now ts)
          then mapping_in quiescent later extra
          else mapping_in (next phase i) now extra)
switch_state_mapping-next phase i ts now later clock extra =
    elim (Bool-cases (expired phase (sub64 now ts))) [
      | inl e ↦
          rw
            (
              e,
              mapping_repeats _ i now (later ∷ clock)
                  (timed_out_lem phase ts now extra ∙ ap some e),
              pass_timeout phase i ts now extra,
              mapping_returns _ (negsuc 0) later clock
                  (timed_out_lem quiescent now later extra ∙ (unfold expired in refl)),
            )
            (ap some (pass_lem quiescent (negsuc 0) now later extra ∙ (unfold next in refl)))
      | inr e ↦
          rw (e, mapping_returns _ i now _ (timed_out_lem phase ts now extra ∙ ap some e))
            (ap some (pass_lem phase i ts now extra))
    ]

-- The inactive timeout leads to the quiescent phase from every phase.
pub next-inactive : (phase : Phase) → next phase (negsuc 0) ≡ quiescent
unfolding next
next-inactive quiescent = refl
next-inactive command = refl
next-inactive emit = refl

-- The quiescent phase has no timeout, and a Discover ends it.
pub expired-quiescent : (diff : ℕ) → expired quiescent diff ≡ false
unfolding expired
expired-quiescent diff = refl

pub next_discover : next quiescent (pos opcode_discover) ≡ command
unfolding next
next_discover = refl
