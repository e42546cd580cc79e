-- ===== src/Automata/Machine/Session.antt =====
-- The session automaton against its diagram.
use lltdresponder.Base.{
  ℕ, ltb, ap, ◌∙◌, Bool-cases, inl, inr, ◌==◌, if◌then◌else◌, ◌≡◌, ◌≤◌, refl, Bool, true, false,
  ◌||◌, Option, some, List, ◌∷◌, ℤ, pos, negsuc, int_eq, arith, sub64, le→ltb-false,
}
use lltdresponder.Protocol.{opcode_reset}
use lltdresponder.Automata.Machine.Passes.{session_returns, session_repeats}
use lltdresponder.Automata.Machine.{
  Automata, session_table_rows, session_states, fire, timed_out, pass, switch_state_session,
  sess_discover_conflicting, sess_reset, sess_discover_noack, sess_discover_acking,
  sess_discover_noack_chgd_xid, sess_discover_acking_chgd_xid, sess_topo_reset, sess_hello,
}

pub data Phase : Type 0 where
  temporary nascent pending complete : Phase

abbrev pub code : Phase → ℕ
code temporary = 0
code nascent = 1
code pending = 2
code complete = 3

module _ {X : Type 0} where
  -- An automaton as `init_automata_session` makes it, in some phase.
  abbrev pub session_in : Phase → ℕ → Option X → Automata X
  session_in phase ts extra = record {
    last_ts = ts;
    current_state = code phase;
    transitions_table = session_table_rows;
    states_table = session_states;
    extra = extra;
  }

  abbrev stamp : ℕ → Automata X → Automata X
  stamp now a = record a { last_ts = now }

abbrev pub is : ℤ → ℕ → Bool
is i e = int_eq i (pos e)

-- The diagram; the timeout is the input -1. Every other input leaves the phase as it is.
pub next : Phase → ℤ → Phase
next temporary i =
    if int_eq i (negsuc 0) || (is i sess_reset || (is i sess_hello || is i sess_topo_reset))
    then nascent
    else temporary
next nascent i =
    if is i sess_discover_conflicting
    then temporary
    else (if is i sess_discover_noack
        then pending
        else (if is i sess_discover_acking then complete else nascent))
next pending i =
    if int_eq i (negsuc 0) || is i sess_reset
    then nascent
    else (if is i sess_discover_acking || is i sess_discover_acking_chgd_xid
        then complete
        else pending)
next complete i =
    if int_eq i (negsuc 0) || is i opcode_reset
    then nascent
    else (if is i sess_discover_noack_chgd_xid then pending else complete)

module _ {X : Type 0} where
  fire_lem :
      (phase : Phase) (i : ℤ) (timeout : Bool) (ts : ℕ) (extra : Option X)
      → fire (session_in phase ts extra) i timeout ≡ session_in (next phase i) ts extra
  unfolding fire next
  fire_lem temporary (pos n) timeout ts extra = ground arith
  fire_lem temporary (negsuc n) timeout ts extra = ground arith
  fire_lem nascent (pos n) timeout ts extra = ground arith
  fire_lem nascent (negsuc n) timeout ts extra = ground arith
  fire_lem pending (pos n) timeout ts extra = ground arith
  fire_lem pending (negsuc n) timeout ts extra = ground arith
  fire_lem complete (pos n) timeout ts extra = ground arith
  fire_lem complete (negsuc n) timeout ts extra = ground arith

  pass_lem :
      (phase : Phase) (i : ℤ) (ts now : ℕ) (extra : Option X)
      → pass (session_in phase ts extra) i now false ≡ session_in (next phase i) now extra
  unfolding pass
  pass_lem phase i ts now extra = ap (stamp now) (fire_lem phase i false ts extra)

  pass_timeout :
      (phase : Phase) (i : ℤ) (ts now : ℕ) (extra : Option X)
      → pass (session_in phase ts extra) i now true ≡ session_in nascent now extra
  unfolding pass next
  pass_timeout temporary i ts now extra =
      ap (stamp now) (fire_lem temporary (negsuc 0) true ts extra)
  pass_timeout nascent i ts now extra = ap (stamp now) (fire_lem nascent (negsuc 0) true ts extra)
  pass_timeout pending i ts now extra = ap (stamp now) (fire_lem pending (negsuc 0) true ts extra)
  pass_timeout complete i ts now extra = ap (stamp now) (fire_lem complete (negsuc 0) true ts extra)

  timed_out_lem :
      (phase : Phase) (ts now : ℕ) (extra : Option X)
      → timed_out (session_in phase ts extra) now ≡ some (ltb 1 (sub64 now ts))
  unfolding timed_out
  timed_out_lem temporary ts now extra = refl
  timed_out_lem nascent ts now extra = refl
  timed_out_lem pending ts now extra = refl
  timed_out_lem complete ts now extra = refl

  -- The switch of the session automaton, for every input, when the second reading of the clock is
  -- at most one second after the first: it takes the edge of the diagram, unless more than a
  -- second has passed since the last switch; then the session is nascent. Either way it returns.
  pub switch_state_session-next :
      (phase : Phase) (i : ℤ) (ts now later : ℕ) (clock : List ℕ) (extra : Option X)
      → sub64 later now ≤ 1
      → switch_state_session (session_in phase ts extra) i (now ∷ later ∷ clock)
        ≡ some (
            if ltb 1 (sub64 now ts)
            then session_in nascent later extra
            else session_in (next phase i) now extra)
  switch_state_session-next phase i ts now later clock extra h =
      elim (Bool-cases (ltb 1 (sub64 now ts))) [
        | inl e ↦
            rw
              (
                e,
                session_repeats _ i now (later ∷ clock)
                    (timed_out_lem phase ts now extra ∙ ap some e),
                pass_timeout phase i ts now extra,
                session_returns _ (negsuc 0) later clock
                    (timed_out_lem nascent now later extra ∙ ap some (le→ltb-false _ _ h)),
              )
              (ap some (pass_lem nascent (negsuc 0) now later extra ∙ (unfold next in refl)))
        | inr e ↦
            rw (e, session_returns _ i now _ (timed_out_lem phase ts now extra ∙ ap some e))
              (ap some (pass_lem phase i ts now extra))
      ]

complete_next :
    (e : ℕ)
    → e ≤ 7
    → next complete (pos e) ≡ (if e == sess_discover_noack_chgd_xid then pending else complete)
unfolding next
complete_next e h = ground arith

-- If at most a second has passed since the last switch, and at most one between two readings of
-- the clock, a complete session is changed by one event of the protocol alone, a Discover
-- without acknowledgement and with another transaction, which makes it pending; a reset leaves
-- it complete.
pub switch_state_session-complete :
    {X : Type 0} (e ts now later : ℕ) (clock : List ℕ) (extra : Option X)
    → e ≤ 7
    → sub64 now ts ≤ 1
    → sub64 later now ≤ 1
    → switch_state_session (session_in complete ts extra) (pos e) (now ∷ later ∷ clock)
      ≡ some
          (session_in (if e == sess_discover_noack_chgd_xid then pending else complete) now extra)
switch_state_session-complete e ts now later clock extra h soon sooner =
    switch_state_session-next complete (pos e) ts now later clock extra sooner
    ∙ rw (le→ltb-false 1 (sub64 now ts) soon, complete_next e h) refl
