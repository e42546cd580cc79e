-- ===== src/Automata/Machine/Passes.antt =====
-- One pass of a switch, by whether the state has timed out.
use lltdresponder.Base.{ℕ, ◌≡◌, true, false, some, List, ◌∷◌, ℤ, negsuc}
use lltdresponder.Automata.Machine.{
  Automata, timed_out, pass, switch_state_mapping, switch_state_session,
}

module _ {X : Type 0} (a : Automata X) (i : ℤ) (now : ℕ) (clock : List ℕ) where
  pub mapping_returns :
      timed_out a now ≡ some false
      → switch_state_mapping a i (now ∷ clock) ≡ some (pass a i now false)
  unfolding switch_state_mapping
  mapping_returns e = rw (e, switch_state_mapping)

  pub mapping_repeats :
      timed_out a now ≡ some true
      → switch_state_mapping a i (now ∷ clock)
        ≡ switch_state_mapping (pass a i now true) (negsuc 0) clock
  unfolding switch_state_mapping
  mapping_repeats e = rw (e, switch_state_mapping)

  pub session_returns :
      timed_out a now ≡ some false
      → switch_state_session a i (now ∷ clock) ≡ some (pass a i now false)
  unfolding switch_state_session
  session_returns e = rw (e, switch_state_session)

  pub session_repeats :
      timed_out a now ≡ some true
      → switch_state_session a i (now ∷ clock)
        ≡ switch_state_session (pass a i now true) (negsuc 0) clock
  unfolding switch_state_session
  session_repeats e = rw (e, switch_state_session)
