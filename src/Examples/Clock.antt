-- ===== src/Examples/Clock.antt =====
-- The periodic tick at concrete clocks.
use lltdresponder.Base.{ℕ, ◌≡◌, refl, true, false, none, some, [], ◌∷◌, arith}
use lltdresponder.Automata.Machine.{Automata, MappingState, BandState}
use lltdresponder.Automata.Machine.Mapping
use lltdresponder.Automata.Machine.Enumeration
use lltdresponder.Automata.Band.{mapping_check_inactive_timeout}
use lltdresponder.Automata.Sessions.{SessionTable, session_table_is_empty}
use lltdresponder.Automata.Tick.{TickClock, TickResult, automata_tick}
use lltdresponder.Automata.Tick.HelloRate.{Tick, port_at, hello_times, Spaced, hello_times-Spaced}
use lltdresponder.Automata.Tick.Phases.{state_of, automata_tick_inactive}

abbrev clock_at : ℕ → TickClock
clock_at now_ms = record {
  now_ms = now_ms;
  now_s = 200;
  inactive_s = 200;
  switch_s = 200 ∷ 200 ∷ [];
  charge_s = 200;
  status_s = 200;
  choose_ms = now_ms;
  hello_s = 200;
  stats_ms = now_ms;
  next_ms = now_ms;
}

abbrev due_band : BandState
due_band = record { ni = 45; r = 0; begun = true; hello_timeout_ts = 5; block_timeout_ts = 0 }

abbrev pausing_automaton : Automata BandState
pausing_automaton = Enumeration.enumeration_in Enumeration.Phase.pausing 199 (some due_band)

abbrev one_session : SessionTable
one_session = record { entries = []; count = 1; all_complete = false }

abbrev tick_at : ℕ → Tick
tick_at now_ms = record {
  clock = clock_at now_ms;
  mapping = none;
  enumeration = some pausing_automaton;
  sessions = some one_session;
}

hello_times-Spaced_example :
    Spaced 0
      (hello_times (some (port_at true true 0)) (tick_at 7000 ∷ tick_at 7400 ∷ tick_at 8000 ∷ []))
hello_times-Spaced_example =
    hello_times-Spaced true true 0 7000 (tick_at 7000 ∷ tick_at 7400 ∷ tick_at 8000 ∷ [])
      (omega arith)
      (omega arith, omega arith, (omega arith, omega arith, (omega arith, omega arith, tt)))

abbrev silent : MappingState
silent = record { ctc = 2; charge_timeout_ts = 0; inactive_timeout_ts = 190 }

is_silent : mapping_check_inactive_timeout silent 200 ≡ true
unfolding mapping_check_inactive_timeout
is_silent = refl

automata_tick_inactive_example :
    (r : TickResult) × (automata_tick
        (clock_at 7000)
        (some (Mapping.mapping_in Mapping.Phase.command 198 (some silent)))
        (some pausing_automaton)
        (some one_session)
        none
      ≡ some r)
    × (state_of r.mapping ≡ some 0)
    × (session_table_is_empty r.sessions ≡ true)
    × (state_of r.enumeration ≡ some 0)
    × (r.hello_sent ≡ false)
    × (r.port ≡ none)
automata_tick_inactive_example =
    automata_tick_inactive (clock_at 7000) 200 200 [] refl Mapping.Phase.command 198 silent
      pausing_automaton due_band one_session none is_silent refl
