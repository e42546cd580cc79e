-- ===== src/Examples/Machines.antt =====
-- The three automata and the RepeatBand statistics at concrete inputs.
use lltdresponder.Base.{
  ℕ, ◌+◌, ◌-◌, ◌*◌, ltb, if◌then◌else◌, sub64, ◌≤◌, ◌≡◌, ◌↔◌, refl, min, true, false, none, some,
  [], ◌∷◌, pos, arith,
}
use lltdresponder.Protocol.{opcode_emit}
use lltdresponder.Automata.Machine.{
  BandState, MappingState, switch_state_mapping, switch_state_session, switch_state_enumeration,
  enum_sess_complete, sess_reset, sess_discover_acking,
}
use lltdresponder.Automata.Machine.Mapping
use lltdresponder.Automata.Machine.Session
use lltdresponder.Automata.Machine.Enumeration
use lltdresponder.Automata.Band.{
  hello_interval, band_update_stats, band_choose_hello_time, mapping_on_charge,
  mapping_check_charge_timeout, mapping_reset_charge,
}
use lltdresponder.Automata.Band.Laws.{
  hello_interval-least, band_update_stats-ni, band_update_stats_wraps,
  band_choose_hello_time_bounds, charge_expires,
}

-- An Emit in Command, three seconds after the last switch.
switch_state_mapping-next_example :
    switch_state_mapping
      (Mapping.mapping_in Mapping.Phase.command 100 none)
      (pos opcode_emit)
      (103 ∷ 103 ∷ [])
    ≡ some (
        if Mapping.expired Mapping.Phase.command (sub64 103 100)
        then Mapping.mapping_in Mapping.Phase.quiescent 103 none
        else Mapping.mapping_in (Mapping.next Mapping.Phase.command (pos opcode_emit)) 103 none)
switch_state_mapping-next_example =
    Mapping.switch_state_mapping-next Mapping.Phase.command (pos opcode_emit) 100 103 103 [] none

-- An acknowledging Discover two seconds after the last switch comes too late.
switch_state_session-next_example :
    switch_state_session
      (Session.session_in {X = ℕ} Session.Phase.pending 100 none)
      (pos sess_discover_acking)
      (102 ∷ 103 ∷ [])
    ≡ some (
        if ltb 1 (sub64 102 100)
        then Session.session_in Session.Phase.nascent 103 none
        else Session.session_in
            (Session.next Session.Phase.pending (pos sess_discover_acking))
            102
            none)
switch_state_session-next_example =
    Session.switch_state_session-next Session.Phase.pending (pos sess_discover_acking) 100 102 103
      [] none (omega arith)

-- A reset in Complete.
switch_state_session-complete_example :
    switch_state_session
      (Session.session_in {X = ℕ} Session.Phase.complete 100 none)
      (pos sess_reset)
      (100 ∷ 100 ∷ [])
    ≡ some (Session.session_in Session.Phase.complete 100 none)
switch_state_session-complete_example =
    Session.switch_state_session-complete sess_reset 100 100 100 [] none (omega arith) (omega arith)
      (omega arith)

switch_state_enumeration-next_example :
    switch_state_enumeration
      (Enumeration.enumeration_in Enumeration.Phase.pausing 5 none)
      (pos enum_sess_complete)
      9
    ≡ Enumeration.enumeration_in
        (Enumeration.next Enumeration.Phase.pausing (pos enum_sess_complete))
        9
        none
switch_state_enumeration-next_example =
    Enumeration.switch_state_enumeration-next Enumeration.Phase.pausing (pos enum_sess_complete) 5 9
      none

abbrev band : ℕ → BandState
band r = record { ni = 45; r = r; begun = true; hello_timeout_ts = 0; block_timeout_ts = 0 }

hello_interval-least_example : (hello_interval 45 ≤ 120) ↔ ((6 ≤ 120) × (80 * 45 ≤ 30 * 120))
hello_interval-least_example = hello_interval-least 45 120 (omega arith)

band_update_stats-ni_example : (band_update_stats (band 12) 7).ni ≡ min 10000 (45 * (12 * 12))
band_update_stats-ni_example = band_update_stats-ni (band 12) 7 (omega arith) (omega arith) refl

band_update_stats_wraps_example : (band_update_stats (band 65536) 7).ni ≡ 0
band_update_stats_wraps_example = band_update_stats_wraps (band 65536) 7 1 refl (omega arith) refl

band_choose_hello_time_bounds_example :
    (1000 + 6 ≤ (band_choose_hello_time (band 3) 1000).hello_timeout_ts)
    × ((band_choose_hello_time (band 3) 1000).hello_timeout_ts ≤ 1000 + 26667)
    × (80 * 45 ≤ 30 * ((band_choose_hello_time (band 3) 1000).hello_timeout_ts - 1000))
band_choose_hello_time_bounds_example =
    band_choose_hello_time_bounds (band 3) 1000 (omega arith, omega arith) (omega arith)

abbrev charged : MappingState
charged = record { ctc = 3; charge_timeout_ts = 0; inactive_timeout_ts = 0 }

charge_expires_example : mapping_check_charge_timeout (mapping_on_charge charged 50) 51 ≡ (
    if ltb 51 (50 + 1)
    then (mapping_on_charge charged 50, false)
    else (mapping_reset_charge charged, true))
charge_expires_example = charge_expires charged 50 51 (omega arith)
