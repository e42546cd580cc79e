-- ===== src/Automata/Tick.antt =====
-- `automata_tick` of lltdResponder/lltdAutomata.c (the build without LLTD_TESTING). Each call of a
-- clock function is an argument of its own, a field of `TickClock`, in the order of the calls; a
-- switch of the mapping automaton takes a list of readings. Pointers that may be null are options.
pub mod HelloRate
pub mod Phases
pub mod Keeps
use lltdresponder.Base.{
  ℕ, ◌+◌, ◌==◌, ltb, leb, if◌then◌else◌, Bool, false, ◌&&◌, not, Option, none, some, List, pos,
  negsuc, u64, sub64,
}
use lltdresponder.Base.Fault.{◌>>=◌}
use mathlib.Core.Option
use lltdresponder.Automata.Machine.{
  Automata, MappingState, BandState, switch_state_mapping, switch_state_enumeration,
  enum_sess_complete, enum_sess_not_complete, enum_hello,
}
use lltdresponder.Automata.Sessions.{
  SessionTable, session_table_clear, session_table_is_empty, session_table_all_complete,
  expire_sessions,
}
use lltdresponder.Automata.Band.{
  band_update_stats, band_choose_hello_time, band_do_hello, mapping_reset_charge,
  mapping_check_charge_timeout, mapping_check_inactive_timeout, hello_min_interval_ms,
}

pub record TickClock : Type 0 where
  pub now_ms : ℕ
  pub now_s : ℕ
  pub inactive_s : ℕ
  pub switch_s : List ℕ
  pub charge_s : ℕ
  pub status_s : ℕ
  pub choose_ms : ℕ
  pub hello_s : ℕ
  pub stats_ms : ℕ
  pub next_ms : ℕ

-- `lltd_automata_tick_port`: whether there is an interface and a `send_hello`, and what the
-- pointer to the time of the last Hello leads to.
pub record TickPort : Type 0 where
  pub network_interface : Bool
  pub last_hello_tx_ms : Option ℕ
  pub send_hello : Bool

pub record Enumeration : Type 0 where
  pub automaton : Automata BandState
  pub band : BandState
  pub port : Option TickPort
  pub hello_sent : Bool

-- The first block of the tick, on an automaton whose `extra` is `mstate`.
unfoldable pub tick_inactive :
    TickClock
    → Automata MappingState
    → MappingState
    → Option SessionTable
    → Option (Automata MappingState × MappingState × Option SessionTable)
tick_inactive clock mapping mstate sessions =
    if mapping_check_inactive_timeout mstate clock.inactive_s
    then (do
      mapping' ← switch_state_mapping mapping (negsuc 0) clock.switch_s
      some (
        mapping',
        mapping_reset_charge (record mstate { inactive_timeout_ts = 0 }),
        Option.map session_table_clear sessions,
      ))
    else some (mapping, mstate, sessions)

-- The mapping block, by whether the automaton has its data.
unfoldable pub tick_charge :
    TickClock
    → Automata MappingState
    → Option MappingState
    → Option SessionTable
    → Option (Option (Automata MappingState) × Option SessionTable)
tick_charge clock mapping none sessions = some (some mapping, sessions)
tick_charge clock mapping (some mstate) sessions = do
  (mapping', mstate', sessions') ← tick_inactive clock mapping mstate sessions
  some (
    some (record mapping' { extra = some (mapping_check_charge_timeout mstate' clock.charge_s).0 }),
    sessions',
  )

unfoldable pub tick_mapping :
    TickClock
    → Option (Automata MappingState)
    → Option SessionTable
    → Option (Option (Automata MappingState) × Option SessionTable)
tick_mapping clock none sessions = some (none, sessions)
tick_mapping clock (some mapping) sessions = tick_charge clock mapping mapping.extra sessions

-- What the session table tells the enumeration automaton.
unfoldable pub tick_status :
    TickClock → Option SessionTable → Automata BandState → BandState → Enumeration
tick_status clock sessions enumeration band =
    if enumeration.current_state == 0
    then record { automaton = enumeration; band = band; port = none; hello_sent = false }
    else (if session_table_is_empty sessions
        then record {
          automaton = record enumeration { current_state = 0 };
          band = record band { hello_timeout_ts = 0; block_timeout_ts = 0; begun = false };
          port = none;
          hello_sent = false;
        }
        else record {
          automaton =
              switch_state_enumeration enumeration
                (pos (
                  if session_table_all_complete sessions
                  then enum_sess_complete
                  else enum_sess_not_complete))
                clock.status_s;
          band = band;
          port = none;
          hello_sent = false;
        })

-- `port && port->last_hello_tx_ms ? *port->last_hello_tx_ms : 0`
unfoldable pub last_tx : Option TickPort → ℕ
last_tx none = 0
last_tx (some port) = Option.get_or port.last_hello_tx_ms 0

-- `port->send_hello` is called if there is one and an interface to send on.
unfoldable pub can_send : Option TickPort → Bool
can_send none = false
can_send (some port) = port.send_hello && port.network_interface

abbrev pub stamp : ℕ → TickPort → TickPort
stamp now port = record port { last_hello_tx_ms = Option.map (λ _. now) port.last_hello_tx_ms }

-- The Hello timeout in the Pausing state.
unfoldable pub tick_hello : TickClock → Enumeration → Enumeration
unfolding last_tx can_send
tick_hello clock s =
    let now_ms = clock.now_ms in
    let due = ltb 0 s.band.hello_timeout_ts && leb s.band.hello_timeout_ts now_ms in
    let recent =
      ltb 0 (last_tx s.port) && ltb (sub64 now_ms (last_tx s.port)) hello_min_interval_ms in
    let band = band_do_hello s.band clock.choose_ms in
    let earliest = u64 (now_ms + hello_min_interval_ms) in
    if not due
    then s
    else (if recent
        then record s {
          band = record s.band { hello_timeout_ts = u64 (last_tx s.port + hello_min_interval_ms) };
        }
        else record {
          automaton = switch_state_enumeration s.automaton (pos enum_hello) clock.hello_s;
          band =
              if ltb band.hello_timeout_ts earliest
              then record band { hello_timeout_ts = earliest }
              else band;
          port = if can_send s.port then Option.map (stamp now_ms) s.port else s.port;
          hello_sent = can_send s.port;
        })

-- The block timeout in the Pausing state.
unfoldable pub tick_block : TickClock → Enumeration → Enumeration
tick_block clock s =
    if ltb 0 s.band.block_timeout_ts && leb s.band.block_timeout_ts clock.now_ms
    then record s {
      band = band_choose_hello_time (band_update_stats s.band clock.stats_ms) clock.next_ms;
    }
    else s

unfoldable pub tick_pausing : TickClock → Enumeration → Enumeration
tick_pausing clock s =
    if s.automaton.current_state == 1 then tick_block clock (tick_hello clock s) else s

pub record TickResult : Type 0 where
  pub mapping : Option (Automata MappingState)
  pub enumeration : Option (Automata BandState)
  pub sessions : Option SessionTable
  pub port : Option TickPort
  pub hello_sent : Bool

-- The last block of the tick, by whether the automaton has its data: the automaton, the port, and
-- whether a Hello was sent.
unfoldable pub tick_band :
    TickClock
    → Automata BandState
    → Option BandState
    → Option SessionTable
    → Option TickPort
    → Option (Automata BandState) × Option TickPort × Bool
tick_band clock enumeration none sessions port = (some enumeration, port, false)
tick_band clock enumeration (some band) sessions port =
    let s =
      tick_pausing clock (record (tick_status clock sessions enumeration band) { port = port }) in
    (some (record s.automaton { extra = some s.band }), s.port, s.hello_sent)

unfoldable pub tick_enumeration :
    TickClock
    → Option (Automata BandState)
    → Option SessionTable
    → Option TickPort
    → Option (Automata BandState) × Option TickPort × Bool
tick_enumeration clock none sessions port = (none, port, false)
tick_enumeration clock (some enumeration) sessions port =
    tick_band clock enumeration enumeration.extra sessions port

unfoldable pub automata_tick :
    TickClock
    → Option (Automata MappingState)
    → Option (Automata BandState)
    → Option SessionTable
    → Option TickPort
    → Option TickResult
automata_tick clock mapping enumeration sessions port = do
  (mapping', cleared) ← tick_mapping clock mapping sessions
  let expired = Option.map (expire_sessions clock.now_s) cleared
  let (enumeration', port', hello_sent) = tick_enumeration clock enumeration expired port
  some (record {
    mapping = mapping';
    enumeration = enumeration';
    sessions = expired;
    port = port';
    hello_sent = hello_sent;
  })
