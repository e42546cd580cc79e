-- ===== src/Daemon/Darwin.antt =====
-- `lltdLoop` of os/darwin/daemon/darwin-main.c, from the call of `recvfrom` on: the interface, what one
-- received frame does to it, and what a receive timeout does. The receive buffer is a list of bytes,
-- `none` is a fault, and each call of a clock function is a field of `FrameClock`. The interface of
-- the daemon and the state that the core keeps for it are two records, as in the source.
pub mod Hello
pub mod Steps
pub mod Periodic
pub mod Machines
pub mod Loop
pub mod Reach
use lltdresponder.Base.{
  ℕ, ◌+◌, ◌-◌, ◌%◌, ◌==◌, if◌then◌else◌, Bool, true, false, ◌&&◌, ◌||◌, not, Option, none, some,
  List, ℤ, pos, negsuc, int_eq, u8, replicate, take,
}
use mathlib.Core.Option
use lltdresponder.Base.Fault.{◌>>=◌}
use lltdresponder.Protocol.{
  opcode_discover, opcode_hello, opcode_reset, opcode_charge, tos_discovery, tos_quick_discovery,
}
use lltdresponder.Wire.Endian.{lltd_ntohs}
use lltdresponder.Wire.Address.{EthernetAddress, zero_address, ethernet_broadcast}
use lltdresponder.Wire.Header.{
  read_u16, header_tos, header_opcode, header_real_source, header_seq_number,
}
use lltdresponder.Port.{Effect, Port}
use lltdresponder.Automata.Machine.{
  init_automata_mapping, init_automata_session, init_automata_enumeration, Automata, MappingState,
  BandState, switch_state_mapping, switch_state_session, switch_state_enumeration, enum_hello,
  enum_new_session, sess_discover_acking, sess_discover_acking_chgd_xid,
}
use lltdresponder.Automata.Sessions.{
  SessionEntry, SessionTable, session_table_create, modify, session_table_add, session_table_clear,
  session_table_update_complete_status,
}
use lltdresponder.Automata.Band.{
  band_init_stats, band_choose_hello_time, band_on_hello_received, mapping_on_charge,
  mapping_reset_inactive_timeout,
}
use lltdresponder.Automata.Events.{derive_session_event}
use lltdresponder.Automata.Tick.{TickClock, TickPort, TickResult, automata_tick}
use lltdresponder.Daemon.Darwin.Hello.{Device, send_hello_message_ex}
use lltdresponder.Responder.State.{IfaceState}
use lltdresponder.Responder.Dispatch.{parse_frame}

-- The part of `network_interface_t` that the loop uses. The automata are not null, the table may be.
pub record Interface : Type 0 where
  pub mac_address : EthernetAddress
  pub mapper_hw_address : EthernetAddress
  pub mapper_generation_topology : ℕ
  pub mapper_generation_quick : ℕ
  pub last_hello_tx_ms : ℕ
  pub mapping : Automata MappingState
  pub session : Automata (Unit {0})
  pub enumeration : Automata BandState
  pub session_table : Option SessionTable

-- `deviceAppeared`: a new interface, zeroed, with its automata and its table; the arguments of the
-- initialisers say which allocations succeed. The address is read from the controller later.
unfoldable pub new_interface :
    EthernetAddress → (table_allocated : Bool) → (now : ℕ) → Option Interface
new_interface mac table_allocated now = do
  mapping ← init_automata_mapping true true now
  session ← init_automata_session true now
  enumeration ← init_automata_enumeration true true now
  some (record {
    mac_address = mac;
    mapper_hw_address = zero_address;
    mapper_generation_topology = 0;
    mapper_generation_quick = 0;
    last_hello_tx_ms = 0;
    mapping = mapping;
    session = session;
    enumeration = enumeration;
    session_table = session_table_create table_allocated;
  })

pub record FrameClock : Type 0 where
  pub added_s : ℕ
  pub activity_s : ℕ
  pub mapping_s : List ℕ
  pub inactive_s : ℕ
  pub charge_s : ℕ
  pub session_s : List ℕ
  pub init_ms : ℕ
  pub choose_ms : ℕ
  pub enumeration_s : ℕ
  pub tick : TickClock

-- `(uint8_t)sess_event`
abbrev pub event_byte : ℤ → ℕ
event_byte (pos n) = u8 n
event_byte (negsuc n) = 255 - n % 256

-- The stores through `entry`.
unfoldable pub note_event : ℤ → ℕ → SessionEntry → SessionEntry
note_event event now e = record e {
  state = event_byte event;
  last_activity_ts = now;
  complete =
      if int_eq event (pos sess_discover_acking) || int_eq event (pos sess_discover_acking_chgd_xid)
      then true
      else e.complete;
}

-- The table and the mapper of the interface, when the table has a slot for the session.
unfoldable pub store_session :
    FrameClock → ℤ → (source : EthernetAddress) (generation seq tos : ℕ) → Interface → Interface
unfolding note_event
store_session clock event source generation seq tos i = elim i.session_table [
  | none ↦ i
  | some t ↦
      let (t', slot) = session_table_add t source generation seq clock.added_s in
      elim slot [
        | none ↦ record i { session_table = some (session_table_update_complete_status t') }
        | some k ↦ record i {
          session_table = some (
              session_table_update_complete_status
                (record t' { entries = modify (note_event event clock.activity_s) t'.entries k }));
          mapper_hw_address = source;
          mapper_generation_topology =
              if tos == tos_quick_discovery then i.mapper_generation_topology else generation;
          mapper_generation_quick =
              if tos == tos_quick_discovery then generation else i.mapper_generation_quick;
        }
      ]
]

unfoldable pub clear_sessions : Interface → Interface
clear_sessions i = record i { session_table = Option.map session_table_clear i.session_table }

module _ (p : Port) (clock : FrameClock) (frame : List ℕ) where
  unfoldable pub on_discover : ℤ → Interface → Option Interface
  unfolding store_session
  on_discover event i = do
    generation ← read_u16 p.little frame 32
    source ← header_real_source frame
    seq ← header_seq_number p.little frame
    tos ← header_tos frame
    some (
        store_session clock event source (lltd_ntohs p.little generation) (lltd_ntohs p.little seq)
          tos i)

  -- "Update session table based on received frame"
  unfoldable pub update_sessions : ℕ → ℤ → Interface → Option Interface
  unfolding on_discover clear_sessions
  update_sessions opcode event i =
      if opcode == opcode_discover
      then on_discover event i
      else if opcode == opcode_reset
      then some (clear_sessions i)
      else some i

  -- The switch of the mapping automaton; a change to Quiescent clears the sessions.
  unfoldable pub update_mapping : ℕ → Interface → Option Interface
  unfolding clear_sessions
  update_mapping opcode i = do
    mapping' ← switch_state_mapping i.mapping (pos opcode) clock.mapping_s
    let i' = record i { mapping = mapping' }
    some (
        if not (i.mapping.current_state == 0) && mapping'.current_state == 0
        then clear_sessions i'
        else i')

  -- The inactive timeout starts again, and a Charge counts.
  unfoldable pub update_timers : ℕ → Interface → Interface
  update_timers opcode i =
      let restart = λ (m : MappingState). mapping_reset_inactive_timeout m clock.inactive_s in
      let charged = λ (m : MappingState).
        if opcode == opcode_charge
        then mapping_on_charge (restart m) clock.charge_s
        else restart m in
      record i { mapping = record i.mapping { extra = Option.map charged i.mapping.extra } }

  -- A negative event is no event.
  unfoldable pub update_session : ℤ → Interface → Option Interface
  update_session (negsuc n) i = some i
  update_session (pos n) i = do
    session' ← switch_state_session i.session (pos n) clock.session_s
    some (record i { session = session' })

  unfoldable pub update_enumeration : ℕ → Automata BandState → Automata BandState
  update_enumeration opcode e =
      if opcode == opcode_hello
      then switch_state_enumeration (record e { extra = Option.map band_on_hello_received e.extra })
          (pos enum_hello) clock.enumeration_s
      else if opcode == opcode_discover
      then (let start = λ (b : BandState).
            if e.current_state == 0
            then band_choose_hello_time (band_init_stats b clock.init_ms) clock.choose_ms
            else record b { begun = true } in
          switch_state_enumeration (record e { extra = Option.map start e.extra })
            (pos enum_new_session) clock.enumeration_s)
      else e

  -- The automata and the session table, from the event to `parseFrame`.
  unfoldable pub update_automata : Interface → Option Interface
  unfolding update_sessions update_mapping update_timers update_session update_enumeration
  update_automata i = do
    event ← derive_session_event p.little (some frame) i.session_table (some i.mac_address)
    opcode ← header_opcode frame
    i1 ← update_sessions opcode event i
    i2 ← update_mapping opcode i1
    i3 ← update_session event (update_timers opcode i2)
    some (record i3 { enumeration = update_enumeration opcode i3.enumeration })

-- What a tick leaves of an automaton that it was given.
abbrev pub kept : {X : Type 0} → Option (Automata X) → Automata X → Automata X
kept none a = a
kept (some a') a = a'

-- The tick: the interface afterwards, and whether `sendHelloMessage` was called.
unfoldable pub run_tick : TickClock → Interface → Option (Interface × Bool)
run_tick clock i = do
  r ← automata_tick clock (some i.mapping) (some i.enumeration) i.session_table (
      some (record {
        network_interface = true;
        last_hello_tx_ms = some i.last_hello_tx_ms;
        send_hello = true;
      }))
  some (
    record i {
      mapping = kept r.mapping i.mapping;
      enumeration = kept r.enumeration i.enumeration;
      session_table = r.sessions;
      last_hello_tx_ms = elim r.port [
        | none ↦ i.last_hello_tx_ms
        | some port ↦ Option.get_or port.last_hello_tx_ms i.last_hello_tx_ms
      ];
    },
    r.hello_sent,
  )

-- The interface, the states of the core, and the effects of the core.
pub record Daemon : Type 0 where
  pub interface : Interface
  pub states : List (ℕ × IfaceState)
  pub history : List Effect

-- `sendHelloMessage`, whose reason is only logged.
unfoldable pub send_hello_message : Port → Device → Interface → List Effect → Option (List Effect)
send_hello_message p device i history =
    send_hello_message_ex p device i.mac_address 0 tos_discovery i.mapper_hw_address
      i.mapper_hw_address i.mapper_generation_topology history

-- The callback of the tick, when it is called. What the tick does after it sends nothing, and the
-- fields that the Hello is made of are none of those that the tick writes.
unfoldable pub callback : Port → Device → Interface → List Effect → Bool → Option (List Effect)
unfolding send_hello_message
callback p device i history false = some history
callback p device i history true = send_hello_message p device i history

-- `recvfrom` fails, the receive timeout included. Beside the daemon, the result is whether a periodic
-- Hello was called for.
unfoldable pub on_timeout : Port → Device → TickClock → Daemon → Option (Daemon × Bool)
unfolding run_tick callback
on_timeout p device clock d = do
  (i, hello) ← run_tick clock d.interface
  history' ← callback p device i d.history hello
  some (record d { interface = i; history = history' }, hello)

-- A frame is received. The context of the core is the address of the interface, `ctx`.
unfoldable pub on_frame : Port → Device → ℕ → FrameClock → List ℕ → Daemon → Option (Daemon × Bool)
unfolding update_automata run_tick callback
on_frame p device ctx clock frame d = do
  i ← update_automata p clock frame d.interface
  (states', history') ← parse_frame p (some frame) ctx d.states d.history
  (i', hello) ← run_tick clock.tick i
  history'' ← callback p device i' history' hello
  some (record { interface = i'; states = states'; history = history'' }, hello)
