-- ===== src/Examples/Daemon.antt =====
-- The loop of the Darwin daemon at a Discover frame that another station is to answer, too.
use mathlib.Core.Option.{some-injective}
use lltdresponder.Base.{
  ℕ, ◌≤◌, ◌≡◌, ◌≢◌, refl, sym, Bool, true, false, some, none, List, [], ◌∷◌, ◌++◌, replicate, arith,
}
use lltdresponder.Base.Returns.{Returns}
use lltdresponder.Protocol.{opcode_discover, tos_discovery}
use lltdresponder.Wire.Endian.{lltd_ntohs, lltd_bswap16}
use lltdresponder.Wire.Address.{
  EthernetAddress, address, zero_address, ethernet_broadcast, mac_equal,
}
use lltdresponder.Wire.Header.Layout.{header_bytes, lltd_header}
use lltdresponder.Port.{Port}
use lltdresponder.Tlv.Fits.{Documented}
use lltdresponder.Automata.Tick.{
  automata_tick, tick_mapping, tick_charge, tick_inactive, tick_enumeration, tick_band, tick_status,
  tick_pausing, tick_hello, last_tx, can_send, tick_block,
}
use lltdresponder.Automata.Band.{
  band_init_stats, mapping_reset_inactive_timeout, mapping_check_inactive_timeout,
  mapping_check_charge_timeout, band_do_hello, band_choose_hello_time, hello_interval,
}
use lltdresponder.Automata.Events.{
  derive_session_event, derive_discover, existing_session, is_acking, in_station_list,
  classify_discover, discover_event,
}
use lltdresponder.Automata.Events.Total.{StationsFit}
use lltdresponder.Automata.Sessions.{
  session_table_is_empty, zero_entry, session_table_create, session_table_find, index_from,
  session_table_add, modify, session_table_update_complete_status, complete_status, expire_sessions,
  expire, session_table_all_complete,
}
use lltdresponder.Automata.Machine.Mapping
use lltdresponder.Automata.Machine.Session
use lltdresponder.Automata.Machine.Enumeration
use lltdresponder.Automata.Machine.{
  switch_state_mapping, switch_state_session, switch_state_enumeration, timed_out, pass, fire, scan,
  init_automata_mapping, init_automata_session, init_automata_enumeration,
}
use lltdresponder.Responder.Query.{effective_mtu}
use lltdresponder.Responder.State.{IfaceState, zero_state, find_iface}
use lltdresponder.Responder.Isolated.{own, parse_frame-own}
use lltdresponder.Responder.Dispatch.{parse_frame}
use lltdresponder.Responder.Total.Frame.{EmitFits, parse_frame_returns}
use lltdresponder.Daemon.Darwin.{
  on_timeout, Interface, new_interface, FrameClock, Daemon, on_frame, update_automata, run_tick,
  update_sessions, on_discover, store_session, update_mapping, callback, update_timers,
  update_session, update_enumeration,
}
use lltdresponder.Base.{take}
use lltdresponder.Port.{alloc, free, send}
use lltdresponder.Daemon.Darwin.Hello.{Device}
use lltdresponder.Daemon.Darwin.Periodic.{send_hello_message-hello_frame}
use lltdresponder.Daemon.Darwin.{send_hello_message}
use lltdresponder.Responder.Total.Buffers.{hello_frame_some}
use lltdresponder.Responder.Hello.{hello_frame}
use lltdresponder.Daemon.Darwin.Machines.{Readings}
use lltdresponder.Daemon.Darwin.Loop.{callback_some}
use lltdresponder.Daemon.Darwin.Reach.{
  Reach-quiescent, silence, Reach, begun, Reach-on_frame, on_frame-hello,
}

abbrev mapper : EthernetAddress
mapper = address 2 0 0 0 0 1

abbrev ours : EthernetAddress
ours = address 2 0 0 0 0 9

abbrev port : Port
port = record {
  little = true;
  malloc = λ history. true;
  send_frame = λ history frame. true;
  mtu = some 206;
  icon_image = none;
  friendly_name = none;
  hostname = λ n. ([], 0);
  support_url = λ n. ([], 0);
  upnp_uuid = none;
  hw_id = λ n. ([], 0);
  mac_address = some ours;
  characteristics_flags = 0;
  if_type = none;
  ipv4_address = none;
  ipv6_address = none;
  link_speed_100bps = none;
  wifi_mode = none;
  bssid = none;
  ssid = λ n. ([], 0);
  wifi_max_rate = none;
  wifi_rssi = none;
  wifi_phy_medium = none;
}

abbrev device : Device
device = record { mtu = 206; wireless = false }

-- Sequence number 3, generation 5, and one station that is not ours.
abbrev discover : List ℕ
discover =
    header_bytes (
      lltd_header mapper ethernet_broadcast mapper ethernet_broadcast 3 opcode_discover
        tos_discovery)
    ++ (0 ∷ 5 ∷ 0 ∷ 1 ∷ replicate 14 0)

abbrev clock : FrameClock
clock = record {
  added_s = 1;
  activity_s = 1;
  mapping_s = 1 ∷ 1 ∷ [];
  inactive_s = 1;
  charge_s = 1;
  session_s = 1 ∷ 1 ∷ [];
  init_ms = 1000;
  choose_ms = 1000;
  enumeration_s = 1;
  tick = record {
    now_ms = 2000;
    now_s = 2;
    inactive_s = 2;
    switch_s = 2 ∷ 2 ∷ [];
    charge_s = 2;
    status_s = 2;
    choose_ms = 2000;
    hello_s = 2;
    stats_ms = 2000;
    next_ms = 2000;
  };
}

readings : Readings clock
readings = record {
  mapping_a = 1;
  mapping_b = 1;
  mapping_rest = [];
  mapping_is = refl;
  session_a = 1;
  session_b = 1;
  session_rest = [];
  session_is = refl;
  session_soon = omega arith;
  tick_a = 2;
  tick_b = 2;
  tick_rest = [];
  tick_is = refl;
}

documented : Documented port
documented = record {
  hostname = λ n. (refl, omega arith);
  ssid = λ n. (refl, omega arith);
  hw_id = λ n. (refl, omega arith);
  ipv6 = tt;
}

stations : StationsFit true discover
unfolding lltd_ntohs lltd_bswap16
stations count op at = let same : count ≡ 256 = sym (some-injective _ _ at) in rw same (omega arith)

emits : EmitFits true discover
emits count op at = absurd (omega (arith, some-injective _ _ op))

mtu_fits : 206 ≤ effective_mtu port
unfolding effective_mtu
mtu_fits = omega arith

parse_frame_returns_example : Returns (parse_frame port (some discover) 7 [] [])
parse_frame_returns_example =
    parse_frame_returns port discover (omega arith) documented mtu_fits 7 [] [] emits

abbrev new : Interface
new = record {
  mac_address = ours;
  mapper_hw_address = zero_address;
  mapper_generation_topology = 0;
  mapper_generation_quick = 0;
  last_hello_tx_ms = 0;
  mapping =
      Mapping.mapping_in Mapping.Phase.quiescent 1
        (some (record { ctc = 0; charge_timeout_ts = 0; inactive_timeout_ts = 0 }));
  session = Session.session_in Session.Phase.nascent 1 none;
  enumeration =
      Enumeration.enumeration_in Enumeration.Phase.quiescent 1 (
        some
          (record { ni = 45; r = 0; begun = false; hello_timeout_ts = 0; block_timeout_ts = 0 }));
  session_table =
      some (record { entries = replicate 16 zero_entry; count = 0; all_complete = true });
}

new_is : new_interface ours true 1 ≡ some new
unfolding new_interface init_automata_mapping init_automata_session init_automata_enumeration
    session_table_create
new_is = refl

abbrev start : Daemon
start = record { interface = new; states = []; history = [] }

started : Reach port device 7 start
started = begun ours true 1 new [] [] new_is

Reach-on_frame_example :
    (d' : Daemon) × (hello : Bool) × (on_frame port device 7 clock discover start
      ≡ some (d', hello))
    × Reach port device 7 d'
Reach-on_frame_example =
    Reach-on_frame port device 7 clock discover start started (omega arith) stations emits
      documented mtu_fits (omega arith) readings

abbrev updated : Returns (update_automata port clock discover new)
unfolding update_automata derive_session_event derive_discover existing_session session_table_find
    index_from is_acking lltd_ntohs lltd_bswap16 in_station_list mac_equal classify_discover
    discover_event update_sessions on_discover store_session session_table_add update_mapping
    switch_state_mapping timed_out pass fire scan update_timers update_session switch_state_session
    update_enumeration
updated = (_, refl)

abbrev ticked : Returns (run_tick clock.tick updated.0)
unfolding run_tick automata_tick tick_mapping tick_charge tick_inactive
    mapping_check_inactive_timeout mapping_check_charge_timeout expire_sessions expire
    session_table_update_complete_status complete_status tick_enumeration tick_band tick_status
    session_table_is_empty session_table_all_complete switch_state_enumeration fire scan
    tick_pausing tick_hello last_tx can_send band_do_hello band_choose_hello_time hello_interval
    tick_block updated mapping_reset_inactive_timeout
ticked = (_, refl)

core_returns : Returns (parse_frame port (some discover) 7 [] [])
core_returns = parse_frame_returns port discover (omega arith) documented mtu_fits 7 [] [] emits

called : Returns (callback port device ticked.0.0 core_returns.0.1 true)
called = callback_some port device ticked.0.0 core_returns.0.1 true documented (omega arith)

abbrev after : Daemon
after = record { interface = ticked.0.0; states = core_returns.0.0; history = called.0 }

sent : ticked.0.1 ≡ true
unfolding ticked modify band_init_stats
sent = refl

says_hello : on_frame port device 7 clock discover start ≡ some (after, true)
unfolding on_frame
says_hello = rw (on_frame, updated.1, core_returns.1, ticked.1, sent, called.1) refl

on_frame-hello_example :
    (session_table_is_empty after.interface.session_table ≡ false)
    × (after.interface.mapping.current_state ≢ 0)
on_frame-hello_example =
    on_frame-hello port device 7 clock discover start after started (omega arith) stations readings
      says_hello

-- A receive timeout of the new interface.
abbrev idle_tick : Returns (run_tick clock.tick new)
unfolding run_tick automata_tick tick_mapping tick_charge tick_inactive
    mapping_check_inactive_timeout mapping_check_charge_timeout expire_sessions expire
    session_table_update_complete_status complete_status tick_enumeration tick_band tick_status
    session_table_is_empty session_table_all_complete switch_state_enumeration fire scan
    tick_pausing tick_hello last_tx can_send band_do_hello band_choose_hello_time hello_interval
    tick_block mapping_reset_inactive_timeout
idle_tick = (_, refl)

abbrev waited : Daemon
waited = record { interface = idle_tick.0.0; states = []; history = [] }

no_hello : idle_tick.0.1 ≡ false
unfolding idle_tick modify
no_hello = refl

waits : on_timeout port device clock.tick start ≡ some (waited, false)
unfolding on_timeout callback
waits = rw (on_timeout, idle_tick.1, no_hello) refl

quiescent : waited.interface.mapping.current_state ≡ 0
unfolding idle_tick
quiescent = refl

Reach-quiescent_example :
    (session_table_is_empty waited.interface.session_table ≡ true)
    × (waited.interface.enumeration.current_state ≡ 0)
Reach-quiescent_example =
    Reach-quiescent port device 7 waited
      (silence start waited false clock.tick 2 2 [] started refl waits) quiescent

-- The interface with a mapper.
abbrev mapped : Interface
mapped = record new { mapper_hw_address = mapper; mapper_generation_topology = 5 }

abbrev frame : Returns (hello_frame port 206 mapper mapper 5 tos_discovery)
frame = hello_frame_some port 206 mapper mapper 5 tos_discovery documented (omega arith)

send_hello_message-hello_frame_example :
    send_hello_message port device mapped []
    ≡ some (free ∷ send (take frame.0.1 frame.0.0) ∷ alloc ∷ [])
send_hello_message-hello_frame_example =
    send_hello_message-hello_frame port device mapped [] frame.0.0 frame.0.1 refl refl refl
      (frame.1)

abbrev others : List (ℕ × IfaceState)
others = (9, zero_state) ∷ []

abbrev parsed : Returns (parse_frame port (some discover) 7 others [])
parsed = parse_frame_returns port discover (omega arith) documented mtu_fits 7 others [] emits

parse_frame-own_example :
    (own port discover (find_iface 7 others) [] ≡ some (find_iface 7 parsed.0.0, parsed.0.1))
    × (find_iface 9 parsed.0.0 ≡ find_iface 9 others)
parse_frame-own_example =
    parse_frame-own port discover 7 others [] parsed.0.0 parsed.0.1 parsed.1 9 (omega arith)
