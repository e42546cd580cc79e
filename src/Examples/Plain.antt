-- ===== src/Examples/Plain.antt =====
-- An ESP32 that is handed a Discover frame, and then a frame that ends before its header does.
use lltdresponder.Base.{ℕ, ◌≡◌, refl, some, none, List, [], ◌∷◌, replicate, false, arith}
use lltdresponder.Protocol.{opcode_discover, tos_discovery}
use lltdresponder.Wire.Address.{address, ethernet_broadcast}
use lltdresponder.Wire.Header.Layout.{header_bytes, lltd_header}
use lltdresponder.Automata.Machine.{
  init_automata_mapping, init_automata_session, init_automata_enumeration,
}
use lltdresponder.Automata.Machine.Mapping
use lltdresponder.Automata.Machine.Session
use lltdresponder.Automata.Machine.Enumeration
use lltdresponder.Daemon.Plain.{Arrival, SwitchClock, new_machines, handle_frames}
use lltdresponder.Daemon.Plain.Diagram.{Phases, in_phases, arrive_all, handle_frames-arrive_all}

abbrev fresh : Phases
fresh = record {
  mapping = Mapping.quiescent;
  mapping_ts = 1;
  mapping_extra = some (record { ctc = 0; charge_timeout_ts = 0; inactive_timeout_ts = 0 });
  session = Session.nascent;
  session_ts = 1;
  session_extra = none;
  enumeration = Enumeration.quiescent;
  enumeration_ts = 1;
  enumeration_extra =
      some (record { ni = 45; r = 0; begun = false; hello_timeout_ts = 0; block_timeout_ts = 0 });
}

fresh_is : new_machines 1 ≡ some (in_phases fresh)
unfolding new_machines init_automata_mapping init_automata_session init_automata_enumeration
fresh_is = refl

abbrev at : ℕ → SwitchClock
at now = record {
  mapping_now = now;
  mapping_later = now;
  session_now = now;
  session_later = now;
  enumeration_now = now;
}

abbrev arrivals : List Arrival
arrivals =
    record {
      clock = at 2;
      frame = header_bytes (
          lltd_header (address 2 0 0 0 0 1) ethernet_broadcast (address 2 0 0 0 0 1)
            ethernet_broadcast 3 opcode_discover tos_discovery);
    }
    ∷ record { clock = at 3; frame = replicate 20 0 }
    ∷ []

handle_frames-arrive_all_example :
    handle_frames arrivals (in_phases fresh) ≡ some (in_phases (arrive_all arrivals fresh))
handle_frames-arrive_all_example =
    handle_frames-arrive_all arrivals fresh (omega arith, (omega arith, tt))
