-- ===== src/Daemon/Plain.antt =====
-- The daemons that only switch the automata: os/esp32/daemon/lltd_esp32.c, and the body of `lltdLoop` of
-- os/esxi/daemon/esxi-main.c, which also calls the core. Those of BeOS and SunOS have the same body.
-- Each switch of the mapping or session automaton may read the clock twice.
pub mod Diagram
use lltdresponder.Base.{
  ℕ, ◌≤◌, ◌≡◌, refl, ap, ◌∙◌, sym, ◌==◌, ltb, if◌then◌else◌, Bool, true, false, Option, none, some,
  List, [], ◌∷◌, ℤ, pos, length, arith, Bool-cases, inl, inr,
}
use lltdresponder.Base.Fault.{◌>>=◌}
use lltdresponder.Base.Word.{sub64}
use lltdresponder.Protocol.{opcode_hello, opcode_discover}
use lltdresponder.Wire.Header.{header_opcode}
use lltdresponder.Wire.Header.Reads.{get_elem?-some}
use lltdresponder.Port.{Effect, Port}
use lltdresponder.Automata.Machine.{
  Automata, MappingState, BandState, init_automata_mapping, init_automata_session,
  init_automata_enumeration, switch_state_mapping, switch_state_session, switch_state_enumeration,
  enum_hello, enum_new_session, enum_sess_complete,
}
use lltdresponder.Automata.Machine.Mapping
use lltdresponder.Automata.Machine.Session
use lltdresponder.Automata.Machine.Enumeration
use lltdresponder.Responder.State.{IfaceState}
use lltdresponder.Responder.Dispatch.{parse_frame}

-- The automata of an interface, none of them null.
pub record Machines : Type 0 where
  pub mapping : Automata MappingState
  pub session : Automata (Unit {0})
  pub enumeration : Automata BandState

-- The readings of the clock for one frame.
pub record SwitchClock : Type 0 where
  pub mapping_now : ℕ
  pub mapping_later : ℕ
  pub session_now : ℕ
  pub session_later : ℕ
  pub enumeration_now : ℕ

-- The automata of a new interface, when all allocations succeed.
unfoldable pub new_machines : ℕ → Option Machines
new_machines now = do
  mapping ← init_automata_mapping true true now
  session ← init_automata_session true now
  enumeration ← init_automata_enumeration true true now
  some (record { mapping = mapping; session = session; enumeration = enumeration })

abbrev pub enumeration_input : ℕ → ℕ
enumeration_input opcode =
    if opcode == opcode_hello
    then enum_hello
    else if opcode == opcode_discover
    then enum_new_session
    else enum_sess_complete

-- The opcode itself is the input of the mapping and of the session automaton.
unfoldable pub switch_machines : SwitchClock → List ℕ → Machines → Option Machines
switch_machines clock frame m = do
  opcode ← header_opcode frame
  mapping' ←
      switch_state_mapping m.mapping (pos opcode) (clock.mapping_now ∷ clock.mapping_later ∷ [])
  session' ←
      switch_state_session m.session (pos opcode) (clock.session_now ∷ clock.session_later ∷ [])
  some (record {
    mapping = mapping';
    session = session';
    enumeration =
        switch_state_enumeration m.enumeration (pos (enumeration_input opcode))
          clock.enumeration_now;
  })

-- A null frame and a frame that is shorter than its header are ignored.
unfoldable pub lltd_esp32_handle_frame :
    SwitchClock → Option (List ℕ) → (length : ℕ) → Machines → Option Machines
unfolding switch_machines
lltd_esp32_handle_frame clock none length m = some m
lltd_esp32_handle_frame clock (some frame) length m =
    if ltb length 32 then some m else switch_machines clock frame m

-- One turn of the loop.
unfoldable pub esxi_turn :
    (p : Port) (ctx : ℕ) (clock : SwitchClock) (frame : List ℕ)
    → Machines
    → List (ℕ × IfaceState)
    → List Effect
    → Option (Machines × List (ℕ × IfaceState) × List Effect)
unfolding switch_machines
esxi_turn p ctx clock frame m states history = do
  m' ← switch_machines clock frame m
  (states', history') ← parse_frame p (some frame) ctx states history
  some (m', states', history')

-- A frame and the readings of the clock that handling it takes.
pub record Arrival : Type 0 where
  pub clock : SwitchClock
  pub frame : List ℕ

-- The frames that are handed to an ESP32, one after the other, each with its length.
abbrev pub handle_frames : List Arrival → Machines → Option Machines
handle_frames [] m = some m
handle_frames (a ∷ rest) m =
    lltd_esp32_handle_frame a.clock (some a.frame) (length a.frame) m >>= handle_frames rest
