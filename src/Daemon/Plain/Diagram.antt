-- ===== src/Daemon/Plain/Diagram.antt =====
-- The automata of an ESP32 (os/esp32/daemon/lltd_esp32.c) and their three diagrams.
use mathlib.Core.Option
use lltdresponder.Base.{
  ℕ, zero, suc, ◌≤◌, ◌≡◌, refl, ltb, if◌then◌else◌, Bool, true, false, Option, some, List, [], ◌∷◌,
  pos, length, arith, Bool-cases, inl, inr,
}
use lltdresponder.Base.Word.{sub64}
use lltdresponder.Wire.Header.{header_opcode}
use lltdresponder.Wire.Header.Reads.{get_elem?-some}
use lltdresponder.Automata.Machine.{MappingState, BandState}
use lltdresponder.Automata.Machine.Mapping
use lltdresponder.Automata.Machine.Session
use lltdresponder.Automata.Machine.Enumeration
use lltdresponder.Daemon.Plain.{
  Machines, SwitchClock, enumeration_input, switch_machines, lltd_esp32_handle_frame, Arrival,
  handle_frames,
}

-- The phase of each automaton with the time of its last switch, and what they carry along.
pub record Phases : Type 0 where
  pub mapping : Mapping.Phase
  pub mapping_ts : ℕ
  pub mapping_extra : Option MappingState
  pub session : Session.Phase
  pub session_ts : ℕ
  pub session_extra : Option (Unit {0})
  pub enumeration : Enumeration.Phase
  pub enumeration_ts : ℕ
  pub enumeration_extra : Option BandState

abbrev pub in_phases : Phases → Machines
in_phases s = record {
  mapping = Mapping.mapping_in s.mapping s.mapping_ts s.mapping_extra;
  session = Session.session_in s.session s.session_ts s.session_extra;
  enumeration = Enumeration.enumeration_in s.enumeration s.enumeration_ts s.enumeration_extra;
}

-- What the enumeration automaton is told: 2 by a Hello, whose opcode is 1, 3 by a Discover, whose opcode
-- is 0, and 0, that all sessions are complete, by every other frame.
abbrev pub told : ℕ → ℕ
told zero = 3
told (suc zero) = 2
told (suc (suc opcode)) = 0

enumeration_input-told : (opcode : ℕ) → enumeration_input opcode ≡ told opcode
enumeration_input-told zero = refl
enumeration_input-told (suc zero) = refl
enumeration_input-told (suc (suc opcode)) = ground arith

-- An opcode moves each automaton along an edge of its diagram, or back to its start after a silence.
abbrev pub next_phases : SwitchClock → ℕ → Phases → Phases
next_phases clock opcode s =
    let silent = Mapping.expired s.mapping (sub64 clock.mapping_now s.mapping_ts) in
    let late = ltb 1 (sub64 clock.session_now s.session_ts) in
    record {
      mapping = if silent then Mapping.quiescent else Mapping.next s.mapping (pos opcode);
      mapping_ts = if silent then clock.mapping_later else clock.mapping_now;
      mapping_extra = s.mapping_extra;
      session = if late then Session.nascent else Session.next s.session (pos opcode);
      session_ts = if late then clock.session_later else clock.session_now;
      session_extra = s.session_extra;
      enumeration = Enumeration.next s.enumeration (pos (told opcode));
      enumeration_ts = clock.enumeration_now;
      enumeration_extra = s.enumeration_extra;
    }

if-mapping_in :
    (t : Bool) (a b : Mapping.Phase) (x y : ℕ) (e : Option MappingState)
    → (if t then Mapping.mapping_in a x e else Mapping.mapping_in b y e)
      ≡ Mapping.mapping_in (if t then a else b) (if t then x else y) e
if-mapping_in true a b x y e = refl
if-mapping_in false a b x y e = refl

if-session_in :
    (t : Bool) (a b : Session.Phase) (x y : ℕ) (e : Option (Unit {0}))
    → (if t then Session.session_in a x e else Session.session_in b y e)
      ≡ Session.session_in (if t then a else b) (if t then x else y) e
if-session_in true a b x y e = refl
if-session_in false a b x y e = refl

switch_machines-next :
    (clock : SwitchClock) (frame : List ℕ) (opcode : ℕ) (s : Phases)
    → header_opcode frame ≡ some opcode
    → sub64 clock.session_later clock.session_now ≤ 1
    → switch_machines clock frame (in_phases s) ≡ some (in_phases (next_phases clock opcode s))
unfolding switch_machines
switch_machines-next clock frame opcode s reads soon =
    rw
      (
        reads,
        Mapping.switch_state_mapping-next s.mapping (pos opcode) s.mapping_ts clock.mapping_now
            clock.mapping_later [] s.mapping_extra,
        if-mapping_in (Mapping.expired s.mapping (sub64 clock.mapping_now s.mapping_ts))
            Mapping.quiescent (Mapping.next s.mapping (pos opcode)) clock.mapping_later
            clock.mapping_now s.mapping_extra,
        Session.switch_state_session-next s.session (pos opcode) s.session_ts clock.session_now
            clock.session_later [] s.session_extra soon,
        if-session_in (ltb 1 (sub64 clock.session_now s.session_ts)) Session.nascent
            (Session.next s.session (pos opcode)) clock.session_later clock.session_now
            s.session_extra,
        enumeration_input-told opcode,
        Enumeration.switch_state_enumeration-next s.enumeration (pos (told opcode)) s.enumeration_ts
            clock.enumeration_now s.enumeration_extra,
      )
      refl

-- The diagrams' description of a frame: one without a whole header changes nothing.
abbrev pub arrive : Arrival → Phases → Phases
arrive a s =
    if ltb (length a.frame) 32
    then s
    else next_phases a.clock (Option.get_or (header_opcode a.frame) 0) s

abbrev pub arrive_all : List Arrival → Phases → Phases
arrive_all [] s = s
arrive_all (a ∷ rest) s = arrive_all rest (arrive a s)

-- The two readings that a switch of the session automaton takes are at most a second apart.
abbrev pub AllSoon : List Arrival → Type 0
AllSoon [] = Unit
AllSoon (a ∷ rest) = (sub64 a.clock.session_later a.clock.session_now ≤ 1) × AllSoon rest

handle_frame-arrive :
    (a : Arrival) (s : Phases)
    → sub64 a.clock.session_later a.clock.session_now ≤ 1
    → lltd_esp32_handle_frame a.clock (some a.frame) (length a.frame) (in_phases s)
      ≡ some (in_phases (arrive a s))
unfolding lltd_esp32_handle_frame
handle_frame-arrive a s soon = elim (Bool-cases (ltb (length a.frame) 32)) [
  | inl short ↦ rw (short) refl
  | inr whole ↦
      let (opcode, reads) = get_elem?-some a.frame 17 (ground (arith, whole)) in
      rw (whole, switch_machines-next a.clock a.frame opcode s reads soon, reads) refl
]

-- Whatever sequence of frames an ESP32 is handed, short ones included, handling them returns, and each
-- of the three automata has walked the diagram that its table stands for, with the timeouts of the
-- code, by the frames that have a whole header: the mapping and the session automaton by the opcode,
-- the enumeration automaton by 2 for a Hello, 3 for a Discover and 0 for all others. This asks that
-- the two readings of a switch of the session automaton are at most a second apart.
pub handle_frames-arrive_all :
    (arrivals : List Arrival) (s : Phases)
    → AllSoon arrivals
    → handle_frames arrivals (in_phases s) ≡ some (in_phases (arrive_all arrivals s))
handle_frames-arrive_all [] s soon = refl
handle_frames-arrive_all (a ∷ rest) s soon =
    rw (handle_frame-arrive a s (soon.0)) (handle_frames-arrive_all rest (arrive a s) (soon.1))
