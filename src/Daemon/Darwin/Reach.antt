-- ===== src/Daemon/Darwin/Reach.antt =====
-- The daemons that `lltdLoop` of os/darwin/daemon/darwin-main.c reaches.
use mathlib.Core.Option.{some-injective}
use mathlib.Core.Path.{subst}
use lltdresponder.Base.{
  ℕ, ◌≤◌, ◌≡◌, ◌≢◌, refl, sym, ◌∙◌, Bool, true, false, none, some, List, ◌∷◌, length, arith,
  Option-cases, Bool-cases, inl, inr,
}
use lltdresponder.Base.Returns.{Returns}
use lltdresponder.Wire.Address.{EthernetAddress}
use lltdresponder.Tlv.Fits.{Documented}
use lltdresponder.Responder.Query.{effective_mtu}
use lltdresponder.Responder.Total.Frame.{EmitFits, parse_frame_returns}
use lltdresponder.Port.{Effect, Port}
use lltdresponder.Automata.Machine.{
  init_automata_mapping, init_automata_session, init_automata_enumeration,
}
use lltdresponder.Automata.Machine.Mapping
use lltdresponder.Automata.Machine.Session
use lltdresponder.Automata.Machine.Enumeration
use lltdresponder.Automata.Sessions.Invariant.{session_table_create-Inv}
use lltdresponder.Automata.Sessions.{session_table_is_empty, session_table_create}
use lltdresponder.Automata.Events.Total.{StationsFit}
use lltdresponder.Automata.Tick.{TickClock}
use lltdresponder.Automata.Tick.Keeps.{TableInv}
use lltdresponder.Responder.State.{IfaceState}
use lltdresponder.Responder.Dispatch.{parse_frame}
use lltdresponder.Daemon.Darwin.Steps.{NoSessions}
use lltdresponder.Daemon.Darwin.Machines.{Good, Readings}
use lltdresponder.Daemon.Darwin.{Interface, new_interface, FrameClock, Daemon, on_timeout, on_frame}
use lltdresponder.Daemon.Darwin.Hello.{Device}
use lltdresponder.Daemon.Darwin.Loop.{
  Settled, Turn, Turned-returned, Turned-some, on_timeout-Turn, on_frame-Turn, update_automata-Good,
}

-- A turn that returned has come back from the core.
core_returned :
    (p : Port) (device : Device) (ctx : ℕ) (clock : FrameClock) (frame : List ℕ) (d : Daemon)
    (result : Daemon × Bool)
    → 36 ≤ length frame
    → StationsFit p.little frame
    → Readings clock
    → Good d.interface
    → on_frame p device ctx clock frame d ≡ some result
    → Returns (parse_frame p (some frame) ctx d.states d.history)
unfolding on_frame
core_returned p device ctx clock frame d result big fits readings g e =
    elim (Option-cases (parse_frame p (some frame) ctx d.states d.history)) [
      | inl gone ↦
          let (i, e', h) = update_automata-Good p clock frame d.interface big fits readings g in
          absurd (ground (arith, rw (e', gone) at e))
      | inr r ↦ r
    ]

frame-Turn :
    (p : Port) (device : Device) (ctx : ℕ) (clock : FrameClock) (frame : List ℕ) (d d' : Daemon)
    (hello : Bool)
    → 36 ≤ length frame
    → StationsFit p.little frame
    → Readings clock
    → Good d.interface
    → on_frame p device ctx clock frame d ≡ some (d', hello)
    → Turn d'.interface hello
frame-Turn p device ctx clock frame d d' hello big fits readings g e =
    let ((states, history), core) =
      core_returned p device ctx clock frame d (d', hello) big fits readings g e in
    Turned-returned d' hello
      (on_frame-Turn p device ctx clock frame d states history big fits readings g core) e

TableInv-create : (allocated : Bool) → TableInv (session_table_create allocated)
unfolding session_table_create
TableInv-create false = tt
TableInv-create true = session_table_create-Inv _ refl

create-empty : (allocated : Bool) → session_table_is_empty (session_table_create allocated) ≡ true
unfolding session_table_create session_table_is_empty
create-empty false = refl
create-empty true = refl

new_interface-Settled :
    (mac : EthernetAddress) (table_allocated : Bool) (now : ℕ)
    → (i : Interface) × (new_interface mac table_allocated now ≡ some i) × Settled i
unfolding new_interface init_automata_mapping init_automata_session init_automata_enumeration
new_interface-Settled mac table_allocated now = (
  _,
  refl,
  record {
    good = record {
      maps = record { phase = Mapping.quiescent; ts = now; extra = _; is = refl };
      session = record { phase = Session.nascent; ts = now; extra = none; is = refl };
      enumerates = record {
        phase = Enumeration.quiescent;
        ts = now;
        band = _;
        is = refl;
        fine = (omega arith, omega arith);
      };
      sessions = TableInv-create table_allocated;
      quiet = λ z. create-empty table_allocated;
    };
    idle = λ z. refl;
  },
)

-- The daemons that the loop reaches from a new interface. A frame has its headers and its station
-- list in the buffer; the core starts with any states and any history.
pub data Reach (p : Port) (device : Device) (ctx : ℕ) : Daemon → Type 0 where
  begun :
      (mac : EthernetAddress) (table_allocated : Bool) (now : ℕ) (i : Interface)
      (states : List (ℕ × IfaceState)) (history : List Effect)
      → new_interface mac table_allocated now ≡ some i
      → Reach p device ctx (record { interface = i; states = states; history = history })
  silence :
      (d d' : Daemon) (hello : Bool) (clock : TickClock) (a b : ℕ) (rest : List ℕ)
      → Reach p device ctx d
      → clock.switch_s ≡ a ∷ b ∷ rest
      → on_timeout p device clock d ≡ some (d', hello)
      → Reach p device ctx d'
  received :
      (d d' : Daemon) (hello : Bool) (clock : FrameClock) (frame : List ℕ)
      → Reach p device ctx d
      → 36 ≤ length frame
      → StationsFit p.little frame
      → Readings clock
      → on_frame p device ctx clock frame d ≡ some (d', hello)
      → Reach p device ctx d'

-- Every daemon that the loop reaches is settled: its automata are in phases of their diagrams, the
-- session table keeps its invariant, it is empty whenever the mapping automaton is quiescent, and
-- then the enumeration automaton is quiescent, too.
Reach-Settled :
    (p : Port) (device : Device) (ctx : ℕ) (d : Daemon) → Reach p device ctx d → Settled d.interface
Reach-Settled p device ctx d (begun mac table_allocated now i states history e) =
    let (j, e', s) = new_interface-Settled mac table_allocated now in
    subst Settled (some-injective _ _ (sym e' ∙ e)) s
Reach-Settled p device ctx d (silence d0 d' hello clock a b rest r readings e) =
    (Turned-returned d hello
      (on_timeout-Turn p device clock a b rest d0 readings (Reach-Settled p device ctx d0 r).good)
      e).settled
Reach-Settled p device ctx d (received d0 d' hello clock frame r big fits readings e) =
    (frame-Turn p device ctx clock frame d0 d' hello big fits readings
      (Reach-Settled p device ctx d0 r).good e).settled

-- Whatever frames and timeouts the loop has seen, with a mapping automaton in Quiescent there is no
-- session in the table, and the enumeration automaton is in Quiescent, too.
pub Reach-quiescent :
    (p : Port) (device : Device) (ctx : ℕ) (d : Daemon)
    → Reach p device ctx d
    → d.interface.mapping.current_state ≡ 0
    → (session_table_is_empty d.interface.session_table ≡ true)
      × (d.interface.enumeration.current_state ≡ 0)
Reach-quiescent p device ctx d r quiet =
    let s = Reach-Settled p device ctx d r in (s.good.quiet quiet, s.idle (s.good.quiet quiet))

-- A reached daemon survives every frame that has its headers, its station list and its Emit list in the
-- buffer, on a platform that keeps to what it documents, when the core and the daemon see an MTU of at
-- least 206: the turn returns, with a daemon that is reached, too.
pub Reach-on_frame :
    (p : Port) (device : Device) (ctx : ℕ) (clock : FrameClock) (frame : List ℕ) (d : Daemon)
    → Reach p device ctx d
    → 36 ≤ length frame
    → StationsFit p.little frame
    → EmitFits p.little frame
    → Documented p
    → 206 ≤ effective_mtu p
    → 206 ≤ device.mtu
    → Readings clock
    → (d' : Daemon) × (hello : Bool) × (on_frame p device ctx clock frame d ≡ some (d', hello))
      × Reach p device ctx d'
Reach-on_frame p device ctx clock frame d r big stations emits documented mtu device_mtu readings =
    let ((states, history), core) =
      parse_frame_returns p frame big documented mtu ctx d.states d.history emits in
    let (d', hello, e, t) = Turned-some documented device_mtu (
      on_frame-Turn p device ctx clock frame d states history big stations readings
        (Reach-Settled p device ctx d r).good core) in
    (d', hello, e, received d d' hello clock frame r big stations readings e)

-- A reached daemon survives a receive timeout, too.
Reach-on_timeout :
    (p : Port) (device : Device) (ctx : ℕ) (clock : TickClock) (a b : ℕ) (rest : List ℕ)
    (d : Daemon)
    → Reach p device ctx d
    → Documented p
    → 206 ≤ device.mtu
    → clock.switch_s ≡ a ∷ b ∷ rest
    → (d' : Daemon) × (hello : Bool) × (on_timeout p device clock d ≡ some (d', hello))
      × Reach p device ctx d'
Reach-on_timeout p device ctx clock a b rest d r documented mtu readings =
    let (d', hello, e, t) =
      Turned-some documented mtu (
        on_timeout-Turn p device clock a b rest d readings (Reach-Settled p device ctx d r).good) in
    (d', hello, e, silence d d' hello clock a b rest r readings e)

-- A periodic Hello is called for only while there is a session, and then the mapping automaton is not
-- quiescent: of a reached daemon that receives a frame.
pub on_frame-hello :
    (p : Port) (device : Device) (ctx : ℕ) (clock : FrameClock) (frame : List ℕ) (d d' : Daemon)
    → Reach p device ctx d
    → 36 ≤ length frame
    → StationsFit p.little frame
    → Readings clock
    → on_frame p device ctx clock frame d ≡ some (d', true)
    → (session_table_is_empty d'.interface.session_table ≡ false)
      × (d'.interface.mapping.current_state ≢ 0)
on_frame-hello p device ctx clock frame d d' r big stations readings e =
    let t =
      frame-Turn p device ctx clock frame d d' true big stations readings
        (Reach-Settled p device ctx d r).good e in
    let some_session : NoSessions d'.interface → ⊥ = λ h. cc (t.silent h) in
    (
      elim (Bool-cases (session_table_is_empty d'.interface.session_table)) [
        | inl h ↦ absurd (some_session h)
        | inr h ↦ h
      ],
      λ z. some_session (t.settled.good.quiet z),
    )
