-- ===== src/Daemon/Darwin/Loop.antt =====
-- A turn of `lltdLoop` of os/darwin/daemon/darwin-main.c as a whole.
use mathlib.Core.Option
use mathlib.Core.Option.{some-injective}
use mathlib.Core.Path.{subst}
use lltdresponder.Base.{
  ℕ, ◌≤◌, ◌≡◌, refl, sym, ◌∙◌, Bool, true, false, Option, none, some, List, ◌∷◌, length, arith,
  Option-cases, inl, inr,
}
use lltdresponder.Base.Returns.{Returns}
use lltdresponder.Wire.Header.Reads.{get_elem?-some}
use lltdresponder.Port.{Effect, Port}
use lltdresponder.Automata.Events.Total.{StationsFit, derive_session_event_some}
use lltdresponder.Automata.Tick.{TickClock}
use lltdresponder.Automata.Tick.Keeps.{automata_tick-Keeps}
use lltdresponder.Responder.State.{IfaceState}
use lltdresponder.Responder.Dispatch.{parse_frame}
use lltdresponder.Base.Fault.{◌>>=◌}
use lltdresponder.Protocol.{tos_discovery}
use lltdresponder.Tlv.Fits.{Documented}
use lltdresponder.Daemon.Darwin.Hello.{Device, send_hello_message_ex_some}
use lltdresponder.Daemon.Darwin.Steps.{NoSessions, update_sessions_updated}
use lltdresponder.Daemon.Darwin.Machines.{
  Good, Stored-AlmostGood, Readings, update_mapping-Good, update_timers-Good, update_session-Good,
  update_enumeration-IsEnumeration,
}
use lltdresponder.Daemon.Darwin.{
  Interface, FrameClock, Daemon, update_automata, update_timers, update_enumeration, run_tick,
  on_timeout, on_frame, callback, send_hello_message,
}

-- Between two turns of the loop, no enumeration runs without a session.
pub record Settled (i : Interface) : Type 0 where
  pub good : Good i
  pub idle : NoSessions i → i.enumeration.current_state ≡ 0

-- A turn of the loop ends settled, and with no session it has sent no periodic Hello.
pub record Turn (i : Interface) (hello : Bool) : Type 0 where
  pub settled : Settled i
  pub silent : NoSessions i → hello ≡ false

run_tick-Turn :
    (clock : TickClock) (a b : ℕ) (rest : List ℕ) (i : Interface)
    → clock.switch_s ≡ a ∷ b ∷ rest
    → Good i
    → (j : Interface) × (hello : Bool) × (run_tick clock i ≡ some (j, hello)) × Turn j hello
unfolding run_tick
run_tick-Turn clock a b rest i readings g =
    let k =
      automata_tick-Keeps clock a b rest readings i.mapping i.enumeration i.session_table
        (some (record {
          network_interface = true;
          last_hello_tx_ms = some i.last_hello_tx_ms;
          send_hello = true;
        }))
        g.maps g.enumerates g.sessions g.quiet in
    (
      record i {
        mapping = k.mapping;
        enumeration = k.enumeration;
        session_table = k.table;
        last_hello_tx_ms = elim k.port [
          | none ↦ i.last_hello_tx_ms
          | some port ↦ Option.get_or port.last_hello_tx_ms i.last_hello_tx_ms
        ];
      },
      k.hello,
      rw k.returns refl,
      record {
        settled = record {
          good = record {
            maps = k.maps;
            session = g.session;
            enumerates = k.enumerates;
            sessions = k.sessions;
            quiet = k.quiet;
          };
          idle = k.idle;
        };
        silent = k.silent;
      },
    )

pub update_automata-Good :
    (p : Port) (clock : FrameClock) (frame : List ℕ) (i : Interface)
    → 36 ≤ length frame
    → StationsFit p.little frame
    → Readings clock
    → Good i
    → (j : Interface) × (update_automata p clock frame i ≡ some j) × Good j
unfolding update_automata
update_automata-Good p clock frame i big fits readings g =
    let (event, e) =
      derive_session_event_some p.little frame big i.session_table (some i.mac_address) fits in
    let (opcode, o) = get_elem?-some frame 17 (omega (arith, big)) in
    let (i1, e1, s, added) = update_sessions_updated p clock frame big opcode event i g.sessions in
    let almost = Stored-AlmostGood opcode i i1 g s added in
    let (i2, e2, g2) = update_mapping-Good p clock frame readings opcode i1 almost in
    let g3 = update_timers-Good p clock frame readings opcode i2 g2 in
    let (i4, e4, g4) =
      update_session-Good p clock frame readings event (update_timers p clock frame opcode i2) g3 in
    (
      record i4 { enumeration = update_enumeration p clock frame opcode i4.enumeration },
      rw (e, o, e1, e2, e4) refl,
      record {
        maps = g4.maps;
        session = g4.session;
        enumerates =
            update_enumeration-IsEnumeration p clock frame readings opcode i4.enumeration
              g4.enumerates;
        sessions = g4.sessions;
        quiet = g4.quiet;
      },
    )

-- The callback returns, in a buffer that is large enough.
pub callback_some :
    (p : Port) (device : Device) (i : Interface) (history : List Effect) (hello : Bool)
    → Documented p
    → 206 ≤ device.mtu
    → Returns (callback p device i history hello)
unfolding callback send_hello_message
callback_some p device i history false d h = (_, refl)
callback_some p device i history true d h =
    send_hello_message_ex_some p device i.mac_address 0 tos_discovery i.mapper_hw_address
      i.mapper_hw_address i.mapper_generation_topology history d h

-- A turn: what it leaves of the interface, whether it calls for a Hello, and that it returns when and
-- only when the Hello is written.
pub record Turned (p : Port) (device : Device) (states : List (ℕ × IfaceState))
    (history : List Effect) (turn : Option (Daemon × Bool)) : Type 0 where
  pub interface : Interface
  pub hello : Bool
  pub is : turn ≡ (
      callback p device interface history hello >>= λ history'.
      some (record { interface = interface; states = states; history = history' }, hello))
  pub turns : Turn interface hello

-- A receive timeout is a turn.
pub on_timeout-Turn :
    (p : Port) (device : Device) (clock : TickClock) (a b : ℕ) (rest : List ℕ) (d : Daemon)
    → clock.switch_s ≡ a ∷ b ∷ rest
    → Good d.interface
    → Turned p device d.states d.history (on_timeout p device clock d)
unfolding on_timeout
on_timeout-Turn p device clock a b rest d readings g =
    let (i, hello, e, t) = run_tick-Turn clock a b rest d.interface readings g in
    record { interface = i; hello = hello; is = rw e refl; turns = t }

-- A frame with its headers and its station list, which the core handles, is a turn.
pub on_frame-Turn :
    (p : Port) (device : Device) (ctx : ℕ) (clock : FrameClock) (frame : List ℕ) (d : Daemon)
    (states : List (ℕ × IfaceState)) (history : List Effect)
    → 36 ≤ length frame
    → StationsFit p.little frame
    → Readings clock
    → Good d.interface
    → parse_frame p (some frame) ctx d.states d.history ≡ some (states, history)
    → Turned p device states history (on_frame p device ctx clock frame d)
unfolding on_frame
on_frame-Turn p device ctx clock frame d states history big fits readings g core =
    let (i, e, h) = update_automata-Good p clock frame d.interface big fits readings g in
    let (j, hello, e', t) =
      run_tick-Turn clock.tick readings.tick_a readings.tick_b readings.tick_rest i readings.tick_is
        h in
    record { interface = j; hello = hello; is = rw (e, core, e') refl; turns = t }

-- A turn that has returned left what it says.
pub Turned-returned :
    {p : Port} {device : Device} {states : List (ℕ × IfaceState)} {history : List Effect}
    {turn : Option (Daemon × Bool)} (d : Daemon) (hello : Bool)
    → Turned p device states history turn
    → turn ≡ some (d, hello)
    → Turn d.interface hello
Turned-returned {p = p} {device = device} {states = states} {history = history} {turn = turn} d
      hello t e =
    let both : (callback p device t.interface history t.hello >>= λ history'.
    some (record { interface = t.interface; states = states; history = history' }, t.hello))
        ≡ some (d, hello) =
      sym t.is ∙ e in
    elim (Option-cases (callback p device t.interface history t.hello)) [
      | inl gone ↦ absurd (ground (arith, rw gone at both))
      | inr (history', sent) ↦
          subst (λ (x : Daemon × Bool). Turn x.0.interface x.1)
            (some-injective _ _ (rw sent at both)) t.turns
    ]

-- A turn whose Hello is written returns.
pub Turned-some :
    {p : Port} {device : Device} {states : List (ℕ × IfaceState)} {history : List Effect}
    {turn : Option (Daemon × Bool)}
    → Documented p
    → 206 ≤ device.mtu
    → Turned p device states history turn
    → (d : Daemon) × (hello : Bool) × (turn ≡ some (d, hello)) × Turn d.interface hello
Turned-some {p = p} {device = device} {states = states} {history = history} documented mtu t =
    let (history', sent) = callback_some p device t.interface history t.hello documented mtu in
    (
      record { interface = t.interface; states = states; history = history' },
      t.hello,
      t.is ∙ rw sent refl,
      t.turns,
    )
