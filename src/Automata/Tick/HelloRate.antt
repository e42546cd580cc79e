-- ===== src/Automata/Tick/HelloRate.antt =====
-- The limit on the rate of Hello frames: `automata_tick` sends none within a second of the last.
use mathlib.Core.Option
use mathlib.Core.Option.{some-injective}
use lltdresponder.Base.{
  ℕ, ◌+◌, ◌^◌, ◌≤◌, ◌<◌, ◌≡◌, refl, ◌⊎◌, inl, inr, if◌then◌else◌, Bool, true, false, Option, none,
  some, List, [], ◌∷◌, arith, sub64, Option-cases,
}
use lltdresponder.Automata.Machine.{Automata, MappingState, BandState}
use lltdresponder.Automata.Sessions.{SessionTable, expire_sessions}
use lltdresponder.Automata.Tick.{
  TickClock, TickPort, TickResult, Enumeration, tick_status, tick_hello, tick_block, tick_pausing,
  tick_band, tick_enumeration, tick_mapping, automata_tick,
}

-- A port that knows when the last Hello was sent; 0 stands for never.
abbrev pub port_at : Bool → Bool → ℕ → TickPort
port_at interface sender t = record {
  network_interface = interface;
  last_hello_tx_ms = some t;
  send_hello = sender;
}

-- What a tick does to the port: a Hello is sent at `now`, only when the limit allows it, and its
-- time is recorded; or nothing happens.
abbrev pub Limited : ℕ → Bool → Bool → ℕ → Option TickPort → Bool → Type 0
Limited now interface sender t port sent =
    ((sent ≡ false) × (port ≡ some (port_at interface sender t)))
    ⊎ ((sent ≡ true)
        × (port ≡ some (port_at interface sender now))
        × ((t ≡ 0) ⊎ (1000 ≤ sub64 now t)))

module _ (clock : TickClock) (interface sender : Bool) (t : ℕ) where
  hello-Limited :
      (s : Enumeration)
      → s.port ≡ some (port_at interface sender t)
      → s.hello_sent ≡ false
      → Limited clock.now_ms interface sender t
          (tick_hello clock s).port
          (tick_hello clock s).hello_sent
  unfolding tick_hello
  hello-Limited s p q = ground arith

  block_same :
      (s : Enumeration)
      → ((tick_block clock s).port ≡ s.port) × ((tick_block clock s).hello_sent ≡ s.hello_sent)
  unfolding tick_block
  block_same s = ground arith

  pausing-Limited :
      (s : Enumeration)
      → s.port ≡ some (port_at interface sender t)
      → s.hello_sent ≡ false
      → Limited clock.now_ms interface sender t
          (tick_pausing clock s).port
          (tick_pausing clock s).hello_sent
  unfolding tick_pausing
  pausing-Limited s p q = ground (arith, hello-Limited s p q, block_same (tick_hello clock s))

  status_unsent :
      (sessions : Option SessionTable) (enumeration : Automata BandState) (band : BandState)
      → (tick_status clock sessions enumeration band).hello_sent ≡ false
  unfolding tick_status
  status_unsent sessions enumeration band = ground arith

  band-Limited :
      (enumeration : Automata BandState) (extra : Option BandState) (sessions : Option SessionTable)
      → let (e, port, sent) =
          tick_band clock enumeration extra sessions (some (port_at interface sender t)) in
        Limited clock.now_ms interface sender t port sent
  unfolding tick_band
  band-Limited enumeration none sessions = inl (refl, refl)
  band-Limited enumeration (some band) sessions =
      pausing-Limited
        (record (tick_status clock sessions enumeration band) {
          port = some (port_at interface sender t);
        })
        refl (status_unsent sessions enumeration band)

  enumeration-Limited :
      (enumeration : Option (Automata BandState)) (sessions : Option SessionTable)
      → let (e, port, sent) =
          tick_enumeration clock enumeration sessions (some (port_at interface sender t)) in
        Limited clock.now_ms interface sender t port sent
  unfolding tick_enumeration
  enumeration-Limited none sessions = inl (refl, refl)
  enumeration-Limited (some e) sessions = band-Limited e e.extra sessions

  -- What a tick that does not fault does to the port.
  pub automata_tick-Limited :
      (mapping : Option (Automata MappingState)) (enumeration : Option (Automata BandState))
      (sessions : Option SessionTable) (r : TickResult)
      → automata_tick clock mapping enumeration sessions (some (port_at interface sender t))
        ≡ some r
      → Limited clock.now_ms interface sender t r.port r.hello_sent
  unfolding automata_tick
  automata_tick-Limited mapping enumeration sessions r h =
      elim (Option-cases (tick_mapping clock mapping sessions)) [
        | inl e ↦ ground (arith, e)
        | inr (m, e) ↦ ground (
          arith,
          e,
          enumeration-Limited enumeration (Option.map (expire_sessions clock.now_s) m.1),
        )
      ]

-- One tick of a daemon, with the state that it finds.
pub record Tick : Type 0 where
  pub clock : TickClock
  pub mapping : Option (Automata MappingState)
  pub enumeration : Option (Automata BandState)
  pub sessions : Option SessionTable

-- The times at which a sequence of ticks sends a Hello; only the port is handed on from tick to
-- tick, and anything may happen to the rest in between. A fault ends the sequence.
pub hello_times : Option TickPort → List Tick → List ℕ
hello_times port [] = []
hello_times port (k ∷ ks) = elim (automata_tick k.clock k.mapping k.enumeration k.sessions port) [
  | none ↦ []
  | some r ↦
      let rest = hello_times r.port ks in if r.hello_sent then k.clock.now_ms ∷ rest else rest
]

-- The clock of the ticks starts at `now` or later, and does not run backwards.
abbrev pub Forward : ℕ → List Tick → Type 0
Forward now [] = Unit {0}
Forward now (k ∷ ks) =
    (now ≤ k.clock.now_ms) × (k.clock.now_ms < 2 ^ 63) × Forward k.clock.now_ms ks

-- Each time is at least a second after the one before, the first one after `t`, if `t` is not 0.
abbrev pub Spaced : ℕ → List ℕ → Type 0
Spaced t [] = Unit {0}
Spaced t (u ∷ us) = ((t ≡ 0) ⊎ (t + 1000 ≤ u)) × Spaced u us

hello_times-faults :
    (port : Option TickPort) (k : Tick) (ks : List Tick)
    → automata_tick k.clock k.mapping k.enumeration k.sessions port ≡ none
    → hello_times port (k ∷ ks) ≡ []
unfolding hello_times
hello_times-faults port k ks e = rw (e, hello_times)

hello_times-next :
    (port : Option TickPort) (k : Tick) (ks : List Tick) (r : TickResult)
    → automata_tick k.clock k.mapping k.enumeration k.sessions port ≡ some r
    → hello_times port (k ∷ ks)
      ≡ (if r.hello_sent then k.clock.now_ms ∷ hello_times r.port ks else hello_times r.port ks)
unfolding hello_times
hello_times-next port k ks r e = rw (e, hello_times)

-- However often the tick is called, and whatever it finds: two Hello frames that it sends are at
-- least 1000 ms apart, and the first is at least 1000 ms after the recorded one, if there was
-- any, as long as the clock does not run backwards and stays below 2^63.
pub hello_times-Spaced :
    (interface sender : Bool) (t now : ℕ) (ks : List Tick)
    → t ≤ now
    → Forward now ks
    → Spaced t (hello_times (some (port_at interface sender t)) ks)
unfolding hello_times
hello_times-Spaced interface sender t now [] le f = tt
hello_times-Spaced interface sender t now (k ∷ ks) le f =
    let port = some (port_at interface sender t) in
    elim (Option-cases (automata_tick k.clock k.mapping k.enumeration k.sessions port)) [
      | inl e ↦ rw (hello_times-faults port k ks e) tt
      | inr (r, e) ↦
          rw (hello_times-next port k ks r e)
            (elim (automata_tick-Limited k.clock interface sender t k.mapping k.enumeration
              k.sessions r e) [
                | inl (unsent, same) ↦
                    rw (unsent, same)
                      (hello_times-Spaced interface sender t k.clock.now_ms ks (omega arith) f.2)
                | inr (sent, stamped, gap) ↦
                    rw (sent, stamped)
                      (
                        ground arith,
                        hello_times-Spaced interface sender k.clock.now_ms k.clock.now_ms ks
                            (omega arith) f.2,
                      )
              ])
    ]
