-- ===== src/Daemon/Darwin/Machines.antt =====
-- The automata of an interface while `lltdLoop` of os/darwin/daemon/darwin-main.c handles a frame.
use mathlib.Core.Option
use mathlib.Core.Path.{subst}
use lltdresponder.Base.{
  ℕ, ◌≤◌, ◌≡◌, ◌≢◌, refl, sym, ap, ◌∙◌, ◌==◌, if◌then◌else◌, Bool, true, false, ◌&&◌, not, Option,
  some, List, ◌∷◌, ℤ, pos, negsuc, arith, sub64, ltb,
}
use lltdresponder.Protocol.{opcode_discover, opcode_charge, opcode_hello}
use lltdresponder.Port.{Port}
use lltdresponder.Automata.Machine.{
  Automata, MappingState, BandState, switch_state_session, switch_state_enumeration, enum_hello,
  enum_new_session,
}
use lltdresponder.Automata.Machine.Session
use lltdresponder.Automata.Machine.Enumeration
use lltdresponder.Automata.Band.{
  band_init_stats, band_choose_hello_time, band_on_hello_received, mapping_on_charge,
  mapping_reset_inactive_timeout,
}
use lltdresponder.Automata.Band.Laws.{IsBand, band_on_hello_received-IsBand}
use lltdresponder.Automata.Tick.Keeps.{
  IsMapping, IsEnumeration, TableInv, TableInv-clear, clear-empty,
}
use lltdresponder.Daemon.Darwin.Steps.{Stored, NoSessions, switch_mapping-Switched}
use lltdresponder.Daemon.Darwin.{
  Interface, FrameClock, clear_sessions, update_mapping, update_timers, update_session,
  update_enumeration,
}

-- A session automaton in a phase of its diagram.
pub record IsSession (a : Automata (Unit {0})) : Type 0 where
  pub phase : Session.Phase
  pub ts : ℕ
  pub extra : Option (Unit {0})
  pub is : a ≡ Session.session_in phase ts extra

-- The automata are in phases of their diagrams, the table is in order, and it is empty whenever the
-- mapping automaton is quiescent.
pub record Good (i : Interface) : Type 0 where
  pub maps : IsMapping i.mapping
  pub session : IsSession i.session
  pub enumerates : IsEnumeration i.enumeration
  pub sessions : TableInv i.session_table
  pub quiet : i.mapping.current_state ≡ 0 → NoSessions i

-- Good, but for the sessions that a Discover may have added.
pub record AlmostGood (opcode : ℕ) (i : Interface) : Type 0 where
  pub maps : IsMapping i.mapping
  pub session : IsSession i.session
  pub enumerates : IsEnumeration i.enumeration
  pub sessions : TableInv i.session_table
  pub quiet : opcode ≢ opcode_discover → i.mapping.current_state ≡ 0 → NoSessions i

pub Stored-AlmostGood :
    (opcode : ℕ) (i j : Interface)
    → Good i
    → Stored i j
    → (opcode ≢ opcode_discover → NoSessions i → NoSessions j)
    → AlmostGood opcode j
Stored-AlmostGood opcode i j g s added = record {
  maps = subst IsMapping (sym s.mapping) g.maps;
  session = subst IsSession (sym s.session) g.session;
  enumerates = subst IsEnumeration (sym s.enumeration) g.enumerates;
  sessions = s.sessions;
  quiet = λ other z.
      added other
        (g.quiet (ap (λ (a : Automata MappingState). a.current_state) (sym s.mapping) ∙ z));
}

-- The readings of the clock for the switches: there are two for each, and those of the session
-- automaton are at most a second apart.
pub record Readings (clock : FrameClock) : Type 0 where
  pub mapping_a : ℕ
  pub mapping_b : ℕ
  pub mapping_rest : List ℕ
  pub mapping_is : clock.mapping_s ≡ mapping_a ∷ mapping_b ∷ mapping_rest
  pub session_a : ℕ
  pub session_b : ℕ
  pub session_rest : List ℕ
  pub session_is : clock.session_s ≡ session_a ∷ session_b ∷ session_rest
  pub session_soon : sub64 session_b session_a ≤ 1
  pub tick_a : ℕ
  pub tick_b : ℕ
  pub tick_rest : List ℕ
  pub tick_is : clock.tick.switch_s ≡ tick_a ∷ tick_b ∷ tick_rest

if-IsSession :
    (t : Bool) (a b : Automata (Unit {0}))
    → IsSession a
    → IsSession b
    → IsSession (if t then a else b)
if-IsSession true a b p q = p
if-IsSession false a b p q = q

if-IsEnumeration :
    (t : Bool) (a b : Automata BandState)
    → IsEnumeration a
    → IsEnumeration b
    → IsEnumeration (if t then a else b)
if-IsEnumeration true a b p q = p
if-IsEnumeration false a b p q = q

-- The band at the start of a session.
started-IsBand :
    (quiescent : Bool) (b : BandState) (init choose : ℕ)
    → IsBand b
    → IsBand (
        if quiescent
        then band_choose_hello_time (band_init_stats b init) choose
        else record b { begun = true })
unfolding band_choose_hello_time band_init_stats
started-IsBand true b init choose f = (omega arith, omega arith)
started-IsBand false b init choose f = f

-- A switch after a change of the band that keeps the band in its range.
switched-IsEnumeration :
    (e : Automata BandState) (i : ℤ) (now : ℕ) (f : BandState → BandState)
    → ((b : BandState) → IsBand b → IsBand (f b))
    → IsEnumeration e
    → IsEnumeration (switch_state_enumeration (record e { extra = Option.map f e.extra }) i now)
switched-IsEnumeration e i now f keeps g = record {
  phase = Enumeration.next g.phase i;
  ts = now;
  band = f g.band;
  is =
      ap
        (λ (a : Automata BandState).
          switch_state_enumeration (record a { extra = Option.map f a.extra }) i now)
        g.is
      ∙ Enumeration.switch_state_enumeration-next g.phase i g.ts now (some (f g.band));
  fine = keeps g.band g.fine;
}

module _ (p : Port) (clock : FrameClock) (frame : List ℕ) (readings : Readings clock) where
  settled :
      (opcode : ℕ) (i : Interface) (b : Automata MappingState) (t : Bool)
      → t ≡ (not (i.mapping.current_state == 0) && b.current_state == 0)
      → AlmostGood opcode i
      → IsMapping b
      → (opcode ≡ opcode_discover → i.mapping.current_state ≡ 0 → b.current_state ≢ 0)
      → Good (if t then clear_sessions (record i { mapping = b }) else record i { mapping = b })
  unfolding clear_sessions
  settled opcode i b true e g m leaves = record {
    maps = m;
    session = g.session;
    enumerates = g.enumerates;
    sessions = TableInv-clear i.session_table;
    quiet = λ z. clear-empty i.session_table;
  }
  settled opcode i b false e g m leaves = record {
    maps = m;
    session = g.session;
    enumerates = g.enumerates;
    sessions = g.sessions;
    quiet = λ z.
        let still : i.mapping.current_state ≡ 0 = ground (arith, e, z) in
        g.quiet (λ d. leaves d still z) still;
  }

  pub update_mapping-Good :
      (opcode : ℕ) (i : Interface)
      → AlmostGood opcode i
      → (j : Interface) × (update_mapping p clock frame opcode i ≡ some j) × Good j
  unfolding update_mapping
  update_mapping-Good opcode i g =
      let r = readings in
      let (b, e, m, leaves) =
        switch_mapping-Switched i.mapping opcode r.mapping_a r.mapping_b r.mapping_rest g.maps in
      let t = not (i.mapping.current_state == 0) && b.current_state == 0 in
      (
        if t then clear_sessions (record i { mapping = b }) else record i { mapping = b },
        rw (r.mapping_is, e) refl,
        settled opcode i b t refl g m leaves,
      )

  pub update_timers-Good :
      (opcode : ℕ) (i : Interface) → Good i → Good (update_timers p clock frame opcode i)
  unfolding update_timers
  update_timers-Good opcode i g = record {
    maps = record {
      phase = g.maps.phase;
      ts = g.maps.ts;
      extra =
          let m = mapping_reset_inactive_timeout g.maps.extra clock.inactive_s in
          if opcode == opcode_charge then mapping_on_charge m clock.charge_s else m;
      is =
          ap
            (λ (a : Automata MappingState).
              (update_timers p clock frame opcode (record i { mapping = a })).mapping)
            g.maps.is;
    };
    session = g.session;
    enumerates = g.enumerates;
    sessions = g.sessions;
    quiet = g.quiet;
  }

  pub update_session-Good :
      (event : ℤ) (i : Interface)
      → Good i
      → (j : Interface) × (update_session p clock frame event i ≡ some j) × Good j
  unfolding update_session
  update_session-Good (negsuc n) i g = (i, refl, g)
  update_session-Good (pos n) i g =
      let r = readings in
      let h = g.session in
      let late = ltb 1 (sub64 r.session_a h.ts) in
      let b =
        if late
        then Session.session_in Session.nascent r.session_b h.extra
        else Session.session_in (Session.next h.phase (pos n)) r.session_a h.extra in
      let steps =
        ap
          (λ (a : Automata (Unit {0})).
            switch_state_session a (pos n) (r.session_a ∷ r.session_b ∷ r.session_rest))
          h.is
        ∙ Session.switch_state_session-next h.phase (pos n) h.ts r.session_a r.session_b
            r.session_rest h.extra r.session_soon in
      (
        record i { session = b },
        rw (r.session_is, steps) refl,
        record {
          maps = g.maps;
          session =
              if-IsSession late _ _
                (record { phase = Session.nascent; ts = r.session_b; extra = h.extra; is = refl })
                (record {
                  phase = Session.next h.phase (pos n);
                  ts = r.session_a;
                  extra = h.extra;
                  is = refl;
                });
          enumerates = g.enumerates;
          sessions = g.sessions;
          quiet = g.quiet;
        },
      )

  pub update_enumeration-IsEnumeration :
      (opcode : ℕ) (e : Automata BandState)
      → IsEnumeration e
      → IsEnumeration (update_enumeration p clock frame opcode e)
  unfolding update_enumeration
  update_enumeration-IsEnumeration opcode e g =
      if-IsEnumeration (opcode == opcode_hello) _ _
        (switched-IsEnumeration e (pos enum_hello) clock.enumeration_s band_on_hello_received
          band_on_hello_received-IsBand g)
        (if-IsEnumeration (opcode == opcode_discover) _ _
          (switched-IsEnumeration e (pos enum_new_session) clock.enumeration_s
            (λ b.
              if e.current_state == 0
              then band_choose_hello_time (band_init_stats b clock.init_ms) clock.choose_ms
              else record b { begun = true })
            (λ b f. started-IsBand (e.current_state == 0) b clock.init_ms clock.choose_ms f) g)
          g)
