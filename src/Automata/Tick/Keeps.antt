-- ===== src/Automata/Tick/Keeps.antt =====
-- `automata_tick` of lltdResponder/lltdAutomata.c: what a tick leaves of the automata, the band and
-- the session table.
use mathlib.Core.Option
use mathlib.Core.Option.{some-injective}
use mathlib.Core.Path.{subst}
use lltdresponder.Base.{
  ℕ, ◌≡◌, refl, sym, ap, ◌∙◌, ◌==◌, inl, inr, Bool, true, false, if◌then◌else◌, Option, none, some,
  List, [], ◌∷◌, ℤ, pos, arith, Bool-cases, ltb, leb, not, ◌&&◌, u64, sub64, ◌+◌,
}
use lltdresponder.Automata.Machine.{
  Automata, MappingState, BandState, switch_state_enumeration, enum_hello,
}
use lltdresponder.Automata.Machine.Mapping
use lltdresponder.Automata.Machine.Enumeration
use lltdresponder.Automata.Sessions.{
  SessionEntry, SessionTable, expire_sessions, expire, session_table_clear, session_table_is_empty,
  session_table_update_complete_status,
}
use lltdresponder.Automata.Sessions.Invariant.{Inv, session_table_clear-Inv, expire_sessions-Inv}
use lltdresponder.Automata.Band.{
  hello_min_interval_ms, mapping_check_inactive_timeout, mapping_check_charge_timeout,
  mapping_reset_charge, band_do_hello, band_choose_hello_time,
}
use lltdresponder.Automata.Band.Laws.{IsBand, band_update_stats-IsBand}
use lltdresponder.Automata.Tick
use lltdresponder.Automata.Tick.{
  last_tx, can_send, stamp, TickClock, TickPort, TickResult, tick_status, tick_hello, tick_block,
  tick_pausing, tick_band, tick_enumeration, tick_inactive, tick_charge, tick_mapping,
  automata_tick,
}
use lltdresponder.Automata.Tick.Phases.{charge_fires, band_empty}

-- A mapping automaton in a phase of its diagram, with its data.
pub record IsMapping (a : Automata MappingState) : Type 0 where
  pub phase : Mapping.Phase
  pub ts : ℕ
  pub extra : MappingState
  pub is : a ≡ Mapping.mapping_in phase ts (some extra)

-- An enumeration automaton in a phase of its diagram, with a band in its range.
pub record IsEnumeration (a : Automata BandState) : Type 0 where
  pub phase : Enumeration.Phase
  pub ts : ℕ
  pub band : BandState
  pub is : a ≡ Enumeration.enumeration_in phase ts (some band)
  pub fine : IsBand band

abbrev pub TableInv : Option SessionTable → Type 0
TableInv none = Unit {0}
TableInv (some t) = Inv t

pub TableInv-clear : (o : Option SessionTable) → TableInv (Option.map session_table_clear o)
TableInv-clear none = tt
TableInv-clear (some t) = session_table_clear-Inv t

pub clear-empty :
    (o : Option SessionTable) → session_table_is_empty (Option.map session_table_clear o) ≡ true
unfolding session_table_is_empty session_table_clear
clear-empty none = refl
clear-empty (some t) = refl

TableInv-expire :
    (now : ℕ) (o : Option SessionTable) → TableInv o → TableInv (Option.map (expire_sessions now) o)
TableInv-expire now none v = tt
TableInv-expire now (some t) v = expire_sessions-Inv now t v

-- No session is left if there was none.
expire_none : (now : ℕ) (es : List SessionEntry) → (expire now 0 es).0 ≡ 0
unfolding expire
expire_none now [] = refl
expire_none now (e ∷ es) = ground (arith, expire_none now es)

expire-empty :
    (now : ℕ) (o : Option SessionTable)
    → session_table_is_empty o ≡ true
    → session_table_is_empty (Option.map (expire_sessions now) o) ≡ true
unfolding session_table_is_empty expire_sessions session_table_update_complete_status
expire-empty now none h = refl
expire-empty now (some t) h =
    let none_there : t.count ≡ 0 = ground (arith, h) in
    let gone : (expire_sessions now t).count ≡ 0 = rw none_there (expire_none now t.entries) in
    rw gone refl

-- What the mapping block of a tick returns.
record MappingBlock (result : Option (Option (Automata MappingState) × Option SessionTable))
    : Type 0 where
  automaton : Automata MappingState
  table : Option SessionTable
  returns : result ≡ some (some automaton, table)
  mapping : IsMapping automaton
  sessions : TableInv table
  quiet : automaton.current_state ≡ 0 → session_table_is_empty table ≡ true

module _ (clock : TickClock) (a b : ℕ) (rest : List ℕ)
    (readings : clock.switch_s ≡ a ∷ b ∷ rest) where
  charge_block :
      (phase : Mapping.Phase) (ts : ℕ) (m : MappingState) (o : Option SessionTable)
      → TableInv o
      → (Mapping.code phase ≡ 0 → session_table_is_empty o ≡ true)
      → MappingBlock (tick_charge clock (Mapping.mapping_in phase ts (some m)) (some m) o)
  unfolding tick_charge tick_inactive
  charge_block phase ts m o v q =
      elim (Bool-cases (mapping_check_inactive_timeout m clock.inactive_s)) [
        | inl h ↦
            let (at, e) = charge_fires clock a b rest readings phase ts (some m) m o h in
            record {
              automaton =
                  Mapping.mapping_in Mapping.quiescent at
                    (some (mapping_reset_charge (record m { inactive_timeout_ts = 0 })));
              table = Option.map session_table_clear o;
              returns = e;
              mapping = record { phase = Mapping.quiescent; ts = at; extra = _; is = refl };
              sessions = TableInv-clear o;
              quiet = λ z. clear-empty o;
            }
        | inr h ↦
            let m' : MappingState = (mapping_check_charge_timeout m clock.charge_s).0 in
            record {
              automaton = Mapping.mapping_in phase ts (some m');
              table = o;
              returns = rw h refl;
              mapping = record { phase = phase; ts = ts; extra = m'; is = refl };
              sessions = v;
              quiet = q;
            }
      ]

  mapping_block :
      (x : Automata MappingState) (o : Option SessionTable)
      → IsMapping x
      → TableInv o
      → (x.current_state ≡ 0 → session_table_is_empty o ≡ true)
      → MappingBlock (tick_mapping clock (some x) o)
  unfolding tick_mapping
  mapping_block x o m v q =
      subst (λ (y : Automata MappingState). MappingBlock (tick_mapping clock (some y) o)) (sym m.is)
        (charge_block m.phase m.ts m.extra o v
          (λ z. q (ap (λ (y : Automata MappingState). y.current_state) m.is ∙ z)))

-- The automaton and the band in the middle of a tick.
record Fine (s : Tick.Enumeration) : Type 0 where
  phase : Enumeration.Phase
  ts : ℕ
  extra : Option BandState
  is : s.automaton ≡ Enumeration.enumeration_in phase ts extra
  fine : IsBand s.band

if_Fine : {a b : Tick.Enumeration} (t : Bool) → Fine a → Fine b → Fine (if t then a else b)
if_Fine true p q = p
if_Fine false p q = q

if-IsBand : (t : Bool) (a b : BandState) → IsBand a → IsBand b → IsBand (if t then a else b)
if-IsBand true a b p q = p
if-IsBand false a b p q = q

switch_Fine :
    (s : Tick.Enumeration) (i : ℤ) (now : ℕ) (band : BandState) (port : Option TickPort)
    (hello : Bool)
    → Fine s
    → IsBand band
    → Fine (record {
      automaton = switch_state_enumeration s.automaton i now;
      band = band;
      port = port;
      hello_sent = hello;
    })
switch_Fine s i now band port hello f b = record {
  phase = Enumeration.next f.phase i;
  ts = now;
  extra = f.extra;
  is =
      ap (λ (a : Automata BandState). switch_state_enumeration a i now) f.is
      ∙ Enumeration.switch_state_enumeration-next f.phase i f.ts now f.extra;
  fine = b;
}

module _ (clock : TickClock) where
  status_Fine :
      (e : Automata BandState) (band : BandState) (o : Option SessionTable)
      (phase : Enumeration.Phase) (ts : ℕ) (x : Option BandState)
      → e ≡ Enumeration.enumeration_in phase ts x
      → IsBand band
      → Fine (tick_status clock o e band)
  unfolding tick_status
  status_Fine e band o phase ts x is f =
      let now : Fine (record { automaton = e; band = band; port = none; hello_sent = false }) =
        record { phase = phase; ts = ts; extra = x; is = is; fine = f } in
      if_Fine (e.current_state == 0) now (
        if_Fine (session_table_is_empty o)
          (record {
            phase = Enumeration.quiescent;
            ts = ts;
            extra = x;
            is = ap (λ (a : Automata BandState). record a { current_state = 0 }) is;
            fine = f;
          })
          (switch_Fine _ _ clock.status_s band none false now f))

  hello_Fine : (s : Tick.Enumeration) → Fine s → Fine (tick_hello clock s)
  unfolding tick_hello band_do_hello band_choose_hello_time
  hello_Fine s f =
      let band = band_do_hello s.band clock.choose_ms in
      let earliest = u64 (clock.now_ms + hello_min_interval_ms) in
      if_Fine (not (ltb 0 s.band.hello_timeout_ts && leb s.band.hello_timeout_ts clock.now_ms)) f (
        if_Fine
          (ltb 0 (last_tx s.port)
            && ltb (sub64 clock.now_ms (last_tx s.port)) hello_min_interval_ms)
          (record { phase = f.phase; ts = f.ts; extra = f.extra; is = f.is; fine = f.fine })
          (switch_Fine s (pos enum_hello) clock.hello_s
            (if ltb band.hello_timeout_ts earliest
              then record band { hello_timeout_ts = earliest }
              else band)
            (if can_send s.port then Option.map (stamp clock.now_ms) s.port else s.port)
            (can_send s.port) f
            (if-IsBand (ltb band.hello_timeout_ts earliest)
              (record band { hello_timeout_ts = earliest }) band f.fine f.fine)))

  block_Fine : (s : Tick.Enumeration) → Fine s → Fine (tick_block clock s)
  unfolding tick_block band_choose_hello_time
  block_Fine s f =
      if_Fine _
        (record {
          phase = f.phase;
          ts = f.ts;
          extra = f.extra;
          is = f.is;
          fine = band_update_stats-IsBand s.band clock.stats_ms f.fine;
        })
        f

  pausing_Fine : (s : Tick.Enumeration) → Fine s → Fine (tick_pausing clock s)
  unfolding tick_pausing
  pausing_Fine s f = if_Fine (s.automaton.current_state == 1) (block_Fine _ (hello_Fine s f)) f

-- What the last block of a tick returns.
record BandBlock (o : Option SessionTable)
    (result : Option (Automata BandState) × Option TickPort × Bool) : Type 0 where
  automaton : Automata BandState
  port : Option TickPort
  hello : Bool
  returns : result ≡ (some automaton, port, hello)
  enumeration : IsEnumeration automaton
  idle : session_table_is_empty o ≡ true → automaton.current_state ≡ 0
  silent : session_table_is_empty o ≡ true → hello ≡ false

module _ (clock : TickClock) (a b : ℕ) (rest : List ℕ)
    (readings : clock.switch_s ≡ a ∷ b ∷ rest) where
  tick_band_block :
      (phase : Enumeration.Phase) (ts : ℕ) (band : BandState) (o : Option SessionTable)
      (port : Option TickPort)
      → IsBand band
      → BandBlock o
          (tick_band clock (Enumeration.enumeration_in phase ts (some band)) (some band) o port)
  unfolding tick_band
  tick_band_block phase ts band o port f =
      let e = Enumeration.enumeration_in phase ts (some band) in
      let s0 : Tick.Enumeration = record (tick_status clock o e band) { port = port } in
      let began = status_Fine clock e band o phase ts (some band) refl f in
      let s : Tick.Enumeration = tick_pausing clock s0 in
      let ended : Fine s = pausing_Fine clock s0 (record {
        phase = began.phase;
        ts = began.ts;
        extra = began.extra;
        is = began.is;
        fine = began.fine;
      }) in
      let quiet = band_empty clock a b rest readings e band o port in
      record {
        automaton = record s.automaton { extra = some s.band };
        port = s.port;
        hello = s.hello_sent;
        returns = refl;
        enumeration = record {
          phase = ended.phase;
          ts = ended.ts;
          band = s.band;
          is = ap (λ (x : Automata BandState). record x { extra = some s.band }) ended.is;
          fine = ended.fine;
        };
        idle = λ h. some-injective _ _ (quiet h).0;
        silent = λ h. (quiet h).2;
      }

  band_block :
      (e : Automata BandState) (o : Option SessionTable) (port : Option TickPort)
      → IsEnumeration e
      → BandBlock o (tick_enumeration clock (some e) o port)
  unfolding tick_enumeration
  band_block e o port h =
      subst (λ (x : Automata BandState). BandBlock o (tick_enumeration clock (some x) o port))
        (sym h.is) (tick_band_block h.phase h.ts h.band o port h.fine)

  -- A tick, of an interface whose table is empty whenever its mapping automaton is quiescent, returns,
  -- and keeps all that; and if the table is empty afterwards, the enumeration automaton is quiescent
  -- and no Hello was sent.
  pub record TickKeeps (result : Option TickResult) : Type 0 where
    pub mapping : Automata MappingState
    pub enumeration : Automata BandState
    pub table : Option SessionTable
    pub port : Option TickPort
    pub hello : Bool
    pub returns :
        result
        ≡ some (record {
          mapping = some mapping;
          enumeration = some enumeration;
          sessions = table;
          port = port;
          hello_sent = hello;
        })
    pub maps : IsMapping mapping
    pub enumerates : IsEnumeration enumeration
    pub sessions : TableInv table
    pub quiet : mapping.current_state ≡ 0 → session_table_is_empty table ≡ true
    pub idle : session_table_is_empty table ≡ true → enumeration.current_state ≡ 0
    pub silent : session_table_is_empty table ≡ true → hello ≡ false

  pub automata_tick-Keeps :
      (m : Automata MappingState) (e : Automata BandState) (o : Option SessionTable)
      (port : Option TickPort)
      → IsMapping m
      → IsEnumeration e
      → TableInv o
      → (m.current_state ≡ 0 → session_table_is_empty o ≡ true)
      → TickKeeps (automata_tick clock (some m) (some e) o port)
  unfolding automata_tick
  automata_tick-Keeps m e o port hm he v q =
      let first = mapping_block clock a b rest readings m o hm v q in
      let expired = Option.map (expire_sessions clock.now_s) first.table in
      let last = band_block e expired port he in
      record {
        mapping = first.automaton;
        enumeration = last.automaton;
        table = expired;
        port = last.port;
        hello = last.hello;
        returns = rw (first.returns, last.returns) refl;
        maps = first.mapping;
        enumerates = last.enumeration;
        sessions = TableInv-expire clock.now_s first.table first.sessions;
        quiet = λ z. expire-empty clock.now_s first.table (first.quiet z);
        idle = last.idle;
        silent = last.silent;
      }
