-- ===== src/Automata/Tick/Phases.antt =====
-- `automata_tick` as a whole: it returns, and an inactive mapper ends everything.
use mathlib.Core.Option
use lltdresponder.Base.{
  ℕ, ◌≡◌, refl, ◌∙◌, inl, inr, true, false, Option, some, List, ◌∷◌, negsuc, arith, Bool-cases,
  sub64,
}
use lltdresponder.Automata.Machine.{Automata, MappingState, BandState, switch_state_mapping}
use lltdresponder.Automata.Machine.Mapping.{
  Phase, quiescent, next-inactive, expired, mapping_in, switch_state_mapping-next,
}
use lltdresponder.Automata.Sessions.{
  SessionTable, expire_sessions, expire, session_table_clear, session_table_is_empty,
  session_table_update_complete_status,
}
use lltdresponder.Automata.Band.{
  mapping_check_inactive_timeout, mapping_check_charge_timeout, mapping_reset_charge,
}
use lltdresponder.Automata.Tick.{
  TickClock, TickPort, TickResult, tick_status, tick_pausing, tick_band, tick_enumeration,
  tick_inactive, tick_charge, tick_mapping, automata_tick,
}

-- The number of the state of an automaton that is there.
abbrev pub state_of : {X : Type 0} → Option (Automata X) → Option ℕ
state_of a = Option.map (λ a. a.current_state) a

-- A switch on the inactive timeout ends in the quiescent phase.
switch_inactive :
    (phase : Phase) (ts now later : ℕ) (rest : List ℕ) (extra : Option MappingState)
    → (at : ℕ) × (switch_state_mapping (mapping_in phase ts extra) (negsuc 0) (now ∷ later ∷ rest)
        ≡ some (mapping_in quiescent at extra))
switch_inactive phase ts now later rest extra = elim (Bool-cases (expired phase (sub64 now ts))) [
  | inl e ↦ (later, switch_state_mapping-next phase (negsuc 0) ts now later rest extra ∙ rw e)
  | inr e ↦ (
    now,
    switch_state_mapping-next phase (negsuc 0) ts now later rest extra
        ∙ rw (e, next-inactive phase),
  )
]

module _ (clock : TickClock) (a b : ℕ) (rest : List ℕ)
    (readings : clock.switch_s ≡ a ∷ b ∷ rest) where
  pub inactive_fires :
      (phase : Phase) (ts : ℕ) (extra : Option MappingState) (m : MappingState)
      (sessions : Option SessionTable)
      → mapping_check_inactive_timeout m clock.inactive_s ≡ true
      → (at : ℕ) × (tick_inactive clock (mapping_in phase ts extra) m sessions
          ≡ some (
            mapping_in quiescent at extra,
            mapping_reset_charge (record m { inactive_timeout_ts = 0 }),
            Option.map session_table_clear sessions,
          ))
  unfolding tick_inactive
  inactive_fires phase ts extra m sessions h =
      let (at, e) = switch_inactive phase ts a b rest extra in (at, rw (h, readings, e))

  -- An empty table takes the enumeration automaton to its first state, and nothing is sent.
  pub band_empty :
      (enumeration : Automata BandState) (band : BandState) (sessions : Option SessionTable)
      (port : Option TickPort)
      → session_table_is_empty sessions ≡ true
      → let (e, port', sent) = tick_band clock enumeration (some band) sessions port in
        (state_of e ≡ some 0) × (port' ≡ port) × (sent ≡ false)
  unfolding tick_band tick_status tick_pausing
  band_empty enumeration band sessions port h = ground arith

  pub charge_fires :
      (phase : Phase) (ts : ℕ) (extra : Option MappingState) (m : MappingState)
      (sessions : Option SessionTable)
      → mapping_check_inactive_timeout m clock.inactive_s ≡ true
      → (at : ℕ) × (tick_charge clock (mapping_in phase ts extra) (some m) sessions
          ≡ some (
            some (
                mapping_in quiescent at
                  (some (mapping_reset_charge (record m { inactive_timeout_ts = 0 })))),
            Option.map session_table_clear sessions,
          ))
  unfolding tick_charge mapping_reset_charge mapping_check_charge_timeout
  charge_fires phase ts extra m sessions h =
      let (at, e) = inactive_fires phase ts extra m sessions h in (at, rw e)

  -- A cleared table stays empty when its sessions are expired.
  cleared_empty :
      (t : SessionTable)
      → session_table_is_empty (some (expire_sessions clock.now_s (session_table_clear t))) ≡ true
  unfolding session_table_is_empty expire_sessions expire session_table_clear
      session_table_update_complete_status
  cleared_empty t = refl

  -- When the mapper has been inactive for too long, the enumeration automaton has its data and
  -- there are two readings of the clock for the switch, one tick returns and ends everything:
  -- the mapping automaton and the enumeration automaton are quiescent, the session table is
  -- empty, no Hello is sent and the port is as before.
  pub automata_tick_inactive :
      (phase : Phase) (ts : ℕ) (m : MappingState) (enumeration : Automata BandState)
      (band : BandState) (t : SessionTable) (port : Option TickPort)
      → mapping_check_inactive_timeout m clock.inactive_s ≡ true
      → enumeration.extra ≡ some band
      → (r : TickResult) × (automata_tick clock
            (some (mapping_in phase ts (some m)))
            (some enumeration)
            (some t)
            port
          ≡ some r)
        × (state_of r.mapping ≡ some 0)
        × (session_table_is_empty r.sessions ≡ true)
        × (state_of r.enumeration ≡ some 0)
        × (r.hello_sent ≡ false)
        × (r.port ≡ port)
  unfolding automata_tick tick_mapping tick_enumeration
  automata_tick_inactive phase ts m enumeration band t port h x =
      let (at, e) = charge_fires phase ts (some m) m (some t) h in
      let expired : SessionTable = expire_sessions clock.now_s (session_table_clear t) in
      let quiet = band_empty enumeration band (some expired) port (cleared_empty t) in
      let (e', port', sent) = tick_band clock enumeration (some band) (some expired) port in
      (
        record {
          mapping = some (
              mapping_in quiescent at
                (some (mapping_reset_charge (record m { inactive_timeout_ts = 0 }))));
          enumeration = e';
          sessions = some expired;
          port = port';
          hello_sent = sent;
        },
        rw (e, x),
        refl,
        cleared_empty t,
        quiet.0,
        quiet.2,
        quiet.1,
      )
