-- ===== src/Automata/Band.antt =====
-- The RepeatBand statistics and the charge counter of lltdResponder/lltdAutomata.c. `now` is the
-- clock reading that the function takes, in milliseconds for the band and in seconds for the charge.
pub mod Laws
use lltdresponder.Base.{
  ℕ, ◌+◌, ◌*◌, ◌/◌, ◌%◌, ◌==◌, ltb, leb, if◌then◌else◌, Bool, true, false, ◌&&◌, not, u8, u32, u64,
}
use lltdresponder.Automata.Machine.{BandState, MappingState, band_alpha}

abbrev pub band_nmax : ℕ
band_nmax = 10000

abbrev pub band_gamma : ℕ
band_gamma = 10

abbrev pub band_txc : ℕ
band_txc = 4

abbrev pub band_block_time : ℕ
band_block_time = 300

abbrev pub hello_min_interval_ms : ℕ
hello_min_interval_ms = 1000

abbrev pub band_mul_frame : ℕ → ℕ
band_mul_frame x = x * 20 / 3

unfoldable pub band_init_stats : BandState → ℕ → BandState
band_init_stats band now = record {
  ni = band_alpha;
  r = 0;
  begun = false;
  hello_timeout_ts = 0;
  block_timeout_ts = u64 (now + band_block_time);
}

-- `r_pow_beta` and `new_ni` are uint32_t; BAND_BETA is 2, so the loop runs once.
abbrev pub new_ni : ℕ → ℕ
new_ni r = u32 (band_alpha * u32 (r * r))

unfoldable pub band_update_stats : BandState → ℕ → BandState
band_update_stats band now = record band {
  ni =
      if ltb 0 band.r && band.begun
      then (if ltb band_nmax (new_ni band.r) then band_nmax else new_ni band.r)
      else band.ni;
  r = 0;
  block_timeout_ts = u64 (now + band_block_time);
}

-- The interval until the next Hello, rounded up, and at least one frame.
unfoldable pub hello_interval : ℕ → ℕ
hello_interval ni =
    let numerator = u64 (u64 (band_txc * ni) * 20) in
    let denominator = band_gamma * 3 in
    let up =
      if not (numerator % denominator == 0)
      then numerator / denominator + 1
      else numerator / denominator in
    if ltb up (band_mul_frame 1) then band_mul_frame 1 else up

-- The function also returns the new `hello_timeout_ts`.
unfoldable pub band_choose_hello_time : BandState → ℕ → BandState
unfolding hello_interval
band_choose_hello_time band now = record band {
  hello_timeout_ts = u64 (now + hello_interval band.ni);
}

unfoldable pub band_do_hello : BandState → ℕ → BandState
unfolding band_choose_hello_time
band_do_hello band now = record (band_choose_hello_time band now) { begun = true }

unfoldable pub band_on_hello_received : BandState → BandState
band_on_hello_received band =
    let r = u32 (band.r + 1) in
    record band { r = r; begun = if leb band_gamma r && not band.begun then true else band.begun }

unfoldable pub mapping_reset_charge : MappingState → MappingState
mapping_reset_charge m = record m { ctc = 0; charge_timeout_ts = 0 }

unfoldable pub mapping_on_charge : MappingState → ℕ → MappingState
mapping_on_charge m now = record m { ctc = u8 (m.ctc + 1); charge_timeout_ts = u64 (now + 1) }

-- The state afterwards, and whether the timeout fired.
unfoldable pub mapping_check_charge_timeout : MappingState → ℕ → MappingState × Bool
mapping_check_charge_timeout m now =
    if m.charge_timeout_ts == 0
    then (m, false)
    else (if leb m.charge_timeout_ts now
        then (record m { ctc = 0; charge_timeout_ts = 0 }, true)
        else (m, false))

unfoldable pub mapping_check_inactive_timeout : MappingState → ℕ → Bool
mapping_check_inactive_timeout m now =
    if m.inactive_timeout_ts == 0 then false else leb m.inactive_timeout_ts now

unfoldable pub mapping_reset_inactive_timeout : MappingState → ℕ → MappingState
mapping_reset_inactive_timeout m now = record m { inactive_timeout_ts = u64 (now + 30) }
