-- ===== src/Automata/Band/Laws.antt =====
-- The RepeatBand timer and the charge counter: exact intervals, bounds, and where they wrap.
use lltdresponder.Base.{
  ℕ, ◌+◌, ◌-◌, ◌*◌, ◌^◌, ◌≤◌, ◌<◌, ◌≡◌, ◌↔◌, ltb, min, if◌then◌else◌, true, false, arith,
}
use lltdresponder.Automata.Machine.{BandState, MappingState}
use lltdresponder.Automata.Band.{
  hello_interval, band_choose_hello_time, band_update_stats, band_on_hello_received,
  mapping_on_charge, mapping_check_charge_timeout, mapping_reset_charge,
}

-- A band whose count is in the range of the algorithm.
abbrev pub IsBand : BandState → Type 0
IsBand b = (b.ni ≤ 10000) × (b.r < 2 ^ 32)

-- For a count of at most 10000, a number of milliseconds is no less than the interval before the
-- next Hello exactly if it is at least 6 and covers `ni` frames of 20/3 ms for each of the four
-- stations over gamma.
pub hello_interval-least :
    (ni m : ℕ) → ni ≤ 10000 → (hello_interval ni ≤ m) ↔ ((6 ≤ m) × (80 * ni ≤ 30 * m))
unfolding hello_interval
hello_interval-least ni m h = (λ e. ground arith, λ e. ground arith)

square_le : (r m : ℕ) → r ≤ m → r * r ≤ m * m
square_le r m h = grind arith

-- When the statistics are updated after at least one and at most 9769 Hellos in a block that has
-- begun, the new count is 45 times the square of their number, and at most 10000.
pub band_update_stats-ni :
    (band : BandState) (now : ℕ)
    → 0 < band.r
    → band.r ≤ 9769
    → band.begun ≡ true
    → (band_update_stats band now).ni ≡ min 10000 (45 * (band.r * band.r))
unfolding band_update_stats
band_update_stats-ni band now pos few begun = ground (arith, square_le band.r 9769 few)

-- When the number of Hellos in a block that has begun is a positive multiple of 65536, its
-- 32-bit square is 0, and so is the new count.
pub band_update_stats_wraps :
    (band : BandState) (now k : ℕ)
    → band.r ≡ 65536 * k
    → 0 < k
    → band.begun ≡ true
    → (band_update_stats band now).ni ≡ 0
unfolding band_update_stats
band_update_stats_wraps band now k e pos begun =
    let square : band.r * band.r ≡ (k * k) * 4294967296 = rw e (omega arith) in
    ground (arith, square)

-- Every operation of the band keeps the count in its range.
pub band_update_stats-IsBand :
    (b : BandState) (now : ℕ) → IsBand b → IsBand (band_update_stats b now)
unfolding band_update_stats
band_update_stats-IsBand b now h = ground arith

pub band_on_hello_received-IsBand : (b : BandState) → IsBand b → IsBand (band_on_hello_received b)
unfolding band_on_hello_received
band_on_hello_received-IsBand b h = ground arith

-- For a band in the range of the algorithm and a clock below 2^63, the next Hello is due at
-- least 6 ms and at most 26667 ms after the reading of the clock, and the interval covers the
-- count.
pub band_choose_hello_time_bounds :
    (b : BandState) (now : ℕ)
    → IsBand b
    → now < 2 ^ 63
    → let t = (band_choose_hello_time b now).hello_timeout_ts in
      (now + 6 ≤ t) × (t ≤ now + 26667) × (80 * b.ni ≤ 30 * (t - now))
unfolding band_choose_hello_time
band_choose_hello_time_bounds b now h small =
    let interval = hello_interval b.ni in
    let exact = (hello_interval-least b.ni interval h.0).0 (omega arith) in
    let most = (hello_interval-least b.ni 26667 h.0).1 (omega arith, omega (arith, h.0)) in
    omega (arith, exact.0, exact.1, most)

-- After a charge, with a clock below 2^63, the check of the timeout changes nothing as long as
-- less than a second has passed, and then resets the counter and says so.
pub charge_expires :
    (m : MappingState) (now later : ℕ)
    → now < 2 ^ 63
    → mapping_check_charge_timeout (mapping_on_charge m now) later ≡ (
        if ltb later (now + 1)
        then (mapping_on_charge m now, false)
        else (mapping_reset_charge m, true))
unfolding mapping_check_charge_timeout mapping_on_charge mapping_reset_charge
charge_expires m now later small = ground arith
