-- ===== src/Time/Launch.antt =====
-- The launch times of the frames of a cycle.
use rtc_testbench.Base.{ℕ, ◌+◌, ◌-◌, ◌*◌, ◌/◌, ◌%◌, ◌^◌, ◌≤◌, ◌<◌, ◌≡◌, ap, false, arith, sub64}
use native.Mathlib.Nat.{div-add-mod', mod-lt}
use rtc_testbench.Types.{AppConfig}
use rtc_testbench.Time.{next_base_time, get_frame_tx_time}

-- The next cycle starts after `now`, at most a cycle later, and on the schedule's grid.
next_base_time_lem :
    (app : AppConfig) (now : ℕ)
    → 0 < app.base_cycle_time_ns
    → app.base_start_time_ns ≤ now
    → now + app.base_cycle_time_ns < 2 ^ 64
    → (now < next_base_time app now)
      × (next_base_time app now ≤ now + app.base_cycle_time_ns)
      × (next_base_time app now
          ≡ ((now - app.base_start_time_ns) / app.base_cycle_time_ns + 1) * app.base_cycle_time_ns
            + app.base_start_time_ns)
unfolding next_base_time
next_base_time_lem app now hc hs ho =
    omega (arith, passed, cut, grid, mod-lt (now - app.base_start_time_ns) hc)
  where
    passed : sub64 now app.base_start_time_ns ≡ now - app.base_start_time_ns
    passed = omega arith

    cut :
        sub64 now app.base_start_time_ns / app.base_cycle_time_ns * app.base_cycle_time_ns
        ≡ (now - app.base_start_time_ns) / app.base_cycle_time_ns * app.base_cycle_time_ns
    cut = ap (λ (t : ℕ). t / app.base_cycle_time_ns * app.base_cycle_time_ns) passed

    grid :
        (now - app.base_start_time_ns) / app.base_cycle_time_ns * app.base_cycle_time_ns
          + (now - app.base_start_time_ns) % app.base_cycle_time_ns
        ≡ now - app.base_start_time_ns
    grid = div-add-mod' (now - app.base_start_time_ns) app.base_cycle_time_ns

-- If the cycle time and the number of frames are not 0, the base time is not ahead and nothing exceeds 64 bits, the launch
-- time lies in the future and the log stays silent: it is the start of the next cycle, at most a
-- cycle away, plus the offset in the cycle and a frame's duration for each earlier frame of it.
pub get_frame_tx_time_lem :
    (app : AppConfig) (now seq duration n offset : ℕ)
    → 0 < app.base_cycle_time_ns
    → 0 < n
    → app.base_start_time_ns ≤ now
    → now + app.base_cycle_time_ns + offset + (seq % n) * duration < 2 ^ 64
    → let base =
        ((now - app.base_start_time_ns) / app.base_cycle_time_ns + 1) * app.base_cycle_time_ns
        + app.base_start_time_ns in
      let (tx_time, late) = get_frame_tx_time app now seq duration n offset in
      (tx_time ≡ base + offset + (seq % n) * duration)
      × (now < tx_time)
      × (late ≡ false)
      × (base ≤ now + app.base_cycle_time_ns)
unfolding get_frame_tx_time
get_frame_tx_time_lem app now seq duration n offset hc hn hs ho =
    let b = next_base_time_lem app now hc hs (omega arith) in
    (omega (arith, b), omega (arith, b), ground (arith, b), omega (arith, b))
