-- ===== src/Time.antt =====
-- Time: `struct timespec` and the helpers of src/utils.c and src/utils.h, and the launch time of
-- src/tx_time.c. Times are not negative; `none` is a loop that does not end within its fuel, a
-- division by zero, or a signed overflow.
pub mod Period
pub mod Launch
use rtc_testbench.Base.{
  ℕ, zero, suc, ◌+◌, ◌-◌, ◌*◌, ◌/◌, ◌%◌, ◌^◌, Bool, Option, none, some, ltb, leb, ◌==◌,
  if◌then◌else◌, u64, sub64,
}
use rtc_testbench.Types.{AppConfig}

abbrev pub nsec_per_sec : ℕ
nsec_per_sec = 1000000000

pub record Timespec : Type 0 where
  pub tv_sec : ℕ
  pub tv_nsec : ℕ

unfoldable pub ns_to_ts : ℕ → Timespec
ns_to_ts ns = record { tv_sec = ns / nsec_per_sec; tv_nsec = ns % nsec_per_sec }

unfoldable pub ts_to_ns : Timespec → ℕ
ts_to_ns ts = ts.tv_sec * nsec_per_sec + ts.tv_nsec

-- The loop of `increment_period`.
unfoldable pub carry : ℕ → Timespec → Option Timespec
carry zero t = none
carry (suc fuel) t =
    let rest = carry fuel (record { tv_sec = t.tv_sec + 1; tv_nsec = t.tv_nsec - nsec_per_sec }) in
    if leb nsec_per_sec t.tv_nsec then rest else some t

-- increment_period; `none` also if the sum of the nanoseconds leaves int64_t, which is undefined. The
-- seconds, of which there are 2 ^ 63, are taken not to run out.
unfoldable pub increment_period : ℕ → Timespec → ℕ → Option Timespec
increment_period fuel t period_ns =
    let moved = carry fuel (record t { tv_nsec = t.tv_nsec + period_ns }) in
    if ltb (t.tv_nsec + period_ns) (2 ^ 63) then moved else none

-- get_thread_start_time; `clock` is what `clock_gettime` gives, `none` its failure.
unfoldable pub get_thread_start_time : AppConfig → ℕ → Option Timespec → Option Timespec
unfolding ns_to_ts
get_thread_start_time app base_offset clock =
    if app.base_start_time_ns == 0
    then clock
    else some (ns_to_ts (u64 (app.base_start_time_ns + app.base_start_offset_ns + base_offset)))

-- tx_time_get_frame_duration, in ns; the link speed is in Mbit/s.
unfoldable pub get_frame_duration : ℕ → ℕ → Option ℕ
get_frame_duration link_speed frame_length =
    if link_speed == 0 then none else some (u64 (frame_length * 8 * 1000) / link_speed)

-- The start of the cycle after `now_ns`.
unfoldable pub next_base_time : AppConfig → ℕ → ℕ
next_base_time app now_ns =
    let past_cycles = sub64 now_ns app.base_start_time_ns / app.base_cycle_time_ns in
    u64 ((past_cycles + 1) * app.base_cycle_time_ns + app.base_start_time_ns)

-- tx_time_get_frame_tx_time, for a cycle time and a number of frames other than 0 (the source divides
-- by both), at the time `now_ns` of the application's clock; the second part is
-- whether the log says that the time is not in the future.
unfoldable pub get_frame_tx_time : AppConfig → ℕ → ℕ → ℕ → ℕ → ℕ → ℕ × Bool
unfolding next_base_time
get_frame_tx_time app now_ns sequence_counter duration num_frames_per_cycle tx_time_offset =
    let tx_time = u64 (
      next_base_time app now_ns
      + tx_time_offset
      + (sequence_counter % num_frames_per_cycle) * duration) in
    (tx_time, leb tx_time now_ns)
