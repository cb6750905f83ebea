-- ===== src/Time/Period.antt =====
-- Moving a wake-up time by a period, as every cyclic thread does.
use rtc_testbench.Base.{
  ℕ, zero, suc, ◌+◌, ◌-◌, ◌*◌, ◌/◌, ◌<◌, ◌≡◌, some, none, arith, ltb, ◌^◌, if◌then◌else◌,
}
use rtc_testbench.Time.{nsec_per_sec, Timespec, ns_to_ts, ts_to_ns, carry, increment_period}

-- Fuel above the number of whole seconds is enough, and the loop keeps the time that is meant.
carry_lem :
    (fuel sec nsec : ℕ)
    → nsec / nsec_per_sec < fuel
    → carry fuel (record { tv_sec = sec; tv_nsec = nsec })
      ≡ some (ns_to_ts (sec * nsec_per_sec + nsec))
unfolding carry ns_to_ts
carry_lem zero sec nsec h = elim h [ ]
carry_lem (suc fuel) sec nsec h = ground (arith, carry_lem fuel (sec + 1) (nsec - nsec_per_sec))

-- `increment_period` ends, if the fuel is above the whole seconds of its nanoseconds and these fit
-- int64_t, and gives the normal form of the time moved by the period; if they do not fit then it
-- has no result.
pub increment_period_lem :
    (fuel : ℕ) (t : Timespec) (period_ns : ℕ)
    → (t.tv_nsec + period_ns) / nsec_per_sec < fuel
    → increment_period fuel t period_ns ≡ (
        if ltb (t.tv_nsec + period_ns) (2 ^ 63)
        then some (ns_to_ts (ts_to_ns t + period_ns))
        else none)
unfolding increment_period ts_to_ns
increment_period_lem fuel t period_ns h =
    ground (arith, carry_lem fuel t.tv_sec (t.tv_nsec + period_ns))

-- `ns_to_ts` and `ts_to_ns` are inverse on normal times, whose nanoseconds are below a second.
pub ns_to_ts-ts_to_ns :
    (t : Timespec) (ns : ℕ)
    → (ts_to_ns (ns_to_ts ns) ≡ ns) × (t.tv_nsec < nsec_per_sec → ns_to_ts (ts_to_ns t) ≡ t)
unfolding ts_to_ns ns_to_ts
ns_to_ts-ts_to_ns t ns = (omega arith, λ h. ground arith)
