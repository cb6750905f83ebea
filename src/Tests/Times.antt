-- ===== src/Tests/Times.antt =====
-- Times and the histogram at concrete inputs.
use rtc_testbench.Base.{ℕ, ◌+◌, ◌/◌, ◌<◌, ◌≤◌, ◌≡◌, refl, false, some, List, [], ◌∷◌, arith, get_or}
use rtc_testbench.Time.{Timespec, ns_to_ts, ts_to_ns, increment_period, get_frame_tx_time}
use rtc_testbench.Time.Period.{increment_period_lem}
use rtc_testbench.Time.Launch.{get_frame_tx_time_lem}
use rtc_testbench.Hist.{Histogram, histogram_init, histogram_update, update_all}
use rtc_testbench.Hist.Counts.{
  IsValid, count, counted, sum, histogram_update-IsValid, update_all-histogram_init,
}
use rtc_testbench.Tests.Data.{app_config}

abbrev late : Timespec
late = record { tv_sec = 3; tv_nsec = 999999999 }

increment_period_lem_example :
    increment_period 3 late 1500000000 ≡ some (ns_to_ts (ts_to_ns late + 1500000000))
increment_period_lem_example = increment_period_lem 3 late 1500000000 (omega arith)

get_frame_tx_time_lem_example :
    let (tx_time, late) = get_frame_tx_time app_config 7300000 3 12000 2 600000 in
    (tx_time ≡ 8612000) × (7300000 < tx_time) × (late ≡ false) × (8000000 ≤ 7300000 + 1000000)
get_frame_tx_time_lem_example =
    get_frame_tx_time_lem app_config 7300000 3 12000 2 600000 (omega arith) (omega arith)
      (omega arith) (omega arith)

abbrev histogram : Histogram
histogram = record { slots = 0 ∷ 0 ∷ 0 ∷ []; min = 1000; max = 1003; underflow = 0; overflow = 0 }

abbrev samples : List ℕ
samples = 1001 ∷ 999 ∷ 1001 ∷ 1003 ∷ 1002 ∷ []

histogram_update-IsValid_example :
    IsValid (histogram_update histogram 1001)
    × (counted (histogram_update histogram 1001) ≡ counted histogram + 1)
    × ((histogram_update histogram 1001).min ≡ 1000)
    × ((histogram_update histogram 1001).max ≡ 1003)
unfolding sum
histogram_update-IsValid_example =
    histogram_update-IsValid histogram 1001 (record { storage = refl; max_fits = omega arith })
      (omega arith) (omega arith)

update_all-histogram_init_example :
    (get_or (update_all histogram samples).slots 1 0 ≡ 2)
    × ((update_all histogram samples).overflow ≡ 1)
    × ((update_all histogram samples).underflow ≡ 1)
    × (1000 ≡ 1000000 / 1000)
    × (1003 ≡ 1003000 / 1000)
unfolding histogram_init count
update_all-histogram_init_example =
    update_all-histogram_init app_config samples 1 refl (omega arith) (omega arith) (omega arith)
      (omega arith) (omega arith)
