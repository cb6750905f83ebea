-- ===== src/Stat/State.antt =====
-- The records of src/stat.h. `D` is the type of C's `double`, with its operations as parameters.
use rtc_testbench.Base.{
  ℕ, ◌-◌, ◌^◌, Bool, true, false, List, ◌==◌, ◌≡◌, refl, ==_refl, if◌then◌else◌,
}
use rtc_testbench.Base.Int.{ℤ, pos, negsuc}
use rtc_testbench.Types.{FrameType, frame_index, LogStatOption, log_reference, log_tx_timestamps}
use rtc_testbench.Hist.{Histogram}

-- What the code does with `double`: 0.0, conversion of integers, addition and division.
pub record DoubleOps (D : Type 0) : Type 0 where
  pub zero_d : D
  pub of_u64 : ℕ → D
  pub of_i64 : ℤ → D
  pub add_d : D → D → D
  pub div_d : D → D → D

-- The members `_min`, `_max`, `_sum` and `_avg` of one kind of measurement.
pub record Spread (D : Type 0) : Type 0 where
  pub min : ℕ
  pub max : ℕ
  pub sum : D
  pub avg : D

-- The same of the signed one-way time.
pub record SignedSpread (D : Type 0) : Type 0 where
  pub min : ℤ
  pub max : ℤ
  pub sum : D
  pub avg : D

-- struct workload_statistics
pub record WorkloadStatistics (D : Type 0) : Type 0 where
  pub rx_workload : Spread D
  pub rx_workload_count : ℕ
  pub rx_workload_outliers : ℕ

-- struct statistics
pub record Statistics (D : Type 0) : Type 0 where
  pub time_stamp : ℕ
  pub frames_sent : ℕ
  pub frames_received : ℕ
  pub out_of_order_errors : ℕ
  pub frame_id_errors : ℕ
  pub payload_errors : ℕ
  pub round_trip : Spread D
  pub round_trip_count : ℕ
  pub round_trip_outliers : ℕ
  pub oneway : SignedSpread D
  pub oneway_count : ℕ
  pub oneway_outliers : ℕ
  pub proc_first : Spread D
  pub proc_first_count : ℕ
  pub proc_first_outliers : ℕ
  pub proc_batch : Spread D
  pub proc_batch_count : ℕ
  pub proc_batch_outliers : ℕ
  pub rx : Spread D
  pub rx_count : ℕ
  pub rx_hw2sw : Spread D
  pub rx_sw2app : Spread D
  pub workload : ℕ → WorkloadStatistics D
  pub tx : Spread D
  pub tx_count : ℕ
  pub tx_hw_timestamp_missing : ℕ

-- struct rtt_entry
pub record RttEntry : Type 0 where
  pub sw_ts : ℕ
  pub hw_ts : ℕ
  pub rx_hw_ts : ℕ

abbrev pub empty_entry : RttEntry
empty_entry = record { sw_ts = 0; hw_ts = 0; rx_hw_ts = 0 }

-- struct round_trip_context; `allocated` is whether `backlog` is not NULL.
pub record RoundTripContext : Type 0 where
  pub allocated : Bool
  pub backlog : List RttEntry
  pub backlog_len : ℕ

-- The variables of src/stat.c.
pub record State (D : Type 0) : Type 0 where
  pub global_statistics : FrameType → Statistics D
  pub global_statistics_for_log : FrameType → Statistics D
  pub statistics_per_period : FrameType → Statistics D
  pub statistics_per_period_for_log : FrameType → Statistics D
  pub round_trip_contexts : FrameType → RoundTripContext
  pub histograms : FrameType → Histogram
  pub rtt_expected_rt_limit : ℕ
  pub log_stat_user_selected : LogStatOption
  pub last_ts : ℕ
  pub reset_stats : Bool

unfoldable pub is_reference : LogStatOption → Bool
is_reference log_reference = true
is_reference _ = false

unfoldable pub is_tx_timestamps : LogStatOption → Bool
is_tx_timestamps log_tx_timestamps = true
is_tx_timestamps _ = false

-- An assignment to one element of an array that traffic classes index.
abbrev pub assign {ℓ} : {A : Type ℓ} → (FrameType → A) → FrameType → A → FrameType → A
unfolding frame_index
assign f t v s = if frame_index s == frame_index t then v else f s

pub assign_same {ℓ} : {A : Type ℓ} (f : FrameType → A) (t : FrameType) (v : A) → assign f t v t ≡ v
unfolding assign frame_index
assign_same f t v = rw (==_refl (frame_index t)) refl

-- An assignment to one workload of a class.
abbrev pub assign_workload {ℓ} : {A : Type ℓ} → (ℕ → A) → ℕ → A → ℕ → A
assign_workload f i v j = if j == i then v else f j

module _ {D : Type 0} (o : DoubleOps D) where
  abbrev pub reset_spread : Spread D
  reset_spread = record { min = 2 ^ 64 - 1; max = 0; sum = o.zero_d; avg = o.zero_d }

  abbrev pub reset_workload : WorkloadStatistics D
  reset_workload = record {
    rx_workload = reset_spread;
    rx_workload_count = 0;
    rx_workload_outliers = 0;
  }

  -- stat_reset: UINT64_MAX, INT64_MAX and INT64_MIN at the extremes, zero elsewhere.
  unfoldable pub stat_reset : Statistics D
  stat_reset = record {
    time_stamp = 0;
    frames_sent = 0;
    frames_received = 0;
    out_of_order_errors = 0;
    frame_id_errors = 0;
    payload_errors = 0;
    round_trip = reset_spread;
    round_trip_count = 0;
    round_trip_outliers = 0;
    oneway = record {
      min = pos (2 ^ 63 - 1);
      max = negsuc (2 ^ 63 - 1);
      sum = o.zero_d;
      avg = o.zero_d;
    };
    oneway_count = 0;
    oneway_outliers = 0;
    proc_first = reset_spread;
    proc_first_count = 0;
    proc_first_outliers = 0;
    proc_batch = reset_spread;
    proc_batch_count = 0;
    proc_batch_outliers = 0;
    rx = reset_spread;
    rx_count = 0;
    rx_hw2sw = reset_spread;
    rx_sw2app = reset_spread;
    workload = λ i. reset_workload;
    tx = reset_spread;
    tx_count = 0;
    tx_hw_timestamp_missing = 0;
  }
