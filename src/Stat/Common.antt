-- ===== src/Stat/Common.antt =====
-- The static helpers of src/stat.c that add one measurement to `struct statistics`.
use rtc_testbench.Base.{
  ℕ, ◌+◌, ◌/◌, Bool, false, not, ltb, ◌==◌, ◌&&◌, ◌||◌, if◌then◌else◌, u64, to_nat,
}
use rtc_testbench.Base.Int.{ℤ, pos, ltb_ℤ}
use rtc_testbench.Types.{FrameType, is_real_time, AppConfig, LogStatOption}
use rtc_testbench.Stat.State.{DoubleOps, Spread, SignedSpread, Statistics, is_reference}

-- `x++` on a `uint64_t`
abbrev pub inc : ℕ → ℕ
inc x = u64 (x + 1)

-- stat_update_min_max; the maximum is set first, and neither reads the other.
unfoldable pub update_min : ℕ → ℕ → ℕ
update_min new_value old = if ltb new_value old then new_value else old

unfoldable pub update_max : ℕ → ℕ → ℕ
update_max new_value old = if ltb old new_value then new_value else old

-- stat_update_min_max_s
unfoldable pub update_min_s : ℤ → ℤ → ℤ
update_min_s new_value old = if ltb_ℤ new_value old then new_value else old

unfoldable pub update_max_s : ℤ → ℤ → ℤ
update_max_s new_value old = if ltb_ℤ old new_value then new_value else old

module _ {D : Type 0} (o : DoubleOps D) where
  -- The extremes, the sum and the average behind a new value, with the count that includes it.
  unfoldable pub observe : Spread D → ℕ → ℕ → Spread D
  observe s count v = record {
    min = update_min v s.min;
    max = update_max v s.max;
    sum = o.add_d s.sum (o.of_u64 v);
    avg = o.div_d (o.add_d s.sum (o.of_u64 v)) (o.of_u64 count);
  }

  unfoldable pub observe_s : SignedSpread D → ℕ → ℤ → SignedSpread D
  observe_s s count v = record {
    min = update_min_s v s.min;
    max = update_max_s v s.max;
    sum = o.add_d s.sum (o.of_i64 v);
    avg = o.div_d (o.add_d s.sum (o.of_i64 v)) (o.of_u64 count);
  }

  -- The three parts of stat_frame_received_common, in its order: the round trip, ...
  unfoldable pub received_round_trip :
      LogStatOption → ℕ → Statistics D → FrameType → ℕ → Statistics D × Bool
  received_round_trip log limit stat frame_type rt_time =
      let late = is_real_time frame_type && ltb limit rt_time in
      let count = inc stat.round_trip_count in
      if is_reference log
      then (
        record stat {
          round_trip_outliers =
              if late then inc stat.round_trip_outliers else stat.round_trip_outliers;
          round_trip = observe stat.round_trip count rt_time;
          round_trip_count = count;
        },
        late,
      )
      else (stat, false)

  -- ... the one-way time, ...
  unfoldable pub received_oneway : ℕ → Statistics D → FrameType → ℤ → Statistics D × Bool
  received_oneway limit stat frame_type oneway_time =
      let late = is_real_time frame_type && ltb_ℤ (pos (limit / 2)) oneway_time in
      let count = inc stat.oneway_count in
      (
        record stat {
          oneway = observe_s stat.oneway count oneway_time;
          oneway_outliers = if late then inc stat.oneway_outliers else stat.oneway_outliers;
          oneway_count = count;
        },
        late,
      )

  -- ... and the times of the receive path, if all three are known.
  unfoldable pub received_rx : Statistics D → ℕ → ℕ → ℕ → Statistics D
  received_rx stat rx_hw2app_time rx_hw2sw_time rx_sw2app_time =
      let count = inc stat.rx_count in
      if not (rx_hw2app_time == 0) && (not (rx_hw2sw_time == 0) && not (rx_sw2app_time == 0))
      then record stat {
        rx_count = count;
        rx = observe stat.rx count rx_hw2app_time;
        rx_hw2sw = observe stat.rx_hw2sw count rx_hw2sw_time;
        rx_sw2app = observe stat.rx_sw2app count rx_sw2app_time;
      }
      else stat

  -- stat_frame_received_common: the statistics, and whether the frame is an outlier.
  unfoldable pub stat_frame_received_common :
      LogStatOption
      → ℕ
      → Statistics D
      → FrameType
      → ℕ
      → ℤ
      → (out_of_order payload_mismatch frame_id_mismatch : Bool)
      → (rx_hw2app_time rx_hw2sw_time rx_sw2app_time : ℕ) → Statistics D × Bool
  unfolding received_round_trip received_oneway received_rx
  stat_frame_received_common log limit stat frame_type rt_time oneway_time ooo payload frame_id
        hw2app hw2sw sw2app =
      let (s₁, late_rt) = received_round_trip log limit stat frame_type rt_time in
      let (s₂, late_ow) = received_oneway limit s₁ frame_type oneway_time in
      let s₃ = received_rx s₂ hw2app hw2sw sw2app in
      (
        record s₃ {
          frames_received = inc s₃.frames_received;
          out_of_order_errors = u64 (s₃.out_of_order_errors + to_nat ooo);
          payload_errors = u64 (s₃.payload_errors + to_nat payload);
          frame_id_errors = u64 (s₃.frame_id_errors + to_nat frame_id);
        },
        late_rt || late_ow,
      )

  -- stat_frame_sent_latency_common
  unfoldable pub stat_frame_sent_latency_common : Statistics D → ℕ → Statistics D
  stat_frame_sent_latency_common stat tx_latency_us =
      let count = inc stat.tx_count in
      record stat { tx_count = count; tx = observe stat.tx count tx_latency_us }

  -- stat_frame_proc_first_common
  unfoldable pub stat_frame_proc_first_common : AppConfig → Statistics D → ℕ → Statistics D
  stat_frame_proc_first_common app stat proc_first_us =
      let count = inc stat.proc_first_count in
      record stat {
        proc_first_outliers =
            if ltb (app.base_cycle_time_ns / 1000) proc_first_us
            then inc stat.proc_first_outliers
            else stat.proc_first_outliers;
        proc_first_count = count;
        proc_first = observe stat.proc_first count proc_first_us;
      }

  -- stat_frame_proc_batch_common
  unfoldable pub stat_frame_proc_batch_common : AppConfig → Statistics D → ℕ → Statistics D
  stat_frame_proc_batch_common app stat proc_batch_us =
      let count = inc stat.proc_batch_count in
      record stat {
        proc_batch_outliers =
            if ltb (app.base_cycle_time_ns / 1000) proc_batch_us
            then inc stat.proc_batch_outliers
            else stat.proc_batch_outliers;
        proc_batch_count = count;
        proc_batch = observe stat.proc_batch count proc_batch_us;
      }
