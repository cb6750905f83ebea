-- ===== src/Stat/Period.antt =====
-- The parts of src/stat.c that do not belong to one frame: stat_init, stat_update, the getters of
-- the log threads and the workload statistics. Opening the trace files is I/O and is left out.
use rtc_testbench.Base.{
  ℕ, ◌*◌, ◌/◌, Bool, true, false, not, [], replicate, ltb, leb, ◌==◌, ◌&&◌, ◌||◌, if◌then◌else◌,
  u64, sub64,
}
use rtc_testbench.Types.{FrameType, AppConfig, Build, LogStatOption}
use rtc_testbench.Hist.{Histogram}
use rtc_testbench.Stat.State.{
  DoubleOps, Statistics, WorkloadStatistics, empty_entry, RoundTripContext, State, is_reference,
  is_tx_timestamps, assign, assign_workload, stat_reset,
}
use rtc_testbench.Stat.Common.{inc, observe}

abbrev pub stat_max_backlog : ℕ
stat_max_backlog = 1024

-- The backlog of one class, if the mode needs one and `calloc` gives it.
unfoldable pub init_context : AppConfig → LogStatOption → Bool → FrameType → RoundTripContext
init_context app log allocated t =
    let len = u64 (stat_max_backlog * (app.classes t).num_frames_per_cycle) in
    if is_reference log || (is_tx_timestamps log && (app.classes t).tx_hwtstamp_enabled)
    then record {
      allocated = allocated;
      backlog = if allocated then replicate len empty_entry else [];
      backlog_len = len;
    }
    else record { allocated = false; backlog = []; backlog_len = 0 }

module _ {D : Type 0} (o : DoubleOps D) where
  -- stat_init with all allocations done; the histograms are those of histogram_init.
  unfoldable pub stat_init : AppConfig → LogStatOption → (FrameType → Histogram) → State D
  unfolding init_context
  stat_init app log histograms = record {
    global_statistics = λ t. stat_reset o;
    global_statistics_for_log = λ t. stat_reset o;
    statistics_per_period = λ t. stat_reset o;
    statistics_per_period_for_log = λ t. stat_reset o;
    round_trip_contexts = init_context app log true;
    histograms = histograms;
    rtt_expected_rt_limit = u64 (app.base_cycle_time_ns * 2) / 1000;
    log_stat_user_selected = log;
    last_ts = 0;
    reset_stats = false;
  }

  -- stat_update, at `curr_time` of the application's clock.
  unfoldable pub stat_update : AppConfig → Build → State D → ℕ → State D
  stat_update app build s curr_time =
      let last = if s.last_ts == 0 then curr_time else s.last_ts in
      let proceed = leb app.stats_collection_interval_ns (sub64 curr_time last) in
      let logged = record s {
        last_ts = curr_time;
        global_statistics_for_log = s.global_statistics;
        statistics_per_period_for_log =
            if build.mosquitto then s.statistics_per_period else s.statistics_per_period_for_log;
        statistics_per_period =
            if build.mosquitto then (λ t. stat_reset o) else s.statistics_per_period;
      } in
      if not proceed
      then record s { last_ts = last }
      else if s.reset_stats
      then record logged { global_statistics = λ t. stat_reset o; reset_stats = false }
      else logged

  -- One workload's statistics behind a run of `workload_time` us.
  unfoldable pub add_workload :
      AppConfig → FrameType → WorkloadStatistics D → ℕ → WorkloadStatistics D
  add_workload app frame_type w workload_time =
      let count = inc w.rx_workload_count in
      let seen = observe o w.rx_workload count workload_time in
      record {
        rx_workload =
            if ltb (app.classes frame_type).rx_workload_skip_count w.rx_workload_count
            then seen
            else record seen { min = (w.rx_workload).min; max = (w.rx_workload).max };
        rx_workload_count = count;
        rx_workload_outliers = w.rx_workload_outliers;
      }

  -- stat_frame_workload
  unfoldable pub stat_frame_workload :
      AppConfig → Build → State D → ℕ → FrameType → (start_time curr_time : ℕ) → State D
  unfolding add_workload
  stat_frame_workload app build s id frame_type start_time curr_time =
      let workload_time = sub64 curr_time start_time / 1000 in
      let add : Statistics D → Statistics D = λ stat. record stat {
        workload =
            assign_workload stat.workload id
              (add_workload app frame_type (stat.workload id) workload_time);
      } in
      record s {
        global_statistics =
            assign s.global_statistics frame_type (add (s.global_statistics frame_type));
        statistics_per_period =
            if build.mosquitto
            then assign s.statistics_per_period frame_type
                (add (s.statistics_per_period frame_type))
            else s.statistics_per_period;
      }

  -- stat_inc_workload_outlier
  unfoldable pub stat_inc_workload_outlier : AppConfig → State D → ℕ → FrameType → State D
  stat_inc_workload_outlier app s id frame_type =
      let stat = s.global_statistics frame_type in
      let w = stat.workload id in
      if ltb (app.classes frame_type).rx_workload_skip_count w.rx_workload_count
      then record s {
        global_statistics = assign s.global_statistics frame_type (record stat {
          workload =
              assign_workload stat.workload id
                (record w { rx_workload_outliers = inc w.rx_workload_outliers });
        });
      }
      else s
