-- ===== src/Stat/Received.antt =====
-- stat_frame_received of src/stat.c. `now` is what `app_clock_get` gives, in ns.
use rtc_testbench.Base.{
  ℕ, ◌*◌, ◌/◌, ◌%◌, Bool, not, get_or, set, leb, ◌==◌, ◌&&◌, if◌then◌else◌, u64, sub64,
}
use rtc_testbench.Base.Int.{◌-ℤ◌, signed64, quot}
use rtc_testbench.Types.{FrameType, AppConfig, Build}
use rtc_testbench.Hist.{histogram_update}
use rtc_testbench.Stat.State.{
  DoubleOps, Statistics, empty_entry, RoundTripContext, State, is_reference, is_tx_timestamps,
  assign,
}
use rtc_testbench.Stat.Common.{stat_frame_received_common}

-- get_first_frame_backlog_idx
unfoldable pub get_first_frame_backlog_idx : ℕ → ℕ → ℕ → ℕ
get_first_frame_backlog_idx cycle_number num_frames_per_cycle backlog_len =
    u64 (cycle_number / num_frames_per_cycle * num_frames_per_cycle) % backlog_len

-- The Rx hardware time stamp of a cycle's first frame goes into the backlog of a mirror.
unfoldable pub store_rx_hw :
    AppConfig → Build → Bool → RoundTripContext → FrameType → ℕ → ℕ → RoundTripContext
unfolding get_first_frame_backlog_idx
store_rx_hw app build tx_timestamps rtt frame_type cycle_number rx_hw_timestamp =
    let fpc = (app.classes frame_type).num_frames_per_cycle in
    let idx = get_first_frame_backlog_idx cycle_number fpc rtt.backlog_len in
    if (tx_timestamps && (app.classes frame_type).tx_hwtstamp_enabled)
      && (build.rx_timestamp && (not (rx_hw_timestamp == 0) && rtt.allocated))
    then if cycle_number % fpc == 0
      then record rtt {
        backlog =
            set rtt.backlog idx
              (record (get_or rtt.backlog idx empty_entry) { rx_hw_ts = rx_hw_timestamp });
      }
      else rtt
    else rtt

-- The round trip time in us, from the backlog; 0 where it holds no time stamp.
unfoldable pub round_trip_time : AppConfig → RoundTripContext → FrameType → ℕ → ℕ → ℕ
unfolding get_first_frame_backlog_idx
round_trip_time app rtt frame_type cycle_number curr_time =
    let fpc = (app.classes frame_type).num_frames_per_cycle in
    let backlog_idx =
      if (app.classes frame_type).tx_hwtstamp_enabled
      then get_first_frame_backlog_idx cycle_number fpc rtt.backlog_len
      else cycle_number % rtt.backlog_len in
    let tx_sw_ts = (get_or rtt.backlog backlog_idx empty_entry).sw_ts in
    if tx_sw_ts == 0 then 0 else sub64 curr_time tx_sw_ts / 1000

-- The times of the receive path, in us, or three zeros: hardware to application, hardware to
-- software and software to application.
unfoldable pub rx_path_times : ℕ → ℕ → ℕ → ℕ × ℕ × ℕ
rx_path_times curr_time rx_hw_timestamp rx_sw_timestamp =
    if (not (rx_hw_timestamp == 0) && not (rx_sw_timestamp == 0))
      && (leb rx_hw_timestamp rx_sw_timestamp && leb rx_sw_timestamp curr_time)
    then (
      sub64 curr_time rx_hw_timestamp / 1000,
      sub64 rx_sw_timestamp rx_hw_timestamp / 1000,
      sub64 curr_time rx_sw_timestamp / 1000,
    )
    else (0, 0, 0)

-- What the receiver says about a frame.
pub record FrameReport : Type 0 where
  pub cycle_number : ℕ
  pub out_of_order : Bool
  pub payload_mismatch : Bool
  pub frame_id_mismatch : Bool
  pub tx_timestamp : ℕ
  pub rx_hw_timestamp : ℕ
  pub rx_sw_timestamp : ℕ

module _ {D : Type 0} (o : DoubleOps D) where
  -- stat_frame_received: the state, and whether the program stops because of an outlier.
  unfoldable pub stat_frame_received :
      AppConfig → Build → State D → FrameType → FrameReport → ℕ → State D × Bool
  unfolding store_rx_hw round_trip_time rx_path_times
  stat_frame_received app build s frame_type r curr_time =
      let reference = is_reference s.log_stat_user_selected in
      let rtt =
        store_rx_hw app build (is_tx_timestamps s.log_stat_user_selected)
          (s.round_trip_contexts frame_type) frame_type r.cycle_number r.rx_hw_timestamp in
      let rt_time : ℕ =
        if reference then round_trip_time app rtt frame_type r.cycle_number curr_time else 0 in
      let histogram = s.histograms frame_type in
      let histogram' =
        if reference && app.stats_histogram_enabled
        then histogram_update histogram rt_time
        else histogram in
      let oneway_time = quot (signed64 curr_time -ℤ signed64 r.tx_timestamp) 1000 in
      let (hw2app, hw2sw, sw2app) = rx_path_times curr_time r.rx_hw_timestamp r.rx_sw_timestamp in
      let add : Statistics D → Statistics D × Bool = λ stat.
        stat_frame_received_common o s.log_stat_user_selected s.rtt_expected_rt_limit stat
          frame_type rt_time oneway_time r.out_of_order r.payload_mismatch r.frame_id_mismatch
          hw2app hw2sw sw2app in
      let (stat, outlier) = add (s.global_statistics frame_type) in
      let period = s.statistics_per_period frame_type in
      let period' =
        if build.mosquitto then (add (record period { time_stamp = curr_time })).0 else period in
      (
        record s {
          round_trip_contexts = assign s.round_trip_contexts frame_type rtt;
          histograms = assign s.histograms frame_type histogram';
          global_statistics = assign s.global_statistics frame_type stat;
          statistics_per_period = assign s.statistics_per_period frame_type period';
        },
        app.debug_stop_trace_on_outlier && outlier,
      )
