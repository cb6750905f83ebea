-- ===== src/Stat/Latency.antt =====
-- The latencies that src/stat.c takes from hardware time stamps: of the Tx path
-- (stat_frame_sent_latency) and of a mirror's processing (stat_proc_first_latency and
-- stat_proc_batch_latency). They are compiled with TX_TIMESTAMP.
use rtc_testbench.Base.{ℕ, ◌/◌, ◌%◌, Bool, not, get_or, set, ltb, ◌==◌, ◌&&◌, if◌then◌else◌, sub64}
use rtc_testbench.Base.Int.{signed64, quot, bits64}
use rtc_testbench.Types.{FrameType, AppConfig, Build}
use rtc_testbench.Stat.State.{DoubleOps, Statistics, empty_entry, State, assign}
use rtc_testbench.Stat.Common.{
  inc, stat_frame_sent_latency_common, stat_frame_proc_first_common, stat_frame_proc_batch_common,
}
use rtc_testbench.Stat.Received.{get_first_frame_backlog_idx}

module _ {D : Type 0} (o : DoubleOps D) where
  -- A change of both the global statistics and, with MQTT, those of the period.
  abbrev pub change_both : Build → State D → FrameType → (Statistics D → Statistics D) → State D
  change_both build s t f = record s {
    global_statistics = assign s.global_statistics t (f (s.global_statistics t));
    statistics_per_period =
        if build.mosquitto
        then assign s.statistics_per_period t (f (s.statistics_per_period t))
        else s.statistics_per_period;
  }

  -- stat_frame_sent_latency. A miss is counted in the period whether or not MQTT is built in.
  unfoldable pub stat_frame_sent_latency : AppConfig → Build → State D → FrameType → ℕ → State D
  stat_frame_sent_latency app build s frame_type seq =
      let rtt = s.round_trip_contexts frame_type in
      let idx = seq % rtt.backlog_len in
      let entry = get_or rtt.backlog idx empty_entry in
      let miss : Statistics D → Statistics D =
        λ stat. record stat { tx_hw_timestamp_missing = inc stat.tx_hw_timestamp_missing } in
      let taken = change_both build s frame_type (λ stat.
        stat_frame_sent_latency_common o stat
          (bits64 (quot (signed64 (sub64 entry.hw_ts entry.sw_ts)) 1000))) in
      if not (app.classes frame_type).tx_hwtstamp_enabled
      then s
      else if not (entry.sw_ts == 0) && entry.hw_ts == 0
      then s
      else if ltb entry.sw_ts entry.hw_ts
      then record taken {
        round_trip_contexts =
            assign s.round_trip_contexts frame_type
              (record rtt { backlog = set rtt.backlog idx (record entry { hw_ts = 0 }) });
      }
      else record s {
        global_statistics =
            assign s.global_statistics frame_type (miss (s.global_statistics frame_type));
        statistics_per_period =
            assign s.statistics_per_period frame_type (miss (s.statistics_per_period frame_type));
      }

  -- The checks that the two latencies of a mirror share.
  unfoldable pub proc_latency_known : AppConfig → Build → FrameType → ℕ → ℕ → Bool
  proc_latency_known app build frame_type rx_hw_ts tx_hw_timestamp =
      (build.rx_timestamp && (app.classes frame_type).tx_hwtstamp_enabled)
      && (not (rx_hw_ts == 0) && (not (tx_hw_timestamp == 0) && ltb rx_hw_ts tx_hw_timestamp))

  -- stat_proc_first_latency
  unfoldable pub stat_proc_first_latency : AppConfig → Build → State D → FrameType → ℕ → ℕ → State D
  unfolding proc_latency_known get_first_frame_backlog_idx
  stat_proc_first_latency app build s frame_type cycle_number tx_hw_timestamp =
      let rtt = s.round_trip_contexts frame_type in
      let idx =
        get_first_frame_backlog_idx cycle_number (app.classes frame_type).num_frames_per_cycle
          rtt.backlog_len in
      let rx_hw_ts = (get_or rtt.backlog idx empty_entry).rx_hw_ts in
      if proc_latency_known app build frame_type rx_hw_ts tx_hw_timestamp
      then change_both build s frame_type
          (λ stat. stat_frame_proc_first_common o app stat (sub64 tx_hw_timestamp rx_hw_ts / 1000))
      else s

  -- stat_proc_batch_latency, which clears the Rx time stamp.
  unfoldable pub stat_proc_batch_latency : AppConfig → Build → State D → FrameType → ℕ → ℕ → State D
  unfolding proc_latency_known get_first_frame_backlog_idx
  stat_proc_batch_latency app build s frame_type cycle_number last_tx_hw_timestamp =
      let rtt = s.round_trip_contexts frame_type in
      let idx =
        get_first_frame_backlog_idx cycle_number (app.classes frame_type).num_frames_per_cycle
          rtt.backlog_len in
      let entry = get_or rtt.backlog idx empty_entry in
      let cleared = record s {
        round_trip_contexts =
            assign s.round_trip_contexts frame_type
              (record rtt { backlog = set rtt.backlog idx (record entry { rx_hw_ts = 0 }) });
      } in
      if proc_latency_known app build frame_type entry.rx_hw_ts last_tx_hw_timestamp
      then change_both build cleared frame_type (λ stat.
        stat_frame_proc_batch_common o app stat (sub64 last_tx_hw_timestamp entry.rx_hw_ts / 1000))
      else cleared
