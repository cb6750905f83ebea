-- ===== src/Stat/Sent.antt =====
-- stat_frames_sent_batch of src/stat.c: the Tx software time stamps go into the backlog, and the
-- frames are counted. `now` is what `app_clock_get` gives, in ns.
use rtc_testbench.Base.{
  ℕ, zero, suc, ◌+◌, ◌-◌, ◌*◌, ◌/◌, ◌%◌, Option, none, some, get_or, set, ltb, ◌&&◌, ◌||◌,
  if◌then◌else◌, u64,
}
use rtc_testbench.Types.{FrameType, AppConfig, Build}
use rtc_testbench.Stat.State.{
  Statistics, empty_entry, RoundTripContext, State, is_reference, is_tx_timestamps, assign,
}
use rtc_testbench.Stat.Common.{inc}

-- `rtt->backlog[i].sw_ts = ts`
unfoldable pub stamp_sw : RoundTripContext → ℕ → ℕ → RoundTripContext
stamp_sw rtt i ts = record rtt {
  backlog = set rtt.backlog i (record (get_or rtt.backlog i empty_entry) { sw_ts = ts });
}

-- The loop without hardware time stamps: `n` rounds from `c` on.
unfoldable pub stamp_each : ℕ → RoundTripContext → ℕ → ℕ → RoundTripContext
stamp_each zero rtt c ts = rtt
stamp_each (suc n) rtt c ts = stamp_each n (stamp_sw rtt (c % rtt.backlog_len) ts) (c + 1) ts

-- The loop with them: from one cycle's first frame to the next, up to `end`. `none` is a loop that
-- does not end within its fuel.
unfoldable pub stamp_cycles :
    ℕ → RoundTripContext → (c cycle_number end fpc ts : ℕ) → Option RoundTripContext
stamp_cycles zero rtt c cycle_number end fpc ts = none
stamp_cycles (suc fuel) rtt c cycle_number end fpc ts =
    let stamped = if ltb c cycle_number then rtt else stamp_sw rtt (c % rtt.backlog_len) ts in
    let rest = stamp_cycles fuel stamped (u64 (c + fpc)) cycle_number end fpc ts in
    if ltb c end then rest else some rtt

-- The part of the function that fills the backlog.
unfoldable pub stamp_batch :
    ℕ → AppConfig → RoundTripContext → FrameType → ℕ → ℕ → ℕ → Option RoundTripContext
stamp_batch fuel app rtt frame_type cycle_number frame_count now =
    let end = u64 (cycle_number + frame_count) in
    let fpc = (app.classes frame_type).num_frames_per_cycle in
    let base = cycle_number / fpc * fpc in
    if (app.classes frame_type).tx_hwtstamp_enabled
    then stamp_cycles fuel rtt base cycle_number end fpc now
    else some (stamp_each (end - cycle_number) rtt cycle_number now)

module _ {D : Type 0} where
  -- stat_frame_sent_per_period, once for each frame; it does nothing without MQTT.
  unfoldable pub sent_per_period : ℕ → Build → Statistics D → Statistics D
  sent_per_period zero build stat = stat
  sent_per_period (suc n) build stat =
      sent_per_period n build
        (if build.mosquitto then record stat { frames_sent = inc stat.frames_sent } else stat)

  -- stat_frames_sent_batch; stat_frame_sent is a batch of one frame.
  unfoldable pub stat_frames_sent_batch :
      ℕ → AppConfig → Build → State D → FrameType → ℕ → ℕ → ℕ → Option (State D)
  stat_frames_sent_batch fuel app build s frame_type cycle_number frame_count now =
      let rtt = s.round_trip_contexts frame_type in
      let stat = s.global_statistics frame_type in
      let counted : RoundTripContext → State D = λ rtt'. record s {
        round_trip_contexts = assign s.round_trip_contexts frame_type rtt';
        statistics_per_period =
            assign s.statistics_per_period frame_type
              (sent_per_period frame_count build (s.statistics_per_period frame_type));
        global_statistics =
            assign s.global_statistics frame_type
              (record stat { frames_sent = u64 (stat.frames_sent + frame_count) });
      } in
      if (is_reference s.log_stat_user_selected || is_tx_timestamps s.log_stat_user_selected)
        && rtt.allocated
      then elim (stamp_batch fuel app rtt frame_type cycle_number frame_count now) [
        | some rtt' ↦ some (counted rtt')
        | none ↦ none
      ]
      else some (counted rtt)
