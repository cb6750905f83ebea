-- ===== src/Tests/Latencies.antt =====
-- The processing latencies of a mirror at a concrete input.
use rtc_testbench.Base.{ℕ, ◌≡◌, refl, true, [], ◌∷◌}
use rtc_testbench.Types.{AppConfig, tsn_high}
use rtc_testbench.Stat.State.{State}
use rtc_testbench.Stat.Common.{inc}
use rtc_testbench.Stat.Received.{get_first_frame_backlog_idx}
use rtc_testbench.Stat.Latency.{proc_latency_known, stat_proc_batch_latency}
use rtc_testbench.Stat.Once.{proc_batch_once}
use rtc_testbench.Tests.Data.{app_config, class_config, build}
use rtc_testbench.Tests.Stats.{whole}
use rtc_testbench.Tests.Arrivals.{state}

abbrev stamping : AppConfig
stamping = record app_config { classes = λ t. record class_config { tx_hwtstamp_enabled = true } }

-- The first frame of cycle 4 came at 100000.
abbrev mirroring : State ℕ
mirroring = record state {
  round_trip_contexts = λ t. record {
    allocated = true;
    backlog =
        record { sw_ts = 0; hw_ts = 0; rx_hw_ts = 100000 }
        ∷ record { sw_ts = 0; hw_ts = 0; rx_hw_ts = 0 }
        ∷ [];
    backlog_len = 2;
  };
}

proc_batch_once_example :
    let s₁ = stat_proc_batch_latency whole stamping build mirroring tsn_high 4 350000 in
    let s₂ = stat_proc_batch_latency whole stamping build s₁ tsn_high 5 360000 in
    (((s₁.global_statistics) tsn_high).proc_batch_count
      ≡ inc ((mirroring.global_statistics) tsn_high).proc_batch_count)
    × (s₂.global_statistics ≡ s₁.global_statistics)
    × (s₂.statistics_per_period ≡ s₁.statistics_per_period)
unfolding get_first_frame_backlog_idx proc_latency_known
proc_batch_once_example =
    proc_batch_once whole stamping build mirroring tsn_high 4 350000 5 360000 refl refl
