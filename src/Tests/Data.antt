-- ===== src/Tests/Data.antt =====
-- A configuration for the runs: a cycle of 1 ms, two frames per cycle in every class.
use rtc_testbench.Base.{true, false, [], ◌∷◌}
use rtc_testbench.Types.{
  ClassConfig, AppConfig, Build, mode_none, aes256_gcm, generic_l2_protocol, clock_tai,
}

abbrev pub class_config : ClassConfig
class_config = record {
  enabled = true;
  rx_mirror_enabled = true;
  xdp_enabled = false;
  xdp_busy_poll_mode = false;
  tx_time_enabled = false;
  tx_hwtstamp_enabled = false;
  ignore_rx_errors = false;
  tx_time_offset_ns = 600000;
  burst_period_ns = 1000000;
  ether_type = 0xb62c;
  vid = 100;
  pcp = 6;
  num_frames_per_cycle = 2;
  payload_pattern = 80 ∷ 65 ∷ [];
  frame_length = 40;
  protocol_type = generic_l2_protocol;
  l2_destination = 1 ∷ 2 ∷ 3 ∷ 4 ∷ 5 ∷ 6 ∷ [];
  security_mode = mode_none;
  security_algorithm = aes256_gcm;
  security_key = [];
  security_iv_prefix = [];
  workload_thread_cpus = [];
  rx_workload_enabled = false;
  rx_workload_prewarm = false;
  rx_workload_skip_count = 0;
}

abbrev pub app_config : AppConfig
app_config = record {
  clock_id = clock_tai;
  base_cycle_time_ns = 1000000;
  base_start_time_ns = 5000000;
  base_start_offset_ns = 0;
  tx_base_offset_ns = 600000;
  rx_base_offset_ns = 200000;
  classes = λ t. class_config;
  stats_histogram_enabled = true;
  stats_histogram_minimum_ns = 1000000;
  stats_histogram_maximum_ns = 1003000;
  stats_collection_interval_ns = 1000000000;
  log_mqtt = false;
  debug_stop_trace_on_outlier = false;
}

abbrev pub build : Build
build = record {
  rx_timestamp = true;
  tx_timestamp = true;
  xdp_tx_time = true;
  busy_poll = true;
  mosquitto = true;
}
