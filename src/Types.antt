-- ===== src/Types.antt =====
-- The enumerations and the configuration that the components share: src/stat.h, src/security.h,
-- src/config.h. `Config` holds the fields that the modelled code reads; a byte string stands for a
-- pointer with its length, and a list of numbers for an array with its count.
use rtc_testbench.Base.{ℕ, Bool, true, false, List, ltb, ◌&&◌}

-- enum log_stat_options
pub data LogStatOption : Type 0 where
  log_reference log_mirror log_tx_timestamps : LogStatOption

-- enum stat_frame_type, without its count NUM_FRAME_TYPES
pub data FrameType : Type 0 where
  tsn_high tsn_low rtc rta dcp lldp udp_high udp_low generic_l2 : FrameType

-- The value that C gives the enumerator.
unfoldable pub frame_index : FrameType → ℕ
frame_index tsn_high = 0
frame_index tsn_low = 1
frame_index rtc = 2
frame_index rta = 3
frame_index dcp = 4
frame_index lldp = 5
frame_index udp_high = 6
frame_index udp_low = 7
frame_index generic_l2 = 8

-- stat_frame_type_is_real_time
unfoldable pub is_real_time : FrameType → Bool
is_real_time tsn_high = true
is_real_time tsn_low = true
is_real_time rtc = true
is_real_time generic_l2 = true
is_real_time _ = false

-- enum security_mode
pub data SecurityMode : Type 0 where
  mode_none mode_ao mode_ae : SecurityMode

unfoldable pub is_mode_none : SecurityMode → Bool
is_mode_none mode_none = true
is_mode_none _ = false

-- enum security_algorithm
pub data SecurityAlgorithm : Type 0 where
  aes256_gcm aes128_gcm chacha20_poly1305 : SecurityAlgorithm

-- enum protocol_type
pub data ProtocolType : Type 0 where
  generic_l2_protocol ethercat_protocol : ProtocolType

unfoldable pub is_ethercat : ProtocolType → Bool
is_ethercat ethercat_protocol = true
is_ethercat generic_l2_protocol = false

-- The clocks that a configuration may name; `aux i` is CLOCK_AUX + i.
pub data ClockId : Type 0 where
  clock_tai clock_monotonic clock_realtime : ClockId
  clock_aux : ℕ → ClockId

unfoldable pub is_tai : ClockId → Bool
is_tai clock_tai = true
is_tai _ = false

-- struct traffic_class_config
pub record ClassConfig : Type 0 where
  pub enabled : Bool
  pub rx_mirror_enabled : Bool
  pub xdp_enabled : Bool
  pub xdp_busy_poll_mode : Bool
  pub tx_time_enabled : Bool
  pub tx_hwtstamp_enabled : Bool
  pub ignore_rx_errors : Bool
  pub tx_time_offset_ns : ℕ
  pub burst_period_ns : ℕ
  pub ether_type : ℕ
  pub vid : ℕ
  pub pcp : ℕ
  pub num_frames_per_cycle : ℕ
  pub payload_pattern : List ℕ
  pub frame_length : ℕ
  pub protocol_type : ProtocolType
  pub l2_destination : List ℕ
  pub security_mode : SecurityMode
  pub security_algorithm : SecurityAlgorithm
  pub security_key : List ℕ
  pub security_iv_prefix : List ℕ
  pub workload_thread_cpus : List ℕ
  pub rx_workload_enabled : Bool
  pub rx_workload_prewarm : Bool
  pub rx_workload_skip_count : ℕ

-- struct application_config
pub record AppConfig : Type 0 where
  pub clock_id : ClockId
  pub base_cycle_time_ns : ℕ
  pub base_start_time_ns : ℕ
  pub base_start_offset_ns : ℕ
  pub tx_base_offset_ns : ℕ
  pub rx_base_offset_ns : ℕ
  pub classes : FrameType → ClassConfig
  pub stats_histogram_enabled : Bool
  pub stats_histogram_minimum_ns : ℕ
  pub stats_histogram_maximum_ns : ℕ
  pub stats_collection_interval_ns : ℕ
  pub log_mqtt : Bool
  pub debug_stop_trace_on_outlier : Bool

-- The options of the build that the code asks for.
pub record Build : Type 0 where
  pub rx_timestamp : Bool
  pub tx_timestamp : Bool
  pub xdp_tx_time : Bool
  pub busy_poll : Bool
  pub mosquitto : Bool

-- config_is_tc_active
unfoldable pub is_tc_active : AppConfig → FrameType → Bool
is_tc_active app t = (app.classes t).enabled && ltb 0 (app.classes t).num_frames_per_cycle

-- config_class_tx_timestamp_enabled
unfoldable pub class_tx_timestamp_enabled : Build → AppConfig → FrameType → Bool
class_tx_timestamp_enabled b app t = b.tx_timestamp && (app.classes t).tx_hwtstamp_enabled
