-- ===== src/Config.antt =====
-- src/config.c: config_check_keys and config_sanity_check, which decide whether a configuration is
-- taken. The messages are left out; the checks stand in the source's order, in groups of one
-- function each. MAX_FRAME_SIZE is the argument `max_frame_size`.
pub mod Sane
pub mod Parse
pub mod Values
pub mod Names
use rtc_testbench.Base.{
  ℕ, ◌+◌, Bool, true, false, not, ◌&&◌, ◌||◌, ltb, leb, ◌==◌, length, if◌then◌else◌,
}
use rtc_testbench.Types.{
  FrameType, tsn_high, tsn_low, rtc, rta, dcp, lldp, udp_high, udp_low, generic_l2,
  SecurityAlgorithm, aes128_gcm, ClassConfig, AppConfig, Build, is_mode_none, is_ethercat, is_tai,
  is_tc_active,
}
use rtc_testbench.Frame.{
  sizeof_ethhdr, sizeof_vlan_ethernet_header, sizeof_reference_meta_data, sizeof_profinet_rt_header,
  sizeof_profinet_secure_header, sizeof_security_checksum,
}

abbrev pub security_iv_prefix_len : ℕ
security_iv_prefix_len = 6

unfoldable pub expected_key_len : SecurityAlgorithm → ℕ
expected_key_len aes128_gcm = 16
expected_key_len _ = 32

-- config_check_keys
unfoldable pub config_check_keys : ClassConfig → Bool
config_check_keys c =
    if is_mode_none c.security_mode
    then true
    else if not (length c.security_iv_prefix == security_iv_prefix_len)
    then false
    else if not (expected_key_len c.security_algorithm == length c.security_key)
    then false
    else true

abbrev pub min_secure_profinet_frame_size : ℕ
min_secure_profinet_frame_size =
    sizeof_vlan_ethernet_header + sizeof_profinet_secure_header + sizeof_security_checksum

abbrev pub min_profinet_frame_size : ℕ
min_profinet_frame_size = sizeof_vlan_ethernet_header + sizeof_profinet_rt_header

unfoldable pub min_frame_size : ClassConfig → ℕ
min_frame_size c =
    if is_mode_none c.security_mode then min_profinet_frame_size else min_secure_profinet_frame_size

unfoldable pub any_profinet_active : AppConfig → Bool
any_profinet_active app =
    is_tc_active app tsn_high
    || (is_tc_active app tsn_low
        || (is_tc_active app rtc
            || (is_tc_active app rta
                || (is_tc_active app dcp
                    || (is_tc_active app lldp
                        || (is_tc_active app udp_high || is_tc_active app udp_low))))))

-- The checks of the application: its classes, its cycle and its offsets.
unfoldable pub application_valid : AppConfig → Bool
application_valid app =
    if is_tc_active app generic_l2 && any_profinet_active app
    then false
    else if app.base_cycle_time_ns == 0
    then false
    else if ltb app.base_cycle_time_ns app.rx_base_offset_ns
        || ltb app.base_cycle_time_ns app.tx_base_offset_ns
    then false
    else if leb app.tx_base_offset_ns app.rx_base_offset_ns
    then false
    else true

-- `frame_length > MAX_FRAME_SIZE || frame_length < size + payload_pattern_length`
unfoldable pub length_invalid : ℕ → ClassConfig → ℕ → Bool
length_invalid max_frame_size c size =
    ltb max_frame_size c.frame_length || ltb c.frame_length (size + length c.payload_pattern)

-- The checks of the frame lengths.
unfoldable pub lengths_valid : ℕ → AppConfig → Bool
lengths_valid m app =
    if length_invalid m (app.classes generic_l2)
      (sizeof_vlan_ethernet_header + sizeof_reference_meta_data)
    then false
    else if length_invalid m (app.classes tsn_high) (min_frame_size (app.classes tsn_high))
    then false
    else if length_invalid m (app.classes tsn_low) (min_frame_size (app.classes tsn_low))
    then false
    else if length_invalid m (app.classes rtc) (min_frame_size (app.classes rtc))
    then false
    else if length_invalid m (app.classes rta) (min_frame_size (app.classes rta))
    then false
    else if length_invalid m (app.classes dcp) min_profinet_frame_size
    then false
    else if length_invalid m (app.classes lldp) (sizeof_ethhdr + sizeof_reference_meta_data)
    then false
    else if length_invalid m (app.classes udp_high) sizeof_reference_meta_data
    then false
    else if length_invalid m (app.classes udp_low) sizeof_reference_meta_data
    then false
    else true

unfoldable pub any_tx_hwtstamp : AppConfig → Bool
any_tx_hwtstamp app =
    (app.classes generic_l2).tx_hwtstamp_enabled
    || ((app.classes rtc).tx_hwtstamp_enabled
        || ((app.classes rta).tx_hwtstamp_enabled
            || ((app.classes tsn_high).tx_hwtstamp_enabled
                || (app.classes tsn_low).tx_hwtstamp_enabled)))

unfoldable pub any_busy_poll : AppConfig → Bool
any_busy_poll app =
    (app.classes tsn_high).xdp_busy_poll_mode
    || ((app.classes tsn_low).xdp_busy_poll_mode
        || ((app.classes rtc).xdp_busy_poll_mode
            || ((app.classes rta).xdp_busy_poll_mode
                || (app.classes generic_l2).xdp_busy_poll_mode)))

-- A class that combines a launch time with XDP.
unfoldable pub xdp_tx_time : AppConfig → FrameType → Bool
xdp_tx_time app t = (app.classes t).tx_time_enabled && (app.classes t).xdp_enabled

-- The checks of what the build supports.
unfoldable pub features_valid : Build → AppConfig → Bool
features_valid build app =
    if not build.xdp_tx_time
      && (xdp_tx_time app generic_l2 || (xdp_tx_time app tsn_high || xdp_tx_time app tsn_low))
    then false
    else if build.rx_timestamp && not (is_tai app.clock_id)
    then false
    else if not build.tx_timestamp && any_tx_hwtstamp app
    then false
    else if any_tx_hwtstamp app && not (is_tai app.clock_id)
    then false
    else if not build.busy_poll && any_busy_poll app
    then false
    else if not build.mosquitto && app.log_mqtt
    then false
    else true

-- The checks of the keys.
unfoldable pub keys_valid : AppConfig → Bool
keys_valid app =
    if not (config_check_keys (app.classes tsn_high))
    then false
    else if not (config_check_keys (app.classes tsn_low))
    then false
    else if not (config_check_keys (app.classes rtc))
    then false
    else if not (config_check_keys (app.classes rta))
    then false
    else true

-- The last two checks: the histogram and EtherCAT.
unfoldable pub rest_valid : AppConfig → Bool
rest_valid app =
    if ltb app.stats_histogram_maximum_ns app.stats_histogram_minimum_ns
    then false
    else if is_tc_active app generic_l2
        && (is_ethercat (app.classes generic_l2).protocol_type
            && ltb (app.classes generic_l2).frame_length (sizeof_ethhdr + 2 + 20))
    then false
    else true

-- config_sanity_check
unfoldable pub config_sanity_check : ℕ → Build → AppConfig → Bool
config_sanity_check max_frame_size build app =
    if application_valid app
    then if lengths_valid max_frame_size app
      then if features_valid build app
        then if keys_valid app then rest_valid app else false
        else false
      else false
    else false
