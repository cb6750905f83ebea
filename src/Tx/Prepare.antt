-- ===== src/Tx/Prepare.antt =====
-- prepare_frame_for_tx of src/utils.c. Encryption does not fail; the cipher is that of `Rx.Profinet`.
use rtc_testbench.Base.{
  ℕ, ◌+◌, ◌-◌, ◌%◌, ◌^◌, List, [], slice, memcpy, sub64, if◌then◌else◌, ◌&&◌, ◌==◌,
}
use rtc_testbench.Types.{
  FrameType, frame_index, generic_l2, SecurityMode, mode_none, mode_ao, mode_ae, ProtocolType,
  is_ethercat, ClassConfig,
}
use rtc_testbench.Frame.{
  sizeof_vlan_ethernet_header, sizeof_profinet_secure_header, sizeof_security_checksum,
  sequence_counter_to_meta_data, tx_timestamp_to_meta_data, prepare_iv, le, get_meta_data_offset,
}
use rtc_testbench.Rx.Profinet.{Cipher}
use rtc_testbench.Rx.Ethercat.{ecat_tx_timestamp_off}

abbrev pub ecat_length_off : ℕ
ecat_length_off = 14

abbrev pub ecat_cmd_length_off : ℕ
ecat_cmd_length_off = 22

-- struct prepare_frame_config, without the buffer and the security context
pub record PrepareFrameConfig : Type 0 where
  pub mode : SecurityMode
  pub iv_prefix : List ℕ
  pub payload_pattern : List ℕ
  pub frame_length : ℕ
  pub num_frames_per_cycle : ℕ
  pub sequence_counter : ℕ
  pub tx_timestamp : ℕ
  pub meta_data_offset : ℕ
  pub frame_type : FrameType
  pub protocol_type : ProtocolType

-- The counter and the time stamp, in the meta data at `m`.
unfoldable pub set_meta_data : PrepareFrameConfig → List ℕ → ℕ → List ℕ
set_meta_data c f m =
    tx_timestamp_to_meta_data
      (sequence_counter_to_meta_data f m c.sequence_counter c.num_frames_per_cycle) m c.tx_timestamp

-- EtherCAT: the time stamp, the length of the frame, whose bits `& 0x7ff | 0x1000` are these, and
-- that of the datagram, in the machine's order
unfoldable pub prepare_ethercat : PrepareFrameConfig → List ℕ → List ℕ
prepare_ethercat c f =
    let ecat_length = sub64 c.frame_length 14 % 2 ^ 11 + 2 ^ 12 in
    let cmd_length = sub64 c.frame_length 28 % 2 ^ 11 in
    memcpy ecat_cmd_length_off (le 2 cmd_length) (
      memcpy ecat_length_off (le 2 ecat_length)
        (memcpy ecat_tx_timestamp_off (le 8 c.tx_timestamp) f))

module _ (cipher : Cipher) where
  -- mode AO
  unfoldable pub prepare_ao : PrepareFrameConfig → List ℕ → List ℕ
  prepare_ao c f =
      let prepared = set_meta_data c f (sizeof_vlan_ethernet_header + 10) in
      let size_of_aad_data =
        c.frame_length - sizeof_vlan_ethernet_header - sizeof_security_checksum in
      let (ciphertext, checksum) =
        cipher.encrypt [] (slice sizeof_vlan_ethernet_header size_of_aad_data prepared)
          (prepare_iv c.iv_prefix c.sequence_counter) in
      memcpy (c.frame_length - sizeof_security_checksum) checksum prepared

  -- mode AE
  unfoldable pub prepare_ae : PrepareFrameConfig → List ℕ → List ℕ
  prepare_ae c f =
      let prepared = set_meta_data c f (sizeof_vlan_ethernet_header + 10) in
      let (ciphertext, checksum) =
        cipher.encrypt c.payload_pattern
          (slice sizeof_vlan_ethernet_header sizeof_profinet_secure_header prepared)
          (prepare_iv c.iv_prefix c.sequence_counter) in
      memcpy (c.frame_length - sizeof_security_checksum) checksum
        (memcpy (sizeof_vlan_ethernet_header + sizeof_profinet_secure_header) ciphertext prepared)

  -- The branches behind that of EtherCAT.
  unfoldable pub prepare_by_mode : SecurityMode → PrepareFrameConfig → List ℕ → List ℕ
  prepare_by_mode mode_none c f = set_meta_data c f c.meta_data_offset
  prepare_by_mode mode_ao c f = prepare_ao c f
  prepare_by_mode mode_ae c f = prepare_ae c f

  -- prepare_frame_for_tx
  unfoldable pub prepare_frame_for_tx : PrepareFrameConfig → List ℕ → List ℕ
  prepare_frame_for_tx c f =
      if (frame_index c.frame_type == frame_index generic_l2) && is_ethercat c.protocol_type
      then prepare_ethercat c f
      else prepare_by_mode c.mode c f

-- The configuration that tc_gen_and_send_frames fills in for the frame `sequence_counter` of a
-- class; `payload_pattern` is that of the thread.
unfoldable pub frame_config_of :
    ClassConfig → FrameType → List ℕ → (sequence_counter tx_timestamp : ℕ) → PrepareFrameConfig
frame_config_of conf frame_type payload_pattern sequence_counter tx_timestamp = record {
  mode = conf.security_mode;
  iv_prefix = conf.security_iv_prefix;
  payload_pattern = payload_pattern;
  frame_length = conf.frame_length;
  num_frames_per_cycle = conf.num_frames_per_cycle;
  sequence_counter = sequence_counter;
  tx_timestamp = tx_timestamp;
  meta_data_offset = get_meta_data_offset frame_type conf.security_mode;
  frame_type = frame_type;
  protocol_type = conf.protocol_type;
}
