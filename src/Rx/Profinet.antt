-- ===== src/Rx/Profinet.antt =====
-- src/profinet.c: the frames of the PROFINET classes and the handler of a received one. The cipher
-- is OpenSSL's behind src/security.c and a parameter; the contexts only hold its keys.
pub mod Reseal
pub mod Moved
pub mod Forwarded
use rtc_testbench.Base.{
  ℕ, ◌+◌, ◌-◌, Bool, true, false, not, none, some, List, [], length, take, slice, memcpy, ltb, ◌==◌,
  if◌then◌else◌, sub64, u16, ◌⊎◌, inl, inr, replicate,
}
use rtc_testbench.Bytes.{load, store}
use rtc_testbench.Types.{
  FrameType, SecurityMode, mode_none, mode_ao, mode_ae, is_mode_none, ClassConfig, AppConfig, Build,
}
use rtc_testbench.Frame.{
  eth_p_8021q, eth_p_profinet_rt, sizeof_ethhdr, sizeof_vlan_ethernet_header, sizeof_vlan_header,
  sizeof_profinet_rt_header, sizeof_profinet_secure_header, sizeof_security_checksum, eth_alen,
  meta_data_to_sequence_counter, meta_data_to_tx_timestamp, insert_vlan_tag, swap_mac_addresses,
  build_vlan_frame_from_rx, vlan_tci_of, prepare_iv,
}
use rtc_testbench.RingBuffer.{add}
use rtc_testbench.Stat.State.{DoubleOps, State}
use rtc_testbench.Stat.Received.{FrameReport, stat_frame_received}
use rtc_testbench.Rx.{
  RxContext, RxTimes, RxError, too_small, wrong_ether_type, wrong_length, RxResult, equal_bytes,
  next_sequence_counter, set_mirror_tx_timestamp_est,
}

-- security_encrypt and security_decrypt under the keys of a class: of the text, the additional
-- data and the initial vector, with the checksum as a result or an argument. Decryption says
-- whether the frame is authentic and what it wrote as plain text.
pub record Cipher : Type 0 where
  pub encrypt : (plaintext aad iv : List ℕ) → List ℕ × List ℕ
  pub decrypt : (ciphertext aad checksum iv : List ℕ) → Bool × List ℕ

-- The members of `struct thread_context` that the handler of a class reads.
pub record PnThreadConf : Type 0 where
  pub frame_type : FrameType
  pub frame_id : ℕ
  pub payload_pattern : List ℕ

-- The Ethernet and the VLAN header of both kinds of frame, in a buffer set to zero.
unfoldable pub profinet_header : List ℕ → (source destination : List ℕ) → ℕ → List ℕ
profinet_header old source destination vlan_tci =
    let zeroed = replicate (length old) 0 in
    let addressed = memcpy 6 (take eth_alen source) (memcpy 0 (take eth_alen destination) zeroed) in
    store 2 (store 2 (store 2 addressed 12 eth_p_8021q) 14 vlan_tci) 16 eth_p_profinet_rt

-- initialize_secure_profinet_frame; `old` is what the buffer of `frame_length` bytes held.
unfoldable pub initialize_secure_profinet_frame :
    SecurityMode
    → List ℕ
    → (source destination payload_pattern : List ℕ) → (vlan_tci frame_id : ℕ) → List ℕ
initialize_secure_profinet_frame mode old source destination payload_pattern vlan_tci frame_id =
    let security_length =
      u16 (sub64 (length old) (sizeof_vlan_ethernet_header + sizeof_security_checksum)) in
    let information : ℕ = elim mode [ mode_ao ↦ 0 | _ ↦ 1 ] in
    let header = profinet_header old source destination vlan_tci in
    let identified = store 1 (store 2 header 18 frame_id) 20 information in
    let secured = store 2 identified 26 security_length in
    memcpy (sizeof_vlan_ethernet_header + sizeof_profinet_secure_header) payload_pattern
      (store 4 (store 4 secured 28 0) 32 0)

-- initialize_rt_profinet_frame
unfoldable pub initialize_rt_profinet_frame :
    List ℕ → (source destination payload_pattern : List ℕ) → (vlan_tci frame_id : ℕ) → List ℕ
initialize_rt_profinet_frame old source destination payload_pattern vlan_tci frame_id =
    let header = profinet_header old source destination vlan_tci in
    memcpy (sizeof_vlan_ethernet_header + sizeof_profinet_rt_header) payload_pattern
      (store 4 (store 4 (store 2 header 18 frame_id) 20 0) 24 0)

-- initialize_profinet_frame
unfoldable pub initialize_profinet_frame :
    SecurityMode
    → List ℕ
    → (source destination payload_pattern : List ℕ) → (vlan_tci frame_id : ℕ) → List ℕ
initialize_profinet_frame mode_none old source destination payload_pattern vlan_tci frame_id =
    initialize_rt_profinet_frame old source destination payload_pattern vlan_tci frame_id
initialize_profinet_frame mode old source destination payload_pattern vlan_tci frame_id =
    initialize_secure_profinet_frame mode old source destination payload_pattern vlan_tci frame_id

-- The checks at the start of receive_profinet_frame: an error, or the size of the Ethernet header
-- and whether the VLAN tag is missing.
unfoldable pub profinet_check : ClassConfig → List ℕ → ℕ → RxError ⊎ (ℕ × Bool)
profinet_check conf f len =
    let vlan_tag_missing = not (load 2 f 12 == eth_p_8021q) in
    let proto = if vlan_tag_missing then load 2 f 12 else load 2 f 16 in
    let p : ℕ = if vlan_tag_missing then sizeof_ethhdr else sizeof_vlan_ethernet_header in
    let expected_frame_length =
      if vlan_tag_missing then sub64 conf.frame_length sizeof_vlan_header else conf.frame_length in
    if ltb len sizeof_vlan_ethernet_header
    then inl too_small
    else if not (proto == eth_p_profinet_rt)
    then inl wrong_ether_type
    else if not (len == expected_frame_length)
    then inl wrong_length
    else inr (p, vlan_tag_missing)

-- The offset of the meta data behind a PROFINET header at `p`.
unfoldable pub profinet_meta_data : SecurityMode → ℕ → ℕ
profinet_meta_data mode p = if is_mode_none mode then p + 2 else p + 10

-- The initial vector of a secured frame with its header at `p`.
unfoldable pub iv_of_frame : ClassConfig → List ℕ → ℕ → List ℕ
iv_of_frame conf f p =
    prepare_iv conf.security_iv_prefix
      (meta_data_to_sequence_counter f (p + 10) conf.num_frames_per_cycle)

module _ (cipher : Cipher) (app : AppConfig) (conf : ClassConfig) where
  -- Mode AO: the frame from its header at `p` to its checksum is additional data.
  unfoldable pub decrypt_ao : List ℕ → ℕ → ℕ → Bool × List ℕ
  decrypt_ao f len p =
      cipher.decrypt [] (slice p (len - p - sizeof_security_checksum) f)
        (slice (len - sizeof_security_checksum) sizeof_security_checksum f) (iv_of_frame conf f p)

  -- The frame with the mirror's time stamp and the checksum that belongs to it.
  unfoldable pub reseal_ao : List ℕ → ℕ → ℕ → ℕ → List ℕ
  reseal_ao f len p now =
      let stamped = set_mirror_tx_timestamp_est app f (p + 10) now in
      let (ciphertext, checksum) =
        cipher.encrypt [] (slice p (len - p - sizeof_security_checksum) stamped)
          (iv_of_frame conf f p) in
      memcpy (len - sizeof_security_checksum) checksum stamped

  -- Mode AE: the header is additional data, what stands behind it is encrypted.
  unfoldable pub decrypt_ae : List ℕ → ℕ → ℕ → Bool × List ℕ
  decrypt_ae f len p =
      cipher.decrypt
        (slice (p + sizeof_profinet_secure_header)
          (len - p - sizeof_profinet_secure_header - sizeof_security_checksum) f)
        (slice p sizeof_profinet_secure_header f)
        (slice (len - sizeof_security_checksum) sizeof_security_checksum f) (iv_of_frame conf f p)

  -- The frame with the mirror's time stamp, the pattern encrypted and the checksum.
  unfoldable pub reseal_ae : List ℕ → List ℕ → ℕ → ℕ → ℕ → List ℕ
  reseal_ae payload_pattern f len p now =
      let stamped = set_mirror_tx_timestamp_est app f (p + 10) now in
      let (ciphertext, checksum) =
        cipher.encrypt payload_pattern (slice p sizeof_profinet_secure_header stamped)
          (iv_of_frame conf f p) in
      memcpy (len - sizeof_security_checksum) checksum
        (memcpy (p + sizeof_profinet_secure_header) ciphertext stamped)

  -- The frame behind the security of its mode, and the bytes that the pattern is compared with.
  -- That a frame is not authentic is only logged. `plaintext` is the uninitialised array.
  unfoldable pub profinet_secure : PnThreadConf → List ℕ → List ℕ → ℕ → ℕ → ℕ → List ℕ × List ℕ
  profinet_secure thread plaintext f len p now =
      let n = length conf.payload_pattern in
      let stamped = set_mirror_tx_timestamp_est app f (p + 2) now in
      let ao = reseal_ao f len p now in
      elim conf.security_mode [
        | mode_none ↦ (stamped, slice (p + sizeof_profinet_rt_header) n stamped)
        | mode_ao ↦ (ao, slice (p + sizeof_profinet_secure_header) n ao)
        | mode_ae ↦ (
          reseal_ae thread.payload_pattern f len p now,
          slice 0 n (memcpy 0 ((decrypt_ae f len p).1) plaintext),
        )
      ]

-- What the handler tells the statistics; `p` is the offset of the header, `payload` what is
-- compared with the pattern.
unfoldable pub profinet_report :
    ClassConfig
    → Build
    → PnThreadConf
    → RxContext
    → (f payload : List ℕ) → ℕ
    → RxTimes
    → FrameReport
profinet_report conf build thread ctx f payload p times =
    let m = profinet_meta_data conf.security_mode p in
    let sequence_counter = meta_data_to_sequence_counter f m conf.num_frames_per_cycle in
    let (hw, sw) : ℕ × ℕ =
      if build.rx_timestamp
      then if conf.xdp_enabled then times.xdp_timestamps else times.packet_timestamps
      else (0, 0) in
    record {
      cycle_number = sequence_counter;
      out_of_order = not (sequence_counter == ctx.rx_sequence_counter);
      payload_mismatch = not (equal_bytes payload conf.payload_pattern);
      frame_id_mismatch = not (load 2 f p == thread.frame_id);
      tx_timestamp = meta_data_to_tx_timestamp f m;
      rx_hw_timestamp = hw;
      rx_sw_timestamp = sw;
    }

-- The end of the handler. `new_frame` is the uninitialised array of MAX_FRAME_SIZE bytes.
unfoldable pub profinet_mirror :
    ℕ → ClassConfig → Bool → List ℕ → RxContext → List ℕ → ℕ → List ℕ × RxContext
profinet_mirror max_frame_size conf vlan_tag_missing new_frame ctx f len =
    let tagged =
      if vlan_tag_missing
      then insert_vlan_tag max_frame_size f len eth_p_profinet_rt (vlan_tci_of conf)
      else f in
    let built = build_vlan_frame_from_rx f len new_frame eth_p_profinet_rt (vlan_tci_of conf) in
    if not conf.rx_mirror_enabled
    then (f, ctx)
    else if conf.xdp_enabled
    then (swap_mac_addresses tagged len, ctx)
    else (
      f,
      record ctx { mirror_buffer = add ctx.mirror_buffer (take (len + sizeof_vlan_header) built) },
    )

module _ {D : Type 0} (o : DoubleOps D) (cipher : Cipher) (app : AppConfig) (build : Build)
    (thread : PnThreadConf) (max_frame_size : ℕ) (plaintext new_frame : List ℕ) where
  -- receive_profinet_frame
  unfoldable pub receive_profinet_frame : State D → RxContext → List ℕ → ℕ → RxTimes → RxResult D
  receive_profinet_frame s ctx f len times =
      let conf = app.classes thread.frame_type in
      elim (profinet_check conf f len) [
        | inl e ↦ record { error = some e; state = s; stopped = false; context = ctx; frame = f }
        | inr (p, vlan_tag_missing) ↦
            let (sealed, payload) =
              profinet_secure cipher app conf thread plaintext f len p times.mirror_now in
            let report = profinet_report conf build thread ctx f payload p times in
            let (s', stopped) =
              stat_frame_received o app build s thread.frame_type report times.stat_now in
            let counted = record ctx {
              rx_sequence_counter =
                  next_sequence_counter ctx.rx_sequence_counter report.out_of_order;
            } in
            let (f', ctx') =
              profinet_mirror max_frame_size conf vlan_tag_missing new_frame counted sealed len in
            record { error = none; state = s'; stopped = stopped; context = ctx'; frame = f' }
      ]
