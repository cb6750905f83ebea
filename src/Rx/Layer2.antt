-- ===== src/Rx/Layer2.antt =====
-- The frame handlers of src/layer2_thread.c: the frame that the generator sends, and the handler of
-- a received one.
use rtc_testbench.Base.{
  ℕ, ◌+◌, Bool, false, not, none, some, List, length, take, slice, memcpy, ltb, ◌==◌, if◌then◌else◌,
  sub64, u16, ◌⊎◌, inl, inr, replicate,
}
use rtc_testbench.Bytes.{load, store}
use rtc_testbench.Types.{ClassConfig, AppConfig, Build, generic_l2}
use rtc_testbench.Frame.{
  eth_p_8021q, sizeof_ethhdr, sizeof_vlan_ethernet_header, sizeof_vlan_header,
  sizeof_reference_meta_data, eth_alen, meta_data_to_sequence_counter, meta_data_to_tx_timestamp,
  insert_vlan_tag, swap_mac_addresses, build_vlan_frame_from_rx, vlan_tci_of,
}
use rtc_testbench.RingBuffer.{add}
use rtc_testbench.Stat.State.{DoubleOps, State}
use rtc_testbench.Stat.Received.{FrameReport, stat_frame_received}
use rtc_testbench.Rx.{
  RxContext, RxTimes, RxError, too_small, wrong_ether_type, wrong_length, RxResult, equal_bytes,
  next_sequence_counter, set_mirror_tx_timestamp_est,
}

-- generic_l2_initialize_frame; `old` is what the buffer of `frame_length` bytes held.
unfoldable pub generic_l2_initialize_frame :
    ClassConfig → List ℕ → (source destination : List ℕ) → List ℕ
generic_l2_initialize_frame conf old source destination =
    let zeroed = replicate (length old) 0 in
    let addressed = memcpy 6 (take eth_alen source) (memcpy 0 (take eth_alen destination) zeroed) in
    let tagged =
      store 2 (store 2 (store 2 addressed 12 eth_p_8021q) 14 (vlan_tci_of conf)) 16
        conf.ether_type in
    let meta_data =
      store 4 (store 4 tagged sizeof_vlan_ethernet_header 0) (sizeof_vlan_ethernet_header + 4) 0 in
    memcpy (sizeof_vlan_ethernet_header + sizeof_reference_meta_data) conf.payload_pattern meta_data

-- The checks at the start of the handler: an error, or where the meta data is and whether the VLAN
-- tag is missing.
unfoldable pub generic_l2_check : ClassConfig → List ℕ → ℕ → RxError ⊎ (ℕ × Bool)
generic_l2_check conf f len =
    let vlan_tag_missing = not (load 2 f 12 == eth_p_8021q) in
    let proto = if vlan_tag_missing then load 2 f 12 else load 2 f 16 in
    let p : ℕ = if vlan_tag_missing then sizeof_ethhdr else sizeof_vlan_ethernet_header in
    let expected_frame_length =
      if vlan_tag_missing then sub64 conf.frame_length sizeof_vlan_header else conf.frame_length in
    if ltb len sizeof_vlan_ethernet_header
    then inl too_small
    else if not (proto == u16 conf.ether_type)
    then inl wrong_ether_type
    else if not (len == expected_frame_length)
    then inl wrong_length
    else inr (p, vlan_tag_missing)

-- What the handler tells the statistics of a frame that passes; `m` is the offset of its meta data,
-- `stamped` the frame with the mirror's time stamp.
unfoldable pub generic_l2_report :
    ClassConfig → Build → RxContext → (f stamped : List ℕ) → ℕ → RxTimes → FrameReport
generic_l2_report conf build ctx f stamped m times =
    let sequence_counter = meta_data_to_sequence_counter f m conf.num_frames_per_cycle in
    let (hw, sw) : ℕ × ℕ =
      if build.rx_timestamp
      then if conf.xdp_enabled then times.xdp_timestamps else times.packet_timestamps
      else (0, 0) in
    record {
      cycle_number = sequence_counter;
      out_of_order = not (sequence_counter == ctx.rx_sequence_counter);
      payload_mismatch = not (
          equal_bytes (slice (m + sizeof_reference_meta_data) (length conf.payload_pattern) stamped)
            conf.payload_pattern);
      frame_id_mismatch = false;
      tx_timestamp = meta_data_to_tx_timestamp f m;
      rx_hw_timestamp = hw;
      rx_sw_timestamp = sw;
    }

-- The end of the handler: with XDP the buffer becomes the answer, otherwise a copy is queued.
-- `new_frame` is the uninitialised array of MAX_FRAME_SIZE bytes.
unfoldable pub generic_l2_mirror :
    ℕ → ClassConfig → Bool → List ℕ → RxContext → List ℕ → ℕ → List ℕ × RxContext
generic_l2_mirror max_frame_size conf vlan_tag_missing new_frame ctx f len =
    let tagged =
      if vlan_tag_missing
      then insert_vlan_tag max_frame_size f len conf.ether_type (vlan_tci_of conf)
      else f in
    let built = build_vlan_frame_from_rx f len new_frame conf.ether_type (vlan_tci_of conf) in
    if not conf.rx_mirror_enabled
    then (f, ctx)
    else if conf.xdp_enabled
    then (swap_mac_addresses tagged len, ctx)
    else (f, record ctx { mirror_buffer = add ctx.mirror_buffer (take (len + 4) built) })

module _ {D : Type 0} (o : DoubleOps D) (app : AppConfig) (build : Build) (max_frame_size : ℕ)
    (new_frame : List ℕ) where
  -- generic_l2_rx_frame
  unfoldable pub generic_l2_rx_frame : State D → RxContext → List ℕ → ℕ → RxTimes → RxResult D
  generic_l2_rx_frame s ctx f len times =
      let conf = app.classes generic_l2 in
      elim (generic_l2_check conf f len) [
        | inl e ↦ record { error = some e; state = s; stopped = false; context = ctx; frame = f }
        | inr (m, vlan_tag_missing) ↦
            let stamped = set_mirror_tx_timestamp_est app f m times.mirror_now in
            let report = generic_l2_report conf build ctx f stamped m times in
            let (s', stopped) =
              stat_frame_received o app build s generic_l2 report times.stat_now in
            let counted = record ctx {
              rx_sequence_counter =
                  next_sequence_counter ctx.rx_sequence_counter report.out_of_order;
            } in
            let (f', ctx') =
              generic_l2_mirror max_frame_size conf vlan_tag_missing new_frame counted stamped
                len in
            record { error = none; state = s'; stopped = stopped; context = ctx'; frame = f' }
      ]
