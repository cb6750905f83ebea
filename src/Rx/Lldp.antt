-- ===== src/Rx/Lldp.antt =====
-- The frame handlers of src/lldp_thread.c.
use rtc_testbench.Base.{
  ℕ, ◌+◌, false, not, none, some, List, length, take, slice, memcpy, ◌==◌, if◌then◌else◌, replicate,
}
use rtc_testbench.Bytes.{store}
use rtc_testbench.Types.{ClassConfig, AppConfig, Build, lldp}
use rtc_testbench.Frame.{
  eth_p_lldp, sizeof_ethhdr, sizeof_reference_meta_data, eth_alen, meta_data_to_sequence_counter,
  meta_data_to_tx_timestamp,
}
use rtc_testbench.RingBuffer.{add}
use rtc_testbench.Stat.State.{DoubleOps, State}
use rtc_testbench.Stat.Received.{FrameReport, stat_frame_received}
use rtc_testbench.Rx.{
  RxContext, RxTimes, wrong_length, RxResult, equal_bytes, next_sequence_counter,
  set_mirror_tx_timestamp_est,
}

-- lldp_initialize_frame; `old` is what the buffer of `frame_length` bytes held.
unfoldable pub lldp_initialize_frame : ClassConfig → List ℕ → (source destination : List ℕ) → List ℕ
lldp_initialize_frame conf old source destination =
    let zeroed = replicate (length old) 0 in
    let addressed = memcpy 6 (take eth_alen source) (memcpy 0 (take eth_alen destination) zeroed) in
    let typed = store 2 addressed 12 eth_p_lldp in
    let cleared = memcpy sizeof_ethhdr (replicate sizeof_reference_meta_data 0) typed in
    memcpy (sizeof_ethhdr + sizeof_reference_meta_data) conf.payload_pattern cleared

-- lldp_build_frame_from_rx
unfoldable pub lldp_build_frame_from_rx : AppConfig → List ℕ → List ℕ → ℕ → List ℕ
lldp_build_frame_from_rx app f source now =
    set_mirror_tx_timestamp_est app (memcpy 6 (take eth_alen source) f) sizeof_ethhdr now

-- What the handler tells the statistics of a frame of the right length.
unfoldable pub lldp_report : ClassConfig → RxContext → List ℕ → FrameReport
lldp_report conf ctx f =
    let sequence_counter =
      meta_data_to_sequence_counter f sizeof_ethhdr conf.num_frames_per_cycle in
    record {
      cycle_number = sequence_counter;
      out_of_order = not (sequence_counter == ctx.rx_sequence_counter);
      payload_mismatch = not (
          equal_bytes
            (slice (sizeof_ethhdr + sizeof_reference_meta_data) (length conf.payload_pattern) f)
            conf.payload_pattern);
      frame_id_mismatch = false;
      tx_timestamp = meta_data_to_tx_timestamp f sizeof_ethhdr;
      rx_hw_timestamp = 0;
      rx_sw_timestamp = 0;
    }

-- lldp_rx_frame
unfoldable pub lldp_rx_frame :
    {D : Type 0}
    → DoubleOps D
    → AppConfig
    → Build
    → State D
    → RxContext
    → List ℕ
    → ℕ
    → RxTimes
    → RxResult D
lldp_rx_frame o app build s ctx f len times =
    let conf = app.classes lldp in
    let report = lldp_report conf ctx f in
    let (s', stopped) = stat_frame_received o app build s lldp report times.stat_now in
    let counted = record ctx {
      rx_sequence_counter = next_sequence_counter ctx.rx_sequence_counter report.out_of_order;
    } in
    let built = lldp_build_frame_from_rx app f ctx.source times.mirror_now in
    if not (len == conf.frame_length)
    then record { error = some wrong_length; state = s; stopped = false; context = ctx; frame = f }
    else if not conf.rx_mirror_enabled
    then record { error = none; state = s'; stopped = stopped; context = counted; frame = f }
    else record {
      error = none;
      state = s';
      stopped = stopped;
      context = record counted { mirror_buffer = add counted.mirror_buffer (take len built) };
      frame = built;
    }
