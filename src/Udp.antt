-- ===== src/Udp.antt =====
-- The frames and the handlers of src/udp_thread.c. A datagram begins with the meta data; the Tx
-- thread builds each of its datagrams in one buffer. `taken` says whether sendto takes a datagram.
pub mod Datagram
pub mod Generated
pub mod Received
use rtc_testbench.Base.{
  ℕ, zero, suc, ◌+◌, ◌*◌, ◌/◌, Bool, false, not, Option, none, some, List, [], ◌∷◌, ◌++◌, length,
  take, slice, drop, memcpy, replicate, u64, ◌==◌, if◌then◌else◌,
}
use rtc_testbench.Types.{AppConfig, ClassConfig, FrameType, Build}
use rtc_testbench.Frame.{
  sizeof_reference_meta_data, sequence_counter_to_meta_data, tx_timestamp_to_meta_data,
  meta_data_to_sequence_counter, meta_data_to_tx_timestamp,
}
use rtc_testbench.RingBuffer.{RingBuffer, add, fetch}
use rtc_testbench.Stat.State.{DoubleOps, State}
use rtc_testbench.Stat.Sent.{stat_frames_sent_batch}
use rtc_testbench.Stat.Received.{FrameReport, stat_frame_received}
use rtc_testbench.Rx.{
  RxContext, RxTimes, RxResult, wrong_length, equal_bytes, next_sequence_counter,
  set_mirror_tx_timestamp_est,
}

-- udp_initialize_frame
unfoldable pub udp_initialize_frame : ClassConfig → List ℕ → List ℕ
udp_initialize_frame conf frame_data =
    memcpy sizeof_reference_meta_data conf.payload_pattern
      (memcpy 0 (replicate sizeof_reference_meta_data 0) frame_data)

-- What a Tx thread works on: the buffer of its datagrams, the next counter, the mirror's buffer.
pub record UdpTx (D : Type 0) : Type 0 where
  pub frame : List ℕ
  pub sequence_counter : ℕ
  pub mirror_buffer : RingBuffer
  pub stat : State D

-- What one call of sendto meets: the clock before it, whether it takes the datagram, and the clock
-- behind it.
pub record SendTo : Type 0 where
  pub tx_now : ℕ
  pub taken : Bool
  pub sent_now : ℕ

-- What sendto puts on the wire: `frame_length` bytes of the buffer, if it takes them
unfoldable pub datagrams : ClassConfig → SendTo → List ℕ → List (List ℕ)
datagrams conf call f = if call.taken then take conf.frame_length f ∷ [] else []

module _ {D : Type 0} (app : AppConfig) (build : Build) (t : FrameType) (fuel : ℕ) where
  -- The end of both ways to send: the statistics, if the datagram was taken
  unfoldable pub count_datagram : SendTo → State D → ℕ → Option (State D)
  count_datagram call s sequence_counter =
      if call.taken
      then stat_frames_sent_batch fuel app build s t sequence_counter 1 call.sent_now
      else some s

  -- udp_send_frame: the buffer, what is on the wire, and the statistics
  unfoldable pub udp_send_frame :
      State D → List ℕ → SendTo → Option (List ℕ × List (List ℕ) × State D)
  udp_send_frame s f call =
      let stamped = tx_timestamp_to_meta_data f 0 call.tx_now in
      let seq = meta_data_to_sequence_counter f 0 (app.classes t).num_frames_per_cycle in
      elim (count_datagram call s seq) [
        | some s' ↦ some (stamped, datagrams (app.classes t) call stamped, s')
        | none ↦ none
      ]

  -- udp_gen_and_send_frame
  unfoldable pub udp_gen_and_send_frame :
      State D → List ℕ → ℕ → SendTo → Option (List ℕ × List (List ℕ) × State D)
  udp_gen_and_send_frame s f sequence_counter call =
      let n = (app.classes t).num_frames_per_cycle in
      let built =
        tx_timestamp_to_meta_data (sequence_counter_to_meta_data f 0 sequence_counter n) 0
          call.tx_now in
      elim (count_datagram call s sequence_counter) [
        | some s' ↦ some (built, datagrams (app.classes t) call built, s')
        | none ↦ none
      ]

  -- The loop of udp_tx_thread_routine that generates, one datagram for each call of sendto: the
  -- thread, and the datagrams on the wire
  unfoldable pub udp_generate : UdpTx D → List SendTo → Option (UdpTx D × List (List ℕ))
  udp_generate tx [] = some (tx, [])
  udp_generate tx (call ∷ calls) =
      elim (udp_gen_and_send_frame tx.stat tx.frame tx.sequence_counter call) [
        | some (built, sent, s) ↦
            elim (udp_generate
              (record tx {
                frame = built;
                sequence_counter = u64 (tx.sequence_counter + 1);
                stat = s;
              })
              calls) [ some (tx', wire) ↦ some (tx', sent ++ wire) | none ↦ none ]
        | none ↦ none
      ]

-- The report of udp_rx_thread_routine on a datagram of the right length; `stamped` is the datagram
-- with the mirror's time stamp.
unfoldable pub udp_report : ClassConfig → RxContext → (f stamped : List ℕ) → FrameReport
udp_report conf ctx f stamped =
    let rx_sequence_counter = meta_data_to_sequence_counter f 0 conf.num_frames_per_cycle in
    record {
      cycle_number = rx_sequence_counter;
      out_of_order = not (ctx.rx_sequence_counter == rx_sequence_counter);
      payload_mismatch = not (
          equal_bytes (slice sizeof_reference_meta_data (length conf.payload_pattern) stamped)
            conf.payload_pattern);
      frame_id_mismatch = false;
      tx_timestamp = meta_data_to_tx_timestamp f 0;
      rx_hw_timestamp = 0;
      rx_sw_timestamp = 0;
    }

-- The body of the loop in udp_rx_thread_routine, on a datagram of `len` bytes
unfoldable pub udp_rx_frame :
    {D : Type 0}
    → DoubleOps D
    → AppConfig
    → Build
    → FrameType
    → State D
    → RxContext
    → List ℕ
    → ℕ
    → RxTimes
    → RxResult D
udp_rx_frame o app build t s ctx f len times =
    let conf = app.classes t in
    let stamped = set_mirror_tx_timestamp_est app f 0 times.mirror_now in
    let report = udp_report conf ctx f stamped in
    let (s', stopped) = stat_frame_received o app build s t report times.stat_now in
    let counted = record ctx {
      rx_sequence_counter = next_sequence_counter ctx.rx_sequence_counter report.out_of_order;
    } in
    if not (len == conf.frame_length)
    then record { error = some wrong_length; state = s; stopped = false; context = ctx; frame = f }
    else if not conf.rx_mirror_enabled
    then record { error = none; state = s'; stopped = stopped; context = counted; frame = stamped }
    else record {
      error = none;
      state = s';
      stopped = stopped;
      context = record counted { mirror_buffer = add counted.mirror_buffer (take len stamped) };
      frame = stamped;
    }
