-- ===== src/Tc/Cycle.antt =====
-- One cycle of the loop in tc_tx_thread of src/tc.c: the wait, the frames, the signal to the next
-- class and the statistics.
use rtc_testbench.Base.{
  ℕ, zero, suc, ◌+◌, ◌*◌, ◌/◌, Bool, false, ◌||◌, Option, none, some, List, [], ◌∷◌, ◌++◌, map,
  length, slice, drop, ◌==◌, if◌then◌else◌, u64,
}
use rtc_testbench.Types.{AppConfig, ClassConfig, FrameType, Build, is_mode_none}
use rtc_testbench.Frame.{
  get_meta_data_offset, meta_data_to_sequence_counter, tx_timestamp_to_meta_data,
}
use rtc_testbench.RingBuffer.{RingBuffer, fetch}
use rtc_testbench.Stat.State.{DoubleOps, State}
use rtc_testbench.Stat.Sent.{stat_frames_sent_batch}
use rtc_testbench.Stat.Period.{stat_update}
use rtc_testbench.Workload.{workload_check_finished}
use rtc_testbench.Rx.Profinet.{Cipher}
use rtc_testbench.Packet.{
  Message, message_of, End, finished, failed, unfinished, Sending, packet_send_messages,
}
use rtc_testbench.Tx.Prepare.{frame_config_of, prepare_frame_for_tx}
use rtc_testbench.Tc.{
  WaitResult, wait_send, wait_error, TxThread, Events, is_standalone, tc_wait_for_tx_cycle,
}

-- What the cycle of a class works on: the frames of `tx_frame_data`, the mirror's buffer, the flags
-- of the workload threads.
pub record TxLoop (D : Type 0) : Type 0 where
  pub thread : TxThread
  pub tx_frames : List (List ℕ)
  pub mirror_buffer : RingBuffer
  pub running : List Bool
  pub stat : State D

-- The end of a cycle: what the wait returned, what the socket took, and whether the next class was
-- signalled.
pub record Turn (D : Type 0) : Type 0 where
  pub wait : WaitResult
  pub next : TxLoop D
  pub wire : List Message
  pub signalled : Bool

-- A round, and what came of those behind it
unfoldable pub behind_round :
    {D : Type 0} → Turn D → Option (TxLoop D × List Message) → Option (TxLoop D × List Message)
behind_round r (some (l, wire)) = some (l, r.wire ++ wire)
behind_round r none = none

-- The result of packet_send_messages for `n` frames, 0 in place of an error; `none` if it is still in
-- its loops.
unfoldable pub sent_count : ℕ → End → Option ℕ
sent_count n (finished rs) = some n
sent_count n (failed e) = some 0
sent_count n unfinished = none

-- The frames of a mirror's buffer
unfoldable pub frames_at : ℕ → ℕ → List ℕ → List (List ℕ)
frames_at zero size bytes = []
frames_at (suc n) size bytes = slice 0 size bytes ∷ frames_at n size (drop size bytes)

-- set_mirror_tx_timestamp
unfoldable pub set_mirror_tx_timestamp : ClassConfig → ℕ → ℕ → List (List ℕ) → List (List ℕ)
set_mirror_tx_timestamp conf m now frames =
    if is_mode_none conf.security_mode
    then map (λ f. tx_timestamp_to_meta_data f m now) frames
    else frames

module _ (app : AppConfig) (build : Build) (t : FrameType) (duration : ℕ) where
  -- tc_send_messages; `fuel` bounds the batches.
  unfoldable pub tc_send_messages : ℕ → Events → List (List ℕ) → Sending
  tc_send_messages fuel ev frames =
      packet_send_messages fuel (app.classes t).num_frames_per_cycle
        (map
          (message_of app build t (get_meta_data_offset t (app.classes t).security_mode) duration
            ev.launch_now)
          frames)
        ev.replies

module _ (cipher : Cipher) (app : AppConfig) (t : FrameType) (pattern : List ℕ) where
  -- The loop of tc_gen_and_send_frames, from the frame `i` on.
  unfoldable pub gen_frames : (sequence_counter_begin tx_now i : ℕ) → List (List ℕ) → List (List ℕ)
  gen_frames begin tx_now i [] = []
  gen_frames begin tx_now i (f ∷ fs) =
      prepare_frame_for_tx cipher
        (frame_config_of (app.classes t) t pattern (u64 (begin + i)) tx_now) f
      ∷ gen_frames begin tx_now (i + 1) fs

module _ {D : Type 0} (cipher : Cipher) (app : AppConfig) (build : Build) (t : FrameType)
    (pattern : List ℕ) (duration : ℕ) where
  -- tc_gen_and_send_frames
  unfoldable pub tc_gen_and_send_frames : ℕ → TxLoop D → Events → Option (TxLoop D × List Message)
  tc_gen_and_send_frames fuel l ev =
      let begin = l.thread.sequence_counter in
      let frames = gen_frames cipher app t pattern begin ev.tx_now 0 l.tx_frames in
      let sending = tc_send_messages app build t duration fuel ev frames in
      let next = record l { tx_frames = frames } in
      elim (sent_count (length frames) (sending.end)) [
        | some len ↦
            if len == 0
            then some (next, sending.wire)
            else elim (stat_frames_sent_batch fuel app build l.stat t begin len ev.sent_now) [
              | some s ↦ some (record next { stat = s }, sending.wire)
              | none ↦ none
            ]
        | none ↦ none
      ]

module _ {D : Type 0} (app : AppConfig) (build : Build) (t : FrameType) (duration : ℕ) where
  -- The loop of tc_send_frames over the frames that were sent; stat_frame_sent is a batch of one.
  unfoldable pub count_sent : ℕ → Events → State D → List (List ℕ) → Option (State D)
  count_sent fuel ev s [] = some s
  count_sent fuel ev s (f ∷ fs) =
      elim (stat_frames_sent_batch fuel app build s t
        (meta_data_to_sequence_counter f (get_meta_data_offset t (app.classes t).security_mode)
          (app.classes t).num_frames_per_cycle)
        1 ev.sent_now) [ some s' ↦ count_sent fuel ev s' fs | none ↦ none ]

  -- tc_send_frames, with the fetch of the frames before it; `received_frames_length` is their room.
  unfoldable pub tc_send_frames : ℕ → ℕ → TxLoop D → Events → Option (TxLoop D × List Message)
  tc_send_frames fuel received_frames_length l ev =
      let (bytes, mirror) = fetch l.mirror_buffer received_frames_length in
      let received =
        frames_at (length bytes / (app.classes t).frame_length) (app.classes t).frame_length
          bytes in
      let frames =
        set_mirror_tx_timestamp (app.classes t)
          (get_meta_data_offset t (app.classes t).security_mode) ev.tx_now received in
      let sending = tc_send_messages app build t duration fuel ev frames in
      let next = record l { mirror_buffer = mirror } in
      elim (sent_count (length frames) (sending.end)) [
        | some len ↦
            if len == 0
            then some (next, sending.wire)
            else elim (count_sent fuel ev l.stat frames) [
              | some s ↦ some (record next { stat = s }, sending.wire)
              | none ↦ none
            ]
        | none ↦ none
      ]

module _ {D : Type 0} (cipher : Cipher) (app : AppConfig) (build : Build) (t : FrameType)
    (pattern : List ℕ) (duration : ℕ) where
  -- The frames of a cycle: new ones if `num_frames` are wanted, or those of the mirror's buffer
  unfoldable pub cycle_frames : ℕ → ℕ → TxLoop D → ℕ → Events → Option (TxLoop D × List Message)
  cycle_frames fuel max_frame_size l num_frames ev =
      let n = (app.classes t).num_frames_per_cycle in
      if (app.classes t).rx_mirror_enabled
      then tc_send_frames app build t duration fuel (max_frame_size * n) l ev
      else if num_frames == 0
      then some (l, [])
      else elim (tc_gen_and_send_frames cipher app build t pattern duration fuel l ev) [
        | some (g, wire) ↦ some (
          record g {
            thread = record g.thread { sequence_counter = u64 (g.thread.sequence_counter + n) };
          },
          wire,
        )
        | none ↦ none
      ]

module _ {D : Type 0} (o : DoubleOps D) (app : AppConfig) (build : Build) where
  -- The signal to the next class, and the statistics
  unfoldable pub end_turn : TxLoop D → List Message → Events → Turn D
  end_turn g wire ev = record {
    wait = wait_send;
    next =
        if g.thread.is_last || is_standalone g.thread.tx_model
        then record g { stat = stat_update o app build g.stat ev.stat_now }
        else g;
    wire = wire;
    signalled = g.thread.has_next;
  }

module _ {D : Type 0} (o : DoubleOps D) (cipher : Cipher) (app : AppConfig) (build : Build)
    (t : FrameType) (pattern : List ℕ) (duration : ℕ) where
  -- What is behind the wait that said to send.
  unfoldable pub send_turn : ℕ → ℕ → TxLoop D → ℕ → Events → Option (Turn D)
  send_turn fuel max_frame_size l num_frames ev =
      let checked = record l { stat = workload_check_finished o app l.stat t l.running } in
      elim (cycle_frames cipher app build t pattern duration fuel max_frame_size checked num_frames
        ev) [ some (g, wire) ↦ some (end_turn o app build g wire ev) | none ↦ none ]

  -- What follows each result of the wait.
  unfoldable pub by_wait : ℕ → ℕ → TxLoop D → ℕ → Events → WaitResult → Option (Turn D)
  by_wait fuel max_frame_size l num_frames ev wait_send =
      send_turn fuel max_frame_size l num_frames ev
  by_wait fuel max_frame_size l num_frames ev result =
      some (record { wait = result; next = l; wire = []; signalled = false })

  -- One round of the loop; the thread returns if its wait failed, and goes on otherwise.
  unfoldable pub tx_round : ℕ → ℕ → TxLoop D → Events → Option (Turn D)
  tx_round fuel max_frame_size l ev =
      elim (tc_wait_for_tx_cycle fuel app (app.classes t) l.thread ev) [
        | some (result, num_frames, ctx) ↦
            by_wait fuel max_frame_size (record l { thread = ctx }) num_frames ev result
        | none ↦ none
      ]

  -- The loop of tc_tx_thread, over what its cycles meet: the thread, and what the socket took.
  unfoldable pub tc_tx_thread : ℕ → ℕ → TxLoop D → List Events → Option (TxLoop D × List Message)
  tc_tx_thread fuel max_frame_size l [] = some (l, [])
  tc_tx_thread fuel max_frame_size l (ev ∷ evs) = elim (tx_round fuel max_frame_size l ev) [
    | some r ↦ behind_round r (elim (r.wait) [
      | wait_error ↦ some (r.next, [])
      | _ ↦ tc_tx_thread fuel max_frame_size r.next evs
    ])
    | none ↦ none
  ]
