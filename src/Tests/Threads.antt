-- ===== src/Tests/Threads.antt =====
-- The cycles of Tx threads at concrete inputs.
use rtc_testbench.Base.{
  ℕ, ◌≤◌, ◌≡◌, refl, inl, inr, true, false, some, List, [], ◌∷◌, arith, replicate,
}
use rtc_testbench.Types.{is_ethercat, FrameType, AppConfig, generic_l2, lldp}
use rtc_testbench.Stat.State.{empty_entry, stat_reset}
use rtc_testbench.Packet.{Message, Reply, accepted, finished, packet_send_messages}
use rtc_testbench.Packet.Concludes.{Responds}
use rtc_testbench.Packet.Sends.{IsPrefix, Willing, packet_send_messages_complete}
use rtc_testbench.Rx.Layer2.{generic_l2_initialize_frame}
use rtc_testbench.Rx.Sent.{initialize-Filled}
use rtc_testbench.Rx.Track.{rx_all, out_of_order_of}
use rtc_testbench.Tc.{TxModel, tx_standalone, tx_burst, Events, tc_tx_gen_round}
use rtc_testbench.Tc.Cycle.{TxLoop, Turn, tx_round, tc_tx_thread}
use rtc_testbench.Tc.Burst.{begin, generate, turn, Handover, Run-Handover}
use rtc_testbench.Tc.Stream.{IsPlain}
use rtc_testbench.Tc.Delivered.{delivered, IsServed, IsReady}
use rtc_testbench.Tc.InOrder.{tc_tx_thread-in_order}
use rtc_testbench.Tc.Returns.{Answers, IsBounded, result_of}
use rtc_testbench.Tc.Ends.{IsSound, Gone, tx_round-Returns, tc_tx_thread-Returns}
use rtc_testbench.Tests.Data.{app_config, build, class_config}
use rtc_testbench.Tests.Stats.{whole}
use rtc_testbench.Tests.Sealed.{toy}
use rtc_testbench.Tests.Arrivals.{state, times, context}

abbrev message : ℕ → Message
message n = record { frame = n ∷ []; tx_time = some n; hwtstamp = false }

abbrev messages : List Message
messages = message 1 ∷ message 2 ∷ message 3 ∷ []

packet_send_messages_complete_example :
    let rs = accepted 1 ∷ accepted 5 ∷ accepted 1 ∷ [] in
    let s = packet_send_messages 3 2 messages rs in
    IsPrefix messages s
    × (Willing rs → 3 ≤ 3 → (rs' : List Reply) × (s.end ≡ finished rs') × (s.wire ≡ messages))
packet_send_messages_complete_example =
    packet_send_messages_complete 3 2 messages (accepted 1 ∷ accepted 5 ∷ accepted 1 ∷ [])
      (omega arith) (omega arith)

abbrev reference_app : AppConfig
reference_app = record app_config {
  classes = λ t. record class_config { rx_mirror_enabled = false };
}

abbrev frame : List ℕ
frame =
    generic_l2_initialize_frame (reference_app.classes generic_l2) (replicate 40 7) (replicate 6 2)
      (replicate 6 4)

abbrev start : TxModel → TxLoop ℕ
start model = record {
  thread = record {
    tx_model = model;
    is_first = false;
    is_last = true;
    has_next = false;
    num_frames_available = 0;
    sequence_counter = 0;
    wakeup_time = record { tv_sec = 5; tv_nsec = 0 };
  };
  tx_frames = frame ∷ frame ∷ [];
  mirror_buffer = record { size = 0; count = 0; wp = 0; rp = 0; bytes = [] };
  running = [];
  stat = record state {
    round_trip_contexts =
        λ t. record { allocated = true; backlog = replicate 8 empty_entry; backlog_len = 8 };
  };
}

abbrev events : Events
events = record {
  timed_out = false;
  nanosleep = 4 ∷ 0 ∷ [];
  tx_now = 7000;
  launch_now = 7100;
  replies = accepted 1 ∷ accepted 1 ∷ [];
  sent_now = 7200;
  stat_now = 7300;
}

answers : Answers events.nanosleep
answers = inr (inl (omega arith))

responds : Responds 2 events.replies
responds = ((omega arith, (omega arith, _)), inl (omega arith))

start-IsSound :
    (model : TxModel) (t : FrameType)
    → IsSound whole toy reference_app build t [] 12 9 2048 (start model)
start-IsSound model t = record {
  backlog = record { storage = refl; nonempty = omega arith };
  wakeup = omega arith;
  number = refl;
}

-- The run of tc_tx_thread over two cycles.
abbrev run :
    (next : TxLoop ℕ) × (wire : List Message) × (tc_tx_thread whole toy reference_app build
        generic_l2 [] 12 9 2048
        (start tx_standalone)
        (events ∷ events ∷ [])
      ≡ some (next, wire))
    × IsSound whole toy reference_app build generic_l2 [] 12 9 2048 next
run =
    tc_tx_thread-Returns whole toy reference_app build generic_l2 [] 12 9 2048
      (events ∷ events ∷ []) (start tx_standalone) refl (omega arith) (omega arith) (omega arith)
      (omega arith) (omega arith) (start-IsSound tx_standalone generic_l2)
      ((answers, responds), ((answers, responds), _))

start-IsReady : IsReady reference_app (start tx_standalone)
start-IsReady =
    let (filled, l) =
      initialize-Filled (reference_app.classes generic_l2) (replicate 40 7) (replicate 6 2)
        (replicate 6 4) (omega arith) in
    record { filled = (filled, (filled, _)); number = refl }

reference_app-IsPlain : IsPlain (reference_app.classes generic_l2)
unfolding is_ethercat
reference_app-IsPlain = record { protocol = refl; mode = refl; long = omega arith }

events-IsServed : IsServed 2 events
events-IsServed = record {
  willing = (omega arith, (omega arith, _));
  calls = omega arith;
  clock = omega arith;
}

tc_tx_thread-in_order_example :
    let r =
      rx_all whole reference_app build 2048
        (replicate 2048 0)
        state
        (context 0)
        (delivered reference_app times run.1) in
    (out_of_order_of (r.0) ≡ 0) × ((r.1).rx_sequence_counter ≡ run.0.thread.sequence_counter)
unfolding stat_reset
tc_tx_thread-in_order_example =
    tc_tx_thread-in_order whole toy reference_app build [] 12 9 2048 times (events ∷ events ∷ [])
      (start tx_standalone) run.0 run.1 build (replicate 2048 0) state (context 0) refl
      reference_app-IsPlain (omega arith) (omega arith) (omega arith) (omega arith) (omega arith)
      (omega arith) start-IsReady (events-IsServed, (events-IsServed, _)) refl run.2

-- A burst that was generated.
abbrev filled_up : TxLoop ℕ
filled_up = record (start tx_burst) {
  thread = tc_tx_gen_round (reference_app.classes lldp) (start tx_burst).thread;
}

filled_up-IsBounded : IsBounded reference_app lldp 9 filled_up.thread.sequence_counter
unfolding tc_tx_gen_round
filled_up-IsBounded = record {
  some_frames = omega arith;
  counter = omega arith;
  batches = omega arith;
}

filled_up-IsSound : IsSound whole toy reference_app build lldp [] 12 9 2048 filled_up
unfolding tc_tx_gen_round
filled_up-IsSound = record {
  backlog = record { storage = refl; nonempty = omega arith };
  wakeup = omega arith;
  number = refl;
}

abbrev sending :
    (r : Turn ℕ) × (tx_round whole toy reference_app build lldp [] 12 9 2048 filled_up events
      ≡ some r)
    × Gone whole toy reference_app build lldp [] 12 9 2048 filled_up r.next
sending =
    result_of
      (λ (r : Turn ℕ). Gone whole toy reference_app build lldp [] 12 9 2048 filled_up r.next)
      (tx_round whole toy reference_app build lldp [] 12 9 2048 filled_up events)
      (tx_round-Returns whole toy reference_app build lldp [] 12 9 2048 filled_up events refl
        (omega arith) (omega arith) filled_up-IsBounded filled_up-IsSound answers responds)

Run-Handover_example :
    (sent : ℕ) × Handover whole toy reference_app build lldp [] 12 9 2048 1 sent
      (sending.0.wire)
      (sending.0.next)
Run-Handover_example =
    Run-Handover whole toy reference_app build lldp [] 12 9 2048 (start tx_burst) (sending.0.next) 1
      (sending.0.wire) refl refl refl refl refl (omega arith)
      (turn (generate begin) events (sending.0) sending.1)
