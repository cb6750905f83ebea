-- ===== src/Tc/Returns.antt =====
-- The parts of a round of tc_tx_thread of src/tc.c that loop.
use rtc_testbench.Base.{
  ℕ, ◌+◌, ◌≤◌, ◌<◌, ◌^◌, ◌≡◌, ◌≢◌, refl, sym, ap, ◌∙◌, ◌⊎◌, inl, inr, Bool, false, ◌&&◌, ◌||◌,
  Option, none, some, List, [], ◌∷◌, map, arith, length, u64, Bool-cases, ◌==◌, if◌then◌else◌,
}
use mathlib.Core.Path.{subst}
use rtc_testbench.Types.{AppConfig, FrameType, Build}
use rtc_testbench.Stat.State.{DoubleOps, State, assign_same, is_reference, is_tx_timestamps}
use rtc_testbench.Stat.Stamps.{IsBacklog}
use rtc_testbench.Stat.Sent.{stat_frames_sent_batch}
use rtc_testbench.Stat.RoundTrip.{Fits, batch-total}
use rtc_testbench.Stat.Period.{stat_update, stat_inc_workload_outlier}
use rtc_testbench.Workload.{workload_check_finished, check_running}
use rtc_testbench.Rx.Profinet.{Cipher}
use rtc_testbench.Frame.{get_meta_data_offset}
use rtc_testbench.Packet.{Message, message_of, End, finished, failed, unfinished}
use rtc_testbench.Packet.Concludes.{Responds, Concludes, packet_send_messages-Concludes}
use rtc_testbench.Tc.{TxThread, Events, eintr, sleep}
use rtc_testbench.Tc.Burst.{length-gen_frames, length-map_lem}
use rtc_testbench.Tc.Cycle.{
  TxLoop, gen_frames, sent_count, tc_send_messages, tc_gen_and_send_frames, cycle_frames,
}

-- There is a result, and it satisfies this.
abbrev pub Returns : {A : Type 0} → (A → Type 0) → Option A → Type 0
Returns P (some a) = P a
Returns P none = ⊥

-- The result that there is.
pub result_of :
    {A : Type 0} (P : A → Type 0) (x : Option A) → Returns P x → (a : A) × (x ≡ some a) × P a
result_of P none h = absurd h
result_of P (some a) h = (a, refl, h)

-- The calls of clock_nanosleep do not all end early.
abbrev pub Answers : List ℕ → Type 0
Answers [] = ⊥
Answers (ret ∷ rets) = (ret ≢ eintr) ⊎ Answers rets

pub sleep-Returns : (rets : List ℕ) → Answers rets → Returns (λ (r : ℕ). Unit {0}) (sleep rets)
unfolding sleep
sleep-Returns [] h = h
sleep-Returns (ret ∷ rets) h = ground (arith, h, sleep-Returns rets)

module _ {D : Type 0} (app : AppConfig) (build : Build) (t : FrameType) where
  -- The backlog of the class is a backlog.
  abbrev pub HasBacklog : State D → Type 0
  HasBacklog s = IsBacklog ((s.round_trip_contexts) t)

  pub batch-Returns :
      (fuel : ℕ) (s : State D) (begin n now : ℕ)
      → HasBacklog s
      → 0 < (app.classes t).num_frames_per_cycle
      → Fits app t fuel (record { cycle_number = begin; frame_count = n; now = now })
      → Returns HasBacklog (stat_frames_sent_batch fuel app build s t begin n now)
  unfolding stat_frames_sent_batch
  batch-Returns fuel s begin n now v p f =
      let (rtt, e, w, l) =
        batch-total app t fuel ((s.round_trip_contexts) t)
          (record { cycle_number = begin; frame_count = n; now = now }) v p f in
      let kept = assign_same s.round_trip_contexts t ((s.round_trip_contexts) t) in
      let stamped = assign_same s.round_trip_contexts t rtt in
      elim (Bool-cases (
        (is_reference s.log_stat_user_selected || is_tx_timestamps s.log_stat_user_selected)
        && ((s.round_trip_contexts) t).allocated)) [
          | inl on ↦ rw (on, e) (subst IsBacklog (sym stamped) w)
          | inr off ↦ rw off (subst IsBacklog (sym kept) v)
        ]

module _ {D : Type 0} (o : DoubleOps D) (app : AppConfig) where
  late-context :
      (b : Bool) (s : State D) (t : FrameType) (i : ℕ)
      → (if b then stat_inc_workload_outlier o app s i t else s).round_trip_contexts
        ≡ s.round_trip_contexts
  unfolding stat_inc_workload_outlier
  late-context b s t i = ground arith

  check_running-context :
      (rs : List Bool) (s : State D) (t : FrameType) (i : ℕ)
      → (check_running o app s t i rs).round_trip_contexts ≡ s.round_trip_contexts
  unfolding check_running
  check_running-context [] s t i = refl
  check_running-context (r ∷ rs) s t i =
      check_running-context rs (if r then stat_inc_workload_outlier o app s i t else s) t (i + 1)
      ∙ late-context r s t i

  pub workload_check_finished-context :
      (s : State D) (t : FrameType) (rs : List Bool)
      → (workload_check_finished o app s t rs).round_trip_contexts ≡ s.round_trip_contexts
  unfolding workload_check_finished
  workload_check_finished-context s t rs = ground (arith, check_running-context rs s t 0)

  pub stat_update-context :
      (build : Build) (s : State D) (now : ℕ)
      → (stat_update o app build s now).round_trip_contexts ≡ s.round_trip_contexts
  unfolding stat_update
  stat_update-context build s now = ground arith

-- The numbers of a round: a frame per cycle, no counter that wraps, fuel for its loops.
pub record IsBounded (app : AppConfig) (t : FrameType) (fuel seq : ℕ) : Type 0 where
  pub some_frames : 0 < (app.classes t).num_frames_per_cycle
  pub counter :
      seq + (app.classes t).num_frames_per_cycle + (app.classes t).num_frames_per_cycle < 2 ^ 64
  pub batches : (app.classes t).num_frames_per_cycle + (app.classes t).num_frames_per_cycle < fuel

module _ (app : AppConfig) (build : Build) (t : FrameType) (duration fuel : ℕ) where
  -- The loops of the transmission end.
  sending-Concludes :
      (ev : Events) (fs : List (List ℕ))
      → IsBounded app t fuel 0
      → length fs ≡ (app.classes t).num_frames_per_cycle
      → Responds ((app.classes t).num_frames_per_cycle) ev.replies
      → Concludes 0 ((tc_send_messages app build t duration fuel ev fs).end)
  unfolding tc_send_messages
  sending-Concludes ev fs b l h =
      let message =
        message_of app build t (get_meta_data_offset t (app.classes t).security_mode) duration
          ev.launch_now in
      let lm = length-map_lem message fs in
      packet_send_messages-Concludes fuel (app.classes t).num_frames_per_cycle (map message fs)
        ev.replies b.some_frames (omega (arith, lm, l, b.batches))
        (subst (λ (k : ℕ). Responds k ev.replies) (sym (lm ∙ l)) h)

module _ {D : Type 0} (cipher : Cipher) (app : AppConfig) (build : Build) (t : FrameType)
    (pattern : List ℕ) (duration fuel : ℕ) where
  -- What a part of a round keeps.
  pub record Keeps (l g : TxLoop D) : Type 0 where
    pub backlog : HasBacklog app build t g.stat
    pub wakeup : g.thread.wakeup_time ≡ l.thread.wakeup_time
    pub number : length g.tx_frames ≡ length l.tx_frames
    pub further :
        g.thread.sequence_counter ≤ l.thread.sequence_counter + (app.classes t).num_frames_per_cycle

  gen-Returns :
      (l : TxLoop D) (ev : Events)
      → IsBounded app t fuel l.thread.sequence_counter
      → HasBacklog app build t l.stat
      → length l.tx_frames ≡ (app.classes t).num_frames_per_cycle
      → Responds ((app.classes t).num_frames_per_cycle) ev.replies
      → Returns
          (λ (r : TxLoop D × List Message).
            HasBacklog app build t r.0.stat
            × (r.0.thread ≡ l.thread)
            × (length r.0.tx_frames ≡ length l.tx_frames))
          (tc_gen_and_send_frames cipher app build t pattern duration fuel l ev)
  unfolding tc_gen_and_send_frames sent_count
  gen-Returns l ev b v n h =
      let frames =
        gen_frames cipher app t pattern l.thread.sequence_counter ev.tx_now 0 l.tx_frames in
      let lg =
        length-gen_frames cipher app t pattern l.thread.sequence_counter ev.tx_now 0 l.tx_frames in
      let sending = tc_send_messages app build t duration fuel ev frames in
      let fresh : IsBounded app t fuel 0 = record {
        some_frames = b.some_frames;
        counter = omega (arith, b.counter);
        batches = b.batches;
      } in
      by_end (record l { tx_frames = frames }) (sending.wire) (length frames) (sending.end)
        (sending-Concludes app build t duration fuel ev frames fresh (lg ∙ n) h)
        (omega (arith, lg, n)) v refl lg
    where
      Good : TxLoop D × List Message → Type 0
      Good r =
          HasBacklog app build t r.0.stat
          × (r.0.thread ≡ l.thread)
          × (length r.0.tx_frames ≡ length l.tx_frames)

      recorded :
          (next : TxLoop D) (wire : List Message) (x : Option (State D))
          → next.thread ≡ l.thread
          → length next.tx_frames ≡ length l.tx_frames
          → Returns (HasBacklog app build t) x
          → Returns Good (elim x [ some s ↦ some (record next { stat = s }, wire) | none ↦ none ])
      recorded next wire none a c h = h
      recorded next wire (some s) a c h = (h, a, c)

      counted :
          (next : TxLoop D) (wire : List Message) (len : ℕ)
          → len ≤ (app.classes t).num_frames_per_cycle
          → HasBacklog app build t next.stat
          → next.thread ≡ l.thread
          → length next.tx_frames ≡ length l.tx_frames
          → Returns Good (
              if len == 0
              then some (next, wire)
              else elim (stat_frames_sent_batch fuel app build l.stat t l.thread.sequence_counter
                  len ev.sent_now) [ some s ↦ some (record next { stat = s }, wire) | none ↦ none ])
      counted next wire len h w a c = elim (Bool-cases (len == 0)) [
        | inl z ↦ rw z (w, a, c)
        | inr z ↦ rw z (
            recorded next wire
              (stat_frames_sent_batch fuel app build l.stat t l.thread.sequence_counter len
                ev.sent_now)
              a c
              (batch-Returns app build t fuel l.stat l.thread.sequence_counter len ev.sent_now v
                b.some_frames (omega (arith, b.counter, h), omega (arith, b.batches, h))))
      ]

      by_end :
          (next : TxLoop D) (wire : List Message) (len : ℕ) (e : End)
          → Concludes 0 e
          → len ≤ (app.classes t).num_frames_per_cycle
          → HasBacklog app build t next.stat
          → next.thread ≡ l.thread
          → length next.tx_frames ≡ length l.tx_frames
          → Returns Good (elim (sent_count len e) [
            | some k ↦
                if k == 0
                then some (next, wire)
                else elim (stat_frames_sent_batch fuel app build l.stat t l.thread.sequence_counter
                    k ev.sent_now) [ some s ↦ some (record next { stat = s }, wire) | none ↦ none ]
            | none ↦ none
          ])
      by_end next wire len (finished rs) x h w a c = counted next wire len h w a c
      by_end next wire len (failed e) x h w a c = counted next wire 0 (omega arith) w a c
      by_end next wire len unfinished x h w a c = absurd x

  pub cycle_frames-Returns :
      (max_frame_size : ℕ) (l : TxLoop D) (num_frames : ℕ) (ev : Events)
      → (app.classes t).rx_mirror_enabled ≡ false
      → IsBounded app t fuel l.thread.sequence_counter
      → HasBacklog app build t l.stat
      → length l.tx_frames ≡ (app.classes t).num_frames_per_cycle
      → Responds ((app.classes t).num_frames_per_cycle) ev.replies
      → Returns
          (λ (r : TxLoop D × List Message). Keeps l r.0)
          (cycle_frames cipher app build t pattern duration fuel max_frame_size l num_frames ev)
  unfolding cycle_frames
  cycle_frames-Returns max_frame_size l num_frames ev m b v n h =
      elim (Bool-cases (num_frames == 0)) [
        | inl z ↦
            rw (m, z) (record { backlog = v; wakeup = refl; number = refl; further = omega arith })
        | inr z ↦
            rw (m, z)
              (moved (tc_gen_and_send_frames cipher app build t pattern duration fuel l ev)
                (gen-Returns l ev b v n h))
      ]
    where
      moved :
          (x : Option (TxLoop D × List Message))
          → Returns
              (λ (r : TxLoop D × List Message).
                HasBacklog app build t r.0.stat
                × (r.0.thread ≡ l.thread)
                × (length r.0.tx_frames ≡ length l.tx_frames))
              x
          → Returns
              (λ (r : TxLoop D × List Message). Keeps l r.0)
              (elim x [
                | some (g, wire) ↦ some (
                  record g {
                    thread = record g.thread {
                      sequence_counter =
                          u64 (g.thread.sequence_counter + (app.classes t).num_frames_per_cycle);
                    };
                  },
                  wire,
                )
                | none ↦ none
              ])
      moved none h = h
      moved (some (g, wire)) (w, a, c) = record {
        backlog = w;
        wakeup = ap (λ (x : TxThread). x.wakeup_time) a;
        number = c;
        further = omega (arith, ap (λ (x : TxThread). x.sequence_counter) a);
      }
