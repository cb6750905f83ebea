-- ===== src/Tc/Rounds.antt =====
-- A round of tc_tx_thread of src/tc.c without a mirror: it sends new frames or none.
use rtc_testbench.Base.{
  ℕ, zero, suc, ◌+◌, ◌≡◌, ◌≢◌, refl, ap, ◌⊎◌, inl, inr, Bool, true, false, ◌||◌, Option, none, some,
  List, [], arith, u64, ◌==◌, if◌then◌else◌,
}
use rtc_testbench.Types.{AppConfig, FrameType, Build}
use rtc_testbench.Stat.State.{DoubleOps, State}
use rtc_testbench.Stat.Period.{stat_update}
use rtc_testbench.Workload.{workload_check_finished}
use rtc_testbench.Rx.Profinet.{Cipher}
use rtc_testbench.Packet.{Message}
use rtc_testbench.Tc.{
  TxThread, Events, WaitResult, wait_send, wait_stop, wait_error, is_standalone,
  tc_wait_for_tx_cycle,
}
use rtc_testbench.Tc.Cycle.{
  TxLoop, Turn, gen_frames, tc_send_messages, tc_gen_and_send_frames, cycle_frames, end_turn,
  send_turn, by_wait, tx_round,
}

-- What a result satisfies, if there is one.
abbrev pub Yields : {A : Type 0} → (A → Type 0) → Option A → Type 0
Yields P (some a) = P a
Yields P none = Unit {0}

-- A thread that has sent its frames is `num_frames_per_cycle` further on.
abbrev pub advanced : AppConfig → FrameType → TxThread → TxThread
advanced app t ctx = record ctx {
  sequence_counter = u64 (ctx.sequence_counter + (app.classes t).num_frames_per_cycle);
}

module _ (cipher : Cipher) (app : AppConfig) (build : Build) (t : FrameType) (pattern : List ℕ)
    (duration fuel : ℕ) where
  -- The frames that a round generates over the old ones.
  abbrev pub frames_of : List (List ℕ) → ℕ → Events → List (List ℕ)
  frames_of old begin ev = gen_frames cipher app t pattern begin ev.tx_now 0 old

  -- The new frames are in the buffers, and the wire is what the socket took of them.
  pub record Sends (old : List (List ℕ)) (ctx : TxThread) (ev : Events) (g : TxThread)
      (frames : List (List ℕ)) (wire : List Message) : Type 0 where
    pub thread : g ≡ advanced app t ctx
    pub generated : frames ≡ frames_of old ctx.sequence_counter ev
    pub taken :
        wire
        ≡ (tc_send_messages app build t duration fuel ev
            (frames_of old ctx.sequence_counter ev)).wire

  -- Nothing is sent.
  pub record Idle (old : List (List ℕ)) (ctx g : TxThread) (frames : List (List ℕ))
      (wire : List Message) : Type 0 where
    pub thread : g ≡ ctx
    pub kept : frames ≡ old
    pub taken : wire ≡ []

  -- Which of the two, for the number of frames that the wait gave.
  abbrev pub Cycled :
      List (List ℕ) → TxThread → ℕ → Events → TxThread → List (List ℕ) → List Message → Type 0
  Cycled old ctx num_frames ev g frames wire =
      ((num_frames ≡ 0) × Idle old ctx g frames wire)
      ⊎ ((num_frames ≢ 0) × Sends old ctx ev g frames wire)

  -- A round that waited to the end sends by the number of frames, another sends nothing.
  abbrev pub Rounded :
      List (List ℕ)
      → TxThread
      → ℕ
      → Events
      → WaitResult
      → TxThread
      → List (List ℕ)
      → List Message
      → Type 0
  Rounded old ctx num_frames ev wait_send g frames wire = Cycled old ctx num_frames ev g frames wire
  Rounded old ctx num_frames ev result g frames wire = Idle old ctx g frames wire

module _ {D : Type 0} (cipher : Cipher) (app : AppConfig) (build : Build) (t : FrameType)
    (pattern : List ℕ) (duration fuel : ℕ) where
  generated_lem :
      (l : TxLoop D) (ev : Events) (r : TxLoop D × List Message)
      → tc_gen_and_send_frames cipher app build t pattern duration fuel l ev ≡ some r
      → (r.0.thread ≡ l.thread)
        × (r.0.tx_frames
            ≡ frames_of cipher app build t pattern duration fuel l.tx_frames
                l.thread.sequence_counter ev)
        × (r.1
            ≡ (tc_send_messages app build t duration fuel ev (
                frames_of cipher app build t pattern duration fuel l.tx_frames
                  l.thread.sequence_counter ev)).wire)
  unfolding tc_gen_and_send_frames
  generated_lem l ev r e = ground (arith, e)

  cycle_frames-Cycled :
      (max_frame_size : ℕ) (l : TxLoop D) (num_frames : ℕ) (ev : Events)
      → (app.classes t).rx_mirror_enabled ≡ false
      → Yields
          (λ (r : TxLoop D × List Message).
            Cycled cipher app build t pattern duration fuel l.tx_frames l.thread num_frames ev
              r.0.thread r.0.tx_frames r.1)
          (cycle_frames cipher app build t pattern duration fuel max_frame_size l num_frames ev)
  unfolding cycle_frames
  cycle_frames-Cycled max_frame_size l zero ev m =
      rw m (inl (refl, record { thread = refl; kept = refl; taken = refl }))
  cycle_frames-Cycled max_frame_size l (suc k) ev m =
      rw (m, suc_test)
        (counted (tc_gen_and_send_frames cipher app build t pattern duration fuel l ev)
          (generated_lem l ev))
    where
      n : ℕ
      n = (app.classes t).num_frames_per_cycle

      suc_test : (suc k == 0) ≡ false
      suc_test = ground arith

      counted :
          (x : Option (TxLoop D × List Message))
          → ((r : TxLoop D × List Message)
              → x ≡ some r
              → (r.0.thread ≡ l.thread)
                × (r.0.tx_frames
                    ≡ frames_of cipher app build t pattern duration fuel l.tx_frames
                        l.thread.sequence_counter ev)
                × (r.1
                    ≡ (tc_send_messages app build t duration fuel ev (
                        frames_of cipher app build t pattern duration fuel l.tx_frames
                          l.thread.sequence_counter ev)).wire))
          → Yields
              (λ (r : TxLoop D × List Message).
                Cycled cipher app build t pattern duration fuel l.tx_frames l.thread
                  (suc k)
                  ev
                  r.0.thread
                  r.0.tx_frames
                  r.1)
              (elim x [
                | some (g, wire) ↦ some (record g { thread = advanced app t g.thread }, wire)
                | none ↦ none
              ])
      counted none h = _
      counted (some (g, wire)) h =
          let (same, frames, taken) = h (g, wire) refl in
          inr (
            (λ e. omega arith),
            record { thread = ap (advanced app t) same; generated = frames; taken = taken },
          )

module _ {D : Type 0} (o : DoubleOps D) (cipher : Cipher) (app : AppConfig) (build : Build)
    (t : FrameType) (pattern : List ℕ) (duration fuel max_frame_size : ℕ) where
  by_wait-Rounded :
      (l : TxLoop D) (num_frames : ℕ) (ev : Events) (result : WaitResult)
      → (app.classes t).rx_mirror_enabled ≡ false
      → Yields
          (λ (r : Turn D).
            Rounded cipher app build t pattern duration fuel l.tx_frames l.thread num_frames ev
              result r.next.thread r.next.tx_frames r.wire)
          (by_wait o cipher app build t pattern duration fuel max_frame_size l num_frames ev result)
  unfolding by_wait send_turn end_turn
  by_wait-Rounded l num_frames ev wait_stop m = record { thread = refl; kept = refl; taken = refl }
  by_wait-Rounded l num_frames ev wait_error m = record { thread = refl; kept = refl; taken = refl }
  by_wait-Rounded l num_frames ev wait_send m =
      ended
        (cycle_frames cipher app build t pattern duration fuel max_frame_size checked num_frames ev)
        (cycle_frames-Cycled cipher app build t pattern duration fuel max_frame_size checked
          num_frames ev m)
    where
      checked : TxLoop D
      checked = record l { stat = workload_check_finished o app l.stat t l.running }

      -- What is said of a round, by the members that it is about.
      Said : TxLoop D → List Message → Type 0
      Said g wire =
          Cycled cipher app build t pattern duration fuel l.tx_frames l.thread num_frames ev
            g.thread g.tx_frames wire

      with_stat :
          (b : Bool) (g : TxLoop D) (s : State D) (wire : List Message)
          → Said g wire
          → Said (if b then record g { stat = s } else g) wire
      with_stat true g s wire c = c
      with_stat false g s wire c = c

      ended :
          (x : Option (TxLoop D × List Message))
          → Yields (λ (r : TxLoop D × List Message). Said r.0 r.1) x
          → Yields
              (λ (r : Turn D). Said r.next r.wire)
              (elim x [ some (g, wire) ↦ some (end_turn o app build g wire ev) | none ↦ none ])
      ended none h = _
      ended (some (g, wire)) h =
          with_stat (g.thread.is_last || is_standalone g.thread.tx_model) g
            (stat_update o app build g.stat ev.stat_now) wire h

  -- A round behind a wait that is known.
  pub tx_round-Rounded :
      (l : TxLoop D) (ev : Events) (result : WaitResult) (num_frames : ℕ) (ctx : TxThread)
      → (app.classes t).rx_mirror_enabled ≡ false
      → tc_wait_for_tx_cycle fuel app (app.classes t) l.thread ev ≡ some (result, num_frames, ctx)
      → Yields
          (λ (r : Turn D).
            Rounded cipher app build t pattern duration fuel l.tx_frames ctx num_frames ev result
              r.next.thread r.next.tx_frames r.wire)
          (tx_round o cipher app build t pattern duration fuel max_frame_size l ev)
  unfolding tx_round
  tx_round-Rounded l ev result num_frames ctx m e =
      rw (tx_round, e) (by_wait-Rounded (record l { thread = ctx }) num_frames ev result m)
