-- ===== src/Tc/Ends.antt =====
-- The end of the loops of tc_tx_thread of src/tc.c, over all its cycles.
use rtc_testbench.Base.{
  ℕ, suc, ◌+◌, ◌*◌, ◌/◌, ◌≤◌, ◌<◌, ◌^◌, ◌≡◌, refl, sym, ap, ◌∙◌, Bool, true, false, not, ◌&&◌, ◌||◌,
  Option, none, some, List, [], ◌∷◌, arith, length, ◌==◌, ltb, if◌then◌else◌,
}
use mathlib.Core.Path.{subst}
use rtc_testbench.Types.{AppConfig, ClassConfig, FrameType, Build}
use rtc_testbench.Stat.State.{DoubleOps, RoundTripContext}
use rtc_testbench.Stat.Stamps.{IsBacklog}
use rtc_testbench.Stat.Period.{stat_update}
use rtc_testbench.Workload.{workload_check_finished}
use rtc_testbench.Time.{Timespec, nsec_per_sec, ns_to_ts, ts_to_ns}
use rtc_testbench.Time.Period.{increment_period_lem}
use rtc_testbench.Rx.Profinet.{Cipher}
use rtc_testbench.Packet.{Message}
use rtc_testbench.Packet.Concludes.{Responds}
use rtc_testbench.Tc.{
  WaitResult, wait_send, wait_stop, wait_error, TxThread, Events, sleep, tc_sleep_until, is_burst,
  is_standalone, tc_wait_for_tx_burst, tc_wait_for_tx_cycle,
}
use rtc_testbench.Tc.Returns.{
  Returns, result_of, Answers, sleep-Returns, HasBacklog, IsBounded, Keeps, cycle_frames-Returns,
  workload_check_finished-context, stat_update-context,
}
use rtc_testbench.Tc.Cycle.{
  TxLoop, Turn, cycle_frames, end_turn, send_turn, by_wait, tx_round, behind_round, tc_tx_thread,
}

-- A time whose nanoseconds are below a second.
abbrev pub IsNormal : Timespec → Type 0
IsNormal ts = ts.tv_nsec < nsec_per_sec

if-Returns :
    {A : Type 0} (P : A → Type 0) (b : Bool) (x y : Option A)
    → Returns P x
    → Returns P y
    → Returns P (if b then x else y)
if-Returns P true x y h k = h
if-Returns P false x y h k = k

sleep_until-Returns :
    (fuel : ℕ) (wakeup : Timespec) (cycle_time : ℕ) (rets : List ℕ)
    → Answers rets
    → IsNormal wakeup
    → (nsec_per_sec + cycle_time) / nsec_per_sec < fuel
    → nsec_per_sec + cycle_time < 2 ^ 63
    → Returns (λ (r : ℕ × Timespec). IsNormal r.1) (tc_sleep_until fuel wakeup cycle_time rets)
unfolding tc_sleep_until ns_to_ts
sleep_until-Returns fuel wakeup cycle_time rets h n f c =
    rw (tc_sleep_until, increment_period_lem fuel wakeup cycle_time (omega (arith, f, n)), fits)
      (slept (sleep rets) (sleep-Returns rets h))
  where
    fits : ltb (wakeup.tv_nsec + cycle_time) (2 ^ 63) ≡ true
    fits = ground (arith, n, c)

    t : Timespec
    t = ns_to_ts (ts_to_ns wakeup + cycle_time)

    slept :
        (x : Option ℕ)
        → Returns (λ (r : ℕ). Unit {0}) x
        → Returns
            (λ (r : ℕ × Timespec). IsNormal r.1)
            (elim x [ some ret ↦ some (ret, t) | none ↦ none ])
    slept none h = h
    slept (some ret) h = omega arith

-- What a wait keeps of a thread.
abbrev Waited : TxThread → WaitResult × ℕ × TxThread → Type 0
Waited ctx w = IsNormal w.2.wakeup_time × (w.2.sequence_counter ≡ ctx.sequence_counter)

wait-Returns :
    (fuel : ℕ) (app : AppConfig) (conf : ClassConfig) (ctx : TxThread) (ev : Events)
    → Answers ev.nanosleep
    → IsNormal ctx.wakeup_time
    → (nsec_per_sec + app.base_cycle_time_ns) / nsec_per_sec < fuel
    → nsec_per_sec + app.base_cycle_time_ns < 2 ^ 63
    → Returns (Waited ctx) (tc_wait_for_tx_cycle fuel app conf ctx ev)
unfolding tc_wait_for_tx_cycle tc_wait_for_tx_burst
wait-Returns fuel app conf ctx ev h n f c =
    if-Returns (Waited ctx) (is_burst ctx.tx_model) _ _ (n, refl)
      (if-Returns (Waited ctx) (not (is_standalone ctx.tx_model) && not ctx.is_first) _ _ (n, refl)
        (slept (tc_sleep_until fuel ctx.wakeup_time app.base_cycle_time_ns ev.nanosleep)
          (sleep_until-Returns fuel ctx.wakeup_time app.base_cycle_time_ns ev.nanosleep h n f c)))
  where
    slept :
        (x : Option (ℕ × Timespec))
        → Returns (λ (r : ℕ × Timespec). IsNormal r.1) x
        → Returns (Waited ctx) (elim x [
          | some (ret, t) ↦ some (
            if ret == 0 then wait_send else wait_error,
            conf.num_frames_per_cycle,
            record ctx { wakeup_time = t },
          )
          | none ↦ none
        ])
    slept none k = k
    slept (some (ret, t)) k = (k, refl)

module _ {D : Type 0} (o : DoubleOps D) (cipher : Cipher) (app : AppConfig) (build : Build)
    (t : FrameType) (pattern : List ℕ) (duration fuel max_frame_size : ℕ) where
  -- A loop as the thread's start leaves it, and every round.
  pub record IsSound (l : TxLoop D) : Type 0 where
    pub backlog : HasBacklog app build t l.stat
    pub wakeup : IsNormal l.thread.wakeup_time
    pub number : length l.tx_frames ≡ (app.classes t).num_frames_per_cycle

  -- A round keeps the loop sound, and moves the counter by a cycle at most.
  abbrev pub Gone : TxLoop D → TxLoop D → Type 0
  Gone l next =
      IsSound next
      × (next.thread.sequence_counter
          ≤ l.thread.sequence_counter + (app.classes t).num_frames_per_cycle)

  by_wait-Returns :
      (l : TxLoop D) (num_frames : ℕ) (ev : Events) (result : WaitResult)
      → (app.classes t).rx_mirror_enabled ≡ false
      → IsBounded app t fuel l.thread.sequence_counter
      → IsSound l
      → Responds ((app.classes t).num_frames_per_cycle) ev.replies
      → Returns
          (λ (r : Turn D). Gone l r.next)
          (by_wait o cipher app build t pattern duration fuel max_frame_size l num_frames ev result)
  unfolding by_wait send_turn end_turn
  by_wait-Returns l num_frames ev wait_stop m b v a = (v, omega arith)
  by_wait-Returns l num_frames ev wait_error m b v a = (v, omega arith)
  by_wait-Returns l num_frames ev wait_send m b v a =
      ended
        (cycle_frames cipher app build t pattern duration fuel max_frame_size checked num_frames ev)
        (cycle_frames-Returns cipher app build t pattern duration fuel max_frame_size checked
          num_frames ev m b
          (subst IsBacklog
            (sym (
              ap (λ (c : FrameType → RoundTripContext). c t)
                (workload_check_finished-context o app l.stat t l.running)))
            v.backlog)
          v.number a)
    where
      checked : TxLoop D
      checked = record l { stat = workload_check_finished o app l.stat t l.running }

      with_stat :
          (last : Bool) (g : TxLoop D)
          → Gone l g
          → Gone l
              (if last then record g { stat = stat_update o app build g.stat ev.stat_now } else g)
      with_stat false g h = h
      with_stat true g (h, k) = (
        record {
          backlog =
              subst IsBacklog
                (sym (
                  ap (λ (c : FrameType → RoundTripContext). c t)
                    (stat_update-context o app build g.stat ev.stat_now)))
                h.backlog;
          wakeup = h.wakeup;
          number = h.number;
        },
        k,
      )

      ended :
          (x : Option (TxLoop D × List Message))
          → Returns
              (λ (r : TxLoop D × List Message).
                Keeps cipher app build t pattern duration fuel checked r.0)
              x
          → Returns
              (λ (r : Turn D). Gone l r.next)
              (elim x [ some (g, wire) ↦ some (end_turn o app build g wire ev) | none ↦ none ])
      ended none h = h
      ended (some (g, wire)) h = with_stat (g.thread.is_last || is_standalone g.thread.tx_model) g (
        record {
          backlog = h.backlog;
          wakeup = subst IsNormal (sym h.wakeup) v.wakeup;
          number = h.number ∙ v.number;
        },
        h.further,
      )

  -- The state of a run.
  abbrev Ended : TxLoop D × List Message → Type 0
  Ended r = IsSound r.0

  behind-Returns :
      (r : Turn D) (x : Option (TxLoop D × List Message))
      → Returns Ended x
      → Returns Ended (behind_round r x)
  unfolding behind_round
  behind-Returns r none h = h
  behind-Returns r (some (l, wire)) h = h

  result-Returns :
      (l : TxLoop D) (result : WaitResult) (x : Option (TxLoop D × List Message))
      → IsSound l
      → Returns Ended x
      → Returns Ended (elim result [ wait_error ↦ some (l, []) | _ ↦ x ])
  result-Returns l wait_error x v h = v
  result-Returns l wait_send x v h = h
  result-Returns l wait_stop x v h = h

  pub tx_round-Returns :
      (l : TxLoop D) (ev : Events)
      → (app.classes t).rx_mirror_enabled ≡ false
      → (nsec_per_sec + app.base_cycle_time_ns) / nsec_per_sec < fuel
      → nsec_per_sec + app.base_cycle_time_ns < 2 ^ 63
      → IsBounded app t fuel l.thread.sequence_counter
      → IsSound l
      → Answers ev.nanosleep
      → Responds ((app.classes t).num_frames_per_cycle) ev.replies
      → Returns
          (λ (r : Turn D). Gone l r.next)
          (tx_round o cipher app build t pattern duration fuel max_frame_size l ev)
  unfolding tx_round
  tx_round-Returns l ev m f g b v h a =
      waited (tc_wait_for_tx_cycle fuel app (app.classes t) l.thread ev)
        (wait-Returns fuel app (app.classes t) l.thread ev h v.wakeup f g)
    where
      waited :
          (x : Option (WaitResult × ℕ × TxThread))
          → Returns (Waited l.thread) x
          → Returns
              (λ (r : Turn D). Gone l r.next)
              (elim x [
                | some (result, num_frames, ctx) ↦
                    by_wait o cipher app build t pattern duration fuel max_frame_size
                      (record l { thread = ctx })
                      num_frames
                      ev
                      result
                | none ↦ none
              ])
      waited none k = k
      waited (some (result, num_frames, ctx)) (n, e) =
          subst
            (λ (q : ℕ).
              Returns
                (λ (r : Turn D).
                  IsSound r.next
                  × (r.next.thread.sequence_counter ≤ q + (app.classes t).num_frames_per_cycle))
                (by_wait o cipher app build t pattern duration fuel max_frame_size
                  (record l { thread = ctx }) num_frames ev result))
            e
            (by_wait-Returns (record l { thread = ctx }) num_frames ev result m
              (record {
                some_frames = b.some_frames;
                counter = omega (arith, b.counter, e);
                batches = b.batches;
              })
              (record { backlog = v.backlog; wakeup = n; number = v.number }) a)

  -- In each cycle of a run the wait ends, and sendmmsg moves on or fails.
  abbrev pub AllAnswer : List Events → Type 0
  AllAnswer [] = Unit {0}
  AllAnswer (ev ∷ evs) =
      (Answers ev.nanosleep × Responds ((app.classes t).num_frames_per_cycle) ev.replies)
      × AllAnswer evs

  run-Returns :
      (evs : List Events) (l : TxLoop D)
      → (app.classes t).rx_mirror_enabled ≡ false
      → (nsec_per_sec + app.base_cycle_time_ns) / nsec_per_sec < fuel
      → nsec_per_sec + app.base_cycle_time_ns < 2 ^ 63
      → 0 < (app.classes t).num_frames_per_cycle
      → (app.classes t).num_frames_per_cycle + (app.classes t).num_frames_per_cycle < fuel
      → l.thread.sequence_counter + (app.classes t).num_frames_per_cycle * suc (length evs) < 2 ^ 64
      → IsSound l
      → AllAnswer evs
      → Returns Ended (tc_tx_thread o cipher app build t pattern duration fuel max_frame_size l evs)
  unfolding tc_tx_thread
  run-Returns [] l m f g p b c v h = v
  run-Returns (ev ∷ evs) l m f g p b c v h =
      let bounded : IsBounded app t fuel l.thread.sequence_counter = record {
        some_frames = p;
        counter = grind (arith, c);
        batches = b;
      } in
      rounded (tx_round o cipher app build t pattern duration fuel max_frame_size l ev)
        (tx_round-Returns l ev m f g bounded v h.0.0 h.0.1)
        (λ next fits sound. run-Returns evs next m f g p b fits sound h.1)
    where
      n : ℕ
      n = (app.classes t).num_frames_per_cycle

      rounded :
          (x : Option (Turn D))
          → Returns (λ (r : Turn D). Gone l r.next) x
          → ((next : TxLoop D)
              → next.thread.sequence_counter + n * suc (length evs) < 2 ^ 64
              → IsSound next
              → Returns Ended
                  (tc_tx_thread o cipher app build t pattern duration fuel max_frame_size next evs))
          → Returns Ended (elim x [
            | some r ↦ behind_round r (elim (r.wait) [
              | wait_error ↦ some (r.next, [])
              | _ ↦
                  tc_tx_thread o cipher app build t pattern duration fuel max_frame_size r.next evs
            ])
            | none ↦ none
          ])
      rounded none k go = k
      rounded (some r) (sound, moved) go =
          behind-Returns r _
            (result-Returns r.next (r.wait) _ sound (go r.next (grind (arith, c, moved)) sound))

  pub tc_tx_thread-Returns :
      (evs : List Events) (l : TxLoop D)
      → (app.classes t).rx_mirror_enabled ≡ false
      → (nsec_per_sec + app.base_cycle_time_ns) / nsec_per_sec < fuel
      → nsec_per_sec + app.base_cycle_time_ns < 2 ^ 63
      → 0 < (app.classes t).num_frames_per_cycle
      → (app.classes t).num_frames_per_cycle + (app.classes t).num_frames_per_cycle < fuel
      → l.thread.sequence_counter + (app.classes t).num_frames_per_cycle * suc (length evs) < 2 ^ 64
      → IsSound l
      → AllAnswer evs
      → (next : TxLoop D) × (wire : List Message) × (tc_tx_thread o cipher app build t pattern
            duration fuel max_frame_size l evs
          ≡ some (next, wire))
        × IsSound next
  tc_tx_thread-Returns evs l m f g p b c v h =
      let (r, e, sound) =
        result_of Ended
          (tc_tx_thread o cipher app build t pattern duration fuel max_frame_size l evs)
          (run-Returns evs l m f g p b c v h) in
      (r.0, r.1, e, sound)
