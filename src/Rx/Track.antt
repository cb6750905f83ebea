-- ===== src/Rx/Track.antt =====
-- How the handler of src/layer2_thread.c follows the sequence counters of a stream of frames, and
-- what it counts as out of order when frames are lost or come again.
use rtc_testbench.Base.{
  ℕ, zero, suc, ◌+◌, ◌*◌, ◌^◌, ◌≤◌, ◌<◌, ◌≡◌, sym, Bool, not, inr, List, [], ◌∷◌, arith, length,
  min, u64, to_nat, ◌==◌,
}
use mathlib.Core.Path.{subst}
use rtc_testbench.Types.{AppConfig, Build, generic_l2, frame_index}
use rtc_testbench.Frame.{meta_data_to_sequence_counter}
use rtc_testbench.Stat.State.{DoubleOps, State}
use rtc_testbench.Stat.Common.{stat_frame_received_common}
use rtc_testbench.Stat.Received.{FrameReport, stat_frame_received}
use rtc_testbench.Rx.{
  set_mirror_tx_timestamp_est, RxContext, RxTimes, RxResult, next_sequence_counter,
}
use rtc_testbench.Rx.Layer2.{
  generic_l2_check, generic_l2_report, generic_l2_mirror, generic_l2_rx_frame,
}

-- A frame as the socket hands it over.
pub record Arrival : Type 0 where
  pub frame : List ℕ
  pub len : ℕ
  pub times : RxTimes

-- The frames of the class that the statistics count out of order.
abbrev pub out_of_order_of : {D : Type 0} → State D → ℕ
out_of_order_of s = ((s.global_statistics) generic_l2).out_of_order_errors

module _ (app : AppConfig) where
  -- The handler takes the frame, and the frame carries the counter `q`.
  abbrev pub Carries : ℕ → Arrival → Type 0
  Carries q a =
      (m : ℕ) × (missing : Bool) × (generic_l2_check (app.classes generic_l2) a.frame a.len
        ≡ inr (m, missing))
      × (meta_data_to_sequence_counter a.frame m (app.classes generic_l2).num_frames_per_cycle ≡ q)

  -- Frames with the counters `q`, `q + 1`, and so on.
  abbrev pub Consecutive : ℕ → List Arrival → Type 0
  Consecutive q [] = Unit {0}
  Consecutive q (a ∷ arrivals) = Carries q a × Consecutive (suc q) arrivals

module _ {D : Type 0} (o : DoubleOps D) (app : AppConfig) (build : Build) (max_frame_size : ℕ)
    (new_frame : List ℕ) where
  received-out_of_order :
      (s : State D) (r : FrameReport) (now : ℕ)
      → ((((stat_frame_received o app build s generic_l2 r now).0).global_statistics)
          generic_l2).out_of_order_errors
        ≡ u64 (((s.global_statistics) generic_l2).out_of_order_errors + to_nat r.out_of_order)
  unfolding stat_frame_received stat_frame_received_common frame_index
  received-out_of_order s r now = ground arith

  mirror-counter :
      (missing : Bool) (ctx : RxContext) (f : List ℕ) (len : ℕ)
      → ((generic_l2_mirror max_frame_size (app.classes generic_l2) missing new_frame ctx f len).1
        ).rx_sequence_counter
        ≡ ctx.rx_sequence_counter
  unfolding generic_l2_mirror
  mirror-counter missing ctx f len = ground arith

  unfoldable pub rx : State D → RxContext → Arrival → RxResult D
  rx s ctx a = generic_l2_rx_frame o app build max_frame_size new_frame s ctx a.frame a.len a.times

  rx-step :
      (s : State D) (ctx : RxContext) (a : Arrival) (q : ℕ)
      → Carries app q a
      → let ooo = not (q == ctx.rx_sequence_counter) in
        (out_of_order_of ((rx s ctx a).state) ≡ u64 (out_of_order_of s + to_nat ooo))
        × (((rx s ctx a).context).rx_sequence_counter
            ≡ next_sequence_counter ctx.rx_sequence_counter ooo)
  unfolding rx generic_l2_rx_frame generic_l2_report
  rx-step s ctx a q (m, missing, e, c) =
      let stamped = set_mirror_tx_timestamp_est app a.frame m a.times.mirror_now in
      let report = generic_l2_report (app.classes generic_l2) build ctx a.frame stamped m a.times in
      let counted = record ctx {
        rx_sequence_counter = next_sequence_counter ctx.rx_sequence_counter report.out_of_order;
      } in
      (
        rw (sym c, rx, generic_l2_rx_frame, e) (received-out_of_order s report a.times.stat_now),
        rw (sym c, rx, generic_l2_rx_frame, e) (mirror-counter missing counted stamped a.len),
      )

  -- The frames of a stream, one after the other.
  unfoldable pub rx_all : State D → RxContext → List Arrival → State D × RxContext
  rx_all s ctx [] = (s, ctx)
  rx_all s ctx (a ∷ arrivals) = rx_all ((rx s ctx a).state) ((rx s ctx a).context) arrivals

  -- When `n` frames have been lost and the frames behind them arrive one after the other, the
  -- statistics count out of order just as many of them as were lost, or all if fewer follow, and if
  -- at least as many follow then the receiver expects the next one. No counter may wrap.
  pub rx_all-lost :
      (arrivals : List Arrival) (n : ℕ) (s : State D) (ctx : RxContext)
      → Consecutive app (ctx.rx_sequence_counter + n) arrivals
      → ctx.rx_sequence_counter + 2 * length arrivals + n < 2 ^ 64
      → out_of_order_of s + length arrivals < 2 ^ 64
      → (out_of_order_of ((rx_all s ctx arrivals).0) ≡ out_of_order_of s + min n (length arrivals))
        × (n ≤ length arrivals
            → ((rx_all s ctx arrivals).1).rx_sequence_counter
              ≡ ctx.rx_sequence_counter + n + length arrivals)
  unfolding rx_all next_sequence_counter
  rx_all-lost [] n s ctx c w b = (omega arith, λ h. omega arith)
  rx_all-lost (a ∷ arrivals) zero s ctx c w b =
      let r = rx s ctx a in
      let step = rx-step s ctx a (ctx.rx_sequence_counter + 0) c.0 in
      let next : suc (ctx.rx_sequence_counter + 0) ≡ (r.context).rx_sequence_counter + 0 =
        ground (arith, step) in
      let rest = subst (λ (i : ℕ). Consecutive app i arrivals) next c.1 in
      ground (arith, step, rx_all-lost arrivals 0 (r.state) (r.context) rest)
  rx_all-lost (a ∷ arrivals) (suc n) s ctx c w b =
      let r = rx s ctx a in
      let step = rx-step s ctx a (ctx.rx_sequence_counter + suc n) c.0 in
      let next : suc (ctx.rx_sequence_counter + suc n) ≡ (r.context).rx_sequence_counter + n =
        ground (arith, step) in
      let rest = subst (λ (i : ℕ). Consecutive app i arrivals) next c.1 in
      ground (arith, step, rx_all-lost arrivals n (r.state) (r.context) rest)

  -- When the receiver expects a later counter than that of the first of some consecutive frames,
  -- arrivals it does behind a frame that came twice, each of them is counted out of order: it does not
  -- get back into step. No counter may wrap.
  pub rx_all-ahead :
      (arrivals : List Arrival) (q : ℕ) (s : State D) (ctx : RxContext)
      → Consecutive app q arrivals
      → q < ctx.rx_sequence_counter
      → ctx.rx_sequence_counter + 2 * length arrivals < 2 ^ 64
      → out_of_order_of s + length arrivals < 2 ^ 64
      → (out_of_order_of ((rx_all s ctx arrivals).0) ≡ out_of_order_of s + length arrivals)
        × (q + length arrivals < ((rx_all s ctx arrivals).1).rx_sequence_counter)
  unfolding rx_all next_sequence_counter
  rx_all-ahead [] q s ctx c l w b = omega arith
  rx_all-ahead (a ∷ arrivals) q s ctx c l w b =
      let r = rx s ctx a in
      ground (arith, rx-step s ctx a q c.0, rx_all-ahead arrivals (suc q) (r.state) (r.context) c.1)
