-- ===== src/Tc/InOrder.antt =====
-- The stream of GenericL2 frames of tc_tx_thread of src/tc.c, over all its cycles, at the handler of
-- src/layer2_thread.c.
use rtc_testbench.Base.{
  ℕ, suc, ◌+◌, ◌*◌, ◌≤◌, ◌<◌, ◌^◌, ◌≡◌, refl, sym, ap, ◌∙◌, false, Option, none, some, List, [],
  ◌∷◌, ◌++◌, arith, length, length-append,
}
use mathlib.Core.Path.{subst}
use mathlib.Core.Option.{none-ne-some}
use rtc_testbench.Types.{AppConfig, ClassConfig, Build, generic_l2}
use rtc_testbench.Stat.State.{DoubleOps, State}
use rtc_testbench.Rx.{RxContext, RxTimes}
use rtc_testbench.Rx.Profinet.{Cipher}
use rtc_testbench.Rx.Track.{Arrival, Consecutive, rx_all, out_of_order_of, rx_all-lost}
use rtc_testbench.Packet.{Message}
use rtc_testbench.Tc.Burst.{length-map_lem}
use rtc_testbench.Tc.Rounds.{Yields, Rounded, tx_round-Rounded}
use rtc_testbench.Tc.{
  WaitResult, wait_send, wait_stop, wait_error, tc_wait_for_tx_cycle, tc_wait_for_tx_burst,
  TxThread, Events,
}
use rtc_testbench.Tc.Stream.{IsPlain, conf, arrive, Consecutive-append}
use rtc_testbench.Tc.Delivered.{delivered, IsServed, AllServed, IsReady, Streamed, Rounded-Streamed}
use rtc_testbench.Tc.Cycle.{TxLoop, Turn, tx_round, tc_tx_thread, behind_round}

counter-kept :
    (fuel : ℕ) (app : AppConfig) (c : ClassConfig) (ctx : TxThread) (ev : Events)
    (w : WaitResult × ℕ × TxThread)
    → tc_wait_for_tx_cycle fuel app c ctx ev ≡ some w
    → w.2.sequence_counter ≡ ctx.sequence_counter
unfolding tc_wait_for_tx_cycle tc_wait_for_tx_burst
counter-kept fuel app c ctx ev w e = ground (arith, e)

module _ {D : Type 0} (o : DoubleOps D) (cipher : Cipher) (app : AppConfig) (build : Build)
    (pattern : List ℕ) (duration fuel max_frame_size : ℕ) (times : RxTimes) where
  -- The part of a run that is behind a loop.
  record Follows (k : ℕ) (l next : TxLoop D) (wire : List Message) : Type 0 where
    few : length wire ≤ (conf app).num_frames_per_cycle * k
    counter : next.thread.sequence_counter ≡ l.thread.sequence_counter + length wire
    received : Consecutive app l.thread.sequence_counter (delivered app times wire)

  no_round :
      (l : TxLoop D) (ev : Events)
      → tc_wait_for_tx_cycle fuel app (conf app) l.thread ev ≡ none
      → tx_round o cipher app build generic_l2 pattern duration fuel max_frame_size l ev ≡ none
  unfolding tx_round
  no_round l ev h = rw (tx_round, h) refl

  round-Streamed :
      (l : TxLoop D) (ev : Events) (r : Turn D)
      → (conf app).rx_mirror_enabled ≡ false
      → IsPlain (conf app)
      → 0 < (conf app).num_frames_per_cycle
      → (conf app).num_frames_per_cycle < 2 ^ 32
      → (conf app).num_frames_per_cycle ≤ fuel
      → l.thread.sequence_counter + (conf app).num_frames_per_cycle
        ≤ (conf app).num_frames_per_cycle * 2 ^ 32
      → IsReady app l
      → IsServed ((conf app).num_frames_per_cycle) ev
      → tx_round o cipher app build generic_l2 pattern duration fuel max_frame_size l ev ≡ some r
      → Streamed app l times r.next r.wire
  round-Streamed l ev r m p a b u s w v e =
      waited (tc_wait_for_tx_cycle fuel app (conf app) l.thread ev) refl
    where
      waited :
          (x : Option (WaitResult × ℕ × TxThread))
          → tc_wait_for_tx_cycle fuel app (conf app) l.thread ev ≡ x
          → Streamed app l times r.next r.wire
      waited none h = absurd (none-ne-some r (sym (no_round l ev h) ∙ e))
      waited (some (result, num_frames, ctx)) h =
          Rounded-Streamed o cipher app build pattern duration fuel max_frame_size l ctx num_frames
            result ev r times p a b u s w v
            (counter-kept fuel app (conf app) l.thread ev (result, num_frames, ctx) h)
            (subst
              (Yields (λ (x : Turn D).
                Rounded cipher app build generic_l2 pattern duration fuel l.tx_frames ctx num_frames
                  ev result x.next.thread x.next.tx_frames x.wire))
              e
              (tx_round-Rounded o cipher app build generic_l2 pattern duration fuel max_frame_size l
                ev result num_frames ctx m h))

  nothing-Follows : (k : ℕ) (l : TxLoop D) → Follows k l l []
  nothing-Follows k l = record { few = omega arith; counter = omega arith; received = _ }

  delivered-append :
      (xs ys : List Message)
      → delivered app times (xs ++ ys) ≡ delivered app times xs ++ delivered app times ys
  delivered-append [] ys = refl
  delivered-append (x ∷ xs) ys =
      ap (λ (l : List Arrival). arrive app times (x.frame) ∷ l) (delivered-append xs ys)

  behind-Follows :
      (k : ℕ) (l : TxLoop D) (r : Turn D) (x : Option (TxLoop D × List Message))
      → Streamed app l times r.next r.wire
      → Yields (λ (y : TxLoop D × List Message). Follows k r.next y.0 y.1) x
      → Yields (λ (y : TxLoop D × List Message). Follows (suc k) l y.0 y.1) (behind_round r x)
  unfolding behind_round
  behind-Follows k l r none a f = _
  behind-Follows k l r (some (next, wire)) a f = record {
    few = grind (arith, length-append (r.wire) wire, a.few, f.few);
    counter = omega (arith, length-append (r.wire) wire, a.counter, f.counter);
    received =
        subst (λ (x : List Arrival). Consecutive app l.thread.sequence_counter x)
          (sym (delivered-append (r.wire) wire))
          (Consecutive-append cipher app pattern l.thread.sequence_counter
            (delivered app times (r.wire)) (delivered app times wire) a.received
            (subst (λ (q : ℕ). Consecutive app q (delivered app times wire))
              (a.counter
                ∙ ap (λ (n : ℕ). l.thread.sequence_counter + n)
                    (sym (length-map_lem (λ (m : Message). arrive app times (m.frame)) (r.wire))))
              f.received));
  }

  ended-Follows :
      (k : ℕ) (l : TxLoop D) (result : WaitResult) (x : Option (TxLoop D × List Message))
      → Yields (λ (y : TxLoop D × List Message). Follows k l y.0 y.1) x
      → Yields
          (λ (y : TxLoop D × List Message). Follows k l y.0 y.1)
          (elim result [ wait_error ↦ some (l, []) | _ ↦ x ])
  ended-Follows k l wait_error x f = nothing-Follows k l
  ended-Follows k l wait_send x f = f
  ended-Follows k l wait_stop x f = f

  tc_tx_thread-Follows :
      (evs : List Events) (l : TxLoop D)
      → (conf app).rx_mirror_enabled ≡ false
      → IsPlain (conf app)
      → 0 < (conf app).num_frames_per_cycle
      → (conf app).num_frames_per_cycle < 2 ^ 32
      → (conf app).num_frames_per_cycle ≤ fuel
      → l.thread.sequence_counter + (conf app).num_frames_per_cycle * length evs
        ≤ (conf app).num_frames_per_cycle * 2 ^ 32
      → IsReady app l
      → AllServed ((conf app).num_frames_per_cycle) evs
      → Yields
          (λ (y : TxLoop D × List Message). Follows (length evs) l y.0 y.1)
          (tc_tx_thread o cipher app build generic_l2 pattern duration fuel max_frame_size l evs)
  unfolding tc_tx_thread
  tc_tx_thread-Follows [] l m p a b u s w v = nothing-Follows 0 l
  tc_tx_thread-Follows (ev ∷ evs) l m p a b u s w v =
      rounded (tx_round o cipher app build generic_l2 pattern duration fuel max_frame_size l ev)
        (λ r e. round-Streamed l ev r m p a b u (grind (arith, s)) w v.0 e)
        (λ next fits ready. tc_tx_thread-Follows evs next m p a b u fits ready v.1)
    where
      Rest : TxLoop D → Type 0
      Rest next =
          Yields (λ (y : TxLoop D × List Message). Follows (length evs) next y.0 y.1)
            (tc_tx_thread o cipher app build generic_l2 pattern duration fuel max_frame_size next
              evs)

      rounded :
          (x : Option (Turn D))
          → ((r : Turn D) → x ≡ some r → Streamed app l times r.next r.wire)
          → ((next : TxLoop D)
              → next.thread.sequence_counter + (conf app).num_frames_per_cycle * length evs
                ≤ (conf app).num_frames_per_cycle * 2 ^ 32
              → IsReady app next
              → Rest next)
          → Yields
              (λ (y : TxLoop D × List Message). Follows (suc (length evs)) l y.0 y.1)
              (elim x [
                | some r ↦ behind_round r (elim (r.wait) [
                  | wait_error ↦ some (r.next, [])
                  | _ ↦
                      tc_tx_thread o cipher app build generic_l2 pattern duration fuel
                        max_frame_size r.next evs
                ])
                | none ↦ none
              ])
      rounded none h k = _
      rounded (some r) h k =
          let a' = h r refl in
          behind-Follows (length evs) l r _ a' (
            ended-Follows (length evs) r.next (r.wait) _
              (k r.next (grind (arith, s, a'.counter, a'.few)) a'.ready))

  -- Whatever cycles a Tx thread of GenericL2 frames goes through, waits that time out or fail
  -- included, a receiver of the same configuration that gets the frames in the order in which they
  -- were sent counts none out of order, and expects the counter that the thread is at. The
  -- receiver must expect the thread's counter at the start, the buffers hold as many frames as a
  -- cycle, all filled in, the frames are in the clear and not EtherCAT, the socket takes them all
  -- within the calls that are answered, and no counter wraps.
  pub tc_tx_thread-in_order :
      (evs : List Events) (l next : TxLoop D) (wire : List Message) (rx_build : Build)
      (new_frame : List ℕ) (s : State D) (ctx : RxContext)
      → (conf app).rx_mirror_enabled ≡ false
      → IsPlain (conf app)
      → 0 < (conf app).num_frames_per_cycle
      → (conf app).num_frames_per_cycle < 2 ^ 32
      → (conf app).num_frames_per_cycle ≤ fuel
      → l.thread.sequence_counter + (conf app).num_frames_per_cycle * length evs
        ≤ (conf app).num_frames_per_cycle * 2 ^ 32
      → l.thread.sequence_counter + 2 * ((conf app).num_frames_per_cycle * length evs) < 2 ^ 64
      → out_of_order_of s + (conf app).num_frames_per_cycle * length evs < 2 ^ 64
      → IsReady app l
      → AllServed ((conf app).num_frames_per_cycle) evs
      → ctx.rx_sequence_counter ≡ l.thread.sequence_counter
      → tc_tx_thread o cipher app build generic_l2 pattern duration fuel max_frame_size l evs
        ≡ some (next, wire)
      → let arrivals = delivered app times wire in
        let r = rx_all o app rx_build max_frame_size new_frame s ctx arrivals in
        (out_of_order_of (r.0) ≡ out_of_order_of s)
        × ((r.1).rx_sequence_counter ≡ next.thread.sequence_counter)
  tc_tx_thread-in_order evs l next wire rx_build new_frame s ctx m p a b u k c w ready v e run =
      let f =
        subst (Yields (λ (y : TxLoop D × List Message). Follows (length evs) l y.0 y.1)) run
          (tc_tx_thread-Follows evs l m p a b u k ready v) in
      let n = length-map_lem (λ (m : Message). arrive app times (m.frame)) wire in
      let expected : l.thread.sequence_counter ≡ ctx.rx_sequence_counter + 0 = omega (arith, e) in
      let got =
        rx_all-lost o app rx_build max_frame_size new_frame (delivered app times wire) 0 s ctx
          (subst (λ (q : ℕ). Consecutive app q (delivered app times wire)) expected f.received)
          (omega (arith, n, e, f.few, c)) (omega (arith, n, f.few, w)) in
      (omega (arith, got.0), got.1 (omega arith) ∙ omega (arith, n, e, f.counter))
