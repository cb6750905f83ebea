-- ===== src/Tc/Delivered.antt =====
-- The GenericL2 frames that a round of tc_tx_thread of src/tc.c hands to the socket.
use rtc_testbench.Base.{
  ℕ, ◌+◌, ◌*◌, ◌≤◌, ◌<◌, ◌^◌, ◌≡◌, refl, sym, ap, ◌∙◌, inl, inr, List, [], ◌∷◌, map, arith, length,
}
use mathlib.Core.Path.{subst}
use rtc_testbench.Types.{AppConfig, Build, generic_l2}
use rtc_testbench.Frame.{get_meta_data_offset}
use rtc_testbench.Stat.State.{DoubleOps}
use rtc_testbench.Rx.{RxTimes}
use rtc_testbench.Rx.Profinet.{Cipher}
use rtc_testbench.Rx.Track.{Arrival, Consecutive}
use rtc_testbench.Packet.{Message, message_of}
use rtc_testbench.Packet.Sends.{Willing, packet_send_messages_complete}
use rtc_testbench.Tc.Burst.{length-map_lem}
use rtc_testbench.Tc.Rounds.{Rounded}
use rtc_testbench.Tc.{WaitResult, wait_send, wait_stop, wait_error, TxThread, Events}
use rtc_testbench.Tc.Stream.{IsPlain, AllFilled, conf, arrive, gen_frames-Consecutive}
use rtc_testbench.Tc.Cycle.{TxLoop, Turn, gen_frames, tc_send_messages}

-- The frames that the socket took, as the receiver gets them.
abbrev pub delivered : AppConfig → RxTimes → List Message → List Arrival
delivered app times wire = map (λ (m : Message). arrive app times (m.frame)) wire

-- A cycle in which the socket takes all frames, and whose clock fits the meta data.
pub record IsServed (n : ℕ) (ev : Events) : Type 0 where
  pub willing : Willing ev.replies
  pub calls : n ≤ length ev.replies
  pub clock : ev.tx_now < 2 ^ 64

abbrev pub AllServed : ℕ → List Events → Type 0
AllServed n [] = Unit {0}
AllServed n (ev ∷ evs) = IsServed n ev × AllServed n evs

module _ {D : Type 0} (app : AppConfig) where
  -- A loop whose frames are filled in.
  pub record IsReady (l : TxLoop D) : Type 0 where
    pub filled : AllFilled (conf app) l.tx_frames
    pub number : length l.tx_frames ≡ (conf app).num_frames_per_cycle

  -- What a round adds to the stream.
  pub record Streamed (l : TxLoop D) (times : RxTimes) (next : TxLoop D) (wire : List Message)
      : Type 0 where
    pub ready : IsReady next
    pub few : length wire ≤ (conf app).num_frames_per_cycle
    pub counter : next.thread.sequence_counter ≡ l.thread.sequence_counter + length wire
    pub received : Consecutive app l.thread.sequence_counter (delivered app times wire)

module _ {D : Type 0} (o : DoubleOps D) (cipher : Cipher) (app : AppConfig) (build : Build)
    (pattern : List ℕ) (duration fuel max_frame_size : ℕ) where
  delivered-map :
      (now : ℕ) (times : RxTimes) (gs : List (List ℕ))
      → let m = get_meta_data_offset generic_l2 (conf app).security_mode in
        delivered app times (map (message_of app build generic_l2 m duration now) gs)
        ≡ map (arrive app times) gs
  unfolding message_of
  delivered-map now times [] = refl
  delivered-map now times (g ∷ gs) =
      ap (λ (x : List Arrival). arrive app times g ∷ x) (delivered-map now times gs)

  wire-Consecutive :
      (l : TxLoop D) (ev : Events) (times : RxTimes)
      → IsPlain (conf app)
      → 0 < (conf app).num_frames_per_cycle
      → (conf app).num_frames_per_cycle < 2 ^ 32
      → (conf app).num_frames_per_cycle ≤ fuel
      → l.thread.sequence_counter + (conf app).num_frames_per_cycle
        ≤ (conf app).num_frames_per_cycle * 2 ^ 32
      → IsReady app l
      → IsServed ((conf app).num_frames_per_cycle) ev
      → let gs =
          gen_frames cipher app generic_l2 pattern l.thread.sequence_counter ev.tx_now 0
            l.tx_frames in
        let wire = (tc_send_messages app build generic_l2 duration fuel ev gs).wire in
        (length wire ≡ (conf app).num_frames_per_cycle)
        × AllFilled (conf app) gs
        × (length gs ≡ (conf app).num_frames_per_cycle)
        × Consecutive app l.thread.sequence_counter (delivered app times wire)
  unfolding tc_send_messages
  wire-Consecutive l ev times p a b u s w v =
      let q = l.thread.sequence_counter in
      let gs = gen_frames cipher app generic_l2 pattern q ev.tx_now 0 l.tx_frames in
      let (filled, cons, lg) =
        gen_frames-Consecutive cipher app pattern l.tx_frames q ev.tx_now 0 times p w.filled a b
          (omega (arith, s, w.number)) v.clock in
      let message =
        message_of app build generic_l2 (get_meta_data_offset generic_l2 (conf app).security_mode)
          duration ev.launch_now in
      let ms = map message gs in
      let lm = length-map_lem message gs in
      let (rest, ended, all) =
        (packet_send_messages_complete fuel (conf app).num_frames_per_cycle ms ev.replies a
            (omega (arith, lm, lg, w.number, u))).1
          v.willing (omega (arith, lm, lg, w.number, v.calls)) in
      (
        ap (λ (x : List Message). length x) all ∙ lm ∙ lg ∙ w.number,
        filled,
        lg ∙ w.number,
        subst (λ (x : List Message). Consecutive app q (delivered app times x)) (sym all)
            (subst (λ (x : List Arrival). Consecutive app q x)
              (sym (delivered-map ev.launch_now times gs))
              (subst (λ (k : ℕ). Consecutive app k (map (arrive app times) gs)) (omega arith)
                cons)),
      )

  idle-Streamed :
      (l : TxLoop D) (ctx : TxThread) (r : Turn D) (times : RxTimes)
      → ctx.sequence_counter ≡ l.thread.sequence_counter
      → r.next.thread ≡ ctx
      → r.next.tx_frames ≡ l.tx_frames
      → r.wire ≡ []
      → IsReady app l
      → Streamed app l times r.next r.wire
  idle-Streamed l ctx r times e th kept taken w = record {
    ready = record {
      filled = subst (AllFilled (conf app)) (sym kept) w.filled;
      number = ap (λ (x : List (List ℕ)). length x) kept ∙ w.number;
    };
    few = omega (arith, ap (λ (x : List Message). length x) taken);
    counter = omega (
      arith,
      e,
      ap (λ (x : TxThread). x.sequence_counter) th,
      ap (λ (x : List Message). length x) taken,
    );
    received =
        subst
          (λ (x : List Message). Consecutive app l.thread.sequence_counter (delivered app times x))
          (sym taken) _;
  }

  pub Rounded-Streamed :
      (l : TxLoop D) (ctx : TxThread) (num_frames : ℕ) (result : WaitResult) (ev : Events)
      (r : Turn D) (times : RxTimes)
      → IsPlain (conf app)
      → 0 < (conf app).num_frames_per_cycle
      → (conf app).num_frames_per_cycle < 2 ^ 32
      → (conf app).num_frames_per_cycle ≤ fuel
      → l.thread.sequence_counter + (conf app).num_frames_per_cycle
        ≤ (conf app).num_frames_per_cycle * 2 ^ 32
      → IsReady app l
      → IsServed ((conf app).num_frames_per_cycle) ev
      → ctx.sequence_counter ≡ l.thread.sequence_counter
      → Rounded cipher app build generic_l2 pattern duration fuel l.tx_frames ctx num_frames ev
          result r.next.thread r.next.tx_frames r.wire
      → Streamed app l times r.next r.wire
  Rounded-Streamed l ctx num_frames wait_send ev r times p a b u s w v e (inr (z, sends)) =
      let q = l.thread.sequence_counter in
      let gs = gen_frames cipher app generic_l2 pattern q ev.tx_now 0 l.tx_frames in
      let wire = (tc_send_messages app build generic_l2 duration fuel ev gs).wire in
      let same : gen_frames cipher app generic_l2 pattern ctx.sequence_counter ev.tx_now 0
            l.tx_frames
          ≡ gs =
        ap (λ (k : ℕ). gen_frames cipher app generic_l2 pattern k ev.tx_now 0 l.tx_frames) e in
      let taken : r.wire ≡ wire =
        sends.taken
        ∙ ap
            (λ (x : List (List ℕ)). (tc_send_messages app build generic_l2 duration fuel ev x).wire)
            same in
      let frames : r.next.tx_frames ≡ gs = sends.generated ∙ same in
      let (lw, filled, lg, cons) = wire-Consecutive l ev times p a b u s w v in
      record {
        ready = record {
          filled = subst (AllFilled (conf app)) (sym frames) filled;
          number = ap (λ (x : List (List ℕ)). length x) frames ∙ lg;
        };
        few = omega (arith, ap (λ (x : List Message). length x) taken, lw);
        counter = omega (
          arith,
          e,
          s,
          a,
          b,
          lw,
          ap (λ (x : TxThread). x.sequence_counter) sends.thread,
          ap (λ (x : List Message). length x) taken,
        );
        received =
            subst (λ (x : List Message). Consecutive app q (delivered app times x)) (sym taken)
              cons;
      }
  Rounded-Streamed l ctx num_frames wait_send ev r times p a b u s w v e (inl (z, idle)) =
      idle-Streamed l ctx r times e idle.thread idle.kept idle.taken w
  Rounded-Streamed l ctx num_frames wait_stop ev r times p a b u s w v e idle =
      idle-Streamed l ctx r times e idle.thread idle.kept idle.taken w
  Rounded-Streamed l ctx num_frames wait_error ev r times p a b u s w v e idle =
      idle-Streamed l ctx r times e idle.thread idle.kept idle.taken w
