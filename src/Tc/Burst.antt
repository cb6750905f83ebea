-- ===== src/Tc/Burst.antt =====
-- The handover of a burst of src/tc.c from tc_tx_gen_thread to tc_tx_thread, as the steps of two
-- threads.
use rtc_testbench.Base.{
  ℕ, suc, ◌+◌, ◌*◌, ◌≤◌, ◌<◌, ◌^◌, ◌≡◌, refl, ap, ◌∙◌, ◌≢◌, ◌⊎◌, inl, inr, Bool, true, false, some,
  List, [], ◌∷◌, ◌++◌, map, arith, length, u64, length-append, ◌==◌, if◌then◌else◌,
}
use mathlib.Core.Path.{subst}
use rtc_testbench.Types.{AppConfig, ClassConfig, FrameType, Build}
use rtc_testbench.Frame.{get_meta_data_offset}
use rtc_testbench.Stat.State.{DoubleOps}
use rtc_testbench.Rx.Profinet.{Cipher}
use rtc_testbench.Packet.{Message, message_of, Sending, packet_send_messages}
use rtc_testbench.Packet.Sends.{IsPrefix, packet_send_messages-IsPrefix}
use rtc_testbench.Tc.{
  TxModel, TxThread, Events, is_burst, tx_burst, wait_send, wait_stop, tc_wait_for_tx_cycle,
  tc_wait_for_tx_burst, tc_tx_gen_round,
}
use rtc_testbench.Tc.Rounds.{Yields, Rounded, tx_round-Rounded}
use rtc_testbench.Tc.Cycle.{TxLoop, Turn, gen_frames, tc_send_messages, tx_round}

pub length-map_lem : {A B : Type 0} (f : A → B) (xs : List A) → length (map f xs) ≡ length xs
length-map_lem f [] = refl
length-map_lem f (x ∷ xs) = ap suc (length-map_lem f xs)

prefix-length : (ms : List Message) (s : Sending) → IsPrefix ms s → length (s.wire) ≤ length ms
prefix-length ms s p =
    omega (arith, length-append (s.wire) p.rest, ap (λ (x : List Message). length x) p.split)

is_burst-tx_burst : {m : TxModel} → m ≡ tx_burst → is_burst m ≡ true
unfolding is_burst
is_burst-tx_burst e = ap is_burst e

-- The wait of a burst thread.
burst_wait :
    (fuel : ℕ) (app : AppConfig) (conf : ClassConfig) (ctx : TxThread) (ev : Events)
    → is_burst ctx.tx_model ≡ true
    → tc_wait_for_tx_cycle fuel app conf ctx ev
      ≡ some (
        if ev.timed_out then wait_stop else wait_send,
        ctx.num_frames_available,
        record ctx { num_frames_available = 0 },
      )
unfolding tc_wait_for_tx_cycle tc_wait_for_tx_burst
burst_wait fuel app conf ctx ev b = rw b refl

module _ (cipher : Cipher) (app : AppConfig) (t : FrameType) (pattern : List ℕ) where
  pub length-gen_frames :
      (begin tx_now i : ℕ) (fs : List (List ℕ))
      → length (gen_frames cipher app t pattern begin tx_now i fs) ≡ length fs
  unfolding gen_frames
  length-gen_frames begin tx_now i [] = refl
  length-gen_frames begin tx_now i (f ∷ fs) = ap suc (length-gen_frames begin tx_now (i + 1) fs)

module _ (app : AppConfig) (build : Build) (t : FrameType) (duration : ℕ) where
  length-sent :
      (fuel : ℕ) (ev : Events) (fs : List (List ℕ))
      → length ((tc_send_messages app build t duration fuel ev fs).wire) ≤ length fs
  unfolding tc_send_messages
  length-sent fuel ev fs =
      let ms =
        map
          (message_of app build t (get_meta_data_offset t (app.classes t).security_mode) duration
            ev.launch_now)
          fs in
      omega (
        arith,
        prefix-length ms
            (packet_send_messages fuel (app.classes t).num_frames_per_cycle ms ev.replies)
            (packet_send_messages-IsPrefix fuel (app.classes t).num_frames_per_cycle ms ev.replies),
        length-map_lem
            (message_of app build t (get_meta_data_offset t (app.classes t).security_mode) duration
              ev.launch_now)
            fs,
      )

module _ {D : Type 0} (o : DoubleOps D) (cipher : Cipher) (app : AppConfig) (build : Build)
    (t : FrameType) (pattern : List ℕ) (duration fuel max_frame_size : ℕ) where
  -- The steps of the two threads of a class, from `start` on: `generations` rounds of the
  -- generation thread, and rounds of the Tx thread with `wire` as what the socket took.
  pub data Run (start : TxLoop D) : ℕ → List Message → TxLoop D → Type 0 where
    begin : Run start 0 [] start
    generate :
        {n : ℕ} {wire : List Message} {l : TxLoop D}
        → Run start n wire l
        → Run start (suc n) wire (record l { thread = tc_tx_gen_round (app.classes t) l.thread })
    turn :
        {n : ℕ} {wire : List Message} {l : TxLoop D}
        → Run start n wire l
        → (ev : Events) (r : Turn D)
        → tx_round o cipher app build t pattern duration fuel max_frame_size l ev ≡ some r
        → Run start n (wire ++ r.wire) r.next

  -- What a round leaves of a burst thread.
  record Served (l : TxLoop D) (sent : ℕ) (r : Turn D) : Type 0 where
    model : r.next.thread.tx_model ≡ l.thread.tx_model
    emptied : r.next.thread.num_frames_available ≡ 0
    counter : r.next.thread.sequence_counter ≡ u64 (l.thread.sequence_counter + sent)
    frames : length r.next.tx_frames ≡ length l.tx_frames
    taken : length r.wire ≤ sent

  -- The frames that a burst thread sends in a round.
  unfoldable due : TxThread → Events → ℕ
  due ctx ev =
      if ev.timed_out
      then 0
      else if ctx.num_frames_available == 0
      then 0
      else (app.classes t).num_frames_per_cycle

  due_cases :
      (ctx : TxThread) (ev : Events)
      → (due ctx ev ≡ 0)
        ⊎ ((due ctx ev ≡ (app.classes t).num_frames_per_cycle) × (ctx.num_frames_available ≢ 0))
  unfolding due
  due_cases ctx ev = ground arith

  Rounded-Served :
      (l : TxLoop D) (ev : Events) (r : Turn D) (late : Bool)
      → ev.timed_out ≡ late
      → l.thread.sequence_counter < 2 ^ 64
      → length l.tx_frames ≡ (app.classes t).num_frames_per_cycle
      → Rounded cipher app build t pattern duration fuel l.tx_frames
          (record l.thread { num_frames_available = 0 })
          l.thread.num_frames_available
          ev
          (if late then wait_stop else wait_send)
          r.next.thread
          r.next.tx_frames
          r.wire
      → Served l (due l.thread ev) r
  unfolding due
  Rounded-Served l ev r true e c f idle = record {
    model = ap (λ (x : TxThread). x.tx_model) idle.thread;
    emptied = ap (λ (x : TxThread). x.num_frames_available) idle.thread;
    counter = ground (arith, idle.thread, e, c);
    frames = ap (λ (x : List (List ℕ)). length x) idle.kept;
    taken = ground (arith, idle.taken, e);
  }
  Rounded-Served l ev r false e c f (inl (z, idle)) = record {
    model = ap (λ (x : TxThread). x.tx_model) idle.thread;
    emptied = ap (λ (x : TxThread). x.num_frames_available) idle.thread;
    counter = ground (arith, idle.thread, e, c, z);
    frames = ap (λ (x : List (List ℕ)). length x) idle.kept;
    taken = ground (arith, idle.taken, e);
  }
  Rounded-Served l ev r false e c f (inr (z, sends)) =
      let ctx = record l.thread { num_frames_available = 0 } in
      let g = gen_frames cipher app t pattern ctx.sequence_counter ev.tx_now 0 l.tx_frames in
      let lg =
        length-gen_frames cipher app t pattern ctx.sequence_counter ev.tx_now 0 l.tx_frames in
      let ls = length-sent app build t duration fuel ev g in
      record {
        model = ap (λ (x : TxThread). x.tx_model) sends.thread;
        emptied = ap (λ (x : TxThread). x.num_frames_available) sends.thread;
        counter = ground (arith, sends.thread, e, z);
        frames = ap (λ (x : List (List ℕ)). length x) sends.generated ∙ lg;
        taken = ground (arith, sends.taken, lg, ls, e, z, f);
      }

  tx_round-Served :
      (l : TxLoop D) (ev : Events) (r : Turn D)
      → l.thread.tx_model ≡ tx_burst
      → (app.classes t).rx_mirror_enabled ≡ false
      → l.thread.sequence_counter < 2 ^ 64
      → length l.tx_frames ≡ (app.classes t).num_frames_per_cycle
      → tx_round o cipher app build t pattern duration fuel max_frame_size l ev ≡ some r
      → Served l (due l.thread ev) r
  tx_round-Served l ev r b m c f e =
      let ctx = record l.thread { num_frames_available = 0 } in
      let result = if ev.timed_out then wait_stop else wait_send in
      Rounded-Served l ev r ev.timed_out refl c f (
        subst
          (Yields (λ (x : Turn D).
            Rounded cipher app build t pattern duration fuel l.tx_frames ctx
              l.thread.num_frames_available ev result x.next.thread x.next.tx_frames x.wire))
          e
          (tx_round-Rounded o cipher app build t pattern duration fuel max_frame_size l ev result
            l.thread.num_frames_available ctx m
            (burst_wait fuel app (app.classes t) l.thread ev (is_burst-tx_burst b))))

  -- The state of a burst thread after `n` generations that has handed over `sent` frames.
  pub record Handover (n sent : ℕ) (wire : List Message) (l : TxLoop D) : Type 0 where
    pub model : l.thread.tx_model ≡ tx_burst
    pub frames : length l.tx_frames ≡ (app.classes t).num_frames_per_cycle
    pub available :
        (l.thread.num_frames_available ≡ 0)
        ⊎ (l.thread.num_frames_available ≡ (app.classes t).num_frames_per_cycle)
    pub counter : l.thread.sequence_counter ≡ sent * (app.classes t).num_frames_per_cycle
    pub bounded :
        sent * (app.classes t).num_frames_per_cycle + l.thread.num_frames_available
        ≤ n * (app.classes t).num_frames_per_cycle
    pub taken : length wire ≤ sent * (app.classes t).num_frames_per_cycle

  -- However a class's generation thread and its Tx thread take turns, whatever the socket takes and
  -- whichever waits time out: a burst is available whole or not at all, the sequence counter is a
  -- whole number of bursts, and these, with the one that is available, are no more than were
  -- generated; the socket has taken no more frames than that. The thread must start with no
  -- burst and counter 0, without a mirror, and the counter may not wrap.
  pub Run-Handover :
      (start l : TxLoop D) (n : ℕ) (wire : List Message)
      → start.thread.tx_model ≡ tx_burst
      → (app.classes t).rx_mirror_enabled ≡ false
      → start.thread.num_frames_available ≡ 0
      → start.thread.sequence_counter ≡ 0
      → length start.tx_frames ≡ (app.classes t).num_frames_per_cycle
      → n * (app.classes t).num_frames_per_cycle < 2 ^ 64
      → Run start n wire l
      → (sent : ℕ) × Handover n sent wire l
  unfolding tc_tx_gen_round
  Run-Handover start l n wire b m a c f w begin = (
    0,
    record {
      model = b;
      frames = f;
      available = inl a;
      counter = omega (arith, c);
      bounded = omega (arith, a);
      taken = omega arith;
    },
  )
  Run-Handover start l n wire b m a c f w (generate {n = k} {l = p} run) =
      let (sent, h) = Run-Handover start p k wire b m a c f (omega (arith, w)) run in
      (
        sent,
        record {
          model = h.model;
          frames = h.frames;
          available = inr refl;
          counter = h.counter;
          bounded = omega (arith, h.bounded);
          taken = h.taken;
        },
      )
  Run-Handover start l n wire b m a c f w (turn {wire = before} {l = p} run ev r e) =
      let (sent, h) = Run-Handover start p n before b m a c f w run in
      let fits : p.thread.sequence_counter < 2 ^ 64 = omega (arith, h.counter, h.bounded, w) in
      let s : Served p (due p.thread ev) r = tx_round-Served p ev r h.model m fits h.frames e in
      let once : p.thread.num_frames_available ≢ 0
          → p.thread.num_frames_available ≡ (app.classes t).num_frames_per_cycle =
        λ there. ground (arith, h.available) in
      elim (due_cases p.thread ev) [
        | inl none_due ↦ (
          sent,
          record {
            model = s.model ∙ h.model;
            frames = s.frames ∙ h.frames;
            available = inl s.emptied;
            counter = omega (arith, s.counter, none_due, h.counter, fits);
            bounded = omega (arith, s.emptied, h.bounded);
            taken = omega (arith, s.taken, none_due, h.taken, length-append before (r.wire));
          },
        )
        | inr (all_due, there) ↦ (
          suc sent,
          record {
            model = s.model ∙ h.model;
            frames = s.frames ∙ h.frames;
            available = inl s.emptied;
            counter = omega (arith, s.counter, all_due, h.counter, once there, w, h.bounded);
            bounded = omega (arith, s.emptied, once there, h.bounded);
            taken = omega (arith, s.taken, all_due, h.taken, length-append before (r.wire));
          },
        )
      ]
