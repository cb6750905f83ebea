-- ===== src/Udp/Received.antt =====
-- The datagrams that udp_tx_thread_routine of src/udp_thread.c generates, at udp_rx_thread_routine.
use rtc_testbench.Base.{
  ℕ, suc, ◌+◌, ◌-◌, ◌*◌, ◌≤◌, ◌<◌, ◌^◌, ◌≡◌, refl, sym, ap, ◌∙◌, inl, inr, Bool, true, false, not,
  none, some, List, [], ◌∷◌, arith, length, ltb, ◌==◌, Bool-cases, if◌then◌else◌,
}
use mathlib.Core.Path.{subst}
use rtc_testbench.Types.{AppConfig, FrameType, Build}
use rtc_testbench.Stat.State.{DoubleOps, State}
use rtc_testbench.Rx.{RxContext, RxTimes, set_mirror_tx_timestamp_est, next_sequence_counter}
use rtc_testbench.Tc.Returns.{HasBacklog, result_of}
use rtc_testbench.Udp.{UdpTx, SendTo, udp_initialize_frame, udp_generate, udp_report, udp_rx_frame}
use rtc_testbench.Udp.Datagram.{HasPattern, report_lem, initialize-HasPattern, length-initialize}
use rtc_testbench.Udp.Generated.{AllFit, Carried, Generated, generate-Returns}

module _ {D : Type 0} (o : DoubleOps D) (app : AppConfig) (build : Build) (t : FrameType)
    (times : ℕ → RxTimes) where
  -- A receiver, from one datagram to the next, at the times `times` of each counter. Its expected
  -- counter is `late` behind the sender's. For each call there is a datagram, which is on the wire
  -- if the call did not fail, and then passes the check of the length, with the sender's counter,
  -- the pattern and the time of the call; it counts as out of order just if the receiver is behind.
  -- A failed call puts the receiver one further behind, a datagram brings it one closer.
  abbrev pub Accepted : (late : ℕ) → State D → RxContext → List SendTo → List (List ℕ) → Type 0
  Accepted late s ctx [] wire = wire ≡ []
  Accepted late s ctx (call ∷ calls) wire =
      let q = ctx.rx_sequence_counter + late in
      (g : List ℕ) × (rest : List (List ℕ)) × (wire ≡ (if call.taken then g ∷ rest else rest))
      × (let report =
            udp_report (app.classes t) ctx g
              (set_mirror_tx_timestamp_est app g 0 (times q).mirror_now) in
          let r = udp_rx_frame o app build t s ctx g (length g) (times q) in
          ((r.error ≡ none)
            × (report.cycle_number ≡ q)
            × (report.out_of_order ≡ ltb 0 late)
            × (report.payload_mismatch ≡ false)
            × (report.tx_timestamp ≡ call.tx_now))
          × Accepted (if call.taken then late - 1 else late + 1) (if call.taken then r.state else s)
              (if call.taken then r.context else ctx) calls rest)

  rx_frame_lem :
      (s : State D) (ctx : RxContext) (g : List ℕ) (now : RxTimes)
      → length g ≡ (app.classes t).frame_length
      → let report =
          udp_report (app.classes t) ctx g (set_mirror_tx_timestamp_est app g 0 now.mirror_now) in
        let r = udp_rx_frame o app build t s ctx g (length g) now in
        (r.error ≡ none)
        × (r.context.rx_sequence_counter
            ≡ next_sequence_counter ctx.rx_sequence_counter report.out_of_order)
  unfolding udp_rx_frame
  rx_frame_lem s ctx g now e =
      let same : (length g == (app.classes t).frame_length) ≡ true = ground (arith, e) in
      elim (Bool-cases (app.classes t).rx_mirror_enabled) [
        | inl m ↦ rw (same, m) (refl, refl)
        | inr m ↦ rw (same, m) (refl, refl)
      ]

  behind_lem :
      (counter late : ℕ) (late_now : Bool)
      → late_now ≡ ltb 0 late
      → counter + late + 1 < 2 ^ 64
      → next_sequence_counter counter late_now + (late - 1) ≡ suc (counter + late)
  unfolding next_sequence_counter
  behind_lem counter late b e h = grind (arith, e, h)

  late_test : (counter late : ℕ) → not (counter == counter + late) ≡ ltb 0 late
  late_test counter late = ground arith

  Carried-Accepted :
      (q : ℕ) (calls : List SendTo) (wire : List (List ℕ)) (late : ℕ) (s : State D)
      (ctx : RxContext)
      → Carried app t q calls wire
      → ctx.rx_sequence_counter + late ≡ q
      → q + length calls < 2 ^ 64
      → Accepted late s ctx calls wire
  Carried-Accepted q [] wire late s ctx c e h = c
  Carried-Accepted q (call ∷ calls) wire late s ctx (g, rest, split, w, c) e h =
      let n = ctx.rx_sequence_counter + late in
      let now = times n in
      let report =
        udp_report (app.classes t) ctx g (set_mirror_tx_timestamp_est app g 0 now.mirror_now) in
      let r = udp_rx_frame o app build t s ctx g (length g) now in
      let (number, order, payload, stamp) = report_lem app t g q call.tx_now ctx now.mirror_now w in
      let (passed, counter) = rx_frame_lem s ctx g now w.size in
      let behind : report.out_of_order ≡ ltb 0 late =
        order
        ∙ ap (λ (x : ℕ). not (ctx.rx_sequence_counter == x)) (sym e)
        ∙ late_test ctx.rx_sequence_counter late in
      let step : (b : Bool)
          → Accepted (if b then late - 1 else late + 1) (if b then r.state else s)
              (if b then r.context else ctx) calls rest =
        λ b.
          elim b
            as (λ x.
              Accepted (if x then late - 1 else late + 1) (if x then r.state else s)
                (if x then r.context else ctx) calls rest) [
                  | true ↦
                      Carried-Accepted (suc q) calls rest (late - 1) r.state r.context c
                        (ap (λ (x : ℕ). x + (late - 1)) counter
                          ∙ behind_lem ctx.rx_sequence_counter late report.out_of_order behind
                              (omega (arith, e, h))
                          ∙ ap suc e)
                        (omega (arith, h))
                  | false ↦
                      Carried-Accepted (suc q) calls rest (late + 1) s ctx c (omega (arith, e))
                        (omega (arith, h))
                ] in
      (g, rest, split, ((passed, number ∙ sym e, behind, payload, stamp), step call.taken))

-- A Tx thread that generates, on a buffer that udp_initialize_frame filled, comes to an end for any
-- clocks that fit the meta data and whichever calls of sendto fail. A datagram is on the wire for
-- each call that does not; a receiver that begins with the sender's counter takes it as one of the
-- right length with the pattern of the class, and reads its counter and the time of its call. It
-- counts one out of order just if it is behind the sender, which each failed call makes it by one
-- more and each datagram by one less: without a failed call, none. The pattern must fit the frame
-- and the frame the buffer, the counters stay below the range of the meta data, and the statistics
-- have a backlog.
pub udp_generate-Accepted :
    {D : Type 0} (o : DoubleOps D) (app : AppConfig) (build : Build) (t : FrameType) (fuel : ℕ)
    (calls : List SendTo) (tx : UdpTx D) (buffer : List ℕ) (s : State D) (ctx : RxContext)
    (times : ℕ → RxTimes)
    → tx.frame ≡ udp_initialize_frame (app.classes t) buffer
    → 16 + length (app.classes t).payload_pattern ≤ (app.classes t).frame_length
    → (app.classes t).frame_length ≤ length buffer
    → HasBacklog app build t tx.stat
    → 0 < (app.classes t).num_frames_per_cycle
    → (app.classes t).num_frames_per_cycle < 2 ^ 32
    → 1 + (app.classes t).num_frames_per_cycle < fuel
    → tx.sequence_counter + length calls ≤ (app.classes t).num_frames_per_cycle * 2 ^ 32
    → tx.sequence_counter + length calls + (app.classes t).num_frames_per_cycle < 2 ^ 64
    → AllFit calls
    → ctx.rx_sequence_counter ≡ tx.sequence_counter
    → (next : UdpTx D) × (wire : List (List ℕ)) × (udp_generate app build t fuel tx calls
        ≡ some (next, wire))
      × Accepted o app build t times 0 s ctx calls wire
udp_generate-Accepted o app build t fuel calls tx buffer s ctx times e fits room v p n f a b h c =
    let w = initialize-HasPattern (app.classes t) buffer (omega (arith, fits, room)) in
    let (r, same, good) =
      result_of (Generated app t tx.sequence_counter calls) (udp_generate app build t fuel tx calls)
        (generate-Returns app build t fuel calls tx tx.sequence_counter refl v
          (subst (HasPattern (app.classes t)) (sym e) w)
          (omega (
            arith,
            room,
            ap (λ (x : List ℕ). length x) e,
            length-initialize (app.classes t) buffer (omega (arith, fits, room)),
          ))
          fits p n f a b h) in
    (
      r.0,
      r.1,
      same,
      Carried-Accepted o app build t times tx.sequence_counter calls r.1 0 s ctx good.0
          (omega (arith, c)) (omega (arith, b)),
    )
