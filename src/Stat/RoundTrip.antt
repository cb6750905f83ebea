-- ===== src/Stat/RoundTrip.antt =====
-- The round trip of a frame, from stat_frames_sent_batch to the lookup in stat_frame_received of
-- src/stat.c, in both modes of time stamping.
use rtc_testbench.Base.{
  ℕ, ◌+◌, ◌-◌, ◌*◌, ◌/◌, ◌^◌, ◌≤◌, ◌<◌, ◌≡◌, refl, ap, ◌∙◌, inl, inr, Bool-cases, List, [], ◌∷◌,
  Option, none, some, arith, u64, sub64, if◌then◌else◌, ◌==◌,
}
use native.Mathlib.Nat.{div-add-mod', mod-lt, add-mul}
use rtc_testbench.Types.{FrameType, AppConfig}
use rtc_testbench.Stat.State.{RoundTripContext}
use rtc_testbench.Stat.Sent.{stamp_each, stamp_batch}
use rtc_testbench.Stat.Received.{get_first_frame_backlog_idx, round_trip_time}
use rtc_testbench.Stat.Stamps.{
  sw_of, IsBacklog, stamp_each-keeps, stamp_each-stamps, stamp_each-IsBacklog,
}
use rtc_testbench.Stat.Stamps.Cycles.{stamp_cycles-total, stamp_cycles-keeps, stamp_cycles-stamps}

-- A call of stat_frames_sent_batch.
pub record Batch : Type 0 where
  pub cycle_number : ℕ
  pub frame_count : ℕ
  pub now : ℕ

base-le : (c fpc : ℕ) → 0 < fpc → (c / fpc * fpc ≤ c) × (c < c / fpc * fpc + fpc)
base-le c fpc h = omega (arith, div-add-mod' c fpc, mod-lt c h)

first_index : (q c fpc : ℕ) → 0 < fpc → c ≤ q / fpc * fpc → c / fpc ≤ q / fpc
first_index q c fpc h k = grind (arith, base-le c fpc h, base-le q fpc h)

-- The first frame of a cycle, counted from the start of an earlier one.
ahead :
    (q c fpc : ℕ)
    → 0 < fpc
    → c ≤ q / fpc * fpc
    → q / fpc * fpc ≡ c / fpc * fpc + (q / fpc - c / fpc) * fpc
ahead q c fpc h k =
    ap (λ (i : ℕ). i * fpc) (sum (c / fpc) (q / fpc) (first_index q c fpc h k))
    ∙ add-mul (c / fpc) (q / fpc - c / fpc) fpc
  where
    sum : (a b : ℕ) → a ≤ b → b ≡ a + (b - a)
    sum a b l = omega arith

module _ (app : AppConfig) (t : FrameType) where
  abbrev pub fpc_of : ℕ
  fpc_of = (app.classes t).num_frames_per_cycle

  -- The counter under whose slot the time stamp of the frame `q` stands.
  unfoldable pub stamped_as : ℕ → ℕ
  stamped_as q = if (app.classes t).tx_hwtstamp_enabled then q / fpc_of * fpc_of else q

  -- The part that the batches of a run have in the backlog.
  unfoldable pub send_all : ℕ → RoundTripContext → List Batch → Option RoundTripContext
  send_all fuel rtt [] = some rtt
  send_all fuel rtt (b ∷ bs) =
      elim (stamp_batch fuel app rtt t b.cycle_number b.frame_count b.now) [
        | some rtt' ↦ send_all fuel rtt' bs
        | none ↦ none
      ]

  -- A batch whose counters do not wrap, for which the fuel is enough.
  abbrev pub Fits : ℕ → Batch → Type 0
  Fits fuel b = (b.cycle_number + b.frame_count + fpc_of < 2 ^ 64) × (b.frame_count + fpc_of < fuel)

  pub batch-total :
      (fuel : ℕ) (rtt : RoundTripContext) (b : Batch)
      → IsBacklog rtt
      → 0 < fpc_of
      → Fits fuel b
      → (rtt' : RoundTripContext) × (stamp_batch fuel app rtt t b.cycle_number b.frame_count b.now
          ≡ some rtt')
        × IsBacklog rtt'
        × (rtt'.backlog_len ≡ rtt.backlog_len)
  unfolding stamp_batch
  batch-total fuel rtt b v p f = elim (Bool-cases (app.classes t).tx_hwtstamp_enabled) [
    | inl e ↦
        let (r, x, w, l) =
          stamp_cycles-total b.cycle_number (u64 (b.cycle_number + b.frame_count)) fpc_of b.now p
            (ground arith) fuel rtt (b.cycle_number / fpc_of * fpc_of) v
            (omega (arith, base-le b.cycle_number fpc_of p)) in
        (r, rw e x, w, l)
    | inr e ↦
        let n : ℕ = u64 (b.cycle_number + b.frame_count) - b.cycle_number in
        (
          stamp_each n rtt b.cycle_number b.now,
          rw e,
          (stamp_each-IsBacklog n rtt b.cycle_number b.now v).0,
          (stamp_each-IsBacklog n rtt b.cycle_number b.now v).1,
        )
  ]

  batch-keeps :
      (fuel : ℕ) (rtt : RoundTripContext) (b : Batch) (q : ℕ) {rtt' : RoundTripContext}
      → IsBacklog rtt
      → 0 < fpc_of
      → Fits fuel b
      → q < b.cycle_number
      → b.cycle_number + b.frame_count ≤ q + rtt.backlog_len
      → stamp_batch fuel app rtt t b.cycle_number b.frame_count b.now ≡ some rtt'
      → sw_of rtt' q ≡ sw_of rtt q
  unfolding stamp_batch
  batch-keeps fuel rtt b q {rtt'} v p f h k e = ground (
    arith,
    stamp_cycles-keeps b.cycle_number (u64 (b.cycle_number + b.frame_count)) fpc_of b.now p
        (ground arith) fuel rtt (b.cycle_number / fpc_of * fpc_of) q {rtt' = rtt'} v,
    stamp_each-keeps (u64 (b.cycle_number + b.frame_count) - b.cycle_number) rtt b.cycle_number q
        b.now v,
  )

  batch-stamps :
      (fuel : ℕ) (rtt : RoundTripContext) (b : Batch) (q : ℕ) {rtt' : RoundTripContext}
      → IsBacklog rtt
      → 0 < fpc_of
      → Fits fuel b
      → b.cycle_number ≤ stamped_as q
      → stamped_as q < b.cycle_number + b.frame_count
      → b.cycle_number + b.frame_count ≤ stamped_as q + rtt.backlog_len
      → b.frame_count ≤ rtt.backlog_len
      → stamp_batch fuel app rtt t b.cycle_number b.frame_count b.now ≡ some rtt'
      → sw_of rtt' (stamped_as q) ≡ b.now
  unfolding stamp_batch stamped_as
  batch-stamps fuel rtt b q {rtt'} v p f h k w s e =
      elim (Bool-cases (app.classes t).tx_hwtstamp_enabled) [
        | inl on ↦ ground (
          arith,
          ahead q b.cycle_number fpc_of p,
          stamp_cycles-stamps b.cycle_number (u64 (b.cycle_number + b.frame_count)) fpc_of b.now p
              (ground arith) fuel (q / fpc_of - b.cycle_number / fpc_of) rtt
              (b.cycle_number / fpc_of * fpc_of) (q / fpc_of * fpc_of) {rtt' = rtt'} v,
        )
        | inr off ↦ ground (
          arith,
          stamp_each-stamps (u64 (b.cycle_number + b.frame_count) - b.cycle_number) rtt
              b.cycle_number q b.now v,
        )
      ]

  -- The lookup of a reception reads the slot of `stamped_as`.
  round_trip_time_lem :
      (rtt : RoundTripContext) (q curr : ℕ)
      → q < 2 ^ 64
      → 0 < fpc_of
      → round_trip_time app rtt t q curr ≡ (
          if sw_of rtt (stamped_as q) == 0 then 0 else sub64 curr (sw_of rtt (stamped_as q)) / 1000)
  unfolding round_trip_time stamped_as sw_of get_first_frame_backlog_idx
  round_trip_time_lem rtt q curr h p = elim (Bool-cases (app.classes t).tx_hwtstamp_enabled) [
    | inl on ↦
        let same : u64 (q / fpc_of * fpc_of) ≡ q / fpc_of * fpc_of =
          omega (arith, base-le q fpc_of p) in
        rw (on, same)
    | inr off ↦ rw off
  ]

  -- What the batches behind a frame must leave it: none is for its counter, and none wraps round
  -- the backlog to its slot.
  abbrev pub Spares : ℕ → ℕ → ℕ → List Batch → Type 0
  Spares fuel len q [] = Unit {0}
  Spares fuel len q (b ∷ bs) =
      Fits fuel b
      × (q < b.cycle_number)
      × (b.cycle_number + b.frame_count ≤ q + len)
      × Spares fuel len q bs

  send_all-keeps :
      (bs : List Batch) (fuel : ℕ) (rtt : RoundTripContext) (q : ℕ)
      → IsBacklog rtt
      → 0 < fpc_of
      → Spares fuel rtt.backlog_len q bs
      → (rtt' : RoundTripContext) × (send_all fuel rtt bs ≡ some rtt')
        × (sw_of rtt' q ≡ sw_of rtt q)
  unfolding send_all
  send_all-keeps [] fuel rtt q v p f = (rtt, refl, refl)
  send_all-keeps (b ∷ bs) fuel rtt q v p f =
      let (r, x, w, l) = batch-total fuel rtt b v p f.0 in
      let rest : Spares fuel r.backlog_len q bs = rw l f.3 in
      let (r', x', s) = send_all-keeps bs fuel r q w p rest in
      (r', rw (x, send_all) x', s ∙ batch-keeps fuel rtt b q v p f.0 f.1 f.2 x)

  -- Let a batch `b`, no longer than the backlog, send the frame `q` at `b.now` (with hardware time
  -- stamps: the first frame of the cycle of `q`), and let later batches be for later frames that do
  -- not come round to its slot. Then, given fuel beyond the frames of a batch and no counter that
  -- wraps, all batches end and the round trip time of `q` at `curr` is `curr - b.now`, in us.
  pub round_trip_measured :
      (fuel : ℕ) (rtt : RoundTripContext) (b : Batch) (bs : List Batch) (q curr : ℕ)
      → IsBacklog rtt
      → 0 < fpc_of
      → Fits fuel b
      → b.frame_count ≤ rtt.backlog_len
      → b.cycle_number ≤ stamped_as q
      → stamped_as q < b.cycle_number + b.frame_count
      → b.cycle_number + b.frame_count ≤ stamped_as q + rtt.backlog_len
      → Spares fuel rtt.backlog_len (stamped_as q) bs
      → q < 2 ^ 64
      → 0 < b.now
      → b.now ≤ curr
      → curr < 2 ^ 64
      → (rtt' : RoundTripContext) × (send_all fuel rtt (b ∷ bs) ≡ some rtt')
        × (round_trip_time app rtt' t q curr ≡ (curr - b.now) / 1000)
  unfolding send_all
  round_trip_measured fuel rtt b bs q curr v p f n h k w later hq now le hc =
      let (r, x, v', l) = batch-total fuel rtt b v p f in
      let rest : Spares fuel r.backlog_len (stamped_as q) bs = rw l later in
      let (r', x', s) = send_all-keeps bs fuel r (stamped_as q) v' p rest in
      let stamp : sw_of r' (stamped_as q) ≡ b.now = s ∙ batch-stamps fuel rtt b q v p f h k w n x in
      (r', rw (x, send_all) x', ground (arith, stamp, round_trip_time_lem r' q curr hq p))
