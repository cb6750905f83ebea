-- ===== src/Stat/Once.antt =====
-- How stat_proc_batch_latency of src/stat.c uses up the time stamp of a received cycle.
use rtc_testbench.Base.{
  ℕ, zero, suc, ◌/◌, sub64, ◌≡◌, refl, ap, ◌∙◌, Bool, true, false, List, [], ◌∷◌, arith, get_or,
  set, if◌then◌else◌,
}
use rtc_testbench.Types.{FrameType, AppConfig, Build}
use rtc_testbench.Stat.State.{
  DoubleOps, State, Statistics, RttEntry, RoundTripContext, empty_entry, assign, assign_same,
}
use rtc_testbench.Stat.Common.{inc, stat_frame_proc_batch_common}
use rtc_testbench.Stat.Received.{get_first_frame_backlog_idx}
use rtc_testbench.Stat.Latency.{change_both, proc_latency_known, stat_proc_batch_latency}

-- An entry whose time stamp is cleared, or that is not there, has none.
cleared_rx :
    (xs : List RttEntry) (i : ℕ)
    → (get_or (set xs i (record (get_or xs i empty_entry) { rx_hw_ts = 0 })) i empty_entry).rx_hw_ts
      ≡ 0
cleared_rx [] i = refl
cleared_rx (x ∷ xs) zero = refl
cleared_rx (x ∷ xs) (suc i) = cleared_rx xs i

cleared_tx :
    (xs : List RttEntry) (i : ℕ)
    → let e = get_or (set xs i (record (get_or xs i empty_entry) { hw_ts = 0 })) i empty_entry in
      (e.hw_ts ≡ 0) × (e.sw_ts ≡ (get_or xs i empty_entry).sw_ts)
cleared_tx [] i = (refl, refl)
cleared_tx (x ∷ xs) zero = (refl, refl)
cleared_tx (x ∷ xs) (suc i) = cleared_tx xs i

module _ {D : Type 0} (o : DoubleOps D) (app : AppConfig) (build : Build) where
  -- The slot of the first frame of a cycle.
  abbrev pub slot_of : State D → FrameType → ℕ → ℕ
  slot_of s t c =
      get_first_frame_backlog_idx c (app.classes t).num_frames_per_cycle
        ((s.round_trip_contexts) t).backlog_len

  -- The Rx time stamp in a slot.
  abbrev pub rx_stamp : State D → FrameType → ℕ → ℕ
  rx_stamp s t i = (get_or ((s.round_trip_contexts) t).backlog i empty_entry).rx_hw_ts

  changed-context :
      (b : Bool) (s : State D) (t : FrameType) (f : Statistics D → Statistics D)
      → (if b then change_both o build s t f else s).round_trip_contexts ≡ s.round_trip_contexts
  changed-context true s t f = refl
  changed-context false s t f = refl

  abbrev cleared_context : State D → FrameType → ℕ → RoundTripContext
  cleared_context s t i = record ((s.round_trip_contexts) t) {
    backlog =
        set ((s.round_trip_contexts) t).backlog i
          (record (get_or ((s.round_trip_contexts) t).backlog i empty_entry) { rx_hw_ts = 0 });
  }

  abbrev cleared : State D → FrameType → ℕ → State D
  cleared s t i = record s {
    round_trip_contexts = assign s.round_trip_contexts t (cleared_context s t i);
  }

  -- Both time stamps are known and in order.
  abbrev pub known : State D → FrameType → ℕ → ℕ → Bool
  known s t c tx = proc_latency_known o app build t (rx_stamp s t (slot_of s t c)) tx

  abbrev latency : State D → FrameType → ℕ → ℕ → Statistics D → Statistics D
  latency s t c tx stat =
      stat_frame_proc_batch_common o app stat (sub64 tx (rx_stamp s t (slot_of s t c)) / 1000)

  batch-context :
      (s : State D) (t : FrameType) (c tx : ℕ)
      → (stat_proc_batch_latency o app build s t c tx).round_trip_contexts t
        ≡ cleared_context s t (slot_of s t c)
  unfolding stat_proc_batch_latency
  batch-context s t c tx =
      ap (λ (f : FrameType → RoundTripContext). f t)
        {y = assign s.round_trip_contexts t (cleared_context s t (slot_of s t c))}
        (changed-context (known s t c tx) (cleared s t (slot_of s t c)) t (latency s t c tx))
      ∙ assign_same (s.round_trip_contexts) t (cleared_context s t (slot_of s t c))

  unknown_rx : (t : FrameType) (tx : ℕ) → proc_latency_known o app build t 0 tx ≡ false
  unfolding proc_latency_known
  unknown_rx t tx = ground arith

  unchanged :
      (b : Bool) (s : State D) (t : FrameType) (f : Statistics D → Statistics D)
      → b ≡ false
      → (if b then change_both o build s t f else s) ≡ s
  unchanged b s t f e = rw e refl

  -- Without an Rx time stamp, the statistics stay as they are.
  batch-unknown :
      (s : State D) (t : FrameType) (c tx : ℕ)
      → rx_stamp s t (slot_of s t c) ≡ 0
      → let s' = stat_proc_batch_latency o app build s t c tx in
        (s'.global_statistics ≡ s.global_statistics)
        × (s'.statistics_per_period ≡ s.statistics_per_period)
  unfolding stat_proc_batch_latency
  batch-unknown s t c tx h =
      let off = ap (λ (r : ℕ). proc_latency_known o app build t r tx) h ∙ unknown_rx t tx in
      let same =
        unchanged (known s t c tx) (cleared s t (slot_of s t c)) t (latency s t c tx) off in
      (
        ap (λ (r : State D). r.global_statistics) same,
        ap (λ (r : State D). r.statistics_per_period) same,
      )

  taken :
      (b : Bool) (s : State D) (t : FrameType) (f : Statistics D → Statistics D)
      → b ≡ true
      → ((if b then change_both o build s t f else s).global_statistics) t
        ≡ f ((s.global_statistics) t)
  taken b s t f e = rw e (assign_same (s.global_statistics) t (f ((s.global_statistics) t)))

  batch-known :
      (s : State D) (t : FrameType) (c tx : ℕ)
      → known s t c tx ≡ true
      → (((stat_proc_batch_latency o app build s t c tx).global_statistics) t).proc_batch_count
        ≡ inc ((s.global_statistics) t).proc_batch_count
  unfolding stat_proc_batch_latency stat_frame_proc_batch_common
  batch-known s t c tx e =
      ap (λ (r : Statistics D). r.proc_batch_count)
        (taken (known s t c tx) (cleared s t (slot_of s t c)) t (latency s t c tx) e)

  -- A mirror's batch latency is taken once for a received cycle: if both time stamps are known and
  -- in order then the first call counts it, and a second call for the slot of the same cycle
  -- changes neither the statistics since the start nor those of the period, whatever time stamp it
  -- passes.
  pub proc_batch_once :
      (s : State D) (t : FrameType) (c tx c' tx' : ℕ)
      → known s t c tx ≡ true
      → slot_of s t c' ≡ slot_of s t c
      → let s₁ = stat_proc_batch_latency o app build s t c tx in
        let s₂ = stat_proc_batch_latency o app build s₁ t c' tx' in
        (((s₁.global_statistics) t).proc_batch_count
          ≡ inc ((s.global_statistics) t).proc_batch_count)
        × (s₂.global_statistics ≡ s₁.global_statistics)
        × (s₂.statistics_per_period ≡ s₁.statistics_per_period)
  proc_batch_once s t c tx c' tx' k e =
      let s₁ = stat_proc_batch_latency o app build s t c tx in
      let ctx = batch-context s t c tx in
      let slot : slot_of s₁ t c' ≡ slot_of s t c =
        ap
          (λ (r : RoundTripContext).
            get_first_frame_backlog_idx c' (app.classes t).num_frames_per_cycle r.backlog_len)
          ctx
        ∙ e in
      let stamp : rx_stamp s₁ t (slot_of s₁ t c') ≡ 0 =
        ap (λ (i : ℕ). rx_stamp s₁ t i) slot
        ∙ ap (λ (r : RoundTripContext). (get_or r.backlog (slot_of s t c) empty_entry).rx_hw_ts) ctx
        ∙ cleared_rx ((s.round_trip_contexts) t).backlog (slot_of s t c) in
      let (all, period) = batch-unknown s₁ t c' tx' stamp in (batch-known s t c tx k, all, period)
