-- ===== src/Stat/Stamps/Cycles.antt =====
-- The loop of a batch with hardware time stamps: it ends, and stamps the first frame of each cycle
-- that begins in the batch.
use rtc_testbench.Base.{
  ℕ, zero, suc, ◌+◌, ◌-◌, ◌*◌, ◌%◌, ◌^◌, ◌≤◌, ◌<◌, ◌≡◌, refl, ap, ◌∙◌, ◌⊎◌, inl, inr, Bool-cases,
  ltb, some, arith, u64,
}
use rtc_testbench.Stat.State.{RoundTripContext}
use rtc_testbench.Stat.Sent.{stamp_sw, stamp_cycles}
use rtc_testbench.Stat.Stamps.{sw_of, IsBacklog, mod-ne, stamp_sw-IsBacklog, sw_of-stamp_sw}

module _ (cn end fpc ts : ℕ) (step : 0 < fpc) (no_wrap : end + fpc < 2 ^ 64) where
  -- Fuel above the distance to the end is enough.
  pub stamp_cycles-total :
      (fuel : ℕ) (rtt : RoundTripContext) (c : ℕ)
      → IsBacklog rtt
      → end - c < fuel
      → (rtt' : RoundTripContext) × (stamp_cycles fuel rtt c cn end fpc ts ≡ some rtt')
        × IsBacklog rtt'
        × (rtt'.backlog_len ≡ rtt.backlog_len)
  unfolding stamp_cycles
  stamp_cycles-total zero rtt c v h = absurd (omega arith)
  stamp_cycles-total (suc fuel) rtt c v h = elim (Bool-cases (ltb c end)) [
    | inr e ↦ (rtt, rw e, v, refl)
    | inl e ↦ elim (Bool-cases (ltb c cn)) [
      | inl before ↦
          let (r, p, w, l) = stamp_cycles-total fuel rtt (u64 (c + fpc)) v (ground arith) in
          (r, rw (e, before) p, w, l)
      | inr from ↦
          let s = stamp_sw-IsBacklog rtt (c % rtt.backlog_len) ts v in
          let (r, p, w, l) =
            stamp_cycles-total fuel (stamp_sw rtt (c % rtt.backlog_len) ts) (u64 (c + fpc)) s.0
              (ground arith) in
          (r, rw (e, from) p, w, l ∙ s.1)
    ]
  ]

  pub stamp_cycles-keeps :
      (fuel : ℕ) (rtt : RoundTripContext) (c q : ℕ) {rtt' : RoundTripContext}
      → IsBacklog rtt
      → (q < c) ⊎ (q < cn)
      → end ≤ q + rtt.backlog_len
      → stamp_cycles fuel rtt c cn end fpc ts ≡ some rtt'
      → sw_of rtt' q ≡ sw_of rtt q
  unfolding stamp_cycles
  stamp_cycles-keeps zero rtt c q v h k e = ground arith
  stamp_cycles-keeps (suc fuel) rtt c q {rtt'} v h k e = ground (
    arith,
    stamp_sw-IsBacklog rtt (c % rtt.backlog_len) ts v,
    sw_of-stamp_sw rtt c q ts v,
    mod-ne q c rtt.backlog_len,
    stamp_cycles-keeps fuel rtt (u64 (c + fpc)) q {rtt' = rtt'} v,
    stamp_cycles-keeps fuel (stamp_sw rtt (c % rtt.backlog_len) ts) (u64 (c + fpc)) q {rtt' = rtt'},
  )

  -- `j` cycles ahead.
  pub stamp_cycles-stamps :
      (fuel j : ℕ) (rtt : RoundTripContext) (c q : ℕ) {rtt' : RoundTripContext}
      → IsBacklog rtt
      → q ≡ c + j * fpc
      → cn ≤ q
      → q < end
      → end ≤ q + rtt.backlog_len
      → stamp_cycles fuel rtt c cn end fpc ts ≡ some rtt'
      → sw_of rtt' q ≡ ts
  unfolding stamp_cycles
  stamp_cycles-stamps zero j rtt c q v a b h k e = ground arith
  stamp_cycles-stamps (suc fuel) zero rtt c q {rtt'} v a b h k e = ground (
    arith,
    stamp_sw-IsBacklog rtt (c % rtt.backlog_len) ts v,
    sw_of-stamp_sw rtt c q ts v,
    ap (λ (t : ℕ). t % rtt.backlog_len) a,
    stamp_cycles-keeps fuel (stamp_sw rtt (c % rtt.backlog_len) ts) (u64 (c + fpc)) q {rtt' = rtt'},
  )
  stamp_cycles-stamps (suc fuel) (suc j) rtt c q {rtt'} v a b h k e = ground (
    arith,
    stamp_sw-IsBacklog rtt (c % rtt.backlog_len) ts v,
    stamp_cycles-stamps fuel j rtt (u64 (c + fpc)) q {rtt' = rtt'} v,
    stamp_cycles-stamps fuel j (stamp_sw rtt (c % rtt.backlog_len) ts) (u64 (c + fpc)) q
        {rtt' = rtt'},
  )
