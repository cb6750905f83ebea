-- ===== src/Stat/Stamps.antt =====
-- The backlog as a map from sequence counters to Tx time stamps: what a batch writes, and what it
-- leaves alone.
pub mod Cycles
use rtc_testbench.Base.{
  ℕ, zero, suc, ◌+◌, ◌-◌, ◌*◌, ◌/◌, ◌%◌, ◌^◌, ◌≤◌, ◌<◌, ◌≡◌, ◌≢◌, refl, ap, sym, ◌∙◌, ◌⊎◌, inl, inr,
  Bool, true, false, Bool-cases, ltb, List, [], ◌∷◌, Option, none, some, arith, length, get_or, set,
  length-set, get_or-set, u64, if◌then◌else◌, ◌==◌,
}
use native.Mathlib.Nat.{div-add-mod', mod-lt}
use rtc_testbench.Stat.State.{RttEntry, empty_entry, RoundTripContext}
use rtc_testbench.Stat.Sent.{stamp_sw, stamp_each, stamp_cycles}

-- The time stamp that a lookup of the counter `q` finds.
unfoldable pub sw_of : RoundTripContext → ℕ → ℕ
sw_of rtt q = (get_or rtt.backlog (q % rtt.backlog_len) empty_entry).sw_ts

pub record IsBacklog (rtt : RoundTripContext) : Type 0 where
  pub storage : length rtt.backlog ≡ rtt.backlog_len
  pub nonempty : 0 < rtt.backlog_len

-- Counters less than a backlog apart have slots of their own.
pub mod-ne : (q c len : ℕ) → q < c → c < q + len → q % len ≢ c % len
mod-ne q c len h k e = grind (arith, div-add-mod' q len, div-add-mod' c len)

pub stamp_sw-IsBacklog :
    (rtt : RoundTripContext) (i ts : ℕ)
    → IsBacklog rtt
    → IsBacklog (stamp_sw rtt i ts) × ((stamp_sw rtt i ts).backlog_len ≡ rtt.backlog_len)
unfolding stamp_sw
stamp_sw-IsBacklog rtt i ts v =
    ground
      (arith, length-set rtt.backlog i (record (get_or rtt.backlog i empty_entry) { sw_ts = ts }))

-- A stamp of the counter `c`, seen from the counter `q`.
pub sw_of-stamp_sw :
    (rtt : RoundTripContext) (c q ts : ℕ)
    → IsBacklog rtt
    → sw_of (stamp_sw rtt (c % rtt.backlog_len) ts) q
      ≡ (if c % rtt.backlog_len == q % rtt.backlog_len then ts else sw_of rtt q)
unfolding sw_of stamp_sw
sw_of-stamp_sw rtt c q ts v =
    let there : c % rtt.backlog_len < length rtt.backlog =
      omega (arith, mod-lt c {m = rtt.backlog_len} v.nonempty) in
    let entry : RttEntry = record (get_or rtt.backlog (c % rtt.backlog_len) empty_entry) {
      sw_ts = ts;
    } in
    elim (Bool-cases (c % rtt.backlog_len == q % rtt.backlog_len)) [
      | inl e ↦ ground (
        arith,
        get_or-set rtt.backlog (c % rtt.backlog_len) (q % rtt.backlog_len) entry empty_entry there,
      )
      | inr e ↦ ground (
        arith,
        get_or-set rtt.backlog (c % rtt.backlog_len) (q % rtt.backlog_len) entry empty_entry there,
      )
    ]

-- The loop over the frames of a batch keeps what is still in reach, ...
pub stamp_each-keeps :
    (n : ℕ) (rtt : RoundTripContext) (c q ts : ℕ)
    → IsBacklog rtt
    → q < c
    → c + n ≤ q + rtt.backlog_len
    → sw_of (stamp_each n rtt c ts) q ≡ sw_of rtt q
unfolding stamp_each
stamp_each-keeps zero rtt c q ts v h k = refl
stamp_each-keeps (suc n) rtt c q ts v h k = ground (
  arith,
  stamp_sw-IsBacklog rtt (c % rtt.backlog_len) ts v,
  sw_of-stamp_sw rtt c q ts v,
  mod-ne q c rtt.backlog_len,
  stamp_each-keeps n (stamp_sw rtt (c % rtt.backlog_len) ts) (c + 1) q ts,
)

-- ... and stamps each of its frames.
pub stamp_each-stamps :
    (n : ℕ) (rtt : RoundTripContext) (c q ts : ℕ)
    → IsBacklog rtt
    → n ≤ rtt.backlog_len
    → c ≤ q
    → q < c + n
    → sw_of (stamp_each n rtt c ts) q ≡ ts
unfolding stamp_each
stamp_each-stamps zero rtt c q ts v h a b = absurd (omega arith)
stamp_each-stamps (suc n) rtt c q ts v h a b = elim (Bool-cases (c == q)) [
  | inl e ↦ ground (
    arith,
    stamp_sw-IsBacklog rtt (c % rtt.backlog_len) ts v,
    sw_of-stamp_sw rtt c q ts v,
    stamp_each-keeps n (stamp_sw rtt (c % rtt.backlog_len) ts) (c + 1) q ts,
  )
  | inr e ↦ ground (
    arith,
    stamp_sw-IsBacklog rtt (c % rtt.backlog_len) ts v,
    stamp_each-stamps n (stamp_sw rtt (c % rtt.backlog_len) ts) (c + 1) q ts,
  )
]

pub stamp_each-IsBacklog :
    (n : ℕ) (rtt : RoundTripContext) (c ts : ℕ)
    → IsBacklog rtt
    → IsBacklog (stamp_each n rtt c ts) × ((stamp_each n rtt c ts).backlog_len ≡ rtt.backlog_len)
unfolding stamp_each
stamp_each-IsBacklog zero rtt c ts v = (v, refl)
stamp_each-IsBacklog (suc n) rtt c ts v = ground (
  arith,
  stamp_sw-IsBacklog rtt (c % rtt.backlog_len) ts v,
  stamp_each-IsBacklog n (stamp_sw rtt (c % rtt.backlog_len) ts) (c + 1) ts,
)
