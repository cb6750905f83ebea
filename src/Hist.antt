-- ===== src/Hist.antt =====
-- src/hist.c: the histogram of round trip times of a traffic class, in us. Writing the file is I/O
-- and is left out.
pub mod Counts
use rtc_testbench.Base.{
  ℕ, ◌+◌, ◌-◌, ◌/◌, Bool, true, false, Option, none, some, List, [], ◌∷◌, get_or, set, replicate,
  ltb, leb, if◌then◌else◌, u64, sub64,
}
use rtc_testbench.Types.{AppConfig}

-- struct histogram
pub record Histogram : Type 0 where
  pub slots : List ℕ
  pub min : ℕ
  pub max : ℕ
  pub underflow : ℕ
  pub overflow : ℕ

-- One round of the loop of `histogram_init`; `none` is a failed `calloc`.
unfoldable pub histogram_init : AppConfig → Bool → Option Histogram
histogram_init app allocated =
    let min = app.stats_histogram_minimum_ns / 1000 in
    let max = app.stats_histogram_maximum_ns / 1000 in
    if allocated
    then some (record {
      slots = replicate (sub64 max min) 0;
      min = min;
      max = max;
      underflow = 0;
      overflow = 0;
    })
    else none

-- histogram_update
unfoldable pub histogram_update : Histogram → ℕ → Histogram
histogram_update h rtt =
    let sample = sub64 rtt h.min in
    if leb h.max rtt
    then record h { overflow = u64 (h.overflow + 1) }
    else if ltb rtt h.min
    then record h { underflow = u64 (h.underflow + 1) }
    else record h { slots = set h.slots sample (u64 (get_or h.slots sample 0 + 1)) }

-- The round trips of a run, one after the other.
unfoldable pub update_all : Histogram → List ℕ → Histogram
update_all h [] = h
update_all h (rtt ∷ rtts) = update_all (histogram_update h rtt) rtts
