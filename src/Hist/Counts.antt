-- ===== src/Hist/Counts.antt =====
-- What the counters of the histogram of src/hist.c say about the samples that it was given.
use rtc_testbench.Base.{
  ℕ, zero, suc, set, ◌+◌, ◌/◌, ◌^◌, ◌≤◌, ◌<◌, ◌≡◌, ap, Bool, true, some, List, [], ◌∷◌, arith,
  length, get_or, ltb, leb, ◌==◌, u64, sub64, to_nat, length-set, get_or-set, length-replicate,
  get_or-replicate,
}
use rtc_testbench.Types.{AppConfig}
use rtc_testbench.Hist.{Histogram, histogram_init, histogram_update, update_all}

-- How many of the samples pass a test.
unfoldable pub count : (ℕ → Bool) → List ℕ → ℕ
count p [] = 0
count p (x ∷ xs) = to_nat (p x) + count p xs

pub record IsValid (h : Histogram) : Type 0 where
  pub storage : h.min + length h.slots ≡ h.max
  pub max_fits : h.max < 2 ^ 64

-- All that the histogram has counted.
unfoldable pub sum : List ℕ → ℕ
sum [] = 0
sum (x ∷ xs) = x + sum xs

abbrev pub counted : Histogram → ℕ
counted h = sum h.slots + h.underflow + h.overflow

sum-set : (xs : List ℕ) (i v : ℕ) → i < length xs → sum (set xs i v) + get_or xs i 0 ≡ sum xs + v
unfolding sum
sum-set [] i v h = absurd (omega arith)
sum-set (x ∷ xs) zero v h = omega arith
sum-set (x ∷ xs) (suc i) v h = omega (arith, sum-set xs i v (omega arith))

get_or-sum : (xs : List ℕ) (i : ℕ) → get_or xs i 0 ≤ sum xs
unfolding sum
get_or-sum [] i = omega arith
get_or-sum (x ∷ xs) zero = omega arith
get_or-sum (x ∷ xs) (suc i) = omega (arith, get_or-sum xs i)

-- A sample keeps the limits of a valid histogram and its shape, one slot for each value between
-- them, and is counted once: in a slot that there is, as underflow or as overflow. The histogram
-- must have counted fewer than 2 ^ 64 - 1 samples.
pub histogram_update-IsValid :
    (h : Histogram) (rtt : ℕ)
    → IsValid h
    → rtt < 2 ^ 64
    → counted h + 1 < 2 ^ 64
    → IsValid (histogram_update h rtt)
      × (counted (histogram_update h rtt) ≡ counted h + 1)
      × ((histogram_update h rtt).min ≡ h.min)
      × ((histogram_update h rtt).max ≡ h.max)
unfolding histogram_update
histogram_update-IsValid h rtt v small few =
    let i = sub64 rtt h.min in
    let n = get_or h.slots i 0 in
    let l = length-set h.slots i (u64 (n + 1)) in
    let s = sum-set h.slots i (u64 (n + 1)) in
    let g = get_or-sum h.slots i in
    (ground (arith, l), ground (arith, s, g), ground arith, ground arith)

shape :
    (h : Histogram) (rtt : ℕ)
    → IsValid h
    → IsValid (histogram_update h rtt)
      × ((histogram_update h rtt).min ≡ h.min)
      × ((histogram_update h rtt).max ≡ h.max)
unfolding histogram_update
shape h rtt v =
    ground
      (arith, length-set h.slots (sub64 rtt h.min) (u64 (get_or h.slots (sub64 rtt h.min) 0 + 1)))

-- The samples are `uint64_t` values.
abbrev pub All64 : List ℕ → Type 0
All64 [] = Unit {0}
All64 (x ∷ xs) = (x < 2 ^ 64) × All64 xs

-- What one sample adds to each counter that is not at its end.
module _ (h : Histogram) (rtt : ℕ) (v : IsValid h) (small : rtt < 2 ^ 64) where
  slot-update :
      (k : ℕ)
      → k < length h.slots
      → get_or h.slots k 0 + 1 < 2 ^ 64
      → get_or (histogram_update h rtt).slots k 0 ≡ get_or h.slots k 0 + to_nat (rtt == h.min + k)
  unfolding histogram_update
  slot-update k hk hs = ground (
    arith,
    get_or-set h.slots (sub64 rtt h.min) k (u64 (get_or h.slots (sub64 rtt h.min) 0 + 1)) 0,
  )

  overflow-update :
      h.overflow + 1 < 2 ^ 64
      → (histogram_update h rtt).overflow ≡ h.overflow + to_nat (leb h.max rtt)
  unfolding histogram_update
  overflow-update hs = ground arith

  underflow-update :
      h.underflow + 1 < 2 ^ 64
      → (histogram_update h rtt).underflow ≡ h.underflow + to_nat (ltb rtt h.min)
  unfolding histogram_update
  underflow-update hs = ground arith

  length-update : length (histogram_update h rtt).slots ≡ length h.slots
  unfolding histogram_update
  length-update =
      ground
        (arith, length-set h.slots (sub64 rtt h.min) (u64 (get_or h.slots (sub64 rtt h.min) 0 + 1)))

-- A slot counts the samples of its value.
slot-update_all :
    (rtts : List ℕ) (h : Histogram) (k : ℕ)
    → IsValid h
    → All64 rtts
    → k < length h.slots
    → get_or h.slots k 0 + length rtts < 2 ^ 64
    → get_or (update_all h rtts).slots k 0 ≡ get_or h.slots k 0 + count (λ x. x == h.min + k) rtts
unfolding update_all count
slot-update_all [] h k v a hk hs = omega arith
slot-update_all (x ∷ xs) h k v a hk hs = ground (
  arith,
  slot-update h x v a.0 k,
  length-update h x v a.0,
  shape h x v,
  ap (λ (m : ℕ). count (λ y. y == m + k) xs) (shape h x v).1,
  slot-update_all xs (histogram_update h x) k,
)

overflow-update_all :
    (rtts : List ℕ) (h : Histogram)
    → IsValid h
    → All64 rtts
    → h.overflow + length rtts < 2 ^ 64
    → (update_all h rtts).overflow ≡ h.overflow + count (leb h.max) rtts
unfolding update_all count
overflow-update_all [] h v a hs = omega arith
overflow-update_all (x ∷ xs) h v a hs = ground (
  arith,
  overflow-update h x v a.0,
  shape h x v,
  ap (λ (m : ℕ). count (leb m) xs) (shape h x v).2,
  overflow-update_all xs (histogram_update h x),
)

underflow-update_all :
    (rtts : List ℕ) (h : Histogram)
    → IsValid h
    → All64 rtts
    → h.underflow + length rtts < 2 ^ 64
    → (update_all h rtts).underflow ≡ h.underflow + count (λ x. ltb x h.min) rtts
unfolding update_all count
underflow-update_all [] h v a hs = omega arith
underflow-update_all (x ∷ xs) h v a hs = ground (
  arith,
  underflow-update h x v a.0,
  shape h x v,
  ap (λ (m : ℕ). count (λ y. ltb y m) xs) (shape h x v).1,
  underflow-update_all xs (histogram_update h x),
)

-- What `histogram_init` sets up.
fresh :
    (app : AppConfig) (h : Histogram)
    → histogram_init app true ≡ some h
    → app.stats_histogram_minimum_ns ≤ app.stats_histogram_maximum_ns
    → app.stats_histogram_maximum_ns < 2 ^ 64
    → IsValid h
      × (h.overflow ≡ 0)
      × (h.underflow ≡ 0)
      × ((k : ℕ) → get_or h.slots k 0 ≡ 0)
      × (h.min ≡ app.stats_histogram_minimum_ns / 1000)
      × (h.max ≡ app.stats_histogram_maximum_ns / 1000)
unfolding histogram_init
fresh app h e o m = (
  ground (arith, length-replicate {A = ℕ} (sub64 hi lo) 0),
  ground arith,
  ground arith,
  λ k. ground (arith, get_or-replicate {A = ℕ} (sub64 hi lo) 0 k),
  ground arith,
  ground arith,
)
  where
    lo : ℕ
    lo = app.stats_histogram_minimum_ns / 1000

    hi : ℕ
    hi = app.stats_histogram_maximum_ns / 1000

-- A histogram set up for a minimum up to the maximum, given fewer than 2 ^ 64 samples, counts them:
-- each slot in the range those of its value, the overflow those from the maximum on, the underflow
-- those below the minimum; the limits are those of the configuration, in us.
pub update_all-histogram_init :
    (app : AppConfig) (rtts : List ℕ) (k : ℕ) {h : Histogram}
    → histogram_init app true ≡ some h
    → app.stats_histogram_minimum_ns ≤ app.stats_histogram_maximum_ns
    → app.stats_histogram_maximum_ns < 2 ^ 64
    → All64 rtts
    → length rtts < 2 ^ 64
    → h.min + k < h.max
    → (get_or (update_all h rtts).slots k 0 ≡ count (λ x. x == h.min + k) rtts)
      × ((update_all h rtts).overflow ≡ count (leb h.max) rtts)
      × ((update_all h rtts).underflow ≡ count (λ x. ltb x h.min) rtts)
      × (h.min ≡ app.stats_histogram_minimum_ns / 1000)
      × (h.max ≡ app.stats_histogram_maximum_ns / 1000)
update_all-histogram_init app rtts k {h} e o m a l hk =
    let f = fresh app h e o m in
    (
      ground (arith, f, slot-update_all rtts h k f.0 a, f.3 k),
      ground (arith, f, overflow-update_all rtts h f.0 a),
      ground (arith, f, underflow-update_all rtts h f.0 a),
      f.4,
      f.5,
    )
