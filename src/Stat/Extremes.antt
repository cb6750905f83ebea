-- ===== src/Stat/Extremes.antt =====
-- What the statistics of a class say about the frames that it received: how many, how many of them
-- were wrong or late, and the extremes of their round trip times.
use rtc_testbench.Base.{
  ℕ, ◌+◌, ◌-◌, ◌^◌, ◌≤◌, ◌<◌, ◌≡◌, refl, Bool, true, ◌&&◌, ltb, List, [], ◌∷◌, arith, length, u64,
  min, max, to_nat, if◌then◌else◌,
}
use rtc_testbench.Base.Int.{ℤ}
use rtc_testbench.Types.{FrameType, is_real_time, LogStatOption, log_reference}
use rtc_testbench.Stat.State.{DoubleOps, Statistics, stat_reset, is_reference}
use rtc_testbench.Stat.Common.{update_min, update_max, observe, stat_frame_received_common}

-- The arguments of stat_frame_received_common for one frame.
pub record Sample : Type 0 where
  pub rt_time : ℕ
  pub oneway_time : ℤ
  pub out_of_order : Bool
  pub payload_mismatch : Bool
  pub frame_id_mismatch : Bool
  pub rx_hw2app_time : ℕ
  pub rx_hw2sw_time : ℕ
  pub rx_sw2app_time : ℕ

unfoldable pub minimum : List Sample → ℕ
minimum [] = 2 ^ 64 - 1
minimum (x ∷ xs) = min x.rt_time (minimum xs)

unfoldable pub maximum : List Sample → ℕ
maximum [] = 0
maximum (x ∷ xs) = max x.rt_time (maximum xs)

-- How many of the frames pass a test.
unfoldable pub count : (Sample → Bool) → List Sample → ℕ
count p [] = 0
count p (x ∷ xs) = to_nat (p x) + count p xs

module _ {D : Type 0} (o : DoubleOps D) (log : LogStatOption) (limit : ℕ) (t : FrameType) where
  unfoldable pub receive : Statistics D → Sample → Statistics D
  receive stat x =
      (stat_frame_received_common o log limit stat t x.rt_time x.oneway_time x.out_of_order
        x.payload_mismatch x.frame_id_mismatch x.rx_hw2app_time x.rx_hw2sw_time x.rx_sw2app_time).0

  unfoldable pub receive_all : Statistics D → List Sample → Statistics D
  receive_all stat [] = stat
  receive_all stat (x ∷ xs) = receive_all (receive stat x) xs

  -- One frame's part.
  receive-counts :
      (stat : Statistics D) (x : Sample)
      → ((receive stat x).frames_received ≡ u64 (stat.frames_received + 1))
        × ((receive stat x).out_of_order_errors
            ≡ u64 (stat.out_of_order_errors + to_nat x.out_of_order))
        × ((receive stat x).payload_errors ≡ u64 (stat.payload_errors + to_nat x.payload_mismatch))
        × ((receive stat x).frame_id_errors
            ≡ u64 (stat.frame_id_errors + to_nat x.frame_id_mismatch))
  unfolding receive stat_frame_received_common
  receive-counts stat x = ground arith

  receive-round_trip :
      (stat : Statistics D) (x : Sample)
      → is_reference log ≡ true
      → ((receive stat x).round_trip_count ≡ u64 (stat.round_trip_count + 1))
        × (((receive stat x).round_trip).min ≡ min x.rt_time (stat.round_trip).min)
        × (((receive stat x).round_trip).max ≡ max x.rt_time (stat.round_trip).max)
        × ((receive stat x).round_trip_outliers ≡ (
            if is_real_time t && ltb limit x.rt_time
            then u64 (stat.round_trip_outliers + 1)
            else stat.round_trip_outliers))
  unfolding receive stat_frame_received_common observe update_min update_max
  receive-round_trip stat x e = ground arith

  -- Every frame is counted, and so is each error that the receiver saw, in every mode.
  receive_all-counts :
      (xs : List Sample) (stat : Statistics D)
      → stat.frames_received + length xs < 2 ^ 64
      → stat.out_of_order_errors + length xs < 2 ^ 64
      → stat.payload_errors + length xs < 2 ^ 64
      → stat.frame_id_errors + length xs < 2 ^ 64
      → ((receive_all stat xs).frames_received ≡ stat.frames_received + length xs)
        × ((receive_all stat xs).out_of_order_errors
            ≡ stat.out_of_order_errors + count (λ x. x.out_of_order) xs)
        × ((receive_all stat xs).payload_errors
            ≡ stat.payload_errors + count (λ x. x.payload_mismatch) xs)
        × ((receive_all stat xs).frame_id_errors
            ≡ stat.frame_id_errors + count (λ x. x.frame_id_mismatch) xs)
  unfolding receive_all count
  receive_all-counts [] stat a b c d = omega arith
  receive_all-counts (x ∷ xs) stat a b c d =
      ground (arith, receive-counts stat x, receive_all-counts xs (receive stat x))

  -- In the reference mode: the number of round trips, their extremes, and the late ones.
  receive_all-round_trips :
      (xs : List Sample) (stat : Statistics D)
      → is_reference log ≡ true
      → stat.round_trip_count + length xs < 2 ^ 64
      → stat.round_trip_outliers + length xs < 2 ^ 64
      → (stat.round_trip).min < 2 ^ 64
      → ((receive_all stat xs).round_trip_count ≡ stat.round_trip_count + length xs)
        × (((receive_all stat xs).round_trip).min ≡ min (stat.round_trip).min (minimum xs))
        × (((receive_all stat xs).round_trip).max ≡ max (stat.round_trip).max (maximum xs))
        × ((receive_all stat xs).round_trip_outliers
            ≡ stat.round_trip_outliers + count (λ x. is_real_time t && ltb limit x.rt_time) xs)
  unfolding receive_all count minimum maximum
  receive_all-round_trips [] stat e a b m = omega arith
  receive_all-round_trips (x ∷ xs) stat e a b m =
      ground (arith, receive-round_trip stat x e, receive_all-round_trips xs (receive stat x) e)

minimum-le : (xs : List Sample) → minimum xs ≤ 2 ^ 64 - 1
unfolding minimum
minimum-le [] = omega arith
minimum-le (x ∷ xs) = omega (arith, minimum-le xs)

-- The statistics of a class since a reset, in the reference mode, are those of its frames: all and
-- the wrong ones are counted, and the round trip times reported are the least, the greatest, and
-- the number of late ones.
pub received_since_reset :
    {D : Type 0} (o : DoubleOps D) (limit : ℕ) (t : FrameType) (xs : List Sample)
    → length xs < 2 ^ 64
    → let stat = receive_all o log_reference limit t (stat_reset o) xs in
      (stat.frames_received ≡ length xs)
      × (stat.round_trip_count ≡ length xs)
      × (stat.out_of_order_errors ≡ count (λ x. x.out_of_order) xs)
      × (stat.payload_errors ≡ count (λ x. x.payload_mismatch) xs)
      × (stat.frame_id_errors ≡ count (λ x. x.frame_id_mismatch) xs)
      × ((stat.round_trip).min ≡ minimum xs)
      × ((stat.round_trip).max ≡ maximum xs)
      × (stat.round_trip_outliers ≡ count (λ x. is_real_time t && ltb limit x.rt_time) xs)
unfolding stat_reset is_reference
received_since_reset o limit t xs h =
    let c =
      receive_all-counts o log_reference limit t xs (stat_reset o) (omega arith) (omega arith)
        (omega arith) (omega arith) in
    let r =
      receive_all-round_trips o log_reference limit t xs (stat_reset o) refl (omega arith)
        (omega arith) (omega arith) in
    (
      omega (arith, c),
      omega (arith, r),
      omega (arith, c),
      omega (arith, c),
      omega (arith, c),
      omega (arith, r, minimum-le xs),
      omega (arith, r),
      omega (arith, r),
    )
