-- ===== src/Tests/Stats.antt =====
-- The statistics at concrete inputs.
use rtc_testbench.Base.{
  ℕ, ◌+◌, ◌/◌, ◌≡◌, refl, Bool, true, false, some, List, [], ◌∷◌, arith, replicate,
}
use rtc_testbench.Base.Int.{pos}
use rtc_testbench.Types.{tsn_high, log_reference}
use rtc_testbench.Stat.State.{DoubleOps, RoundTripContext, empty_entry, stat_reset}
use rtc_testbench.Stat.Extremes.{Sample, receive_all, received_since_reset, count, minimum, maximum}
use rtc_testbench.Stat.Received.{round_trip_time}
use rtc_testbench.Stat.RoundTrip.{Batch, send_all, stamped_as, round_trip_measured}
use rtc_testbench.Types.{is_real_time}
use rtc_testbench.Tests.Data.{app_config}

-- Whole numbers in place of `double`.
abbrev pub whole : DoubleOps ℕ
whole = record {
  zero_d = 0;
  of_u64 = λ n. n;
  of_i64 = λ z. elim z [ pos n ↦ n | _ ↦ 0 ];
  add_d = λ a b. a + b;
  div_d = λ a b. a / b;
}

abbrev sample : ℕ → Bool → Sample
sample rt ooo = record {
  rt_time = rt;
  oneway_time = pos 500;
  out_of_order = ooo;
  payload_mismatch = false;
  frame_id_mismatch = false;
  rx_hw2app_time = 0;
  rx_hw2sw_time = 0;
  rx_sw2app_time = 0;
}

abbrev samples : List Sample
samples = sample 1900 false ∷ sample 2100 true ∷ sample 1800 false ∷ []

received_since_reset_example :
    let stat = receive_all whole log_reference 2000 tsn_high (stat_reset whole) samples in
    (stat.frames_received ≡ 3)
    × (stat.round_trip_count ≡ 3)
    × (stat.out_of_order_errors ≡ 1)
    × (stat.payload_errors ≡ 0)
    × (stat.frame_id_errors ≡ 0)
    × ((stat.round_trip).min ≡ 1800)
    × ((stat.round_trip).max ≡ 2100)
    × (stat.round_trip_outliers ≡ 1)
unfolding count minimum maximum is_real_time
received_since_reset_example = received_since_reset whole 2000 tsn_high samples (omega arith)

abbrev backlog : RoundTripContext
backlog = record { allocated = true; backlog = replicate 8 empty_entry; backlog_len = 8 }

abbrev batch : ℕ → ℕ → Batch
batch c now = record { cycle_number = c; frame_count = 2; now = now }

-- Frame 5 is sent with frame 4 at 7000000, two more batches follow, and it is back at 9001000.
round_trip_measured_example :
    (rtt' : RoundTripContext) × (send_all app_config tsn_high 9 backlog
        (batch 4 7000000 ∷ batch 6 8000000 ∷ batch 8 9000000 ∷ [])
      ≡ some rtt')
    × (round_trip_time app_config rtt' tsn_high 5 9001000 ≡ 2001)
unfolding stamped_as
round_trip_measured_example =
    round_trip_measured app_config tsn_high 9 backlog (batch 4 7000000)
      (batch 6 8000000 ∷ batch 8 9000000 ∷ []) 5 9001000
      (record { storage = refl; nonempty = omega arith }) (omega arith) (omega arith) (omega arith)
      (omega arith) (omega arith) (omega arith) (omega arith) (omega arith) (omega arith)
      (omega arith) (omega arith)
