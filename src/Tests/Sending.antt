-- ===== src/Tests/Sending.antt =====
-- PROFINET frames from their initialization to the receiver, at concrete inputs.
use rtc_testbench.Base.{ℕ, ◌≡◌, ◌≢◌, refl, inr, true, false, List, [], ◌∷◌, arith, replicate}
use rtc_testbench.Types.{ClassConfig, mode_ao, mode_ae, rtc}
use rtc_testbench.Rx.Profinet.{
  PnThreadConf, initialize_profinet_frame, profinet_check, profinet_secure, profinet_report,
}
use rtc_testbench.Tx.Received.{
  is_profinet, Initialized, Sealed, sent_profinet_frame, sent_profinet_frame-received,
}
use rtc_testbench.Tx.Initialized.{initialize_profinet_frame-Initialized}
use rtc_testbench.Tests.Data.{app_config, build, class_config}
use rtc_testbench.Tests.Sealed.{toy, toy-IsAead}
use rtc_testbench.Tests.Arrivals.{times, context}

-- A class in mode AO.
abbrev sealed_config : ClassConfig
sealed_config = record class_config { security_mode = mode_ao; frame_length = 70 }

abbrev thread : PnThreadConf
thread = record { frame_type = rtc; frame_id = 32769; payload_pattern = 80 ∷ 65 ∷ [] }

abbrev filled : List ℕ
filled =
    initialize_profinet_frame mode_ao (replicate 70 7) (replicate 6 2) (replicate 6 4)
      (80 ∷ 65 ∷ []) 49252 32769

abbrev frame : List ℕ
frame =
    sent_profinet_frame toy toy-IsAead app_config build sealed_config rtc thread filled [] 11 4000
      times

rtc-is_profinet : is_profinet rtc ≡ true
unfolding is_profinet
rtc-is_profinet = refl

ao-ne-ae : mode_ao ≢ mode_ae
ao-ne-ae e = cc

filled-Initialized : Initialized sealed_config 32769 filled
filled-Initialized =
    (initialize_profinet_frame-Initialized sealed_config (replicate 70 7) (replicate 6 2)
      (replicate 6 4) 49252 32769 (omega arith) (omega arith) (omega arith) (omega arith)
      (omega arith) (omega arith) (omega arith)).0

sent_profinet_frame-received_example :
    let payload =
      (profinet_secure toy app_config sealed_config thread [] frame 70 18 times.mirror_now).1 in
    let report = profinet_report sealed_config build thread (context 11) frame payload 18 times in
    (profinet_check sealed_config frame 70 ≡ inr (18, false))
    × Sealed toy toy-IsAead app_config build sealed_config rtc thread filled [] 11 4000 times frame
    × (report.cycle_number ≡ 11)
    × (report.out_of_order ≡ false)
    × (report.payload_mismatch ≡ false)
    × (report.frame_id_mismatch ≡ false)
    × (report.tx_timestamp ≡ 4000)
sent_profinet_frame-received_example =
    sent_profinet_frame-received toy toy-IsAead app_config build sealed_config rtc thread filled []
      11 4000 times (context 11) rtc-is_profinet filled-Initialized
      (record {
        some_frames = omega arith;
        few_frames = omega arith;
        cycle = omega arith;
        counter = omega arith;
        stamp = omega arith;
      })
      (λ e. absurd (ao-ne-ae e)) refl
