-- ===== src/Tests/Datagrams.antt =====
-- The datagrams of a thread of src/udp_thread.c at concrete inputs.
use rtc_testbench.Base.{ℕ, ◌≡◌, refl, true, false, some, List, [], ◌∷◌, arith, replicate}
use rtc_testbench.Types.{AppConfig, udp_high}
use rtc_testbench.Stat.State.{empty_entry}
use rtc_testbench.Udp.{UdpTx, SendTo, udp_initialize_frame, udp_generate}
use rtc_testbench.Udp.Received.{Accepted, udp_generate-Accepted}
use rtc_testbench.Tests.Data.{app_config, build, class_config}
use rtc_testbench.Tests.Arrivals.{state, times, context}
use rtc_testbench.Tests.Stats.{whole}

abbrev plain_app : AppConfig
plain_app = record app_config { classes = λ t. record class_config { rx_mirror_enabled = false } }

abbrev thread : UdpTx ℕ
thread = record {
  frame = udp_initialize_frame (plain_app.classes udp_high) (replicate 40 7);
  sequence_counter = 0;
  mirror_buffer = record { size = 0; count = 0; wp = 0; rp = 0; bytes = [] };
  stat = record state {
    round_trip_contexts =
        λ t. record { allocated = true; backlog = replicate 8 empty_entry; backlog_len = 8 };
  };
}

abbrev calls : List SendTo
calls =
    record { tx_now = 6800; taken = true; sent_now = 6900 }
    ∷ record { tx_now = 7000; taken = false; sent_now = 7100 }
    ∷ record { tx_now = 7200; taken = true; sent_now = 7300 }
    ∷ []

udp_generate-Accepted_example :
    (next : UdpTx ℕ) × (wire : List (List ℕ)) × (udp_generate plain_app build udp_high 12 thread
        calls
      ≡ some (next, wire))
    × Accepted whole plain_app build udp_high (λ q. times) 0 state (context 0) calls wire
udp_generate-Accepted_example =
    udp_generate-Accepted whole plain_app build udp_high 12 calls thread (replicate 40 7) state
      (context 0) (λ q. times) refl (omega arith) (omega arith)
      (record { storage = refl; nonempty = omega arith }) (omega arith) (omega arith) (omega arith)
      (omega arith) (omega arith) (omega arith, (omega arith, (omega arith, _))) refl
