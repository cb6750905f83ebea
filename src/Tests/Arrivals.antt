-- ===== src/Tests/Arrivals.antt =====
-- Received frames, the links, the configuration check and the XDP programs at concrete inputs.
use rtc_testbench.Base.{
  ℕ, ◌+◌, ◌^◌, ◌<◌, ◌≤◌, ◌≡◌, ◌↔◌, ◌⊎◌, inr, refl, true, false, some, none, List, [], ◌∷◌, arith,
  replicate, length, min,
}
use rtc_testbench.Types.{log_reference, is_tc_active}
use rtc_testbench.Bytes.{load}
use rtc_testbench.Frame.{eth_p_8021q, eth_p_profinet_rt}
use rtc_testbench.Stat.State.{State, stat_reset}
use rtc_testbench.Rx.{RxContext, RxTimes, set_mirror_tx_timestamp_est}
use rtc_testbench.Rx.Layer2.{generic_l2_check, generic_l2_report}
use rtc_testbench.Rx.Sent.{sent_frame, sent_frame-received}
use rtc_testbench.Rx.Track.{Arrival, Carries, rx_all, out_of_order_of, rx_all-lost, rx_all-ahead}
use rtc_testbench.Links.{PnLinks, link_pn_threads, linked, tsn_high_thread}
use rtc_testbench.Links.Order.{Orders, first_thread, link_pn_threads-Orders}
use rtc_testbench.Config.{config_sanity_check}
use rtc_testbench.Config.Sane.{
  ApplicationSane, LengthsSane, FeaturesSane, RestSane, config_sanity_check_iff,
}
use rtc_testbench.Xdp.{Filter, redirect, xdp_tb_prog, xdp_veth_prog, vlan_id_of}
use rtc_testbench.Xdp.Verdicts.{Matches, xdp_tb_prog_iff, xdp_veth_prog_iff}
use rtc_testbench.Tests.Data.{app_config, build, class_config}
use rtc_testbench.Tests.Stats.{whole}

abbrev source : List ℕ
source = 2 ∷ 2 ∷ 2 ∷ 2 ∷ 2 ∷ 2 ∷ []

abbrev destination : List ℕ
destination = 4 ∷ 4 ∷ 4 ∷ 4 ∷ 4 ∷ 4 ∷ []

abbrev pub times : RxTimes
times = record {
  mirror_now = 5000;
  stat_now = 6000;
  xdp_timestamps = (0, 0);
  packet_timestamps = (0, 0);
}

abbrev pub context : ℕ → RxContext
context expected = record {
  rx_sequence_counter = expected;
  source = source;
  mirror_buffer = record { size = 200; count = 0; wp = 0; rp = 0; bytes = replicate 200 0 };
}

abbrev sent : ℕ → List ℕ
sent q = sent_frame class_config (replicate 40 7) source destination q 4000

sent_frame-received_example :
    let stamped = set_mirror_tx_timestamp_est app_config (sent 11) 18 5000 in
    let report = generic_l2_report class_config build (context 11) (sent 11) stamped 18 times in
    (generic_l2_check class_config (sent 11) 40 ≡ inr (18, false))
    × (report.cycle_number ≡ 11)
    × (report.out_of_order ≡ false)
    × (report.payload_mismatch ≡ false)
    × (report.tx_timestamp ≡ 4000)
sent_frame-received_example =
    sent_frame-received app_config build class_config (replicate 40 7) source destination 11 4000
      (context 11) times (omega arith) refl (omega arith) (omega arith) (omega arith) (omega arith)
      (omega arith) refl

abbrev arrival : ℕ → Arrival
arrival q = record { frame = sent q; len = 40; times = times }

arrival-Carries : (q : ℕ) → q < 2 ^ 31 → Carries app_config q (arrival q)
unfolding generic_l2_report
arrival-Carries q h =
    let r =
      sent_frame-received app_config build class_config (replicate 40 7) source destination q 4000
        (context q) times (omega arith) refl (omega arith) (omega arith) (omega arith) (omega arith)
        (omega arith) refl in
    (18, false, r.0, r.1)

abbrev pub state : State ℕ
state = record {
  global_statistics = λ t. stat_reset whole;
  global_statistics_for_log = λ t. stat_reset whole;
  statistics_per_period = λ t. stat_reset whole;
  statistics_per_period_for_log = λ t. stat_reset whole;
  round_trip_contexts = λ t. record { allocated = true; backlog = []; backlog_len = 0 };
  histograms =
      λ t. record { slots = 0 ∷ 0 ∷ 0 ∷ []; min = 1000; max = 1003; underflow = 0; overflow = 0 };
  rtt_expected_rt_limit = 2000;
  log_stat_user_selected = log_reference;
  last_ts = 0;
  reset_stats = false;
}

-- Frame 5 of 5, 6, 7 is lost.
rx_all-lost_example :
    let r =
      rx_all whole app_config build 2048
        (replicate 2048 0)
        state
        (context 5)
        (arrival 6 ∷ arrival 7 ∷ []) in
    (out_of_order_of (r.0) ≡ out_of_order_of state + min 1 2)
    × (1 ≤ 2 → (r.1).rx_sequence_counter ≡ 5 + 1 + 2)
unfolding stat_reset
rx_all-lost_example =
    rx_all-lost whole app_config build 2048 (replicate 2048 0) (arrival 6 ∷ arrival 7 ∷ []) 1 state
      (context 5) (arrival-Carries 6 (omega arith), (arrival-Carries 7 (omega arith), _))
      (omega arith) (omega arith)

-- Frame 5 came twice: the receiver expects 7 when 6 arrives.
rx_all-ahead_example :
    let r =
      rx_all whole app_config build 2048
        (replicate 2048 0)
        state
        (context 7)
        (arrival 6 ∷ arrival 7 ∷ []) in
    (out_of_order_of (r.0) ≡ out_of_order_of state + 2) × (6 + 2 < (r.1).rx_sequence_counter)
unfolding stat_reset
rx_all-ahead_example =
    rx_all-ahead whole app_config build 2048 (replicate 2048 0) (arrival 6 ∷ arrival 7 ∷ []) 6 state
      (context 7) (arrival-Carries 6 (omega arith), (arrival-Carries 7 (omega arith), _))
      (omega arith) (omega arith) (omega arith)

abbrev no_links : PnLinks
no_links = record { next = λ t. none; is_first = λ t. false; is_last = λ t. false }

link_pn_threads-Orders_example :
    (l : PnLinks) × (link_pn_threads 8 app_config no_links ≡ some (linked l))
    × Orders app_config no_links l tsn_high_thread
unfolding first_thread is_tc_active
link_pn_threads-Orders_example = link_pn_threads-Orders app_config no_links tsn_high_thread refl

config_sanity_check_iff_example : (config_sanity_check 2048 build app_config ≡ true) ↔ (
    ApplicationSane app_config
    × LengthsSane 2048 app_config
    × FeaturesSane build app_config
    × RestSane app_config)
config_sanity_check_iff_example = config_sanity_check_iff 2048 build app_config

abbrev filter : Filter
filter = record { ebpf_vid = 100; ebpf_eth_type = 0xb62c; ebpf_check_frameid = false }

xdp_tb_prog_iff_example :
    (xdp_tb_prog filter (λ i. true) 0 (sent 3) ≡ redirect 0)
    ↔ (Matches filter (sent 3) × (true ≡ true))
xdp_tb_prog_iff_example = xdp_tb_prog_iff filter (λ i. true) 0 (sent 3)

xdp_veth_prog_iff_example :
    let key : ℕ = 0 in
    (xdp_veth_prog (λ i. true) (sent 3) ≡ redirect key) ↔ (
      (18 ≤ length (sent 3))
      × (load 2 (sent 3) 12 ≡ eth_p_8021q)
      × (load 2 (sent 3) 16 ≡ eth_p_profinet_rt)
      × (((vlan_id_of (sent 3) ≡ 100) × (key ≡ 0)) ⊎ ((vlan_id_of (sent 3) ≡ 200) × (key ≡ 1)))
      × (true ≡ true))
xdp_veth_prog_iff_example = xdp_veth_prog_iff (λ i. true) (sent 3) 0
