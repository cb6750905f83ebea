-- ===== src/Tests/Setups.antt =====
-- The set-up of the threads of a class at concrete configurations and failures.
use rtc_testbench.Base.{ℕ, ◌≡◌, ◌≢◌, ◌≤◌, refl, true, false, some, [], arith}
use rtc_testbench.Setup.{attempt, Resource, desc, rx_thread, held_after}
use rtc_testbench.Setup.Class.{
  create_tx_frame_data, create_rx_frame_data, create_frame_copy, create_sockets, create_mirror,
  create_security, create_rx_security, create_tx_thread, create_tx_gen_thread, create_rx_thread,
  create_workload, tc_threads_create, tc_threads_wait_for_finish, tc_threads_free,
}
use rtc_testbench.Setup.TakenDown.{times_acquired, times_released, described}
use rtc_testbench.Setup.Undone.{needed, tc_threads_create-undone, tc_threads_free-balanced}
use rtc_testbench.Setup.Udp.{udp_threads_create, udp_needed, udp_threads_create-undone}
use rtc_testbench.Types.{is_mode_none}
use rtc_testbench.Tests.Data.{class_config}

-- The creation of the Rx thread fails with EAGAIN.
abbrev no_rx_thread : Resource → ℕ
no_rx_thread rx_thread = 11
no_rx_thread _ = 0

tc_threads_create-undone_example :
    let r = tc_threads_create class_config false no_rx_thread 0 24 in
    (r.0 ≢ 0 → held_after r.1 ≡ some [])
    × (r.0 ≡ 0 → held_after r.1 ≡ some (needed class_config false no_rx_thread 0 24))
tc_threads_create-undone_example =
    tc_threads_create-undone class_config false no_rx_thread 0 24 (omega arith)

abbrev all_succeed : Resource → ℕ
all_succeed r = 0

created : (tc_threads_create class_config true all_succeed 0 24).0 ≡ 0
unfolding tc_threads_create create_tx_frame_data create_rx_frame_data create_frame_copy
    create_sockets create_mirror create_security create_rx_security create_tx_thread
    create_tx_gen_thread create_rx_thread create_workload attempt is_mode_none
created = refl

tc_threads_free-balanced_example :
    let log = tc_threads_free class_config true all_succeed 0 24 (
      tc_threads_wait_for_finish class_config true all_succeed 0 24
        (described ((tc_threads_create class_config true all_succeed 0 24).1))) in
    (times_released desc log ≡ times_acquired desc log) × (times_acquired desc log ≤ 1)
tc_threads_free-balanced_example =
    tc_threads_free-balanced class_config true all_succeed 0 24 desc (omega arith) created

udp_threads_create-undone_example :
    let r = udp_threads_create class_config no_rx_thread 24 true in
    (r.0 ≢ 0 → held_after r.1 ≡ some []) × (r.0 ≡ 0 → held_after r.1 ≡ some (udp_needed true true))
udp_threads_create-undone_example =
    udp_threads_create-undone class_config no_rx_thread 24 true (omega arith)
