-- ===== src/Setup/Class.antt =====
-- tc_threads_create, tc_threads_wait_for_finish and tc_threads_free of src/tc.c: the stages in their
-- order, the last one first here.
use rtc_testbench.Base.{ℕ, Bool, not, ◌&&◌, List, [], ◌∷◌, ◌==◌, if◌then◌else◌}
use rtc_testbench.Types.{ClassConfig, is_mode_none}
use rtc_testbench.Setup.{
  Resource, packet_context, tx_frame_data, rx_frame_data, frame_copy, raw_socket, xsk,
  mirror_buffer, tx_security, rx_security, tx_thread, tx_gen_thread, rx_thread, workload,
  workload_threads, desc, Event, acquired, released, release, attempt,
}

abbrev pub enomem : ℕ
enomem = 12

-- The labels of the clean-up; each goes on with the next.
unfoldable pub err_tx : List Event → List Event
err_tx log = release packet_context log

unfoldable pub err_rx : List Event → List Event
err_rx log = err_tx (release tx_frame_data log)

unfoldable pub err_mac : List Event → List Event
err_mac log = err_rx (release rx_frame_data log)

unfoldable pub err_socket : List Event → List Event
err_socket log = err_mac (release frame_copy log)

unfoldable pub err_thread : List Event → List Event
err_thread log = err_socket (release xsk (release raw_socket log))

unfoldable pub err_tx_sec : List Event → List Event
err_tx_sec log = err_thread (release mirror_buffer log)

unfoldable pub err_rx_sec : List Event → List Event
err_rx_sec log = err_tx_sec (release tx_security log)

unfoldable pub err_thread_tx : List Event → List Event
err_thread_tx log = err_rx_sec (release rx_security log)

unfoldable pub err_thread_txgen : List Event → List Event
err_thread_txgen log = err_thread_tx (released tx_thread ∷ log)

unfoldable pub err_thread_rx : List Event → List Event
err_thread_rx log = err_thread_txgen (release tx_gen_thread log)

unfoldable pub err_thread_wl : List Event → List Event
err_thread_wl log = err_thread_rx (released rx_thread ∷ log)

-- `call` gives the results of the calls that make the resources, `mac` that of
-- get_interface_mac_address; `socket_errno` is errno behind the creation of the socket.
module _ (conf : ClassConfig) (burst : Bool) (call : Resource → ℕ) (mac socket_errno : ℕ) where
  -- workload_context_init is one call here: of the resources that the class keeps a failed one makes
  -- none. What it leaves of its own, instances that were set up, is not in the log.
  unfoldable pub create_workload : List Event → ℕ × List Event
  create_workload log =
      if not conf.rx_workload_enabled
      then (0, log)
      else if call workload == 0
      then (0, acquired workload_threads ∷ acquired workload ∷ log)
      else (call workload, err_thread_wl log)

  unfoldable pub create_rx_thread : List Event → ℕ × List Event
  create_rx_thread log =
      attempt (call rx_thread) (call rx_thread) rx_thread log create_workload err_thread_rx

  unfoldable pub create_tx_gen_thread : List Event → ℕ × List Event
  create_tx_gen_thread log =
      if burst && not conf.rx_mirror_enabled
      then attempt (call tx_gen_thread) (call tx_gen_thread) tx_gen_thread log create_rx_thread
          err_thread_txgen
      else create_rx_thread log

  unfoldable pub create_tx_thread : List Event → ℕ × List Event
  create_tx_thread log =
      attempt (call tx_thread) (call tx_thread) tx_thread log create_tx_gen_thread err_thread_tx

  unfoldable pub create_rx_security : List Event → ℕ × List Event
  create_rx_security log =
      attempt (call rx_security) enomem rx_security log create_tx_thread err_rx_sec

  unfoldable pub create_security : List Event → ℕ × List Event
  create_security log =
      if is_mode_none conf.security_mode
      then create_tx_thread log
      else attempt (call tx_security) enomem tx_security log create_rx_security err_tx_sec

  unfoldable pub create_mirror : List Event → ℕ × List Event
  create_mirror log =
      if conf.rx_mirror_enabled && not conf.xdp_enabled
      then attempt (call mirror_buffer) enomem mirror_buffer log create_security err_thread
      else create_security log

  unfoldable pub create_sockets : List Event → ℕ × List Event
  create_sockets log =
      if conf.xdp_enabled
      then attempt (call xsk) enomem xsk log create_mirror err_socket
      else attempt (call raw_socket) socket_errno raw_socket log create_mirror err_socket

  unfoldable pub create_frame_copy : List Event → ℕ × List Event
  create_frame_copy log =
      if mac == 0
      then attempt (call frame_copy) enomem frame_copy log create_sockets err_mac
      else (mac, err_mac log)

  unfoldable pub create_rx_frame_data : List Event → ℕ × List Event
  create_rx_frame_data log =
      attempt (call rx_frame_data) enomem rx_frame_data log create_frame_copy err_rx

  unfoldable pub create_tx_frame_data : List Event → ℕ × List Event
  create_tx_frame_data log =
      attempt (call tx_frame_data) enomem tx_frame_data log create_rx_frame_data err_tx

  -- tc_threads_create: what it returns, negated, and the log
  unfoldable pub tc_threads_create : ℕ × List Event
  tc_threads_create =
      if conf.xdp_enabled
      then create_frame_copy []
      else attempt (call packet_context) enomem packet_context [] create_tx_frame_data (λ log. log)

  -- tc_threads_wait_for_finish, with workload_thread_wait_for_finish
  unfoldable pub tc_threads_wait_for_finish : List Event → List Event
  tc_threads_wait_for_finish log = release tx_gen_thread (
      release tx_thread (
        release rx_thread
          (if conf.rx_workload_enabled then released workload_threads ∷ log else log)))

  -- tc_threads_free, with workload_thread_free
  unfoldable pub tc_threads_free : List Event → List Event
  tc_threads_free log =
      let freed = release xsk (
        release raw_socket (
          release rx_frame_data (
            release tx_frame_data (
              release packet_context (
                release mirror_buffer
                  (release rx_security (release tx_security (release frame_copy log)))))))) in
      release desc (if conf.rx_workload_enabled then released workload ∷ freed else freed)
