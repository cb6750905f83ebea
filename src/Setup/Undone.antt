-- ===== src/Setup/Undone.antt =====
-- What tc_threads_create of src/tc.c leaves when it fails, and when it does not.
use rtc_testbench.Base.{
  ℕ, ◌≤◌, ap, ◌∙◌, sym, ◌≡◌, ◌≢◌, refl, Bool, not, ◌&&◌, some, List, [], ◌∷◌, arith, ◌==◌,
  if◌then◌else◌, Bool-cases, inl, inr,
}
use mathlib.Core.Path.{subst}
use rtc_testbench.Types.{ClassConfig, is_mode_none}
use rtc_testbench.Setup.{
  Resource, packet_context, tx_frame_data, rx_frame_data, frame_copy, raw_socket, xsk,
  mirror_buffer, tx_security, rx_security, tx_thread, tx_gen_thread, rx_thread, workload, Event,
  held_after,
}
use rtc_testbench.Setup.Class.{
  err_tx, err_rx, err_mac, err_socket, err_thread, err_tx_sec, err_rx_sec, err_thread_tx,
  err_thread_txgen, err_thread_rx, create_workload, create_rx_thread, create_tx_gen_thread,
  create_tx_thread, create_rx_security, create_security, create_mirror, create_sockets,
  create_frame_copy, create_rx_frame_data, create_tx_frame_data, tc_threads_create, enomem,
  tc_threads_free, tc_threads_wait_for_finish,
}
use rtc_testbench.Setup.Stages.{
  Leaves, if-Leaves, attempt-Leaves, buffers_of, socket_of, mirror_of, security_of, tx_threads_of,
  threads_of, log_of, held_after-log_of, clean_buffers, clean_socket, clean_security, clean_tx,
  clean_rx,
}
use rtc_testbench.Setup.TakenDown.{
  times_acquired, times_released, described, taken_down, taken_down-balanced,
}

module _ (conf : ClassConfig) (burst : Bool) (call : Resource → ℕ) (mac socket_errno : ℕ) where
  abbrev xdp : Bool
  xdp = conf.xdp_enabled

  abbrev mirror : Bool
  mirror = conf.rx_mirror_enabled

  abbrev plain : Bool
  plain = is_mode_none conf.security_mode

  -- The resources of a class.
  unfoldable pub needed : List Resource
  needed = threads_of xdp mirror plain burst conf.rx_workload_enabled

  abbrev Done : ℕ × List Event → Type 0
  Done = Leaves needed

  workload-Leaves : Done (
      create_workload conf burst call mac socket_errno
        (log_of (rx_thread ∷ tx_threads_of xdp mirror plain burst)))
  unfolding create_workload needed
  workload-Leaves = elim (Bool-cases (not conf.rx_workload_enabled)) [
    | inl z ↦ rw z ((λ n. absurd (n refl)), (λ e. refl))
    | inr z ↦ elim (Bool-cases (call workload == 0)) [
      | inl o ↦ rw (z, o) ((λ n. absurd (n refl)), (λ e. refl))
      | inr o ↦
          rw (z, o)
            ((λ n. (clean_rx xdp mirror plain burst).1), (λ e. absurd (ground (arith, o, e))))
    ]
  ]

  rx_thread-Leaves : Done (
      create_rx_thread conf burst call mac socket_errno
        (log_of (tx_threads_of xdp mirror plain burst)))
  unfolding create_rx_thread
  rx_thread-Leaves =
      attempt-Leaves needed (call rx_thread) (call rx_thread) rx_thread
        (log_of (tx_threads_of xdp mirror plain burst))
        (create_workload conf burst call mac socket_errno) err_thread_rx (λ n. n)
        (clean_rx xdp mirror plain burst).0 workload-Leaves

  tx_gen_thread-Leaves : Done (
      create_tx_gen_thread conf burst call mac socket_errno
        (log_of (tx_thread ∷ security_of xdp mirror plain)))
  unfolding create_tx_gen_thread
  tx_gen_thread-Leaves =
      let next : Bool → Type 0 = λ z. Done (
        create_rx_thread conf burst call mac socket_errno (
          log_of (
            if z
            then tx_gen_thread ∷ tx_thread ∷ security_of xdp mirror plain
            else tx_thread ∷ security_of xdp mirror plain))) in
      elim (Bool-cases (burst && not mirror)) [
        | inl z ↦ rw z (
            attempt-Leaves needed (call tx_gen_thread) (call tx_gen_thread) tx_gen_thread
              (log_of (tx_thread ∷ security_of xdp mirror plain))
              (create_rx_thread conf burst call mac socket_errno) err_thread_txgen (λ n. n)
              (clean_tx xdp mirror plain).1 (subst next z rx_thread-Leaves))
        | inr z ↦ rw z (subst next z rx_thread-Leaves)
      ]

  tx_thread-Leaves :
      Done
        (create_tx_thread conf burst call mac socket_errno (log_of (security_of xdp mirror plain)))
  unfolding create_tx_thread
  tx_thread-Leaves =
      attempt-Leaves needed (call tx_thread) (call tx_thread) tx_thread
        (log_of (security_of xdp mirror plain))
        (create_tx_gen_thread conf burst call mac socket_errno) err_thread_tx (λ n. n)
        (clean_tx xdp mirror plain).0 tx_gen_thread-Leaves

  security-Leaves :
      Done (create_security conf burst call mac socket_errno (log_of (mirror_of xdp mirror)))
  unfolding create_security create_rx_security
  security-Leaves =
      let next : Bool → Type 0 = λ z. Done (
        create_tx_thread conf burst call mac socket_errno (
          log_of (
            if z
            then mirror_of xdp mirror
            else rx_security ∷ tx_security ∷ mirror_of xdp mirror))) in
      let (first, second) = clean_security xdp mirror in
      elim (Bool-cases plain) [
        | inl z ↦ rw z (subst next z tx_thread-Leaves)
        | inr z ↦ rw z (
            attempt-Leaves needed (call tx_security) enomem tx_security
              (log_of (mirror_of xdp mirror)) (create_rx_security conf burst call mac socket_errno)
              err_tx_sec (λ n. omega arith) first
              (attempt-Leaves needed (call rx_security) enomem rx_security
                (log_of (tx_security ∷ mirror_of xdp mirror))
                (create_tx_thread conf burst call mac socket_errno) err_rx_sec (λ n. omega arith)
                second (subst next z tx_thread-Leaves)))
      ]

  mirror-Leaves : Done (create_mirror conf burst call mac socket_errno (log_of (socket_of xdp)))
  unfolding create_mirror
  mirror-Leaves =
      let next : Bool → Type 0 = λ z. Done (
        create_security conf burst call mac socket_errno
          (log_of (if z then mirror_buffer ∷ socket_of xdp else socket_of xdp))) in
      elim (Bool-cases (mirror && not xdp)) [
        | inl z ↦ rw z (
            attempt-Leaves needed (call mirror_buffer) enomem mirror_buffer (log_of (socket_of xdp))
              (create_security conf burst call mac socket_errno) err_thread (λ n. omega arith)
              (clean_socket xdp).2 (subst next z security-Leaves))
        | inr z ↦ rw z (subst next z security-Leaves)
      ]

  sockets-Leaves :
      socket_errno ≢ 0
      → Done
          (create_sockets conf burst call mac socket_errno (log_of (frame_copy ∷ buffers_of xdp)))
  unfolding create_sockets
  sockets-Leaves n =
      let next : Bool → Type 0 = λ z. Done (
        create_mirror conf burst call mac socket_errno
          (log_of ((if z then xsk else raw_socket) ∷ frame_copy ∷ buffers_of xdp))) in
      let log = log_of (frame_copy ∷ buffers_of xdp) in
      let clean = (clean_socket xdp).1 in
      let go = create_mirror conf burst call mac socket_errno in
      if-Leaves needed xdp _ _
        (λ z.
          attempt-Leaves needed (call xsk) enomem xsk log go err_socket (λ n. omega arith) clean
            (subst next z mirror-Leaves))
        (λ z.
          attempt-Leaves needed (call raw_socket) socket_errno raw_socket log go err_socket (λ m. n)
            clean (subst next z mirror-Leaves))

  frame_copy-Leaves :
      socket_errno ≢ 0
      → Done (create_frame_copy conf burst call mac socket_errno (log_of (buffers_of xdp)))
  unfolding create_frame_copy
  frame_copy-Leaves n =
      let log = log_of (buffers_of xdp) in
      let clean = (clean_socket xdp).0 in
      if-Leaves needed (mac == 0) _ _
        (λ z.
          attempt-Leaves needed (call frame_copy) enomem frame_copy log
            (create_sockets conf burst call mac socket_errno) err_mac (λ m. omega arith) clean
            (sockets-Leaves n))
        (λ z. ((λ m. clean), (λ m. absurd (ground (arith, z, m)))))

  create-Leaves : socket_errno ≢ 0 → Done (tc_threads_create conf burst call mac socket_errno)
  unfolding tc_threads_create create_tx_frame_data create_rx_frame_data held_after
  create-Leaves n =
      let next : Bool → Type 0 =
        λ z. Done (create_frame_copy conf burst call mac socket_errno (log_of (buffers_of z))) in
      if-Leaves needed xdp _ _ (λ z. subst next z (frame_copy-Leaves n))
        (λ z.
          attempt-Leaves needed (call packet_context) enomem packet_context []
            (create_tx_frame_data conf burst call mac socket_errno) (λ log. log) (λ m. omega arith)
            refl
            (attempt-Leaves needed (call tx_frame_data) enomem tx_frame_data
              (log_of (packet_context ∷ [])) (create_rx_frame_data conf burst call mac socket_errno)
              err_tx (λ m. omega arith) clean_buffers.0
              (attempt-Leaves needed (call rx_frame_data) enomem rx_frame_data
                (log_of (tx_frame_data ∷ packet_context ∷ []))
                (create_frame_copy conf burst call mac socket_errno) err_rx (λ m. omega arith)
                clean_buffers.1 (subst next z (frame_copy-Leaves n)))))

  -- tc_threads_create undoes itself: if it returns an error then everything that it acquired is
  -- released, each resource once and in the reverse order, and nothing else is, whichever call
  -- failed; if it returns 0 then nothing is released and what is held is what the configuration
  -- needs. The creation of a socket must set errno when it fails.
  pub tc_threads_create-undone :
      socket_errno ≢ 0
      → let r = tc_threads_create conf burst call mac socket_errno in
        (r.0 ≢ 0 → held_after r.1 ≡ some []) × (r.0 ≡ 0 → held_after r.1 ≡ some needed)
  tc_threads_create-undone n =
      let (failed, created) = create-Leaves n in
      (failed, λ e. ap held_after (created e) ∙ held_after-log_of needed)

  -- A class that was described and created, and is then waited for and freed, has released each
  -- resource, its description included, as often as it acquired it, which is at most once. The
  -- creation of a socket must set errno when it fails.
  pub tc_threads_free-balanced :
      (r : Resource)
      → socket_errno ≢ 0
      → let created = tc_threads_create conf burst call mac socket_errno in
        let log =
          tc_threads_free conf burst call mac socket_errno
            (tc_threads_wait_for_finish conf burst call mac socket_errno (described created.1)) in
        created.0 ≡ 0 → (times_released r log ≡ times_acquired r log) × (times_acquired r log ≤ 1)
  unfolding tc_threads_free tc_threads_wait_for_finish needed
  tc_threads_free-balanced r n e =
      let w = conf.rx_workload_enabled in
      subst
        (λ (log : List Event).
          let done = taken_down w (described log) in
          (times_released r done ≡ times_acquired r done) × (times_acquired r done ≤ 1))
        (sym ((create-Leaves n).1 e)) (taken_down-balanced r xdp mirror plain burst w)
