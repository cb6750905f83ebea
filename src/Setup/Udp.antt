-- ===== src/Setup/Udp.antt =====
-- udp_threads_create of src/udp_thread.c, behind its test that the class is active; the stages in
-- their order, the last one first here. The classes have no workload.
use rtc_testbench.Base.{
  ℕ, ◌≡◌, ◌≢◌, refl, ap, ◌∙◌, Bool, true, false, not, some, List, [], ◌∷◌, arith, if◌then◌else◌,
}
use mathlib.Core.Path.{subst}
use rtc_testbench.Types.{ClassConfig}
use rtc_testbench.Setup.{
  Resource, tx_frame_data, rx_frame_data, raw_socket, mirror_buffer, tx_thread, tx_gen_thread,
  rx_thread, Event, released, resource_index, same_resource, is_set, release, attempt, held_after,
}
use rtc_testbench.Setup.Class.{enomem}
use rtc_testbench.Setup.Stages.{Leaves, if-Leaves, attempt-Leaves, log_of, held_after-log_of}

unfoldable pub err_tx : List Event → List Event
err_tx log = released raw_socket ∷ log

unfoldable pub err_rx : List Event → List Event
err_rx log = err_tx (release tx_frame_data log)

unfoldable pub err_buffer : List Event → List Event
err_buffer log = err_rx (release rx_frame_data log)

unfoldable pub err_thread : List Event → List Event
err_thread log = err_buffer (release mirror_buffer log)

unfoldable pub err_thread_txgen : List Event → List Event
err_thread_txgen log = err_thread (released tx_thread ∷ log)

unfoldable pub err_thread_rx : List Event → List Event
err_thread_rx log = err_thread_txgen (release tx_gen_thread log)

module _ (conf : ClassConfig) (call : Resource → ℕ) (socket_errno : ℕ) where
  unfoldable pub create_rx_thread : List Event → ℕ × List Event
  create_rx_thread log =
      attempt (call rx_thread) (call rx_thread) rx_thread log (λ done. (0, done)) err_thread_rx

  unfoldable pub create_tx_gen_thread : List Event → ℕ × List Event
  create_tx_gen_thread log =
      if not conf.rx_mirror_enabled
      then attempt (call tx_gen_thread) (call tx_gen_thread) tx_gen_thread log create_rx_thread
          err_thread_txgen
      else create_rx_thread log

  unfoldable pub create_tx_thread : List Event → ℕ × List Event
  create_tx_thread log =
      attempt (call tx_thread) (call tx_thread) tx_thread log create_tx_gen_thread err_thread

  unfoldable pub create_mirror : List Event → ℕ × List Event
  create_mirror log =
      if conf.rx_mirror_enabled
      then attempt (call mirror_buffer) enomem mirror_buffer log create_tx_thread err_buffer
      else create_tx_thread log

  unfoldable pub create_rx_frame_data : List Event → ℕ × List Event
  create_rx_frame_data log =
      attempt (call rx_frame_data) enomem rx_frame_data log create_mirror err_rx

  unfoldable pub create_tx_frame_data : List Event → ℕ × List Event
  create_tx_frame_data log =
      attempt (call tx_frame_data) enomem tx_frame_data log create_rx_frame_data err_tx

  -- udp_threads_create: what it returns, negated, and the log
  unfoldable pub udp_threads_create : Bool → ℕ × List Event
  udp_threads_create active =
      if not active
      then (0, [])
      else attempt (call raw_socket) socket_errno raw_socket [] create_tx_frame_data (λ log. log)

-- The resources of a class, the latest first, with `m` for the mirror
abbrev buffers_of : Bool → List Resource
buffers_of m =
    if m
    then mirror_buffer ∷ rx_frame_data ∷ tx_frame_data ∷ raw_socket ∷ []
    else rx_frame_data ∷ tx_frame_data ∷ raw_socket ∷ []

abbrev tx_threads_of : Bool → List Resource
tx_threads_of m =
    if not m then tx_gen_thread ∷ tx_thread ∷ buffers_of m else tx_thread ∷ buffers_of m

unfoldable pub udp_needed : Bool → Bool → List Resource
udp_needed active m = if not active then [] else rx_thread ∷ tx_threads_of m

clean_buffers :
    (held_after (err_tx (log_of (raw_socket ∷ []))) ≡ some [])
    × (held_after (err_rx (log_of (tx_frame_data ∷ raw_socket ∷ []))) ≡ some [])
    × (held_after (err_buffer (log_of (rx_frame_data ∷ tx_frame_data ∷ raw_socket ∷ []))) ≡ some [])
unfolding held_after err_tx err_rx err_buffer release is_set same_resource resource_index
clean_buffers = (refl, refl, refl)

clean_threads :
    (m : Bool)
    → (held_after (err_thread (log_of (buffers_of m))) ≡ some [])
      × (held_after (err_thread_txgen (log_of (tx_thread ∷ buffers_of m))) ≡ some [])
      × (held_after (err_thread_rx (log_of (tx_threads_of m))) ≡ some [])
unfolding held_after err_tx err_rx err_buffer err_thread err_thread_txgen err_thread_rx release
    is_set same_resource resource_index
clean_threads m = ground arith

module _ (conf : ClassConfig) (call : Resource → ℕ) (socket_errno : ℕ) where
  abbrev mirror : Bool
  mirror = conf.rx_mirror_enabled

  abbrev Done : ℕ × List Event → Type 0
  Done = Leaves (rx_thread ∷ tx_threads_of mirror)

  rx_thread-Leaves : Done (create_rx_thread conf call socket_errno (log_of (tx_threads_of mirror)))
  unfolding create_rx_thread
  rx_thread-Leaves =
      attempt-Leaves (rx_thread ∷ tx_threads_of mirror) (call rx_thread) (call rx_thread) rx_thread
        (log_of (tx_threads_of mirror)) (λ done. (0, done)) err_thread_rx (λ n. n)
        (clean_threads mirror).2 ((λ n. absurd (n refl)), (λ e. refl))

  tx_thread-Leaves : Done (create_tx_thread conf call socket_errno (log_of (buffers_of mirror)))
  unfolding create_tx_thread create_tx_gen_thread
  tx_thread-Leaves =
      let next : Bool → Type 0 = λ z. Done (
        create_rx_thread conf call socket_errno (
          log_of (
            if z
            then tx_gen_thread ∷ tx_thread ∷ buffers_of mirror
            else tx_thread ∷ buffers_of mirror))) in
      let log = log_of (tx_thread ∷ buffers_of mirror) in
      attempt-Leaves (rx_thread ∷ tx_threads_of mirror) (call tx_thread) (call tx_thread) tx_thread
        (log_of (buffers_of mirror)) (create_tx_gen_thread conf call socket_errno) err_thread
        (λ n. n) (clean_threads mirror).0
        (if-Leaves (rx_thread ∷ tx_threads_of mirror) (not mirror) _ _
          (λ z.
            attempt-Leaves (rx_thread ∷ tx_threads_of mirror) (call tx_gen_thread)
              (call tx_gen_thread) tx_gen_thread log (create_rx_thread conf call socket_errno)
              err_thread_txgen (λ n. n) (clean_threads mirror).1 (subst next z rx_thread-Leaves))
          (λ z. subst next z rx_thread-Leaves))

  create-Leaves :
      socket_errno ≢ 0
      → (active : Bool)
      → Leaves (udp_needed active mirror) (udp_threads_create conf call socket_errno active)
  unfolding udp_threads_create create_tx_frame_data create_rx_frame_data create_mirror udp_needed
      held_after
  create-Leaves n false = ((λ m. absurd (m refl)), (λ e. refl))
  create-Leaves n true =
      let next : Bool → Type 0 =
        λ z. Done (create_tx_thread conf call socket_errno (log_of (buffers_of z))) in
      let (first, second, third) = clean_buffers in
      attempt-Leaves (rx_thread ∷ tx_threads_of mirror) (call raw_socket) socket_errno raw_socket []
        (create_tx_frame_data conf call socket_errno) (λ log. log) (λ m. n) refl
        (attempt-Leaves (rx_thread ∷ tx_threads_of mirror) (call tx_frame_data) enomem tx_frame_data
          (log_of (raw_socket ∷ [])) (create_rx_frame_data conf call socket_errno) err_tx
          (λ m. omega arith) first
          (attempt-Leaves (rx_thread ∷ tx_threads_of mirror) (call rx_frame_data) enomem
            rx_frame_data (log_of (tx_frame_data ∷ raw_socket ∷ []))
            (create_mirror conf call socket_errno) err_rx (λ m. omega arith) second
            (if-Leaves (rx_thread ∷ tx_threads_of mirror) mirror _ _
              (λ z.
                attempt-Leaves (rx_thread ∷ tx_threads_of mirror) (call mirror_buffer) enomem
                  mirror_buffer (log_of (rx_frame_data ∷ tx_frame_data ∷ raw_socket ∷ []))
                  (create_tx_thread conf call socket_errno) err_buffer (λ m. omega arith) third
                  (subst next z tx_thread-Leaves))
              (λ z. subst next z tx_thread-Leaves))))

  -- udp_threads_create undoes itself: if it returns an error then everything that it acquired is
  -- released, each resource once and in the reverse order, and nothing else is, whichever call
  -- failed; if it returns 0 then nothing is released and what is held is what the configuration
  -- needs, which is nothing for a class that is not active. The creation of a socket must set
  -- errno when it fails.
  pub udp_threads_create-undone :
      (active : Bool)
      → socket_errno ≢ 0
      → let r = udp_threads_create conf call socket_errno active in
        (r.0 ≢ 0 → held_after r.1 ≡ some [])
        × (r.0 ≡ 0 → held_after r.1 ≡ some (udp_needed active mirror))
  udp_threads_create-undone active n =
      let (failed, created) = create-Leaves n active in
      (failed, λ e. ap held_after (created e) ∙ held_after-log_of (udp_needed active mirror))
