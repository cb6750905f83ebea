-- ===== src/Setup/Stages.antt =====
-- The stages of tc_threads_create of src/tc.c: what is held at each, and how its label undoes it.
use rtc_testbench.Base.{
  ℕ, ◌≡◌, ◌≢◌, refl, Bool, true, false, not, ◌&&◌, some, List, [], ◌∷◌, arith, map, ◌==◌,
  if◌then◌else◌, Bool-cases, inl, inr,
}
use rtc_testbench.Setup.{
  Resource, packet_context, tx_frame_data, rx_frame_data, frame_copy, raw_socket, xsk,
  mirror_buffer, tx_security, rx_security, tx_thread, tx_gen_thread, rx_thread, workload,
  workload_threads, Event, acquired, resource_index, same_resource, is_set, release, attempt,
  held_after,
}
use rtc_testbench.Setup.Class.{
  err_tx, err_rx, err_mac, err_socket, err_thread, err_tx_sec, err_rx_sec, err_thread_tx,
  err_thread_txgen, err_thread_rx, err_thread_wl,
}

-- Nothing is held behind a failure, and this is acquired behind a success.
abbrev pub Leaves : List Resource → ℕ × List Event → Type 0
Leaves held r = (r.0 ≢ 0 → held_after r.1 ≡ some []) × (r.0 ≡ 0 → r.1 ≡ map acquired held)

pub if-Leaves :
    (held : List Resource) (b : Bool) (x y : ℕ × List Event)
    → (b ≡ true → Leaves held x)
    → (b ≡ false → Leaves held y)
    → Leaves held (if b then x else y)
if-Leaves held true x y h k = h refl
if-Leaves held false x y h k = k refl

pub attempt-Leaves :
    (held : List Resource) (result returned : ℕ) (r : Resource) (log : List Event)
    (go : List Event → ℕ × List Event) (clean : List Event → List Event)
    → (result ≢ 0 → returned ≢ 0)
    → held_after (clean log) ≡ some []
    → Leaves held (go (acquired r ∷ log))
    → Leaves held (attempt result returned r log go clean)
unfolding attempt
attempt-Leaves held result returned r log go clean n c g = elim (Bool-cases (result == 0)) [
  | inl z ↦ rw z g
  | inr z ↦ rw z ((λ h. c), (λ h. absurd (n (ground (arith, z)) h)))
]

-- The resources of a class, the latest first, up to each stage: with `x` for XDP, `m` for the mirror,
-- `s` for security and `b` for a burst.
abbrev pub buffers_of : Bool → List Resource
buffers_of x = if x then [] else rx_frame_data ∷ tx_frame_data ∷ packet_context ∷ []

abbrev pub socket_of : Bool → List Resource
socket_of x = (if x then xsk else raw_socket) ∷ frame_copy ∷ buffers_of x

abbrev pub mirror_of : Bool → Bool → List Resource
mirror_of x m = if m && not x then mirror_buffer ∷ socket_of x else socket_of x

abbrev pub security_of : Bool → Bool → Bool → List Resource
security_of x m plain = if plain then mirror_of x m else rx_security ∷ tx_security ∷ mirror_of x m

abbrev pub tx_threads_of : Bool → Bool → Bool → Bool → List Resource
tx_threads_of x m plain b =
    if b && not m
    then tx_gen_thread ∷ tx_thread ∷ security_of x m plain
    else tx_thread ∷ security_of x m plain

abbrev pub threads_of : Bool → Bool → Bool → Bool → Bool → List Resource
threads_of x m plain b w =
    if not w
    then rx_thread ∷ tx_threads_of x m plain b
    else workload_threads ∷ workload ∷ rx_thread ∷ tx_threads_of x m plain b

abbrev pub log_of : List Resource → List Event
log_of rs = map acquired rs

pub held_after-log_of : (rs : List Resource) → held_after (log_of rs) ≡ some rs
unfolding held_after
held_after-log_of [] = refl
held_after-log_of (r ∷ rs) = rw (held_after-log_of rs) refl

pub clean_buffers :
    (held_after (err_tx (log_of (packet_context ∷ []))) ≡ some [])
    × (held_after (err_rx (log_of (tx_frame_data ∷ packet_context ∷ []))) ≡ some [])
unfolding held_after err_tx err_rx release is_set same_resource resource_index
clean_buffers = (refl, refl)

pub clean_socket :
    (x : Bool)
    → (held_after (err_mac (log_of (buffers_of x))) ≡ some [])
      × (held_after (err_socket (log_of (frame_copy ∷ buffers_of x))) ≡ some [])
      × (held_after (err_thread (log_of (socket_of x))) ≡ some [])
unfolding held_after err_tx err_rx err_mac err_socket err_thread release is_set same_resource
    resource_index
clean_socket x = ground arith

pub clean_security :
    (x m : Bool)
    → (held_after (err_tx_sec (log_of (mirror_of x m))) ≡ some [])
      × (held_after (err_rx_sec (log_of (tx_security ∷ mirror_of x m))) ≡ some [])
unfolding held_after err_tx err_rx err_mac err_socket err_thread err_tx_sec err_rx_sec release
    is_set same_resource resource_index
clean_security x m = ground arith

pub clean_tx :
    (x m plain : Bool)
    → (held_after (err_thread_tx (log_of (security_of x m plain))) ≡ some [])
      × (held_after (err_thread_txgen (log_of (tx_thread ∷ security_of x m plain))) ≡ some [])
unfolding held_after err_tx err_rx err_mac err_socket err_thread err_tx_sec err_rx_sec err_thread_tx
    err_thread_txgen release is_set same_resource resource_index
clean_tx x m plain = ground arith

pub clean_rx :
    (x m plain b : Bool)
    → (held_after (err_thread_rx (log_of (tx_threads_of x m plain b))) ≡ some [])
      × (held_after (err_thread_wl (log_of (rx_thread ∷ tx_threads_of x m plain b))) ≡ some [])
unfolding held_after err_tx err_rx err_mac err_socket err_thread err_tx_sec err_rx_sec err_thread_tx
    err_thread_txgen err_thread_rx err_thread_wl release is_set same_resource resource_index
clean_rx x m plain b = ground arith
