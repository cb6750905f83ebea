-- ===== src/Setup/TakenDown.antt =====
-- The end of a class: tc_threads_wait_for_finish and tc_threads_free of src/tc.c.
use rtc_testbench.Base.{
  ℕ, ◌+◌, ◌≤◌, leb, to_nat, ◌≡◌, refl, Bool, true, false, ◌&&◌, List, [], ◌∷◌, ◌++◌, arith, ◌==◌,
  if◌then◌else◌,
}
use rtc_testbench.Setup.{
  Resource, packet_context, tx_frame_data, rx_frame_data, frame_copy, raw_socket, xsk,
  mirror_buffer, tx_security, rx_security, tx_thread, tx_gen_thread, rx_thread, workload,
  workload_threads, desc, Event, acquired, released, resource_index, same_resource, is_set, release,
}
use rtc_testbench.Setup.Stages.{log_of, threads_of}

-- How often a log acquires and releases a resource.
unfoldable pub times_acquired : Resource → List Event → ℕ
times_acquired r [] = 0
times_acquired r (acquired s ∷ log) = to_nat (same_resource r s) + times_acquired r log
times_acquired r (released s ∷ log) = times_acquired r log

unfoldable pub times_released : Resource → List Event → ℕ
times_released r [] = 0
times_released r (acquired s ∷ log) = times_released r log
times_released r (released s ∷ log) = to_nat (same_resource r s) + times_released r log

-- The log of a class whose description was allocated before it was created.
abbrev pub described : List Event → List Event
described log = log ++ acquired desc ∷ []

-- tc_threads_wait_for_finish and tc_threads_free, by the flag for the workload.
abbrev pub taken_down : Bool → List Event → List Event
taken_down w log =
    let joined = release tx_gen_thread (
      release tx_thread (release rx_thread (if w then released workload_threads ∷ log else log))) in
    let freed = release xsk (
      release raw_socket (
        release rx_frame_data (
          release tx_frame_data (
            release packet_context (
              release mirror_buffer
                (release rx_security (release tx_security (release frame_copy joined)))))))) in
    release desc (if w then released workload ∷ freed else freed)

-- A test that both Boolean values pass
abbrev each : (Bool → Bool) → Bool
each p = p true && p false

and_left : (a b : Bool) → (a && b) ≡ true → a ≡ true
and_left true b h = refl
and_left false b h = h

and_right : (a b : Bool) → (a && b) ≡ true → b ≡ true
and_right true b h = h
and_right false b h = absurd (ground (arith, h))

each→ : (p : Bool → Bool) → each p ≡ true → (b : Bool) → p b ≡ true
each→ p h true = and_left (p true) (p false) h
each→ p h false = and_right (p true) (p false) h

abbrev balanced : Resource → List Event → Bool
balanced r log = (times_released r log == times_acquired r log) && leb (times_acquired r log) 1

-- The same over all the flags, one after the other.
abbrev after_b : Resource → Bool → Bool → Bool → Bool → Bool
after_b r x m plain b =
    each (λ w. balanced r (taken_down w (described (log_of (threads_of x m plain b w)))))

abbrev after_plain : Resource → Bool → Bool → Bool → Bool
after_plain r x m plain = each (after_b r x m plain)

abbrev after_m : Resource → Bool → Bool → Bool
after_m r x m = each (after_plain r x m)

abbrev after_x : Resource → Bool → Bool
after_x r x = each (after_m r x)

every : (r : Resource) → each (after_x r) ≡ true
unfolding times_acquired times_released release is_set same_resource resource_index
every packet_context = refl
every tx_frame_data = refl
every rx_frame_data = refl
every frame_copy = refl
every raw_socket = refl
every xsk = refl
every mirror_buffer = refl
every tx_security = refl
every rx_security = refl
every tx_thread = refl
every tx_gen_thread = refl
every rx_thread = refl
every workload = refl
every workload_threads = refl
every desc = refl

pub taken_down-balanced :
    (r : Resource) (x m plain b w : Bool)
    → let log = taken_down w (described (log_of (threads_of x m plain b w))) in
      (times_released r log ≡ times_acquired r log) × (times_acquired r log ≤ 1)
taken_down-balanced r x m plain b w =
    let log = taken_down w (described (log_of (threads_of x m plain b w))) in
    read (times_released r log) (times_acquired r log) (
      each→ (λ v. balanced r (taken_down v (described (log_of (threads_of x m plain b v)))))
        (each→ (after_b r x m plain)
          (each→ (after_plain r x m) (each→ (after_m r x) (each→ (after_x r) (every r) x) m) plain)
          b)
        w)
  where
    read : (i j : ℕ) → ((i == j) && leb j 1) ≡ true → (i ≡ j) × (j ≤ 1)
    read i j h = ground (arith, h)
