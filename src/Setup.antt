-- ===== src/Setup.antt =====
-- How the threads of a class are set up and taken down: tc_threads_create, tc_threads_wait_for_finish
-- and tc_threads_free of src/tc.c, udp_threads_create of src/udp_thread.c. The program's state is
-- the log of what was acquired and released, the latest first. A call that makes a resource
-- returns 0 or an error number; a file descriptor is never 0.
pub mod Class
pub mod Stages
pub mod TakenDown
pub mod Undone
pub mod Udp
use rtc_testbench.Base.{
  ℕ, zero, suc, ◌+◌, Bool, true, false, ◌&&◌, ◌||◌, Option, none, some, List, [], ◌∷◌, ◌==◌,
  if◌then◌else◌,
}

pub data Resource : Type 0 where
  packet_context tx_frame_data rx_frame_data frame_copy raw_socket xsk mirror_buffer : Resource
  tx_security rx_security tx_thread tx_gen_thread rx_thread workload workload_threads desc :
      Resource

unfoldable pub resource_index : Resource → ℕ
resource_index packet_context = 0
resource_index tx_frame_data = 1
resource_index rx_frame_data = 2
resource_index frame_copy = 3
resource_index raw_socket = 4
resource_index xsk = 5
resource_index mirror_buffer = 6
resource_index tx_security = 7
resource_index rx_security = 8
resource_index tx_thread = 9
resource_index tx_gen_thread = 10
resource_index rx_thread = 11
resource_index workload = 12
resource_index workload_threads = 13
resource_index desc = 14

unfoldable pub same_resource : Resource → Resource → Bool
same_resource r s = resource_index r == resource_index s

pub data Event : Type 0 where
  acquired released : Resource → Event

-- Whether the pointer, the descriptor or the thread identifier is set.
unfoldable pub is_set : Resource → List Event → Bool
is_set r [] = false
is_set r (acquired s ∷ log) = same_resource r s || is_set r log
is_set r (released s ∷ log) = is_set r log

-- free(), security_exit(), ring_buffer_free() and packet_free() do nothing to NULL, and the other
-- calls stand behind a test.
unfoldable pub release : Resource → List Event → List Event
release r log = if is_set r log then released r ∷ log else log

-- A call that makes a resource: what follows it, or the error that is returned after a clean-up
unfoldable pub attempt :
    ℕ
    → (returned : ℕ) → Resource
    → List Event
    → (List Event → ℕ × List Event)
    → (List Event → List Event)
    → ℕ × List Event
attempt result returned r log go clean =
    if result == 0 then go (acquired r ∷ log) else (returned, clean log)

-- The resources that are held, as a stack, if each release is of the latest
abbrev pub push : Resource → Option (List Resource) → Option (List Resource)
push r none = none
push r (some held) = some (r ∷ held)

abbrev pub pop : Resource → Option (List Resource) → Option (List Resource)
pop r none = none
pop r (some []) = none
pop r (some (s ∷ held)) = if same_resource r s then some held else none

unfoldable pub held_after : List Event → Option (List Resource)
held_after [] = some []
held_after (acquired r ∷ log) = push r (held_after log)
held_after (released r ∷ log) = pop r (held_after log)
