-- ===== src/Rx.antt =====
-- What the frame handlers of src/layer2_thread.c, src/lldp_thread.c, src/ethercat.c and
-- src/profinet.c share: the part of `struct thread_context` that a reception reads or changes, and
-- what the clocks and the drivers say about the frame. The buffer of a frame is its bytes, of which
-- the first `len` were received.
pub mod Layer2
pub mod Lldp
pub mod Ethercat
pub mod Profinet
pub mod Sent
pub mod Track
use rtc_testbench.Base.{
  ℕ, ◌+◌, Bool, true, false, not, Option, none, some, List, [], ◌∷◌, get_or, slice, ◌==◌, ◌&&◌,
  if◌then◌else◌, u64, sub64,
}
use rtc_testbench.Types.{AppConfig}
use rtc_testbench.RingBuffer.{RingBuffer}
use rtc_testbench.Frame.{tx_timestamp_to_meta_data}
use rtc_testbench.Stat.State.{State}
use rtc_testbench.Stat.Common.{inc}

-- struct thread_context, the members of a reception
pub record RxContext : Type 0 where
  pub rx_sequence_counter : ℕ
  pub source : List ℕ
  pub mirror_buffer : RingBuffer

-- What is read while a frame is handled: the application's clock for the mirror's time stamp and
-- for the statistics, and the time stamps (hardware, software) that come with the frame.
pub record RxTimes : Type 0 where
  pub mirror_now : ℕ
  pub stat_now : ℕ
  pub xdp_timestamps : ℕ × ℕ
  pub packet_timestamps : ℕ × ℕ

-- Why a handler returns -EINVAL: the message that it logs.
pub data RxError : Type 0 where
  too_small wrong_ether_type wrong_length not_processed : RxError

-- The end of a handler: what it returned (`none` is 0), the statistics, whether they stopped the
-- program, the context, and the buffer of the frame.
pub record RxResult (D : Type 0) : Type 0 where
  pub error : Option RxError
  pub state : State D
  pub stopped : Bool
  pub context : RxContext
  pub frame : List ℕ

-- `memcmp(a, b, n) == 0` of two arrays of that length
unfoldable pub equal_bytes : List ℕ → List ℕ → Bool
equal_bytes [] [] = true
equal_bytes (x ∷ xs) (y ∷ ys) = (x == y) && equal_bytes xs ys
equal_bytes _ _ = false

-- The counter that is expected after a frame, by the two increments of the handlers.
unfoldable pub next_sequence_counter : ℕ → Bool → ℕ
next_sequence_counter counter out_of_order = inc (if out_of_order then inc counter else counter)

-- set_mirror_tx_timestamp_est, of the meta data at `m`
unfoldable pub set_mirror_tx_timestamp_est : AppConfig → List ℕ → ℕ → ℕ → List ℕ
set_mirror_tx_timestamp_est app f m now =
    tx_timestamp_to_meta_data f m (u64 (now + sub64 app.tx_base_offset_ns app.rx_base_offset_ns))
