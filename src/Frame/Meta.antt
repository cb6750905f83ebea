-- ===== src/Frame/Meta.antt =====
-- The meta data of a frame of src/utils.h, written and read.
use rtc_testbench.Base.{ℕ, ◌+◌, ◌*◌, ◌/◌, ◌%◌, ◌^◌, ◌≤◌, ◌<◌, ◌≡◌, List, length, arith, u32, u64}
use native.Mathlib.Nat.{div-add-mod', mod-lt}
use rtc_testbench.Bytes.{store, length-store, load-store_self, load-store_apart}
use rtc_testbench.Frame.{
  meta_data_to_sequence_counter, sequence_counter_to_meta_data, tx_timestamp_to_meta_data,
  meta_data_to_tx_timestamp,
}

-- What the receiver reads of any counter: the cycle number cut to 32 bits.
meta-sequence_counter :
    (f : List ℕ) (m seq n : ℕ)
    → m + 16 ≤ length f
    → meta_data_to_sequence_counter (sequence_counter_to_meta_data f m seq n) m n
      ≡ u64 (u32 (seq / n) * n + u32 (seq % n))
unfolding meta_data_to_sequence_counter sequence_counter_to_meta_data
meta-sequence_counter f m seq n h = ground (
  arith,
  length-store 4 f m (u32 (seq % n)),
  load-store_self 4 f m (u32 (seq % n)),
  load-store_self 4 (store 4 f m (u32 (seq % n))) (m + 4) (u32 (seq / n)),
  load-store_apart 4 4 (store 4 f m (u32 (seq % n))) m (m + 4) (u32 (seq / n)),
)

-- A sequence counter that is written into the meta data of a frame is read back, if the cycle
-- number and the number of frames per cycle fit 32 bits, the latter is not 0, and the meta data
-- lie in the frame.
pub sequence_counter_roundtrip :
    (f : List ℕ) (m seq n : ℕ)
    → m + 16 ≤ length f
    → 0 < n
    → n < 2 ^ 32
    → seq / n < 2 ^ 32
    → seq < 2 ^ 64
    → meta_data_to_sequence_counter (sequence_counter_to_meta_data f m seq n) m n ≡ seq
sequence_counter_roundtrip f m seq n h hn hn' hc hs =
    ground (arith, meta-sequence_counter f m seq n, mod-lt seq hn, div-add-mod' seq n)

-- A 64-bit Tx time stamp that is written into meta data within the frame is read back, and leaves
-- the sequence counter of the frame as it was.
pub tx_timestamp_roundtrip :
    (f : List ℕ) (m ts n : ℕ)
    → m + 16 ≤ length f
    → ts < 2 ^ 64
    → (meta_data_to_tx_timestamp (tx_timestamp_to_meta_data f m ts) m ≡ ts)
      × (meta_data_to_sequence_counter (tx_timestamp_to_meta_data f m ts) m n
          ≡ meta_data_to_sequence_counter f m n)
unfolding meta_data_to_tx_timestamp tx_timestamp_to_meta_data meta_data_to_sequence_counter
tx_timestamp_roundtrip f m ts n h ht = (
  ground (arith, load-store_self 8 f (m + 8) ts),
  ground (arith, load-store_apart 4 8 f m (m + 8) ts, load-store_apart 4 8 f (m + 4) (m + 8) ts),
)
