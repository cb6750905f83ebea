-- ===== src/Tx/Meta.antt =====
-- The meta data that prepare_frame_for_tx of src/utils.c sets, and what its writes leave alone.
use rtc_testbench.Base.{
  ℕ, ◌+◌, ◌*◌, ◌/◌, ◌%◌, ◌^◌, ◌≤◌, ◌<◌, ◌≡◌, ◌∙◌, ◌⊎◌, List, arith, length, u32,
}
use native.Mathlib.Nat.{div-add-mod'}
use rtc_testbench.Bytes.{store, length-store}
use rtc_testbench.Bytes.Region.{Keeps, Keeps-trans, store-Keeps, load-Keeps}
use rtc_testbench.Frame.{
  meta_data_to_sequence_counter, meta_data_to_tx_timestamp, sequence_counter_to_meta_data,
  tx_timestamp_to_meta_data,
}
use rtc_testbench.Frame.Meta.{sequence_counter_roundtrip, tx_timestamp_roundtrip}
use rtc_testbench.Tx.Prepare.{PrepareFrameConfig, set_meta_data}

-- What the meta data at `m` of a frame say of a class with `n` frames per cycle.
pub record Says (n m seq ts : ℕ) (f : List ℕ) : Type 0 where
  pub counter : meta_data_to_sequence_counter f m n ≡ seq
  pub stamp : meta_data_to_tx_timestamp f m ≡ ts

pub Says-Keeps :
    {f g : List ℕ} (n m seq ts : ℕ) → Keeps m (m + 16) f g → Says n m seq ts f → Says n m seq ts g
unfolding meta_data_to_sequence_counter meta_data_to_tx_timestamp
Says-Keeps n m seq ts k w = record {
  counter =
      rw
        (
          load-Keeps 4 m k (omega arith) (omega arith),
          load-Keeps 4 (m + 4) k (omega arith) (omega arith),
        )
        w.counter;
  stamp = load-Keeps 8 (m + 8) k (omega arith) (omega arith) ∙ w.stamp;
}

-- Counters and time stamps that the meta data can hold.
pub record Holds (n seq ts : ℕ) : Type 0 where
  pub some_frames : 0 < n
  pub few_frames : n < 2 ^ 32
  pub cycle : seq / n < 2 ^ 32
  pub counter : seq < 2 ^ 64
  pub stamp : ts < 2 ^ 64

-- Counters below the end of the range of the meta data fit them.
pub fit : (n seq ts : ℕ) → 0 < n → n < 2 ^ 32 → seq < n * 2 ^ 32 → ts < 2 ^ 64 → Holds n seq ts
fit n seq ts p h s t = record {
  some_frames = p;
  few_frames = h;
  cycle = grind (arith, div-add-mod' seq n);
  counter = grind (arith);
  stamp = t;
}

length-counter :
    (f : List ℕ) (m seq n : ℕ) → length (sequence_counter_to_meta_data f m seq n) ≡ length f
unfolding sequence_counter_to_meta_data
length-counter f m seq n =
    length-store 4 (store 4 f m (u32 (seq % n))) (m + 4) (u32 (seq / n))
    ∙ length-store 4 f m (u32 (seq % n))

pub set_meta_data-Says :
    (c : PrepareFrameConfig) (f : List ℕ) (m : ℕ)
    → Holds c.num_frames_per_cycle c.sequence_counter c.tx_timestamp
    → m + 16 ≤ length f
    → Says c.num_frames_per_cycle m c.sequence_counter c.tx_timestamp (set_meta_data c f m)
unfolding set_meta_data
set_meta_data-Says c f m w h =
    let g = sequence_counter_to_meta_data f m c.sequence_counter c.num_frames_per_cycle in
    let lg = length-counter f m c.sequence_counter c.num_frames_per_cycle in
    let (stamp, kept) =
      tx_timestamp_roundtrip g m c.tx_timestamp c.num_frames_per_cycle (omega (arith, lg))
        w.stamp in
    record {
      counter =
          kept
          ∙ sequence_counter_roundtrip f m c.sequence_counter c.num_frames_per_cycle h w.some_frames
              w.few_frames w.cycle w.counter;
      stamp = stamp;
    }

pub set_meta_data-Keeps :
    (c : PrepareFrameConfig) (f : List ℕ) (m lo hi : ℕ)
    → m + 16 ≤ length f
    → (hi ≤ m) ⊎ (m + 16 ≤ lo)
    → Keeps lo hi f (set_meta_data c f m)
unfolding set_meta_data sequence_counter_to_meta_data tx_timestamp_to_meta_data
set_meta_data-Keeps c f m lo hi h d =
    let a = store 4 f m (u32 (c.sequence_counter % c.num_frames_per_cycle)) in
    let b = store 4 a (m + 4) (u32 (c.sequence_counter / c.num_frames_per_cycle)) in
    let la = length-store 4 f m (u32 (c.sequence_counter % c.num_frames_per_cycle)) in
    let lb = length-store 4 a (m + 4) (u32 (c.sequence_counter / c.num_frames_per_cycle)) in
    Keeps-trans
      (Keeps-trans (store-Keeps lo hi 4 m _ f (omega arith) (ground arith))
        (store-Keeps lo hi 4 (m + 4) _ a (omega (arith, la)) (ground arith)))
      (store-Keeps lo hi 8 (m + 8) c.tx_timestamp b (omega (arith, la, lb)) (ground arith))
