-- ===== src/Tests/Buffers.antt =====
-- The ring buffer and the histogram at concrete inputs.
use rtc_testbench.Base.{◌≡◌, refl, List, [], ◌∷◌, arith}
use rtc_testbench.RingBuffer.{RingBuffer, allocate, write, advance, add, read, fetch}
use rtc_testbench.RingBuffer.Bounds.{IsValid, add-IsValid, fetch-IsValid}
use rtc_testbench.RingBuffer.Fifo.{
  Op, put, get, run, queue_run, queue_add, queue_fetch, run_refines, allocate-run,
}
use rtc_testbench.RingBuffer.Refine.{contents}

abbrev fresh : RingBuffer
fresh = record { size = 4; count = 0; wp = 0; rp = 0; bytes = 0 ∷ 0 ∷ 0 ∷ 0 ∷ [] }

-- 8, then 9, round the end of the storage
abbrev wrapped : RingBuffer
wrapped = record { size = 4; count = 2; wp = 1; rp = 3; bytes = 9 ∷ 7 ∷ 7 ∷ 8 ∷ [] }

wrapped-IsValid : IsValid wrapped
wrapped-IsValid = record {
  storage = refl;
  small = omega arith;
  nonempty = omega arith;
  wp_in = omega arith;
  rp_in = omega arith;
  count_in = omega arith;
  meets = refl;
}

abbrev history : List Op
history = put (1 ∷ 2 ∷ 3 ∷ []) ∷ get 2 ∷ put (4 ∷ 5 ∷ 6 ∷ []) ∷ get 4 ∷ []

-- The third byte is dropped by the overflow of the last three.
queue_run-history : queue_run 4 (8 ∷ 9 ∷ []) history ≡ (9 ∷ 1 ∷ []) ∷ (3 ∷ 4 ∷ 5 ∷ 6 ∷ []) ∷ []
unfolding queue_run queue_add queue_fetch
queue_run-history = refl

run-wrapped : run wrapped history ≡ (9 ∷ 1 ∷ []) ∷ (3 ∷ 4 ∷ 5 ∷ 6 ∷ []) ∷ []
unfolding run add fetch write advance read
run-wrapped = refl

add-IsValid_example : IsValid (add wrapped (1 ∷ 2 ∷ 3 ∷ []))
add-IsValid_example = add-IsValid wrapped (1 ∷ 2 ∷ 3 ∷ []) wrapped-IsValid

fetch-IsValid_example : IsValid (fetch wrapped 2).1
fetch-IsValid_example = fetch-IsValid wrapped 2 wrapped-IsValid

run_refines_example : run wrapped history ≡ queue_run 4 (contents wrapped) history
run_refines_example = run_refines history wrapped wrapped-IsValid

allocate-run_example : run fresh history ≡ queue_run 4 [] history
unfolding allocate
allocate-run_example = allocate-run 4 history (omega arith) (omega arith) refl
