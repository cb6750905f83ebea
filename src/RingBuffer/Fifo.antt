-- ===== src/RingBuffer/Fifo.antt =====
-- The contract of the ring buffer, as its header states it: a queue of at most `size` bytes, where
-- new data drop the oldest. `Op` is a call of a client, `run` a history of them.
use rtc_testbench.Base.{
  ℕ, ◌+◌, ◌-◌, ◌<◌, ◌^◌, ◌≡◌, refl, ap, ap₂, ◌∙◌, inl, inr, true, some, List, [], ◌∷◌, ◌++◌, length,
  take, drop, arith, ltb, if◌then◌else◌, Bool-cases, length-replicate,
}
use rtc_testbench.RingBuffer.{RingBuffer, allocate, write, advance, add, fetch}
use rtc_testbench.RingBuffer.Bounds.{IsValid, add-IsValid, fetch-IsValid}
use rtc_testbench.RingBuffer.Refine.{contents, length-contents, add_refines, fetch_refines}

pub data Op : Type 0 where
  put : List ℕ → Op
  get : ℕ → Op

-- `ring_buffer_add` and `ring_buffer_fetch` of a queue that holds at most `size` bytes.
unfoldable pub queue_add : ℕ → List ℕ → List ℕ → List ℕ
queue_add size q xs =
    if ltb size (length xs) then q else drop (length q + length xs - size) (q ++ xs)

unfoldable pub queue_fetch : ℕ → List ℕ → ℕ → List ℕ × List ℕ
queue_fetch size q len = if ltb size len then ([], q) else (take len q, drop len q)

-- What a history of calls returns.
unfoldable pub run : RingBuffer → List Op → List (List ℕ)
run r [] = []
run r (put xs ∷ ops) = run (add r xs) ops
run r (get len ∷ ops) = let (out, r') = fetch r len in out ∷ run r' ops

unfoldable pub queue_run : ℕ → List ℕ → List Op → List (List ℕ)
queue_run size q [] = []
queue_run size q (put xs ∷ ops) = queue_run size (queue_add size q xs) ops
queue_run size q (get len ∷ ops) =
    let (out, q') = queue_fetch size q len in out ∷ queue_run size q' ops

size-add : (r : RingBuffer) (xs : List ℕ) → (add r xs).size ≡ r.size
unfolding add advance write
size-add r xs = ground arith

size-fetch : (r : RingBuffer) (len : ℕ) → (fetch r len).1.size ≡ r.size
unfolding fetch
size-fetch r len = ground arith

-- Data longer than the buffer are not taken.
add-long : (r : RingBuffer) (xs : List ℕ) → ltb r.size (length xs) ≡ true → add r xs ≡ r
unfolding add
add-long r xs e = rw e

fetch-long : (r : RingBuffer) (len : ℕ) → ltb r.size len ≡ true → fetch r len ≡ ([], r)
unfolding fetch
fetch-long r len e = rw e

contents-add :
    (r : RingBuffer) (xs : List ℕ)
    → IsValid r
    → contents (add r xs) ≡ queue_add r.size (contents r) xs
unfolding queue_add
contents-add r xs v = elim (Bool-cases (ltb r.size (length xs))) [
  | inl e ↦ rw e (ap contents (add-long r xs e))
  | inr e ↦ rw (e, length-contents r) (add_refines r xs v (ground arith))
]

contents-fetch :
    (r : RingBuffer) (len : ℕ)
    → IsValid r
    → let (out, r') = fetch r len in (out, contents r') ≡ queue_fetch r.size (contents r) len
unfolding queue_fetch
contents-fetch r len v = elim (Bool-cases (ltb r.size len)) [
  | inl e ↦ rw (e, fetch-long r len e)
  | inr e ↦ rw e (ground (arith, fetch_refines r len v))
]

-- A valid ring buffer returns, for any history of `ring_buffer_add` and `ring_buffer_fetch`, what
-- the queue of the bytes that it holds returns: new data drop the oldest bytes on overflow, data
-- longer than the buffer are not taken, and a fetch takes the oldest bytes.
pub run_refines :
    (ops : List Op) (r : RingBuffer) → IsValid r → run r ops ≡ queue_run r.size (contents r) ops
unfolding run queue_run
run_refines [] r v = refl
run_refines (put xs ∷ ops) r v =
    run_refines ops (add r xs) (add-IsValid r xs v)
    ∙ ap₂ (λ s q. queue_run s q ops) (size-add r xs) (contents-add r xs v)
run_refines (get len ∷ ops) r v =
    ap (λ rest. (fetch r len).0 ∷ rest) (run_refines ops (fetch r len).1 (fetch-IsValid r len v))
    ∙ ap₂ (λ (s : ℕ) (p : List ℕ × List ℕ). p.0 ∷ queue_run s p.1 ops) (size-fetch r len)
        (contents-fetch r len v)

-- A fresh buffer is valid and empty.
pub allocate-IsValid :
    (size : ℕ) {r : RingBuffer}
    → 0 < size
    → size < 2 ^ 62
    → allocate true true size ≡ some r
    → IsValid r × (contents r ≡ []) × (r.size ≡ size)
unfolding allocate contents
allocate-IsValid size {r} p q e = ground (arith, length-replicate {A = ℕ} size 0)

-- A buffer that `ring_buffer_allocate` gives for a size above 0 and below 2 ^ 62 returns, for any
-- history of calls, what the empty queue of that size returns.
pub allocate-run :
    (size : ℕ) (ops : List Op) {r : RingBuffer}
    → 0 < size
    → size < 2 ^ 62
    → allocate true true size ≡ some r
    → run r ops ≡ queue_run size [] ops
allocate-run size ops {r} p q e =
    let (v, c, s) = allocate-IsValid size p q e in rw (run_refines ops r v, c, s)
