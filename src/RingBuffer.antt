-- ===== src/RingBuffer.antt =====
-- src/ring_buffer.c: the circular buffer of bytes between the Rx and the Tx thread of a mirror.
-- A pointer into `data` is its offset from `data`; the mutex makes each operation one step, so the
-- operations are functions of the state. `ring_buffer_free` only gives memory back.
pub mod Bounds
pub mod Refine
pub mod Fifo
use rtc_testbench.Base.{
  ℕ, ◌+◌, ◌-◌, Bool, true, false, Option, none, some, List, [], length, replicate, take, drop,
  memcpy, slice, ltb, leb, ◌==◌, if◌then◌else◌, u64, ◌++◌,
}

-- struct ring_buffer
pub record RingBuffer : Type 0 where
  pub size : ℕ
  pub count : ℕ
  pub wp : ℕ
  pub rp : ℕ
  pub bytes : List ℕ

-- `ring_buffer_allocate`: what the two calls of `calloc` return decides; `none` is NULL.
unfoldable pub allocate : Bool → Bool → ℕ → Option RingBuffer
allocate rb_allocated data_allocated size =
    if not_null
    then some (record { size = size; count = 0; wp = 0; rp = 0; bytes = replicate size 0 })
    else none
  where
    not_null : Bool
    not_null = if rb_allocated then data_allocated else false

-- The write pointer and the bytes behind the copy of `xs`.
unfoldable pub write : RingBuffer → List ℕ → RingBuffer
write r xs =
    let available = r.size - r.wp in
    let end : RingBuffer =
      if leb (length xs) available
      then record r { bytes = memcpy r.wp xs r.bytes; wp = r.wp + length xs }
      else record r {
        bytes = memcpy 0 (drop available xs) (memcpy r.wp (take available xs) r.bytes);
        wp = length xs - available;
      } in
    if end.size == end.wp then record end { wp = 0 } else end

-- The read pointer and the count behind a write of `len` bytes: on overflow the oldest are dropped.
unfoldable pub advance : RingBuffer → ℕ → RingBuffer
advance r len =
    if ltb r.size (u64 (r.count + len))
    then record r { rp = r.wp; count = r.size }
    else record r { count = u64 (r.count + len) }

-- `ring_buffer_add`; the list is `data[0 .. len)`.
unfoldable pub add : RingBuffer → List ℕ → RingBuffer
add r xs = if ltb r.size (length xs) then r else advance (write r xs) (length xs)

-- The bytes copied out, and the read pointer, by a fetch of `real_len` bytes.
unfoldable pub read : RingBuffer → ℕ → List ℕ × ℕ
read r real_len =
    let available = r.size - r.rp in
    let (out, rp) : List ℕ × ℕ =
      if leb real_len available then (slice r.rp real_len r.bytes, r.rp + real_len) else (
        slice r.rp available r.bytes ++ slice 0 (real_len - available) r.bytes,
        real_len - available,
      ) in
    (out, if rp == r.size then 0 else rp)

-- `ring_buffer_fetch`: the bytes stored through `data`, whose number is `*out_len`, and the buffer.
unfoldable pub fetch : RingBuffer → ℕ → List ℕ × RingBuffer
fetch r len =
    if ltb r.size len
    then ([], r)
    else if r.count == 0
    then ([], r)
    else let real_len = if ltb len r.count then len else r.count in
      let (out, rp) = read r real_len in (out, record r { rp = rp; count = r.count - real_len })
