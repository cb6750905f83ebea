-- ===== src/RingBuffer/Bounds.antt =====
-- The representation invariant of `struct ring_buffer`: no access out of range, no wrap.
use rtc_testbench.Base.{
  ℕ, ◌+◌, ◌-◌, ◌^◌, ◌≤◌, ◌<◌, ◌≡◌, inl, inr, List, length, take, drop, arith, memcpy, length-memcpy,
  Bool-cases, ltb, if◌then◌else◌,
}
use rtc_testbench.RingBuffer.{RingBuffer, write, advance, add, read, fetch}

-- Where the bytes end: `rp + count`, going round at `size`.
abbrev pub ends_at : RingBuffer → ℕ
ends_at r = if ltb (r.rp + r.count) r.size then r.rp + r.count else r.rp + r.count - r.size

pub record IsValid (r : RingBuffer) : Type 0 where
  pub storage : length r.bytes ≡ r.size
  pub small : r.size < 2 ^ 62
  pub nonempty : 0 < r.size
  pub wp_in : r.wp < r.size
  pub rp_in : r.rp < r.size
  pub count_in : r.count ≤ r.size
  pub meets : r.wp ≡ ends_at r

-- What a write of data that fit leaves in the fields.
pub write-lem :
    (r : RingBuffer) (xs : List ℕ)
    → IsValid r
    → length xs ≤ r.size
    → (length (write r xs).bytes ≡ r.size)
      × ((write r xs).wp < r.size)
      × ((write r xs).size ≡ r.size)
      × ((write r xs).rp ≡ r.rp)
      × ((write r xs).count ≡ r.count)
      × ((write r xs).wp
          ≡ (if ltb (r.wp + length xs) r.size then r.wp + length xs else r.wp + length xs - r.size))
unfolding write
write-lem r xs v h = ground (
  arith,
  length-memcpy r.wp xs r.bytes,
  length-memcpy 0 (drop (r.size - r.wp) xs) (memcpy r.wp (take (r.size - r.wp) xs) r.bytes),
  length-memcpy r.wp (take (r.size - r.wp) xs) r.bytes,
)

-- `ring_buffer_add` keeps the invariant of a valid buffer, for data of any length: the pointers and
-- the count stay in range, and the write pointer is where the bytes end.
pub add-IsValid : (r : RingBuffer) (xs : List ℕ) → IsValid r → IsValid (add r xs)
unfolding add advance
add-IsValid r xs v = elim (Bool-cases (ltb r.size (length xs))) [
  | inl e ↦ rw e v
  | inr e ↦ rw e (ground (arith, write-lem r xs v))
]

-- `ring_buffer_fetch` keeps the same invariant of a valid buffer, for any length asked for.
pub fetch-IsValid : (r : RingBuffer) (len : ℕ) → IsValid r → IsValid (fetch r len).1
unfolding fetch read
fetch-IsValid r len v = ground arith
