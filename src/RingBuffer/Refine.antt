-- ===== src/RingBuffer/Refine.antt =====
-- The ring buffer against its contract, a list of bytes, oldest first: `add` appends and drops the
-- oldest bytes of an overflow, `fetch` takes from the front.
use rtc_testbench.Base.{
  ℕ, ◌+◌, ◌-◌, ◌≤◌, ◌<◌, ◌≡◌, inl, inr, List, ◌++◌, length, take, drop, arith, memcpy, slice,
  get_or, tabulate, length-memcpy, length-take, length-drop, length-append, length-tabulate,
  get_or-memcpy, get_or-take, get_or-drop, get_or-append, get_or-tabulate, list_ext, Bool-cases,
  ltb, leb, if◌then◌else◌, min,
}
use rtc_testbench.RingBuffer.{RingBuffer, write, advance, add, read, fetch}
use rtc_testbench.RingBuffer.Bounds.{IsValid, write-lem}

-- an offset going round at `size`
abbrev pub wrap : ℕ → ℕ → ℕ
wrap size i = if ltb i size then i else i - size

-- The bytes held, oldest first.
unfoldable pub contents : RingBuffer → List ℕ
contents r = tabulate r.count (λ k. get_or r.bytes (wrap r.size (r.rp + k)) 0)

pub length-contents : (r : RingBuffer) → length (contents r) ≡ r.count
unfolding contents
length-contents r = length-tabulate r.count (λ k. get_or r.bytes (wrap r.size (r.rp + k)) 0)

get_or-contents :
    (r : RingBuffer) (k : ℕ)
    → k < r.count
    → get_or (contents r) k 0 ≡ get_or r.bytes (wrap r.size (r.rp + k)) 0
unfolding contents
get_or-contents r k h =
    get_or-tabulate r.count (λ k. get_or r.bytes (wrap r.size (r.rp + k)) 0) k 0 h

-- The byte `k` places behind the old write pointer, after a write.
get_or-write :
    (r : RingBuffer) (xs : List ℕ) (k : ℕ)
    → IsValid r
    → length xs ≤ r.size
    → k < r.size
    → get_or (write r xs).bytes (wrap r.size (r.wp + k)) 0
      ≡ (if ltb k (length xs) then get_or xs k 0 else get_or r.bytes (wrap r.size (r.wp + k)) 0)
unfolding write
get_or-write r xs k v h hk = elim (Bool-cases (leb (length xs) (r.size - r.wp))) [
  | inl e ↦ ground (arith, get_or-memcpy r.wp xs r.bytes (wrap r.size (r.wp + k)) 0)
  | inr e ↦ ground (
    arith,
    get_or-memcpy 0 (drop available xs) (memcpy r.wp (take available xs) r.bytes)
        (wrap r.size (r.wp + k)) 0,
    get_or-memcpy r.wp (take available xs) r.bytes (wrap r.size (r.wp + k)) 0,
    length-memcpy r.wp (take available xs) r.bytes,
    length-take available xs,
    length-drop available xs,
    get_or-take available xs k 0,
    get_or-drop available xs (wrap r.size (r.wp + k)) 0,
  )
]
  where
    available : ℕ
    available = r.size - r.wp

-- What `add` leaves in the fields, for data that fit.
count-add :
    (r : RingBuffer) (xs : List ℕ)
    → IsValid r
    → length xs ≤ r.size
    → ((add r xs).count ≡ min (r.count + length xs) r.size)
      × ((add r xs).size ≡ r.size)
      × ((add r xs).bytes ≡ (write r xs).bytes)
      × ((add r xs).rp
          ≡ (if ltb r.size (r.count + length xs) then wrap r.size (r.wp + length xs) else r.rp))
unfolding add advance
count-add r xs v h = ground (arith, write-lem r xs v)

get_or-add :
    (r : RingBuffer) (xs : List ℕ) (k : ℕ)
    → IsValid r
    → length xs ≤ r.size
    → k < r.count + length xs
    → k < r.size
    → get_or
        (write r xs).bytes
        (wrap r.size
          ((if ltb r.size (r.count + length xs) then wrap r.size (r.wp + length xs) else r.rp) + k))
        0
      ≡ get_or (contents r ++ xs) (r.count + length xs - r.size + k) 0
get_or-add r xs k v h hk hs = elim (Bool-cases (ltb r.size (r.count + length xs))) [
  | inl e ↦ rw e (elim (Bool-cases (ltb (length xs + k) r.size)) [
    | inl old ↦ ground (
      arith,
      get_or-write r xs (length xs + k) v h,
      get_or-append (contents r) xs (r.count + length xs - r.size + k) 0,
      length-contents r,
      get_or-contents r (r.count + length xs - r.size + k),
    )
    | inr new ↦ ground (
      arith,
      get_or-write r xs (length xs + k - r.size) v h,
      get_or-append (contents r) xs (r.count + length xs - r.size + k) 0,
      length-contents r,
      get_or-contents r (r.count + length xs - r.size + k),
    )
  ])
  | inr e ↦ rw e (elim (Bool-cases (ltb k r.count)) [
    | inl old ↦ ground (
      arith,
      get_or-write r xs (r.size - r.count + k) v h,
      get_or-append (contents r) xs (r.count + length xs - r.size + k) 0,
      length-contents r,
      get_or-contents r (r.count + length xs - r.size + k),
    )
    | inr new ↦ ground (
      arith,
      get_or-write r xs (k - r.count) v h,
      get_or-append (contents r) xs (r.count + length xs - r.size + k) 0,
      length-contents r,
      get_or-contents r (r.count + length xs - r.size + k),
    )
  ])
]

-- `add` appends `xs`; the oldest bytes beyond `size` go.
pub add_refines :
    (r : RingBuffer) (xs : List ℕ)
    → IsValid r
    → length xs ≤ r.size
    → contents (add r xs) ≡ drop (r.count + length xs - r.size) (contents r ++ xs)
add_refines r xs v h =
    list_ext 0 _ _
      (omega (
        arith,
        count-add r xs v h,
        length-contents r,
        length-contents (add r xs),
        length-append (contents r) xs,
        length-drop (r.count + length xs - r.size) (contents r ++ xs),
      ))
      (λ k hk. ground (
        arith,
        length-contents (add r xs),
        count-add r xs v h,
        get_or-contents (add r xs) k,
        get_or-add r xs k v h,
        get_or-drop (r.count + length xs - r.size) (contents r ++ xs) k 0,
      ))

-- What a fetch of `n` of the held bytes copies out.
length-read : (r : RingBuffer) (n : ℕ) → IsValid r → n ≤ r.count → length (read r n).0 ≡ n
unfolding read
length-read r n v h = ground (
  arith,
  length-take n (drop r.rp r.bytes),
  length-drop r.rp r.bytes,
  length-append (slice r.rp (r.size - r.rp) r.bytes) (slice 0 (n - (r.size - r.rp)) r.bytes),
  length-take (r.size - r.rp) (drop r.rp r.bytes),
  length-take (n - (r.size - r.rp)) r.bytes,
)

get_or-read :
    (r : RingBuffer) (n k : ℕ)
    → IsValid r
    → n ≤ r.count
    → k < n
    → get_or (read r n).0 k 0 ≡ get_or r.bytes (wrap r.size (r.rp + k)) 0
unfolding read
get_or-read r n k v h hk = elim (Bool-cases (leb n (r.size - r.rp))) [
  | inl e ↦ ground (arith, get_or-take n (drop r.rp r.bytes) k 0, get_or-drop r.rp r.bytes k 0)
  | inr e ↦ ground (
    arith,
    get_or-append (slice r.rp available r.bytes) (slice 0 (n - available) r.bytes) k 0,
    length-take available (drop r.rp r.bytes),
    length-drop r.rp r.bytes,
    get_or-take available (drop r.rp r.bytes) k 0,
    get_or-drop r.rp r.bytes k 0,
    get_or-take (n - available) r.bytes (k - available) 0,
  )
]
  where
    available : ℕ
    available = r.size - r.rp

-- The read pointer behind it.
rp-read : (r : RingBuffer) (n : ℕ) → IsValid r → n ≤ r.count → (read r n).1 ≡ wrap r.size (r.rp + n)
unfolding read
rp-read r n v h = ground arith

fetch-fields :
    (r : RingBuffer) (len : ℕ)
    → IsValid r
    → len ≤ r.size
    → let n = min len r.count in
      (length (fetch r len).0 ≡ n)
      × ((k : ℕ) → k < n → get_or (fetch r len).0 k 0 ≡ get_or (read r n).0 k 0)
      × ((fetch r len).1.bytes ≡ r.bytes)
      × ((fetch r len).1.size ≡ r.size)
      × ((fetch r len).1.count ≡ r.count - n)
      × (0 < r.count → (fetch r len).1.rp ≡ wrap r.size (r.rp + n))
unfolding fetch
fetch-fields r len v h = (
  ground (arith, length-read r (min len r.count) v),
  λ k hk. ground arith,
  ground arith,
  ground arith,
  ground arith,
  λ p. ground (arith, rp-read r (min len r.count) v),
)

-- `fetch` takes the oldest `len` bytes, or all that are held, and leaves the rest.
pub fetch_refines :
    (r : RingBuffer) (len : ℕ)
    → IsValid r
    → len ≤ r.size
    → ((fetch r len).0 ≡ take len (contents r)) × (contents (fetch r len).1 ≡ drop len (contents r))
fetch_refines r len v h =
    let f = fetch-fields r len v h in
    (
      list_ext 0 _ _ (omega (arith, f.0, length-contents r, length-take len (contents r))) (λ k hk.
          ground (
            arith,
            f.0,
            f.1 k,
            get_or-read r (min len r.count) k v,
            get_or-take len (contents r) k 0,
            get_or-contents r k,
          )),
      list_ext 0 _ _
          (omega (
            arith,
            f,
            length-contents r,
            length-contents (fetch r len).1,
            length-drop len (contents r),
          ))
          (λ k hk. ground (
            arith,
            f.2,
            f.3,
            f.4,
            f.5,
            length-contents r,
            length-contents (fetch r len).1,
            length-drop len (contents r),
            get_or-contents (fetch r len).1 k,
            get_or-contents r (len + k),
            get_or-drop len (contents r) k 0,
          )),
    )
