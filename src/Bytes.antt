-- ===== src/Bytes.antt =====
-- Fields of a frame. A frame is the list of its bytes; a packed struct laid over it is an offset, a
-- `__be16`, `__be32` or `__be64` member a load or a store of big-endian bytes there.
pub mod Region
use rtc_testbench.Base.{
  ℕ, zero, suc, ◌+◌, ◌*◌, ◌/◌, ◌%◌, ◌^◌, ◌≤◌, ◌<◌, ◌≡◌, refl, ap, ◌∙◌, ◌⊎◌, List, [], ◌∷◌, arith,
  length, get_or, memcpy, get_or-memcpy, length-memcpy,
}
use native.Mathlib.Nat.{div-div-eq-div-mul, pow-suc, one-le-pow, div-add-mod, mul_comm}

-- htobe16, htobe32, htobe64: the `n` low bytes of `v`, the highest first
unfoldable pub be : ℕ → ℕ → List ℕ
be zero v = []
be (suc n) v = v / 256 ^ n % 256 ∷ be n v

-- be16toh, be32toh, be64toh of the `n` bytes at `off`
unfoldable pub load : ℕ → List ℕ → ℕ → ℕ
load zero f off = 0
load (suc n) f off = get_or f off 0 * 256 ^ n + load n f (off + 1)

-- A member of `n` bytes at `off` is set to `v`.
unfoldable pub store : ℕ → List ℕ → ℕ → ℕ → List ℕ
store n f off v = memcpy off (be n v) f

pub length-be : (n v : ℕ) → length (be n v) ≡ n
unfolding be
length-be zero v = refl
length-be (suc n) v = ap suc (length-be n v)

pub length-store : (n : ℕ) (f : List ℕ) (off v : ℕ) → length (store n f off v) ≡ length f
unfolding store
length-store n f off v = length-memcpy off (be n v) f

mod-step : (v p : ℕ) → 0 < p → v / p % 256 * p + v % p ≡ v % (256 * p)
mod-step v p h = omega (
  arith,
  div-add-mod v p,
  ap (λ (t : ℕ). p * t) (div-add-mod (v / p) 256),
  div-add-mod v (256 * p),
  ap (λ (t : ℕ). 256 * p * t) (div-div-eq-div-mul v p 256 ∙ ap (λ (t : ℕ). v / t) (mul_comm p 256)),
)

load-bytes :
    (n v : ℕ) (f : List ℕ) (off : ℕ)
    → ((k : ℕ) → k < n → get_or f (off + k) 0 ≡ get_or (be n v) k 0)
    → load n f off ≡ v % 256 ^ n
unfolding load be
load-bytes zero v f off h = omega arith
load-bytes (suc n) v f off h =
    let first : get_or f off 0 ≡ v / 256 ^ n % 256 = ground (arith, h 0) in
    let rest : load n f (off + 1) ≡ v % 256 ^ n =
      load-bytes n v f (off + 1) (λ k hk. ground (arith, h (suc k))) in
    rw (first, rest, pow-suc 256 n)
      (mod-step v (256 ^ n) (one-le-pow n 256 (omega arith))
        ∙ ap (λ (t : ℕ). v % t) (mul_comm 256 (256 ^ n)))

-- A stored member is read back, cut to its width.
pub load-store_self :
    (n : ℕ) (f : List ℕ) (off v : ℕ)
    → off + n ≤ length f
    → load n (store n f off v) off ≡ v % 256 ^ n
unfolding store
load-store_self n f off v h =
    load-bytes n v (memcpy off (be n v) f) off
      (λ k hk. ground (arith, get_or-memcpy off (be n v) f (off + k) 0, length-be n v))

-- A copy elsewhere leaves it alone.
pub load-memcpy_apart :
    (n : ℕ) (f src : List ℕ) (off to : ℕ)
    → to + length src ≤ length f
    → (off + n ≤ to) ⊎ (to + length src ≤ off)
    → load n (memcpy to src f) off ≡ load n f off
unfolding load
load-memcpy_apart zero f src off to h d = refl
load-memcpy_apart (suc n) f src off to h d =
    ground (arith, get_or-memcpy to src f off 0, load-memcpy_apart n f src (off + 1) to h)

-- So does a store elsewhere.
pub load-store_apart :
    (n k : ℕ) (f : List ℕ) (off to v : ℕ)
    → to + k ≤ length f
    → (off + n ≤ to) ⊎ (to + k ≤ off)
    → load n (store k f to v) off ≡ load n f off
unfolding store
load-store_apart n k f off to v h d =
    load-memcpy_apart n f (be k v) off to (omega (arith, length-be k v)) (rw (length-be k v) d)

-- A store changes no byte outside its member.
pub get_or-store_apart :
    (k : ℕ) (f : List ℕ) (to v i : ℕ)
    → to + k ≤ length f
    → (i < to) ⊎ (to + k ≤ i)
    → get_or (store k f to v) i 0 ≡ get_or f i 0
unfolding store
get_or-store_apart k f to v i h d = ground (arith, get_or-memcpy to (be k v) f i 0, length-be k v)
