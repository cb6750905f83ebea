-- ===== src/Bytes/Region.antt =====
-- Parts of a frame that a write leaves alone: the bytes from `lo` to before `hi`.
use rtc_testbench.Base.{
  ℕ, zero, suc, ◌+◌, ◌≤◌, ◌<◌, ◌≡◌, refl, sym, ◌∙◌, ◌⊎◌, List, arith, length, get_or, slice, memcpy,
  get_or-memcpy, length-memcpy, list_ext, length-take, length-drop, drop, get_or-take, get_or-drop,
}
use rtc_testbench.Bytes.{load, store, be, length-be}

pub length-slice : (off n : ℕ) (f : List ℕ) → off + n ≤ length f → length (slice off n f) ≡ n
length-slice off n f h = omega (arith, length-take n (drop off f), length-drop off f)

pub get_or-slice :
    (off n : ℕ) (f : List ℕ) (i : ℕ) → i < n → get_or (slice off n f) i 0 ≡ get_or f (off + i) 0
get_or-slice off n f i h = get_or-take n (drop off f) i 0 h ∙ get_or-drop off f i 0

-- `g` is as long as `f` and agrees with it there.
pub record Keeps (lo hi : ℕ) (f g : List ℕ) : Type 0 where
  pub length_kept : length g ≡ length f
  pub byte_kept : (i : ℕ) → lo ≤ i → i < hi → get_or g i 0 ≡ get_or f i 0

pub Keeps-trans : {lo hi : ℕ} {f g h : List ℕ} → Keeps lo hi f g → Keeps lo hi g h → Keeps lo hi f h
Keeps-trans a b = record {
  length_kept = b.length_kept ∙ a.length_kept;
  byte_kept = λ i l u. b.byte_kept i l u ∙ a.byte_kept i l u;
}

pub memcpy-Keeps :
    (lo hi to : ℕ) (xs f : List ℕ)
    → to + length xs ≤ length f
    → (hi ≤ to) ⊎ (to + length xs ≤ lo)
    → Keeps lo hi f (memcpy to xs f)
memcpy-Keeps lo hi to xs f h d = record {
  length_kept = length-memcpy to xs f;
  byte_kept = λ i l u. ground (arith, get_or-memcpy to xs f i 0);
}

pub store-Keeps :
    (lo hi k to v : ℕ) (f : List ℕ)
    → to + k ≤ length f
    → (hi ≤ to) ⊎ (to + k ≤ lo)
    → Keeps lo hi f (store k f to v)
unfolding store
store-Keeps lo hi k to v f h d =
    memcpy-Keeps lo hi to (be k v) f (omega (arith, length-be k v)) (rw (length-be k v) d)

pub load-Keeps :
    {lo hi : ℕ} {f g : List ℕ} (n off : ℕ)
    → Keeps lo hi f g
    → lo ≤ off
    → off + n ≤ hi
    → load n g off ≡ load n f off
unfolding load
load-Keeps zero off k l u = refl
load-Keeps (suc n) off k l u = ground (arith, k.byte_kept off, load-Keeps n (off + 1) k)

pub slice-Keeps :
    {lo hi : ℕ} {f g : List ℕ} (off n : ℕ)
    → Keeps lo hi f g
    → lo ≤ off
    → off + n ≤ hi
    → off + n ≤ length f
    → slice off n g ≡ slice off n f
slice-Keeps {f} {g} off n k l u h =
    list_ext 0 _ _
      (length-slice off n g (omega (arith, k.length_kept)) ∙ sym (length-slice off n f h))
      (λ i hi'. ground (
        arith,
        length-slice off n g,
        k.length_kept,
        get_or-slice off n g i,
        get_or-slice off n f i,
        k.byte_kept (off + i),
      ))

-- What was copied is read back.
pub slice-memcpy :
    (off : ℕ) (xs f : List ℕ)
    → off + length xs ≤ length f
    → slice off (length xs) (memcpy off xs f) ≡ xs
slice-memcpy off xs f h =
    list_ext 0 _ _ (length-slice off (length xs) _ (omega (arith, length-memcpy off xs f))) (λ i hi.
      ground (
        arith,
        length-memcpy off xs f,
        length-slice off (length xs) (memcpy off xs f),
        get_or-slice off (length xs) (memcpy off xs f) i,
        get_or-memcpy off xs f (off + i) 0,
      ))
