-- ===== src/Frame/Iv.antt =====
-- The initial vector: its comment promises 2 ^ 48 different vectors for a prefix.
use rtc_testbench.Base.{
  ℕ, suc, ◌+◌, ◌*◌, ◌%◌, ◌^◌, ◌≡◌, refl, ap, sym, ◌∙◌, ◌↔◌, List, [], ◌∷◌, ◌++◌, length, take, drop,
  arith, length-take,
}
use rtc_testbench.Frame.{le, prepare_iv}

-- the number that bytes stand for, the lowest first
unfoldable pub from_le : List ℕ → ℕ
from_le [] = 0
from_le (b ∷ bs) = b + 256 * from_le bs

-- The vector that the cipher reads: SECURITY_IV_LEN bytes.
unfoldable pub iv_of : List ℕ → ℕ → List ℕ
iv_of iv_prefix sequence_counter = take 12 (prepare_iv iv_prefix sequence_counter)

from_le-le : (v : ℕ) → from_le (take 6 (le 8 v)) ≡ v % 2 ^ 48
unfolding from_le le
from_le-le v = omega arith

take-append : (p q : List ℕ) (n : ℕ) → take (length p + n) (p ++ q) ≡ p ++ take n q
take-append [] q n = ap (λ k. take k q) (omega arith)
take-append (x ∷ p) q n =
    let shift : suc (length p) + n ≡ suc (length p + n) = omega arith in
    rw shift (ap (◌∷◌ x) (take-append p q n))

drop-append : (p q : List ℕ) → drop (length p) (p ++ q) ≡ q
drop-append [] q = refl
drop-append (x ∷ p) q = drop-append p q

take-le : (s t : ℕ) → s % 2 ^ 48 ≡ t % 2 ^ 48 → take 6 (le 8 s) ≡ take 6 (le 8 t)
unfolding le
take-le s t e = ground arith

iv_of_lem : (p : List ℕ) (s : ℕ) → length p ≡ 6 → iv_of p s ≡ take 6 p ++ take 6 (le 8 s)
unfolding iv_of prepare_iv
iv_of_lem p s h =
    let e : 12 ≡ length (take 6 p) + 6 = omega (arith, length-take 6 p) in
    ap (λ k. take k (take 6 p ++ le 8 s)) e ∙ take-append (take 6 p) (le 8 s) 6

-- For a prefix of six bytes, two sequence counters give the cipher the same initial vector exactly
-- when they agree modulo 2 ^ 48.
pub iv_of-eq_iff :
    (p : List ℕ) (s t : ℕ) → length p ≡ 6 → (iv_of p s ≡ iv_of p t) ↔ (s % 2 ^ 48 ≡ t % 2 ^ 48)
iv_of-eq_iff p s t h = (
  λ e.
      sym (from_le-le s)
      ∙ ap from_le (
          sym (drop-append (take 6 p) _)
          ∙ ap (drop (length (take 6 p))) (sym (iv_of_lem p s h) ∙ e ∙ iv_of_lem p t h)
          ∙ drop-append (take 6 p) _)
      ∙ from_le-le t,
  λ e. iv_of_lem p s h ∙ ap (λ q. take 6 p ++ q) (take-le s t e) ∙ sym (iv_of_lem p t h),
)
