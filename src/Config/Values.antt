-- ===== src/Config/Values.antt =====
-- What the readers of src/config.c make of a list of CPUs and of the name of an option.
use rtc_testbench.Base.{
  ℕ, zero, suc, ◌+◌, ◌-◌, ◌≤◌, ◌<◌, ◌≡◌, ◌≢◌, refl, sym, ap, ◌∙◌, ◌⊎◌, inl, inr, Bool, true, false,
  ◌||◌, ◌&&◌, none, some, List, [], ◌∷◌, map, arith, length, length-set, memcpy, set, take, ltb,
  leb, ◌==◌, if◌then◌else◌, Bool-cases,
}
use rtc_testbench.Base.Int.{ℤ, pos, ltb_ℤ}
use rtc_testbench.Config.Parse.{einval, erange, CpuList, parse_cpus, config_parse_cpu_list}

-- Whether some token is a negative number.
unfoldable pub some_negative : (List ℕ → ℤ) → List (List ℕ) → Bool
some_negative atoi [] = false
some_negative atoi (p ∷ ps) = ltb_ℤ (atoi p) (pos 0) || some_negative atoi ps

-- What the list of CPUs should give: the tokens that fit the array are read before it is too long.
abbrev pub expected_ret : (List ℕ → ℤ) → ℕ → List (List ℕ) → ℕ
expected_ret atoi room tokens =
    if some_negative atoi (take room tokens)
    then einval
    else if ltb room (length tokens)
    then erange
    else if length tokens == 0
    then einval
    else 0

-- The result of the loop from the index `i` on.
record Parsed (atoi : List ℕ → ℤ) (array : List ℤ) (i : ℕ) (tokens : List (List ℕ)) (r : CpuList)
    : Type 0 where
  rejects_negative : some_negative atoi (take (length array - i) tokens) ≡ true → r.ret ≡ einval
  rejects_long :
      some_negative atoi (take (length array - i) tokens) ≡ false
      → length array < i + length tokens
      → r.ret ≡ erange
  takes :
      some_negative atoi (take (length array - i) tokens) ≡ false
      → i + length tokens ≤ length array
      → 0 < i + length tokens
      → (r.ret ≡ 0)
        × (r.num ≡ some (i + length tokens))
        × (r.array ≡ memcpy i (map atoi tokens) array)

memcpy_nil : (array : List ℤ) (i : ℕ) → memcpy i [] array ≡ array
memcpy_nil [] zero = refl
memcpy_nil [] (suc i) = refl
memcpy_nil (x ∷ xs) zero = refl
memcpy_nil (x ∷ xs) (suc i) = ap (λ (l : List ℤ). x ∷ l) (memcpy_nil xs i)

memcpy-set :
    (array : List ℤ) (i : ℕ) (v : ℤ) (vs : List ℤ)
    → memcpy (suc i) vs (set array i v) ≡ memcpy i (v ∷ vs) array
memcpy-set [] zero v vs = refl
memcpy-set [] (suc i) v vs = refl
memcpy-set (x ∷ xs) zero v vs = refl
memcpy-set (x ∷ xs) (suc i) v vs = ap (λ (l : List ℤ). x ∷ l) (memcpy-set xs i v vs)

-- A slot of the array is left for the next token.
take_cons :
    (n i : ℕ) (p : List ℕ) (ps : List (List ℕ))
    → i < n
    → take (n - i) (p ∷ ps) ≡ p ∷ take (n - (i + 1)) ps
take_cons n i p ps h = ap (λ (k : ℕ). take k (p ∷ ps)) same
  where
    same : n - i ≡ suc (n - (i + 1))
    same = omega arith

step-Parsed :
    (atoi : List ℕ → ℤ) (p : List ℕ) (ps : List (List ℕ)) (array : List ℤ) (i : ℕ) (r : CpuList)
    → i < length array
    → ltb_ℤ (atoi p) (pos 0) ≡ false
    → Parsed atoi (set array i (atoi p)) (i + 1) ps r
    → Parsed atoi array i (p ∷ ps) r
unfolding some_negative
step-Parsed atoi p ps array i r h n w =
    let l = length-set array i (atoi p) in
    let same : some_negative atoi (take (length array - i) (p ∷ ps))
        ≡ some_negative atoi (take (length (set array i (atoi p)) - (i + 1)) ps) =
      ap (λ (ts : List (List ℕ)). some_negative atoi ts) (take_cons (length array) i p ps h)
      ∙ head (take (length array - (i + 1)) ps)
      ∙ ap (λ (k : ℕ). some_negative atoi (take (k - (i + 1)) ps)) (sym l) in
    let next : i + 1 ≡ suc i = omega arith in
    record {
      rejects_negative = λ e. w.rejects_negative (sym same ∙ e);
      rejects_long = λ e k. w.rejects_long (sym same ∙ e) (omega (arith, k, l));
      takes = λ e k z.
          let (a, b, c) = w.takes (sym same ∙ e) (omega (arith, k, l)) (omega arith) in
          (
            a,
            b ∙ ap (λ (j : ℕ). some j) (omega arith),
            c
                ∙ ap (λ (j : ℕ). memcpy j (map atoi ps) (set array i (atoi p))) next
                ∙ memcpy-set array i (atoi p) (map atoi ps),
          );
    }
  where
    head : (ts : List (List ℕ)) → some_negative atoi (p ∷ ts) ≡ some_negative atoi ts
    head ts = rw n refl

take_nil : (k : ℕ) → take {A = List ℕ} k [] ≡ []
take_nil zero = refl
take_nil (suc k) = refl

false-ne-true : false ≢ true
false-ne-true e = cc

-- After the last slot with tokens left, or not.
room_cases :
    (n i : ℕ) (ps : List (List ℕ))
    → i < n
    → (leb n (i + 1) && ltb 0 (length ps)) ≡ false
    → (i + 1 < n) ⊎ (ps ≡ [])
room_cases n i [] h z = inr refl
room_cases n i (q ∷ qs) h z = inl (ground (arith, h, z))

parse_cpus-Parsed :
    (atoi : List ℕ → ℤ) (tokens : List (List ℕ)) (array : List ℤ) (i : ℕ)
    → (i < length array) ⊎ (tokens ≡ [])
    → i ≤ length array
    → (r : CpuList) × (parse_cpus atoi array i tokens ≡ some r) × Parsed atoi array i tokens r
unfolding parse_cpus some_negative
parse_cpus-Parsed atoi [] array i h b = elim (Bool-cases (i == 0)) [
  | inl z ↦ (
    record { ret = einval; array = array; num = none },
    rw z refl,
    record {
      rejects_negative = λ e. refl;
      rejects_long = λ e k. absurd (omega (arith, b, k));
      takes = λ e k n. absurd (ground (arith, z, n));
    },
  )
  | inr z ↦ (
    record { ret = 0; array = array; num = some i },
    rw z refl,
    record {
      rejects_negative = λ e. absurd (
          false-ne-true (
            sym (ap (λ (ts : List (List ℕ)). some_negative atoi ts) (take_nil (length array - i)))
            ∙ e));
      rejects_long = λ e k. absurd (omega (arith, b, k));
      takes = λ e k n. (refl, ap (λ (j : ℕ). some j) (omega arith), sym (memcpy_nil array i));
    },
  )
]
parse_cpus-Parsed atoi (p ∷ ps) array i h b =
    let written = set array i (atoi p) in
    let l = length-set array i (atoi p) in
    let open_slot : leb (length array) i ≡ false = ground (arith, inside) in
    let first =
      ap (λ (ts : List (List ℕ)). some_negative atoi ts) (take_cons (length array) i p ps inside) in
    elim (Bool-cases (ltb_ℤ (atoi p) (pos 0))) [
      | inl n ↦
          let bad : some_negative atoi (take (length array - i) (p ∷ ps)) ≡ true =
            first
            ∙ ap (λ (x : Bool). x || some_negative atoi (take (length array - (i + 1)) ps)) n in
          (
            record { ret = einval; array = written; num = none },
            rw (open_slot, n) refl,
            record {
              rejects_negative = λ e. refl;
              rejects_long = λ e k. absurd (false-ne-true (sym e ∙ bad));
              takes = λ e k z. absurd (false-ne-true (sym e ∙ bad));
            },
          )
      | inr n ↦ elim (Bool-cases (leb (length array) (i + 1) && ltb 0 (length ps))) [
        | inl z ↦
            let none_left : length array - (i + 1) ≡ 0 = ground (arith, z) in
            let good : some_negative atoi (take (length array - i) (p ∷ ps)) ≡ false =
              first
              ∙ ap (λ (x : Bool). x || some_negative atoi (take (length array - (i + 1)) ps)) n
              ∙ ap (λ (k : ℕ). some_negative atoi (take k ps)) none_left in
            (
              record { ret = erange; array = written; num = none },
              rw (open_slot, n, z) refl,
              record {
                rejects_negative = λ e. absurd (false-ne-true (sym good ∙ e));
                rejects_long = λ e k. refl;
                takes = λ e k m. absurd (ground (arith, z, k));
              },
            )
        | inr z ↦
            let room = room_cases (length array) i ps inside z in
            let (r, e, w) =
              parse_cpus-Parsed atoi ps written (i + 1) (rw l room) (omega (arith, l, inside)) in
            (r, rw (open_slot, n, z) e, step-Parsed atoi p ps array i r inside n w)
      ]
    ]
  where
    inside : i < length array
    inside = elim h [ inl k ↦ k | inr e ↦ cc ]

empty_list :
    (atoi : List ℕ → ℤ) (array : List ℤ)
    → 0 < length array
    → (r : CpuList) × (config_parse_cpu_list atoi array [] ≡ some r)
      × (r.ret ≡ expected_ret atoi (length array) [])
      × (r.ret ≡ 0 → (r.num ≡ some 0) × (r.array ≡ memcpy 0 (map atoi []) array))
unfolding config_parse_cpu_list parse_cpus some_negative
empty_list atoi array h =
    let e = ap (λ (ts : List (List ℕ)). some_negative atoi ts) (take_nil (length array)) in
    let short : ltb (length array) 0 ≡ false = ground arith in
    (
      record { ret = einval; array = array; num = none },
      refl,
      rw (e, short) refl,
      λ z. absurd (omega (arith, z)),
    )

-- config_parse_cpu_list, with an array that is not empty, does not write behind its array and ends,
-- however long the list is: a negative number among the tokens that fit the array is refused, else
-- a list that is longer than the array, else an empty list, and any other list is stored from the
-- start of the array, with its length.
pub config_parse_cpu_list_lem :
    (atoi : List ℕ → ℤ) (tokens : List (List ℕ)) (array : List ℤ)
    → 0 < length array
    → (r : CpuList) × (config_parse_cpu_list atoi array tokens ≡ some r)
      × (r.ret ≡ expected_ret atoi (length array) tokens)
      × (r.ret ≡ 0 → (r.num ≡ some (length tokens)) × (r.array ≡ memcpy 0 (map atoi tokens) array))
unfolding config_parse_cpu_list
config_parse_cpu_list_lem atoi [] array h = empty_list atoi array h
config_parse_cpu_list_lem atoi (p ∷ ps) array h =
    let (r, e, w) = parse_cpus-Parsed atoi (p ∷ ps) array 0 (inl h) (omega arith) in
    let all : length array - 0 ≡ length array = omega arith in
    let start = ap (λ (k : ℕ). some_negative atoi (take k (p ∷ ps))) all in
    let filled : (length (p ∷ ps) == 0) ≡ false = ground arith in
    let count : 0 + length (p ∷ ps) ≡ length (p ∷ ps) = omega arith in
    elim (Bool-cases (some_negative atoi (take (length array) (p ∷ ps)))) [
      | inl n ↦
          let refused = w.rejects_negative (start ∙ n) in
          (r, e, rw n refused, λ z. absurd (omega (arith, sym refused ∙ z)))
      | inr n ↦ elim (Bool-cases (ltb (length array) (length (p ∷ ps)))) [
        | inl l ↦
            let refused = w.rejects_long (start ∙ n) (ground (arith, l)) in
            (r, e, rw (n, l) refused, λ z. absurd (omega (arith, sym refused ∙ z)))
        | inr l ↦
            let (taken, num, stored) = w.takes (start ∙ n) (ground (arith, l)) (omega arith) in
            (r, e, rw (n, l, filled) taken, λ z. (num ∙ ap (λ (k : ℕ). some k) count, stored))
      ]
    ]
