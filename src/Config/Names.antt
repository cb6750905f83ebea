-- ===== src/Config/Names.antt =====
-- The units, clocks and security modes that src/config.c reads.
use rtc_testbench.Base.{
  ℕ, ◌*◌, ◌<◌, ◌≡◌, refl, Bool, true, false, Option, some, List, [], ◌∷◌, map, arith, length, leb,
  ap₂, ap, sym, ◌∙◌, inl, inr, Bool-cases, if◌then◌else◌, take, drop, ◌++◌, ◌↔◌, none, zero, suc,
  ◌&&◌, ◌==◌, ◌⊎◌, inl, inr, ltb, ◌^◌, if◌then◌else◌,
}
use mathlib.Core.Path.{subst}
use rtc_testbench.Base.Int.{ℤ, pos, negsuc}
use rtc_testbench.Types.{
  SecurityMode, mode_none, mode_ao, mode_ae, ClockId, clock_tai, clock_monotonic, clock_realtime,
  clock_aux,
}
use rtc_testbench.Rx.{equal_bytes}
use rtc_testbench.Config.Parse.{
  Number, second, millisecond, microsecond, scaled, config_parse_time, to_lower, same_text,
  mode_name, store_security_mode, config_parse_clockid, Integer, config_parse_int, aux_clock,
  aux_text, tai_text, monotonic_text, realtime_text,
}

-- A time in seconds, the same in milliseconds and the same in microseconds are read as that time in
-- nanoseconds if it is below 2 ^ 64, and all three are refused with ERANGE if it is not. strtoull
-- must read each number up to the unit.
pub config_parse_time_units :
    (strtoull : List ℕ → Number) (s ms us : List ℕ) (n : ℕ)
    → strtoull s ≡ record { value = n; failed = false; rest = second }
    → strtoull ms ≡ record { value = n * 1000; failed = false; rest = millisecond }
    → strtoull us ≡ record { value = n * 1000000; failed = false; rest = microsecond }
    → 1 < length s
    → 2 < length ms
    → 2 < length us
    → let t = n * 1000000000 in
      let read : ℕ ⊎ ℕ = if ltb t (2 ^ 64) then inr t else inl 34 in
      (config_parse_time strtoull s ≡ read)
      × (config_parse_time strtoull ms ≡ read)
      × (config_parse_time strtoull us ≡ read)
unfolding config_parse_time scaled equal_bytes
config_parse_time_units strtoull s ms us n a b c i j k =
    (ground (arith, a), ground (arith, b), ground (arith, c))

equal_bytes_sound : (xs ys : List ℕ) → equal_bytes xs ys ≡ true → xs ≡ ys
unfolding equal_bytes
equal_bytes_sound [] [] h = refl
equal_bytes_sound [] (y ∷ ys) h = cc
equal_bytes_sound (x ∷ xs) [] h = cc
equal_bytes_sound (x ∷ xs) (y ∷ ys) h =
    let (same, rest) = both (x == y) (equal_bytes xs ys) h in
    ap₂ (λ (z : ℕ) (zs : List ℕ). z ∷ zs) (ground (arith, same)) (equal_bytes_sound xs ys rest)
  where
    both : (a b : Bool) → (a && b) ≡ true → (a ≡ true) × (b ≡ true)
    both true b k = (refl, k)
    both false b k = cc

-- A security mode is read back from its name, whatever the case of its letters.
pub store_security_mode-mode_name :
    (m : SecurityMode) (value : List ℕ)
    → same_text value (mode_name m) ≡ true
    → store_security_mode value ≡ some m
unfolding store_security_mode same_text mode_name equal_bytes
store_security_mode-mode_name mode_none value h =
    rw (same_text, equal_bytes_sound (map to_lower value) (mode_name mode_none) h) refl
store_security_mode-mode_name mode_ao value h =
    rw (same_text, equal_bytes_sound (map to_lower value) (mode_name mode_ao) h) refl
store_security_mode-mode_name mode_ae value h =
    rw (same_text, equal_bytes_sound (map to_lower value) (mode_name mode_ae) h) refl

-- `value` names a clock: CLOCK_TAI, CLOCK_MONOTONIC, CLOCK_REALTIME, or CLOCK_AUX with the number of
-- an auxiliary clock below the limit, which strtol reads to its end.
abbrev pub NamesClock : (List ℕ → Integer) → ℕ → ClockId → List ℕ → Type 0
NamesClock strtol limit clock_tai value = value ≡ 67 ∷ 76 ∷ 79 ∷ 67 ∷ 75 ∷ 95 ∷ 84 ∷ 65 ∷ 73 ∷ []
NamesClock strtol limit clock_monotonic value =
    value ≡ 67 ∷ 76 ∷ 79 ∷ 67 ∷ 75 ∷ 95 ∷ 77 ∷ 79 ∷ 78 ∷ 79 ∷ 84 ∷ 79 ∷ 78 ∷ 73 ∷ 67 ∷ []
NamesClock strtol limit clock_realtime value =
    value ≡ 67 ∷ 76 ∷ 79 ∷ 67 ∷ 75 ∷ 95 ∷ 82 ∷ 69 ∷ 65 ∷ 76 ∷ 84 ∷ 73 ∷ 77 ∷ 69 ∷ []
NamesClock strtol limit (clock_aux id) value =
    (digits : List ℕ) × (value ≡ 67 ∷ 76 ∷ 79 ∷ 67 ∷ 75 ∷ 95 ∷ 65 ∷ 85 ∷ 88 ∷ digits)
    × (id < limit)
    × (0 < length digits)
    × ((strtol digits).value ≡ pos id)
    × ((strtol digits).failed ≡ false)
    × ((strtol digits).rest ≡ [])

take-drop : (n : ℕ) (xs : List ℕ) → take n xs ++ drop n xs ≡ xs
take-drop zero xs = refl
take-drop (suc n) [] = refl
take-drop (suc n) (x ∷ xs) = ap (λ (l : List ℕ). x ∷ l) (take-drop n xs)

config_parse_int_iff :
    (strtol : List ℕ → Integer) (value : List ℕ) (n : ℤ)
    → (config_parse_int strtol value ≡ some n) ↔ (
        (0 < length value)
        × ((strtol value).value ≡ n)
        × ((strtol value).failed ≡ false)
        × ((strtol value).rest ≡ []))
unfolding config_parse_int equal_bytes
config_parse_int_iff strtol value n = (
  λ h.
      let ended : equal_bytes ((strtol value).rest) [] ≡ true = ground (arith, h) in
      let rest = equal_bytes_sound ((strtol value).rest) [] ended in
      (
        ground (arith, h, ap (λ (l : List ℕ). length l) rest),
        ground (arith, h),
        ground (arith, h),
        rest,
      ),
  λ (l, v, f, r).
      let more : (0 == length value) ≡ false = ground (arith, l) in rw (f, r, more, v) refl,
)

aux_clock_iff :
    (limit : ℕ) (n : ℤ) (id : ℕ)
    → (aux_clock limit n ≡ some (clock_aux id)) ↔ ((n ≡ pos id) × (id < limit))
unfolding aux_clock
aux_clock_iff limit (pos k) id = (λ h. ground (arith, h), λ h. ground (arith, h))
aux_clock_iff limit (negsuc k) id = (λ h. cc, λ h. cc)

abbrev is_aux : ClockId → Bool
is_aux (clock_aux i) = true
is_aux _ = false

aux_only : (limit : ℕ) (n : ℤ) (k : ClockId) → aux_clock limit n ≡ some k → is_aux k ≡ false → ⊥
unfolding aux_clock
aux_only limit (pos i) k h e = by_test (leb limit i) h
  where
    by_test : (b : Bool) → (if b then none else some (clock_aux i)) ≡ some k → ⊥
    by_test true g = absurd cc
    by_test false g = absurd cc
aux_only limit (negsuc i) k h e = absurd cc

some-inj : {a b : ClockId} → some a ≡ some b → a ≡ b
some-inj e = cc

none-ne-some : (c : ClockId) → (none ≡ some c) → ⊥
none-ne-some c e = absurd cc

-- The digits of an auxiliary clock.
module _ (strtol : List ℕ → Integer) (limit : ℕ) where
  names_aux :
      (value : List ℕ) (c : ClockId)
      → equal_bytes (take (length aux_text) value) aux_text ≡ true
      → (elim (config_parse_int strtol (drop (length aux_text) value)) [
        | some id ↦ aux_clock limit id
        | none ↦ none
      ])
        ≡ some c
      → NamesClock strtol limit c value
  names_aux value c a e = by_int (config_parse_int strtol (drop (length aux_text) value)) refl e
    where
      digits : List ℕ
      digits = drop (length aux_text) value

      split : value ≡ aux_text ++ digits
      split =
          sym (take-drop (length aux_text) value)
          ∙ ap (λ (l : List ℕ). l ++ digits) (equal_bytes_sound _ aux_text a)

      by_clock :
          (n : ℤ) (k : ClockId)
          → config_parse_int strtol digits ≡ some n
          → aux_clock limit n ≡ some k
          → NamesClock strtol limit k value
      by_clock n (clock_aux id) i h =
          let (same, small) = (aux_clock_iff limit n id).0 h in
          let (l, v, f, r) = (config_parse_int_iff strtol digits n).0 i in
          (digits, split, small, l, v ∙ same, f, r)
      by_clock n clock_tai i h = absurd (aux_only limit n clock_tai h refl)
      by_clock n clock_monotonic i h = absurd (aux_only limit n clock_monotonic h refl)
      by_clock n clock_realtime i h = absurd (aux_only limit n clock_realtime h refl)

      by_int :
          (x : Option ℤ)
          → config_parse_int strtol digits ≡ x
          → (elim x [ some id ↦ aux_clock limit id | none ↦ none ]) ≡ some c
          → NamesClock strtol limit c value
      by_int none i h = cc
      by_int (some n) i h = by_clock n c i h

  -- config_parse_clockid reads a clock from a string just if the string names that clock.
  pub config_parse_clockid_iff :
      (value : List ℕ) (c : ClockId)
      → (config_parse_clockid strtol limit value ≡ some c) ↔ NamesClock strtol limit c value
  unfolding config_parse_clockid equal_bytes aux_clock
  config_parse_clockid_iff value c = (read, named c)
    where
      found :
          (k : ClockId)
          → NamesClock strtol limit k value
          → some k ≡ some c
          → NamesClock strtol limit c value
      found k n e = subst (λ (x : ClockId). NamesClock strtol limit x value) (some-inj e) n

      read : config_parse_clockid strtol limit value ≡ some c → NamesClock strtol limit c value
      read h = elim (Bool-cases (equal_bytes value tai_text)) [
        | inl a ↦ found clock_tai (equal_bytes_sound value tai_text a) (rw a at h)
        | inr a ↦ elim (Bool-cases (equal_bytes value monotonic_text)) [
          | inl b ↦
              found clock_monotonic (equal_bytes_sound value monotonic_text b) (rw (a, b) at h)
          | inr b ↦ elim (Bool-cases (equal_bytes value realtime_text)) [
            | inl d ↦
                found clock_realtime (equal_bytes_sound value realtime_text d) (rw (a, b, d) at h)
            | inr d ↦ elim (Bool-cases (equal_bytes (take (length aux_text) value) aux_text)) [
              | inl x ↦ names_aux value c x (rw (a, b, d, x) at h)
              | inr x ↦ absurd (none-ne-some c (rw (a, b, d, x) at h))
            ]
          ]
        ]
      ]

      Reads : ClockId → List ℕ → Type 0
      Reads k v = config_parse_clockid strtol limit v ≡ some k

      named : (k : ClockId) → NamesClock strtol limit k value → Reads k value
      named clock_tai e = subst (Reads clock_tai) (sym e) refl
      named clock_monotonic e = subst (Reads clock_monotonic) (sym e) refl
      named clock_realtime e = subst (Reads clock_realtime) (sym e) refl
      named (clock_aux id) (digits, e, small, l, v, f, r) =
          let in_range : leb limit id ≡ false = ground (arith, small) in
          let int = (config_parse_int_iff strtol digits (pos id)).1 (l, v, f, r) in
          subst (Reads (clock_aux id)) (sym e) (rw (int, in_range) refl)
