-- ===== src/Tests/Values.antt =====
-- The values of options at concrete strings.
use rtc_testbench.Base.{
  ℕ, ◌-◌, ◌≡◌, ◌↔◌, refl, ◌==◌, if◌then◌else◌, false, some, List, [], ◌∷◌, arith, length, memcpy,
  inr,
}
use rtc_testbench.Base.Int.{ℤ, pos, negsuc}
use rtc_testbench.Types.{clock_aux}
use rtc_testbench.Config.Parse.{
  Number, second, millisecond, microsecond, config_parse_time, CpuList, config_parse_cpu_list,
  config_parse_clockid, Integer,
}
use rtc_testbench.Config.Values.{expected_ret, config_parse_cpu_list_lem}
use rtc_testbench.Config.Names.{config_parse_time_units, NamesClock, config_parse_clockid_iff}

-- A one-digit atoi
abbrev digit_of : List ℕ → ℤ
digit_of (c ∷ []) = pos (c - 48)
digit_of _ = negsuc 0

abbrev cpus : List (List ℕ)
cpus = (49 ∷ []) ∷ (50 ∷ []) ∷ []

config_parse_cpu_list_lem_example :
    (r : CpuList) × (config_parse_cpu_list digit_of (pos 0 ∷ pos 0 ∷ pos 0 ∷ []) cpus ≡ some r)
    × (r.ret ≡ expected_ret digit_of 3 cpus)
    × (r.ret ≡ 0
        → (r.num ≡ some 2) × (r.array ≡ memcpy 0 (pos 1 ∷ pos 2 ∷ []) (pos 0 ∷ pos 0 ∷ pos 0 ∷ [])))
config_parse_cpu_list_lem_example =
    config_parse_cpu_list_lem digit_of cpus (pos 0 ∷ pos 0 ∷ pos 0 ∷ []) (omega arith)

-- The strtoull of three strings: "2s", "2000ms" and "2000000us"
abbrev read_number : List ℕ → Number
read_number s =
    if length s == 2
    then record { value = 2; failed = false; rest = second }
    else if length s == 6
    then record { value = 2000; failed = false; rest = millisecond }
    else record { value = 2000000; failed = false; rest = microsecond }

config_parse_time_units_example :
    (config_parse_time read_number (50 ∷ 115 ∷ []) ≡ inr 2000000000)
    × (config_parse_time read_number (50 ∷ 48 ∷ 48 ∷ 48 ∷ 109 ∷ 115 ∷ []) ≡ inr 2000000000)
    × (config_parse_time read_number (50 ∷ 48 ∷ 48 ∷ 48 ∷ 48 ∷ 48 ∷ 48 ∷ 117 ∷ 115 ∷ [])
        ≡ inr 2000000000)
config_parse_time_units_example =
    config_parse_time_units read_number (50 ∷ 115 ∷ []) (50 ∷ 48 ∷ 48 ∷ 48 ∷ 109 ∷ 115 ∷ [])
      (50 ∷ 48 ∷ 48 ∷ 48 ∷ 48 ∷ 48 ∷ 48 ∷ 117 ∷ 115 ∷ []) 2 refl refl refl (omega arith)
      (omega arith) (omega arith)

-- A one-digit strtol
abbrev read_digit : List ℕ → Integer
read_digit (c ∷ []) = record { value = pos (c - 48); failed = false; rest = [] }
read_digit value = record { value = pos 0; failed = false; rest = value }

-- "CLOCK_AUX3"
abbrev aux_3 : List ℕ
aux_3 = 67 ∷ 76 ∷ 79 ∷ 67 ∷ 75 ∷ 95 ∷ 65 ∷ 85 ∷ 88 ∷ 51 ∷ []

config_parse_clockid_iff_example :
    (config_parse_clockid read_digit 8 aux_3 ≡ some (clock_aux 3))
    ↔ NamesClock read_digit 8 (clock_aux 3) aux_3
config_parse_clockid_iff_example = config_parse_clockid_iff read_digit 8 aux_3 (clock_aux 3)

aux_3-NamesClock : NamesClock read_digit 8 (clock_aux 3) aux_3
aux_3-NamesClock = (51 ∷ [], refl, omega arith, omega arith, refl, refl, refl)
