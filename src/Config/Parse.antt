-- ===== src/Config/Parse.antt =====
-- How src/config.c reads the values of options. A string is the list of its characters. The functions
-- of the C library are parameters: `strtoull` gives the number, whether it sets errno, and the rest
-- of the string, which is the whole string if there is no number; strtok is the list of the tokens
-- that it returns.
use rtc_testbench.Base.{
  ℕ, ◌+◌, ◌*◌, ◌^◌, Bool, true, false, not, ◌||◌, ◌&&◌, Option, none, some, List, [], ◌∷◌, ◌++◌,
  map, length, set, ltb, leb, ◌==◌, if◌then◌else◌, ◌⊎◌, inl, inr,
}
use rtc_testbench.Base.Int.{ℤ, pos, ltb_ℤ}
use rtc_testbench.Types.{
  FrameType, tsn_high, tsn_low, rtc, rta, dcp, lldp, udp_high, udp_low, generic_l2, SecurityMode,
  mode_none, mode_ao, mode_ae, ClockId, clock_tai, clock_monotonic, clock_realtime, clock_aux,
}
use rtc_testbench.Base.{take, drop}
use rtc_testbench.Rx.{equal_bytes}

abbrev pub einval : ℕ
einval = 22

abbrev pub erange : ℕ
erange = 34

-- What strtoull gives.
pub record Number : Type 0 where
  pub value : ℕ
  pub failed : Bool
  pub rest : List ℕ

-- The strings "s", "ms" and "us"
abbrev pub second : List ℕ
second = 115 ∷ []

abbrev pub millisecond : List ℕ
millisecond = 109 ∷ 115 ∷ []

abbrev pub microsecond : List ℕ
microsecond = 117 ∷ 115 ∷ []

-- `__builtin_mul_overflow`, with the error that follows it
unfoldable pub scaled : ℕ → ℕ → ℕ ⊎ ℕ
scaled value factor = if ltb (value * factor) (2 ^ 64) then inr (value * factor) else inl erange

-- config_parse_time: an error number or the time in ns
unfoldable pub config_parse_time : (List ℕ → Number) → List ℕ → ℕ ⊎ ℕ
config_parse_time strtoull value =
    let n = strtoull value in
    if n.failed || (length (n.rest) == length value)
    then inl erange
    else if equal_bytes (n.rest) []
    then inr (n.value)
    else if equal_bytes (n.rest) second
    then scaled (n.value) 1000000000
    else if equal_bytes (n.rest) millisecond
    then scaled (n.value) 1000000
    else if equal_bytes (n.rest) microsecond
    then scaled (n.value) 1000
    else inl einval

-- config_parse_ulong
unfoldable pub config_parse_ulong : (List ℕ → Number) → List ℕ → ℕ ⊎ ℕ
config_parse_ulong strtoull value =
    let n = strtoull value in
    if n.failed || ((length (n.rest) == length value) || (not (equal_bytes (n.rest) [])))
    then inl erange
    else inr (n.value)

-- The end of config_parse_cpu_list: what it returns, negated, the array, and `*num` if it is set
pub record CpuList : Type 0 where
  pub ret : ℕ
  pub array : List ℤ
  pub num : Option ℕ

-- The loop of config_parse_cpu_list, from the token `p` on; `none` is a write behind the array.
unfoldable pub parse_cpus : (List ℕ → ℤ) → List ℤ → ℕ → List (List ℕ) → Option CpuList
parse_cpus atoi array i [] =
    if i == 0
    then some (record { ret = einval; array = array; num = none })
    else some (record { ret = 0; array = array; num = some i })
parse_cpus atoi array i (p ∷ ps) =
    let written = set array i (atoi p) in
    let rest = parse_cpus atoi written (i + 1) ps in
    if leb (length array) i
    then none
    else if ltb_ℤ (atoi p) (pos 0)
    then some (record { ret = einval; array = written; num = none })
    else if leb (length array) (i + 1) && ltb 0 (length ps)
    then some (record { ret = erange; array = written; num = none })
    else rest

-- config_parse_cpu_list, if strdup succeeds
unfoldable pub config_parse_cpu_list : (List ℕ → ℤ) → List ℤ → List (List ℕ) → Option CpuList
config_parse_cpu_list atoi array tokens = parse_cpus atoi array 0 tokens

-- str_match_class
unfoldable pub str_match_class : List ℕ → List ℕ → Bool
str_match_class opt s = equal_bytes (take (length s) opt) s

-- The names of the classes in the keys of options
unfoldable pub class_name : FrameType → List ℕ
class_name tsn_high = 84 ∷ 115 ∷ 110 ∷ 72 ∷ 105 ∷ 103 ∷ 104 ∷ []
class_name tsn_low = 84 ∷ 115 ∷ 110 ∷ 76 ∷ 111 ∷ 119 ∷ []
class_name rtc = 82 ∷ 116 ∷ 99 ∷ []
class_name rta = 82 ∷ 116 ∷ 97 ∷ []
class_name dcp = 68 ∷ 99 ∷ 112 ∷ []
class_name lldp = 76 ∷ 108 ∷ 100 ∷ 112 ∷ []
class_name udp_high = 85 ∷ 100 ∷ 112 ∷ 72 ∷ 105 ∷ 103 ∷ 104 ∷ []
class_name udp_low = 85 ∷ 100 ∷ 112 ∷ 76 ∷ 111 ∷ 119 ∷ []
class_name generic_l2 = 71 ∷ 101 ∷ 110 ∷ 101 ∷ 114 ∷ 105 ∷ 99 ∷ 76 ∷ 50 ∷ []

-- The first of some classes whose name begins an option, and the suffix
unfoldable pub first_match : List FrameType → List ℕ → Option (FrameType × List ℕ)
first_match [] opt = none
first_match (t ∷ ts) opt =
    if str_match_class opt (class_name t)
    then some (t, drop (length (class_name t)) opt)
    else first_match ts opt

-- config_opt_to_type; `none` is no option of a class.
unfoldable pub config_opt_to_type : List ℕ → Option (FrameType × List ℕ)
config_opt_to_type =
    first_match (tsn_high ∷ tsn_low ∷ rtc ∷ rta ∷ dcp ∷ lldp ∷ udp_high ∷ udp_low ∷ generic_l2 ∷ [])

-- tolower() of the C locale, and strcasecmp() == 0
abbrev pub to_lower : ℕ → ℕ
to_lower c = if leb 65 c && leb c 90 then c + 32 else c

unfoldable pub same_text : List ℕ → List ℕ → Bool
same_text a b = equal_bytes (map to_lower a) (map to_lower b)

-- The names of the security modes: "none", "ao", "ae"
unfoldable pub mode_name : SecurityMode → List ℕ
mode_name mode_none = 110 ∷ 111 ∷ 110 ∷ 101 ∷ []
mode_name mode_ao = 97 ∷ 111 ∷ []
mode_name mode_ae = 97 ∷ 101 ∷ []

-- The case CONFIG_TYPE_SECURITY_MODE of config_store_value; `none` is -EINVAL. The last assignment
-- stands first.
unfoldable pub store_security_mode : List ℕ → Option SecurityMode
store_security_mode value =
    if not (same_text value (mode_name mode_none))
      && (not (same_text value (mode_name mode_ao)) && not (same_text value (mode_name mode_ae)))
    then none
    else if same_text value (mode_name mode_ae)
    then some mode_ae
    else if same_text value (mode_name mode_ao)
    then some mode_ao
    else some mode_none

-- The strings "0", "false", "1" and "true"
abbrev pub zero_text : List ℕ
zero_text = 48 ∷ []

abbrev pub false_text : List ℕ
false_text = 102 ∷ 97 ∷ 108 ∷ 115 ∷ 101 ∷ []

abbrev pub one_text : List ℕ
one_text = 49 ∷ []

abbrev pub true_text : List ℕ
true_text = 116 ∷ 114 ∷ 117 ∷ 101 ∷ []

-- config_parse_bool; `none` is -EINVAL.
unfoldable pub config_parse_bool : List ℕ → Option Bool
config_parse_bool value =
    if equal_bytes value zero_text || same_text value false_text
    then some false
    else if equal_bytes value one_text || same_text value true_text
    then some true
    else none

-- The strings "CLOCK_TAI", "CLOCK_MONOTONIC", "CLOCK_REALTIME" and "CLOCK_AUX"
abbrev pub clock_text : List ℕ
clock_text = 67 ∷ 76 ∷ 79 ∷ 67 ∷ 75 ∷ 95 ∷ []

abbrev pub tai_text : List ℕ
tai_text = clock_text ++ 84 ∷ 65 ∷ 73 ∷ []

abbrev pub monotonic_text : List ℕ
monotonic_text = clock_text ++ 77 ∷ 79 ∷ 78 ∷ 79 ∷ 84 ∷ 79 ∷ 78 ∷ 73 ∷ 67 ∷ []

abbrev pub realtime_text : List ℕ
realtime_text = clock_text ++ 82 ∷ 69 ∷ 65 ∷ 76 ∷ 84 ∷ 73 ∷ 77 ∷ 69 ∷ []

abbrev pub aux_text : List ℕ
aux_text = clock_text ++ 65 ∷ 85 ∷ 88 ∷ []

-- What strtol gives, as strtoull.
pub record Integer : Type 0 where
  pub value : ℤ
  pub failed : Bool
  pub rest : List ℕ

-- config_parse_int; `none` is -ERANGE.
unfoldable pub config_parse_int : (List ℕ → Integer) → List ℕ → Option ℤ
config_parse_int strtol value =
    let n = strtol value in
    if n.failed || ((length (n.rest) == length value) || (not (equal_bytes (n.rest) [])))
    then none
    else some (n.value)

-- `id < 0 || id >= MAX_AUX_CLOCKS`, and the clock
unfoldable pub aux_clock : ℕ → ℤ → Option ClockId
aux_clock max_aux_clocks (pos id) = if leb max_aux_clocks id then none else some (clock_aux id)
aux_clock max_aux_clocks _ = none

-- config_parse_clockid; `max_aux_clocks` is a constant of the system, and `none` is -EINVAL.
unfoldable pub config_parse_clockid : (List ℕ → Integer) → ℕ → List ℕ → Option ClockId
config_parse_clockid strtol max_aux_clocks value =
    if equal_bytes value tai_text
    then some clock_tai
    else if equal_bytes value monotonic_text
    then some clock_monotonic
    else if equal_bytes value realtime_text
    then some clock_realtime
    else if equal_bytes (take (length aux_text) value) aux_text
    then elim (config_parse_int strtol (drop (length aux_text) value)) [
      | some id ↦ aux_clock max_aux_clocks id
      | none ↦ none
    ]
    else none
