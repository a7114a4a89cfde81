-- ===== src/Job/Validate/Limits.antt =====
-- The limits and the patterns that Validate checks by, and ParseMaxFailures.
use remote_command_orchestra.Common.{
  ℕ, ◌*◌, ◌==◌, Bool, ◌&&◌, ◌||◌, ◌++◌, Bytes, codes, length, is_prefix, quoted, Option, none, some,
  ℤ, pos, leb_ℤ, ◌⊎◌, inl, inr, if◌then◌else◌, is_alpha, is_alnum, is_shaped, within_codes,
  all_bytes, ends_in, trim_last,
}

-- The floating-point numbers of the source, as far as it uses them.
pub record Floats (F : Type 0) : Type 0 where
  -- strconv.ParseFloat; none is an error.
  pub parse : Bytes → Option F
  -- `n <= 0`, `n > 100` and `n != math.Trunc(n)`.
  pub is_le_zero : F → Bool
  pub is_gt_hundred : F → Bool
  pub is_broken : F → Bool
  -- `int(math.Ceil(n * float64(total) / 100))` and `int(n)`.
  pub share : F → ℕ → ℤ
  pub to_int : F → ℤ

not_positive : Bytes → Bytes
not_positive v = quoted v ++ codes ": want a positive number of hosts or a percentage like 5%"

at_least_one : ℤ → ℤ
at_least_one n = if leb_ℤ (pos 1) n then n else pos 1

parse_number : {F : Type 0} → Floats F → Bytes → ℕ → Bool → F → ℤ ⊎ Bytes
parse_number fl v total pct n =
    if fl.is_le_zero n || (pct && fl.is_gt_hundred n)
    then inr (not_positive v)
    else (if pct
        then inl (at_least_one (fl.share n total))
        else (if fl.is_broken n
            then inr (quoted v ++ codes ": want a whole number of hosts")
            else inl (fl.to_int n)))

unfoldable pub parse_max_failures : {F : Type 0} → Floats F → Bytes → ℕ → ℤ ⊎ Bytes
unfolding parse_number at_least_one not_positive
parse_max_failures fl v total = elim (fl.parse (trim_last b'%' v)) [
  | none ↦ inr (not_positive v)
  | some n ↦ parse_number fl v total (ends_in b'%' v) n
]

-- namePattern, modePattern and varPattern.
abbrev pub is_name : Bytes → Bool
is_name s = is_shaped is_alnum (λ c. is_alnum c || (c == b'.' || (c == b'_' || c == b'-'))) 127 s

is_octal : ℕ → Bool
is_octal c = within_codes b'0' b'7' c

unfoldable pub is_mode : Bytes → Bool
unfolding is_octal
is_mode s = all_bytes is_octal s && (length s == 3 || (length s == 4 && is_prefix (codes "0") s))

abbrev pub is_variable_name : Bytes → Bool
is_variable_name s = is_shaped (λ c. is_alpha c || c == b'_') (λ c. is_alnum c || c == b'_') 63 s

unfoldable pub name_pattern : Bytes
name_pattern = codes "^[A-Za-z0-9][A-Za-z0-9._-]{0,127}$"

unfoldable pub var_pattern : Bytes
var_pattern = codes "^[A-Za-z_][A-Za-z0-9_]{0,63}$"

-- 24 hours in nanoseconds, and the greatest number of retries.
abbrev pub max_timeout : ℤ
max_timeout = pos (24 * 3600000000000)

abbrev pub max_retries : ℤ
max_retries = pos 10

abbrev pub max_regex_len : ℕ
max_regex_len = 1024
