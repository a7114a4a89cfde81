-- ===== src/Job/Variables/Printable.antt =====
-- What CheckValue tells of a value that it accepts.
use remote_command_orchestra.Common.{
  ℕ, ◌==◌, ◌≤◌, Bytes, [], ◌∷◌, none, All, ◌⊎◌, ◌≡◌, ◌≢◌, inl, inr, arith, Bool-cases, false,
}
use remote_command_orchestra.Job.Variables.{is_control, check_value}

-- A byte that is no control character other than a tab.
abbrev pub IsPrintable : ℕ → Type 0
IsPrintable c = ((32 ≤ c) ⊎ (c ≡ 9)) × (c ≢ 127)

is_control-IsPrintable : (c : ℕ) → is_control c ≡ false → IsPrintable c
unfolding is_control
is_control-IsPrintable c e = elim (Bool-cases (c == 9)) [
  | inl tab ↦ (inr (ground arith), λ h. ground arith)
  | inr other ↦ (inl (ground arith), λ h. ground arith)
]

pub check_value-IsPrintable : (v : Bytes) → check_value v ≡ none → All IsPrintable v
unfolding check_value
check_value-IsPrintable [] e = tt
check_value-IsPrintable (c ∷ v) e = elim (Bool-cases (is_control c)) [
  | inl bad ↦ absurd (let e' = rw (bad) at e in ground (arith, e'))
  | inr fine ↦ (is_control-IsPrintable c fine, check_value-IsPrintable v (rw (fine) at e))
]
