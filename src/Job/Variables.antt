-- ===== src/Job/Variables.antt =====
-- internal/job/variables.go: CheckValue and Resolve, the values of a job's variables for a host.
pub mod Printable
pub mod Precedence
pub mod Levels
use remote_command_orchestra.Common.{
  sort_texts, ℕ, ◌==◌, ◌+◌, ◌-◌, ◌%◌, ◌/◌, ltb, Bool, true, false, not, ◌&&◌, ◌||◌, List, [], ◌∷◌,
  ◌++◌, Bytes, codes, is_nil, Dict, lookup, insert, insert_all, quoted, Option, none, some,
  if◌then◌else◌, ◌⊎◌, inl, inr,
}

pub record Variable : Type 0 where
  pub required : Bool
  pub default : Option Bytes
  pub sensitive : Bool

-- The sources of the values for one host.
pub record Inputs : Type 0 where
  pub host : Dict Bytes
  pub job : Dict Bytes
  pub job_env : Dict Bytes

is_control : ℕ → Bool
is_control c = (ltb c 32 && not (c == 9)) || c == 127

-- The two digits of `%U` for a control character.
hex_of : ℕ → ℕ
hex_of d = if ltb d 10 then b'0' + d else b'A' + (d - 10)

-- CheckValue: the error of the first control character. A byte of a longer UTF-8 sequence is none.
unfoldable pub check_value : Bytes → Option Bytes
unfolding is_control hex_of
check_value [] = none
check_value (c ∷ v) =
    let rest = check_value v in
    if is_control c
    then some
        (codes "value contains control character U+00" ++ hex_of (c / 16) ∷ hex_of (c % 16) ∷ [])
    else rest

-- What Resolve collects.
pub record Resolved : Type 0 where
  pub vars : Dict Bytes
  pub secrets : List Bytes
  pub issues : List Bytes

defaults_into : Dict Variable → Dict Bytes → Dict Bytes
defaults_into [] vars = vars
defaults_into ((name, d) ∷ ds) vars =
    defaults_into ds (elim d.default [ none ↦ vars | some v ↦ insert name v vars ])

env_step : Bytes → Bytes → Option Bytes → Resolved → Resolved
env_step k env_name none acc = record acc {
  issues =
      acc.issues
      ++ (codes "variable "
          ++ (quoted k ++ (codes ": environment variable " ++ (env_name ++ codes " is not set"))))
        ∷ [];
}
env_step k env_name (some v) acc = record acc {
  vars = insert k v acc.vars;
  secrets = acc.secrets ++ v ∷ [];
}

env_into : (Bytes → Option Bytes) → Dict Bytes → Resolved → Resolved
unfolding env_step
env_into get [] acc = acc
env_into get ((k, env_name) ∷ src) acc = env_into get src (env_step k env_name (get env_name) acc)

value_issues : Dict Bytes → List Bytes
value_issues [] = []
value_issues ((k, v) ∷ vars) = elim (check_value v) [
  | none ↦ value_issues vars
  | some err ↦ (codes "variable " ++ (quoted k ++ (codes ": " ++ err))) ∷ value_issues vars
]

abbrev is_set : Option Bytes → Bool
is_set none = false
is_set (some v) = true

-- `vars[name]`, the empty string if the map has no such key.
abbrev value_of : Bytes → Dict Bytes → Bytes
value_of name vars = elim (lookup name vars) [ none ↦ [] | some v ↦ v ]

literal_issue : Inputs → Bytes → Variable → List Bytes
literal_issue i name d =
    if d.sensitive && (is_set (lookup name i.job) || is_set (lookup name i.host))
    then (codes "sensitive variable "
        ++ (quoted name ++ codes " must be passed with --var-env, not as a literal"))
      ∷ []
    else []

required_issue : Dict Bytes → Bytes → Variable → List Bytes
required_issue vars name d =
    if d.required && is_nil (value_of name vars)
    then (codes "required variable " ++ (quoted name ++ codes " is not set")) ∷ []
    else []

pub declared : Inputs → Dict Variable → Resolved → Resolved
declared i [] acc = acc
declared i ((name, d) ∷ ds) acc =
    let v = value_of name acc.vars in
    declared i ds (record acc {
      issues = acc.issues ++ (literal_issue i name d ++ required_issue acc.vars name d);
      secrets = if d.sensitive && not (is_nil v) then acc.secrets ++ v ∷ [] else acc.secrets;
    })

-- The values and the issues before the declarations are gone through.
abbrev gathered : Dict Variable → Inputs → (Bytes → Option Bytes) → Resolved
gathered ds i get =
    let literal = insert_all i.job (insert_all i.host (defaults_into ds [])) in
    let acc = env_into get i.job_env (record { vars = literal; secrets = []; issues = [] }) in
    record acc { issues = acc.issues ++ value_issues acc.vars }

abbrev settle : Resolved → (Dict Bytes × List Bytes) ⊎ List Bytes
settle acc = elim acc.issues [
  | [] ↦ inl (acc.vars, acc.secrets)
  | e ∷ es ↦ inr (sort_texts (e ∷ es))
]

-- Resolve: the values and the secrets, or the sorted issues. `get` is lookup, the process
-- environment.
unfoldable pub resolve :
    Dict Variable → Inputs → (Bytes → Option Bytes) → (Dict Bytes × List Bytes) ⊎ List Bytes
unfolding declared literal_issue required_issue value_issues env_into defaults_into
resolve ds i get = settle (declared i ds (gathered ds i get))
