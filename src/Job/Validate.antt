-- ===== src/Job/Validate.antt =====
-- internal/job/job.go: Validate, checkRefs and ParseMaxFailures. A job is valid when there is no
-- issue. A list in a job file that is given but empty counts as one that is not given.
pub mod Limits
pub mod Accepted
pub mod Sound
unfoldable pub use Limits.*
use remote_command_orchestra.Common.{
  ℕ, suc, ◌+◌, ◌*◌, ◌==◌, ltb, leb, Bool, true, false, not, ◌&&◌, ◌||◌, List, [], ◌∷◌, ◌++◌, Bytes,
  codes, length, is_nil, among, contains, is_prefix, quoted, decimal, Dict, lookup, Option, none,
  some, ℤ, pos, negsuc, ltb_ℤ, leb_ℤ, ◌⊎◌, inl, inr, if◌then◌else◌, is_digit, is_alpha, is_alnum,
  is_shaped, within_codes, all_bytes, ends_in, trim_last,
}
use remote_command_orchestra.Job.Template.{references}
use remote_command_orchestra.Job.Variables.{Variable, check_value}
use remote_command_orchestra.Job.Model.{Copy, Expect, JobStep, Defaults, JobFile}

abbrev pub issue_if : Bool → Bytes → List Bytes
issue_if true text = text ∷ []
issue_if false text = []

abbrev pub issue_of : Bytes → Option Bytes → List Bytes
issue_of before none = []
issue_of before (some err) = (before ++ err) ∷ []

-- A duration or a number outside `0-most`.
abbrev pub is_outside : ℤ → ℤ → Bool
is_outside n most = ltb_ℤ n (pos 0) || ltb_ℤ most n

ref_issue : Dict Variable → Bytes → Bool → Bytes → List Bytes
ref_issue variables loc allowed r = elim (lookup r variables) [
  | none ↦ (loc ++ (codes ": undeclared variable " ++ quoted r)) ∷ []
  | some v ↦ issue_if (v.sensitive && not allowed) (
      loc
      ++ (codes ": uses sensitive variable "
          ++ (quoted r ++ codes " and must be marked sensitive: true")))
]

ref_issues : Dict Variable → Bytes → Bool → List Bytes → List Bytes
ref_issues variables loc allowed [] = []
ref_issues variables loc allowed (r ∷ refs) =
    ref_issue variables loc allowed r ++ ref_issues variables loc allowed refs

-- checkRefs.
unfoldable pub check_refs : Dict Variable → Bytes → Bytes → Bool → List Bytes
unfolding ref_issues ref_issue
check_refs variables text loc allowed = elim (references text) [
  | inr err ↦ (loc ++ (codes ": " ++ err)) ∷ []
  | inl refs ↦ ref_issues variables loc allowed refs
]

pub texts_issues : Dict Variable → Bytes → Bool → List Bytes → List Bytes
texts_issues variables loc allowed [] = []
texts_issues variables loc allowed (t ∷ texts) =
    check_refs variables t loc allowed ++ texts_issues variables loc allowed texts

name_issues : Bytes → List Bytes → JobStep → List Bytes
name_issues loc seen st =
    if not (is_name st.name)
    then (loc ++ (codes ": name is required and must match " ++ name_pattern)) ∷ []
    else issue_if (among seen st.name) (loc ++ (codes ": duplicate step name " ++ quoted st.name))

abbrev pub is_given : {A : Type 0} → Option A → Bool
is_given none = false
is_given (some a) = true

-- How many of command, script and copy a step has.
unfoldable pub count_kinds : JobStep → ℕ
count_kinds st =
    (if is_nil st.command then 0 else 1)
    + ((if is_nil st.script then 0 else 1) + (if is_given st.copy then 1 else 0))

kind_issues : Bytes → JobStep → List Bytes
kind_issues loc st =
    issue_if (not (count_kinds st == 1))
      (loc ++ codes ": exactly one of command, script or copy is required")

copy_issues : Bytes → Option Copy → List Bytes
copy_issues loc none = []
copy_issues loc (some c) =
    issue_if (is_nil c.src || not (is_prefix (codes "/") c.dest))
      (loc ++ codes ": copy needs src and an absolute dest")
    ++ (issue_of (loc ++ codes ": copy.dest: ") (check_value c.dest)
        ++ issue_if (not (is_nil c.mode) && not (is_mode c.mode))
            (loc ++ (codes ": copy.mode " ++ (quoted c.mode ++ codes " must be octal like 0644"))))

timing_issues : Bytes → JobStep → List Bytes
timing_issues loc st =
    issue_if (is_outside st.timeout max_timeout || ltb_ℤ st.retry_delay (pos 0))
      (loc ++ codes ": timeout must be 0-24h0m0s and retry_delay >= 0")

pub retries_issues : Bytes → Option ℤ → List Bytes
retries_issues loc none = []
retries_issues loc (some n) =
    issue_if (is_outside n max_retries) (loc ++ codes ": retries must be 0-10")

abbrev pub has_retries : Option ℤ → Bool
has_retries none = false
has_retries (some n) = ltb_ℤ (pos 0) n

pub drop_issues : Bytes → JobStep → List Bytes
drop_issues loc st =
    issue_if ((st.reboot || st.disconnect) && is_given st.copy)
      (loc ++ codes ": reboot/disconnect apply to command and script steps")
    ++ issue_if ((st.reboot || st.disconnect) && has_retries st.retries) (
        loc
        ++ codes
            ": retries cannot be combined with reboot/disconnect (the command must not run twice)")

abbrev pub is_zero_expect : Expect → Bool
is_zero_expect e =
    not (is_given e.exit_code) && (is_nil e.contains && (is_nil e.not_contains && is_nil e.regex))

pub fire_issues : Bytes → Bool → JobStep → List Bytes
fire_issues loc is_last st =
    if not st.fire_and_forget
    then []
    else (if is_nil st.command
        then (loc ++ codes ": fire_and_forget applies to command steps") ∷ []
        else (if not is_last
            then (loc
                ++ codes
                    ": fire_and_forget must be the last step (the connection may be gone afterwards)")
              ∷ []
            else issue_if
                (st.reboot
                  || (st.disconnect
                      || (is_given st.retries || (st.sensitive || not (is_zero_expect st.expect)))))
                (loc
                  ++ codes
                      ": fire_and_forget checks nothing, so it cannot be combined with reboot, disconnect, retries, sensitive or expect")))

reconnect_issues : Bytes → JobStep → List Bytes
reconnect_issues loc st =
    issue_if
      (is_outside st.reconnect_timeout max_timeout
        || (ltb_ℤ (pos 0) st.reconnect_timeout && (not st.reboot && not st.disconnect)))
      (loc ++ codes ": reconnect_timeout needs reboot or disconnect and must be 0-24h0m0s")

exit_code_issues : Bytes → Option ℤ → List Bytes
exit_code_issues loc none = []
exit_code_issues loc (some n) =
    issue_if (is_outside n (pos 255)) (loc ++ codes ": expect.exit_code must be 0-255")

pub entries_issues : Bytes → List Bytes → List Bytes
entries_issues loc [] = []
entries_issues loc (c ∷ entries) =
    issue_if (is_nil c) (loc ++ codes ": expect contains/not_contains entries must not be empty")
    ++ entries_issues loc entries

-- The texts of a step in which variables may stand.
abbrev pub texts_of : JobStep → List Bytes
texts_of st =
    (st.command ∷ (st.expect.contains ++ st.expect.not_contains))
    ++ (elim st.copy [ none ↦ [] | some c ↦ c.dest ∷ [] ])

variable_issues : Dict Variable → List Bytes
variable_issues [] = []
variable_issues ((name, v) ∷ vs) =
    issue_if (not (is_variable_name name))
      (codes "variable " ++ (quoted name ++ (codes ": name must match " ++ var_pattern)))
    ++ (issue_if (v.sensitive && is_given v.default) (
          codes "variable " ++ (quoted name ++ codes ": sensitive variables cannot have a default"))
        ++ ((elim v.default [
          | none ↦ []
          | some d ↦
              issue_of (codes "variable " ++ (quoted name ++ codes " default: ")) (check_value d)
        ])
            ++ variable_issues vs))

defaults_issues : Defaults → List Bytes
defaults_issues d =
    issue_if (is_outside d.timeout max_timeout || ltb_ℤ d.retry_delay (pos 0))
      (codes "defaults: timeout must be 0-24h0m0s and retry_delay >= 0")
    ++ issue_if (is_outside d.retries max_retries) (codes "defaults.retries must be 0-10")

-- `compile` is regexp.Compile: the text of its error, or none.
module _ {F : Type 0} (fl : Floats F) (compile : Bytes → Option Bytes) where
  regex_issues : Bytes → Bytes → List Bytes
  regex_issues loc regex =
      if ltb max_regex_len (length regex)
      then (loc ++ codes ": expect.regex longer than 1024") ∷ []
      else issue_of (loc ++ codes ": expect.regex: ") (compile regex)

  -- The body of the loop over the steps.
  step_issues : Dict Variable → Bytes → List Bytes → Bool → JobStep → List Bytes
  step_issues variables loc seen is_last st =
      name_issues loc seen st
      ++ (kind_issues loc st
          ++ (copy_issues loc st.copy
              ++ (timing_issues loc st
                  ++ (retries_issues loc st.retries
                      ++ (drop_issues loc st
                          ++ (fire_issues loc is_last st
                              ++ (reconnect_issues loc st
                                  ++ (exit_code_issues loc st.expect.exit_code
                                      ++ (regex_issues loc st.expect.regex
                                          ++ (entries_issues loc
                                                (st.expect.contains ++ st.expect.not_contains)
                                              ++ (texts_issues variables loc st.sensitive
                                                    (texts_of st)
                                                  ++ issue_if
                                                      (contains st.expect.regex (codes "{{"))
                                                      (loc
                                                        ++ codes
                                                            ": expect.regex must not contain template references"))))))))))))

  steps_issues : Dict Variable → ℕ → List Bytes → List JobStep → List Bytes
  steps_issues variables i seen [] = []
  steps_issues variables i seen (st ∷ steps) =
      step_issues variables (codes "steps[" ++ (decimal i ++ codes "]")) seen (is_nil steps) st
      ++ steps_issues variables (suc i) (st.name ∷ seen) steps

  limit_issues : Bytes → List Bytes
  limit_issues v =
      if is_nil v
      then codes
          "max_failures is required: e.g. \"5\" hosts, \"1%\" of hosts, or \"100%\" to never stop"
        ∷ []
      else (elim (parse_max_failures fl v 1) [
        | inl n ↦ []
        | inr err ↦ (codes "max_failures: " ++ err) ∷ []
      ])

  -- Validate: the issues.
  unfoldable pub validate : JobFile → List Bytes
  unfolding steps_issues step_issues limit_issues variable_issues defaults_issues regex_issues
      texts_issues entries_issues name_issues kind_issues copy_issues timing_issues retries_issues
      drop_issues fire_issues reconnect_issues exit_code_issues name_pattern var_pattern
  validate j =
      issue_if (not (is_name j.name)) (codes "name is required and must match " ++ name_pattern)
      ++ (limit_issues j.max_failures
          ++ (defaults_issues j.defaults
              ++ (variable_issues j.variables
                  ++ (issue_if (is_nil j.steps) (codes "steps: at least one step is required")
                      ++ steps_issues j.variables 0 [] j.steps))))
