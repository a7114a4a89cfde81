-- ===== src/Job/Validate/Sound.antt =====
-- A job without issues: what holds of its steps, one by one and among each other.
use remote_command_orchestra.Common.{
  ℕ, suc, ◌==◌, Bool, true, false, not, ◌||◌, List, [], ◌∷◌, ◌++◌, Bytes, codes, decimal, is_nil,
  among, Dict, Option, some, ℤ, inl, inr, ◌≡◌, ◌≢◌, ap, arith, nil-append, All, Bool-cases,
}
use remote_command_orchestra.Job.Variables.{Variable}
use remote_command_orchestra.Job.Model.{JobStep, JobFile}
use remote_command_orchestra.Job.Validate.{
  Floats, is_name, max_timeout, max_retries, issue_if, is_outside, count_kinds, texts_of,
  step_issues, steps_issues, validate, name_issues, kind_issues, copy_issues, timing_issues,
  retries_issues, drop_issues, fire_issues, reconnect_issues, exit_code_issues, regex_issues,
  entries_issues, texts_issues, defaults_issues, variable_issues, limit_issues,
}
use remote_command_orchestra.Job.Validate.Accepted.{
  Shows, Droppable, Launched, issue_if-nil, texts_issues-Shows, entries_issues-nil,
  retries_issues-nil, drop_issues-nil, fire_issues-nil,
}

-- A step that is fit to run, among the declared variables.
pub record Fit (variables : Dict Variable) (st : JobStep) : Type 0 where
  pub named : is_name st.name ≡ true
  -- It is exactly one of command, script and copy.
  pub one_kind : count_kinds st ≡ 1
  pub timed : is_outside st.timeout max_timeout ≡ false
  pub retried : (n : ℤ) → st.retries ≡ some n → is_outside n max_retries ≡ false
  -- Its command can be sent once only where it must not be sent twice.
  pub once : (st.reboot || st.disconnect) ≡ true → Droppable st
  -- No entry that would be found in any output.
  pub wanted : All (λ s. is_nil s ≡ false) (st.expect.contains ++ st.expect.not_contains)
  -- No variable that is not declared, and a sensitive one only in a sensitive step.
  pub shown : All (Shows variables st.sensitive) (texts_of st)

-- The steps behind those with the names `seen`: each is fit, has a name of its own, and is the
-- last if it is not waited for.
abbrev pub FitSteps : Dict Variable → List Bytes → List JobStep → Type 0
FitSteps variables seen [] = Unit
FitSteps variables seen (st ∷ steps) =
    Fit variables st
    × (among seen st.name ≡ false)
    × (st.fire_and_forget ≡ true → Launched (is_nil steps) st)
    × FitSteps variables (st.name ∷ seen) steps

name_issues-nil :
    (loc : Bytes) (seen : List Bytes) (st : JobStep)
    → name_issues loc seen st ≡ []
    → (is_name st.name ≡ true) × (among seen st.name ≡ false)
unfolding name_issues
name_issues-nil loc seen st e = elim (Bool-cases (is_name st.name)) [
  | inl good ↦ (good, issue_if-nil _ _ (rw (good, name_issues) at e))
  | inr bad ↦ absurd (let e' = rw (bad, name_issues) at e in ground (arith, e'))
]

one_kind_lem : (loc : Bytes) (st : JobStep) → kind_issues loc st ≡ [] → count_kinds st ≡ 1
unfolding kind_issues
one_kind_lem loc st e = ground (arith, issue_if-nil (not (count_kinds st == 1)) _ e)

module _ {F : Type 0} (fl : Floats F) (compile : Bytes → Option Bytes) where
  step_issues-Fit :
      (variables : Dict Variable) (loc : Bytes) (seen : List Bytes) (is_last : Bool) (st : JobStep)
      → step_issues fl compile variables loc seen is_last st ≡ []
      → Fit variables st
        × (among seen st.name ≡ false)
        × (st.fire_and_forget ≡ true → Launched is_last st)
  unfolding step_issues timing_issues
  step_issues-Fit variables loc seen is_last st e =
      let (names, e1) = nil-append (name_issues loc seen st) _ e in
      let (kinds, e2) = nil-append (kind_issues loc st) _ e1 in
      let (copies, e3) = nil-append (copy_issues loc st.copy) _ e2 in
      let (timing, e4) = nil-append (timing_issues loc st) _ e3 in
      let (retries, e5) = nil-append (retries_issues loc st.retries) _ e4 in
      let (drops, e6) = nil-append (drop_issues loc st) _ e5 in
      let (fires, e7) = nil-append (fire_issues loc is_last st) _ e6 in
      let (reconnects, e8) = nil-append (reconnect_issues loc st) _ e7 in
      let (codes_, e9) = nil-append (exit_code_issues loc st.expect.exit_code) _ e8 in
      let (regexes, e10) = nil-append (regex_issues fl compile loc st.expect.regex) _ e9 in
      let (entries, e11) =
        nil-append (entries_issues loc (st.expect.contains ++ st.expect.not_contains)) _ e10 in
      let (texts, e12) = nil-append (texts_issues variables loc st.sensitive (texts_of st)) _ e11 in
      let (named, fresh) = name_issues-nil loc seen st names in
      let times = issue_if-nil _ _ timing in
      (
        record {
          named = named;
          one_kind = one_kind_lem loc st kinds;
          timed = ground (arith, times);
          retried = λ n k. retries_issues-nil loc st.retries n retries k;
          once = drop_issues-nil loc st drops;
          wanted = entries_issues-nil loc (st.expect.contains ++ st.expect.not_contains) entries;
          shown = texts_issues-Shows variables loc st.sensitive (texts_of st) texts;
        },
        fresh,
        fire_issues-nil loc is_last st fires,
      )

  steps_issues-FitSteps :
      (variables : Dict Variable) (i : ℕ) (seen : List Bytes) (steps : List JobStep)
      → steps_issues fl compile variables i seen steps ≡ []
      → FitSteps variables seen steps
  unfolding steps_issues
  steps_issues-FitSteps variables i seen [] e = tt
  steps_issues-FitSteps variables i seen (st ∷ steps) e =
      let loc = codes "steps[" ++ (decimal i ++ codes "]") in
      let (here, rest) =
        nil-append (step_issues fl compile variables loc seen (is_nil steps) st) _ e in
      let (fit, fresh, fired) = step_issues-Fit variables loc seen (is_nil steps) st here in
      (fit, fresh, fired, steps_issues-FitSteps variables (suc i) (st.name ∷ seen) steps rest)

  -- A job that Validate accepts has steps, with different names. Each is exactly one of command,
  -- script and copy, its timeout and its retries are within their limits, one that may drop its
  -- connection is no copy and has no retries, one that is not waited for is a bare command and the
  -- last, and no expected text is empty. Every variable in a command, an expected text or the
  -- destination of a copy is declared, and a sensitive one occurs there in sensitive steps only.
  pub validate-FitSteps :
      (j : JobFile) → validate fl compile j ≡ [] → (j.steps ≢ []) × FitSteps j.variables [] j.steps
  unfolding validate
  validate-FitSteps j e =
      let (named, e1) = nil-append (issue_if (not (is_name j.name)) _) _ e in
      let (limits, e2) = nil-append (limit_issues fl compile j.max_failures) _ e1 in
      let (defaults, e3) = nil-append (defaults_issues j.defaults) _ e2 in
      let (variables, e4) = nil-append (variable_issues j.variables) _ e3 in
      let (some_steps, e5) = nil-append (issue_if (is_nil j.steps) _) _ e4 in
      let some_steps' = issue_if-nil (is_nil j.steps) _ some_steps in
      (
        (λ n. ground (arith, some_steps', ap is_nil n)),
        steps_issues-FitSteps j.variables 0 [] j.steps e5,
      )
