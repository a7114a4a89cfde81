-- ===== src/Runner/Step.antt =====
-- The steps of internal/runner/runner.go: attempt, check and runStep. Durations of a result are not
-- modelled, and neither are log lines.
pub mod Check
pub mod Retry
pub mod Tries
use remote_command_orchestra.Common.{
  ℕ, zero, suc, ◌+◌, Bool, true, false, not, ◌&&◌, ◌||◌, List, [], ◌∷◌, ◌++◌, Bytes, codes, is_nil,
  length, last_line, quoted, Option, none, some, ℤ, pos, negsuc, eqb_ℤ, if◌then◌else◌,
}
use remote_command_orchestra.Domain.{
  Status, success, failed, Category, command_failed, Failure, is_cancelled, is_command_failed,
  is_command_timeout, itoa, sensitive_mask,
}
use remote_command_orchestra.Credentials.Redactor.{redact}
use remote_command_orchestra.Job.Shell.{Action, Kind, remote, upload_command}
use remote_command_orchestra.Sshx.Exec.{Request, Result, found}
use remote_command_orchestra.Runner.Env.{
  Env, World, Plan, Runner, exec_on, sleep_fails, uploaded, ran,
}

pub record StepResult : Type 0 where
  pub name : Bytes
  pub kind : Kind
  pub command : Bytes
  pub status : Status
  pub attempts : ℕ
  pub exit_code : Option ℤ
  pub stdout : Bytes
  pub stderr : Bytes
  pub truncated : Bool
  pub note : Bytes
  pub category : Option Category
  pub reason : Bytes
  pub started : Bool

-- The literal with which every step result begins; the other fields have their zero value. The
-- status is set before a result is used.
abbrev pub step_result : Action → Status → StepResult
step_result a status = record {
  name = a.name;
  kind = a.kind;
  command = a.display;
  status = status;
  attempts = 0;
  exit_code = none;
  stdout = [];
  stderr = [];
  truncated = false;
  note = [];
  category = none;
  reason = [];
  started = false;
}

abbrev command_failure : Bytes → Option Failure
command_failure reason = some (record { category = command_failed; reason = reason })

-- The two loops of check; `i` is the index of the first pattern.
missing_text : Result → ℕ → List Bytes → Option Failure
missing_text res i [] = none
missing_text res i (s ∷ texts) =
    let rest = missing_text res (suc i) texts in
    if not (found res i)
    then command_failure (codes "output does not contain " ++ quoted s)
    else rest

forbidden_text : Result → ℕ → List Bytes → Option Failure
forbidden_text res i [] = none
forbidden_text res i (s ∷ texts) =
    let rest = forbidden_text res (suc i) texts in
    if found res i
    then command_failure (codes "output contains forbidden text " ++ quoted s)
    else rest

wrong_pattern : (Bytes → Bytes → Bool) → Option Bytes → Result → Option Failure
wrong_pattern matches none res = none
wrong_pattern matches (some regex) res =
    if not (matches regex res.stdout)
    then command_failure (codes "output does not match " ++ quoted regex)
    else none

abbrev or_else : Option Failure → Option Failure → Option Failure
or_else (some f) g = some f
or_else none g = g

exit_reason : Action → ℤ → Result → Bytes
exit_reason a code res =
    let line = last_line res.stderr in
    codes "exit code "
    ++ (itoa code
        ++ (codes ", expected "
            ++ (itoa a.exit_code
                ++ (if not (is_nil line) && not a.sensitive then codes ": " ++ line else []))))

check_exit : Action → Option ℤ → Result → Option Failure
check_exit a none res = command_failure (codes "remote side did not report an exit status")
check_exit a (some code) res =
    if eqb_ℤ code a.exit_code then none else command_failure (exit_reason a code res)

unfoldable pub check : (Bytes → Bytes → Bool) → Action → Result → Option Failure
unfolding check_exit exit_reason missing_text forbidden_text wrong_pattern
check matches a res = or_else (check_exit a res.exit_code res) (
    or_else (missing_text res 0 a.contains) (
      or_else (forbidden_text res (length a.contains) a.not_contains)
        (wrong_pattern matches a.regex res)))

unfoldable pub exited_zero : Option ℤ → Bool
exited_zero none = false
exited_zero (some code) = eqb_ℤ code (pos 0)

mask : Runner → Action → Bytes → Bytes
mask r a s = if a.sensitive && not (is_nil s) then sensitive_mask else redact r.secrets s

-- The number of rounds of `for try := 0; try <= retries; try++`.
abbrev pub rounds : ℤ → ℕ
rounds (pos n) = suc n
rounds (negsuc n) = 0

-- Only an outcome is worth a repetition: the command failed or ran out of time.
abbrev pub is_outcome : Option Failure → Bool
is_outcome none = false
is_outcome (some f) = is_command_failed f.category || is_command_timeout f.category

unfoldable pub finish_step : Runner → StepResult → Option Failure → StepResult
finish_step r sr none = record sr { status = success }
finish_step r sr (some f) = record sr {
  status = if is_cancelled f.category then Status.cancelled else failed;
  category = some f.category;
  reason = redact r.secrets f.reason;
}

module _ {C W : Type 0} (env : Env C W) (r : Runner) where
  -- The second half of attempt: the action's own command.
  run_command : C → Plan → Action → Bool → Bytes → World W → (Result × Option Failure) × World W
  run_command c p a sudo_pw tmp w =
      let pw = a.sudo && sudo_pw in
      let stdin : Bytes = if pw then p.auth.sudo_password ++ codes "\n" else [] in
      let req : Request = record {
        command = remote a tmp pw;
        stdin = stdin;
        timeout = a.timeout;
        max_output = r.max_output;
        patterns = a.contains ++ a.not_contains;
      } in
      let ((res, err), w') = exec_on env (ran req) c req w in
      ((res, elim err [ some f ↦ some f | none ↦ check env.matches a res ]), w')

  after_upload :
      C
      → Plan
      → Action
      → Bool
      → Result
      → Option Failure
      → World W
      → (Result × Option Failure) × World W
  after_upload c p a sudo_pw res (some f) w = ((res, some f), w)
  after_upload c p a sudo_pw res none w =
      if not (exited_zero res.exit_code) || is_nil res.stdout
      then ((res, command_failure (codes "upload to a remote temp file failed: " ++ res.stderr)), w)
      else run_command c p a sudo_pw res.stdout w

  upload : C → Plan → Action → Bool → Option Bytes → World W → (Result × Option Failure) × World W
  upload c p a sudo_pw none w = run_command c p a sudo_pw [] w
  upload c p a sudo_pw (some body) w =
      let req : Request = record {
        command = upload_command;
        stdin = body;
        timeout = a.timeout;
        max_output = 4096;
        patterns = [];
      } in
      let ((res, err), w') = exec_on env (uploaded req) c req w in
      after_upload c p a sudo_pw res err w'

  unfoldable pub attempt : C → Plan → Action → Bool → World W → (Result × Option Failure) × World W
  unfolding upload after_upload run_command exited_zero
  attempt c p a sudo_pw w = upload c p a sudo_pw a.content w

  -- The pause in front of every attempt but the first; true if it was cut short.
  pause_before : Action → ℕ → World W → Bool × World W
  pause_before a zero w = (false, w)
  pause_before a (suc try) w = sleep_fails env a.retry_delay w

  note_attempt : Action → ℕ → Result → StepResult → StepResult
  note_attempt a try res sr = record sr {
    attempts = suc try;
    exit_code = res.exit_code;
    started = res.started;
    stdout = mask r a res.stdout;
    stderr = mask r a res.stderr;
    truncated = res.truncated;
  }

  -- The loop of runStep: the rounds that are left, the number of the attempt, and what the
  -- attempts so far gave.
  try_from :
      ℕ
      → C
      → Plan
      → Action
      → Bool
      → ℕ
      → StepResult
      → Option Failure
      → World W
      → (StepResult × Option Failure) × World W
  try_from zero c p a sudo_pw try sr f w = ((sr, f), w)
  try_from (suc k) c p a sudo_pw try sr f w =
      let (cut, w1) = pause_before a try w in
      elim cut [
        | true ↦ ((sr, f), w1)
        | false ↦
            let ((res, f'), w2) = attempt c p a sudo_pw w1 in
            let sr' = note_attempt a try res sr in
            elim (is_outcome f') [
              | true ↦ try_from k c p a sudo_pw (suc try) sr' f' w2
              | false ↦ ((sr', f'), w2)
            ]
      ]

  unfoldable pub run_step :
      C → Plan → Action → Bool → World W → (StepResult × Option Failure) × World W
  unfolding try_from pause_before note_attempt mask finish_step
  run_step c p a sudo_pw w =
      let ((sr, f), w') =
        try_from (rounds a.retries) c p a sudo_pw 0 (step_result a success) none w in
      ((finish_step r sr f, f), w')
