-- ===== src/Sshx/Exec.antt =====
-- Exec of internal/sshx/exec.go: from what happens to a session to its result and its error.
-- What the SSH library and the select over the timer and the context did is the Outcome.
use remote_command_orchestra.Common.{
  ℕ, ◌+◌, ◌==◌, ◌||◌, Bool, true, false, List, [], ◌∷◌, ◌++◌, Bytes, codes, Option, none, some, ℤ,
  if◌then◌else◌,
}
use remote_command_orchestra.Domain.{Failure, Category, command_timeout, session_failed}
use remote_command_orchestra.Sshx.Buffer.{Buffer, new_buffer, write_all, found_at, to_string}

-- Timeouts and delays are in nanoseconds.
pub record Request : Type 0 where
  pub command : Bytes
  pub stdin : Bytes
  pub timeout : ℤ
  pub max_output : ℕ
  pub patterns : List Bytes

-- How a session that was opened came to its end: the exit status was reported, none was, the
-- session broke with an error, the timer fired, or the context was cancelled.
pub data Ending : Type 0 where
  exited : ℤ → Ending
  missing : Ending
  broke : Bytes → Ending
  timed_out : Ending
  cancelled : Ending

pub data Outcome : Type 0 where
  -- No session, or the command did not start.
  not_opened : Bytes → Outcome
  not_started : Bytes → Outcome
  -- The timer or the context ended the wait for the session.
  open_timed_out : Outcome
  open_cancelled : Outcome
  -- The writes to stdout and to stderr, and the end.
  ran : List Bytes → List Bytes → Ending → Outcome

-- The two buffers are none where the source has nil.
pub record Result : Type 0 where
  pub stdout : Bytes
  pub stderr : Bytes
  pub exit_code : Option ℤ
  pub truncated : Bool
  pub bytes : ℕ
  pub started : Bool
  pub buffers : Option (Buffer × Buffer)

abbrev flag : Option Bool → Bool
flag none = false
flag (some b) = b

found_in : Option (Buffer × Buffer) → ℕ → Bool
found_in none i = false
found_in (some (out, err)) i = flag (found_at out i) || flag (found_at err i)

-- Found: the pattern was seen in stdout or in stderr.
unfoldable pub found : Result → ℕ → Bool
unfolding found_in
found r i = found_in r.buffers i

-- strings.TrimRight(s, "\n").
trim_newlines : Bytes → Bytes
trim_newlines [] = []
trim_newlines (c ∷ s) = elim (trim_newlines s) [
  | [] ↦ if c == b'\n' then [] else c ∷ []
  | d ∷ t ↦ c ∷ d ∷ t
]

abbrev pub no_result : Result
no_result = record {
  stdout = [];
  stderr = [];
  exit_code = none;
  truncated = false;
  bytes = 0;
  started = false;
  buffers = none;
}

abbrev failure : Category → Bytes → Option Failure
failure c reason = some (record { category = c; reason = reason })

-- `finished` is the text of the timeout, a duration that the time package prints.
abbrev timeout_failure : Bytes → Option Failure
timeout_failure finished =
    failure command_timeout (codes "command did not finish within " ++ finished)

finish : Bytes → Ending → Result → Result × Option Failure
finish span (exited code) res = (record res { exit_code = some code }, none)
finish span missing res = (res, none)
finish span (broke text) res = (res, failure session_failed (codes "session failed: " ++ text))
finish span timed_out res = (res, timeout_failure span)
finish span cancelled res = (res, failure Category.cancelled (codes "cancelled"))

collect : Request → List Bytes → List Bytes → Result
collect req outs errs =
    let out = write_all (new_buffer req.max_output req.patterns) outs in
    let err = write_all (new_buffer req.max_output req.patterns) errs in
    record {
      stdout = trim_newlines (to_string out);
      stderr = trim_newlines (to_string err);
      exit_code = none;
      truncated = out.truncated || err.truncated;
      bytes = out.total + err.total;
      started = true;
      buffers = some (out, err);
    }

-- `span` is the timeout of the request as text.
unfoldable pub exec : Bytes → Request → Outcome → Result × Option Failure
unfolding trim_newlines finish collect
exec span req (not_opened text) =
    (no_result, failure session_failed (codes "cannot open session: " ++ text))
exec span req (not_started text) =
    (no_result, failure session_failed (codes "cannot start command: " ++ text))
exec span req open_timed_out = (no_result, timeout_failure span)
exec span req open_cancelled = (no_result, failure Category.cancelled (codes "cancelled"))
exec span req (ran outs errs ending) = finish span ending (collect req outs errs)
