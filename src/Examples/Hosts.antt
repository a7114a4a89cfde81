-- ===== src/Examples/Hosts.antt =====
-- The theorems on hosts, on their connections and on the whole run, on concrete inputs.
use remote_command_orchestra.Common.{
  suc, ◌+◌, ◌*◌, ◌≤◌, ◌<◌, true, not, [], ◌∷◌, ◌++◌, codes, none, some, ℤ, pos, negsuc, ◌≡◌, ◌↔◌,
  ◌⊎◌, refl, arith, All, ◌≤ℤ◌,
}
use remote_command_orchestra.Domain.{
  Status, success, Error, classified, auth_failed, is_retryable, as_failure,
}
use remote_command_orchestra.Runner.Env.{dials, dial_plan, exec_on}
use remote_command_orchestra.Runner.Connect.{connect, backoff, retries_left, failed_with}
use remote_command_orchestra.Runner.Connect.Bounds.{
  connect-dials, connect_final, backoff_bounds, backoff_panics, attempts_of,
}
use remote_command_orchestra.Runner.Host.{HostResult, host_result, run_host, run_action}
use remote_command_orchestra.Runner.Host.Account.{
  names, action_names, is_success, all_succeeded, noted,
}
use remote_command_orchestra.Runner.Host.Outcome.{run_host_accounts}
use remote_command_orchestra.Sshx.Exec.{exec}
use remote_command_orchestra.Sshx.Buffer.{write_all, to_string, new_buffer}
use remote_command_orchestra.Credentials.Redactor.{redact}
use remote_command_orchestra.Runner.Report.{summary, is_ok, count, summary_accounts}
use remote_command_orchestra.Runner.Step.{step_result, run_step, attempt, check}
use remote_command_orchestra.Runner.Schedule.{
  Options, slots, too_many, RunState, initial, acquired, started_first, acquire, start, Steps, here,
  further,
}
use remote_command_orchestra.Runner.Schedule.Weights.{sum_runs, sum_failed}
use remote_command_orchestra.Runner.Schedule.Limits.{run_limits}
use remote_command_orchestra.Runner.Schedule.Complete.{Finished, Next, run_completes}
use remote_command_orchestra.Examples.{uptime, plan, runner, host, locked, world}

abbrev no_entry : Error
no_entry = classified (record { category = auth_failed; reason = [] })

connect-dials_example :
    let out = connect host runner plan world in
    (dials out.1.trace ≤ dials [] + suc (retries_left (pos 2)))
    × (attempts_of out.0 ≤ suc (retries_left (pos 2)))
connect-dials_example = connect-dials host runner plan world

connect_final_example :
    ((connect locked runner plan world).0 ≡ failed_with no_entry 1)
    × (dials (connect locked runner plan world).1.trace ≡ dials [] + 1)
unfolding dial_plan is_retryable as_failure
connect_final_example = connect_final locked runner plan world no_entry refl tt

backoff_bounds_example :
    (d : ℤ) × ((backoff host runner (pos 5) (pos 8) 3 world).0 ≡ some d)
    × (pos 0 ≤ℤ d)
    × (d ≤ℤ pos 8)
backoff_bounds_example =
    backoff_bounds host runner (pos 5) 8 3 world (λ bound s h. (omega arith, omega arith))

backoff_panics_example : (backoff host runner (pos 5) (negsuc 1) 0 world).0 ≡ none
backoff_panics_example = backoff_panics host runner (pos 5) 0 0 world

-- The host's result.
abbrev well : HostResult
well = record (host_result plan success) {
  connect_attempts = 1;
  steps =
      record (step_result uptime success) {
        attempts = 1;
        exit_code = some (pos 0);
        stdout = codes "id" ++ 1 ∷ [];
        started = true;
      }
      ∷ [];
}

run_host_accounts_example :
    (names well.steps ≡ action_names (uptime ∷ []))
    × ((is_success success ≡ all_succeeded well.steps) × (not (noted none) ≡ is_success success))
unfolding run_host connect dial_plan run_action run_step attempt exec_on exec check redact write_all
    to_string new_buffer
run_host_accounts_example = run_host_accounts host runner plan world well (ground arith) refl

summary_accounts_example :
    let s = summary (well ∷ []) in
    (s.success + s.failed + s.cancelled + s.skipped ≡ s.total)
    × (s.total ≡ 1)
    × (s.success ≡ count Status.success (well ∷ []))
    × (s.failed ≡ count Status.failed (well ∷ []))
    × (s.cancelled ≡ count Status.cancelled (well ∷ []))
    × (s.skipped ≡ count Status.skipped (well ∷ []))
    × ((is_ok s ≡ true) ↔ All (λ h. h.status ≡ success) (well ∷ []))
summary_accounts_example = summary_accounts (well ∷ [])

abbrev options : Options
options = record { concurrency = pos 1; max_failures = pos 1 }

abbrev beginning : RunState
beginning = initial (plan ∷ [])

-- The run in which the host's goroutine has just been started.
abbrev busy_state : RunState
busy_state = started_first (acquired beginning) plan []

busy_state-Steps : Steps options 2 beginning busy_state
unfolding slots too_many
busy_state-Steps =
    further 1 beginning (acquired beginning) busy_state
      (further 0 beginning beginning (acquired beginning) (here beginning)
        (acquire beginning plan [] refl refl (ground arith)))
      (start (acquired beginning) plan [] refl refl refl)

run_limits_example :
    (sum_runs busy_state.passed ≤ slots options)
    × (busy_state.failures ≡ sum_failed busy_state.passed)
    × (0 < 1 → busy_state.failures + sum_runs busy_state.passed < 1 + slots options)
run_limits_example = run_limits options (plan ∷ []) 2 busy_state busy_state-Steps

run_completes_example :
    (2 ≤ 4 * 1 + 2) × (Finished (plan ∷ []) busy_state ⊎ Next options busy_state)
run_completes_example = run_completes options (plan ∷ []) 2 busy_state busy_state-Steps
