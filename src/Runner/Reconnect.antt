-- ===== src/Runner/Reconnect.antt =====
-- bootID and waitForHost of internal/runner/runner.go: reaching a host again after a reboot or a
-- network restart.
pub mod Boot
pub mod Waiting
use remote_command_orchestra.Common.{
  ℕ, zero, suc, ◌+◌, ◌-◌, ◌*◌, ◌/◌, ◌%◌, ◌^◌, ◌⊎◌, inl, inr, Bool, true, false, not, ◌&&◌, ◌||◌,
  List, [], ◌∷◌, ◌++◌, Bytes, codes, is_nil, eq_bytes, last_line, trim_space, Option, none, some, ℤ,
  pos, negsuc, ltb, leb, ltb_ℤ, ◌+ℤ◌, pos_part, eqb_ℤ, if◌then◌else◌,
}
use remote_command_orchestra.Domain.{
  Status, success, failed, Category, command_failed, connection_timeout, auth_failed,
  host_key_mismatch, host_key_unknown, Failure, is_cancelled, is_session_failed, is_command_failed,
  is_retryable, as_failure, Error, classified,
}
use remote_command_orchestra.Credentials.Redactor.{redact}
use remote_command_orchestra.Job.Shell.{Action}
use remote_command_orchestra.Sshx.Exec.{Request, Result}
use remote_command_orchestra.Runner.Env.{
  Env, World, Plan, Runner, Dialed, connected, refused, exec_on, sleep_fails, dial_plan,
  read_boot_id,
}
use remote_command_orchestra.Runner.Step.{StepResult, step_result, run_step, exited_zero}

abbrev pub boot_id_command : Bytes
boot_id_command = codes "cat /proc/sys/kernel/random/boot_id"

-- A second in nanoseconds.
abbrev second : ℕ
second = 1000000000

abbrev pub reconnect_delay : ℤ
reconnect_delay = pos (5 * second)

abbrev pub thirty_seconds : ℤ
thirty_seconds = pos (30 * second)

abbrev pub boot_id_request : Request
boot_id_request = record {
  command = boot_id_command;
  stdin = [];
  timeout = thirty_seconds;
  max_output = 4096;
  patterns = [];
}

abbrev pub fail : Category → Bytes → Failure
fail c reason = record { category = c; reason = reason }

-- Failures that no wait mends.
abbrev pub is_final : Category → Bool
is_final auth_failed = true
is_final host_key_mismatch = true
is_final host_key_unknown = true
is_final _ = false

abbrev pub cancelled_waiting : Failure
cancelled_waiting =
    fail Category.cancelled (codes "cancelled while waiting for the host to come back")

abbrev no_attempt : Failure
no_attempt = fail connection_timeout (codes "no connection attempt made")

abbrev old_boot_runs : Failure
old_boot_runs = fail connection_timeout (codes "host still runs the old boot (not rebooted yet)")

-- The failure at the deadline.
too_late : Bytes → Bool → Failure → Failure
too_late span true last = fail command_failed (
    codes "host is reachable but was not rebooted within "
    ++ (span ++ codes " (boot ID unchanged)"))
too_late span false last = fail connection_timeout (
    codes "host did not come back within "
    ++ (span ++ (codes " (last: " ++ (last.reason ++ codes ")"))))

-- A connection, or why there is none.
pub data Waited (C : Type 0) : Type 0 where
  back : C → Waited C
  gone : Failure → Waited C

module _ {C W : Type 0} (env : Env C W) (r : Runner) where
  id_of : Result → Option Failure → Bytes ⊎ Failure
  id_of res (some f) = inr f
  id_of res none =
      let id = trim_space res.stdout in
      if not (exited_zero res.exit_code) || is_nil id
      then inr
          (fail command_failed (boot_id_command ++ (codes " failed: " ++ last_line res.stderr)))
      else inl id

  unfoldable pub boot_id : C → World W → (Bytes ⊎ Failure) × World W
  unfolding id_of
  boot_id c w =
      let ((res, err), w') = exec_on env read_boot_id c boot_id_request w in (id_of res err, w')

  -- Closing a connection; the trace has no event for it.
  abbrev pub close_it : C → World W → World W
  close_it c w = record w { state = env.close c w.state }

  unfoldable pub is_old : Bytes → Bytes ⊎ Failure → Bool
  unfolding eq_bytes
  is_old old (inl id) = eq_bytes id old
  is_old old (inr f) = true

  abbrev last_of : Bytes ⊎ Failure → Failure
  last_of (inl id) = old_boot_runs
  last_of (inr f) = f

  abbrev saw_of : Bool → Bytes ⊎ Failure → Bool
  saw_of saw (inl id) = true
  saw_of saw (inr f) = saw

  -- A round of waitForHost behind its dial; `again` is the next round, from the latest failure and
  -- whether the old boot answered.
  after_dial :
      Bytes
      → Bool
      → Dialed C
      → World W
      → (Failure → Bool → World W → Option (Waited C) × World W)
      → Option (Waited C) × World W
  after_dial old saw (refused err) w again =
      let f = as_failure err in
      elim (env.is_cancelled w.state) [
        | true ↦ (some (gone cancelled_waiting), w)
        | false ↦ elim (is_final f.category) [ true ↦ (some (gone f), w) | false ↦ again f saw w ]
      ]
  after_dial old saw (connected c) w again = elim (is_nil old) [
    | true ↦ (some (back c), w)
    | false ↦
        let (id, w') = boot_id c w in
        elim (is_old old id) [
          | false ↦ (some (back c), w')
          | true ↦ again (last_of id) (saw_of saw id) (close_it c w')
        ]
  ]

  -- The loop of waitForHost: fuel, the latest failure and whether the old boot answered. `none`
  -- means that the fuel ran out.
  wait_from : ℕ → Plan → ℤ → ℤ → Bytes → Failure → Bool → World W → Option (Waited C) × World W
  wait_from zero p timeout deadline old last saw w = (none, w)
  wait_from (suc k) p timeout deadline old last saw w =
      let (cut, w1) = sleep_fails env reconnect_delay w in
      elim cut [
        | true ↦ (some (gone cancelled_waiting), w1)
        | false ↦ elim (ltb_ℤ deadline (env.now w1.state)) [
          | true ↦ (some (gone (too_late (env.show_duration timeout) saw last)), w1)
          | false ↦
              let (answer, w2) = dial_plan env p (some deadline) w1 in
              after_dial old saw answer w2 (λ f seen v. wait_from k p timeout deadline old f seen v)
        ]
      ]

  -- One round for each pause that fits into the timeout, one for the rest and one to see that the
  -- time is over.
  abbrev wait_rounds : ℤ → ℕ
  wait_rounds timeout = suc (suc (pos_part timeout / (5 * second)))

  unfoldable pub wait_for_host : Plan → ℤ → Bytes → World W → Option (Waited C) × World W
  unfolding wait_from after_dial too_late
  wait_for_host p timeout old w =
      wait_from (wait_rounds timeout) p timeout (env.now w.state +ℤ timeout) old no_attempt false w
