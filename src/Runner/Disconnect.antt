-- ===== src/Runner/Disconnect.antt =====
-- runDisconnecting of internal/runner/runner.go: a step that may drop the connection.
pub mod Once
pub mod Report
use remote_command_orchestra.Common.{
  Bool, true, false, not, ◌&&◌, ◌||◌, ◌⊎◌, inl, inr, ◌++◌, [], Bytes, codes, Option, none, some, ℤ,
  if◌then◌else◌,
}
use remote_command_orchestra.Domain.{
  Status, success, failed, Failure, is_cancelled, is_session_failed, is_command_failed,
}
use remote_command_orchestra.Credentials.Redactor.{redact}
use remote_command_orchestra.Job.Shell.{Action}
use remote_command_orchestra.Runner.Env.{Env, World, Plan, Runner}
use remote_command_orchestra.Runner.Step.{StepResult, step_result, run_step}
use remote_command_orchestra.Runner.Reconnect.{
  Waited, back, gone, fail, boot_id, close_it, wait_for_host,
}

-- A step's connection was lost: the command had started and the session broke, or it ended
-- without an exit status.
abbrev pub exit_unknown : Option ℤ → Bool
exit_unknown none = true
exit_unknown (some code) = false

unfoldable pub is_lost : StepResult → Option Failure → Bool
is_lost sr none = false
is_lost sr (some f) =
    sr.started
    && (is_session_failed f.category || (is_command_failed f.category && exit_unknown sr.exit_code))

unfoldable pub forgive : StepResult → StepResult
forgive sr = record sr { status = success; category = none; reason = [] }

-- What a disconnecting step gives: its result, its failure and the connection to go on with,
-- none where the source has nil.
pub record Gone (C : Type 0) : Type 0 where
  pub result : StepResult
  pub failure : Option Failure
  pub client : Option C

abbrev is_none : Option Failure → Bool
is_none none = true
is_none (some f) = false

module _ {C W : Type 0} (env : Env C W) (r : Runner) where
  -- `asked && sshx.Alive(...)`: the host is asked only if the left side holds.
  check_alive : Bool → C → World W → Bool × World W
  check_alive false c w = (false, w)
  check_alive true c w = let (answer, s) = env.alive c w.state in (answer, record w { state = s })

  give_up : StepResult → Failure → StepResult
  give_up sr wf = record sr {
    status = if is_cancelled wf.category then Status.cancelled else failed;
    category = some wf.category;
    reason = redact r.secrets wf.reason;
  }

  welcome : Action → ℤ → StepResult → World W → StepResult
  welcome a start sr w =
      let span = env.show_elapsed start (env.now w.state) in
      record sr {
        note =
            if a.reboot
            then codes "host rebooted (new boot ID) and was back after " ++ span
            else codes "connection closed as expected; host back after " ++ span;
      }

  after_wait : Action → ℤ → StepResult → Option (Waited C) × World W → Option (Gone C) × World W
  after_wait a start sr (none, w) = (none, w)
  after_wait a start sr (some (gone wf), w) =
      (some (record { result = give_up sr wf; failure = some wf; client = none }), w)
  after_wait a start sr (some (back nc), w) =
      (some (record { result = welcome a start sr w; failure = none; client = some nc }), w)

  -- The part of runDisconnecting behind the step itself.
  after_step :
      C → Plan → Action → Bytes → StepResult → Option Failure → World W → Option (Gone C) × World W
  after_step c p a old sr f w =
      let lost = is_lost sr f in
      elim (not (is_none f) && not lost) [
        | true ↦ (some (record { result = sr; failure = f; client = some c }), w)
        | false ↦
            let sr' = if lost then forgive sr else sr in
            let (alive, w1) = check_alive (not a.reboot && not lost) c w in
            elim alive [
              | true ↦ (some (record { result = sr'; failure = none; client = some c }), w1)
              | false ↦
                  let w2 = close_it env r c w1 in
                  after_wait a (env.now w2.state) sr'
                    (wait_for_host env r p a.reconnect_timeout old w2)
            ]
      ]

  -- The step itself, under KeepAlive.
  watched_step : C → Plan → Action → Bool → Bytes → World W → Option (Gone C) × World W
  watched_step c p a sudo_pw old w =
      let ((sr, f), w') = run_step env r c p a sudo_pw (record w { state = env.watch c w.state }) in
      after_step c p a old sr f (record w' { state = env.unwatch c w'.state })

  no_boot_id : C → Action → Failure → Gone C
  no_boot_id c a f =
      let f' = fail f.category (codes "cannot read the boot ID before rebooting: " ++ f.reason) in
      record {
        result = record (step_result a failed) {
          category = some f'.category;
          reason = redact r.secrets f'.reason;
        };
        failure = some f';
        client = some c;
      }

  after_boot_id : C → Plan → Action → Bool → (Bytes ⊎ Failure) × World W → Option (Gone C) × World W
  after_boot_id c p a sudo_pw (inr f, w) = (some (no_boot_id c a f), w)
  after_boot_id c p a sudo_pw (inl id, w) = watched_step c p a sudo_pw id w

  unfoldable pub run_disconnecting : C → Plan → Action → Bool → World W → Option (Gone C) × World W
  unfolding after_boot_id no_boot_id watched_step after_step after_wait welcome give_up check_alive
  run_disconnecting c p a sudo_pw w = elim a.reboot [
    | true ↦ after_boot_id c p a sudo_pw (boot_id env r c w)
    | false ↦ watched_step c p a sudo_pw [] w
  ]
