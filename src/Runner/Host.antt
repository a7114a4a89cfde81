-- ===== src/Runner/Host.antt =====
-- runHost of internal/runner/runner.go: one host from its connection to its result. The durations
-- of a result and log lines are not modelled.
pub mod Account
pub mod Outcome
use remote_command_orchestra.Common.{
  ℕ, suc, Bool, true, false, not, ◌&&◌, ◌||◌, List, [], ◌∷◌, ◌++◌, map, Bytes, codes, is_nil,
  Option, none, some, ℤ, if◌then◌else◌,
}
use remote_command_orchestra.Domain.{
  Status, success, failed, skipped, Category, Failure, is_cancelled, is_session_failed, as_failure,
  addr,
}
use remote_command_orchestra.Credentials.Redactor.{redact}
use remote_command_orchestra.Job.Shell.{Action}
use remote_command_orchestra.Sshx.Exec.{Request}
use remote_command_orchestra.Runner.Env.{Env, World, Plan, Runner, exec_on, probed_sudo}
use remote_command_orchestra.Runner.Step.{StepResult, step_result, run_step, exited_zero}
use remote_command_orchestra.Runner.Reconnect.{thirty_seconds, close_it}
use remote_command_orchestra.Runner.Disconnect.{Gone, exit_unknown, forgive, run_disconnecting}
use remote_command_orchestra.Runner.Connect.{Connection, linked, failed_with, panicked, connect}

pub record HostResult : Type 0 where
  pub host : Bytes
  pub address : Bytes
  pub status : Status
  pub failed_step : Bytes
  pub category : Option Category
  pub reason : Bytes
  pub connect_attempts : ℕ
  pub steps : List StepResult

abbrev pub host_result : Plan → Status → HostResult
host_result p status = record {
  host = p.target.endpoint.name;
  address = addr p.target.endpoint;
  status = status;
  failed_step = [];
  category = none;
  reason = [];
  connect_attempts = 0;
  steps = [];
}

abbrev pub skip : Action → StepResult
skip a = step_result a skipped

-- A result for a host that was never started.
unfoldable pub not_started : Plan → Status → Bytes → HostResult
not_started p status reason = record (host_result p status) {
  reason = reason;
  category = elim status [ Status.cancelled ↦ some Category.cancelled | _ ↦ none ];
  steps = map skip p.actions;
}

-- The closure fail: the first failure decides the host's result.
mark_failed : Runner → HostResult → Option Category → Failure → Bytes → HostResult
mark_failed r h none f step = record h {
  category = some f.category;
  reason = redact r.secrets f.reason;
  failed_step = step;
  status = if is_cancelled f.category then Status.cancelled else failed;
}
mark_failed r h (some c) f step = h

unfoldable pub fail_host : Runner → HostResult → Failure → Bytes → HostResult
unfolding mark_failed
fail_host r h f step = mark_failed r h h.category f step

-- A failure that a command may cause by cutting its own connection while it starts.
abbrev cut_itself : StepResult → Option Failure → Bool
cut_itself sr none = false
cut_itself sr (some f) =
    sr.started
    && not (is_cancelled f.category)
    && (is_session_failed f.category || exit_unknown sr.exit_code)

with_note : StepResult → Option Failure → StepResult
with_note sr none = record sr { note = codes "started; result not checked (fire and forget)" }
with_note sr (some f) = sr

-- The fire_and_forget case of the switch, behind the step.
forget : {C : Type 0} → C → StepResult → Option Failure → Gone C
forget c sr f =
    let cut = cut_itself sr f in
    let f' = if cut then none else f in
    let sr' = if cut then forgive sr else sr in
    record { result = with_note sr' f'; failure = f'; client = some c }

abbrev has_client : {C : Type 0} → Option C → Bool
has_client none = false
has_client (some c) = true

-- Whether the host stops behind a step.
pub stops : {C : Type 0} → Action → Gone C → Bool
stops a g = elim g.failure [
  | none ↦ false
  | some f ↦
      not a.continue_on_error
      || (not (has_client g.client) || (is_cancelled f.category || is_session_failed f.category))
]

pub note_step : {C : Type 0} → Runner → Action → HostResult → Gone C → HostResult
note_step r a h g =
    let h' = record h { steps = h.steps ++ g.result ∷ [] } in
    elim g.failure [ none ↦ h' | some f ↦ fail_host r h' f a.name ]

module _ {C W : Type 0} (env : Env C W) (r : Runner) where
  any_sudo : List Action → Bool
  any_sudo [] = false
  any_sudo (a ∷ actions) = a.sudo || any_sudo actions

  -- needsSudoPassword.
  unfoldable pub needs_sudo_password : C → Plan → World W → Bool × World W
  unfolding any_sudo
  needs_sudo_password c p w =
      if is_nil p.auth.sudo_password || not (any_sudo p.actions)
      then (false, w)
      else (let req : Request = record {
        command = codes "sudo -n true";
        stdin = [];
        timeout = thirty_seconds;
        max_output = 4096;
        patterns = [];
      } in
          let ((res, err), w') = exec_on env probed_sudo c req w in
          (elim err [ some f ↦ true | none ↦ not (exited_zero res.exit_code) ], w'))

  as_gone : C → (StepResult × Option Failure) × World W → Option (Gone C) × World W
  as_gone c ((sr, f), w) = (some (record { result = sr; failure = f; client = some c }), w)

  as_forgotten : C → (StepResult × Option Failure) × World W → Option (Gone C) × World W
  as_forgotten c ((sr, f), w) = (some (forget c sr f), w)

  -- The switch of runHost; `none` where the wait of a disconnecting step ran out of rounds.
  unfoldable pub run_action : C → Plan → Action → Bool → World W → Option (Gone C) × World W
  unfolding as_gone as_forgotten forget with_note
  run_action c p a pw w = elim a.disconnect [
    | true ↦ run_disconnecting env r c p a pw w
    | false ↦ elim a.fire_and_forget [
      | true ↦ as_forgotten c (run_step env r c p a pw w)
      | false ↦ as_gone c (run_step env r c p a pw w)
    ]
  ]

  -- The end of runHost: the connection that is left is closed.
  close_left : Option C → World W → World W
  close_left none w = w
  close_left (some c) w = close_it env r c w

  -- The loop over the actions: the connection, if any, whether the host stopped, and its result.
  actions_from :
      List Action
      → Plan
      → Bool
      → Option C
      → Bool
      → HostResult
      → World W
      → Option HostResult × World W
  actions_from [] p pw client stopped h w = (some h, close_left client w)
  actions_from (a ∷ actions) p pw client true h w =
      actions_from actions p pw client true (record h { steps = h.steps ++ skip a ∷ [] }) w
  actions_from (a ∷ actions) p pw none false h w = (none, w)
  actions_from (a ∷ actions) p pw (some c) false h w =
      let (step, w') = run_action c p a pw w in
      elim step [
        | none ↦ (none, w')
        | some g ↦ actions_from actions p pw g.client (stops a g) (note_step r a h g) w'
      ]

  after_connect : Plan → Connection C × World W → Option HostResult × World W
  after_connect p (linked c n, w) =
      let (pw, w') = needs_sudo_password c p w in
      actions_from p.actions p pw (some c) false
        (record (host_result p success) { connect_attempts = n }) w'
  after_connect p (failed_with err n, w) =
      let h =
        fail_host r (record (host_result p success) { connect_attempts = n }) (as_failure err) [] in
      (some (record h { steps = h.steps ++ map skip p.actions }), w)
  after_connect p (panicked, w) = (none, w)

  -- `none` stands for the panic of backoff, and for a wait whose rounds ran out.
  unfoldable pub run_host : Plan → World W → Option HostResult × World W
  unfolding after_connect actions_from close_left stops note_step
  run_host p w = after_connect p (connect env r p w)
