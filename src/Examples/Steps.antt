-- ===== src/Examples/Steps.antt =====
-- The theorems on steps, on concrete inputs.
use remote_command_orchestra.Common.{
  ℕ, ◌+◌, ◌≤◌, Bool, true, false, List, [], ◌∷◌, ◌++◌, Bytes, codes, none, some, pos, ◌≡◌, ◌≢◌, ◌↔◌,
  inl, refl, arith, All, is_prefix, trim_space, ◌+ℤ◌,
}
use remote_command_orchestra.Domain.{Category, Status, success, Failure, sensitive_mask}
use remote_command_orchestra.Credentials.Redactor.{redact}
use remote_command_orchestra.Job.Shell.{Action}
use remote_command_orchestra.Job.Model.{
  JobStep, JobFile, Settings, build, build_step, first, retries_of, reconnect_within,
}
use remote_command_orchestra.Job.Template.{render, references}
use remote_command_orchestra.Job.Model.Once.{AllFaithful, build-Faithful}
use remote_command_orchestra.Sshx.Buffer.{to_string, write_all, new_buffer}
use remote_command_orchestra.Sshx.Exec.{Request, exited, exec}
use remote_command_orchestra.Runner.Env.{Env, runs, exec_on, sleep_fails, dial_plan}
use remote_command_orchestra.Runner.Step.{
  rounds, check, attempt, run_step, exited_zero, step_result,
}
use remote_command_orchestra.Runner.Step.Check.{outcome, Seen, check_iff}
use remote_command_orchestra.Runner.Step.Tries.{run_step_stops}
use remote_command_orchestra.Runner.Step.Retry.{run_step-runs, run_step_reports}
use remote_command_orchestra.Runner.Reconnect.{boot_id, wait_for_host, is_old}
use remote_command_orchestra.Runner.Reconnect.Boot.{Rebooted}
use remote_command_orchestra.Runner.Reconnect.Waiting.{Clock, wait_for_host_ends}
use remote_command_orchestra.Runner.Disconnect.{Gone, is_lost, run_disconnecting}
use remote_command_orchestra.Runner.Disconnect.Once.{run_disconnecting_reboots}
use remote_command_orchestra.Runner.Host.{run_action}
use remote_command_orchestra.Runner.Once.{built_runs_once}
use remote_command_orchestra.Examples.{uptime, plan, runner, host, host_with, world}

abbrev request : Request
request = record {
  command = codes "uptime";
  stdin = [];
  timeout = pos 9;
  max_output = 8;
  patterns = codes "up" ∷ [];
}

abbrev wants_up : Action
wants_up = record uptime { contains = codes "up" ∷ [] }

abbrev always : Bytes → Bytes → Bool
always p s = true

abbrev said : List Bytes
said = codes "1 u" ∷ codes "p" ∷ []

check_iff_example : (check always wants_up (outcome [] request said [] (exited (pos 0))) ≡ none) ↔ (
    (exited (pos 0) ≡ exited (pos 0))
    × All (Seen [] request said [] (exited (pos 0))) (codes "up" ∷ [])
    × All (λ s. ¬ Seen [] request said [] (exited (pos 0)) s) []
    × ((p : Bytes)
        → none ≡ some p
        → always p (outcome [] request said [] (exited (pos 0))).stdout ≡ true))
check_iff_example =
    check_iff [] request said [] (exited (pos 0)) always wants_up refl (ground arith, tt) tt

run_step-runs_example :
    let ((sr, f), w') = run_step host runner 0 plan uptime false world in
    (runs w'.trace ≤ runs [] + rounds (pos 0)) × (sr.attempts ≤ rounds (pos 0))
run_step-runs_example = run_step-runs host runner 0 plan uptime false world

-- A command with two retries; it succeeds on `host`, and fails on `broken`.
abbrev patient : Action
patient = record uptime { retries = pos 2 }

abbrev broken : Env ℕ ℕ
broken = host_with (pos 1)

run_step_reports_example :
    let ((sr, f), w') = run_step broken runner 0 plan uptime false world in
    ((sr.status ≡ success) ↔ (f ≡ none))
    × ((g : Failure)
        → f ≡ some g
        → (sr.category ≡ some g.category)
          × (sr.reason ≡ redact [] g.reason)
          × ((sr.status ≡ Status.cancelled) ↔ (g.category ≡ Category.cancelled))
          × (g.category ≢ Category.cancelled → sr.status ≡ Status.failed))
run_step_reports_example = run_step_reports broken runner 0 plan uptime false world

run_step_stops_example :
    let ((sr, f), w') = run_step host runner 0 plan patient false world in
    (sr.attempts ≡ 1)
    × (f ≡ (attempt host runner 0 plan patient false world).0.1)
    × (w' ≡ (attempt host runner 0 plan patient false world).1)
    × (runs w'.trace ≤ runs world.trace + 1)
unfolding attempt exec_on exec check sleep_fails
run_step_stops_example = run_step_stops host runner 0 plan patient false world 2 refl tt

abbrev reboot_step : JobStep
reboot_step = record {
  name = codes "re";
  command = codes "reboot";
  script = [];
  copy = none;
  sudo = none;
  expect = record { exit_code = none; contains = []; not_contains = []; regex = [] };
  timeout = pos 9;
  retries = some (pos 3);
  retry_delay = pos 0;
  continue_on_error = false;
  sensitive = true;
  reboot = true;
  disconnect = false;
  reconnect_timeout = pos 0;
  fire_and_forget = false;
  script_body = [];
}

abbrev job : JobFile
job = record {
  name = codes "restart";
  max_failures = codes "1";
  variables = [];
  defaults = record { timeout = pos 0; retries = pos 4; retry_delay = pos 0; sudo = false };
  steps = reboot_step ∷ [];
}

abbrev settings : Settings
settings = record { timeout = pos 7; retry_delay = pos 1 }

-- What Build makes of the step.
abbrev reboots : Action
reboots = record uptime {
  name = codes "re";
  display = sensitive_mask;
  shell = codes "reboot";
  content = some (codes "reboot\n");
  retry_delay = pos 1;
  sensitive = true;
  reboot = true;
  disconnect = true;
  reconnect_timeout = pos 600000000000;
}

build-Faithful_example : AllFaithful (reboot_step ∷ []) (reboots ∷ [])
unfolding build build_step render references first retries_of reconnect_within is_prefix
build-Faithful_example = build-Faithful job [] settings (reboots ∷ []) refl

built_runs_once_example :
    runs (run_action host runner 0 plan reboots false world).1.trace ≤ runs [] + 1
unfolding build_step render references first retries_of reconnect_within is_prefix
built_runs_once_example =
    built_runs_once host runner job reboot_step [] settings reboots refl refl 0 plan false world

-- A host that answers with its boot ID reboots at the first dial after the command.
abbrev rebooting : Action
rebooting = record uptime { reboot = true; disconnect = true; reconnect_timeout = pos 600000000000 }

-- What it leaves.
abbrev landed : Gone ℕ
landed = record {
  result = record (step_result rebooting success) {
    attempts = 1;
    exit_code = some (pos 0);
    stdout = codes "id" ++ 8 ∷ [];
    note = codes "host rebooted (new boot ID) and was back after ";
    started = true;
  };
  failure = none;
  client = some 5000000000;
}

run_disconnecting_reboots_example :
    (old : Bytes) × ((boot_id host runner 7 world).0 ≡ inl old)
    × ((d : ℕ) × (some 5000000000 ≡ some d)
        × Rebooted host runner old d (run_disconnecting host runner 7 plan rebooting false world).1)
unfolding run_disconnecting boot_id exec_on exec exited_zero trim_space to_string write_all
    new_buffer run_step attempt check wait_for_host sleep_fails ◌+ℤ◌ dial_plan is_old is_lost redact
run_disconnecting_reboots_example =
    run_disconnecting_reboots host runner 7 plan rebooting false world landed refl refl refl

host-Clock : Clock host runner
host-Clock = record {
  on_dial = λ p d s. omega arith;
  on_session = λ c q s. omega arith;
  on_close = λ c s. omega arith;
  on_wait = λ n s h. omega arith;
}

wait_for_host_ends_example : (wait_for_host host runner plan (pos 60) [] world).0 ≢ none
wait_for_host_ends_example = wait_for_host_ends host runner host-Clock plan (pos 60) [] world
