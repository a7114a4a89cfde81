-- ===== src/Runner/Once.antt =====
-- A job's command that may drop its connection, or is not waited for, from Build to the host.
use remote_command_orchestra.Common.{
  ◌+◌, ◌≤◌, Bool, true, ◌||◌, Bytes, Dict, pos, inl, inr, ◌≡◌, ap, arith, Bool-cases,
}
use remote_command_orchestra.Job.Shell.{Action}
use remote_command_orchestra.Job.Model.{JobStep, JobFile, Settings, build_step}
use remote_command_orchestra.Job.Model.Once.{build_step-Faithful}
use remote_command_orchestra.Runner.Env.{Env, World, Plan, Runner, runs}
use remote_command_orchestra.Runner.Step.{rounds}
use remote_command_orchestra.Runner.Step.Retry.{run_step-runs}
use remote_command_orchestra.Runner.Disconnect.Once.{run_disconnecting-runs}
use remote_command_orchestra.Runner.Host.{run_action}

module _ {C W : Type 0} (env : Env C W) (r : Runner) where
  run_action-runs :
      (c : C) (p : Plan) (a : Action) (pw : Bool) (w : World W)
      → a.retries ≡ pos 0
      → runs (run_action env r c p a pw w).1.trace ≤ runs w.trace + 1
  unfolding run_action
  run_action-runs c p a pw w once =
      let stepped = (run_step-runs env r c p a pw w).0 in
      let one : rounds a.retries ≡ 1 = ap rounds once in
      elim (Bool-cases a.disconnect) [
        | inl drops ↦ rw (drops, run_action) (run_disconnecting-runs env r c p a pw w once)
        | inr keeps ↦ elim (Bool-cases a.fire_and_forget) [
          | inl fires ↦ rw (keeps, fires, run_action) (omega (arith, stepped, one))
          | inr waits ↦ rw (keeps, waits, run_action) (omega (arith, stepped, one))
        ]
      ]

  -- A step that reboots the host, may drop the connection or is not waited for sends its command
  -- to the host at most once, whatever retries the step or the job's defaults ask for, and whatever
  -- the network and the host do.
  pub built_runs_once :
      (j : JobFile) (st : JobStep) (vars : Dict Bytes) (s : Settings) (a : Action)
      → build_step j st vars s ≡ inl a
      → ((st.reboot || st.disconnect) || st.fire_and_forget) ≡ true
      → (c : C) (p : Plan) (pw : Bool) (w : World W)
      → runs (run_action env r c p a pw w).1.trace ≤ runs w.trace + 1
  built_runs_once j st vars s a e once c p pw w =
      let k = (build_step-Faithful j st vars s a e).0 in
      run_action-runs c p a pw w (k.4 (ground (arith, k.2, k.3, once)))
