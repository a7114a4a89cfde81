-- ===== src/Runner/Disconnect/Once.antt =====
-- A disconnecting step sends its command at most once, and a reboot step succeeds only on a host
-- that answered with a new boot ID.
use remote_command_orchestra.Common.{
  ◌+◌, ◌≤◌, Bool, true, false, not, ◌&&◌, Bytes, [], Option, none, some, ℤ, pos, ◌≡◌, ◌≢◌, ◌⊎◌, ◌∙◌,
  refl, ap, arith, Bool-cases, inl, inr, if◌then◌else◌,
}
use remote_command_orchestra.Domain.{Failure}
use remote_command_orchestra.Job.Shell.{Action}
use remote_command_orchestra.Runner.Env.{Env, World, Plan, Runner, runs, exec_on}
use remote_command_orchestra.Runner.Step.{StepResult, rounds, run_step}
use remote_command_orchestra.Runner.Step.Retry.{run_step-runs}
use remote_command_orchestra.Runner.Reconnect.{Waited, back, gone, boot_id, close_it, wait_for_host}
use remote_command_orchestra.Runner.Reconnect.Boot.{Rebooted, boot_id-ne-nil, wait_for_host-Sound}
use remote_command_orchestra.Runner.Disconnect.{
  Gone, is_lost, forgive, is_none, check_alive, after_wait, after_step, watched_step, no_boot_id,
  after_boot_id, run_disconnecting,
}

module _ {C W : Type 0} (env : Env C W) (r : Runner) where
  after_wait-runs :
      (a : Action) (start : ℤ) (sr : StepResult) (out : Option (Waited C) × World W)
      → (after_wait env r a start sr out).1 ≡ out.1
  unfolding after_wait
  after_wait-runs a start sr (none, w) = refl
  after_wait-runs a start sr (some (gone f), w) = refl
  after_wait-runs a start sr (some (back c), w) = refl

  check_alive-trace :
      (asked : Bool) (c : C) (w : World W) → (check_alive env r asked c w).1.trace ≡ w.trace
  unfolding check_alive
  check_alive-trace true c w = refl
  check_alive-trace false c w = refl

  after_step-runs :
      (c : C) (p : Plan) (a : Action) (old : Bytes) (sr : StepResult) (f : Option Failure)
      (w : World W)
      → runs (after_step env r c p a old sr f w).1.trace ≡ runs w.trace
  unfolding after_step
  after_step-runs c p a old sr f w =
      let lost = is_lost sr f in
      let (alive, w1) = check_alive env r (not a.reboot && not lost) c w in
      let w2 = close_it env r c w1 in
      ground (
        arith,
        ap runs (check_alive-trace (not a.reboot && not lost) c w),
        (wait_for_host-Sound env r p a.reconnect_timeout old w2).0,
        after_wait-runs a (env.now w2.state) (if lost then forgive sr else sr)
            (wait_for_host env r p a.reconnect_timeout old w2),
      )

  watched_step-runs :
      (c : C) (p : Plan) (a : Action) (pw : Bool) (old : Bytes) (w : World W)
      → runs (watched_step env r c p a pw old w).1.trace ≤ runs w.trace + rounds a.retries
  unfolding watched_step
  watched_step-runs c p a pw old w =
      let w0 = record w { state = env.watch c w.state } in
      let ((sr, f), w') = run_step env r c p a pw w0 in
      omega (
        arith,
        (run_step-runs env r c p a pw w0).0,
        after_step-runs c p a old sr f (record w' { state = env.unwatch c w'.state }),
      )

  after_boot_id-runs :
      (c : C) (p : Plan) (a : Action) (pw : Bool) (id : Bytes ⊎ Failure) (w : World W)
      → runs (after_boot_id env r c p a pw (id, w)).1.trace ≤ runs w.trace + rounds a.retries
  unfolding after_boot_id
  after_boot_id-runs c p a pw (inl id) w = watched_step-runs c p a pw id w
  after_boot_id-runs c p a pw (inr f) w = omega arith

  boot_id-keeps_runs : (c : C) (w : World W) → runs (boot_id env r c w).1.trace ≡ runs w.trace
  unfolding boot_id exec_on runs
  boot_id-keeps_runs c w = refl

  -- A step that may drop the connection sends its command at most once when its retries are 0,
  -- whatever becomes of the connection, of the wait and of the reconnection.
  pub run_disconnecting-runs :
      (c : C) (p : Plan) (a : Action) (pw : Bool) (w : World W)
      → a.retries ≡ pos 0
      → runs (run_disconnecting env r c p a pw w).1.trace ≤ runs w.trace + 1
  unfolding run_disconnecting
  run_disconnecting-runs c p a pw w once =
      let (id, w') = boot_id env r c w in
      let one : rounds a.retries ≡ 1 = ap rounds once in
      elim (Bool-cases a.reboot) [
        | inl reboots ↦
            rw (reboots, run_disconnecting)
              (omega (arith, one, boot_id-keeps_runs c w, after_boot_id-runs c p a pw id w'))
        | inr stays ↦
            rw (stays, run_disconnecting) (omega (arith, one, watched_step-runs c p a pw [] w))
      ]

  -- The step ended without a failure, on a connection to a rebooted host.
  abbrev Back : Bytes → Gone C → World W → Type 0
  Back old g w = (c : C) × (g.client ≡ some c) × Rebooted env r old c w

  after_wait-Back :
      (a : Action) (start : ℤ) (sr : StepResult) (old : Bytes) (out : Option (Waited C) × World W)
      (g : Gone C)
      → ((c : C) → out.0 ≡ some (back c) → Rebooted env r old c out.1)
      → (after_wait env r a start sr out).0 ≡ some g
      → g.failure ≡ none
      → Back old g (after_wait env r a start sr out).1
  unfolding after_wait
  after_wait-Back a start sr old (none, w) g h e ok = cc
  after_wait-Back a start sr old (some (gone f), w) g h e ok = absurd (ground arith)
  after_wait-Back a start sr old (some (back c), w) g h e ok = (c, ground arith, h c refl)

  -- A reboot step goes on to wait for the host, or ends with its own failure.
  after_step_reboot :
      (c : C) (p : Plan) (a : Action) (old : Bytes) (sr : StepResult) (f : Option Failure)
      (w : World W)
      → a.reboot ≡ true
      → (f ≢ none
          × ((after_step env r c p a old sr f w).0
              ≡ some (record { result = sr; failure = f; client = some c })))
        ⊎ ((start : ℤ) × (res : StepResult) × (after_step env r c p a old sr f w
              ≡ after_wait env r a start res
                  (wait_for_host env r p a.reconnect_timeout old (close_it env r c w))))
  unfolding after_step
  after_step_reboot c p a old sr f w reboots =
      let lost = is_lost sr f in
      let asked : (not a.reboot && not lost) ≡ false = ground arith in
      elim (Bool-cases (not (is_none f) && not lost)) [
        | inl failed ↦ inl ((λ e. ground arith), rw (failed, after_step) refl)
        | inr going ↦ inr (
          env.now (close_it env r c w).state,
          (if lost then forgive sr else sr),
          rw (going, quiet asked, after_step) (rw (quiet asked) refl),
        )
      ]
    where
      quiet :
          (not a.reboot && not (is_lost sr f)) ≡ false
          → check_alive env r (not a.reboot && not (is_lost sr f)) c w ≡ (false, w)
      quiet asked = ap (λ b. check_alive env r b c w) asked ∙ (unfold check_alive in refl)

  after_step-Back :
      (c : C) (p : Plan) (a : Action) (old : Bytes) (sr : StepResult) (f : Option Failure)
      (w : World W) (g : Gone C)
      → a.reboot ≡ true
      → old ≢ []
      → (after_step env r c p a old sr f w).0 ≡ some g
      → g.failure ≡ none
      → Back old g (after_step env r c p a old sr f w).1
  after_step-Back c p a old sr f w g reboots known e ok =
      let out = wait_for_host env r p a.reconnect_timeout old (close_it env r c w) in
      let (kept, sound) =
        wait_for_host-Sound env r p a.reconnect_timeout old (close_it env r c w) in
      elim (after_step_reboot c p a old sr f w reboots) [
        | inl (failed, own) ↦ absurd (failed (ground arith))
        | inr (start, res, waits) ↦ rw waits (
            after_wait-Back a start res old out g (λ d back_on. sound d back_on known)
              (rw waits at e) ok)
      ]

  after_boot_id-Back :
      (c : C) (p : Plan) (a : Action) (pw : Bool) (id : Bytes ⊎ Failure) (w : World W) (g : Gone C)
      → a.reboot ≡ true
      → ((old : Bytes) → id ≡ inl old → old ≢ [])
      → (after_boot_id env r c p a pw (id, w)).0 ≡ some g
      → g.failure ≡ none
      → (old : Bytes) × (id ≡ inl old) × Back old g (after_boot_id env r c p a pw (id, w)).1
  unfolding after_boot_id watched_step no_boot_id
  after_boot_id-Back c p a pw (inr f) w g reboots known e ok = absurd (ground arith)
  after_boot_id-Back c p a pw (inl old) w g reboots known e ok =
      (old, refl, after_step-Back c p a old _ _ _ g reboots (known old refl) e ok)

  -- A reboot step that ends without a failure has read the host's boot ID before it sent the
  -- command, and goes on with a connection on which the host answered with another boot ID.
  pub run_disconnecting_reboots :
      (c : C) (p : Plan) (a : Action) (pw : Bool) (w : World W) (g : Gone C)
      → a.reboot ≡ true
      → (run_disconnecting env r c p a pw w).0 ≡ some g
      → g.failure ≡ none
      → (old : Bytes) × ((boot_id env r c w).0 ≡ inl old)
        × ((d : C) × (g.client ≡ some d)
            × Rebooted env r old d (run_disconnecting env r c p a pw w).1)
  run_disconnecting_reboots c p a pw w g reboots e ok =
      let (id, w') = boot_id env r c w in
      rw reboot_branch (
        after_boot_id-Back c p a pw id w' g reboots (boot_id-ne-nil env r c w)
          (rw reboot_branch at e) ok)
    where
      reboot_branch :
          run_disconnecting env r c p a pw w ≡ after_boot_id env r c p a pw (boot_id env r c w)
      reboot_branch = unfold run_disconnecting in simp (reboots, run_disconnecting)
