-- ===== src/Runner/Disconnect/Report.antt =====
-- The result of a disconnecting step is a success exactly when the step gives no failure.
use remote_command_orchestra.Common.{
  Bool, false, not, ◌&&◌, Bytes, [], Option, none, some, ℤ, ◌≡◌, ◌⊎◌, refl, subst, some-injective,
  arith, Bool-cases, inl, inr, if◌then◌else◌,
}
use remote_command_orchestra.Domain.{success, Failure}
use remote_command_orchestra.Job.Shell.{Action}
use remote_command_orchestra.Runner.Env.{Env, World, Plan, Runner}
use remote_command_orchestra.Runner.Step.{StepResult, run_step}
use remote_command_orchestra.Runner.Step.Retry.{Reports, run_step-Reports}
use remote_command_orchestra.Runner.Reconnect.{Waited, back, gone, boot_id, close_it, wait_for_host}
use remote_command_orchestra.Runner.Disconnect.{
  Gone, is_lost, forgive, is_none, check_alive, after_wait, welcome, give_up, after_step,
  watched_step, no_boot_id, after_boot_id, run_disconnecting,
}

pub kept :
    {C : Type 0} (a : Action) (x g : Gone C)
    → Reports a x.result x.failure
    → some x ≡ some g
    → Reports a g.result g.failure
kept a x g h e = subst (λ k. Reports a k.result k.failure) (some-injective x g e) h

module _ {C W : Type 0} (env : Env C W) (r : Runner) where
  after_wait-Reports :
      (a : Action) (start : ℤ) (sr : StepResult) (out : Option (Waited C) × World W) (g : Gone C)
      → (sr.name ≡ a.name) × (sr.status ≡ success)
      → (after_wait env r a start sr out).0 ≡ some g
      → Reports a g.result g.failure
  unfolding after_wait welcome give_up
  after_wait-Reports a start sr (none, w) g h e = cc
  after_wait-Reports a start sr (some (gone f), w) g h e =
      (ground arith, (λ s. ground arith, λ s. ground arith))
  after_wait-Reports a start sr (some (back c), w) g h e =
      (ground arith, (λ s. ground arith, λ s. ground arith))

  survivor :
      (a : Action) (sr : StepResult) (f : Option Failure)
      → Reports a sr f
      → (not (is_none f) && not (is_lost sr f)) ≡ false
      → let sr' = if is_lost sr f then forgive sr else sr in
        (sr'.name ≡ a.name) × (sr'.status ≡ success)
  unfolding forgive is_lost
  survivor a sr none h e = (h.0, h.1.1 refl)
  survivor a sr (some f) h e = ground arith

  after_step-Reports :
      (c : C) (p : Plan) (a : Action) (old : Bytes) (sr : StepResult) (f : Option Failure)
      (w : World W) (g : Gone C)
      → Reports a sr f
      → (after_step env r c p a old sr f w).0 ≡ some g
      → Reports a g.result g.failure
  unfolding after_step
  after_step-Reports c p a old sr f w g h e =
      let lost = is_lost sr f in
      let (alive, w1) = check_alive env r (not a.reboot && not lost) c w in
      let w2 = close_it env r c w1 in
      let out = wait_for_host env r p a.reconnect_timeout old w2 in
      elim (Bool-cases (not (is_none f) && not lost)) [
        | inl broken ↦
            kept a (record { result = sr; failure = f; client = some c }) g h
              (rw (broken, after_step) at e)
        | inr going ↦ elim (Bool-cases alive) [
          | inl here ↦
              let h' = survivor a sr f h going in
              kept a
                (record {
                  result = if lost then forgive sr else sr;
                  failure = none;
                  client = some c;
                })
                g (h'.0, (λ s. refl, λ s. h'.1)) (rw (going, here, after_step) at e)
          | inr away ↦
              after_wait-Reports a (env.now w2.state) (if lost then forgive sr else sr) out g
                (survivor a sr f h going) (rw (going, away, after_step) at e)
        ]
      ]

  watched_step-Reports :
      (c : C) (p : Plan) (a : Action) (pw : Bool) (old : Bytes) (w : World W) (g : Gone C)
      → (watched_step env r c p a pw old w).0 ≡ some g
      → Reports a g.result g.failure
  unfolding watched_step
  watched_step-Reports c p a pw old w g e =
      let w0 = record w { state = env.watch c w.state } in
      let ((sr, f), w') = run_step env r c p a pw w0 in
      after_step-Reports c p a old sr f (record w' { state = env.unwatch c w'.state }) g
        (run_step-Reports env r c p a pw w0) e

  after_boot_id-Reports :
      (c : C) (p : Plan) (a : Action) (pw : Bool) (id : (Bytes ⊎ Failure) × World W) (g : Gone C)
      → (after_boot_id env r c p a pw id).0 ≡ some g
      → Reports a g.result g.failure
  unfolding after_boot_id no_boot_id
  after_boot_id-Reports c p a pw (inl old, w) g e = watched_step-Reports c p a pw old w g e
  after_boot_id-Reports c p a pw (inr f, w) g e =
      kept a (no_boot_id env r c a f) g (refl, (λ s. ground arith, λ s. ground arith)) e

  -- A disconnecting step's result carries its action's name, and is a success exactly when the
  -- step gives no failure.
  pub run_disconnecting-Reports :
      (c : C) (p : Plan) (a : Action) (pw : Bool) (w : World W) (g : Gone C)
      → (run_disconnecting env r c p a pw w).0 ≡ some g
      → Reports a g.result g.failure
  unfolding run_disconnecting
  run_disconnecting-Reports c p a pw w g e = elim (Bool-cases a.reboot) [
    | inl boots ↦
        after_boot_id-Reports c p a pw (boot_id env r c w) g (rw (boots, run_disconnecting) at e)
    | inr stays ↦ watched_step-Reports c p a pw [] w g (rw (stays, run_disconnecting) at e)
  ]
