-- ===== src/Runner/Step/Tries.antt =====
-- When a step ends with its first attempt, and when it uses all its attempts.
use remote_command_orchestra.Common.{
  ℕ, suc, ◌+◌, ◌≤◌, Bool, false, Option, none, some, pos, ◌≡◌, ◌||◌, refl, ap, ◌∙◌, arith,
}
use remote_command_orchestra.Domain.{
  success, Failure, Category, is_command_failed, is_command_timeout,
}
use remote_command_orchestra.Job.Shell.{Action}
use remote_command_orchestra.Runner.Env.{Env, World, Plan, Runner, runs}
use remote_command_orchestra.Runner.Step.{
  StepResult, step_result, rounds, is_outcome, finish_step, attempt, pause_before, note_attempt,
  try_from, run_step,
}
use remote_command_orchestra.Runner.Step.Retry.{attempt-runs}

-- After such a failure a step is not tried again.
abbrev pub Ending : Category → Type 0
Ending Category.command_failed = ⊥
Ending Category.command_timeout = ⊥
Ending _ = Unit

-- How an attempt ends that is the last one in any case.
abbrev pub Settled : Option Failure → Type 0
Settled none = Unit
Settled (some f) = Ending f.category

Ending-is_outcome :
    (c : Category) → Ending c → (is_command_failed c || is_command_timeout c) ≡ false
Ending-is_outcome Category.connection_timeout h = refl
Ending-is_outcome Category.connection_refused h = refl
Ending-is_outcome Category.dns_failure h = refl
Ending-is_outcome Category.auth_failed h = refl
Ending-is_outcome Category.host_key_mismatch h = refl
Ending-is_outcome Category.host_key_unknown h = refl
Ending-is_outcome Category.handshake_failed h = refl
Ending-is_outcome Category.session_failed h = refl
Ending-is_outcome Category.command_timeout h = absurd h
Ending-is_outcome Category.command_failed h = absurd h
Ending-is_outcome Category.template_error h = refl
Ending-is_outcome Category.cancelled h = refl
Ending-is_outcome Category.internal_error h = refl

Settled-is_outcome : (f : Option Failure) → Settled f → is_outcome f ≡ false
Settled-is_outcome none h = refl
Settled-is_outcome (some f) h = Ending-is_outcome f.category h

module _ {C W : Type 0} (env : Env C W) (r : Runner) where
  finish_step-attempts :
      (sr : StepResult) (f : Option Failure) → (finish_step r sr f).attempts ≡ sr.attempts
  unfolding finish_step
  finish_step-attempts sr none = refl
  finish_step-attempts sr (some f) = refl

  try_from_stops :
      (k : ℕ) (c : C) (p : Plan) (a : Action) (pw : Bool) (sr : StepResult) (f : Option Failure)
      (w : World W)
      → is_outcome (attempt env r c p a pw w).0.1 ≡ false
      → let ((res, f'), w') = attempt env r c p a pw w in
        try_from env r (suc k) c p a pw 0 sr f w ≡ ((note_attempt env r a 0 res sr, f'), w')
  unfolding try_from pause_before
  try_from_stops k c p a pw sr f w h = rw (h, try_from)

  -- For retries that are not negative: when the first attempt ends without a failure, or with one
  -- of any category but COMMAND_FAILED and COMMAND_TIMEOUT (a broken session and a cancellation
  -- among them), the step ends with it: one attempt is reported, the attempt's failure is the
  -- step's, nothing happens after it, and the command was sent at most once.
  pub run_step_stops :
      (c : C) (p : Plan) (a : Action) (pw : Bool) (w : World W) (n : ℕ)
      → a.retries ≡ pos n
      → Settled (attempt env r c p a pw w).0.1
      → let ((sr, f), w') = run_step env r c p a pw w in
        (sr.attempts ≡ 1)
        × (f ≡ (attempt env r c p a pw w).0.1)
        × (w' ≡ (attempt env r c p a pw w).1)
        × (runs w'.trace ≤ runs w.trace + 1)
  unfolding run_step note_attempt
  run_step_stops c p a pw w n e h =
      let sr0 = step_result a success in
      let out = try_from env r (rounds a.retries) c p a pw 0 sr0 none w in
      let once : out ≡ (
        (note_attempt env r a 0 (attempt env r c p a pw w).0.0 sr0, (attempt env r c p a pw w).0.1),
        (attempt env r c p a pw w).1,
      ) =
        ap (λ k. try_from env r (rounds k) c p a pw 0 sr0 none w) e
        ∙ try_from_stops n c p a pw sr0 none w (Settled-is_outcome _ h) in
      (
        finish_step-attempts out.0.0 out.0.1 ∙ ap (λ o. o.0.0.attempts) once,
        ap (λ o. o.0.1) once,
        ap (λ o. o.1) once,
        ground (arith, ap (λ o. runs o.1.trace) once, attempt-runs env r c p a pw w),
      )
