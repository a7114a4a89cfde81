-- ===== src/Runner/Step/Retry.antt =====
-- How often a step's command is sent, and how its result is reported.
use remote_command_orchestra.Common.{
  ℕ, zero, suc, ◌+◌, ◌≤◌, [], Bool, Bytes, Option, none, some, ℤ, ◌≡◌, sym, some-injective, ◌≢◌,
  ◌↔◌, refl, ◌∙◌, arith,
}
use remote_command_orchestra.Domain.{Status, success, Failure, is_cancelled_iff, Category}
use remote_command_orchestra.Credentials.Redactor.{redact}
use remote_command_orchestra.Job.Shell.{Action}
use remote_command_orchestra.Sshx.Exec.{Result}
use remote_command_orchestra.Runner.Env.{Env, World, Plan, Runner, exec_on, sleep_fails, runs}
use remote_command_orchestra.Runner.Step.{
  StepResult, step_result, rounds, finish_step, run_command, after_upload, upload, attempt,
  pause_before, note_attempt, try_from, run_step,
}

module _ {C W : Type 0} (env : Env C W) (r : Runner) where
  run_command-runs :
      (c : C) (p : Plan) (a : Action) (pw : Bool) (tmp : Bytes) (w : World W)
      → runs (run_command env r c p a pw tmp w).1.trace ≡ suc (runs w.trace)
  unfolding run_command exec_on runs
  run_command-runs c p a pw tmp w = refl

  after_upload-runs :
      (c : C) (p : Plan) (a : Action) (pw : Bool) (res : Result) (err : Option Failure)
      (w : World W)
      → runs (after_upload env r c p a pw res err w).1.trace ≤ suc (runs w.trace)
  unfolding after_upload
  after_upload-runs c p a pw res none w = ground (arith, run_command-runs c p a pw res.stdout w)
  after_upload-runs c p a pw res (some f) w = omega arith

  upload-runs :
      (c : C) (p : Plan) (a : Action) (pw : Bool) (content : Option Bytes) (w : World W)
      → runs (upload env r c p a pw content w).1.trace ≤ suc (runs w.trace)
  unfolding upload exec_on runs
  upload-runs c p a pw none w = omega (arith, run_command-runs c p a pw [] w)
  upload-runs c p a pw (some body) w = after_upload-runs c p a pw _ _ _

  pub attempt-runs :
      (c : C) (p : Plan) (a : Action) (pw : Bool) (w : World W)
      → runs (attempt env r c p a pw w).1.trace ≤ suc (runs w.trace)
  unfolding attempt
  attempt-runs c p a pw w = upload-runs c p a pw a.content w

  pub sleep_fails-runs : (d : ℤ) (w : World W) → runs (sleep_fails env d w).1.trace ≡ runs w.trace
  unfolding sleep_fails runs
  sleep_fails-runs d w = ground arith

  pause_before-runs :
      (a : Action) (try : ℕ) (w : World W)
      → runs (pause_before env r a try w).1.trace ≡ runs w.trace
  unfolding pause_before
  pause_before-runs a zero w = refl
  pause_before-runs a (suc try) w = sleep_fails-runs a.retry_delay w

  try_from-runs :
      (k : ℕ) (c : C) (p : Plan) (a : Action) (pw : Bool) (try : ℕ) (sr : StepResult)
      (f : Option Failure) (w : World W)
      → sr.attempts ≤ try
      → let out = try_from env r k c p a pw try sr f w in
        (runs out.1.trace ≤ runs w.trace + k) × (out.0.0.attempts ≤ try + k)
  unfolding try_from note_attempt
  try_from-runs zero c p a pw try sr f w h = (omega arith, omega arith)
  try_from-runs (suc k) c p a pw try sr f w h =
      let w1 = (pause_before env r a try w).1 in
      let ((res, f'), w2) = attempt env r c p a pw w1 in
      let sr' = note_attempt env r a try res sr in
      ground (
        arith,
        pause_before-runs a try w,
        attempt-runs c p a pw w1,
        try_from-runs k c p a pw (suc try) sr' f' w2 (omega arith),
      )

  -- A step sends its command at most once for each of its rounds, retries + 1 of them, and reports
  -- no more attempts than that.
  pub run_step-runs :
      (c : C) (p : Plan) (a : Action) (pw : Bool) (w : World W)
      → let ((sr, f), w') = run_step env r c p a pw w in
        (runs w'.trace ≤ runs w.trace + rounds a.retries) × (sr.attempts ≤ rounds a.retries)
  unfolding run_step
  run_step-runs c p a pw w =
      let ((sr, f), w') =
        try_from env r (rounds a.retries) c p a pw 0 (step_result a success) none w in
      ground (
        arith,
        try_from-runs (rounds a.retries) c p a pw 0 (step_result a success) none w (omega arith),
      )

  -- The result tells how the step ended: success exactly without a failure; with one, its category
  -- and its redacted reason, cancelled exactly for the category of a cancellation, and failed for
  -- any other.
  pub run_step_reports :
      (c : C) (p : Plan) (a : Action) (pw : Bool) (w : World W)
      → let ((sr, f), w') = run_step env r c p a pw w in
        ((sr.status ≡ success) ↔ (f ≡ none))
        × ((g : Failure)
            → f ≡ some g
            → (sr.category ≡ some g.category)
              × (sr.reason ≡ redact r.secrets g.reason)
              × ((sr.status ≡ Status.cancelled) ↔ (g.category ≡ Category.cancelled))
              × (g.category ≢ Category.cancelled → sr.status ≡ Status.failed))
  unfolding run_step
  run_step_reports c p a pw w =
      let ((sr, f), w') =
        try_from env r (rounds a.retries) c p a pw 0 (step_result a success) none w in
      finish_step_reports sr f
    where
      by_category :
          (sr : StepResult) (f g : Failure)
          → f ≡ g
          → let out = finish_step r sr (some f) in
            ((out.status ≡ Status.cancelled) ↔ (g.category ≡ Category.cancelled))
            × (g.category ≢ Category.cancelled → out.status ≡ Status.failed)
      by_category sr f g e = rw (sym e) (
        (
          (λ h. ground (arith, h, is_cancelled_iff f.category)),
          λ h. ground (arith, h, is_cancelled_iff f.category),
        ),
        λ n. ground (arith, n, is_cancelled_iff f.category),
      )

      finish_step_reports :
          (sr : StepResult) (f : Option Failure)
          → let out = finish_step r sr f in
            ((out.status ≡ success) ↔ (f ≡ none))
            × ((g : Failure)
                → f ≡ some g
                → (out.category ≡ some g.category)
                  × (out.reason ≡ redact r.secrets g.reason)
                  × ((out.status ≡ Status.cancelled) ↔ (g.category ≡ Category.cancelled))
                  × (g.category ≢ Category.cancelled → out.status ≡ Status.failed))
      finish_step_reports sr none = (((λ h. refl), λ h. refl), λ g e. cc)
      finish_step_reports sr (some f) = (
        (λ h. ground arith, λ h. cc),
        λ g e. (
          ground arith,
          ground arith,
          (by_category sr f g (some-injective f g e)).0,
          (by_category sr f g (some-injective f g e)).1,
        ),
      )

-- A step's result carries the name of its action, and is a success exactly when there is no
-- failure.
abbrev pub Reports : Action → StepResult → Option Failure → Type 0
Reports a sr f = (sr.name ≡ a.name) × ((sr.status ≡ success) ↔ (f ≡ none))

module _ {C W : Type 0} (env : Env C W) (r : Runner) where
  try_from-name :
      (k : ℕ) (c : C) (p : Plan) (a : Action) (pw : Bool) (try : ℕ) (sr : StepResult)
      (f : Option Failure) (w : World W)
      → (try_from env r k c p a pw try sr f w).0.0.name ≡ sr.name
  unfolding try_from note_attempt
  try_from-name zero c p a pw try sr f w = refl
  try_from-name (suc k) c p a pw try sr f w =
      let w1 = (pause_before env r a try w).1 in
      let ((res, f'), w2) = attempt env r c p a pw w1 in
      ground (arith, try_from-name k c p a pw (suc try) (note_attempt env r a try res sr) f' w2)

  finish_step-name : (sr : StepResult) (f : Option Failure) → (finish_step r sr f).name ≡ sr.name
  unfolding finish_step
  finish_step-name sr none = refl
  finish_step-name sr (some f) = refl

  pub run_step-Reports :
      (c : C) (p : Plan) (a : Action) (pw : Bool) (w : World W)
      → let ((sr, f), w') = run_step env r c p a pw w in Reports a sr f
  unfolding run_step
  run_step-Reports c p a pw w =
      let sr0 = step_result a success in
      let ((sr, f), w') = try_from env r (rounds a.retries) c p a pw 0 sr0 none w in
      (
        finish_step-name sr f ∙ try_from-name (rounds a.retries) c p a pw 0 sr0 none w,
        (run_step_reports env r c p a pw w).0,
      )
