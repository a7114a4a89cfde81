-- ===== src/Runner/Host/Account.antt =====
-- What a step leaves of a host's result.
use remote_command_orchestra.Common.{
  Bool, true, false, not, ◌&&◌, List, [], ◌∷◌, ◌++◌, Bytes, Option, none, some, ◌≡◌, ◌∙◌, refl, sym,
  ap, arith, Bool-cases, inl, inr,
}
use remote_command_orchestra.Domain.{Status, success, Category, Failure}
use remote_command_orchestra.Job.Shell.{Action}
use remote_command_orchestra.Runner.Env.{Env, World, Plan, Runner}
use remote_command_orchestra.Runner.Step.{StepResult, run_step}
use remote_command_orchestra.Runner.Step.Retry.{Reports, run_step-Reports}
use remote_command_orchestra.Runner.Disconnect.{Gone, forgive}
use remote_command_orchestra.Runner.Disconnect.Report.{kept, run_disconnecting-Reports}
use remote_command_orchestra.Runner.Host.{
  HostResult, skip, fail_host, mark_failed, note_step, stops, forget, with_note, as_gone,
  as_forgotten, run_action, cut_itself,
}

abbrev pub is_success : Status → Bool
is_success success = true
is_success _ = false

unfoldable pub all_succeeded : List StepResult → Bool
all_succeeded [] = true
all_succeeded (sr ∷ steps) = is_success sr.status && all_succeeded steps

unfoldable pub names : List StepResult → List Bytes
names [] = []
names (sr ∷ steps) = sr.name ∷ names steps

unfoldable pub action_names : List Action → List Bytes
action_names [] = []
action_names (a ∷ actions) = a.name ∷ action_names actions

forget-Reports :
    {C : Type 0} (c : C) (a : Action) (sr : StepResult) (f : Option Failure)
    → Reports a sr f
    → Reports a (forget c sr f).result (forget c sr f).failure
unfolding forget with_note forgive
forget-Reports c a sr none h = h
forget-Reports c a sr (some f) h = elim (Bool-cases (cut_itself sr (some f))) [
  | inl cut ↦ rw (cut) ((h.0, (λ s. refl, λ s. refl)))
  | inr real ↦ rw (real) h
]

module _ {C W : Type 0} (env : Env C W) (r : Runner) where
  pub run_action-Reports :
      (c : C) (p : Plan) (a : Action) (pw : Bool) (w : World W) (g : Gone C)
      → (run_action env r c p a pw w).0 ≡ some g
      → Reports a g.result g.failure
  unfolding run_action as_forgotten as_gone
  run_action-Reports c p a pw w g e = elim (Bool-cases a.disconnect) [
    | inl drops ↦ run_disconnecting-Reports env r c p a pw w g (rw (drops, run_action) at e)
    | inr keeps ↦
        let ((sr, f), w') = run_step env r c p a pw w in
        let h = run_step-Reports env r c p a pw w in
        elim (Bool-cases a.fire_and_forget) [
          | inl fires ↦
              kept a (forget c sr f) g (forget-Reports c a sr f h)
                (rw (keeps, fires, run_action) at e)
          | inr waits ↦
              kept a (record { result = sr; failure = f; client = some c }) g h
                (rw (keeps, waits, run_action) at e)
        ]
  ]

names-append : (s t : List StepResult) → names (s ++ t) ≡ names s ++ names t
unfolding names
names-append [] t = refl
names-append (x ∷ s) t = ap (λ k. x.name ∷ k) (names-append s t)

all_succeeded-append :
    (s t : List StepResult) → all_succeeded (s ++ t) ≡ (all_succeeded s && all_succeeded t)
unfolding all_succeeded
all_succeeded-append [] t = refl
all_succeeded-append (x ∷ s) t = ground (arith, all_succeeded-append s t)

abbrev pub noted : Option Category → Bool
noted none = false
noted (some c) = true

-- A result in the making: it is a success exactly if its steps are, and while no failure is noted.
abbrev pub Consistent : HostResult → Type 0
Consistent h =
    (is_success h.status ≡ all_succeeded h.steps) × (not (noted h.category) ≡ is_success h.status)

-- fail notes a failure, and keeps the steps.
abbrev pub Failed : HostResult → HostResult → Type 0
Failed h h' = (h'.steps ≡ h.steps) × ((is_success h'.status ≡ false) × (noted h'.category ≡ true))

module _ (r : Runner) where
  mark_failed-Failed :
      (h : HostResult) (c : Option Category) (f : Failure) (step : Bytes)
      → h.category ≡ c
      → not (noted h.category) ≡ is_success h.status
      → Failed h (mark_failed r h c f step)
  unfolding mark_failed
  mark_failed-Failed h none f step e g = (refl, (ground arith, refl))
  mark_failed-Failed h (some c) f step e g =
      (refl, (sym g ∙ ap (λ k. not (noted k)) e, ap (λ k. noted k) e))

  pub fail_host-Failed :
      (h : HostResult) (f : Failure) (step : Bytes)
      → not (noted h.category) ≡ is_success h.status
      → Failed h (fail_host r h f step)
  unfolding fail_host
  fail_host-Failed h f step g = mark_failed-Failed h h.category f step refl g

  all_succeeded-snoc :
      (steps : List StepResult) (sr : StepResult)
      → all_succeeded (steps ++ sr ∷ []) ≡ (all_succeeded steps && is_success sr.status)
  unfolding all_succeeded
  all_succeeded-snoc steps sr = ground (arith, all_succeeded-append steps (sr ∷ []))

  reported :
      (a : Action) (sr : StepResult) (f : Option Failure)
      → Reports a sr f
      → is_success sr.status ≡ (elim f [ none ↦ true | some g ↦ false ])
  reported a sr none h = ap (λ s. is_success s) (h.1.1 refl)
  reported a sr (some g) h = ground arith

  -- What a step leaves: the host goes on consistent, and is no success once it stops.
  abbrev pub Left : {C : Type 0} → Action → HostResult → Gone C → Type 0
  Left a h g =
      Consistent (note_step r a h g)
      × ((stops a g ≡ true → is_success (note_step r a h g).status ≡ false)
          × (names (note_step r a h g).steps ≡ names h.steps ++ a.name ∷ []))

  names-snoc :
      (a : Action) (steps : List StepResult) (sr : StepResult)
      → sr.name ≡ a.name
      → names (steps ++ sr ∷ []) ≡ names steps ++ a.name ∷ []
  unfolding names
  names-snoc a steps sr e = names-append steps (sr ∷ []) ∙ ap (λ k. names steps ++ k ∷ []) e

  pub note_step-Left :
      {C : Type 0} (a : Action) (h : HostResult) (sr : StepResult) (f : Option Failure)
      (client : Option C)
      → Reports a sr f
      → Consistent h
      → Left a h (record { result = sr; failure = f; client = client })
  unfolding note_step stops
  note_step-Left a h sr none client s k = (
    (ground (arith, all_succeeded-snoc h.steps sr, reported a sr none s, k), k.1),
    ((λ t. ground arith), names-snoc a h.steps sr s.0),
  )
  note_step-Left a h sr (some f) client s k =
      let h' = record h { steps = h.steps ++ sr ∷ [] } in
      let m = fail_host-Failed h' f a.name k.1 in
      (
        (
          ground (
            arith,
            m,
            ap (λ t. all_succeeded t) m.0,
            all_succeeded-snoc h.steps sr,
            reported a sr (some f) s,
            k,
          ),
          ground (arith, m),
        ),
        ((λ t. m.1.0), ap (λ t. names t) m.0 ∙ names-snoc a h.steps sr s.0),
      )

  pub skip-Consistent :
      (a : Action) (h : HostResult)
      → Consistent h
      → is_success h.status ≡ false
      → let h' = record h { steps = h.steps ++ skip a ∷ [] } in
        Consistent h' × (names h'.steps ≡ names h.steps ++ a.name ∷ [])
  skip-Consistent a h k f = (
    (ground (arith, all_succeeded-snoc h.steps (skip a), k, f), k.1),
    names-snoc a h.steps (skip a) refl,
  )
