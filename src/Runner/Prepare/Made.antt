-- ===== src/Runner/Prepare/Made.antt =====
-- What Prepare as a whole makes, and what its errors show.
use remote_command_orchestra.Common.{
  true, List, Bytes, Dict, lookup, among, Option, none, All, Occurs, ◌≡◌, ◌≢◌,
}
use remote_command_orchestra.Credentials.Redactor.Removed.{Maskable}
use remote_command_orchestra.Credentials.Resolve.{System}
use remote_command_orchestra.Job.Variables.{Variable}
use remote_command_orchestra.Runner.Prepare.{
  Options, Input, Prepared, Progress, prepare_all, redact_plans, started,
}
use remote_command_orchestra.Runner.Prepare.Each.{AllReady}

-- Every name is one that the job declares.
abbrev pub AllDeclared : Dict Variable → Dict Bytes → Type 0
AllDeclared declarations m = All (λ kv. lookup kv.0 declarations ≢ none) m

-- The text has no secret of these in it, of those that are not empty, have no bracket and are no
-- part of REDACTED.
abbrev pub Shows : List Bytes → Bytes → Type 0
Shows secrets text = (sec : Bytes) → among secrets sec ≡ true → Maskable sec → ¬ Occurs sec text

module _ (sys : System) (env : Bytes → Option Bytes) (o : Options) (inp : Input) where
  -- The plans and the secrets of a run that can start.
  abbrev pub Made : List Prepared × List Bytes → Type 0
  Made made =
      AllDeclared inp.job.variables inp.vars
      × AllDeclared inp.job.variables inp.var_env
      × ((raw : List Prepared) × AllReady sys env o inp made.1 inp.targets raw
          × (made.0 ≡ redact_plans sys env o inp made.1 raw))
      × All (λ p. All (λ a. Shows made.1 a.display) p.actions) made.0

  -- The loop over all targets.
  abbrev pub progress : Progress
  progress = prepare_all sys env o inp inp.targets (started sys env o inp)
