-- ===== src/Runner/Prepare.antt =====
-- Prepare of internal/runner/runner.go. Where the source goes through a map, the order is that of
-- the list; the two flags are checked in the order that the source writes them.
pub mod Ready
pub mod Lookup
pub mod Each
pub mod Made
use remote_command_orchestra.Common.{
  Bool, true, false, not, ◌&&◌, ◌||◌, List, [], ◌∷◌, ◌++◌, Bytes, codes, quoted, join_with, Dict,
  lookup, insert, Option, none, some, ℤ, ◌⊎◌, inl, inr, if◌then◌else◌, and_then,
}
use remote_command_orchestra.Domain.{Failure, Credential, Endpoint, Target, error_text}
use remote_command_orchestra.Credentials.Redactor.{add, redact}
use remote_command_orchestra.Credentials.Resolve.{Auth, System}
use remote_command_orchestra.Credentials.Resolve as Credentials
use remote_command_orchestra.Job.Shell.{Action}
use remote_command_orchestra.Job.Variables.{Variable, Inputs}
use remote_command_orchestra.Job.Variables as Variables
use remote_command_orchestra.Job.Model.{JobFile, Settings, build}

-- The options that Prepare reads itself.
pub record Options : Type 0 where
  pub skip_credentials : Bool
  pub step_timeout : ℤ
  pub retry_delay : ℤ

pub record Input : Type 0 where
  pub job : JobFile
  pub targets : List Target
  pub vars : Dict Bytes
  pub var_env : Dict Bytes

-- A plan before it is known that its credentials are there: `none` is a nil *Auth.
pub record Prepared : Type 0 where
  pub target : Target
  pub actions : List Action
  pub auth : Option Auth
  pub bastion : Option Auth

-- The plans, the redactor's secrets, one entry per credential that was resolved, and the problems.
pub record Progress : Type 0 where
  pub plans : List Prepared
  pub secrets : List Bytes
  pub auths : Dict Auth
  pub issues : List Bytes

-- The check of one flag.
declared_by : Bytes → Dict Variable → Dict Bytes → Option Bytes
declared_by flag declarations [] = none
declared_by flag declarations ((k, v) ∷ m) = elim (lookup k declarations) [
  | some d ↦ declared_by flag declarations m
  | none ↦
      some (flag ++ (codes " " ++ (k ++ (codes ": the job declares no variable " ++ quoted k))))
]

pub undeclared : Input → Option Bytes
undeclared inp = elim (declared_by (codes "--var") inp.job.variables inp.vars) [
  | some err ↦ some err
  | none ↦ declared_by (codes "--var-env") inp.job.variables inp.var_env
]

-- Issues of a host, under its name.
issue : Target → Bytes → Progress → Progress
issue t text s = record s { issues = s.issues ++ (t.name ++ (codes ": " ++ text)) ∷ [] }

auth_of : Option Auth ⊎ Bytes → Option Auth
auth_of (inl a) = a
auth_of (inr err) = none

pub note : Target → Bytes → Option Auth ⊎ Bytes → Progress → Progress
note t prefix (inl a) s = s
note t prefix (inr err) s = issue t (prefix ++ err) s

push : Target → List Action → Option Auth → Option Auth → Progress → Progress
push t actions auth bastion s = record s {
  plans =
      s.plans ++ (record { target = t; actions = actions; auth = auth; bastion = bastion }) ∷ [];
}

-- A credential that was looked up: its secrets go to the redactor.
looked_up : Credential → Auth ⊎ Failure → Progress → (Option Auth ⊎ Bytes) × Progress
looked_up c (inr f) s = (inr (error_text f), s)
looked_up c (inl a) s =
    (inl (some a), record s { secrets = add s.secrets a.secrets; auths = insert c.name a s.auths })

module _ (sys : System) (env : Bytes → Option Bytes) (o : Options) (inp : Input) where
  known_or : Credential → Option Auth → Progress → (Option Auth ⊎ Bytes) × Progress
  unfolding looked_up
  known_or c (some a) s = (inl (some a), s)
  known_or c none s = looked_up c (Credentials.resolve sys env c) s

  -- The closure resolve: one lookup of the secrets for each credential.
  pub resolve_once : Credential → Progress → (Option Auth ⊎ Bytes) × Progress
  unfolding known_or
  resolve_once c s =
      if o.skip_credentials then (inl none, s) else known_or c (lookup c.name s.auths) s

  with_bastion : Target → List Action → Option Auth → Option Endpoint → Progress → Progress
  unfolding push note auth_of
  with_bastion t actions auth none s = push t actions auth none s
  with_bastion t actions auth (some ep) s =
      let (r, s') = resolve_once ep.credential s in
      push t actions auth (auth_of r) (note t (codes "bastion: ") r s')

  built : Target → List Action ⊎ Failure → Progress → Progress
  unfolding issue auth_of note with_bastion resolve_once
  built t (inr f) s = issue t (error_text f) s
  built t (inl actions) s =
      let (r, s') = resolve_once t.credential s in
      with_bastion t actions (auth_of r) t.bastion (note t [] r s')

  abbrev pub inputs : Target → Inputs
  inputs t = record { host = t.variables; job = inp.vars; job_env = inp.var_env }

  abbrev pub settings : Settings
  settings = record { timeout = o.step_timeout; retry_delay = o.retry_delay }

  valued : Target → (Dict Bytes × List Bytes) ⊎ List Bytes → Progress → Progress
  unfolding issue built
  valued t (inr is) s = issue t (codes "job invalid: " ++ join_with (codes "; ") is) s
  valued t (inl (vars, secrets)) s =
      built t (build inp.job vars settings) (record s { secrets = add s.secrets secrets })

  -- The body of the loop over the targets.
  prepare_target : Target → Progress → Progress
  unfolding valued
  prepare_target t s = valued t (Variables.resolve inp.job.variables (inputs t) env) s

  pub prepare_all : List Target → Progress → Progress
  prepare_all [] s = s
  prepare_all (t ∷ ts) s = prepare_all ts (prepare_target t s)

  pub redact_actions : List Bytes → List Action → List Action
  redact_actions secrets [] = []
  redact_actions secrets (a ∷ actions) =
      (record a { display = redact secrets a.display }) ∷ redact_actions secrets actions

  pub redact_plans : List Bytes → List Prepared → List Prepared
  redact_plans secrets [] = []
  redact_plans secrets (p ∷ plans) =
      (record p { actions = redact_actions secrets p.actions }) ∷ redact_plans secrets plans

  -- The plans of the run and the secrets of its redactor, or the redacted problems.
  finished : Progress → List Bytes → (List Prepared × List Bytes) ⊎ Bytes
  finished s [] = inl (redact_plans s.secrets s.plans, s.secrets)
  finished s (err ∷ issues) = inr (redact s.secrets (join_with (codes "\n") (err ∷ issues)))

  abbrev pub started : Progress
  started = record { plans = []; secrets = []; auths = []; issues = [] }

  checked_flags : Option Bytes → (List Prepared × List Bytes) ⊎ Bytes
  unfolding finished redact_plans redact_actions prepare_all prepare_target
  checked_flags (some err) = inr err
  checked_flags none = let s = prepare_all inp.targets started in finished s s.issues

  -- Prepare.
  unfoldable pub prepare : (List Prepared × List Bytes) ⊎ Bytes
  unfolding undeclared declared_by checked_flags
  prepare = checked_flags (undeclared inp)
