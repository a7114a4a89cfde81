-- ===== src/Cli/Run.antt =====
-- run and pairs of internal/cli/cli.go, and the choice of hosts of onlyFailed in
-- internal/cli/reports.go. Parsing the flags, reading files, printing and the run itself are
-- parameters or left to the caller.
pub mod Started
use remote_command_orchestra.Common.{
  ℕ, ◌==◌, Bool, true, false, not, ◌&&◌, ◌||◌, List, [], ◌∷◌, ◌++◌, Bytes, codes, is_nil, eq_bytes,
  length, quoted, Dict, lookup, insert, Option, none, some, ℤ, pos, ltb_ℤ, ◌⊎◌, inl, inr,
  if◌then◌else◌, and_then,
}
use remote_command_orchestra.Domain.{Target}
use remote_command_orchestra.Credentials.Resolve.{System}
use remote_command_orchestra.Inventory.{Inventory}
use remote_command_orchestra.Inventory.Select.{select}
use remote_command_orchestra.Job.Model.{JobFile}
use remote_command_orchestra.Job.Validate.{Floats, parse_max_failures}
use remote_command_orchestra.Runner.Prepare.{Prepared, prepare}

-- The flags that run reads itself.
pub record Flags : Type 0 where
  pub arguments : List Bytes
  pub inv : List Bytes
  pub job : Bytes
  pub groups : List Bytes
  pub tags : List Bytes
  pub hosts : List Bytes
  pub vars : List Bytes
  pub var_envs : List Bytes
  pub only_failed : Bytes
  pub max_failures : Bytes
  pub output : Bytes
  pub execute : Bool
  pub concurrency : ℤ
  pub max_output : ℤ
  pub step_timeout : ℤ
  pub retry_delay : ℤ

-- What happens after the checks.
pub data Decision : Type 0 where
  -- The job is valid, by itself or for that many hosts.
  job_valid : Decision
  hosts_valid : ℕ → Decision
  preview : List Prepared → ℤ → Decision
  -- The hosts are contacted with this limit of failures, once the file of the report is open.
  start : List Prepared → ℤ → Decision

-- strings.Cut at the first "=": the name and the value, if there is one.
cut : Bytes → Option (Bytes × Bytes)
cut [] = none
cut (c ∷ s) =
    let rest = cut s in
    if c == b'='
    then some ([], s)
    else (elim rest [ none ↦ none | some kv ↦ some (c ∷ kv.0, kv.1) ])

pub bad_pair : Bytes → Bytes → Bytes
bad_pair flag kv = flag ++ (codes " " ++ (quoted kv ++ codes ": expected NAME=VALUE"))

pair_of : Bytes → Bytes → Option (Bytes × Bytes) → (Bytes × Bytes) ⊎ Bytes
pair_of flag text none = inr (bad_pair flag text)
pair_of flag text (some (k, v)) = if is_nil k then inr (bad_pair flag text) else inl (k, v)

pairs_into : Bytes → List Bytes → Dict Bytes → Dict Bytes ⊎ Bytes
pairs_into flag [] out = inl out
pairs_into flag (text ∷ texts) out =
    and_then (pair_of flag text (cut text)) (λ kv. pairs_into flag texts (insert kv.0 kv.1 out))

-- pairs.
unfoldable pub pairs : List Bytes → Bytes → Dict Bytes ⊎ Bytes
unfolding pairs_into pair_of cut
pairs texts flag = pairs_into flag texts []

-- The switch over the flags: the error, if there is one.
pub flag_error : Flags → Bool → Option Bytes
flag_error f validate_only = elim f.arguments [
  | a ∷ more ↦ some (codes "unexpected argument " ++ quoted a)
  | [] ↦
      if is_nil f.job
      then some (codes "--job is required")
      else (if is_nil f.inv && not validate_only
          then some (codes "--inventory is required")
          else (if not (eq_bytes f.output (codes "table"))
                && (not (eq_bytes f.output (codes "json"))
                    && not (eq_bytes f.output (codes "yaml")))
              then some (codes "--output must be table, json or yaml")
              else (if ltb_ℤ f.concurrency (pos 1) || ltb_ℤ f.max_output (pos 1024)
                  then some (codes "--concurrency must be >= 1 and --max-output >= 1024")
                  else none)))
]

checked : Option Bytes → Unit {0} ⊎ Bytes
checked none = inl tt
checked (some err) = inr err

-- Whether a host of the previous report did not succeed, by its last entry.
abbrev must_retry : Option Bool → Bool
must_retry none = false
must_retry (some succeeded) = not succeeded

-- The end of onlyFailed: the targets that the report has, without success.
unfoldable pub unsuccessful : Dict Bool → List Target → List Target
unsuccessful report [] = []
unsuccessful report (t ∷ ts) =
    let rest = unsuccessful report ts in
    if must_retry (lookup t.name report) then t ∷ rest else rest

-- The parts outside: job.Load, inventory.Load, and what onlyFailed reads of a report, each host
-- with whether it succeeded.
pub record Files : Type 0 where
  pub load_job : Bytes → JobFile ⊎ Bytes
  pub load_inventory : List Bytes → Inventory ⊎ Bytes
  pub read_report : Bytes → Dict Bool ⊎ Bytes

abbrev prepare_label : Bytes
prepare_label = codes "validation failed, no host was contacted:\n"

abbrev limit_label : Bytes
limit_label = codes "max failures "

labelled : {A : Type 0} → Bytes → A ⊎ Bytes → A ⊎ Bytes
labelled label (inl a) = inl a
labelled label (inr err) = inr (label ++ err)

some_hosts : List Target → List Target ⊎ Bytes
some_hosts [] = inr (codes "no hosts match the selectors")
some_hosts (t ∷ ts) = inl (t ∷ ts)

module _ {F : Type 0} (floats : Floats F) (files : Files) (sys : System)
    (env : Bytes → Option Bytes) (f : Flags) (validate_only : Bool) where
  pub narrowed : List Target → List Target ⊎ Bytes
  unfolding labelled
  narrowed targets =
      if is_nil f.only_failed
      then inl targets
      else and_then (labelled (codes "--only-failed: ") (files.read_report f.only_failed))
          (λ report. inl (unsuccessful report targets))

  -- --max-failures overrides the job's.
  abbrev pub limit_text : JobFile → Bytes
  limit_text j = if is_nil f.max_failures then j.max_failures else f.max_failures

  limit_of : JobFile → List Target → ℤ ⊎ Bytes
  unfolding labelled
  limit_of j targets =
      labelled limit_label (parse_max_failures floats (limit_text j) (length targets))

  decide : List Target → ℤ → List Prepared → Decision
  decide targets limit plans =
      if validate_only
      then hosts_valid (length targets)
      else (if not f.execute then preview plans limit else start plans limit)

  prepared : JobFile → List Target → Dict Bytes → Dict Bytes → (List Prepared × List Bytes) ⊎ Bytes
  prepared j targets vars var_env =
      prepare sys env
        (record {
          skip_credentials = not f.execute && not validate_only;
          step_timeout = f.step_timeout;
          retry_delay = f.retry_delay;
        })
        (record { job = j; targets = targets; vars = vars; var_env = var_env })

  with_hosts : JobFile → List Target → Decision ⊎ Bytes
  unfolding decide prepared some_hosts labelled limit_of
  with_hosts j all = and_then (narrowed all) (λ narrow. and_then (some_hosts narrow) (λ targets.
      and_then (limit_of j targets) (λ limit. and_then (pairs f.vars (codes "--var")) (λ vars.
        and_then (pairs f.var_envs (codes "--var-env")) (λ var_env.
          and_then (labelled prepare_label (prepared j targets vars var_env))
            (λ made. inl (decide targets limit made.0)))))))

  with_job : JobFile → Decision ⊎ Bytes
  unfolding with_hosts
  with_job j =
      if validate_only && is_nil f.inv
      then inl job_valid
      else and_then (files.load_inventory f.inv) (λ inv.
        and_then (select inv (record { groups = f.groups; tags = f.tags; hosts = f.hosts }))
          (λ all. with_hosts j all))

  -- run, up to the first contact with a host. An error is exit code 1.
  unfoldable pub run : Decision ⊎ Bytes
  unfolding with_job checked flag_error narrowed
  run =
      and_then (checked (flag_error f validate_only))
        (λ fine. and_then (files.load_job f.job) (λ j. with_job j))

-- The exit code of a run: of whether every host succeeded, and of the error of printing.
unfoldable pub exit_code : Bool → Option Bytes → ℕ
exit_code ok (some err) = 1
exit_code true none = 0
exit_code false none = 2
