-- ===== src/Examples/Setup.antt =====
-- The theorems on variables, credentials and the preparation of a run, on concrete inputs.
use remote_command_orchestra.Common.{
  false, List, [], ◌∷◌, ◌++◌, Bytes, codes, Dict, lookup, insert, insert_all, Option, none, some,
  pos, inr, ◌≡◌, refl, eq_bytes, All,
}
use remote_command_orchestra.Domain.{Credential}
use remote_command_orchestra.Job.Variables.{Variable, Inputs, check_value}
use remote_command_orchestra.Job.Variables as Variables
use remote_command_orchestra.Job.Variables.Levels.{level_of, Known, resolve_levels}
use remote_command_orchestra.Credentials.Resolve.{
  System, Parsed, Method, Auth, fail, not_set, resolve,
}
use remote_command_orchestra.Credentials.Resolve.Secret.{AllHidden, sudo_of, resolve_hides}
use remote_command_orchestra.Credentials.Resolve.Reasons.{Any, reasons, resolve_told}
use remote_command_orchestra.Runner.Prepare.{Options, Input, Prepared}
use remote_command_orchestra.Runner.Prepare.Made.{Made}
use remote_command_orchestra.Examples.{credential, target}
use remote_command_orchestra.Examples.Jobs.{job, greeting, logging_in}

-- An environment of two variables.
abbrev pub env : Bytes → Option Bytes
env name = lookup name ((codes "PW", codes "hunter2") ∷ (codes "TOKEN", codes "s3cret") ∷ [])

abbrev pub system : System
system = record {
  read_file = λ path. inr (codes "no such file");
  home = some (codes "/root");
  join = λ dir name. dir ++ (codes "/" ++ name);
  parse_key = λ text pass. Parsed.unreadable;
}

abbrev pub logged_in : Auth
logged_in = record {
  methods = Method.password (codes "hunter2") ∷ Method.keyboard_interactive (codes "hunter2") ∷ [];
  sudo_password = codes "hunter2";
  secrets = codes "hunter2" ∷ [];
}

resolve_hides_example : AllHidden logged_in × (sudo_of env credential ≡ some (codes "hunter2"))
unfolding resolve lookup eq_bytes
resolve_hides_example = resolve_hides system env credential logged_in refl

abbrev unset : Credential
unset = record credential { password_env = codes "NOPE" }

resolve_told_example :
    Any (λ t. fail unset (not_set (codes "NOPE")) ≡ fail unset t) (reasons system unset)
unfolding resolve lookup eq_bytes
resolve_told_example = resolve_told system env unset (fail unset (not_set (codes "NOPE"))) refl

abbrev sources : Inputs
sources = record {
  host = (codes "who", codes "bob") ∷ [];
  job = (codes "who", codes "ann") ∷ [];
  job_env = (codes "pw", codes "TOKEN") ∷ [];
}

abbrev values : Dict Bytes
values = (codes "who", codes "ann") ∷ (codes "pw", codes "s3cret") ∷ []

resolve_levels_example :
    ((k : Bytes) → lookup k values ≡ level_of job.variables sources env k)
    × All (Known env (codes "s3cret" ∷ codes "s3cret" ∷ [])) sources.job_env
unfolding Variables.resolve lookup insert insert_all eq_bytes check_value
resolve_levels_example =
    resolve_levels job.variables sources env values (codes "s3cret" ∷ codes "s3cret" ∷ [])
      (refl, (refl, tt)) (refl, tt) (refl, tt) (refl, tt) refl

abbrev options : Options
options = record { skip_credentials = false; step_timeout = pos 7; retry_delay = pos 1 }

abbrev input : Input
input = record {
  job = job;
  targets = target ∷ [];
  vars = (codes "who", codes "ann") ∷ [];
  var_env = (codes "pw", codes "TOKEN") ∷ [];
}

abbrev made : List Prepared × List Bytes
made = (
  (record {
    target = target;
    actions = greeting ∷ logging_in (codes "s3cret") ∷ [];
    auth = some logged_in;
    bastion = none;
  })
      ∷ [],
  codes "hunter2" ∷ codes "s3cret" ∷ [],
)

-- Nothing is given for the sensitive variable.
abbrev lacking : Input
lacking = record input { var_env = [] }

abbrev lacking_text : Bytes
lacking_text = codes "web1: job invalid: required variable \"pw\" is not set"
