-- ===== src/Examples/Jobs.antt =====
-- The theorems on job files, on concrete inputs.
use remote_command_orchestra.Common.{
  ℕ, ◌==◌, ◌-◌, ltb, true, false, [], ◌∷◌, ◌++◌, Bytes, codes, Dict, lookup, Option, none, some,
  pos, ◌≡◌, ◌≢◌, refl, arith, is_prefix, eq_bytes, among, contains, decimal, is_shaped, trim_last,
  ends_in,
}
use remote_command_orchestra.Domain.{sensitive_mask}
use remote_command_orchestra.Job.Shell.{Action}
use remote_command_orchestra.Job.Template.{render, references}
use remote_command_orchestra.Job.Variables.{Variable, check_value}
use remote_command_orchestra.Job.Model.{
  JobStep, JobFile, Settings, build, build_step, first, retries_of, reconnect_within,
}
use remote_command_orchestra.Job.Model.Private.{SameOpen, AllShownAlike, build_private}
use remote_command_orchestra.Job.Validate.{
  Floats, validate, parse_max_failures, check_refs, count_kinds,
}
use remote_command_orchestra.Job.Validate.Sound.{FitSteps, validate-FitSteps}
use remote_command_orchestra.Examples.{uptime}

-- Numbers of one decimal digit.
abbrev pub digits : Floats ℕ
digits = record {
  parse = λ s. elim s [ [] ↦ none | c ∷ rest ↦ some (c - 48) ];
  is_le_zero = λ n. n == 0;
  is_gt_hundred = λ n. ltb 100 n;
  is_broken = λ n. false;
  share = λ n total. pos 1;
  to_int = λ n. pos n;
}

abbrev any_regex : Bytes → Option Bytes
any_regex s = none

-- A step that shows one variable, and one that uses a sensitive one.
abbrev pub greet : JobStep
greet = record {
  name = codes "greet";
  command = codes "echo {{ .who }}";
  script = [];
  copy = none;
  sudo = none;
  expect = record { exit_code = none; contains = []; not_contains = []; regex = [] };
  timeout = pos 0;
  retries = none;
  retry_delay = pos 0;
  continue_on_error = false;
  sensitive = false;
  reboot = false;
  disconnect = false;
  reconnect_timeout = pos 0;
  fire_and_forget = false;
  script_body = [];
}

abbrev pub log_in : JobStep
log_in = record greet { name = codes "login"; command = codes "login {{ .pw }}"; sensitive = true }

abbrev pub variables : Dict Variable
variables =
    (codes "who", record { required = true; default = none; sensitive = false })
    ∷ (codes "pw", record { required = true; default = none; sensitive = true })
    ∷ []

abbrev pub job : JobFile
job = record {
  name = codes "hello";
  max_failures = codes "1";
  variables = variables;
  defaults = record { timeout = pos 0; retries = pos 0; retry_delay = pos 0; sudo = false };
  steps = greet ∷ log_in ∷ [];
}

abbrev settings : Settings
settings = record { timeout = pos 7; retry_delay = pos 1 }

abbrev values : Bytes → Dict Bytes
values pw = (codes "who", codes "ann") ∷ (codes "pw", pw) ∷ []

abbrev pub greeting : Action
greeting = record uptime {
  name = codes "greet";
  display = codes "echo ann";
  shell = codes "echo ann";
  timeout = pos 7;
  retry_delay = pos 1;
}

abbrev pub logging_in : Bytes → Action
logging_in pw = record greeting {
  name = codes "login";
  display = sensitive_mask;
  shell = codes "login " ++ pw;
  content = some (codes "login " ++ (pw ++ codes "\n"));
  sensitive = true;
}

job_is_valid : validate digits any_regex job ≡ []
unfolding validate check_refs references is_prefix lookup eq_bytes among contains check_value
    parse_max_failures is_shaped trim_last ends_in count_kinds decimal
job_is_valid = refl

validate-FitSteps_example : (job.steps ≢ []) × FitSteps variables [] job.steps
validate-FitSteps_example = validate-FitSteps digits any_regex job job_is_valid

same_open : SameOpen variables (values (codes "secret1")) (values (codes "other"))
unfolding lookup
same_open n v known plain = ground arith

build_private_example :
    AllShownAlike job.steps
      (greeting ∷ logging_in (codes "secret1") ∷ [])
      (greeting ∷ logging_in (codes "other") ∷ [])
unfolding build build_step render references first retries_of reconnect_within is_prefix lookup
    eq_bytes
build_private_example =
    build_private digits any_regex job (values (codes "secret1")) (values (codes "other")) settings
      (greeting ∷ logging_in (codes "secret1") ∷ []) (greeting ∷ logging_in (codes "other") ∷ [])
      job_is_valid same_open refl refl
