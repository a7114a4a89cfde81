-- ===== src/Examples/Command.antt =====
-- The theorem on `rco run`, on a concrete command line.
use remote_command_orchestra.Common.{
  true, false, List, [], ◌∷◌, codes, lookup, insert, insert_all, none, some, pos, inl, inr, refl,
  eq_bytes, among, before, is_prefix, is_shaped, replace_all, trim_last, ends_in,
}
use remote_command_orchestra.Domain.{Target}
use remote_command_orchestra.Job.Template.{render, references}
use remote_command_orchestra.Job.Variables.{check_value}
use remote_command_orchestra.Job.Variables as Variables
use remote_command_orchestra.Job.Model.{build, build_step, first, retries_of, reconnect_within}
use remote_command_orchestra.Job.Validate.{parse_max_failures}
use remote_command_orchestra.Credentials.Redactor.{add, redact}
use remote_command_orchestra.Credentials.Resolve as Credentials
use remote_command_orchestra.Inventory.Resolve.{
  resolve_host, first_text, first_port, credential_of, any_of,
}
use remote_command_orchestra.Inventory.Select.{
  is_selected, chosen, sort_by_name, placed_hosts, select,
}
use remote_command_orchestra.Runner.Prepare.{Prepared, prepare}
use remote_command_orchestra.Cli.Run.{Flags, Files, pairs, run}
use remote_command_orchestra.Cli.Run.Started.{Checked, run-Checked}
use remote_command_orchestra.Examples.{credential}
use remote_command_orchestra.Examples.Jobs.{digits, job, greeting, logging_in}
use remote_command_orchestra.Examples.Fleet.{fleet}
use remote_command_orchestra.Examples.Setup.{env, system, logged_in}

-- rco run -i i -j j --host db --var who=ann --var-env pw=TOKEN --execute
abbrev flags : Flags
flags = record {
  arguments = [];
  inv = codes "i" ∷ [];
  job = codes "j";
  groups = [];
  tags = [];
  hosts = codes "db" ∷ [];
  vars = codes "who=ann" ∷ [];
  var_envs = codes "pw=TOKEN" ∷ [];
  only_failed = [];
  max_failures = [];
  output = codes "table";
  execute = true;
  concurrency = pos 10;
  max_output = pos 65536;
  step_timeout = pos 7;
  retry_delay = pos 1;
}

abbrev files : Files
files = record {
  load_job = λ path. inl job;
  load_inventory = λ paths. inl fleet;
  read_report = λ path. inr [];
}

abbrev db : Target
db = record {
  endpoint = record {
    name = codes "db";
    address = codes "d";
    port = pos 22;
    username = codes "root";
    credential = credential;
  };
  group = [];
  tags = codes "all" ∷ [];
  variables = (codes "env", codes "test") ∷ [];
  bastion = none;
}

abbrev plans : List Prepared
plans =
    (record {
      target = db;
      actions = greeting ∷ logging_in (codes "s3cret") ∷ [];
      auth = some logged_in;
      bastion = none;
    })
    ∷ []

run-Checked_example : Checked digits files system env flags false plans (pos 1)
unfolding run pairs parse_max_failures trim_last ends_in prepare Variables.resolve
    Credentials.resolve lookup insert insert_all eq_bytes among before check_value add redact
    replace_all build build_step render references first retries_of reconnect_within is_prefix
    select resolve_host first_text first_port credential_of any_of is_shaped placed_hosts
    is_selected chosen sort_by_name
run-Checked_example = run-Checked digits files system env flags false plans (pos 1) refl
