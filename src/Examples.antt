-- ===== src/Examples.antt =====
-- The world in which the theorems of the library are tried on concrete inputs.
mod Output
mod Steps
mod Hosts
mod Jobs
mod Fleet
mod Setup
mod Transport
mod Command
use remote_command_orchestra.Common.{
  ℕ, suc, ◌+◌, Bool, true, false, List, [], ◌∷◌, Bytes, codes, Option, none, some, ℤ, pos,
  if◌then◌else◌, ◌==◌, ltb,
}
use remote_command_orchestra.Domain.{Credential, Endpoint, Target, classified, auth_failed}
use remote_command_orchestra.Job.Shell.{Kind, command, Action}
use remote_command_orchestra.Sshx.Exec.{ran, exited}
use remote_command_orchestra.Runner.Env.{Env, World, Plan, Runner, connected, refused}

abbrev pub credential : Credential
credential = record {
  name = codes "ops";
  type = codes "password";
  username = codes "root";
  password_env = codes "PW";
  key_file = [];
  passphrase_env = [];
  sudo_password_env = [];
}

abbrev pub target : Target
target = record {
  endpoint = record {
    name = codes "web1";
    address = codes "10.0.0.1";
    port = pos 22;
    username = codes "root";
    credential = credential;
  };
  group = codes "web";
  tags = [];
  variables = [];
  bastion = none;
}

abbrev pub uptime : Action
uptime = record {
  name = codes "up";
  kind = command;
  display = codes "uptime";
  shell = codes "uptime";
  content = none;
  dest = [];
  mode = [];
  sudo = false;
  exit_code = pos 0;
  contains = [];
  not_contains = [];
  regex = none;
  timeout = pos 9;
  retries = pos 0;
  retry_delay = pos 0;
  continue_on_error = false;
  sensitive = false;
  reboot = false;
  disconnect = false;
  reconnect_timeout = pos 0;
  fire_and_forget = false;
}

abbrev pub plan : Plan
plan = record {
  target = target;
  actions = uptime ∷ [];
  auth = record { methods = []; sudo_password = []; secrets = [] };
  bastion = none;
}

abbrev pub runner : Runner
runner = record {
  connect_retries = pos 2;
  retry_delay = pos 1;
  max_retry_delay = pos 8;
  max_output = 64;
  secrets = [];
}

-- The state counts the nanoseconds. The host answers every command with the state at which it was
-- last dialled, its boot ID, and exits as `code` says; a session takes no time.
abbrev pub host_with : ℤ → Env ℕ ℕ
host_with code = record {
  dial = λ p d s. (connected s, suc s);
  session = λ c q s. (ran (codes "id" ∷ (suc c ∷ []) ∷ []) [] (exited code), s);
  close = λ c s. s;
  alive = λ c s. (false, s);
  watch = λ c s. s;
  unwatch = λ c s. s;
  is_cancelled = λ s. false;
  wait = λ d s. (true, elim d [ pos n ↦ s + n | _ ↦ s ]);
  now = λ s. pos s;
  jitter = λ bound s. (pos 0, s);
  show_duration = λ d. [];
  show_elapsed = λ d e. [];
  matches = λ p s. true;
}

abbrev pub host : Env ℕ ℕ
host = host_with (pos 0)

-- The same host, where the user is not let in.
abbrev pub locked : Env ℕ ℕ
locked = record host {
  dial = λ p d s. (refused (classified (record { category = auth_failed; reason = [] })), suc s);
}

abbrev pub world : World ℕ
world = record { state = 0; trace = [] }
