-- ===== src/Lib.antt =====
-- A verification library of rco, the remote command orchestrator: it runs a job file's steps on
-- many hosts over SSH. Paths below are from the repository's root.
--
-- The program. internal/cli checks the flags, loads the job (internal/job) and the inventory
-- (internal/inventory), which resolves the hosts, and has internal/runner prepare one plan for each
-- host: its variables, its actions with the command line that the remote shell gets for each, and
-- the secrets of its credentials (internal/credentials), which also removes secrets from what is
-- shown. The runner then starts hosts under a semaphore; for each it connects with retries, runs
-- the actions one after the other, waits for a host that a step reboots, and collects the results.
-- internal/sshx checks host keys, shares connections to bastions, classifies errors, and runs one
-- command and keeps a bounded part of its output.
--
-- The files.
--   Common        lists, numbers, ℤ and byte strings over the native ℕ; results; Go maps as
--                 association lists, where the order of the list is the order of a range over the map.
--   Domain        internal/domain/domain.go: statuses, categories, failures, endpoints.
--   Sshx          internal/sshx/buffer.go (Buffer: NewBuffer, Write, scan, Found, String),
--                 internal/sshx/exec.go (Exec, from what becomes of a session to the result),
--                 internal/sshx/bastion.go (Bastion: get, evict, broken, Close), HostKeys of
--                 internal/sshx/dial.go (Callback, load, verifier, add), and
--                 internal/sshx/classify.go (Classify, with prefix and knownAlgorithms of dial.go).
--   Job.Shell     internal/job/build.go: Remote, Quote, cleanup. Words states what a POSIX shell
--                 reads in a command line, as far as the first simple command goes.
--   Job.Template  internal/job/variables.go: References and Render.
--   Job.Variables internal/job/variables.go: CheckValue and Resolve.
--   Job.Model     internal/job/build.go: Build, with the types of internal/job/job.go.
--   Job.Validate  internal/job/job.go: Validate, checkRefs, ParseMaxFailures.
--   Credentials   internal/credentials/credentials.go: the Redactor, and Resolve with loadKey and
--                 ExpandHome.
--   Inventory     internal/inventory/inventory.go: Resolve (resolve, credential), Select (Select),
--                 Load (Load, Parse, mergeInto).
--   Runner        internal/runner/runner.go: Prepare (Prepare), Env (Plan, Runner, sleep, dial),
--                 Step (attempt, check, mask, runStep), Reconnect (bootID, waitForHost), Disconnect
--                 (runDisconnecting), Connect (connect, backoff), Host (runHost, notStarted,
--                 needsSudoPassword), Schedule (Run), and Report of internal/runner/report.go
--                 (finish, OK, String). Once joins a job's Build to the host's run.
--   Cli           internal/cli/cli.go: run up to the first contact with a host, pairs, and the
--                 choice of hosts of onlyFailed in internal/cli/reports.go.
--   Examples      the theorems at concrete inputs.
--
-- State and effects. A goroutine of a host is a function of a world, a state of any type with a
-- trace of what was asked of the host. The network, the remote host, the clock, the random jitter
-- and the user's interrupt are the fields of the record Env, which may answer anything at any
-- time; every statement is over all of them. The SSH library behind Exec is its Outcome: not
-- opened, not started, or the writes to both streams and the end. Run and the pool of bastions are
-- relations of atomic steps, in any order that the semaphore or the mutex allows. Everything before
-- the run is a function of its inputs: the process environment, the readers and decoders of files,
-- the parser of keys, of numbers and of regular expressions are parameters.
--
-- Bounds and fuel. Durations are signed nanoseconds; the 64-bit shift of backoff wraps around, and
-- other sums of durations are taken as exact. The rounds of runStep and of connect are the retries
-- that are left. waitForHost is given timeout/5s + 2 rounds, which is shown to be enough on a
-- clock that does not run backwards and shows at least the length of every pause that is not cut
-- short; a scan of a template is given the length of its text.
-- backoff's panic is `none`, and so is a host that it ends.
--
-- Not modelled: YAML and JSON decoding (an empty list or map that is written out counts as one that
-- is left out), reading and hashing files, parsing flags, printing, reports and logging, and the
-- calls of the network and of the SSH library in Dial, dialTCP and handshake.
pub mod Common
pub mod Domain
pub mod Sshx
pub mod Job
pub mod Credentials
pub mod Inventory
pub mod Runner
pub mod Cli
pub mod Examples
