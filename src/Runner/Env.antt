-- ===== src/Runner/Env.antt =====
-- What the runner uses of the network, of the clock and of the context, and its options.
use remote_command_orchestra.Common.{
  ℕ, suc, Bool, true, false, List, [], ◌∷◌, Bytes, Option, ℤ, pos, leb_ℤ,
}
use remote_command_orchestra.Domain.{Error, Failure, Target}
use remote_command_orchestra.Credentials.Resolve.{Auth}
use remote_command_orchestra.Job.Shell.{Action}
use remote_command_orchestra.Sshx.Exec.{Request, Result, Outcome, exec}

pub record Plan : Type 0 where
  pub target : Target
  pub actions : List Action
  pub auth : Auth
  pub bastion : Option Auth

pub record Runner : Type 0 where
  pub connect_retries : ℤ
  pub retry_delay : ℤ
  pub max_retry_delay : ℤ
  pub max_output : ℕ
  pub secrets : List Bytes

-- The result of dialing: a connection, or an error.
pub data Dialed (C : Type 0) : Type 0 where
  connected : C → Dialed C
  refused : Error → Dialed C

-- The world that a host's goroutine meets: `W` is its state and `C` a connection. Every answer may
-- depend on all that happened before, so a statement over all of these covers every behaviour of
-- the network, of the remote host, of the clock and of the user's interrupt.
pub record Env (C W : Type 0) : Type 0 where
  -- The Dialer's Dial, under a deadline if one is given.
  pub dial : Plan → Option ℤ → W → Dialed C × W
  -- What becomes of a session for the request.
  pub session : C → Request → W → Outcome × W
  pub close : C → W → W
  -- sshx.Alive, and starting and stopping sshx.KeepAlive.
  pub alive : C → W → Bool × W
  pub watch : C → W → W
  pub unwatch : C → W → W
  -- ctx.Err() is not nil.
  pub is_cancelled : W → Bool
  -- A timer of a positive duration against ctx.Done(): true if the timer won.
  pub wait : ℤ → W → Bool × W
  -- time.Now().
  pub now : W → ℤ
  -- rand.N(n) for a positive n.
  pub jitter : ℤ → W → ℤ × W
  -- The text of a duration, and of the time between two readings of the clock, in seconds.
  pub show_duration : ℤ → Bytes
  pub show_elapsed : ℤ → ℤ → Bytes
  -- The regular expression engine: pattern, text.
  pub matches : Bytes → Bytes → Bool

-- What was asked of the remote host, the latest first. The program keeps no such record; it lets
-- the theorems speak of the order and the number of the calls.
pub data Event : Type 0 where
  dialled : Event
  uploaded : Request → Event
  ran : Request → Event
  probed_sudo : Event
  read_boot_id : Event
  paused : ℤ → Event

pub record World (W : Type 0) : Type 0 where
  pub state : W
  pub trace : List Event

-- How often a step's own command was sent to the host.
unfoldable pub runs : List Event → ℕ
runs [] = 0
runs (ran req ∷ es) = suc (runs es)
runs (dialled ∷ es) = runs es
runs (uploaded req ∷ es) = runs es
runs (probed_sudo ∷ es) = runs es
runs (read_boot_id ∷ es) = runs es
runs (paused d ∷ es) = runs es

unfoldable pub dials : List Event → ℕ
dials [] = 0
dials (dialled ∷ es) = suc (dials es)
dials (ran req ∷ es) = dials es
dials (uploaded req ∷ es) = dials es
dials (probed_sudo ∷ es) = dials es
dials (read_boot_id ∷ es) = dials es
dials (paused d ∷ es) = dials es

module _ {C W : Type 0} (env : Env C W) where
  -- sshx.Exec on a connection.
  unfoldable pub exec_on : Event → C → Request → World W → (Result × Option Failure) × World W
  exec_on e c req w =
      let (outcome, s) = env.session c req w.state in
      (exec (env.show_duration req.timeout) req outcome, record { state = s; trace = e ∷ w.trace })

  -- sleep of runner.go: true where the source returns an error.
  unfoldable pub sleep_fails : ℤ → World W → Bool × World W
  sleep_fails d w = elim (leb_ℤ d (pos 0)) [
    | true ↦ (env.is_cancelled w.state, w)
    | false ↦
        let (done, s) = env.wait d w.state in
        (
          elim done [ true ↦ false | false ↦ true ],
          record { state = s; trace = paused d ∷ w.trace },
        )
  ]

  unfoldable pub dial_plan : Plan → Option ℤ → World W → Dialed C × World W
  dial_plan p deadline w =
      let (answer, s) = env.dial p deadline w.state in
      (answer, record { state = s; trace = dialled ∷ w.trace })
