-- ===== src/Runner/Schedule.antt =====
-- Run of internal/runner/runner.go: the loop that starts the hosts, the goroutines that run them,
-- and finish. A run is a sequence of the atomic steps of these, in any order that the semaphore
-- allows; what runHost makes of a host is any result. Progress lines, the callback OnHostDone and
-- the closing of bastions are not modelled.
pub mod Weights
pub mod Limits
pub mod Complete
use remote_command_orchestra.Common.{
  ℕ, suc, ◌+◌, ◌-◌, ◌<◌, ltb, leb, Bool, true, false, ◌&&◌, List, [], ◌∷◌, ◌++◌, map, Bytes, codes,
  decimal, max, ℤ, pos, negsuc, ◌≡◌, if◌then◌else◌, length,
}
use remote_command_orchestra.Domain.{Status, skipped, same_status, itoa}
use remote_command_orchestra.Runner.Env.{Plan}
use remote_command_orchestra.Runner.Host.{HostResult, not_started}

-- The options of the runner that Run reads.
pub record Options : Type 0 where
  pub concurrency : ℤ
  pub max_failures : ℤ

-- `max(1, r.opts.Concurrency)`.
unfoldable pub slots : Options → ℕ
slots o = elim o.concurrency [ pos n ↦ max 1 n | negsuc n ↦ 1 ]

-- `m > 0 && failed.Load() >= int64(m)`.
unfoldable pub too_many : ℤ → ℕ → Bool
too_many (pos m) failures = ltb 0 m && leb m failures
too_many (negsuc m) failures = false

-- A plan that the loop is done with: its goroutine runs, has reported its result and still holds
-- the semaphore, or there is none (any more).
pub data Entry : Type 0 where
  running : Plan → Entry
  reported : Plan → HostResult → Entry
  settled : Plan → HostResult → Entry

-- `passed` holds the plans that the loop has left behind, `left` the others, in the order of
-- r.Plans. The loop has the semaphore for the first of `left` if `admitted`; `tokens` counts the
-- values in the channel sem, `failures` is the counter failed.
pub record RunState : Type 0 where
  pub passed : List Entry
  pub admitted : Bool
  pub left : List Plan
  pub tokens : ℕ
  pub failures : ℕ
  pub interrupted : Bool

abbrev pub initial : List Plan → RunState
initial plans = record {
  passed = [];
  admitted = false;
  left = plans;
  tokens = 0;
  failures = 0;
  interrupted = false;
}

-- The closure finish counts a failed host.
unfoldable pub count_failed : HostResult → ℕ → ℕ
count_failed h failures = if same_status h.status Status.failed then suc failures else failures

unfoldable pub refusal : Options → ℕ → Bytes
refusal o failures =
    codes "not started: "
    ++ (decimal failures
        ++ (codes " hosts failed (--max-failures " ++ (itoa o.max_failures ++ codes ")")))

-- What the steps make of the state. The plan and those behind it are the ones left before.
abbrev pub acquired : RunState → RunState
acquired s = record s { admitted = true; tokens = suc s.tokens }

abbrev pub cancelled_first : RunState → Plan → List Plan → RunState
cancelled_first s p ps =
    let h = not_started p Status.cancelled (codes "cancelled before start") in
    record s {
      passed = s.passed ++ settled p h ∷ [];
      left = ps;
      failures = count_failed h s.failures;
    }

abbrev pub refused_first : Options → RunState → Plan → List Plan → RunState
refused_first o s p ps =
    let h = not_started p skipped (refusal o s.failures) in
    record s {
      passed = s.passed ++ settled p h ∷ [];
      admitted = false;
      left = ps;
      tokens = s.tokens - 1;
      failures = count_failed h s.failures;
    }

abbrev pub started_first : RunState → Plan → List Plan → RunState
started_first s p ps = record s { passed = s.passed ++ running p ∷ []; admitted = false; left = ps }

abbrev pub finished_at : RunState → List Entry → Plan → HostResult → List Entry → RunState
finished_at s before p h after = record s {
  passed = before ++ reported p h ∷ after;
  failures = count_failed h s.failures;
}

abbrev pub released_at : RunState → List Entry → Plan → HostResult → List Entry → RunState
released_at s before p h after = record s {
  passed = before ++ settled p h ∷ after;
  tokens = s.tokens - 1;
}

pub data Step (o : Options) : RunState → RunState → Type 0 where
  -- The user interrupts the run.
  interrupt : (s : RunState) → s.interrupted ≡ false → Step o s (record s { interrupted = true })
  -- The loop sends to sem.
  acquire :
      (s : RunState) (p : Plan) (ps : List Plan)
      → s.left ≡ p ∷ ps
      → s.admitted ≡ false
      → s.tokens < slots o
      → Step o s (acquired s)
  -- The loop meets ctx.Done() instead.
  cancel :
      (s : RunState) (p : Plan) (ps : List Plan)
      → s.left ≡ p ∷ ps
      → s.admitted ≡ false
      → s.interrupted ≡ true
      → Step o s (cancelled_first s p ps)
  -- Too many hosts have failed: sem is received from, and the host is skipped.
  refuse :
      (s : RunState) (p : Plan) (ps : List Plan)
      → s.left ≡ p ∷ ps
      → s.admitted ≡ true
      → too_many o.max_failures s.failures ≡ true
      → Step o s (refused_first o s p ps)
  -- A goroutine is started for the host.
  start :
      (s : RunState) (p : Plan) (ps : List Plan)
      → s.left ≡ p ∷ ps
      → s.admitted ≡ true
      → too_many o.max_failures s.failures ≡ false
      → Step o s (started_first s p ps)
  -- A goroutine's runHost has returned, and finish is called.
  finish :
      (s : RunState) (before : List Entry) (p : Plan) (h : HostResult) (after : List Entry)
      → s.passed ≡ before ++ running p ∷ after
      → Step o s (finished_at s before p h after)
  -- A goroutine's deferred function receives from sem.
  release :
      (s : RunState) (before : List Entry) (p : Plan) (h : HostResult) (after : List Entry)
      → s.passed ≡ before ++ reported p h ∷ after
      → Step o s (released_at s before p h after)

-- A run of so many steps.
pub data Steps (o : Options) : ℕ → RunState → RunState → Type 0 where
  here : (s : RunState) → Steps o 0 s s
  further : (n : ℕ) (s t u : RunState) → Steps o n s t → Step o t u → Steps o (suc n) s u

-- The report's hosts, where wg.Wait() has returned.
unfoldable pub results : List Entry → List HostResult
results [] = []
results (running p ∷ es) = results es
results (reported p h ∷ es) = h ∷ results es
results (settled p h ∷ es) = h ∷ results es
