-- ===== src/Runner/Schedule/Limits.antt =====
-- How many hosts run at a time, and how many may fail.
use remote_command_orchestra.Common.{
  ℕ, ◌+◌, ◌<◌, ◌≤◌, false, List, [], ◌∷◌, ◌++◌, ℤ, pos, negsuc, ◌≡◌, Bytes, codes, refl, sym, ap,
  subst, ◌∙◌, arith,
}
use remote_command_orchestra.Domain.{Status, skipped}
use remote_command_orchestra.Runner.Env.{Plan}
use remote_command_orchestra.Runner.Host.{HostResult, not_started}
use remote_command_orchestra.Runner.Schedule.{
  Options, slots, too_many, Entry, running, reported, settled, RunState, initial, count_failed,
  Step, refusal, interrupt, acquire, cancel, refuse, start, finish, release, Steps, here, further,
}
use remote_command_orchestra.Runner.Schedule.Weights.{
  total, total-middle, total-snoc, runs_host, holds, has_failed, one_if, sum_runs, sum_holds,
  sum_failed,
}

-- A bound on the failures at which no further host is started.
abbrev pub Within : ℤ → ℕ → ℕ → ℕ → Type 0
Within (negsuc m) conc run failures = Unit
Within (pos m) conc run failures = 0 < m → failures + run < m + conc

pub record Limited (o : Options) (s : RunState) : Type 0 where
  pub counted : s.tokens ≡ total (λ e. holds e) s.passed + one_if s.admitted
  pub bounded : s.tokens ≤ slots o
  pub tallied : s.failures ≡ total (λ e. has_failed e) s.passed
  pub tolerated : Within o.max_failures (slots o) (total (λ e. runs_host e) s.passed) s.failures

busy : (es : List Entry) → sum_runs es ≤ sum_holds es
unfolding total
busy [] = omega arith
busy (running p ∷ es) = omega (arith, busy es)
busy (reported p h ∷ es) = omega (arith, busy es)
busy (settled p h ∷ es) = omega (arith, busy es)

count_failed-add : (h : HostResult) (n : ℕ) → count_failed h n ≡ n + count_failed h 0
unfolding count_failed
count_failed-add h n = ground arith

pub slots-pos : (o : Options) → 0 < slots o
unfolding slots
slots-pos o = ground arith

count_failed_le : (h : HostResult) → count_failed h 0 ≤ 1
unfolding count_failed
count_failed_le h = ground arith

initial-Within : (m : ℤ) (conc : ℕ) → 0 < conc → Within m conc 0 0
initial-Within (pos m) conc h = λ k. omega arith
initial-Within (negsuc m) conc h = tt

initial-Limited : (o : Options) (plans : List Plan) → Limited o (initial plans)
unfolding total
initial-Limited o plans = record {
  counted = refl;
  bounded = omega arith;
  tallied = refl;
  tolerated = initial-Within o.max_failures (slots o) (slots-pos o);
}

Within-le :
    (m : ℤ) (conc run failures run' failures' : ℕ)
    → failures' + run' ≤ failures + run
    → Within m conc run failures
    → Within m conc run' failures'
Within-le (pos m) conc run failures run' failures' h k = λ z. (let y = k z in omega arith)
Within-le (negsuc m) conc run failures run' failures' h k = tt

Within-start :
    (m : ℤ) (conc run failures : ℕ)
    → too_many m failures ≡ false
    → run < conc
    → Within m conc (run + 1) failures
unfolding too_many
Within-start (pos m) conc run failures h k = λ z. ground arith
Within-start (negsuc m) conc run failures h k = tt

not_failed :
    (p : Plan) (reason : Bytes) (n : ℕ)
    → (count_failed (not_started p Status.cancelled reason) n ≡ n)
      × (count_failed (not_started p skipped reason) n ≡ n)
unfolding count_failed not_started
not_failed p reason n = (refl, refl)

settle_first :
    (s : RunState) (p : Plan) (h : HostResult)
    → let es = s.passed ++ settled p h ∷ [] in
      (sum_runs es ≡ sum_runs s.passed)
      × (sum_holds es ≡ sum_holds s.passed)
      × (sum_failed es ≡ sum_failed s.passed + count_failed h 0)
settle_first s p h = (
  total-snoc (λ e. runs_host e) s.passed (settled p h) ∙ omega arith,
  total-snoc (λ e. holds e) s.passed (settled p h) ∙ omega arith,
  total-snoc (λ e. has_failed e) s.passed (settled p h),
)

Limited-step : (o : Options) (s t : RunState) → Limited o s → Step o s t → Limited o t
Limited-step o s _ l (interrupt _ e) = record {
  counted = l.counted;
  bounded = l.bounded;
  tallied = l.tallied;
  tolerated = l.tolerated;
}
Limited-step o s _ l (acquire _ p ps e a k) = record {
  counted = ground (arith, l.counted);
  bounded = k;
  tallied = l.tallied;
  tolerated = l.tolerated;
}
Limited-step o s _ l (cancel _ p ps e a i) =
    let h = not_started p Status.cancelled (codes "cancelled before start") in
    let sums = settle_first s p h in
    let z = not_failed p (codes "cancelled before start") 0 in
    let n = not_failed p (codes "cancelled before start") s.failures in
    record {
      counted = ground (arith, l.counted, sums);
      bounded = l.bounded;
      tallied = ground (arith, l.tallied, sums, z, n);
      tolerated =
          Within-le o.max_failures (slots o) (sum_runs s.passed) s.failures _ _
            (ground (arith, sums, n)) l.tolerated;
    }
Limited-step o s _ l (refuse _ p ps e a i) =
    let sums = settle_first s p (not_started p skipped (refusal o s.failures)) in
    let z = not_failed p (refusal o s.failures) 0 in
    let n = not_failed p (refusal o s.failures) s.failures in
    record {
      counted = ground (arith, l.counted, sums, ap one_if a);
      bounded = ground (arith, l.bounded);
      tallied = ground (arith, l.tallied, sums, z, n);
      tolerated =
          Within-le o.max_failures (slots o) (sum_runs s.passed) s.failures _ _
            (ground (arith, sums, n)) l.tolerated;
    }
Limited-step o s _ l (start _ p ps e a i) =
    let runs_more = total-snoc (λ e. runs_host e) s.passed (running p) in
    let holds_more = total-snoc (λ e. holds e) s.passed (running p) in
    let none_failed = total-snoc (λ e. has_failed e) s.passed (running p) in
    record {
      counted = ground (arith, l.counted, holds_more, ap one_if a);
      bounded = l.bounded;
      tallied = ground (arith, l.tallied, none_failed);
      tolerated =
          subst (λ k. Within o.max_failures (slots o) k s.failures) (sym runs_more)
            (Within-start o.max_failures (slots o) (sum_runs s.passed) s.failures i
              (ground (arith, busy s.passed, l.counted, l.bounded, ap one_if a)));
    }
Limited-step o s _ l (finish _ es p h ds e) =
    let runs_then = ap (λ k. sum_runs k) e ∙ total-middle (λ e. runs_host e) es (running p) ds in
    let runs_now = total-middle (λ e. runs_host e) es (reported p h) ds in
    let holds_then = ap (λ k. sum_holds k) e ∙ total-middle (λ e. holds e) es (running p) ds in
    let holds_now = total-middle (λ e. holds e) es (reported p h) ds in
    let failed_then =
      ap (λ k. sum_failed k) e ∙ total-middle (λ e. has_failed e) es (running p) ds in
    let failed_now = total-middle (λ e. has_failed e) es (reported p h) ds in
    let n = count_failed-add h s.failures in
    record {
      counted = omega (arith, l.counted, holds_then, holds_now);
      bounded = l.bounded;
      tallied = omega (arith, l.tallied, n, failed_then, failed_now);
      tolerated =
          Within-le o.max_failures (slots o) (sum_runs s.passed) s.failures _ _
            (omega (arith, n, count_failed_le h, runs_then, runs_now)) l.tolerated;
    }
Limited-step o s _ l (release _ es p h ds e) =
    let runs_then = ap (λ k. sum_runs k) e ∙ total-middle (λ e. runs_host e) es (reported p h) ds in
    let runs_now = total-middle (λ e. runs_host e) es (settled p h) ds in
    let holds_then = ap (λ k. sum_holds k) e ∙ total-middle (λ e. holds e) es (reported p h) ds in
    let holds_now = total-middle (λ e. holds e) es (settled p h) ds in
    let failed_then =
      ap (λ k. sum_failed k) e ∙ total-middle (λ e. has_failed e) es (reported p h) ds in
    let failed_now = total-middle (λ e. has_failed e) es (settled p h) ds in
    record {
      counted = omega (arith, l.counted, holds_then, holds_now);
      bounded = omega (arith, l.bounded);
      tallied = omega (arith, l.tallied, failed_then, failed_now);
      tolerated =
          Within-le o.max_failures (slots o) (sum_runs s.passed) s.failures _ _
            (omega (arith, runs_then, runs_now)) l.tolerated;
    }

Limited-Steps : (o : Options) (n : ℕ) (s t : RunState) → Limited o s → Steps o n s t → Limited o t
Limited-Steps o _ s _ l (here _) = l
Limited-Steps o _ s u l (further n _ t _ before last) =
    Limited-step o t u (Limited-Steps o n s t l before) last

-- Every state of a run is within its limits.
pub run_is_Limited :
    (o : Options) (plans : List Plan) (n : ℕ) (s : RunState)
    → Steps o n (initial plans) s
    → Limited o s
run_is_Limited o plans n s steps =
    Limited-Steps o n (initial plans) s (initial-Limited o plans) steps

-- At every moment of a run at most max(1, concurrency) hosts are running, the failed counter is
-- the number of reported hosts that failed, and where max_failures is m > 0, the failed hosts and
-- the running ones together are at most m - 1 + max(1, concurrency).
pub run_limits :
    (o : Options) (plans : List Plan) (n : ℕ) (s : RunState)
    → Steps o n (initial plans) s
    → (sum_runs s.passed ≤ slots o)
      × (s.failures ≡ sum_failed s.passed)
      × Within o.max_failures (slots o) (sum_runs s.passed) s.failures
run_limits o plans n s steps =
    let l = run_is_Limited o plans n s steps in
    (ground (arith, busy s.passed, l.counted, l.bounded), l.tallied, l.tolerated)
