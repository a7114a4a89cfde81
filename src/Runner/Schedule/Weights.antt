-- ===== src/Runner/Schedule/Weights.antt =====
-- Sums of weights over the plans that the loop of Run has left behind.
use remote_command_orchestra.Common.{ℕ, ◌+◌, Bool, true, false, List, [], ◌∷◌, ◌++◌, ◌≡◌, arith}
use remote_command_orchestra.Runner.Schedule.{Entry, running, reported, settled, count_failed}

-- The sum of a weight over the entries.
unfoldable pub total : (Entry → ℕ) → List Entry → ℕ
total f [] = 0
total f (e ∷ es) = f e + total f es

pub total-append :
    (f : Entry → ℕ) (es ds : List Entry) → total f (es ++ ds) ≡ total f es + total f ds
unfolding total
total-append f [] ds = omega arith
total-append f (e ∷ es) ds = omega (arith, total-append f es ds)

pub total-middle :
    (f : Entry → ℕ) (es : List Entry) (e : Entry) (ds : List Entry)
    → total f (es ++ e ∷ ds) ≡ total f es + (f e + total f ds)
unfolding total
total-middle f es e ds = total-append f es (e ∷ ds)

pub total-snoc :
    (f : Entry → ℕ) (es : List Entry) (e : Entry) → total f (es ++ e ∷ []) ≡ total f es + f e
unfolding total
total-snoc f es e = omega (arith, total-append f es (e ∷ []))

-- A goroutine that runs its host.
abbrev pub runs_host : Entry → ℕ
runs_host (running p) = 1
runs_host (reported p h) = 0
runs_host (settled p h) = 0

-- A goroutine that exists, so that it holds the semaphore.
abbrev pub holds : Entry → ℕ
holds (running p) = 1
holds (reported p h) = 1
holds (settled p h) = 0

-- A host that is reported failed.
abbrev pub has_failed : Entry → ℕ
has_failed (running p) = 0
has_failed (reported p h) = count_failed h 0
has_failed (settled p h) = count_failed h 0

abbrev pub one_if : Bool → ℕ
one_if true = 1
one_if false = 0

abbrev pub sum_runs : List Entry → ℕ
sum_runs es = total (λ e. runs_host e) es

abbrev pub sum_holds : List Entry → ℕ
sum_holds es = total (λ e. holds e) es

abbrev pub sum_failed : List Entry → ℕ
sum_failed es = total (λ e. has_failed e) es
