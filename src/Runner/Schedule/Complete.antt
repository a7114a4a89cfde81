-- ===== src/Runner/Schedule/Complete.antt =====
-- Run ends, and its report holds one result for every plan, in order.
use remote_command_orchestra.Common.{
  ℕ, suc, ◌+◌, ◌-◌, ◌*◌, ◌<◌, ◌≤◌, Bool, true, false, List, [], ◌∷◌, ◌++◌, append_assoc, append-nil,
  length, codes, ◌≡◌, ◌⊎◌, inl, inr, refl, sym, ap, ◌∙◌, arith, Bool-cases,
}
use remote_command_orchestra.Domain.{Status, success, skipped}
use remote_command_orchestra.Runner.Env.{Plan}
use remote_command_orchestra.Runner.Host.{HostResult, host_result, not_started}
use remote_command_orchestra.Runner.Schedule.{
  Options, too_many, Entry, running, reported, settled, RunState, initial, Step, interrupt, acquire,
  cancel, refuse, start, finish, release, Steps, here, further, results, acquired, refused_first,
  started_first, finished_at, refusal, released_at,
}
use remote_command_orchestra.Runner.Schedule.Weights.{
  total, total-middle, total-snoc, holds, one_if,
}
use remote_command_orchestra.Runner.Schedule.Limits.{Limited, run_is_Limited, slots-pos}

-- The plans that the loop has left behind.
unfoldable pub plans_of : List Entry → List Plan
plans_of [] = []
plans_of (running p ∷ es) = p ∷ plans_of es
plans_of (reported p h ∷ es) = p ∷ plans_of es
plans_of (settled p h ∷ es) = p ∷ plans_of es

plans_of-append : (es ds : List Entry) → plans_of (es ++ ds) ≡ plans_of es ++ plans_of ds
unfolding plans_of
plans_of-append [] ds = refl
plans_of-append (running p ∷ es) ds = ap (λ k. p ∷ k) (plans_of-append es ds)
plans_of-append (reported p h ∷ es) ds = ap (λ k. p ∷ k) (plans_of-append es ds)
plans_of-append (settled p h ∷ es) ds = ap (λ k. p ∷ k) (plans_of-append es ds)

-- Every plan is in its place: behind the loop, or still before it.
abbrev InOrder : List Plan → RunState → Type 0
InOrder plans s = plans_of s.passed ++ s.left ≡ plans

plans_of-length : (es : List Entry) → length (plans_of es) ≡ length es
unfolding plans_of
plans_of-length [] = refl
plans_of-length (running p ∷ es) = ap (λ k. suc k) (plans_of-length es)
plans_of-length (reported p h ∷ es) = ap (λ k. suc k) (plans_of-length es)
plans_of-length (settled p h ∷ es) = ap (λ k. suc k) (plans_of-length es)

passes_first :
    (plans : List Plan) (s : RunState) (e : Entry) (p : Plan) (ps : List Plan)
    → plans_of (e ∷ []) ≡ p ∷ []
    → s.left ≡ p ∷ ps
    → InOrder plans s
    → plans_of (s.passed ++ e ∷ []) ++ ps ≡ plans
passes_first plans s e p ps one l h =
    ap (λ k. k ++ ps) (plans_of-append s.passed (e ∷ []))
    ∙ (ap (λ k. (plans_of s.passed ++ k) ++ ps) one
        ∙ (append_assoc (plans_of s.passed) (p ∷ []) ps
            ∙ (ap (λ k. plans_of s.passed ++ k) (sym l) ∙ h)))

changes_middle :
    (plans : List Plan) (s : RunState) (es : List Entry) (e e' : Entry) (ds : List Entry)
    → plans_of (e ∷ ds) ≡ plans_of (e' ∷ ds)
    → s.passed ≡ es ++ e ∷ ds
    → InOrder plans s
    → plans_of (es ++ e' ∷ ds) ++ s.left ≡ plans
changes_middle plans s es e e' ds same k h =
    ap (λ k. k ++ s.left)
      (plans_of-append es (e' ∷ ds)
        ∙ (ap (λ k. plans_of es ++ k) (sym same)
            ∙ (sym (plans_of-append es (e ∷ ds)) ∙ ap (λ k. plans_of k) (sym k))))
    ∙ h

InOrder-step :
    (o : Options) (plans : List Plan) (s t : RunState)
    → InOrder plans s
    → Step o s t
    → InOrder plans t
unfolding plans_of
InOrder-step o plans s _ h (interrupt _ e) = h
InOrder-step o plans s _ h (acquire _ p ps e a k) = h
InOrder-step o plans s _ h (cancel _ p ps e a k) = passes_first plans s _ p ps refl e h
InOrder-step o plans s _ h (refuse _ p ps e a k) = passes_first plans s _ p ps refl e h
InOrder-step o plans s _ h (start _ p ps e a k) = passes_first plans s _ p ps refl e h
InOrder-step o plans s _ h (finish _ es p r ds e) =
    changes_middle plans s es (running p) (reported p r) ds refl e h
InOrder-step o plans s _ h (release _ es p r ds e) =
    changes_middle plans s es (reported p r) (settled p r) ds refl e h

InOrder-Steps :
    (o : Options) (plans : List Plan) (n : ℕ) (s t : RunState)
    → InOrder plans s
    → Steps o n s t
    → InOrder plans t
InOrder-Steps o plans _ s _ h (here _) = h
InOrder-Steps o plans _ s u h (further n _ t _ before last) =
    InOrder-step o plans t u (InOrder-Steps o plans n s t h before) last

-- The work that is left: at most four steps for a plan, and one for the interrupt.
abbrev work : Entry → ℕ
work (running p) = 2
work (reported p h) = 1
work (settled p h) = 0

abbrev remaining : RunState → ℕ
remaining s =
    total (λ e. work e) s.passed
    + 4 * length s.left
    + (1 - one_if s.interrupted)
    + (1 - one_if s.admitted)

remaining-step : (o : Options) (s t : RunState) → Step o s t → remaining t < remaining s
remaining-step o s _ (interrupt _ e) = ground (arith, ap one_if e)
remaining-step o s _ (acquire _ p ps e a k) = ground (arith, ap length e)
remaining-step o s _ (cancel _ p ps e a k) =
    let h = not_started p Status.cancelled (codes "cancelled before start") in
    ground (arith, ap length e, total-snoc (λ e. work e) s.passed (settled p h))
remaining-step o s _ (refuse _ p ps e a k) =
    let h = not_started p skipped (refusal o s.failures) in
    ground (arith, ap length e, total-snoc (λ e. work e) s.passed (settled p h))
remaining-step o s _ (start _ p ps e a k) =
    ground (arith, ap length e, total-snoc (λ e. work e) s.passed (running p))
remaining-step o s _ (finish _ es p r ds e) = ground (
  arith,
  ap (λ k. total (λ e. work e) k) e,
  total-middle (λ e. work e) es (running p) ds,
  total-middle (λ e. work e) es (reported p r) ds,
)
remaining-step o s _ (release _ es p r ds e) = ground (
  arith,
  ap (λ k. total (λ e. work e) k) e,
  total-middle (λ e. work e) es (reported p r) ds,
  total-middle (λ e. work e) es (settled p r) ds,
)

-- What there is to do in a list of entries.
data Pending (es : List Entry) : Type 0 where
  to_finish :
      (before : List Entry) (p : Plan) (after : List Entry)
      → es ≡ before ++ running p ∷ after
      → Pending es
  to_release :
      (before : List Entry) (p : Plan) (h : HostResult) (after : List Entry)
      → es ≡ before ++ reported p h ∷ after
      → Pending es
  -- No goroutine is left.
  all_settled : total (λ e. holds e) es ≡ 0 → length (results es) ≡ length es → Pending es

behind : (p : Plan) (h : HostResult) (es : List Entry) → Pending es → Pending (settled p h ∷ es)
unfolding total results
behind p h es (to_finish before q after e) =
    to_finish (settled p h ∷ before) q after (ap (λ k. settled p h ∷ k) e)
behind p h es (to_release before q k after e) =
    to_release (settled p h ∷ before) q k after (ap (λ k. settled p h ∷ k) e)
behind p h es (all_settled e r) = all_settled (omega (arith, e)) (ap (λ k. suc k) r)

pending : (es : List Entry) → Pending es
unfolding total results
pending [] = all_settled refl refl
pending (running p ∷ es) = to_finish [] p es refl
pending (reported p h ∷ es) = to_release [] p h es refl
pending (settled p h ∷ es) = behind p h es (pending es)

-- The loop has left all plans behind, and no goroutine is left: wg.Wait() returns.
pub record Finished (plans : List Plan) (s : RunState) : Type 0 where
  pub none_left : s.left ≡ []
  pub in_order : plans_of s.passed ≡ plans
  pub all_reported : length (results s.passed) ≡ length plans

-- A step that the loop or a goroutine can take now: it is not the user's interrupt.
abbrev pub Next : Options → RunState → Type 0
Next o s = (t : RunState) × Step o s t × (t.interrupted ≡ s.interrupted)

idle :
    (o : Options) (plans : List Plan) (s : RunState) (left : List Plan) (admitted : Bool)
    → s.left ≡ left
    → s.admitted ≡ admitted
    → Limited o s
    → InOrder plans s
    → total (λ e. holds e) s.passed ≡ 0
    → length (results s.passed) ≡ length s.passed
    → Finished plans s ⊎ Next o s
idle o plans s [] a e d l i z r =
    let order =
      sym (append-nil (plans_of s.passed)) ∙ (ap (λ k. plans_of s.passed ++ k) (sym e) ∙ i) in
    inl (record {
      none_left = e;
      in_order = order;
      all_reported = r ∙ (sym (plans_of-length s.passed) ∙ ap length order);
    })
idle o plans s (p ∷ ps) true e d l i z r = elim (Bool-cases (too_many o.max_failures s.failures)) [
  | inl full ↦ inr (refused_first o s p ps, refuse s p ps e d full, refl)
  | inr going ↦ inr (started_first s p ps, start s p ps e d going, refl)
]
idle o plans s (p ∷ ps) false e d l i z r =
    inr (
      acquired s,
      acquire s p ps e d (ground (arith, l.counted, z, slots-pos o, ap one_if d)),
      refl,
    )

advances :
    (o : Options) (plans : List Plan) (s : RunState)
    → Limited o s
    → InOrder plans s
    → Pending s.passed
    → Finished plans s ⊎ Next o s
advances o plans s l i (to_finish before p after e) =
    let h = host_result p success in
    inr (finished_at s before p h after, finish s before p h after e, refl)
advances o plans s l i (to_release before p h after e) =
    inr (released_at s before p h after, release s before p h after e, refl)
advances o plans s l i (all_settled z r) = idle o plans s s.left s.admitted refl refl l i z r

remaining-Steps :
    (o : Options) (n : ℕ) (s t : RunState) → Steps o n s t → remaining t + n ≤ remaining s
remaining-Steps o _ s _ (here _) = omega arith
remaining-Steps o _ s u (further n _ t _ before last) =
    omega (arith, remaining-Steps o n s t before, remaining-step o t u last)

-- In whatever order a run's steps come, it has at most 4n + 2 of them for n plans, and while it has
-- not finished there is a step that the loop or a goroutine can take without the user's
-- interrupt, so the loop never waits for itself; once finished, the loop has left all plans
-- behind, in their order, and the report holds as many results as there are plans.
pub run_completes :
    (o : Options) (plans : List Plan) (n : ℕ) (s : RunState)
    → Steps o n (initial plans) s
    → (n ≤ 4 * length plans + 2) × (Finished plans s ⊎ Next o s)
unfolding plans_of total
run_completes o plans n s steps = (
  omega (arith, remaining-Steps o n (initial plans) s steps),
  advances o plans s (run_is_Limited o plans n s steps)
      (InOrder-Steps o plans n (initial plans) s refl steps) (pending s.passed),
)
