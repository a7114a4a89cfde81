-- ===== src/Runner/Step/Check.antt =====
-- When a step's expectations hold, in terms of the streams that its command wrote.
use remote_command_orchestra.Common.{
  ℕ, suc, Bool, true, false, ◌||◌, List, [], ◌∷◌, ◌++◌, Bytes, contains, contains_iff, Occurs,
  length, length-append, get_elem?, get_elem?-append, All, concat, Option, none, some, eqb_ℤ_iff,
  ◌≡◌, ◌≢◌, ◌↔◌, ◌⊎◌, inl, inr, refl, ap, subst, arith, append_assoc, append-nil, Bool-cases,
}
use remote_command_orchestra.Domain.{Failure}
use remote_command_orchestra.Job.Shell.{Action}
use remote_command_orchestra.Sshx.Buffer.{new_buffer, write_all}
use remote_command_orchestra.Sshx.Buffer.Search.{found_at-contains}
use remote_command_orchestra.Sshx.Exec.{
  Request, Result, Ending, exited, missing, broke, timed_out, cancelled, exec, ran, found,
}
use remote_command_orchestra.Runner.Step.{
  check, check_exit, missing_text, forbidden_text, wrong_pattern, or_else,
}

exec-buffers :
    (span : Bytes) (req : Request) (outs errs : List Bytes) (ending : Ending)
    → (exec span req (ran outs errs ending)).0.buffers
      ≡ some (
        write_all (new_buffer req.max_output req.patterns) outs,
        write_all (new_buffer req.max_output req.patterns) errs,
      )
unfolding exec
exec-buffers span req outs errs (exited code) = refl
exec-buffers span req outs errs missing = refl
exec-buffers span req outs errs (broke text) = refl
exec-buffers span req outs errs timed_out = refl
exec-buffers span req outs errs cancelled = refl

-- The texts stand among the patterns from an index on.
abbrev Located : List Bytes → ℕ → List Bytes → Type 0
Located pats i [] = Unit
Located pats i (s ∷ texts) = (get_elem? pats i ≡ some s) × Located pats (suc i) texts

Located-append :
    (pats pre texts post : List Bytes)
    → pats ≡ pre ++ (texts ++ post)
    → Located pats (length pre) texts
Located-append pats pre [] post e = tt
Located-append pats pre (s ∷ texts) post e = (
  rw e (get_elem?-append pre (texts ++ post) s),
  subst (λ n. Located pats n texts) (one_more pre)
      (Located-append pats (pre ++ s ∷ []) texts post (rw append_assoc e)),
)
  where
    one_more : (xs : List Bytes) → length (xs ++ s ∷ []) ≡ suc (length xs)
    one_more xs = omega (arith, length-append xs (s ∷ []))

or_else_iff : (f g : Option Failure) → (or_else f g ≡ none) ↔ ((f ≡ none) × (g ≡ none))
or_else_iff none g = (λ h. (refl, h), λ h. h.1)
or_else_iff (some f) g = (λ h. cc, λ h. cc)

check_exit_iff :
    (span : Bytes) (req : Request) (outs errs : List Bytes) (ending : Ending) (a : Action)
    → let res = (exec span req (ran outs errs ending)).0 in
      (check_exit a res.exit_code res ≡ none) ↔ (ending ≡ exited a.exit_code)
unfolding exec check_exit
check_exit_iff span req outs errs (exited code) a = (
  λ h. ap exited ((eqb_ℤ_iff code a.exit_code).0 (ground arith)),
  λ h. ground (arith, (eqb_ℤ_iff code a.exit_code).1),
)
check_exit_iff span req outs errs missing a = (λ h. cc, λ h. cc)
check_exit_iff span req outs errs (broke text) a = (λ h. cc, λ h. cc)
check_exit_iff span req outs errs timed_out a = (λ h. cc, λ h. cc)
check_exit_iff span req outs errs cancelled a = (λ h. cc, λ h. cc)

wrong_pattern_iff :
    (matches : Bytes → Bytes → Bool) (regex : Option Bytes) (res : Result)
    → (wrong_pattern matches regex res ≡ none)
      ↔ ((p : Bytes) → regex ≡ some p → matches p res.stdout ≡ true)
unfolding wrong_pattern
wrong_pattern_iff matches none res = (λ h p e. cc, λ h. refl)
wrong_pattern_iff matches (some q) res = (λ h p e. ground arith, λ h. ground (arith, h q refl))

differ : {b : Bool} → b ≡ true → b ≡ false → ⊥
differ h k = cc

module _ (span : Bytes) (req : Request) (outs errs : List Bytes) (ending : Ending) where
  -- The result of a command that wrote these streams and ended so.
  abbrev pub outcome : Result
  outcome = (exec span req (ran outs errs ending)).0

  -- A text occurs in stdout or in stderr.
  abbrev pub Seen : Bytes → Type 0
  Seen s = Occurs s (concat outs) ⊎ Occurs s (concat errs)

  found-outcome :
      (i : ℕ) (p : Bytes)
      → get_elem? req.patterns i ≡ some p
      → p ≢ []
      → found outcome i ≡ (contains (concat outs) p || contains (concat errs) p)
  unfolding found
  found-outcome i p at ne = rw (
    exec-buffers span req outs errs ending,
    found_at-contains req.max_output req.patterns outs i p at ne,
    found_at-contains req.max_output req.patterns errs i p at ne,
  )

  -- Found(i) is true exactly when pattern i was seen.
  found_iff-Seen :
      (i : ℕ) (p : Bytes)
      → get_elem? req.patterns i ≡ some p
      → p ≢ []
      → (found outcome i ≡ true) ↔ Seen p
  found_iff-Seen i p at ne = rw (found-outcome i p at ne) (
    λ h. elim (Bool-cases (contains (concat outs) p)) [
      | inl yes_out ↦ inl ((contains_iff (concat outs) p).0 yes_out)
      | inr no_out ↦ inr ((contains_iff (concat errs) p).0 (ground arith))
    ],
    elim [
      | inl o ↦ rw ((contains_iff (concat outs) p).1 o)
      | inr e ↦ ground (arith, (contains_iff (concat errs) p).1 e)
    ],
  )

  missing_text_iff :
      (i : ℕ) (texts : List Bytes)
      → Located req.patterns i texts
      → All (λ s. s ≢ []) texts
      → (missing_text outcome i texts ≡ none) ↔ All Seen texts
  unfolding missing_text
  missing_text_iff i [] l ne = (λ h. tt, λ h. refl)
  missing_text_iff i (s ∷ texts) (at, l) (ne, nes) =
      let here = found_iff-Seen i s at ne in
      let next = missing_text_iff (suc i) texts l nes in
      elim (Bool-cases (found outcome i)) [
        | inl seen ↦ rw seen (λ h. (here.0 seen, next.0 h), λ h. next.1 h.1)
        | inr unseen ↦ rw unseen (λ h. cc, λ h. absurd (differ (here.1 h.0) unseen))
      ]

  forbidden_text_iff :
      (i : ℕ) (texts : List Bytes)
      → Located req.patterns i texts
      → All (λ s. s ≢ []) texts
      → (forbidden_text outcome i texts ≡ none) ↔ All (λ s. ¬ Seen s) texts
  unfolding forbidden_text
  forbidden_text_iff i [] l ne = (λ h. tt, λ h. refl)
  forbidden_text_iff i (s ∷ texts) (at, l) (ne, nes) =
      let here = found_iff-Seen i s at ne in
      let next = forbidden_text_iff (suc i) texts l nes in
      elim (Bool-cases (found outcome i)) [
        | inl seen ↦ rw seen (λ h. cc, λ h. absurd (h.0 (here.0 seen)))
        | inr unseen ↦ rw unseen (λ h. (λ s. differ (here.1 s) unseen, next.0 h), λ h. next.1 h.1)
      ]

  -- A step's expectations hold exactly when its command ended with the expected exit code, every
  -- text of contains occurs somewhere in stdout or in stderr, no text of not_contains occurs in
  -- either, and the regular expression matches the retained stdout. Texts that are dropped from the
  -- buffers or cut by a write count. The texts are not empty, and the request's patterns are those
  -- of the action.
  pub check_iff :
      (matches : Bytes → Bytes → Bool) (a : Action)
      → req.patterns ≡ a.contains ++ a.not_contains
      → All (λ s. s ≢ []) a.contains
      → All (λ s. s ≢ []) a.not_contains
      → (check matches a outcome ≡ none) ↔ (
          (ending ≡ exited a.exit_code)
          × All Seen a.contains
          × All (λ s. ¬ Seen s) a.not_contains
          × ((p : Bytes) → a.regex ≡ some p → matches p outcome.stdout ≡ true))
  unfolding check
  check_iff matches a e ne_in ne_out = (
    λ h.
        let (right_code, h1) = (or_else_iff _ _).0 h in
        let (all_in, h2) = (or_else_iff _ _).0 h1 in
        let (none_out, matched) = (or_else_iff _ _).0 h2 in
        (code.0 right_code, wanted.0 all_in, banned.0 none_out, regex.0 matched),
    λ h. (or_else_iff _ _).1 (
      code.1 h.0,
      (or_else_iff _ _).1 (wanted.1 h.1, (or_else_iff _ _).1 (banned.1 h.2, regex.1 h.3)),
    ),
  )
    where
      code : (check_exit a outcome.exit_code outcome ≡ none) ↔ (ending ≡ exited a.exit_code)
      code = check_exit_iff span req outs errs ending a

      wanted : (missing_text outcome 0 a.contains ≡ none) ↔ All Seen a.contains
      wanted =
          missing_text_iff 0 a.contains (Located-append req.patterns [] a.contains a.not_contains e)
            ne_in

      banned :
          (forbidden_text outcome (length a.contains) a.not_contains ≡ none)
          ↔ All (λ s. ¬ Seen s) a.not_contains
      banned =
          forbidden_text_iff (length a.contains) a.not_contains
            (Located-append req.patterns a.contains a.not_contains [] (rw append-nil e)) ne_out

      regex :
          (wrong_pattern matches a.regex outcome ≡ none)
          ↔ ((p : Bytes) → a.regex ≡ some p → matches p outcome.stdout ≡ true)
      regex = wrong_pattern_iff matches a.regex outcome
