-- ===== src/Job/Validate/Accepted.antt =====
-- What Validate makes sure of, in every step of a job that it accepts.
use remote_command_orchestra.Common.{
  Bool, true, false, ◌&&◌, ◌||◌, List, [], ◌∷◌, Bytes, is_nil, Dict, lookup, Option, none, some, ℤ,
  ◌⊎◌, inl, inr, ◌≡◌, refl, arith, nil-append, All, Bool-cases, Option-cases,
}
use remote_command_orchestra.Job.Template.{references}
use remote_command_orchestra.Job.Variables.{Variable}
use remote_command_orchestra.Job.Model.{Expect, JobStep}
use remote_command_orchestra.Job.Validate.{
  max_retries, issue_if, is_outside, ref_issue, ref_issues, check_refs, texts_issues,
  retries_issues, has_retries, is_given, drop_issues, is_zero_expect, fire_issues, entries_issues,
}

pub issue_if-nil : (b : Bool) (text : Bytes) → issue_if b text ≡ [] → b ≡ false
issue_if-nil true text e = ground arith
issue_if-nil false text e = refl

-- A variable that a text may name: declared, and sensitive only where that is allowed.
abbrev pub Allowed : Dict Variable → Bool → Bytes → Type 0
Allowed variables allowed n =
    (v : Variable) × (lookup n variables ≡ some v) × (v.sensitive ≡ true → allowed ≡ true)

-- A text is a template over variables that it may name.
abbrev pub Shows : Dict Variable → Bool → Bytes → Type 0
Shows variables allowed t =
    (names : List Bytes) × (references t ≡ inl names) × All (Allowed variables allowed) names

ref_issue-Allowed :
    (variables : Dict Variable) (loc : Bytes) (allowed : Bool) (r : Bytes)
    → ref_issue variables loc allowed r ≡ []
    → Allowed variables allowed r
unfolding ref_issue
ref_issue-Allowed variables loc allowed r e = elim (Option-cases (lookup r variables)) [
  | inl missing ↦ absurd (let e' = rw (missing, ref_issue) at e in ground (arith, e'))
  | inr (v, known) ↦
      let e' = issue_if-nil _ _ (rw (known, ref_issue) at e) in (v, known, λ s. ground (arith, e'))
]

ref_issues-Allowed :
    (variables : Dict Variable) (loc : Bytes) (allowed : Bool) (refs : List Bytes)
    → ref_issues variables loc allowed refs ≡ []
    → All (Allowed variables allowed) refs
unfolding ref_issues
ref_issues-Allowed variables loc allowed [] e = tt
ref_issues-Allowed variables loc allowed (r ∷ refs) e =
    let (here, rest) = nil-append (ref_issue variables loc allowed r) _ e in
    (
      ref_issue-Allowed variables loc allowed r here,
      ref_issues-Allowed variables loc allowed refs rest,
    )

refs_of-Shows :
    (variables : Dict Variable) (text loc : Bytes) (allowed : Bool) (refs : List Bytes ⊎ Bytes)
    → references text ≡ refs
    → check_refs variables text loc allowed ≡ []
    → Shows variables allowed text
unfolding check_refs
refs_of-Shows variables text loc allowed (inl refs) r e =
    (refs, r, ref_issues-Allowed variables loc allowed refs (rw (r, check_refs) at e))
refs_of-Shows variables text loc allowed (inr err) r e =
    absurd (let e' = rw (r, check_refs) at e in ground (arith, e'))

pub texts_issues-Shows :
    (variables : Dict Variable) (loc : Bytes) (allowed : Bool) (texts : List Bytes)
    → texts_issues variables loc allowed texts ≡ []
    → All (Shows variables allowed) texts
unfolding texts_issues
texts_issues-Shows variables loc allowed [] e = tt
texts_issues-Shows variables loc allowed (t ∷ texts) e =
    let (here, rest) = nil-append (check_refs variables t loc allowed) _ e in
    (
      refs_of-Shows variables t loc allowed (references t) refl here,
      texts_issues-Shows variables loc allowed texts rest,
    )

pub entries_issues-nil :
    (loc : Bytes) (entries : List Bytes)
    → entries_issues loc entries ≡ []
    → All (λ s. is_nil s ≡ false) entries
unfolding entries_issues
entries_issues-nil loc [] e = tt
entries_issues-nil loc (c ∷ entries) e =
    let (here, rest) = nil-append (issue_if (is_nil c) _) _ e in
    (issue_if-nil (is_nil c) _ here, entries_issues-nil loc entries rest)

pub retries_issues-nil :
    (loc : Bytes) (o : Option ℤ) (n : ℤ)
    → retries_issues loc o ≡ []
    → o ≡ some n
    → is_outside n max_retries ≡ false
unfolding retries_issues
retries_issues-nil loc none n e k = ground arith
retries_issues-nil loc (some m) n e k = ground (arith, issue_if-nil (is_outside m max_retries) _ e)

-- What a step that may drop its connection is not.
abbrev pub Droppable : JobStep → Type 0
Droppable st = (is_given st.copy ≡ false) × (has_retries st.retries ≡ false)

pub drop_issues-nil :
    (loc : Bytes) (st : JobStep)
    → drop_issues loc st ≡ []
    → (st.reboot || st.disconnect) ≡ true
    → Droppable st
unfolding drop_issues
drop_issues-nil loc st e d =
    let (a, b) = nil-append (issue_if ((st.reboot || st.disconnect) && is_given st.copy) _) _ e in
    let a' = issue_if-nil _ _ a in
    let b' = issue_if-nil _ _ b in (ground (arith, a', d), ground (arith, b', d))

-- What a step that is not waited for is: a command, the last of the job, not sensitive, with no
-- retries, and with nothing that would check it.
abbrev pub Launched : Bool → JobStep → Type 0
Launched is_last st =
    (is_nil st.command ≡ false)
    × (is_last ≡ true)
    × (st.reboot ≡ false)
    × (st.disconnect ≡ false)
    × (st.retries ≡ none)
    × (st.sensitive ≡ false)
    × (st.expect.exit_code ≡ none)
    × (st.expect.contains ≡ [])
    × (st.expect.not_contains ≡ [])
    × (st.expect.regex ≡ [])

given-none : {A : Type 0} (o : Option A) → is_given o ≡ false → o ≡ none
given-none none e = refl
given-none (some a) e = ground arith

nil-lem : {A : Type 0} (xs : List A) → is_nil xs ≡ true → xs ≡ []
nil-lem [] e = refl
nil-lem (x ∷ xs) e = ground arith

zero_expect-parts :
    (x : Expect)
    → is_zero_expect x ≡ true
    → (x.exit_code ≡ none) × (x.contains ≡ []) × (x.not_contains ≡ []) × (x.regex ≡ [])
zero_expect-parts x e = (
  given-none x.exit_code (ground arith),
  nil-lem x.contains (ground arith),
  nil-lem x.not_contains (ground arith),
  nil-lem x.regex (ground arith),
)

pub fire_issues-nil :
    (loc : Bytes) (is_last : Bool) (st : JobStep)
    → fire_issues loc is_last st ≡ []
    → st.fire_and_forget ≡ true
    → Launched is_last st
unfolding fire_issues
fire_issues-nil loc is_last st e f = elim (Bool-cases (is_nil st.command)) [
  | inl no_command ↦ absurd (let e' = rw (f, no_command, fire_issues) at e in ground (arith, e'))
  | inr given ↦ elim (Bool-cases is_last) [
    | inr later ↦ absurd (let e' = rw (f, given, later, fire_issues) at e in ground (arith, e'))
    | inl last ↦
        let free = issue_if-nil _ _ (rw (f, given, last, fire_issues) at e) in
        let zero = zero_expect-parts st.expect (ground (arith, free)) in
        (
          given,
          last,
          ground (arith, free),
          ground (arith, free),
          given-none st.retries (ground (arith, free)),
          ground (arith, free),
          zero.0,
          zero.1,
          zero.2,
          zero.3,
        )
  ]
]
