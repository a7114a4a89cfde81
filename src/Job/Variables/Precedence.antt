-- ===== src/Job/Variables/Precedence.antt =====
-- What holds of the values that Resolve returns.
use remote_command_orchestra.Common.{
  nil-append, among, among-snoc, true, false, not, ◌&&◌, ◌||◌, List, [], ◌∷◌, ◌++◌, Bytes, is_nil,
  Dict, lookup, eq_bytes_refl, Option, ◌⊎◌, inl, inr, ◌≡◌, refl, sym, ap, subst, ◌∙◌, arith,
  Option-cases, All, if◌then◌else◌,
}
use remote_command_orchestra.Job.Variables.Printable.{IsPrintable, check_value-IsPrintable}
use remote_command_orchestra.Job.Variables.{
  Variable, Inputs, Resolved, check_value, literal_issue, required_issue, value_issues, declared,
  is_set, value_of, gathered, settle, resolve,
}

-- A declaration is met: a sensitive variable is no literal, a required one has a value, and a
-- sensitive value is among the secrets.
abbrev pub Met : Inputs → Dict Bytes → List Bytes → Bytes × Variable → Type 0
Met i vars secrets nd =
    (nd.1.sensitive ≡ true → (is_set (lookup nd.0 i.job) || is_set (lookup nd.0 i.host)) ≡ false)
    × (nd.1.required ≡ true → is_nil (value_of nd.0 vars) ≡ false)
    × (nd.1.sensitive ≡ true
        → is_nil (value_of nd.0 vars) ≡ false
        → among secrets (value_of nd.0 vars) ≡ true)

literal_issue-nil :
    (i : Inputs) (name : Bytes) (d : Variable)
    → literal_issue i name d ≡ []
    → d.sensitive ≡ true
    → (is_set (lookup name i.job) || is_set (lookup name i.host)) ≡ false
unfolding literal_issue
literal_issue-nil i name d e s = ground arith

required_issue-nil :
    (vars : Dict Bytes) (name : Bytes) (d : Variable)
    → required_issue vars name d ≡ []
    → d.required ≡ true
    → is_nil (value_of name vars) ≡ false
unfolding required_issue
required_issue-nil vars name d e s = ground arith

abbrev pub More : List Bytes → List Bytes → Type 0
More xs ys = (t : Bytes) → among xs t ≡ true → among ys t ≡ true

pub declared_lem :
    (i : Inputs) (ds : Dict Variable) (acc : Resolved)
    → (declared i ds acc).issues ≡ []
    → let out = declared i ds acc in
      (acc.issues ≡ [])
      × (out.vars ≡ acc.vars)
      × More acc.secrets out.secrets
      × All (Met i acc.vars out.secrets) ds
unfolding declared
declared_lem i [] acc e = (e, refl, (λ t h. h), tt)
declared_lem i ((name, d) ∷ ds) acc e =
    let v = value_of name acc.vars in
    let secrets = if d.sensitive && not (is_nil v) then acc.secrets ++ v ∷ [] else acc.secrets in
    let acc' = record acc {
      issues = acc.issues ++ (literal_issue i name d ++ required_issue acc.vars name d);
      secrets = secrets;
    } in
    let (clean, same, more, met) = declared_lem i ds acc' e in
    let (before, mine) = nil-append acc.issues _ clean in
    let (no_literal, no_missing) = nil-append (literal_issue i name d) _ mine in
    (
      before,
      same,
      (λ t h. more t (ground (arith, among-snoc acc.secrets v t))),
      (
        (
          literal_issue-nil i name d no_literal,
          required_issue-nil acc.vars name d no_missing,
          λ s k. more v (ground (arith, among-snoc acc.secrets v v, eq_bytes_refl v)),
        ),
        met,
      ),
    )

value_issues-nil :
    (vars : Dict Bytes) → value_issues vars ≡ [] → All (λ kv. All IsPrintable kv.1) vars
unfolding value_issues
value_issues-nil [] e = tt
value_issues-nil ((k, v) ∷ vars) e = elim (Option-cases (check_value v)) [
  | inl good ↦
      (check_value-IsPrintable v good, value_issues-nil vars (rw (good, value_issues) at e))
  | inr (err, bad) ↦ (let e' = rw (bad, value_issues) at e in ground (arith, e'))
]

abbrev value_or : {A B : Type 0} → A → A ⊎ B → A
value_or a (inl b) = b
value_or a (inr err) = a

pub settle-inl :
    (acc : Resolved) (is : List Bytes) (out : Dict Bytes × List Bytes)
    → acc.issues ≡ is
    → settle acc ≡ inl out
    → (acc.issues ≡ []) × ((acc.vars, acc.secrets) ≡ out)
settle-inl acc [] out k e =
    let e' : inl (acc.vars, acc.secrets) ≡ inl out =
      subst (λ z. settle (record acc { issues = z }) ≡ inl out) k e in
    (k, ap (λ z. value_or out z) e')
settle-inl acc (x ∷ is) out k e =
    let e' = subst (λ z. settle (record acc { issues = z }) ≡ inl out) k e in ground (arith, e')

-- What Resolve returns is fit for use: no byte of a value is a control character (below 32, or 127)
-- other than a tab, every required variable has a value that is not empty, no sensitive one was
-- passed as a literal or by the inventory, and every sensitive value that is not empty is among the
-- secrets that are to be redacted.
pub resolve-Met :
    (ds : Dict Variable) (i : Inputs) (get : Bytes → Option Bytes) (vars : Dict Bytes)
    (secrets : List Bytes)
    → resolve ds i get ≡ inl (vars, secrets)
    → All (λ kv. All IsPrintable kv.1) vars × All (Met i vars secrets) ds
unfolding resolve
resolve-Met ds i get vars secrets e =
    let acc = gathered ds i get in
    let out = declared i ds acc in
    let (clean, same) = settle-inl out out.issues (vars, secrets) refl e in
    let (issues, kept, more, met) = declared_lem i ds acc clean in
    let fine = value_issues-nil acc.vars (nil-append _ (value_issues acc.vars) issues).1 in
    subst (λ z. All (λ kv. All IsPrintable kv.1) z.0 × All (Met i z.0 z.1) ds)
      (ap (λ z. (z, out.secrets)) (sym kept) ∙ same) (fine, met)
