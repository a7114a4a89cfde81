-- ===== src/Job/Variables/Levels.antt =====
-- Which source of a variable's value wins in Resolve.
use remote_command_orchestra.Common.{
  nil-append, among, among-snoc, true, ◌||◌, List, [], ◌∷◌, ◌++◌, Bytes, Dict, lookup, insert,
  insert_all, lookup-insert, lookup-insert_all, DistinctKeys, or_else, or_else-none, eq_bytes,
  eq_bytes_refl, eq_bytes→eq, Option, none, some, inl, inr, ◌≡◌, refl, sym, ap, subst, ◌∙◌, arith,
  Bool-cases, All, if◌then◌else◌,
}
use remote_command_orchestra.Job.Variables.{
  Variable, Inputs, Resolved, value_issues, declared, env_step, defaults_into, env_into, gathered,
  resolve,
}
use remote_command_orchestra.Job.Variables.Precedence.{declared_lem, settle-inl, More}

abbrev pub default_of : Option Variable → Option Bytes
default_of none = none
default_of (some d) = d.default

abbrev pub value_in : (Bytes → Option Bytes) → Option Bytes → Option Bytes
value_in get none = none
value_in get (some env_name) = get env_name

abbrev put_default : Bytes → Variable → Dict Bytes → Dict Bytes
put_default name d vars = elim d.default [ none ↦ vars | some v ↦ insert name v vars ]

lookup-put_default :
    (k name : Bytes) (d : Variable) (vars : Dict Bytes)
    → lookup k (put_default name d vars)
      ≡ (if eq_bytes name k then or_else d.default (lookup k vars) else lookup k vars)
lookup-put_default k name d vars = go d.default
  where
    go :
        (o : Option Bytes)
        → lookup k (elim o [ none ↦ vars | some v ↦ insert name v vars ])
          ≡ (if eq_bytes name k then or_else o (lookup k vars) else lookup k vars)
    go none = ground arith
    go (some v) = lookup-insert name k v vars

lookup-defaults_into :
    (k : Bytes) (ds : Dict Variable) (vars : Dict Bytes)
    → DistinctKeys ds
    → lookup k (defaults_into ds vars) ≡ or_else (default_of (lookup k ds)) (lookup k vars)
unfolding defaults_into lookup
lookup-defaults_into k [] vars h = refl
lookup-defaults_into k ((name, d) ∷ ds) vars h = elim (Bool-cases (eq_bytes name k)) [
  | inl same ↦
      let gone : lookup k ds ≡ none =
        subst (λ x. lookup x ds ≡ none) (eq_bytes→eq name k same) h.0 in
      lookup-defaults_into k ds (put_default name d vars) h.1
      ∙ rw (gone, lookup-put_default k name d vars, same) refl
  | inr differ ↦
      lookup-defaults_into k ds (put_default name d vars) h.1
      ∙ rw (lookup-put_default k name d vars, differ) refl
]

-- Every variable of the list is set, and its value is registered as a secret.
abbrev pub Known : (Bytes → Option Bytes) → List Bytes → Bytes × Bytes → Type 0
Known get secrets ke = (v : Bytes) × (get ke.1 ≡ some v) × (among secrets v ≡ true)

env_step_lem :
    (k env_name : Bytes) (o : Option Bytes) (acc : Resolved)
    → (env_step k env_name o acc).issues ≡ []
    → (acc.issues ≡ [])
      × ((v : Bytes) × (o ≡ some v)
          × ((env_step k env_name o acc).vars ≡ insert k v acc.vars)
          × ((env_step k env_name o acc).secrets ≡ acc.secrets ++ v ∷ []))
unfolding env_step
env_step_lem k env_name none acc e =
    absurd (let e' = (nil-append acc.issues _ e).1 in ground (arith, e'))
env_step_lem k env_name (some v) acc e = (e, (v, refl, refl, refl))

value_in_cons :
    (get : Bytes → Option Bytes) (k j env_name v : Bytes) (src vars : Dict Bytes)
    → lookup j src ≡ none
    → get env_name ≡ some v
    → or_else (value_in get (lookup k src)) (lookup k (insert j v vars))
      ≡ or_else (value_in get (lookup k ((j, env_name) ∷ src))) (lookup k vars)
unfolding lookup
value_in_cons get k j env_name v src vars free set = elim (Bool-cases (eq_bytes j k)) [
  | inl same ↦
      let gone : lookup k src ≡ none =
        subst (λ x. lookup x src ≡ none) (eq_bytes→eq j k same) free in
      rw (gone, lookup-insert j k v vars, same, set) refl
  | inr differ ↦ rw (lookup-insert j k v vars, differ) refl
]

env_into_lem :
    (get : Bytes → Option Bytes) (src : Dict Bytes) (acc : Resolved)
    → DistinctKeys src
    → (env_into get src acc).issues ≡ []
    → (acc.issues ≡ [])
      × More acc.secrets (env_into get src acc).secrets
      × All (Known get (env_into get src acc).secrets) src
      × ((k : Bytes)
          → lookup k (env_into get src acc).vars
            ≡ or_else (value_in get (lookup k src)) (lookup k acc.vars))
unfolding env_into lookup
env_into_lem get [] acc h e = (e, (λ t m. m), tt, λ k. refl)
env_into_lem get ((j, env_name) ∷ src) acc h e =
    let acc' = env_step j env_name (get env_name) acc in
    let (before, more, all, vars) = env_into_lem get src acc' h.1 e in
    let (clean, (v, set, inserted, added)) = env_step_lem j env_name (get env_name) acc before in
    let snoc : (t : Bytes) → among acc'.secrets t ≡ (among acc.secrets t || eq_bytes v t) =
      λ t. ap (λ x. among x t) added ∙ among-snoc acc.secrets v t in
    (
      clean,
      (λ t m. more t (snoc t ∙ rw (m) refl)),
      ((v, set, more v (snoc v ∙ ground (arith, eq_bytes_refl v))), all),
      (λ k.
          vars k
          ∙ ap (λ x. or_else (value_in get (lookup k src)) (lookup k x)) inserted
          ∙ value_in_cons get k j env_name v src acc.vars h.0 set),
    )

All-Known :
    (get : Bytes → Option Bytes) (secrets secrets' : List Bytes) (src : Dict Bytes)
    → More secrets secrets'
    → All (Known get secrets) src
    → All (Known get secrets') src
All-Known get secrets secrets' [] more h = tt
All-Known get secrets secrets' (ke ∷ src) more ((v, set, m), h) =
    ((v, set, more v m), All-Known get secrets secrets' src more h)

-- The value of a name: that of --var-env, else of --var, else of the host, else the default.
abbrev pub level_of : Dict Variable → Inputs → (Bytes → Option Bytes) → Bytes → Option Bytes
level_of ds i get k =
    or_else (value_in get (lookup k i.job_env))
      (or_else (lookup k i.job) (or_else (lookup k i.host) (default_of (lookup k ds))))

literal_levels :
    (ds : Dict Variable) (i : Inputs) (k : Bytes)
    → DistinctKeys ds
    → DistinctKeys i.job
    → DistinctKeys i.host
    → lookup k (insert_all i.job (insert_all i.host (defaults_into ds [])))
      ≡ or_else (lookup k i.job) (or_else (lookup k i.host) (default_of (lookup k ds)))
unfolding lookup
literal_levels ds i k dd dj dh =
    rw
      (
        lookup-insert_all k i.job (insert_all i.host (defaults_into ds [])) dj,
        lookup-insert_all k i.host (defaults_into ds []) dh,
        lookup-defaults_into k ds [] dd,
        or_else-none (default_of (lookup k ds)),
      )
      refl

-- Of the sources of a variable's value, Resolve takes the environment variable named by --var-env
-- before --var, that before the host's, and that before the default in the job. Each variable that
-- --var-env names is set, and its value is among the secrets, declared sensitive or not.
pub resolve_levels :
    (ds : Dict Variable) (i : Inputs) (get : Bytes → Option Bytes) (vars : Dict Bytes)
    (secrets : List Bytes)
    → DistinctKeys ds
    → DistinctKeys i.host
    → DistinctKeys i.job
    → DistinctKeys i.job_env
    → resolve ds i get ≡ inl (vars, secrets)
    → ((k : Bytes) → lookup k vars ≡ level_of ds i get k) × All (Known get secrets) i.job_env
unfolding resolve
resolve_levels ds i get vars secrets dd dh dj de e =
    let acc = gathered ds i get in
    let out = declared i ds acc in
    let (clean, same) = settle-inl out out.issues (vars, secrets) refl e in
    let (issues, kept, more, met) = declared_lem i ds acc clean in
    let literal = insert_all i.job (insert_all i.host (defaults_into ds [])) in
    let (start, more', known, levels) =
      env_into_lem get i.job_env (record { vars = literal; secrets = []; issues = [] }) de
        (nil-append _ (value_issues acc.vars) issues).0 in
    let is_vars : vars ≡ acc.vars = sym (ap (λ z. z.0) same) ∙ kept in
    (
      (λ k.
          ap (λ x. lookup k x) is_vars
          ∙ levels k
          ∙ ap (λ x. or_else (value_in get (lookup k i.job_env)) x)
              (literal_levels ds i k dd dj dh)),
      subst (λ s. All (Known get s) i.job_env) (ap (λ z. z.1) same)
          (All-Known get acc.secrets out.secrets i.job_env more known),
    )
