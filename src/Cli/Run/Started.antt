-- ===== src/Cli/Run/Started.antt =====
-- When `rco run` contacts hosts.
use remote_command_orchestra.Common.{
  Bool, true, false, not, ◌&&◌, List, [], ◌∷◌, Bytes, codes, is_nil, length, Dict, Option, none,
  some, ℤ, pos, ◌⊎◌, inl, inr, and_then-inl, along, ◌≡◌, ◌≢◌, refl, sym, ap, subst, ◌∙◌, arith,
  Bool-cases,
}
use remote_command_orchestra.Domain.{Target}
use remote_command_orchestra.Credentials.Resolve.{System}
use remote_command_orchestra.Inventory.{Inventory}
use remote_command_orchestra.Inventory.Select.{select}
use remote_command_orchestra.Job.Model.{JobFile}
use remote_command_orchestra.Job.Validate.{Floats, parse_max_failures}
use remote_command_orchestra.Runner.Prepare.{Prepared, prepare}
use remote_command_orchestra.Cli.Run.{
  Flags, Decision, start, pairs, flag_error, checked, Files, some_hosts, labelled, prepare_label,
  limit_label, narrowed, limit_text, limit_of, decide, prepared, with_hosts, with_job, run,
}

labelled-inl :
    {A : Type 0} (label : Bytes) (x : A ⊎ Bytes) (a : A) → labelled label x ≡ inl a → x ≡ inl a
unfolding labelled
labelled-inl label (inl b) a e = e
labelled-inl label (inr err) a e = absurd (ground (arith, e))

checked-inl : (o : Option Bytes) (u : Unit {0}) → checked o ≡ inl u → o ≡ none
unfolding checked
checked-inl none u e = refl
checked-inl (some err) u e = absurd (ground (arith, e))

some_hosts-inl : (ts out : List Target) → some_hosts ts ≡ inl out → (out ≢ []) × (out ≡ ts)
unfolding some_hosts
some_hosts-inl [] out e = absurd (ground (arith, e))
some_hosts-inl (t ∷ ts) out e =
    along (λ x. (x ≢ []) × (x ≡ t ∷ ts)) (t ∷ ts) out _ refl e ((λ n. ground (arith, n)), refl)

abbrev plans_in : Decision → List Prepared
plans_in (start plans limit) = plans
plans_in _ = []

abbrev limit_in : Decision → ℤ
limit_in (start plans limit) = limit
limit_in _ = pos 0

module _ {F : Type 0} (floats : Floats F) (files : Files) (sys : System)
    (env : Bytes → Option Bytes) (f : Flags) (validate_only : Bool) where
  decide-start :
      (targets : List Target) (limit limit' : ℤ) (plans plans' : List Prepared)
      → decide floats files sys env f validate_only targets limit plans ≡ start plans' limit'
      → (validate_only ≡ false) × (f.execute ≡ true) × (plans ≡ plans') × (limit ≡ limit')
  unfolding decide
  decide-start targets limit limit' plans plans' e = elim (Bool-cases validate_only) [
    | inl only ↦ absurd (let e' = rw (only) at e in ground (arith, e'))
    | inr run_too ↦ elim (Bool-cases f.execute) [
      | inr dry ↦ absurd (let e' = rw (run_too, dry) at e in ground (arith, e'))
      | inl real ↦
          let e' : start plans limit ≡ start plans' limit' = rw (run_too, real) at e in
          (run_too, real, ap plans_in e', ap limit_in e')
    ]
  ]

  -- What was checked before the hosts are contacted.
  abbrev pub Checked : List Prepared → ℤ → Type 0
  Checked plans limit =
      (validate_only ≡ false)
      × (f.execute ≡ true)
      × (flag_error f validate_only ≡ none)
      × ((j : JobFile) × (inv : Inventory) × (all : List Target) × (targets : List Target)
          × (vars : Dict Bytes) × (var_env : Dict Bytes) × (secrets : List Bytes) × (files.load_job
                f.job
              ≡ inl j)
          × (files.load_inventory f.inv ≡ inl inv)
          × (select inv (record { groups = f.groups; tags = f.tags; hosts = f.hosts }) ≡ inl all)
          × (narrowed floats files sys env f validate_only all ≡ inl targets)
          × (targets ≢ [])
          × (parse_max_failures floats (limit_text floats files sys env f validate_only j)
                (length targets)
              ≡ inl limit)
          × (pairs f.vars (codes "--var") ≡ inl vars)
          × (pairs f.var_envs (codes "--var-env") ≡ inl var_env)
          × (prepare sys env
                (record {
                  skip_credentials = false;
                  step_timeout = f.step_timeout;
                  retry_delay = f.retry_delay;
                })
                (record { job = j; targets = targets; vars = vars; var_env = var_env })
              ≡ inl (plans, secrets)))

  prepared-real :
      (j : JobFile) (targets : List Target) (vars var_env : Dict Bytes)
      (made : List Prepared × List Bytes)
      → f.execute ≡ true
      → prepared floats files sys env f validate_only j targets vars var_env ≡ inl made
      → prepare sys env
          (record {
            skip_credentials = false;
            step_timeout = f.step_timeout;
            retry_delay = f.retry_delay;
          })
          (record { job = j; targets = targets; vars = vars; var_env = var_env })
        ≡ inl made
  unfolding prepared
  prepared-real j targets vars var_env made real e =
      subst
        (λ b.
          prepare sys env
            (record {
              skip_credentials = not b && not validate_only;
              step_timeout = f.step_timeout;
              retry_delay = f.retry_delay;
            })
            (record { job = j; targets = targets; vars = vars; var_env = var_env })
          ≡ inl made)
        real e

  with_hosts-Checked :
      (j : JobFile) (inv : Inventory) (all : List Target) (plans : List Prepared) (limit : ℤ)
      → flag_error f validate_only ≡ none
      → files.load_job f.job ≡ inl j
      → files.load_inventory f.inv ≡ inl inv
      → select inv (record { groups = f.groups; tags = f.tags; hosts = f.hosts }) ≡ inl all
      → with_hosts floats files sys env f validate_only j all ≡ inl (start plans limit)
      → Checked plans limit
  unfolding with_hosts limit_of
  with_hosts-Checked j inv all plans limit fine is_j is_inv is_all e =
      let (narrow, is_narrow, e1) =
        and_then-inl (narrowed floats files sys env f validate_only all) _ _ e in
      let (targets, is_targets, e2) = and_then-inl (some_hosts narrow) _ _ e1 in
      let (limit', is_limit, e3) =
        and_then-inl (limit_of floats files sys env f validate_only j targets) _ _ e2 in
      let (vars, is_vars, e4) = and_then-inl (pairs f.vars (codes "--var")) _ _ e3 in
      let (var_env, is_env, e5) = and_then-inl (pairs f.var_envs (codes "--var-env")) _ _ e4 in
      let (made, is_made, e6) =
        and_then-inl
          (labelled prepare_label
            (prepared floats files sys env f validate_only j targets vars var_env))
          (λ made. inl (decide floats files sys env f validate_only targets limit' made.0))
          (start plans limit) e5 in
      let d : decide floats files sys env f validate_only targets limit' made.0
          ≡ start plans limit =
        along (λ x. x ≡ start plans limit) (start plans limit) _ (inl (start plans limit)) refl
          (sym e6) refl in
      let (run_too, real, is_plans, same_limit) =
        decide-start targets limit' limit made.0 plans d in
      let (some_target, same) = some_hosts-inl narrow targets is_targets in
      (
        run_too,
        real,
        fine,
        (
          j,
          inv,
          all,
          targets,
          vars,
          var_env,
          made.1,
          is_j,
          is_inv,
          is_all,
          is_narrow ∙ ap inl (sym same),
          some_target,
          labelled-inl limit_label _ limit' is_limit ∙ ap inl same_limit,
          is_vars,
          is_env,
          prepared-real j targets vars var_env made real (labelled-inl prepare_label _ made is_made)
              ∙ ap (λ x. inl (x, made.1)) is_plans,
        ),
      )

  with_job-Checked :
      (j : JobFile) (plans : List Prepared) (limit : ℤ)
      → flag_error f validate_only ≡ none
      → files.load_job f.job ≡ inl j
      → with_job floats files sys env f validate_only j ≡ inl (start plans limit)
      → Checked plans limit
  unfolding with_job
  with_job-Checked j plans limit fine is_j e = elim (Bool-cases (validate_only && is_nil f.inv)) [
    | inl job_only ↦ absurd (let e' = rw (job_only) at e in ground (arith, e'))
    | inr more ↦
        let (inv, is_inv, e1) = and_then-inl (files.load_inventory f.inv) _ _ (rw (more) at e) in
        let (all, is_all, e2) = and_then-inl (select inv _) _ _ e1 in
        with_hosts-Checked j inv all plans limit fine is_j is_inv is_all e2
  ]

-- Hosts are contacted only by `rco run` with --execute, after every flag was accepted, the job and
-- the inventory were loaded and every host resolved, the limit of failures was read from
-- --max-failures or else from the job, for the number of the hosts that are left, of which there
-- is one at least, and Prepare, with the credentials, succeeded for all of them: the plans and the
-- limit of the run are these.
pub run-Checked :
    {F : Type 0} (floats : Floats F) (files : Files) (sys : System) (env : Bytes → Option Bytes)
    (f : Flags) (validate_only : Bool) (plans : List Prepared) (limit : ℤ)
    → run floats files sys env f validate_only ≡ inl (start plans limit)
    → Checked floats files sys env f validate_only plans limit
unfolding run
run-Checked floats files sys env f validate_only plans limit e =
    let (u, fine, e1) = and_then-inl (checked (flag_error f validate_only)) _ _ e in
    let (j, is_j, e2) = and_then-inl (files.load_job f.job) _ _ e1 in
    with_job-Checked floats files sys env f validate_only j plans limit
      (checked-inl (flag_error f validate_only) u fine) is_j e2
