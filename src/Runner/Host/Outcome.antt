-- ===== src/Runner/Host/Outcome.antt =====
-- What a host's result says of its steps.
use remote_command_orchestra.Common.{
  Bool, true, false, not, List, [], ◌∷◌, ◌++◌, map, Option, none, some, ◌≡◌, ◌≢◌, ◌∙◌, refl, sym,
  ap, arith, append_assoc, append-nil, Option-cases, inl, inr, some-injective, subst,
}
use remote_command_orchestra.Domain.{success, as_failure}
use remote_command_orchestra.Job.Shell.{Action}
use remote_command_orchestra.Runner.Env.{Env, World, Plan, Runner}
use remote_command_orchestra.Runner.Connect.{Connection, linked, failed_with, panicked, connect}
use remote_command_orchestra.Runner.Host.{
  HostResult, host_result, skip, fail_host, note_step, stops, run_action, actions_from,
  after_connect, run_host, needs_sudo_password,
}
use remote_command_orchestra.Runner.Host.Account.{
  is_success, all_succeeded, names, action_names, noted, Consistent, run_action-Reports,
  fail_host-Failed, note_step-Left, skip-Consistent,
}

-- The loop over the actions of a host that is consistent so far.
Finishes : List Action → HostResult → HostResult → Type 0
Finishes actions h out = Consistent out × (names out.steps ≡ names h.steps ++ action_names actions)

module _ {C W : Type 0} (env : Env C W) (r : Runner) where
  further :
      (a : Action) (actions : List Action) (h h' out : HostResult)
      → names h'.steps ≡ names h.steps ++ a.name ∷ []
      → Finishes actions h' out
      → Finishes (a ∷ actions) h out
  unfolding Finishes action_names
  further a actions h h' out e f = (
    f.0,
    f.1
        ∙ (ap (λ k. k ++ action_names actions) e
            ∙ append_assoc (names h.steps) (a.name ∷ []) (action_names actions)),
  )

  actions_from-Finishes :
      (actions : List Action) (p : Plan) (pw : Bool) (client : Option C) (stopped : Bool)
      (h : HostResult) (w : World W) (out : HostResult)
      → Consistent h
      → (stopped ≡ true → is_success h.status ≡ false)
      → (actions_from env r actions p pw client stopped h w).0 ≡ some out
      → Finishes actions h out
  unfolding actions_from Finishes action_names
  actions_from-Finishes [] p pw client stopped h w out k s e =
      subst (λ x. Finishes [] h x) (some-injective h out e) (k, sym (append-nil (names h.steps)))
  actions_from-Finishes (a ∷ actions) p pw client true h w out k s e =
      let m = skip-Consistent r a h k (s refl) in
      let h' = record h { steps = h.steps ++ skip a ∷ [] } in
      further a actions h h' out m.1
        (actions_from-Finishes actions p pw client true h' w out m.0 (λ t. s refl) e)
  actions_from-Finishes (a ∷ actions) p pw none false h w out k s e = ground arith
  actions_from-Finishes (a ∷ actions) p pw (some c) false h w out k s e =
      let w' = (run_action env r c p a pw w).1 in
      elim (Option-cases (run_action env r c p a pw w).0) [
        | inl lost ↦ (let e'' : none ≡ some out = rw (lost, actions_from) at e in ground arith)
        | inr (g, e') ↦
            let m =
              note_step-Left r a h g.result g.failure g.client
                (run_action-Reports env r c p a pw w g e') k in
            further a actions h (note_step r a h g) out m.1.1 (
              actions_from-Finishes actions p pw g.client (stops a g) (note_step r a h g) w' out m.0
                m.1.0 (rw (e', actions_from) at e))
      ]

  names-map-skip : (actions : List Action) → names (map skip actions) ≡ action_names actions
  unfolding names action_names
  names-map-skip [] = refl
  names-map-skip (a ∷ actions) = ap (λ k. a.name ∷ k) (names-map-skip actions)

  none-skipped : (actions : List Action) → actions ≢ [] → all_succeeded (map skip actions) ≡ false
  unfolding all_succeeded
  none-skipped [] nonempty = ground (arith, nonempty refl)
  none-skipped (a ∷ actions) nonempty = refl

  after_connect-Finishes :
      (p : Plan) (linked_or_not : Connection C × World W) (out : HostResult)
      → p.actions ≢ []
      → (after_connect env r p linked_or_not).0 ≡ some out
      → Consistent out × (names out.steps ≡ action_names p.actions)
  unfolding after_connect Finishes names all_succeeded
  after_connect-Finishes p (linked c n, w) out nonempty e =
      let (pw, w') = needs_sudo_password env r c p w in
      let h = record (host_result p success) { connect_attempts = n } in
      actions_from-Finishes p.actions p pw (some c) false h w' out (refl, refl) (λ t. ground arith)
        e
  after_connect-Finishes p (failed_with err n, w) out nonempty e =
      let h = record (host_result p success) { connect_attempts = n } in
      let f = fail_host r h (as_failure err) [] in
      let m = fail_host-Failed r h (as_failure err) [] refl in
      subst (λ x. Consistent x × (names x.steps ≡ action_names p.actions))
        (some-injective (record f { steps = f.steps ++ map skip p.actions }) out e)
        (
          (
            ground (
              arith,
              m.1.0,
              ap (λ t. all_succeeded (t ++ map skip p.actions)) m.0,
              none-skipped p.actions nonempty,
            ),
            ground (arith, m.1),
          ),
          ap (λ t. names (t ++ map skip p.actions)) m.0 ∙ names-map-skip p.actions,
        )
  after_connect-Finishes p (panicked, w) out nonempty e = ground arith

  -- For a plan with actions, a finished host reports a result for every action, in the job's order,
  -- and is a success exactly if every step is; it carries a failure's category exactly if it is no
  -- success.
  pub run_host_accounts :
      (p : Plan) (w : World W) (out : HostResult)
      → p.actions ≢ []
      → (run_host env r p w).0 ≡ some out
      → (names out.steps ≡ action_names p.actions)
        × ((is_success out.status ≡ all_succeeded out.steps)
            × (not (noted out.category) ≡ is_success out.status))
  unfolding run_host
  run_host_accounts p w out nonempty e =
      let m = after_connect-Finishes p (connect env r p w) out nonempty e in (m.1, m.0)
