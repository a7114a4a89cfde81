-- ===== src/Runner/Prepare/Each.antt =====
-- Each part of Prepare, and its loop, for a run without problems.
use remote_command_orchestra.Common.{
  List, [], ◌∷◌, ◌++◌, Bytes, codes, Dict, append_assoc, append-nil, nil-append, Option, none, some,
  ◌⊎◌, inl, inr, ◌≡◌, refl, sym, ap, subst, ◌∙◌, arith,
}
use remote_command_orchestra.Domain.{Credential, Failure, Endpoint, Target}
use remote_command_orchestra.Credentials.Redactor.{add}
use remote_command_orchestra.Credentials.Resolve.{Auth, System}
use remote_command_orchestra.Job.Shell.{Action}
use remote_command_orchestra.Job.Variables as Variables
use remote_command_orchestra.Job.Model.{build}
use remote_command_orchestra.Runner.Prepare.{
  Options, Input, Prepared, Progress, issue, auth_of, note, push, resolve_once, with_bastion, built,
  inputs, settings, valued, prepare_target, prepare_all,
}
use remote_command_orchestra.Runner.Prepare.Ready.{
  More, More-add, Registered-add, AuthFor, AuthFor-mono, BastionFor, Ready, Ready-mono, Remembers,
  Used, CredentialOf,
}
use remote_command_orchestra.Runner.Prepare.Lookup.{note-inl, resolve_once-Looked}

module _ (sys : System) (env : Bytes → Option Bytes) (o : Options) (inp : Input) where
  -- What a part of the work on a target does, when there is no problem.
  abbrev Adds : (Progress → Prepared → Type 0) → Progress → Progress → Type 0
  Adds P s s' =
      s'.issues ≡ []
      → (s.issues ≡ [])
        × (Remembers sys env o inp s
            → (p : Prepared) × (s'.plans ≡ s.plans ++ p ∷ [])
              × P s' p
              × More s.secrets s'.secrets
              × Remembers sys env o inp s')

  abbrev Pushed : Target → List Action → Option Auth → Progress → Prepared → Type 0
  Pushed t actions auth s p =
      (p.target ≡ t)
      × (p.actions ≡ actions)
      × (p.auth ≡ auth)
      × BastionFor sys env o inp s.secrets t.bastion p.bastion

  with_bastion-Adds :
      (t : Target) (actions : List Action) (auth : Option Auth) (bastion : Option Endpoint)
      (s : Progress)
      → t.bastion ≡ bastion
      → ((c : Credential) → CredentialOf sys env o inp t c → Used sys env o inp inp.targets c)
      → Adds (Pushed t actions auth) s (with_bastion sys env o inp t actions auth bastion s)
  unfolding with_bastion push auth_of
  with_bastion-Adds t actions auth none s e used h = (
    h,
    λ rem. (
      record { target = t; actions = actions; auth = auth; bastion = none },
      refl,
      (refl, refl, refl, subst (λ b. BastionFor sys env o inp s.secrets b none) (sym e) tt),
      (λ t m. m),
      rem,
    ),
  )
  with_bastion-Adds t actions auth (some ep) s e used h =
      let (r, s1) = resolve_once sys env o inp ep.credential s in
      let (plans, issues, more, rest) =
        resolve_once-Looked sys env o inp ep.credential s
          (used ep.credential (inr (ep, e, refl))) in
      let (b, is_b, kept) = note-inl t (codes "bastion: ") r s1 h in
      let p : Prepared = record {
        target = t;
        actions = actions;
        auth = auth;
        bastion = auth_of r;
      } in
      let n = note t (codes "bastion: ") r s1 in
      (
        sym issues ∙ sym (ap (λ x. x.issues) kept) ∙ h,
        λ rem.
            let (rem1, auth_for) = rest rem in
            (
              p,
              ap (λ x. x.plans ++ p ∷ []) kept ∙ ap (λ l. l ++ p ∷ []) plans,
              (
                refl,
                refl,
                refl,
                subst (λ x. BastionFor sys env o inp n.secrets x (auth_of r)) (sym e)
                    (subst (λ x. AuthFor sys env o inp x.secrets ep.credential (auth_of r))
                      (sym kept)
                      (subst (λ x. AuthFor sys env o inp s1.secrets ep.credential (auth_of x))
                        (sym is_b) (auth_for b is_b))),
              ),
              subst (λ x. More s.secrets x.secrets) (sym kept) more,
              subst (λ x. Remembers sys env o inp x) (sym kept) rem1,
            ),
      )

  Remembers-More :
      (s : Progress) (secrets : List Bytes)
      → More s.secrets secrets
      → Remembers sys env o inp s
      → Remembers sys env o inp (record s { secrets = secrets })
  Remembers-More s secrets m rem k a h =
      let (c, same, used, from, held) = rem k a h in
      (c, same, used, from, λ t i l. m t (held t i l))

  abbrev Built : Target → List Action ⊎ Failure → Progress → Prepared → Type 0
  Built t x s p =
      (p.target ≡ t)
      × (x ≡ inl p.actions)
      × AuthFor sys env o inp s.secrets t.credential p.auth
      × BastionFor sys env o inp s.secrets t.bastion p.bastion

  built-Adds :
      (t : Target) (x : List Action ⊎ Failure) (s : Progress)
      → ((c : Credential) → CredentialOf sys env o inp t c → Used sys env o inp inp.targets c)
      → Adds (Built t x) s (built sys env o inp t x s)
  unfolding built issue
  built-Adds t (inr f) s used h =
      absurd (let h' = (nil-append s.issues _ h).1 in ground (arith, h'))
  built-Adds t (inl actions) s used h =
      let (r, s1) = resolve_once sys env o inp t.credential s in
      let (plans, issues, more, rest) =
        resolve_once-Looked sys env o inp t.credential s (used t.credential (inl refl)) in
      let (clean, adds) =
        with_bastion-Adds t actions (auth_of r) t.bastion (note t [] r s1) refl used h in
      let (a, is_a, kept) = note-inl t [] r s1 clean in
      (
        sym issues ∙ sym (ap (λ x. x.issues) kept) ∙ clean,
        λ rem.
            let (rem1, auth_for) = rest rem in
            let (p, added, (target, acts, auth, bastion), more', rem') =
              adds (subst (λ x. Remembers sys env o inp x) (sym kept) rem1) in
            let more1 : More s1.secrets (built sys env o inp t (inl actions) s).secrets =
              subst (λ x. More x.secrets (built sys env o inp t (inl actions) s).secrets) kept
                more' in
            let is_auth : p.auth ≡ a = auth ∙ ap (λ x. auth_of x) is_a in
            (
              p,
              added ∙ ap (λ x. x.plans ++ p ∷ []) kept ∙ ap (λ l. l ++ p ∷ []) plans,
              (
                target,
                ap inl (sym acts),
                subst
                    (λ x.
                      AuthFor sys env o inp (built sys env o inp t (inl actions) s).secrets
                        t.credential x)
                    (sym is_auth)
                    (AuthFor-mono sys env o inp s1.secrets _ t.credential a more1
                      (auth_for a is_a)),
                bastion,
              ),
              (λ z k. more1 z (more z k)),
              rem',
            ),
      )

  valued-Adds :
      (t : Target) (x : (Dict Bytes × List Bytes) ⊎ List Bytes) (s : Progress)
      → Variables.resolve inp.job.variables (inputs sys env o inp t) env ≡ x
      → ((c : Credential) → CredentialOf sys env o inp t c → Used sys env o inp inp.targets c)
      → Adds (λ s' p. Ready sys env o inp s'.secrets t p) s (valued sys env o inp t x s)
  unfolding valued issue
  valued-Adds t (inr is) s e used h =
      absurd (let h' = (nil-append s.issues _ h).1 in ground (arith, h'))
  valued-Adds t (inl (vars, found)) s e used h =
      let secrets = add s.secrets found in
      let x = build inp.job vars (settings sys env o inp) in
      let (clean, adds) = built-Adds t x (record s { secrets = secrets }) used h in
      (
        clean,
        λ rem.
            let (p, added, (target, acts, auth, bastion), more, rem') =
              adds (Remembers-More s secrets (More-add s.secrets found) rem) in
            (
              p,
              added,
              (
                target,
                (vars, found, e, acts, λ z k l. more z (Registered-add s.secrets found z k l)),
                auth,
                bastion,
              ),
              (λ z k. more z (More-add s.secrets found z k)),
              rem',
            ),
      )

  -- The plans of the targets, one each, in order.
  abbrev pub AllReady : List Bytes → List Target → List Prepared → Type 0
  AllReady secrets [] [] = Unit
  AllReady secrets (t ∷ ts) (p ∷ ps) = Ready sys env o inp secrets t p × AllReady secrets ts ps
  AllReady secrets _ _ = ⊥

  pub prepare_all-AllReady :
      (ts : List Target) (s : Progress)
      → ((c : Credential) → Used sys env o inp ts c → Used sys env o inp inp.targets c)
      → (prepare_all sys env o inp ts s).issues ≡ []
      → (s.issues ≡ [])
        × (Remembers sys env o inp s
            → (ps : List Prepared) × ((prepare_all sys env o inp ts s).plans ≡ s.plans ++ ps)
              × AllReady (prepare_all sys env o inp ts s).secrets ts ps
              × More s.secrets (prepare_all sys env o inp ts s).secrets)
  unfolding prepare_all prepare_target
  prepare_all-AllReady [] s used h = (h, λ rem. ([], sym (append-nil s.plans), tt, λ t k. k))
  prepare_all-AllReady (t ∷ ts) s used h =
      let s1 = prepare_target sys env o inp t s in
      let (clean1, rest) = prepare_all-AllReady ts s1 (λ c u. used c (inr u)) h in
      let (clean, adds) =
        valued-Adds t (Variables.resolve inp.job.variables (inputs sys env o inp t) env) s refl
          (λ c u. used c (inl u)) clean1 in
      (
        clean,
        λ rem.
            let (p, added, ready, more, rem1) = adds rem in
            let (ps, all, all_ready, more1) = rest rem1 in
            (
              p ∷ ps,
              all ∙ ap (λ l. l ++ ps) added ∙ append_assoc s.plans (p ∷ []) ps,
              (Ready-mono sys env o inp s1.secrets _ t p more1 ready, all_ready),
              (λ z k. more1 z (more z k)),
            ),
      )
