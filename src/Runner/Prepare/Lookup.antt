-- ===== src/Runner/Prepare/Lookup.antt =====
-- Looking up a credential once, for a run without problems.
use remote_command_orchestra.Common.{
  Bool, false, [], Bytes, lookup, lookup-insert, eq_bytes, eq_bytes→eq, nil-append, Option, none,
  some, some-injective, ◌⊎◌, inl, inr, if◌then◌else◌, along, Bool-cases, ◌≡◌, refl, sym, subst, ◌∙◌,
  arith,
}
use remote_command_orchestra.Domain.{Failure, Credential, Target}
use remote_command_orchestra.Credentials.Redactor.{add}
use remote_command_orchestra.Credentials.Resolve.{Auth, System}
use remote_command_orchestra.Credentials.Resolve as Credentials
use remote_command_orchestra.Runner.Prepare.{
  Options, Input, Progress, issue, note, looked_up, known_or, resolve_once,
}
use remote_command_orchestra.Runner.Prepare.Ready.{
  More, More-add, Registered-add, Held, AuthFor, Remembers, Used,
}

pub note-inl :
    (t : Target) (prefix : Bytes) (r : Option Auth ⊎ Bytes) (s : Progress)
    → (note t prefix r s).issues ≡ []
    → (a : Option Auth) × (r ≡ inl a) × (note t prefix r s ≡ s)
unfolding note issue
note-inl t prefix (inl a) s h = (a, refl, refl)
note-inl t prefix (inr err) s h =
    absurd (let h' = (nil-append s.issues _ h).1 in ground (arith, h'))

module _ (sys : System) (env : Bytes → Option Bytes) (o : Options) (inp : Input) where
  -- What looking up a credential does to the progress.
  abbrev pub Looked : Credential → Progress → (Option Auth ⊎ Bytes) × Progress → Type 0
  Looked c s rs =
      (rs.1.plans ≡ s.plans)
      × (rs.1.issues ≡ s.issues)
      × More s.secrets rs.1.secrets
      × (Remembers sys env o inp s
          → Remembers sys env o inp rs.1
            × ((a : Option Auth) → rs.0 ≡ inl a → AuthFor sys env o inp rs.1.secrets c a))

  looked_up-Looked :
      (c : Credential) (x : Auth ⊎ Failure) (s : Progress)
      → o.skip_credentials ≡ false
      → Used sys env o inp inp.targets c
      → Credentials.resolve sys env c ≡ x
      → Looked c s (looked_up c x s)
  unfolding looked_up
  looked_up-Looked c (inr f) s real used e =
      (refl, refl, (λ t h. h), λ rem. (rem, λ a h. absurd (ground (arith, h))))
  looked_up-Looked c (inl a) s real used e =
      let held : Held sys env o inp (add s.secrets a.secrets) c.name a =
        (c, refl, used, e, Registered-add s.secrets a.secrets) in
      (
        refl,
        refl,
        More-add s.secrets a.secrets,
        λ rem. (
          (λ k b h. elim (Bool-cases (eq_bytes c.name k)) [
            | inl same ↦
                let h' : some a ≡ some b =
                  rw (same) at (sym (lookup-insert c.name k a s.auths) ∙ h) in
                subst (λ x. Held sys env o inp (add s.secrets a.secrets) k x)
                  (some-injective a b h')
                  (subst (λ n. Held sys env o inp (add s.secrets a.secrets) n a)
                    (eq_bytes→eq c.name k same) held)
            | inr differ ↦
                let h' = sym (lookup-insert c.name k a s.auths) ∙ h in
                let (d, named, used_d, from, known) = rem k b (rw (differ) at h') in
                (d, named, used_d, from, λ t m l. More-add s.secrets a.secrets t (known t m l))
          ]),
          λ b h.
              along (λ x. AuthFor sys env o inp (add s.secrets a.secrets) c x) (some a) b _ refl h
                (real, held),
        ),
      )

  known_or-Looked :
      (c : Credential) (found : Option Auth) (s : Progress)
      → o.skip_credentials ≡ false
      → Used sys env o inp inp.targets c
      → lookup c.name s.auths ≡ found
      → Looked c s (known_or sys env o inp c found s)
  unfolding known_or
  known_or-Looked c (some a) s real used e = (
    refl,
    refl,
    (λ t h. h),
    λ rem. (
      rem,
      λ b h.
          along (λ x. AuthFor sys env o inp s.secrets c x) (some a) b _ refl h
            (real, rem c.name a e),
    ),
  )
  known_or-Looked c none s real used e =
      looked_up-Looked c (Credentials.resolve sys env c) s real used refl

  pub resolve_once-Looked :
      (c : Credential) (s : Progress)
      → Used sys env o inp inp.targets c
      → Looked c s (resolve_once sys env o inp c s)
  unfolding resolve_once
  resolve_once-Looked c s used =
      let branch : Bool → (Option Auth ⊎ Bytes) × Progress =
        λ b. if b then (inl none, s) else known_or sys env o inp c (lookup c.name s.auths) s in
      elim (Bool-cases o.skip_credentials) [
        | inl skipped ↦
            subst (λ b. Looked c s (branch b)) (sym skipped)
              (
                refl,
                refl,
                (λ t h. h),
                λ rem. (
                  rem,
                  λ b h. along (λ x. AuthFor sys env o inp s.secrets c x) none b _ refl h skipped,
                ),
              )
        | inr real ↦
            subst (λ b. Looked c s (branch b)) (sym real)
              (known_or-Looked c (lookup c.name s.auths) s real used refl)
      ]
