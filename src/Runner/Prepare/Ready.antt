-- ===== src/Runner/Prepare/Ready.antt =====
-- What the plans are that Prepare makes.
use remote_command_orchestra.Common.{
  ◌≤◌, le→leb, length, true, false, List, [], ◌∷◌, ◌⊎◌, Bytes, Dict, lookup, among, Option, none,
  some, inl, ◌≡◌, refl, ◌∙◌, arith,
}
use remote_command_orchestra.Domain.{Credential, Endpoint, Target}
use remote_command_orchestra.Credentials.Redactor.{add, min_secret_len}
use remote_command_orchestra.Credentials.Redactor.Registered.{among-add}
use remote_command_orchestra.Credentials.Resolve.{Auth, System}
use remote_command_orchestra.Credentials.Resolve as Credentials
use remote_command_orchestra.Job.Variables as Variables
use remote_command_orchestra.Job.Model.{build}
use remote_command_orchestra.Runner.Prepare.{Options, Input, Prepared, Progress, inputs, settings}

-- The redactor holds each of these secrets that it takes at all.
abbrev pub Registered : List Bytes → List Bytes → Type 0
Registered new secrets = (t : Bytes) → among new t ≡ true → 3 ≤ length t → among secrets t ≡ true

abbrev pub More : List Bytes → List Bytes → Type 0
More xs ys = (t : Bytes) → among xs t ≡ true → among ys t ≡ true

pub More-add : (secrets new : List Bytes) → More secrets (add secrets new)
More-add secrets new t h = (among-add secrets new).0 t ∙ rw (h) refl

pub Registered-add : (secrets new : List Bytes) → Registered new (add secrets new)
Registered-add secrets new t h k =
    (among-add secrets new).0 t ∙ ground (arith, h, le→leb min_secret_len (length t) k)

module _ (sys : System) (env : Bytes → Option Bytes) (o : Options) (inp : Input) where
  -- The credential of a target or of its bastion.
  abbrev pub CredentialOf : Target → Credential → Type 0
  CredentialOf t c =
      (t.credential ≡ c) ⊎ ((ep : Endpoint) × (t.bastion ≡ some ep) × (ep.credential ≡ c))

  -- One of the credentials of these targets.
  abbrev pub Used : List Target → Credential → Type 0
  Used [] c = ⊥
  Used (t ∷ ts) c = CredentialOf t c ⊎ Used ts c

  -- Authentication by a credential of that name that the run uses, its secrets known to the
  -- redactor.
  abbrev pub Held : List Bytes → Bytes → Auth → Type 0
  Held secrets name a =
      (c : Credential) × (c.name ≡ name)
      × Used inp.targets c
      × (Credentials.resolve sys env c ≡ inl a)
      × Registered a.secrets secrets

  abbrev pub AuthFor : List Bytes → Credential → Option Auth → Type 0
  AuthFor secrets c none = o.skip_credentials ≡ true
  AuthFor secrets c (some a) = (o.skip_credentials ≡ false) × Held secrets c.name a

  abbrev pub BastionFor : List Bytes → Option Endpoint → Option Auth → Type 0
  BastionFor secrets none none = Unit
  BastionFor secrets none (some a) = ⊥
  BastionFor secrets (some ep) auth = AuthFor secrets ep.credential auth

  -- A plan of a target, before its actions are redacted.
  abbrev pub Ready : List Bytes → Target → Prepared → Type 0
  Ready secrets t p =
      (p.target ≡ t)
      × ((vars : Dict Bytes) × (found : List Bytes) × (Variables.resolve inp.job.variables
              (inputs sys env o inp t) env
            ≡ inl (vars, found))
          × (build inp.job vars (settings sys env o inp) ≡ inl p.actions)
          × Registered found secrets)
      × AuthFor secrets t.credential p.auth
      × BastionFor secrets t.bastion p.bastion

  pub AuthFor-mono :
      (xs ys : List Bytes) (c : Credential) (a : Option Auth)
      → More xs ys
      → AuthFor xs c a
      → AuthFor ys c a
  AuthFor-mono xs ys c none m h = h
  AuthFor-mono xs ys c (some a) m (real, (d, same, used, from, held)) =
      (real, (d, same, used, from, λ t k l. m t (held t k l)))

  pub BastionFor-mono :
      (xs ys : List Bytes) (ep : Option Endpoint) (a : Option Auth)
      → More xs ys
      → BastionFor xs ep a
      → BastionFor ys ep a
  BastionFor-mono xs ys none none m h = tt
  BastionFor-mono xs ys none (some a) m h = absurd h
  BastionFor-mono xs ys (some ep) a m h = AuthFor-mono xs ys ep.credential a m h

  pub Ready-mono :
      (xs ys : List Bytes) (t : Target) (p : Prepared) → More xs ys → Ready xs t p → Ready ys t p
  Ready-mono xs ys t p m (same, (vars, found, from, actions, held), auth, bastion) = (
    same,
    (vars, found, from, actions, λ s k l. m s (held s k l)),
    AuthFor-mono xs ys t.credential p.auth m auth,
    BastionFor-mono xs ys t.bastion p.bastion m bastion,
  )

  -- Every remembered authentication is held.
  abbrev pub Remembers : Progress → Type 0
  Remembers s = (k : Bytes) (a : Auth) → lookup k s.auths ≡ some a → Held s.secrets k a
