-- ===== src/Credentials/Resolve/Reasons.antt =====
-- The errors of Resolve, none of which is made of a secret.
use remote_command_orchestra.Common.{
  List, [], ◌∷◌, ◌++◌, Bytes, codes, is_nil, eq_bytes, quoted, Option, none, some, ◌⊎◌, inl, inr,
  and_then, ◌≡◌, refl, subst, Bool-cases,
}
use remote_command_orchestra.Domain.{Failure, Credential}
use remote_command_orchestra.Credentials.Resolve.{
  Auth, Parsed, System, fail, not_set, expand_home, password_of, passphrase_of, decrypted, plain,
  read_as, key_text, load_key, by_type, with_sudo, resolve,
}

abbrev pub Any : (Bytes → Type 0) → List Bytes → Type 0
Any P [] = ⊥
Any P (x ∷ xs) = P x ⊎ Any P xs

abbrev pub error_of : Bytes → Bytes ⊎ Bytes → List Bytes
error_of path (inl text) = []
error_of path (inr err) = (codes "cannot read key file " ++ (path ++ (codes ": " ++ err))) ∷ []

abbrev pub read_error : System → Credential → List Bytes
read_error sys c = let path = expand_home sys c.key_file in error_of path (sys.read_file path)

-- All that an error can say: nothing of it depends on the environment.
abbrev pub reasons : System → Credential → List Bytes
reasons sys c =
    not_set c.password_env
    ∷ not_set c.sudo_password_env
    ∷ not_set c.passphrase_env
    ∷ (codes "unsupported type " ++ quoted c.type)
    ∷ codes "cannot decrypt private key"
    ∷ codes "key is encrypted but passphrase_env is not set"
    ∷ codes "cannot parse private key"
    ∷ read_error sys c

abbrev pub Told : System → Credential → Failure → Type 0
Told sys c f = Any (λ t. f ≡ fail c t) (reasons sys c)

-- A result whose error, if it is one, holds.
abbrev Safely : {A : Type 0} → (Failure → Type 0) → A ⊎ Failure → Type 0
Safely P (inl a) = Unit
Safely P (inr f) = P f

Safely-and_then :
    {A B : Type 0} (P : Failure → Type 0) (x : A ⊎ Failure) (f : A → B ⊎ Failure)
    → Safely P x
    → ((a : A) → Safely P (f a))
    → Safely P (and_then x f)
Safely-and_then P (inl a) f h k = k a
Safely-and_then P (inr err) f h k = h

password_of-Safely :
    (P : Failure → Type 0) (c : Credential) (name : Bytes) (o : Option Bytes)
    → P (fail c (not_set name))
    → Safely P (password_of c name o)
unfolding password_of
password_of-Safely P c name none h = h
password_of-Safely P c name (some v) h = elim (Bool-cases (is_nil v)) [
  | inl empty ↦ rw (empty) h
  | inr full ↦ rw (full) tt
]

passphrase_of-Safely :
    (P : Failure → Type 0) (c : Credential) (o : Option Bytes)
    → P (fail c (not_set c.passphrase_env))
    → Safely P (passphrase_of c o)
unfolding passphrase_of
passphrase_of-Safely P c none h = h
passphrase_of-Safely P c (some v) h = tt

read_as-Safely :
    (c : Credential) (path : Bytes) (r : Bytes ⊎ Bytes)
    → Safely (λ f. Any (λ t. f ≡ fail c t) (error_of path r)) (read_as c path r)
unfolding read_as
read_as-Safely c path (inl text) = tt
read_as-Safely c path (inr err) = inl refl

Safely-mono :
    {A : Type 0} (P Q : Failure → Type 0) (x : A ⊎ Failure)
    → ((f : Failure) → P f → Q f)
    → Safely P x
    → Safely Q x
Safely-mono P Q (inl a) k h = tt
Safely-mono P Q (inr f) k h = k f h

key_text-Safely : (sys : System) (c : Credential) → Safely (Told sys c) (key_text sys c)
unfolding key_text
key_text-Safely sys c =
    let path = expand_home sys c.key_file in
    Safely-mono (λ f. Any (λ t. f ≡ fail c t) (read_error sys c)) (Told sys c) (key_text sys c)
      (λ f h. inr (inr (inr (inr (inr (inr (inr h)))))))
      (read_as-Safely c path (sys.read_file path))

decrypted-Safely :
    (sys : System) (c : Credential) (text pass : Bytes) (k : Parsed)
    → Safely (Told sys c) (decrypted c text pass k)
unfolding decrypted
decrypted-Safely sys c text pass Parsed.signer = tt
decrypted-Safely sys c text pass Parsed.passphrase_missing = inr (inr (inr (inr (inl refl))))
decrypted-Safely sys c text pass Parsed.unreadable = inr (inr (inr (inr (inl refl))))

plain-Safely :
    (sys : System) (c : Credential) (text : Bytes) (k : Parsed)
    → Safely (Told sys c) (plain c text k)
unfolding plain
plain-Safely sys c text Parsed.signer = tt
plain-Safely sys c text Parsed.passphrase_missing = inr (inr (inr (inr (inr (inl refl)))))
plain-Safely sys c text Parsed.unreadable = inr (inr (inr (inr (inr (inr (inl refl))))))

load_key-Safely :
    (sys : System) (env : Bytes → Option Bytes) (c : Credential)
    → Safely (Told sys c) (load_key sys env c)
unfolding load_key
load_key-Safely sys env c =
    Safely-and_then (Told sys c) (key_text sys c) _ (key_text-Safely sys c) (λ text.
      elim (Bool-cases (is_nil c.passphrase_env)) [
        | inr named ↦ rw (named) (
            Safely-and_then (Told sys c) (passphrase_of c (env c.passphrase_env)) _
              (passphrase_of-Safely (Told sys c) c (env c.passphrase_env) (inr (inr (inl refl))))
              (λ pass. decrypted-Safely sys c text pass (sys.parse_key text (some pass))))
        | inl bare ↦ rw (bare) (plain-Safely sys c text (sys.parse_key text none))
      ])

by_type-Safely :
    (sys : System) (env : Bytes → Option Bytes) (c : Credential)
    → Safely (Told sys c) (by_type sys env c)
unfolding by_type
by_type-Safely sys env c = elim (Bool-cases (eq_bytes c.type (codes "password"))) [
  | inl is_password ↦ rw (is_password) (
      Safely-and_then (Told sys c) (password_of c c.password_env (env c.password_env)) _
        (password_of-Safely (Told sys c) c c.password_env (env c.password_env) (inl refl))
        (λ pw. tt))
  | inr other ↦ elim (Bool-cases (eq_bytes c.type (codes "private_key"))) [
    | inl is_key ↦ rw (other, is_key) (load_key-Safely sys env c)
    | inr neither ↦ rw (other, neither) (inr (inr (inr (inl refl))))
  ]
]

with_sudo-Safely :
    (sys : System) (env : Bytes → Option Bytes) (c : Credential) (a : Auth)
    → Safely (Told sys c) (with_sudo env c a)
unfolding with_sudo
with_sudo-Safely sys env c a = elim (Bool-cases (is_nil c.sudo_password_env)) [
  | inl unnamed ↦ rw (unnamed) tt
  | inr named ↦ rw (named) (
      Safely-and_then (Told sys c) (password_of c c.sudo_password_env (env c.sudo_password_env)) _
        (password_of-Safely (Told sys c) c c.sudo_password_env (env c.sudo_password_env)
          (inr (inl refl)))
        (λ pw. tt))
]

-- An error of Resolve is a failed authentication, and its text is one of a list that is made of
-- the credential's own fields and of the error of reading the key file: whatever the environment
-- holds and whatever is in the key file, no password, passphrase or key gets into it.
pub resolve_told :
    (sys : System) (env : Bytes → Option Bytes) (c : Credential) (f : Failure)
    → resolve sys env c ≡ inr f
    → Any (λ t. f ≡ fail c t) (reasons sys c)
unfolding resolve
resolve_told sys env c f e =
    subst (λ r. Safely (Told sys c) r) e
      (Safely-and_then (Told sys c) (by_type sys env c) _ (by_type-Safely sys env c)
        (λ a. with_sudo-Safely sys env c a))
