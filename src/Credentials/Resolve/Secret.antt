-- ===== src/Credentials/Resolve/Secret.antt =====
-- What is secret of a resolved credential, and what its errors tell.
use remote_command_orchestra.Common.{
  true, false, not, List, [], ◌∷◌, ◌++◌, Bytes, codes, is_nil, eq_bytes, eq_bytes_refl, among,
  among-snoc, Option, none, some, inl, inr, if◌then◌else◌, along, and_then-inl, ◌≡◌, ◌≢◌, refl, sym,
  ap, ◌∙◌, arith, All, Bool-cases,
}
use remote_command_orchestra.Domain.{Credential}
use remote_command_orchestra.Credentials.Resolve.{
  Method, Auth, Parsed, System, password_of, passphrase_of, with_key, decrypted, plain, key_text,
  load_key, with_password, by_type, with_sudo, resolve,
}

-- The secret that a method sends is registered; a method with a bare key has none.
abbrev pub IsHidden : List Bytes → Method → Type 0
IsHidden secrets (Method.password pw) = among secrets pw ≡ true
IsHidden secrets (Method.keyboard_interactive pw) = among secrets pw ≡ true
IsHidden secrets (Method.public_keys text none) = Unit
IsHidden secrets (Method.public_keys text (some pass)) = among secrets pass ≡ true

-- Nothing that logs in or runs sudo is missing among the secrets.
abbrev pub AllHidden : Auth → Type 0
AllHidden a =
    (a.methods ≢ [])
    × All (λ m. IsHidden a.secrets m) a.methods
    × (is_nil a.sudo_password ≡ false → among a.secrets a.sudo_password ≡ true)

password_of-inl :
    (c : Credential) (name : Bytes) (o : Option Bytes) (pw : Bytes)
    → password_of c name o ≡ inl pw
    → (o ≡ some pw) × (is_nil pw ≡ false)
unfolding password_of
password_of-inl c name none pw e = absurd (ground (arith, e))
password_of-inl c name (some v) pw e = elim (Bool-cases (is_nil v)) [
  | inl empty ↦ absurd (let e' = rw (empty) at e in ground (arith, e'))
  | inr full ↦
      along (λ x. (some v ≡ some x) × (is_nil x ≡ false)) v pw _ refl (rw (full) at e) (refl, full)
]

with_password-AllHidden : (pw : Bytes) → AllHidden (with_password pw)
unfolding with_password among
with_password-AllHidden pw =
    let same : among (pw ∷ []) pw ≡ true = ground (arith, eq_bytes_refl pw) in
    ((λ e. ground (arith, e)), (same, (same, tt)), λ h. same)

sudo-with_password : (pw : Bytes) → (with_password pw).sudo_password ≡ pw
unfolding with_password
sudo-with_password pw = refl

-- The password that sudo gets.
abbrev pub sudo_of : (Bytes → Option Bytes) → Credential → Option Bytes
sudo_of env c =
    if not (is_nil c.sudo_password_env)
    then env c.sudo_password_env
    else (if eq_bytes c.type (codes "password") then env c.password_env else some [])

abbrev own_sudo_of : (Bytes → Option Bytes) → Credential → Option Bytes
own_sudo_of env c = if eq_bytes c.type (codes "password") then env c.password_env else some []

abbrev Fine : Option Bytes → Auth → Type 0
Fine o a = AllHidden a × (o ≡ some a.sudo_password)

decrypted-Fine :
    (c : Credential) (text pass : Bytes) (k : Parsed) (a : Auth)
    → decrypted c text pass k ≡ inl a
    → Fine (some []) a
unfolding decrypted with_key among
decrypted-Fine c text pass Parsed.signer a e =
    along (λ x. Fine (some []) x) (with_key text (some pass) (pass ∷ [])) a _ refl e
      (
        (
          (λ n. ground (arith, n)),
          (ground (arith, eq_bytes_refl pass), tt),
          λ h. ground (arith, h),
        ),
        refl,
      )
decrypted-Fine c text pass Parsed.passphrase_missing a e = absurd (ground (arith, e))
decrypted-Fine c text pass Parsed.unreadable a e = absurd (ground (arith, e))

plain-Fine :
    (c : Credential) (text : Bytes) (k : Parsed) (a : Auth)
    → plain c text k ≡ inl a
    → Fine (some []) a
unfolding plain with_key
plain-Fine c text Parsed.signer a e =
    along (λ x. Fine (some []) x) (with_key text none []) a _ refl e
      (((λ n. ground (arith, n)), (tt, tt), λ h. ground (arith, h)), refl)
plain-Fine c text Parsed.passphrase_missing a e = absurd (ground (arith, e))
plain-Fine c text Parsed.unreadable a e = absurd (ground (arith, e))

load_key-Fine :
    (sys : System) (env : Bytes → Option Bytes) (c : Credential) (a : Auth)
    → load_key sys env c ≡ inl a
    → Fine (some []) a
unfolding load_key
load_key-Fine sys env c a e =
    let (text, from_text, e1) = and_then-inl (key_text sys c) _ a e in
    elim (Bool-cases (is_nil c.passphrase_env)) [
      | inr named ↦
          let (pass, from_pass, e2) =
            and_then-inl (passphrase_of c (env c.passphrase_env)) _ a (rw (named) at e1) in
          decrypted-Fine c text pass (sys.parse_key text (some pass)) a e2
      | inl bare ↦ plain-Fine c text (sys.parse_key text none) a (rw (bare) at e1)
    ]

by_type-Fine :
    (sys : System) (env : Bytes → Option Bytes) (c : Credential) (a : Auth)
    → by_type sys env c ≡ inl a
    → Fine (own_sudo_of env c) a
unfolding by_type
by_type-Fine sys env c a e = elim (Bool-cases (eq_bytes c.type (codes "password"))) [
  | inl is_password ↦
      let (pw, from_pw, e1) =
        and_then-inl (password_of c c.password_env (env c.password_env)) _ a
          (rw (is_password) at e) in
      let (set, full) = password_of-inl c c.password_env (env c.password_env) pw from_pw in
      along (λ x. Fine (own_sudo_of env c) x) (with_password pw) a _ refl e1
        (with_password-AllHidden pw, rw (is_password) (set ∙ ap some (sym (sudo-with_password pw))))
  | inr other ↦ elim (Bool-cases (eq_bytes c.type (codes "private_key"))) [
    | inl is_key ↦ rw (other) (load_key-Fine sys env c a (rw (other, is_key) at e))
    | inr neither ↦ absurd (let e' = rw (other, neither) at e in ground (arith, e'))
  ]
]

IsHidden-snoc :
    (secrets : List Bytes) (pw : Bytes) (m : Method)
    → IsHidden secrets m
    → IsHidden (secrets ++ pw ∷ []) m
IsHidden-snoc secrets pw (Method.password v) h = among-snoc secrets pw v ∙ rw (h) refl
IsHidden-snoc secrets pw (Method.keyboard_interactive v) h = among-snoc secrets pw v ∙ rw (h) refl
IsHidden-snoc secrets pw (Method.public_keys text none) h = tt
IsHidden-snoc secrets pw (Method.public_keys text (some pass)) h =
    among-snoc secrets pw pass ∙ rw (h) refl

All-IsHidden-snoc :
    (secrets : List Bytes) (pw : Bytes) (ms : List Method)
    → All (λ m. IsHidden secrets m) ms
    → All (λ m. IsHidden (secrets ++ pw ∷ []) m) ms
All-IsHidden-snoc secrets pw [] h = tt
All-IsHidden-snoc secrets pw (m ∷ ms) (h, hs) =
    (IsHidden-snoc secrets pw m h, All-IsHidden-snoc secrets pw ms hs)

-- Resolve, when it succeeds, gives at least one way to log in; every password and passphrase that
-- is sent, to log in or to sudo, is among the secrets that will be redacted; and sudo gets the
-- value of its own environment variable if one is named, else the login password, else nothing.
pub resolve_hides :
    (sys : System) (env : Bytes → Option Bytes) (c : Credential) (a : Auth)
    → resolve sys env c ≡ inl a
    → AllHidden a × (sudo_of env c ≡ some a.sudo_password)
unfolding resolve with_sudo
resolve_hides sys env c a e =
    let (b, from_type, e1) = and_then-inl (by_type sys env c) _ a e in
    let ((some_method, hidden, sudo_hidden), own_sudo) = by_type-Fine sys env c b from_type in
    elim (Bool-cases (is_nil c.sudo_password_env)) [
      | inl unnamed ↦
          along (λ x. Fine (sudo_of env c) x) b a _ refl (rw (unnamed) at e1)
            ((some_method, hidden, sudo_hidden), rw (unnamed) own_sudo)
      | inr named ↦
          let (pw, from_pw, e2) =
            and_then-inl (password_of c c.sudo_password_env (env c.sudo_password_env)) _ a
              (rw (named) at e1) in
          let (set, full) =
            password_of-inl c c.sudo_password_env (env c.sudo_password_env) pw from_pw in
          along (λ x. Fine (sudo_of env c) x) _ a _ refl e2
            (
              (
                some_method,
                All-IsHidden-snoc b.secrets pw b.methods hidden,
                (λ h. among-snoc b.secrets pw pw ∙ ground (arith, eq_bytes_refl pw)),
              ),
              rw (named) set,
            )
    ]
