-- ===== src/Credentials/Resolve.antt =====
-- Resolve, loadKey and ExpandHome of internal/credentials/credentials.go.
-- A signer is what it is parsed from: the file's text, with the passphrase if there is one.
pub mod Secret
pub mod Reasons
use remote_command_orchestra.Common.{
  Bool, and_then, true, false, not, ◌&&◌, ◌||◌, List, [], ◌∷◌, ◌++◌, Bytes, codes, is_nil,
  is_prefix, eq_bytes, drop, quoted, Option, none, some, ◌⊎◌, inl, inr, if◌then◌else◌,
}
use remote_command_orchestra.Domain.{Category, Failure, Credential}

-- ssh.AuthMethod, by the function that makes it. The answers of a keyboard-interactive login are
-- all the password.
pub data Method : Type 0 where
  password : Bytes → Method
  keyboard_interactive : Bytes → Method
  public_keys : Bytes → Option Bytes → Method

pub record Auth : Type 0 where
  pub methods : List Method
  pub sudo_password : Bytes
  pub secrets : List Bytes

-- What ssh.ParsePrivateKey and ssh.ParsePrivateKeyWithPassphrase say of a key.
pub data Parsed : Type 0 where
  signer : Parsed
  passphrase_missing : Parsed
  unreadable : Parsed

-- The parts of the system that are used: os.ReadFile, with its error's text, os.UserHomeDir,
-- filepath.Join, and the parser of keys.
pub record System : Type 0 where
  pub read_file : Bytes → Bytes ⊎ Bytes
  pub home : Option Bytes
  pub join : Bytes → Bytes → Bytes
  pub parse_key : Bytes → Option Bytes → Parsed

pub fail : Credential → Bytes → Failure
fail c text = record {
  category = Category.auth_failed;
  reason = codes "credential " ++ (quoted c.name ++ (codes ": " ++ text));
}

pub not_set : Bytes → Bytes
not_set name = codes "environment variable " ++ (name ++ codes " is not set")

-- ExpandHome.
unfoldable pub expand_home : System → Bytes → Bytes
expand_home sys p =
    if is_prefix (codes "~/") p
    then (elim sys.home [ none ↦ p | some home ↦ sys.join home (drop 2 p) ])
    else p

-- A password of the environment: it is set, and not empty.
password_of : Credential → Bytes → Option Bytes → Bytes ⊎ Failure
password_of c name none = inr (fail c (not_set name))
password_of c name (some pw) = if is_nil pw then inr (fail c (not_set name)) else inl pw

-- A passphrase may be empty.
passphrase_of : Credential → Option Bytes → Bytes ⊎ Failure
passphrase_of c none = inr (fail c (not_set c.passphrase_env))
passphrase_of c (some pass) = inl pass

with_key : Bytes → Option Bytes → List Bytes → Auth
with_key text passphrase secrets = record {
  methods = public_keys text passphrase ∷ [];
  sudo_password = [];
  secrets = secrets;
}

decrypted : Credential → Bytes → Bytes → Parsed → Auth ⊎ Failure
decrypted c text pass signer = inl (with_key text (some pass) (pass ∷ []))
decrypted c text pass _ = inr (fail c (codes "cannot decrypt private key"))

plain : Credential → Bytes → Parsed → Auth ⊎ Failure
plain c text signer = inl (with_key text none [])
plain c text passphrase_missing =
    inr (fail c (codes "key is encrypted but passphrase_env is not set"))
plain c text unreadable = inr (fail c (codes "cannot parse private key"))

read_as : Credential → Bytes → Bytes ⊎ Bytes → Bytes ⊎ Failure
read_as c path (inl text) = inl text
read_as c path (inr err) =
    inr (fail c (codes "cannot read key file " ++ (path ++ (codes ": " ++ err))))

key_text : System → Credential → Bytes ⊎ Failure
unfolding read_as
key_text sys c = let path = expand_home sys c.key_file in read_as c path (sys.read_file path)

-- loadKey, with the method that Resolve makes of the signer.
load_key : System → (Bytes → Option Bytes) → Credential → Auth ⊎ Failure
unfolding decrypted plain with_key key_text passphrase_of
load_key sys env c = and_then (key_text sys c) (λ text.
    if not (is_nil c.passphrase_env)
    then and_then (passphrase_of c (env c.passphrase_env))
        (λ pass. decrypted c text pass (sys.parse_key text (some pass)))
    else plain c text (sys.parse_key text none))

with_password : Bytes → Auth
with_password pw = record {
  methods = password pw ∷ keyboard_interactive pw ∷ [];
  sudo_password = pw;
  secrets = pw ∷ [];
}

-- The switch on the type of the credential.
by_type : System → (Bytes → Option Bytes) → Credential → Auth ⊎ Failure
unfolding load_key with_password password_of
by_type sys env c =
    if eq_bytes c.type (codes "password")
    then and_then (password_of c c.password_env (env c.password_env)) (λ pw. inl (with_password pw))
    else (if eq_bytes c.type (codes "private_key")
        then load_key sys env c
        else inr (fail c (codes "unsupported type " ++ quoted c.type)))

with_sudo : (Bytes → Option Bytes) → Credential → Auth → Auth ⊎ Failure
unfolding password_of
with_sudo env c a =
    if not (is_nil c.sudo_password_env)
    then and_then (password_of c c.sudo_password_env (env c.sudo_password_env))
        (λ pw. inl (record a { sudo_password = pw; secrets = a.secrets ++ pw ∷ [] }))
    else inl a

-- Resolve: the authentication that a credential stands for. `env` is the process environment.
unfoldable pub resolve : System → (Bytes → Option Bytes) → Credential → Auth ⊎ Failure
unfolding by_type with_sudo
resolve sys env c = and_then (by_type sys env c) (λ a. with_sudo env c a)
