-- ===== src/Inventory/Resolve.antt =====
-- resolve, credential, first and anyOf of internal/inventory/inventory.go.
pub mod AnyOf
pub mod Inherits
use remote_command_orchestra.Common.{
  ℕ, ◌==◌, Bool, true, false, not, ◌&&◌, ◌||◌, List, [], ◌∷◌, ◌++◌, Bytes, codes, is_nil, eq_bytes,
  among, quoted, Dict, lookup, insert, Option, none, some, ℤ, pos, negsuc, eqb_ℤ, ltb_ℤ, and_then,
  ◌⊎◌, inl, inr, if◌then◌else◌,
}
use remote_command_orchestra.Domain.{Credential, Endpoint, Target, itoa}
use remote_command_orchestra.Job.Variables.{check_value}
use remote_command_orchestra.Inventory.{Bastion, Defaults, Host, Group, Inventory}

-- anyOf: nothing is wanted, or something wanted is there.
some_among : List Bytes → List Bytes → Bool
some_among [] have = false
some_among (w ∷ want) have = among have w || some_among want have

unfoldable pub any_of : List Bytes → List Bytes → Bool
unfolding some_among
any_of want have = is_nil want || some_among want have

-- first: the first value that is not the zero value.
unfoldable pub first_text : List Bytes → Bytes
first_text [] = []
first_text (v ∷ vals) = let rest = first_text vals in if not (is_nil v) then v else rest

unfoldable pub first_port : List ℤ → ℤ
first_port [] = pos 0
first_port (v ∷ vals) = let rest = first_port vals in if not (eqb_ℤ v (pos 0)) then v else rest

-- credential.
checked : Credential → Credential ⊎ Bytes
checked c =
    if eq_bytes c.type (codes "password")
    then (if is_nil c.password_env
        then inr (
            codes "credential "
            ++ (quoted c.name
                ++ codes ": password_env is required (plaintext passwords are not accepted)"))
        else inl c)
    else (if eq_bytes c.type (codes "private_key")
        then (if is_nil c.key_file
            then inr (codes "credential " ++ (quoted c.name ++ codes ": key_file is required"))
            else inl c)
        else inr (
            codes "credential "
            ++ (quoted c.name ++ codes ": type must be password or private_key")))

unfoldable pub credential_of : Inventory → Bytes → Credential ⊎ Bytes
unfolding checked
credential_of inv name =
    if is_nil name
    then inr (codes "credential is required")
    else (elim (lookup name inv.credentials) [
      | none ↦ inr (codes "unknown credential " ++ quoted name)
      | some c ↦ checked (record c { name = name })
    ])

-- The inner loop over the variables of one source.
variables_into : Dict Bytes → Dict Bytes → Dict Bytes ⊎ Bytes
variables_into [] vars = inl vars
variables_into ((k, v) ∷ m) vars = elim (check_value v) [
  | some err ↦ inr (codes "variable " ++ (quoted k ++ (codes ": " ++ err)))
  | none ↦ variables_into m (insert k v vars)
]

-- Each tag once, in the order of its first occurrence.
tags_into : List Bytes → List Bytes → List Bytes
tags_into [] tags = tags
tags_into (t ∷ more) tags = tags_into more (if among tags t then tags else tags ++ t ∷ [])

bastion_endpoint : Inventory → Bytes → Bastion → Endpoint ⊎ Bytes
bastion_endpoint inv name b = elim (credential_of inv b.credential) [
  | inr err ↦ inr (codes "bastion " ++ (quoted name ++ (codes ": " ++ err)))
  | inl c ↦
      let username = first_text (b.username ∷ c.username ∷ []) in
      if is_nil b.address || is_nil username
      then inr (codes "bastion " ++ (quoted name ++ codes ": address and username are required"))
      else inl (record {
        name = name;
        address = b.address;
        port = first_port (b.port ∷ pos 22 ∷ []);
        username = username;
        credential = c;
      })
]

bastion_of : Inventory → Bytes → Option Endpoint ⊎ Bytes
bastion_of inv name = if is_nil name then inl none else (elim (lookup name inv.bastions) [
  | none ↦ inr (codes "unknown bastion " ++ quoted name)
  | some b ↦ and_then (bastion_endpoint inv name b) (λ e. inl (some e))
])

abbrev pub port_of : Inventory → Defaults → Host → ℤ
port_of inv gd h = first_port (h.port ∷ gd.port ∷ inv.defaults.port ∷ pos 22 ∷ [])

address_check : Inventory → Defaults → Host → ℤ ⊎ Bytes
address_check inv gd h =
    let port = port_of inv gd h in
    if is_nil h.address
    then inr (codes "address is required")
    else (if ltb_ℤ port (pos 1) || ltb_ℤ (pos 65535) port
        then inr (codes "port " ++ (itoa port ++ codes " out of range"))
        else inl port)

username_check : Bytes → Bytes ⊎ Bytes
username_check username =
    if is_nil username
    then inr (codes "username is required (host, defaults or credential)")
    else inl username

built :
    Bytes
    → Defaults
    → Inventory
    → Host
    → ℤ
    → Dict Bytes
    → Credential
    → Bytes
    → Option Endpoint
    → Target
built group gd inv h port vars cred username bastion = record {
  endpoint = record {
    name = h.name;
    address = h.address;
    port = port;
    username = username;
    credential = cred;
  };
  group = group;
  tags = tags_into (inv.defaults.tags ++ (gd.tags ++ h.tags)) [];
  variables = vars;
  bastion = bastion;
}

-- resolve: the settings of a host, its own before its group's before the inventory's.
unfoldable pub resolve_host : Inventory → Bytes → Defaults → Host → Target ⊎ Bytes
unfolding address_check variables_into username_check bastion_of bastion_endpoint built tags_into
resolve_host inv group gd h = and_then (address_check inv gd h) (λ port.
    and_then (variables_into inv.defaults.variables []) (λ v1.
      and_then (variables_into gd.variables v1) (λ v2.
        and_then (variables_into h.variables v2) (λ vars.
          and_then
            (credential_of inv
              (first_text (h.credential ∷ gd.credential ∷ inv.defaults.credential ∷ [])))
            (λ cred.
              and_then
                (username_check (
                  first_text
                    (h.username ∷ gd.username ∷ inv.defaults.username ∷ cred.username ∷ [])))
                (λ username.
                  and_then
                    (bastion_of inv
                      (first_text (h.bastion ∷ gd.bastion ∷ inv.defaults.bastion ∷ [])))
                    (λ bastion. inl (built group gd inv h port vars cred username bastion))))))))
