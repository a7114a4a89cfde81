-- ===== src/Inventory/Resolve/Inherits.antt =====
-- What a resolved host is: its settings, each from the nearest level that has it.
use remote_command_orchestra.Common.{
  true, false, List, [], ◌∷◌, ◌++◌, Bytes, codes, is_nil, among, Dict, lookup, or_else, Option,
  none, some, ℤ, pos, ltb_ℤ, ◌⊎◌, ◌≡◌, All,
}
use remote_command_orchestra.Domain.{Credential, Endpoint, Target}
use remote_command_orchestra.Job.Variables.Printable.{IsPrintable}
use remote_command_orchestra.Inventory.{Bastion, Defaults, Host, Inventory}
use remote_command_orchestra.Inventory.Resolve.{first_text, first_port, port_of}

-- A password comes from the environment and a key from a file.
abbrev pub Usable : Credential → Type 0
Usable c =
    ((c.type ≡ codes "password") × (is_nil c.password_env ≡ false))
    ⊎ ((c.type ≡ codes "private_key") × (is_nil c.key_file ≡ false))

abbrev pub AllClean : Dict Bytes → Type 0
AllClean m = All (λ kv. All IsPrintable kv.1) m

-- The credential of that name, usable.
abbrev pub Named : Inventory → Bytes → Credential → Type 0
Named inv name c =
    Usable c
    × ((entry : Credential) × (lookup name inv.credentials ≡ some entry)
        × (c ≡ record entry { name = name }))

-- The endpoint of a bastion: its settings are those of the inventory's entry.
abbrev pub Reached : Inventory → Bytes → Bastion → Endpoint → Type 0
Reached inv name b ep =
    ((ep.name ≡ name) × (ep.address ≡ b.address) × (is_nil ep.address ≡ false))
    × (ep.port ≡ first_port (b.port ∷ pos 22 ∷ []))
    × ((ep.username ≡ first_text (b.username ∷ ep.credential.username ∷ []))
        × (is_nil ep.username ≡ false))
    × Named inv b.credential ep.credential

-- What the bastion of a target is.
abbrev pub BastionOf : Inventory → Bytes → Option Endpoint → Type 0
BastionOf inv name none = is_nil name ≡ true
BastionOf inv name (some ep) =
    (is_nil name ≡ false)
    × ((b : Bastion) × (lookup name inv.bastions ≡ some b) × Reached inv name b ep)

-- A port a connection can have.
abbrev pub IsPort : ℤ → Type 0
IsPort p = (ltb_ℤ p (pos 1) ≡ false) × (ltb_ℤ (pos 65535) p ≡ false)

abbrev pub all_tags : Inventory → Defaults → Host → List Bytes
all_tags inv gd h = inv.defaults.tags ++ (gd.tags ++ h.tags)

-- The value of the first level that has one.
abbrev pub inherited : Inventory → Defaults → Host → Bytes → Option Bytes
inherited inv gd h k =
    or_else (lookup k h.variables)
      (or_else (lookup k gd.variables) (lookup k inv.defaults.variables))

-- A target with the settings of a host, each from the nearest level that has it.
abbrev pub Inherits : Inventory → Defaults → Host → Target → Type 0
Inherits inv gd h t =
    ((t.name ≡ h.name) × (t.address ≡ h.address) × (is_nil t.address ≡ false))
    × ((t.port ≡ port_of inv gd h) × IsPort t.port)
    × ((t.username
          ≡ first_text
              (h.username ∷ gd.username ∷ inv.defaults.username ∷ t.credential.username ∷ []))
        × (is_nil t.username ≡ false))
    × Named inv (first_text (h.credential ∷ gd.credential ∷ inv.defaults.credential ∷ []))
        t.credential
    × BastionOf inv (first_text (h.bastion ∷ gd.bastion ∷ inv.defaults.bastion ∷ [])) t.bastion
    × ((k : Bytes) → lookup k t.variables ≡ inherited inv gd h k)
    × (AllClean inv.defaults.variables × AllClean gd.variables × AllClean h.variables)
    × ((x : Bytes) → among t.tags x ≡ among (all_tags inv gd h) x)
