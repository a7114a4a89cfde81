-- ===== src/Inventory/Load.antt =====
-- Load and mergeInto of internal/inventory/inventory.go.
pub mod Step
pub mod Merged
use remote_command_orchestra.Common.{
  ℕ, Bool, true, false, not, ◌&&◌, ◌||◌, List, [], ◌∷◌, ◌++◌, Bytes, codes, is_nil, quoted, Dict,
  lookup, insert, Option, none, some, ℤ, pos, eqb_ℤ, and_then, ◌⊎◌, inl, inr, if◌then◌else◌,
}
use remote_command_orchestra.Domain.{Credential, Target}
use remote_command_orchestra.Inventory.{Bastion, Defaults, Host, Group, Inventory, Selector}
use remote_command_orchestra.Inventory.Select.{select}

-- mergeInto: a name that is there already is an error.
unfoldable pub merge_into : {V : Type 0} → Dict V → Dict V → Bytes → Bytes → Dict V ⊎ Bytes
merge_into dst [] kind file = inl dst
merge_into dst ((k, v) ∷ src) kind file = elim (lookup k dst) [
  | some w ↦ inr (
      file
      ++ (codes ": "
          ++ (kind
              ++ (codes " "
                  ++ (quoted k ++ codes " is already defined in another inventory file")))))
  | none ↦ merge_into (insert k v dst) src kind file
]

-- reflect.DeepEqual with the zero value; an empty list or map counts as none.
pub has_defaults : Defaults → Bool
has_defaults d =
    not (eqb_ℤ d.port (pos 0))
    || (not (is_nil d.username)
        || (not (is_nil d.credential)
            || (not (is_nil d.bastion) || (not (is_nil d.tags) || not (is_nil d.variables)))))

-- The inventory so far, and the file that set the defaults.
pub record Merging : Type 0 where
  pub inventory : Inventory
  pub defaults_from : Bytes

merge_defaults : Merging → Bytes → Defaults → Merging ⊎ Bytes
merge_defaults m file d =
    if not (has_defaults d)
    then inl m
    else (if not (is_nil m.defaults_from)
        then inr (
            codes "defaults are set in both "
            ++ (m.defaults_from ++ (codes " and " ++ (file ++ codes "; keep them in one file"))))
        else inl (record { inventory = record m.inventory { defaults = d }; defaults_from = file }))

merge_maps : Merging → Bytes → Inventory → Merging ⊎ Bytes
merge_maps m file inv =
    let into = m.inventory in
    and_then (merge_into into.credentials inv.credentials (codes "credential") file) (λ credentials.
      and_then (merge_into into.bastions inv.bastions (codes "bastion") file) (λ bastions.
        and_then (merge_into into.groups inv.groups (codes "group") file) (λ groups. inl (record m {
          inventory = record into {
            credentials = credentials;
            bastions = bastions;
            groups = groups;
            hosts = into.hosts ++ inv.hosts;
          };
        }))))

-- The body of the loop, for a file that was read and decoded.
pub merge_file : Merging → Bytes → Inventory → Merging ⊎ Bytes
unfolding merge_defaults has_defaults merge_maps
merge_file m file inv = and_then (merge_defaults m file inv.defaults) (λ m'. merge_maps m' file inv)

abbrev pub empty_inventory : Inventory
empty_inventory = record {
  credentials = [];
  bastions = [];
  defaults = record {
    port = pos 0;
    username = [];
    credential = [];
    bastion = [];
    tags = [];
    variables = [];
  };
  groups = [];
  hosts = [];
}

-- `read` is job.ReadFile with its limit, and `decode` the YAML decoder, by their error's text.
module _ (read : Bytes → Bytes ⊎ Bytes) (decode : Bytes → Inventory ⊎ Bytes) where
  pub decoded : Bytes → Inventory ⊎ Bytes
  decoded path = and_then (read path) (λ text. elim (decode text) [
    | inl inv ↦ inl inv
    | inr err ↦ inr (path ++ (codes ": " ++ err))
  ])

  load_from : List Bytes → Merging → Merging ⊎ Bytes
  load_from [] m = inl m
  load_from (p ∷ paths) m =
      and_then (decoded p) (λ inv. and_then (merge_file m p inv) (λ m'. load_from paths m'))

  -- Parse: a single inventory.
  unfoldable pub parse : Bytes → Inventory ⊎ Bytes
  parse text = and_then (decode text) (λ inv.
      and_then (select inv (record { groups = []; tags = []; hosts = [] })) (λ targets. inl inv))

  -- Load: the combined inventory, once all of its hosts resolve.
  unfoldable pub load : List Bytes → Inventory ⊎ Bytes
  unfolding load_from merge_file decoded
  load paths =
      and_then (load_from paths (record { inventory = empty_inventory; defaults_from = [] })) (λ m.
        and_then (select m.inventory (record { groups = []; tags = []; hosts = [] }))
          (λ targets. inl m.inventory))
