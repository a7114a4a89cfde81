-- ===== src/Inventory/Select.antt =====
-- Select of internal/inventory/inventory.go.
pub mod Picked
pub mod Chosen
use remote_command_orchestra.Common.{
  ℕ, ◌==◌, Bool, true, false, not, ◌&&◌, ◌||◌, List, [], ◌∷◌, ◌++◌, Bytes, codes, is_nil, among,
  before, sort_texts, quoted, join_with, Dict, lookup, Option, none, some, ℤ, ◌⊎◌, inl, inr,
  if◌then◌else◌, is_alnum, is_shaped,
}
use remote_command_orchestra.Domain.{Target}
use remote_command_orchestra.Inventory.{Defaults, Host, Group, Inventory, Selector}
use remote_command_orchestra.Inventory.Resolve.{any_of, resolve_host}

-- hostNamePattern.
abbrev pub is_host_name : Bytes → Bool
is_host_name s =
    is_shaped is_alnum (λ c. is_alnum c || (c == b'.' || (c == b'_' || (c == b':' || c == b'-'))))
      252 s

-- What the closure add collects.
pub record Collected : Type 0 where
  pub errs : List Bytes
  pub seen : List Bytes
  pub all : List Target

host_error : Host → Bytes → Bytes
host_error h text = codes "host " ++ (quoted h.name ++ (codes ": " ++ text))

add_resolved : Host → Target ⊎ Bytes → Collected → Collected
add_resolved h (inl t) acc = record acc { seen = h.name ∷ acc.seen; all = acc.all ++ t ∷ [] }
add_resolved h (inr err) acc = record acc {
  seen = h.name ∷ acc.seen;
  errs = acc.errs ++ host_error h err ∷ [];
}

-- A host with its group's name and defaults.
pub record Placed : Type 0 where
  pub group : Bytes
  pub defaults : Defaults
  pub host : Host

-- The closure add.
add_host : Inventory → Placed → Collected → Collected
unfolding add_resolved
add_host inv p acc =
    if not (is_host_name p.host.name)
    then record acc { errs = acc.errs ++ host_error p.host (codes "invalid or missing name") ∷ [] }
    else (if among acc.seen p.host.name
        then record acc {
          errs = acc.errs ++ host_error p.host (codes "defined more than once") ∷ [];
        }
        else add_resolved p.host (resolve_host inv p.group p.defaults p.host) acc)

pub add_all : Inventory → List Placed → Collected → Collected
add_all inv [] acc = acc
add_all inv (p ∷ ps) acc = add_all inv ps (add_host inv p acc)

place_hosts : Bytes → Defaults → List Host → List Placed
place_hosts group gd [] = []
place_hosts group gd (h ∷ hosts) =
    (record { group = group; defaults = gd; host = h }) ∷ place_hosts group gd hosts

place_groups : Dict Group → List Placed
place_groups [] = []
place_groups ((g, grp) ∷ groups) = place_hosts g grp.defaults grp.hosts ++ place_groups groups

abbrev no_defaults : Defaults
no_defaults = record {
  port = ℤ.pos 0;
  username = [];
  credential = [];
  bastion = [];
  tags = [];
  variables = [];
}

-- All hosts, in the order in which they are added: those of the groups, then the others.
unfoldable pub placed_hosts : Inventory → List Placed
unfolding place_groups place_hosts
placed_hosts inv = place_groups inv.groups ++ place_hosts [] no_defaults inv.hosts

unknown_groups : Inventory → List Bytes → List Bytes
unknown_groups inv [] = []
unknown_groups inv (g ∷ gs) = elim (lookup g inv.groups) [
  | none ↦ (codes "unknown group " ++ quoted g) ∷ unknown_groups inv gs
  | some grp ↦ unknown_groups inv gs
]

unknown_hosts : List Bytes → List Bytes → List Bytes
unknown_hosts seen [] = []
unknown_hosts seen (h ∷ hs) =
    let rest = unknown_hosts seen hs in
    if among seen h then rest else (codes "unknown host " ++ quoted h) ∷ rest

-- The test of the last loop.
unfoldable pub is_selected : Selector → Target → Bool
is_selected sel t =
    any_of sel.groups (t.group ∷ []) && (any_of sel.tags t.tags && any_of sel.hosts (t.name ∷ []))

unfoldable pub chosen : Selector → List Target → List Target
chosen sel [] = []
chosen sel (t ∷ ts) = let rest = chosen sel ts in if is_selected sel t then t ∷ rest else rest

-- sort.Slice by name.
place_by_name : Target → List Target → List Target
place_by_name t [] = t ∷ []
place_by_name t (u ∷ us) =
    let rest = place_by_name t us in if before u.name t.name then u ∷ rest else t ∷ u ∷ us

unfoldable pub sort_by_name : List Target → List Target
unfolding place_by_name
sort_by_name [] = []
sort_by_name (t ∷ ts) = place_by_name t (sort_by_name ts)

select_from : Selector → List Bytes → List Target → List Target ⊎ Bytes
select_from sel [] all = inl (sort_by_name (chosen sel all))
select_from sel (e ∷ errs) all =
    inr (codes "inventory invalid: " ++ join_with (codes "; ") (sort_texts (e ∷ errs)))

abbrev pub collected : Inventory → Collected
collected inv = add_all inv (placed_hosts inv) (record { errs = []; seen = []; all = [] })

-- Select: the matching hosts, resolved and sorted by name, or all errors.
unfoldable pub select : Inventory → Selector → List Target ⊎ Bytes
unfolding select_from add_all add_host host_error unknown_groups unknown_hosts
select inv sel =
    let acc = collected inv in
    select_from sel
      (acc.errs ++ (unknown_groups inv sel.groups ++ unknown_hosts acc.seen sel.hosts)) acc.all
