-- ===== src/Examples/Fleet.antt =====
-- The theorems on inventories, on concrete inputs.
use remote_command_orchestra.Common.{
  List, [], ◌∷◌, Bytes, codes, lookup, insert, some, pos, ◌⊎◌, inl, refl, eq_bytes, among, before,
  is_shaped,
}
use remote_command_orchestra.Domain.{Target}
use remote_command_orchestra.Job.Variables.{check_value}
use remote_command_orchestra.Inventory.{Bastion, Defaults, Host, Inventory, Selector}
use remote_command_orchestra.Inventory.Resolve.{
  resolve_host, first_text, first_port, credential_of, any_of,
}
use remote_command_orchestra.Inventory.Resolve.Inherits.{Inherits}
use remote_command_orchestra.Inventory.Select.{
  is_selected, chosen, sort_by_name, placed_hosts, select,
}
use remote_command_orchestra.Inventory.Select.Picked.{Picked}
use remote_command_orchestra.Inventory.Select.Chosen.{AllResolve}
use remote_command_orchestra.Inventory.Load.{merge_into, empty_inventory, load}
use remote_command_orchestra.Inventory.Load.Merged.{AllRead, Combines, DefaultsOnce, load-Combines}
use remote_command_orchestra.Examples.{credential}

abbrev pub nothing : Defaults
nothing = record {
  port = pos 0;
  username = [];
  credential = [];
  bastion = [];
  tags = [];
  variables = [];
}

abbrev pub ops : Defaults
ops = record nothing {
  credential = codes "ops";
  tags = codes "all" ∷ [];
  variables = (codes "env", codes "test") ∷ [];
}

abbrev pub web : Defaults
web = record nothing {
  port = pos 2222;
  bastion = codes "gate";
  tags = codes "web" ∷ [];
  variables = (codes "env", codes "prod") ∷ [];
}

abbrev pub host : Bytes → Bytes → Host
host name address = record {
  name = name;
  address = address;
  port = pos 0;
  username = [];
  credential = [];
  bastion = [];
  tags = [];
  variables = [];
}

abbrev pub gate : Bastion
gate = record {
  address = codes "g";
  port = pos 0;
  username = codes "jump";
  credential = codes "ops";
}

abbrev pub fleet : Inventory
fleet = record {
  credentials = (codes "ops", credential) ∷ [];
  bastions = (codes "gate", gate) ∷ [];
  defaults = ops;
  groups =
      (
        codes "web",
        record {
          defaults = web;
          hosts = host (codes "w2") (codes "b") ∷ host (codes "w1") (codes "a") ∷ [];
        },
      )
      ∷ [];
  hosts = host (codes "db") (codes "d") ∷ [];
}

abbrev web_host : Bytes → Bytes → Target
web_host name address = record {
  endpoint = record {
    name = name;
    address = address;
    port = pos 2222;
    username = codes "root";
    credential = credential;
  };
  group = codes "web";
  tags = codes "all" ∷ codes "web" ∷ [];
  variables = (codes "env", codes "prod") ∷ [];
  bastion = some (record {
    name = codes "gate";
    address = codes "g";
    port = pos 22;
    username = codes "jump";
    credential = credential;
  });
}

abbrev webs : Selector
webs = record { groups = codes "web" ∷ []; tags = []; hosts = [] }

abbrev both : List Target
both = web_host (codes "w1") (codes "a") ∷ web_host (codes "w2") (codes "b") ∷ []

-- Two files: the names of things, and the hosts with what they share.
abbrev common_file : Inventory
common_file = record fleet { defaults = nothing; groups = []; hosts = [] }

abbrev hosts_file : Inventory
hosts_file = record fleet { credentials = []; bastions = [] }

abbrev read : Bytes → Bytes ⊎ Bytes
read path = inl path

abbrev decode : Bytes → Inventory ⊎ Bytes
decode [] = inl common_file
decode (c ∷ []) = inl common_file
decode (c ∷ (d ∷ text)) = inl hosts_file

load-Combines_example :
    (files : List Inventory) × AllRead read decode (codes "a" ∷ codes "bb" ∷ []) files
    × Combines empty_inventory files fleet
    × DefaultsOnce files
    × ((ts : List Target) × AllResolve fleet (placed_hosts fleet) ts)
unfolding load merge_into select resolve_host first_text first_port credential_of lookup insert
    eq_bytes among check_value any_of is_shaped placed_hosts is_selected chosen sort_by_name before
load-Combines_example =
    load-Combines read decode (codes "a" ∷ codes "bb" ∷ []) fleet (refl, (refl, tt)) refl
