-- ===== src/Inventory/Load/Merged.antt =====
-- What Load makes of several files: every entry of each, once.
use remote_command_orchestra.Common.{
  true, false, List, [], ◌∷◌, ◌++◌, Bytes, is_nil, ◌⊎◌, inl, inr, if◌then◌else◌, and_then-inl,
  along, append_assoc, append-nil, ◌≡◌, refl, sym, ap, ◌∙◌, arith, All,
}
use remote_command_orchestra.Domain.{Target}
use remote_command_orchestra.Inventory.{Defaults, Host, Inventory}
use remote_command_orchestra.Inventory.Select.{select, placed_hosts}
use remote_command_orchestra.Inventory.Select.Chosen.{select-chosen, AllResolve}
use remote_command_orchestra.Inventory.Load.{
  has_defaults, Merging, merge_file, decoded, load_from, empty_inventory, load,
}
use remote_command_orchestra.Inventory.Load.Step.{
  DefaultsStep, HasAll, HasAll-nil, HasAll-cons, merge_file-MergeStep,
}

-- The files, as they are read.
abbrev pub AllRead :
    (Bytes → Bytes ⊎ Bytes) → (Bytes → Inventory ⊎ Bytes) → List Bytes → List Inventory → Type 0
AllRead read decode [] [] = Unit
AllRead read decode (p ∷ paths) (f ∷ files) =
    (decoded read decode p ≡ inl f) × AllRead read decode paths files
AllRead read decode _ _ = ⊥

abbrev pub hosts_of : List Inventory → List Host
hosts_of [] = []
hosts_of (f ∷ files) = f.hosts ++ hosts_of files

-- No file after one with defaults has any.
abbrev pub DefaultsOnce : List Inventory → Type 0
DefaultsOnce [] = Unit
DefaultsOnce (f ∷ files) =
    (has_defaults f.defaults ≡ true → All (λ g. has_defaults g.defaults ≡ false) files)
    × DefaultsOnce files

-- The defaults of the file that has some, else those given.
abbrev pub defaults_of : Defaults → List Inventory → Defaults
defaults_of d [] = d
defaults_of d (f ∷ files) = defaults_of (if has_defaults f.defaults then f.defaults else d) files

-- An inventory with all that the files say, beside `i`.
abbrev pub Combines : Inventory → List Inventory → Inventory → Type 0
Combines i files out =
    HasAll (λ x. x.credentials) i files out
    × HasAll (λ x. x.bastions) i files out
    × HasAll (λ x. x.groups) i files out
    × (out.hosts ≡ i.hosts ++ hosts_of files)
    × (out.defaults ≡ defaults_of i.defaults files)

abbrev Loaded :
    (Bytes → Bytes ⊎ Bytes) → (Bytes → Inventory ⊎ Bytes) → List Bytes → Merging → Merging → Type 0
Loaded read decode paths m m' =
    (files : List Inventory) × AllRead read decode paths files
    × Combines m.inventory files m'.inventory
    × DefaultsOnce files
    × (is_nil m.defaults_from ≡ false → All (λ g. has_defaults g.defaults ≡ false) files)

defaults_of-step :
    (m : Merging) (p : Bytes) (f : Inventory) (m1 : Merging)
    → DefaultsStep m p f m1
    → m1.inventory.defaults ≡ (if has_defaults f.defaults then f.defaults else m.inventory.defaults)
defaults_of-step m p f m1 (inl (hasnt, d, from)) = rw (hasnt) d
defaults_of-step m p f m1 (inr (has, free, d, from)) = rw (has) d

-- A file with defaults is the first, and shuts out the others.
DefaultsStep-once :
    (m : Merging) (p : Bytes) (f : Inventory) (m1 : Merging) (P : Type 0)
    → is_nil p ≡ false
    → DefaultsStep m p f m1
    → (is_nil m1.defaults_from ≡ false → P)
    → (has_defaults f.defaults ≡ true → P)
      × (is_nil m.defaults_from ≡ false → (has_defaults f.defaults ≡ false) × P)
DefaultsStep-once m p f m1 P h (inl (hasnt, d, from)) k =
    ((λ has. absurd (ground (arith, has, hasnt))), λ set. (hasnt, k (rw (from) set)))
DefaultsStep-once m p f m1 P h (inr (has, free, d, from)) k =
    ((λ h'. k (rw (from) h)), λ set. absurd (let set' = rw (free) at set in ground (arith, set')))

load_from-Loaded :
    (read : Bytes → Bytes ⊎ Bytes) (decode : Bytes → Inventory ⊎ Bytes) (paths : List Bytes)
    (m m' : Merging)
    → All (λ p. is_nil p ≡ false) paths
    → load_from read decode paths m ≡ inl m'
    → Loaded read decode paths m m'
unfolding load_from
load_from-Loaded read decode [] m m' named e =
    along (λ x. Loaded read decode [] m x) m m' _ refl e
      (
        [],
        tt,
        (
          HasAll-nil (λ x. x.credentials) m.inventory,
          HasAll-nil (λ x. x.bastions) m.inventory,
          HasAll-nil (λ x. x.groups) m.inventory,
          sym (append-nil m.inventory.hosts),
          refl,
        ),
        tt,
        λ h. tt,
      )
load_from-Loaded read decode (p ∷ paths) m m' named e =
    let (f, from_p, e1) = and_then-inl (decoded read decode p) _ m' e in
    let (m1, from_f, e2) = and_then-inl (merge_file m p f) _ m' e1 in
    let (files, reads, (cs, bs, gs, hosts, ds), once, shut) =
      load_from-Loaded read decode paths m1 m' named.1 e2 in
    let (cs', bs', gs', hosts', ds') = merge_file-MergeStep m p f m1 from_f in
    let (shut', shut'') = DefaultsStep-once m p f m1 _ named.0 ds' shut in
    (
      f ∷ files,
      (from_p, reads),
      (
        HasAll-cons (λ x. x.credentials) m.inventory f m1.inventory files m'.inventory cs' cs,
        HasAll-cons (λ x. x.bastions) m.inventory f m1.inventory files m'.inventory bs' bs,
        HasAll-cons (λ x. x.groups) m.inventory f m1.inventory files m'.inventory gs' gs,
        hosts
            ∙ ap (λ l. l ++ hosts_of files) hosts'
            ∙ append_assoc m.inventory.hosts f.hosts (hosts_of files),
        ds ∙ ap (λ d. defaults_of d files) (defaults_of-step m p f m1 ds'),
      ),
      (shut', once),
      shut'',
    )

-- Load, when it succeeds, has read every file, and the inventory holds all of them and no more:
-- each credential, bastion and group of each file as it stands there, and the hosts in the order
-- of the files. No file after one with defaults has defaults, and the defaults are that file's.
-- Every host of the inventory resolves. The paths are not empty.
pub load-Combines :
    (read : Bytes → Bytes ⊎ Bytes) (decode : Bytes → Inventory ⊎ Bytes) (paths : List Bytes)
    (inv : Inventory)
    → All (λ p. is_nil p ≡ false) paths
    → load read decode paths ≡ inl inv
    → (files : List Inventory) × AllRead read decode paths files
      × Combines empty_inventory files inv
      × DefaultsOnce files
      × ((ts : List Target) × AllResolve inv (placed_hosts inv) ts)
unfolding load
load-Combines read decode paths inv named e =
    let (m, to_m, e1) = and_then-inl (load_from read decode paths _) _ inv e in
    let (ts, to_ts, e2) = and_then-inl (select m.inventory _) _ inv e1 in
    let (files, reads, combines, once, shut) = load_from-Loaded read decode paths _ m named to_m in
    let chosen = select-chosen m.inventory _ ts to_ts in
    along
      (λ x.
        (files : List Inventory) × AllRead read decode paths files
        × Combines empty_inventory files x
        × DefaultsOnce files
        × ((ts : List Target) × AllResolve x (placed_hosts x) ts))
      m.inventory inv _ refl e2 (files, reads, combines, once, (chosen.0, chosen.1))
