-- ===== src/Inventory/Load/Step.antt =====
-- What mergeInto and the defaults of one more file do to the inventory so far.
use remote_command_orchestra.Common.{
  true, false, List, [], ◌∷◌, ◌++◌, Bytes, codes, is_nil, Dict, lookup, insert, lookup-insert,
  or_else, or_else-none, or_else_assoc, eq_bytes, eq_bytes→eq, Option, none, some, ◌⊎◌, inl, inr,
  if◌then◌else◌, and_then-inl, along, ◌≡◌, refl, sym, ap, subst, ◌∙◌, arith, All, Bool-cases,
  Option-cases,
}
use remote_command_orchestra.Inventory.{Inventory}
use remote_command_orchestra.Inventory.Load.{
  merge_into, has_defaults, Merging, merge_defaults, merge_maps, merge_file,
}

-- The union of two maps that share no key.
abbrev pub IsUnion : {V : Type 0} → Dict V → Dict V → Dict V → Type 0
IsUnion {V} dst src out =
    ((k : Bytes) → lookup k out ≡ or_else (lookup k dst) (lookup k src))
    × ((k : Bytes) (v : V) → lookup k src ≡ some v → lookup k dst ≡ none)

lookup-insert_swap :
    {V : Type 0} (j k : Bytes) (v : V) (dst src : Dict V)
    → lookup k dst ≡ none
    → or_else (lookup j (insert k v dst)) (lookup j src)
      ≡ or_else (lookup j dst) (lookup j ((k, v) ∷ src))
unfolding lookup
lookup-insert_swap j k v dst src free = elim (Bool-cases (eq_bytes k j)) [
  | inl same ↦
      rw
        (
          lookup-insert k j v dst,
          same,
          subst (λ x. lookup x dst ≡ none) (eq_bytes→eq k j same) free,
        )
        refl
  | inr differ ↦ rw (lookup-insert k j v dst, differ) refl
]

merge_into-IsUnion :
    {V : Type 0} (dst src out : Dict V) (kind file : Bytes)
    → merge_into dst src kind file ≡ inl out
    → IsUnion dst src out
unfolding merge_into lookup
merge_into-IsUnion dst [] out kind file e =
    along (λ x. IsUnion dst [] x) dst out _ refl e
      ((λ k. sym (or_else-none (lookup k dst))), λ k v h. ground (arith, h))
merge_into-IsUnion dst ((k, v) ∷ src) out kind file e = elim (Option-cases (lookup k dst)) [
  | inr (w, there) ↦ absurd (let e' = rw (there, merge_into) at e in ground (arith, e'))
  | inl free ↦
      let (all, apart) =
        merge_into-IsUnion (insert k v dst) src out kind file (rw (free, merge_into) at e) in
      (
        (λ j. all j ∙ lookup-insert_swap j k v dst src free),
        λ j w h. elim (Bool-cases (eq_bytes k j)) [
          | inl same ↦ subst (λ x. lookup x dst ≡ none) (eq_bytes→eq k j same) free
          | inr differ ↦
              (let e' : (if eq_bytes k j then some v else lookup j dst) ≡ none =
                  sym (lookup-insert k j v dst) ∙ apart j w (rw (differ) at h) in
                rw (differ) at e')
        ],
      )
]

-- The first file that has the key.
abbrev pub first_with : {V : Type 0} → (Inventory → Dict V) → Bytes → List Inventory → Option V
first_with entries k [] = none
first_with entries k (f ∷ files) = or_else (lookup k (entries f)) (first_with entries k files)

-- What is in `i` with the entries of the files, each of them kept as it is.
abbrev pub HasAll :
    {V : Type 0} → (Inventory → Dict V) → Inventory → List Inventory → Inventory → Type 0
HasAll {V} entries i files out =
    ((k : Bytes)
      → lookup k (entries out) ≡ or_else (lookup k (entries i)) (first_with entries k files))
    × All
        (λ f. (k : Bytes) (v : V) → lookup k (entries f) ≡ some v → lookup k (entries out) ≡ some v)
        files

pub HasAll-nil : {V : Type 0} (entries : Inventory → Dict V) (i : Inventory) → HasAll entries i [] i
HasAll-nil entries i = ((λ k. sym (or_else-none (lookup k (entries i)))), tt)

pub HasAll-cons :
    {V : Type 0} (entries : Inventory → Dict V) (i f i' : Inventory) (files : List Inventory)
    (out : Inventory)
    → IsUnion (entries i) (entries f) (entries i')
    → HasAll entries i' files out
    → HasAll entries i (f ∷ files) out
HasAll-cons entries i f i' files out (union, apart) (all, kept) = (
  (λ k.
      all k
      ∙ rw (union k) (
          or_else_assoc (lookup k (entries i)) (lookup k (entries f))
            (first_with entries k files))),
  ((λ k v h. all k ∙ rw (union k, apart k v h, h) refl), kept),
)

-- The defaults, and where they come from.
abbrev pub DefaultsStep : Merging → Bytes → Inventory → Merging → Type 0
DefaultsStep m file f m' =
    ((has_defaults f.defaults ≡ false)
      × (m'.inventory.defaults ≡ m.inventory.defaults)
      × (m'.defaults_from ≡ m.defaults_from))
    ⊎ ((has_defaults f.defaults ≡ true)
        × (m.defaults_from ≡ [])
        × (m'.inventory.defaults ≡ f.defaults)
        × (m'.defaults_from ≡ file))

-- What one more file adds.
abbrev pub MergeStep : Merging → Bytes → Inventory → Merging → Type 0
MergeStep m file f m' =
    IsUnion m.inventory.credentials f.credentials m'.inventory.credentials
    × IsUnion m.inventory.bastions f.bastions m'.inventory.bastions
    × IsUnion m.inventory.groups f.groups m'.inventory.groups
    × (m'.inventory.hosts ≡ m.inventory.hosts ++ f.hosts)
    × DefaultsStep m file f m'

SameMaps : Inventory → Inventory → Type 0
SameMaps i j =
    (i.credentials ≡ j.credentials)
    × (i.bastions ≡ j.bastions)
    × (i.groups ≡ j.groups)
    × (i.hosts ≡ j.hosts)

is_nil→nil : (s : Bytes) → is_nil s ≡ true → s ≡ []
is_nil→nil [] h = refl
is_nil→nil (c ∷ s) h = ground arith

merge_defaults-DefaultsStep :
    (m : Merging) (file : Bytes) (f : Inventory) (m' : Merging)
    → merge_defaults m file f.defaults ≡ inl m'
    → SameMaps m'.inventory m.inventory × DefaultsStep m file f m'
unfolding merge_defaults SameMaps
merge_defaults-DefaultsStep m file f m' e = elim (Bool-cases (has_defaults f.defaults)) [
  | inr none_there ↦
      along (λ x. SameMaps x.inventory m.inventory × DefaultsStep m file f x) m m' _ refl
        (rw (none_there) at e) ((refl, refl, refl, refl), inl (none_there, refl, refl))
  | inl there ↦ elim (Bool-cases (is_nil m.defaults_from)) [
    | inr set ↦ absurd (let e' = rw (there, set) at e in ground (arith, e'))
    | inl free ↦
        along (λ x. SameMaps x.inventory m.inventory × DefaultsStep m file f x) _ m' _ refl
          (rw (there, free) at e)
          ((refl, refl, refl, refl), inr (there, is_nil→nil m.defaults_from free, refl, refl))
  ]
]

pub merge_file-MergeStep :
    (m : Merging) (file : Bytes) (f : Inventory) (m' : Merging)
    → merge_file m file f ≡ inl m'
    → MergeStep m file f m'
unfolding merge_file merge_maps SameMaps
merge_file-MergeStep m file f m' e =
    let (m1, to_m1, e1) = and_then-inl (merge_defaults m file f.defaults) _ m' e in
    let (same, defaults) = merge_defaults-DefaultsStep m file f m1 to_m1 in
    let into = m1.inventory in
    let (cs, to_cs, e2) =
      and_then-inl (merge_into into.credentials f.credentials (codes "credential") file) _ m' e1 in
    let (bs, to_bs, e3) =
      and_then-inl (merge_into into.bastions f.bastions (codes "bastion") file) _ m' e2 in
    let (gs, to_gs, e4) =
      and_then-inl (merge_into into.groups f.groups (codes "group") file) _ m' e3 in
    along (λ x. MergeStep m file f x) _ m' _ refl e4
      (
        subst (λ d. IsUnion d f.credentials cs) same.0
            (merge_into-IsUnion _ f.credentials cs _ file to_cs),
        subst (λ d. IsUnion d f.bastions bs) same.1
            (merge_into-IsUnion _ f.bastions bs _ file to_bs),
        subst (λ d. IsUnion d f.groups gs) same.2 (merge_into-IsUnion _ f.groups gs _ file to_gs),
        ap (λ l. l ++ f.hosts) same.3,
        defaults,
      )
