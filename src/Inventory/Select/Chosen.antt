-- ===== src/Inventory/Select/Chosen.antt =====
-- What Select chooses: every host of the inventory that the selector wants, once, in order.
use remote_command_orchestra.Common.{
  true, false, List, [], ◌∷◌, ◌++◌, Bytes, among, before, lookup, none, along, ◌⊎◌, inl, inr, ◌≡◌,
  ◌≢◌, refl, sym, ap, subst, ◌∙◌, arith, nil-append, append_assoc, append-nil, All, Bool-cases,
  Option-cases,
}
use mathlib.Core.List.{Perm}
use mathlib.Core.List.Perm
use remote_command_orchestra.Domain.{Target}
use remote_command_orchestra.Inventory.{Host, Inventory, Selector}
use remote_command_orchestra.Inventory.Resolve.{resolve_host}
use remote_command_orchestra.Inventory.Select.Picked.{Picked, chosen-Picked}
use remote_command_orchestra.Inventory.Select.{
  is_host_name, Collected, Placed, add_resolved, add_host, add_all, placed_hosts, unknown_groups,
  unknown_hosts, chosen, place_by_name, sort_by_name, select_from, collected, select,
}

before_asym : (s t : Bytes) → before s t ≡ true → before t s ≡ false
unfolding before
before_asym [] [] h = refl
before_asym [] (d ∷ t) h = refl
before_asym (c ∷ s) [] h = ground arith
before_asym (c ∷ s) (d ∷ t) h = ground (arith, before_asym s t)

before_cotrans : (s t u : Bytes) → before s u ≡ true → before t u ≡ false → before s t ≡ true
unfolding before
before_cotrans [] [] [] h k = ground arith
before_cotrans [] [] (x ∷ u) h k = ground arith
before_cotrans [] (d ∷ t) u h k = refl
before_cotrans (c ∷ s) t [] h k = ground arith
before_cotrans (c ∷ s) [] (x ∷ u) h k = ground arith
before_cotrans (c ∷ s) (d ∷ t) (x ∷ u) h k = ground (arith, before_cotrans s t u)

-- No target stands behind one whose name comes later.
abbrev pub IsSortedByName : List Target → Type 0
IsSortedByName [] = Unit
IsSortedByName (t ∷ ts) = All (λ u. before u.name t.name ≡ false) ts × IsSortedByName ts

All-place_by_name :
    (P : Target → Type 0) (t : Target) (ts : List Target)
    → P t
    → All P ts
    → All P (place_by_name t ts)
unfolding place_by_name
All-place_by_name P t [] h hs = (h, tt)
All-place_by_name P t (u ∷ ts) h hs = elim (Bool-cases (before u.name t.name)) [
  | inl first ↦ rw (first) (hs.0, All-place_by_name P t ts h hs.1)
  | inr last ↦ rw (last) (h, hs)
]

later_still :
    (u t : Target) (ts : List Target)
    → before u.name t.name ≡ false
    → All (λ x. before x.name u.name ≡ false) ts
    → All (λ x. before x.name t.name ≡ false) ts
later_still u t [] h hs = tt
later_still u t (x ∷ ts) h hs =
    (ground (arith, before_cotrans x.name u.name t.name), later_still u t ts h hs.1)

place_by_name-IsSortedByName :
    (t : Target) (ts : List Target) → IsSortedByName ts → IsSortedByName (place_by_name t ts)
unfolding place_by_name
place_by_name-IsSortedByName t [] h = (tt, tt)
place_by_name-IsSortedByName t (u ∷ ts) h = elim (Bool-cases (before u.name t.name)) [
  | inl first ↦ rw (first) (
    All-place_by_name (λ x. before x.name u.name ≡ false) t ts (before_asym u.name t.name first)
        h.0,
    place_by_name-IsSortedByName t ts h.1,
  )
  | inr last ↦ rw (last) ((last, later_still u t ts last h.0), h)
]

place_by_name-Perm : (t : Target) (ts : List Target) → Perm (place_by_name t ts) (t ∷ ts)
unfolding place_by_name
place_by_name-Perm t [] = Perm.refl (t ∷ [])
place_by_name-Perm t (u ∷ ts) = elim (Bool-cases (before u.name t.name)) [
  | inl first ↦ rw (first) (Perm.trans (Perm.cons u (place_by_name-Perm t ts)) (Perm.swap t u ts))
  | inr last ↦ rw (last) (Perm.refl (t ∷ u ∷ ts))
]

sort_by_name-IsSortedByName : (ts : List Target) → IsSortedByName (sort_by_name ts)
unfolding sort_by_name
sort_by_name-IsSortedByName [] = tt
sort_by_name-IsSortedByName (t ∷ ts) =
    place_by_name-IsSortedByName t (sort_by_name ts) (sort_by_name-IsSortedByName ts)

sort_by_name-Perm : (ts : List Target) → Perm (sort_by_name ts) ts
unfolding sort_by_name
sort_by_name-Perm [] = Perm.refl []
sort_by_name-Perm (t ∷ ts) =
    Perm.trans (place_by_name-Perm t (sort_by_name ts)) (Perm.cons t (sort_by_name-Perm ts))

-- Every placed host has a proper name and resolves, to the target at its place.
abbrev pub AllResolve : Inventory → List Placed → List Target → Type 0
AllResolve inv [] [] = Unit
AllResolve inv (p ∷ ps) (t ∷ ts) =
    (is_host_name p.host.name ≡ true)
    × (resolve_host inv p.group p.defaults p.host ≡ inl t)
    × AllResolve inv ps ts
AllResolve inv _ _ = ⊥

-- No placed host has a name of `seen` or of one before it.
abbrev pub Unseen : List Bytes → List Placed → Type 0
Unseen seen [] = Unit
Unseen seen (p ∷ ps) = (among seen p.host.name ≡ false) × Unseen (p.host.name ∷ seen) ps

-- What adding a host without an error does.
Added : Inventory → Placed → Collected → Collected → Type 0
Added inv p acc acc' =
    (acc.errs ≡ [])
    × (is_host_name p.host.name ≡ true)
    × (among acc.seen p.host.name ≡ false)
    × ((t : Target) × (resolve_host inv p.group p.defaults p.host ≡ inl t)
        × (acc'.all ≡ acc.all ++ t ∷ [])
        × (acc'.seen ≡ p.host.name ∷ acc.seen))

add_resolved-errs :
    (h : Host) (r : Target ⊎ Bytes) (acc : Collected)
    → (add_resolved h r acc).errs ≡ []
    → (acc.errs ≡ [])
      × ((t : Target) × (r ≡ inl t)
          × ((add_resolved h r acc).all ≡ acc.all ++ t ∷ [])
          × ((add_resolved h r acc).seen ≡ h.name ∷ acc.seen))
unfolding add_resolved
add_resolved-errs h (inl t) acc e = (e, (t, refl, refl, refl))
add_resolved-errs h (inr err) acc e =
    absurd (let e' = (nil-append acc.errs _ e).1 in ground (arith, e'))

add_host-Added :
    (inv : Inventory) (p : Placed) (acc : Collected)
    → (add_host inv p acc).errs ≡ []
    → Added inv p acc (add_host inv p acc)
unfolding add_host Added
add_host-Added inv p acc e = elim (Bool-cases (is_host_name p.host.name)) [
  | inr bad ↦ absurd (let e' = (nil-append acc.errs _ (rw (bad) at e)).1 in ground (arith, e'))
  | inl good ↦ elim (Bool-cases (among acc.seen p.host.name)) [
    | inl twice ↦
        absurd (let e' = (nil-append acc.errs _ (rw (good, twice) at e)).1 in ground (arith, e'))
    | inr once ↦
        let (none_before, (t, to_t, all, seen)) =
          add_resolved-errs p.host (resolve_host inv p.group p.defaults p.host) acc
            (rw (good, once) at e) in
        (none_before, good, once, (t, to_t, rw (good, once) all, rw (good, once) seen))
  ]
]

abbrev Gathered : Inventory → List Placed → Collected → Collected → List Target → Type 0
Gathered inv ps acc acc' ts =
    (acc.errs ≡ []) × AllResolve inv ps ts × Unseen acc.seen ps × (acc'.all ≡ acc.all ++ ts)

add_all-Gathered :
    (inv : Inventory) (ps : List Placed) (acc : Collected)
    → (add_all inv ps acc).errs ≡ []
    → (ts : List Target) × Gathered inv ps acc (add_all inv ps acc) ts
unfolding add_all Added
add_all-Gathered inv [] acc e = ([], (e, tt, tt, sym (append-nil acc.all)))
add_all-Gathered inv (p ∷ ps) acc e =
    let acc' = add_host inv p acc in
    let (ts, (none_yet, resolved, unseen, all)) = add_all-Gathered inv ps acc' e in
    let (none_before, good, once, (t, to_t, all', seen')) = add_host-Added inv p acc none_yet in
    (
      t ∷ ts,
      (
        none_before,
        (good, to_t, resolved),
        (once, subst (λ s. Unseen s ps) seen' unseen),
        all ∙ ap (λ l. l ++ ts) all' ∙ append_assoc acc.all (t ∷ []) ts,
      ),
    )

unknown_groups-nil :
    (inv : Inventory) (gs : List Bytes)
    → unknown_groups inv gs ≡ []
    → All (λ g. lookup g inv.groups ≢ none) gs
unfolding unknown_groups
unknown_groups-nil inv [] e = tt
unknown_groups-nil inv (g ∷ gs) e = elim (Option-cases (lookup g inv.groups)) [
  | inl h ↦ absurd (let e' = rw (h, unknown_groups) at e in ground (arith, e'))
  | inr (grp, h) ↦
      ((λ n. ground (arith, h, n)), unknown_groups-nil inv gs (rw (h, unknown_groups) at e))
]

select_from-inl :
    (sel : Selector) (errs : List Bytes) (all out : List Target)
    → select_from sel errs all ≡ inl out
    → (errs ≡ []) × (out ≡ sort_by_name (chosen sel all))
unfolding select_from
select_from-inl sel [] all out e =
    (refl, along (λ l. l ≡ sort_by_name (chosen sel all)) _ out _ refl e refl)
select_from-inl sel (err ∷ errs) all out e = absurd (ground (arith, e))

pub select-chosen :
    (inv : Inventory) (sel : Selector) (out : List Target)
    → select inv sel ≡ inl out
    → (ts : List Target) × AllResolve inv (placed_hosts inv) ts
      × Unseen [] (placed_hosts inv)
      × All (λ g. lookup g inv.groups ≢ none) sel.groups
      × ((picked : List Target) × Picked sel ts picked × Perm out picked)
      × IsSortedByName out
unfolding select
select-chosen inv sel out e =
    let acc = collected inv in
    let errs = acc.errs ++ (unknown_groups inv sel.groups ++ unknown_hosts acc.seen sel.hosts) in
    let (clean, is_out) = select_from-inl sel errs acc.all out e in
    let (no_errs, rest) = nil-append acc.errs _ clean in
    let (ts, (none_yet, resolved, unseen, all)) =
      add_all-Gathered inv (placed_hosts inv) (record { errs = []; seen = []; all = [] }) no_errs in
    let from : out ≡ sort_by_name (chosen sel ts) =
      is_out ∙ ap (λ l. sort_by_name (chosen sel l)) all in
    (
      ts,
      resolved,
      unseen,
      unknown_groups-nil inv sel.groups (nil-append (unknown_groups inv sel.groups) _ rest).0,
      (
        chosen sel ts,
        chosen-Picked sel ts,
        subst (λ l. Perm l (chosen sel ts)) (sym from) (sort_by_name-Perm (chosen sel ts)),
      ),
      subst IsSortedByName (sym from) (sort_by_name-IsSortedByName (chosen sel ts)),
    )
