-- ===== src/Inventory/Select/Picked.antt =====
-- Which targets the selector wants.
use remote_command_orchestra.Common.{
  true, List, [], ◌∷◌, Bytes, among, ◌⊎◌, inl, inr, ◌≡◌, ◌↔◌, arith, Bool-cases,
}
use remote_command_orchestra.Domain.{Target}
use remote_command_orchestra.Inventory.{Selector}
use remote_command_orchestra.Inventory.Resolve.AnyOf.{any_of_iff, any_of_one}
use remote_command_orchestra.Inventory.Select.{is_selected, chosen}

-- Each list of the selector is empty or has what the target has.
abbrev pub IsWanted : Selector → Target → Type 0
IsWanted sel t =
    ((sel.groups ≡ []) ⊎ (among sel.groups t.group ≡ true))
    × ((sel.tags ≡ []) ⊎ ((x : Bytes) × (among sel.tags x ≡ true) × (among t.tags x ≡ true)))
    × ((sel.hosts ≡ []) ⊎ (among sel.hosts t.name ≡ true))

-- The second list has the targets of the first that the selector wants, and no other.
pub data Picked (sel : Selector) : List Target → List Target → Type 0 where
  nothing : Picked sel [] []
  taken :
      {t : Target} {ts out : List Target}
      → IsWanted sel t
      → Picked sel ts out
      → Picked sel (t ∷ ts) (t ∷ out)
  passed_over :
      {t : Target} {ts out : List Target}
      → ¬ IsWanted sel t
      → Picked sel ts out
      → Picked sel (t ∷ ts) out

is_selected_iff : (sel : Selector) (t : Target) → (is_selected sel t ≡ true) ↔ IsWanted sel t
unfolding is_selected
is_selected_iff sel t =
    let by_group = any_of_one sel.groups t.group in
    let by_tag = any_of_iff sel.tags t.tags in
    let by_name = any_of_one sel.hosts t.name in
    (
      (λ e. (by_group.0 (ground arith), by_tag.0 (ground arith), by_name.0 (ground arith))),
      λ (g, k, n). ground (arith, by_group.1 g, by_tag.1 k, by_name.1 n),
    )

pub chosen-Picked : (sel : Selector) (ts : List Target) → Picked sel ts (chosen sel ts)
unfolding chosen
chosen-Picked sel [] = nothing
chosen-Picked sel (t ∷ ts) = elim (Bool-cases (is_selected sel t)) [
  | inl wanted ↦ rw (wanted) (taken ((is_selected_iff sel t).0 wanted) (chosen-Picked sel ts))
  | inr other ↦
      rw (other) (passed_over (λ w. cc (other, (is_selected_iff sel t).1 w)) (chosen-Picked sel ts))
]
