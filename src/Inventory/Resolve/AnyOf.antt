-- ===== src/Inventory/Resolve/AnyOf.antt =====
-- What anyOf tells of two lists.
use remote_command_orchestra.Common.{
  true, List, [], ◌∷◌, Bytes, among, eq_bytes, eq_bytes_refl, eq_bytes→eq, ◌⊎◌, inl, inr, ◌≡◌, ◌↔◌,
  refl, sym, ap, subst, arith, Bool-cases,
}
use remote_command_orchestra.Inventory.Resolve.{some_among, any_of}

some_among-shared :
    (want have : List Bytes)
    → some_among want have ≡ true
    → (x : Bytes) × (among want x ≡ true) × (among have x ≡ true)
unfolding some_among among
some_among-shared [] have e = absurd (ground (arith, e))
some_among-shared (w ∷ want) have e = elim (Bool-cases (among have w)) [
  | inl there ↦ (w, ground (arith, eq_bytes_refl w), there)
  | inr missing ↦
      let (x, wanted, held) = some_among-shared want have (rw (missing) at e) in
      (x, ground (arith, wanted), held)
]

shared-some_among :
    (want have : List Bytes) (x : Bytes)
    → among want x ≡ true
    → among have x ≡ true
    → some_among want have ≡ true
unfolding some_among among
shared-some_among [] have x w h = absurd (ground (arith, w))
shared-some_among (v ∷ want) have x w h = elim (Bool-cases (eq_bytes v x)) [
  | inl same ↦ ground (arith, ap (λ y. among have y) (eq_bytes→eq v x same), h)
  | inr differ ↦ ground (arith, shared-some_among want have x (rw (differ) at w) h)
]

-- Something wanted is there, or nothing is wanted.
pub any_of_iff :
    (want have : List Bytes)
    → (any_of want have ≡ true)
      ↔ ((want ≡ []) ⊎ ((x : Bytes) × (among want x ≡ true) × (among have x ≡ true)))
unfolding any_of
any_of_iff [] have = ((λ e. inl refl), λ h. refl)
any_of_iff (w ∷ want) have = (
  (λ e. inr (some_among-shared (w ∷ want) have e)),
  λ h. elim h [
    | inl empty ↦ absurd (ground (arith, empty))
    | inr (x, wanted, held) ↦ shared-some_among (w ∷ want) have x wanted held
  ],
)

pub any_of_one :
    (want : List Bytes) (y : Bytes)
    → (any_of want (y ∷ []) ≡ true) ↔ ((want ≡ []) ⊎ (among want y ≡ true))
unfolding among
any_of_one want y = (
  (λ e. elim ((any_of_iff want (y ∷ [])).0 e) [
    | inl empty ↦ inl empty
    | inr (x, wanted, held) ↦
        inr (subst (λ z. among want z ≡ true) (sym (eq_bytes→eq y x (ground (arith, held)))) wanted)
  ]),
  λ h. (any_of_iff want (y ∷ [])).1 (elim h [
    | inl empty ↦ inl empty
    | inr wanted ↦ inr (y, wanted, ground (arith, eq_bytes_refl y))
  ]),
)
