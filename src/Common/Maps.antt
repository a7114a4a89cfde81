-- ===== src/Common/Maps.antt =====
-- Go maps with string keys as association lists. The order of the list is the order in which a
-- range over the map visits it, so a statement over every list covers every order.
use mathlib.Core.Path.{◌≡◌, refl, subst, ◌∙◌}
use mathlib.Core.Logic.{inl, inr}
use mathlib.Core.Option.{Option, none, some}
use mathlib.Core.List.{List, [], ◌∷◌}
use native.Mathlib.Omega.{arith}
use remote_command_orchestra.Common.Tests.{if◌then◌else◌, Bool-cases}
use remote_command_orchestra.Common.Text.Search.{Bytes, eq_bytes, eq_bytes→eq, eq_bytes_iff}

abbrev pub Dict {ℓ} : Type ℓ → Type ℓ
Dict V = List (Bytes × V)

module _ {ℓ} {V : Type ℓ} where
  unfoldable pub lookup : Bytes → Dict V → Option V
  lookup k [] = none
  lookup k ((j, v) ∷ m) = if eq_bytes j k then some v else lookup k m

  unfoldable pub insert : Bytes → V → Dict V → Dict V
  insert k v [] = (k, v) ∷ []
  insert k v ((j, w) ∷ m) = if eq_bytes j k then (k, v) ∷ m else (j, w) ∷ insert k v m

  unfoldable pub delete : Bytes → Dict V → Dict V
  delete k [] = []
  delete k ((j, w) ∷ m) = let rest = delete k m in if eq_bytes j k then rest else (j, w) ∷ rest

  pub lookup-insert :
      (k j : Bytes) (v : V) (m : Dict V)
      → lookup j (insert k v m) ≡ (if eq_bytes k j then some v else lookup j m)
  unfolding lookup insert
  lookup-insert k j v [] = refl
  lookup-insert k j v ((i, w) ∷ m) =
      ground (arith, eq_bytes_iff k j, eq_bytes_iff i k, eq_bytes_iff i j, lookup-insert k j v m)

  pub lookup-delete :
      (k j : Bytes) (m : Dict V)
      → lookup j (delete k m) ≡ (if eq_bytes k j then none else lookup j m)
  unfolding lookup delete
  lookup-delete k j [] = ground arith
  lookup-delete k j ((i, w) ∷ m) =
      ground (arith, eq_bytes_iff k j, eq_bytes_iff i k, eq_bytes_iff i j, lookup-delete k j m)

  -- `for k, v := range src { dst[k] = v }`.
  unfoldable pub insert_all : Dict V → Dict V → Dict V
  insert_all [] dst = dst
  insert_all ((k, v) ∷ src) dst = insert_all src (insert k v dst)

  -- The keys of a Go map are different.
  abbrev pub DistinctKeys : Dict V → Type ℓ
  DistinctKeys [] = Unit
  DistinctKeys ((k, v) ∷ m) = (lookup k m ≡ none) × DistinctKeys m

  abbrev pub or_else : Option V → Option V → Option V
  or_else none o = o
  or_else (some v) o = some v

  pub or_else-none : (o : Option V) → or_else o none ≡ o
  or_else-none none = refl
  or_else-none (some v) = refl

  pub or_else_assoc : (a b c : Option V) → or_else (or_else a b) c ≡ or_else a (or_else b c)
  or_else_assoc none b c = refl
  or_else_assoc (some v) b c = refl

  -- What is inserted wins over what was there.
  pub lookup-insert_all :
      (k : Bytes) (src dst : Dict V)
      → DistinctKeys src
      → lookup k (insert_all src dst) ≡ or_else (lookup k src) (lookup k dst)
  unfolding lookup insert_all
  lookup-insert_all k [] dst h = refl
  lookup-insert_all k ((j, v) ∷ src) dst h = elim (Bool-cases (eq_bytes j k)) [
    | inl same ↦
        let e = eq_bytes→eq j k same in
        let gone : lookup k src ≡ none = subst (λ x. lookup x src ≡ none) e h.0 in
        lookup-insert_all k src (insert j v dst) h.1 ∙ rw (gone, lookup-insert j k v dst, same)
    | inr differ ↦
        lookup-insert_all k src (insert j v dst) h.1 ∙ rw (lookup-insert j k v dst, differ)
  ]
