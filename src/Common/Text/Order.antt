-- ===== src/Common/Text/Order.antt =====
-- Texts in the order of sort.Strings, and sets of texts as lists.
use mathlib.Core.Path.{◌≡◌, refl}
use mathlib.Core.Bool.{Bool, true, false, ◌&&◌, ◌||◌}
use mathlib.Core.List.{List, [], ◌∷◌, ◌++◌}
use native.Mathlib.Omega.{arith}
use remote_command_orchestra.Common.Tests.{ltb, ◌==◌, if◌then◌else◌}
use remote_command_orchestra.Common.Text.Search.{Bytes, eq_bytes}

-- slices.Contains.
unfoldable pub among : List Bytes → Bytes → Bool
among [] s = false
among (x ∷ xs) s = eq_bytes x s || among xs s

-- Whether a text stands before another in sort.Strings.
unfoldable pub before : Bytes → Bytes → Bool
before [] [] = false
before [] (d ∷ t) = true
before (c ∷ s) [] = false
before (c ∷ s) (d ∷ t) = ltb c d || (c == d && before s t)

sort_in : Bytes → List Bytes → List Bytes
sort_in v [] = v ∷ []
sort_in v (u ∷ us) = let rest = sort_in v us in if before v u then v ∷ u ∷ us else u ∷ rest

unfoldable pub sort_texts : List Bytes → List Bytes
unfolding sort_in before
sort_texts [] = []
sort_texts (v ∷ vs) = sort_in v (sort_texts vs)

pub nil-append {ℓ} : {A : Type ℓ} (xs ys : List A) → xs ++ ys ≡ [] → (xs ≡ []) × (ys ≡ [])
nil-append [] ys e = (refl, e)
nil-append (x ∷ xs) ys e = ground arith

pub among-snoc :
    (xs : List Bytes) (v t : Bytes) → among (xs ++ v ∷ []) t ≡ (among xs t || eq_bytes v t)
unfolding among
among-snoc [] v t = ground arith
among-snoc (x ∷ xs) v t = ground (arith, among-snoc xs v t)
