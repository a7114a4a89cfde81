-- ===== src/Common/Text/Shape.antt =====
-- Texts by their shape: the regular expressions of names, as a first byte, further bytes and their
-- greatest number.
use Prim.Native.Nat.{ℕ}
use mathlib.Core.Path.{◌≡◌, refl}
use mathlib.Core.Bool.{Bool, true, false, ◌&&◌, ◌||◌}
use mathlib.Core.List.{[], ◌∷◌}
use remote_command_orchestra.Common.Tests.{leb, ◌==◌}
use remote_command_orchestra.Common.Lists.{length}
use remote_command_orchestra.Common.Text.Search.{Bytes, codes}

abbrev pub within_codes : ℕ → ℕ → ℕ → Bool
within_codes a b c = leb a c && leb c b

abbrev pub is_digit : ℕ → Bool
is_digit c = within_codes b'0' b'9' c

abbrev pub is_alpha : ℕ → Bool
is_alpha c = within_codes b'A' b'Z' c || within_codes b'a' b'z' c

abbrev pub is_alnum : ℕ → Bool
is_alnum c = is_alpha c || is_digit c

-- `[…]*` over a whole text.
unfoldable pub all_bytes : (ℕ → Bool) → Bytes → Bool
all_bytes p [] = true
all_bytes p (c ∷ s) = p c && all_bytes p s

-- `^[first][rest]{0,most}$`.
unfoldable pub is_shaped : (ℕ → Bool) → (ℕ → Bool) → ℕ → Bytes → Bool
unfolding all_bytes
is_shaped first rest most [] = false
is_shaped first rest most (c ∷ s) = first c && (all_bytes rest s && leb (length s) most)

unfoldable pub ends_in : ℕ → Bytes → Bool
ends_in b [] = false
ends_in b (c ∷ []) = c == b
ends_in b (c ∷ (d ∷ s)) = ends_in b (d ∷ s)

-- strings.TrimSuffix for a single byte.
unfoldable pub trim_last : ℕ → Bytes → Bytes
trim_last b [] = []
trim_last b (c ∷ []) = elim (c == b) [ true ↦ [] | false ↦ c ∷ [] ]
trim_last b (c ∷ (d ∷ s)) = c ∷ trim_last b (d ∷ s)

trim_last_test : trim_last b'%' (codes "5%") ≡ codes "5"
unfolding trim_last
trim_last_test = refl
