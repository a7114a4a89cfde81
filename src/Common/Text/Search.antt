-- ===== src/Common/Text/Search.antt =====
-- Equality, prefixes and containment of byte strings (bytes.Contains, strings.HasPrefix).
use Prim.Native.Nat.{ℕ, ◌+◌, ◌≤◌}
use Prim.Native.Char.{code}
use Prim.Native.String.{String}
use mathlib.Core.Path.{◌≡◌, refl, sym, ap}
use mathlib.Core.Logic.{◌↔◌, ◌≢◌, inl, inr}
use mathlib.Core.Bool.{Bool, true, false, ◌&&◌, ◌||◌}
use mathlib.Core.List.{List, [], ◌∷◌, ◌++◌, append_assoc}
use native.Mathlib.Omega.{arith}
use remote_command_orchestra.Common.Tests.{◌==◌, Bool-cases, ||_assoc}
use remote_command_orchestra.Common.Lists.{length, length-append}

abbrev pub Bytes : Type 0
Bytes = List ℕ

-- The code points of a literal: its bytes, if it is ASCII.
abbrev pub codes : String → Bytes
codes String.[] = []
codes (String.◌∷◌ c s) = code c ∷ codes s

-- Go's `==` on strings.
unfoldable pub eq_bytes : Bytes → Bytes → Bool
eq_bytes [] [] = true
eq_bytes (x ∷ xs) (y ∷ ys) = x == y && eq_bytes xs ys
eq_bytes _ _ = false

pub eq_bytes_refl : (s : Bytes) → eq_bytes s s ≡ true
unfolding eq_bytes
eq_bytes_refl [] = refl
eq_bytes_refl (x ∷ s) = ground (arith, eq_bytes_refl s)

pub eq_bytes→eq : (s t : Bytes) → eq_bytes s t ≡ true → s ≡ t
unfolding eq_bytes
eq_bytes→eq [] [] h = refl
eq_bytes→eq [] (y ∷ t) h = cc
eq_bytes→eq (x ∷ s) [] h = cc
eq_bytes→eq (x ∷ s) (y ∷ t) h = ground (arith, eq_bytes→eq s t)

pub eq_bytes_iff : (s t : Bytes) → (eq_bytes s t ≡ true) ↔ (s ≡ t)
eq_bytes_iff s t = (eq_bytes→eq s t, λ e. rw e (eq_bytes_refl t))

unfoldable pub is_prefix : Bytes → Bytes → Bool
is_prefix [] s = true
is_prefix (p ∷ ps) [] = false
is_prefix (p ∷ ps) (c ∷ s) = p == c && is_prefix ps s

-- bytes.Contains(s, p).
unfoldable pub contains : Bytes → Bytes → Bool
unfolding is_prefix
contains [] p = is_prefix p []
contains (c ∷ s) p = is_prefix p (c ∷ s) || contains s p

-- What `contains` decides: `p` occurs as a contiguous part of `s`.
abbrev pub Occurs : Bytes → Bytes → Type 0
Occurs p s = (before after : Bytes) × (s ≡ before ++ (p ++ after))

is_prefix-append : (p s : Bytes) → is_prefix p (p ++ s) ≡ true
unfolding is_prefix
is_prefix-append [] s = refl
is_prefix-append (c ∷ p) s = ground (arith, is_prefix-append p s)

is_prefix_inv : (p s : Bytes) → is_prefix p s ≡ true → (after : Bytes) × (s ≡ p ++ after)
unfolding is_prefix
is_prefix_inv [] s h = (s, refl)
is_prefix_inv (c ∷ p) [] h = cc
is_prefix_inv (c ∷ p) (d ∷ s) h =
    let (after, e) = is_prefix_inv p s (ground arith) in (after, ground arith)

pub is_prefix-append_le :
    (p s w : Bytes) → length p ≤ length s → is_prefix p (s ++ w) ≡ is_prefix p s
unfolding is_prefix
is_prefix-append_le [] s w h = refl
is_prefix-append_le (c ∷ p) [] w h = elim h [ ]
is_prefix-append_le (c ∷ p) (d ∷ s) w h =
    ap (λ b. c == d && b) (is_prefix-append_le p s w (omega arith))

contains_inv : (s p : Bytes) → contains s p ≡ true → Occurs p s
unfolding contains
contains_inv [] p h = let (after, e) = is_prefix_inv p [] h in ([], after, e)
contains_inv (c ∷ s) p h = elim (Bool-cases (is_prefix p (c ∷ s))) [
  | inl here ↦ let (after, e) = is_prefix_inv p (c ∷ s) here in ([], after, e)
  | inr away ↦
      let (before, after, e) = contains_inv s p (ground arith) in
      (c ∷ before, after, ap (λ t. c ∷ t) e)
]

contains_here : (p after : Bytes) → contains (p ++ after) p ≡ true
unfolding contains is_prefix
contains_here [] [] = refl
contains_here [] (c ∷ after) = refl
contains_here (c ∷ p) after = ground (arith, is_prefix-append p after)

pub contains-append_left : (a s p : Bytes) → contains s p ≡ true → contains (a ++ s) p ≡ true
unfolding contains
contains-append_left [] s p h = h
contains-append_left (c ∷ a) s p h = ground (arith, contains-append_left a s p h)

-- The search finds exactly the occurrences.
pub contains_iff : (s p : Bytes) → (contains s p ≡ true) ↔ Occurs p s
contains_iff s p =
    (contains_inv s p, λ o. rw o.2 (contains-append_left o.0 (p ++ o.1) p (contains_here p o.1)))

pub contains-append_right : (s w p : Bytes) → contains s p ≡ true → contains (s ++ w) p ≡ true
contains-append_right s w p h =
    let (before, after, e) = contains_inv s p h in
    (contains_iff (s ++ w) p).1 (before, after ++ w, regroup before after e)
  where
    regroup :
        (before after : Bytes) → s ≡ before ++ (p ++ after) → s ++ w ≡ before ++ (p ++ (after ++ w))
    regroup before after e = rw e (simp append_assoc)

pub contains_absorb : (c w p : Bytes) → contains (c ++ w) p ≡ (contains c p || contains (c ++ w) p)
contains_absorb c w p = absorb (contains c p) (contains (c ++ w) p) (contains-append_right c w p)
  where
    absorb : (x y : Bool) → (x ≡ true → y ≡ true) → y ≡ (x || y)
    absorb true y f = f refl
    absorb false y f = refl

-- An occurrence in `a ++ c ++ w` ends in `a ++ c`, or begins late enough to lie in `c ++ w`, where
-- `c` is nearly as long as `p`.
pub contains_split :
    (a c w p : Bytes)
    → length p ≤ length c + 1
    → contains (a ++ (c ++ w)) p ≡ (contains (a ++ c) p || contains (c ++ w) p)
unfolding contains
contains_split [] c w p h = contains_absorb c w p
contains_split (x ∷ a) c w p h =
    rw
      (
        ← append_assoc a c w,
        is_prefix-append_le p (x ∷ a ++ c) w fits,
        append_assoc a c w,
        contains_split a c w p h,
      )
      (sym (||_assoc (is_prefix p (x ∷ a ++ c)) (contains (a ++ c) p) (contains (c ++ w) p)))
  where
    fits : length p ≤ length (x ∷ a ++ c)
    fits = omega (arith, length-append a c)

pub contains-nil : (p : Bytes) → p ≢ [] → contains [] p ≡ false
unfolding contains is_prefix
contains-nil [] h = absurd (h refl)
contains-nil (c ∷ p) h = refl
