-- ===== src/Common/Text/Replace.antt =====
-- strings.ReplaceAll, and what can occur in its result.
use Prim.Native.Nat.{ℕ, zero, suc, ◌-◌}
use mathlib.Core.Path.{◌≡◌, refl}
use mathlib.Core.Logic.{◌≢◌, ◌⊎◌, inl, inr}
use mathlib.Core.Bool.{true, false}
use mathlib.Core.List.{[], ◌∷◌, ◌++◌, append_assoc}
use native.Mathlib.Omega.{arith}
use remote_command_orchestra.Common.Tests.{Bool-cases}
use remote_command_orchestra.Common.Lists.{length}
use remote_command_orchestra.Common.Text.Search.{Bytes, is_prefix, contains, contains-nil}

-- The loop of strings.ReplaceAll for a text `old` that is not empty: `skip` bytes of a match
-- remain.
unfoldable pub replace_from : Bytes → Bytes → ℕ → Bytes → Bytes
replace_from old new skip [] = []
replace_from old new (suc skip) (c ∷ s) = replace_from old new skip s
replace_from old new zero (c ∷ s) = elim (is_prefix old (c ∷ s)) [
  | true ↦ new ++ replace_from old new (length old - 1) s
  | false ↦ c ∷ replace_from old new zero s
]

unfoldable pub replace_all : Bytes → Bytes → Bytes → Bytes
unfolding replace_from is_prefix
replace_all s old new = replace_from old new zero s

-- A byte does not occur in a text.
abbrev pub Lacks : ℕ → Bytes → Type 0
Lacks b [] = Unit
Lacks b (c ∷ s) = (c ≢ b) × Lacks b s

is_prefix-sep :
    (b : ℕ) (p a x : Bytes) → Lacks b p → is_prefix p (a ++ b ∷ x) ≡ true → is_prefix p a ≡ true
unfolding is_prefix
is_prefix-sep b [] a x l h = refl
is_prefix-sep b (c ∷ p) [] x (ne, l) h = ground arith
is_prefix-sep b (c ∷ p) (d ∷ a) x (ne, l) h = ground (arith, is_prefix-sep b p a x l)

-- A text that lacks a byte occurs on one side of that byte or on the other.
pub contains-sep :
    (b : ℕ) (p a x : Bytes)
    → p ≢ []
    → Lacks b p
    → contains (a ++ b ∷ x) p ≡ true
    → (contains a p ≡ true) ⊎ (contains x p ≡ true)
unfolding contains is_prefix
contains-sep b [] a x ne l h = absurd (ne refl)
contains-sep b (d ∷ p) [] x ne l h = ground arith
contains-sep b (d ∷ p) (c ∷ a) x ne l h =
    ground (arith, is_prefix-sep b (d ∷ p) (c ∷ a) x l, contains-sep b (d ∷ p) a x ne l)

-- The replacement begins with a byte that `p` lacks, so a match of `p` at the head of the result
-- is a match at the head of the text.
is_prefix-replace_from :
    (b : ℕ) (new old p s : Bytes)
    → Lacks b p
    → is_prefix p (replace_from old (b ∷ new) 0 s) ≡ true
    → is_prefix p s ≡ true
unfolding is_prefix replace_from
is_prefix-replace_from b new old [] s l h = refl
is_prefix-replace_from b new old (c ∷ p) [] l h = h
is_prefix-replace_from b new old (c ∷ p) (d ∷ s) (ne, l) h =
    ground (arith, is_prefix-replace_from b new old p s l)

-- A mask in brackets.
abbrev pub bracketed : ℕ → Bytes → ℕ → Bytes
bracketed b mid e = b ∷ (mid ++ e ∷ [])

-- `p` cannot overlap a bracketed mask.
pub record Apart (b : ℕ) (mid : Bytes) (e : ℕ) (p : Bytes) : Type 0 where
  pub some_bytes : p ≢ []
  pub lacks_begin : Lacks b p
  pub lacks_end : Lacks e p
  pub not_inside : contains mid p ≡ false

contains_behind :
    (b e : ℕ) (mid p x : Bytes)
    → Apart b mid e p
    → contains (bracketed b mid e ++ x) p ≡ true
    → contains x p ≡ true
contains_behind b e mid p x a h =
    elim (contains-sep b p [] (mid ++ e ∷ x) a.some_bytes a.lacks_begin
      (rw (append_assoc mid (e ∷ []) x) at h)) [
        | inl early ↦ absurd (ground (arith, contains-nil p a.some_bytes))
        | inr later ↦ elim (contains-sep e p mid x a.some_bytes a.lacks_end later) [
          | inl inside ↦ absurd (ground (arith, a.not_inside))
          | inr behind ↦ behind
        ]
      ]

-- Replacing another text by such a mask makes no new occurrence of `p`.
pub contains-replace_from :
    (b e : ℕ) (mid old p : Bytes) (skip : ℕ) (s : Bytes)
    → Apart b mid e p
    → contains (replace_from old (bracketed b mid e) skip s) p ≡ true
    → contains s p ≡ true
unfolding contains replace_from
contains-replace_from b e mid old p skip [] a h = h
contains-replace_from b e mid old p (suc skip) (c ∷ s) a h =
    ground (arith, contains-replace_from b e mid old p skip s a)
contains-replace_from b e mid old p zero (c ∷ s) a h = elim (Bool-cases (is_prefix old (c ∷ s))) [
  | inl match ↦ ground (
    arith,
    contains_behind b e mid p (replace_from old (bracketed b mid e) (length old - 1) s) a,
    contains-replace_from b e mid old p (length old - 1) s a,
  )
  | inr differs ↦ ground (
    arith,
    contains-replace_from b e mid old p zero s a,
    is_prefix-replace_from b (mid ++ e ∷ []) old p (c ∷ s) a.lacks_begin,
  )
]

-- Replacing a text by such a mask leaves no occurrence of it.
pub replace_from_removes :
    (b e : ℕ) (mid old : Bytes) (skip : ℕ) (s : Bytes)
    → Apart b mid e old
    → contains (replace_from old (bracketed b mid e) skip s) old ≡ false
unfolding contains replace_from
replace_from_removes b e mid old skip [] a = contains-nil old a.some_bytes
replace_from_removes b e mid old (suc skip) (c ∷ s) a = replace_from_removes b e mid old skip s a
replace_from_removes b e mid old zero (c ∷ s) a = elim (Bool-cases (is_prefix old (c ∷ s))) [
  | inl match ↦ ground (
    arith,
    contains_behind b e mid old (replace_from old (bracketed b mid e) (length old - 1) s) a,
    replace_from_removes b e mid old (length old - 1) s a,
  )
  | inr differs ↦ ground (
    arith,
    replace_from_removes b e mid old zero s a,
    is_prefix-replace_from b (mid ++ e ∷ []) old old (c ∷ s) a.lacks_begin,
  )
]
