-- ===== src/Job/Template.antt =====
-- internal/job/variables.go: the template form {{ .name }}. The two regular expressions of the
-- source, refPattern and openPattern, are written out as matchers at a position of the text.
pub mod Fill
use remote_command_orchestra.Common.{
  ℕ, zero, suc, ◌+◌, ◌-◌, ◌==◌, leb, Bool, true, false, ◌&&◌, ◌||◌, List, join_with, [], ◌∷◌, ◌++◌,
  drop, length, Bytes, codes, is_prefix, eq_bytes, Dict, lookup, Option, none, some, ◌⊎◌, inl, inr,
  ◌≡◌, refl, if◌then◌else◌, arith, Bool-cases, All, Option-cases, ◌≢◌,
}

-- `\s`.
abbrev is_blank : ℕ → Bool
is_blank c = c == 32 || (c == 9 || (c == 10 || (c == 12 || c == 13)))

between : ℕ → ℕ → ℕ → Bool
between a b c = leb a c && leb c b

is_letter : ℕ → Bool
unfolding between
is_letter c = between b'A' b'Z' c || (between b'a' b'z' c || c == b'_')

is_word : ℕ → Bool
unfolding between is_letter
is_word c = is_letter c || between b'0' b'9' c

skip_blank : Bytes → Bytes
skip_blank [] = []
skip_blank (c ∷ s) = let rest = skip_blank s in if is_blank c then rest else c ∷ s

span_word : Bytes → Bytes × Bytes
span_word [] = ([], [])
span_word (c ∷ s) =
    let (word, rest) = span_word s in if is_word c then (c ∷ word, rest) else ([], c ∷ s)

close_ref : Bytes → Bytes → Option (Bytes × Bytes)
close_ref name rest = if is_prefix (codes "}}") rest then some (name, drop 2 rest) else none

name_ref : Bytes → Option (Bytes × Bytes)
name_ref [] = none
name_ref (c ∷ s) =
    if is_letter c
    then (let (name, rest) = span_word (c ∷ s) in close_ref name (skip_blank rest))
    else none

dot_ref : Bytes → Option (Bytes × Bytes)
dot_ref [] = none
dot_ref (c ∷ s) = if c == b'.' then name_ref s else none

-- refPattern at the head of a text: the name, and the text behind the match.
match_ref : Bytes → Option (Bytes × Bytes)
match_ref s = if is_prefix (codes "{{") s then dot_ref (skip_blank (drop 2 s)) else none

-- A text cut into its references, each with its position, and the bytes between them.
pub data Piece : Type 0 where
  plain : ℕ → Piece
  ref : ℕ → Bytes → Piece

-- The fuel is the length of the text; every round takes at least a byte.
pieces_from : ℕ → ℕ → Bytes → List Piece
pieces_from zero at s = []
pieces_from (suc k) at [] = []
pieces_from (suc k) at (c ∷ s) = elim (match_ref (c ∷ s)) [
  | none ↦ plain c ∷ pieces_from k (suc at) s
  | some (name, rest) ↦ ref at name ∷ pieces_from k (at + (suc (length s) - length rest)) rest
]

pieces : Bytes → List Piece
pieces s = pieces_from (length s) 0 s

ref_positions : List Piece → List ℕ
ref_positions [] = []
ref_positions (plain c ∷ ps) = ref_positions ps
ref_positions (ref at name ∷ ps) = at ∷ ref_positions ps

ref_names : List Piece → List Bytes
ref_names [] = []
ref_names (plain c ∷ ps) = ref_names ps
ref_names (ref at name ∷ ps) = name ∷ ref_names ps

-- The matches of openPattern, `{{`.
opens_from : ℕ → ℕ → Bytes → List ℕ
opens_from zero at s = []
opens_from (suc k) at [] = []
opens_from (suc k) at (c ∷ s) =
    let taken = opens_from k (at + 2) (drop 1 s) in
    let passed = opens_from k (suc at) s in
    if is_prefix (codes "{{") (c ∷ s) then at ∷ taken else passed

same_positions : List ℕ → List ℕ → Bool
same_positions [] [] = true
same_positions (i ∷ is) (j ∷ js) = i == j && same_positions is js
same_positions _ _ = false

syntax_error : Bytes
syntax_error = codes "template syntax: only {{ .variable }} is supported"

-- References: the names, or an error.
unfoldable pub references : Bytes → List Bytes ⊎ Bytes
unfolding same_positions ref_positions pieces opens_from ref_names syntax_error pieces_from
    match_ref dot_ref name_ref close_ref span_word skip_blank is_letter is_word between
references s =
    if same_positions (ref_positions (pieces s)) (opens_from (length s) 0 s)
    then inl (ref_names (pieces s))
    else inr syntax_error

missing_names : Dict Bytes → List Piece → List Bytes
missing_names vars [] = []
missing_names vars (plain c ∷ ps) = missing_names vars ps
missing_names vars (ref at name ∷ ps) = elim (lookup name vars) [
  | none ↦ name ∷ missing_names vars ps
  | some v ↦ missing_names vars ps
]

-- A missing variable is replaced by the empty string.
abbrev put_in : Option Bytes → Bytes → Bytes
put_in none rest = rest
put_in (some v) rest = v ++ rest

fill_in : Dict Bytes → List Piece → Bytes
fill_in vars [] = []
fill_in vars (plain c ∷ ps) = c ∷ fill_in vars ps
fill_in vars (ref at name ∷ ps) = put_in (lookup name vars) (fill_in vars ps)

fill_or_fail : Dict Bytes → List Piece → List Bytes → Bytes ⊎ Bytes
fill_or_fail vars ps [] = inl (fill_in vars ps)
fill_or_fail vars ps (n ∷ ns) =
    inr (codes "missing variable(s): " ++ join_with (codes ", ") (n ∷ ns))

-- Render: the text, or an error.
unfoldable pub render : Bytes → Dict Bytes → Bytes ⊎ Bytes
unfolding fill_or_fail missing_names fill_in pieces pieces_from match_ref dot_ref name_ref close_ref
    span_word skip_blank is_letter is_word between
render s vars = elim (references s) [
  | inr err ↦ inr err
  | inl names ↦ fill_or_fail vars (pieces s) (missing_names vars (pieces s))
]
