-- ===== src/Credentials/Redactor/Registered.antt =====
-- Which secrets Add registers, and in what order it leaves them.
use remote_command_orchestra.Common.{
  among, ◌≤◌, not, ◌&&◌, ◌||◌, List, [], ◌∷◌, ◌++◌, Bytes, eq_bytes, eq_bytes_iff, length, ◌≡◌, ◌∙◌,
  ap, refl, arith, leb, Bool-cases, inl, inr,
}
use remote_command_orchestra.Credentials.Redactor.{
  min_secret_len, register, place_by_length, longest_first, add,
}

among-append : (xs ys : List Bytes) (t : Bytes) → among (xs ++ ys) t ≡ (among xs t || among ys t)
unfolding among
among-append [] ys t = refl
among-append (x ∷ xs) ys t = ground (arith, among-append xs ys t)

among-register :
    (secrets new : List Bytes) (t : Bytes)
    → among (register secrets new) t
      ≡ (among secrets t || (leb min_secret_len (length t) && among new t))
unfolding register among
among-register secrets [] t = ground arith
among-register secrets (s ∷ new) t =
    elim (Bool-cases (leb min_secret_len (length s) && not (among secrets s))) [
      | inl fresh ↦ rw fresh (
          ground (
            arith,
            among-register (secrets ++ s ∷ []) new t,
            among-append secrets (s ∷ []) t,
            eq_bytes_iff s t,
          ))
      | inr old ↦ rw old (ground (arith, among-register secrets new t, eq_bytes_iff s t))
    ]

among-place :
    (s : Bytes) (xs : List Bytes) (t : Bytes)
    → among (place_by_length s xs) t ≡ (eq_bytes s t || among xs t)
unfolding among place_by_length
among-place s [] t = refl
among-place s (x ∷ xs) t = ground (arith, among-place s xs t)

among-longest_first : (xs : List Bytes) (t : Bytes) → among (longest_first xs) t ≡ among xs t
unfolding longest_first among
among-longest_first [] t = refl
among-longest_first (x ∷ xs) t =
    among-place x (longest_first xs) t ∙ ap (λ b. eq_bytes x t || b) (among-longest_first xs t)

-- Every secret is at least as long as the next one.
abbrev pub LongestFirst : List Bytes → Type 0
LongestFirst [] = Unit
LongestFirst (x ∷ []) = Unit
LongestFirst (x ∷ y ∷ xs) = (length y ≤ length x) × LongestFirst (y ∷ xs)

place-LongestFirst :
    (s : Bytes) (xs : List Bytes) → LongestFirst xs → LongestFirst (place_by_length s xs)
unfolding place_by_length
place-LongestFirst s [] h = tt
place-LongestFirst s (x ∷ []) h = ground arith
place-LongestFirst s (x ∷ y ∷ xs) h = ground (arith, place-LongestFirst s (y ∷ xs) h.1)

longest_first-LongestFirst : (xs : List Bytes) → LongestFirst (longest_first xs)
unfolding longest_first
longest_first-LongestFirst [] = tt
longest_first-LongestFirst (x ∷ xs) =
    place-LongestFirst x (longest_first xs) (longest_first-LongestFirst xs)

-- After Add the redactor holds exactly the secrets that it held and the new ones of three bytes or
-- more, and no secret stands in front of a longer one.
pub among-add :
    (secrets new : List Bytes)
    → ((t : Bytes)
        → among (add secrets new) t
          ≡ (among secrets t || (leb min_secret_len (length t) && among new t)))
      × LongestFirst (add secrets new)
unfolding add
among-add secrets new = (
  λ t. among-longest_first (register secrets new) t ∙ among-register secrets new t,
  longest_first-LongestFirst (register secrets new),
)
