-- ===== src/Credentials/Redactor.antt =====
-- The Redactor of internal/credentials/credentials.go. Its mutex makes each call atomic, so a
-- redactor is its list of secrets and a call is a function.
pub mod Registered
pub mod Removed
use remote_command_orchestra.Common.{
  among, ℕ, ◌+◌, ◌≤◌, zero, Bool, true, false, not, ◌&&◌, ◌||◌, List, [], ◌∷◌, ◌++◌, Bytes, codes,
  eq_bytes, eq_bytes_iff, contains, length, replace_all, replace_from, Apart, contains-replace_from,
  replace_from_removes, ◌≡◌, ◌⊎◌, inl, inr, refl, sym, arith, leb, ltb, if◌then◌else◌, Bool-cases,
}

abbrev pub min_secret_len : ℕ
min_secret_len = 3

abbrev pub mask : Bytes
mask = codes "[REDACTED]"

-- The loop of Add.
register : List Bytes → List Bytes → List Bytes
register secrets [] = secrets
register secrets (s ∷ rest) =
    register
      (if leb min_secret_len (length s) && not (among secrets s)
        then secrets ++ s ∷ []
        else secrets)
      rest

place_by_length : Bytes → List Bytes → List Bytes
place_by_length s [] = s ∷ []
place_by_length s (x ∷ xs) =
    if ltb (length x) (length s) then s ∷ x ∷ xs else x ∷ place_by_length s xs

-- sort.Slice, longest first. It leaves the order of equally long secrets open; this is
-- one of the orders.
longest_first : List Bytes → List Bytes
longest_first [] = []
longest_first (s ∷ secrets) = place_by_length s (longest_first secrets)

unfoldable pub add : List Bytes → List Bytes → List Bytes
unfolding register among longest_first place_by_length eq_bytes
add secrets new = longest_first (register secrets new)

unfoldable pub redact : List Bytes → Bytes → Bytes
redact [] s = s
redact (sec ∷ secrets) s = redact secrets (replace_all s sec mask)
