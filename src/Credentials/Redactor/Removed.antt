-- ===== src/Credentials/Redactor/Removed.antt =====
-- What String leaves of the registered secrets.
use remote_command_orchestra.Common.{
  among, true, false, List, [], ◌∷◌, Bytes, codes, contains, contains_iff, Occurs, replace_all,
  eq_bytes→eq, Apart, contains-replace_from, replace_from_removes, ◌≡◌, inl, inr, arith, Bool-cases,
  eq_bytes, ◌⊎◌, ◌≤◌, length, le→leb,
}
use remote_command_orchestra.Credentials.Redactor.{mask, redact, add}
use remote_command_orchestra.Credentials.Redactor.Registered.{among-add}

-- A secret that the text [REDACTED] cannot form a part of: it is not empty, holds neither bracket
-- and is no part of the word between them.
abbrev pub Maskable : Bytes → Type 0
Maskable = Apart b'[' (codes "REDACTED") b']'

replace_all-keeps :
    (s old p : Bytes)
    → Maskable p
    → contains s p ≡ false
    → contains (replace_all s old mask) p ≡ false
unfolding replace_all
replace_all-keeps s old p m h = elim (Bool-cases (contains (replace_all s old mask) p)) [
  | inl still ↦ ground (arith, contains-replace_from b'[' b']' (codes "REDACTED") old p 0 s m still)
  | inr gone ↦ gone
]

redact-keeps :
    (secrets : List Bytes) (s p : Bytes)
    → Maskable p
    → contains s p ≡ false
    → contains (redact secrets s) p ≡ false
unfolding redact
redact-keeps [] s p m h = h
redact-keeps (sec ∷ secrets) s p m h =
    redact-keeps secrets (replace_all s sec mask) p m (replace_all-keeps s sec p m h)

pub redact-gone :
    (secrets : List Bytes) (s sec : Bytes)
    → among secrets sec ≡ true
    → Maskable sec
    → contains (redact secrets s) sec ≡ false
unfolding redact among
redact-gone [] s sec h m = cc
redact-gone (x ∷ secrets) s sec h m = elim (Bool-cases (eq_bytes x sec)) [
  | inl same ↦ rw (eq_bytes→eq x sec same) (
      redact-keeps secrets (replace_all s sec mask) sec m
        (unfold replace_all in replace_from_removes b'[' b']' (codes "REDACTED") sec 0 s m))
  | inr differs ↦ redact-gone secrets (replace_all s x mask) sec (ground arith) m
]

-- A secret of three bytes or more that was passed to Add, or that the redactor held before, occurs
-- nowhere in what String returns, if it is not empty, holds neither of the brackets [ and ], and is
-- no part of REDACTED.
pub redact-add :
    (secrets new : List Bytes) (s sec : Bytes)
    → (among secrets sec ≡ true) ⊎ ((among new sec ≡ true) × (3 ≤ length sec))
    → Maskable sec
    → ¬ Occurs sec (redact (add secrets new) s)
redact-add secrets new s sec given m found =
    let held : among (add secrets new) sec ≡ true = held_by given in
    cc (redact-gone (add secrets new) s sec held m, (contains_iff _ sec).1 found)
  where
    held_by :
        (among secrets sec ≡ true) ⊎ ((among new sec ≡ true) × (3 ≤ length sec))
        → among (add secrets new) sec ≡ true
    held_by g = ground (arith, (among-add secrets new).0 sec, le→leb 3 (length sec))
