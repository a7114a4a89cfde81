-- ===== src/Sshx/Buffer/Search.antt =====
-- What the pattern search of the buffer finds, however the stream is cut into writes.
use mathlib.Core.List.{map}
use remote_command_orchestra.Common.{
  ℕ, zero, suc, ◌+◌, ◌-◌, ◌≤◌, max, Bool, true, false, not, ◌&&◌, ◌||◌, List, [], ◌∷◌, ◌++◌, Bytes,
  contains, contains_split, contains_absorb, leb, leb→le, contains-nil, contains_iff, Occurs,
  length, length-append, length-drop, is_nil, drop, take, take-append-drop, drop-append_le,
  drop-nil, drop-drop, get_elem?, concat, some, ◌≡◌, ◌≢◌, ◌↔◌, refl, sym, ap, ◌∙◌, arith,
  append_assoc, append-nil, if◌then◌else◌, Bool-cases, inl, inr,
}
use remote_command_orchestra.Sshx.Buffer.{
  Buffer, new_buffer, keep_for, mark, scan, store, trim, write, write_all, found_at,
}

-- Every flag tells whether its pattern occurs in the stream `s`, and `keep` is long enough.
abbrev Marked : Bytes → ℕ → List Bytes → List Bool → Type 0
Marked s keep [] [] = Unit
Marked s keep [] (f ∷ found) = ⊥
Marked s keep (p ∷ pats) [] = ⊥
Marked s keep (p ∷ pats) (f ∷ found) =
    (length p ≤ keep + 1) × (p ≢ [] → f ≡ contains s p) × Marked s keep pats found

record Scanned (s : Bytes) (b : Buffer) : Type 0 where
  flags : Marked s b.keep b.pats b.found
  carried : is_nil b.pats ≡ false → b.carry ≡ drop (length s - b.keep) s

keep_for-ge : (keep : ℕ) (pats : List Bytes) → keep ≤ keep_for keep pats
unfolding keep_for
keep_for-ge keep [] = omega arith
keep_for-ge keep (p ∷ pats) = omega (arith, keep_for-ge (max keep (length p - 1)) pats)

Marked-new :
    (k keep : ℕ) (pats : List Bytes)
    → keep_for k pats ≤ keep
    → Marked [] keep pats (map (λ _. false) pats)
unfolding keep_for
Marked-new k keep [] h = tt
Marked-new k keep (p ∷ pats) h = (
  omega (arith, keep_for-ge (max k (length p - 1)) pats),
  λ ne. sym (contains-nil p ne),
  Marked-new (max k (length p - 1)) keep pats h,
)

new_buffer-Scanned : (limit : ℕ) (pats : List Bytes) → Scanned [] (new_buffer limit pats)
unfolding new_buffer
new_buffer-Scanned limit pats = record {
  flags = Marked-new 0 (keep_for 0 pats) pats (omega arith);
  carried = λ _. sym (drop-nil (0 - keep_for 0 pats));
}

-- A pattern that the kept end of `s` almost covers is found in `s ++ w` by looking in `s`, and in
-- that end with `w` behind it.
contains_carry :
    (keep : ℕ) (s w p : Bytes)
    → length p ≤ keep + 1
    → contains (s ++ w) p ≡ (contains s p || contains (drop (length s - keep) s ++ w) p)
contains_carry keep s w p h = elim (Bool-cases (leb keep (length s))) [
  | inl long ↦ cc (
    take-append-drop cut s,
    append_assoc (take cut s) (drop cut s) w,
    contains_split (take cut s) (drop cut s) w p
        (ground (arith, length-drop cut s, leb→le keep (length s))),
  )
  | inr short ↦ rw (whole short) (contains_absorb s w p)
]
  where
    cut : ℕ
    cut = length s - keep

    whole : leb keep (length s) ≡ false → cut ≡ 0
    whole short = ground arith

flag_lem : (f c : Bool) → (if not f && c then true else f) ≡ (f || c)
flag_lem f c = ground arith

mark-Marked :
    (keep : ℕ) (s w : Bytes) (pats : List Bytes) (found : List Bool)
    → Marked s keep pats found
    → Marked (s ++ w) keep pats (mark (drop (length s - keep) s ++ w) pats found)
unfolding mark
mark-Marked keep s w [] [] m = tt
mark-Marked keep s w [] (f ∷ found) m = absurd m
mark-Marked keep s w (p ∷ pats) [] m = absurd m
mark-Marked keep s w (p ∷ pats) (f ∷ found) (fits, exact, rest) = (
  fits,
  λ ne. flag_lem f _ ∙ cc (exact ne, contains_carry keep s w p fits),
  mark-Marked keep s w pats found rest,
)

Marked-of_nil :
    (s t : Bytes) (keep : ℕ) (pats : List Bytes) (found : List Bool)
    → is_nil pats ≡ true
    → Marked s keep pats found
    → Marked t keep pats found
Marked-of_nil s t keep [] [] h m = tt
Marked-of_nil s t keep [] (f ∷ found) h m = m
Marked-of_nil s t keep (p ∷ pats) found h m = cc

-- The new carry is again the end of what was read.
carry_lem :
    (keep : ℕ) (s w : Bytes)
    → let buf = drop (length s - keep) s ++ w in
      drop (length buf - keep) buf ≡ drop (length (s ++ w) - keep) (s ++ w)
carry_lem keep s w =
    rw (← drop-append_le (length s - keep) s w (omega arith), drop-drop)
      (ap (λ n. drop n (s ++ w)) same)
  where
    same :
        length s - keep + (length (drop (length s - keep) (s ++ w)) - keep) ≡ length (s ++ w) - keep
    same = omega (arith, length-drop (length s - keep) (s ++ w), length-append s w)

scan-Scanned : (s w : Bytes) (b : Buffer) → Scanned s b → Scanned (s ++ w) (scan b w)
unfolding scan
scan-Scanned s [] b v = elim (Bool-cases (is_nil b.pats)) [
  | inl none_given ↦ rw (none_given, append-nil) v
  | inr given ↦ rw (given, append-nil) v
]
scan-Scanned s (c ∷ w) b v = elim (Bool-cases (is_nil b.pats)) [
  | inl none_given ↦ rw none_given (record {
    flags = Marked-of_nil s (s ++ c ∷ w) b.keep b.pats b.found none_given v.flags;
    carried = λ given. cc;
  })
  | inr given ↦ rw given (record {
    flags = rw (v.carried given) (mark-Marked b.keep s (c ∷ w) b.pats b.found v.flags);
    carried = λ _. rw (v.carried given) (carry_lem b.keep s (c ∷ w));
  })
]

Scanned-of_fields :
    (s : Bytes) (b c : Buffer)
    → Scanned s b
    → c.pats ≡ b.pats
    → c.found ≡ b.found
    → c.carry ≡ b.carry
    → c.keep ≡ b.keep
    → Scanned s c
Scanned-of_fields s b c v pats found carry keep = record {
  flags = rw (pats, found, keep) v.flags;
  carried = rw (pats, carry, keep) v.carried;
}

-- The rest of Write leaves the search alone.
store-Scanned : (s p : Bytes) (b : Buffer) → Scanned s b → Scanned s (store b p)
unfolding store
store-Scanned s p b v =
    Scanned-of_fields s b (store b p) v (ground arith) (ground arith) (ground arith) (ground arith)

trim-Scanned : (s : Bytes) (b : Buffer) → Scanned s b → Scanned s (trim b)
unfolding trim
trim-Scanned s b v =
    Scanned-of_fields s b (trim b) v (ground arith) (ground arith) (ground arith) (ground arith)

write-Scanned : (s w : Bytes) (b : Buffer) → Scanned s b → Scanned (s ++ w) (write b w)
unfolding write
write-Scanned s w b v = trim-Scanned (s ++ w) _ (
    store-Scanned (s ++ w) w _
      (scan-Scanned s w _ (record { flags = v.flags; carried = v.carried })))

write-pats : (b : Buffer) (w : Bytes) → (write b w).pats ≡ b.pats
unfolding write
write-pats b w = ground arith

write_all-Scanned :
    (s : Bytes) (ws : List Bytes) (b : Buffer)
    → Scanned s b
    → Scanned (s ++ concat ws) (write_all b ws) × ((write_all b ws).pats ≡ b.pats)
unfolding write_all
write_all-Scanned s [] b v = (rw append-nil v, refl)
write_all-Scanned s (w ∷ ws) b v =
    let (u, same) = write_all-Scanned (s ++ w) ws (write b w) (write-Scanned s w b v) in
    (rw (← append_assoc s w (concat ws)) u, same ∙ write-pats b w)

Marked-found :
    (s : Bytes) (keep : ℕ) (pats : List Bytes) (found : List Bool) (i : ℕ) (p : Bytes)
    → Marked s keep pats found
    → get_elem? pats i ≡ some p
    → p ≢ []
    → get_elem? found i ≡ some (contains s p)
Marked-found s keep [] found i p m e ne = cc
Marked-found s keep (q ∷ pats) [] i p m e ne = absurd m
Marked-found s keep (q ∷ pats) (f ∷ found) zero p (fits, exact, rest) e ne = ground (arith, exact)
Marked-found s keep (q ∷ pats) (f ∷ found) (suc i) p (fits, exact, rest) e ne =
    Marked-found s keep pats found i p rest e ne

pub found_at-contains :
    (limit : ℕ) (patterns ws : List Bytes) (i : ℕ) (p : Bytes)
    → get_elem? patterns i ≡ some p
    → p ≢ []
    → found_at (write_all (new_buffer limit patterns) ws) i ≡ some (contains (concat ws) p)
unfolding found_at new_buffer
found_at-contains limit patterns ws i p e ne =
    let b = write_all (new_buffer limit patterns) ws in
    let (v, same) = write_all-Scanned [] ws _ (new_buffer-Scanned limit patterns) in
    Marked-found (concat ws) b.keep b.pats b.found i p v.flags (rw same e) ne

-- For a pattern that is not empty, Found says after any writes that the pattern was seen exactly
-- when it occurs in the whole stream, also across writes and in the part that the buffer drops.
pub found_at_iff :
    (limit : ℕ) (patterns ws : List Bytes) (i : ℕ) (p : Bytes)
    → get_elem? patterns i ≡ some p
    → p ≢ []
    → (found_at (write_all (new_buffer limit patterns) ws) i ≡ some true) ↔ Occurs p (concat ws)
found_at_iff limit patterns ws i p e ne =
    rw (found_at-contains limit patterns ws i p e ne)
      (λ h. (contains_iff (concat ws) p).0 (cc), λ o. ap some ((contains_iff (concat ws) p).1 o))
