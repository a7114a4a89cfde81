-- ===== src/Sshx/Buffer.antt =====
-- internal/sshx/buffer.go. A method that changes the buffer returns the new record; Write returns
-- no count, since it never fails and always takes the whole of its argument.
pub mod Search
pub mod Retained
use remote_command_orchestra.Common.{
  ℕ, ◌+◌, ◌-◌, ◌*◌, ◌/◌, max, Bool, true, false, not, ◌&&◌, ◌||◌, List, [], ◌∷◌, ◌++◌, map, Bytes,
  codes, contains, decimal, length, is_nil, drop, take, get_elem?, Option, ltb, leb, if◌then◌else◌,
}

pub record Buffer : Type 0 where
  pub limit : ℕ
  pub head : Bytes
  pub tail : Bytes
  pub total : ℕ
  pub truncated : Bool
  pub pats : List Bytes
  pub found : List Bool
  pub carry : Bytes
  pub keep : ℕ

-- The loop of NewBuffer. `-` stops at 0, where the source takes the greater of -1 and `keep`.
keep_for : ℕ → List Bytes → ℕ
keep_for keep [] = keep
keep_for keep (p ∷ patterns) = keep_for (max keep (length p - 1)) patterns

unfoldable pub new_buffer : ℕ → List Bytes → Buffer
unfolding keep_for
new_buffer limit patterns = record {
  limit = limit;
  head = [];
  tail = [];
  total = 0;
  truncated = false;
  pats = patterns;
  found = map (λ _. false) patterns;
  carry = [];
  keep = keep_for 0 patterns;
}

-- The loop of scan over the patterns and the flags.
mark : Bytes → List Bytes → List Bool → List Bool
mark buf [] found = []
mark buf (pat ∷ pats) [] = []
mark buf (pat ∷ pats) (f ∷ found) =
    (if not f && contains buf pat then true else f) ∷ mark buf pats found

unfoldable pub scan : Buffer → Bytes → Buffer
unfolding mark
scan b p =
    let buf = b.carry ++ p in
    if is_nil b.pats || is_nil p
    then b
    else record b { found = mark buf b.pats b.found; carry = drop (length buf - b.keep) buf }

-- The switch of Write.
store : Buffer → Bytes → Buffer
store b p =
    let half = b.limit / 2 in
    let all = b.head ++ p in
    if not b.truncated && leb (length b.head + length p) b.limit
    then record b { head = all }
    else if not b.truncated
    then record b { truncated = true; head = take half all; tail = drop half all }
    else record b { tail = b.tail ++ p }

-- The trim at the end of Write.
trim : Buffer → Buffer
trim b =
    let half = b.limit / 2 in
    if ltb (2 * half) (length b.tail)
    then record b { tail = drop (length b.tail - half) b.tail }
    else b

unfoldable pub write : Buffer → Bytes → Buffer
unfolding scan store trim
write b p = trim (store (scan (record b { total = b.total + length p }) p) p)

-- Successive writes of one stream.
unfoldable pub write_all : Buffer → List Bytes → Buffer
unfolding write
write_all b [] = b
write_all b (p ∷ ps) = write_all (write b p) ps

-- Found; an index past the patterns, at which Go panics, gives none.
unfoldable pub found_at : Buffer → ℕ → Option Bool
found_at b i = get_elem? b.found i

unfoldable pub to_string : Buffer → Bytes
to_string b =
    let t = drop (length b.tail - b.limit / 2) b.tail in
    let dropped = b.total - length b.head - length t in
    if not b.truncated
    then b.head
    else b.head ++ (codes "\n...[truncated " ++ (decimal dropped ++ (codes " bytes]...\n" ++ t)))
