-- ===== src/Common/Text/Trim.antt =====
-- strings.TrimSpace and strings.LastIndexByte over ASCII, and strconv.Quote. Go also trims the
-- blanks beyond ASCII, and escapes the unprintable characters there; these leave them alone.
use Prim.Native.Nat.{ℕ, ◌+◌, ◌/◌, ◌%◌}
use mathlib.Core.Path.{◌≡◌, refl}
use mathlib.Core.Bool.{Bool, ◌||◌, ◌&&◌}
use mathlib.Core.List.{List, [], ◌∷◌, ◌++◌, reverse}
use remote_command_orchestra.Common.Tests.{◌==◌, ltb, leb, if◌then◌else◌}
use remote_command_orchestra.Common.Text.Search.{Bytes, codes}

unfoldable pub is_space : ℕ → Bool
is_space c = c == b' ' || (leb 9 c && leb c 13)

trim_left : Bytes → Bytes
trim_left [] = []
trim_left (c ∷ s) = let rest = trim_left s in if is_space c then rest else c ∷ s

unfoldable pub trim_space : Bytes → Bytes
unfolding trim_left is_space
trim_space s = reverse (trim_left (reverse (trim_left s)))

-- What follows the last line feed: s[strings.LastIndexByte(s, '\n')+1:].
after_line_feed : Bytes → Bytes → Bytes
after_line_feed from [] = from
after_line_feed from (c ∷ s) = after_line_feed (if c == b'\n' then s else from) s

unfoldable pub last_line : Bytes → Bytes
unfolding trim_space after_line_feed
last_line s = let t = trim_space s in trim_space (after_line_feed t t)

hex_digit : ℕ → ℕ
hex_digit d = if ltb d 10 then 48 + d else 87 + d

escape : ℕ → Bytes
unfolding hex_digit
escape c =
    if c == b'"' || c == b'\\'
    then b'\\' ∷ c ∷ []
    else if c == 7
    then codes "\\a"
    else if c == 8
    then codes "\\b"
    else if c == 9
    then codes "\\t"
    else if c == 10
    then codes "\\n"
    else if c == 11
    then codes "\\v"
    else if c == 12
    then codes "\\f"
    else if c == 13
    then codes "\\r"
    else if ltb c 32 || c == 127
    then b'\\' ∷ b'x' ∷ hex_digit (c / 16) ∷ hex_digit (c % 16) ∷ []
    else c ∷ []

escape_all : Bytes → Bytes
escape_all [] = []
escape_all (c ∷ s) = escape c ++ escape_all s

unfoldable pub quoted : Bytes → Bytes
unfolding escape_all escape
quoted s = b'"' ∷ (escape_all s ++ b'"' ∷ [])

last_line_test : last_line (codes "a\n  b c \n\n") ≡ codes "b c"
unfolding last_line
last_line_test = refl

quoted_test : quoted (codes "a\"\n") ≡ codes "\"a\\\"\\n\""
unfolding quoted
quoted_test = refl

-- strings.Join.
unfoldable pub join_with : Bytes → List Bytes → Bytes
join_with sep [] = []
join_with sep (s ∷ []) = s
join_with sep (s ∷ (t ∷ texts)) = s ++ (sep ++ join_with sep (t ∷ texts))
