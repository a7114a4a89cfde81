-- ===== src/Job/Shell/Words.antt =====
-- How a POSIX shell splits a simple command into words, and what it makes of a quoted word.
use remote_command_orchestra.Common.{
  ℕ, ◌==◌, Bool, true, false, ◌||◌, List, [], ◌∷◌, ◌++◌, Bytes, codes, is_prefix, replace_from,
  Option, none, some, ◌≡◌, refl, arith, append_assoc, append-nil,
}
use remote_command_orchestra.Job.Shell.{quote}

-- Between words, within a word, inside single quotes, behind a backslash.
pub data Mode : Type 0 where
  between within quoted escaped : Mode

-- Bytes that do more than stand for themselves in a command line.
abbrev is_special : ℕ → Bool
is_special c =
    c == b'$'
    || (c == b'`'
        || (c == b'"'
            || (c == b'('
                || (c == b')'
                    || (c == b'<'
                        || (c == b'>'
                            || (c == b'&'
                                || (c == b'|'
                                    || (c == b'*'
                                        || (c == b'?'
                                            || (c == b'['
                                                || (c == b'#'
                                                    || (c == b'~'
                                                        || (c == b'{' || c == b'}'))))))))))))))

-- A semicolon or a newline ends a command.
abbrev ends_command : ℕ → Bool
ends_command c = c == b';' || c == b'\n'

abbrev pub push_word : Bytes → Option (List Bytes × Bytes) → Option (List Bytes × Bytes)
push_word w none = none
push_word w (some (ws, rest)) = some (w ∷ ws, rest)

-- The words of the first simple command of a line, and what follows it from its `;` or
-- newline on. A line
-- that uses any other feature of the shell outside quotes gives none.
split : Mode → Bytes → Bytes → Option (List Bytes × Bytes)
split between cur [] = some ([], [])
split within cur [] = some (cur ∷ [], [])
split quoted cur [] = none
split escaped cur [] = none
split escaped cur (c ∷ s) = split within (cur ++ c ∷ []) s
split quoted cur (c ∷ s) = elim (c == b'\'') [
  | true ↦ split within cur s
  | false ↦ split quoted (cur ++ c ∷ []) s
]
split between cur (c ∷ s) = elim (c == b' ') [
  | true ↦ split between [] s
  | false ↦ elim (ends_command c) [
    | true ↦ some ([], c ∷ s)
    | false ↦ elim (c == b'\'') [
      | true ↦ split quoted [] s
      | false ↦ elim (c == b'\\') [
        | true ↦ split escaped [] s
        | false ↦ elim (is_special c) [ true ↦ none | false ↦ split within (c ∷ []) s ]
      ]
    ]
  ]
]
split within cur (c ∷ s) = elim (c == b' ') [
  | true ↦ push_word cur (split between [] s)
  | false ↦ elim (ends_command c) [
    | true ↦ some (cur ∷ [], c ∷ s)
    | false ↦ elim (c == b'\'') [
      | true ↦ split quoted cur s
      | false ↦ elim (c == b'\\') [
        | true ↦ split escaped cur s
        | false ↦ elim (is_special c) [ true ↦ none | false ↦ split within (cur ++ c ∷ []) s ]
      ]
    ]
  ]
]

unfoldable pub simple_command : Bytes → Option (List Bytes × Bytes)
unfolding split
simple_command line = split between [] line

split_test :
    simple_command (codes "sh -c 'a b'\\''c' d;e f")
    ≡ some (codes "sh" ∷ codes "-c" ∷ codes "a b'c" ∷ codes "d" ∷ [], codes ";e f")
unfolding simple_command
split_test = refl

quote_test : quote (codes "a'b") ≡ codes "'a'\\''b'"
unfolding quote
quote_test = refl

-- Inside quotes, the replaced text is read back byte for byte.
split-replace_from :
    (s cur rest : Bytes)
    → split quoted cur (replace_from (codes "'") (codes "'\\''") 0 s ++ b'\'' ∷ rest)
      ≡ split within (cur ++ s) rest
unfolding split replace_from is_prefix
split-replace_from [] cur rest = rw append-nil
split-replace_from (c ∷ s) cur rest =
    ground (arith, split-replace_from s (cur ++ c ∷ []) rest, append_assoc cur (c ∷ []) s)

split-quote : (s rest : Bytes) → split between [] (quote s ++ rest) ≡ split within s rest
unfolding split quote
split-quote s rest = simp append_assoc (split-replace_from s [] rest)

-- What stands behind a word: the end of the line, a blank, a semicolon or a newline.
pub data Ends : Bytes → Type 0 where
  at_end : Ends []
  blank : (s : Bytes) → Ends (b' ' ∷ s)
  semicolon : (s : Bytes) → Ends (b';' ∷ s)
  newline : (s : Bytes) → Ends (b'\n' ∷ s)

-- A quoted text that is followed by the end of the line, a blank, a semicolon or a newline is one
-- word of the command line, the text itself, whatever bytes it holds: the words of the line are
-- that text and the words that follow it.
pub quote-one_word :
    (s rest : Bytes)
    → Ends rest
    → simple_command (quote s ++ rest) ≡ push_word s (simple_command rest)
unfolding simple_command split
quote-one_word s [] at_end = split-quote s []
quote-one_word s rest (blank t) = split-quote s (b' ' ∷ t)
quote-one_word s rest (semicolon t) = split-quote s (b';' ∷ t)
quote-one_word s rest (newline t) = split-quote s (b'\n' ∷ t)
