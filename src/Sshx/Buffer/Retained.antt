-- ===== src/Sshx/Buffer/Retained.antt =====
-- What the buffer retains of a stream, however the stream is cut into writes.
use remote_command_orchestra.Common.{
  ℕ, ◌+◌, ◌-◌, ◌*◌, ◌/◌, ◌≤◌, ◌<◌, true, false, List, [], ◌∷◌, ◌++◌, Bytes, codes, decimal, length,
  length-append, length-drop, length-take, drop, take, drop-append_le, drop-drop, take-append_le,
  concat, ◌≡◌, ◌⊎◌, ◌↔◌, refl, sym, ap, ◌∙◌, arith, append_assoc, append-nil, if◌then◌else◌,
  Bool-cases, inl, inr, leb, ltb, leb→le, ltb→lt, le→leb,
}
use remote_command_orchestra.Sshx.Buffer.{
  Buffer, new_buffer, scan, store, trim, write, write_all, to_string,
}

-- `s` was read, and `n` bytes were counted.
record Retained (s : Bytes) (n : ℕ) (b : Buffer) : Type 0 where
  counted : b.total ≡ n
  whole : b.truncated ≡ false → (b.head ≡ s) × (b.tail ≡ []) × (length s ≤ b.limit)
  ends :
      b.truncated ≡ true
      → (b.limit < length s)
        × (b.head ≡ take (b.limit / 2) s)
        × (b.tail ≡ drop (length s - length b.tail) s)
        × (b.limit / 2 ≤ length b.tail)
        × (length b.tail + b.limit / 2 ≤ length s)

new_buffer-Retained :
    (limit : ℕ) (patterns : List Bytes) → Retained [] 0 (new_buffer limit patterns)
unfolding new_buffer
new_buffer-Retained limit patterns = record {
  counted = refl;
  whole = λ _. (refl, refl, omega arith);
  ends = λ h. cc;
}

Retained-of_fields :
    (s : Bytes) (n : ℕ) (b c : Buffer)
    → Retained s n b
    → c.total ≡ b.total
    → c.truncated ≡ b.truncated
    → c.limit ≡ b.limit
    → c.head ≡ b.head
    → c.tail ≡ b.tail
    → Retained s n c
Retained-of_fields s n b c v total truncated limit head tail = record {
  counted = total ∙ v.counted;
  whole = rw (truncated, limit, head, tail) v.whole;
  ends = rw (truncated, limit, head, tail) v.ends;
}

-- The search does not touch what is retained.
scan-Retained : (s p : Bytes) (n : ℕ) (b : Buffer) → Retained s n b → Retained s n (scan b p)
unfolding scan
scan-Retained s p n b v =
    Retained-of_fields s n b (scan b p) v (ground arith) (ground arith) (ground arith)
      (ground arith) (ground arith)

-- The first write that does not fit splits the stream into a full head and the rest.
split-Retained :
    (s p : Bytes) (n : ℕ) (b : Buffer)
    → Retained s n b
    → b.truncated ≡ false
    → leb (length b.head + length p) b.limit ≡ false
    → let all = b.head ++ p in
      let half = b.limit / 2 in
      Retained
        (s ++ p)
        n
        (record b { truncated = true; head = take half all; tail = drop half all })
split-Retained s p n b v uncut full =
    let (same, empty, small) = v.whole uncut in
    rw same (record {
      counted = v.counted;
      whole = λ h. cc;
      ends = λ _. (
        longer same,
        refl,
        ap (λ k. drop k (s ++ p)) (omega (arith, longer same, length-drop half (s ++ p))),
        omega (arith, longer same, length-drop half (s ++ p)),
        omega (arith, longer same, length-drop half (s ++ p)),
      );
    })
  where
    half : ℕ
    half = b.limit / 2

    longer : b.head ≡ s → b.limit < length (s ++ p)
    longer same = ground (arith, length-append s p, ap length same)

append-Retained :
    (s p : Bytes) (n : ℕ) (b : Buffer)
    → Retained s n b
    → b.truncated ≡ true
    → Retained (s ++ p) n (record b { truncated = true; tail = b.tail ++ p })
append-Retained s p n b v cut =
    let (longer, head, tail, least, most) = v.ends cut in
    record {
      counted = v.counted;
      whole = λ h. cc;
      ends = λ _. (
        omega (arith, length-append s p),
        head ∙ sym (take-append_le (b.limit / 2) s p (omega arith)),
        ap (λ t. t ++ p) tail
            ∙ (sym (drop-append_le (length s - length b.tail) s p (omega arith))
                ∙ ap (λ k. drop k (s ++ p))
                    (omega (arith, length-append s p, length-append b.tail p))),
        omega (arith, length-append b.tail p),
        omega (arith, length-append s p, length-append b.tail p),
      );
    }

fit-Retained :
    (s p : Bytes) (n : ℕ) (b : Buffer)
    → Retained s n b
    → b.truncated ≡ false
    → leb (length b.head + length p) b.limit ≡ true
    → Retained (s ++ p) n (record b { truncated = false; head = b.head ++ p })
fit-Retained s p n b v uncut fits =
    let (same, empty, small) = v.whole uncut in
    record {
      counted = v.counted;
      whole = λ _. (
        ap (λ t. t ++ p) same,
        empty,
        omega (arith, length-append s p, ap length same, leb→le _ _ fits),
      );
      ends = λ h. cc;
    }

store-Retained :
    (s p : Bytes) (n : ℕ) (b : Buffer) → Retained s n b → Retained (s ++ p) n (store b p)
unfolding store
store-Retained s p n b v = elim (Bool-cases b.truncated) [
  | inl cut ↦ rw cut (append-Retained s p n b v cut)
  | inr uncut ↦ elim (Bool-cases (leb (length b.head + length p) b.limit)) [
    | inl fits ↦ rw (uncut, fits) (fit-Retained s p n b v uncut fits)
    | inr full ↦ rw (uncut, full) (split-Retained s p n b v uncut full)
  ]
]

trim-Retained : (s : Bytes) (n : ℕ) (b : Buffer) → Retained s n b → Retained s n (trim b)
unfolding trim
trim-Retained s n b v = elim (Bool-cases (ltb (2 * (b.limit / 2)) (length b.tail))) [
  | inr short ↦ rw short v
  | inl long ↦ rw long (record {
    counted = v.counted;
    whole = λ uncut. absurd (cut_short uncut long);
    ends = λ cut. shorten (v.ends cut);
  })
]
  where
    half : ℕ
    half = b.limit / 2

    cut_short : b.truncated ≡ false → ltb (2 * half) (length b.tail) ≡ true → ⊥
    cut_short uncut long =
        omega (arith, ap length (v.whole uncut).1, ltb→lt (2 * half) (length b.tail) long)

    last : Bytes
    last = drop (length b.tail - half) b.tail

    shorten :
        (b.limit < length s)
          × (b.head ≡ take half s)
          × (b.tail ≡ drop (length s - length b.tail) s)
          × (half ≤ length b.tail)
          × (length b.tail + half ≤ length s)
        → (b.limit < length s)
          × (b.head ≡ take half s)
          × (last ≡ drop (length s - length last) s)
          × (half ≤ length last)
          × (length last + half ≤ length s)
    shorten (longer, head, tail, least, most) = (
      longer,
      head,
      ap (drop (length b.tail - half)) tail
          ∙ (drop-drop (length b.tail - half) (length s - length b.tail) s
              ∙ ap (λ k. drop k s) (omega (arith, length-drop (length b.tail - half) b.tail))),
      omega (arith, length-drop (length b.tail - half) b.tail),
      omega (arith, length-drop (length b.tail - half) b.tail),
    )

write-Retained :
    (s w : Bytes) (b : Buffer)
    → Retained s (length s) b
    → Retained (s ++ w) (length (s ++ w)) (write b w)
unfolding write
write-Retained s w b v =
    let n = length (s ++ w) in
    trim-Retained (s ++ w) n _ (
      store-Retained s w n _ (
        scan-Retained s w n _ (record {
          counted = rw (length-append, v.counted) refl;
          whole = v.whole;
          ends = v.ends;
        })))

write_all-Retained :
    (s : Bytes) (ws : List Bytes) (b : Buffer)
    → Retained s (length s) b
    → Retained (s ++ concat ws) (length (s ++ concat ws)) (write_all b ws)
unfolding write_all
write_all-Retained s [] b v = rw append-nil v
write_all-Retained s (w ∷ ws) b v =
    rw (← append_assoc s w (concat ws))
      (write_all-Retained (s ++ w) ws (write b w) (write-Retained s w b v))

write-limit : (b : Buffer) (w : Bytes) → (write b w).limit ≡ b.limit
unfolding write
write-limit b w = ground arith

write_all-limit : (ws : List Bytes) (b : Buffer) → (write_all b ws).limit ≡ b.limit
unfolding write_all
write_all-limit [] b = refl
write_all-limit (w ∷ ws) b = write_all-limit ws (write b w) ∙ write-limit b w

stream-Retained :
    (limit : ℕ) (patterns ws : List Bytes)
    → Retained (concat ws) (length (concat ws)) (write_all (new_buffer limit patterns) ws)
stream-Retained limit patterns ws = write_all-Retained [] ws _ (new_buffer-Retained limit patterns)

-- What String shows of a stream: all of it if it fits, else its first and last halves of the limit
-- round the number of bytes between them.
abbrev pub shown : ℕ → Bytes → Bytes
shown limit s =
    let half = limit / 2 in
    if leb (length s) limit
    then s
    else take half s
      ++ (codes "\n...[truncated "
          ++ (decimal (length s - 2 * half) ++ (codes " bytes]...\n" ++ drop (length s - half) s)))

to_string_of_Retained :
    (s : Bytes) (b : Buffer) → Retained s (length s) b → to_string b ≡ shown b.limit s
unfolding to_string
to_string_of_Retained s b v = elim (Bool-cases b.truncated) [
  | inr uncut ↦
      let (same, empty, small) = v.whole uncut in rw (uncut, le→leb (length s) b.limit small) same
  | inl cut ↦
      let (longer, head, tail, least, most) = v.ends cut in
      let over : leb (length s) b.limit ≡ false = ground arith in
      rw (cut, over, dropped (v.ends cut), ends_with (v.ends cut), head)
]
  where
    half : ℕ
    half = b.limit / 2

    Ends : Type 0
    Ends =
        (b.limit < length s)
        × (b.head ≡ take half s)
        × (b.tail ≡ drop (length s - length b.tail) s)
        × (half ≤ length b.tail)
        × (length b.tail + half ≤ length s)

    ends_with : Ends → drop (length b.tail - half) b.tail ≡ drop (length s - half) s
    ends_with (longer, head, tail, least, most) =
        ap (drop (length b.tail - half)) tail
        ∙ (drop-drop (length b.tail - half) (length s - length b.tail) s
            ∙ ap (λ k. drop k s) (omega arith))

    dropped :
        Ends
        → b.total - length b.head - length (drop (length b.tail - half) b.tail)
          ≡ length s - 2 * half
    dropped (longer, head, tail, least, most) = omega (
      arith,
      v.counted,
      ap length head,
      length-take half s,
      length-drop (length b.tail - half) b.tail,
    )

-- Whatever the limit and however a stream is cut into writes, String gives the whole stream if it
-- is no longer than the limit. Otherwise it gives the first and the last limit/2 bytes, with the
-- number of bytes that lie between them.
pub to_string-shown :
    (limit : ℕ) (patterns ws : List Bytes)
    → to_string (write_all (new_buffer limit patterns) ws) ≡ shown limit (concat ws)
unfolding new_buffer
to_string-shown limit patterns ws =
    let b = write_all (new_buffer limit patterns) ws in
    to_string_of_Retained (concat ws) b (stream-Retained limit patterns ws)
    ∙ ap (λ l. shown l (concat ws)) (write_all-limit ws (new_buffer limit patterns))

trim-tail : (b : Buffer) → length (trim b).tail ≤ 2 * ((trim b).limit / 2)
unfolding trim
trim-tail b = ground (arith, length-drop (length b.tail - b.limit / 2) b.tail)

write_all-tail :
    (ws : List Bytes) (b : Buffer)
    → length b.tail ≤ 2 * (b.limit / 2)
    → length (write_all b ws).tail ≤ 2 * ((write_all b ws).limit / 2)
unfolding write_all write
write_all-tail [] b h = h
write_all-tail (w ∷ ws) b h =
    write_all-tail ws (write b w)
      (trim-tail (store (scan (record b { total = b.total + length w }) w) w))

-- After any writes the buffer holds at most one and a half times the limit, it counts every byte
-- of the stream, and it reports a truncation exactly when the stream is longer than the limit.
pub write_all_bounds :
    (limit : ℕ) (patterns ws : List Bytes)
    → let b = write_all (new_buffer limit patterns) ws in
      (length b.head + length b.tail ≤ limit + limit / 2)
      × (b.total ≡ length (concat ws))
      × ((b.truncated ≡ true) ↔ (limit < length (concat ws)))
unfolding new_buffer
write_all_bounds limit patterns ws =
    (size (Bool-cases b.truncated), v.counted, (λ cut. rw (← same) (v.ends cut).0, longer))
  where
    b : Buffer
    b = write_all (new_buffer limit patterns) ws

    v : Retained (concat ws) (length (concat ws)) b
    v = stream-Retained limit patterns ws

    same : b.limit ≡ limit
    same = write_all-limit ws (new_buffer limit patterns)

    size :
        (b.truncated ≡ true) ⊎ (b.truncated ≡ false)
        → length b.head + length b.tail ≤ limit + limit / 2
    size (inl cut) = omega (
      arith,
      same,
      ap length (v.ends cut).1,
      length-take (b.limit / 2) (concat ws),
      write_all-tail ws (new_buffer limit patterns) (omega arith),
    )
    size (inr uncut) =
        omega
          (arith, same, ap length (v.whole uncut).0, ap length (v.whole uncut).1, (v.whole uncut).2)

    longer : limit < length (concat ws) → b.truncated ≡ true
    longer h = elim (Bool-cases b.truncated) [
      | inl cut ↦ cut
      | inr uncut ↦ absurd (omega (arith, same, (v.whole uncut).2))
    ]
