-- ===== src/Sshx/Bastion/Shared.antt =====
-- The invariant of the pool, and the operations that keep it.
use remote_command_orchestra.Common.{
  ℕ, suc, ◌<◌, ◌==◌, Bool, true, false, Bytes, lookup, lookup-insert, lookup-delete, insert, delete,
  Option, none, some, some-injective, eq_bytes, eq_bytes→eq, eq_bytes_refl, if◌then◌else◌, ◌≡◌, ◌≢◌,
  inl, inr, refl, sym, ap, subst, ◌∙◌, arith, Bool-cases,
}
use remote_command_orchestra.Sshx.Bastion.{
  failure, Phase, dialing, handled, ready, Entry, Pool, put, set_phase, new_entry, is_entry, evict,
  current, has_client, broken,
}

-- A failure that its owner is done with.
abbrev pub Stale : Phase → Type 0
Stale (handled (failure err)) = Unit
Stale (ready (failure err)) = Unit
Stale _ = ⊥

-- The entry of a key in the map is one of that key, and no failure that was handled; an entry that
-- is still being dialled is the one in the map.
abbrev pub IsShared : Pool → Type 0
IsShared p =
    ((k : Bytes) (e : ℕ)
      → lookup k p.conns ≡ some e
      → (e < p.next) × ((p.entries e).key ≡ k) × (¬ Stale (p.entries e).phase))
    × ((e : ℕ)
        → e < p.next
        → (p.entries e).phase ≡ dialing
        → lookup (p.entries e).key p.conns ≡ some e)

pub put-same : (e : ℕ) (x : Entry) (f : ℕ → Entry) → put e x f e ≡ x
put-same e x f = elim (Bool-cases (e == e)) [
  | inl same ↦ rw (same) refl
  | inr differ ↦ absurd (ground (arith, differ))
]

put-other : (e i : ℕ) (x : Entry) (f : ℕ → Entry) → (e == i) ≡ false → put e x f i ≡ f i
put-other e i x f differ = rw (differ) refl

pub set_phase-IsShared :
    (e : ℕ) (ph : Phase) (p : Pool)
    → ph ≢ dialing
    → (Stale ph → (k : Bytes) → ¬ (lookup k p.conns ≡ some e))
    → IsShared p
    → IsShared (set_phase e ph p)
set_phase-IsShared e ph p over gone (own, here) = (
  (λ k i h. elim (Bool-cases (e == i)) [
    | inl same ↦
        let is_e : e ≡ i = ground (arith, same) in
        rw (same) (
          (own k i h).0,
          ap (λ j. (p.entries j).key) is_e ∙ (own k i h).1,
          (λ st. gone st k (h ∙ ap some (sym is_e))),
        )
    | inr differ ↦ rw (differ) (own k i h)
  ]),
  (λ i l h. elim (Bool-cases (e == i)) [
    | inl same ↦ absurd (over (rw (same) at h))
    | inr differ ↦ rw (differ) (here i l (rw (differ) at h))
  ]),
)

delete-IsShared :
    (k : Bytes) (p : Pool)
    → ((e : ℕ) → e < p.next → (p.entries e).phase ≡ dialing → ¬ ((p.entries e).key ≡ k))
    → IsShared p
    → IsShared (record p { conns = delete k p.conns })
delete-IsShared k p idle (own, here) = (
  (λ j e h. elim (Bool-cases (eq_bytes k j)) [
    | inl same ↦ absurd (
        let h' = sym (lookup-delete k j p.conns) ∙ h in
        let h'' = rw (same) at h' in ground (arith, h''))
    | inr differ ↦ let h' = sym (lookup-delete k j p.conns) ∙ h in own j e (rw (differ) at h')
  ]),
  (λ e l h. elim (Bool-cases (eq_bytes k (p.entries e).key)) [
    | inl same ↦ absurd (idle e l h (sym (eq_bytes→eq k (p.entries e).key same)))
    | inr differ ↦ lookup-delete k (p.entries e).key p.conns ∙ rw (differ) (here e l h)
  ]),
)

is_entry→some : (e : ℕ) (o : Option ℕ) → is_entry e o ≡ true → o ≡ some e
is_entry→some e none h = ground (arith, h)
is_entry→some e (some f) h = ap some (ground (arith, h))

-- Only the entry in the map can be dialled under its key.
idle_under :
    (k : Bytes) (e : ℕ) (p : Pool)
    → IsShared p
    → lookup k p.conns ≡ some e
    → (p.entries e).phase ≢ dialing
    → (i : ℕ) → i < p.next
    → (p.entries i).phase ≡ dialing
    → ¬ ((p.entries i).key ≡ k)
idle_under k e p (own, here) found over i l h same =
    let is_i : some i ≡ some e = sym (here i l h) ∙ ap (λ j. lookup j p.conns) same ∙ found in
    over (subst (λ j. (p.entries j).phase ≡ dialing) (some-injective i e is_i) h)

pub evict-IsShared :
    (k : Bytes) (e : ℕ) (p : Pool)
    → (p.entries e).phase ≢ dialing
    → IsShared p
    → IsShared (evict k e p)
unfolding evict
evict-IsShared k e p over shared =
    let branch : Bool → Pool = λ b. if b then record p { conns = delete k p.conns } else p in
    elim (Bool-cases (is_entry e (lookup k p.conns))) [
      | inl found ↦
          subst (λ b. IsShared (branch b)) (sym found)
            (delete-IsShared k p
              (idle_under k e p shared (is_entry→some e (lookup k p.conns) found) over) shared)
      | inr other ↦ subst (λ b. IsShared (branch b)) (sym other) shared
    ]

-- An entry that is evicted is under no key.
pub evict-gone :
    (e : ℕ) (p : Pool)
    → IsShared p
    → (k : Bytes) → ¬ (lookup k (evict (p.entries e).key e p).conns ≡ some e)
unfolding evict
evict-gone e p (own, here) k h =
    let j = (p.entries e).key in
    let branch : Bool → Pool = λ b. if b then record p { conns = delete j p.conns } else p in
    elim (Bool-cases (is_entry e (lookup j p.conns))) [
      | inr other ↦
          let h' : lookup k p.conns ≡ some e =
            subst (λ b. lookup k (branch b).conns ≡ some e) other h in
          let found : lookup j p.conns ≡ some e =
            ap (λ x. lookup x p.conns) ((own k e h').1) ∙ h' in
          absurd (let no_entry = rw (found) at other in ground (arith, no_entry))
      | inl there ↦
          let h' : lookup k (delete j p.conns) ≡ some e =
            subst (λ b. lookup k (branch b).conns ≡ some e) there h in
          let h'' = sym (lookup-delete j k p.conns) ∙ h' in
          elim (Bool-cases (eq_bytes j k)) [
            | inl same ↦ absurd (let gone = rw (same) at h'' in ground (arith, gone))
            | inr differ ↦
                let kept : lookup k p.conns ≡ some e = rw (differ) at h'' in
                absurd
                  (let d = rw ((own k e kept).1, eq_bytes_refl k) at differ in ground (arith, d))
          ]
    ]

pub client-over : (ph : Phase) (c : ℕ) → current ph ≡ some c → ph ≢ dialing
client-over ph c h over = absurd (let h' = rw (over) at h in ground (arith, h'))

has_client→some :
    (c : ℕ) (p : Pool) (o : Option ℕ)
    → has_client c p o ≡ true
    → (e : ℕ) × (o ≡ some e) × (current (p.entries e).phase ≡ some c)
has_client→some c p none h = absurd (ground (arith, h))
has_client→some c p (some e) h = (e, refl, is_entry→some c (current (p.entries e).phase) h)

pub broken-IsShared : (k : Bytes) (c : ℕ) (p : Pool) → IsShared p → IsShared (broken k c p)
unfolding broken
broken-IsShared k c p shared =
    let branch : Bool → Pool = λ b. if b then record p { conns = delete k p.conns } else p in
    elim (Bool-cases (has_client c p (lookup k p.conns))) [
      | inl found ↦
          let (e, there, has) = has_client→some c p (lookup k p.conns) found in
          subst (λ b. IsShared (branch b)) (sym found)
            (delete-IsShared k p
              (idle_under k e p shared there (client-over (p.entries e).phase c has)) shared)
      | inr other ↦ subst (λ b. IsShared (branch b)) (sym other) shared
    ]

pub new_entry-IsShared :
    (k : Bytes) (p : Pool) → lookup k p.conns ≡ none → IsShared p → IsShared (new_entry k p)
unfolding new_entry
new_entry-IsShared k p free (own, here) =
    let x : Entry = record { key = k; phase = dialing } in
    let fresh : (i : ℕ) → i < p.next → (p.next == i) ≡ false = λ i l. ground arith in
    (
      (λ j e h. elim (Bool-cases (eq_bytes k j)) [
        | inl same ↦
            let h' : some p.next ≡ some e =
              rw (same) at (sym (lookup-insert k j p.next p.conns) ∙ h) in
            let is_e : p.next ≡ e = some-injective p.next e h' in
            let is_x : put p.next x p.entries e ≡ x =
              subst (λ i. put p.next x p.entries i ≡ x) is_e (put-same p.next x p.entries) in
            (
              subst (λ i. i < suc p.next) is_e (ground arith),
              ap (λ y. y.key) is_x ∙ eq_bytes→eq k j same,
              λ st. subst (λ y. Stale y.phase) is_x st,
            )
        | inr differ ↦
            let h' : lookup j p.conns ≡ some e =
              rw (differ) at (sym (lookup-insert k j p.next p.conns) ∙ h) in
            let (l, same, live) = own j e h' in rw (fresh e l) (ground (arith, l), same, live)
      ]),
      (λ e l h. elim (Bool-cases (p.next == e)) [
        | inl new ↦
            let is_next : p.next ≡ e = ground (arith, new) in
            rw (new) (lookup-insert k k p.next p.conns ∙ rw (eq_bytes_refl k) (ap some is_next))
        | inr old ↦
            let l' : e < p.next = ground (arith, old, l) in
            let kept = here e l' (rw (old) at h) in
            let is_here : lookup (p.entries e).key (insert k p.next p.conns) ≡ some e =
              elim (Bool-cases (eq_bytes k (p.entries e).key)) [
                | inl same ↦ absurd (
                    let e' =
                      sym kept
                      ∙ ap (λ y. lookup y p.conns) (sym (eq_bytes→eq k (p.entries e).key same))
                      ∙ free in
                    ground (arith, e'))
                | inr differ ↦ lookup-insert k (p.entries e).key p.next p.conns ∙ rw (differ) kept
              ] in
            rw (old) is_here
      ]),
    )
