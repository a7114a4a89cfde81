-- ===== src/Sshx/Bastion/Dials.antt =====
-- What the pool promises to the hosts behind a bastion.
use remote_command_orchestra.Common.{
  ℕ, ◌<◌, true, false, Bytes, lookup, lookup-insert, insert, Option, none, some, some-injective,
  eq_bytes_refl, ◌≡◌, refl, sym, ap, subst, ◌∙◌, arith,
}
use remote_command_orchestra.Sshx.Bastion.{
  Outcome, client, failure, dialing, answered, handled, ready, Pool, set_phase, new_entry,
  entry_or_new, entry_for, evict, handle, Step, asked, dialled, settled, published, lost, broke,
  Reached, empty, after,
}
use remote_command_orchestra.Sshx.Bastion.Shared.{
  Stale, IsShared, put-same, set_phase-IsShared, evict-IsShared, evict-gone, client-over,
  broken-IsShared, new_entry-IsShared,
}

entry_or_new-IsShared :
    (k : Bytes) (o : Option ℕ) (p : Pool)
    → lookup k p.conns ≡ o
    → IsShared p
    → IsShared (entry_or_new k o p).1
unfolding entry_or_new
entry_or_new-IsShared k (some e) p found shared = shared
entry_or_new-IsShared k none p free shared = new_entry-IsShared k p free shared

handle-IsShared :
    (e : ℕ) (o : Outcome) (p : Pool)
    → (p.entries e).phase ≡ answered o
    → IsShared p
    → IsShared (set_phase e (handled o) (handle e o p))
unfolding handle
handle-IsShared e (client c) p h shared =
    set_phase-IsShared e (handled (client c)) p (λ n. ground (arith, n)) (λ st k n. st) shared
handle-IsShared e (failure err) p h shared =
    set_phase-IsShared e (handled (failure err)) (evict (p.entries e).key e p)
      (λ n. ground (arith, n)) (λ st. evict-gone e p shared)
      (evict-IsShared (p.entries e).key e p (λ n. ground (arith, h, n)) shared)

publish-IsShared :
    (e : ℕ) (o : Outcome) (p : Pool)
    → (p.entries e).phase ≡ handled o
    → IsShared p
    → IsShared (set_phase e (ready o) p)
publish-IsShared e (client c) p h shared =
    set_phase-IsShared e (ready (client c)) p (λ n. ground (arith, n)) (λ st k n. st) shared
publish-IsShared e (failure err) p h (own, here) =
    set_phase-IsShared e (ready (failure err)) p (λ n. ground (arith, n))
      (λ st k found. (own k e found).2 (subst Stale (sym h) tt)) (own, here)

Step-IsShared : (p q : Pool) → Step p q → IsShared p → IsShared q
unfolding entry_for
Step-IsShared p q (asked k) shared = entry_or_new-IsShared k (lookup k p.conns) p refl shared
Step-IsShared p q (dialled e o l h) shared =
    set_phase-IsShared e (answered o) p (λ n. ground (arith, n)) (λ st. absurd st) shared
Step-IsShared p q (settled e o l h) shared = handle-IsShared e o p h shared
Step-IsShared p q (published e o l h) shared = publish-IsShared e o p h shared
Step-IsShared p q (lost e c l h) shared =
    evict-IsShared (p.entries e).key e p (client-over (p.entries e).phase c h) shared
Step-IsShared p q (broke k c) shared = broken-IsShared k c p shared

pub Reached-IsShared : (p : Pool) → Reached p → IsShared p
unfolding lookup
Reached-IsShared p (empty entries) =
    ((λ k e h. absurd (ground (arith, h))), λ e l h. ground (arith, l))
Reached-IsShared p (after {p = q} r s) = Step-IsShared q p s (Reached-IsShared q r)

-- However the calls of a run interleave, no two dials to one bastion are under way at a time:
-- every host that needs the bastion meanwhile waits for the one dial.
pub one_dial :
    (p : Pool)
    → Reached p
    → (e f : ℕ) → e < p.next
    → f < p.next
    → (p.entries e).phase ≡ dialing
    → (p.entries f).phase ≡ dialing
    → (p.entries e).key ≡ (p.entries f).key
    → e ≡ f
one_dial p r e f le lf de df same =
    let (own, here) = Reached-IsShared p r in
    some-injective e f (sym (here e le de) ∙ ap (λ k. lookup k p.conns) same ∙ here f lf df)

-- At every moment of a run, a call of get for a bastion is given an entry of that bastion which is
-- no failure that was dealt with: once the owner has evicted a failed dial, the next caller
-- dials anew. A caller that does not dial itself is given an entry that was there.
pub entry_for-fresh :
    (p : Pool)
    → Reached p
    → (k : Bytes)
    → let ((e, owns), q) = entry_for k p in
      ((q.entries e).key ≡ k)
      × (¬ Stale (q.entries e).phase)
      × (lookup k q.conns ≡ some e)
      × (owns ≡ true → (q.entries e).phase ≡ dialing)
      × (owns ≡ false → q ≡ p)
unfolding entry_for entry_or_new new_entry
entry_for-fresh p r k = go (lookup k p.conns) refl
  where
    go :
        (o : Option ℕ)
        → lookup k p.conns ≡ o
        → let ((e, owns), q) = entry_or_new k o p in
          ((q.entries e).key ≡ k)
          × (¬ Stale (q.entries e).phase)
          × (lookup k q.conns ≡ some e)
          × (owns ≡ true → (q.entries e).phase ≡ dialing)
          × (owns ≡ false → q ≡ p)
    go (some e) h =
        let (own, here) = Reached-IsShared p r in
        let (l, same, live) = own k e h in
        (same, live, h, (λ owns. ground (arith, owns)), λ waits. refl)
    go none h =
        let (own, here) = new_entry-IsShared k p h (Reached-IsShared p r) in
        let there : lookup k (insert k p.next p.conns) ≡ some p.next =
          lookup-insert k k p.next p.conns ∙ rw (eq_bytes_refl k) refl in
        let (l, same, live) = own k p.next there in
        (
          same,
          live,
          there,
          (λ owns.
              ap (λ x. x.phase) (put-same p.next (record { key = k; phase = dialing }) p.entries)),
          λ waits. ground (arith, waits),
        )
