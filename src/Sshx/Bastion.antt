-- ===== src/Sshx/Bastion.antt =====
-- internal/sshx/bastion.go: the pool of connections to bastions. Its mutex makes each of its
-- critical sections atomic, so they are functions, and the calls interleave as steps. An entry and
-- a client are numbers, for the pointers of the source.
pub mod Shared
pub mod Dials
use remote_command_orchestra.Common.{
  ℕ, suc, ◌+◌, ◌<◌, ◌==◌, Bool, true, false, List, [], ◌∷◌, ◌++◌, Bytes, Dict, lookup, insert,
  delete, Option, none, some, if◌then◌else◌, ◌≡◌,
}

-- What dial returned: c or err.
pub data Outcome : Type 0 where
  client : ℕ → Outcome
  failure : Bytes → Outcome

-- How far the owner of an entry has come in get: it dials; c and err are set; the failed entry is
-- evicted, or the watcher of the connection started; ready is closed.
pub data Phase : Type 0 where
  dialing : Phase
  answered handled ready : Outcome → Phase

pub record Entry : Type 0 where
  pub key : Bytes
  pub phase : Phase

-- The map, the entries ever made, and the number of the next one.
pub record Pool : Type 0 where
  pub conns : Dict ℕ
  pub entries : ℕ → Entry
  pub next : ℕ

abbrev pub put : ℕ → Entry → (ℕ → Entry) → ℕ → Entry
put e x entries i = if e == i then x else entries i

abbrev pub set_phase : ℕ → Phase → Pool → Pool
set_phase e ph p = record p { entries = put e (record (p.entries e) { phase = ph }) p.entries }

pub new_entry : Bytes → Pool → Pool
new_entry k p = record {
  conns = insert k p.next p.conns;
  entries = put p.next (record { key = k; phase = dialing }) p.entries;
  next = suc p.next;
}

pub entry_or_new : Bytes → Option ℕ → Pool → (ℕ × Bool) × Pool
unfolding new_entry
entry_or_new k (some e) p = ((e, false), p)
entry_or_new k none p = ((p.next, true), new_entry k p)

-- The first critical section of get: the entry that the caller waits for, and whether it is its
-- owner, which dials.
unfoldable pub entry_for : Bytes → Pool → (ℕ × Bool) × Pool
unfolding entry_or_new
entry_for k p = entry_or_new k (lookup k p.conns) p

abbrev is_entry : ℕ → Option ℕ → Bool
is_entry e none = false
is_entry e (some f) = e == f

-- evict.
unfoldable pub evict : Bytes → ℕ → Pool → Pool
evict k e p = if is_entry e (lookup k p.conns) then record p { conns = delete k p.conns } else p

-- e.c == c: the field is nil until dial has returned a client.
abbrev pub client_of : Outcome → Option ℕ
client_of (client c) = some c
client_of (failure err) = none

abbrev pub current : Phase → Option ℕ
current dialing = none
current (answered o) = client_of o
current (handled o) = client_of o
current (ready o) = client_of o

abbrev has_client : ℕ → Pool → Option ℕ → Bool
has_client c p none = false
has_client c p (some e) = is_entry c (current (p.entries e).phase)

-- broken, after the error was found to be no refusal of the bastion. The client is closed too.
unfoldable pub broken : Bytes → ℕ → Pool → Pool
broken k c p =
    if has_client c p (lookup k p.conns) then record p { conns = delete k p.conns } else p

-- What the owner does between dial and close(e.ready).
unfoldable pub handle : ℕ → Outcome → Pool → Pool
handle e (client c) p = p
handle e (failure err) p = evict (p.entries e).key e p

closed_by : Phase → List ℕ
closed_by (ready (client c)) = c ∷ []
closed_by _ = []

clients_in : (ℕ → Entry) → Dict ℕ → List ℕ
clients_in entries [] = []
clients_in entries ((k, e) ∷ m) = closed_by (entries e).phase ++ clients_in entries m

-- Close: the clients that it closes, and the pool after it. It is called when the run is over.
pub close_all : Pool → List ℕ × Pool
unfolding clients_in closed_by
close_all p = (clients_in p.entries p.conns, record p { conns = [] })

-- What get returns to a caller that waits for an entry, once there is something to return.
abbrev pub result : ℕ → Pool → Option Outcome
result e p = elim (p.entries e).phase [ ready o ↦ some o | _ ↦ none ]

-- The steps of all goroutines during a run.
pub data Step (p : Pool) : Pool → Type 0 where
  -- Someone calls get.
  asked : (k : Bytes) → Step p (entry_for k p).1
  -- The owner's dial returns, with whatever the network gave.
  dialled :
      (e : ℕ) (o : Outcome)
      → e < p.next
      → (p.entries e).phase ≡ dialing
      → Step p (set_phase e (answered o) p)
  settled :
      (e : ℕ) (o : Outcome)
      → e < p.next
      → (p.entries e).phase ≡ answered o
      → Step p (set_phase e (handled o) (handle e o p))
  published :
      (e : ℕ) (o : Outcome)
      → e < p.next
      → (p.entries e).phase ≡ handled o
      → Step p (set_phase e (ready o) p)
  -- The watcher finds the connection closed.
  lost :
      (e c : ℕ)
      → e < p.next
      → current (p.entries e).phase ≡ some c
      → Step p (evict (p.entries e).key e p)
  -- A caller could not use a client for another reason than a refusal of its target.
  broke : (k : Bytes) (c : ℕ) → Step p (broken k c p)

pub data Reached : Pool → Type 0 where
  empty : (entries : ℕ → Entry) → Reached (record { conns = []; entries = entries; next = 0 })
  after : {p q : Pool} → Reached p → Step p q → Reached q
