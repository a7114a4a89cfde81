-- ===== src/Examples/Transport.antt =====
-- The theorems on connections, on concrete inputs.
use remote_command_orchestra.Common.{
  ℕ, suc, true, false, [], ◌∷◌, ◌++◌, codes, lookup, insert, none, some, ◌≡◌, refl, arith, eq_bytes,
}
use remote_command_orchestra.Domain.{other}
use remote_command_orchestra.Sshx.Classify.{DialError}
use remote_command_orchestra.Sshx.HostKeys.{
  Library, Settings, Keys, key_error, accepted, load, add, verify,
}
use remote_command_orchestra.Sshx.HostKeys.Trusted.{Trusted, verify-Trusted}
use remote_command_orchestra.Sshx.Bastion.{
  dialing, Entry, Pool, entry_for, asked, Reached, empty, after,
}
use remote_command_orchestra.Sshx.Bastion.Shared.{Stale}
use remote_command_orchestra.Sshx.Bastion.Dials.{one_dial, entry_for-fresh}

abbrev blank : ℕ → Entry
blank e = record { key = []; phase = dialing }

abbrev none_yet : Pool
none_yet = record { conns = []; entries = blank; next = 0 }

-- Two hosts need the bastion "a", a third one "b".
abbrev busy : Pool
busy = (entry_for (codes "b") (entry_for (codes "a") (entry_for (codes "a") none_yet).1).1).1

busy-Reached : Reached busy
busy-Reached =
    after (after (after (empty blank) (asked (codes "a"))) (asked (codes "a"))) (asked (codes "b"))

one_dial_example : ◌≡◌ {A = ℕ} 0 0
unfolding entry_for lookup insert eq_bytes
one_dial_example = one_dial busy busy-Reached 0 0 (ground arith) (ground arith) refl refl refl

entry_for-fresh_example :
    let ((e, owns), q) = entry_for (codes "a") busy in
    ((q.entries e).key ≡ codes "a")
    × (¬ Stale (q.entries e).phase)
    × (lookup (codes "a") q.conns ≡ some e)
    × (owns ≡ true → (q.entries e).phase ≡ dialing)
    × (owns ≡ false → q ≡ busy)
entry_for-fresh_example = entry_for-fresh busy busy-Reached (codes "a")

-- A file that is asked for one line at most, and names nobody.
abbrev library : Library
library = record {
  stat = none;
  make_dir = none;
  create = none;
  parse = λ text. none;
  check = λ text host key. elim text [
    | [] ↦ key_error 0 (other (codes "unknown"))
    | c ∷ rest ↦ accepted
  ];
  append = none;
  line = λ host key. host ++ (codes " " ++ key);
  touch = λ t. suc t;
}

abbrev accepting : Settings
accepting = record { path = codes "/k"; dir = codes "/"; insecure = false; accept_new = true }

abbrev no_file : Keys
no_file = record { file = none; mod_time = 0; cached = none; cached_time = 0 }

verify-Trusted_example :
    Trusted library accepting []
      (codes "h")
      (codes "key")
      no_file
      (verify library accepting [] (codes "h") (codes "key") no_file).1
unfolding verify load add
verify-Trusted_example = verify-Trusted library accepting [] (codes "h") (codes "key") no_file refl

abbrev no_such_host : DialError
no_such_host = record {
  is_canceled = false;
  dns = some (record { name = codes "h"; err = codes "no such host"; is_timeout = false });
  is_refused = false;
  is_deadline = false;
  is_timeout = false;
  is_unreachable = false;
  text = codes "lookup h: no such host";
}
