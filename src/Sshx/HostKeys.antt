-- ===== src/Sshx/HostKeys.antt =====
-- HostKeys of internal/sshx/dial.go: load, Callback, verifier and add. The file of known hosts is
-- its text; parsing it, and looking a key up in it, are the knownhosts library's.
pub mod Trusted
use remote_command_orchestra.Common.{
  ℕ, ◌==◌, Bool, true, false, not, ◌&&◌, ◌||◌, List, [], ◌∷◌, ◌++◌, Bytes, codes, Option, none,
  some, ◌⊎◌, inl, inr, if◌then◌else◌,
}
use remote_command_orchestra.Domain.{Category, Failure, Error, classified}

-- What a check of a host's key says: nil; a *knownhosts.KeyError, with the number of the keys that
-- the file has for the host; or any other error.
pub data Verdict : Type 0 where
  accepted : Verdict
  key_error : ℕ → Error → Verdict
  refused : Error → Verdict

-- os and knownhosts. `stat` is the text of the error of os.Stat if the file is there but cannot be
-- read; `touch` is the modification time that a write at some time leaves.
pub record Library : Type 0 where
  pub stat : Option Bytes
  pub make_dir : Option Bytes
  pub create : Option Bytes
  pub parse : Bytes → Option Bytes
  pub check : Bytes → Bytes → Bytes → Verdict
  pub append : Option Bytes
  pub line : Bytes → Bytes → Bytes
  pub touch : ℕ → ℕ

pub record Settings : Type 0 where
  pub path : Bytes
  pub dir : Bytes
  pub insecure : Bool
  pub accept_new : Bool

-- The file, if it is there, its modification time, and what is cached: the text that the callback
-- was made from, and the time that the file had then.
pub record Keys : Type 0 where
  pub file : Option Bytes
  pub mod_time : ℕ
  pub cached : Option Bytes
  pub cached_time : ℕ

pub unknown_key : Bytes → Failure
unknown_key text = record { category = Category.host_key_unknown; reason = text }

-- `if err != nil`.
abbrev pub if_error : {A : Type 0} → Option Bytes → (Bytes → A) → A → A
if_error none failed done = done
if_error (some err) failed done = failed err

-- What a callback is made from: the text of the file.
module _ (lib : Library) (h : Settings) where
  unreadable : Bytes → Failure
  unreadable err =
      unknown_key (codes "known_hosts file " ++ (h.path ++ (codes " is not readable: " ++ err)))

  failed_to : Bytes → Bytes → Bytes → Failure
  failed_to what path err = unknown_key (what ++ (path ++ (codes ": " ++ err)))

  -- The end of load: the file is read again if it changed.
  load_text : Bytes → Keys → (Bytes ⊎ Failure) × Keys
  unfolding failed_to
  load_text text k =
      if_error (lib.parse text)
        (λ err. (inr (failed_to (codes "cannot load known_hosts ") h.path err), k))
        (inl text, record k { cached = some text; cached_time = k.mod_time })

  reload : Option Bytes → Bytes → Keys → (Bytes ⊎ Failure) × Keys
  unfolding load_text
  reload none text k = load_text text k
  reload (some cb) text k = if k.mod_time == k.cached_time then (inl cb, k) else load_text text k

  -- os.Stat on a file that is there.
  checked_stat : Bytes → Keys → (Bytes ⊎ Failure) × Keys
  unfolding reload unreadable
  checked_stat text k =
      if_error lib.stat (λ err. (inr (unreadable err), k)) (reload k.cached text k)

  -- A missing file is made, if new keys are accepted.
  created : Keys → (Bytes ⊎ Failure) × Keys
  unfolding checked_stat failed_to
  created k =
      if_error lib.make_dir (λ err. (inr (failed_to (codes "cannot create ") h.dir err), k))
        (if_error lib.create
          (λ err. (inr (failed_to (codes "cannot create known_hosts ") h.path err), k))
          (checked_stat [] (record k { file = some []; mod_time = lib.touch k.mod_time })))

  load_from : Option Bytes → Keys → (Bytes ⊎ Failure) × Keys
  unfolding created checked_stat
  load_from (some text) k = checked_stat text k
  load_from none k =
      if h.accept_new then created k else (inr (unreadable (codes "no such file or directory")), k)

  -- load.
  unfoldable pub load : Keys → (Bytes ⊎ Failure) × Keys
  unfolding load_from
  load k = load_from k.file k

  -- What add does when the fresh check still knows no key of the host, `text` being the file's.
  append_line : Bytes → Bytes → Bytes → Keys → Option Error × Keys
  unfolding failed_to
  append_line text host key k =
      if_error lib.append
        (λ err. (some (classified (failed_to (codes "cannot update known_hosts ") h.path err)), k))
        (
          none,
          record k {
            file = some (text ++ lib.line host key);
            mod_time = lib.touch k.mod_time;
            cached = none;
          },
        )

  decided : Bytes → Bytes → Bytes → Verdict → Keys → Option Error × Keys
  unfolding append_line
  decided text host key accepted k = (none, k)
  decided text host key (refused err) k = (some err, k)
  decided text host key (key_error wanted err) k =
      if wanted == 0 then append_line text host key k else (some err, k)

  added : Bytes → Bytes → (Bytes ⊎ Failure) × Keys → Option Error × Keys
  unfolding decided
  added host key (inr f, k) = (some (classified f), k)
  added host key (inl text, k) = decided text host key (lib.check text host key) k

  -- add: nil, or the error.
  unfoldable pub add : Bytes → Bytes → Keys → Option Error × Keys
  unfolding added
  add host key k = added host key (load (record k { cached = none }))

  strict_error : Verdict → Option Error
  strict_error accepted = none
  strict_error (refused err) = some err
  strict_error (key_error wanted err) = some err

  relaxed : Bytes → Bytes → Verdict → Keys → Option Error × Keys
  unfolding strict_error
  relaxed host key accepted k = (none, k)
  relaxed host key (refused err) k = (some err, k)
  relaxed host key (key_error wanted err) k = if wanted == 0 then add host key k else (some err, k)

  -- Callback for the first, verifier for the others: whether verification is off, and whether new
  -- keys are accepted.
  verify_as : Bool → Bool → Bytes → Bytes → Bytes → Keys → Option Error × Keys
  unfolding relaxed strict_error
  verify_as true new text host key k = (none, k)
  verify_as false false text host key k = (strict_error (lib.check text host key), k)
  verify_as false true text host key k = relaxed host key (lib.check text host key) k

  -- The check of the key that a host shows, against the text from which the callback was made.
  unfoldable pub verify : Bytes → Bytes → Bytes → Keys → Option Error × Keys
  unfolding verify_as
  verify text host key k = verify_as h.insecure h.accept_new text host key k
