-- ===== src/Sshx/HostKeys/Trusted.antt =====
-- Which host keys are accepted.
use remote_command_orchestra.Common.{
  zero, suc, Bool, true, false, [], ◌++◌, Bytes, Option, none, some, ◌⊎◌, inl, inr, ◌≡◌, refl,
  arith, along, subst, sym, ap, ◌∙◌, Bool-cases,
}
use remote_command_orchestra.Domain.{Failure, Error}
use remote_command_orchestra.Sshx.HostKeys.{
  Verdict, accepted, key_error, refused, Library, Settings, Keys, load_text, reload, checked_stat,
  created, load_from, load, append_line, if_error, decided, added, add, strict_error, relaxed,
  verify_as, verify,
}

if_error-ok :
    {A : Type 0} (P : A → Type 0) (o : Option Bytes) (failed : Bytes → A) (done : A)
    → ((err : Bytes) → P (failed err))
    → P done
    → P (if_error o failed done)
if_error-ok P none failed done f d = d
if_error-ok P (some err) failed done f d = f err

-- The text of the file; a missing file has none.
abbrev pub text_of : Option Bytes → Bytes
text_of none = []
text_of (some text) = text

module _ (lib : Library) (h : Settings) where
  -- What load gives is the text the file had, and the file has it still.
  abbrev pub Read : Bytes → (Bytes ⊎ Failure) × Keys → Type 0
  Read had r = (text : Bytes) → r.0 ≡ inl text → (text ≡ had) × (r.1.file ≡ some had)

  Read-inr : (had : Bytes) (f : Failure) (k : Keys) → Read had (inr f, k)
  Read-inr had f k text e = absurd (ground (arith, e))

  load_text-Read :
      (text : Bytes) (k : Keys) → k.file ≡ some text → Read text (load_text lib h text k)
  unfolding load_text
  load_text-Read text k e =
      if_error-ok (Read text) (lib.parse text) _ _ (λ err. Read-inr text _ k)
        (λ t e'. along (λ x. (x ≡ text) × (k.file ≡ some text)) text t _ refl e' (refl, e))

  reload-Read :
      (o : Option Bytes) (text : Bytes) (k : Keys)
      → o ≡ none
      → k.file ≡ some text
      → Read text (reload lib h o text k)
  unfolding reload
  reload-Read none text k fresh e = load_text-Read text k e
  reload-Read (some cb) text k fresh e = absurd (ground (arith, fresh))

  checked_stat-Read :
      (text : Bytes) (k : Keys)
      → k.cached ≡ none
      → k.file ≡ some text
      → Read text (checked_stat lib h text k)
  unfolding checked_stat
  checked_stat-Read text k fresh e =
      if_error-ok (Read text) lib.stat _ _ (λ err. Read-inr text _ k)
        (reload-Read k.cached text k fresh e)

  created-Read : (k : Keys) → k.cached ≡ none → Read [] (created lib h k)
  unfolding created
  created-Read k fresh =
      if_error-ok (Read []) lib.make_dir _ _ (λ err. Read-inr [] _ k)
        (if_error-ok (Read []) lib.create _ _ (λ err. Read-inr [] _ k)
          (checked_stat-Read [] (record k { file = some []; mod_time = lib.touch k.mod_time }) fresh
            refl))

  load_from-Read :
      (o : Option Bytes) (k : Keys)
      → k.file ≡ o
      → k.cached ≡ none
      → Read (text_of o) (load_from lib h o k)
  unfolding load_from
  load_from-Read (some text) k e fresh = checked_stat-Read text k fresh e
  load_from-Read none k e fresh = elim (Bool-cases h.accept_new) [
    | inl new ↦ rw (new) (created-Read k fresh)
    | inr old ↦ rw (old) (Read-inr [] _ k)
  ]

  -- How add can end without an error, by the text that the file has when it is read again: it has
  -- the key by now and is left as it is, or it still has no key of the host and gets the line.
  abbrev pub Added : Bytes → Bytes → Bytes → Keys → Type 0
  Added text host key after =
      ((lib.check text host key ≡ accepted) × (after.file ≡ some text))
      ⊎ ((err : Error) × (lib.check text host key ≡ key_error 0 err)
          × (after.file ≡ some (text ++ lib.line host key)))

  append_line-file :
      (text host key : Bytes) (k : Keys)
      → (append_line lib h text host key k).0 ≡ none
      → (append_line lib h text host key k).1.file ≡ some (text ++ lib.line host key)
  unfolding append_line
  append_line-file text host key k =
      if_error-ok
        (λ (r : Option Error × Keys). r.0 ≡ none → r.1.file ≡ some (text ++ lib.line host key))
        lib.append _ _ (λ err e. absurd (ground (arith, e))) (λ e. refl)

  decided-Added :
      (text host key : Bytes) (v : Verdict) (k : Keys)
      → lib.check text host key ≡ v
      → k.file ≡ some text
      → (decided lib h text host key v k).0 ≡ none
      → Added text host key (decided lib h text host key v k).1
  unfolding decided append_line
  decided-Added text host key accepted k c f e = inl (c, f)
  decided-Added text host key (refused err) k c f e = absurd (ground (arith, e))
  decided-Added text host key (key_error zero err) k c f e =
      inr (err, c, append_line-file text host key k e)
  decided-Added text host key (key_error (suc n) err) k c f e = absurd (ground (arith, e))

  added-Added :
      (had host key : Bytes) (r : (Bytes ⊎ Failure) × Keys)
      → Read had r
      → (added lib h host key r).0 ≡ none
      → Added had host key (added lib h host key r).1
  unfolding added
  added-Added had host key (inr f, k) read e = absurd (ground (arith, e))
  added-Added had host key (inl text, k) read e =
      let (same, held) = read text refl in
      subst (λ t. Added t host key (decided lib h text host key (lib.check text host key) k).1) same
        (decided-Added text host key (lib.check text host key) k refl (held ∙ ap some (sym same)) e)

  -- Why a key is accepted, by the text of the file from which the callback was made, the file as
  -- it was and as it is left; a missing file has no text.
  abbrev pub Trusted : Bytes → Bytes → Bytes → Keys → Keys → Type 0
  Trusted text host key before after =
      ((h.insecure ≡ true) × (after ≡ before))
      ⊎ (((lib.check text host key ≡ accepted) × (after ≡ before))
          ⊎ ((h.accept_new ≡ true)
              × ((err : Error) × (lib.check text host key ≡ key_error 0 err))
              × Added (text_of before.file) host key after))

  strict_error-accepted : (v : Verdict) → strict_error lib h v ≡ none → v ≡ accepted
  unfolding strict_error
  strict_error-accepted accepted e = refl
  strict_error-accepted (refused err) e = absurd (ground (arith, e))
  strict_error-accepted (key_error wanted err) e = absurd (ground (arith, e))

  relaxed-Trusted :
      (text host key : Bytes) (v : Verdict) (k : Keys)
      → h.accept_new ≡ true
      → lib.check text host key ≡ v
      → (relaxed lib h host key v k).0 ≡ none
      → Trusted text host key k (relaxed lib h host key v k).1
  unfolding relaxed add load
  relaxed-Trusted text host key accepted k new c e = inr (inl (c, refl))
  relaxed-Trusted text host key (refused err) k new c e = absurd (ground (arith, e))
  relaxed-Trusted text host key (key_error (suc n) err) k new c e = absurd (ground (arith, e))
  relaxed-Trusted text host key (key_error zero err) k new c e = inr (
      inr (
        new,
        (err, c),
        added-Added (text_of k.file) host key (load lib h (record k { cached = none }))
            (load_from-Read k.file (record k { cached = none }) refl refl) e,
      ))

  verify_as-Trusted :
      (off new : Bool) (text host key : Bytes) (k : Keys)
      → h.insecure ≡ off
      → h.accept_new ≡ new
      → (verify_as lib h off new text host key k).0 ≡ none
      → Trusted text host key k (verify_as lib h off new text host key k).1
  unfolding verify_as
  verify_as-Trusted true new text host key k i a e = inl (i, refl)
  verify_as-Trusted false false text host key k i a e =
      inr (inl (strict_error-accepted (lib.check text host key) e, refl))
  verify_as-Trusted false true text host key k i a e =
      relaxed-Trusted text host key (lib.check text host key) k a refl e

-- A host's key is accepted in three cases only: verification is switched off; the text of known
-- hosts that the callback was made from has this key for the host; or new keys are to be accepted,
-- that text has no key of the host, and the file, read again, has this key by now, or still none.
-- In the first two cases nothing is written. In the last the file keeps all the text it had (none
-- if it was missing), and gets the line of the key behind it if it has no key of the host, else
-- nothing.
pub verify-Trusted :
    (lib : Library) (h : Settings) (text host key : Bytes) (k : Keys)
    → (verify lib h text host key k).0 ≡ none
    → Trusted lib h text host key k (verify lib h text host key k).1
unfolding verify
verify-Trusted lib h text host key k e =
    verify_as-Trusted lib h h.insecure h.accept_new text host key k refl refl e
