-- ===== src/Job/Model/Once.antt =====
-- What every action that Build makes of a step keeps.
use remote_command_orchestra.Common.{
  Bool, and_then-inl, along, true, false, ◌||◌, List, [], ◌∷◌, Bytes, codes, ◌++◌, Dict, is_nil,
  Option, none, some, pos, ltb_ℤ, ◌⊎◌, inl, inr, ◌≡◌, refl, arith, Bool-cases,
}
use remote_command_orchestra.Domain.{Failure, sensitive_mask}
use remote_command_orchestra.Job.Shell.{command, Action, remote}
use remote_command_orchestra.Job.Template.{render}
use remote_command_orchestra.Job.Model.{
  Copy, JobStep, Defaults, JobFile, Settings, first, reconnect_within, retries_of, render_all,
  start_action, copy_content, copy_action, copied, commanded, scripted, with_body, hide, hide_if,
  build_step, join_built, build_from, build,
}

-- What is settled before the switch on a step's kind, and left alone by it.
abbrev pub Kept : JobStep → Action → Type 0
Kept st a =
    (a.name ≡ st.name)
    × (a.sensitive ≡ st.sensitive)
    × (a.disconnect ≡ (st.reboot || st.disconnect))
    × (a.fire_and_forget ≡ st.fire_and_forget)
    × (((a.disconnect || a.fire_and_forget) ≡ true) → a.retries ≡ pos 0)
    × (a.disconnect ≡ true → ltb_ℤ (pos 0) a.reconnect_timeout ≡ true)

start_action-Kept :
    (d : Defaults) (st : JobStep) (s : Settings) (cs ns : List Bytes)
    → Kept st (start_action d st s cs ns)
unfolding start_action retries_of reconnect_within first
start_action-Kept d st s cs ns = (refl, refl, refl, refl, (λ h. rw (h) refl), λ h. ground arith)

copied-Kept :
    (st : JobStep) (a : Action) (c : Option Copy) (vars : Dict Bytes) (b : Action)
    → Kept st a
    → copied a c vars ≡ inl b
    → Kept st b
unfolding copied copy_action
copied-Kept st a none vars b k e = along (λ x. Kept st x) a b (inl a) refl e k
copied-Kept st a (some c) vars b k e =
    let (dest, from_dest, e1) = and_then-inl (render c.dest vars) _ b e in
    let (content, from_content, e2) = and_then-inl (copy_content c vars) _ b e1 in
    along (λ x. Kept st x) (copy_action a c dest content) b _ refl e2 k

with_body-Kept :
    (st : JobStep) (a : Action) (vars : Dict Bytes) (b : Action)
    → Kept st a
    → with_body a st vars ≡ inl b
    → Kept st b
unfolding with_body commanded scripted
with_body-Kept st a vars b k e = elim (Bool-cases (is_nil st.command)) [
  | inr has ↦
      let (shell, from_shell, e1) =
        and_then-inl (render st.command vars) _ b (rw (has, with_body) at e) in
      along (λ x. Kept st x) (commanded a shell) b _ refl e1 k
  | inl hasnt ↦ elim (Bool-cases (is_nil st.script)) [
    | inr has ↦
        along (λ x. Kept st x) (scripted a st vars) b _ refl (rw (hasnt, has, with_body) at e) k
    | inl none_either ↦ copied-Kept st a st.copy vars b k (rw (hasnt, none_either, with_body) at e)
  ]
]

-- What an action owes to its step: a command that may drop the connection, or is not waited for, is
-- not repeated; the wait for the host has a positive limit; a sensitive step is masked in reports;
-- its command travels as content, with a newline, and the line that is run on the host does not
-- depend on it.
abbrev pub Faithful : JobStep → Action → Type 0
Faithful st a =
    Kept st a
    × (st.sensitive ≡ true
        → (a.display ≡ sensitive_mask)
          × (a.kind ≡ command
              → (a.content ≡ some (a.shell ++ codes "\n"))
                × ((other body tmp : Bytes) (pw : Bool)
                    → remote a tmp pw
                      ≡ remote (record a { shell = other; content = some body }) tmp pw)))

-- An uploaded command is run by the name of its file alone.
remote-uploaded :
    (a : Action) (body : Bytes)
    → a.kind ≡ command
    → a.content ≡ some body
    → (other text tmp : Bytes) (pw : Bool)
    → remote a tmp pw ≡ remote (record a { shell = other; content = some text }) tmp pw
unfolding remote
remote-uploaded a body k c other text tmp pw = rw (k, c, remote) refl

hide_if-Faithful :
    (st : JobStep) (a : Action) (s : Bool) → a.sensitive ≡ s → Kept st a → Faithful st (hide_if s a)
unfolding hide_if
hide_if-Faithful st a true e k = (
  k,
  (λ h. (
    refl,
    λ c.
        let sent : (hide_if true a).content ≡ some (a.shell ++ codes "\n") = rw (c) refl in
        (sent, remote-uploaded (hide_if true a) (a.shell ++ codes "\n") c sent),
  )),
)
hide_if-Faithful st a false e k = (k, (λ h. ground arith))

hide-Faithful : (st : JobStep) (a : Action) → Kept st a → Faithful st (hide a)
unfolding hide
hide-Faithful st a k = hide_if-Faithful st a a.sensitive refl k

pub build_step-Faithful :
    (j : JobFile) (st : JobStep) (vars : Dict Bytes) (s : Settings) (b : Action)
    → build_step j st vars s ≡ inl b
    → Faithful st b
unfolding build_step
build_step-Faithful j st vars s b e =
    let (cs, from_cs, e1) = and_then-inl (render_all st.expect.contains vars) _ b e in
    let (ns, from_ns, e2) = and_then-inl (render_all st.expect.not_contains vars) _ b e1 in
    let a0 = start_action j.defaults st s cs ns in
    let (a, from_a, e3) = and_then-inl (with_body a0 st vars) (λ a. inl (hide a)) b e2 in
    along (λ x. Faithful st x) (hide a) b _ refl e3
      (hide-Faithful st a
        (with_body-Kept st a0 vars a (start_action-Kept j.defaults st s cs ns) from_a))

-- The actions and the steps, pair by pair.
abbrev pub AllFaithful : List JobStep → List Action → Type 0
AllFaithful [] [] = Unit
AllFaithful (st ∷ steps) (a ∷ actions) = Faithful st a × AllFaithful steps actions
AllFaithful _ _ = ⊥

join_built-Faithful :
    (st : JobStep) (steps : List JobStep) (x : Action ⊎ Bytes) (y : List Action ⊎ Failure)
    (out : List Action)
    → ((a : Action) → x ≡ inl a → Faithful st a)
    → ((actions : List Action) → y ≡ inl actions → AllFaithful steps actions)
    → join_built st x y ≡ inl out
    → AllFaithful (st ∷ steps) out
join_built-Faithful st steps (inl a) (inl actions) out f g e =
    along (λ k. AllFaithful (st ∷ steps) k) (a ∷ actions) out _ refl e (f a refl, g actions refl)
join_built-Faithful st steps (inl a) (inr err) out f g e = ground arith
join_built-Faithful st steps (inr err) y out f g e = ground arith

build_from-Faithful :
    (j : JobFile) (steps : List JobStep) (vars : Dict Bytes) (s : Settings) (out : List Action)
    → build_from j steps vars s ≡ inl out
    → AllFaithful steps out
unfolding build_from
build_from-Faithful j [] vars s out e = along (λ k. AllFaithful [] k) [] out _ refl e tt
build_from-Faithful j (st ∷ steps) vars s out e =
    join_built-Faithful st steps (build_step j st vars s) (build_from j steps vars s) out
      (λ a h. build_step-Faithful j st vars s a h)
      (λ actions h. build_from-Faithful j steps vars s actions h) e

-- Build makes one action of each step, in order. An action that may drop its connection or is not
-- waited for has no retries, whatever the job's defaults; one that may drop it waits a positive
-- time for the host; a sensitive one is masked, and if it is a command, this is its content, with a
-- newline behind it, and Remote's line is the same whatever the command and its content are.
pub build-Faithful :
    (j : JobFile) (vars : Dict Bytes) (s : Settings) (actions : List Action)
    → build j vars s ≡ inl actions
    → AllFaithful j.steps actions
unfolding build
build-Faithful j vars s actions e = build_from-Faithful j j.steps vars s actions e
