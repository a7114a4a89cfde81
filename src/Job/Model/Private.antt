-- ===== src/Job/Model/Private.antt =====
-- Sensitive variables and what is shown of a step, from Validate to Build.
use remote_command_orchestra.Common.{
  Bool, true, false, List, [], ◌∷◌, ◌++◌, Bytes, codes, is_nil, Dict, lookup, Option, none, some,
  and_then-inl, along, ◌⊎◌, inl, inr, ◌≡◌, refl, sym, ap, subst, ◌∙◌, arith, All, Bool-cases,
}
use remote_command_orchestra.Domain.{Failure}
use remote_command_orchestra.Job.Shell.{Action}
use remote_command_orchestra.Job.Template.{render}
use remote_command_orchestra.Job.Template.Fill.{render_agrees}
use remote_command_orchestra.Job.Variables.{Variable}
use remote_command_orchestra.Job.Model.{
  Copy, JobStep, JobFile, Settings, render_all, start_action, copy_mode, copy_content, copy_action,
  copied, commanded, scripted, with_body, hide_if, hide, build_step, build, build_from, join_built,
}
use remote_command_orchestra.Job.Model.Once.{build_step-Faithful}
use remote_command_orchestra.Job.Validate.{Floats, texts_of, validate}
use remote_command_orchestra.Job.Validate.Accepted.{Allowed, Shows}
use remote_command_orchestra.Job.Validate.Sound.{FitSteps, validate-FitSteps}

All-left : (P : Bytes → Type 0) (xs ys : List Bytes) → All P (xs ++ ys) → All P xs
All-left P [] ys h = tt
All-left P (x ∷ xs) ys h = (h.0, All-left P xs ys h.1)

All-right : (P : Bytes → Type 0) (xs ys : List Bytes) → All P (xs ++ ys) → All P ys
All-right P [] ys h = h
All-right P (x ∷ xs) ys h = All-right P xs ys h.1

-- The two values of every variable that is not sensitive are the same.
abbrev pub SameOpen : Dict Variable → Dict Bytes → Dict Bytes → Type 0
SameOpen variables vars vars' =
    (n : Bytes) (v : Variable)
    → lookup n variables ≡ some v
    → v.sensitive ≡ false
    → lookup n vars ≡ lookup n vars'

-- What the program may print of an action.
abbrev pub Alike : Action → Action → Type 0
Alike a b =
    (a.display ≡ b.display)
    × (a.shell ≡ b.shell)
    × (a.dest ≡ b.dest)
    × (a.contains ≡ b.contains)
    × (a.not_contains ≡ b.not_contains)
    × (a.sensitive ≡ b.sensitive)

-- Two actions of a step show the same; those of a step that is not sensitive are alike.
abbrev pub ShownAlike : JobStep → Action → Action → Type 0
ShownAlike st b b' = (b.display ≡ b'.display) × (st.sensitive ≡ false → Alike b b')

abbrev pub AllShownAlike : List JobStep → List Action → List Action → Type 0
AllShownAlike [] [] [] = Unit
AllShownAlike (st ∷ steps) (b ∷ bs) (b' ∷ bs') = ShownAlike st b b' × AllShownAlike steps bs bs'
AllShownAlike _ _ _ = ⊥

module _ (variables : Dict Variable) (vars vars' : Dict Bytes)
    (same : SameOpen variables vars vars') where
  -- A text that renders to the same under both.
  abbrev Equal : Bytes → Type 0
  Equal t = (r r' : Bytes) → render t vars ≡ inl r → render t vars' ≡ inl r' → r ≡ r'

  Allowed-same :
      (names : List Bytes)
      → All (Allowed variables false) names
      → All (λ n. lookup n vars ≡ lookup n vars') names
  Allowed-same [] h = tt
  Allowed-same (n ∷ names) ((v, known, open_only), h) = (
    same n v known (elim (Bool-cases v.sensitive) [
      | inl secret ↦ absurd (let e = open_only secret in ground (arith, e))
      | inr plain ↦ plain
    ]),
    Allowed-same names h,
  )

  Shows-Equal : (t : Bytes) → Shows variables false t → Equal t
  Shows-Equal t (names, refs, all) r r' e e' =
      render_agrees t vars vars' names r r' refs (Allowed-same names all) e e'

  Shows-AllEqual : (ts : List Bytes) → All (Shows variables false) ts → All Equal ts
  Shows-AllEqual [] h = tt
  Shows-AllEqual (t ∷ ts) h = (Shows-Equal t h.0, Shows-AllEqual ts h.1)

  render_all-Equal :
      (ts : List Bytes) (rs rs' : List Bytes)
      → All Equal ts
      → render_all ts vars ≡ inl rs
      → render_all ts vars' ≡ inl rs'
      → rs ≡ rs'
  unfolding render_all
  render_all-Equal [] rs rs' h e e' =
      along (λ k. k ≡ rs') [] rs (inl []) refl e (along (λ k. [] ≡ k) [] rs' (inl []) refl e' refl)
  render_all-Equal (t ∷ ts) rs rs' h e e' =
      let (r, from_r, e1) = and_then-inl (render t vars) _ rs e in
      let (q, from_q, e2) = and_then-inl (render_all ts vars) _ rs e1 in
      let (r', from_r', e1') = and_then-inl (render t vars') _ rs' e' in
      let (q', from_q', e2') = and_then-inl (render_all ts vars') _ rs' e1' in
      let head = h.0 r r' from_r from_r' in
      let tail = render_all-Equal ts q q' h.1 from_q from_q' in
      along (λ k. k ≡ rs') (r ∷ q) rs _ refl e2
        (along (λ k. r ∷ q ≡ k) (r' ∷ q') rs' _ refl e2'
          (ap (λ k. k ∷ q) head ∙ ap (λ k. r' ∷ k) tail))

  copied-Alike :
      (a a' : Action) (c : Option Copy) (b b' : Action)
      → Alike a a'
      → ((x : Copy) → c ≡ some x → Equal x.dest)
      → copied a c vars ≡ inl b
      → copied a' c vars' ≡ inl b'
      → Alike b b'
  unfolding copied copy_action
  copied-Alike a a' none b b' k h e e' =
      along (λ x. Alike x b') a b (inl a) refl e (along (λ x. Alike a x) a' b' (inl a') refl e' k)
  copied-Alike a a' (some c) b b' k h e e' =
      let (d, from_d, e1) = and_then-inl (render c.dest vars) _ b e in
      let (t, from_t, e2) = and_then-inl (copy_content c vars) _ b e1 in
      let (d', from_d', e1') = and_then-inl (render c.dest vars') _ b' e' in
      let (t', from_t', e2') = and_then-inl (copy_content c vars') _ b' e1' in
      let dest = h c refl d d' from_d from_d' in
      along (λ x. Alike x b') (copy_action a c d t) b _ refl e2
        (along (λ x. Alike (copy_action a c d t) x) (copy_action a' c d' t') b' _ refl e2'
          (
            ap
                (λ x.
                  codes "copy "
                  ++ (c.src
                      ++ (codes " -> " ++ (x ++ (codes " (mode " ++ (copy_mode c ++ codes ")"))))))
                dest,
            k.1,
            dest,
            k.3,
            k.4,
            k.5,
          ))

  with_body-Alike :
      (a a' : Action) (st : JobStep) (b b' : Action)
      → Alike a a'
      → Equal st.command
      → ((x : Copy) → st.copy ≡ some x → Equal x.dest)
      → with_body a st vars ≡ inl b
      → with_body a' st vars' ≡ inl b'
      → Alike b b'
  unfolding with_body commanded scripted
  with_body-Alike a a' st b b' k hc h e e' = elim (Bool-cases (is_nil st.command)) [
    | inr has ↦
        let (s, from_s, e1) =
          and_then-inl (render st.command vars) _ b (rw (has, with_body) at e) in
        let (s', from_s', e1') =
          and_then-inl (render st.command vars') _ b' (rw (has, with_body) at e') in
        let shell = hc s s' from_s from_s' in
        along (λ x. Alike x b') (commanded a s) b _ refl e1
          (along (λ x. Alike (commanded a s) x) (commanded a' s') b' _ refl e1'
            (shell, shell, k.2, k.3, k.4, k.5))
    | inl hasnt ↦ elim (Bool-cases (is_nil st.script)) [
      | inr has ↦
          along (λ x. Alike x b') (scripted a st vars) b _ refl (rw (hasnt, has, with_body) at e)
            (along (λ x. Alike (scripted a st vars) x) (scripted a' st vars') b' _ refl
              (rw (hasnt, has, with_body) at e') (refl, k.1, k.2, k.3, k.4, k.5))
      | inl none_either ↦
          copied-Alike a a' st.copy b b' k h (rw (hasnt, none_either, with_body) at e)
            (rw (hasnt, none_either, with_body) at e')
    ]
  ]

  hide_if-Alike : (k : Bool) (a a' : Action) → Alike a a' → Alike (hide_if k a) (hide_if k a')
  unfolding hide_if
  hide_if-Alike true a a' h = (refl, h.1, h.2, h.3, h.4, h.5)
  hide_if-Alike false a a' h = h

  hide-Alike : (a a' : Action) → Alike a a' → Alike (hide a) (hide a')
  unfolding hide
  hide-Alike a a' h =
      subst (λ k. Alike (hide_if a.sensitive a) (hide_if k a')) h.5
        (hide_if-Alike a.sensitive a a' h)

  -- The same start of an action under both.
  start-Alike :
      (j : JobFile) (st : JobStep) (s : Settings) (cs cs' ns ns' : List Bytes)
      → cs ≡ cs'
      → ns ≡ ns'
      → Alike (start_action j.defaults st s cs ns) (start_action j.defaults st s cs' ns')
  unfolding start_action
  start-Alike j st s cs cs' ns ns' e k = (refl, refl, refl, e, k, refl)

  texts_split :
      (st : JobStep)
      → All Equal (texts_of st)
      → Equal st.command
        × All Equal st.expect.contains
        × All Equal st.expect.not_contains
        × ((x : Copy) → st.copy ≡ some x → Equal x.dest)
  texts_split st h =
      let parts = h.1 in
      let texts = st.expect.contains ++ st.expect.not_contains in
      let of_copy = λ (o : Option Copy).
        (let l : List Bytes = elim o [ none ↦ [] | some c ↦ c.dest ∷ [] ] in l) in
      let entries = All-left Equal texts (of_copy st.copy) parts in
      (
        h.0,
        All-left Equal st.expect.contains st.expect.not_contains entries,
        All-right Equal st.expect.contains st.expect.not_contains entries,
        λ x e.
            (subst (λ o. All Equal (of_copy o)) e
              (All-right Equal texts (of_copy st.copy) parts)).0,
      )

  build_step-Alike :
      (j : JobFile) (st : JobStep) (s : Settings) (b b' : Action)
      → All Equal (texts_of st)
      → build_step j st vars s ≡ inl b
      → build_step j st vars' s ≡ inl b'
      → Alike b b'
  unfolding build_step
  build_step-Alike j st s b b' h e e' =
      let (hc, hcs, hns, hd) = texts_split st h in
      let (cs, from_cs, e1) = and_then-inl (render_all st.expect.contains vars) _ b e in
      let (ns, from_ns, e2) = and_then-inl (render_all st.expect.not_contains vars) _ b e1 in
      let a0 = start_action j.defaults st s cs ns in
      let (a, from_a, e3) = and_then-inl (with_body a0 st vars) (λ a. inl (hide a)) b e2 in
      let (cs', from_cs', e1') = and_then-inl (render_all st.expect.contains vars') _ b' e' in
      let (ns', from_ns', e2') = and_then-inl (render_all st.expect.not_contains vars') _ b' e1' in
      let a0' = start_action j.defaults st s cs' ns' in
      let (a', from_a', e3') = and_then-inl (with_body a0' st vars') (λ a. inl (hide a)) b' e2' in
      let same_start =
        start-Alike j st s cs cs' ns ns'
          (render_all-Equal st.expect.contains cs cs' hcs from_cs from_cs')
          (render_all-Equal st.expect.not_contains ns ns' hns from_ns from_ns') in
      along (λ x. Alike x b') (hide a) b _ refl e3
        (along (λ x. Alike (hide a) x) (hide a') b' _ refl e3'
          (hide-Alike a a' (with_body-Alike a0 a0' st a a' same_start hc hd from_a from_a')))

  build_step-ShownAlike :
      (j : JobFile) (st : JobStep) (s : Settings) (b b' : Action)
      → All (Shows variables st.sensitive) (texts_of st)
      → build_step j st vars s ≡ inl b
      → build_step j st vars' s ≡ inl b'
      → ShownAlike st b b'
  build_step-ShownAlike j st s b b' shown e e' = elim (Bool-cases st.sensitive) [
    | inl secret ↦ (
      ((build_step-Faithful j st vars s b e).1 secret).0
          ∙ sym ((build_step-Faithful j st vars' s b' e').1 secret).0,
      λ plain. absurd (ground (arith, secret, plain)),
    )
    | inr plain ↦
        let alike =
          build_step-Alike j st s b b'
            (Shows-AllEqual (texts_of st)
              (subst (λ k. All (Shows variables k) (texts_of st)) plain shown))
            e e' in
        (alike.0, λ p. alike)
  ]

  join_built-alike :
      (st : JobStep) (steps : List JobStep) (x x' : Action ⊎ Bytes) (y y' : List Action ⊎ Failure)
      (out out' : List Action)
      → ((b b' : Action) → x ≡ inl b → x' ≡ inl b' → ShownAlike st b b')
      → ((bs bs' : List Action) → y ≡ inl bs → y' ≡ inl bs' → AllShownAlike steps bs bs')
      → join_built st x y ≡ inl out
      → join_built st x' y' ≡ inl out'
      → AllShownAlike (st ∷ steps) out out'
  join_built-alike st steps (inl b) (inl b') (inl bs) (inl bs') out out' f g e e' =
      along (λ k. AllShownAlike (st ∷ steps) k out') (b ∷ bs) out _ refl e
        (along (λ k. AllShownAlike (st ∷ steps) (b ∷ bs) k) (b' ∷ bs') out' _ refl e'
          (f b b' refl refl, g bs bs' refl refl))
  join_built-alike st steps (inr err) x' y y' out out' f g e e' = ground arith
  join_built-alike st steps (inl b) x' (inr err) y' out out' f g e e' = ground arith
  join_built-alike st steps (inl b) (inr err) (inl bs) y' out out' f g e e' = ground arith
  join_built-alike st steps (inl b) (inl b') (inl bs) (inr err) out out' f g e e' = ground arith

  build_from-alike :
      (j : JobFile) (seen : List Bytes) (steps : List JobStep) (s : Settings) (bs bs' : List Action)
      → FitSteps variables seen steps
      → build_from j steps vars s ≡ inl bs
      → build_from j steps vars' s ≡ inl bs'
      → AllShownAlike steps bs bs'
  unfolding build_from
  build_from-alike j seen [] s bs bs' fit e e' =
      along (λ k. AllShownAlike [] k bs') [] bs _ refl e
        (along (λ k. AllShownAlike [] [] k) [] bs' _ refl e' tt)
  build_from-alike j seen (st ∷ steps) s bs bs' (fit, fresh, fired, rest) e e' =
      join_built-alike st steps (build_step j st vars s) (build_step j st vars' s)
        (build_from j steps vars s) (build_from j steps vars' s) bs bs'
        (λ b b' h h'. build_step-ShownAlike j st s b b' fit.shown h h')
        (λ cs cs' h h'. build_from-alike j (st.name ∷ seen) steps s cs cs' rest h h') e e'

-- For a job that Validate accepts, the values of sensitive variables show in no preview and no
-- report of a command: two builds that differ in those values alone display the same for every
-- step, and for a step that is not sensitive they run the same command and expect the same texts.
pub build_private :
    {F : Type 0} (fl : Floats F) (compile : Bytes → Option Bytes) (j : JobFile)
    (vars vars' : Dict Bytes) (s : Settings) (bs bs' : List Action)
    → validate fl compile j ≡ []
    → SameOpen j.variables vars vars'
    → build j vars s ≡ inl bs
    → build j vars' s ≡ inl bs'
    → AllShownAlike j.steps bs bs'
unfolding build
build_private fl compile j vars vars' s bs bs' valid same e e' =
    build_from-alike j.variables vars vars' same j [] j.steps s bs bs'
      (validate-FitSteps fl compile j valid).1 e e'
