-- ===== src/Job/Template/Fill.antt =====
-- What a rendered template is made of.
use remote_command_orchestra.Common.{
  List, [], ◌∷◌, Bytes, codes, length, Dict, lookup, none, ◌⊎◌, inl, inr, ◌≡◌, ◌≢◌, refl, sym, ap,
  ◌∙◌, arith, Bool-cases, Option-cases, All, is_prefix, eq_bytes,
}
use remote_command_orchestra.Job.Template.{
  Piece, plain, ref, pieces, opens_from, ref_positions, ref_names, same_positions, syntax_error,
  references, missing_names, put_in, fill_in, fill_or_fail, render,
}

missing_names-All :
    (vars : Dict Bytes) (ps : List Piece)
    → missing_names vars ps ≡ []
    → All (λ n. lookup n vars ≢ none) (ref_names ps)
unfolding missing_names ref_names
missing_names-All vars [] e = tt
missing_names-All vars (plain c ∷ ps) e = missing_names-All vars ps e
missing_names-All vars (ref at name ∷ ps) e = elim (Option-cases (lookup name vars)) [
  | inl unset ↦
      absurd (
        let e' : name ∷ missing_names vars ps ≡ [] = rw (unset, missing_names) at e in ground arith)
  | inr (v, has) ↦
      ((λ n. ground (arith, n, has)), missing_names-All vars ps (rw (has, missing_names) at e))
]

filled :
    (vars : Dict Bytes) (ps : List Piece) (missing : List Bytes) (t : Bytes)
    → fill_or_fail vars ps missing ≡ inl t
    → missing ≡ []
unfolding fill_or_fail
filled vars ps [] t e = refl
filled vars ps (n ∷ ns) t e = ground arith

abbrev value_or : {A B : Type 0} → A → A ⊎ B → A
value_or a (inl b) = b
value_or a (inr err) = a

filled-eq :
    (vars : Dict Bytes) (ps : List Piece) (missing : List Bytes) (t : Bytes)
    → fill_or_fail vars ps missing ≡ inl t
    → t ≡ fill_in vars ps
unfolding fill_or_fail
filled-eq vars ps [] t e = sym (ap (λ k. value_or [] k) e)
filled-eq vars ps (n ∷ ns) t e = ground arith

-- A rendered text is a template, filled in; every variable that it refers to has a value.
render-inl :
    (s : Bytes) (vars : Dict Bytes) (t : Bytes)
    → render s vars ≡ inl t
    → (references s ≡ inl (ref_names (pieces s)))
      × (t ≡ fill_in vars (pieces s))
      × All (λ n. lookup n vars ≢ none) (ref_names (pieces s))
unfolding references render
render-inl s vars t e =
    elim (Bool-cases (same_positions (ref_positions (pieces s)) (opens_from (length s) 0 s))) [
      | inl fits ↦
          let r : references s ≡ inl (ref_names (pieces s)) = rw (fits, references) in
          let e' : fill_or_fail vars (pieces s) (missing_names vars (pieces s)) ≡ inl t =
            rw (r, render) at e in
          (
            r,
            filled-eq vars (pieces s) _ t e',
            missing_names-All vars (pieces s) (filled vars (pieces s) _ t e'),
          )
      | inr unfit ↦ absurd (
          let r : references s ≡ inr syntax_error = rw (unfit, references) in
          let e' = rw (r, render) at e in ground (arith, e'))
    ]

-- Where a text renders, it is a template, and every variable that it refers to has a value.
pub render_defined :
    (s : Bytes) (vars : Dict Bytes) (t : Bytes)
    → render s vars ≡ inl t
    → (names : List Bytes) × (references s ≡ inl names) × All (λ n. lookup n vars ≢ none) names
render_defined s vars t e =
    let (r, filled, all) = render-inl s vars t e in (ref_names (pieces s), r, all)

fill_in_agrees :
    (vars vars' : Dict Bytes) (ps : List Piece)
    → All (λ n. lookup n vars ≡ lookup n vars') (ref_names ps)
    → fill_in vars ps ≡ fill_in vars' ps
unfolding fill_in ref_names
fill_in_agrees vars vars' [] h = refl
fill_in_agrees vars vars' (plain c ∷ ps) h = ap (λ k. c ∷ k) (fill_in_agrees vars vars' ps h)
fill_in_agrees vars vars' (ref at name ∷ ps) h =
    ap (λ o. put_in o (fill_in vars ps)) h.0
    ∙ ap (λ k. put_in (lookup name vars') k) (fill_in_agrees vars vars' ps h.1)

-- A rendered text depends on the values of the variables that it refers to, and on no others.
pub render_agrees :
    (s : Bytes) (vars vars' : Dict Bytes) (names : List Bytes) (t t' : Bytes)
    → references s ≡ inl names
    → All (λ n. lookup n vars ≡ lookup n vars') names
    → render s vars ≡ inl t
    → render s vars' ≡ inl t'
    → t ≡ t'
render_agrees s vars vars' names t t' r h e e' =
    let (r1, f1, d1) = render-inl s vars t e in
    let (r2, f2, d2) = render-inl s vars' t' e' in
    let same : names ≡ ref_names (pieces s) = ap (λ k. value_or [] k) (sym r ∙ r1) in
    f1 ∙ (fill_in_agrees vars vars' (pieces s) (rw (sym same) h) ∙ sym f2)

render_test : render (codes "a{{ .x }}b") ((codes "x", codes "1") ∷ []) ≡ inl (codes "a1b")
unfolding render references is_prefix lookup eq_bytes
render_test = refl
