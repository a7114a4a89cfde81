-- ===== src/Common/Results.antt =====
-- Results: a value, or an error.
use mathlib.Core.Path.{◌≡◌, refl, sym, ap, subst, ◌∙◌}
use mathlib.Core.Logic.{◌⊎◌, inl, inr}
use native.Mathlib.Omega.{arith}

-- `if err != nil { return err }` between two steps.
abbrev pub and_then : {A B E : Type 0} → A ⊎ E → (A → B ⊎ E) → B ⊎ E
and_then (inl a) f = f a
and_then (inr err) f = inr err

pub and_then-inl :
    {A B E : Type 0} (x : A ⊎ E) (f : A → B ⊎ E) (b : B)
    → and_then x f ≡ inl b
    → (a : A) × (x ≡ inl a) × (f a ≡ inl b)
and_then-inl (inl a) f b e = (a, refl, e)
and_then-inl (inr err) f b e = ground arith

abbrev value_or : {A B : Type 0} → A → A ⊎ B → A
value_or a (inl b) = b
value_or a (inr err) = a

-- What holds of the value before a transfer along an equation of results holds behind it.
pub along :
    {A B : Type 0} (P : A → Type 0) (a b : A) (x : A ⊎ B) → x ≡ inl a → x ≡ inl b → P a → P b
along P a b x e e' = subst P (ap (λ k. value_or a k) (sym e ∙ e'))

abbrev error_or : {A B : Type 0} → B → A ⊎ B → B
error_or b (inl a) = b
error_or b (inr err) = err

-- The same for an equation of errors.
pub across :
    {A B : Type 0} (P : B → Type 0) (b c : B) (x : A ⊎ B) → x ≡ inr b → x ≡ inr c → P b → P c
across P b c x e e' = subst P (ap (λ k. error_or b k) (sym e ∙ e'))
