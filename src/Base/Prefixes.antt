-- ===== src/Base/Prefixes.antt =====
-- What strings.HasPrefix says, and lists all of whose items have a property.
use mathlib.Core.Path.{◌≡◌, refl, sym, subst, ◌∙◌}
use mathlib.Core.Logic.{inl, inr}
use mathlib.Core.Bool.{true}
use mathlib.Core.Option.{some}
use mathlib.Core.List.{List, [], ◌∷◌, ◌++◌, append_assoc}
use native.Mathlib.Omega.{arith}
use forgery.Base.Tests.{Option-cases}
use forgery.Base.Lists.{All, In}
use forgery.Base.Strings.{Str}
use forgery.Base.Text.{cut_prefix, has_prefix}

pub cut_prefix-append : (p s : Str) → cut_prefix (p ++ s) p ≡ some s
unfolding cut_prefix
cut_prefix-append [] s = refl
cut_prefix-append (c ∷ p) s = ground (arith, cut_prefix-append p s)

cut_prefix-some : (s p t : Str) → cut_prefix s p ≡ some t → s ≡ p ++ t
unfolding cut_prefix
cut_prefix-some s [] t h = ground arith
cut_prefix-some [] (c ∷ p) t h = cc
cut_prefix-some (d ∷ s) (c ∷ p) t h = ground (arith, cut_prefix-some s p t)

-- A text that begins with a prefix is the prefix and a rest.
pub has_prefix-rest : (s p : Str) → has_prefix s p ≡ true → (t : Str) × (s ≡ p ++ t)
has_prefix-rest s p h = elim (Option-cases (cut_prefix s p)) [
  | inl none_of ↦ ground arith
  | inr (t, e) ↦ (t, cut_prefix-some s p t e)
]

pub has_prefix-append : (p s : Str) → has_prefix (p ++ s) p ≡ true
has_prefix-append p s = rw (has_prefix, cut_prefix-append p s) refl

-- A text that begins with a longer prefix begins with a shorter one.
pub has_prefix-shorter : (s p q : Str) → has_prefix s (p ++ q) ≡ true → has_prefix s p ≡ true
has_prefix-shorter s p q h =
    let (t, e) = has_prefix-rest s (p ++ q) h in
    subst (λ u. has_prefix u p ≡ true) (sym (e ∙ append_assoc p q t)) (has_prefix-append p (q ++ t))

pub All-In {ℓ} : {A : Type 0} (P : A → Type ℓ) (xs : List A) → All P xs → (x : A) → In x xs → P x
All-In P [] h x i = absurd i
All-In P (y ∷ xs) (p, h) x (inl same) = subst P same p
All-In P (y ∷ xs) (p, h) x (inr later) = All-In P xs h x later
