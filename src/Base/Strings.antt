-- ===== src/Base/Strings.antt =====
-- Go strings: sequences of bytes. A literal of the source is `text "…"`; all of them are ASCII.
use Prim.Native.Nat.{ℕ}
use Prim.Native.Char.{code}
use Prim.Native.String.{String}
use mathlib.Core.Path.{◌≡◌, refl, sym, ◌∙◌}
use mathlib.Core.Logic.{◌↔◌, ◌≢◌}
use mathlib.Core.Bool.{Bool, true, false, ◌&&◌, false≢true}
use mathlib.Core.List.{List, [], ◌∷◌}
use native.Mathlib.Omega.{arith}
use forgery.Base.Tests.{nat_beq, Comparable}

abbrev pub Str : Type 0
Str = List ℕ

abbrev pub text : String → Str
text String.[] = []
text (String.◌∷◌ c s) = code c ∷ text s

abbrev pub str_beq : Str → Str → Bool
str_beq [] [] = true
str_beq [] (d ∷ t) = false
str_beq (c ∷ s) [] = false
str_beq (c ∷ s) (d ∷ t) = nat_beq c d && str_beq s t

pub str_beq_iff : (s t : Str) → (str_beq s t ≡ true) ↔ (s ≡ t)
str_beq_iff [] [] = (λ _. refl, λ _. refl)
str_beq_iff [] (d ∷ t) = (λ h. cc, λ h. cc)
str_beq_iff (c ∷ s) [] = (λ h. cc, λ h. cc)
str_beq_iff (c ∷ s) (d ∷ t) =
    (λ h. ground (arith, str_beq_iff s t), λ h. ground (arith, str_beq_iff s t))

instance abbrev pub str_eq : Comparable Str
str_eq = record { equal = str_beq; equal_iff = str_beq_iff }

pub str_ne : (s t : Str) → str_beq s t ≡ false → s ≢ t
str_ne s t h e = false≢true (sym h ∙ (str_beq_iff s t).1 e)
