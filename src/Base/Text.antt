-- ===== src/Base/Text.antt =====
-- The functions of Go's `strings` that the program calls, on bytes. `trim_space` knows the ASCII
-- white space only.
use Prim.Native.Nat.{ℕ, ◌+◌}
use mathlib.Core.Bool.{Bool, true, false, ◌&&◌, ◌||◌}
use mathlib.Core.Option.{Option, none, some}
use mathlib.Core.List.{List, [], ◌∷◌, ◌++◌, reverse, map}
use forgery.Base.Tests.{leb, nat_beq, if◌then◌else◌}
use forgery.Base.Strings.{Str}

abbrev pub is_space : ℕ → Bool
is_space c = nat_beq c 32 || (leb 9 c && leb c 13)

pub trim_left : Str → Str
trim_left [] = []
trim_left (c ∷ s) = let rest = trim_left s in if is_space c then rest else c ∷ s

unfoldable pub trim_space : Str → Str
unfolding trim_left
trim_space s = reverse (trim_left (reverse (trim_left s)))

-- what follows the prefix, if the string begins with it
unfoldable pub cut_prefix : Str → Str → Option Str
cut_prefix s [] = some s
cut_prefix [] (p ∷ ps) = none
cut_prefix (c ∷ s) (p ∷ ps) = let rest = cut_prefix s ps in if nat_beq c p then rest else none

abbrev is_some {ℓ} : {A : Type ℓ} → Option A → Bool
is_some none = false
is_some (some a) = true

abbrev or_else {ℓ} : {A : Type ℓ} → Option A → A → A
or_else none a = a
or_else (some b) a = b

abbrev pub has_prefix : Str → Str → Bool
has_prefix s p = is_some (cut_prefix s p)

-- strings.Contains
pub contains : Str → Str → Bool
contains [] p = has_prefix [] p
contains (c ∷ s) p = let later = contains s p in if has_prefix (c ∷ s) p then true else later

abbrev pub trim_prefix : Str → Str → Str
trim_prefix s p = or_else (cut_prefix s p) s

abbrev pub trim_suffix : Str → Str → Str
trim_suffix s p = elim (cut_prefix (reverse s) (reverse p)) [ none ↦ s | some r ↦ reverse r ]

abbrev put_front : ℕ → Option (Str × Str) → Option (Str × Str)
put_front c none = none
put_front c (some (a, b)) = some (c ∷ a, b)

-- strings.Cut at a single byte: the parts before and after the first one, if there is one
unfoldable pub cut : ℕ → Str → Option (Str × Str)
cut sep [] = none
cut sep (c ∷ s) = let rest = put_front c (cut sep s) in if nat_beq c sep then some ([], s) else rest

abbrev put_first : ℕ → List Str → List Str
put_first c [] = (c ∷ []) ∷ []
put_first c (p ∷ ps) = (c ∷ p) ∷ ps

-- strings.Split at a single byte: at least one part
pub split : ℕ → Str → List Str
split sep [] = [] ∷ []
split sep (c ∷ s) = let rest = split sep s in if nat_beq c sep then [] ∷ rest else put_first c rest

unfoldable pub join : Str → List Str → Str
join sep [] = []
join sep (p ∷ []) = p
join sep (p ∷ q ∷ ps) = p ++ sep ++ join sep (q ∷ ps)

abbrev pub to_lower_byte : ℕ → ℕ
to_lower_byte c = if leb b'A' c && leb c b'Z' then c + 32 else c

-- strings.ToLower on ASCII text
abbrev pub to_lower : Str → Str
to_lower = map to_lower_byte
