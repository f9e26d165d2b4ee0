-- ===== src/Token.antt =====
-- internal/token/token.go: random tokens, and their form in hexadecimal. The system's source of
-- randomness is a parameter: asked for n bytes it gives them, or fails.
pub mod Preview
use forgery.Base.{
  ℕ, zero, suc, ◌+◌, ◌*◌, ◌/◌, ◌%◌, ◌<◌, ◌≡◌, ℤ, pos, negsuc, refl, arith, Option, none, some, List,
  [], ◌∷◌, Str, length, All, ltb, if◌then◌else◌,
}

pub data TokenError : Type 0 where
  non_positive_length : ℤ → TokenError
  rand_failed : TokenError

pub data Generated {ℓ} (A : Type ℓ) : Type ℓ where
  made : A → Generated A
  failed : TokenError → Generated A

abbrev digit : ℕ → ℕ
digit d = if ltb d 10 then b'0' + d else 87 + d

-- encoding/hex: two lowercase digits for a byte
unfoldable pub encode_to_string : List ℕ → Str
encode_to_string [] = []
encode_to_string (b ∷ bs) = digit (b / 16) ∷ digit (b % 16) ∷ encode_to_string bs

module _ (rand : ℕ → Option (List ℕ)) where
  unfoldable pub filled : Option (List ℕ) → Generated (List ℕ)
  filled none = failed rand_failed
  filled (some b) = made b

  unfoldable pub generate_bytes : ℤ → Generated (List ℕ)
  unfolding filled
  generate_bytes (pos zero) = failed (non_positive_length (pos 0))
  generate_bytes (pos (suc n)) = filled (rand (suc n))
  generate_bytes (negsuc n) = failed (non_positive_length (negsuc n))

  unfoldable pub hex_of : Generated (List ℕ) → Generated Str
  hex_of (made raw) = made (encode_to_string raw)
  hex_of (failed e) = failed e

  unfoldable pub generate : Generated Str
  unfolding generate_bytes hex_of
  generate = hex_of (generate_bytes (pos 32))

length-encode_to_string : (bs : List ℕ) → length (encode_to_string bs) ≡ 2 * length bs
unfolding encode_to_string
length-encode_to_string [] = refl
length-encode_to_string (b ∷ bs) = omega (arith, length-encode_to_string bs)

abbrev pub IsByte : ℕ → Type 0
IsByte b = b < 256

digit-injective : (d e : ℕ) → d < 16 → e < 16 → digit d ≡ digit e → d ≡ e
digit-injective d e hd he h = ground arith

-- Different bytes have different hexadecimal forms.
pub encode_to_string-injective :
    (xs ys : List ℕ)
    → All IsByte xs
    → All IsByte ys
    → encode_to_string xs ≡ encode_to_string ys
    → xs ≡ ys
unfolding encode_to_string
encode_to_string-injective [] [] ha hb e = refl
encode_to_string-injective [] (b ∷ ys) ha hb e = cc
encode_to_string-injective (a ∷ xs) [] ha hb e = cc
encode_to_string-injective (a ∷ xs) (b ∷ ys) ha hb e =
    let high : a / 16 ≡ b / 16 =
      digit-injective (a / 16) (b / 16) (omega arith) (omega arith) (cc) in
    let low : a % 16 ≡ b % 16 =
      digit-injective (a % 16) (b % 16) (omega arith) (omega arith) (cc) in
    let rest : xs ≡ ys = encode_to_string-injective xs ys ha.1 hb.1 (cc) in
    let head : a ≡ b = omega arith in cc

-- Where the source of randomness gives the 32 bytes asked for, Generate makes a token of 64
-- characters from them; where it fails, Generate fails.
pub generate_lem :
    (rand : ℕ → Option (List ℕ))
    → ((raw : List ℕ)
        → rand 32 ≡ some raw
        → length raw ≡ 32
        → (token : Str) × (generate rand ≡ made token) × (length token ≡ 64))
      × (rand 32 ≡ none → generate rand ≡ failed rand_failed)
unfolding generate
generate_lem rand = (
  λ raw e n. (encode_to_string raw, ground arith, omega (arith, length-encode_to_string raw)),
  λ e. ground arith,
)

pub generate_bytes_made :
    (rand : ℕ → Option (List ℕ)) (n : ℕ) (raw : List ℕ)
    → rand (suc n) ≡ some raw
    → generate_bytes rand (pos (suc n)) ≡ made raw
unfolding generate_bytes
generate_bytes_made rand n raw e = rw e refl

pub generate_bytes_lost :
    (rand : ℕ → Option (List ℕ)) (n : ℕ)
    → rand (suc n) ≡ none
    → generate_bytes rand (pos (suc n)) ≡ failed rand_failed
unfolding generate_bytes
generate_bytes_lost rand n e = rw e refl
