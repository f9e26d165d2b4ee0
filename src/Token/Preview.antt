-- ===== src/Token/Preview.antt =====
-- internal/south/handler.go and internal/app/app.go: how a token is shortened for the log.
use forgery.Base.{
  ℕ, ◌+◌, ◌<◌, Str, ◌≡◌, refl, arith, List, ◌++◌, length, take, take-rest, ltb, if◌then◌else◌,
  lt→ltb, some, Option,
}
use forgery.Token.{generate, made, generate_lem}

abbrev pub token_preview_length : ℕ
token_preview_length = 8

-- south's truncateToken
unfoldable pub truncate_token : Str → Str
truncate_token s = if ltb token_preview_length (length s) then take token_preview_length s else s

-- app's tokenPrefix
unfoldable pub token_prefix : Str → Str
token_prefix token =
    if ltb token_preview_length (length token) then take token_preview_length token else token

-- A text that is longer than a preview is cut after the first eight bytes, by both functions.
pub truncate_token_lem :
    (s : Str)
    → 8 < length s
    → (t : Str) × (s ≡ truncate_token s ++ t)
      × (length t + 8 ≡ length s)
      × (token_prefix s ≡ truncate_token s)
unfolding truncate_token token_prefix
truncate_token_lem s h =
    let (t, e, size) = take-rest 8 s (omega arith) in rw (lt→ltb 8 (length s) h) (t, e, size, refl)

-- Where the source of randomness gives the bytes asked for, the log shows the first eight of the 64
-- characters of a registration token; the other 56 are left out.
pub truncate_token-generate :
    (rand : ℕ → Option (List ℕ)) (raw : List ℕ)
    → rand 32 ≡ some raw
    → length raw ≡ 32
    → (token : Str) × (t : Str) × (generate rand ≡ made token)
      × (token ≡ truncate_token token ++ t)
      × (length t ≡ 56)
      × (token_prefix token ≡ truncate_token token)
truncate_token-generate rand raw given full =
    let (token, e, size) = (generate_lem rand).0 raw given full in
    let (t, cut, rest, same) = truncate_token_lem token (omega arith) in
    (token, t, e, cut, omega arith, same)
