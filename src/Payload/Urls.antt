-- ===== src/Payload/Urls.antt =====
-- internal/south/payload.go: the server URL expressions and the walk over the values of a document.
pub mod Values
use forgery.Base.{
  ℕ, zero, suc, Str, text, Bool, not, contains, ◌||◌, ◌==◌, str_eq, nat_beq, Option, none, some,
  List, [], ◌∷◌, ◌++◌, length, is_empty, cut_prefix, if◌then◌else◌,
}
use forgery.Payload.Tree.{document, mapping, sequence, scalar, alias, Node, node, Nodes, nil, cons}

-- What follows the white space of `\s`.
skip_space : Str → Str
skip_space [] = []
skip_space (c ∷ s) =
    let rest = skip_space s in
    if nat_beq c 32 || (nat_beq c 9 || (nat_beq c 10 || (nat_beq c 12 || nat_beq c 13)))
    then rest
    else c ∷ s

pub data UrlKey : Type 0 where
  server_url api_url repository_url : UrlKey

-- The alternatives of the expression; none is a prefix of another.
abbrev url_keys : List (Str × UrlKey)
url_keys =
    (text "github.server_url", server_url)
    ∷ (text "github.api_url", api_url)
    ∷ (text "github.repository_url", repository_url)
    ∷ (text "env.GITHUB_SERVER_URL", server_url)
    ∷ (text "env.GITHUB_API_URL", api_url)
    ∷ (text "env.FORGEJO_API_URL", api_url)
    ∷ (text "env.FORGEJO_SERVER_URL", server_url)
    ∷ []

find_key : List (Str × UrlKey) → Str → Option (UrlKey × Str)
find_key [] s = none
find_key ((name, key) ∷ keys) s = elim (cut_prefix s name) [
  | some rest ↦ some (key, rest)
  | none ↦ find_key keys s
]

-- serverURLExprRe at the head of a text: the key, and what follows the match
pub match_url_expr : Str → Option (UrlKey × Str)
unfolding skip_space find_key
match_url_expr s = elim (cut_prefix s (text "${{")) [
  | none ↦ none
  | some inner ↦ elim (find_key url_keys (skip_space inner)) [
    | none ↦ none
    | some (key, after) ↦ elim (cut_prefix (skip_space after) (text "}}")) [
      | none ↦ none
      | some rest ↦ some (key, rest)
    ]
  ]
]

-- The text for a match; `none` keeps it.
pub replacement : Str → Str → UrlKey → Option Str
replacement url repository server_url = some url
replacement url repository api_url = some (url ++ text "/api/v1")
replacement url repository repository_url =
    if is_empty repository then none else some (url ++ (text "/" ++ repository))

-- What one position of the text turns into: the text to write, and the rest to go on with.
next_piece : Str → Str → ℕ → Str → Option (UrlKey × Str) → Str × Str
next_piece url repository c s none = (c ∷ [], s)
next_piece url repository c s (some (key, rest)) = elim (replacement url repository key) [
  | some out ↦ (out, rest)
  | none ↦ (c ∷ [], s)
]

-- ReplaceAllStringFunc; the rounds are at most the length of the text.
pub replace_all : ℕ → Str → Str → Str → Str
unfolding next_piece
replace_all zero url repository s = s
replace_all (suc fuel) url repository [] = []
replace_all (suc fuel) url repository (c ∷ s) =
    let (out, rest) = next_piece url repository c s (match_url_expr (c ∷ s)) in
    out ++ replace_all fuel url repository rest

-- the text that the closure of normalizeServerURLs returns
pub normalize_text : Str → Str → Str → Str
unfolding replace_all
normalize_text url repository v =
    let out = replace_all (suc (length v)) url repository v in
    if contains v (text "${{") then out else v

-- ... and what it does to the flag `changed`, which it shares with normalizeServerURLs
abbrev pub flagged : (Str → Str) → Str → Bool → Str × Bool
flagged f v changed = let out = f v in (out, changed || not (out == v))

-- rewriteScalarValues, for a closure with a flag of its own, from the flag before the walk to the flag
-- after it
mutual
  pub rewrite_node : (Str → Bool → Str × Bool) → Node → Bool → Node × Bool
  rewrite_node f (node mapping meta v ns) c =
      let (ns', c') = rewrite_pairs f ns c in (node mapping meta v ns', c')
  rewrite_node f (node scalar meta v ns) c = let (v', c') = f v c in (node scalar meta v' ns, c')
  rewrite_node f (node document meta v ns) c =
      let (ns', c') = rewrite_all f ns c in (node document meta v ns', c')
  rewrite_node f (node sequence meta v ns) c =
      let (ns', c') = rewrite_all f ns c in (node sequence meta v ns', c')
  rewrite_node f (node alias meta v ns) c =
      let (ns', c') = rewrite_all f ns c in (node alias meta v ns', c')

  pub rewrite_all : (Str → Bool → Str × Bool) → Nodes → Bool → Nodes × Bool
  rewrite_all f nil c = (nil, c)
  rewrite_all f (cons n ns) c =
      let (n', c') = rewrite_node f n c in
      let (ns', c'') = rewrite_all f ns c' in (cons n' ns', c'')

  -- the values of a mapping; the keys are skipped
  pub rewrite_pairs : (Str → Bool → Str × Bool) → Nodes → Bool → Nodes × Bool
  rewrite_pairs f nil c = (nil, c)
  rewrite_pairs f (cons k nil) c = (cons k nil, c)
  rewrite_pairs f (cons k (cons v rest)) c =
      let (v', c') = rewrite_node f v c in
      let (rest', c'') = rewrite_pairs f rest c' in (cons k (cons v' rest'), c'')
