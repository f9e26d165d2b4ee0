-- ===== src/Proxy.antt =====
-- internal/south/proxy.go: which requests are proxied, whose token they carry and where they go. The
-- forwarding itself is net/http's ReverseProxy. Decoding base64 and parsing a URL are parameters.
pub mod Paths
pub mod Routes
pub mod Transports
pub mod Invariant
pub mod Later
pub mod Answers
use forgery.Base.{
  ℕ, Str, text, Bool, true, false, not, ◌&&◌, ◌||◌, ◌==◌, str_eq, nat_eq, leb, Option, none, some,
  List, [], ◌∷◌, ◌++◌, is_empty, any, all, has_prefix, trim_prefix, trim_suffix, trim_space, cut,
  to_lower, if◌then◌else◌,
}
use forgery.Config.{Instance}
use forgery.North.{InstanceEntry, Resolver, resolve, only_instance}
use forgery.World.{World}
use forgery.Registry.{lookup_token}

abbrev pub git_endpoints : List Str
git_endpoints =
    text "/info/refs"
    ∷ text "/git-upload-pack"
    ∷ text "/git-receive-pack"
    ∷ text "/git-upload-archive"
    ∷ text "/HEAD"
    ∷ []

unfoldable pub match_git_endpoint : Str → Bool
match_git_endpoint rest = any (λ e. rest == e) git_endpoints || has_prefix rest (text "/objects/")

abbrev pub is_name_byte : ℕ → Bool
is_name_byte c =
    (leb b'a' c && leb c b'z')
    || ((leb b'A' c && leb c b'Z')
        || ((leb b'0' c && leb c b'9') || (c == b'-' || (c == b'_' || c == b'.'))))

unfoldable pub valid_repo_name : Str → Bool
valid_repo_name s =
    if is_empty s || (s == text "." || s == text "..") then false else all is_name_byte s

-- the second half of matchGitPath, after the owner
match_repo : Str → Str → Option (Str × Str)
unfolding match_git_endpoint valid_repo_name
match_repo owner rest = elim (cut b'/' rest) [
  | none ↦ none
  | some (repo, tail) ↦
      let repo' = trim_suffix repo (text ".git") in
      if valid_repo_name repo' && match_git_endpoint (b'/' ∷ tail)
      then some (owner, repo')
      else none
]

unfoldable pub match_git_path : Str → Option (Str × Str)
unfolding match_repo
match_git_path p = elim (cut b'/' (trim_prefix p (text "/"))) [
  | none ↦ none
  | some (owner, rest) ↦
      let found = match_repo owner rest in if valid_repo_name owner then found else none
]

abbrev is_match : Option (Str × Str) → Bool
is_match none = false
is_match (some names) = true

unfoldable pub is_proxied_path : Str → Bool
unfolding match_git_path
is_proxied_path path =
    is_match (match_git_path path)
    || (has_prefix path (text "/api/v1/repos/") || has_prefix path (text "/api/actions_pipeline/"))

-- the scheme and the rest of an Authorization header; with no blank, all of it is the scheme
abbrev scheme_of : Str → Str × Str
scheme_of auth = elim (cut b' ' auth) [ none ↦ (auth, []) | some parts ↦ parts ]

-- the token of basic credentials
pub basic_token : Option Str → Option Str
basic_token none = none
basic_token (some raw) = elim (cut b':' raw) [
  | none ↦ none
  | some (user, pass) ↦
      if is_empty user
      then none
      else (if not (is_empty pass) && not (pass == text "x-oauth-basic")
          then some pass
          else some user)
]

module _ (decode : Str → Option Str) where
  unfoldable pub proxy_token : Str → Option Str
  unfolding basic_token
  proxy_token header =
      let (scheme, after) = scheme_of (trim_space header) in
      let rest = trim_space after in
      if to_lower scheme == text "basic"
      then basic_token (decode rest)
      else (if (to_lower scheme == text "bearer" || to_lower scheme == text "token")
            && not (is_empty rest)
          then some rest
          else none)

-- the parts of a parsed URL that are read
pub record Target : Type 0 where
  pub scheme : Str
  pub host : Str

-- What ServeHTTP does with a request: the statuses are 404, 401 and 502.
pub data Answer : Type 0 where
  not_found : Answer
  unauthorized bad_gateway : Str → Answer
  forward : Instance → Target → Answer

module _ (decode : Str → Option Str) (parse : Str → Option Target) (resolver : Resolver) where
  abbrev is_web : Target → Bool
  is_web t = (t.scheme == text "http" || t.scheme == text "https") && not (is_empty t.host)

  forward_to : Instance → Option Target → Answer
  forward_to inst none = bad_gateway (text "invalid instance URL")
  forward_to inst (some target) =
      if is_web target then forward inst target else bad_gateway (text "invalid instance URL")

  -- the owner of the token, else the only instance there is
  abbrev owner_of : Option Str → Option Str
  owner_of none = only_instance resolver
  owner_of (some name) = some name

  answer_for : Option Str → Answer
  unfolding forward_to
  answer_for none = unauthorized (text "unknown task token")
  answer_for (some name) = elim (resolve name resolver) [
    | none ↦ bad_gateway (text "unknown instance")
    | some e ↦ forward_to e.inst (parse e.inst.forgejo_url)
  ]

  serve_token : ℕ → Option Str → World → Answer × World
  unfolding answer_for
  serve_token now none w = (unauthorized (text "missing task token"), w)
  serve_token now (some token) w =
      let (owner, w') = lookup_token token now w in (answer_for (owner_of owner), w')

  unfoldable pub serve_http : ℕ → Str → Str → World → Answer × World
  unfolding serve_token is_proxied_path proxy_token
  serve_http now path header w =
      let served = serve_token now (proxy_token decode header) w in
      if is_proxied_path path then served else (not_found, w)
