-- ===== src/Proxy/Paths.antt =====
-- internal/south/proxy.go: the git paths that are recognised, and the names in them.
use forgery.Base.{
  ℕ, Str, text, ◌≡◌, refl, sym, ap, ◌∙◌, ◌≢◌, arith, true, false, ◌++◌, is_empty, all, All, some,
  [], ◌∷◌, nat_eq, str_eq, eq_iff, eq_ne, cut, cut_prefix, cut_prefix-append, trim_prefix,
  trim_suffix, Bool-cases, Option-cases, inl, inr, guard-some,
}
use mathlib.Core.List.{reverse, reverse-append, reverse-reverse}
use mathlib.Core.Option.{some-injective}
use forgery.Proxy.{is_name_byte, match_git_endpoint, valid_repo_name, match_repo, match_git_path}

-- A path segment that names an owner or a repository: no traversal and no further slash.
pub record IsName (s : Str) : Type 0 where
  pub nonempty : is_empty s ≡ false
  pub no_dot : s ≢ text "."
  pub no_dots : s ≢ text ".."
  pub no_slash : All (λ c. c ≢ b'/') s

no_slash_byte : (c : ℕ) → is_name_byte c ≡ true → c ≢ b'/'
no_slash_byte c h = ground arith

all-no_slash : (s : Str) → all is_name_byte s ≡ true → All (λ c. c ≢ b'/') s
all-no_slash [] h = record {}
all-no_slash (c ∷ s) h = elim (Bool-cases (is_name_byte c)) [
  | inl good ↦ (no_slash_byte c good, all-no_slash s (rw good at h))
  | inr bad ↦ (let g = rw bad at h in cc)
]

valid_repo_name-IsName : (s : Str) → valid_repo_name s ≡ true → IsName s
unfolding valid_repo_name
valid_repo_name-IsName s h = record {
  nonempty = ground arith;
  no_dot = ground (arith, eq_iff s (text "."));
  no_dots = ground (arith, eq_iff s (text ".."));
  no_slash = all-no_slash s (ground arith);
}

cut-append : (sep : ℕ) (a b : Str) → All (λ c. c ≢ sep) a → cut sep (a ++ sep ∷ b) ≡ some (a, b)
unfolding cut
cut-append sep [] b h = ground (arith)
cut-append sep (c ∷ a) b h =
    let rest = cut-append sep a b h.1 in let apart = h.0 in ground (arith, eq_ne c sep apart)

trim_suffix-append : (s t : Str) → trim_suffix (s ++ t) t ≡ s
trim_suffix-append s t =
    rw (trim_suffix, reverse-append s t, cut_prefix-append (reverse t) (reverse s))
      (reverse-reverse s)

All-append : (P : ℕ → Type 0) (s t : Str) → All P s → All P t → All P (s ++ t)
All-append P [] t h k = k
All-append P (c ∷ s) t h k = (h.0, All-append P s t h.1 k)

-- A git endpoint below an owner and a repository, both with names that Forgejo permits and the
-- repository with its clone suffix `.git`, is matched as that owner and that repository.
pub match_git_path-clone_url :
    (owner repo tail : Str)
    → valid_repo_name owner ≡ true
    → valid_repo_name repo ≡ true
    → match_git_endpoint (b'/' ∷ tail) ≡ true
    → match_git_path (b'/' ∷ (owner ++ b'/' ∷ ((repo ++ text ".git") ++ b'/' ∷ tail)))
      ≡ some (owner, repo)
unfolding match_git_path match_repo cut_prefix
match_git_path-clone_url owner repo tail o r e =
    let o' = (valid_repo_name-IsName owner o).no_slash in
    let r' =
      All-append (λ c. c ≢ b'/') repo (text ".git") (valid_repo_name-IsName repo r).no_slash
        (all-no_slash (text ".git") refl) in
    rw (match_git_path, cut-append b'/' owner ((repo ++ text ".git") ++ b'/' ∷ tail) o', o)
      (rw
        (
          match_repo,
          cut-append b'/' (repo ++ text ".git") tail r',
          trim_suffix-append repo (text ".git"),
          r,
          e,
        )
        refl)

match_repo-names :
    (owner rest o repo : Str)
    → match_repo owner rest ≡ some (o, repo)
    → (owner ≡ o) × (valid_repo_name repo ≡ true)
unfolding match_repo
match_repo-names owner rest o repo h = elim (Option-cases (cut b'/' rest)) [
  | inl missing ↦ (let g = rw (missing, match_repo) at h in cc)
  | inr ((r, tail), found) ↦
      let (passed, same) = guard-some _ _ (o, repo) (rw (found, match_repo) at h) in
      let names = some-injective (owner, trim_suffix r (text ".git")) (o, repo) same in
      (ap (λ p. p.0) names, sym (ap (λ p. valid_repo_name p.1) names) ∙ ground arith)
]

-- Whatever the path: the owner and the repository of a match are names, so they are neither empty
-- nor `.` nor `..`, and hold no slash.
pub match_git_path-IsName :
    (path owner repo : Str) → match_git_path path ≡ some (owner, repo) → IsName owner × IsName repo
unfolding match_git_path
match_git_path-IsName path owner repo h =
    elim (Option-cases (cut b'/' (trim_prefix path (text "/")))) [
      | inl missing ↦ (let g = rw (missing, match_git_path) at h in cc)
      | inr ((o, rest), found) ↦
          let (valid, matched) = guard-some _ _ (owner, repo) (rw (found, match_git_path) at h) in
          let (same, valid_repo) = match_repo-names o rest owner repo matched in
          (
            valid_repo_name-IsName owner (ap valid_repo_name (sym same) ∙ valid),
            valid_repo_name-IsName repo valid_repo,
          )
    ]
