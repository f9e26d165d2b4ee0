-- ===== src/Mux.antt =====
-- net/http's ServeMux, as internal/south/handler.go and internal/observability/health.go use it: patterns
-- are paths, and one that ends in a slash stands for all paths below it.
use forgery.Base.{
  ◌<◌, Str, text, ◌≡◌, ◌⊎◌, refl, Bool, true, false, ◌==◌, nat_eq, str_eq, List, [], ◌∷◌, ◌++◌, In,
  length, has_prefix, if◌then◌else◌,
}

-- What ServeMux makes of a request: it calls a handler, sends the client to another path, or finds none.
pub data Routed (H : Type 0) : Type 0 where
  handled : H → Routed H
  redirected missing : Routed H

abbrev pub Table : Type 0 → Type 0
Table H = List (Str × H)

-- whether a pattern ends in a slash
abbrev pub is_subtree : Str → Bool
is_subtree [] = false
is_subtree (c ∷ []) = c == b'/'
is_subtree (c ∷ d ∷ s) = is_subtree (d ∷ s)

abbrev pub covers : Str → Str → Bool
covers pattern path = if is_subtree pattern then has_prefix path pattern else path == pattern

-- A path that ServeMux does not redirect: path.Clean leaves it, and it is no registered subtree less the
-- slash at its end.
pub record IsDirect {H : Type 0} (clean : Str → Str) (table : Table H) (path : Str) : Type 0 where
  pub is_clean : clean path ≡ path
  pub no_root : (pattern : Str) (h : H) → In (pattern, h) table → ¬ (pattern ≡ path ++ text "/")

-- The documented behaviour that the servers rely on: the longest pattern that covers a path wins.
pub record IsServeMux {H : Type 0} (clean : Str → Str) (mux : Table H → Str → Routed H)
    : Type 0 where
  pub longest :
      (table : Table H) (path pattern : Str) (h : H)
      → IsDirect clean table path
      → In (pattern, h) table
      → covers pattern path ≡ true
      → ((other : Str) (k : H)
          → In (other, k) table
          → covers other path ≡ true
          → ((other ≡ pattern) × (k ≡ h)) ⊎ (length other < length pattern))
      → mux table path ≡ handled h
  pub none_covers :
      (table : Table H) (path : Str)
      → IsDirect clean table path
      → ((other : Str) (k : H) → In (other, k) table → covers other path ≡ false)
      → mux table path ≡ missing

-- A path with a slash at its end names a subtree.
pub is_subtree-append : (s : Str) → is_subtree (s ++ text "/") ≡ true
is_subtree-append [] = refl
is_subtree-append (c ∷ []) = refl
is_subtree-append (c ∷ d ∷ s) = is_subtree-append (d ∷ s)
