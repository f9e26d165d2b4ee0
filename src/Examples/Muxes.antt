-- ===== src/Examples/Muxes.antt =====
-- A mux that chooses the longest pattern, and the servers behind it.
use mathlib.Core.Bool.{false≢true}
use forgery.Base.{
  ℕ, ◌≤◌, ◌<◌, Str, text, ◌≡◌, ◌⊎◌, refl, sym, ap, subst, ◌∙◌, arith, inl, inr, Bool, true, false,
  ◌==◌, str_eq, str_ne, nat_eq, ltb, Option, none, some, [], ◌∷◌, ◌++◌, In, All, All-In, length,
  has_prefix-rest, cut_prefix, cut, if◌then◌else◌, Bool-cases,
}
use forgery.Mux.{Routed, handled, missing, Table, covers, IsDirect, IsServeMux}
use forgery.South.Server.{
  Endpoint, stripped_service, proxied, new_server, IsServicePath, new_server_lem,
}
use forgery.Proxy.{match_git_path, valid_repo_name, match_git_endpoint}
use forgery.South.Server.Git.{match_git_path-proxied}

module _ {H : Type 0} (path : Str) where
  longer : Str × H → Option (Str × H) → Option (Str × H)
  longer x none = some x
  longer x (some y) = if ltb (length x.0) (length y.0) then some y else some x

  pick : Table H → Option (Str × H)
  unfolding longer
  pick [] = none
  pick (x ∷ table) = let later = pick table in if covers x.0 path then longer x later else later

  -- The pick covers the path, and no pattern that does is longer.
  Best : Option (Str × H) → Table H → Type 0
  Best none table = (y : Str × H) → In y table → covers y.0 path ≡ false
  Best (some z) table =
      In z table
      × (covers z.0 path ≡ true)
      × ((y : Str × H) → In y table → covers y.0 path ≡ true → length y.0 ≤ length z.0)

  Bounds : ℕ → Table H → Type 0
  Bounds n table = (y : Str × H) → In y table → covers y.0 path ≡ true → length y.0 ≤ n

  -- one more pattern that is within the bound, or that does not cover the path
  Bounds-more :
      (n : ℕ) (x : Str × H) (table : Table H)
      → (covers x.0 path ≡ true → length x.0 ≤ n)
      → Bounds n table
      → Bounds n (x ∷ table)
  unfolding Bounds
  Bounds-more n x table h bounds y (inl same) c =
      subst (λ v. length v.0 ≤ n) same (h (subst (λ v. covers v.0 path ≡ true) (sym same) c))
  Bounds-more n x table h bounds y (inr i) c = bounds y i c

  none-Best :
      (x : Str × H) (table : Table H)
      → covers x.0 path ≡ false
      → Best none table
      → Best none (x ∷ table)
  unfolding Best
  none-Best x table c best y (inl same) = subst (λ z. covers z.0 path ≡ false) same c
  none-Best x table c best y (inr i) = best y i

  none-Bounds : (n : ℕ) (table : Table H) → Best none table → Bounds n table
  unfolding Best Bounds
  none-Bounds n table best y i c = absurd (false≢true (sym (best y i) ∙ c))

  step-Best :
      (x : Str × H) (table : Table H) (o : Option (Str × H)) (b : Bool)
      → covers x.0 path ≡ b
      → Best o table
      → Best (if b then longer x o else o) (x ∷ table)
  unfolding Best longer Bounds
  step-Best x table none false c best = none-Best x table c best
  step-Best x table (some z) false c (i, cz, greatest) = (
    inr i,
    cz,
    Bounds-more (length z.0) x table (λ cx. absurd (false≢true (sym c ∙ cx))) greatest,
  )
  step-Best x table none true c best = (
    inl refl,
    c,
    Bounds-more (length x.0) x table (λ cx. omega arith) (none-Bounds (length x.0) table best),
  )
  step-Best x table (some z) true c (i, cz, greatest) =
      elim (Bool-cases (ltb (length x.0) (length z.0))) [
        | inl shorter ↦
            rw shorter
              (inr i, cz, Bounds-more (length z.0) x table (λ cx. ground (arith, shorter)) greatest)
        | inr no_shorter ↦ rw no_shorter (
          inl refl,
          c,
          Bounds-more (length x.0) x table (λ cx. omega arith)
              (λ y j cy. let within = greatest y j cy in ground (arith, no_shorter, within)),
        )
      ]

  pick-Best : (table : Table H) → Best (pick table) table
  unfolding pick Best
  pick-Best [] = λ y i. absurd i
  pick-Best (x ∷ table) = step-Best x table (pick table) (covers x.0 path) refl (pick-Best table)

module _ {H : Type 0} where
  answer : Option (Str × H) → Routed H
  answer none = missing
  answer (some (pattern, h)) = handled h

  longest_mux : Table H → Str → Routed H
  longest_mux table path = answer (pick path table)

  longest_wins :
      (table : Table H) (path pattern : Str) (h : H) (o : Option (Str × H))
      → Best path o table
      → In (pattern, h) table
      → covers pattern path ≡ true
      → ((other : Str) (k : H)
          → In (other, k) table
          → covers other path ≡ true
          → ((other ≡ pattern) × (k ≡ h)) ⊎ (length other < length pattern))
      → answer o ≡ handled h
  unfolding Best answer
  longest_wins table path pattern h none best i c only =
      absurd (false≢true (sym (best (pattern, h) i) ∙ c))
  longest_wins table path pattern h (some (q, k)) (j, cq, greatest) i c only =
      elim (only q k j cq) [
        | inl (same, e) ↦ ap handled e
        | inr shorter ↦ let within = greatest (pattern, h) i c in absurd (omega arith)
      ]

  none_missing :
      (table : Table H) (path : Str) (o : Option (Str × H))
      → Best path o table
      → ((other : Str) (k : H) → In (other, k) table → covers other path ≡ false)
      → answer o ≡ missing
  unfolding Best answer
  none_missing table path none best uncovered = refl
  none_missing table path (some (q, k)) (j, cq, greatest) uncovered =
      absurd (false≢true (sym (uncovered q k j) ∙ cq))

  longest_mux-IsServeMux : (clean : Str → Str) → IsServeMux clean longest_mux
  unfolding longest_mux
  longest_mux-IsServeMux clean = record {
    longest = λ table path pattern h direct.
        longest_wins table path pattern h (pick path table) (pick-Best path table);
    none_covers =
        λ table path direct. none_missing table path (pick path table) (pick-Best path table);
  }

abbrev same_path : Str → Str
same_path path = path

abbrev runner_path : Str
runner_path = text "/runner.v1.RunnerService/"

runner_path-IsServicePath : IsServicePath runner_path
unfolding cut_prefix
runner_path-IsServicePath = record {
  subtree = refl;
  below_root = omega arith;
  apart = λ path h. let (t, e) = has_prefix-rest path runner_path h in rw e refl;
}

abbrev Apart : Str → Str × Endpoint → Type 0
Apart path x = (x.0 == path ++ text "/") ≡ false

direct :
    (path : Str)
    → All (Apart path) (new_server runner_path)
    → IsDirect same_path (new_server runner_path) path
direct path apart = record {
  is_clean = refl;
  no_root = λ pattern h i.
      str_ne pattern (path ++ text "/")
        (All-In (Apart path) (new_server runner_path) apart (pattern, h) i);
}

new_server_lem_example :
    longest_mux (new_server runner_path) (text "/api/actions/ping") ≡ handled stripped_service
unfolding cut_prefix new_server
new_server_lem_example =
    new_server_lem same_path longest_mux (longest_mux-IsServeMux same_path) runner_path
      runner_path-IsServicePath (text "/api/actions/ping")
      (direct (text "/api/actions/ping") (refl, (refl, (refl, (refl, (refl, record {})))))) refl

match_git_path-proxied_example :
    longest_mux (new_server runner_path) (text "/o/r.git/info/refs") ≡ handled proxied
unfolding cut_prefix new_server match_git_path cut valid_repo_name match_git_endpoint
match_git_path-proxied_example =
    match_git_path-proxied same_path longest_mux (longest_mux-IsServeMux same_path) runner_path
      runner_path-IsServicePath (text "/o/r.git/info/refs")
      (direct (text "/o/r.git/info/refs") (refl, (refl, (refl, (refl, (refl, record {}))))))
      (text "o") (text "r") refl refl refl (λ (a, b). cc)
