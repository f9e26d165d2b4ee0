-- ===== src/Observability/Health.antt =====
-- internal/observability/health.go: the paths that the health probe answers.
use mathlib.Core.Bool.{false≢true}
use forgery.Base.{
  Str, text, ◌≡◌, refl, sym, ap, ◌∙◌, inl, inr, true, false, ◌==◌, str_eq, eq_iff, In, Dict, length,
  All-In, Bool-cases, if◌then◌else◌, ◌||◌, ◌⊎◌, ◌<◌,
}
use forgery.Mux.{
  Routed, handled, missing, Table, covers, is_subtree, is_subtree-append, IsDirect, IsServeMux,
}
use forgery.Observability.{Response, probe, health_handler}

module _ (clean : Str → Str) (mux : Table Response → Str → Routed Response)
    (serves : IsServeMux clean mux) (encode : Dict Str Str → Str) (path : Str)
    (is_clean : clean path ≡ path) where
  flat :
      (pattern : Str) (h : Response)
      → In (pattern, h) (health_handler encode)
      → is_subtree pattern ≡ false
  unfolding health_handler
  flat pattern h i =
      All-In (λ (x : Str × Response). is_subtree x.0 ≡ false) (health_handler encode)
        (refl, (refl, record {})) (pattern, h) i

  direct : IsDirect clean (health_handler encode) path
  direct = record {
    is_clean = is_clean;
    no_root = λ pattern h i same.
        false≢true (sym (flat pattern h i) ∙ (ap is_subtree same ∙ is_subtree-append path));
  }

  -- Where the mux takes the longest pattern, a request whose path is clean gets the probe's answer on
  -- /healthz and on /readyz; every other path, / included, has no handler.
  health_handler_lem : mux (health_handler encode) path ≡ (
      if path == text "/healthz" || path == text "/readyz" then handled (probe encode) else missing)
  unfolding health_handler
  health_handler_lem = elim (Bool-cases (path == text "/healthz")) [
    | inl live ↦ rw live (
        serves.longest (health_handler encode) path (text "/healthz") (probe encode) direct
          (inl refl) live
          (λ other k i c.
            All-In (Yields (text "/healthz")) (health_handler encode)
              (λ c. inl (refl, refl), (λ c. absurd (clash live c), record {})) (other, k) i c))
    | inr not_live ↦ elim (Bool-cases (path == text "/readyz")) [
      | inl ready ↦
          rw (not_live, ready)
            (serves.longest (health_handler encode) path (text "/readyz") (probe encode) direct
              (inr (inl refl)) ready
              (λ other k i c.
                All-In (Yields (text "/readyz")) (health_handler encode)
                  (λ c. absurd (false≢true (sym not_live ∙ c)), (λ c. inl (refl, refl), record {}))
                  (other, k) i c))
      | inr not_ready ↦
          rw (not_live, not_ready)
            (serves.none_covers (health_handler encode) path direct (λ other k i.
              All-In (λ (x : Str × Response). covers x.0 path ≡ false) (health_handler encode)
                (not_live, (not_ready, record {})) (other, k) i))
    ]
  ]
    where
      Yields : Str → Str × Response → Type 0
      Yields pattern (other, k) =
          covers other path ≡ true
          → ((other ≡ pattern) × (k ≡ probe encode)) ⊎ (length other < length pattern)

      clash : (path == text "/healthz") ≡ true → (path == text "/readyz") ≡ true → ⊥
      clash a b =
          let live : path ≡ text "/healthz" = (eq_iff path (text "/healthz")).0 a in
          let ready : path ≡ text "/readyz" = (eq_iff path (text "/readyz")).0 b in cc
