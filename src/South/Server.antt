-- ===== src/South/Server.antt =====
-- internal/south/handler.go: NewServer, which puts the five calls and the proxy behind one mux.
pub mod Git
use forgery.Base.{
  ℕ, suc, ◌<◌, ◌≤◌, Str, text, ◌≡◌, ◌≢◌, ◌⊎◌, refl, sym, ap, subst, ◌∙◌, arith, inl, inr, Bool,
  true, false, ◌==◌, nat_eq, str_eq, Option, some, none, List, [], ◌∷◌, ◌++◌, In, All, All-In,
  length, has_prefix, has_prefix-rest, has_prefix-shorter, cut_prefix, if◌then◌else◌, Bool-cases,
}
use mathlib.Core.Bool.{false≢true}
use forgery.Mux.{
  Routed, handled, redirected, missing, Table, covers, is_subtree, IsDirect, IsServeMux,
}

-- The handlers of the mux: the runner service, the same behind http.StripPrefix("/api/actions"), and the
-- proxy.
pub data Endpoint : Type 0 where
  runner_service stripped_service proxied : Endpoint

-- `service_path` is the path that connect gives to the runner service.
unfoldable pub new_server : Str → Table Endpoint
new_server service_path =
    (service_path, runner_service)
    ∷ (text "/api/actions/", stripped_service)
    ∷ (text "/api/v1/repos/", proxied)
    ∷ (text "/api/actions_pipeline/", proxied)
    ∷ (text "/", proxied)
    ∷ []

-- What the server relies on: the path is a subtree of its own, and nothing below it is below /api/.
pub record IsServicePath (service_path : Str) : Type 0 where
  pub subtree : is_subtree service_path ≡ true
  pub below_root : 1 < length service_path
  pub apart :
      (path : Str) → has_prefix path service_path ≡ true → has_prefix path (text "/api/") ≡ false

-- which handler a path is for
abbrev pub endpoint_of : Str → Str → Endpoint
endpoint_of service_path path =
    if has_prefix path service_path
    then runner_service
    else if has_prefix path (text "/api/actions/")
    then stripped_service
    else proxied

-- A pattern that covers the path is the chosen one or shorter.
abbrev Yields : Str → Str → Endpoint → Str × Endpoint → Type 0
Yields path pattern h (other, k) =
    covers other path ≡ true → ((other ≡ pattern) × (k ≡ h)) ⊎ (length other < length pattern)

module _ (clean : Str → Str) (mux : Table Endpoint → Str → Routed Endpoint)
    (serves : IsServeMux clean mux) (service_path : Str) (service : IsServicePath service_path)
    (path : Str) (direct : IsDirect clean (new_server service_path) path) where
  wins :
      (pattern : Str) (h : Endpoint)
      → In (pattern, h) (new_server service_path)
      → covers pattern path ≡ true
      → All (Yields path pattern h) (new_server service_path)
      → mux (new_server service_path) path ≡ handled h
  wins pattern h i covered rest =
      serves.longest (new_server service_path) path pattern h direct i covered
        (λ other k j. All-In (Yields path pattern h) (new_server service_path) rest (other, k) j)

  covers-service : covers service_path path ≡ has_prefix path service_path
  covers-service = rw (service.subtree) refl

  outside :
      (rest : Str)
      → has_prefix path service_path ≡ true
      → has_prefix path (text "/api/" ++ rest) ≡ false
  outside rest h = elim (Bool-cases (has_prefix path (text "/api/" ++ rest))) [
    | inl below ↦
        let api = has_prefix-shorter path (text "/api/") rest below in
        let apart = service.apart path h in cc
    | inr other ↦ other
  ]

  to_service :
      has_prefix path service_path ≡ true
      → mux (new_server service_path) path ≡ handled runner_service
  unfolding new_server
  to_service h =
      let root = service.below_root in
      wins service_path runner_service (inl refl) (covers-service ∙ h) (
        λ c. inl (refl, refl),
        (
          λ c. absurd (false≢true (sym (outside (text "actions/") h) ∙ c)),
          (
            λ c. absurd (false≢true (sym (outside (text "v1/repos/") h) ∙ c)),
            (
              λ c. absurd (false≢true (sym (outside (text "actions_pipeline/") h) ∙ c)),
              (λ c. inr root, record {}),
            ),
          ),
        ),
      )

  -- a path that is not below the service
  not_service :
      (pattern : Str) (h : Endpoint)
      → has_prefix path service_path ≡ false
      → Yields path pattern h (service_path, runner_service)
  not_service pattern h other c = absurd (false≢true (sym other ∙ (sym covers-service ∙ c)))

  to_actions :
      has_prefix path service_path ≡ false
      → (t : Str) → path ≡ text "/api/actions/" ++ t
      → mux (new_server service_path) path ≡ handled stripped_service
  unfolding new_server cut_prefix
  to_actions other t e = wins (text "/api/actions/") stripped_service (inr (inl refl)) (rw e refl) (
    not_service (text "/api/actions/") stripped_service other,
    (
      λ c. inl (refl, refl),
      (rw e (λ c. cc), (rw e (λ c. cc), (λ c. inr (omega arith), record {}))),
    ),
  )

  to_repos :
      has_prefix path service_path ≡ false
      → (t : Str) → path ≡ text "/api/v1/repos/" ++ t
      → mux (new_server service_path) path ≡ handled proxied
  unfolding new_server cut_prefix
  to_repos other t e = wins (text "/api/v1/repos/") proxied (inr (inr (inl refl))) (rw e refl) (
    not_service (text "/api/v1/repos/") proxied other,
    (
      rw e (λ c. cc),
      (λ c. inl (refl, refl), (rw e (λ c. cc), (λ c. inr (omega arith), record {}))),
    ),
  )

  to_pipeline :
      has_prefix path service_path ≡ false
      → (t : Str) → path ≡ text "/api/actions_pipeline/" ++ t
      → mux (new_server service_path) path ≡ handled proxied
  unfolding new_server cut_prefix
  to_pipeline other t e =
      wins (text "/api/actions_pipeline/") proxied (inr (inr (inr (inl refl)))) (rw e refl) (
        not_service (text "/api/actions_pipeline/") proxied other,
        (
          rw e (λ c. cc),
          (rw e (λ c. cc), (λ c. inl (refl, refl), (λ c. inr (omega arith), record {}))),
        ),
      )

  to_rest :
      has_prefix path service_path ≡ false
      → has_prefix path (text "/api/actions/") ≡ false
      → has_prefix path (text "/api/v1/repos/") ≡ false
      → has_prefix path (text "/api/actions_pipeline/") ≡ false
      → has_prefix path (text "/") ≡ true
      → mux (new_server service_path) path ≡ handled proxied
  unfolding new_server
  to_rest other a b c root = wins (text "/") proxied (inr (inr (inr (inr (inl refl))))) root (
    not_service (text "/") proxied other,
    (
      λ h. absurd (false≢true (sym a ∙ h)),
      (
        λ h. absurd (false≢true (sym b ∙ h)),
        (λ h. absurd (false≢true (sym c ∙ h)), (λ h. inl (refl, refl), record {})),
      ),
    ),
  )

  to_proxy :
      has_prefix path service_path ≡ false
      → has_prefix path (text "/api/actions/") ≡ false
      → has_prefix path (text "/") ≡ true
      → mux (new_server service_path) path ≡ handled proxied
  to_proxy other a root = elim (Bool-cases (has_prefix path (text "/api/v1/repos/"))) [
    | inl repos ↦
        let (t, e) = has_prefix-rest path (text "/api/v1/repos/") repos in to_repos other t e
    | inr b ↦ elim (Bool-cases (has_prefix path (text "/api/actions_pipeline/"))) [
      | inl pipeline ↦
          let (t, e) = has_prefix-rest path (text "/api/actions_pipeline/") pipeline in
          to_pipeline other t e
      | inr c ↦ to_rest other a b c root
    ]
  ]

  -- Where the mux chooses the longest pattern, and the service's path is no part of /api/: a request that
  -- the mux does not redirect goes to the runner service if its path is below the service's, else to the
  -- same service without /api/actions if it is below /api/actions/, and else to the proxy.
  pub new_server_lem :
      has_prefix path (text "/") ≡ true
      → mux (new_server service_path) path ≡ handled (endpoint_of service_path path)
  new_server_lem root = elim (Bool-cases (has_prefix path service_path)) [
    | inl below ↦ rw below (to_service below)
    | inr other ↦ elim (Bool-cases (has_prefix path (text "/api/actions/"))) [
      | inl actions ↦
          let (t, e) = has_prefix-rest path (text "/api/actions/") actions in
          rw (other, actions) (to_actions other t e)
      | inr a ↦ rw (other, a) (to_proxy other a root)
    ]
  ]
