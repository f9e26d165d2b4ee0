-- ===== src/Config/Checks.antt =====
-- internal/config/config.go: what `validate` accepts, stated without its loop and its map.
use forgery.Base.{
  ℕ, suc, Str, ℤ, neg_part, ◌≡◌, ◌≢◌, ◌↔◌, refl, arith, Option, none, some, List, [], ◌∷◌, ◌++◌,
  Dict, lookup, insert, lookup-insert, All, eq_iff, str_eq,
}
use forgery.Config.{
  Instance, Config, Key, ErrValidation, missing_of, invalid_of, duplicate, check_instances,
  to_check, problems, validate,
}

abbrev pub IsNonNegative : ℤ → Type 0
IsNonNegative z = neg_part z ≡ 0

pub record IsComplete (i : Instance) : Type 0 where
  pub url : i.forgejo_url ≢ []
  pub token : i.forgejo_runner_token ≢ []
  pub labels : i.forgejo_runner_labels ≢ []
  pub poll : IsNonNegative i.poll_interval
  pub ttl : IsNonNegative i.reg_token_ttl
  pub startup : IsNonNegative i.ga_startup_timeout
  pub heartbeat : IsNonNegative i.heartbeat_interval

-- No two instances have the same name.
abbrev pub HasUniqueNames : List Instance → Type 0
HasUniqueNames [] = Unit
HasUniqueNames (i ∷ is) = All (λ j. j.name ≢ i.name) is × HasUniqueNames is

pub record IsAccepted (c : Config) : Type 0 where
  pub github_token : c.github_token ≢ []
  pub github_repo : c.github_repo ≢ []
  pub github_workflow_id : c.github_workflow_id ≢ []
  pub parallel : IsNonNegative c.max_parallel_tasks
  pub some_instance : c.instances ≢ []
  pub complete : All IsComplete c.instances
  pub unique : HasUniqueNames c.instances

abbrev IsClean : ErrValidation → Type 0
IsClean v = (v.missing ≡ []) × (v.invalid ≡ [])

-- no name of the list has been seen
abbrev IsFresh : Dict Str ℕ → List Instance → Type 0
IsFresh seen = All (λ (j : Instance). lookup j.name seen ≡ none)

IsFresh-insert :
    (name : Str) (i : ℕ) (seen : Dict Str ℕ) (is : List Instance)
    → IsFresh (insert name i seen) is ↔ (IsFresh seen is × All (λ (j : Instance). j.name ≢ name) is)
IsFresh-insert name i seen [] = (λ _. (tt, tt), λ _. tt)
IsFresh-insert name i seen (j ∷ is) =
    let (down, up) = IsFresh-insert name i seen is in
    (
      λ (h, t).
          let (a, b) = down t in
          let e = lookup-insert name j.name i seen in
          ((ground (arith, e, eq_iff name j.name), a), (ground (arith, e, eq_iff name j.name), b)),
      λ ((h, a), (n, b)).
          (ground (arith, lookup-insert name j.name i seen, eq_iff name j.name), up (a, b)),
    )

missing_of_nil :
    (i : ℕ) (inst : Instance) (r : List Key)
    → (missing_of i inst ++ r ≡ []) ↔ (
        (inst.forgejo_url ≢ [])
        × (inst.forgejo_runner_token ≢ [])
        × (inst.forgejo_runner_labels ≢ [])
        × (r ≡ []))
unfolding missing_of
missing_of_nil i inst r = ground arith

invalid_of_nil :
    (i : ℕ) (inst : Instance) (r : List Key)
    → (invalid_of i inst ++ r ≡ []) ↔ (
        IsNonNegative inst.poll_interval
        × IsNonNegative inst.reg_token_ttl
        × IsNonNegative inst.ga_startup_timeout
        × IsNonNegative inst.heartbeat_interval
        × (r ≡ []))
unfolding invalid_of
invalid_of_nil i inst r = ground arith

duplicate_nil :
    (o : Option ℕ) (i : ℕ) (name : Str) (r : List Key)
    → (duplicate o i name ++ r ≡ []) ↔ ((o ≡ none) × (r ≡ []))
duplicate_nil none i name r = ground arith
duplicate_nil (some p) i name r = ground arith

check_instances-IsClean :
    (i : ℕ) (seen : Dict Str ℕ) (is : List Instance)
    → IsClean (check_instances i seen is)
      ↔ (All IsComplete is × HasUniqueNames is × IsFresh seen is)
unfolding check_instances
check_instances-IsClean i seen [] = (λ _. (tt, tt, tt), λ _. (refl, refl))
check_instances-IsClean i seen (inst ∷ is) =
    let seen' = insert inst.name i seen in
    let later = check_instances (suc i) seen' is in
    let (down, up) = check_instances-IsClean (suc i) seen' is in
    let (split, glue) = IsFresh-insert inst.name i seen is in
    let m = missing_of_nil i inst later.missing in
    let v = invalid_of_nil i inst later.invalid in
    let d =
      duplicate_nil (lookup inst.name seen) i inst.name (invalid_of i inst ++ later.invalid) in
    (
      λ (missing, invalid).
          let (url, token, labels, missing') = m.0 missing in
          let (fresh, invalid') = d.0 invalid in
          let (poll, ttl, startup, heartbeat, invalid'') = v.0 invalid' in
          let (complete, unique, fresh') = down (missing', invalid'') in
          let (old, differ) = split fresh' in
          (
            (
              record {
                url = url;
                token = token;
                labels = labels;
                poll = poll;
                ttl = ttl;
                startup = startup;
                heartbeat = heartbeat;
              },
              complete,
            ),
            (differ, unique),
            (fresh, old),
          ),
      λ ((c, complete), (differ, unique), (fresh, old)).
          let (missing, invalid) = up (complete, unique, glue (old, differ)) in
          (
            m.1 (c.url, c.token, c.labels, missing),
            d.1 (fresh, v.1 (c.poll, c.ttl, c.startup, c.heartbeat, invalid)),
          ),
    )

validate-eq-none : (c : Config) → (validate c ≡ none) ↔ IsClean (problems c)
unfolding validate
validate-eq-none c = ground arith

problems-IsClean :
    (c : Config) (i : Instance) (is : List Instance)
    → c.instances ≡ i ∷ is
    → IsClean (problems c) ↔ (
        (c.github_token ≢ [])
        × (c.github_repo ≢ [])
        × (c.github_workflow_id ≢ [])
        × IsNonNegative c.max_parallel_tasks
        × IsClean (check_instances 0 [] c.instances))
unfolding problems
problems-IsClean c i is e =
    let same : to_check c.instances ≡ c.instances = rw e refl in rw same (ground arith)

no_instances : (c : Config) → c.instances ≡ [] → ¬ IsClean (problems c)
unfolding problems
no_instances c e (missing, invalid) = ground arith

IsFresh-nil : (is : List Instance) → IsFresh [] is
unfolding lookup
IsFresh-nil [] = tt
IsFresh-nil (i ∷ is) = (refl, IsFresh-nil is)

IsClean-iff :
    (c : Config) (is : List Instance) → c.instances ≡ is → IsClean (problems c) ↔ IsAccepted c
IsClean-iff c [] e = (λ h. absurd (no_instances c e h), λ a. absurd (a.some_instance e))
IsClean-iff c (i ∷ is) e =
    let (down, up) = problems-IsClean c i is e in
    let (split, join) = check_instances-IsClean 0 [] c.instances in
    (
      λ h.
          let (token, repo, workflow, parallel, checks) = down h in
          let (complete, unique, _) = split checks in
          record {
            github_token = token;
            github_repo = repo;
            github_workflow_id = workflow;
            parallel = parallel;
            some_instance = λ none_left. cc;
            complete = complete;
            unique = unique;
          },
      λ a. up (
        a.github_token,
        a.github_repo,
        a.github_workflow_id,
        a.parallel,
        join (a.complete, a.unique, IsFresh-nil c.instances),
      ),
    )

-- A configuration passes the validation exactly if the GitHub keys are set, the number of tasks is
-- not negative, there is an instance, each instance has its URL, token and labels and no negative
-- duration, and no two instances have the same name.
pub validate_iff : (c : Config) → (validate c ≡ none) ↔ IsAccepted c
validate_iff c =
    let (down, up) = validate-eq-none c in
    let (accept, clean) = IsClean-iff c c.instances refl in
    (λ h. accept (down h), λ a. up (clean a))
