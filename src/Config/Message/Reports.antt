-- ===== src/Config/Message/Reports.antt =====
-- internal/config/config.go: one run of `validate` reports everything that is wrong with an instance.
use mathlib.Core.List.{append-nil}
use mathlib.Core.Option.{some-injective}
use forgery.Base.{
  ℕ, zero, suc, ◌+◌, Str, text, ltz, pos, ◌≡◌, ◌⊎◌, refl, sym, ap, subst, arith, Bool, true, false,
  Option, none, some, List, [], ◌∷◌, ◌++◌, is_empty, In, inl, inr, Dict, insert, lookup, str_eq,
  Bool-cases,
}
use forgery.Config.{
  Instance, Config, Key, global_key, instance_key, when, duplicate, ErrValidation, missing_of,
  invalid_of, check_instances, to_check, problems, validate,
}
use forgery.Config.Message.{missing_text, invalid_text, error_text}
use forgery.Config.Message.Mentions.{
  Mentions, Mentions-missing, Mentions-invalid, In-left, In-right,
}

-- the instance at an index
unfoldable pub instance_at : ℕ → List Instance → Option Instance
instance_at n [] = none
instance_at zero (inst ∷ rest) = some inst
instance_at (suc n) (inst ∷ rest) = instance_at n rest

-- What is wrong with an instance is listed under its index.
check_instances-lists :
    (n i j : ℕ) (seen : Dict Str ℕ) (insts : List Instance) (inst : Instance) (k : Key)
    → instance_at n insts ≡ some inst
    → j ≡ i + n
    → (In k (missing_of j inst) → In k (check_instances i seen insts).missing)
      × (In k (invalid_of j inst) → In k (check_instances i seen insts).invalid)
unfolding instance_at check_instances
check_instances-lists n i j seen [] inst k e at = cc
check_instances-lists zero i j seen (x ∷ insts) inst k e at =
    let same : x ≡ inst = some-injective x inst e in
    let here : j ≡ i = omega (arith, at) in
    let later = check_instances (suc i) (insert x.name i seen) insts in
    (
      λ h. In-left k (missing_of i x) later.missing (
          subst (λ y. In k (missing_of i y)) (sym same)
            (subst (λ m. In k (missing_of m inst)) here h)),
      λ h. In-right k (duplicate (lookup x.name seen) i x.name) (invalid_of i x ++ later.invalid) (
          In-left k (invalid_of i x) later.invalid (
            subst (λ y. In k (invalid_of i y)) (sym same)
              (subst (λ m. In k (invalid_of m inst)) here h))),
    )
check_instances-lists (suc n) i j seen (x ∷ insts) inst k e at =
    let (missing, invalid) =
      check_instances-lists n (suc i) j (insert x.name i seen) insts inst k e (omega (arith, at)) in
    (
      λ h. In-right k (missing_of i x) _ (missing h),
      λ h.
          In-right k (duplicate (lookup x.name seen) i x.name) _
            (In-right k (invalid_of i x) _ (invalid h)),
    )

instance_at-to_check :
    (n : ℕ) (insts : List Instance) (inst : Instance)
    → instance_at n insts ≡ some inst
    → instance_at n (to_check insts) ≡ some inst
unfolding instance_at
instance_at-to_check n [] inst e = cc
instance_at-to_check n (x ∷ insts) inst e = e

In-last : (k : Key) (a b c d xs : List Key) → In k xs → In k (a ++ (b ++ (c ++ (d ++ xs))))
In-last k a b c d xs i =
    In-right k a _ (In-right k b (c ++ (d ++ xs)) (In-right k c (d ++ xs) (In-right k d xs i)))

problems-lists :
    (c : Config) (n : ℕ) (inst : Instance) (k : Key)
    → instance_at n c.instances ≡ some inst
    → (In k (missing_of n inst) → In k (problems c).missing)
      × (In k (invalid_of n inst) → In k (problems c).invalid)
unfolding problems
problems-lists c n inst k e =
    let found = check_instances 0 [] (to_check c.instances) in
    let (missing, invalid) =
      check_instances-lists n 0 n [] (to_check c.instances) inst k
        (instance_at-to_check n c.instances inst e) (omega arith) in
    (
      λ h.
          In-last k (when (is_empty c.github_token) (global_key (text "github_token")))
            (when (is_empty c.github_repo) (global_key (text "github_repo")))
            (when (is_empty c.github_workflow_id) (global_key (text "github_workflow_id")))
            (when (is_empty c.instances) (global_key (text "instances"))) found.missing (missing h),
      λ h.
          In-right k
            (when (ltz c.max_parallel_tasks (pos 0)) (global_key (text "max_parallel_tasks")))
            found.invalid (invalid h),
    )

In-is_empty : {A : Type 0} (a : A) (xs : List A) → In a xs → is_empty xs ≡ false
In-is_empty a [] i = absurd i
In-is_empty a (x ∷ xs) i = refl

validate-reports :
    (c : Config) (k : Key)
    → In k (problems c).missing ⊎ In k (problems c).invalid
    → validate c ≡ some (problems c)
unfolding validate
validate-reports c k (inl i) = rw (In-is_empty k (problems c).missing i) refl
validate-reports c k (inr i) = elim (Bool-cases (is_empty (problems c).missing)) [
  | inl empty ↦ rw (empty, In-is_empty k (problems c).invalid i) refl
  | inr listed ↦ rw listed refl
]

-- A required field of an instance is not there.
pub data Lacks (inst : Instance) (field : Str) : Type 0 where
  no_url : field ≡ text "forgejo_url" → inst.forgejo_url ≡ [] → Lacks inst field
  no_token : field ≡ text "forgejo_runner_token" → inst.forgejo_runner_token ≡ [] → Lacks inst field
  no_labels :
      field ≡ text "forgejo_runner_labels" → inst.forgejo_runner_labels ≡ [] → Lacks inst field

-- A duration of an instance is negative.
pub data IsNegative (inst : Instance) (field : Str) : Type 0 where
  poll :
      field ≡ text "poll_interval" → ltz inst.poll_interval (pos 0) ≡ true → IsNegative inst field
  ttl : field ≡ text "reg_token_ttl" → ltz inst.reg_token_ttl (pos 0) ≡ true → IsNegative inst field
  startup :
      field ≡ text "ga_startup_timeout"
      → ltz inst.ga_startup_timeout (pos 0) ≡ true
      → IsNegative inst field
  heartbeat :
      field ≡ text "heartbeat_interval"
      → ltz inst.heartbeat_interval (pos 0) ≡ true
      → IsNegative inst field

module _ (n : ℕ) (inst : Instance) (field : Str) where
  -- an entry that its test puts in
  entry :
      (name : Str) (b : Bool)
      → field ≡ name
      → b ≡ true
      → In (instance_key n field) (when b (instance_key n name))
  entry name b e h = rw (e, h) (inl refl)

  abbrev lacking : Bool → Str → List Key
  lacking b name = when b (instance_key n name)

  abbrev url : List Key
  url = lacking (is_empty inst.forgejo_url) (text "forgejo_url")

  abbrev token : List Key
  token = lacking (is_empty inst.forgejo_runner_token) (text "forgejo_runner_token")

  abbrev labels : List Key
  labels = lacking (is_empty inst.forgejo_runner_labels) (text "forgejo_runner_labels")

  Lacks-missing : Lacks inst field → In (instance_key n field) (missing_of n inst)
  unfolding missing_of
  Lacks-missing (no_url e h) =
      In-left _ (url ++ token) labels (In-left _ url token (entry _ _ e (ap is_empty h)))
  Lacks-missing (no_token e h) =
      In-left _ (url ++ token) labels (In-right _ url token (entry _ _ e (ap is_empty h)))
  Lacks-missing (no_labels e h) = In-right _ (url ++ token) labels (entry _ _ e (ap is_empty h))

  abbrev poll_key : List Key
  poll_key = lacking (ltz inst.poll_interval (pos 0)) (text "poll_interval")

  abbrev ttl_key : List Key
  ttl_key = lacking (ltz inst.reg_token_ttl (pos 0)) (text "reg_token_ttl")

  abbrev startup_key : List Key
  startup_key = lacking (ltz inst.ga_startup_timeout (pos 0)) (text "ga_startup_timeout")

  abbrev heartbeat_key : List Key
  heartbeat_key = lacking (ltz inst.heartbeat_interval (pos 0)) (text "heartbeat_interval")

  IsNegative-invalid : IsNegative inst field → In (instance_key n field) (invalid_of n inst)
  unfolding invalid_of
  IsNegative-invalid (poll e h) =
      In-left _ ((poll_key ++ ttl_key) ++ startup_key) heartbeat_key
        (In-left _ (poll_key ++ ttl_key) startup_key (In-left _ poll_key ttl_key (entry _ _ e h)))
  IsNegative-invalid (ttl e h) =
      In-left _ ((poll_key ++ ttl_key) ++ startup_key) heartbeat_key
        (In-left _ (poll_key ++ ttl_key) startup_key (In-right _ poll_key ttl_key (entry _ _ e h)))
  IsNegative-invalid (startup e h) =
      In-left _ ((poll_key ++ ttl_key) ++ startup_key) heartbeat_key
        (In-right _ (poll_key ++ ttl_key) startup_key (entry _ _ e h))
  IsNegative-invalid (heartbeat e h) =
      In-right _ ((poll_key ++ ttl_key) ++ startup_key) heartbeat_key (entry _ _ e h)

-- What is wrong with a field, and what the text adds to its name.
abbrev pub IsFlawed : Instance → Str → Str → Type 0
IsFlawed inst field note =
    (Lacks inst field × (note ≡ [])) ⊎ (IsNegative inst field × (note ≡ text " (must be positive)"))

-- One run reports every problem of every instance: where an instance lacks its URL, its runner token or its
-- labels, or one of its four durations is negative, the configuration is refused, with an error whose text
-- names the field under the index of the instance, and says of a duration that it must be positive.
pub validate-Mentions :
    (decimal : ℕ → Str) (quote : Str → Str) (c : Config) (n : ℕ) (inst : Instance)
    (field note : Str)
    → instance_at n c.instances ≡ some inst
    → IsFlawed inst field note
    → (v : ErrValidation) × (validate c ≡ some v)
      × Mentions
          (error_text decimal quote v)
          (text "instances[" ++ decimal n ++ text "]" ++ text "." ++ field ++ note)
unfolding missing_text invalid_text
validate-Mentions decimal quote c n inst field note found (inl (lacks, e)) =
    let key = instance_key n field in
    let listed = (problems-lists c n inst key found).0 (Lacks-missing n inst field lacks) in
    (
      problems c,
      validate-reports c key (inl listed),
      rw (e, append-nil) (Mentions-missing decimal quote (problems c) key listed),
    )
validate-Mentions decimal quote c n inst field note found (inr (negative, e)) =
    let key = instance_key n field in
    let listed = (problems-lists c n inst key found).1 (IsNegative-invalid n inst field negative) in
    (
      problems c,
      validate-reports c key (inr listed),
      rw e (Mentions-invalid decimal quote (problems c) key listed),
    )
