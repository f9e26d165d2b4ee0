-- ===== src/Dispatch/Retries.antt =====
-- internal/dispatch/github.go: how often a dispatch is tried, and what it waits between the attempts.
use forgery.Base.{
  ℕ, zero, suc, ◌+◌, ◌*◌, ◌≤◌, ◌<◌, ◌≡◌, refl, ap, subst, arith, Bool, false, some, List, [], ◌∷◌,
  inl, inr, Bool-cases, Option-cases,
}
use forgery.Dispatch.{
  Response, DispatchFailure, outcome, is_client_error, Run, after_request, initial_backoff, retries,
  trigger_with_retry, exhausted,
}

-- each backoff is twice the one before
abbrev pub Doubling : ℕ → List ℕ → Type 0
Doubling b [] = Unit
Doubling b (c ∷ cs) = (c ≡ b) × Doubling (b * 2) cs

-- an attempt that failed in a way that is tried again
abbrev pub Retried : (ℕ → Response) → ℕ → Type 0
Retried send n = (e : DispatchFailure) × (outcome (send n) ≡ some e) × (is_client_error e ≡ false)

-- A run of the loop from an attempt on: at most `left` requests, doubling waits, and only the last
-- request is not one that is tried again.
pub record IsBounded (send : ℕ → Response) (left attempt backoff : ℕ) (r : Run) : Type 0 where
  pub requests_bound : r.requests ≤ left
  pub doubling : Doubling backoff r.backoffs
  pub all_retried : (i : ℕ) → suc i < r.requests → Retried send (attempt + i)
  pub exhausted_all : (e : DispatchFailure) → r.ending ≡ exhausted e → r.requests ≡ left

Retried-next :
    (send : ℕ → Response) (attempt n : ℕ)
    → Retried send attempt
    → ((i : ℕ) → suc i < n → Retried send (suc attempt + i))
    → (i : ℕ) → suc i < suc n
    → Retried send (attempt + i)
Retried-next send attempt n first later zero k = subst (Retried send) (omega arith) first
Retried-next send attempt n first later (suc j) k =
    subst (Retried send) (omega arith) (later j (omega arith))

-- One more request in front of a bounded run.
after_request-IsBounded :
    (send : ℕ → Response) (left attempt backoff : ℕ) (rest : DispatchFailure → Run)
    → ((e : DispatchFailure) → IsBounded send left (suc attempt) backoff (rest e))
    → IsBounded send (suc left) attempt backoff (after_request (outcome (send attempt)) rest)
after_request-IsBounded send left attempt backoff rest h =
    elim (Option-cases (outcome (send attempt))) [
      | inl won ↦ rw won (record {
        requests_bound = omega arith;
        doubling = record {};
        all_retried = λ i k. absurd (omega arith);
        exhausted_all = λ e k. cc;
      })
      | inr (f, failed) ↦ elim (Bool-cases (is_client_error f)) [
        | inl client ↦
            rw (failed, client)
              (record {
                requests_bound = omega arith;
                doubling = record {};
                all_retried = λ i k. absurd (omega arith);
                exhausted_all = λ e k. cc;
              })
        | inr again ↦
            rw (failed, again)
              (record {
                requests_bound = omega (arith, (h f).requests_bound);
                doubling = (h f).doubling;
                all_retried =
                    Retried-next send attempt (rest f).requests (f, failed, again)
                      (h f).all_retried;
                exhausted_all = λ e k. ap suc ((h f).exhausted_all e k);
              })
      ]
    ]

retries-IsBounded :
    (send : ℕ → Response) (interrupted : ℕ → Bool) (left attempt backoff : ℕ) (e : DispatchFailure)
    → IsBounded send left attempt backoff (retries send interrupted left attempt backoff e)
unfolding retries
retries-IsBounded send interrupted zero attempt backoff e = record {
  requests_bound = omega arith;
  doubling = record {};
  all_retried = λ i h. absurd (omega arith);
  exhausted_all = λ e h. refl;
}
retries-IsBounded send interrupted (suc left) attempt backoff e =
    elim (Bool-cases (interrupted attempt)) [
      | inl stop ↦ rw stop (record {
        requests_bound = omega arith;
        doubling = record {};
        all_retried = λ i k. absurd (omega arith);
        exhausted_all = λ e k. cc;
      })
      | inr go ↦
          let r =
            after_request-IsBounded send left attempt (backoff * 2) _
              (λ f. retries-IsBounded send interrupted left (suc attempt) (backoff * 2) f) in
          rw go (record {
            requests_bound = r.requests_bound;
            doubling = (refl, r.doubling);
            all_retried = r.all_retried;
            exhausted_all = r.exhausted_all;
          })
    ]

-- The loop sends at most one request more than it may retry, and exactly that many where it gives up
-- with the last error. Every request but the last one failed with no client error, and the waits
-- double from the initial backoff on.
pub trigger_with_retry-IsBounded :
    (send : ℕ → Response) (interrupted : ℕ → Bool) (max_retries : ℕ)
    → IsBounded send
        (suc max_retries)
        0
        initial_backoff
        (trigger_with_retry send interrupted max_retries)
unfolding trigger_with_retry
trigger_with_retry-IsBounded send interrupted max_retries =
    after_request-IsBounded send max_retries 0 initial_backoff _
      (λ e. retries-IsBounded send interrupted max_retries 1 initial_backoff e)
