-- ===== src/North/Service/Heartbeats.antt =====
-- internal/north/client.go: the heartbeats of a task while Register is backing off.
use forgery.Base.{
  ℕ, suc, ◌+◌, ◌<◌, Str, ◌≡◌, refl, ap, ◌∙◌, inl, inr, arith, Bool, nat_eq, eq_refl, Option, List,
  [], ◌∷◌, map, length, All, Bool-cases,
}
use forgery.Proto.{RpcError}
use forgery.Config.{Instance}
use forgery.State.{Identity, Json}
use forgery.North.Connection.{
  ClientState, RunnerHeaders, RegisterMessage, Reply, backing_off, register_failed, call_headers,
  is_auth_error, attempt, recover, after_recovery, after_attempt, retry_on_auth,
  register_backoff_base,
}
use forgery.North.Connection.Backoff.{IsWait}
use forgery.North.Connection.Quiet.{IsQuiet, backoff_remaining_quiet, recover-Paces}
use forgery.North.Service.{
  RunnerService, alone, forward_update_task, heartbeat_request, start_heartbeat,
}

module _ (json : Json) (error_text : RpcError → Str) (inst : Instance) (version : Str) where
  recover_backing_off :
      (server : ℕ → RunnerHeaders → RegisterMessage → Reply (Option Identity)) (writes : Bool)
      (now later : ℕ) (s : ClientState)
      → IsQuiet now s
      → later < now + register_backoff_base
      → recover json error_text inst version server writes s.generation later s ≡ (backing_off, s)
  unfolding recover
  recover_backing_off server writes now later s quiet soon =
      rw (eq_refl s.generation, backoff_remaining_quiet now later s quiet soon) refl

  -- One request and no other, whatever the reply to it.
  retry_on_auth_quiet {ℓ} :
      {A : Type ℓ} (server : ℕ → RunnerHeaders → RegisterMessage → Reply (Option Identity))
      (writes : Bool) (call : ℕ → RunnerHeaders → Reply A) (now later : ℕ) (s : ClientState)
      → IsQuiet now s
      → later < now + register_backoff_base
      → retry_on_auth json error_text inst version server writes
          (λ t. t)
          (λ t. t)
          (λ t. t)
          later
          call
          s
        ≡ (call s.requests (call_headers inst version s), record s { requests = suc s.requests })
  unfolding retry_on_auth after_attempt after_recovery attempt
  retry_on_auth_quiet server writes call now later s quiet soon =
      let kept =
        recover_backing_off server writes now later (record s { requests = suc s.requests }) quiet
          soon in
      elim (Bool-cases (is_auth_error (call s.requests (call_headers inst version s)))) [
        | inl rejected ↦ rw (rejected, kept) refl
        | inr answered ↦ rw answered refl
      ]

  module _ (service : RunnerService) where
    abbrev pub heartbeats : ℕ → List (ℕ × Bool) → ClientState → ClientState
    heartbeats task_id ticks =
        start_heartbeat json error_text inst version service task_id
          (map (λ (now, writes). alone now writes) ticks)

    start_heartbeat_quiet :
        (task_id now : ℕ) (ticks : List (ℕ × Bool)) (s : ClientState)
        → IsQuiet now s
        → All (λ tick. tick.0 < now + register_backoff_base) ticks
        → heartbeats task_id ticks s ≡ record s { requests = s.requests + length ticks }
    unfolding start_heartbeat forward_update_task
    start_heartbeat_quiet task_id now [] s quiet soon =
        ap (λ n. record s { requests = n }) (omega arith)
    start_heartbeat_quiet task_id now ((later, writes) ∷ ticks) s quiet (first, rest) =
        let beat =
          retry_on_auth_quiet service.register writes
            (λ n h.
              service.update_task n h
                (heartbeat_request json error_text inst version service task_id))
            now later s quiet first in
        let sent = record s { requests = suc s.requests } in
        ap (λ p. heartbeats task_id ticks p.1) beat
        ∙ start_heartbeat_quiet task_id now ticks sent quiet rest
        ∙ ap (λ n. record s { requests = n }) (omega arith)

    -- After a recovery whose Register failed, the heartbeats of a task in the next 30 seconds, with no
    -- other request meanwhile, make just one request each, whatever the instance replies, and leave
    -- the identity, its generation, the backoff and the state file as they are.
    pub start_heartbeat-recover :
        (server : ℕ → RunnerHeaders → RegisterMessage → Reply (Option Identity)) (writes : Bool)
        (gen now task_id : ℕ) (ticks : List (ℕ × Bool)) (s : ClientState)
        → IsWait s.backoff_wait
        → (recover json error_text inst version server writes gen now s).0 ≡ register_failed
        → All (λ tick. tick.0 < now + register_backoff_base) ticks
        → (let failed = (recover json error_text inst version server writes gen now s).1 in
            heartbeats task_id ticks failed
            ≡ record failed { requests = failed.requests + length ticks })
    start_heartbeat-recover server writes gen now task_id ticks s wait failed soon =
        start_heartbeat_quiet task_id now ticks
          (recover json error_text inst version server writes gen now s).1
          ((recover-Paces json error_text inst version server writes gen now s wait).1 failed) soon
