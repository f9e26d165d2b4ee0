-- ===== src/North/Connection/Granted.antt =====
-- internal/north/client.go: a rejected request whose client is given a new identity by the instance.
use forgery.Base.{
  ℕ, suc, ◌+◌, ◌%◌, Str, ◌≡◌, refl, arith, Bool, true, false, nat_eq, eq_refl, str_eq, Option, none,
  some,
}
use forgery.Proto.{RpcError}
use forgery.Config.{Instance}
use forgery.State.{Identity, Json, Disk, save}
use forgery.North.Connection.{
  ClientState, RunnerHeaders, RegisterMessage, RegisterError, Reply, reply, rpc_error,
  persist_failed, u64_mod, register_message, register_headers, call_headers, persisted,
  register_reply, register, recovered, recover, note_register_failure, set_backoff, reset_backoff,
  backoff_remaining, attempt, is_auth_code, after_recovery, after_attempt, retry_on_auth,
}

-- the client once the new identity is in memory and the attempt to persist it is over
abbrev pub with_identity : Identity → Disk → ClientState → ClientState
with_identity id disk s = record s { identity = id; disk = disk; requests = suc s.requests }

module _ (json : Json) (error_text : RpcError → Str) (inst : Instance) (version : Str)
    (server : ℕ → RunnerHeaders → RegisterMessage → Reply (Option Identity)) (writes : Bool) where
  persisted_kept :
      (p : Bool × Disk) (s : ClientState)
      → p.0 ≡ true
      → persisted json error_text inst version server writes p s
        ≡ (none, reset_backoff (record s { disk = p.1; generation = (s.generation + 1) % u64_mod }))
  unfolding persisted
  persisted_kept (true, disk) s h = refl
  persisted_kept (false, disk) s h = cc

  persisted_lost :
      (p : Bool × Disk) (s : ClientState)
      → p.0 ≡ false
      → persisted json error_text inst version server writes p s
        ≡ (some persist_failed, record s { disk = p.1 })
  unfolding persisted
  persisted_lost (true, disk) s h = cc
  persisted_lost (false, disk) s h = refl

module _ (json : Json) (error_text : RpcError → Str) (inst : Instance) (version : Str)
    (server : ℕ → RunnerHeaders → RegisterMessage → Reply (Option Identity)) (writes : Bool)
    (id : Identity) (s : ClientState)
    (granted : server s.requests (register_headers inst version) (register_message inst version)
      ≡ reply (some id)) where
  abbrev after_save : ClientState
  after_save = with_identity id (save json writes inst.forgejo_url id s.disk).1 s

  register_granted :
      ((save json writes inst.forgejo_url id s.disk).0 ≡ true
        → register json error_text inst version server writes s
          ≡ (none, reset_backoff (record after_save { generation = (s.generation + 1) % u64_mod })))
      × ((save json writes inst.forgejo_url id s.disk).0 ≡ false
          → register json error_text inst version server writes s
            ≡ (some persist_failed, after_save))
  unfolding register register_reply persisted
  register_granted = (
    λ kept.
        rw (granted, register)
          (persisted_kept json error_text inst version server writes
            (save json writes inst.forgejo_url id s.disk)
            (record s { identity = id; requests = suc s.requests }) kept),
    λ lost.
        rw (granted, register)
          (persisted_lost json error_text inst version server writes
            (save json writes inst.forgejo_url id s.disk)
            (record s { identity = id; requests = suc s.requests }) lost),
  )

  recover_granted :
      (now : ℕ)
      → backoff_remaining now s ≡ 0
      → recover json error_text inst version server writes s.generation now s
        ≡ recovered json error_text inst version server writes now
            (register json error_text inst version server writes s)
  unfolding recover
  recover_granted now due = rw (eq_refl s.generation, due) refl

note_register_failure_keeps :
    (error_text : RpcError → Str) (now : ℕ) (e : RegisterError) (s : ClientState)
    → ((note_register_failure error_text now e s).identity ≡ s.identity)
      × ((note_register_failure error_text now e s).generation ≡ s.generation)
unfolding note_register_failure set_backoff
note_register_failure_keeps error_text now e s = ground arith

-- a request whose first attempt is rejected, with no other goroutine at work
retry_on_auth_rejected {ℓ} :
    {A : Type ℓ} (json : Json) (error_text : RpcError → Str) (inst : Instance) (version : Str)
    (server : ℕ → RunnerHeaders → RegisterMessage → Reply (Option Identity)) (writes : Bool)
    (call : ℕ → RunnerHeaders → Reply A) (e : RpcError) (now : ℕ) (s : ClientState)
    → call s.requests (call_headers inst version s) ≡ rpc_error e
    → is_auth_code e.code ≡ true
    → retry_on_auth json error_text inst version server writes (λ t. t) (λ t. t) (λ t. t) now call s
      ≡ after_recovery json error_text inst version server writes
          (λ t. t)
          (λ t. t)
          (λ t. t)
          now
          call
          (rpc_error e)
          (recover json error_text inst version server writes s.generation now
            (record s { requests = suc s.requests }))
unfolding retry_on_auth after_attempt attempt
retry_on_auth_rejected json error_text inst version server writes call e now s first auth =
    rw (first, auth) refl

-- A request that is rejected for its identity while no other goroutine acts, at a time when Register is
-- due and the instance grants a new identity. Where this identity can be saved, the request is made
-- once more under it, its reply is the result, and the client is one generation further with no
-- backoff. Where it cannot, the first error is the result although the client already holds the new
-- identity, still under the old generation.
pub retry_on_auth_granted {ℓ} :
    {A : Type ℓ} (json : Json) (error_text : RpcError → Str) (inst : Instance) (version : Str)
    (server : ℕ → RunnerHeaders → RegisterMessage → Reply (Option Identity)) (writes : Bool)
    (id : Identity) (call : ℕ → RunnerHeaders → Reply A) (e : RpcError) (now : ℕ) (s : ClientState)
    → call s.requests (call_headers inst version s) ≡ rpc_error e
    → is_auth_code e.code ≡ true
    → backoff_remaining now s ≡ 0
    → server (suc s.requests) (register_headers inst version) (register_message inst version)
      ≡ reply (some id)
    → ((save json writes inst.forgejo_url id s.disk).0 ≡ true
        → ((retry_on_auth json error_text inst version server writes
              (λ t. t)
              (λ t. t)
              (λ t. t)
              now
              call
              s).0
            ≡ call (suc (suc s.requests)) (call_headers inst version (record s { identity = id })))
          × ((retry_on_auth json error_text inst version server writes
                (λ t. t)
                (λ t. t)
                (λ t. t)
                now
                call
                s).1
              ≡ record s {
                identity = id;
                generation = (s.generation + 1) % u64_mod;
                backoff_next = none;
                backoff_wait = 0;
                disk = (save json writes inst.forgejo_url id s.disk).1;
                requests = suc (suc (suc s.requests));
              }))
      × ((save json writes inst.forgejo_url id s.disk).0 ≡ false
          → ((retry_on_auth json error_text inst version server writes
                (λ t. t)
                (λ t. t)
                (λ t. t)
                now
                call
                s).0
              ≡ rpc_error e)
            × ((retry_on_auth json error_text inst version server writes
                  (λ t. t)
                  (λ t. t)
                  (λ t. t)
                  now
                  call
                  s).1.identity
                ≡ id)
            × ((retry_on_auth json error_text inst version server writes
                  (λ t. t)
                  (λ t. t)
                  (λ t. t)
                  now
                  call
                  s).1.generation
                ≡ s.generation))
unfolding after_recovery attempt recovered reset_backoff
retry_on_auth_granted {A} json error_text inst version server writes id call e now s first auth due
      granted =
    let s' = record s { requests = suc s.requests } in
    let path =
      recover_granted json error_text inst version server writes id s' granted now
        (unfold backoff_remaining in due) in
    let both = register_granted json error_text inst version server writes id s' granted in
    let same =
      note_register_failure_keeps error_text now persist_failed
        (with_identity id (save json writes inst.forgejo_url id s.disk).1 s') in
    let alone =
      retry_on_auth_rejected json error_text inst version server writes call e now s first auth in
    (
      λ kept. rw (alone, path, both.0 kept) (refl, refl),
      λ lost. rw (alone, path, both.1 lost) (refl, same.0, same.1),
    )
