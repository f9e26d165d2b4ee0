-- ===== src/North/Connection/Retry.antt =====
-- internal/north/client.go: what a recovery does to the identity, its generation and the backoff.
use forgery.Base.{
  ℕ, suc, ◌+◌, ◌%◌, Str, ◌≡◌, refl, inl, inr, arith, Bool, true, false, ◌==◌, nat_eq, eq_iff,
  str_eq, Option, none, some, ltb, Bool-cases,
}
use forgery.Proto.{RpcError}
use forgery.Config.{Instance}
use forgery.State.{Identity, Json, Disk, save}
use forgery.North.Connection.{
  attempt, ClientState, RunnerHeaders, RegisterMessage, RegisterError, Reply, reply, rpc_error,
  u64_mod, Recovery, refreshed, backing_off, register_failed, registered_anew, register_message,
  register_headers, persisted, register_reply, register, recovered, recover, note_register_failure,
  set_backoff, reset_backoff, backoff_remaining,
}

-- How a recovery moves the generation that a rejected request was issued under.
abbrev pub Recovers : ℕ → ClientState → Recovery × ClientState → Type 0
Recovers gen s (registered_anew, t) = (s.generation ≡ gen) × (t.generation ≡ (gen + 1) % u64_mod)
Recovers gen s (register_failed, t) = (s.generation ≡ gen) × (t.generation ≡ gen)
Recovers gen s (backing_off, t) = t ≡ s
Recovers gen s (refreshed, t) = t ≡ s

module _ (json : Json) (error_text : RpcError → Str) (inst : Instance) (version : Str)
    (server : ℕ → RunnerHeaders → RegisterMessage → Reply (Option Identity)) (writes : Bool) where
  -- How an operation moves the generation: a success counts it up, a failure leaves it.
  abbrev Counts : ClientState → Option RegisterError × ClientState → Type 0
  Counts s (none, t) = t.generation ≡ (s.generation + 1) % u64_mod
  Counts s (some e, t) = t.generation ≡ s.generation

  persisted-Counts :
      (p : Bool × Disk) (s : ClientState)
      → Counts s (persisted json error_text inst version server writes p s)
  unfolding persisted reset_backoff
  persisted-Counts (true, disk) s = refl
  persisted-Counts (false, disk) s = refl

  register_reply-Counts :
      (r : Reply (Option Identity)) (s : ClientState)
      → Counts s (register_reply json error_text inst version server writes r s)
  unfolding register_reply
  register_reply-Counts (rpc_error e) s = refl
  register_reply-Counts (reply none) s = refl
  register_reply-Counts (reply (some id)) s =
      persisted-Counts (save json writes inst.forgejo_url id s.disk) (record s { identity = id })

  register-Counts :
      (s : ClientState) → Counts s (register json error_text inst version server writes s)
  unfolding register
  register-Counts s =
      register_reply-Counts
        (server s.requests (register_headers inst version) (register_message inst version))
        (record s { requests = suc s.requests })

  recovered-Recovers :
      (now gen : ℕ) (s : ClientState) (p : Option RegisterError × ClientState)
      → s.generation ≡ gen
      → Counts s p
      → Recovers gen s (recovered json error_text inst version server writes now p)
  unfolding recovered note_register_failure set_backoff
  recovered-Recovers now gen s (none, t) h c = (h, ground arith)
  recovered-Recovers now gen s (some e, t) h c = (h, ground arith)

  pub recover-Recovers :
      (gen now : ℕ) (s : ClientState)
      → Recovers gen s (recover json error_text inst version server writes gen now s)
  unfolding recover
  recover-Recovers gen now s = elim (Bool-cases (s.generation == gen)) [
    | inr other ↦ rw other refl
    | inl same ↦ elim (Bool-cases (ltb 0 (backoff_remaining now s))) [
      | inl waits ↦ rw (same, waits) refl
      | inr due ↦
          rw (same, due)
            (recovered-Recovers now gen s (register json error_text inst version server writes s)
              ((eq_iff s.generation gen).0 same) (register-Counts s))
    ]
  ]

pub attempt-generation {ℓ} :
    {A : Type ℓ} (inst : Instance) (version : Str) (call : ℕ → RunnerHeaders → Reply A)
    (s : ClientState)
    → (attempt inst version call s).1.generation ≡ s.generation
unfolding attempt
attempt-generation inst version call s = refl
