-- ===== src/North/Connection/Quiet.antt =====
-- internal/north/client.go: when a client registers again, and when it stays quiet.
use forgery.Base.{
  ℕ, suc, ◌+◌, ◌-◌, ◌<◌, ◌≤◌, Str, ◌≡◌, refl, inl, inr, arith, Bool, true, false, ◌==◌, nat_eq,
  str_eq, Option, none, some, ltb, lt→ltb, Bool-cases,
}
use forgery.Proto.{RpcError}
use forgery.Config.{Instance}
use forgery.State.{Identity, Json, Disk, save}
use forgery.North.Connection.{
  ClientState, RunnerHeaders, RegisterMessage, RegisterError, Reply, reply, rpc_error, Recovery,
  register_failed, register_message, register_headers, persisted, register_reply, register,
  recovered, recover, note_register_failure, set_backoff, next_wait, reset_backoff,
  backoff_remaining, register_backoff_base, register_backoff_max, is_registration_token_error,
}
use forgery.North.Connection.Backoff.{IsWait, next_wait-bounds}

-- Register is not due before 30 seconds after `now`.
abbrev pub IsQuiet : ℕ → ClientState → Type 0
IsQuiet now s = (due : ℕ) × (s.backoff_next ≡ some due) × (now + register_backoff_base ≤ due)

note_register_failure-IsQuiet :
    (error_text : RpcError → Str) (now : ℕ) (e : RegisterError) (s : ClientState)
    → IsWait s.backoff_wait
    → IsQuiet now (note_register_failure error_text now e s)
      × IsWait (note_register_failure error_text now e s).backoff_wait
unfolding note_register_failure set_backoff
note_register_failure-IsQuiet error_text now e s h =
    elim (Bool-cases (is_registration_token_error error_text e)) [
      | inl config ↦
          rw config
            ((now + register_backoff_max, refl, omega arith), inr (omega arith, omega arith))
      | inr other ↦ rw other (
          let (low, high) = next_wait-bounds s.backoff_wait h in
          ((now + next_wait s.backoff_wait, refl, omega arith), inr (low, high)))
    ]

pub backoff_remaining_quiet :
    (now later : ℕ) (s : ClientState)
    → IsQuiet now s
    → later < now + register_backoff_base
    → ltb 0 (backoff_remaining later s) ≡ true
unfolding backoff_remaining
backoff_remaining_quiet now later s (due, next, far) h =
    rw (next, backoff_remaining) (lt→ltb 0 (due - later) (omega arith))

module _ (json : Json) (error_text : RpcError → Str) (inst : Instance) (version : Str)
    (server : ℕ → RunnerHeaders → RegisterMessage → Reply (Option Identity)) (writes : Bool) where
  abbrev Keeps : ClientState → Option RegisterError × ClientState → Type 0
  Keeps s (none, t) = (t.backoff_wait ≡ 0) × (t.backoff_next ≡ none)
  Keeps s (some e, t) = (t.backoff_wait ≡ s.backoff_wait) × (t.backoff_next ≡ s.backoff_next)

  persisted-Keeps :
      (p : Bool × Disk) (s : ClientState)
      → Keeps s (persisted json error_text inst version server writes p s)
  unfolding persisted reset_backoff
  persisted-Keeps (true, disk) s = (refl, refl)
  persisted-Keeps (false, disk) s = (refl, refl)

  register_reply-Keeps :
      (r : Reply (Option Identity)) (s : ClientState)
      → Keeps s (register_reply json error_text inst version server writes r s)
  unfolding register_reply
  register_reply-Keeps (rpc_error e) s = (refl, refl)
  register_reply-Keeps (reply none) s = (refl, refl)
  register_reply-Keeps (reply (some id)) s =
      persisted-Keeps (save json writes inst.forgejo_url id s.disk) (record s { identity = id })

  register-Keeps :
      (s : ClientState) → Keeps s (register json error_text inst version server writes s)
  unfolding register
  register-Keeps s =
      register_reply-Keeps
        (server s.requests (register_headers inst version) (register_message inst version))
        (record s { requests = suc s.requests })

  -- A recovery keeps the wait in its bounds, and a failed one makes the client quiet.
  abbrev Paces : ℕ → ClientState → Recovery × ClientState → Type 0
  Paces now s (r, t) = IsWait t.backoff_wait × (r ≡ register_failed → IsQuiet now t)

  recovered-Paces :
      (now : ℕ) (s : ClientState) (p : Option RegisterError × ClientState)
      → IsWait s.backoff_wait
      → Keeps s p
      → Paces now s (recovered json error_text inst version server writes now p)
  unfolding recovered
  recovered-Paces now s (none, t) h k = (inl k.0, λ bad. cc)
  recovered-Paces now s (some e, t) h k =
      let (quiet, wait) = note_register_failure-IsQuiet error_text now e t (rw k.0 h) in
      (wait, λ same. quiet)

  pub recover-Paces :
      (gen now : ℕ) (s : ClientState)
      → IsWait s.backoff_wait
      → Paces now s (recover json error_text inst version server writes gen now s)
  unfolding recover
  recover-Paces gen now s h = elim (Bool-cases (s.generation == gen)) [
    | inr other ↦ rw other (h, λ bad. cc)
    | inl same ↦ elim (Bool-cases (ltb 0 (backoff_remaining now s))) [
      | inl waits ↦ rw (same, waits) (h, λ bad. cc)
      | inr due ↦
          rw (same, due)
            (recovered-Paces now s (register json error_text inst version server writes s) h
              (register-Keeps s))
    ]
  ]

  -- While a client is quiet a recovery sends nothing and changes nothing.
  pub recover_quiet :
      (gen now later : ℕ) (s : ClientState)
      → IsQuiet now s
      → later < now + register_backoff_base
      → (recover json error_text inst version server writes gen later s).1 ≡ s
  unfolding recover
  recover_quiet gen now later s quiet h = elim (Bool-cases (s.generation == gen)) [
    | inr other ↦ rw other refl
    | inl same ↦ rw (same, backoff_remaining_quiet now later s quiet h) refl
  ]

-- After a recovery whose Register failed, every recovery in the next 30 seconds, for whatever request
-- and whatever the instance would reply, sends nothing and leaves the client as it is.
recover-recover :
    (json : Json) (error_text : RpcError → Str) (inst : Instance) (version : Str)
    (server server' : ℕ → RunnerHeaders → RegisterMessage → Reply (Option Identity))
    (writes writes' : Bool) (gen gen' now later : ℕ) (s : ClientState)
    → IsWait s.backoff_wait
    → (recover json error_text inst version server writes gen now s).0 ≡ register_failed
    → later < now + register_backoff_base
    → (recover json error_text inst version server' writes' gen' later
        (recover json error_text inst version server writes gen now s).1).1
      ≡ (recover json error_text inst version server writes gen now s).1
recover-recover json error_text inst version server server' writes writes' gen gen' now later s h
      failed soon =
    recover_quiet json error_text inst version server' writes' gen' now later
      (recover json error_text inst version server writes gen now s).1
      ((recover-Paces json error_text inst version server writes gen now s h).1 failed) soon
