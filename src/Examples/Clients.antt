-- ===== src/Examples/Clients.antt =====
-- A client of one Forgejo instance, whose row the instance no longer knows, and two requests over it.
use forgery.Base.{
  ℕ, text, Str, refl, ◌≡◌, ◌+◌, arith, true, false, Bool, some, none, Option, [], ◌∷◌, List, length,
  nat_eq, ◌==◌, if◌then◌else◌, All, inl,
}
use forgery.Proto.{RpcError, literal, unauthenticated}
use forgery.State.{Identity, Json, Disk, contents, save}
use forgery.North.Connection.{
  ClientState, RunnerHeaders, RegisterMessage, RegisterError, Reply, reply, rpc_error,
  register_rejected, missing_runner, Recovery, attempt, register, register_reply, recovered,
  persisted, backoff_remaining, recover, register_failed, retry_on_auth, register_backoff_max,
  is_registration_token_error,
}
use forgery.North.Connection.Backoff.{
  note, note_all, note_all-doubles, doubled, lesser, IsTransient,
}
use forgery.North.Connection.Fleet.{
  FleetState, idle, in_flight, rejected, put, recovered_fleet, Reach, here, next, starts, answers,
  recovers, Reach-renewed, Descending,
}
use forgery.North.Service.{RunnerService}
use forgery.North.Service.Heartbeats.{heartbeats, start_heartbeat-recover}
use forgery.North.Connection.Granted.{retry_on_auth_granted}
use forgery.Examples.Fixtures.{instance_one}

abbrev pub unknown_runner : RpcError
unknown_runner = record { code = unauthenticated; message = literal (text "unregistered runner") }

abbrev pub error_text : RpcError → Str
error_text e = text "unauthenticated: unregistered runner"

abbrev stale : Identity
stale = record { uuid = text "u1"; token = text "t1" }

abbrev pub fresh : Identity
fresh = record { uuid = text "u2"; token = text "t2" }

abbrev pub json : Json
json = record {
  unmarshal = λ bytes. some (record { version = 1; identities = some [] });
  marshal = λ f. some (text "saved");
}

abbrev pub client : ClientState
client = record {
  identity = stale;
  generation = 1;
  backoff_next = none;
  backoff_wait = 0;
  disk = contents (text "before");
  requests = 0;
}

-- the instance rejects the first request and then answers
abbrev reply_to : ℕ → RunnerHeaders → Reply Str
reply_to n h = if n == 0 then rpc_error unknown_runner else reply (text "ok")

abbrev pub grants : ℕ → RunnerHeaders → RegisterMessage → Reply (Option Identity)
grants n h m = reply (some fresh)

abbrev refuses : ℕ → RunnerHeaders → RegisterMessage → Reply (Option Identity)
refuses n h m = rpc_error unknown_runner

abbrev outcome : Reply Str × ClientState
outcome =
    retry_on_auth json error_text instance_one (text "v1") grants true (λ t. t) (λ t. t) (λ t. t)
      100 reply_to client

abbrev pub saved : Bool × Disk
saved = save json true instance_one.forgejo_url fresh client.disk

pub due : backoff_remaining 100 client ≡ 0
unfolding backoff_remaining
due = refl

retry_on_auth_granted_example :
    (saved.0 ≡ true
      → (outcome.0 ≡ reply (text "ok"))
        × (outcome.1
            ≡ record client { identity = fresh; generation = 2; disk = saved.1; requests = 3 }))
    × (saved.0 ≡ false
        → (outcome.0 ≡ rpc_error unknown_runner)
          × (outcome.1.identity ≡ fresh)
          × (outcome.1.generation ≡ 1))
retry_on_auth_granted_example =
    retry_on_auth_granted json error_text instance_one (text "v1") grants true fresh reply_to
      unknown_runner 100 client refl refl due refl

abbrev failures : List (ℕ × RegisterError)
failures = (100, missing_runner) ∷ (200, register_rejected unknown_runner) ∷ []

transient : All (IsTransient error_text) failures
unfolding is_registration_token_error
transient = (refl, (refl, record {}))

abbrev failed_thrice : ClientState
failed_thrice = note error_text (300, missing_runner) (note_all error_text failures client)

note_all-doubles_example :
    (is_registration_token_error error_text missing_runner ≡ false
      → failed_thrice.backoff_wait ≡ lesser (doubled 2) register_backoff_max)
    × (is_registration_token_error error_text missing_runner ≡ true
        → failed_thrice.backoff_wait ≡ register_backoff_max)
    × (failed_thrice.backoff_next ≡ some (300 + failed_thrice.backoff_wait))
note_all-doubles_example =
    note_all-doubles error_text failures 300 missing_runner client transient refl

abbrev refused : Recovery × ClientState
refused = recover json error_text instance_one (text "v1") refuses true 1 100 client

refused-failed : refused.0 ≡ register_failed
unfolding recover backoff_remaining register register_reply recovered
refused-failed = refl

abbrev rejecting : RunnerService
rejecting = record {
  register = refuses;
  declare = λ n h m. rpc_error unknown_runner;
  fetch_task = λ n h. rpc_error unknown_runner;
  update_task = λ n h m. rpc_error unknown_runner;
  update_log = λ n h m. rpc_error unknown_runner;
}

start_heartbeat-recover_example :
    heartbeats json error_text instance_one
      (text "v1")
      rejecting
      7
      ((110, true) ∷ (120, true) ∷ [])
      refused.1
    ≡ record refused.1 { requests = refused.1.requests + 2 }
start_heartbeat-recover_example =
    start_heartbeat-recover json error_text instance_one (text "v1") rejecting refuses true 1 100 7
      ((110, true) ∷ (120, true) ∷ []) client (inl refl) refused-failed
      (omega arith, (omega arith, record {}))

-- Two requests are rejected under the first generation; the first of them registers again.
abbrev both_idle : FleetState
both_idle = record { client = client; pc = λ i. idle; renewed = [] }

abbrev one_sent : FleetState
one_sent = record both_idle { pc = put both_idle.pc 0 (in_flight 1) }

abbrev both_sent : FleetState
both_sent = record one_sent { pc = put one_sent.pc 1 (in_flight 1) }

abbrev rejects : ℕ → RunnerHeaders → Reply Str
rejects n h = rpc_error unknown_runner

abbrev one_rejected : FleetState
one_rejected = record both_sent {
  client = record client { requests = 1 };
  pc = put both_sent.pc 0 (rejected 1);
}

abbrev both_rejected : FleetState
both_rejected = record one_rejected {
  client = record client { requests = 2 };
  pc = put one_rejected.pc 1 (rejected 1);
}

abbrev anew : FleetState
anew =
    recovered_fleet json error_text instance_one (text "v1") 0 1
      (recover json error_text instance_one (text "v1") grants true 1 100 both_rejected.client)
      both_rejected

abbrev settled : FleetState
settled =
    recovered_fleet json error_text instance_one (text "v1") 1 1
      (recover json error_text instance_one (text "v1") grants true 1 100 anew.client) anew

run : Reach json error_text instance_one (text "v1") both_idle settled
unfolding attempt recover backoff_remaining register register_reply recovered persisted save
run =
    next
      (next
        (next
          (next (next (next here (starts 0 refl refl)) (starts 1 refl refl))
            (answers 0 1 rejects (rejected 1) refl refl refl))
          (answers 1 1 rejects (rejected 1) refl refl refl))
        (recovers 0 1 100 grants true refl refl))
      (recovers 1 1 100 grants true refl refl)

one_registration : length settled.renewed ≡ 1
unfolding recover backoff_remaining register register_reply recovered persisted save
one_registration = refl

Reach-renewed_example :
    (settled.client.generation ≡ 1 + length settled.renewed)
    × Descending json error_text instance_one (text "v1") settled.client.generation settled.renewed
Reach-renewed_example =
    Reach-renewed json error_text instance_one (text "v1") run refl
      (omega (arith, one_registration))
