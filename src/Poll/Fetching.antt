-- ===== src/Poll/Fetching.antt =====
-- internal/north/poller.go with internal/north/client.go: a round of PollLoop whose answer to
-- FetchTask is what retryOnAuth makes of the instance's replies.
use forgery.Base.{ℕ, Str, ◌≡◌, refl, Bool, Option, none, some, List, nat_eq, str_eq}
use forgery.Proto
use forgery.Proto.{RpcError}
use forgery.Task.{Ref}
use forgery.Slots.{Pool, Acquired, holds, cancelled, blocks, acquire}
use forgery.Config.{Instance}
use forgery.State.{Json}
use forgery.North.Connection.{ClientState, Reply, reply, rpc_error}
use forgery.North.Service.{RunnerService, Surroundings, fetch}
use forgery.Run.{Daemon}
use forgery.Poll.{
  Fetched, fetch_error, no_task, got_task, RoundEnd, stops, waits, poll_fetched, poll_slot,
  poll_round,
}

-- what a round does with the answer
abbrev pub fetched_of : Reply (Option Proto.Task) → Fetched
fetched_of (rpc_error e) = fetch_error
fetched_of (reply none) = no_task
fetched_of (reply (some t)) = got_task t

-- A poller's own state and the daemon's.
pub record Polling : Type 0 where
  pub client : ClientState
  pub daemon : Daemon

module _ (json : Json) (error_text : RpcError → Str) (inst : Instance) (version : Str)
    (service : RunnerService) (w : Surroundings) (rand : ℕ → Option (List ℕ)) (created : ℕ)
    (r : Ref) (interrupted sent : Bool) where
  fetched_round :
      (Daemon → Daemon) → Reply (Option Proto.Task) × ClientState → Daemon → Polling × RoundEnd
  fetched_round others (answer, s) d =
      let ended =
        poll_fetched inst rand created r interrupted sent (fetched_of answer) (others d) in
      (record { client = s; daemon = ended.0 }, ended.1)

  fetching_slot : (Daemon → Daemon) → Acquired → Polling → Polling × RoundEnd
  unfolding fetched_round
  fetching_slot others cancelled p = (p, stops)
  fetching_slot others blocks p = (p, waits)
  fetching_slot others (holds pool) p =
      fetched_round others (fetch json error_text inst version service w p.client)
        (record p.daemon { pool = pool })

  -- a round with its request: `others` stands for the other goroutines until the answer is there
  pub fetching_round : (pick ctx_done : Bool) → (Daemon → Daemon) → Polling → Polling × RoundEnd
  unfolding fetching_slot
  fetching_round pick ctx_done others p =
      fetching_slot others (acquire pick ctx_done p.daemon.pool) p

  abbrev pub answer_to : ClientState → Fetched
  answer_to s = fetched_of (fetch json error_text inst version service w s).0

  fetching_slot-poll_slot :
      (others : Daemon → Daemon) (a : Acquired) (p : Polling)
      → ((fetching_slot others a p).0.daemon
          ≡ (poll_slot inst rand created r interrupted sent others
              (answer_to p.client)
              a
              p.daemon).0)
        × ((fetching_slot others a p).1
            ≡ (poll_slot inst rand created r interrupted sent others
                (answer_to p.client)
                a
                p.daemon).1)
        × (((pool : Pool) → ¬ (a ≡ holds pool)) → (fetching_slot others a p).0 ≡ p)
  unfolding fetching_slot fetched_round poll_slot
  fetching_slot-poll_slot others cancelled p = (refl, refl, λ h. refl)
  fetching_slot-poll_slot others blocks p = (refl, refl, λ h. refl)
  fetching_slot-poll_slot others (holds pool) p = (refl, refl, λ h. absurd (h pool refl))

  -- A round with its request leaves the daemon, and ends, as the round does that is given the answer
  -- to the request. One that gets no slot makes no request: it leaves the client alone, with the
  -- number of its requests, and the daemon too.
  pub fetching_round-poll_round :
      (pick ctx_done : Bool) (others : Daemon → Daemon) (p : Polling)
      → ((fetching_round pick ctx_done others p).0.daemon
          ≡ (poll_round inst rand created r interrupted sent pick ctx_done others
              (answer_to p.client)
              p.daemon).0)
        × ((fetching_round pick ctx_done others p).1
            ≡ (poll_round inst rand created r interrupted sent pick ctx_done others
                (answer_to p.client)
                p.daemon).1)
        × (((pool : Pool) → ¬ (acquire pick ctx_done p.daemon.pool ≡ holds pool))
            → (fetching_round pick ctx_done others p).0 ≡ p)
  unfolding fetching_round poll_round
  fetching_round-poll_round pick ctx_done others p =
      fetching_slot-poll_slot others (acquire pick ctx_done p.daemon.pool) p
