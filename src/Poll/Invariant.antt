-- ===== src/Poll/Invariant.antt =====
-- internal/north/poller.go: a round keeps what ties the shared state together.
use forgery.Base.{ℕ, suc, ◌<◌, Str, refl, ◌≡◌, ◌⊎◌, inl, inr, Bool, either, Option, List}
use forgery.Proto
use forgery.Task.{Ref}
use forgery.Token.{Generated, made, failed, generate}
use forgery.Config.{Instance}
use forgery.World.Routed.{Issued, IsRouted}
use forgery.World.Issue.{issue, issue-same, issue-IsRouted}
use forgery.Run.{Daemon}
use forgery.Poll.{
  RoundEnd, delivered, goes_on, stops, waits, after_wait, Fetched, fetch_error, no_task, got_task,
  task_ctx, poll_token, poll_fetched,
}

-- A context keeps its owner, and there is at most one more.
abbrev pub Grows : Issued → Issued → Type 0
Grows issued later =
    ((later.made ≡ issued.made) ⊎ (later.made ≡ suc issued.made))
    × ((r : Ref) → r < issued.made → later.owner r ≡ issued.owner r)

-- A task that is delivered has the new context.
abbrev pub Delivers : Issued → Issued → RoundEnd → Type 0
Delivers issued later (delivered r) = (r ≡ issued.made) × (later.made ≡ suc issued.made)
Delivers issued later goes_on = Unit
Delivers issued later stops = Unit
Delivers issued later waits = Unit

module _ (inst : Instance) (rand : ℕ → Option (List ℕ)) (now : ℕ) (interrupted sent : Bool)
    (issued : Issued) where
  abbrev issued_token : Proto.Task → Generated Str → Issued
  issued_token t (failed e) = issued
  issued_token t (made token) =
      issue (task_ctx inst rand now issued.made interrupted sent t token) issued

  -- the contexts once a round is over
  abbrev pub issued_after : Fetched → Issued
  issued_after fetch_error = issued
  issued_after no_task = issued
  issued_after (got_task t) = issued_token t (generate rand)

  poll_token-IsRouted :
      (t : Proto.Task) (g : Generated Str) (d : Daemon)
      → IsRouted issued d.world
      → IsRouted
          (issued_token t g)
          (poll_token inst rand now issued.made interrupted sent t g d).0.world
  unfolding poll_token
  poll_token-IsRouted t (failed e) d v = v
  poll_token-IsRouted t (made token) d v =
      let stored =
        issue-IsRouted issued (task_ctx inst rand now issued.made interrupted sent t token) d.world
          v in
      either (λ (o : Daemon × RoundEnd). IsRouted (issued_token t (made token)) o.0.world) sent _ _
        stored stored

  pub poll_fetched-IsRouted :
      (f : Fetched) (d : Daemon)
      → IsRouted issued d.world
      → IsRouted
          (issued_after f)
          (poll_fetched inst rand now issued.made interrupted sent f d).0.world
  unfolding poll_fetched
  poll_fetched-IsRouted fetch_error d v = v
  poll_fetched-IsRouted no_task d v = v
  poll_fetched-IsRouted (got_task t) d v = poll_token-IsRouted t (generate rand) d v

  issued_token-Grows : (t : Proto.Task) (g : Generated Str) → Grows issued (issued_token t g)
  issued_token-Grows t (failed e) = (inl refl, λ r k. refl)
  issued_token-Grows t (made token) = (
    inr refl,
    λ r k. (issue-same issued (task_ctx inst rand now issued.made interrupted sent t token) r k).1,
  )

  pub issued_after-Grows : (f : Fetched) → Grows issued (issued_after f)
  issued_after-Grows fetch_error = (inl refl, λ r k. refl)
  issued_after-Grows no_task = (inl refl, λ r k. refl)
  issued_after-Grows (got_task t) = issued_token-Grows t (generate rand)

  waits-Delivers : Delivers issued issued (after_wait interrupted)
  waits-Delivers = either (Delivers issued issued) interrupted stops goes_on (record {}) (record {})

  poll_token-Delivers :
      (t : Proto.Task) (g : Generated Str) (d : Daemon)
      → Delivers issued
          (issued_token t g)
          (poll_token inst rand now issued.made interrupted sent t g d).1
  unfolding poll_token
  poll_token-Delivers t (failed e) d = waits-Delivers
  poll_token-Delivers t (made token) d =
      either (λ (o : Daemon × RoundEnd). Delivers issued (issued_token t (made token)) o.1) sent _ _
        (refl, refl) (record {})

  pub poll_fetched-Delivers :
      (f : Fetched) (d : Daemon)
      → Delivers issued
          (issued_after f)
          (poll_fetched inst rand now issued.made interrupted sent f d).1
  unfolding poll_fetched
  poll_fetched-Delivers fetch_error d = waits-Delivers
  poll_fetched-Delivers no_task d = waits-Delivers
  poll_fetched-Delivers (got_task t) d = poll_token-Delivers t (generate rand) d
