-- ===== src/Poll/Later.antt =====
-- internal/north/poller.go: what a round stores, and what it leaves as it was.
use forgery.Base.{
  ℕ, Str, ◌≡◌, refl, arith, ◌⊎◌, inl, inr, Bool, Bool-cases, either, true, false, Option, List,
  lookup-insert, eq_iff, nat_eq, str_eq, ◌==◌,
}
use forgery.Proto
use forgery.Task.{Ref, is_closed}
use forgery.Token.{Generated, made, failed, generate}
use forgery.Store.{put_pending}
use forgery.Config.{Instance}
use forgery.World.{World}
use forgery.World.Later.{Stores}
use forgery.Run.{Daemon}
use forgery.Poll.{
  RoundEnd, Fetched, fetch_error, no_task, got_task, poll_token, poll_fetched, store_task,
}

-- A stored task is the new one, at the fresh reference and not over, or an old one that is as it was.
abbrev pub IsNewOrKept : Ref → World → World → ℕ → Ref → Type 0
IsNewOrKept r w u id q =
    (((r == q) ≡ true) × (is_closed (u.heap q).done ≡ false))
    ⊎ (((r == q) ≡ false) × Stores w id q × (u.heap q ≡ w.heap q))

module _ (inst : Instance) (rand : ℕ → Option (List ℕ)) (now : ℕ) (r : Ref)
    (interrupted sent : Bool) where
  store_task-IsNewOrKept :
      (t : Proto.Task) (token : Str) (w : World) (id : ℕ) (q : Ref)
      → Stores (store_task inst rand now r interrupted sent t token w) id q
      → IsNewOrKept r w (store_task inst rand now r interrupted sent t token w) id q
  unfolding put_pending
  store_task-IsNewOrKept t token w id q h =
      let u = store_task inst rand now r interrupted sent t token w in
      elim (Bool-cases (r == q)) [
        | inl same ↦ inl (same, rw same refl)
        | inr other ↦ inr (
          other,
          ground (arith, lookup-insert (u.heap r).id id r w.store.tasks, eq_iff r q),
          rw other refl,
        )
      ]

  poll_token-heap :
      (t : Proto.Task) (g : Generated Str) (d : Daemon) (q : Ref)
      → (r == q) ≡ false
      → (poll_token inst rand now r interrupted sent t g d).0.world.heap q ≡ d.world.heap q
  unfolding poll_token
  poll_token-heap t (failed e) d q other = refl
  poll_token-heap t (made token) d q other =
      either (λ (o : Daemon × RoundEnd). o.0.world.heap q ≡ d.world.heap q) sent _ _ (rw other refl)
        (rw other refl)

  -- A round leaves every context but that at the fresh reference as it was.
  pub poll_fetched-heap :
      (f : Fetched) (d : Daemon) (q : Ref)
      → (r == q) ≡ false
      → (poll_fetched inst rand now r interrupted sent f d).0.world.heap q ≡ d.world.heap q
  unfolding poll_fetched
  poll_fetched-heap fetch_error d q other = refl
  poll_fetched-heap no_task d q other = refl
  poll_fetched-heap (got_task t) d q other = poll_token-heap t (generate rand) d q other

  module _ (d : Daemon) (fresh : (id : ℕ) (q : Ref) → Stores d.world id q → (r == q) ≡ false) where
    kept : (id : ℕ) (q : Ref) → Stores d.world id q → IsNewOrKept r d.world d.world id q
    kept id q h = inr (fresh id q h, h, refl)

    poll_token-IsNewOrKept :
        (t : Proto.Task) (g : Generated Str) (id : ℕ) (q : Ref)
        → Stores (poll_token inst rand now r interrupted sent t g d).0.world id q
        → IsNewOrKept r d.world (poll_token inst rand now r interrupted sent t g d).0.world id q
    unfolding poll_token
    poll_token-IsNewOrKept t (failed e) id q h = kept id q h
    poll_token-IsNewOrKept t (made token) id q h =
        either
          (λ (o : Daemon × RoundEnd). Stores o.0.world id q → IsNewOrKept r d.world o.0.world id q)
          sent _ _ (store_task-IsNewOrKept t token d.world id q)
          (store_task-IsNewOrKept t token d.world id q) h

    -- Where no stored task is at the fresh reference, a task that is stored after the round is the new
    -- one, or an old one that the round has left alone.
    pub poll_fetched-IsNewOrKept :
        (f : Fetched) (id : ℕ) (q : Ref)
        → Stores (poll_fetched inst rand now r interrupted sent f d).0.world id q
        → IsNewOrKept r d.world (poll_fetched inst rand now r interrupted sent f d).0.world id q
    unfolding poll_fetched
    poll_fetched-IsNewOrKept fetch_error id q h = kept id q h
    poll_fetched-IsNewOrKept no_task id q h = kept id q h
    poll_fetched-IsNewOrKept (got_task t) id q h = poll_token-IsNewOrKept t (generate rand) id q h
