-- ===== src/Run/Wakes.antt =====
-- internal/run/runner.go: what HandleTask does when its wait for the runner ends.
use forgery.Base.{
  ℕ, Str, Bool, not, ◌==◌, inl, inr, Bool-cases, if◌then◌else◌, ◌≡◌, refl, ap, arith, true, false,
  none, ◌∷◌, lookup, nat_eq, str_eq, eq_refl, lookup-delete,
}
use forgery.Task.{Ref, TaskCtx, is_closed}
use forgery.Store.Index.{lookup-remove_self, lookup-remove}
use forgery.Session
use forgery.Store
use forgery.Slots.{release}
use forgery.North.{InstanceEntry, task_update}
use forgery.World.{World}
use forgery.Run.{
  Daemon, Stage, waiting_runner, waiting_end, returned, Wake, done, registered, timed_out,
  cancelled, report_failure, shut_down, phase_1, wake, failure_update_request,
}

-- HandleTask has returned with its slot released, and the store and the sessions have forgotten the task.
pub record IsForgotten (r : Ref) (d : Daemon) (out : Daemon × Stage) : Type 0 where
  pub ended : out.1 ≡ returned
  pub slot : out.0.pool ≡ release d.pool
  pub no_task : lookup (d.world.heap r).id out.0.world.store.tasks ≡ none
  pub no_session : lookup (d.world.heap r).session_token out.0.world.sessions ≡ none

-- What belongs to no other task has changed: other ids and session tokens lead where they did, and no
-- context and no entry of the token registry is different.
pub record KeepsOthers (r : Ref) (d : Daemon) (out : Daemon × Stage) : Type 0 where
  pub tasks :
      (id : ℕ)
      → ((d.world.heap r).id == id) ≡ false
      → lookup id out.0.world.store.tasks ≡ lookup id d.world.store.tasks
  pub sessions :
      (token : Str)
      → ((d.world.heap r).session_token == token) ≡ false
      → lookup token out.0.world.sessions ≡ lookup token d.world.sessions
  pub heap : out.0.world.heap ≡ d.world.heap
  pub entries : out.0.world.entries ≡ d.world.entries

-- The wait ends without a runner.
abbrev pub is_lost : Wake → TaskCtx → Bool
is_lost done t = false
is_lost registered t = false
is_lost (timed_out aborted) t = true
is_lost cancelled t = not (is_closed t.registered)

-- The owner is told: at the timeout, as long as the daemon's context goes on.
abbrev pub is_reported : Wake → Bool
is_reported done = false
is_reported registered = false
is_reported (timed_out aborted) = not aborted
is_reported cancelled = false

module _ (r : Ref) (e : InstanceEntry) (d : Daemon) where
  lookup-remove_session :
      (w : World)
      → lookup (w.heap r).session_token (Session.remove (w.heap r).session_token w.sessions) ≡ none
  lookup-remove_session w =
      let token = (w.heap r).session_token in
      unfold Session.remove in ground (arith, lookup-delete token token w.sessions, eq_refl token)

  -- the state once the task is given up, its owner told or not
  abbrev left : World → Daemon × Stage
  left told = (
    record {
      world = record told {
        store = Store.remove (d.world.heap r).id d.world.store;
        sessions = Session.remove (d.world.heap r).session_token d.world.sessions;
      };
      pool = release d.pool;
    },
    returned,
  )

  left-IsForgotten : (told : World) → IsForgotten r d (left told)
  left-IsForgotten told = record {
    ended = refl;
    slot = refl;
    no_task = lookup-remove_self (d.world.heap r).id d.world.store;
    no_session = lookup-remove_session d.world;
  }

  left-KeepsOthers :
      (told : World)
      → told.heap ≡ d.world.heap
      → told.entries ≡ d.world.entries
      → KeepsOthers r d (left told)
  left-KeepsOthers told h k = record {
    tasks = λ id other. ground (arith, other, lookup-remove (d.world.heap r).id id d.world.store);
    sessions = λ token other.
        unfold Session.remove in
        ground (arith, other, lookup-delete (d.world.heap r).session_token token d.world.sessions);
    heap = h;
    entries = k;
  }

  unchanged-KeepsOthers :
      (p : Daemon) (stage : Stage) → p.world ≡ d.world → KeepsOthers r d (p, stage)
  unchanged-KeepsOthers p stage same = record {
    tasks = λ id other. ap (λ w. lookup id w.store.tasks) same;
    sessions = λ token other. ap (λ w. lookup token w.sessions) same;
    heap = ap (λ w. w.heap) same;
    entries = ap (λ w. w.entries) same;
  }

  -- the end of the wait for the runner, for what it woke up for
  abbrev Settles : Wake → Daemon × Stage → Type 0
  Settles k out =
      KeepsOthers r d out
      × (is_lost k (d.world.heap r) ≡ true → IsForgotten r d out)
      × (is_lost k (d.world.heap r) ≡ false
          → (out.0.world.store ≡ d.world.store) × (out.0.world.sessions ≡ d.world.sessions))
      × (out.0.world.sent ≡ (
          if is_reported k
          then task_update e.inst.name (failure_update_request (d.world.heap r).id) ∷ d.world.sent
          else d.world.sent))

  cancelled-Settles : Settles cancelled (wake r (waiting_runner e) cancelled d)
  unfolding wake phase_1 shut_down
  cancelled-Settles = elim (Bool-cases (is_closed (d.world.heap r).registered)) [
    | inl connected ↦ rw connected (
      unchanged-KeepsOthers (record d { pool = release d.pool }) returned refl,
      λ lost. cc,
      λ joined. (refl, refl),
      refl,
    )
    | inr alone ↦
        rw alone
          (left-KeepsOthers d.world refl refl, λ lost. left-IsForgotten d.world, λ joined. cc, refl)
  ]

  timed_out-Settles :
      (aborted : Bool)
      → Settles (timed_out aborted) (wake r (waiting_runner e) (timed_out aborted) d)
  unfolding wake phase_1
  timed_out-Settles aborted =
      let told = report_failure aborted e r d.world in
      (
        left-KeepsOthers told refl refl,
        λ lost. left-IsForgotten told,
        λ joined. cc,
        elim (Bool-cases aborted) [ inl ended ↦ rw ended refl | inr goes_on ↦ rw goes_on refl ],
      )

  -- Whatever ends the wait of HandleTask for the runner, no other task is touched: no other entry of the
  -- store and no other session, no context, and no entry of the proxy's registry. If it ends without a
  -- runner, at the timeout or at a shutdown before one has registered, the store and the sessions forget
  -- the task and its slot is free; otherwise both stay as they were. The owner is sent a failure report
  -- at the timeout, unless the daemon's context has ended by then, and in no other case is anything sent.
  pub wake_lem :
      (k : Wake)
      → (let out = wake r (waiting_runner e) k d in
          KeepsOthers r d out
          × (is_lost k (d.world.heap r) ≡ true → IsForgotten r d out)
          × (is_lost k (d.world.heap r) ≡ false
              → (out.0.world.store ≡ d.world.store) × (out.0.world.sessions ≡ d.world.sessions))
          × (out.0.world.sent ≡ (
              if is_reported k
              then task_update e.inst.name (failure_update_request (d.world.heap r).id)
                ∷ d.world.sent
              else d.world.sent)))
  unfolding wake phase_1
  wake_lem done = (
    unchanged-KeepsOthers (record d { pool = release d.pool }) returned refl,
    λ lost. cc,
    λ joined. (refl, refl),
    refl,
  )
  wake_lem registered =
      (unchanged-KeepsOthers d waiting_end refl, λ lost. cc, λ joined. (refl, refl), refl)
  wake_lem (timed_out aborted) = timed_out-Settles aborted
  wake_lem cancelled = cancelled-Settles
