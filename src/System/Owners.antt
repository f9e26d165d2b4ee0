-- ===== src/System/Owners.antt =====
-- What the whole daemon relays, and where the tokens of its tasks lead.
use forgery.Base.{
  ◌<◌, ◌≡◌, sym, subst, ◌∙◌, arith, ◌==◌, nat_eq, eq_iff, str_eq, inl, inr, Bool-cases,
}
use forgery.Task.{Ref, Heap}
use forgery.North.{Resolver, IsNamed}
use forgery.World.{World}
use forgery.World.Routed.{Issued, IsRouted}
use forgery.World.Issue.{new_world, new_world-IsRouted}
use forgery.South.Invariant.Relaying.{update_task-IsRouted, update_log-IsRouted}
use forgery.South.Invariant.Runners.{register-IsRouted, declare-IsRouted, fetch_task-IsRouted}
use forgery.Proxy.Invariant.{serve_http-IsRouted}
use forgery.Run.{waiting_runner, waiting_end, returned}
use forgery.Poll.{RoundEnd, delivered, goes_on, stops, waits}
use forgery.Run.Invariant.{IsOwner, start-IsRouted, start-IsOwner, wake-IsRouted, wake-IsOwner}
use forgery.Poll.Invariant.{
  issued_after, poll_fetched-IsRouted, Grows, Delivers, issued_after-Grows, poll_fetched-Delivers,
}
use forgery.App.Invariant.{gc_once-IsRouted}
use forgery.System.{
  Call, registers, declares, fetches, updates, logs, proxies, collects, perform, Phase, apart,
  queued, handled, deliver, put, SystemState, Step, calls, takes_slot, polls, starts, wakes, Reach,
  here, next,
}

perform-IsRouted :
    (resolver : Resolver) (c : Call) (issued : Issued) (w : World)
    → IsNamed resolver
    → IsRouted issued w
    → IsRouted issued (perform resolver c w)
perform-IsRouted resolver (registers rand now req) issued w named v =
    register-IsRouted issued rand now req w v
perform-IsRouted resolver (declares now hd labels) issued w named v =
    declare-IsRouted issued now hd labels w v
perform-IsRouted resolver (fetches yaml now hd) issued w named v =
    fetch_task-IsRouted issued yaml resolver now hd w v
perform-IsRouted resolver (updates now hd req) issued w named v =
    update_task-IsRouted issued resolver named now hd req w v
perform-IsRouted resolver (logs now hd req) issued w named v =
    update_log-IsRouted issued resolver named now hd req w v
perform-IsRouted resolver (proxies decode parse now path header) issued w named v =
    serve_http-IsRouted decode parse resolver issued now path header w v
perform-IsRouted resolver (collects aborted now max_age) issued w named v =
    gc_once-IsRouted issued resolver aborted named now max_age w v

-- A task that is with the run layer has a context, and a HandleTask that waits for its runner has the
-- entry of the instance the task was fetched from.
abbrev pub IsPlaced : Issued → Ref → Phase → Type 0
IsPlaced issued r apart = Unit
IsPlaced issued r queued = r < issued.made
IsPlaced issued r (handled stage) = (r < issued.made) × IsOwner issued r stage

abbrev pub Invariant : SystemState → Type 0
Invariant s = IsRouted s.issued s.daemon.world × ((r : Ref) → IsPlaced s.issued r (s.phase r))

put-IsPlaced :
    (issued : Issued) (f : Ref → Phase) (r : Ref) (p : Phase)
    → ((q : Ref) → IsPlaced issued q (f q))
    → IsPlaced issued r p
    → (q : Ref) → IsPlaced issued q (put f r p q)
put-IsPlaced issued f r p old own q = elim (Bool-cases (r == q)) [
  | inl same ↦ rw same (subst (λ x. IsPlaced issued x p) ((eq_iff r q).0 same) own)
  | inr other ↦ rw other (old q)
]

pub Grows-known :
    (issued later : Issued) (r : Ref) → Grows issued later → r < issued.made → r < later.made
Grows-known issued later r (made, same) known = ground arith

Grows-IsPlaced :
    (issued later : Issued) (r : Ref) (p : Phase)
    → Grows issued later
    → IsPlaced issued r p
    → IsPlaced later r p
Grows-IsPlaced issued later r apart g placed = record {}
Grows-IsPlaced issued later r queued g known = Grows-known issued later r g known
Grows-IsPlaced issued later r (handled (waiting_runner e)) g (known, own) =
    (Grows-known issued later r g known, g.1 r known ∙ own)
Grows-IsPlaced issued later r (handled waiting_end) g (known, own) =
    (Grows-known issued later r g known, own)
Grows-IsPlaced issued later r (handled returned) g (known, own) =
    (Grows-known issued later r g known, own)

deliver-IsPlaced :
    (issued later : Issued) (end : RoundEnd) (f : Ref → Phase)
    → Delivers issued later end
    → ((q : Ref) → IsPlaced later q (f q))
    → (q : Ref) → IsPlaced later q (deliver end f q)
deliver-IsPlaced issued later (delivered r) f (fresh, one_more) old =
    put-IsPlaced later f r queued old (omega arith)
deliver-IsPlaced issued later goes_on f d old = old
deliver-IsPlaced issued later stops f d old = old
deliver-IsPlaced issued later waits f d old = old

module _ (resolver : Resolver) (named : IsNamed resolver) where
  pub Step-Invariant : {s t : SystemState} → Step resolver s t → Invariant s → Invariant t
  Step-Invariant {s} (calls c e) (v, placed) =
      rw e (perform-IsRouted resolver c s.issued s.daemon.world named v, placed)
  Step-Invariant (takes_slot pick ctx_done p h e) (v, placed) = rw e (v, placed)
  Step-Invariant {s} (polls inst rand now interrupted sent f n h e) (v, placed) =
      let later = issued_after inst rand now interrupted sent s.issued f in
      let grown = issued_after-Grows inst rand now interrupted sent s.issued f in
      rw e (
        poll_fetched-IsRouted inst rand now interrupted sent s.issued f s.daemon v,
        deliver-IsPlaced s.issued later _ s.phase
            (poll_fetched-Delivers inst rand now interrupted sent s.issued f s.daemon)
            (λ q. Grows-IsPlaced s.issued later q (s.phase q) grown (placed q)),
      )
  Step-Invariant {s} (starts r triggered h e) (v, placed) =
      let known = subst (IsPlaced s.issued r) h (placed r) in
      rw e (
        start-IsRouted s.issued r known resolver triggered s.daemon named v,
        put-IsPlaced s.issued s.phase r _ placed
            (known, start-IsOwner s.issued r known resolver triggered s.daemon named v),
      )
  Step-Invariant {s} (wakes r stage k h ready e) (v, placed) =
      let (known, own) = subst (IsPlaced s.issued r) h (placed r) in
      rw e (
        wake-IsRouted s.issued r known stage k s.daemon own v,
        put-IsPlaced s.issued s.phase r _ placed
            (known, wake-IsOwner s.issued r known stage k s.daemon own),
      )

  pub start-Invariant :
      (s : SystemState) (h : Heap)
      → s.daemon.world ≡ new_world h
      → s.issued.made ≡ 0
      → ((r : Ref) → s.phase r ≡ apart)
      → Invariant s
  start-Invariant s h started none_yet idle = (
    subst (IsRouted s.issued) (sym started) (new_world-IsRouted s.issued h none_yet),
    λ q. rw (idle q) (record {}),
  )

  Reach-Invariant : {s t : SystemState} → Reach resolver s t → Invariant s → Invariant t
  Reach-Invariant here i = i
  Reach-Invariant (next r step) i = Step-Invariant step (Reach-Invariant r i)

  -- Where each instance is resolved under its own name: however the requests of runners, the proxy, the
  -- pollers, the HandleTask goroutines and the garbage collection interleave, from a daemon that has just
  -- started, the store and the sessions are valid, every context keeps its task's id and instance, each
  -- update or log that was ever relayed is for a task that was fetched from the instance it went to, and
  -- each token of the proxy's registry leads to the instance that its task was fetched from.
  pub Reach-IsRouted :
      {s t : SystemState} (h : Heap)
      → Reach resolver s t
      → s.daemon.world ≡ new_world h
      → s.issued.made ≡ 0
      → ((r : Ref) → s.phase r ≡ apart)
      → IsRouted t.issued t.daemon.world
  Reach-IsRouted {s} h r started none_yet idle =
      (Reach-Invariant r (start-Invariant s h started none_yet idle)).0
