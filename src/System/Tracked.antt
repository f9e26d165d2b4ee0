-- ===== src/System/Tracked.antt =====
-- Which tasks the store holds: no task that is over, and none that HandleTask has given up.
use forgery.Base.{
  ℕ, ◌≤◌, ◌≡◌, refl, sym, ap, subst, ◌∙◌, arith, false, ◌==◌, nat_eq, eq_iff, eq_ne, inl, inr,
  Bool-cases, lookup,
}
use forgery.Task.{Ref, Heap, is_closed}
use forgery.North.{Resolver, IsNamed}
use forgery.World.{World}
use forgery.World.Routed.{Issued, IsRouted}
use forgery.World.Issue.{new_world}
use forgery.World.Later.{IsLater, IsKeyed, Stores}
use forgery.Store.{new_mem_store}
use forgery.South.Later.{
  register-IsLater, declare-IsLater, fetch_task-IsLater, update_task-IsLater, update_log-IsLater,
}
use forgery.Proxy.Later.{serve_http-IsLater}
use forgery.App.Later.{gc_once-IsLater}
use forgery.Run.{waiting_runner, waiting_end, returned, Stage}
use forgery.Run.Later.{HasRunner, start-Leaves, wake-Leaves}
use forgery.Poll.{poll_fetched, RoundEnd, delivered, goes_on, stops, waits}
use forgery.Poll.Invariant.{Delivers, issued_after, poll_fetched-Delivers}
use forgery.Poll.Later.{IsNewOrKept, poll_fetched-IsNewOrKept}
use forgery.System.{
  Call, registers, declares, fetches, updates, logs, proxies, collects, perform, Phase, apart,
  queued, handled, deliver, put, SystemState, Step, calls, takes_slot, polls, starts, wakes, Reach,
  here, next,
}
use forgery.System.Owners.{Invariant, IsPlaced, Step-Invariant, start-Invariant}

pub IsRouted-IsKeyed : (issued : Issued) (w : World) → IsRouted issued w → IsKeyed w
IsRouted-IsKeyed issued w v id r h =
    let (known, same) = v.stored id r h in (v.contexts r known).0 ∙ same

pub perform-IsLater :
    (resolver : Resolver) (c : Call) (issued : Issued) (w : World)
    → IsRouted issued w
    → IsLater w (perform resolver c w)
perform-IsLater resolver (registers rand now req) issued w v = register-IsLater rand now req w
perform-IsLater resolver (declares now hd labels) issued w v =
    declare-IsLater now hd labels w (IsRouted-IsKeyed issued w v)
perform-IsLater resolver (fetches yaml now hd) issued w v =
    fetch_task-IsLater resolver yaml now hd w (IsRouted-IsKeyed issued w v)
perform-IsLater resolver (updates now hd req) issued w v =
    update_task-IsLater resolver now hd req w (IsRouted-IsKeyed issued w v)
perform-IsLater resolver (logs now hd req) issued w v =
    update_log-IsLater resolver now hd req w (IsRouted-IsKeyed issued w v)
perform-IsLater resolver (proxies decode parse now path header) issued w v =
    serve_http-IsLater decode parse resolver now path header w
perform-IsLater resolver (collects aborted now max_age) issued w v =
    gc_once-IsLater resolver aborted now max_age w v.store_valid (IsRouted-IsKeyed issued w v)

-- the promise of HandleTask, once it has the task
abbrev pub Promise : World → Ref → Phase → Type 0
Promise w r apart = Unit
Promise w r queued = Unit
Promise w r (handled stage) = HasRunner w r stage

-- A stored task is not over, and the HandleTask that waits for its end or has returned has seen its
-- runner register.
abbrev pub IsCurrent : World → Ref → Phase → Type 0
IsCurrent w r p = (is_closed (w.heap r).done ≡ false) × Promise w r p

abbrev pub IsTracked : SystemState → Type 0
IsTracked s =
    (id : ℕ) (r : Ref) → Stores s.daemon.world id r → IsCurrent s.daemon.world r (s.phase r)

Promise-later : (w u : World) (r : Ref) (p : Phase) → IsLater w u → Promise w r p → Promise u r p
Promise-later w u r apart l h = record {}
Promise-later w u r queued l h = record {}
Promise-later w u r (handled (waiting_runner e)) l h = record {}
Promise-later w u r (handled waiting_end) l h = l.joined r h
Promise-later w u r (handled returned) l h = l.joined r h

later-IsCurrent :
    (w u : World) (id : ℕ) (r : Ref) (p : Phase)
    → IsLater w u
    → Stores u id r
    → IsCurrent w r p
    → IsCurrent u r p
later-IsCurrent w u id r p l h (open_still, promise) =
    (l.goes_on id r h open_still, Promise-later w u r p l promise)

-- HandleTask takes a step with its task.
module _ (s : SystemState) (r : Ref) (tracked : IsTracked s) where
  moved-IsTracked :
      (u : World) (stage : Stage)
      → IsLater s.daemon.world u
      → ((id : ℕ) → Stores u id r → HasRunner u r stage)
      → (id : ℕ) (q : Ref) → Stores u id q
      → IsCurrent u q (put s.phase r (handled stage) q)
  moved-IsTracked u stage l kept id q h =
      let old = tracked id q (l.stored id q h) in
      elim (Bool-cases (r == q)) [
        | inl same ↦
            let e : r ≡ q = (eq_iff r q).0 same in
            rw same (
              l.goes_on id q h old.0,
              subst (λ x. HasRunner u x stage) e (kept id (subst (λ x. Stores u id x) (sym e) h)),
            )
        | inr other ↦ rw other (later-IsCurrent s.daemon.world u id q (s.phase q) l h old)
      ]

-- A poll round ends with a new task or none.
free-phase :
    (issued : Issued) (r : Ref) (p : Phase) → issued.made ≤ r → IsPlaced issued r p → p ≡ apart
free-phase issued r apart le placed = refl
free-phase issued r queued le placed = absurd (omega arith)
free-phase issued r (handled stage) le placed = let k = placed.0 in absurd (omega arith)

delivered-Promise :
    (issued later : Issued) (end : RoundEnd) (f : Ref → Phase) (w : World) (q : Ref)
    → Delivers issued later end
    → f q ≡ apart
    → Promise w q (deliver end f q)
delivered-Promise issued later (delivered r) f w q d idle = elim (Bool-cases (r == q)) [
  | inl same ↦ rw same (record {})
  | inr other ↦ rw (other, idle) (record {})
]
delivered-Promise issued later goes_on f w q d idle = rw idle (record {})
delivered-Promise issued later stops f w q d idle = rw idle (record {})
delivered-Promise issued later waits f w q d idle = rw idle (record {})

delivered_elsewhere :
    (issued later : Issued) (end : RoundEnd) (f : Ref → Phase) (q : Ref)
    → Delivers issued later end
    → (issued.made == q) ≡ false
    → deliver end f q ≡ f q
delivered_elsewhere issued later (delivered r) f q d other = ground (arith, d)
delivered_elsewhere issued later goes_on f q d other = refl
delivered_elsewhere issued later stops f q d other = refl
delivered_elsewhere issued later waits f q d other = refl

kept-Promise :
    (w u : World) (r : Ref) (p : Phase) → u.heap r ≡ w.heap r → Promise w r p → Promise u r p
kept-Promise w u r apart e h = record {}
kept-Promise w u r queued e h = record {}
kept-Promise w u r (handled (waiting_runner x)) e h = record {}
kept-Promise w u r (handled waiting_end) e h = ap (λ t. is_closed t.registered) e ∙ h
kept-Promise w u r (handled returned) e h = ap (λ t. is_closed t.registered) e ∙ h

module _ (s : SystemState) (v : IsRouted s.issued s.daemon.world)
    (placed : (r : Ref) → IsPlaced s.issued r (s.phase r)) (tracked : IsTracked s) where
  below : (id : ℕ) (q : Ref) → Stores s.daemon.world id q → (s.issued.made == q) ≡ false
  below id q h = let k = (v.stored id q h).0 in eq_ne s.issued.made q (λ same. omega arith)

  polled-IsTracked :
      (later : Issued) (end : RoundEnd) (u : World)
      → Delivers s.issued later end
      → ((id : ℕ) (q : Ref) → Stores u id q → IsNewOrKept s.issued.made s.daemon.world u id q)
      → (id : ℕ) (q : Ref) → Stores u id q
      → IsCurrent u q (deliver end s.phase q)
  polled-IsTracked later end u d news id q h = elim (news id q h) [
    | inl (same, open_still) ↦
        let e : s.issued.made ≡ q = (eq_iff s.issued.made q).0 same in
        (
          open_still,
          delivered-Promise s.issued later end s.phase u q d
              (free-phase s.issued q (s.phase q) (omega arith) (placed q)),
        )
    | inr (other, before, e) ↦
        let old = tracked id q before in
        rw (delivered_elsewhere s.issued later end s.phase q d other) (
          ap (λ t. is_closed t.done) e ∙ old.0,
          kept-Promise s.daemon.world u q (s.phase q) e old.1,
        )
  ]

module _ (resolver : Resolver) (named : IsNamed resolver) where
  Step-IsTracked : {s t : SystemState} → Step resolver s t → Invariant s → IsTracked s → IsTracked t
  Step-IsTracked {s} (calls c e) (v, placed) tracked =
      let w = s.daemon.world in
      let l = perform-IsLater resolver c s.issued w v in
      rw e (λ id r h.
        later-IsCurrent w (perform resolver c w) id r (s.phase r) l h
          (tracked id r (l.stored id r h)))
  Step-IsTracked {s} (takes_slot pick ctx_done p h e) (v, placed) tracked = rw e tracked
  Step-IsTracked {s} (polls inst rand now interrupted sent f n h e) (v, placed) tracked =
      let o = poll_fetched inst rand now s.issued.made interrupted sent f s.daemon in
      rw e (
        polled-IsTracked s v placed tracked (issued_after inst rand now interrupted sent s.issued f)
          o.1 o.0.world (poll_fetched-Delivers inst rand now interrupted sent s.issued f s.daemon)
          (poll_fetched-IsNewOrKept inst rand now s.issued.made interrupted sent s.daemon
            (below s v placed tracked) f))
  Step-IsTracked {s} (starts r triggered h e) (v, placed) tracked =
      let (l, kept) =
        start-Leaves r resolver triggered s.daemon (IsRouted-IsKeyed s.issued s.daemon.world v) in
      rw e (moved-IsTracked s r tracked _ _ l kept)
  Step-IsTracked {s} (wakes r stage k h ready e) (v, placed) tracked =
      let (l, kept) =
        wake-Leaves r s.daemon (IsRouted-IsKeyed s.issued s.daemon.world v)
          (λ id i. (tracked id r i).0) stage k ready
          (λ id i. subst (Promise s.daemon.world r) h (tracked id r i).1) in
      rw e (moved-IsTracked s r tracked _ _ l kept)

  pub Reach-IsTracked :
      {s t : SystemState}
      → Reach resolver s t
      → Invariant s
      → IsTracked s
      → Invariant t × IsTracked t
  Reach-IsTracked here i tracked = (i, tracked)
  Reach-IsTracked (next r step) i tracked =
      let (j, known) = Reach-IsTracked r i tracked in
      (Step-Invariant resolver named step j, Step-IsTracked step j known)

  pub start-IsTracked : (s : SystemState) (h : Heap) → s.daemon.world ≡ new_world h → IsTracked s
  unfolding new_mem_store lookup
  start-IsTracked s h started id r e =
      let none_yet = ap (λ w. lookup id w.store.tasks) started in cc

  -- However the daemon's parts interleave, from its start on: a task in the store is not over, and if its
  -- HandleTask waits for the end of the task or has returned, then the runner of the task has registered.
  -- So no task whose runner never came is left behind by a HandleTask that has returned, and no task
  -- that a final result or the garbage collection has ended is in the store.
  pub Reach-IsCurrent :
      {s t : SystemState} (h : Heap) (id : ℕ) (r : Ref)
      → Reach resolver s t
      → s.daemon.world ≡ new_world h
      → s.issued.made ≡ 0
      → ((q : Ref) → s.phase q ≡ apart)
      → Stores t.daemon.world id r
      → IsCurrent t.daemon.world r (t.phase r)
  Reach-IsCurrent {s} h id r run started none_yet idle =
      (Reach-IsTracked run (start-Invariant resolver named s h started none_yet idle)
          (start-IsTracked s h started)).1
        id r
