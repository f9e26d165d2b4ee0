-- ===== src/System/Capacity.antt =====
-- The slots of the whole daemon: who holds one, and that none is lost.
use forgery.Base.{
  ℕ, suc, ◌+◌, ◌<◌, ◌≤◌, ◌≡◌, ◌≢◌, refl, ap, ◌∙◌, ◌⊎◌, arith, nat_eq, inl, inr, ltb, ltb→lt,
  Bool-cases,
}
use forgery.Task.{Ref}
use forgery.Slots.{new, Pool, release, release-held, acquire-holds}
use forgery.North.{Resolver}
use forgery.World.Routed.{Issued}
use forgery.Run.{Stage, waiting_runner, waiting_end, returned, Wake, wake, Daemon}
use forgery.Run.Slot
use forgery.Run.Slot.{start-pool, wake-pool, wake-returned}
use forgery.Poll.{RoundEnd, goes_on, stops, waits, delivered}
use forgery.Poll.Round
use forgery.Poll.Round.{poll_fetched-pool}
use forgery.Poll.Invariant.{Delivers, issued_after, issued_after-Grows, poll_fetched-Delivers}
use forgery.System.{
  apart, queued, handled, SystemState, moved, polled, Step, calls, takes_slot, polls, starts, wakes,
  Reach, here, next,
}
use forgery.System.Counts.{
  occupied, busy, busy-put, occupied-le-one, put_elsewhere, occupied-le-busy, not-apart, busy-grown,
  busy-delivered,
}

-- A slot is held by each poller that waits for its answer and by each task in flight, and by nobody
-- else; the references that are not in use yet are with nobody.
pub record IsAccounted (s : SystemState) : Type 0 where
  pub all_held : s.daemon.pool.held ≡ s.fetching + busy s.issued.made s.phase
  pub unused : (r : Ref) → s.issued.made ≤ r → s.phase r ≡ apart
  pub bounded : s.daemon.pool.held ≤ s.daemon.pool.capacity

-- a task in flight has a reference that is in use
in_use : (s : SystemState) (r : Ref) → IsAccounted s → s.phase r ≢ apart → r < s.issued.made
in_use s r a used = elim (Bool-cases (ltb r s.issued.made)) [
  | inl lt ↦ ltb→lt r s.issued.made lt
  | inr ge ↦ absurd (used (a.unused r (ground arith)))
]

stage-held :
    (stage : Stage) (p : Pool)
    → 1 ≤ p.held
    → (Slot.pool_after stage p).held + 1 ≡ p.held + occupied (handled stage)
stage-held (waiting_runner e) p le = refl
stage-held waiting_end p le = refl
stage-held returned p le = omega (arith, (release-held p).0)

stage-capacity : (stage : Stage) (p : Pool) → (Slot.pool_after stage p).capacity ≡ p.capacity
stage-capacity (waiting_runner e) p = refl
stage-capacity waiting_end p = refl
stage-capacity returned p = (release-held p).1

round-capacity : (end : RoundEnd) (p : Pool) → (Round.pool_after end p).capacity ≡ p.capacity
round-capacity (delivered r) p = refl
round-capacity goes_on p = (release-held p).1
round-capacity stops p = (release-held p).1
round-capacity waits p = (release-held p).1

moved-IsAccounted :
    (s : SystemState) (r : Ref) (d : Daemon) (stage : Stage)
    → IsAccounted s
    → occupied (s.phase r) ≡ 1
    → d.pool ≡ Slot.pool_after stage s.daemon.pool
    → IsAccounted (moved r (d, stage) s)
moved-IsAccounted s r d stage a h e =
    let known = in_use s r a (not-apart (s.phase r) h) in
    let counted = busy-put s.issued.made s.phase r (handled stage) known in
    let one = occupied-le-busy s.issued.made s.phase r known in
    let held = a.all_held in
    let bound = a.bounded in
    let step = stage-held stage s.daemon.pool (omega arith) in
    let same = stage-capacity stage s.daemon.pool in
    record {
      all_held = rw e (omega arith);
      unused = λ q ge. put_elsewhere s.phase r (handled stage) q (omega arith) (a.unused q ge);
      bounded = rw e (omega (arith, occupied-le-one (handled stage)));
    }

-- The HandleTask of a task that has been dealt with does nothing.
rest-IsAccounted :
    (s : SystemState) (r : Ref)
    → IsAccounted s
    → s.phase r ≡ handled returned
    → IsAccounted (moved r (s.daemon, returned) s)
rest-IsAccounted s r a h =
    let known = in_use s r a (λ free. cc) in
    let held = a.all_held in
    let nothing = ap occupied h in
    record {
      all_held = omega (arith, busy-put s.issued.made s.phase r (handled returned) known);
      unused = λ q ge. put_elsewhere s.phase r (handled returned) q (omega arith) (a.unused q ge);
      bounded = a.bounded;
    }

wakes-IsAccounted :
    (s : SystemState) (r : Ref) (stage : Stage) (k : Wake)
    → IsAccounted s
    → s.phase r ≡ handled stage
    → IsAccounted (moved r (wake r stage k s.daemon) s)
wakes-IsAccounted s r (waiting_runner e) k a h =
    moved-IsAccounted s r _ _ a (ap occupied h)
      (wake-pool r (waiting_runner e) k s.daemon s.daemon.pool refl)
wakes-IsAccounted s r waiting_end k a h =
    moved-IsAccounted s r _ _ a (ap occupied h)
      (wake-pool r waiting_end k s.daemon s.daemon.pool refl)
wakes-IsAccounted s r returned k a h = rw (wake-returned r k s.daemon) (rest-IsAccounted s r a h)

module _ (s : SystemState) (n : ℕ) (later : Issued) (d : Daemon) (a : IsAccounted s)
    (h : s.fetching ≡ suc n) where
  gives_back-IsAccounted :
      (later.made ≡ s.issued.made) ⊎ (later.made ≡ suc s.issued.made)
      → d.pool ≡ release s.daemon.pool
      → IsAccounted (record { daemon = d; issued = later; fetching = n; phase = s.phase })
  gives_back-IsAccounted grown e =
      let held = a.all_held in
      let bound = a.bounded in
      let (less, same) = release-held s.daemon.pool in
      let counted = busy-grown s.issued.made later.made s.phase grown a.unused in
      record {
        all_held = rw e (omega arith);
        unused = λ q ge. a.unused q (reaches q grown ge);
        bounded = rw e (omega arith);
      }
    where
      reaches :
          (q : Ref)
          → (later.made ≡ s.issued.made) ⊎ (later.made ≡ suc s.issued.made)
          → later.made ≤ q
          → s.issued.made ≤ q
      reaches q (inl same) ge = omega arith
      reaches q (inr more) ge = omega arith

  -- the end of a poll round whose slot is among those held
  polled-IsAccounted :
      (end : RoundEnd)
      → (later.made ≡ s.issued.made) ⊎ (later.made ≡ suc s.issued.made)
      → Delivers s.issued later end
      → d.pool ≡ Round.pool_after end s.daemon.pool
      → IsAccounted (polled n later (d, end) s)
  polled-IsAccounted goes_on grown fresh e = gives_back-IsAccounted grown e
  polled-IsAccounted stops grown fresh e = gives_back-IsAccounted grown e
  polled-IsAccounted waits grown fresh e = gives_back-IsAccounted grown e
  polled-IsAccounted (delivered r) grown (fresh, more) e =
      let held = a.all_held in
      let bound = a.bounded in
      let counted = busy-delivered s.issued.made later.made s.phase r fresh more in
      record {
        all_held = rw e (omega arith);
        unused = λ q ge. put_elsewhere s.phase r queued q (omega arith) (a.unused q (omega arith));
        bounded = rw e bound;
      }

wake-capacity :
    (r : Ref) (stage : Stage) (k : Wake) (d : Daemon)
    → (wake r stage k d).0.pool.capacity ≡ d.pool.capacity
wake-capacity r (waiting_runner e) k d =
    ap (λ p. p.capacity) (wake-pool r (waiting_runner e) k d d.pool refl) ∙ stage-capacity _ d.pool
wake-capacity r waiting_end k d =
    ap (λ p. p.capacity) (wake-pool r waiting_end k d d.pool refl) ∙ stage-capacity _ d.pool
wake-capacity r returned k d = ap (λ o. o.0.pool.capacity) (wake-returned r k d)

module _ (resolver : Resolver) where
  Step-IsAccounted : {s t : SystemState} → Step resolver s t → IsAccounted s → IsAccounted t
  Step-IsAccounted (calls c e) a =
      rw e (record { all_held = a.all_held; unused = a.unused; bounded = a.bounded })
  Step-IsAccounted {s} (takes_slot pick ctx_done p h e) a =
      let held = a.all_held in
      let (one_more, same, free) = acquire-holds pick ctx_done s.daemon.pool p h in
      rw e (record { all_held = omega arith; unused = a.unused; bounded = omega arith })
  Step-IsAccounted {s} (polls inst rand now interrupted sent f n h e) a = rw e (
      polled-IsAccounted s n (issued_after inst rand now interrupted sent s.issued f) _ a h _
        (issued_after-Grows inst rand now interrupted sent s.issued f).0
        (poll_fetched-Delivers inst rand now interrupted sent s.issued f s.daemon)
        (poll_fetched-pool inst rand now s.issued.made interrupted sent f s.daemon))
  Step-IsAccounted {s} (starts r triggered h e) a =
      rw e (moved-IsAccounted s r _ _ a (ap occupied h) (start-pool resolver triggered r s.daemon))
  Step-IsAccounted {s} (wakes r stage k h ready e) a = rw e (wakes-IsAccounted s r stage k a h)

  Reach-IsAccounted : {s t : SystemState} → Reach resolver s t → IsAccounted s → IsAccounted t
  Reach-IsAccounted here a = a
  Reach-IsAccounted (next r step) a = Step-IsAccounted step (Reach-IsAccounted r a)

  Step-capacity :
      {s t : SystemState} → Step resolver s t → t.daemon.pool.capacity ≡ s.daemon.pool.capacity
  Step-capacity (calls c e) = rw e refl
  Step-capacity {s} (takes_slot pick ctx_done p h e) =
      rw e (acquire-holds pick ctx_done s.daemon.pool p h).1
  Step-capacity {s} (polls inst rand now interrupted sent f n h e) = rw e (
      ap (λ p. p.capacity)
        (poll_fetched-pool inst rand now s.issued.made interrupted sent f s.daemon)
      ∙ round-capacity _ s.daemon.pool)
  Step-capacity {s} (starts r triggered h e) = rw e (
      ap (λ p. p.capacity) (start-pool resolver triggered r s.daemon)
      ∙ stage-capacity _ s.daemon.pool)
  Step-capacity {s} (wakes r stage k h ready e) = rw e (wake-capacity r stage k s.daemon)

  Reach-capacity :
      {s t : SystemState} → Reach resolver s t → t.daemon.pool.capacity ≡ s.daemon.pool.capacity
  Reach-capacity here = refl
  Reach-capacity (next r step) = Step-capacity step ∙ Reach-capacity r

  -- However the steps of the daemon interleave from its start with an empty pool: the slots that are
  -- held are those of the pollers that wait for an answer and those of the tasks in flight, each counted
  -- once, so that none is lost or released twice, and all together are no more than the capacity.
  pub Reach-held :
      {s t : SystemState} (capacity : ℕ)
      → Reach resolver s t
      → s.daemon.pool ≡ new capacity
      → s.fetching ≡ 0
      → s.issued.made ≡ 0
      → ((r : Ref) → s.phase r ≡ apart)
      → (t.daemon.pool.held ≡ t.fetching + busy t.issued.made t.phase)
        × (t.daemon.pool.held ≤ capacity)
  unfolding new busy
  Reach-held {s} {t} capacity r empty idle none_yet unused =
      let start : IsAccounted s = record {
        all_held = rw (empty, idle, none_yet) refl;
        unused = λ q ge. unused q;
        bounded = rw empty (omega arith);
      } in
      let a = Reach-IsAccounted r start in
      let size = Reach-capacity r ∙ ap (λ p. p.capacity) empty in
      let bound = a.bounded in (a.all_held, omega arith)
