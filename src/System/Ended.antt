-- ===== src/System/Ended.antt =====
-- A task that is over stays over, whatever the parts of the daemon do.
use forgery.Base.{◌<◌, ◌≡◌, ap, subst, ◌∙◌, arith, true, eq_ne, nat_eq}
use forgery.Task.{Ref, is_closed}
use forgery.North.{Resolver, IsNamed}
use forgery.Run.Later.{start-Leaves, wake-Leaves}
use forgery.Poll.Invariant.{issued_after, issued_after-Grows}
use forgery.Poll.Later.{poll_fetched-heap}
use forgery.System.{SystemState, Step, calls, takes_slot, polls, starts, wakes, Reach, here, next}
use forgery.System.Owners.{Invariant, Grows-known}
use forgery.System.Tracked.{IsTracked, Promise, Reach-IsTracked, perform-IsLater, IsRouted-IsKeyed}

-- The task has been fetched, and its done channel is closed.
abbrev pub IsOver : Ref → SystemState → Type 0
IsOver r s = (r < s.issued.made) × (is_closed (s.daemon.world.heap r).done ≡ true)

module _ (resolver : Resolver) (named : IsNamed resolver) (r : Ref) where
  Step-IsOver :
      {s t : SystemState} → Step resolver s t → Invariant s → IsTracked s → IsOver r s → IsOver r t
  Step-IsOver {s} (calls c e) (v, placed) tracked (known, over) =
      rw e (known, (perform-IsLater resolver c s.issued s.daemon.world v).ended r over)
  Step-IsOver (takes_slot pick ctx_done p h e) (v, placed) tracked over = rw e over
  Step-IsOver {s} (polls inst rand now interrupted sent f n h e) (v, placed) tracked (known, over) =
      let grown = issued_after-Grows inst rand now interrupted sent s.issued f in
      let elsewhere = eq_ne s.issued.made r (λ same. omega arith) in
      rw e (
        Grows-known s.issued (issued_after inst rand now interrupted sent s.issued f) r grown known,
        ap (λ t. is_closed t.done)
              (poll_fetched-heap inst rand now s.issued.made interrupted sent f s.daemon r
                elsewhere)
            ∙ over,
      )
  Step-IsOver {s} (starts q triggered h e) (v, placed) tracked (known, over) =
      let (l, kept) =
        start-Leaves q resolver triggered s.daemon (IsRouted-IsKeyed s.issued s.daemon.world v) in
      rw e (known, l.ended r over)
  Step-IsOver {s} (wakes q stage k h ready e) (v, placed) tracked (known, over) =
      let (l, kept) =
        wake-Leaves q s.daemon (IsRouted-IsKeyed s.issued s.daemon.world v)
          (λ id i. (tracked id q i).0) stage k ready
          (λ id i. subst (Promise s.daemon.world q) h (tracked id q i).1) in
      rw e (known, l.ended r over)

  pub Reach-IsOver :
      {s t : SystemState} → Reach resolver s t → Invariant s → IsTracked s → IsOver r s → IsOver r t
  Reach-IsOver here i tracked over = over
  Reach-IsOver (next run step) i tracked over =
      let (j, followed) = Reach-IsTracked resolver named run i tracked in
      Step-IsOver step j followed (Reach-IsOver run i tracked over)
