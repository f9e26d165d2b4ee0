-- ===== src/App/Reap.antt =====
-- internal/app/app.go: what a pass of gcOnce does to an orphaned session and to the others.
use forgery.Base.{
  Bool, if◌then◌else◌, ℕ, ℤ, Str, ◌≡◌, refl, ap, subst, ◌∙◌, arith, true, false, nat_eq, str_eq,
  eq_refl, eq_iff, Option, none, some, List, [], ◌∷◌, In, inl, inr, lookup,
}
use forgery.Task.{Ref, closed, Heap, update, mark_done}
use forgery.Store.Index.{lookup-remove_self, lookup-remove}
use forgery.Session.{Session, expire, is_silent}
use forgery.Session.Expiry.{IsValid, lookup-expire, In-expire}
use forgery.North.{Resolver, InstanceEntry, Sent, resolve, task_update}
use forgery.World.{World, modify}
use forgery.Store
use forgery.Run.{failure_update_request, drop_task}
use forgery.App.{reap, reap_all, gc_once, report}

-- The task of a context has been given up: its done channel is closed, the store has no task with its
-- id, and its owner, if it is known and the context had not ended by then, has been sent a failure report.
pub record IsGivenUp (resolver : Resolver) (stopped : Bool) (r : Ref) (id : ℕ) (name : Str)
    (w : World) : Type 0 where
  pub same_id : (w.heap r).id ≡ id
  pub done : (w.heap r).done ≡ closed
  pub no_task : lookup id w.store.tasks ≡ none
  pub reported :
      stopped ≡ false
      → (e : InstanceEntry) → resolve name resolver ≡ some e
      → In (task_update e.inst.name (failure_update_request id)) w.sent

abbrev sent_after : Bool → Option InstanceEntry → Ref → World → List Sent
sent_after stopped none r w = w.sent
sent_after stopped (some e) r w =
    if stopped
    then w.sent
    else task_update e.inst.name (failure_update_request (w.heap r).id) ∷ w.sent

abbrev given_up : Bool → Option InstanceEntry → Ref → World → World
given_up stopped o r w = record w {
  heap = update w.heap r mark_done;
  store = Store.remove (w.heap r).id w.store;
  sent = sent_after stopped o r w;
}

report-given_up :
    (stopped : Bool) (o : Option InstanceEntry) (r : Ref) (w : World)
    → drop_task r (modify r mark_done (report stopped o r w)) ≡ given_up stopped o r w
report-given_up stopped none r w = simp eq_refl refl
report-given_up stopped (some e) r w = simp eq_refl refl

given_up-IsGivenUp :
    (resolver : Resolver) (stopped : Bool) (r : Ref) (id : ℕ) (name : Str) (w : World)
    → (w.heap r).id ≡ id
    → (w.heap r).instance_name ≡ name
    → IsGivenUp resolver stopped r id name
        (given_up stopped (resolve (w.heap r).instance_name resolver) r w)
given_up-IsGivenUp resolver stopped r id name w e f = record {
  same_id = ground (arith, eq_refl r);
  done = ground (arith, eq_refl r);
  no_task =
      subst (λ i. lookup i (Store.remove (w.heap r).id w.store).tasks ≡ none) e
        (lookup-remove_self (w.heap r).id w.store);
  reported = λ live x found. rw (live, f, found, e) (inl refl);
}

In-sent_after :
    (x : Sent) (stopped : Bool) (o : Option InstanceEntry) (r : Ref) (w : World)
    → In x w.sent
    → In x (sent_after stopped o r w)
In-sent_after x stopped none r w i = i
In-sent_after x true (some e) r w i = i
In-sent_after x false (some e) r w i = inr i

update_identity :
    (h : Heap) (r q : Ref)
    → ((update h r mark_done q).id ≡ (h q).id)
      × ((update h r mark_done q).instance_name ≡ (h q).instance_name)
update_identity h r q = ground (arith, eq_iff r q)

given_up_keeps :
    (resolver : Resolver) (stopped now_stopped : Bool) (o : Option InstanceEntry) (r q : Ref)
    (id : ℕ) (name : Str) (w : World)
    → IsGivenUp resolver stopped q id name w
    → IsGivenUp resolver stopped q id name (given_up now_stopped o r w)
given_up_keeps resolver stopped now_stopped o r q id name w g = record {
  same_id = (update_identity w.heap r q).0 ∙ g.same_id;
  done = let d = g.done in ground (arith, eq_iff r q);
  no_task = let n = g.no_task in ground (arith, lookup-remove (w.heap r).id id w.store);
  reported = λ live e found. In-sent_after _ now_stopped o r w (g.reported live e found);
}

module _ (resolver : Resolver) (aborted : Session → Bool) where
  reap_lem :
      (s : Session) (w : World)
      → reap resolver aborted s w
        ≡ given_up (aborted s) (resolve (w.heap s.task_ctx).instance_name resolver) s.task_ctx w
  unfolding reap
  reap_lem s w =
      report-given_up (aborted s) (resolve (w.heap s.task_ctx).instance_name resolver) s.task_ctx w

  reap_all_keeps :
      (stopped : Bool) (q : Ref) (id : ℕ) (name : Str) (expired : List Session) (w : World)
      → IsGivenUp resolver stopped q id name w
      → IsGivenUp resolver stopped q id name (reap_all resolver aborted expired w)
  unfolding reap_all
  reap_all_keeps stopped q id name [] w g = g
  reap_all_keeps stopped q id name (s ∷ expired) w g =
      reap_all_keeps stopped q id name expired (reap resolver aborted s w)
        (rw (reap_lem s w) (given_up_keeps resolver stopped (aborted s) _ s.task_ctx q id name w g))

  reap_all-IsGivenUp :
      (s : Session) (id : ℕ) (name : Str) (expired : List Session) (w : World)
      → In s expired
      → (w.heap s.task_ctx).id ≡ id
      → (w.heap s.task_ctx).instance_name ≡ name
      → IsGivenUp resolver (aborted s) s.task_ctx id name (reap_all resolver aborted expired w)
  unfolding reap_all
  reap_all-IsGivenUp s id name [] w i e f = absurd i
  reap_all-IsGivenUp s id name (x ∷ expired) w (inl same) e f = rw same (
      reap_all_keeps (aborted s) s.task_ctx id name expired (reap resolver aborted s w)
        (rw (reap_lem s w) (given_up-IsGivenUp resolver (aborted s) s.task_ctx id name w e f)))
  reap_all-IsGivenUp s id name (x ∷ expired) w (inr later) e f =
      reap_all-IsGivenUp s id name expired (reap resolver aborted x w) later
        (ap (λ v. (v.heap s.task_ctx).id) (reap_lem x w)
          ∙ (update_identity w.heap x.task_ctx s.task_ctx).0
          ∙ e)
        (ap (λ v. (v.heap s.task_ctx).instance_name) (reap_lem x w)
          ∙ (update_identity w.heap x.task_ctx s.task_ctx).1
          ∙ f)

  reap_all-sessions :
      (expired : List Session) (w : World)
      → (reap_all resolver aborted expired w).sessions ≡ w.sessions
  unfolding reap_all
  reap_all-sessions [] w = refl
  reap_all-sessions (s ∷ expired) w =
      reap_all-sessions expired (reap resolver aborted s w) ∙ ap (λ x. x.sessions) (reap_lem s w)

  sent_after-stopped :
      (o : Option InstanceEntry) (r : Ref) (w : World) → sent_after true o r w ≡ w.sent
  sent_after-stopped none r w = refl
  sent_after-stopped (some e) r w = refl

  reap_all-sent :
      ((s : Session) → aborted s ≡ true)
      → (expired : List Session) (w : World) → (reap_all resolver aborted expired w).sent ≡ w.sent
  unfolding reap_all
  reap_all-sent over [] w = refl
  reap_all-sent over (s ∷ expired) w =
      reap_all-sent over expired (reap resolver aborted s w)
      ∙ ap (λ x. x.sent) (reap_lem s w)
      ∙ rw (over s)
          (sent_after-stopped (resolve (w.heap s.task_ctx).instance_name resolver) s.task_ctx w)

  -- One pass of gcOnce on a valid session manager. Every session silent for longer than the limit is
  -- dropped, its task's done channel is closed and its task is gone from the store, whether or not the
  -- daemon is stopping; its owner, if it is known, has been sent a failure report for it if the context
  -- had not ended by then. Every other session stays as it was. A pass whose context has ended before its
  -- first report sends nothing.
  pub gc_once_lem :
      (now : ℕ) (max_age : ℤ) (w : World) (token : Str) (s : Session)
      → IsValid w.sessions
      → lookup token w.sessions ≡ some s
      → (is_silent now max_age s ≡ true
          → (lookup token (gc_once resolver aborted now max_age w).sessions ≡ none)
            × IsGivenUp resolver
                (aborted s)
                s.task_ctx
                (w.heap s.task_ctx).id
                (w.heap s.task_ctx).instance_name
                (gc_once resolver aborted now max_age w))
        × (is_silent now max_age s ≡ false
            → lookup token (gc_once resolver aborted now max_age w).sessions ≡ some s)
        × (((x : Session) → aborted x ≡ true)
            → (gc_once resolver aborted now max_age w).sent ≡ w.sent)
  unfolding gc_once
  gc_once_lem now max_age w token s v found =
      let left = lookup-expire now max_age token w.sessions v in
      let kept = ap (lookup token) (reap_all-sessions (expire now max_age w.sessions).0 _) ∙ left in
      (
        λ silent. (
          kept ∙ rw (found, silent) refl,
          reap_all-IsGivenUp s _ _ (expire now max_age w.sessions).0 _
              ((In-expire now max_age s w.sessions v).1 (token, found, silent)) refl refl,
        ),
        λ active. kept ∙ rw (found, active) refl,
        λ over. reap_all-sent over (expire now max_age w.sessions).0 _,
      )
