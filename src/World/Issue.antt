-- ===== src/World/Issue.antt =====
-- A task context more: the state after a poller has fetched a task, and the state at the start.
use forgery.Base.{
  suc, ◌<◌, ◌≡◌, sym, ◌∙◌, arith, [], lookup, lookup-insert, eq_iff, eq_refl, ◌==◌, nat_eq, str_eq,
  if◌then◌else◌,
}
use forgery.Task.{Ref, Heap, TaskCtx, update}
use forgery.Store.{new_mem_store, put_pending}
use forgery.Store.Index.{new_mem_store-IsValid, put_pending-IsValid}
use forgery.Session.{new_manager}
use forgery.North.{Sent}
use forgery.World.{World}
use forgery.World.Routed.{Issued, IsOwned, IsRouted}

-- one more context
abbrev pub issue : TaskCtx → Issued → Issued
issue t issued = record {
  made = suc issued.made;
  id = λ r. if issued.made == r then t.id else issued.id r;
  owner = λ r. if issued.made == r then t.instance_name else issued.owner r;
}

module _ (issued : Issued) (t : TaskCtx) where
  pub issue-same :
      (r : Ref)
      → r < issued.made
      → ((issue t issued).id r ≡ issued.id r) × ((issue t issued).owner r ≡ issued.owner r)
  issue-same r k = ground (arith, eq_iff issued.made r)

  issue-IsOwned : (x : Sent) → IsOwned issued x → IsOwned (issue t issued) x
  issue-IsOwned x o = record {
    task = o.task;
    known = let k = o.known in omega arith;
    same_id = (issue-same o.task o.known).0 ∙ o.same_id;
    same_instance = (issue-same o.task o.known).1 ∙ o.same_instance;
  }

  -- the context of a task that a poller has fetched, at a fresh reference
  abbrev pub issued_heap : Heap → Heap
  issued_heap h = update h issued.made (λ old. t)

  -- ... and in the store
  pub issue-IsRouted :
      (w : World)
      → IsRouted issued w
      → IsRouted (issue t issued) (record w {
        heap = issued_heap w.heap;
        store = put_pending (issued_heap w.heap) issued.made w.store;
      })
  unfolding put_pending
  issue-IsRouted w v = record {
    contexts = λ r k. ground (arith, v.contexts r, eq_iff issued.made r);
    store_valid = put_pending-IsValid (issued_heap w.heap) issued.made w.store v.store_valid;
    sessions_valid = v.sessions_valid;
    stored = λ id r e. ground (
      arith,
      lookup-insert (issued_heap w.heap issued.made).id id issued.made w.store.tasks,
      eq_refl issued.made,
      eq_iff issued.made r,
      eq_iff t.id id,
      v.stored id r,
    );
    held = λ token s e. let k = v.held token s e in omega arith;
    routed = λ token e f.
        let (k, own) = v.routed token e f in (omega arith, own ∙ sym (issue-same e.task k).1);
    relayed = λ x i. issue-IsOwned x (v.relayed x i);
  }

-- the state the daemon starts in, before any task has been fetched
abbrev pub new_world : Heap → World
new_world h = record {
  heap = h;
  store = new_mem_store;
  sessions = new_manager;
  entries = [];
  sent = [];
}

pub new_world-IsRouted :
    (issued : Issued) (h : Heap) → issued.made ≡ 0 → IsRouted issued (new_world h)
unfolding new_mem_store new_manager lookup
new_world-IsRouted issued h none_yet = record {
  contexts = λ r k. absurd (omega arith);
  store_valid = new_mem_store-IsValid;
  sessions_valid = record { distinct = tt; keyed = λ token s e. cc };
  stored = λ id r e. cc;
  held = λ token s e. cc;
  routed = λ token e f. cc;
  relayed = λ x i. absurd i;
}
