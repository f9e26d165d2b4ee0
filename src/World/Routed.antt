-- ===== src/World/Routed.antt =====
-- What ties the shared state together: the task contexts of the store, of the sessions and of the token
-- registry, and the instances that requests are relayed to.
use forgery.Base.{
  Dict, ℤ, ℕ, ◌<◌, Str, ◌≡◌, sym, subst, ◌∙◌, arith, some, [], ◌∷◌, In, inl, inr, lookup, insert,
  lookup-insert, lookup-delete, eq_iff, only-some, nat_eq, str_eq,
}
use forgery.Task.{Ref, TaskCtx}
use forgery.Store
use forgery.Store.{MemStore, new_mem_store, gc, put_pending, mark_reg_token_consumed}
use forgery.Store.Index
use forgery.Store.Index.{
  new_mem_store-IsValid, put_pending-IsValid, mark_reg_token_consumed-IsValid, gc-IsValid,
  lookup-remove,
}
use forgery.Store.Gc.{gc_lem}
use forgery.Session
use forgery.Session.{Session, Manager, new_manager, expire, touch, is_silent}
use forgery.Session.Expiry
use forgery.Session.Expiry.{
  lookup-expire, insert-IsValid, expire-IsValid, touch-IsValid, touch-task,
}
use forgery.North.{Sent, task_update, log_update}
use forgery.World.{World, TokenEntry, modify}

-- the instance a relayed request went to, and the task it names
abbrev pub sent_to : Sent → Str
sent_to (task_update name req) = name
sent_to (log_update name req) = name

abbrev pub sent_id : Sent → ℕ
sent_id (task_update name req) = req.state_id
sent_id (log_update name req) = req.task_id

-- The task contexts made so far, the first `made` references: the ids of their tasks and the instances
-- these were fetched from.
pub record Issued : Type 0 where
  pub made : ℕ
  pub id : Ref → ℕ
  pub owner : Ref → Str

-- A task with the id of the request was fetched from the instance it went to.
pub record IsOwned (issued : Issued) (x : Sent) : Type 0 where
  pub task : Ref
  pub known : task < issued.made
  pub same_id : issued.id task ≡ sent_id x
  pub same_instance : issued.owner task ≡ sent_to x

-- Contexts keep their ids and instances. The store and the sessions are valid; what they and the
-- registry hold are contexts made so far, the stored ones under their ids; an entry of the registry names
-- the instance its task was fetched from; and each relayed request is for a task that was fetched from
-- the instance it went to.
pub record IsRouted (issued : Issued) (w : World) : Type 0 where
  pub contexts :
      (r : Ref)
      → r < issued.made
      → ((w.heap r).id ≡ issued.id r) × ((w.heap r).instance_name ≡ issued.owner r)
  pub store_valid : Store.Index.IsValid w.store
  pub sessions_valid : Session.Expiry.IsValid w.sessions
  pub stored :
      (id : ℕ) (r : Ref) → lookup id w.store.tasks ≡ some r → (r < issued.made) × (issued.id r ≡ id)
  pub held :
      (token : Str) (s : Session) → lookup token w.sessions ≡ some s → s.task_ctx < issued.made
  pub routed :
      (token : Str) (e : TokenEntry)
      → lookup token w.entries ≡ some e
      → (e.task < issued.made) × (e.instance_name ≡ issued.owner e.task)
  pub relayed : (x : Sent) → In x w.sent → IsOwned issued x

module _ (issued : Issued) (w : World) (v : IsRouted issued w) where
  pub restock :
      (st : MemStore)
      → Store.Index.IsValid st
      → ((id : ℕ) (r : Ref) → lookup id st.tasks ≡ some r → (r < issued.made) × (issued.id r ≡ id))
      → IsRouted issued (record w { store = st })
  restock st valid sub = record {
    contexts = v.contexts;
    store_valid = valid;
    sessions_valid = v.sessions_valid;
    stored = sub;
    held = v.held;
    routed = v.routed;
    relayed = v.relayed;
  }

  pub resession :
      (m : Manager)
      → Session.Expiry.IsValid m
      → ((token : Str) (s : Session) → lookup token m ≡ some s → s.task_ctx < issued.made)
      → IsRouted issued (record w { sessions = m })
  resession m valid sub = record {
    contexts = v.contexts;
    store_valid = v.store_valid;
    sessions_valid = valid;
    stored = v.stored;
    held = sub;
    routed = v.routed;
    relayed = v.relayed;
  }

  pub reenter :
      (m : Dict Str TokenEntry)
      → ((token : Str) (e : TokenEntry)
          → lookup token m ≡ some e
          → (e.task < issued.made) × (e.instance_name ≡ issued.owner e.task))
      → IsRouted issued (record w { entries = m })
  reenter m own = record {
    contexts = v.contexts;
    store_valid = v.store_valid;
    sessions_valid = v.sessions_valid;
    stored = v.stored;
    held = v.held;
    routed = own;
    relayed = v.relayed;
  }

  relay_cases : (x y : Sent) → IsOwned issued x → In y (x ∷ w.sent) → IsOwned issued y
  relay_cases x y o (inl same) = subst (IsOwned issued) same o
  relay_cases x y o (inr old) = v.relayed y old

  pub relay : (x : Sent) → IsOwned issued x → IsRouted issued (record w { sent = x ∷ w.sent })
  relay x o = record {
    contexts = v.contexts;
    store_valid = v.store_valid;
    sessions_valid = v.sessions_valid;
    stored = v.stored;
    held = v.held;
    routed = v.routed;
    relayed = λ y i. relay_cases x y o i;
  }

  pub modify-IsRouted :
      (r : Ref) (f : TaskCtx → TaskCtx)
      → ((t : TaskCtx) → ((f t).id ≡ t.id) × ((f t).instance_name ≡ t.instance_name))
      → IsRouted issued (modify r f w)
  modify-IsRouted r f same = record {
    contexts = λ q k. let own = v.contexts q k in ground (arith, same (w.heap r), eq_iff r q);
    store_valid = v.store_valid;
    sessions_valid = v.sessions_valid;
    stored = v.stored;
    held = v.held;
    routed = v.routed;
    relayed = v.relayed;
  }

  pub drop-IsRouted : (id : ℕ) → IsRouted issued (record w { store = Store.remove id w.store })
  drop-IsRouted id =
      restock (Store.remove id w.store) (Store.Index.remove-IsValid id w.store v.store_valid)
        (λ j r e. v.stored j r (ground (arith, lookup-remove id j w.store)))

  pub gc-IsRouted : (now : ℕ) → IsRouted issued (record w { store = gc w.heap now w.store })
  gc-IsRouted now =
      restock (gc w.heap now w.store) (gc-IsValid w.heap now w.store v.store_valid) (λ id r e.
        v.stored id r (only-some _ _ r (sym (gc_lem w.heap now id [] w.store v.store_valid).0 ∙ e)))

  pub consume-IsRouted :
      (token : Str)
      → IsRouted issued (record w { store = (mark_reg_token_consumed token w.store).1 })
  consume-IsRouted token =
      restock _ (mark_reg_token_consumed-IsValid token w.store v.store_valid)
        (λ id r e. v.stored id r (unfold mark_reg_token_consumed in ground arith))

  pub insert-IsRouted :
      (token : Str) (s : Session)
      → s.session_token ≡ token
      → s.task_ctx < issued.made
      → IsRouted issued (record w { sessions = insert token s w.sessions })
  insert-IsRouted token s key known =
      resession _ (insert-IsValid token s w.sessions key v.sessions_valid)
        (λ t r e. ground (arith, lookup-insert token t s w.sessions, v.held t r))

  pub touch-IsRouted :
      (token : Str) (now : ℕ)
      → IsRouted issued (record w { sessions = (touch token now w.sessions).1 })
  touch-IsRouted token now =
      resession _ (touch-IsValid token now w.sessions v.sessions_valid) (λ t s e.
        let (r, found, same) = touch-task token t now w.sessions s e in
        let k = v.held t r found in rw (sym same) k)

  pub forget-IsRouted :
      (token : Str) → IsRouted issued (record w { sessions = Session.remove token w.sessions })
  forget-IsRouted token =
      resession _ (Session.Expiry.remove-IsValid token w.sessions v.sessions_valid) (λ t s e.
        v.held t s (unfold Session.remove in ground (arith, lookup-delete token t w.sessions)))

  pub expire-IsRouted :
      (now : ℕ) (max_age : ℤ)
      → IsRouted issued (record w { sessions = (expire now max_age w.sessions).1 })
  expire-IsRouted now max_age =
      resession _ (expire-IsValid now max_age w.sessions v.sessions_valid) (λ t s e.
        v.held t s
          (only-some _ _ s (sym (lookup-expire now max_age t w.sessions v.sessions_valid) ∙ e)))
