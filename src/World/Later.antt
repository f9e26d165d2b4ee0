-- ===== src/World/Later.antt =====
-- What the calls on the shared state never undo: a stored task was stored before, a runner that has
-- registered stays so, and a task that is over stays so and leaves the store.
use forgery.Base.{
  ℕ, Str, Dict, ◌≡◌, refl, ◌∙◌, arith, true, false, some, List, lookup, eq_iff, eq_refl, nat_eq,
  ◌==◌,
}
use forgery.Task.{Ref, TaskCtx, is_closed}
use forgery.Store
use forgery.Store.{MemStore, mark_reg_token_consumed}
use forgery.Store.Index.{lookup-remove}
use forgery.Session.{Manager}
use forgery.North.{Sent}
use forgery.World.{World, TokenEntry, modify}

-- The store holds the task under some id.
abbrev pub Stores : World → ℕ → Ref → Type 0
Stores w id r = lookup id w.store.tasks ≡ some r

-- The store holds each task under its own id.
abbrev pub IsKeyed : World → Type 0
IsKeyed w = (id : ℕ) (r : Ref) → Stores w id r → (w.heap r).id ≡ id

pub record IsLater (w u : World) : Type 0 where
  pub ids : (r : Ref) → (u.heap r).id ≡ (w.heap r).id
  pub stored : (id : ℕ) (r : Ref) → Stores u id r → Stores w id r
  pub joined :
      (r : Ref) → is_closed (w.heap r).registered ≡ true → is_closed (u.heap r).registered ≡ true
  pub ended : (r : Ref) → is_closed (w.heap r).done ≡ true → is_closed (u.heap r).done ≡ true
  -- no task is over and still in the store
  pub goes_on :
      (id : ℕ) (r : Ref)
      → Stores u id r
      → is_closed (w.heap r).done ≡ false
      → is_closed (u.heap r).done ≡ false

pub IsLater-refl : (w : World) → IsLater w w
IsLater-refl w = record {
  ids = λ r. refl;
  stored = λ id r h. h;
  joined = λ r h. h;
  ended = λ r h. h;
  goes_on = λ id r h o. o;
}

pub IsLater-trans : (w u v : World) → IsLater w u → IsLater u v → IsLater w v
IsLater-trans w u v a b = record {
  ids = λ r. b.ids r ∙ a.ids r;
  stored = λ id r h. a.stored id r (b.stored id r h);
  joined = λ r h. b.joined r (a.joined r h);
  ended = λ r h. b.ended r (a.ended r h);
  goes_on = λ id r h o. b.goes_on id r h (a.goes_on id r (b.stored id r h) o);
}

pub IsLater-IsKeyed : (w u : World) → IsLater w u → IsKeyed w → IsKeyed u
IsLater-IsKeyed w u a keyed id r h = a.ids r ∙ keyed id r (a.stored id r h)

module _ (w : World) where
  -- changes of all that is neither the contexts nor the store
  pub aside-IsLater :
      (m : Manager) (entries : Dict Str TokenEntry) (sent : List Sent)
      → IsLater w (record w { sessions = m; entries = entries; sent = sent })
  aside-IsLater m entries sent = record {
    ids = λ r. refl;
    stored = λ id r h. h;
    joined = λ r h. h;
    ended = λ r h. h;
    goes_on = λ id r h o. o;
  }

  pub restock-IsLater :
      (st : MemStore)
      → ((id : ℕ) (r : Ref) → lookup id st.tasks ≡ some r → Stores w id r)
      → IsLater w (record w { store = st })
  restock-IsLater st sub = record {
    ids = λ r. refl;
    stored = sub;
    joined = λ r h. h;
    ended = λ r h. h;
    goes_on = λ id r h o. o;
  }

  pub drop-IsLater : (id : ℕ) → IsLater w (record w { store = Store.remove id w.store })
  drop-IsLater id =
      restock-IsLater (Store.remove id w.store)
        (λ j r h. ground (arith, lookup-remove id j w.store))

  pub consume-IsLater :
      (token : Str) → IsLater w (record w { store = (mark_reg_token_consumed token w.store).1 })
  consume-IsLater token =
      restock-IsLater (mark_reg_token_consumed token w.store).1
        (λ id r h. unfold mark_reg_token_consumed in ground arith)

  -- A method of a context that neither undoes the registration nor ends the task.
  pub modify-IsLater :
      (r : Ref) (f : TaskCtx → TaskCtx)
      → ((t : TaskCtx) → (f t).id ≡ t.id)
      → ((t : TaskCtx) → is_closed t.registered ≡ true → is_closed (f t).registered ≡ true)
      → ((t : TaskCtx) → is_closed t.done ≡ false → is_closed (f t).done ≡ false)
      → ((t : TaskCtx) → is_closed t.done ≡ true → is_closed (f t).done ≡ true)
      → IsLater w (modify r f w)
  modify-IsLater r f same keeps opens ends = record {
    ids = λ q. ground (arith, same (w.heap r), eq_iff r q);
    stored = λ id q h. h;
    joined = λ q h. ground (arith, keeps (w.heap r), eq_iff r q);
    ended = λ q h. ground (arith, ends (w.heap r), eq_iff r q);
    goes_on = λ id q h o. ground (arith, opens (w.heap r), eq_iff r q);
  }

  -- A task that is dropped is not in the store under any id.
  pub dropped :
      (r : Ref) (own id q : ℕ)
      → own ≡ (w.heap r).id
      → IsKeyed w
      → lookup id (Store.remove own w.store).tasks ≡ some q
      → (r == q) ≡ false
  dropped r own id q same keyed h = ground (
    arith,
    lookup-remove own id w.store,
    keyed id q,
    eq_iff r q,
    eq_iff own id,
    eq_iff (w.heap r).id id,
  )

  -- MarkDone, and the removal of the task from the store
  pub end-IsLater :
      (r : Ref) (f : TaskCtx → TaskCtx) (m : Manager)
      → IsKeyed w
      → ((t : TaskCtx) → (f t).id ≡ t.id)
      → ((t : TaskCtx) → is_closed t.registered ≡ true → is_closed (f t).registered ≡ true)
      → ((t : TaskCtx) → is_closed t.done ≡ true → is_closed (f t).done ≡ true)
      → IsLater w (record (modify r f w) {
        sessions = m;
        store = Store.remove ((modify r f w).heap r).id w.store;
      })
  end-IsLater r f m keyed same keeps ends = record {
    ids = λ q. ground (arith, same (w.heap r), eq_iff r q);
    stored = λ id q h. ground (arith, lookup-remove ((modify r f w).heap r).id id w.store);
    joined = λ q h. ground (arith, keeps (w.heap r), eq_iff r q);
    ended = λ q h. ground (arith, ends (w.heap r), eq_iff r q);
    goes_on = λ id q h o.
        let own : ((modify r f w).heap r).id ≡ (w.heap r).id =
          ground (arith, same (w.heap r), eq_refl r) in
        rw (dropped r ((modify r f w).heap r).id id q own keyed h) o;
  }
