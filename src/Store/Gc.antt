-- ===== src/Store/Gc.antt =====
-- internal/store/memstore.go: what GC removes and what CountActive counts.
use mathlib.Core.Path.{fun_ext}
use forgery.Base.{
  ℕ, Str, ◌≡◌, refl, ap, ◌↔◌, arith, Bool, true, false, not, ◌==◌, nat_eq, str_eq, Option, none,
  some, List, [], ◌∷◌, Dict, lookup, any, only, Distinct, if◌then◌else◌, eq_iff, eq_refl,
}
use forgery.Task.{Ref, Heap, is_terminal}
use forgery.Store.{
  MemStore, is_stale, stale_ids, remove_locked, remove_all, gc, count_non_terminal, count_active,
}
use forgery.Store.Index.{
  IsValid, gc-eq-remove_all, lookup-remove_locked, lookup_token-remove_locked,
  remove_locked-IsValid,
}

abbrev contains : ℕ → List ℕ → Bool
contains j = any (λ id. id == j)

lookup-remove_all :
    (ids : List ℕ) (j : ℕ) (m : MemStore)
    → lookup j (remove_all ids m).tasks ≡ (if contains j ids then none else lookup j m.tasks)
unfolding remove_all
lookup-remove_all [] j m = refl
lookup-remove_all (id ∷ ids) j m =
    ground (arith, lookup-remove_all ids j (remove_locked id m), lookup-remove_locked id j m)

only-only :
    (id : ℕ) (ids : List ℕ) (o : Option ℕ)
    → only (λ o. not (contains o ids)) (only (λ o. not (o == id)) o)
      ≡ only (λ o. not (contains o (id ∷ ids))) o
only-only id ids none = refl
only-only id ids (some i) = ground (arith, eq_iff i id, eq_iff id i)

lookup_token-remove_all :
    (ids : List ℕ) (token : Str) (m : MemStore)
    → IsValid m
    → lookup token (remove_all ids m).by_reg
      ≡ only (λ o. not (contains o ids)) (lookup token m.by_reg)
unfolding remove_all
lookup_token-remove_all [] token m v = ground arith
lookup_token-remove_all (id ∷ ids) token m v =
    rw (lookup_token-remove_all ids token (remove_locked id m) (remove_locked-IsValid id m v))
      (rw (lookup_token-remove_locked id token m v) (only-only id ids (lookup token m.by_reg)))

abbrev pub stale_at : Heap → ℕ → Option Ref → Bool
stale_at h now none = false
stale_at h now (some r) = is_stale h now r

contains-stale_ids :
    (h : Heap) (now j : ℕ) (m : Dict ℕ Ref)
    → Distinct m
    → contains j (stale_ids h now m) ≡ stale_at h now (lookup j m)
unfolding stale_ids lookup
contains-stale_ids h now j [] d = refl
contains-stale_ids h now j ((id, r) ∷ m) d =
    ground (arith, contains-stale_ids h now j m d.1, eq_iff id j)

-- GC removes a task exactly if it is pending and its token has outlived its TTL, with the tokens
-- that lead to it, and leaves every other entry of both maps as it was.
pub gc_lem :
    (h : Heap) (now id : ℕ) (token : Str) (m : MemStore)
    → IsValid m
    → (lookup id (gc h now m).tasks ≡ only (λ r. not (is_stale h now r)) (lookup id m.tasks))
      × (lookup token (gc h now m).by_reg
          ≡ only (λ o. not (stale_at h now (lookup o m.tasks))) (lookup token m.by_reg))
gc_lem h now id token m v = (
  rw
      (
        gc-eq-remove_all h now m,
        lookup-remove_all (stale_ids h now m.tasks) id m,
        contains-stale_ids h now id m.tasks v.tasks_distinct,
      )
      (ground arith),
  rw (gc-eq-remove_all h now m, lookup_token-remove_all (stale_ids h now m.tasks) token m v)
      (ap (λ p. only p (lookup token m.by_reg))
        (fun_ext λ o. ap not (contains-stale_ids h now o m.tasks v.tasks_distinct))),
)

count_non_terminal-eq-zero :
    (h : Heap) (m : Dict ℕ Ref)
    → count_non_terminal h m ≡ 0
    → (id : ℕ) (r : Ref) → lookup id m ≡ some r
    → is_terminal (h r).status ≡ true
unfolding count_non_terminal lookup
count_non_terminal-eq-zero h [] z id r e = cc
count_non_terminal-eq-zero h ((j, q) ∷ m) z id r e =
    ground (arith, count_non_terminal-eq-zero h m (ground arith) id r)

count_non_terminal_zero :
    (h : Heap) (m : Dict ℕ Ref)
    → Distinct m
    → ((id : ℕ) (r : Ref) → lookup id m ≡ some r → is_terminal (h r).status ≡ true)
    → count_non_terminal h m ≡ 0
unfolding count_non_terminal lookup
count_non_terminal_zero h [] d f = refl
count_non_terminal_zero h ((j, q) ∷ m) d f = ground (
  arith,
  f j q (ground (arith, eq_refl j)),
  count_non_terminal_zero h m d.1 (λ id r e. f id r (ground (arith, eq_iff j id))),
)

-- The store counts no task as active exactly if every task in it is terminal.
pub count_active-eq-zero :
    (h : Heap) (m : MemStore)
    → Distinct m.tasks
    → (count_active h m ≡ 0)
      ↔ ((id : ℕ) (r : Ref) → lookup id m.tasks ≡ some r → is_terminal (h r).status ≡ true)
unfolding count_active
count_active-eq-zero h m d =
    (count_non_terminal-eq-zero h m.tasks, count_non_terminal_zero h m.tasks d)
