-- ===== src/App/Drain/Ends.antt =====
-- internal/app/app.go: the wait for active tasks ends, and what its two endings mean.
use forgery.Base.{
  ℕ, zero, suc, ◌+◌, ◌≤◌, ◌<◌, ◌≡◌, ◌≢◌, refl, ap, subst, sym, ◌∙◌, arith, Bool, true, false, some,
  ◌==◌, nat_eq, eq_iff, inl, inr, Bool-cases,
}
use forgery.App.Drain.{View, Drained, drained, still_active, active, drain_rounds, drain_tasks}

-- The rounds up to `k`, counted from `from`, neither found the store drained nor timed out.
abbrev pub Waited : (ℕ → View) → (ℕ → Bool) → ℕ → ℕ → Type 0
Waited view expired from k =
    (j : ℕ) → from ≤ j → j < k → (active view expired j ≢ 0) × (expired j ≡ false)

-- What a result says: at which round the loop ended, and how.
abbrev pub Ends : (ℕ → View) → (ℕ → Bool) → ℕ → ℕ → Drained → Type 0
Ends view expired from n drained =
    (k : ℕ) × (k ≤ n) × Waited view expired from k × (active view expired k ≡ 0)
Ends view expired from n (still_active a) =
    (k : ℕ) × (k ≤ n)
    × Waited view expired from k
    × (active view expired k ≡ a)
    × (a ≢ 0)
    × (expired k ≡ true)

later : (from j : ℕ) → from ≤ j → (j == from) ≡ false → suc from ≤ j
later from j le h = grind (arith, eq_iff j from)

nonzero : (a : ℕ) → (a == 0) ≡ false → a ≢ 0
nonzero a h = grind (arith, eq_iff a 0)

module _ (view : ℕ → View) (expired : ℕ → Bool) where
  Waited-before :
      (from k : ℕ)
      → active view expired from ≢ 0
      → expired from ≡ false
      → Waited view expired (suc from) k
      → Waited view expired from k
  Waited-before from k busy waits h j le lt = elim (Bool-cases (j == from)) [
    | inl same ↦
        let e : from ≡ j = sym ((eq_iff j from).0 same) in
        (subst (λ i. active view expired i ≢ 0) e busy, ap expired (sym e) ∙ waits)
    | inr other ↦ h j (later from j le other) lt
  ]

  Ends-before :
      (from n : ℕ) (r : Drained)
      → active view expired from ≢ 0
      → expired from ≡ false
      → Ends view expired (suc from) n r
      → Ends view expired from n r
  Ends-before from n drained busy waits (k, le, w, z) =
      (k, le, Waited-before from k busy waits w, z)
  Ends-before from n (still_active a) busy waits (k, le, w, z, nz, x) =
      (k, le, Waited-before from k busy waits w, z, nz, x)

  unexpired : (from n : ℕ) → from ≤ n → expired from ≡ false → expired n ≡ true → suc from ≤ n
  unexpired from n le waits h = elim (Bool-cases (n == from)) [
    | inl same ↦ let e : n ≡ from = (eq_iff n from).0 same in absurd (cc (ap expired e))
    | inr other ↦ later from n le other
  ]

  at_once : (from : ℕ) → Waited view expired from from
  at_once from j le lt = absurd (omega arith)

  drain_rounds-Ends :
      (rounds from n : ℕ)
      → from + rounds ≡ suc n
      → from ≤ n
      → expired n ≡ true
      → (r : Drained) × (drain_rounds view expired rounds from ≡ some r)
        × Ends view expired from n r
  unfolding drain_rounds
  drain_rounds-Ends zero from n e le h = absurd (omega arith)
  drain_rounds-Ends (suc rounds) from n e le h = elim (Bool-cases (active view expired from == 0)) [
    | inl none_left ↦ (
      drained,
      rw none_left refl,
      (from, le, at_once from, (eq_iff (active view expired from) 0).0 none_left),
    )
    | inr busy ↦
        let some_left : active view expired from ≢ 0 = nonzero (active view expired from) busy in
        elim (Bool-cases (expired from)) [
          | inl over ↦ (
            still_active (active view expired from),
            rw busy (rw over refl),
            (from, le, at_once from, refl, some_left, over),
          )
          | inr waits ↦
              let (r, run, ends) =
                drain_rounds-Ends rounds (suc from) n (omega arith) (unexpired from n le waits h)
                  h in
              (r, rw busy (rw waits run), Ends-before from n r some_left waits ends)
        ]
  ]

  -- Where the timeout has come by round n, the loop ends at some round k up to n: at the first one
  -- that finds no active task, or at the first one that wakes up for the timeout, with the number of
  -- tasks that are active then. No round before it did either.
  pub drain_tasks-Ends :
      (n : ℕ)
      → expired n ≡ true
      → (r : Drained) × (drain_tasks view expired (suc n) ≡ some r) × Ends view expired 0 n r
  unfolding drain_tasks
  drain_tasks-Ends n h = drain_rounds-Ends (suc n) 0 n (omega arith) (omega arith) h

  drain_rounds-drained :
      (rounds from n : ℕ)
      → from + rounds ≡ suc n
      → from ≤ n
      → active view expired n ≡ 0
      → ((k : ℕ) → k < n → expired k ≡ false)
      → drain_rounds view expired rounds from ≡ some drained
  unfolding drain_rounds
  drain_rounds-drained zero from n e le z in_time = absurd (omega arith)
  drain_rounds-drained (suc rounds) from n e le z in_time =
      elim (Bool-cases (active view expired from == 0)) [
        | inl none_left ↦ rw none_left refl
        | inr busy ↦ elim (Bool-cases (n == from)) [
          | inl same ↦
              let at_n : n ≡ from = (eq_iff n from).0 same in
              absurd
                (nonzero (active view expired from) busy (ap (active view expired) (sym at_n) ∙ z))
          | inr other ↦
              let le' = later from n le other in
              rw busy (
                rw (in_time from (omega arith))
                  (drain_rounds-drained rounds (suc from) n (omega arith) le' z in_time))
        ]
      ]

  -- A look that finds no active task ends the wait without an error, if the timeout has not come before.
  pub drain_tasks-drained :
      (n : ℕ)
      → active view expired n ≡ 0
      → ((k : ℕ) → k < n → expired k ≡ false)
      → drain_tasks view expired (suc n) ≡ some drained
  unfolding drain_tasks
  drain_tasks-drained n z in_time =
      drain_rounds-drained (suc n) 0 n (omega arith) (omega arith) z in_time
