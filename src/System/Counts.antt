-- ===== src/System/Counts.antt =====
-- How many slots the tasks in flight hold.
use forgery.Base.{
  ℕ, zero, suc, ◌+◌, ◌<◌, ◌≤◌, ◌≡◌, ◌≢◌, refl, ap, ◌⊎◌, arith, false, ◌==◌, nat_eq, eq_iff, eq_refl,
  inl, inr, Bool-cases,
}
use forgery.Task.{Ref}
use forgery.Run.{waiting_runner, waiting_end, returned}
use forgery.System.{Phase, apart, queued, handled, put}

-- whether a task holds a slot
abbrev pub occupied : Phase → ℕ
occupied apart = 0
occupied queued = 1
occupied (handled (waiting_runner e)) = 1
occupied (handled waiting_end) = 1
occupied (handled returned) = 0

-- how many of the first n tasks do
unfoldable pub busy : ℕ → (Ref → Phase) → ℕ
busy zero f = 0
busy (suc n) f = occupied (f n) + busy n f

pub busy-put_above :
    (n : ℕ) (f : Ref → Phase) (r : Ref) (p : Phase) → n ≤ r → busy n (put f r p) ≡ busy n f
unfolding busy
busy-put_above zero f r p le = refl
busy-put_above (suc n) f r p le = ground (arith, busy-put_above n f r p, eq_iff r n)

below : (r n : ℕ) → r < suc n → (r == n) ≡ false → r < n
below r n lt other = grind (arith, eq_iff r n)

pub busy-put :
    (n : ℕ) (f : Ref → Phase) (r : Ref) (p : Phase)
    → r < n
    → busy n (put f r p) + occupied (f r) ≡ busy n f + occupied p
unfolding busy
busy-put zero f r p lt = absurd (omega arith)
busy-put (suc n) f r p lt = elim (Bool-cases (r == n)) [
  | inl same ↦
      let e : r ≡ n = (eq_iff r n).0 same in
      let written : occupied (put f r p n) ≡ occupied p = rw same refl in
      let before : occupied (f r) ≡ occupied (f n) = ap (λ i. occupied (f i)) e in
      omega (arith, busy-put_above n f r p)
  | inr other ↦
      let kept : occupied (put f r p n) ≡ occupied (f n) = rw other refl in
      let inside : r < n = below r n lt other in omega (arith, busy-put n f r p)
]

pub occupied-le-one : (p : Phase) → occupied p ≤ 1
occupied-le-one apart = omega arith
occupied-le-one queued = omega arith
occupied-le-one (handled (waiting_runner e)) = omega arith
occupied-le-one (handled waiting_end) = omega arith
occupied-le-one (handled returned) = omega arith

pub put_elsewhere :
    (f : Ref → Phase) (r : Ref) (p : Phase) (q : Ref) → r < q → f q ≡ apart → put f r p q ≡ apart
put_elsewhere f r p q lt h = ground (arith, eq_iff r q)

pub occupied-le-busy : (n : ℕ) (f : Ref → Phase) (r : Ref) → r < n → occupied (f r) ≤ busy n f
occupied-le-busy n f r lt = omega (arith, busy-put n f r apart lt)

pub not-apart : (p : Phase) → occupied p ≡ 1 → p ≢ apart
not-apart p h free = let none_held = ap occupied free in omega arith

-- A reference that has come into use without a task holds no slot.
pub busy-grown :
    (made later : ℕ) (f : Ref → Phase)
    → (later ≡ made) ⊎ (later ≡ suc made)
    → ((r : Ref) → made ≤ r → f r ≡ apart)
    → busy later f ≡ busy made f
unfolding busy
busy-grown made later f (inl same) unused = ap (λ n. busy n f) same
busy-grown made later f (inr more) unused =
    let free = ap occupied (unused made (omega arith)) in rw more (omega arith)

pub busy-delivered :
    (made later : ℕ) (f : Ref → Phase) (r : Ref)
    → r ≡ made
    → later ≡ suc made
    → busy later (put f r queued) ≡ suc (busy made f)
unfolding busy
busy-delivered made later f r fresh more =
    rw (fresh, more)
      (let written : occupied (put f made queued made) ≡ 1 = rw (eq_refl made) refl in
        omega (arith, busy-put_above made f made queued (omega arith)))
