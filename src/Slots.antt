-- ===== src/Slots.antt =====
-- internal/slots/pool.go: the backpressure pool, a buffered channel used as a semaphore.
use forgery.Base.{
  ℕ, ◌+◌, ◌-◌, ◌≤◌, ◌<◌, ◌≡◌, ◌↔◌, refl, arith, Bool, false, List, [], ◌∷◌, ltb, nat_beq,
  if◌then◌else◌,
}

-- the number of values in the channel, and its capacity
pub record Pool : Type 0 where
  pub held : ℕ
  pub capacity : ℕ

unfoldable pub new : ℕ → Pool
new capacity = record { held = 0; capacity = capacity }

pub data Acquired : Type 0 where
  holds : Pool → Acquired
  cancelled : Acquired
  blocks : Acquired

-- The select of Acquire. Where both cases are ready, Go picks one at random: `pick` is its choice.
unfoldable pub acquire : (pick ctx_done : Bool) → Pool → Acquired
acquire pick ctx_done p =
    let taken = holds (record p { held = p.held + 1 }) in
    if ltb p.held p.capacity
    then (if ctx_done then (if pick then taken else cancelled) else taken)
    else (if ctx_done then cancelled else blocks)

pub release : Pool → Pool
release p = if nat_beq p.held 0 then p else record p { held = p.held - 1 }

pub data PoolOp : Type 0 where
  acquires : (pick ctx_done : Bool) → PoolOp
  releases : PoolOp

abbrev after : Pool → Acquired → Pool
after p (holds q) = q
after p cancelled = p
after p blocks = p

pub step : PoolOp → Pool → Pool
step (acquires pick ctx_done) p = after p (acquire pick ctx_done p)
step releases p = release p

pub run : List PoolOp → Pool → Pool
run [] p = p
run (op ∷ ops) p = run ops (step op p)

run-bounded :
    (ops : List PoolOp) (p : Pool)
    → p.held ≤ p.capacity
    → ((run ops p).held ≤ p.capacity) × ((run ops p).capacity ≡ p.capacity)
unfolding run step acquire release
run-bounded [] p h = (h, refl)
run-bounded (acquires pick ctx_done ∷ ops) p h =
    ground (arith, run-bounded ops (step (acquires pick ctx_done) p))
run-bounded (releases ∷ ops) p h = ground (arith, run-bounded ops (step releases p))

-- Whatever sequence of acquisitions and releases runs on a new pool, no more slots are held than
-- its capacity.
pub run-new-bounded : (ops : List PoolOp) (capacity : ℕ) → (run ops (new capacity)).held ≤ capacity
unfolding new
run-new-bounded ops capacity = (run-bounded ops (new capacity) (omega arith)).0

-- Acquire blocks exactly while the pool is full and the context is alive; it takes a slot only if
-- one is free, and then Release gives back the pool that was there before.
pub acquire_lem :
    (pick ctx_done : Bool) (p : Pool)
    → ((acquire pick ctx_done p ≡ blocks) ↔ ((p.capacity ≤ p.held) × (ctx_done ≡ false)))
      × ((q : Pool)
          → acquire pick ctx_done p ≡ holds q
          → (p.held < p.capacity) × (q.held ≡ p.held + 1) × (release q ≡ p))
unfolding acquire release
acquire_lem pick ctx_done p = (ground arith, λ q e. (ground arith, ground arith, ground arith))

-- Release gives one slot back, and Acquire takes one where there is one.
pub release-held :
    (p : Pool) → ((release p).held ≡ p.held - 1) × ((release p).capacity ≡ p.capacity)
unfolding release
release-held p = ground arith

pub acquire-holds :
    (pick ctx_done : Bool) (p q : Pool)
    → acquire pick ctx_done p ≡ holds q
    → (q.held ≡ p.held + 1) × (q.capacity ≡ p.capacity) × (p.held < p.capacity)
unfolding acquire
acquire-holds pick ctx_done p q h = ground arith
