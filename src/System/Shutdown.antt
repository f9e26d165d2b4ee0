-- ===== src/System/Shutdown.antt =====
-- The end of the daemon: its context is cancelled, and Run looks at the store, again and again, until no
-- task is active or its timeout has come. Nothing makes it wait for the HandleTask goroutines, which go on
-- between two looks, as the runners do.
use forgery.Base.{ℕ, ◌≡◌, true, nat_eq}
use forgery.Task.{Ref, is_closed}
use forgery.World.Later.{Stores}
use forgery.Run.{returned}
use forgery.App.Drain.{View}
use forgery.System.{handled, SystemState}

-- the store that Run looks at
abbrev pub view_of : SystemState → View
view_of s = record { heap = s.daemon.world.heap; store = s.daemon.world.store }

-- Each task in the store is past its HandleTask, and if its runner has registered, it has ended.
abbrev pub IsLeft : SystemState → Type 0
IsLeft s =
    (id : ℕ) (r : Ref)
    → Stores s.daemon.world id r
    → (s.phase r ≡ handled returned)
      × (is_closed (s.daemon.world.heap r).registered ≡ true
          → is_closed (s.daemon.world.heap r).done ≡ true)
