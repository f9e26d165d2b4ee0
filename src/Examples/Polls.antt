-- ===== src/Examples/Polls.antt =====
-- A round that fetches the first task while the daemon's store is empty.
use forgery.Base.{[], ◌∷◌, ◌≡◌, refl, false, some, lookup, nat_eq}
use forgery.Token.{generate, encode_to_string}
use forgery.Store.{new_mem_store, get_by_reg_token}
use forgery.Store.Index.{new_mem_store-IsValid}
use forgery.Run.{Daemon}
use forgery.Poll.{got_task, stops, poll_fetched}
use forgery.Poll.Round.{IsFetchedContext, poll_fetched-stores}
use forgery.Examples.Fixtures.{world, instance_one, task_message, bytes}

abbrev pub daemon : Daemon
daemon = record {
  world = record world { store = new_mem_store };
  pool = record { held = 0; capacity = 1 };
}

poll_fetched-stores_example :
    (get_by_reg_token
        (encode_to_string (0 ∷ 255 ∷ []))
        (poll_fetched instance_one bytes 200 9 false false
          (got_task task_message)
          daemon).0.world.store
      ≡ some 9)
    × IsFetchedContext instance_one task_message (encode_to_string (0 ∷ 255 ∷ [])) 200 (
        (poll_fetched instance_one bytes 200 9 false false
            (got_task task_message)
            daemon).0.world.heap
          9)
    × ((poll_fetched instance_one bytes 200 9 false false (got_task task_message) daemon).1 ≡ stops)
unfolding new_mem_store lookup generate
poll_fetched-stores_example =
    poll_fetched-stores instance_one bytes 200 9 false false task_message
      (encode_to_string (0 ∷ 255 ∷ [])) daemon refl new_mem_store-IsValid refl
