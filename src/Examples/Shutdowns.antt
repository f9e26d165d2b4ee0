-- ===== src/Examples/Shutdowns.antt =====
-- A daemon that has dispatched one task and is stopped before the runner of the task has come.
use forgery.Base.{insert, zero, suc, text, ℕ, ◌≡◌, refl, true, false, nat_eq, str_eq, lookup}
use forgery.Task.{is_closed}
use forgery.Token.{encode_to_string, generate, generate_bytes, hex_of, filled}
use forgery.Store.{new_mem_store, put_pending, get_by_reg_token, mark_reg_token_consumed}
use forgery.Run.{trigger_ok, start, wake, waiting_runner, cancelled}
use forgery.Poll.{poll_fetched, poll_token}
use forgery.World.Later.{Stores}
use forgery.System.{SystemState, moved, Reach, next, starts, wakes, calls, registers, Call}
use forgery.System.Tracked.{Reach-IsCurrent}
use forgery.Examples.Fixtures.{resolver, first_entry, bytes, register_request}
use forgery.South.{register}
use forgery.Session.{create, create_with_token}
use forgery.System.Progress.{called}
use forgery.Examples.Daemons.{heap, fresh, fetched, fetch, resolver-IsNamed}

abbrev pub dispatched_task : SystemState
dispatched_task = moved 0 (start resolver trigger_ok 0 fetched.daemon) fetched

pub run : Reach resolver fresh dispatched_task
unfolding poll_fetched poll_token generate generate_bytes hex_of filled
run = next fetch (starts 0 trigger_ok refl refl)

-- Run looks at the store before the HandleTask of the task has found its context cancelled, and after it.
abbrev cleaned : SystemState
cleaned =
    moved 0 (wake 0 (waiting_runner first_entry) cancelled dispatched_task.daemon) dispatched_task

abbrev look : ℕ → SystemState
look zero = dispatched_task
look (suc k) = cleaned

-- the same daemon after the runner of the task has registered
abbrev registration : Call
registration = registers bytes 150 (record register_request { token = text "00ff" })

abbrev joined : SystemState
joined = called resolver registration dispatched_task

-- ... and after its HandleTask has returned
abbrev stopped : SystemState
stopped = moved 0 (wake 0 (waiting_runner first_entry) cancelled joined.daemon) joined

kept : Stores stopped.daemon.world 7 0
unfolding poll_fetched poll_token generate generate_bytes hex_of filled put_pending new_mem_store
    lookup insert start wake register encode_to_string create get_by_reg_token
    mark_reg_token_consumed create_with_token
kept = refl

Reach-IsCurrent_example :
    (is_closed (stopped.daemon.world.heap 0).done ≡ false)
    × (is_closed (stopped.daemon.world.heap 0).registered ≡ true)
unfolding wake start lookup poll_fetched poll_token generate generate_bytes hex_of filled
Reach-IsCurrent_example =
    Reach-IsCurrent resolver resolver-IsNamed heap 7 0
      (next (next run (calls registration refl))
        (wakes 0 (waiting_runner first_entry) cancelled refl refl refl))
      refl refl (λ r. refl) kept
