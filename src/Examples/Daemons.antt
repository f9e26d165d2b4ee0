-- ===== src/Examples/Daemons.antt =====
-- A daemon with two slots that fetches a task, cannot dispatch it, and reports the failure.
use forgery.Base.{text, refl, ◌≡◌, ◌+◌, ◌≤◌, true, false, [], nat_eq, str_eq, lookup, eq_iff, arith}
use forgery.Task.{Heap}
use forgery.Token.{generate, generate_bytes, hex_of, filled}
use forgery.North.{IsNamed}
use forgery.World.Routed.{IsRouted}
use forgery.World.Issue.{new_world}
use forgery.Slots.{new, acquire}
use forgery.Run.{trigger_err, start}
use forgery.Poll.{got_task, poll_fetched, poll_token}
use forgery.Poll.Invariant.{issued_after}
use forgery.System.{SystemState, apart, polled, moved, Reach, here, next, takes_slot, polls, starts}
use forgery.System.Owners.{Reach-IsRouted}
use forgery.System.Counts.{busy}
use forgery.System.Capacity.{Reach-held}
use forgery.Examples.Fixtures.{first_task, task_message, instance_one, resolver, bytes}

abbrev pub heap : Heap
heap r = first_task

abbrev pub fresh : SystemState
fresh = record {
  daemon = record { world = new_world heap; pool = new 2 };
  issued = record { made = 0; id = λ r. 0; owner = λ r. [] };
  fetching = 0;
  phase = λ r. apart;
}

abbrev pub fetching_one : SystemState
fetching_one = record fresh {
  daemon = record fresh.daemon { pool = record { held = 1; capacity = 2 } };
  fetching = 1;
}

abbrev pub fetched : SystemState
fetched =
    polled 0
      (issued_after instance_one bytes 100 false true fetching_one.issued (got_task task_message))
      (poll_fetched instance_one bytes 100 0 false true (got_task task_message) fetching_one.daemon)
      fetching_one

abbrev failed_task : SystemState
failed_task = moved 0 (start resolver (trigger_err false) 0 fetched.daemon) fetched

pub fetch : Reach resolver fresh fetched
unfolding new acquire
fetch =
    next (next here (takes_slot true false (record { held = 1; capacity = 2 }) refl refl))
      (polls instance_one bytes 100 false true (got_task task_message) 0 refl refl)

run : Reach resolver fresh failed_task
unfolding poll_fetched poll_token generate generate_bytes hex_of filled
run = next fetch (starts 0 (trigger_err false) refl refl)

pub resolver-IsNamed : IsNamed resolver
unfolding lookup
resolver-IsNamed name e found = ground (arith, eq_iff (text "one") name)

Reach-IsRouted_example : IsRouted failed_task.issued failed_task.daemon.world
Reach-IsRouted_example = Reach-IsRouted resolver resolver-IsNamed heap run refl refl (λ r. refl)

Reach-held_example :
    (failed_task.daemon.pool.held
      ≡ failed_task.fetching + busy failed_task.issued.made failed_task.phase)
    × (failed_task.daemon.pool.held ≤ 2)
Reach-held_example = Reach-held resolver 2 run refl refl refl (λ r. refl)
