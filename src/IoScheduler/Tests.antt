-- ===== src/IoScheduler/Tests.antt =====
-- The theorems on io-scheduler.c at a scheduler with two tasks, and runs of its functions.
use common_utils_lib.Base.{
  ℕ, ◌+◌, ◌≡◌, refl, sym, Bool, true, false, none, some, [], ◌∷◌, arith, leb, if◌then◌else◌, inr,
  ◌<◌,
}
use common_utils_lib.Base.Int.{ℤ, pos, negsuc}
use common_utils_lib.Machine.{Ptr, null, ok, fault, Cmd}
use common_utils_lib.Machine.Returns.{Returns}
use common_utils_lib.Chain.{put}
use common_utils_lib.Slist.{load}
use common_utils_lib.Slist.Shape.{IsList}
use common_utils_lib.Stack.{Handle, nil, live, type_fixed}
use common_utils_lib.Stack.Fixed.Inv.{Holds}
use common_utils_lib.Machine.Mutex.{Pthread}
use common_utils_lib.IoScheduler.Create.{Created, create_task-Created}
use common_utils_lib.IoScheduler.{
  World, Task, Timespec, no_opts, one_second, store_task, fd_of_ptr, ptr_of_fd, task_of,
  populate_expire_time,
}
use common_utils_lib.IoScheduler.Tasks.{usable, create_task, find_task, find_loop, schedule_task}
use common_utils_lib.IoScheduler.Process.{Sets, fd_clr, task_expired, process_task}
use common_utils_lib.IoScheduler.Clock.{total, populate_expire_time-task_expired}
use common_utils_lib.IoScheduler.Ids.{fd_of_ptr-ptr_of_fd}
use common_utils_lib.IoScheduler.Schedule.{Scheduled, schedule_task-snoc}
use common_utils_lib.IoScheduler.Find.{first_task, find_task-first_task}
use common_utils_lib.IoScheduler.Starve.{process_task-starves_writer, process_task-waits}
use common_utils_lib.IoScheduler.Stop.{Marked, stop_scheduler, stop_scheduler-Marked}
use common_utils_lib.Chain.{has}
use common_utils_lib.IoScheduler.{minus_one}
use common_utils_lib.Stack.Fixed.{fixed_init}
use common_utils_lib.Stack.Fixed.Inv.{fixed_init-Holds}
use common_utils_lib.IoScheduler.Pump.{no_sets, sweep, watch}
use common_utils_lib.IoScheduler.Removal.{kept, removed, push_all}
use common_utils_lib.IoScheduler.Watched.{IsWatchable, Watched}
use mathlib.Core.Path.{subst}
use common_utils_lib.IoScheduler.Sweep.{sweep-kept}

-- A task that waits to read and to write, and has a timeout of two and a half seconds.
abbrev both_ways : ℤ → Task
both_ways fd = record {
  owner = 1;
  fd = fd;
  opts = record no_opts { read = true; write = true; timer = true };
  time_out = pos 2500000000;
  expire_time = record { sec = 1003; nsec = 200000000 };
  user_data = null;
  on_read_rdy_cbk = 50;
  on_write_rdy_cbk = 51;
  on_err_rdy_cbk = null;
  on_timeout_cbk = 52;
}

-- The scheduler at 1 has the tasks 2 and 4, on the descriptor 7 and with the timer id -5; the task
-- 3, on the descriptor 8, is new.
abbrev two_tasks : World
two_tasks = record {
  next = put (put (put (put (λ _. none) 1 2) 2 4) 4 0) 3 0;
  task =
      store_task (store_task (λ _. both_ways (pos 8)) 4 (both_ways (negsuc 4))) 2
        (both_ways (pos 7));
  task_pool = nil;
  timer_id_pool = nil;
  threaded = false;
  stop_scheduler = false;
  clock = record { sec = 1000; nsec = 700000000 };
}

tasks-IsList : IsList two_tasks.next 1 (2 ∷ 4 ∷ [])
tasks-IsList = record {
  linked = (omega arith, refl, (omega arith, refl, (omega arith, refl, tt)));
  distinct = (refl, (refl, (refl, tt)));
}

-- A callback that does nothing and is done.
abbrev done_at_once : Ptr → Ptr → ℕ → Cmd World Bool
done_at_once f t e = ok true

-- The descriptor 7 can be written.
abbrev writable : Sets
writable = record { rds = λ _. false; wrs = λ x. true; ers = λ _. false }

populate_expire_time-task_expired_example :
    Returns
      (λ _ g.
        (now : Timespec)
        → now.nsec < one_second
        → task_expired (g.task 2) now ≡ leb (total two_tasks.clock + 2500000000) (total now))
      (populate_expire_time 4 2 two_tasks)
populate_expire_time-task_expired_example =
    populate_expire_time-task_expired 2 2500000000 two_tasks 4 4 (omega arith) refl (omega arith)
      (omega arith) refl

timer_id_run : fd_of_ptr (ptr_of_fd (negsuc 4)) ≡ negsuc 4
timer_id_run = fd_of_ptr-ptr_of_fd (negsuc 4) (omega arith)

schedule_task-snoc_example :
    Returns (Scheduled 3 (2 ∷ 4 ∷ []) two_tasks 2500000000) (schedule_task 5 4 3 two_tasks)
schedule_task-snoc_example =
    schedule_task-snoc 3 (2 ∷ 4 ∷ []) two_tasks 2500000000 5 4 tasks-IsList
      (record { ne = omega arith; out = refl; last = refl }) (omega arith) (omega arith)
      (omega arith) (inr refl)

find_task-first_task_example :
    find_task 3 1 (negsuc 4) two_tasks
    ≡ ok (first_task two_tasks.task (negsuc 4) (2 ∷ 4 ∷ [])) two_tasks
find_task-first_task_example =
    find_task-first_task two_tasks 1 (negsuc 4) 3 (2 ∷ 4 ∷ []) tasks-IsList (omega arith)

process_task-starves_writer_example :
    process_task done_at_once 62 4 2 writable two_tasks
    ≡ ok (false, record writable { wrs = fd_clr writable.wrs (pos 7) }) two_tasks
unfolding task_expired
process_task-starves_writer_example =
    process_task-starves_writer done_at_once 62 two_tasks 2 4 (omega arith) refl 4 writable refl
      refl refl refl refl refl refl

timer_waits : process_task done_at_once 62 4 4 writable two_tasks ≡ ok (false, writable) two_tasks
unfolding task_expired
timer_waits =
    process_task-waits done_at_once 62 two_tasks 4 0 (omega arith) refl 4 writable refl refl

stop_scheduler-Marked_example :
    Returns
      (λ _ g. Marked (2 ∷ 4 ∷ []) two_tasks g × (g.stop_scheduler ≡ true))
      (stop_scheduler 3 1 two_tasks)
stop_scheduler-Marked_example =
    stop_scheduler-Marked two_tasks 1 (2 ∷ 4 ∷ []) 3 tasks-IsList (omega arith)

abbrev no_threads : Pthread
no_threads = record { Mutex = Bool; lock = λ m. if m then none else some true; unlock = λ m. false }

-- A pool whose top is the task 3.
abbrev pool_of_three : Handle
pool_of_three =
    live (record {
      type = type_fixed;
      current = 1;
      limit = 2;
      free_top = null;
      fixed_base = 0 ∷ 3 ∷ [];
    })

abbrev with_pool : World
with_pool = record two_tasks { task_pool = pool_of_three }

three-Holds : Holds 2 (3 ∷ []) pool_of_three
three-Holds = record {
  stack = _;
  there = refl;
  valid = record { kind = refl; fits = omega arith; room = refl; within = omega arith };
  capacity = refl;
  holds = refl;
}

create_task-Created_example :
    Returns
      (λ p g.
        (p ≡ 3)
        × Created
            (record {
              owner = 1;
              fd = pos 9;
              opts = record no_opts { read = true; write = true };
              time_out = pos 5;
              expire_time = record { sec = 0; nsec = 0 };
              user_data = 70;
              on_read_rdy_cbk = 50;
              on_write_rdy_cbk = 51;
              on_err_rdy_cbk = null;
              on_timeout_cbk = 52;
            })
            with_pool
            2
            3
            []
            g)
      (create_task no_threads false false 1
        (pos 9)
        (record no_opts { read = true; write = true })
        (pos 5)
        70
        50
        51
        null
        52
        with_pool)
create_task-Created_example =
    create_task-Created no_threads false true false with_pool 2 3 [] 0 1 (pos 9)
      (record no_opts { read = true; write = true }) (pos 5) 70 50 51 null 52 refl three-Holds
      (omega arith) refl (omega arith)

-- The task 2 is to be removed, and the task 4 waits on the descriptor 9; nothing is in the pools.
abbrev one_to_go : World
one_to_go = record two_tasks {
  task =
      store_task (store_task two_tasks.task 4 (both_ways (pos 9))) 2
        (record (both_ways (pos 7)) { opts = record no_opts { remove = true } });
  task_pool = fixed_init true true 3;
  timer_id_pool = fixed_init true true 2;
}

sweep-kept_example :
    Returns
      (λ seen' g.
        Watched one_to_go.task (kept one_to_go.task (2 ∷ 4 ∷ [])) (minus_one, no_sets) seen'
        × IsList g.next 1 (kept one_to_go.task (2 ∷ 4 ∷ []))
        × Holds 3 (push_all (removed one_to_go.task (2 ∷ 4 ∷ [])) []) g.task_pool
        × ((a : Ptr)
            → has a (removed one_to_go.task (2 ∷ 4 ∷ [])) ≡ false
            → g.task a ≡ one_to_go.task a))
      (sweep no_threads false false 1024 3 1 (minus_one, no_sets) one_to_go)
sweep-kept_example =
    sweep-kept no_threads false false true true refl refl 3 2 (omega arith) 1024 3 1 (2 ∷ 4 ∷ []) []
      (minus_one, no_sets) one_to_go tasks-IsList (fixed_init-Holds 3 (omega arith) (omega arith))
      (omega arith) ([], fixed_init-Holds 2 (omega arith) (omega arith))
      (λ t i.
        let is_four : t ≡ 4 = ground (arith, i) in
        subst (λ a. IsWatchable 1024 (one_to_go.task a)) (sym is_four) (inr refl))
      (omega arith)

one_stays :
    (kept one_to_go.task (2 ∷ 4 ∷ []) ≡ 4 ∷ []) × (removed one_to_go.task (2 ∷ 4 ∷ []) ≡ 2 ∷ [])
one_stays = (refl, refl)

-- A task whose timer runs out only joins no set, and a negative descriptor is one for no set.
timer_watches_nothing :
    watch 1024
      (record (both_ways (negsuc 4)) { opts = record no_opts { timer = true } })
      (minus_one, no_sets)
      two_tasks
    ≡ ok (minus_one, no_sets) two_tasks
unfolding watch
timer_watches_nothing = refl

negative_faults : watch 1024 (both_ways (negsuc 4)) (minus_one, no_sets) two_tasks ≡ fault
unfolding watch
negative_faults = refl

-- Without its callbacks nothing is left of a task but its removal.
unusable :
    usable (record (both_ways (pos 8)) {
      on_read_rdy_cbk = null;
      on_write_rdy_cbk = null;
      on_timeout_cbk = null;
    })
    ≡ record no_opts { remove = true }
unfolding usable
unusable = refl

found_timer : find_task 3 1 (negsuc 4) two_tasks ≡ ok 4 two_tasks
unfolding find_task find_loop task_of load
found_timer = refl
