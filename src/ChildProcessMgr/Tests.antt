-- ===== src/ChildProcessMgr/Tests.antt =====
-- The theorems on child-process-mgr.c at a manager with two processes, and runs of its functions.
use common_utils_lib.Base.{◌≡◌, refl, true, false, none, some, List, [], ◌∷◌, arith, ℕ}
use common_utils_lib.Base.Int.{pos, negsuc}
use common_utils_lib.Machine.{Ptr, null, ok}
use common_utils_lib.Machine.Returns.{Returns}
use common_utils_lib.Chain.{put, has}
use common_utils_lib.Stack.{nil}
use common_utils_lib.IoScheduler.{no_opts}
use common_utils_lib.IoScheduler
use common_utils_lib.ChildProcessMgr.{World, Child, store, monitor_pid, monitor_child}
use common_utils_lib.ChildProcessMgr.Manage.{on_monitor_timer, destroy}
use common_utils_lib.ChildProcessMgr.Loops.{Watched, IsManager}
use common_utils_lib.ChildProcessMgr.Monitor.{
  added, monitor_pid-IsManager, monitor_child-IsManager, monitor-refuses,
}
use common_utils_lib.ChildProcessMgr.Reap.{
  Reaped, remaining, callbacks, unread, on_monitor_timer-Reaped,
}
use common_utils_lib.ChildProcessMgr.Lifecycle.{freed_all, destroy-freed_all}

abbrev idle_scheduler : IoScheduler.World
idle_scheduler = record {
  next = λ _. none;
  task = λ _. record {
    owner = null;
    fd = negsuc 0;
    opts = no_opts;
    time_out = negsuc 0;
    expire_time = record { sec = 0; nsec = 0 };
    user_data = null;
    on_read_rdy_cbk = null;
    on_write_rdy_cbk = null;
    on_err_rdy_cbk = null;
    on_timeout_cbk = null;
  };
  task_pool = nil;
  timer_id_pool = nil;
  threaded = false;
  stop_scheduler = false;
  clock = record { sec = 0; nsec = 0 };
}

abbrev process : ℕ → Child
process pid = record { pid = pos pid; fd = pos 5; user_data = null; on_exit = 90 }

-- The head is at 1. The monitor 2 watches the process 100 at 12, which the manager owns, the
-- monitor 4 the process 200 at 14. Two children have ended: 100, and one that is not watched.
abbrev two_procs : World
two_procs = record {
  head = 1;
  links = record {
    next = put (put (put (λ _. none) 1 2) 2 4) 4 1;
    prev = put (put (put (λ _. none) 1 4) 2 1) 4 2;
  };
  child = store (store (λ _. null) 2 12) 4 14;
  owned_by_mgr = store (λ _. false) 2 true;
  procs =
      store (store (store (λ _. none) 12 (some (process 100))) 14 (some (process 200))) 16
        (some (process 300));
  exits = (pos 100, 7) ∷ (pos 150, 0) ∷ (pos 0, 0) ∷ [];
  events = [];
  monitor_task = null;
  scheduler = idle_scheduler;
}

abbrev two_watched : List Watched
two_watched =
    record { monitor = 2; process = 12; is_owned = true; info = process 100 }
    ∷ record { monitor = 4; process = 14; is_owned = false; info = process 200 }
    ∷ []

two_procs-IsManager : IsManager two_procs two_watched
two_procs-IsManager = record {
  ring = record {
    forward = (omega arith, refl, (omega arith, refl, (omega arith, refl, tt)));
    distinct = (refl, (refl, (refl, tt)));
    back = λ a b i e. ground arith;
  };
  watched = (
    record { child = refl; owned = refl; proc = refl; ne = omega arith },
    (record { child = refl; owned = refl; proc = refl; ne = omega arith }, tt),
  );
  unique = (refl, (refl, tt));
}

monitor_pid-IsManager_example :
    Returns
      (λ b g. (b ≡ true) × IsManager g (added two_watched 6 17 true (process 400)))
      (monitor_pid false 6 17 3 (pos 400) (pos 5) null 90 two_procs)
monitor_pid-IsManager_example =
    monitor_pid-IsManager false two_procs two_watched two_procs-IsManager 3 (omega arith) 6 17
      (process 400) (record { ne = omega arith; out = refl }) (omega arith) refl refl refl

monitor_child-IsManager_run :
    Returns
      (λ b g. (b ≡ true) × IsManager g (added two_watched 6 16 false (process 300)))
      (monitor_child true 6 3 16 two_procs)
monitor_child-IsManager_run =
    monitor_child-IsManager true two_procs two_watched two_procs-IsManager 3 (omega arith) 6 16
      (process 300) (record { ne = omega arith; out = refl }) (omega arith) refl refl

monitor-refuses_example :
    (monitor_pid false 6 17 3 (pos 200) (pos 5) null 90 two_procs ≡ ok false two_procs)
    × (monitor_child false 6 3 14 two_procs ≡ ok true two_procs)
monitor-refuses_example =
    monitor-refuses false two_procs two_watched two_procs-IsManager 3 (omega arith) 6 17 14
      (process 200) (record { monitor = 4; process = 14; is_owned = false; info = process 200 })
      (omega arith) refl refl refl

on_monitor_timer-Reaped_example :
    Returns
      (λ again g. (again ≡ false) × Reaped two_procs g two_procs.exits two_watched)
      (on_monitor_timer false 4 3 two_procs)
on_monitor_timer-Reaped_example =
    on_monitor_timer-Reaped false 3 4 two_procs two_watched two_procs-IsManager
      ((λ e. refl), ((λ e. refl), ((λ e. cc), tt))) (omega arith) (omega arith)

destroy-freed_all_example :
    Returns
      (λ _ g.
        ((a : Ptr) → has a (1 ∷ 2 ∷ 4 ∷ []) ≡ true → g.links.next a ≡ none)
        × (g.procs ≡ freed_all two_watched two_procs.procs))
      (destroy false true 3 two_procs)
destroy-freed_all_example =
    destroy-freed_all false true 3 two_procs two_watched two_procs-IsManager refl (omega arith)

-- What is left, called and not read at the two processes.
reaped_two :
    (remaining two_procs.exits two_watched
      ≡ record { monitor = 4; process = 14; is_owned = false; info = process 200 } ∷ [])
    × (callbacks two_procs.exits two_watched
        ≡ record { callback = 90; child = 12; status = 7 } ∷ [])
    × (unread two_procs.exits ≡ [])
unfolding remaining callbacks unread
reaped_two = (refl, refl, refl)
