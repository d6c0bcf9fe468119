-- ===== src/ChildProcessMgr/Manage.antt =====
-- child-process-mgr.c: the timer that looks for children that have ended, and the manager's start,
-- stop and end.
use common_utils_lib.Base.{ℕ, zero, suc, Bool, false, ◌||◌, [], ◌∷◌, ◌++◌, ◌==◌, if◌then◌else◌}
use common_utils_lib.Base.Int.{ℤ, pos}
use common_utils_lib.Machine.{Ptr, null, ok, out_of_fuel, Cmd, ◌>>=◌, ◌>>◌}
use common_utils_lib.Machine.Mutex.{Pthread}
use common_utils_lib.Clist.{next_of, set_next, assert_exit, is_nonnull}
use common_utils_lib.Stack.Free.{give_back}
use common_utils_lib.IoScheduler.{one_second}
use common_utils_lib.IoScheduler.Tasks.{create_timer_task, schedule_task, unschedule_task}
use common_utils_lib.ChildProcessMgr.{
  World, on_links, on_scheduler, proc_of, child_of, is_positive, set_events, waitpid,
  find_monitored_proc, monitored_proc_destroy, skip,
}

module _ (ndebug : Bool) where
  -- A child that has ended: its monitor, if it has one, leaves the ring, its callback is called.
  unfoldable pub child_ended : ℕ → ℤ → ℕ → Cmd World (Unit {0})
  child_ended fuel pid status = do
    mp ← find_monitored_proc ndebug fuel pid
    if mp == null then ok tt else (do
      on_links (skip mp)
      child ← child_of mp
      c ← proc_of child
      if c.on_exit == null then ok tt else (λ w.
          set_events
            (w.events ++ record { callback = c.on_exit; child = child; status = status } ∷ []) w)
      monitored_proc_destroy ndebug mp)

  -- The do loop, with so many rounds.
  unfoldable pub timer_loop : (rounds fuel : ℕ) → Cmd World (Unit {0})
  timer_loop zero fuel = λ _. out_of_fuel
  timer_loop (suc rounds) fuel = do
    (child_pid, status) ← waitpid
    if is_positive child_pid
        then (do child_ended fuel child_pid status; timer_loop rounds fuel)
        else ok tt

  unfoldable pub on_monitor_timer : (rounds fuel : ℕ) → Cmd World Bool
  on_monitor_timer rounds fuel = do timer_loop rounds fuel; ok false

  -- `debug` as for io_sched_unschedule_task.
  unfoldable pub stop : (debug : Bool) → Cmd World (Unit {0})
  stop debug = do
    task ← (λ w. ok w.monitor_task w)
    if task == null then ok tt else (do
      on_scheduler (unschedule_task debug task)
      λ w. ok tt (record w { monitor_task = null }))

  -- `callback` is the address of on_monitor_timer, `cpmgr` that of the manager.
  unfoldable pub start :
      (posix : Pthread) (task_pool_mutex timer_pool_mutex : posix.Mutex) (debug : Bool)
      → (fuel rounds : ℕ) (cpmgr callback scheduler : Ptr) → Cmd World Bool
  start posix task_pool_mutex timer_pool_mutex debug fuel rounds cpmgr callback scheduler =
      assert_exit ndebug (is_nonnull scheduler) false do
        task ← (λ w. ok w.monitor_task w)
        if task == null then ok tt else stop debug
        new ← on_scheduler (
            create_timer_task posix task_pool_mutex timer_pool_mutex scheduler (pos one_second)
              cpmgr callback)
        (λ w. ok tt (record w { monitor_task = new }))
        on_scheduler (schedule_task fuel rounds new)

  -- The loop of child_proc_mgr_destroy: the head's `next` moves over each monitor before it goes.
  unfoldable pub destroy_loop : ℕ → Ptr → Cmd World (Unit {0})
  destroy_loop zero mp = λ _. out_of_fuel
  destroy_loop (suc fuel) mp = do
    head ← (λ w. ok w.head w)
    if (mp == null) || (mp == head) then ok tt else (do
      q ← on_links (next_of mp)
      on_links (set_next head q)
      monitored_proc_destroy ndebug mp
      q' ← on_links (next_of head)
      destroy_loop fuel q')

  unfoldable pub destroy : (debug : Bool) → ℕ → Cmd World (Unit {0})
  destroy debug fuel = do
    stop debug
    head ← (λ w. ok w.head w)
    mp ← on_links (next_of head)
    destroy_loop fuel mp
    λ w. ok tt (record w {
      links = record { next = give_back w.links.next head; prev = give_back w.links.prev head };
    })
