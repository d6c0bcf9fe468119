-- ===== src/IoScheduler/Pump.antt =====
-- io-scheduler.c: one round of the scheduler, and the removal of tasks. `select` is the system call
-- on the descriptors up to the one given, `none` where it fails; `idle` is the one that only waits. `fd_setsize` is FD_SETSIZE.
use common_utils_lib.Base.{
  ℕ, zero, suc, ltb, Bool, false, not, ◌&&◌, ◌||◌, ◌==◌, if◌then◌else◌, Option, none, some,
}
use common_utils_lib.Base.Int.{ℤ, pos, negsuc}
use common_utils_lib.Machine.{Ptr, null, ok, fault, out_of_fuel, Cmd, ◌>>=◌, ◌>>◌}
use common_utils_lib.Machine.Mutex.{Pthread}
use common_utils_lib.Slist.{load, store}
use common_utils_lib.Stack.{stack_error_full}
use common_utils_lib.Stack.Fixed.{fixed_push_r}
use common_utils_lib.Stack.Free.{give_back}
use common_utils_lib.IoScheduler.{
  World, Task, no_opts, task_of, put_task, on_links, on_task_pool, on_timer_pool, same, minus_one,
  ptr_of_fd,
}
use common_utils_lib.IoScheduler.Process.{FdSet, Sets, fd_set, is_timer_id, larger, process_all}

-- A set has room for the descriptors below FD_SETSIZE.
abbrev pub fits : (fd_setsize : ℕ) → ℤ → Bool
fits fd_setsize (pos n) = ltb n fd_setsize
fits fd_setsize (negsuc n) = false

-- `if ( wants ) { maxfd = ( fd > maxfd ) ? fd : maxfd; FD_SET ( fd, &set ); }`. For a descriptor
-- that a set has no room for, FD_SET is undefined.
abbrev pub add : (fd_setsize : ℕ) (wants : Bool) → ℤ → ℤ × FdSet → Cmd World (ℤ × FdSet)
add fd_setsize wants fd (maxfd, set) =
    if wants
    then (if fits fd_setsize fd then ok (larger fd maxfd, fd_set set fd) else (λ _. fault))
    else ok (maxfd, set)

-- The descriptor of a task joins the sets for which its options ask.
unfoldable pub watch : (fd_setsize : ℕ) → Task → ℤ × Sets → Cmd World (ℤ × Sets)
watch fd_setsize k (maxfd, sets) =
    let only_timer =
      k.opts.timer && not (k.opts.read || k.opts.write || k.opts.error || k.opts.remove) in
    if only_timer then ok (maxfd, sets) else (do
      (maxfd1, rds) ← add fd_setsize k.opts.read k.fd (maxfd, sets.rds)
      (maxfd2, wrs) ← add fd_setsize k.opts.write k.fd (maxfd1, sets.wrs)
      (maxfd3, ers) ← add fd_setsize k.opts.error k.fd (maxfd2, sets.ers)
      ok (maxfd3, record { rds = rds; wrs = wrs; ers = ers }))

abbrev pub blank : Task
blank = record {
  owner = null;
  fd = pos 0;
  opts = no_opts;
  time_out = pos 0;
  expire_time = record { sec = 0; nsec = 0 };
  user_data = null;
  on_read_rdy_cbk = null;
  on_write_rdy_cbk = null;
  on_err_rdy_cbk = null;
  on_timeout_cbk = null;
}

abbrev pub no_sets : Sets
no_sets = record { rds = λ _. false; wrs = λ _. false; ers = λ _. false }

module _ (posix : Pthread) (task_pool_mutex timer_pool_mutex : posix.Mutex) where
  unfoldable pub destroy_task : Ptr → Cmd World (Unit {0})
  destroy_task io_task = if io_task == null then ok tt else do
    k ← task_of io_task
    if is_timer_id k.fd
        then (do _ ← on_timer_pool (fixed_push_r posix timer_pool_mutex (ptr_of_fd k.fd)); ok tt)
        else ok tt
    r ← on_task_pool (fixed_push_r posix task_pool_mutex io_task)
    if r == stack_error_full
        then (λ w. ok tt (record w { next = give_back w.next io_task }))
        else (do on_links (store io_task null); put_task io_task blank)

  -- `while ( p->next && REMOVE( p->next ) && ( p->next->fd != INVALID_GENERAL_FD ) ) ...`, where
  -- `p` is the scheduler (for its `scheduled_tasks`) or a task.
  unfoldable pub clear_behind : ℕ → Ptr → Cmd World (Unit {0})
  clear_behind zero p = λ _. out_of_fuel
  clear_behind (suc fuel) p = do
    t ← on_links (load p)
    if t == null then ok tt else (do
      k ← task_of t
      if k.opts.remove && not (same k.fd minus_one)
          then (do q ← on_links (load t); destroy_task t; on_links (store p q); clear_behind fuel p)
          else ok tt)

  module _ (fd_setsize : ℕ) where
    -- The first loop of the pump.
    unfoldable pub scan : ℕ → Ptr → ℤ × Sets → Cmd World (ℤ × Sets)
    scan zero ptask seen = λ _. out_of_fuel
    scan (suc fuel) ptask seen = if ptask == null then ok seen else do
      k ← task_of ptask
      seen' ← watch fd_setsize k seen
      clear_behind fuel ptask
      q ← on_links (load ptask)
      scan fuel q seen'

    unfoldable pub sweep : ℕ → Ptr → ℤ × Sets → Cmd World (ℤ × Sets)
    sweep fuel scheduler seen = do
      clear_behind fuel scheduler
      t ← on_links (load scheduler)
      scan fuel t seen

    -- Behind `select`.
    abbrev pub dispatch :
        (debug : Bool) (invoke : Ptr → Ptr → ℕ → Cmd World Bool) (err_op_timeout : ℕ)
        → ℕ
        → ℕ
        → Ptr
        → Option Sets
        → Cmd World (Unit {0})
    dispatch debug invoke err_op_timeout fuel rounds scheduler none = ok tt
    dispatch debug invoke err_op_timeout fuel rounds scheduler (some sets) = do
      t ← on_links (load scheduler)
      process_all invoke err_op_timeout debug fuel rounds t sets

    unfoldable pub pump :
        (debug : Bool) (invoke : Ptr → Ptr → ℕ → Cmd World Bool) (err_op_timeout : ℕ)
        (select : ℤ → Sets → Cmd World (Option Sets)) (idle : Cmd World (Unit {0}))
        → ℕ
        → ℕ
        → Ptr
        → Cmd World (Unit {0})
    pump debug invoke err_op_timeout select idle fuel rounds scheduler = do
      t ← on_links (load scheduler)
      threaded ← (λ w. ok w.threaded w)
      if (t == null) && threaded then idle else (do
        stopped ← (λ w. ok w.stop_scheduler w)
        (maxfd, sets) ←
            (if not (t == null) && not stopped
              then sweep fuel scheduler (minus_one, no_sets)
              else ok (minus_one, no_sets))
        stopped' ← (λ w. ok w.stop_scheduler w)
        if stopped' then ok tt else (do
          r ← select maxfd sets
          dispatch debug invoke err_op_timeout fuel rounds scheduler r))
