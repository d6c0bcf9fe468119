-- ===== src/IoScheduler/Tasks.antt =====
-- io-scheduler.c: the calls that make, find, schedule and unschedule tasks.
use common_utils_lib.Base.{ℕ, zero, suc, Bool, true, false, not, ◌&&◌, ◌||◌, ◌==◌, if◌then◌else◌}
use common_utils_lib.Base.Int.{ℤ, pos}
use common_utils_lib.Machine.{Ptr, null, ok, fault, out_of_fuel, Cmd, ◌>>=◌, ◌>>◌}
use common_utils_lib.Machine.Mutex.{Pthread}
use common_utils_lib.Chain.{Field}
use common_utils_lib.Slist.{load, store, seek}
use common_utils_lib.Stack.Fixed.{fixed_pop_and_return_r}
use common_utils_lib.IoScheduler.{
  World, Task, Opts, no_opts, task_of, put_task, on_links, on_task_pool, on_timer_pool, same,
  minus_one, is_positive, fd_of_ptr, populate_expire_time,
}

module _ (posix : Pthread) (task_pool_mutex timer_pool_mutex : posix.Mutex) where
  unfoldable pub create_task :
      (scheduler : Ptr) (fd : ℤ) (opts : Opts) (time_out : ℤ)
      (user_data read_cbk write_cbk err_cbk time_out_cbk : Ptr)
      → Cmd World Ptr
  create_task scheduler fd opts time_out user_data read_cbk write_cbk err_cbk time_out_cbk =
      if scheduler == null then ok null else do
        ptask ← on_task_pool (fixed_pop_and_return_r posix task_pool_mutex)
        if ptask == null then ok null else (do
          on_links (store ptask null)
          put_task ptask (record {
            owner = scheduler;
            fd = fd;
            opts = record opts { remove = false };
            time_out = time_out;
            expire_time = record { sec = 0; nsec = 0 };
            user_data = user_data;
            on_read_rdy_cbk = read_cbk;
            on_write_rdy_cbk = write_cbk;
            on_err_rdy_cbk = err_cbk;
            on_timeout_cbk = time_out_cbk;
          })
          ok ptask)

  unfoldable pub create_reader_task : Ptr → ℤ → ℤ → Ptr → Ptr → Cmd World Ptr
  create_reader_task scheduler fd time_out user_data read_cbk =
      create_task scheduler fd (record no_opts { read = true; timer = is_positive time_out })
        time_out user_data read_cbk null null read_cbk

  unfoldable pub create_reader_task_ex : Ptr → ℤ → ℤ → Ptr → Ptr → Ptr → Cmd World Ptr
  create_reader_task_ex scheduler fd time_out user_data read_cbk err_cbk =
      create_task scheduler fd
        (record no_opts { read = true; error = true; timer = is_positive time_out }) time_out
        user_data read_cbk null err_cbk read_cbk

  unfoldable pub create_writer_task : Ptr → ℤ → ℤ → Ptr → Ptr → Cmd World Ptr
  create_writer_task scheduler fd time_out user_data write_cbk =
      create_task scheduler fd (record no_opts { write = true; timer = is_positive time_out })
        time_out user_data null write_cbk null write_cbk

  unfoldable pub create_timer_task : Ptr → ℤ → Ptr → Ptr → Cmd World Ptr
  create_timer_task scheduler time_out user_data time_out_cbk =
      if scheduler == null then ok null else do
        id ← on_timer_pool (fixed_pop_and_return_r posix timer_pool_mutex)
        if same (fd_of_ptr id) (pos 0)
            then ok null
            else create_task scheduler (fd_of_ptr id) (record no_opts { timer = true }) time_out
                user_data null null null time_out_cbk

-- `while ( ptask && ( ptask->fd != fd ) ) ptask = ptask->next;`
unfoldable pub find_loop : ℕ → ℤ → Ptr → Cmd World Ptr
find_loop zero fd ptask = λ _. out_of_fuel
find_loop (suc fuel) fd ptask = if ptask == null then ok null else do
  k ← task_of ptask
  if same k.fd fd then ok ptask else (do q ← on_links (load ptask); find_loop fuel fd q)

unfoldable pub find_task : ℕ → Ptr → ℤ → Cmd World Ptr
find_task fuel scheduler fd =
    if scheduler == null
    then ok null
    else do ptask ← on_links (load scheduler); find_loop fuel fd ptask

unfoldable pub reschedule_task : ℕ → Ptr → Cmd World Bool
reschedule_task fuel io_task = if io_task == null then ok false else do
  k ← task_of io_task
  if k.opts.remove then ok false else (do populate_expire_time fuel io_task; ok true)

-- The options that a task is scheduled with: none without its callback.
unfoldable pub usable : Task → Opts
usable k =
    let read = k.opts.read && not (k.on_read_rdy_cbk == null) in
    let write = k.opts.write && not (k.on_write_rdy_cbk == null) in
    let error = k.opts.error && not (k.on_err_rdy_cbk == null) in
    let timer = k.opts.timer && not (k.on_timeout_cbk == null || same k.time_out minus_one) in
    record {
      read = read;
      write = write;
      error = error;
      timer = timer;
      remove = k.opts.remove || not (read || write || error || timer);
    }

-- The task goes to the end of the list; its own `next` is left as it is.
unfoldable pub link_last : ℕ → Ptr → Ptr → Cmd Field (Unit {0})
link_last fuel owner io_task = do
  ttt ← load owner
  if ttt == null then store owner io_task else (do p ← seek (λ _. true) fuel ttt; store p io_task)

unfoldable pub schedule_task : ℕ → ℕ → Ptr → Cmd World Bool
schedule_task fuel rounds io_task = if io_task == null then ok false else do
  k ← task_of io_task
  put_task io_task (record k { opts = usable k })
  if (usable k).timer then populate_expire_time rounds io_task else ok tt
  on_links (link_last fuel k.owner io_task)
  ok true

-- In a build with debug messages the message reads the descriptor before the test for `NULL`.
unfoldable pub unschedule_task : (debug : Bool) → Ptr → Cmd World (Unit {0})
unschedule_task debug io_task =
    if io_task == null then (if debug then (λ _. fault) else ok tt) else do
      k ← task_of io_task
      if same k.fd minus_one
          then ok tt
          else put_task io_task (record k { opts = record k.opts { remove = true } })
