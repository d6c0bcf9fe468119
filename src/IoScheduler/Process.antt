-- ===== src/IoScheduler/Process.antt =====
-- io-scheduler.c: what the scheduler does with its tasks. `invoke f t e` is the function at `f`
-- called back with the task `t` and the error code `e`.
-- A descriptor set is a test on descriptors.
use common_utils_lib.Base.{
  ℕ, zero, suc, Bool, true, false, not, ◌&&◌, ◌||◌, ltb, leb, ◌==◌, if◌then◌else◌,
}
use common_utils_lib.Base.Int.{ℤ, pos, negsuc}
use common_utils_lib.Machine.{Ptr, null, ok, fault, out_of_fuel, Cmd, ◌>>=◌, ◌>>◌}
use common_utils_lib.Slist.{load}
use common_utils_lib.IoScheduler.{
  World, Task, Opts, Timespec, task_of, on_links, same, minus_one, populate_expire_time,
}
use common_utils_lib.IoScheduler.Tasks.{unschedule_task}

abbrev pub FdSet : Type 0
FdSet = ℤ → Bool

pub record Sets : Type 0 where
  pub rds : FdSet
  pub wrs : FdSet
  pub ers : FdSet

-- FD_CLR, FD_SET
abbrev pub fd_clr : FdSet → ℤ → FdSet
fd_clr s fd x = if same x fd then false else s x

abbrev pub fd_set : FdSet → ℤ → FdSet
fd_set s fd x = if same x fd then true else s x

-- `fd > INVALID_GENERAL_FD`
abbrev pub is_io : ℤ → Bool
is_io (pos n) = true
is_io (negsuc n) = false

-- `fd < INVALID_GENERAL_FD`
abbrev pub is_timer_id : ℤ → Bool
is_timer_id (pos n) = false
is_timer_id (negsuc n) = ltb 0 n

-- `( fd > maxfd ) ? fd : maxfd`
abbrev pub larger : ℤ → ℤ → ℤ
larger (pos a) (pos b) = if ltb b a then pos a else pos b
larger (pos a) (negsuc b) = pos a
larger (negsuc a) (pos b) = pos b
larger (negsuc a) (negsuc b) = if ltb a b then negsuc a else negsuc b

-- Has the task a timeout, and is it over?
unfoldable pub task_expired : Task → Timespec → Bool
task_expired k now =
    not (same k.time_out minus_one)
    && (ltb k.expire_time.sec now.sec
        || ((now.sec == k.expire_time.sec) && leb k.expire_time.nsec now.nsec))

-- `rv && f ()`
abbrev pub and_then : Bool → Cmd World Bool → Cmd World Bool
and_then false m = ok false
and_then true m = m

abbrev pub err_none : ℕ
err_none = 0

module _ (invoke : Ptr → Ptr → ℕ → Cmd World Bool) (err_op_timeout : ℕ) where
  -- A call through a null function pointer faults.
  unfoldable pub call : Ptr → Ptr → ℕ → Cmd World Bool
  call f t e = if f == null then (λ _. fault) else invoke f t e

  -- `if ( S_IOSCHED_OPTS_ERROR( io_task ) && FD_ISSET( io_task->fd, ers ) ) { ... }`
  unfoldable pub error_part : Ptr → FdSet → Cmd World FdSet
  error_part t ers = do
    k ← task_of t
    if k.opts.error && ers k.fd
        then (do _ ← call k.on_err_rdy_cbk t err_none; k' ← task_of t; ok (fd_clr ers k'.fd))
        else ok ers

  -- The parts for reading and for writing: `wants` is the option and `cbk` the callback.
  unfoldable pub ready_part :
      (wants : Opts → Bool) (cbk : Task → Ptr)
      → Ptr
      → Bool
      → FdSet
      → Bool
      → Cmd World (Bool × FdSet)
  ready_part wants cbk t expired set rv = do
    k ← task_of t
    if wants k.opts
        then (if set k.fd
            then (do
              rv' ← and_then rv (call (cbk k) t err_none)
              k' ← task_of t
              ok (rv', fd_clr set k'.fd))
            else if expired
            then (do rv' ← and_then rv (call k.on_timeout_cbk t err_op_timeout); ok (rv', set))
            else ok (false, set))
        else ok (rv, set)

  unfoldable pub timer_part : ℕ → Ptr → Bool → Cmd World Bool
  timer_part rounds t expired =
      if expired
      then (do
        k ← task_of t
        done ← call k.on_timeout_cbk t err_op_timeout
        if done then ok true else (do populate_expire_time rounds t; ok false))
      else ok false

  unfoldable pub process_task : ℕ → Ptr → Sets → Cmd World (Bool × Sets)
  process_task rounds t sets = do
    k ← task_of t
    expired ← (λ w. ok (task_expired k w.clock) w)
    if is_io k.fd
        then (do
          ers ← error_part t sets.ers
          (rv, rds) ← ready_part (λ o. o.read) (λ k. k.on_read_rdy_cbk) t expired sets.rds true
          (rv', wrs) ← ready_part (λ o. o.write) (λ k. k.on_write_rdy_cbk) t expired sets.wrs rv
          ok (rv', record { rds = rds; wrs = wrs; ers = ers }))
        else (do rv ← timer_part rounds t expired; ok (rv, sets))

  -- The second loop of the pump: every task that is not to be removed.
  unfoldable pub process_all : (debug : Bool) → ℕ → ℕ → Ptr → Sets → Cmd World (Unit {0})
  process_all debug zero rounds ptask sets = λ _. out_of_fuel
  process_all debug (suc fuel) rounds ptask sets = do
    stopped ← (λ w. ok w.stop_scheduler w)
    if (ptask == null) || stopped then ok tt else (do
      k ← task_of ptask
      sets' ←
          (if k.opts.remove then ok sets else (do
            (done, s) ← process_task rounds ptask sets
            if done then unschedule_task debug ptask else ok tt
            ok s))
      q ← on_links (load ptask)
      process_all debug fuel rounds q sets')
