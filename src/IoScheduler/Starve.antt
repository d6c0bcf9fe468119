-- ===== src/IoScheduler/Starve.antt =====
-- io_sched_process_task on a task that waits to read and to write.
use common_utils_lib.Base.{ℕ, ◌≡◌, refl, ◌≢◌, Bool, true, false, some}
use common_utils_lib.Machine.{Ptr, null, ok, Cmd}
use common_utils_lib.IoScheduler.{World, Task, Opts}
use common_utils_lib.IoScheduler.Process.{
  Sets, FdSet, fd_clr, is_io, task_expired, error_part, ready_part, timer_part, process_task,
}
use common_utils_lib.IoScheduler.Clock.{task_of-ok}

module _ (invoke : Ptr → Ptr → ℕ → Cmd World Bool) (err_op_timeout : ℕ) (w : World) (t next : Ptr)
    (ne : t ≢ null) (there : w.next t ≡ some next) where
  error_part-off :
      (ers : FdSet)
      → (w.task t).opts.error ≡ false
      → error_part invoke err_op_timeout t ers w ≡ ok ers w
  unfolding error_part
  error_part-off ers off = rw (task_of-ok w t next ne there) (rw off refl)

  module _ (wants : Opts → Bool) (cbk : Task → Ptr) (set : FdSet)
      (on : wants (w.task t).opts ≡ true) where
    -- Not ready and not expired.
    ready_part-waits :
        (rv : Bool)
        → set (w.task t).fd ≡ false
        → ready_part invoke err_op_timeout wants cbk t false set rv w ≡ ok (false, set) w
    unfolding ready_part
    ready_part-waits rv e = rw (task_of-ok w t next ne there) (rw (on, e) refl)

    -- Ready, behind a part that waits.
    ready_part-passed_over :
        set (w.task t).fd ≡ true
        → ready_part invoke err_op_timeout wants cbk t false set false w
          ≡ ok (false, fd_clr set (w.task t).fd) w
    unfolding ready_part
    ready_part-passed_over e =
        rw (task_of-ok w t next ne there) (rw (on, e) (rw (task_of-ok w t next ne there) refl))

  module _ (rounds : ℕ) (sets : Sets) (in_time : task_expired (w.task t) w.clock ≡ false) where
    -- Whatever the callbacks do, for a task on a descriptor that waits to read and to write, not
    -- for errors, and is not expired: when the descriptor can be written but not read,
    -- `io_sched_process_task` calls no callback, keeps the task scheduled, changes nothing, and
    -- takes the descriptor off the write set.
    pub process_task-starves_writer :
        is_io (w.task t).fd ≡ true
        → (w.task t).opts.error ≡ false
        → (w.task t).opts.read ≡ true
        → (w.task t).opts.write ≡ true
        → sets.rds (w.task t).fd ≡ false
        → sets.wrs (w.task t).fd ≡ true
        → process_task invoke err_op_timeout rounds t sets w
          ≡ ok (false, record sets { wrs = fd_clr sets.wrs (w.task t).fd }) w
    unfolding process_task
    process_task-starves_writer io off r wr unread writable = rw (task_of-ok w t next ne there) (
        rw (in_time, io)
          (rw (error_part-off sets.ers off) (
            rw (ready_part-waits (λ o. o.read) (λ k. k.on_read_rdy_cbk) sets.rds r true unread) (
              rw
                (ready_part-passed_over (λ o. o.write) (λ k. k.on_write_rdy_cbk) sets.wrs wr
                  writable)
                refl))))

    -- Whatever the callbacks do, a timer task that is not expired stays scheduled, and nothing
    -- changes.
    pub process_task-waits :
        is_io (w.task t).fd ≡ false
        → process_task invoke err_op_timeout rounds t sets w ≡ ok (false, sets) w
    unfolding process_task timer_part
    process_task-waits io = rw (task_of-ok w t next ne there) (rw (in_time, io) refl)
