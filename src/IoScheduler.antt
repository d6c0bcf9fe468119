-- ===== src/IoScheduler.antt =====
-- io-scheduler.c: tasks and the calls that make, find and schedule them. `scheduled_tasks` is the
-- first member of a scheduler and `next` the first of a task, so both are cells of one pointer
-- field, as in single-link-list.c. There is one scheduler: its pools and flags are fields of the
-- store. `task_list_mutex` is not modelled: a call is one step. A loop is given `fuel` rounds.
-- Asserts are on; seconds do not overflow.
pub mod Tasks
pub mod Process
pub mod Pump
pub mod Clock
pub mod Pools
pub mod Create
pub mod Removal
pub mod Clear
pub mod Watched
pub mod Sweep
pub mod Ids
pub mod Schedule
pub mod Find
pub mod Starve
pub mod Stop
pub mod Same
pub mod Unschedule
pub mod Writer
mod Tests
use common_utils_lib.Base.{
  ℕ, zero, suc, ◌+◌, ◌-◌, ◌%◌, ◌^◌, Bool, true, false, not, ◌&&◌, ◌||◌, ltb, leb, ◌==◌,
  if◌then◌else◌, none,
}
use common_utils_lib.Base.Int.{ℤ, pos, negsuc}
use common_utils_lib.Machine.{
  Ptr, null, Run, ok, fault, aborted, blocked, out_of_fuel, Cmd, ◌>>=◌, ◌>>◌,
}
use common_utils_lib.Machine.Mutex.{Pthread}
use common_utils_lib.Chain.{Field}
use common_utils_lib.Slist.{load, store, seek}
use common_utils_lib.Stack.{Handle}
use common_utils_lib.Stack.Fixed.{fixed_pop_and_return_r}

pub record Timespec : Type 0 where
  pub sec : ℕ
  pub nsec : ℕ

-- `io_task_opts_t`, a set of flags.
pub record Opts : Type 0 where
  pub read : Bool
  pub write : Bool
  pub error : Bool
  pub timer : Bool
  pub remove : Bool

-- `struct _io_scheduler_task`, less `next` and the members that the library does not use. A
-- callback is the address of its function.
pub record Task : Type 0 where
  pub owner : Ptr
  pub fd : ℤ
  pub opts : Opts
  pub time_out : ℤ
  pub expire_time : Timespec
  pub user_data : Ptr
  pub on_read_rdy_cbk : Ptr
  pub on_write_rdy_cbk : Ptr
  pub on_err_rdy_cbk : Ptr
  pub on_timeout_cbk : Ptr

pub record World : Type 0 where
  pub next : Field
  pub task : Ptr → Task
  pub task_pool : Handle
  pub timer_id_pool : Handle
  pub threaded : Bool
  pub stop_scheduler : Bool
  pub clock : Timespec

-- IO_SCHEDULER_TIME_ONE_SECOND
abbrev pub one_second : ℕ
one_second = 1000000000

abbrev pub is_positive : ℤ → Bool
is_positive (pos n) = ltb 0 n
is_positive (negsuc n) = false

abbrev pub same : ℤ → ℤ → Bool
same (pos a) (pos b) = a == b
same (pos a) (negsuc b) = false
same (negsuc a) (pos b) = false
same (negsuc a) (negsuc b) = a == b

-- IO_SCHEDULER_NO_TIMEOUT and INVALID_GENERAL_FD
abbrev pub minus_one : ℤ
minus_one = negsuc 0

-- `(fd_t) p` and `(void*) fd`
unfoldable pub fd_of_ptr : Ptr → ℤ
fd_of_ptr p =
    let low = p % 2 ^ 32 in if ltb low (2 ^ 31) then pos low else negsuc (2 ^ 32 - 1 - low)

unfoldable pub ptr_of_fd : ℤ → Ptr
ptr_of_fd (pos n) = n
ptr_of_fd (negsuc n) = 2 ^ 64 - 1 - n

-- A 64-bit value stored in an `int`: its low 32 bits, with the sign that they have.
unfoldable pub int_of : ℤ → ℤ
int_of z = fd_of_ptr (ptr_of_fd z)

module _ {A : Type 0} where
  abbrev pub with_links : World → Run Field A → Run World A
  with_links w (ok a f) = ok a (record w { next = f })
  with_links w fault = fault
  with_links w aborted = aborted
  with_links w blocked = blocked
  with_links w out_of_fuel = out_of_fuel

  abbrev pub on_links : Cmd Field A → Cmd World A
  on_links m w = with_links w (m w.next)

  abbrev pub with_task_pool : World → Run Handle A → Run World A
  with_task_pool w (ok a h) = ok a (record w { task_pool = h })
  with_task_pool w fault = fault
  with_task_pool w aborted = aborted
  with_task_pool w blocked = blocked
  with_task_pool w out_of_fuel = out_of_fuel

  abbrev pub on_task_pool : Cmd Handle A → Cmd World A
  on_task_pool m w = with_task_pool w (m w.task_pool)

  abbrev pub with_timer_pool : World → Run Handle A → Run World A
  with_timer_pool w (ok a h) = ok a (record w { timer_id_pool = h })
  with_timer_pool w fault = fault
  with_timer_pool w aborted = aborted
  with_timer_pool w blocked = blocked
  with_timer_pool w out_of_fuel = out_of_fuel

  abbrev pub on_timer_pool : Cmd Handle A → Cmd World A
  on_timer_pool m w = with_timer_pool w (m w.timer_id_pool)

-- `*t`, a fault where there is no task
unfoldable pub task_of : Ptr → Cmd World Task
task_of t = do _ ← on_links (load t); λ w. ok (w.task t) w

abbrev pub store_task : (Ptr → Task) → Ptr → Task → Ptr → Task
store_task d t k a = if a == t then k else d a

abbrev pub put_task : Ptr → Task → Cmd World (Unit {0})
put_task t k w = ok tt (record w { task = store_task w.task t k })

abbrev pub no_opts : Opts
no_opts = record { read = false; write = false; error = false; timer = false; remove = false }

-- `while ( time_to_add > ONE_SECOND ) { tv_sec++; time_to_add -= ONE_SECOND; }`: what is left, and
-- the seconds.
unfoldable pub add_seconds : ℕ → ℕ → ℕ → Cmd World (ℕ × ℕ)
add_seconds zero time_to_add sec = λ _. out_of_fuel
add_seconds (suc fuel) time_to_add sec =
    if ltb one_second time_to_add
    then add_seconds fuel (time_to_add - one_second) (sec + 1)
    else ok (time_to_add, sec)

-- The nanoseconds added, carried once.
unfoldable pub add_rest : ℕ → ℕ → ℕ → Timespec
add_rest sec nsec rest =
    if ltb one_second (nsec + rest)
    then record { sec = sec + 1; nsec = nsec + rest - one_second }
    else record { sec = sec; nsec = nsec + rest }

abbrev pub expire_from : ℕ → Ptr → ℤ → Cmd World (Unit {0})
expire_from fuel t (negsuc n) = λ _. aborted
expire_from fuel t (pos n) = λ w.
    (do
      (rest, sec) ← add_seconds fuel n w.clock.sec
      k ← task_of t
      put_task t (record k { expire_time = add_rest sec w.clock.nsec rest }))
      w

unfoldable pub populate_expire_time : ℕ → Ptr → Cmd World (Unit {0})
populate_expire_time fuel t = do k ← task_of t; expire_from fuel t k.time_out
