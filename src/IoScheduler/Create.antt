-- ===== src/IoScheduler/Create.antt =====
-- io_sched_create_task on a pool that has a task.
use common_utils_lib.Base.{ℕ, ◌≡◌, refl, ◌≢◌, false, some, List, ◌∷◌, ==-ne, ==_refl}
use common_utils_lib.Base.Int.{ℤ}
use common_utils_lib.Machine.{Ptr, null}
use common_utils_lib.Machine.Mutex.{Pthread}
use common_utils_lib.Machine.Returns.{Returns, returns, chain}
use common_utils_lib.Chain.{put}
use common_utils_lib.Slist.Shape.{store-ok}
use common_utils_lib.Stack.Fixed.Inv.{Holds}
use common_utils_lib.IoScheduler.{World, Task, Opts}
use common_utils_lib.IoScheduler.Pools.{pop_task-Returns}
use common_utils_lib.IoScheduler.Tasks.{create_task}

-- The task `asked` is at `t`, with no successor; the pool has lost `t`, and the rest is as it was.
pub record Created (asked : Task) (w : World) (cap : ℕ) (t : Ptr) (rest : List Ptr) (g : World)
    : Type 0 where
  pub pool : Holds cap rest g.task_pool
  pub links : g.next ≡ put w.next t null
  pub made : g.task t ≡ asked
  pub others : (a : Ptr) → a ≢ t → g.task a ≡ w.task a
  pub clock : g.clock ≡ w.clock

-- When the lock of the copied mutex is granted, and the pool holds the address `t` of a task on
-- top, `io_sched_create_task` takes `t` off the pool and returns it with no successor. The
-- task is in every member the one asked for: its owner, its descriptor and its options, which do
-- not ask for its removal, its timeout with no expiry, the user's data, and the four callbacks each
-- in its place. The other tasks and the clock stay as they were.
pub create_task-Created :
    (posix : Pthread) (mutex held timer_mutex : posix.Mutex) (w : World) (cap : ℕ) (t : Ptr)
    (rest : List Ptr) (old : Ptr) (scheduler : Ptr) (fd : ℤ) (opts : Opts) (time_out : ℤ)
    (user_data r wr e out : Ptr)
    → posix.lock mutex ≡ some held
    → Holds cap (t ∷ rest) w.task_pool
    → t ≢ null
    → w.next t ≡ some old
    → scheduler ≢ null
    → Returns
        (λ p g.
          (p ≡ t)
          × Created
              (record {
                owner = scheduler;
                fd = fd;
                opts = record opts { remove = false };
                time_out = time_out;
                expire_time = record { sec = 0; nsec = 0 };
                user_data = user_data;
                on_read_rdy_cbk = r;
                on_write_rdy_cbk = wr;
                on_err_rdy_cbk = e;
                on_timeout_cbk = out;
              })
              w
              cap
              t
              rest
              g)
        (create_task posix mutex timer_mutex scheduler fd opts time_out user_data r wr e out w)
unfolding create_task
create_task-Created posix mutex held timer_mutex w cap t rest old scheduler fd opts time_out
      user_data r wr e out granted is ne there ns =
    rw (==-ne scheduler null ns) (
      chain (pop_task-Returns posix mutex held granted cap (t ∷ rest) w is)
        λ p g (h, (same, kept), g_is).
          rw (same, g_is, ==-ne t null ne, store-ok w.next t old ne there null)
            (returns (
              refl,
              record {
                pool = kept;
                links = refl;
                made = rw (==_refl t) refl;
                others = λ a na. rw (==-ne a t na) refl;
                clock = refl;
              },
            )))
