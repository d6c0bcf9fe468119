-- ===== src/IoScheduler/Writer.antt =====
-- A task that io_sched_create_writer_task makes, given to io_sched_schedule_task.
use mathlib.Core.Path.{subst}
use common_utils_lib.Base.{
  ℕ, ◌*◌, ◌<◌, ◌≡◌, ap, sym, ◌≢◌, inr, true, false, some, List, [], ◌∷◌, ◌++◌, length,
}
use common_utils_lib.Base.Int.{ℤ, pos}
use common_utils_lib.Machine.{Ptr, null}
use common_utils_lib.Machine.Mutex.{Pthread}
use common_utils_lib.Machine.Returns.{Returns, weaken}
use common_utils_lib.Chain.{put, has, has-ne, frame, put_ne, put_self}
use common_utils_lib.Slist.Shape.{IsList}
use common_utils_lib.Stack.Fixed.Inv.{Holds}
use common_utils_lib.IoScheduler.{World, one_second}
use common_utils_lib.IoScheduler.Create.{create_task-Created}
use common_utils_lib.IoScheduler.Schedule.{IsNew, schedule_task-snoc}
use common_utils_lib.IoScheduler.Tasks.{create_writer_task, schedule_task}

-- A scheduler with the tasks `xs`, and a task `t` that can be made: it is on top of the pool.
pub record HasRoom (w : World) (scheduler : Ptr) (xs : List Ptr) (cap : ℕ) (t : Ptr)
    (rest : List Ptr) : Type 0 where
  pub pool : Holds cap (t ∷ rest) w.task_pool
  pub ne : t ≢ null
  pub old : Ptr
  pub cell : w.next t ≡ some old
  pub list : IsList w.next scheduler xs
  pub out : has t (scheduler ∷ xs) ≡ false
  pub clock : w.clock.nsec < one_second

-- The task is made, and ready to be scheduled.
pub record Ready (g : World) (scheduler : Ptr) (xs : List Ptr) (n : ℕ) (t : Ptr) : Type 0 where
  pub list : IsList g.next scheduler xs
  pub new : IsNew g.next scheduler xs t
  pub owner : (g.task t).owner ≡ scheduler
  pub time_out : (g.task t).time_out ≡ pos n
  pub clock : g.clock.nsec < one_second

pub create_writer_task-Ready :
    (posix : Pthread) (mutex held timer_mutex : posix.Mutex) (w : World) (scheduler : Ptr)
    (xs : List Ptr) (cap : ℕ) (t : Ptr) (rest : List Ptr) (fd : ℤ) (n : ℕ) (user_data cbk : Ptr)
    → posix.lock mutex ≡ some held
    → HasRoom w scheduler xs cap t rest
    → scheduler ≢ null
    → Returns
        (λ p g. (p ≡ t) × Ready g scheduler xs n t)
        (create_writer_task posix mutex timer_mutex scheduler fd (pos n) user_data cbk w)
unfolding create_writer_task
create_writer_task-Ready posix mutex held timer_mutex w scheduler xs cap t rest fd n user_data cbk
      granted room ns =
    weaken
      (create_task-Created posix mutex held timer_mutex w cap t rest room.old scheduler fd _ (pos n)
        user_data null cbk null cbk granted room.pool room.ne room.cell ns)
      λ p g (same_p, made).
        let links : put w.next t null ≡ g.next = sym made.links in
        (
          same_p,
          record {
            list =
                subst (λ f. IsList f scheduler xs) links
                  (record {
                    linked =
                        frame (scheduler ∷ xs) null room.list.linked
                          λ a i. put_ne w.next t null a (has-ne a t (scheduler ∷ xs) i room.out);
                    distinct = room.list.distinct;
                  });
            new =
                subst (λ f. IsNew f scheduler xs t) links
                  (record { ne = room.ne; out = room.out; last = put_self w.next t null });
            owner = ap (λ k. k.owner) made.made;
            time_out = ap (λ k. k.time_out) made.made;
            clock = subst (λ c. c.nsec < one_second) (sym made.clock) room.clock;
          },
        )

pub schedule_task-Ready :
    (g : World) (scheduler : Ptr) (xs : List Ptr) (n : ℕ) (t : Ptr) (fuel rounds : ℕ)
    → Ready g scheduler xs n t
    → length xs < fuel
    → n < rounds * one_second
    → Returns
        (λ b g'. (b ≡ true) × IsList g'.next scheduler (xs ++ t ∷ []))
        (schedule_task fuel rounds t g)
schedule_task-Ready g scheduler xs n t fuel rounds ready enough less =
    let owner = sym ready.owner in
    weaken
      (schedule_task-snoc t xs g n fuel rounds (subst (λ o. IsList g.next o xs) owner ready.list)
        (subst (λ o. IsNew g.next o xs t) owner ready.new) enough ready.clock less
        (inr ready.time_out))
      λ b g' s. (s.done, subst (λ o. IsList g'.next o (xs ++ t ∷ [])) ready.owner s.list)
