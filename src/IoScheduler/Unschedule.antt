-- ===== src/IoScheduler/Unschedule.antt =====
-- io_sched_unschedule_task.
use common_utils_lib.Base.{
  ◌≡◌, refl, ◌≢◌, Bool, true, false, some, arith, ==-ne, ==_refl, Bool-cases, inl, inr,
}
use common_utils_lib.Machine.{Ptr, null}
use common_utils_lib.Machine.Returns.{Returns, returns}
use common_utils_lib.IoScheduler.{World, same, minus_one}
use common_utils_lib.IoScheduler.Clock.{task_of-ok}
use common_utils_lib.IoScheduler.Tasks.{unschedule_task}

-- The task is marked for removal unless its descriptor is −1; the other tasks and the list stay.
pub record Unscheduled (w g : World) (t : Ptr) : Type 0 where
  pub links : g.next ≡ w.next
  pub marked : same (w.task t).fd minus_one ≡ false → (g.task t).opts.remove ≡ true

pub unschedule_task-Unscheduled :
    (debug : Bool) (w : World) (t q : Ptr)
    → t ≢ null
    → w.next t ≡ some q
    → Returns (λ _ g. Unscheduled w g t) (unschedule_task debug t w)
unfolding unschedule_task
unschedule_task-Unscheduled debug w t q ne e = elim (Bool-cases (same (w.task t).fd minus_one)) [
  | inl bad ↦
      rw (==-ne t null ne, task_of-ok w t q ne e, bad)
        (returns (record { links = refl; marked = λ o. absurd (ground (arith, bad, o)) }))
  | inr good ↦
      rw (==-ne t null ne, task_of-ok w t q ne e, good)
        (returns (record { links = refl; marked = λ o. rw (==_refl t) refl }))
]
