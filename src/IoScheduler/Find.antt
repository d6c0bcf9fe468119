-- ===== src/IoScheduler/Find.antt =====
-- io_sched_find_task on a well-formed task list.
use common_utils_lib.Base.{
  ℕ, zero, suc, ◌<◌, ◌≡◌, refl, List, [], ◌∷◌, arith, ==-ne, if◌then◌else◌, Bool-cases, inl, inr,
  length,
}
use common_utils_lib.Base.Int.{ℤ}
use common_utils_lib.Machine.{Ptr, null, ok}
use common_utils_lib.Chain.{first, IsLinked}
use common_utils_lib.Slist.Shape.{IsList, load-ok}
use common_utils_lib.IoScheduler.{World, Task, same}
use common_utils_lib.IoScheduler.Tasks.{find_loop, find_task}
use common_utils_lib.IoScheduler.Clock.{task_of-ok}

-- The first task with the descriptor, `NULL` if there is none.
unfoldable pub first_task : (Ptr → Task) → ℤ → List Ptr → Ptr
first_task task fd [] = null
first_task task fd (t ∷ ts) = if same (task t).fd fd then t else first_task task fd ts

find_loop-first_task :
    (w : World) (fd : ℤ) (fuel : ℕ) (xs : List Ptr)
    → IsLinked w.next xs null
    → length xs < fuel
    → find_loop fuel fd (first xs null) w ≡ ok (first_task w.task fd xs) w
unfolding find_loop first_task
find_loop-first_task w fd zero xs l h = absurd (omega arith)
find_loop-first_task w fd (suc fuel) [] l h = refl
find_loop-first_task w fd (suc fuel) (x ∷ xs) l h = elim (Bool-cases (same (w.task x).fd fd)) [
  | inl e ↦ rw (==-ne x null l.0, task_of-ok w x (first xs null) l.0 l.1, e)
  | inr e ↦
      rw
        (
          ==-ne x null l.0,
          task_of-ok w x (first xs null) l.0 l.1,
          e,
          load-ok w.next x (first xs null) l.0 l.1,
        )
        (find_loop-first_task w fd fuel xs l.2 (omega arith))
]

-- On a well-formed task list, with more rounds than tasks, `io_sched_find_task` returns the first
-- task with the descriptor or timer id asked for, or `NULL` if there is none, and changes nothing.
pub find_task-first_task :
    (w : World) (scheduler : Ptr) (fd : ℤ) (fuel : ℕ) (xs : List Ptr)
    → IsList w.next scheduler xs
    → length xs < fuel
    → find_task fuel scheduler fd w ≡ ok (first_task w.task fd xs) w
unfolding find_task
find_task-first_task w scheduler fd fuel xs is h =
    rw
      (
        ==-ne scheduler null is.linked.0,
        load-ok w.next scheduler (first xs null) is.linked.0 is.linked.1,
      )
      (find_loop-first_task w fd fuel xs is.linked.2 h)
