-- ===== src/IoScheduler/Stop.antt =====
-- io_sched_stop_scheduler and io_sched_run_scheduler. Cancelling and joining the thread is the
-- system's; it leaves the store alone.
use common_utils_lib.Base.{
  ℕ, zero, suc, ◌<◌, ◌≡◌, refl, ◌∙◌, ◌≢◌, true, false, List, [], ◌∷◌, arith, ◌==◌, ==-ne, ==_refl,
  if◌then◌else◌, Bool-cases, inl, inr, length,
}
use common_utils_lib.Machine.{Ptr, null, ok, out_of_fuel, Cmd, ◌>>=◌, ◌>>◌}
use common_utils_lib.Machine.Returns.{Returns, returns, weaken, chain}
use common_utils_lib.Chain.{has, first, IsLinked}
use common_utils_lib.Slist.{load}
use common_utils_lib.Slist.Shape.{IsList, load-ok}
use common_utils_lib.IoScheduler.{World, Task, task_of, store_task, put_task, on_links}
use common_utils_lib.IoScheduler.Clock.{task_of-ok}

abbrev pub to_remove : Task → Task
to_remove k = record k { opts = record k.opts { remove = true } }

-- `while ( task ) { task->opts |= IO_SCHEDULER_REMOVE; task = task->next; }`
unfoldable pub mark_loop : ℕ → Ptr → Cmd World (Unit {0})
mark_loop zero task = λ _. out_of_fuel
mark_loop (suc fuel) task = if task == null then ok tt else do
  k ← task_of task
  put_task task (to_remove k)
  q ← on_links (load task)
  mark_loop fuel q

unfoldable pub stop_scheduler : ℕ → Ptr → Cmd World (Unit {0})
stop_scheduler fuel scheduler = if scheduler == null then ok tt else do
  task ← on_links (load scheduler)
  mark_loop fuel task
  λ w. ok tt (record w { stop_scheduler = true })

-- `while ( !( stop_scheduler ) && ( scheduled_tasks ) ) pump`
unfoldable pub run_scheduler : Cmd World (Unit {0}) → ℕ → Ptr → Cmd World (Unit {0})
run_scheduler pump zero scheduler = λ _. out_of_fuel
run_scheduler pump (suc fuel) scheduler = if scheduler == null then ok tt else do
  stopped ← (λ w. ok w.stop_scheduler w)
  if stopped then ok tt else (do
    t ← on_links (load scheduler)
    if t == null then ok tt else (do pump; run_scheduler pump fuel scheduler))

-- The tasks listed are to be removed, the others as they were.
pub record Marked (xs : List Ptr) (w g : World) : Type 0 where
  pub links : g.next ≡ w.next
  pub listed : (a : Ptr) → has a xs ≡ true → g.task a ≡ to_remove (w.task a)
  pub others : (a : Ptr) → has a xs ≡ false → g.task a ≡ w.task a

module _ (w : World) (x a : Ptr) where
  abbrev after_mark : Ptr → Task
  after_mark = store_task w.task x (to_remove (w.task x))

  marked_twice : to_remove (after_mark a) ≡ to_remove (w.task a)
  marked_twice = elim (Bool-cases (a == x)) [
    | inl e ↦ let same : a ≡ x = ground arith in rw (e, same)
    | inr e ↦ rw e
  ]

  marked_here : a ≡ x → after_mark a ≡ to_remove (w.task a)
  marked_here e = rw (e, ==_refl x)

  kept : a ≢ x → after_mark a ≡ w.task a
  kept ne = rw (==-ne a x ne)

mark_loop-Marked :
    (w : World) (xs : List Ptr) (fuel : ℕ)
    → IsLinked w.next xs null
    → length xs < fuel
    → Returns (λ _ g. Marked xs w g) (mark_loop fuel (first xs null) w)
unfolding mark_loop
mark_loop-Marked w xs zero l h = absurd (omega arith)
mark_loop-Marked w [] (suc fuel) l h =
    returns (record { links = refl; listed = λ a i. cc; others = λ a i. refl })
mark_loop-Marked w (x ∷ xs) (suc fuel) l h =
    let w1 : World = record w { task = store_task w.task x (to_remove (w.task x)) } in
    rw
      (
        ==-ne x null l.0,
        task_of-ok w x (first xs null) l.0 l.1,
        load-ok w.next x (first xs null) l.0 l.1,
      )
      (weaken (mark_loop-Marked w1 xs fuel l.2 (omega arith)) λ _ g m. record {
        links = m.links;
        listed = λ a i. elim (Bool-cases (has a xs)) [
          | inl e ↦ m.listed a e ∙ marked_twice w x a
          | inr e ↦ m.others a e ∙ marked_here w x a (ground arith)
        ];
        others = λ a i. m.others a (ground arith) ∙ kept w x a (ground arith);
      })

-- On a well-formed task list, with more rounds than tasks, `io_sched_stop_scheduler` asks for the
-- removal of every task of the list, changes no other task and no link, and sets the stop flag.
pub stop_scheduler-Marked :
    (w : World) (scheduler : Ptr) (xs : List Ptr) (fuel : ℕ)
    → IsList w.next scheduler xs
    → length xs < fuel
    → Returns (λ _ g. Marked xs w g × (g.stop_scheduler ≡ true)) (stop_scheduler fuel scheduler w)
unfolding stop_scheduler
stop_scheduler-Marked w scheduler xs fuel is h =
    rw
      (
        ==-ne scheduler null is.linked.0,
        load-ok w.next scheduler (first xs null) is.linked.0 is.linked.1,
      )
      (chain (mark_loop-Marked w xs fuel is.linked.2 h)
        λ _ g m. returns (record { links = m.links; listed = m.listed; others = m.others }, refl))
