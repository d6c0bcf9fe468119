-- ===== src/IoScheduler/Pools.antt =====
-- The two fixed stacks of a scheduler, used from its store.
use mathlib.Core.Path.{subst}
use common_utils_lib.Base.{ℕ, ◌-◌, ◌<◌, ◌≡◌, refl, false, some, List, ◌∷◌, arith, ◌==◌, length}
use common_utils_lib.Machine.{Ptr, Run, ok, fault, aborted, blocked, out_of_fuel}
use common_utils_lib.Machine.Mutex.{Pthread, with_copy-ok}
use common_utils_lib.Machine.Returns.{Returns, returns, weaken}
use common_utils_lib.Stack.{Handle}
use common_utils_lib.Stack.Fixed.{
  fixed_push, fixed_push_r, fixed_pop_and_return, fixed_pop_and_return_r,
}
use common_utils_lib.Stack.Fixed.Inv.{Holds}
use common_utils_lib.Stack.Fixed.Steps.{Gives, top_of, rest_of}
use common_utils_lib.Stack.Fixed.Refine.{push, pop_and_return, call, list_call, call-list_call}
use common_utils_lib.IoScheduler.{
  World, with_task_pool, with_timer_pool, on_task_pool, on_timer_pool,
}

module _ {A : Type 0} {P : A → Handle → Type 0} (w : World) where
  on_task_pool-Returns :
      (r : Run Handle A)
      → Returns P r
      → Returns
          (λ a g. (h : Handle) × P a h × (g ≡ record w { task_pool = h }))
          (with_task_pool w r)
  on_task_pool-Returns (ok a h) (returns p) = returns (h, p, refl)
  on_task_pool-Returns fault p = elim p [ ]
  on_task_pool-Returns aborted p = elim p [ ]
  on_task_pool-Returns blocked p = elim p [ ]
  on_task_pool-Returns out_of_fuel p = elim p [ ]

  on_timer_pool-Returns :
      (r : Run Handle A)
      → Returns P r
      → Returns
          (λ a g. (h : Handle) × P a h × (g ≡ record w { timer_id_pool = h }))
          (with_timer_pool w r)
  on_timer_pool-Returns (ok a h) (returns p) = returns (h, p, refl)
  on_timer_pool-Returns fault p = elim p [ ]
  on_timer_pool-Returns aborted p = elim p [ ]
  on_timer_pool-Returns blocked p = elim p [ ]
  on_timer_pool-Returns out_of_fuel p = elim p [ ]

-- The handle designates a well-formed stack for `cap` pointers.
abbrev pub IsPool : ℕ → Handle → Type 0
IsPool cap h = (xs : List Ptr) × Holds cap xs h

module _ (posix : Pthread) (mutex held : posix.Mutex) (granted : posix.lock mutex ≡ some held)
    (cap : ℕ) (xs : List Ptr) (w : World) where
  -- Taking the top of the pool of tasks.
  pub pop_task-Returns :
      Holds cap xs w.task_pool
      → Returns
          (λ r g.
            (h : Handle) × Gives cap (top_of xs) (rest_of xs) r h
            × (g ≡ record w { task_pool = h }))
          (on_task_pool (fixed_pop_and_return_r posix mutex) w)
  unfolding fixed_pop_and_return_r call list_call
  pop_task-Returns is =
      rw (with_copy-ok posix mutex held fixed_pop_and_return w.task_pool granted) (
        on_task_pool-Returns w (fixed_pop_and_return w.task_pool)
          (call-list_call pop_and_return cap xs w.task_pool is))

  -- Giving a task back to a pool that has room for it.
  pub push_task-Returns :
      (t : Ptr)
      → Holds cap xs w.task_pool
      → length xs < cap
      → Returns
          (λ r g.
            (h : Handle) × Gives cap (cap - length xs - 1) (t ∷ xs) r h
            × (g ≡ record w { task_pool = h }))
          (on_task_pool (fixed_push_r posix mutex t) w)
  unfolding fixed_push_r call list_call
  push_task-Returns t is room =
      let not_full : (length xs == cap) ≡ false = ground (arith, room) in
      let answer : list_call cap (push t) xs ≡ (cap - length xs - 1, t ∷ xs) = rw not_full in
      rw (with_copy-ok posix mutex held (fixed_push t) w.task_pool granted) (
        on_task_pool-Returns w (fixed_push t w.task_pool) (
          subst (λ p. Returns (Gives cap p.0 p.1) (fixed_push t w.task_pool)) answer
            (call-list_call (push t) cap xs w.task_pool is)))

  -- Giving an id back to the pool of timer ids, full or not.
  pub push_timer-Returns :
      (t : Ptr)
      → Holds cap xs w.timer_id_pool
      → Returns
          (λ r g. (h : Handle) × IsPool cap h × (g ≡ record w { timer_id_pool = h }))
          (on_timer_pool (fixed_push_r posix mutex t) w)
  unfolding fixed_push_r call list_call
  push_timer-Returns t is =
      rw (with_copy-ok posix mutex held (fixed_push t) w.timer_id_pool granted) (
        on_timer_pool-Returns w (fixed_push t w.timer_id_pool)
          (weaken (call-list_call (push t) cap xs w.timer_id_pool is) λ r h g. (_, g.1)))
