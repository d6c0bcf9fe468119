-- ===== src/IoScheduler/Clear.antt =====
-- What removing a task and clearing a run of them leaves.
use common_utils_lib.Base.{
  ℕ, zero, suc, ◌+◌, ◌-◌, ◌<◌, ◌≤◌, ◌≡◌, refl, ap, sym, ◌∙◌, ◌≢◌, Bool, true, false, some, List, [],
  ◌∷◌, arith, ◌==◌, ==-ne, ==_refl, if◌then◌else◌, length, Bool-cases, inl, inr,
}
use common_utils_lib.Machine.{Ptr, null, ok, ◌>>=◌}
use common_utils_lib.Machine.Mutex.{Pthread}
use common_utils_lib.Machine.Returns.{Returns, returns, weaken, chain}
use common_utils_lib.Chain.{
  put, put_ne, put_self, has, first, IsDistinct, IsLinked, SameOutside, frame, has-ne,
}
use common_utils_lib.Chain.Walk.{take_while, drop_while}
use common_utils_lib.Slist.Shape.{load-ok, store-ok}
use common_utils_lib.Stack.{Handle, stack_error_full}
use common_utils_lib.Stack.Fixed.Inv.{Holds}
use common_utils_lib.Stack.Fixed.{fixed_push_r}
use common_utils_lib.IoScheduler.{World, store_task, on_timer_pool, ptr_of_fd}
use common_utils_lib.IoScheduler.Process.{is_timer_id}
use common_utils_lib.IoScheduler.Pump.{blank, destroy_task, clear_behind}
use common_utils_lib.IoScheduler.Pools.{IsPool, push_task-Returns, push_timer-Returns}
use common_utils_lib.IoScheduler.Clock.{task_of-ok}
use common_utils_lib.IoScheduler.Removal.{is_removable, push_all, while_same}

-- From `w` to `g` the tasks `gone` behind `p` have left the list and joined the pool of tasks, and
-- `left` has stayed; nothing else of the list or of the other tasks has changed.
pub record Trimmed (cap ids : ℕ) (p : Ptr) (xs gone left spare : List Ptr) (w g : World)
    : Type 0 where
  pub linked : IsLinked g.next (p ∷ left) null
  pub outside : SameOutside (p ∷ xs) w.next g.next
  pub tasks : (a : Ptr) → has a gone ≡ false → g.task a ≡ w.task a
  pub pool : Holds cap (push_all gone spare) g.task_pool
  pub timers : IsPool ids g.timer_id_pool

module _ (posix : Pthread) (m1 m2 held1 held2 : posix.Mutex) (granted1 : posix.lock m1 ≡ some held1)
    (granted2 : posix.lock m2 ≡ some held2) (cap ids : ℕ) (small : cap ≤ stack_error_full) where
  -- Not full: the task is cleared and goes to the pool.
  pub record Destroyed (t : Ptr) (spare : List Ptr) (w g : World) : Type 0 where
    pub links : g.next ≡ put w.next t null
    pub tasks : g.task ≡ store_task w.task t blank
    pub pool : Holds cap (t ∷ spare) g.task_pool
    pub timers : IsPool ids g.timer_id_pool

  give_id-Returns :
      (timer : Bool) (id : Ptr) (w : World)
      → IsPool ids w.timer_id_pool
      → Returns
          (λ _ g. (h : Handle) × IsPool ids h × (g ≡ record w { timer_id_pool = h }))
          ((if timer then (do _ ← on_timer_pool (fixed_push_r posix m2 id); ok tt) else ok tt) w)
  give_id-Returns false id w is = returns (w.timer_id_pool, is, refl)
  give_id-Returns true id w (xs, is) =
      chain (push_timer-Returns posix m2 held2 granted2 ids xs w id is)
        λ _ g (h, is', e). returns (h, is', e)

  destroy_task-Destroyed :
      (t q : Ptr) (spare : List Ptr) (w : World)
      → t ≢ null
      → w.next t ≡ some q
      → Holds cap spare w.task_pool
      → length spare < cap
      → IsPool ids w.timer_id_pool
      → Returns (λ _ g. Destroyed t spare w g) (destroy_task posix m1 m2 t w)
  unfolding destroy_task
  destroy_task-Destroyed t q spare w ne there is room timers =
      let stored : (cap - length spare - 1 == stack_error_full) ≡ false =
        ground (arith, small, room) in
      rw (==-ne t null ne, task_of-ok w t q ne there)
        (chain (give_id-Returns (is_timer_id (w.task t).fd) (ptr_of_fd (w.task t).fd) w timers)
          λ _ g (ih, ids_is, e). rw e (
            chain
              (push_task-Returns posix m1 held1 granted1 cap spare (record w { timer_id_pool = ih })
                t is room)
              λ r g' (h, (answer, held), e').
                rw (answer, e', stored, store-ok w.next t q ne there null)
                  (returns (record { links = refl; tasks = refl; pool = held; timers = ids_is }))))

  -- The world behind `clear_behind`'s step past `x`.
  module _ (p x : Ptr) (xs spare : List Ptr) (w g : World) (l : IsLinked w.next (p ∷ x ∷ xs) null)
      (d : IsDistinct (p ∷ x ∷ xs)) (done : Destroyed x spare w g) where
    abbrev relinked : World
    relinked = record g { next = put g.next p (first xs null) }

    p_ne_x : p ≢ x
    p_ne_x e = has-ne x p (x ∷ xs) (rw (==_refl x) refl) d.0 (sym e)

    old_link : g.next p ≡ some x
    old_link = ap (λ f. f p) done.links ∙ put_ne w.next x null p p_ne_x ∙ l.1

    same_link : (a : Ptr) → has a (p ∷ x ∷ []) ≡ false → relinked.next a ≡ w.next a
    same_link a o =
        put_ne g.next p (first xs null) a (ground (arith, o))
        ∙ ap (λ f. f a) done.links
        ∙ put_ne w.next x null a (ground (arith, o))

    same_task : (a : Ptr) → a ≢ x → relinked.task a ≡ w.task a
    same_task a ne = ap (λ f. f a) done.tasks ∙ rw (==-ne a x ne)

    relinked-IsLinked : IsLinked relinked.next (p ∷ xs) null
    relinked-IsLinked = (
      l.0,
      put_self g.next p (first xs null),
      frame xs null l.2.2 λ a i. same_link a (ground (arith, d)),
    )

    -- The tasks ahead are as they were.
    same_ahead : (a : Ptr) → has a xs ≡ true → relinked.task a ≡ w.task a
    same_ahead a i = same_task a (has-ne a x xs i d.1.0)

    relinked-Trimmed :
        (gone left : List Ptr) (g' : World)
        → Trimmed cap ids p xs gone left (x ∷ spare) relinked g'
        → Trimmed cap ids p (x ∷ xs) (x ∷ gone) left spare w g'
    relinked-Trimmed gone left g' t = record {
      linked = t.linked;
      outside = λ a o. t.outside a (ground (arith, o)) ∙ same_link a (ground (arith, o));
      tasks = λ a o. t.tasks a (ground (arith, o)) ∙ same_task a (ground (arith, o));
      pool = t.pool;
      timers = t.timers;
    }

  pub clear_behind-Trimmed :
      (fuel : ℕ) (p : Ptr) (xs spare : List Ptr) (w : World)
      → IsLinked w.next (p ∷ xs) null
      → IsDistinct (p ∷ xs)
      → Holds cap spare w.task_pool
      → length spare + length xs ≤ cap
      → IsPool ids w.timer_id_pool
      → length xs < fuel
      → let goes = λ (a : Ptr). is_removable (w.task a) in
        Returns
          (λ _ g. Trimmed cap ids p xs (take_while goes xs) (drop_while goes xs) spare w g)
          (clear_behind posix m1 m2 fuel p w)
  unfolding clear_behind
  clear_behind-Trimmed zero p xs spare w l d is room timers h = absurd (omega arith)
  clear_behind-Trimmed (suc fuel) p [] spare w l d is room timers h =
      rw (load-ok w.next p null l.0 l.1) (
        returns (record {
          linked = l;
          outside = λ a o. refl;
          tasks = λ a o. refl;
          pool = is;
          timers = timers;
        }))
  clear_behind-Trimmed (suc fuel) p (x ∷ xs) spare w l d is room timers h =
      let q = first xs null in
      elim (Bool-cases (is_removable (w.task x))) [
        | inl e ↦
            rw
              (
                load-ok w.next p x l.0 l.1,
                ==-ne x null l.2.0,
                task_of-ok w x q l.2.0 l.2.1,
                e,
                load-ok w.next x q l.2.0 l.2.1,
              )
              (chain
                (destroy_task-Destroyed x q spare w l.2.0 l.2.1 is (omega (arith, room)) timers)
                λ _ g done.
                  let u = relinked p x xs spare w g l d done in
                  let (ts, ds) =
                    while_same (λ a. is_removable (u.task a)) (λ a. is_removable (w.task a)) xs
                      λ a i. ap is_removable (same_ahead p x xs spare w g l d done a i) in
                  rw (store-ok g.next p x l.0 (old_link p x xs spare w g l d done) q) (
                    weaken
                      (clear_behind-Trimmed fuel p xs (x ∷ spare) u
                        (relinked-IsLinked p x xs spare w g l d done) (ground (arith, d.0), d.1.1)
                        done.pool (omega (arith, room)) done.timers (omega (arith, h)))
                      λ _ g' t.
                        relinked-Trimmed p x xs spare w g l d done _ _ g' (rw (ts, ds) at t)))
        | inr e ↦
            rw (load-ok w.next p x l.0 l.1, ==-ne x null l.2.0, task_of-ok w x q l.2.0 l.2.1, e)
              (returns (record {
                linked = l;
                outside = λ a o. refl;
                tasks = λ a o. refl;
                pool = is;
                timers = timers;
              }))
      ]
