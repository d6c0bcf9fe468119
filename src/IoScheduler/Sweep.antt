-- ===== src/IoScheduler/Sweep.antt =====
-- The first loop of the pump as a whole: exactly the tasks that were asked to go are gone, and the
-- descriptors of the others are watched.
use mathlib.Core.Path.{subst}
use common_utils_lib.Base.{
  ℕ, zero, suc, ◌+◌, ◌<◌, ◌≤◌, ◌≡◌, refl, ap, sym, ◌∙◌, true, false, some, List, [], ◌∷◌, ◌++◌,
  arith, ==-ne, ==_refl, length, Bool-cases, inl, inr,
}
use common_utils_lib.Base.Int.{ℤ}
use common_utils_lib.Machine.{Ptr, null}
use common_utils_lib.Machine.Mutex.{Pthread}
use common_utils_lib.Machine.Returns.{Returns, returns, weaken, chain}
use common_utils_lib.Chain.{has, has-append, first, IsDistinct, IsLinked}
use common_utils_lib.Chain.Walk.{take_while, drop_while}
use common_utils_lib.Slist.Shape.{IsList, load-ok}
use common_utils_lib.Stack.{stack_error_full}
use common_utils_lib.Stack.Fixed.Inv.{Holds}
use common_utils_lib.IoScheduler.{World, Task}
use common_utils_lib.IoScheduler.Process.{Sets}
use common_utils_lib.IoScheduler.Pump.{scan, sweep}
use common_utils_lib.IoScheduler.Watched.{
  IsWatchable, Watched, joined, watch-ok, watch_all, watch_all_same, watch_all-Watched,
}
use common_utils_lib.IoScheduler.Pools.{IsPool}
use common_utils_lib.IoScheduler.Clock.{task_of-ok}
use common_utils_lib.IoScheduler.Clear.{Trimmed, clear_behind-Trimmed}
use common_utils_lib.IoScheduler.Removal.{
  is_removable, kept, removed, push_all, kept_same, kept-drop_while, push_all-append,
  length-push_all, has-kept, has-drop_while, not_has_sub, IsDistinct-kept, IsDistinct-drop_while,
  not_has-take_while, length-while,
}

-- The first task, if there is one, stays.
abbrev HeadStays : (Ptr → Task) → List Ptr → Type 0
HeadStays task [] = Unit
HeadStays task (t ∷ ts) = is_removable (task t) ≡ false

drop_while-HeadStays :
    (task : Ptr → Task) (xs : List Ptr)
    → HeadStays task (drop_while (λ a. is_removable (task a)) xs)
drop_while-HeadStays task [] = tt
drop_while-HeadStays task (x ∷ xs) = elim (Bool-cases (is_removable (task x))) [
  | inl e ↦ rw e (drop_while-HeadStays task xs)
  | inr e ↦ rw e e
]

HeadStays-kept :
    (task task' : Ptr → Task) (xs : List Ptr)
    → ((a : Ptr) → has a xs ≡ true → task' a ≡ task a)
    → HeadStays task xs
    → HeadStays task' xs
HeadStays-kept task task' [] same h = tt
HeadStays-kept task task' (x ∷ xs) same h = ap is_removable (same x (rw (==_refl x) refl)) ∙ h

outside_sub :
    (p a : Ptr) (left xs : List Ptr)
    → ((b : Ptr) → has b left ≡ true → has b xs ≡ true)
    → has a (p ∷ xs) ≡ false
    → has a (p ∷ left) ≡ false
outside_sub p a left xs sub o = ground (arith, o, not_has_sub a left xs sub (ground (arith, o)))

module _ (cap ids : ℕ) where
  -- What the loop leaves behind `p`, and what it has seen.
  abbrev Swept : Ptr → List Ptr → List Ptr → World → ℤ × Sets → ℤ × Sets → World → Type 0
  Swept p xs spare w seen seen' g =
      (seen' ≡ watch_all w.task (kept w.task xs) seen)
      × Trimmed cap ids p xs (removed w.task xs) (kept w.task xs) spare w g

  -- A round behind `y`, as a round behind the node `p` in front of it.
  Trimmed-step :
      (p y : Ptr) (ys gone left spare : List Ptr) (w g : World)
      → IsLinked w.next (p ∷ y ∷ ys) null
      → has p (y ∷ ys) ≡ false
      → Trimmed cap ids y ys gone left spare w g
      → Trimmed cap ids p (y ∷ ys) gone (y ∷ left) spare w g
  Trimmed-step p y ys gone left spare w g l o t = record {
    linked = (l.0, t.outside p o ∙ l.1, t.linked);
    outside = λ a i. t.outside a (ground (arith, i));
    tasks = t.tasks;
    pool = t.pool;
    timers = t.timers;
  }

  -- Two rounds behind the same node.
  Trimmed-chain :
      (p : Ptr) (xs gone left gone' left' spare : List Ptr) (w g g' : World)
      → ((a : Ptr) → has a left ≡ true → has a xs ≡ true)
      → Trimmed cap ids p xs gone left spare w g
      → Trimmed cap ids p left gone' left' (push_all gone spare) g g'
      → Trimmed cap ids p xs (gone ++ gone') left' spare w g'
  Trimmed-chain p xs gone left gone' left' spare w g g' sub t t' = record {
    linked = t'.linked;
    outside = λ a i. t'.outside a (outside_sub p a left xs sub i) ∙ t.outside a i;
    tasks = λ a i.
        t'.tasks a (ground (arith, i, has-append a gone gone'))
        ∙ t.tasks a (ground (arith, i, has-append a gone gone'));
    pool = subst (λ q. Holds cap q g'.task_pool) (sym (push_all-append gone gone' spare)) t'.pool;
    timers = t'.timers;
  }

module _ (posix : Pthread) (m1 m2 held1 held2 : posix.Mutex) (granted1 : posix.lock m1 ≡ some held1)
    (granted2 : posix.lock m2 ≡ some held2) (cap ids : ℕ) (small : cap ≤ stack_error_full)
    (fd_setsize : ℕ) where
  -- The descriptors on which tasks of the list wait fit in a set.
  abbrev AllWatchable : (Ptr → Task) → List Ptr → Type 0
  AllWatchable task ts = (t : Ptr) → has t ts ≡ true → IsWatchable fd_setsize (task t)

  -- The loop from any node, with this much fuel.
  abbrev Sweeps : ℕ → Type 0
  Sweeps fuel =
      (p : Ptr) (xs spare : List Ptr) (seen : ℤ × Sets) (w : World)
      → IsLinked w.next (p ∷ xs) null
      → IsDistinct (p ∷ xs)
      → Holds cap spare w.task_pool
      → length spare + length xs ≤ cap
      → IsPool ids w.timer_id_pool
      → AllWatchable w.task (kept w.task xs)
      → length xs < fuel
      → Returns (λ seen' g. Swept cap ids p xs spare w seen seen' g)
          (sweep posix m1 m2 fd_setsize fuel p seen w)

  -- The loop behind the tasks that have been cleared.
  scan-Swept :
      (fuel : ℕ) (p : Ptr) (ys spare : List Ptr) (seen : ℤ × Sets) (w : World)
      → ((f : ℕ) → fuel ≡ suc f → Sweeps f)
      → IsLinked w.next (p ∷ ys) null
      → IsDistinct (p ∷ ys)
      → HeadStays w.task ys
      → Holds cap spare w.task_pool
      → length spare + length ys ≤ cap
      → IsPool ids w.timer_id_pool
      → AllWatchable w.task (kept w.task ys)
      → length ys < fuel
      → Returns
          (λ seen' g. Swept cap ids p ys spare w seen seen' g)
          (scan posix m1 m2 fd_setsize fuel (first ys null) seen w)
  unfolding scan sweep
  scan-Swept zero p ys spare seen w ih l d stays is room timers all h = absurd (omega arith)
  scan-Swept (suc fuel) p [] spare seen w ih l d stays is room timers all h = returns (
    refl,
    record { linked = l; outside = λ a o. refl; tasks = λ a o. refl; pool = is; timers = timers },
  )
  scan-Swept (suc fuel) p (y ∷ ys) spare seen w ih l d stays is room timers all h =
      let y_fits : IsWatchable fd_setsize (w.task y) = all y (rw (stays, ==_refl y) refl) in
      let rest_fit : AllWatchable w.task (kept w.task ys) =
        λ a i. all a (rw stays (ground (arith, i))) in
      rw
        (
          ==-ne y null l.2.0,
          task_of-ok w y (first ys null) l.2.0 l.2.1,
          watch-ok fd_setsize (w.task y) seen w y_fits,
          stays,
        )
        (weaken
          (ih fuel refl y ys spare (joined (w.task y) seen) w l.2 d.1 is (omega (arith, room))
            timers rest_fit (omega (arith, h)))
          λ seen' g (e, t). (e, Trimmed-step cap ids p y ys _ _ spare w g l d.0 t))

  sweep-Swept : (fuel : ℕ) → Sweeps fuel
  unfolding sweep
  sweep-Swept zero p xs spare seen w l d is room timers all h = absurd (omega (arith, h))
  sweep-Swept (suc fuel) p xs spare seen w l d is room timers all h =
      let goes = λ (a : Ptr). is_removable (w.task a) in
      let gone = take_while goes xs in
      let left = drop_while goes xs in
      let sub : (a : Ptr) → has a left ≡ true → has a xs ≡ true =
        λ a i. has-drop_while goes a xs i in
      let parts = length-while goes xs in
      let (ks, rs) = kept-drop_while w.task xs in
      chain
        (clear_behind-Trimmed posix m1 m2 held1 held2 granted1 granted2 cap ids small (suc fuel) p
          xs spare w l d is room timers h)
        λ _ g t.
          let same_left : (a : Ptr) → has a left ≡ true → g.task a ≡ w.task a =
            λ a i. t.tasks a (not_has-take_while goes a xs d.1 i) in
          let (ks', rs') = kept_same g.task w.task left same_left in
          rw (load-ok g.next p (first left null) t.linked.0 t.linked.1) (
            weaken
              (scan-Swept (suc fuel) p left (push_all gone spare) seen g
                (λ f e. subst Sweeps (omega (arith, e)) (sweep-Swept fuel)) t.linked
                (not_has_sub p left xs sub d.0, IsDistinct-drop_while goes xs d.1)
                (HeadStays-kept w.task g.task left same_left (drop_while-HeadStays w.task xs))
                t.pool (omega (arith, room, parts, length-push_all gone spare)) t.timers
                (λ a i.
                  subst (IsWatchable fd_setsize) (sym (same_left a (has-kept g.task a left i)))
                    (all a (subst (λ zs. has a zs ≡ true) (ks' ∙ sym ks) i)))
                (omega (arith, h, parts)))
              λ seen' g' (e, t'). (
                e
                    ∙ watch_all_same g.task w.task (kept g.task left) seen
                        (λ a i. same_left a (has-kept g.task a left i))
                    ∙ ap (λ z. watch_all w.task z seen) (ks' ∙ sym ks),
                rw (ks, rs, ← ks', ← rs')
                    (Trimmed-chain cap ids p xs gone left _ _ spare w g g' sub t t'),
              ))

  -- On a well-formed task list, when the locks are granted, with a pool of fewer than 2^32 tasks
  -- that has room for the tasks of the list and a well-formed pool of timer ids, with descriptors
  -- from 0 to below FD_SETSIZE for the tasks that stay and wait on one, and with more rounds than
  -- tasks, the first loop of the pump leaves the list with exactly the tasks, in their order, that
  -- were not asked to be removed or have the descriptor -1, gives the others back to the pool, and
  -- leaves the tasks that stay as they were. A descriptor is in the read, write or error set just
  -- if it was in it or a task that stays asks for it there, and `maxfd` is the largest of what it
  -- was and of the descriptors on which a task that stays waits.
  pub sweep-kept :
      (fuel : ℕ) (scheduler : Ptr) (xs spare : List Ptr) (seen : ℤ × Sets) (w : World)
      → IsList w.next scheduler xs
      → Holds cap spare w.task_pool
      → length spare + length xs ≤ cap
      → IsPool ids w.timer_id_pool
      → ((t : Ptr) → has t (kept w.task xs) ≡ true → IsWatchable fd_setsize (w.task t))
      → length xs < fuel
      → Returns
          (λ seen' g.
            Watched w.task (kept w.task xs) seen seen'
            × IsList g.next scheduler (kept w.task xs)
            × Holds cap (push_all (removed w.task xs) spare) g.task_pool
            × ((a : Ptr) → has a (removed w.task xs) ≡ false → g.task a ≡ w.task a))
          (sweep posix m1 m2 fd_setsize fuel scheduler seen w)
  sweep-kept fuel scheduler xs spare seen w list is room timers all h =
      weaken
        (sweep-Swept fuel scheduler xs spare seen w list.linked list.distinct is room timers all h)
        λ seen' g (e, t). (
          subst (Watched w.task (kept w.task xs) seen) (sym e)
              (watch_all-Watched w.task (kept w.task xs) seen),
          record {
            linked = t.linked;
            distinct = (
              not_has_sub scheduler (kept w.task xs) xs (λ a i. has-kept w.task a xs i)
                  list.distinct.0,
              IsDistinct-kept w.task xs list.distinct.1,
            );
          },
          t.pool,
          t.tasks,
        )
