-- ===== src/ChildProcessMgr/Reap.antt =====
-- on_monitor_timer: what the manager does about the children that have ended.
use mathlib.Core.List.{append_assoc, append-nil}
use common_utils_lib.Base.{
  ℕ, zero, suc, ◌<◌, ◌≤◌, ◌≡◌, refl, ap, sym, ◌∙◌, Bool, true, false, Option, List, [], ◌∷◌, ◌++◌,
  arith, if◌then◌else◌, Bool-cases, inl, inr, length,
}
use common_utils_lib.Base.Int.{ℤ, pos}
use common_utils_lib.Machine.{Ptr, ok}
use common_utils_lib.Chain.{has}
use common_utils_lib.Machine.Returns.{Returns, returns, chain, weaken}
use common_utils_lib.IoScheduler.{same}
use common_utils_lib.ChildProcessMgr.{World, Child, Exit, is_proper, is_positive, waitpid, answer}
use common_utils_lib.ChildProcessMgr.Manage.{timer_loop, on_monitor_timer}
use common_utils_lib.ChildProcessMgr.Loops.{
  Watched, monitors, IsManager, lookup, WatchesAll-frame, without,
}
use common_utils_lib.ChildProcessMgr.Dismiss.{called, freed, child_ended-Ended, AreFreed}

-- The answers of `waitpid` in order: which processes are left in the list, which callbacks are
-- called, which processes are not freed, and which answers are not asked for.
unfoldable pub remaining : List (ℤ × ℕ) → List Watched → List Watched
remaining [] vs = vs
remaining ((pid, status) ∷ es) vs = if is_positive pid then remaining es (without pid vs) else vs

unfoldable pub callbacks : List (ℤ × ℕ) → List Watched → List Exit
callbacks [] vs = []
callbacks ((pid, status) ∷ es) vs =
    if is_positive pid then called (lookup pid vs) status ++ callbacks es (without pid vs) else []

unfoldable pub not_freed : List (ℤ × ℕ) → List Watched → (Ptr → Option Child) → Ptr → Option Child
not_freed [] vs procs = procs
not_freed ((pid, status) ∷ es) vs procs =
    if is_positive pid then not_freed es (without pid vs) (freed (lookup pid vs) procs) else procs

unfoldable pub unread : List (ℤ × ℕ) → List (ℤ × ℕ)
unread [] = []
unread ((pid, status) ∷ es) = if is_positive pid then unread es else es

-- The ids that `waitpid` gives are above 1, the id of the first process.
abbrev pub IsChildren : List (ℤ × ℕ) → Type 0
IsChildren [] = Unit
IsChildren (e ∷ es) = (is_positive e.0 ≡ true → is_proper e.0 ≡ true) × IsChildren es

-- What on_monitor_timer leaves.
pub record Reaped (w g : World) (es : List (ℤ × ℕ)) (vs : List Watched) : Type 0 where
  pub monitors_freed : AreFreed w g vs (remaining es vs)
  pub manager : IsManager g (remaining es vs)
  pub events : g.events ≡ w.events ++ callbacks es vs
  pub procs : g.procs ≡ not_freed es vs w.procs
  pub exits : g.exits ≡ unread es

AreFreed-refl : (w g : World) (vs : List Watched) → g.links ≡ w.links → AreFreed w g vs vs
AreFreed-refl w g vs e = record {
  gone = λ a i o. absurd (ground (arith, i, o));
  unallocated = λ a u. ap (λ l. l.next a) e ∙ u;
}

AreFreed-trans :
    (w g k : World) (us vs xs : List Watched)
    → AreFreed w g us vs
    → AreFreed g k vs xs
    → AreFreed w k us xs
AreFreed-trans w g k us vs xs one more = record {
  gone = λ a i o. elim (Bool-cases (has a (monitors vs))) [
    | inl y ↦ more.gone a y o
    | inr y ↦ more.unallocated a (one.gone a i y)
  ];
  unallocated = λ a u. more.unallocated a (one.unallocated a u);
}

length-without : (pid : ℤ) (vs : List Watched) → length (without pid vs) ≤ length vs
length-without pid [] = omega arith
length-without pid (v ∷ vs) = elim (Bool-cases (same v.info.pid pid)) [
  | inl s ↦ rw s (omega arith)
  | inr s ↦ rw s (omega (arith, length-without pid vs))
]

waitpid-none : (w : World) → w.exits ≡ [] → waitpid w ≡ ok (pos 0, 0) w
unfolding waitpid
waitpid-none w e = ap (λ t. answer t w) e

waitpid-next :
    (w : World) (e : ℤ × ℕ) (es : List (ℤ × ℕ))
    → w.exits ≡ e ∷ es
    → waitpid w ≡ ok e (record w { exits = es })
unfolding waitpid
waitpid-next w e es eq = ap (λ t. answer t w) eq

timer_loop-Reaped :
    (ndebug : Bool) (fuel rounds : ℕ) (w : World) (es : List (ℤ × ℕ)) (vs : List Watched)
    → w.exits ≡ es
    → IsChildren es
    → IsManager w vs
    → length vs < fuel
    → length es < rounds
    → Returns (λ _ g. Reaped w g es vs) (timer_loop ndebug rounds fuel w)
unfolding timer_loop remaining callbacks not_freed unread
timer_loop-Reaped ndebug fuel zero w es vs is_exits c is b r = absurd (omega arith)
timer_loop-Reaped ndebug fuel (suc rounds) w [] vs is_exits c is b r =
    rw (waitpid-none w is_exits) (
      returns (record {
        monitors_freed = AreFreed-refl w w vs refl;
        manager = is;
        events = sym (append-nil w.events);
        procs = refl;
        exits = is_exits;
      }))
timer_loop-Reaped ndebug fuel (suc rounds) w ((pid, status) ∷ es) vs is_exits c is b r =
    let w1 : World = record w { exits = es } in
    let is1 : IsManager w1 vs = record {
      ring = is.ring;
      watched = WatchesAll-frame w w1 vs is.watched (λ a i. (refl, refl)) (λ a i. refl);
      unique = is.unique;
    } in
    elim (Bool-cases (is_positive pid)) [
      | inl e ↦
          rw (waitpid-next w (pid, status) es is_exits, e)
            (chain (child_ended-Ended ndebug w1 vs pid status fuel is1 (c.0 e) b) λ _ g ended.
              weaken
                (timer_loop-Reaped ndebug fuel rounds g es (without pid vs) ended.exits c.1
                  ended.manager (omega (arith, length-without pid vs)) (omega arith))
                λ _ g' more. record {
                  monitors_freed = rw e (
                      AreFreed-trans w g g' vs (without pid vs) (remaining es (without pid vs))
                        (record {
                          gone = ended.monitors_freed.gone;
                          unallocated = ended.monitors_freed.unallocated;
                        })
                        more.monitors_freed);
                  manager = rw e more.manager;
                  events = rw e (
                      more.events
                      ∙ ap (λ t. t ++ callbacks es (without pid vs)) ended.events
                      ∙ append_assoc w.events (called (lookup pid vs) status)
                          (callbacks es (without pid vs)));
                  procs = rw e (more.procs ∙ ap (not_freed es (without pid vs)) ended.procs);
                  exits = rw e more.exits;
                })
      | inr e ↦
          rw (waitpid-next w (pid, status) es is_exits, e)
            (returns (record {
              monitors_freed = rw e (AreFreed-refl w w1 vs refl);
              manager = rw e is1;
              events = rw e (sym (append-nil w.events));
              procs = rw e;
              exits = rw e;
            }))
    ]

-- With more rounds than answers of `waitpid` and more than monitors, however the library is built,
-- and if no answer is the process 1, `on_monitor_timer` comes to an end and asks to be called
-- again. It takes the answers up to the first that is no process: the monitors of those processes
-- leave the ring and their memory is freed, the others stay in order; the callbacks of those processes are
-- called in the order of the answers; and of the processes, just those that the manager owns are
-- freed.
pub on_monitor_timer-Reaped :
    (ndebug : Bool) (fuel rounds : ℕ) (w : World) (vs : List Watched)
    → IsManager w vs
    → IsChildren w.exits
    → length vs < fuel
    → length w.exits < rounds
    → Returns
        (λ again g. (again ≡ false) × Reaped w g w.exits vs)
        (on_monitor_timer ndebug rounds fuel w)
unfolding on_monitor_timer
on_monitor_timer-Reaped ndebug fuel rounds w vs is c b r =
    chain (timer_loop-Reaped ndebug fuel rounds w w.exits vs refl c is b r)
      λ _ g reaped. returns (refl, reaped)
