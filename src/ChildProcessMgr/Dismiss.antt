-- ===== src/ChildProcessMgr/Dismiss.antt =====
-- What on_monitor_timer does about one child that has ended.
use mathlib.Core.Path.{subst}
use mathlib.Core.List.{append-nil}
use common_utils_lib.Base.{
  ℕ, ◌<◌, ◌≡◌, refl, ap, sym, ◌∙◌, ◌≢◌, Bool, true, false, Option, none, some, List, [], ◌∷◌, ◌++◌,
  arith, ==-ne, ==_refl, if◌then◌else◌, Bool-cases, Option-cases, inl, inr, length, ◌==◌,
}
use common_utils_lib.Base.Int.{ℤ}
use common_utils_lib.Machine.{Ptr, null, ok}
use common_utils_lib.Machine.Returns.{Returns, returns}
use common_utils_lib.Chain.{put, has, first, has-append, has-ne, put_ne, put_self, ne_null_of_has}
use common_utils_lib.Chain.Walk.{append_after, split_last}
use common_utils_lib.Clist.{Nodes}
use common_utils_lib.Clist.Ring.{IsRing, next-in_ring}
use common_utils_lib.Clist.Insert.{next_of-ok, prev_of-ok, set_next-ok, set_prev-ok}
use common_utils_lib.Clist.Unlink.{at_p, at_n, p_ne_n, q_ne_n, Skips-IsRing}
use common_utils_lib.Stack.Free.{give_back}
use common_utils_lib.ChildProcessMgr.{
  World, Child, Exit, store, is_proper, set_events, skip, child_proc_destroy,
  monitored_proc_destroy, find_monitored_proc,
}
use common_utils_lib.ChildProcessMgr.Manage.{child_ended}
use common_utils_lib.ChildProcessMgr.Loops.{
  Watched, monitors, processes, has_pid, Watches, IsManager, lookup, monitor_or, child_of-ok,
  proc_of-ok, find_from_head-lookup, WatchesAll-frame, without, lookup-without, lookup-watched,
  monitor-at, watched-at, monitors-split, monitors-append, store_ne,
}
use common_utils_lib.ChildProcessMgr.Without.{
  WatchesAll-without, IsUnique-without, process-absent, lookup-pid, without-absent,
}

-- The callback of the process, if there is a process and it has one.
abbrev pub called : Option Watched → ℕ → List Exit
called none status = []
called (some v) status =
    if v.info.on_exit == null
    then []
    else record { callback = v.info.on_exit; child = v.process; status = status } ∷ []

-- The processes that are left: the manager frees those that it owns.
abbrev pub freed : Option Watched → (Ptr → Option Child) → Ptr → Option Child
freed none procs = procs
freed (some v) procs = if v.is_owned then store procs v.process none else procs

module _ (h : Nodes) (x : Ptr) (xs : List Ptr) (r : IsRing h x xs) (front : List Ptr) (p n : Ptr)
    (back : List Ptr) (split : x ∷ xs ≡ front ++ p ∷ n ∷ back) (ys : List Ptr)
    (joined : front ++ p ∷ back ≡ x ∷ ys) where
  -- What the two writes leave.
  abbrev pub skipped : Nodes
  skipped = record { next = put h.next p (first back x); prev = put h.prev (first back x) p }

  p_n : p ≢ n
  p_n = p_ne_n h x xs r front p n back split ys joined

  q_n : first back x ≢ n
  q_n = q_ne_n h x xs r front p n back split ys joined

  pub skip-ok : skip n h ≡ ok tt skipped
  unfolding skip
  skip-ok =
      let q = first back x in
      let p_at = at_p h x xs r front p n back split in
      let n_at = at_n h x xs r front p n back split in
      let n_p : n ≢ p = λ e. p_n (sym e) in
      let prev_n : h.prev n ≡ some p = r.back p n p_at.0 p_at.2 in
      let prev_q : h.prev q ≡ some n = r.back n q n_at.0 n_at.2 in
      let qz : q ≢ null =
        ne_null_of_has h.next (x ∷ xs) x q r.forward (next-in_ring n q r n_at.0 n_at.2) in
      let h1 : Nodes = record h { next = put h.next p q } in
      rw (
        prev_of-ok h n p n_at.1 prev_n,
        next_of-ok h n q n_at.1 n_at.2,
        set_next-ok h p n p_at.1 q p_at.2,
        next_of-ok h1 n q n_at.1 (put_ne h.next p q n n_p ∙ n_at.2),
        prev_of-ok h1 n p n_at.1 prev_n,
        set_prev-ok h1 q n qz p prev_q,
      )

  -- With the node freed.
  pub skipped-IsRing :
      IsRing (record { next = give_back skipped.next n; prev = give_back skipped.prev n }) x ys
  skipped-IsRing = Skips-IsRing h x xs r front p n back split ys joined _ (record {
    onward = rw (==-ne p n p_n) (put_self h.next p (first back x));
    backward = rw (==-ne (first back x) n q_n) (put_self h.prev (first back x) p);
    rest_next = λ a o. ground arith;
    rest_prev = λ a o. ground arith;
  })

-- What the store of the manager is when the child has been dealt with.
abbrev pub dismissed : World → Watched → ℕ → Nodes → World
dismissed w v status h = record w {
  links = record { next = give_back h.next v.monitor; prev = give_back h.prev v.monitor };
  procs = freed (some v) w.procs;
  events = w.events ++ called (some v) status;
}

find_monitored_proc-lookup :
    (ndebug : Bool) (w : World) (vs : List Watched) (pid : ℤ) (fuel : ℕ)
    → IsManager w vs
    → is_proper pid ≡ true
    → length vs < fuel
    → find_monitored_proc ndebug fuel pid w ≡ ok (monitor_or null (lookup pid vs)) w
unfolding find_monitored_proc
find_monitored_proc-lookup ndebug w vs pid fuel is proper b = elim (Option-cases (lookup pid vs)) [
  | inl e ↦ rw (
    proper,
    ==-ne w.head null is.ring.forward.0,
    find_from_head-lookup w vs pid (ok pid) fuel refl is b,
    e,
    ==_refl w.head,
  )
  | inr (v, e) ↦ rw (
    proper,
    ==-ne w.head null is.ring.forward.0,
    find_from_head-lookup w vs pid (ok pid) fuel refl is b,
    e,
    ==-ne v.monitor w.head (lookup-watched w vs is pid v e).0,
  )
]

call_back-ok :
    (w : World) (v : Watched) (status : ℕ)
    → (if v.info.on_exit == null then ok tt else (λ s.
          set_events
            (s.events
              ++ record { callback = v.info.on_exit; child = v.process; status = status } ∷ [])
            s))
        w
      ≡ ok tt (record w { events = w.events ++ called (some v) status })
call_back-ok w v status = elim (Bool-cases (v.info.on_exit == null)) [
  | inl e ↦ rw (e, append-nil w.events) refl
  | inr e ↦ rw e refl
]

destroy_proc-ok :
    (w : World) (v : Watched)
    → v.process ≢ null
    → (if v.is_owned then child_proc_destroy v.process else ok tt) w
      ≡ ok tt (record w { procs = freed (some v) w.procs })
unfolding child_proc_destroy
destroy_proc-ok w v nz = elim (Bool-cases v.is_owned) [
  | inl e ↦ rw (e, ==-ne v.process null nz) refl
  | inr e ↦ rw e refl
]

pub monitored_proc_destroy-ok :
    (ndebug : Bool) (w : World) (v : Watched) (q : Ptr)
    → v.monitor ≢ null
    → w.links.next v.monitor ≡ some q
    → Watches w v
    → monitored_proc_destroy ndebug v.monitor w
      ≡ ok tt (record w {
        links = record {
          next = give_back w.links.next v.monitor;
          prev = give_back w.links.prev v.monitor;
        };
        procs = freed (some v) w.procs;
      })
unfolding monitored_proc_destroy
monitored_proc_destroy-ok ndebug w v q nz e is = rw (
  ==-ne v.monitor null nz,
  child_of-ok w v.monitor q nz e,
  is.child,
  is.owned,
  destroy_proc-ok w v is.ne,
)

child_ended-unknown :
    (ndebug : Bool) (w : World) (vs : List Watched) (pid : ℤ) (status fuel : ℕ)
    → IsManager w vs
    → is_proper pid ≡ true
    → length vs < fuel
    → lookup pid vs ≡ none
    → child_ended ndebug fuel pid status w ≡ ok tt w
unfolding child_ended
child_ended-unknown ndebug w vs pid status fuel is proper b e =
    rw (find_monitored_proc-lookup ndebug w vs pid fuel is proper b, e)

pub freed-other :
    (v : Watched) (procs : Ptr → Option Child) (a : Ptr)
    → a ≢ v.process
    → freed (some v) procs a ≡ procs a
freed-other v procs a ne = elim (Bool-cases v.is_owned) [
  | inl e ↦ rw e (store_ne procs v.process none a ne)
  | inr e ↦ rw e refl
]

-- The monitors that are in `us` and not in `vs` are freed, and no memory is allocated.
pub record AreFreed (w g : World) (us vs : List Watched) : Type 0 where
  pub gone :
      (a : Ptr) → has a (monitors us) ≡ true → has a (monitors vs) ≡ false → g.links.next a ≡ none
  pub unallocated : (a : Ptr) → w.links.next a ≡ none → g.links.next a ≡ none

monitors-without :
    (front back : List Watched) (v : Watched) (a : Ptr)
    → has a (monitors (front ++ v ∷ back)) ≡ true
    → has a (monitors (front ++ back)) ≡ false
    → a ≡ v.monitor
monitors-without front back v a i o =
    let i' : has a (monitors front ++ v.monitor ∷ monitors back) ≡ true =
      subst (λ t. has a t ≡ true) (monitors-append front (v ∷ back)) i in
    let o' : has a (monitors front ++ monitors back) ≡ false =
      subst (λ t. has a t ≡ false) (monitors-append front back) o in
    ground (
      arith,
      i',
      o',
      has-append a (monitors front) (v.monitor ∷ monitors back),
      has-append a (monitors front) (monitors back),
    )

module _ (ndebug : Bool) (w : World) (vs : List Watched) (is : IsManager w vs) (pid : ℤ)
    (status fuel : ℕ) (proper : is_proper pid ≡ true) (b : length vs < fuel) (v : Watched)
    (found : lookup pid vs ≡ some v) (front back : List Watched) (split : vs ≡ front ++ v ∷ back)
    (pf : List Ptr) (p : Ptr) (last : w.head ∷ monitors front ≡ pf ++ p ∷ []) where
  abbrev n : Ptr
  n = v.monitor

  at_split : w.head ∷ monitors vs ≡ pf ++ p ∷ n ∷ monitors back
  at_split =
      monitors-split w vs is front v back split
      ∙ sym (append_after pf p (w.head ∷ monitors front) (n ∷ monitors back) (sym last))

  at_joined : pf ++ p ∷ monitors back ≡ w.head ∷ monitors (front ++ back)
  at_joined =
      append_after pf p (w.head ∷ monitors front) (monitors back) (sym last)
      ∙ ap (λ t. w.head ∷ t) (sym (monitors-append front back))

  abbrev after : Nodes
  after =
      skipped w.links w.head (monitors vs) is.ring pf p n (monitors back) at_split
        (monitors (front ++ back)) at_joined

  child_ended-dismissed : child_ended ndebug fuel pid status w ≡ ok tt (dismissed w v status after)
  unfolding child_ended
  child_ended-dismissed =
      let q = first (monitors back) w.head in
      let at = monitor-at w vs is front v back split in
      let watched = watched-at w vs is front v back split in
      let p_ne =
        p_n w.links w.head (monitors vs) is.ring pf p n (monitors back) at_split
          (monitors (front ++ back)) at_joined in
      let next_n : after.next n ≡ some q = put_ne w.links.next p q n (λ e. p_ne (sym e)) ∙ at.2 in
      let w1 : World = record w { links = after } in
      let w2 : World = record w1 { events = w.events ++ called (some v) status } in
      rw (
        find_monitored_proc-lookup ndebug w vs pid fuel is proper b,
        found,
        ==-ne n null at.0,
        skip-ok w.links w.head (monitors vs) is.ring pf p n (monitors back) at_split
            (monitors (front ++ back)) at_joined,
        child_of-ok w1 n q at.0 next_n,
        watched.child,
        proc_of-ok w1 v.process v.info watched.proc,
        call_back-ok w1 v status,
        monitored_proc_destroy-ok ndebug w2 v q at.0 next_n (record {
          child = watched.child;
          owned = watched.owned;
          proc = watched.proc;
          ne = watched.ne;
        }),
      )

  -- The process is in no other place of the list.
  process-gone : has v.process (processes (without pid vs)) ≡ false
  process-gone =
      let watched = watched-at w vs is front v back split in
      process-absent w v.process v.info (without pid vs) (WatchesAll-without w pid vs is.watched)
        watched.proc
        (subst (λ t. has_pid t (without pid vs) ≡ false) (sym (lookup-pid pid vs v found))
          (IsUnique-without pid vs is.unique).1)

  dismissed-IsManager :
      without pid vs ≡ front ++ back → IsManager (dismissed w v status after) (without pid vs)
  dismissed-IsManager rest = record {
    ring =
        subst (λ us. IsRing (dismissed w v status after).links w.head (monitors us)) (sym rest)
          (skipped-IsRing w.links w.head (monitors vs) is.ring pf p n (monitors back) at_split
            (monitors (front ++ back)) at_joined);
    watched =
        WatchesAll-frame w _ (without pid vs) (WatchesAll-without w pid vs is.watched)
          (λ a i. (refl, refl))
          λ a i.
            freed-other v w.procs a
              (has-ne a v.process (processes (without pid vs)) i process-gone);
    unique = (IsUnique-without pid vs is.unique).0;
  }

  dismissed-AreFreed :
      without pid vs ≡ front ++ back → AreFreed w (dismissed w v status after) vs (without pid vs)
  dismissed-AreFreed rest = record {
    gone = λ a i o.
        let same : a ≡ n =
          monitors-without front back v a (subst (λ us. has a (monitors us) ≡ true) split i)
            (subst (λ us. has a (monitors us) ≡ false) rest o) in
        rw (same, ==_refl n) refl;
    unallocated = λ a e.
        let p_at = at_p w.links w.head (monitors vs) is.ring pf p n (monitors back) at_split in
        let ne : a ≢ p = λ same. cc (ap w.links.next same, e, p_at.2) in
        elim (Bool-cases (a == n)) [ inl y ↦ rw y refl | inr y ↦ rw (y, ==-ne a p ne, e) refl ];
  }

-- The call about one child that has ended.
pub record Ended (w g : World) (vs : List Watched) (pid : ℤ) (status : ℕ) : Type 0 where
  pub monitors_freed : AreFreed w g vs (without pid vs)
  pub manager : IsManager g (without pid vs)
  pub events : g.events ≡ w.events ++ called (lookup pid vs) status
  pub procs : g.procs ≡ freed (lookup pid vs) w.procs
  pub exits : g.exits ≡ w.exits

pub child_ended-Ended :
    (ndebug : Bool) (w : World) (vs : List Watched) (pid : ℤ) (status fuel : ℕ)
    → IsManager w vs
    → is_proper pid ≡ true
    → length vs < fuel
    → Returns (λ _ g. Ended w g vs pid status) (child_ended ndebug fuel pid status w)
child_ended-Ended ndebug w vs pid status fuel is proper b = elim (Option-cases (lookup pid vs)) [
  | inl e ↦ rw (child_ended-unknown ndebug w vs pid status fuel is proper b e) (
      returns (record {
        monitors_freed = record {
          gone = λ a i o. absurd (
              ground
                (arith, subst (λ us. has a (monitors us) ≡ false) (without-absent pid vs e) o, i));
          unallocated = λ a u. u;
        };
        manager = subst (IsManager w) (sym (without-absent pid vs e)) is;
        events = rw (e, append-nil w.events) refl;
        procs = rw e refl;
        exits = refl;
      }))
  | inr (v, e) ↦
      let (front, back, split, rest) = lookup-without pid vs v e in
      let (pf, p, last) = split_last w.head (monitors front) in
      rw
        (child_ended-dismissed ndebug w vs is pid status fuel proper b v e front back split pf p
          last)
        (returns (record {
          monitors_freed =
              dismissed-AreFreed ndebug w vs is pid status fuel proper b v e front back split pf p
                last rest;
          manager =
              dismissed-IsManager ndebug w vs is pid status fuel proper b v e front back split pf p
                last rest;
          events = rw e refl;
          procs = rw e refl;
          exits = refl;
        }))
]
