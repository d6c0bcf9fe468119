-- ===== src/ChildProcessMgr/Lifecycle.antt =====
-- child_proc_mgr_init and child_proc_mgr_destroy.
use common_utils_lib.Base.{
  ℕ, zero, suc, ◌<◌, ◌≡◌, refl, ap, sym, ◌∙◌, ◌≢◌, Bool, true, false, Option, none, some, List, [],
  ◌∷◌, arith, ==-ne, ==-eq, if_true, ==_refl, Bool-cases, inl, inr, length, ◌==◌,
}
use common_utils_lib.Machine.{Ptr, null, ok, Cmd}
use common_utils_lib.Machine.Returns.{Returns, returns, chain, weaken}
use common_utils_lib.Chain.{put, has, first, has-ne, put_ne, put_self, IsLinked, IsDistinct, frame}
use common_utils_lib.Clist.Insert.{next_of-ok, set_next-ok}
use common_utils_lib.Stack.Free.{give_back}
use common_utils_lib.ChildProcessMgr.{World, Child, init}
use common_utils_lib.ChildProcessMgr.Manage.{destroy, destroy_loop, stop}
use common_utils_lib.ChildProcessMgr.Loops.{
  Watched, monitors, processes, IsUnique, WatchesAll, IsManager, WatchesAll-frame,
}
use common_utils_lib.ChildProcessMgr.Without.{process-absent}
use common_utils_lib.ChildProcessMgr.Dismiss.{freed, freed-other, monitored_proc_destroy-ok}

-- With the manager and the head of its ring allocated, `child_proc_mgr_init` makes a manager that
-- watches nothing.
pub init-IsManager :
    (w : World) (address head_address : Ptr)
    → address ≢ null
    → head_address ≢ null
    → Returns (λ p g. (p ≡ address) × IsManager g []) (init address head_address w)
unfolding init
init-IsManager w address head_address a b =
    rw (==-ne address null a, ==-ne head_address null b)
      (returns (
        refl,
        record {
          ring = record {
            forward = (b, put_self w.links.next head_address head_address, tt);
            distinct = (refl, tt);
            back = λ p q i e. ground arith;
          };
          watched = tt;
          unique = tt;
        },
      ))

-- The processes that are left when every monitor has been freed.
unfoldable pub freed_all : List Watched → (Ptr → Option Child) → Ptr → Option Child
freed_all [] procs = procs
freed_all (v ∷ vs) procs = freed_all vs (freed (some v) procs)

-- The loop's invariant: the head points at the first monitor that is left.
record IsLeft (w : World) (vs : List Watched) : Type 0 where
  head_ne : w.head ≢ null
  head_next : w.links.next w.head ≡ some (first (monitors vs) w.head)
  linked : IsLinked w.links.next (monitors vs) w.head
  out : has w.head (monitors vs) ≡ false
  distinct : IsDistinct (monitors vs)
  watched : WatchesAll w vs
  unique : IsUnique vs

-- What the loop leaves.
record Freed (w g : World) (vs : List Watched) : Type 0 where
  head : g.head ≡ w.head
  gone : (a : Ptr) → has a (monitors vs) ≡ true → g.links.next a ≡ none
  rest : (a : Ptr) → w.links.next a ≡ none → g.links.next a ≡ none
  head_next : g.links.next w.head ≡ some w.head
  procs : g.procs ≡ freed_all vs w.procs

-- One round of the loop: the head points past the monitor, which is freed.
abbrev round : World → Watched → List Watched → World
round w v vs = record w {
  links = record {
    next = give_back (put w.links.next w.head (first (monitors vs) w.head)) v.monitor;
    prev = give_back w.links.prev v.monitor;
  };
  procs = freed (some v) w.procs;
}

module _ (w : World) (v : Watched) (vs : List Watched) (left : IsLeft w (v ∷ vs)) where
  not_head : v.monitor ≢ w.head
  not_head = ground (arith, left.out)

  round-next : (a : Ptr) → a ≢ w.head → a ≢ v.monitor → (round w v vs).links.next a ≡ w.links.next a
  round-next a x y =
      rw (==-ne a v.monitor y) (put_ne w.links.next w.head (first (monitors vs) w.head) a x)

  round-head : (round w v vs).links.next w.head ≡ some (first (monitors vs) w.head)
  round-head =
      rw (==-ne w.head v.monitor λ e. not_head (sym e))
        (put_self w.links.next w.head (first (monitors vs) w.head))

  round-gone : (round w v vs).links.next v.monitor ≡ none
  round-gone = rw (==_refl v.monitor) refl

  round-unallocated : (a : Ptr) → w.links.next a ≡ none → (round w v vs).links.next a ≡ none
  round-unallocated a e = elim (Bool-cases (a == v.monitor)) [
    | inl s ↦ rw s refl
    | inr s ↦
        let x : a ≢ w.head = λ h. cc (sym left.head_next ∙ ap w.links.next (sym h) ∙ e) in
        round-next a x (ground arith) ∙ e
  ]

  round-IsLeft : IsLeft (round w v vs) vs
  round-IsLeft = record {
    head_ne = left.head_ne;
    head_next = round-head;
    linked = frame (monitors vs) w.head left.linked.2 λ a i.
        round-next a (has-ne a w.head (monitors vs) i (ground (arith, left.out)))
          (has-ne a v.monitor (monitors vs) i left.distinct.0);
    out = ground (arith, left.out);
    distinct = left.distinct.1;
    watched =
        WatchesAll-frame w (round w v vs) vs left.watched.1 (λ a i. (refl, refl))
          λ a i. freed-other v w.procs a (
            has-ne a v.process (processes vs) i (
              process-absent w v.process v.info vs left.watched.1 left.watched.0.proc
                left.unique.0));
    unique = left.unique.1;
  }

destroy_loop-Freed :
    (ndebug : Bool) (fuel : ℕ) (w : World) (vs : List Watched)
    → IsLeft w vs
    → length vs < fuel
    → Returns (λ _ g. Freed w g vs) (destroy_loop ndebug fuel (first (monitors vs) w.head) w)
unfolding destroy_loop freed_all
destroy_loop-Freed ndebug zero w vs left b = absurd (omega arith)
destroy_loop-Freed ndebug (suc fuel) w [] left b =
    rw (==-ne w.head null left.head_ne, ==_refl w.head)
      (returns (record {
        head = refl;
        gone = λ a i. cc;
        rest = λ a e. e;
        head_next = left.head_next;
        procs = refl;
      }))
destroy_loop-Freed ndebug (suc fuel) w (v ∷ vs) left b =
    let q = first (monitors vs) w.head in
    let w1 : World = record w {
      links = record { next = put w.links.next w.head q; prev = w.links.prev };
    } in
    let not_null : v.monitor ≢ null = left.linked.0 in
    let watched = left.watched.0 in
    rw
      (
        ==-ne v.monitor null not_null,
        ==-ne v.monitor w.head (not_head w v vs left),
        next_of-ok w.links v.monitor q not_null left.linked.1,
        set_next-ok w.links w.head v.monitor left.head_ne q left.head_next,
        monitored_proc_destroy-ok ndebug w1 v q not_null
            (put_ne w.links.next w.head q v.monitor (not_head w v vs left) ∙ left.linked.1)
            (record {
              child = watched.child;
              owned = watched.owned;
              proc = watched.proc;
              ne = watched.ne;
            }),
        next_of-ok (round w v vs).links w.head q left.head_ne (round-head w v vs left),
      )
      (weaken
        (destroy_loop-Freed ndebug fuel (round w v vs) vs (round-IsLeft w v vs left) (omega arith))
        λ _ g freed_rest. record {
          head = freed_rest.head;
          gone = λ a i. elim (Bool-cases (a == v.monitor)) [
            | inl s ↦
                freed_rest.rest a
                  (ap (round w v vs).links.next (==-eq a v.monitor s) ∙ round-gone w v vs left)
            | inr s ↦ freed_rest.gone a (ground (arith, i))
          ];
          rest = λ a e. freed_rest.rest a (round-unallocated w v vs left a e);
          head_next = freed_rest.head_next;
          procs = freed_rest.procs;
        })

stop-idle :
    (ndebug debug : Bool) (w : World) → w.monitor_task ≡ null → stop ndebug debug w ≡ ok tt w
unfolding stop
stop-idle ndebug debug w idle =
    ap (λ (m : Cmd World (Unit {0})). m w)
      (if_true (w.monitor_task == null) _ _ (ap (λ t. t == null) idle))

-- With more rounds than monitors, however the library is built, `child_proc_mgr_destroy` of a
-- manager that is not started comes to an end, with the head and every monitor freed, and of the
-- processes just those that the manager owns.
pub destroy-freed_all :
    (ndebug debug : Bool) (fuel : ℕ) (w : World) (vs : List Watched)
    → IsManager w vs
    → w.monitor_task ≡ null
    → length vs < fuel
    → Returns
        (λ _ g.
          ((a : Ptr) → has a (w.head ∷ monitors vs) ≡ true → g.links.next a ≡ none)
          × (g.procs ≡ freed_all vs w.procs))
        (destroy ndebug debug fuel w)
unfolding destroy
destroy-freed_all ndebug debug fuel w vs is idle b =
    let left : IsLeft w vs = record {
      head_ne = is.ring.forward.0;
      head_next = is.ring.forward.1;
      linked = is.ring.forward.2;
      out = is.ring.distinct.0;
      distinct = is.ring.distinct.1;
      watched = is.watched;
      unique = is.unique;
    } in
    rw
      (
        stop-idle ndebug debug w idle,
        next_of-ok w.links w.head (first (monitors vs) w.head) left.head_ne left.head_next,
      )
      (chain (destroy_loop-Freed ndebug fuel w vs left b) λ _ g all. returns (
        λ a i. elim (Bool-cases (a == w.head)) [
          | inl s ↦ rw s refl
          | inr s ↦ rw s (all.gone a (ground (arith, i)))
        ],
        all.procs,
      ))
