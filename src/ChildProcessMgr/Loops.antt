-- ===== src/ChildProcessMgr/Loops.antt =====
-- What a manager holds, as a list of monitored processes, and the loop that looks for one by its
-- process id.
use mathlib.Core.Bool.{or_assoc}
use mathlib.Core.Option.{some-injective}
use mathlib.Core.Path.{subst}
use common_utils_lib.Base.{
  ℕ, zero, suc, ◌<◌, ◌≡◌, ◌≢◌, Bool, true, false, ◌||◌, Option, none, some, List, [], ◌∷◌, ◌++◌,
  map, arith, refl, ap, sym, ◌∙◌, ==-ne, ==_refl, if◌then◌else◌, Bool-cases, inl, inr, length, ◌==◌,
}
use common_utils_lib.Base.Int.{ℤ}
use common_utils_lib.Machine.{Ptr, null, ok, Cmd}
use common_utils_lib.Chain.{has, first, IsLinked, has-middle, has-ne}
use common_utils_lib.Clist.Ring.{IsRing, ring-at}
use common_utils_lib.Clist.Insert.{next_of-ok}
use common_utils_lib.IoScheduler.{same}
use common_utils_lib.IoScheduler.Same.{same_sym}
use common_utils_lib.ChildProcessMgr.{
  World, Child, store, proc_of, child_of, find_loop, find_from_head,
}

-- A monitor, the process that it watches, who frees that process, and what the process is.
pub record Watched : Type 0 where
  pub monitor : Ptr
  pub process : Ptr
  pub is_owned : Bool
  pub info : Child

abbrev pub monitors : List Watched → List Ptr
monitors vs = map (λ v. v.monitor) vs

abbrev pub has_pid : ℤ → List Watched → Bool
has_pid pid [] = false
has_pid pid (v ∷ vs) = same v.info.pid pid || has_pid pid vs

abbrev pub IsUnique : List Watched → Type 0
IsUnique [] = Unit
IsUnique (v ∷ vs) = (has_pid v.info.pid vs ≡ false) × IsUnique vs

-- The monitor `v.monitor` of the store is `v`.
pub record Watches (w : World) (v : Watched) : Type 0 where
  pub child : w.child v.monitor ≡ v.process
  pub owned : w.owned_by_mgr v.monitor ≡ v.is_owned
  pub proc : w.procs v.process ≡ some v.info
  pub ne : v.process ≢ null

abbrev pub WatchesAll : World → List Watched → Type 0
WatchesAll w [] = Unit
WatchesAll w (v ∷ vs) = Watches w v × WatchesAll w vs

-- The monitors form a ring behind the head, and no two watch the same process id.
pub record IsManager (w : World) (vs : List Watched) : Type 0 where
  pub ring : IsRing w.links w.head (monitors vs)
  pub watched : WatchesAll w vs
  pub unique : IsUnique vs

-- The monitored process with the id.
abbrev pub lookup : ℤ → List Watched → Option Watched
lookup pid [] = none
lookup pid (v ∷ vs) = if same v.info.pid pid then some v else lookup pid vs

abbrev pub monitor_or : Ptr → Option Watched → Ptr
monitor_or p none = p
monitor_or p (some v) = v.monitor

pub child_of-ok :
    (w : World) (mp q : Ptr)
    → mp ≢ null
    → w.links.next mp ≡ some q
    → child_of mp w ≡ ok (w.child mp) w
unfolding child_of
child_of-ok w mp q ne e = rw (next_of-ok w.links mp q ne e)

pub proc_of-ok : (w : World) (p : Ptr) (c : Child) → w.procs p ≡ some c → proc_of p w ≡ ok c w
unfolding proc_of
proc_of-ok w p c e = rw e

find_loop-lookup :
    (w : World) (pid : ℤ) (get : Cmd World ℤ) (fuel : ℕ) (vs : List Watched)
    → get w ≡ ok pid w
    → IsLinked w.links.next (monitors vs) w.head
    → w.head ≢ null
    → has w.head (monitors vs) ≡ false
    → WatchesAll w vs
    → length vs < fuel
    → find_loop fuel get (first (monitors vs) w.head) w ≡ ok (monitor_or w.head (lookup pid vs)) w
unfolding find_loop
find_loop-lookup w pid get zero vs g l nz o a b = absurd (omega arith)
find_loop-lookup w pid get (suc fuel) [] g l nz o a b = rw (==-ne w.head null nz, ==_refl w.head)
find_loop-lookup w pid get (suc fuel) (v ∷ vs) g l nz o a b =
    let q = first (monitors vs) w.head in
    let other : (v.monitor == w.head) ≡ false = ground arith in
    elim (Bool-cases (same v.info.pid pid)) [
      | inl e ↦ rw (
        ==-ne v.monitor null l.0,
        other,
        child_of-ok w v.monitor q l.0 l.1,
        a.0.child,
        proc_of-ok w v.process v.info a.0.proc,
        g,
        e,
      )
      | inr e ↦
          rw
            (
              ==-ne v.monitor null l.0,
              other,
              child_of-ok w v.monitor q l.0 l.1,
              a.0.child,
              proc_of-ok w v.process v.info a.0.proc,
              g,
              e,
              next_of-ok w.links v.monitor q l.0 l.1,
            )
            (find_loop-lookup w pid get fuel vs g l.2 nz (ground arith) a.1 (omega arith))
    ]

-- The loop comes to an end within the length of the ring.
pub find_from_head-lookup :
    (w : World) (vs : List Watched) (pid : ℤ) (get : Cmd World ℤ) (fuel : ℕ)
    → get w ≡ ok pid w
    → IsManager w vs
    → length vs < fuel
    → find_from_head fuel get w ≡ ok (monitor_or w.head (lookup pid vs)) w
find_from_head-lookup w vs pid get fuel g is b =
    rw (next_of-ok w.links w.head (first (monitors vs) w.head) is.ring.forward.0 is.ring.forward.1)
      (find_loop-lookup w pid get fuel vs g is.ring.forward.2 is.ring.forward.0 is.ring.distinct.0
        is.watched b)

abbrev pub processes : List Watched → List Ptr
processes vs = map (λ v. v.process) vs

-- What the monitors hold survives every change that spares them and their processes.
pub WatchesAll-frame :
    (w g : World) (vs : List Watched)
    → WatchesAll w vs
    → ((a : Ptr)
        → has a (monitors vs) ≡ true
        → (g.child a ≡ w.child a) × (g.owned_by_mgr a ≡ w.owned_by_mgr a))
    → ((a : Ptr) → has a (processes vs) ≡ true → g.procs a ≡ w.procs a)
    → WatchesAll g vs
WatchesAll-frame w g [] all kept procs = tt
WatchesAll-frame w g (v ∷ vs) all kept procs =
    let here : has v.monitor (monitors (v ∷ vs)) ≡ true = ground arith in
    (
      record {
        child = (kept v.monitor here).0 ∙ all.0.child;
        owned = (kept v.monitor here).1 ∙ all.0.owned;
        proc = procs v.process (ground arith) ∙ all.0.proc;
        ne = all.0.ne;
      },
      WatchesAll-frame w g vs all.1 (λ a i. kept a (ground arith)) (λ a i. procs a (ground arith)),
    )

pub WatchesAll-append :
    (w : World) (vs us : List Watched) → WatchesAll w vs → WatchesAll w us → WatchesAll w (vs ++ us)
WatchesAll-append w [] us a b = b
WatchesAll-append w (v ∷ vs) us a b = (a.0, WatchesAll-append w vs us a.1 b)

pub monitors-append : (vs us : List Watched) → monitors (vs ++ us) ≡ monitors vs ++ monitors us
monitors-append [] us = refl
monitors-append (v ∷ vs) us = ap (λ t. v.monitor ∷ t) (monitors-append vs us)

pub has_pid-append :
    (pid : ℤ) (vs us : List Watched) → has_pid pid (vs ++ us) ≡ (has_pid pid vs || has_pid pid us)
has_pid-append pid [] us = refl
has_pid-append pid (v ∷ vs) us = rw (has_pid-append pid vs us, or_assoc)

pub IsUnique-add :
    (vs : List Watched) (v : Watched)
    → IsUnique vs
    → has_pid v.info.pid vs ≡ false
    → IsUnique (vs ++ v ∷ [])
IsUnique-add [] v u o = (refl, tt)
IsUnique-add (x ∷ vs) v u o = (
  ground (arith, u.0, has_pid-append x.info.pid vs (v ∷ []), same_sym v.info.pid x.info.pid),
  IsUnique-add vs v u.1 (ground arith),
)

pub lookup-absent : (pid : ℤ) (vs : List Watched) → has_pid pid vs ≡ false → lookup pid vs ≡ none
lookup-absent pid [] o = refl
lookup-absent pid (v ∷ vs) o =
    let e : same v.info.pid pid ≡ false = ground arith in rw e (lookup-absent pid vs (ground arith))

module _ {A : Type 0} (f : Ptr → A) (a : Ptr) (v : A) where
  pub store_self : store f a v a ≡ v
  store_self = rw (==_refl a)

  pub store_ne : (b : Ptr) → b ≢ a → store f a v b ≡ f b
  store_ne b ne = rw (==-ne b a ne)

-- The list without the process with the id.
abbrev pub without : ℤ → List Watched → List Watched
without pid [] = []
without pid (v ∷ vs) = if same v.info.pid pid then vs else v ∷ without pid vs

-- Where `lookup` finds the process, `without` takes it out.
pub lookup-without :
    (pid : ℤ) (vs : List Watched) (v : Watched)
    → lookup pid vs ≡ some v
    → (front : List Watched) × (back : List Watched) × (vs ≡ front ++ v ∷ back)
      × (without pid vs ≡ front ++ back)
lookup-without pid [] v e = cc
lookup-without pid (x ∷ vs) v e = elim (Bool-cases (same x.info.pid pid)) [
  | inl s ↦
      let e' : x ≡ v = some-injective x v (sym (rw s refl) ∙ e) in
      ([], vs, ap (λ t. t ∷ vs) e', ap (λ b. if b then vs else x ∷ without pid vs) s)
  | inr s ↦
      let (front, back, split, rest) = lookup-without pid vs v (sym (rw s refl) ∙ e) in
      (
        x ∷ front,
        back,
        ap (λ t. x ∷ t) split,
        ap (λ b. if b then vs else x ∷ without pid vs) s ∙ ap (λ t. x ∷ t) rest,
      )
]

WatchesAll-at :
    (w : World) (front : List Watched) (v : Watched) (back : List Watched)
    → WatchesAll w (front ++ v ∷ back)
    → Watches w v
WatchesAll-at w [] v back a = a.0
WatchesAll-at w (x ∷ front) v back a = WatchesAll-at w front v back a.1

module _ (w : World) (vs : List Watched) (is : IsManager w vs) (front : List Watched) (v : Watched)
    (back : List Watched) (split : vs ≡ front ++ v ∷ back) where
  pub monitors-split : w.head ∷ monitors vs ≡ (w.head ∷ monitors front) ++ v.monitor ∷ monitors back
  monitors-split =
      ap (λ t. w.head ∷ monitors t) split ∙ ap (λ t. w.head ∷ t) (monitors-append front (v ∷ back))

  pub watched-at : Watches w v
  watched-at = WatchesAll-at w front v back (subst (WatchesAll w) split is.watched)

  pub monitor-at :
      (v.monitor ≢ null)
      × (v.monitor ≢ w.head)
      × (w.links.next v.monitor ≡ some (first (monitors back) w.head))
  monitor-at =
      let at = ring-at is.ring (w.head ∷ monitors front) v.monitor (monitors back) monitors-split in
      let inside : has v.monitor (monitors vs) ≡ true =
        subst (λ t. has v.monitor (monitors t) ≡ true) (sym split)
          (subst (λ t. has v.monitor t ≡ true) (sym (monitors-append front (v ∷ back)))
            (has-middle (monitors front) v.monitor (monitors back))) in
      (at.1, has-ne v.monitor w.head (monitors vs) inside is.ring.distinct.0, at.2)

-- What the store holds of a process that is being watched.
pub lookup-watched :
    (w : World) (vs : List Watched)
    → IsManager w vs
    → (pid : ℤ) (v : Watched) → lookup pid vs ≡ some v
    → (v.monitor ≢ w.head) × (child_of v.monitor w ≡ ok v.process w)
lookup-watched w vs is pid v e =
    let (front, back, split, rest) = lookup-without pid vs v e in
    let at = monitor-at w vs is front v back split in
    (
      at.1,
      child_of-ok w v.monitor (first (monitors back) w.head) at.0 at.2
          ∙ ap (λ p. ok p w) (watched-at w vs is front v back split).child,
    )
