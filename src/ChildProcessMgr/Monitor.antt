-- ===== src/ChildProcessMgr/Monitor.antt =====
-- child_proc_mgr_monitor_pid and child_proc_mgr_monitor_child.
use mathlib.Core.Path.{subst}
use common_utils_lib.Base.{
  ℕ, ◌<◌, ◌≡◌, refl, sym, ◌∙◌, ◌≢◌, Bool, true, false, some, List, [], ◌∷◌, ◌++◌, arith, ==-ne,
  ==_refl, length, ◌==◌,
}
use common_utils_lib.Machine.{Ptr, null, Run, ok, ◌>>=◌, ◌>>◌}
use common_utils_lib.Machine.Returns.{Returns, returns, chain}
use common_utils_lib.Chain.{put, has, has-ne, put_ne, put_self}
use common_utils_lib.Chain.Splice.{put-Spliced, put-Spliced_back}
use common_utils_lib.Chain.Walk.{append_after, split_last}
use common_utils_lib.Clist.{Nodes}
use common_utils_lib.Clist.Ring.{IsRing, ring-at, IsRing-insert, IsRing-frame}
use common_utils_lib.Clist.Insert.{prev_of-ok, set_next-ok, set_prev-ok, IsLoose}
use common_utils_lib.ChildProcessMgr.{
  World, Child, proc_of, is_proper, link_last, monitored_proc_init, monitor_pid, monitor_child,
  child_proc_init_full, store, with_links, on_links,
}
use common_utils_lib.ChildProcessMgr.Loops.{
  Watched, monitors, has_pid, IsManager, lookup, proc_of-ok, find_from_head-lookup, processes,
  WatchesAll-frame, WatchesAll-append, monitors-append, IsUnique-add, lookup-absent, lookup-watched,
  store_self, store_ne,
}

module _ (h : Nodes) (x : Ptr) (xs : List Ptr) (r : IsRing h x xs) (n : Ptr)
    (loose : IsLoose h x xs n) where
  -- The four writes put the node at the end of the ring.
  link_last-IsRing : Returns (λ _ g. IsRing g x (xs ++ n ∷ [])) (link_last x n h)
  unfolding link_last
  link_last-IsRing =
      let (front, p, split) = split_last x xs in
      let at = ring-at r front p [] split in
      let pn : p ≢ n = has-ne p n (x ∷ xs) at.0 loose.out in
      let xn : x ≢ n = ground (arith, loose.out) in
      let np : n ≢ p = λ e. pn (sym e) in
      let nx : n ≢ x = λ e. xn (sym e) in
      let back_x : h.prev x ≡ some p = r.back p x at.0 at.2 in
      let h1 : Nodes = record h { next = put h.next p n } in
      let h2 : Nodes = record h1 { prev = put h.prev n p } in
      let h3 : Nodes = record h2 { next = put h1.next n x } in
      let joined : front ++ p ∷ n ∷ [] ≡ x ∷ (xs ++ n ∷ []) =
        append_after front p (x ∷ xs) (n ∷ []) (sym split) in
      rw
        (
          prev_of-ok h x p r.forward.0 back_x,
          set_next-ok h p x at.1 n at.2,
          set_prev-ok h1 n loose.old_prev loose.ne p loose.has_prev,
          set_next-ok h2 n loose.old_next loose.ne x (put_ne h.next p n n np ∙ loose.has_next),
          set_prev-ok h3 x p r.forward.0 n (put_ne h.prev n p x xn ∙ back_x),
        )
        (returns (
          IsRing-insert r front p [] split _ n (xs ++ n ∷ []) joined loose.out loose.ne (record {
            onward = put-Spliced_back h.next p n x pn;
            backward = put-Spliced h.prev x n p xn;
          })))

module _ {A : Type 0} {P : A → Nodes → Type 0} {Q : A → World → Type 0} where
  pub with_links-Returns :
      (w : World) (r : Run Nodes A)
      → Returns P r
      → ((a : A) (h : Nodes) → P a h → Q a (record w { links = h }))
      → Returns Q (with_links w r)
  with_links-Returns w r (returns p) f = returns (f _ _ p)

-- The address that `malloc` returns for a monitor.
pub record IsFree (w : World) (vs : List Watched) (address : Ptr) : Type 0 where
  pub ne : address ≢ null
  pub out : has address (w.head ∷ monitors vs) ≡ false

-- What monitored_proc_init leaves.
abbrev with_monitor : World → Ptr → Ptr → Bool → World
with_monitor w address process owned = record w {
  links = record { next = put w.links.next address null; prev = put w.links.prev address null };
  child = store w.child address process;
  owned_by_mgr = store w.owned_by_mgr address owned;
}

monitored_proc_init-ok :
    (ndebug : Bool) (w : World) (address process : Ptr) (owned : Bool)
    → address ≢ null
    → process ≢ null
    → monitored_proc_init ndebug address process owned w
      ≡ ok address (with_monitor w address process owned)
unfolding monitored_proc_init
monitored_proc_init-ok ndebug w address process owned a p =
    rw (==-ne process null p, ==-ne address null a)

-- The list of the manager with one process more.
abbrev pub added : List Watched → Ptr → Ptr → Bool → Child → List Watched
added vs address process owned c =
    vs ++ record { monitor = address; process = process; is_owned = owned; info = c } ∷ []

module _ (w : World) (vs : List Watched) (is : IsManager w vs) (address process : Ptr)
    (owned : Bool) (free : IsFree w vs address) (c : Child) (is_process : w.procs process ≡ some c)
    (nz : process ≢ null) (o : has_pid c.pid vs ≡ false) where
  with_monitor-IsRing : IsRing (with_monitor w address process owned).links w.head (monitors vs)
  with_monitor-IsRing = IsRing-frame is.ring λ a i.
      let ne : a ≢ address = has-ne a address (w.head ∷ monitors vs) i free.out in
      (put_ne w.links.next address null a ne, put_ne w.links.prev address null a ne)

  linked-IsManager :
      Returns
        (λ b g. (b ≡ true) × IsManager g (added vs address process owned c))
        ((do on_links (link_last w.head address); ok true) (with_monitor w address process owned))
  linked-IsManager =
      let v : Watched = record {
        monitor = address;
        process = process;
        is_owned = owned;
        info = c;
      } in
      let w2 = with_monitor w address process owned in
      chain
        (with_links-Returns {Q = λ _ g. IsManager g (added vs address process owned c)} w2 _
          (link_last-IsRing w2.links w.head (monitors vs) with_monitor-IsRing address (record {
            ne = free.ne;
            out = free.out;
            old_next = null;
            has_next = put_self w.links.next address null;
            old_prev = null;
            has_prev = put_self w.links.prev address null;
          }))
          λ _ h r. record {
            ring = subst (IsRing h w.head) (sym (monitors-append vs (v ∷ []))) r;
            watched =
                WatchesAll-append _ vs (v ∷ [])
                  (WatchesAll-frame w _ vs is.watched
                    (λ a i.
                      let ne : a ≢ address =
                        has-ne a address (w.head ∷ monitors vs) (ground arith) free.out in
                      (
                        store_ne w.child address process a ne,
                        store_ne w.owned_by_mgr address owned a ne,
                      ))
                    (λ a i. refl))
                  (
                    record {
                      child = store_self w.child address process;
                      owned = store_self w.owned_by_mgr address owned;
                      proc = is_process;
                      ne = nz;
                    },
                    tt,
                  );
            unique = IsUnique-add vs v is.unique o;
          })
        λ _ g m. returns (refl, m)

module _ (ndebug : Bool) (w : World) (vs : List Watched) (is : IsManager w vs) (fuel : ℕ)
    (enough : length vs < fuel) where
  -- With a monitor allocated, however the library is built, `child_proc_mgr_monitor_child` of a
  -- process whose id is not being watched adds it at the end, as the caller's to free.
  pub monitor_child-IsManager :
      (address child : Ptr) (c : Child)
      → IsFree w vs address
      → child ≢ null
      → w.procs child ≡ some c
      → has_pid c.pid vs ≡ false
      → Returns
          (λ b g. (b ≡ true) × IsManager g (added vs address child false c))
          (monitor_child ndebug address fuel child w)
  unfolding monitor_child
  monitor_child-IsManager address child c free nz e o =
      rw
        (
          ==-ne child null nz,
          find_from_head-lookup w vs c.pid (do k ← proc_of child; ok k.pid) fuel
              (rw (proc_of-ok w child c e)) is enough,
          lookup-absent c.pid vs o,
          ==_refl w.head,
          monitored_proc_init-ok ndebug w address child false free.ne nz,
          ==-ne address null free.ne,
        )
        (linked-IsManager w vs is address child false free c e nz o)

  -- With a monitor and a process allocated, however the library is built,
  -- `child_proc_mgr_monitor_pid` of a process id above 1 that is not being watched adds it at the
  -- end, as the manager's to free.
  pub monitor_pid-IsManager :
      (address child_address : Ptr) (c : Child)
      → IsFree w vs address
      → child_address ≢ null
      → has child_address (processes vs) ≡ false
      → is_proper c.pid ≡ true
      → has_pid c.pid vs ≡ false
      → Returns
          (λ b g. (b ≡ true) × IsManager g (added vs address child_address true c))
          (monitor_pid ndebug address child_address fuel c.pid c.fd c.user_data c.on_exit w)
  unfolding monitor_pid child_proc_init_full
  monitor_pid-IsManager address child_address c free nz out proper o =
      let w1 : World = record w { procs = store w.procs child_address (some c) } in
      let is1 : IsManager w1 vs = record {
        ring = is.ring;
        watched =
            WatchesAll-frame w w1 vs is.watched (λ a i. (refl, refl))
              λ a i.
                store_ne w.procs child_address (some c) a
                  (has-ne a child_address (processes vs) i out);
        unique = is.unique;
      } in
      rw
        (
          proper,
          find_from_head-lookup w vs c.pid (ok c.pid) fuel refl is enough,
          lookup-absent c.pid vs o,
          ==_refl w.head,
          ==-ne child_address null nz,
          monitored_proc_init-ok ndebug w1 address child_address true free.ne nz,
          ==-ne address null free.ne,
        )
        (linked-IsManager w1 vs is1 address child_address true
          (record { ne = free.ne; out = free.out }) c (store_self w.procs child_address (some c)) nz
          o)

  -- However the library is built, a process id above 1 that is being watched is refused and
  -- nothing changes: `child_proc_mgr_monitor_pid` returns false, and `child_proc_mgr_monitor_child` returns
  -- true if the process is the one that is being watched and false if it is another.
  pub monitor-refuses :
      (address child_address child : Ptr) (c : Child) (v : Watched)
      → child ≢ null
      → w.procs child ≡ some c
      → is_proper c.pid ≡ true
      → lookup c.pid vs ≡ some v
      → (monitor_pid ndebug address child_address fuel c.pid c.fd c.user_data c.on_exit w
          ≡ ok false w)
        × (monitor_child ndebug address fuel child w ≡ ok (v.process == child) w)
  unfolding monitor_pid monitor_child
  monitor-refuses address child_address child c v nz e proper found =
      let at = lookup-watched w vs is c.pid v found in
      (
        rw (
          proper,
          find_from_head-lookup w vs c.pid (ok c.pid) fuel refl is enough,
          found,
          ==-ne v.monitor w.head at.0,
        ),
        rw (
          ==-ne child null nz,
          find_from_head-lookup w vs c.pid (do k ← proc_of child; ok k.pid) fuel
              (rw (proc_of-ok w child c e)) is enough,
          found,
          ==-ne v.monitor w.head at.0,
          at.1,
        ),
      )
