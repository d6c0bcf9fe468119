-- ===== src/TcpListener/Drop.antt =====
-- tcp_listener_drop_client, and what tcp_listener_init comes to.
use common_utils_lib.Base.{
  ℕ, ◌≡◌, refl, sym, ◌≢◌, ◌⊎◌, inl, inr, Bool, true, false, none, some, List, ◌∷◌, ◌++◌, arith,
  ◌==◌, ==-ne, ==_refl, if◌then◌else◌, Bool-cases,
}
use common_utils_lib.Machine.{Ptr, null, Run, ok, fault, aborted, blocked, out_of_fuel}
use common_utils_lib.Machine.Returns.{Returns, returns, chain, weaken}
use common_utils_lib.Machine.Mutex.{Pthread}
use common_utils_lib.Chain.{first, has, ne_null_of_has}
use mathlib.Core.Path.{subst}
use common_utils_lib.Clist.{Nodes}
use common_utils_lib.Stack.Free.{give_back}
use common_utils_lib.Clist.Ring.{IsRing, next-in_ring}
use common_utils_lib.Clist.Insert.{next_of-ok, prev_of-ok}
use common_utils_lib.Clist.Unlink.{at_p, at_n}
use common_utils_lib.IoScheduler
use common_utils_lib.IoScheduler.{same, minus_one, fd_of_ptr, task_of}
use common_utils_lib.IoScheduler.Tasks.{unschedule_task}
use common_utils_lib.IoScheduler.Unschedule.{Unscheduled, unschedule_task-Unscheduled}
use common_utils_lib.Slist.{load}
use common_utils_lib.Sockets.{Sockets, is_invalid}
use common_utils_lib.SocketMgr
use common_utils_lib.SocketMgr.{get_or_create_tcp}
use common_utils_lib.TcpSocks.Pending
use common_utils_lib.ChildProcessMgr.Dismiss.{skipped, skip-ok, skipped-IsRing}
use common_utils_lib.TcpListener.{
  World, Remote, remote_of, the_listener, put_listener, free_remote, tcp_remote_client_destroy,
  tcp_listener_drop_client, with_tcp, on_tcp,
}
use common_utils_lib.TcpListener.Serve.{tcp_remote_client_init, tcp_listener_init}

module _ (os : Sockets) where
  remote_of-ok :
      (w : World os) (remcli : Ptr) (k : Remote)
      → w.remotes remcli ≡ some k
      → remote_of os remcli w ≡ ok k w
  unfolding remote_of
  remote_of-ok w remcli k e = rw e

  abbrev pub HasTask : World os → Remote → Type 0
  HasTask w k = (k.io_task ≡ null) ⊎ ((q : Ptr) × (w.tcp.scheduler.next k.io_task ≡ some q))

  -- The scheduler is asked to remove the task of the client, if there is one.
  record Stopped (w g : World os) (k : Remote) : Type 0 where
    scheduler : IoScheduler.World
    kept : g ≡ record w { tcp = record w.tcp { scheduler = scheduler } }
    marked :
        k.io_task ≢ null
        → same (w.tcp.scheduler.task k.io_task).fd minus_one ≡ false
        → (scheduler.task k.io_task).opts.remove ≡ true

  lift-Stopped :
      (w : World os) (k : Remote) (r : Run IoScheduler.World (Unit {0}))
      → Returns (λ _ s. Unscheduled w.tcp.scheduler s k.io_task) r
      → Returns (λ _ g. Stopped w g k) (with_tcp w (Pending.with_scheduler w.tcp r))
  lift-Stopped w k (ok a s) (returns p) =
      returns (record { scheduler = s; kept = refl; marked = λ _ valid. p.marked valid })
  lift-Stopped w k fault p = elim p [ ]
  lift-Stopped w k aborted p = elim p [ ]
  lift-Stopped w k blocked p = elim p [ ]
  lift-Stopped w k out_of_fuel p = elim p [ ]

  stop-Stopped :
      (debug : Bool) (w : World os) (k : Remote)
      → HasTask w k
      → Returns
          (λ _ g. Stopped w g k)
          ((if k.io_task == null
              then ok tt
              else on_tcp (Pending.on_scheduler (unschedule_task debug k.io_task)))
            w)
  stop-Stopped debug w k has = elim (Bool-cases (k.io_task == null)) [
    | inl idle ↦ rw idle (
        returns (record {
          scheduler = w.tcp.scheduler;
          kept = refl;
          marked = λ ne. absurd (ground (arith, ne, idle));
        }))
    | inr busy ↦ elim has [
      | inl z ↦ absurd (ground (arith, z, busy))
      | inr (q, there) ↦
          let ne : k.io_task ≢ null = ground arith in
          rw busy (
            lift-Stopped w k (unschedule_task debug k.io_task w.tcp.scheduler)
              (unschedule_task-Unscheduled debug w.tcp.scheduler k.io_task q ne there))
    ]
  ]

  -- The client is freed, its socket closed if it had one, and its task marked for removal.
  pub record Dropped (w g : World os) (remcli : Ptr) (k : Remote) : Type 0 where
    pub freed : g.remotes remcli ≡ none
    pub others : (a : Ptr) → a ≢ remcli → g.remotes a ≡ w.remotes a
    pub sockets :
        g.tcp.sockets ≡ (if is_invalid k.fd then w.tcp.sockets else (os.close k.fd w.tcp.sockets).1)
    pub marked :
        k.io_task ≢ null
        → same (w.tcp.scheduler.task k.io_task).fd minus_one ≡ false
        → (g.tcp.scheduler.task k.io_task).opts.remove ≡ true

  abbrev freed_links : Nodes → Ptr → Nodes
  freed_links h n = record { next = give_back h.next n; prev = give_back h.prev n }

  destroy-Dropped :
      (debug : Bool) (w : World os) (remcli : Ptr) (k : Remote)
      → remcli ≢ null
      → w.remotes remcli ≡ some k
      → HasTask w k
      → Returns
          (λ _ g. Dropped w g remcli k × (g.links ≡ freed_links w.links remcli))
          (tcp_remote_client_destroy os debug remcli w)
  unfolding tcp_remote_client_destroy free_remote
  destroy-Dropped debug w remcli k ne e has =
      rw (==-ne remcli null ne, remote_of-ok w remcli k e)
        (chain (stop-Stopped debug w k has) λ _ g s.
          rw s.kept (elim (Bool-cases (is_invalid k.fd)) [
            | inl closed ↦ rw closed (
                returns (
                  record {
                    freed = rw (==_refl remcli) refl;
                    others = λ a other. rw (==-ne a remcli other) refl;
                    sockets = rw closed refl;
                    marked = s.marked;
                  },
                  refl,
                ))
            | inr open_fd ↦ rw open_fd (
                returns (
                  record {
                    freed = rw (==_refl remcli) refl;
                    others = λ a other. rw (==-ne a remcli other) refl;
                    sockets = rw open_fd refl;
                    marked = s.marked;
                  },
                  refl,
                ))
          ]))

  module _ (w : World os) (x : Ptr) (xs : List Ptr) (r : IsRing w.links x xs) (front : List Ptr)
      (p n : Ptr) (back : List Ptr) (split : x ∷ xs ≡ front ++ p ∷ n ∷ back) (ys : List Ptr)
      (joined : front ++ p ∷ back ≡ x ∷ ys) (k : Remote) (e : w.remotes n ≡ some k)
      (has : HasTask w k) where
    -- On a well-formed ring of clients, `tcp_listener_drop_client` of a client `n` other than the
    -- head closes the ring behind it, in the same order, and frees the client and no other: its
    -- socket is closed if it had one, and its task, which is one of the scheduler's if it has one,
    -- marked for removal, unless the task's descriptor is −1.
    pub drop_client-Dropped :
        (debug : Bool)
        → Returns
            (λ _ g. IsRing g.links x ys × Dropped w g n k)
            (tcp_listener_drop_client os debug n w)
    unfolding tcp_listener_drop_client
    drop_client-Dropped debug =
        let q = first back x in
        let h = w.links in
        let p_at = at_p h x xs r front p n back split in
        let n_at = at_n h x xs r front p n back split in
        let qz : q ≢ null =
          ne_null_of_has h.next (x ∷ xs) x q r.forward (next-in_ring n q r n_at.0 n_at.2) in
        let w1 : World os = record w { links = skipped h x xs r front p n back split ys joined } in
        rw
          (
            ==-ne n null n_at.1,
            prev_of-ok h n p n_at.1 (r.back p n p_at.0 p_at.2),
            ==-ne p null p_at.1,
            next_of-ok h n q n_at.1 n_at.2,
            ==-ne q null qz,
            skip-ok h x xs r front p n back split ys joined,
          )
          (weaken (destroy-Dropped debug w1 n k n_at.1 e has) λ _ g (d, links). (
            subst (λ t. IsRing t x ys) (sym links)
                (skipped-IsRing h x xs r front p n back split ys joined),
            record { freed = d.freed; others = d.others; sockets = d.sockets; marked = d.marked },
          ))

  -- Whenever the manager of sockets has a descriptor for the port, and memory is there for the
  -- listener and for the head of its ring, `tcp_listener_init` is undefined behaviour: it reads the
  -- scheduler from the listener's task, which is not made before tcp_listener_start.
  pub tcp_listener_init-faults :
      (posix : Pthread) (task_pool_mutex timer_pool_mutex : posix.Mutex) (request_cbk : Ptr)
      (fuel rounds : ℕ) (create : ℕ → ℕ) (malloc_ok : Bool) (address head_address : Ptr) (port : ℕ)
      (userdata : Ptr) (w : World os) (fd : ℕ) (m : SocketMgr.World)
      → address ≢ null
      → head_address ≢ null
      → get_or_create_tcp create malloc_ok port w.mgr ≡ ok fd m
      → is_invalid (fd_of_ptr fd) ≡ false
      → tcp_listener_init os posix task_pool_mutex timer_pool_mutex request_cbk fuel rounds create
          malloc_ok address head_address port userdata w
        ≡ fault
  unfolding tcp_listener_init tcp_remote_client_init put_listener the_listener task_of load
  tcp_listener_init-faults posix task_pool_mutex timer_pool_mutex request_cbk fuel rounds create
        malloc_ok address head_address port userdata w fd m a b made valid =
      rw (==-ne address null a, made, valid, ==-ne head_address null b) refl
