-- ===== src/Clist/Reentrant.antt =====
-- The re-entrant versions of circ-link-list.c. They take a pointer to the mutex, so the caller's
-- own mutex is locked; `mtx_ok` tells that the pointer is not `NULL`.
use common_utils_lib.Base.{
  ℕ, suc, ◌≡◌, refl, ◌≢◌, Bool, true, false, not, Option, none, some, arith, ◌==◌, ==-ne,
  if◌then◌else◌,
}
use common_utils_lib.Base.Int.{ℤ}
use common_utils_lib.Machine.{Ptr, null, ok, aborted, Cmd, ◌>>=◌}
use common_utils_lib.Machine.Mutex.{Pthread, Guarded, with_lock, with_lock-ok}
use common_utils_lib.Clist.{
  Nodes, next_of, prev_of, walk, is_nonzero, is_nonnull, unless_start, link_after, link_before,
  insert_where, take_out, insert_after, insert_before, insert_inorder, unlink,
}

module _ (posix : Pthread) (ndebug : Bool) where
  -- ASSERT_EXIT_NULL, ASSERT_EXIT_VOID on the guarded store
  abbrev check : {A : Type 0} → Bool → A → Cmd (Guarded posix Nodes) A → Cmd (Guarded posix Nodes) A
  check test d body = if test then body else if ndebug then ok d else λ _. aborted

  -- The loop starts at `NIL_node_dbl`.
  unfoldable pub find_r :
      (mtx_ok : Bool) (searchfn : Option (Ptr → ℤ)) → ℕ → Ptr → Cmd (Guarded posix Nodes) Ptr
  find_r mtx_ok none fuel startpt = check (is_nonnull startpt) null (check false null (ok null))
  find_r mtx_ok (some searchfn) fuel startpt = check (is_nonnull startpt) null (
      check mtx_ok null do
        rv ← with_lock posix (walk next_of (λ p. not (is_nonzero (searchfn p))) startpt fuel null)
        ok (unless_start startpt rv))

  unfoldable pub rfind_r :
      (mtx_ok : Bool) (searchfn : Option (Ptr → ℤ)) → ℕ → Ptr → Cmd (Guarded posix Nodes) Ptr
  rfind_r mtx_ok none fuel startpt = check (is_nonnull startpt) null (check false null (ok null))
  rfind_r mtx_ok (some searchfn) fuel startpt = check (is_nonnull startpt) null (
      check mtx_ok null do
        rv ← with_lock posix (walk prev_of (λ p. not (is_nonzero (searchfn p))) startpt fuel null)
        ok (unless_start startpt rv))

  unfoldable pub insert_after_r : (mtx_ok : Bool) → Ptr → Ptr → Cmd (Guarded posix Nodes) (Unit {0})
  insert_after_r mtx_ok inspt node =
      check (is_nonnull inspt) tt
        (check (is_nonnull node) tt (check mtx_ok tt (with_lock posix (link_after inspt node))))

  unfoldable pub insert_before_r :
      (mtx_ok : Bool) → Ptr → Ptr → Cmd (Guarded posix Nodes) (Unit {0})
  insert_before_r mtx_ok inspt node =
      check (is_nonnull inspt) tt
        (check (is_nonnull node) tt (check mtx_ok tt (with_lock posix (link_before inspt node))))

  unfoldable pub insert_inorder_r :
      (mtx_ok : Bool) (cmpfn : Option (Ptr → Ptr → ℤ))
      → ℕ
      → Ptr
      → Ptr
      → Cmd (Guarded posix Nodes) (Unit {0})
  insert_inorder_r mtx_ok none fuel startpt node =
      check (is_nonnull startpt) tt (check (is_nonnull node) tt (check false tt (ok tt)))
  insert_inorder_r mtx_ok (some cmpfn) fuel startpt node = check (is_nonnull startpt) tt (
      check (is_nonnull node) tt
        (check mtx_ok tt (with_lock posix (insert_where cmpfn fuel startpt node))))

  unfoldable pub unlink_r : (mtx_ok : Bool) → Ptr → Cmd (Guarded posix Nodes) (Unit {0})
  unlink_r mtx_ok node =
      check (is_nonnull node) tt (check mtx_ok tt (with_lock posix (take_out node)))

module _ (posix : Pthread) (ndebug : Bool) (held : posix.Mutex) (g : Guarded posix Nodes)
    (granted : posix.lock g.mutex ≡ some held) where
  -- The guarded store behind a call that has the lock.
  abbrev pub behind : Nodes → Guarded posix Nodes
  behind h = record { mutex = posix.unlock held; store = h }

  -- Whatever the ring and the search function, when the lock is granted `circ_list_find_r` and
  -- `circ_list_rfind_r` at a start point other than `NULL` return `NULL`: the loop never starts.
  pub find_r-null :
      (searchfn : Ptr → ℤ) (fuel : ℕ) (startpt : Ptr)
      → startpt ≢ null
      → (find_r posix ndebug true (some searchfn) (suc fuel) startpt g ≡ ok null (behind g.store))
        × (rfind_r posix ndebug true (some searchfn) (suc fuel) startpt g
            ≡ ok null (behind g.store))
  unfolding find_r rfind_r walk
  find_r-null searchfn fuel startpt ne =
      let ns : (null == startpt) ≡ false = ground arith in
      (
        rw (==-ne startpt null ne, with_lock-ok posix held _ g null g.store granted refl, ns),
        rw (==-ne startpt null ne, with_lock-ok posix held _ g null g.store granted refl, ns),
      )

  -- When the lock is granted, the re-entrant insertions and removal at pointers other than `NULL`
  -- leave the store that their counterparts without a mutex leave, and release the mutex.
  pub clist_reentrant-same :
      (cmpfn : Ptr → Ptr → ℤ) (fuel : ℕ) (p n : Ptr) (h : Nodes)
      → p ≢ null
      → n ≢ null
      → (insert_after ndebug p n g.store ≡ ok tt h
          → insert_after_r posix ndebug true p n g ≡ ok tt (behind h))
        × (insert_before ndebug p n g.store ≡ ok tt h
            → insert_before_r posix ndebug true p n g ≡ ok tt (behind h))
        × (insert_inorder ndebug (some cmpfn) fuel p n g.store ≡ ok tt h
            → insert_inorder_r posix ndebug true (some cmpfn) fuel p n g ≡ ok tt (behind h))
        × (unlink ndebug n g.store ≡ ok tt h → unlink_r posix ndebug true n g ≡ ok tt (behind h))
  unfolding insert_after insert_before insert_inorder unlink insert_after_r insert_before_r
      insert_inorder_r unlink_r
  clist_reentrant-same cmpfn fuel p n h pz nz =
      let t = ==-ne p null pz in
      let u = ==-ne n null nz in
      (
        λ e. rw (t, u) (with_lock-ok posix held (link_after p n) g tt h granted (rw (t, u) at e)),
        λ e. rw (t, u) (with_lock-ok posix held (link_before p n) g tt h granted (rw (t, u) at e)),
        λ e.
            rw (t, u)
              (with_lock-ok posix held (insert_where cmpfn fuel p n) g tt h granted
                (rw (t, u) at e)),
        λ e. rw u (with_lock-ok posix held (take_out n) g tt h granted (rw u at e)),
      )
