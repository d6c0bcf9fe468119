-- ===== src/Clist.antt =====
-- circ-link-list.c. The store holds the `next` and the `prev` of every node. `ndebug` tells how
-- the library is built: with NDEBUG the ASSERT_EXIT_... macros return, without it they abort. The
-- callbacks are functions of the addresses. A loop is given `fuel` rounds.
pub mod Ring
pub mod Insert
pub mod Unlink
pub mod Find
pub mod Ordered
pub mod Reentrant
mod Tests
use common_utils_lib.Base.{
  ℕ, zero, suc, Bool, true, false, not, ◌&&◌, ◌||◌, Option, none, some, ◌==◌, if◌then◌else◌,
}
use common_utils_lib.Base.Int.{ℤ, pos, negsuc}
use common_utils_lib.Machine.{
  Ptr, null, Run, ok, fault, aborted, out_of_fuel, Cmd, pure, ◌>>=◌, ◌>>◌,
}
use common_utils_lib.Machine.Mutex.{Pthread, with_lock}
use common_utils_lib.Chain.{Field, put}

pub record Nodes : Type 0 where
  pub next : Field
  pub prev : Field

abbrev pub at_cell : Option Ptr → Cmd Nodes Ptr
at_cell none h = fault
at_cell (some q) h = ok q h

-- `p->next`, `p->prev`, `p->next = q`, `p->prev = q`
unfoldable pub next_of : Ptr → Cmd Nodes Ptr
next_of p h = if p == null then fault else at_cell (h.next p) h

unfoldable pub prev_of : Ptr → Cmd Nodes Ptr
prev_of p h = if p == null then fault else at_cell (h.prev p) h

unfoldable pub set_next : Ptr → Ptr → Cmd Nodes (Unit {0})
unfolding next_of
set_next p q = do _ ← next_of p; λ h. ok tt (record h { next = put h.next p q })

unfoldable pub set_prev : Ptr → Ptr → Cmd Nodes (Unit {0})
unfolding prev_of
set_prev p q = do _ ← prev_of p; λ h. ok tt (record h { prev = put h.prev p q })

-- `INIT_node_dbl( n )`
unfoldable pub init : Ptr → Cmd Nodes (Unit {0})
init n = do set_next n n; set_prev n n

-- ASSERT_EXIT_NULL, ASSERT_EXIT_VOID
abbrev pub assert_exit : {S A : Type 0} → Bool → Bool → A → Cmd S A → Cmd S A
assert_exit ndebug test d body = if test then body else if ndebug then pure d else λ _. aborted

abbrev pub is_nonzero : ℤ → Bool
is_nonzero (pos n) = not (n == 0)
is_nonzero (negsuc n) = true

-- `cmpfn (...) <= 0`
abbrev pub is_nonpos : ℤ → Bool
is_nonpos (pos n) = n == 0
is_nonpos (negsuc n) = true

-- `while ( rv && ( rv != startpt ) && keep( rv ) ) rv = rv->step;`
unfoldable pub walk : (Ptr → Cmd Nodes Ptr) → (Ptr → Bool) → Ptr → ℕ → Ptr → Cmd Nodes Ptr
walk step keep startpt zero rv = λ _. out_of_fuel
walk step keep startpt (suc fuel) rv =
    if not (rv == null) && (not (rv == startpt) && keep rv)
    then (do q ← step rv; walk step keep startpt fuel q)
    else pure rv

-- `( rv == startpt ) ? NIL_node_dbl : rv`
abbrev pub unless_start : Ptr → Ptr → Ptr
unless_start startpt rv = if rv == startpt then null else rv

abbrev pub is_nonnull : Ptr → Bool
is_nonnull p = not (p == null)

-- The four writes of an insertion of `node` between `before` and its `next`, in the order of
-- circ_list_insert_after.
unfoldable pub link_after : Ptr → Ptr → Cmd Nodes (Unit {0})
link_after inspt node = do
  q ← next_of inspt
  set_next node q
  q' ← next_of inspt
  set_prev q' node
  set_prev node inspt
  set_next inspt node

-- The same in the order of circ_list_insert_before and circ_list_insert_inorder.
unfoldable pub link_before : Ptr → Ptr → Cmd Nodes (Unit {0})
link_before inspt node = do
  q ← prev_of inspt
  set_prev node q
  q' ← prev_of inspt
  set_next q' node
  set_next node inspt
  set_prev inspt node

-- The same in the order of circ_list_unlink, where both neighbours point back at `node`.
unfoldable pub take_out : Ptr → Cmd Nodes (Unit {0})
take_out node = do
  p ← prev_of node
  q ← next_of node
  p' ← next_of p
  if p' == node
      then (do
        q' ← prev_of q
        if q' == node
            then (do set_next p q; set_prev q p; set_next node node; set_prev node node)
            else pure tt)
      else pure tt

-- The loop, and the same four writes in front of the node where it stops.
unfoldable pub insert_where : (Ptr → Ptr → ℤ) → ℕ → Ptr → Ptr → Cmd Nodes (Unit {0})
insert_where cmpfn fuel startpt node = do
  q ← next_of startpt
  nn ← walk next_of (λ p. is_nonpos (cmpfn p node)) startpt fuel q
  link_before nn node

module _ (ndebug : Bool) where
  -- `searchfn` is taken at its `searchdata`; `none` is a `NULL` function pointer.
  unfoldable pub find : (searchfn : Option (Ptr → ℤ)) → ℕ → Ptr → Cmd Nodes Ptr
  find none fuel startpt =
      assert_exit ndebug (is_nonnull startpt) null (assert_exit ndebug false null (pure null))
  find (some searchfn) fuel startpt = assert_exit ndebug (is_nonnull startpt) null do
    q ← next_of startpt
    rv ← walk next_of (λ p. not (is_nonzero (searchfn p))) startpt fuel q
    pure (unless_start startpt rv)

  unfoldable pub rfind : (searchfn : Option (Ptr → ℤ)) → ℕ → Ptr → Cmd Nodes Ptr
  rfind none fuel startpt =
      assert_exit ndebug (is_nonnull startpt) null (assert_exit ndebug false null (pure null))
  rfind (some searchfn) fuel startpt = assert_exit ndebug (is_nonnull startpt) null do
    q ← prev_of startpt
    rv ← walk prev_of (λ p. not (is_nonzero (searchfn p))) startpt fuel q
    pure (unless_start startpt rv)

  unfoldable pub insert_after : Ptr → Ptr → Cmd Nodes (Unit {0})
  insert_after inspt node =
      assert_exit ndebug (is_nonnull inspt) tt
        (assert_exit ndebug (is_nonnull node) tt (link_after inspt node))

  unfoldable pub insert_before : Ptr → Ptr → Cmd Nodes (Unit {0})
  insert_before inspt node =
      assert_exit ndebug (is_nonnull inspt) tt
        (assert_exit ndebug (is_nonnull node) tt (link_before inspt node))

  unfoldable pub insert_inorder :
      (cmpfn : Option (Ptr → Ptr → ℤ)) → ℕ → Ptr → Ptr → Cmd Nodes (Unit {0})
  insert_inorder none fuel startpt node =
      assert_exit ndebug (is_nonnull startpt) tt
        (assert_exit ndebug (is_nonnull node) tt (assert_exit ndebug false tt (pure tt)))
  insert_inorder (some cmpfn) fuel startpt node =
      assert_exit ndebug (is_nonnull startpt) tt
        (assert_exit ndebug (is_nonnull node) tt (insert_where cmpfn fuel startpt node))

  unfoldable pub unlink : Ptr → Cmd Nodes (Unit {0})
  unlink node = assert_exit ndebug (is_nonnull node) tt (take_out node)
