-- ===== src/Slist.antt =====
-- single-link-list.c. A node's `next` is its first member, so the cell that a list pointer
-- `listptr` designates and the `next` of a node are both pointers at an address: the store is one
-- pointer field, `*listptr` is the cell at `listptr`, and `node->next` the cell at `node`. The
-- comparison callbacks are functions of the addresses. A loop is given `fuel` rounds.
pub mod Shape
pub mod Insert
pub mod Ordered
pub mod Remove
pub mod Find
mod Tests
use common_utils_lib.Base.{
  ℕ, zero, suc, Bool, true, false, not, ◌||◌, Option, none, some, ◌==◌, if◌then◌else◌,
}
use common_utils_lib.Base.Int.{ℤ, pos, negsuc, is_neg}
use common_utils_lib.Machine.{Ptr, null, Run, ok, fault, out_of_fuel, Cmd, pure, ◌>>=◌, ◌>>◌}
use common_utils_lib.Machine.Mutex.{Pthread, with_copy}
use common_utils_lib.Chain.{Field, put}

abbrev pub at_cell : Ptr → Field → Option Ptr → Run Field Ptr
at_cell p f none = fault
at_cell p f (some q) = ok q f

-- `*p` and `p->next`
unfoldable pub load : Ptr → Cmd Field Ptr
load p f = if p == null then fault else at_cell p f (f p)

-- `*p = q` and `p->next = q`
unfoldable pub store : Ptr → Ptr → Cmd Field (Unit {0})
unfolding load
store p q = do _ ← load p; λ f. ok tt (put f p q)

-- `while ( p->next && keep( p->next ) ) p = p->next;`
unfoldable pub seek : (Ptr → Bool) → ℕ → Ptr → Cmd Field Ptr
seek keep zero p = λ _. out_of_fuel
seek keep (suc fuel) p = do
  q ← load p
  if (q == null) || not (keep q) then pure p else seek keep fuel q

unfoldable pub append : ℕ → Ptr → Ptr → Cmd Field Bool
append fuel listptr node = if (listptr == null) || (node == null) then pure false else do
  head ← load listptr
  if head == null
      then (do store node head; store listptr node; pure true)
      else do p ← seek (λ _. true) fuel head; store p node; store node null; pure true

unfoldable pub insert_after : Ptr → Ptr → Cmd Field Bool
insert_after insert_point node =
    if (insert_point == null) || (node == null)
    then pure false
    else do q ← load insert_point; store node q; store insert_point node; pure true

unfoldable pub prepend : Ptr → Ptr → Cmd Field Bool
prepend listptr node =
    if (listptr == null) || (node == null)
    then pure false
    else do q ← load listptr; store node q; store listptr node; pure true

module _ (sortfn : Ptr → Ptr → ℤ) where
  unfoldable pub insert_ordered : ℕ → Ptr → Ptr → Cmd Field Bool
  insert_ordered fuel listptr node = if (listptr == null) || (node == null) then pure false else do
    head ← load listptr
    if head == null
        then (do store listptr node; pure true)
        else if is_neg (sortfn node head)
        then (do store node head; store listptr node; pure true)
        else do
          p ← seek (λ q. not (is_neg (sortfn node q))) fuel head
          q ← load p
          store node q
          store p node
          pure true

unfoldable pub remove : ℕ → Ptr → Ptr → Cmd Field Bool
remove fuel listptr node = if (listptr == null) || (node == null) then pure false else do
  head ← load listptr
  if head == null
      then pure false
      else if head == node
      then (do q ← load node; store listptr q; pure true)
      else do
        p ← seek (λ q. not (q == node)) fuel head
        q ← load p
        if q == node then (do r ← load node; store p r; pure true) else pure false

unfoldable pub remove_after : Ptr → Cmd Field Bool
remove_after remove_point = if remove_point == null then pure false else do
  q ← load remove_point
  if q == null then pure false else do r ← load q; store remove_point r; pure true

abbrev pub is_zero : ℤ → Bool
is_zero (pos n) = n == 0
is_zero (negsuc n) = false

-- `comparefn` is taken at its `comparedata`.
module _ (comparefn : Ptr → ℤ) where
  unfoldable pub find : ℕ → Ptr → Cmd Field Ptr
  find zero rv = λ _. out_of_fuel
  find (suc fuel) rv =
      if (rv == null) || is_zero (comparefn rv) then pure rv else do q ← load rv; find fuel q

-- The re-entrant versions. `append_r` names the mutex in comments only.
module _ (posix : Pthread) where
  open posix use {Mutex}

  unfoldable pub append_r : Mutex → ℕ → Ptr → Ptr → Cmd Field Bool
  append_r mutex fuel listptr node = append fuel listptr node

  unfoldable pub find_r : (Ptr → ℤ) → Mutex → ℕ → Ptr → Cmd Field Ptr
  find_r comparefn mutex fuel list = with_copy posix mutex (find comparefn fuel list)

  unfoldable pub insert_after_r : Mutex → Ptr → Ptr → Cmd Field Bool
  insert_after_r mutex insert_point node =
      if (insert_point == null) || (node == null)
      then pure false
      else with_copy posix mutex
          do q ← load insert_point; store node q; store insert_point node; pure true

  unfoldable pub insert_ordered_r : (Ptr → Ptr → ℤ) → Mutex → ℕ → Ptr → Ptr → Cmd Field Bool
  insert_ordered_r sortfn mutex fuel listptr node =
      with_copy posix mutex (insert_ordered sortfn fuel listptr node)

  unfoldable pub prepend_r : Mutex → Ptr → Ptr → Cmd Field Bool
  prepend_r mutex listptr node =
      if (listptr == null) || (node == null)
      then pure false
      else with_copy posix mutex do q ← load listptr; store node q; store listptr node; pure true

  unfoldable pub remove_r : Mutex → ℕ → Ptr → Ptr → Cmd Field Bool
  remove_r mutex fuel listptr node = with_copy posix mutex (remove fuel listptr node)

  unfoldable pub remove_after_r : Mutex → Ptr → Cmd Field Bool
  remove_after_r mutex remove_point =
      if remove_point == null
      then pure false
      else with_copy posix mutex do
        q ← load remove_point
        if q == null then pure false else do r ← load q; store remove_point r; pure true
