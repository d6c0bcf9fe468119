-- ===== src/Slist/Find.antt =====
-- slinklst_find, the guards on NULL, and the re-entrant versions of single-link-list.c.
use common_utils_lib.Base.{
  ℕ, zero, suc, ◌<◌, ◌≡◌, refl, ◌≢◌, true, false, ◌||◌, none, some, List, [], ◌∷◌, arith, ◌==◌,
  ==-ne, if◌then◌else◌, Bool-cases, inl, inr, length, ◌⊎◌,
}
use common_utils_lib.Base.Int.{ℤ}
use common_utils_lib.Machine.{Ptr, null, ok, blocked}
use common_utils_lib.Machine.Mutex.{Pthread, with_copy-ok, with_copy-blocked}
use common_utils_lib.Chain.{Field, put, IsLinked, first}
use common_utils_lib.Slist.{
  append, insert_after, prepend, insert_ordered, remove, remove_after, find, is_zero, append_r,
  find_r, insert_after_r, insert_ordered_r, prepend_r, remove_r, remove_after_r,
}
use common_utils_lib.Slist.Shape.{IsList, load-ok, store-ok}

-- The first node that compares equal, `NULL` if none does.
unfoldable pub first_match : (Ptr → ℤ) → List Ptr → Ptr
first_match comparefn [] = null
first_match comparefn (x ∷ xs) = if is_zero (comparefn x) then x else first_match comparefn xs

-- Along a chain of nodes that ends at `NULL`, `slinklst_find` with more rounds than nodes returns
-- the first node that compares equal, or `NULL` if there is none, and changes nothing.
pub find-first_match :
    (f : Field) (comparefn : Ptr → ℤ) (fuel : ℕ) (xs : List Ptr)
    → IsLinked f xs null
    → length xs < fuel
    → find comparefn fuel (first xs null) f ≡ ok (first_match comparefn xs) f
unfolding find first_match
find-first_match f comparefn zero xs l h = absurd (omega arith)
find-first_match f comparefn (suc fuel) [] l h = refl
find-first_match f comparefn (suc fuel) (x ∷ xs) l h = elim (Bool-cases (is_zero (comparefn x))) [
  | inl e ↦ rw (==-ne x null l.0, e)
  | inr e ↦
      rw (==-ne x null l.0, e, load-ok f x (first xs null) l.0 l.1)
        (find-first_match f comparefn fuel xs l.2 (omega arith))
]

-- With `NULL` for the list pointer (the insertion point, the removal point) or for the node, every
-- operation that changes a list returns false and changes nothing.
pub null_guards :
    (f : Field) (sortfn : Ptr → Ptr → ℤ) (fuel : ℕ) (p n : Ptr)
    → (p ≡ null) ⊎ (n ≡ null)
    → (append fuel p n f ≡ ok false f)
      × (prepend p n f ≡ ok false f)
      × (insert_after p n f ≡ ok false f)
      × (insert_ordered sortfn fuel p n f ≡ ok false f)
      × (remove fuel p n f ≡ ok false f)
      × (remove_after null f ≡ ok false f)
unfolding append prepend insert_after insert_ordered remove remove_after
null_guards f sortfn fuel p n h =
    let t : ((p == null) || (n == null)) ≡ true = ground arith in
    (rw t, rw t, rw t, rw t, rw t, refl)

-- On an empty list `slinklst_insert_ordered` stores the node in the list pointer and leaves the
-- node's `next` as it was: unless that is `NULL` already, the node does not end the list.
pub insert_ordered_empty :
    (f : Field) (sortfn : Ptr → Ptr → ℤ) (fuel : ℕ) (lp node w : Ptr)
    → lp ≢ null
    → node ≢ null
    → lp ≢ node
    → f lp ≡ some null
    → f node ≡ some w
    → w ≢ null
    → (insert_ordered sortfn fuel lp node f ≡ ok true (put f lp node))
      × (put f lp node node ≡ some w)
      × ¬ (IsList (put f lp node) lp (node ∷ []))
unfolding insert_ordered
insert_ordered_empty f sortfn fuel lp node w ln nn d e en wn = (
  rw (==-ne lp null ln, ==-ne node null nn, load-ok f lp null ln e, store-ok f lp null ln e node),
  ground arith,
  λ is. ground (arith, is.linked.2.1),
)

module _ (posix : Pthread) where
  open posix use {Mutex, lock}

  -- When the lock of the mutex's copy is granted, each re-entrant version does what its
  -- counterpart without a mutex does, on every store. When it is not granted, each of them but
  -- `slinklst_append_r` is blocked (those that test their arguments for `NULL` first return false
  -- for it); `slinklst_append_r` takes no lock: it does what `slinklst_append` does then, too.
  pub slist_reentrant-same :
      (m held busy : Mutex) (sortfn : Ptr → Ptr → ℤ) (comparefn : Ptr → ℤ) (fuel : ℕ) (p n : Ptr)
      (f : Field)
      → lock m ≡ some held
      → lock busy ≡ none
      → (append_r posix m fuel p n f ≡ append fuel p n f)
        × (append_r posix busy fuel p n f ≡ append fuel p n f)
        × (prepend_r posix m p n f ≡ prepend p n f)
        × (prepend_r posix busy p n f
            ≡ (if (p == null) || (n == null) then ok false f else blocked))
        × (insert_after_r posix m p n f ≡ insert_after p n f)
        × (insert_after_r posix busy p n f
            ≡ (if (p == null) || (n == null) then ok false f else blocked))
        × (insert_ordered_r posix sortfn m fuel p n f ≡ insert_ordered sortfn fuel p n f)
        × (insert_ordered_r posix sortfn busy fuel p n f ≡ blocked)
        × (remove_r posix m fuel p n f ≡ remove fuel p n f)
        × (remove_r posix busy fuel p n f ≡ blocked)
        × (remove_after_r posix m p f ≡ remove_after p f)
        × (remove_after_r posix busy p f ≡ (if p == null then ok false f else blocked))
        × (find_r posix comparefn m fuel p f ≡ find comparefn fuel p f)
        × (find_r posix comparefn busy fuel p f ≡ blocked)
  unfolding append_r prepend_r insert_after_r insert_ordered_r remove_r remove_after_r find_r
      prepend insert_after remove_after
  slist_reentrant-same m held busy sortfn comparefn fuel p n f h no_lock = (
    refl,
    refl,
    elim (Bool-cases ((p == null) || (n == null))) [
      | inl e ↦ rw e
      | inr e ↦ rw e (with_copy-ok posix m held _ f h)
    ],
    elim (Bool-cases ((p == null) || (n == null))) [
      | inl e ↦ rw e refl
      | inr e ↦ rw e (with_copy-blocked posix busy _ f no_lock)
    ],
    elim (Bool-cases ((p == null) || (n == null))) [
      | inl e ↦ rw e
      | inr e ↦ rw e (with_copy-ok posix m held _ f h)
    ],
    elim (Bool-cases ((p == null) || (n == null))) [
      | inl e ↦ rw e refl
      | inr e ↦ rw e (with_copy-blocked posix busy _ f no_lock)
    ],
    with_copy-ok posix m held _ f h,
    with_copy-blocked posix busy _ f no_lock,
    with_copy-ok posix m held _ f h,
    with_copy-blocked posix busy _ f no_lock,
    elim (Bool-cases (p == null)) [ inl e ↦ rw e | inr e ↦ rw e (with_copy-ok posix m held _ f h) ],
    elim (Bool-cases (p == null)) [
      | inl e ↦ rw e refl
      | inr e ↦ rw e (with_copy-blocked posix busy _ f no_lock)
    ],
    with_copy-ok posix m held _ f h,
    with_copy-blocked posix busy _ f no_lock,
  )
