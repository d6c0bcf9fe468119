-- ===== src/Slist/Insert.antt =====
-- slinklst_prepend, slinklst_insert_after and slinklst_append on a well-formed list.
use common_utils_lib.Base.{ℕ, ◌<◌, refl, ap, ◌∙◌, true, List, [], ◌∷◌, ◌++◌, arith, ==-ne, length}
use common_utils_lib.Machine.{Ptr, null}
use common_utils_lib.Machine.Returns.{Returns, weaken}
use common_utils_lib.Chain.{Field, first}
use common_utils_lib.Slist.{append, insert_after, prepend}
use common_utils_lib.Slist.Shape.{
  IsList, IsLoose, Leaves, load-ok, seek-Stopped, IsLinked-at, link_behind-Leaves, widen,
  link_end-Leaves, take_while_all, append_after,
}

module _ (f : Field) (lp node : Ptr) where
  -- On a well-formed list and with a loose node, `slinklst_prepend` returns true, puts the node in
  -- front, and writes only the list pointer and the node.
  pub prepend-cons :
      (xs : List Ptr)
      → IsList f lp xs
      → IsLoose f lp xs node
      → Returns (Leaves f lp true (node ∷ xs) (lp ∷ node ∷ [])) (prepend lp node f)
  unfolding prepend
  prepend-cons xs is loose =
      let t0 = ==-ne lp null is.linked.0 in
      let t1 = ==-ne node null loose.ne in
      rw (t0, t1, load-ok f lp (first xs null) is.linked.0 is.linked.1)
        (link_behind-Leaves f lp node xs [] lp xs (node ∷ xs) is loose refl refl)

  -- `slinklst_insert_after` at a node `p` of the list returns true, puts the node right behind
  -- `p`, and writes only those two nodes.
  pub insert_after-splice :
      (xs : List Ptr) (p : Ptr) (ys : List Ptr)
      → IsList f lp (xs ++ p ∷ ys)
      → IsLoose f lp (xs ++ p ∷ ys) node
      → Returns (Leaves f lp true (xs ++ p ∷ node ∷ ys) (p ∷ node ∷ [])) (insert_after p node f)
  unfolding insert_after
  insert_after-splice xs p ys is loose =
      let at = IsLinked-at f (lp ∷ xs) p ys null is.linked in
      let t0 = ==-ne p null at.0 in
      let t1 = ==-ne node null loose.ne in
      rw (t0, t1, load-ok f p (first ys null) at.0 at.1)
        (link_behind-Leaves f lp node (xs ++ p ∷ ys) (lp ∷ xs) p ys (xs ++ p ∷ node ∷ ys) is loose
          refl refl)

  -- `slinklst_append` with more rounds than nodes returns true and puts the node at the end; it
  -- writes the node and, of the list, at most the pointers that are there already.
  pub append-snoc :
      (fuel : ℕ) (xs : List Ptr)
      → IsList f lp xs
      → IsLoose f lp xs node
      → length xs < fuel
      → Returns (Leaves f lp true (xs ++ node ∷ []) (node ∷ lp ∷ xs)) (append fuel lp node f)
  unfolding append
  append-snoc fuel [] is loose h =
      let t0 = ==-ne lp null is.linked.0 in
      let t1 = ==-ne node null loose.ne in
      rw (t0, t1, load-ok f lp null is.linked.0 is.linked.1)
        (weaken (link_behind-Leaves f lp node [] [] lp [] (node ∷ []) is loose refl refl)
          λ b g (r, l, same). (r, l, widen lp node (lp ∷ []) same (ground arith)))
  append-snoc fuel (x ∷ xs) is loose h =
      let t0 = ==-ne lp null is.linked.0 in
      let t1 = ==-ne node null loose.ne in
      let t2 = ==-ne x null is.linked.2.0 in
      let (p, e, stop) = seek-Stopped (λ _. true) fuel x xs is.linked.2 (omega arith) in
      let all = take_while_all xs in
      rw (t0, t1, load-ok f lp x is.linked.0 is.linked.1, t2, e)
        (link_end-Leaves f lp node (x ∷ xs) (lp ∷ stop.front) p (x ∷ xs ++ node ∷ []) is loose
          (ap (λ t. lp ∷ t) (stop.split ∙ ap (λ t. stop.front ++ p ∷ t) all.1))
          (ap (λ t. lp ∷ t)
            (append_after stop.front p (x ∷ xs) (node ∷ []) (stop.kept ∙ ap (λ t. x ∷ t) all.0))))
