-- ===== src/Slist/Ordered.antt =====
-- slinklst_insert_ordered against insertion into a list in order.
use common_utils_lib.Base.{
  ℕ, ◌<◌, ◌≡◌, refl, ap, sym, ◌∙◌, true, false, not, some, List, [], ◌∷◌, ◌++◌, arith, ==-ne,
  if◌then◌else◌, Bool-cases, inl, inr, length,
}
use common_utils_lib.Base.Int.{ℤ, is_neg}
use common_utils_lib.Machine.{Ptr, null, ok, ◌>>=◌, ◌>>◌}
use common_utils_lib.Machine.Returns.{Returns, returns, weaken}
use common_utils_lib.Chain.{Field, has, IsLinked, first}
use common_utils_lib.Slist.{load, store, seek, insert_ordered}
use common_utils_lib.Slist.Shape.{
  IsList, IsLoose, Leaves, load-ok, store-ok, seek-Stopped, IsLinked-at, take_while, drop_while,
  link_behind-Leaves, append_after, widen, has-middle,
}
use mathlib.Core.Path.{subst}

module _ (sortfn : Ptr → Ptr → ℤ) where
  -- The node goes in front of the first one that it sorts before.
  unfoldable pub insert_sorted : Ptr → List Ptr → List Ptr
  insert_sorted n [] = n ∷ []
  insert_sorted n (x ∷ xs) = if is_neg (sortfn n x) then n ∷ x ∷ xs else x ∷ insert_sorted n xs

  -- No node sorts before the one in front of it.
  abbrev pub IsSorted : List Ptr → Type 0
  IsSorted [] = Unit
  IsSorted (x ∷ []) = Unit
  IsSorted (x ∷ y ∷ xs) = (is_neg (sortfn y x) ≡ false) × IsSorted (y ∷ xs)

  insert_sorted-split :
      (n : Ptr) (xs : List Ptr)
      → insert_sorted n xs
        ≡ take_while (λ q. not (is_neg (sortfn n q))) xs
          ++ n ∷ drop_while (λ q. not (is_neg (sortfn n q))) xs
  unfolding insert_sorted
  insert_sorted-split n [] = refl
  insert_sorted-split n (x ∷ xs) = elim (Bool-cases (is_neg (sortfn n x))) [
    | inl e ↦ rw e
    | inr e ↦ rw (e, insert_sorted-split n xs)
  ]

  insert_sorted-IsSorted_behind :
      (n x : Ptr) (xs : List Ptr)
      → ((a b : Ptr) → is_neg (sortfn a b) ≡ true → is_neg (sortfn b a) ≡ false)
      → is_neg (sortfn n x) ≡ false
      → IsSorted (x ∷ xs)
      → IsSorted (x ∷ insert_sorted n xs)
  unfolding insert_sorted
  insert_sorted-IsSorted_behind n x [] asym h s = (h, tt)
  insert_sorted-IsSorted_behind n x (y ∷ ys) asym h s = elim (Bool-cases (is_neg (sortfn n y))) [
    | inl e ↦ rw e (h, (asym n y e, s.1))
    | inr e ↦ rw e (s.0, insert_sorted-IsSorted_behind n y ys asym e s.1)
  ]

  insert_sorted-IsSorted :
      (n : Ptr) (xs : List Ptr)
      → ((a b : Ptr) → is_neg (sortfn a b) ≡ true → is_neg (sortfn b a) ≡ false)
      → IsSorted xs
      → IsSorted (insert_sorted n xs)
  unfolding insert_sorted
  insert_sorted-IsSorted n [] asym s = tt
  insert_sorted-IsSorted n (x ∷ xs) asym s = elim (Bool-cases (is_neg (sortfn n x))) [
    | inl e ↦ rw e (asym n x e, s)
    | inr e ↦ rw e (insert_sorted-IsSorted_behind n x xs asym e s)
  ]

  module _ (f : Field) (lp node : Ptr) where
    behind_first :
        (fuel : ℕ) (x : Ptr) (xs : List Ptr)
        → IsList f lp (x ∷ xs)
        → IsLoose f lp (x ∷ xs) node
        → length xs < fuel
        → Returns (Leaves f lp true (x ∷ insert_sorted node xs) (node ∷ lp ∷ x ∷ xs)) (
            (do
              p ← seek (λ q. not (is_neg (sortfn node q))) fuel x
              q ← load p
              store node q
              store p node
              ok true)
              f)
    behind_first fuel x xs is loose h =
        let keep = λ (q : Ptr). not (is_neg (sortfn node q)) in
        let (p, r, stop) = seek-Stopped keep fuel x xs is.linked.2 h in
        let split : lp ∷ x ∷ xs ≡ (lp ∷ stop.front) ++ p ∷ drop_while keep xs =
          ap (λ t. lp ∷ t) stop.split in
        let at =
          IsLinked-at f (lp ∷ stop.front) p (drop_while keep xs) null
            (subst (λ t. IsLinked f t null) split is.linked) in
        let i : has p (lp ∷ x ∷ xs) ≡ true =
          subst (λ t. has p t ≡ true) (sym split)
            (has-middle (lp ∷ stop.front) p (drop_while keep xs)) in
        rw (r, load-ok f p (first (drop_while keep xs) null) at.0 at.1)
          (weaken
            (link_behind-Leaves f lp node (x ∷ xs) (lp ∷ stop.front) p (drop_while keep xs)
              (x ∷ insert_sorted node xs) is loose split
              (ap (λ t. lp ∷ t)
                (append_after stop.front p (x ∷ take_while keep xs) (node ∷ drop_while keep xs)
                    stop.kept
                  ∙ ap (λ t. x ∷ t) (sym (insert_sorted-split node xs)))))
            λ b g (r', l, same). (r', l, widen p node (lp ∷ x ∷ xs) same i))

    -- On a well-formed list in order, with a loose node, more rounds than nodes and a comparison
    -- that never puts two nodes before one another, `slinklst_insert_ordered` returns true, puts
    -- the node in front of the first one that it sorts before, and leaves the list in order. On an
    -- empty list this wants the node's `next` to be `NULL` before the call.
    pub insert_ordered-insert_sorted :
        (fuel : ℕ) (xs : List Ptr)
        → IsList f lp xs
        → IsLoose f lp xs node
        → length xs < fuel
        → (xs ≡ [] → f node ≡ some null)
        → ((a b : Ptr) → is_neg (sortfn a b) ≡ true → is_neg (sortfn b a) ≡ false)
        → IsSorted xs
        → Returns
            (Leaves f lp true (insert_sorted node xs) (node ∷ lp ∷ xs))
            (insert_ordered sortfn fuel lp node f)
          × IsSorted (insert_sorted node xs)
    unfolding insert_ordered insert_sorted
    insert_ordered-insert_sorted fuel [] is loose h ends asym s = (
      rw
          (
            ==-ne lp null is.linked.0,
            ==-ne node null loose.ne,
            load-ok f lp null is.linked.0 is.linked.1,
            store-ok f lp null is.linked.0 is.linked.1 node,
          )
          (returns (
            refl,
            record {
              linked =
                  (is.linked.0, ground arith, (loose.ne, ground (arith, loose.out, ends refl), tt));
              distinct = ground (arith, loose.out);
            },
            λ a o. ground arith,
          )),
      tt,
    )
    insert_ordered-insert_sorted fuel (x ∷ xs) is loose h ends asym s = (
      rw
          (
            ==-ne lp null is.linked.0,
            ==-ne node null loose.ne,
            load-ok f lp x is.linked.0 is.linked.1,
            ==-ne x null is.linked.2.0,
          )
          (elim (Bool-cases (is_neg (sortfn node x))) [
            | inl e ↦ rw e (
                weaken
                  (link_behind-Leaves f lp node (x ∷ xs) [] lp (x ∷ xs) (node ∷ x ∷ xs) is loose
                    refl refl)
                  λ b g (r, l, same). (r, l, widen lp node (lp ∷ x ∷ xs) same (ground arith)))
            | inr e ↦ rw e (behind_first fuel x xs is loose (omega arith))
          ]),
      insert_sorted-IsSorted node (x ∷ xs) asym s,
    )
