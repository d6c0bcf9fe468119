-- ===== src/Clist/Ordered.antt =====
-- circ_list_insert_inorder against insertion into a list in order.
use common_utils_lib.Base.{
  ℕ, ◌<◌, ◌≡◌, refl, ap, ◌∙◌, inl, inr, Bool, true, false, some, List, [], ◌∷◌, ◌++◌, ==-ne,
  if◌then◌else◌, Bool-cases, length,
}
use common_utils_lib.Base.Int.{ℤ}
use common_utils_lib.Machine.{Ptr, null}
use common_utils_lib.Machine.Returns.{Returns, weaken}
use common_utils_lib.Chain.{first}
use common_utils_lib.Chain.Walk.{take_while, drop_while, last_kept, append_after}
use common_utils_lib.Clist.{Nodes, insert_where, insert_inorder, is_nonpos}
use common_utils_lib.Clist.Ring.{IsRing, IsRing-insert}
use common_utils_lib.Clist.Insert.{IsLoose, next_of-ok, link_before-Between}
use common_utils_lib.Clist.Find.{walk-drop_while}

module _ (cmpfn : Ptr → Ptr → ℤ) where
  -- The node goes in front of the first one that is greater: behind its equals.
  unfoldable pub insert_sorted : Ptr → List Ptr → List Ptr
  insert_sorted n [] = n ∷ []
  insert_sorted n (x ∷ xs) = if is_nonpos (cmpfn x n) then x ∷ insert_sorted n xs else n ∷ x ∷ xs

  -- No node is greater than the one behind it.
  abbrev pub IsSorted : List Ptr → Type 0
  IsSorted [] = Unit
  IsSorted (x ∷ []) = Unit
  IsSorted (x ∷ y ∷ xs) = (is_nonpos (cmpfn x y) ≡ true) × IsSorted (y ∷ xs)

  insert_sorted-split :
      (n : Ptr) (xs : List Ptr)
      → take_while (λ q. is_nonpos (cmpfn q n)) xs ++ n ∷ drop_while (λ q. is_nonpos (cmpfn q n)) xs
        ≡ insert_sorted n xs
  unfolding insert_sorted
  insert_sorted-split n [] = refl
  insert_sorted-split n (x ∷ xs) = elim (Bool-cases (is_nonpos (cmpfn x n))) [
    | inl e ↦ rw e (ap (λ t. x ∷ t) (insert_sorted-split n xs))
    | inr e ↦ rw e
  ]

  module _ (n : Ptr)
      (total : (a : Ptr) → is_nonpos (cmpfn a n) ≡ false → is_nonpos (cmpfn n a) ≡ true) where
    insert_sorted-IsSorted_behind :
        (x : Ptr) (xs : List Ptr)
        → is_nonpos (cmpfn x n) ≡ true
        → IsSorted (x ∷ xs)
        → IsSorted (x ∷ insert_sorted n xs)
    unfolding insert_sorted
    insert_sorted-IsSorted_behind x [] h s = (h, tt)
    insert_sorted-IsSorted_behind x (y ∷ ys) h s = elim (Bool-cases (is_nonpos (cmpfn y n))) [
      | inl e ↦ rw e (s.0, insert_sorted-IsSorted_behind y ys e s.1)
      | inr e ↦ rw e (h, (total y e, s.1))
    ]

    insert_sorted-IsSorted : (xs : List Ptr) → IsSorted xs → IsSorted (insert_sorted n xs)
    unfolding insert_sorted
    insert_sorted-IsSorted [] s = tt
    insert_sorted-IsSorted (x ∷ xs) s = elim (Bool-cases (is_nonpos (cmpfn x n))) [
      | inl e ↦ rw e (insert_sorted-IsSorted_behind x xs e s)
      | inr e ↦ rw e (total x e, s)
    ]

    -- On a well-formed ring in order, with a loose node, more rounds than nodes behind the start
    -- and a comparison under which of two nodes one is not greater, `circ_list_insert_inorder`
    -- leaves the ring with the node in front of the first one that is greater, and in order;
    -- however the library is built.
    pub insert_inorder-IsRing :
        (ndebug : Bool) (h : Nodes) (fuel : ℕ) (x : Ptr) (xs : List Ptr)
        → IsRing h x xs
        → IsLoose h x xs n
        → length xs < fuel
        → IsSorted xs
        → Returns
            (λ _ g. IsRing g x (insert_sorted n xs) × IsSorted (insert_sorted n xs))
            (insert_inorder ndebug (some cmpfn) fuel x n h)
    unfolding insert_inorder insert_where
    insert_inorder-IsRing ndebug h fuel x xs r loose b s =
        let keep = λ (q : Ptr). is_nonpos (cmpfn q n) in
        let (p, stop) = last_kept keep x xs in
        let joined : stop.front ++ p ∷ n ∷ drop_while keep xs ≡ x ∷ insert_sorted n xs =
          append_after stop.front p (x ∷ take_while keep xs) (n ∷ drop_while keep xs) stop.kept
          ∙ ap (λ t. x ∷ t) (insert_sorted-split n xs) in
        rw
          (
            ==-ne x null r.forward.0,
            ==-ne n null loose.ne,
            next_of-ok h x (first xs x) r.forward.0 r.forward.1,
            walk-drop_while h keep x fuel xs r.forward.2 r.forward.0 r.distinct.0 b,
          )
          (weaken
            (link_before-Between h x xs r n loose stop.front p (drop_while keep xs) stop.split)
            λ _ g between. (
              IsRing-insert r stop.front p (drop_while keep xs) stop.split g n (insert_sorted n xs)
                  joined loose.out loose.ne between,
              insert_sorted-IsSorted xs s,
            ))
