-- ===== src/Slist/Remove.antt =====
-- slinklst_remove and slinklst_remove_after on a well-formed list.
use mathlib.Core.Path.{subst}
use common_utils_lib.Base.{
  ℕ, ◌<◌, ◌≡◌, refl, ap, sym, ◌∙◌, ◌≢◌, Bool, true, false, not, some, List, [], ◌∷◌, ◌++◌, arith,
  ◌==◌, ==-ne, ==_refl, if◌then◌else◌, Bool-cases, inl, inr, length, ◌⊎◌,
}
use common_utils_lib.Machine.{Ptr, null, pure, ◌>>=◌, ◌>>◌}
use common_utils_lib.Machine.Returns.{Returns, returns}
use common_utils_lib.Chain.{Field, put, has, IsLinked, first, has-ne, put_ne}
use common_utils_lib.Chain.Splice.{Skipped}
use common_utils_lib.Slist.{load, store, seek, remove, remove_after}
use common_utils_lib.Slist.Shape.{
  IsList, Leaves, load-ok, store-ok, seek-Stopped, IsLinked-at, take_while, drop_while,
  append_after, has-middle, IsList-remove,
}

-- The first occurrence of `n` taken out.
unfoldable pub erase : Ptr → List Ptr → List Ptr
erase n [] = []
erase n (x ∷ xs) = if x == n then xs else x ∷ erase n xs

-- The list that a run of `slinklst_remove` leaves, with what it returns.
abbrev pub Erases : Field → Ptr → Ptr → List Ptr → Bool → Field → Type 0
Erases f lp node xs = Leaves f lp (has node xs) (erase node xs) (lp ∷ xs)

abbrev other_than : Ptr → Ptr → Bool
other_than n q = not (q == n)

erase-cases :
    (n : Ptr) (xs : List Ptr)
    → ((drop_while (other_than n) xs ≡ []) × (has n xs ≡ false) × (erase n xs ≡ xs))
      ⊎ ((back : List Ptr) × (drop_while (other_than n) xs ≡ n ∷ back)
          × (has n xs ≡ true)
          × (erase n xs ≡ take_while (other_than n) xs ++ back))
unfolding erase
erase-cases n [] = inl (refl, refl, refl)
erase-cases n (x ∷ xs) = elim (Bool-cases (x == n)) [
  | inl e ↦ inr (xs, rw e (ap (λ t. t ∷ xs) (ground arith)), ground arith, rw e)
  | inr e ↦
      let o : (n == x) ≡ false = ground arith in
      elim (erase-cases n xs) [
        | inl (d, h, r) ↦ inl (rw e d, rw o h, rw e (ap (λ t. x ∷ t) r))
        | inr (back, d, h, r) ↦ inr (back, rw e d, rw o h, rw e (ap (λ t. x ∷ t) r))
      ]
]

-- `p->next = p->next->next; return CMNUTIL_TRUE;` at a node `p` with the successor `n`.
unlink_behind-Leaves :
    (f : Field) (lp : Ptr) (xs front : List Ptr) (p n : Ptr) (back ys : List Ptr)
    → IsList f lp xs
    → lp ∷ xs ≡ front ++ p ∷ n ∷ back
    → front ++ p ∷ back ≡ lp ∷ ys
    → Returns (Leaves f lp true ys (lp ∷ xs)) ((do r ← load n; store p r; pure true) f)
unlink_behind-Leaves f lp xs front p n back ys is e e' =
    let l : IsLinked f (front ++ p ∷ n ∷ back) null = subst (λ t. IsLinked f t null) e is.linked in
    let at = IsLinked-at f front p (n ∷ back) null l in
    let i : has p (lp ∷ xs) ≡ true =
      subst (λ t. has p t ≡ true) (sym e) (has-middle front p (n ∷ back)) in
    let s : Skipped f (put f p (first back null)) p n (first back null) = record {
      before = ground arith;
      rest = λ a o. ground arith;
    } in
    rw (load-ok f n (first back null) at.2.0 at.2.1, store-ok f p n at.0 at.1 (first back null))
      (returns (
        refl,
        (IsList-remove front p n back ys is e e' s).0,
        λ a o. put_ne f p (first back null) a (λ z. has-ne p a (lp ∷ xs) i o (sym z)),
      ))

abbrev pub is_nil : List Ptr → Bool
is_nil [] = true
is_nil (x ∷ xs) = false

abbrev pub tail : List Ptr → List Ptr
tail [] = []
tail (x ∷ xs) = xs

module _ (f : Field) (lp : Ptr) where
  remove_found :
      (fuel : ℕ) (node x : Ptr) (xs : List Ptr)
      → IsList f lp (x ∷ xs)
      → length xs < fuel
      → node ≢ null
      → (x == node) ≡ false
      → Returns (Leaves f lp (has node xs) (x ∷ erase node xs) (lp ∷ x ∷ xs)) (
          (do
            p ← seek (λ q. not (q == node)) fuel x
            q ← load p
            if q == node then (do r ← load node; store p r; pure true) else pure false)
            f)
  remove_found fuel node x xs is h ne e =
      let (p, r, stop) = seek-Stopped (other_than node) fuel x xs is.linked.2 h in
      let split : lp ∷ x ∷ xs ≡ (lp ∷ stop.front) ++ p ∷ drop_while (other_than node) xs =
        ap (λ t. lp ∷ t) stop.split in
      let at =
        IsLinked-at f (lp ∷ stop.front) p (drop_while (other_than node) xs) null
          (subst (λ t. IsLinked f t null) split is.linked) in
      elim (erase-cases node xs) [
        | inl (d, miss, same) ↦
            rw (r, load-ok f p null at.0 (at.1 ∙ ap (λ t. some (first t null)) d), miss, same)
              (rw (==-ne null node λ z. ne (sym z)) (returns (refl, is, λ a o. refl)))
        | inr (back, d, hit, er) ↦
            rw (r, load-ok f p node at.0 (at.1 ∙ ap (λ t. some (first t null)) d), hit, er)
              (rw (==_refl node) (
                unlink_behind-Leaves f lp (x ∷ xs) (lp ∷ stop.front) p node back
                  (x ∷ take_while (other_than node) xs ++ back) is
                  (split ∙ ap (λ t. (lp ∷ stop.front) ++ p ∷ t) d)
                  (ap (λ t. lp ∷ t)
                    (append_after stop.front p (x ∷ take_while (other_than node) xs) back
                      stop.kept))))
      ]

  -- On a well-formed list, with more rounds than nodes, `slinklst_remove` of a node other than
  -- `NULL` returns whether the node is in the list, takes it out if it is, and leaves the order of
  -- the others; it writes at most the list pointer and the nodes of the list.
  pub remove-erase :
      (fuel : ℕ) (node : Ptr) (xs : List Ptr)
      → IsList f lp xs
      → length xs < fuel
      → node ≢ null
      → Returns (Erases f lp node xs) (remove fuel lp node f)
  unfolding remove erase
  remove-erase fuel node [] is h ne =
      rw (==-ne lp null is.linked.0, ==-ne node null ne, load-ok f lp null is.linked.0 is.linked.1)
        (returns (refl, is, λ a o. refl))
  remove-erase fuel node (x ∷ xs) is h ne =
      rw
        (
          ==-ne lp null is.linked.0,
          ==-ne node null ne,
          load-ok f lp x is.linked.0 is.linked.1,
          ==-ne x null is.linked.2.0,
        )
        (elim (Bool-cases (x == node)) [
          | inl e ↦
              let o : (node == x) ≡ true = ground arith in
              let same : x ≡ node = ground arith in
              rw (e, o)
                (subst
                  (λ t.
                    Returns (Leaves f lp true xs (lp ∷ x ∷ xs))
                      ((do r ← load t; store lp r; pure true) f))
                  same (unlink_behind-Leaves f lp (x ∷ xs) [] lp x xs xs is refl refl))
          | inr e ↦
              let o : (node == x) ≡ false = ground arith in
              rw (e, o) (remove_found fuel node x xs is (omega arith) ne e)
        ])

  -- At a node of a well-formed list `slinklst_remove_after` takes out the node behind it and
  -- returns true, and at the last node it returns false and changes nothing.
  pub remove_after-splice :
      (xs : List Ptr) (p : Ptr) (ys : List Ptr)
      → IsList f lp (xs ++ p ∷ ys)
      → Returns
          (Leaves f lp (not (is_nil ys)) (xs ++ p ∷ tail ys) (lp ∷ xs ++ p ∷ ys))
          (remove_after p f)
  unfolding remove_after
  remove_after-splice xs p [] is =
      let at = IsLinked-at f (lp ∷ xs) p [] null is.linked in
      rw (==-ne p null at.0, load-ok f p null at.0 at.1) (returns (refl, is, λ a o. refl))
  remove_after-splice xs p (n ∷ ys) is =
      let at = IsLinked-at f (lp ∷ xs) p (n ∷ ys) null is.linked in
      rw (==-ne p null at.0, load-ok f p n at.0 at.1, ==-ne n null at.2.0)
        (unlink_behind-Leaves f lp (xs ++ p ∷ n ∷ ys) (lp ∷ xs) p n ys (xs ++ p ∷ ys) is refl refl)
