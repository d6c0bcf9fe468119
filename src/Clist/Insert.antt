-- ===== src/Clist/Insert.antt =====
-- circ_list_insert_after and circ_list_insert_before on a well-formed ring.
use common_utils_lib.Base.{◌≡◌, ap, sym, ◌∙◌, ◌≢◌, Bool, true, false, some, List, ◌∷◌, ◌++◌, ==-ne}
use common_utils_lib.Machine.{Ptr, null, ok}
use common_utils_lib.Machine.Returns.{Returns, returns, weaken}
use common_utils_lib.Chain.{put, has, first, has-ne, put_ne, ne_null_of_has}
use common_utils_lib.Chain.Splice.{put-Spliced, put-Spliced_back}
use common_utils_lib.Clist.{
  Nodes, at_cell, next_of, prev_of, set_next, set_prev, link_after, link_before, insert_after,
  insert_before,
}
use common_utils_lib.Clist.Ring.{IsRing, Between, ring-at, next-in_ring, IsRing-insert}

module _ (h : Nodes) (p q : Ptr) (ne : p ≢ null) where
  pub next_of-ok : h.next p ≡ some q → next_of p h ≡ ok q h
  unfolding next_of
  next_of-ok e = rw (==-ne p null ne) (ap (λ o. at_cell o h) e)

  pub prev_of-ok : h.prev p ≡ some q → prev_of p h ≡ ok q h
  unfolding prev_of
  prev_of-ok e = rw (==-ne p null ne) (ap (λ o. at_cell o h) e)

  pub set_next-ok :
      (v : Ptr) → h.next p ≡ some q → set_next p v h ≡ ok tt (record h { next = put h.next p v })
  unfolding set_next
  set_next-ok v e = rw (next_of-ok e)

  pub set_prev-ok :
      (v : Ptr) → h.prev p ≡ some q → set_prev p v h ≡ ok tt (record h { prev = put h.prev p v })
  unfolding set_prev
  set_prev-ok v e = rw (prev_of-ok e)

-- A node that the caller may link in: allocated, and in no place of the ring.
pub record IsLoose (h : Nodes) (x : Ptr) (xs : List Ptr) (n : Ptr) : Type 0 where
  pub ne : n ≢ null
  pub out : has n (x ∷ xs) ≡ false
  pub old_next : Ptr
  pub has_next : h.next n ≡ some old_next
  pub old_prev : Ptr
  pub has_prev : h.prev n ≡ some old_prev

module _ (h : Nodes) (x : Ptr) (xs : List Ptr) (r : IsRing h x xs) (n : Ptr)
    (loose : IsLoose h x xs n) (front : List Ptr) (p : Ptr) (back : List Ptr)
    (split : x ∷ xs ≡ front ++ p ∷ back) where
  succ_in : has (first back x) (x ∷ xs) ≡ true
  succ_in =
      next-in_ring p (first back x) r (ring-at r front p back split).0
        (ring-at r front p back split).2

  succ_ne_null : first back x ≢ null
  succ_ne_null = ne_null_of_has h.next (x ∷ xs) x (first back x) r.forward succ_in

  link_after-Between : Returns (λ _ g. Between h g p n (first back x)) (link_after p n h)
  unfolding link_after
  link_after-Between =
      let q = first back x in
      let at = ring-at r front p back split in
      let pn : p ≢ n = has-ne p n (x ∷ xs) at.0 loose.out in
      let qn : q ≢ n = has-ne q n (x ∷ xs) succ_in loose.out in
      let nq : n ≢ q = λ e. qn (sym e) in
      let h1 : Nodes = record h { next = put h.next n q } in
      let h2 : Nodes = record h1 { prev = put h.prev q n } in
      let h3 : Nodes = record h2 { prev = put h2.prev n p } in
      let kept : h1.next p ≡ some q = put_ne h.next n q p pn ∙ at.2 in
      rw
        (
          next_of-ok h p q at.1 at.2,
          set_next-ok h n loose.old_next loose.ne q loose.has_next,
          next_of-ok h1 p q at.1 kept,
          set_prev-ok h1 q p succ_ne_null n (r.back p q at.0 at.2),
          set_prev-ok h2 n loose.old_prev loose.ne p (put_ne h.prev q n n nq ∙ loose.has_prev),
          set_next-ok h3 p q at.1 n kept,
        )
        (returns (record {
          onward = put-Spliced h.next p n q pn;
          backward = put-Spliced_back h.prev q n p qn;
        }))

  -- The writes of circ_list_insert_before and of circ_list_insert_inorder, where `p` is the
  -- `prev` of the node `q` that the new node goes in front of.
  pub link_before-Between :
      Returns (λ _ g. Between h g p n (first back x)) (link_before (first back x) n h)
  unfolding link_before
  link_before-Between =
      let q = first back x in
      let at = ring-at r front p back split in
      let pn : p ≢ n = has-ne p n (x ∷ xs) at.0 loose.out in
      let qn : q ≢ n = has-ne q n (x ∷ xs) succ_in loose.out in
      let np : n ≢ p = λ e. pn (sym e) in
      let back_q : h.prev q ≡ some p = r.back p q at.0 at.2 in
      let h1 : Nodes = record h { prev = put h.prev n p } in
      let h2 : Nodes = record h1 { next = put h.next p n } in
      let h3 : Nodes = record h2 { next = put h2.next n q } in
      let kept : h1.prev q ≡ some p = put_ne h.prev n p q qn ∙ back_q in
      rw
        (
          prev_of-ok h q p succ_ne_null back_q,
          set_prev-ok h n loose.old_prev loose.ne p loose.has_prev,
          prev_of-ok h1 q p succ_ne_null kept,
          set_next-ok h1 p q at.1 n at.2,
          set_next-ok h2 n loose.old_next loose.ne q (put_ne h.next p n n np ∙ loose.has_next),
          set_prev-ok h3 q p succ_ne_null n kept,
        )
        (returns (record {
          onward = put-Spliced_back h.next p n q pn;
          backward = put-Spliced h.prev q n p qn;
        }))

  module _ (ndebug : Bool) (ys : List Ptr) (joined : front ++ p ∷ n ∷ back ≡ x ∷ ys) where
    -- On a well-formed ring and with a loose node, however the library is built,
    -- `circ_list_insert_after` at a node of the ring leaves the ring with the new node right
    -- behind that node.
    pub insert_after-IsRing : Returns (λ _ g. IsRing g x ys) (insert_after ndebug p n h)
    unfolding insert_after
    insert_after-IsRing =
        rw (==-ne p null (ring-at r front p back split).1, ==-ne n null loose.ne)
          (weaken link_after-Between
            λ _ g b. IsRing-insert r front p back split g n ys joined loose.out loose.ne b)

    -- On a well-formed ring and with a loose node, however the library is built,
    -- `circ_list_insert_before` at the node behind `p` (at the start of the ring, if `p` is its
    -- last node) leaves the ring with the new node between the two.
    pub insert_before-IsRing :
        Returns (λ _ g. IsRing g x ys) (insert_before ndebug (first back x) n h)
    unfolding insert_before
    insert_before-IsRing =
        rw (==-ne (first back x) null succ_ne_null, ==-ne n null loose.ne)
          (weaken link_before-Between
            λ _ g b. IsRing-insert r front p back split g n ys joined loose.out loose.ne b)
