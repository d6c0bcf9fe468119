-- ===== src/Clist/Unlink.antt =====
-- circ_list_unlink on a well-formed ring.
use mathlib.Core.Path.{subst}
use mathlib.Core.List.{append_assoc}
use common_utils_lib.Base.{
  ◌≡◌, refl, sym, ◌∙◌, ◌≢◌, Bool, true, false, some, List, [], ◌∷◌, ◌++◌, arith, ◌==◌, ==-ne,
  ==_refl, Bool-cases, inl, inr,
}
use common_utils_lib.Machine.{Ptr, null}
use common_utils_lib.Machine.Returns.{Returns, returns, weaken}
use common_utils_lib.Chain.{
  put, has, first, has-ne, put_ne, put_self, ne_null_of_has, IsDistinct, IsLinked, has-append,
  has-middle,
}
use common_utils_lib.Chain.Splice.{IsLinked-remove, IsDistinct-remove}
use common_utils_lib.Clist.{Nodes, take_out, unlink}
use common_utils_lib.Clist.Ring.{IsRing, ring-at, ne_of_values, has_pair}
use common_utils_lib.Clist.Insert.{next_of-ok, prev_of-ok, set_next-ok, set_prev-ok}

-- `g` is `h` with the neighbours `p` and `q` of `n` linked.
pub record Skips (h g : Nodes) (p n q : Ptr) : Type 0 where
  pub onward : g.next p ≡ some q
  pub backward : g.prev q ≡ some p
  pub rest_next : (a : Ptr) → has a (p ∷ n ∷ []) ≡ false → g.next a ≡ h.next a
  pub rest_prev : (a : Ptr) → has a (q ∷ n ∷ []) ≡ false → g.prev a ≡ h.prev a

-- What the four writes leave: `n` alone, and its neighbours `p` and `q` linked.
record Closed (h g : Nodes) (p n q : Ptr) : Type 0 where
  skips : Skips h g p n q
  alone_next : g.next n ≡ some n
  alone_prev : g.prev n ≡ some n

first-in :
    (front : List Ptr) (p : Ptr) (back : List Ptr) (x : Ptr) (ys : List Ptr)
    → front ++ p ∷ back ≡ x ∷ ys
    → has (first back x) (x ∷ ys) ≡ true
first-in front p [] x ys e = ground arith
first-in front p (b ∷ bs) x ys e =
    subst (λ t. has b t ≡ true) e (ground (arith, has-append b front (p ∷ b ∷ bs)))

module _ (h : Nodes) (x : Ptr) (xs : List Ptr) (r : IsRing h x xs) (front : List Ptr) (p n : Ptr)
    (back : List Ptr) (split : x ∷ xs ≡ front ++ p ∷ n ∷ back) where
  shifted : x ∷ xs ≡ (front ++ p ∷ []) ++ n ∷ back
  shifted = split ∙ sym (append_assoc front (p ∷ []) (n ∷ back))

  pub at_p : (has p (x ∷ xs) ≡ true) × (p ≢ null) × (h.next p ≡ some n)
  at_p = ring-at r front p (n ∷ back) split

  pub at_n : (has n (x ∷ xs) ≡ true) × (n ≢ null) × (h.next n ≡ some (first back x))
  at_n = ring-at r (front ++ p ∷ []) n back shifted

  remains : IsDistinct (front ++ p ∷ back) × (has n (front ++ p ∷ back) ≡ false)
  remains = IsDistinct-remove front p n back (subst IsDistinct split r.distinct)

  module _ (ys : List Ptr) (joined : front ++ p ∷ back ≡ x ∷ ys) where
    out_n : has n (x ∷ ys) ≡ false
    out_n = subst (λ t. has n t ≡ false) joined remains.1

    pub p_ne_n : p ≢ n
    p_ne_n = has-ne p n (front ++ p ∷ back) (has-middle front p back) remains.1

    in_old : (a : Ptr) → has a (x ∷ ys) ≡ true → has a (x ∷ xs) ≡ true
    in_old a i =
        let i' : has a (front ++ p ∷ back) ≡ true = subst (λ t. has a t ≡ true) (sym joined) i in
        subst (λ t. has a t ≡ true) (sym split)
          (ground (arith, has-append a front (p ∷ n ∷ back), has-append a front (p ∷ back)))

    -- The node behind `n` is one that stays.
    pub q_ne_n : first back x ≢ n
    q_ne_n = has-ne (first back x) n (x ∷ ys) (first-in front p back x ys joined) out_n

    pub Skips-IsRing : (g : Nodes) → Skips h g p n (first back x) → IsRing g x ys
    Skips-IsRing g c =
        let q = first back x in
        record {
          forward =
              subst (λ t. IsLinked g.next t x) joined
                (IsLinked-remove front p n back x (subst (λ t. IsLinked h.next t x) split r.forward)
                  (subst IsDistinct split r.distinct)
                  (record { before = c.onward; rest = c.rest_next }));
          distinct = subst IsDistinct joined remains.0;
          back = λ a b i f.
              let an : a ≢ n = has-ne a n (x ∷ ys) i out_n in
              elim (Bool-cases (a == p)) [
                | inl s ↦ ground (arith, c.onward, c.backward)
                | inr s ↦
                    let f' : h.next a ≡ some b = sym (c.rest_next a (ground arith)) ∙ f in
                    let m = r.back a b (in_old a i) f' in
                    let bn : b ≢ n = ne_of_values h.prev a p b n m (r.back p n at_p.0 at_p.2) s in
                    let bq : b ≢ q =
                      ne_of_values h.prev a n b q m (r.back n q at_n.0 at_n.2) (==-ne a n an) in
                    c.rest_prev b (has_pair b q n bq bn) ∙ m
              ];
        }

    take_out-Closed : Returns (λ _ g. Closed h g p n (first back x)) (take_out n h)
    unfolding take_out
    take_out-Closed =
        let q = first back x in
        let np : n ≢ p = λ e. p_ne_n (sym e) in
        let nq : n ≢ q = λ e. q_ne_n (sym e) in
        let prev_n : h.prev n ≡ some p = r.back p n at_p.0 at_p.2 in
        let prev_q : h.prev q ≡ some n = r.back n q at_n.0 at_n.2 in
        let qz : q ≢ null =
          ne_null_of_has h.next (x ∷ xs) x q r.forward
            (in_old q (first-in front p back x ys joined)) in
        let h1 : Nodes = record h { next = put h.next p q } in
        let h2 : Nodes = record h1 { prev = put h.prev q p } in
        let h3 : Nodes = record h2 { next = put h2.next n n } in
        rw
          (
            prev_of-ok h n p at_n.1 prev_n,
            next_of-ok h n q at_n.1 at_n.2,
            next_of-ok h p n at_p.1 at_p.2,
            ==_refl n,
            prev_of-ok h q n qz prev_q,
            ==_refl n,
            set_next-ok h p n at_p.1 q at_p.2,
            set_prev-ok h1 q n qz p prev_q,
            set_next-ok h2 n q at_n.1 n (put_ne h.next p q n np ∙ at_n.2),
            set_prev-ok h3 n p at_n.1 n (put_ne h.prev q p n nq ∙ prev_n),
          )
          (returns (record {
            skips = record {
              onward = put_ne (put h.next p q) n n p p_ne_n ∙ put_self h.next p q;
              backward = put_ne (put h.prev q p) n n q q_ne_n ∙ put_self h.prev q p;
              rest_next = λ a o. ground arith;
              rest_prev = λ a o. ground arith;
            };
            alone_next = put_self (put h.next p q) n n;
            alone_prev = put_self (put h.prev q p) n n;
          }))

    -- On a well-formed ring, however the library is built, `circ_list_unlink` of a node `n` other
    -- than the one that the ring is entered by closes the ring behind it, in the same order, and
    -- leaves `n` as a ring of its own.
    pub unlink-IsRing :
        (ndebug : Bool) → Returns (λ _ g. IsRing g x ys × IsRing g n []) (unlink ndebug n h)
    unfolding unlink
    unlink-IsRing ndebug = rw (==-ne n null at_n.1) (
        weaken take_out-Closed λ _ g c. (
          Skips-IsRing g c.skips,
          record {
            forward = (at_n.1, c.alone_next, tt);
            distinct = (refl, tt);
            back = λ a b i e. ground (arith, c.alone_next, c.alone_prev);
          },
        ))
