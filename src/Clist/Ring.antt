-- ===== src/Clist/Ring.antt =====
-- The rings that a store holds, and what linking a node in and out does to one.
use mathlib.Core.Path.{subst}
use common_utils_lib.Base.{
  ◌≡◌, ap, sym, ◌∙◌, ◌≢◌, ◌⊎◌, inl, inr, true, false, ◌||◌, some, List, [], ◌∷◌, ◌++◌, arith, ◌==◌,
  Bool-cases,
}
use common_utils_lib.Machine.{Ptr, null}
use common_utils_lib.Chain.{
  Field, has, IsDistinct, first, IsLinked, has-ne, IsLinked-at, has-middle, has-append, frame,
}
use common_utils_lib.Chain.Splice.{Spliced, IsLinked-insert, IsDistinct-insert}
use common_utils_lib.Clist.{Nodes}

-- From `x` on the `next` pointers lead through the distinct nodes `xs` and back to `x`, and the
-- `prev` of each node is the node whose `next` it is.
pub record IsRing (h : Nodes) (x : Ptr) (xs : List Ptr) : Type 0 where
  pub forward : IsLinked h.next (x ∷ xs) x
  pub distinct : IsDistinct (x ∷ xs)
  pub back : (a b : Ptr) → has a (x ∷ xs) ≡ true → h.next a ≡ some b → h.prev b ≡ some a

-- `n` linked in between `p` and `q`, on both sides.
pub record Between (h g : Nodes) (p n q : Ptr) : Type 0 where
  pub onward : Spliced h.next g.next p n q
  pub backward : Spliced h.prev g.prev q n p

pub some_injective : (a b : Ptr) → some a ≡ some b → a ≡ b
some_injective a b e = cc

pub ne_of_values :
    (f : Field) (a p c q : Ptr) → f c ≡ some a → f q ≡ some p → (a == p) ≡ false → c ≢ q
ne_of_values f a p c q u v d e =
    let same : a ≡ p = some_injective a p (sym u ∙ ap f e ∙ v) in ground (arith, same)

pub has_pair : (c q n : Ptr) → c ≢ q → c ≢ n → has c (q ∷ n ∷ []) ≡ false
has_pair c q n u v = ground arith

-- The `next` of a node of a chain is in the chain or its end.
pub next-in :
    (f : Field) (xs : List Ptr) (stop a b : Ptr)
    → IsLinked f xs stop
    → has a xs ≡ true
    → f a ≡ some b
    → (has b xs ≡ true) ⊎ (b ≡ stop)
next-in f [] stop a b l i e = cc
next-in f (x ∷ []) stop a b l i e = ground (arith, l.1)
next-in f (x ∷ y ∷ xs) stop a b l i e = elim (Bool-cases (a == x)) [
  | inl s ↦ ground (arith, l.1)
  | inr s ↦ ground (arith, next-in f (y ∷ xs) stop a b l.2)
]

pub next-in_ring :
    {h : Nodes} {x : Ptr} {xs : List Ptr} (a b : Ptr)
    → IsRing h x xs
    → has a (x ∷ xs) ≡ true
    → h.next a ≡ some b
    → has b (x ∷ xs) ≡ true
next-in_ring {h} {x} {xs} a b r i e = ground (arith, next-in h.next (x ∷ xs) x a b r.forward i e)

-- A ring survives every change that spares its nodes.
pub IsRing-frame :
    {h g : Nodes} {x : Ptr} {xs : List Ptr}
    → IsRing h x xs
    → ((a : Ptr) → has a (x ∷ xs) ≡ true → (g.next a ≡ h.next a) × (g.prev a ≡ h.prev a))
    → IsRing g x xs
IsRing-frame {h} {g} {x} {xs} r kept = record {
  forward = frame (x ∷ xs) x r.forward λ a i. (kept a i).0;
  distinct = r.distinct;
  back = λ a b i e.
      let e' : h.next a ≡ some b = sym (kept a i).0 ∙ e in
      (kept b (next-in_ring a b r i e')).1 ∙ r.back a b i e';
}

module _ {h : Nodes} {x : Ptr} {xs : List Ptr} (r : IsRing h x xs) (front : List Ptr) (p : Ptr)
    (back : List Ptr) (split : x ∷ xs ≡ front ++ p ∷ back) where
  pub ring-at : (has p (x ∷ xs) ≡ true) × (p ≢ null) × (h.next p ≡ some (first back x))
  ring-at =
      let at =
        IsLinked-at h.next front p back x (subst (λ t. IsLinked h.next t x) split r.forward) in
      (subst (λ t. has p t ≡ true) (sym split) (has-middle front p back), at.0, at.1)

  old_or_new :
      (a n : Ptr) (ys : List Ptr)
      → front ++ p ∷ n ∷ back ≡ x ∷ ys
      → has a (x ∷ ys) ≡ true
      → ((a == n) || has a (x ∷ xs)) ≡ true
  old_or_new a n ys e i =
      let i' : has a (front ++ p ∷ n ∷ back) ≡ true = subst (λ t. has a t ≡ true) (sym e) i in
      subst (λ t. ((a == n) || has a t) ≡ true) (sym split)
        (ground (arith, has-append a front (p ∷ n ∷ back), has-append a front (p ∷ back)))

  -- The `prev` pointers stay inverse to the `next` pointers.
  back_insert :
      (g : Nodes) (n : Ptr)
      → has n (x ∷ xs) ≡ false
      → Between h g p n (first back x)
      → (a c : Ptr) → ((a == n) || has a (x ∷ xs)) ≡ true
      → g.next a ≡ some c
      → g.prev c ≡ some a
  back_insert g n out b a c i f =
      let q = first back x in
      elim (Bool-cases (a == n)) [
        | inl s ↦ ground (arith, b.onward.inserted, b.backward.before)
        | inr s ↦ elim (Bool-cases (a == p)) [
          | inl t ↦ ground (arith, b.onward.before, b.backward.inserted)
          | inr t ↦
              let i' : has a (x ∷ xs) ≡ true = ground arith in
              let f' : h.next a ≡ some c = sym (b.onward.rest a (ground arith)) ∙ f in
              let m = r.back a c i' f' in
              let m' : h.prev q ≡ some p = r.back p q ring-at.0 ring-at.2 in
              let cn : c ≢ n = has-ne c n (x ∷ xs) (next-in_ring a c r i' f') out in
              let cq : c ≢ q = ne_of_values h.prev a p c q m m' t in
              b.backward.rest c (has_pair c q n cq cn) ∙ m
        ]
      ]

  -- `n` linked in behind `p`.
  pub IsRing-insert :
      (g : Nodes) (n : Ptr) (ys : List Ptr)
      → front ++ p ∷ n ∷ back ≡ x ∷ ys
      → has n (x ∷ xs) ≡ false
      → n ≢ null
      → Between h g p n (first back x)
      → IsRing g x ys
  IsRing-insert g n ys e out ne b =
      let q = first back x in
      let d : IsDistinct (front ++ p ∷ back) = subst IsDistinct split r.distinct in
      let l : IsLinked h.next (front ++ p ∷ back) x =
        subst (λ t. IsLinked h.next t x) split r.forward in
      let o : has n (front ++ p ∷ back) ≡ false = subst (λ t. has n t ≡ false) split out in
      record {
        forward =
            subst (λ t. IsLinked g.next t x) e (IsLinked-insert front p n back x l d o ne b.onward);
        distinct = subst IsDistinct e (IsDistinct-insert front p n back d o);
        back = λ a c i f. back_insert g n out b a c (old_or_new a n ys e i) f;
      }
