-- ===== src/Slist/Shape.antt =====
-- The lists that a store holds, and what the loop of single-link-list.c finds in one.
pub use common_utils_lib.Chain.{IsLinked-at, has-middle}
pub use common_utils_lib.Chain.Splice.{put-Spliced}
pub use common_utils_lib.Chain.Walk.{take_while, drop_while, Stopped, take_while_all, append_after}
use mathlib.Core.Path.{subst}
use common_utils_lib.Base.{
  ℕ, zero, suc, ◌<◌, ◌≡◌, refl, ap, sym, ◌≢◌, Bool, true, false, some, List, [], ◌∷◌, ◌++◌, arith,
  ◌==◌, Bool-cases, inl, inr, length,
}
use common_utils_lib.Machine.{Ptr, null, ok, pure, ◌>>◌}
use common_utils_lib.Machine.Returns.{Returns, returns}
use common_utils_lib.Chain.{has-ne, Field, put, has, IsDistinct, first, IsLinked, SameOutside}
use common_utils_lib.Chain.Splice.{
  Spliced, Skipped, IsLinked-insert, IsLinked-remove, IsDistinct-insert, IsDistinct-remove,
}
use common_utils_lib.Slist.{load, store, seek}

-- The list pointer at `lp` heads the distinct nodes `xs`, the last of which points at `NULL`.
pub record IsList (f : Field) (lp : Ptr) (xs : List Ptr) : Type 0 where
  pub linked : IsLinked f (lp ∷ xs) null
  pub distinct : IsDistinct (lp ∷ xs)

module _ (f : Field) (p q : Ptr) (ne : p ≢ null) (e : f p ≡ some q) where
  pub load-ok : load p f ≡ ok q f
  unfolding load
  load-ok = rw e (ground arith)

  pub store-ok : (v : Ptr) → store p v f ≡ ok tt (put f p v)
  unfolding store
  store-ok v = rw load-ok

module _ {f : Field} (keep : Ptr → Bool) where
  pub seek-Stopped :
      (fuel : ℕ) (x : Ptr) (xs : List Ptr)
      → IsLinked f (x ∷ xs) null
      → length xs < fuel
      → (p : Ptr) × (seek keep fuel x f ≡ ok p f) × Stopped keep x xs p
  unfolding seek
  seek-Stopped zero x xs l h = absurd (omega arith)
  seek-Stopped (suc fuel) x [] l h =
      (x, rw (load-ok f x null l.0 l.1), record { front = []; kept = refl; split = refl })
  seek-Stopped (suc fuel) x (y ∷ ys) l h =
      let ih = seek-Stopped fuel y ys l.2 (omega arith) in
      let nz : (y == null) ≡ false = ground arith in
      elim (Bool-cases (keep y)) [
        | inl k ↦ (
          ih.0,
          rw (load-ok f x y l.0 l.1, nz, k) ih.1,
          record {
            front = x ∷ ih.2.front;
            kept = rw k (ap (λ t. x ∷ t) ih.2.kept);
            split = rw k (ap (λ t. x ∷ t) ih.2.split);
          },
        )
        | inr k ↦
            (x, rw (load-ok f x y l.0 l.1, nz, k), record { front = []; kept = rw k; split = rw k })
      ]

-- A node linked in behind the node `p` of the list, at the place that `ys` shows.
pub IsList-insert :
    {f g : Field} {lp : Ptr} {xs : List Ptr} (front : List Ptr) (p n : Ptr) (back ys : List Ptr)
    → IsList f lp xs
    → lp ∷ xs ≡ front ++ p ∷ back
    → front ++ p ∷ n ∷ back ≡ lp ∷ ys
    → has n (lp ∷ xs) ≡ false
    → n ≢ null
    → Spliced f g p n (first back null)
    → IsList g lp ys
IsList-insert {f} {g} {lp} {xs} front p n back ys is e e' out ne s =
    let d : IsDistinct (front ++ p ∷ back) = subst IsDistinct e is.distinct in
    let l : IsLinked f (front ++ p ∷ back) null = subst (λ t. IsLinked f t null) e is.linked in
    let o : has n (front ++ p ∷ back) ≡ false = subst (λ t. has n t ≡ false) e out in
    record {
      linked = subst (λ t. IsLinked g t null) e' (IsLinked-insert front p n back null l d o ne s);
      distinct = subst IsDistinct e' (IsDistinct-insert front p n back d o);
    }

-- The successor `n` of the node `p` taken out.
pub IsList-remove :
    {f g : Field} {lp : Ptr} {xs : List Ptr} (front : List Ptr) (p n : Ptr) (back ys : List Ptr)
    → IsList f lp xs
    → lp ∷ xs ≡ front ++ p ∷ n ∷ back
    → front ++ p ∷ back ≡ lp ∷ ys
    → Skipped f g p n (first back null)
    → IsList g lp ys × (has n (lp ∷ ys) ≡ false)
IsList-remove {f} {g} {lp} {xs} front p n back ys is e e' s =
    let d : IsDistinct (front ++ p ∷ n ∷ back) = subst IsDistinct e is.distinct in
    let l : IsLinked f (front ++ p ∷ n ∷ back) null = subst (λ t. IsLinked f t null) e is.linked in
    let rest = IsDistinct-remove front p n back d in
    (
      record {
        linked = subst (λ t. IsLinked g t null) e' (IsLinked-remove front p n back null l d s);
        distinct = subst IsDistinct e' rest.0;
      },
      subst (λ t. has n t ≡ false) e' rest.1,
    )

-- A node that the caller may link in: allocated, and in no place of the list.
pub record IsLoose (f : Field) (lp : Ptr) (xs : List Ptr) (node : Ptr) : Type 0 where
  pub ne : node ≢ null
  pub out : has node (lp ∷ xs) ≡ false
  pub old : Ptr
  pub allocated : f node ≡ some old

-- The run returns `r` and leaves the list `ys`, and writes nowhere but at `touched`.
abbrev pub Leaves : Field → Ptr → Bool → List Ptr → List Ptr → Bool → Field → Type 0
Leaves f lp r ys touched r' g = (r' ≡ r) × IsList g lp ys × SameOutside touched f g

-- `node->next = q; p->next = node; return CMNUTIL_TRUE;` where `p->next` is `q`.
pub link_behind-Leaves :
    (f : Field) (lp n : Ptr) (xs front : List Ptr) (p : Ptr) (back ys : List Ptr)
    → IsList f lp xs
    → IsLoose f lp xs n
    → lp ∷ xs ≡ front ++ p ∷ back
    → front ++ p ∷ n ∷ back ≡ lp ∷ ys
    → Returns
        (Leaves f lp true ys (p ∷ n ∷ []))
        ((store n (first back null) >> (store p n >> pure true)) f)
link_behind-Leaves f lp n xs front p back ys is loose e e' =
    let at = IsLinked-at f front p back null (subst (λ t. IsLinked f t null) e is.linked) in
    let i : has p (lp ∷ xs) ≡ true =
      subst (λ t. has p t ≡ true) (sym e) (has-middle front p back) in
    let d : p ≢ n = has-ne p n (lp ∷ xs) i loose.out in
    let q = first back null in
    rw
      (
        store-ok f n loose.old loose.ne loose.allocated q,
        store-ok (put f n q) p q at.0 (ground arith) n,
      )
      (returns (
        refl,
        IsList-insert front p n back ys is e e' loose.out loose.ne (put-Spliced f p n q d),
        (put-Spliced f p n q d).rest,
      ))

pub widen :
    {f g : Field} (p n : Ptr) (xs : List Ptr)
    → SameOutside (p ∷ n ∷ []) f g
    → has p xs ≡ true
    → SameOutside (n ∷ xs) f g
widen p n xs same i a o = same a (ground (arith, has-ne p a xs i))

-- `p->next = node; node->next = NULL; return CMNUTIL_TRUE;` at the last node `p`.
pub link_end-Leaves :
    (f : Field) (lp n : Ptr) (xs front : List Ptr) (p : Ptr) (ys : List Ptr)
    → IsList f lp xs
    → IsLoose f lp xs n
    → lp ∷ xs ≡ front ++ p ∷ []
    → front ++ p ∷ n ∷ [] ≡ lp ∷ ys
    → Returns (Leaves f lp true ys (n ∷ lp ∷ xs)) ((store p n >> (store n null >> pure true)) f)
link_end-Leaves f lp n xs front p ys is loose e e' =
    let at = IsLinked-at f front p [] null (subst (λ t. IsLinked f t null) e is.linked) in
    let i : has p (lp ∷ xs) ≡ true = subst (λ t. has p t ≡ true) (sym e) (has-middle front p []) in
    let d : p ≢ n = has-ne p n (lp ∷ xs) i loose.out in
    let s : Spliced f (put (put f p n) n null) p n null = record {
      before = ground arith;
      inserted = ground arith;
      rest = λ a o. ground arith;
    } in
    rw
      (
        store-ok f p null at.0 at.1 n,
        store-ok (put f p n) n loose.old loose.ne (ground (arith, loose.allocated)) null,
      )
      (returns (
        refl,
        IsList-insert front p n [] ys is e e' loose.out loose.ne s,
        widen p n (lp ∷ xs) s.rest i,
      ))
