-- ===== src/Chain/Splice.antt =====
-- Inserting a node behind another one, and taking one out.
use common_utils_lib.Base.{◌≡◌, ap, ◌∙◌, ◌≢◌, false, some, List, [], ◌∷◌, ◌++◌, arith}
use common_utils_lib.Machine.{Ptr, null}
use common_utils_lib.Chain.{
  Field, put, has, IsDistinct, first, IsLinked, SameOutside, has-append, first-append, frame,
}

-- `g` is `f` with `n` linked in behind `p`, in front of `next`.
pub record Spliced (f g : Field) (p n next : Ptr) : Type 0 where
  pub before : g p ≡ some n
  pub inserted : g n ≡ some next
  pub rest : SameOutside (p ∷ n ∷ []) f g

-- `g` is `f` with `p` pointing past its successor `n` to `next`.
pub record Skipped (f g : Field) (p n next : Ptr) : Type 0 where
  pub before : g p ≡ some next
  pub rest : SameOutside (p ∷ n ∷ []) f g

pub IsDistinct-insert :
    (xs : List Ptr) (p n : Ptr) (ys : List Ptr)
    → IsDistinct (xs ++ p ∷ ys)
    → has n (xs ++ p ∷ ys) ≡ false
    → IsDistinct (xs ++ p ∷ n ∷ ys)
IsDistinct-insert [] p n ys d out = ground arith
IsDistinct-insert (x ∷ xs) p n ys d out = (
  ground (arith, has-append x xs (p ∷ n ∷ ys), has-append x xs (p ∷ ys)),
  IsDistinct-insert xs p n ys d.1 (ground arith),
)

pub IsDistinct-remove :
    (xs : List Ptr) (p n : Ptr) (ys : List Ptr)
    → IsDistinct (xs ++ p ∷ n ∷ ys)
    → IsDistinct (xs ++ p ∷ ys) × (has n (xs ++ p ∷ ys) ≡ false)
IsDistinct-remove [] p n ys d = ground arith
IsDistinct-remove (x ∷ xs) p n ys d =
    let ih = IsDistinct-remove xs p n ys d.1 in
    (
      (ground (arith, has-append x xs (p ∷ n ∷ ys), has-append x xs (p ∷ ys)), ih.0),
      ground (arith, ih, has-append x xs (p ∷ n ∷ ys)),
    )

pub IsLinked-insert :
    {f g : Field} (xs : List Ptr) (p n : Ptr) (ys : List Ptr) (stop : Ptr)
    → IsLinked f (xs ++ p ∷ ys) stop
    → IsDistinct (xs ++ p ∷ ys)
    → has n (xs ++ p ∷ ys) ≡ false
    → n ≢ null
    → Spliced f g p n (first ys stop)
    → IsLinked g (xs ++ p ∷ n ∷ ys) stop
IsLinked-insert [] p n ys stop l d out ne s =
    (l.0, s.before, (ne, s.inserted, frame ys stop l.2 λ a i. s.rest a (ground arith)))
IsLinked-insert (x ∷ xs) p n ys stop l d out ne s = (
  l.0,
  s.rest x (ground (arith, has-append x xs (p ∷ ys)))
      ∙ l.1
      ∙ ap some (first-append xs p ys (n ∷ ys) stop),
  IsLinked-insert xs p n ys stop l.2 d.1 (ground arith) ne s,
)

pub IsLinked-remove :
    {f g : Field} (xs : List Ptr) (p n : Ptr) (ys : List Ptr) (stop : Ptr)
    → IsLinked f (xs ++ p ∷ n ∷ ys) stop
    → IsDistinct (xs ++ p ∷ n ∷ ys)
    → Skipped f g p n (first ys stop)
    → IsLinked g (xs ++ p ∷ ys) stop
IsLinked-remove [] p n ys stop l d s =
    (l.0, s.before, frame ys stop l.2.2 λ a i. s.rest a (ground arith))
IsLinked-remove (x ∷ xs) p n ys stop l d s = (
  l.0,
  s.rest x (ground (arith, has-append x xs (p ∷ n ∷ ys)))
      ∙ l.1
      ∙ ap some (first-append xs p (n ∷ ys) ys stop),
  IsLinked-remove xs p n ys stop l.2 d.1 s,
)

-- The two writes of an insertion, in either order.
pub put-Spliced : (f : Field) (p n q : Ptr) → p ≢ n → Spliced f (put (put f n q) p n) p n q
put-Spliced f p n q ne = record {
  before = ground arith;
  inserted = ground arith;
  rest = λ a o. ground arith;
}

pub put-Spliced_back : (f : Field) (p n q : Ptr) → p ≢ n → Spliced f (put (put f p n) n q) p n q
put-Spliced_back f p n q ne = record {
  before = ground arith;
  inserted = ground arith;
  rest = λ a o. ground arith;
}
