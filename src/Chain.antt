-- ===== src/Chain.antt =====
-- Nodes linked by one pointer field, as the lists of the library are: which addresses a walk along
-- that field meets, and what inserting and removing a node does to them.
pub mod Splice
pub mod Walk
use mathlib.Core.Bool.{or_assoc}
use common_utils_lib.Base.{
  ◌≡◌, refl, ap, ◌∙◌, ◌≢◌, Bool, true, false, ◌||◌, Option, none, some, List, [], ◌∷◌, ◌++◌, arith,
  ◌==◌, ==-ne, if◌then◌else◌,
}
use common_utils_lib.Machine.{Ptr, null}

-- One pointer field at every address; `none` where no node is allocated.
abbrev pub Field : Type 0
Field = Ptr → Option Ptr

-- `a->field = v`
abbrev pub put : Field → Ptr → Ptr → Field
put f a v b = if b == a then some v else f b

abbrev pub has : Ptr → List Ptr → Bool
has a [] = false
has a (x ∷ xs) = (a == x) || has a xs

abbrev pub IsDistinct : List Ptr → Type 0
IsDistinct [] = Unit
IsDistinct (x ∷ xs) = (has x xs ≡ false) × IsDistinct xs

-- The node that a walk meets first.
abbrev pub first : List Ptr → Ptr → Ptr
first [] stop = stop
first (x ∷ xs) stop = x

-- Each node of the list points at the next one, the last at `stop`.
abbrev pub IsLinked : Field → List Ptr → Ptr → Type 0
IsLinked f [] stop = Unit
IsLinked f (x ∷ xs) stop = (x ≢ null) × (f x ≡ some (first xs stop)) × IsLinked f xs stop

-- `g` differs from `f` at most at the addresses listed.
abbrev pub SameOutside : List Ptr → Field → Field → Type 0
SameOutside xs f g = (a : Ptr) → has a xs ≡ false → g a ≡ f a

pub has-append : (a : Ptr) (xs ys : List Ptr) → has a (xs ++ ys) ≡ (has a xs || has a ys)
has-append a [] ys = refl
has-append a (x ∷ xs) ys = rw (has-append a xs ys, or_assoc)

pub first-append :
    (xs : List Ptr) (y : Ptr) (ys zs : List Ptr) (stop : Ptr)
    → first (xs ++ y ∷ ys) stop ≡ first (xs ++ y ∷ zs) stop
first-append [] y ys zs stop = refl
first-append (x ∷ xs) y ys zs stop = refl

-- A chain survives every change that spares its nodes.
pub frame :
    {f g : Field} (xs : List Ptr) (stop : Ptr)
    → IsLinked f xs stop
    → ((a : Ptr) → has a xs ≡ true → g a ≡ f a)
    → IsLinked g xs stop
frame [] stop l same = tt
frame (x ∷ xs) stop (ne, e, l) same =
    (ne, same x (ground arith) ∙ e, frame xs stop l λ a i. same a (ground arith))

pub has-ne : (a b : Ptr) (xs : List Ptr) → has a xs ≡ true → has b xs ≡ false → a ≢ b
has-ne a b xs p q e = cc (ap (λ c. has c xs) e)

-- What a node in the middle of a chain points at.
pub IsLinked-at :
    (f : Field) (front : List Ptr) (p : Ptr) (back : List Ptr) (stop : Ptr)
    → IsLinked f (front ++ p ∷ back) stop
    → (p ≢ null) × (f p ≡ some (first back stop)) × IsLinked f back stop
IsLinked-at f [] p back stop l = (l.0, l.1, l.2)
IsLinked-at f (x ∷ front) p back stop l = IsLinked-at f front p back stop l.2

pub has-middle : (front : List Ptr) (p : Ptr) (back : List Ptr) → has p (front ++ p ∷ back) ≡ true
has-middle [] p back = ground arith
has-middle (x ∷ front) p back = ground (arith, has-middle front p back)

pub put_self : (f : Field) (a v : Ptr) → put f a v a ≡ some v
put_self f a v = ground arith

pub put_ne : (f : Field) (a v b : Ptr) → b ≢ a → put f a v b ≡ f b
put_ne f a v b ne = rw (==-ne b a ne)

pub ne_null_of_has :
    (f : Field) (xs : List Ptr) (stop a : Ptr) → IsLinked f xs stop → has a xs ≡ true → a ≢ null
ne_null_of_has f [] stop a l i = cc
ne_null_of_has f (x ∷ xs) stop a l i = ground (arith, l.0, ne_null_of_has f xs stop a l.2)
