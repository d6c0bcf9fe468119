-- ===== src/Clist/Find.antt =====
-- circ_list_find on a well-formed ring, and the loop that it shares with
-- circ_list_insert_inorder.
use common_utils_lib.Base.{
  ℕ, zero, suc, ◌<◌, ◌≡◌, ap, ◌≢◌, inl, inr, Bool, false, not, some, List, [], ◌∷◌, arith, ◌==◌,
  ==-ne, ==_refl, if◌then◌else◌, Bool-cases, length,
}
use common_utils_lib.Base.Int.{ℤ}
use common_utils_lib.Machine.{Ptr, null, ok}
use common_utils_lib.Chain.{has, first, IsLinked}
use common_utils_lib.Chain.Walk.{drop_while}
use common_utils_lib.Clist.{Nodes, next_of, walk, find, is_nonzero, unless_start}
use common_utils_lib.Clist.Ring.{IsRing}
use common_utils_lib.Clist.Insert.{next_of-ok}

-- The loop goes on as long as the test holds, and stops at the start of the ring at the latest.
pub walk-drop_while :
    (h : Nodes) (keep : Ptr → Bool) (x : Ptr) (fuel : ℕ) (xs : List Ptr)
    → IsLinked h.next xs x
    → x ≢ null
    → has x xs ≡ false
    → length xs < fuel
    → walk next_of keep x fuel (first xs x) h ≡ ok (first (drop_while keep xs) x) h
unfolding walk
walk-drop_while h keep x zero xs l nz o b = absurd (omega arith)
walk-drop_while h keep x (suc fuel) [] l nz o b = rw (==-ne x null nz, ==_refl x)
walk-drop_while h keep x (suc fuel) (y ∷ ys) l nz o b =
    let yx : (y == x) ≡ false = ground arith in
    elim (Bool-cases (keep y)) [
      | inl k ↦
          rw (==-ne y null l.0, yx, k, next_of-ok h y (first ys x) l.0 l.1)
            (walk-drop_while h keep x fuel ys l.2 nz (ground arith) (omega arith))
      | inr k ↦ rw (==-ne y null l.0, yx, k)
    ]

-- The first node that the search function accepts, `NULL` if none does.
unfoldable pub first_match : (Ptr → ℤ) → List Ptr → Ptr
first_match searchfn [] = null
first_match searchfn (x ∷ xs) = if is_nonzero (searchfn x) then x else first_match searchfn xs

unless_start-first_match :
    (searchfn : Ptr → ℤ) (x : Ptr) (xs : List Ptr)
    → has x xs ≡ false
    → unless_start x (first (drop_while (λ p. not (is_nonzero (searchfn p))) xs) x)
      ≡ first_match searchfn xs
unfolding first_match
unless_start-first_match searchfn x [] o = rw (==_refl x)
unless_start-first_match searchfn x (y ∷ ys) o = elim (Bool-cases (is_nonzero (searchfn y))) [
  | inl e ↦ let yx : (y == x) ≡ false = ground arith in rw (e, yx)
  | inr e ↦ rw e (unless_start-first_match searchfn x ys (ground arith))
]

-- On a well-formed ring, with more rounds than nodes behind the start, however the library is
-- built, `circ_list_find` returns the first node behind the start that the search function
-- accepts, or `NULL` if there is none, and changes nothing.
pub find-first_in_ring :
    (ndebug : Bool) (h : Nodes) (searchfn : Ptr → ℤ) (fuel : ℕ) (x : Ptr) (xs : List Ptr)
    → IsRing h x xs
    → length xs < fuel
    → find ndebug (some searchfn) fuel x h ≡ ok (first_match searchfn xs) h
unfolding find
find-first_in_ring ndebug h searchfn fuel x xs r b =
    rw
      (
        ==-ne x null r.forward.0,
        next_of-ok h x (first xs x) r.forward.0 r.forward.1,
        walk-drop_while h (λ p. not (is_nonzero (searchfn p))) x fuel xs r.forward.2 r.forward.0
            r.distinct.0 b,
      )
      (ap (λ t. ok t h) (unless_start-first_match searchfn x xs r.distinct.0))
