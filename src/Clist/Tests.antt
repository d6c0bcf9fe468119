-- ===== src/Clist/Tests.antt =====
-- The theorems on circ-link-list.c at a ring of three nodes, and runs of its functions.
use common_utils_lib.Base.{
  ◌≡◌, refl, Bool, true, false, none, some, [], ◌∷◌, arith, ◌==◌, ltb, if◌then◌else◌,
}
use common_utils_lib.Base.Int.{ℤ, pos, negsuc}
use common_utils_lib.Machine.{Ptr, null, ok, aborted}
use common_utils_lib.Machine.Mutex.{Pthread, Guarded}
use common_utils_lib.Machine.Returns.{Returns}
use common_utils_lib.Chain.{put}
use common_utils_lib.Clist.{
  Nodes, is_nonpos, next_of, prev_of, set_next, set_prev, link_after, find, rfind, walk,
  insert_after, insert_before, insert_inorder, unlink,
}
use common_utils_lib.Clist.Ring.{IsRing}
use common_utils_lib.Clist.Insert.{IsLoose, insert_after-IsRing, insert_before-IsRing}
use common_utils_lib.Clist.Unlink.{unlink-IsRing}
use common_utils_lib.Clist.Find.{first_match, find-first_in_ring}
use common_utils_lib.Clist.Ordered.{insert_sorted, IsSorted, insert_inorder-IsRing}
use common_utils_lib.Clist.Reentrant.{
  find_r, rfind_r, insert_after_r, insert_before_r, insert_inorder_r, unlink_r, behind, find_r-null,
  clist_reentrant-same,
}

-- The ring of the nodes 1, 2 and 4, and the node 3 on its own.
abbrev ring : Nodes
ring = record {
  next = put (put (put (put (λ _. none) 1 2) 2 4) 4 1) 3 3;
  prev = put (put (put (put (λ _. none) 1 4) 2 1) 4 2) 3 3;
}

ring-IsRing : IsRing ring 1 (2 ∷ 4 ∷ [])
ring-IsRing = record {
  forward = (omega arith, refl, (omega arith, refl, (omega arith, refl, tt)));
  distinct = (refl, (refl, (refl, tt)));
  back = λ a b i e. ground arith;
}

three-IsLoose : IsLoose ring 1 (2 ∷ 4 ∷ []) 3
three-IsLoose = record {
  ne = omega arith;
  out = refl;
  old_next = 3;
  has_next = refl;
  old_prev = 3;
  has_prev = refl;
}

-- Nodes in the order of their addresses.
abbrev by_address : Ptr → Ptr → ℤ
by_address a b = if ltb a b then negsuc 0 else pos (if a == b then 0 else 1)

by_address_total :
    (a : Ptr) → is_nonpos (by_address a 3) ≡ false → is_nonpos (by_address 3 a) ≡ true
by_address_total a h = ground arith

abbrev is_four : Ptr → ℤ
is_four a = if a == 4 then pos 1 else pos 0

abbrev no_threads : Pthread
no_threads = record { Mutex = Bool; lock = λ m. if m then none else some true; unlock = λ m. false }

abbrev guarded : Guarded no_threads Nodes
guarded = record { mutex = false; store = ring }

insert_after-IsRing_run : Returns (λ _ g. IsRing g 1 (2 ∷ 3 ∷ 4 ∷ [])) (insert_after false 2 3 ring)
insert_after-IsRing_run =
    insert_after-IsRing ring 1 (2 ∷ 4 ∷ []) ring-IsRing 3 three-IsLoose (1 ∷ []) 2 (4 ∷ []) refl
      false (2 ∷ 3 ∷ 4 ∷ []) refl

insert_before-IsRing_run :
    Returns (λ _ g. IsRing g 1 (2 ∷ 4 ∷ 3 ∷ [])) (insert_before true 1 3 ring)
insert_before-IsRing_run =
    insert_before-IsRing ring 1 (2 ∷ 4 ∷ []) ring-IsRing 3 three-IsLoose (1 ∷ 2 ∷ []) 4 [] refl true
      (2 ∷ 4 ∷ 3 ∷ []) refl

unlink-IsRing_example : Returns (λ _ g. IsRing g 1 (4 ∷ []) × IsRing g 2 []) (unlink false 2 ring)
unlink-IsRing_example =
    unlink-IsRing ring 1 (2 ∷ 4 ∷ []) ring-IsRing [] 1 2 (4 ∷ []) refl (4 ∷ []) refl false

find-first_in_ring_example :
    find false (some is_four) 3 1 ring ≡ ok (first_match is_four (2 ∷ 4 ∷ [])) ring
find-first_in_ring_example =
    find-first_in_ring false ring is_four 3 1 (2 ∷ 4 ∷ []) ring-IsRing (omega arith)

insert_inorder-IsRing_example :
    Returns
      (λ _ g.
        IsRing g 1 (insert_sorted by_address 3 (2 ∷ 4 ∷ []))
        × IsSorted by_address (insert_sorted by_address 3 (2 ∷ 4 ∷ [])))
      (insert_inorder false (some by_address) 3 1 3 ring)
insert_inorder-IsRing_example =
    insert_inorder-IsRing by_address 3 by_address_total false ring 3 1 (2 ∷ 4 ∷ []) ring-IsRing
      three-IsLoose (omega arith) (refl, tt)

find_r-null_example :
    (find_r no_threads false true (some is_four) 3 1 guarded ≡ ok null guarded)
    × (rfind_r no_threads false true (some is_four) 3 1 guarded ≡ ok null guarded)
find_r-null_example = find_r-null no_threads false true guarded refl is_four 2 1 (omega arith)

-- What linking the node 3 in behind the node 2 leaves.
abbrev linked : Nodes
linked = record { next = put (put ring.next 3 4) 2 3; prev = put (put ring.prev 4 3) 3 2 }

clist_reentrant-same_example :
    (insert_after false 2 3 ring ≡ ok tt linked
      → insert_after_r no_threads false true 2 3 guarded
        ≡ ok tt (behind no_threads false true guarded refl linked))
    × (insert_before false 2 3 ring ≡ ok tt linked
        → insert_before_r no_threads false true 2 3 guarded
          ≡ ok tt (behind no_threads false true guarded refl linked))
    × (insert_inorder false (some by_address) 3 2 3 ring ≡ ok tt linked
        → insert_inorder_r no_threads false true (some by_address) 3 2 3 guarded
          ≡ ok tt (behind no_threads false true guarded refl linked))
    × (unlink false 3 ring ≡ ok tt linked
        → unlink_r no_threads false true 3 guarded
          ≡ ok tt (behind no_threads false true guarded refl linked))
clist_reentrant-same_example =
    clist_reentrant-same no_threads false true guarded refl by_address 3 2 3 linked (omega arith)
      (omega arith)

linked_after : insert_after false 2 3 ring ≡ ok tt linked
unfolding insert_after link_after next_of prev_of set_next set_prev
linked_after = refl

-- Backwards from the node 1, the node 4 is the first.
found_backwards : rfind false (some is_four) 1 1 ring ≡ ok 4 ring
unfolding rfind walk prev_of
found_backwards = refl

sorts_between : insert_sorted by_address 3 (2 ∷ 4 ∷ []) ≡ 2 ∷ 3 ∷ 4 ∷ []
unfolding insert_sorted
sorts_between = refl

-- Without NDEBUG a null argument aborts, with it the call does nothing.
null_aborts : (unlink false null ring ≡ aborted) × (unlink true null ring ≡ ok tt ring)
unfolding unlink
null_aborts = (refl, refl)
