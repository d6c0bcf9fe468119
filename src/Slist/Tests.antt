-- ===== src/Slist/Tests.antt =====
-- The theorems on single-link-list.c at a list of two nodes, and runs of its functions.
use common_utils_lib.Base.{
  ◌≡◌, refl, Bool, true, false, none, some, [], ◌∷◌, arith, ◌==◌, ltb, if◌then◌else◌, inl,
}
use common_utils_lib.Base.Int.{ℤ, pos, negsuc, is_neg}
use common_utils_lib.Machine.{Ptr, null, ok, blocked, fault}
use common_utils_lib.Machine.Mutex.{Pthread}
use common_utils_lib.Machine.Returns.{Returns}
use common_utils_lib.Chain.{Field, put}
use common_utils_lib.Slist.{
  load, store, seek, append, prepend, insert_after, insert_ordered, remove, remove_after, find,
  append_r, find_r, insert_after_r, insert_ordered_r, prepend_r, remove_r, remove_after_r,
}
use common_utils_lib.Slist.Shape.{IsList, IsLoose, Leaves}
use common_utils_lib.Slist.Insert.{prepend-cons, insert_after-splice, append-snoc}
use common_utils_lib.Slist.Ordered.{insert_sorted, IsSorted, insert_ordered-insert_sorted}
use common_utils_lib.Slist.Remove.{Erases, remove-erase, remove_after-splice}
use common_utils_lib.Slist.Find.{
  first_match, find-first_match, null_guards, insert_ordered_empty, slist_reentrant-same,
}

-- The list pointer at 1, the nodes 2 and 4, and the loose node 3.
abbrev cells : Field
cells = put (put (put (put (λ _. none) 1 2) 2 4) 4 0) 3 0

abbrev empty_cells : Field
empty_cells = put (put (λ _. none) 1 0) 3 9

cells-IsList : IsList cells 1 (2 ∷ 4 ∷ [])
cells-IsList = record {
  linked = (omega arith, refl, (omega arith, refl, (omega arith, refl, tt)));
  distinct = (refl, (refl, (refl, tt)));
}

node-IsLoose : IsLoose cells 1 (2 ∷ 4 ∷ []) 3
node-IsLoose = record { ne = omega arith; out = refl; old = 0; allocated = refl }

-- Nodes in the order of their addresses.
abbrev by_address : Ptr → Ptr → ℤ
by_address a b = if ltb a b then negsuc 0 else pos (if a == b then 0 else 1)

by_address_asym : (a b : Ptr) → is_neg (by_address a b) ≡ true → is_neg (by_address b a) ≡ false
by_address_asym a b h = ground arith

abbrev is_four : Ptr → ℤ
is_four a = if a == 4 then pos 0 else pos 1

abbrev no_threads : Pthread
no_threads = record { Mutex = Bool; lock = λ m. if m then none else some true; unlock = λ m. false }

prepended_first : Returns (Leaves cells 1 true (3 ∷ 2 ∷ 4 ∷ []) (1 ∷ 3 ∷ [])) (prepend 1 3 cells)
prepended_first = prepend-cons cells 1 3 (2 ∷ 4 ∷ []) cells-IsList node-IsLoose

insert_after-splice_run :
    Returns (Leaves cells 1 true (2 ∷ 3 ∷ 4 ∷ []) (2 ∷ 3 ∷ [])) (insert_after 2 3 cells)
insert_after-splice_run = insert_after-splice cells 1 3 [] 2 (4 ∷ []) cells-IsList node-IsLoose

append-snoc_example :
    Returns (Leaves cells 1 true (2 ∷ 4 ∷ 3 ∷ []) (3 ∷ 1 ∷ 2 ∷ 4 ∷ [])) (append 5 1 3 cells)
append-snoc_example = append-snoc cells 1 3 5 (2 ∷ 4 ∷ []) cells-IsList node-IsLoose (omega arith)

insert_ordered-insert_sorted_example :
    Returns
      (Leaves cells 1 true (insert_sorted by_address 3 (2 ∷ 4 ∷ [])) (3 ∷ 1 ∷ 2 ∷ 4 ∷ []))
      (insert_ordered by_address 5 1 3 cells)
    × IsSorted by_address (insert_sorted by_address 3 (2 ∷ 4 ∷ []))
insert_ordered-insert_sorted_example =
    insert_ordered-insert_sorted by_address cells 1 3 5 (2 ∷ 4 ∷ []) cells-IsList node-IsLoose
      (omega arith) (λ e. refl) by_address_asym (refl, tt)

sorts_between : insert_sorted by_address 3 (2 ∷ 4 ∷ []) ≡ 2 ∷ 3 ∷ 4 ∷ []
unfolding insert_sorted
sorts_between = refl

remove-erase_example : Returns (Erases cells 1 4 (2 ∷ 4 ∷ [])) (remove 5 1 4 cells)
remove-erase_example =
    remove-erase cells 1 5 4 (2 ∷ 4 ∷ []) cells-IsList (omega arith) (omega arith)

remove_after-splice_run :
    Returns (Leaves cells 1 true (2 ∷ []) (1 ∷ 2 ∷ 4 ∷ [])) (remove_after 2 cells)
remove_after-splice_run = remove_after-splice cells 1 [] 2 (4 ∷ []) cells-IsList

find-first_match_run : find is_four 5 2 cells ≡ ok (first_match is_four (2 ∷ 4 ∷ [])) cells
find-first_match_run =
    find-first_match cells is_four 5 (2 ∷ 4 ∷ []) (omega arith, refl, (omega arith, refl, tt))
      (omega arith)

null_guards_run :
    (append 5 0 3 cells ≡ ok false cells)
    × (prepend 0 3 cells ≡ ok false cells)
    × (insert_after 0 3 cells ≡ ok false cells)
    × (insert_ordered by_address 5 0 3 cells ≡ ok false cells)
    × (remove 5 0 3 cells ≡ ok false cells)
    × (remove_after null cells ≡ ok false cells)
null_guards_run = null_guards cells by_address 5 0 3 (inl refl)

insert_ordered_empty_example :
    (insert_ordered by_address 5 1 3 empty_cells ≡ ok true (put empty_cells 1 3))
    × (put empty_cells 1 3 3 ≡ some 9)
    × ¬ (IsList (put empty_cells 1 3) 1 (3 ∷ []))
insert_ordered_empty_example =
    insert_ordered_empty empty_cells by_address 5 1 3 9 (omega arith) (omega arith) (omega arith)
      refl refl (omega arith)

-- The mutex `false` is free, and `true` is held.
slist_reentrant-same_example :
    (append_r no_threads false 5 1 3 cells ≡ append 5 1 3 cells)
    × (append_r no_threads true 5 1 3 cells ≡ append 5 1 3 cells)
    × (prepend_r no_threads false 1 3 cells ≡ prepend 1 3 cells)
    × (prepend_r no_threads true 1 3 cells ≡ blocked)
    × (insert_after_r no_threads false 1 3 cells ≡ insert_after 1 3 cells)
    × (insert_after_r no_threads true 1 3 cells ≡ blocked)
    × (insert_ordered_r no_threads by_address false 5 1 3 cells
        ≡ insert_ordered by_address 5 1 3 cells)
    × (insert_ordered_r no_threads by_address true 5 1 3 cells ≡ blocked)
    × (remove_r no_threads false 5 1 3 cells ≡ remove 5 1 3 cells)
    × (remove_r no_threads true 5 1 3 cells ≡ blocked)
    × (remove_after_r no_threads false 1 cells ≡ remove_after 1 cells)
    × (remove_after_r no_threads true 1 cells ≡ blocked)
    × (find_r no_threads is_four false 5 1 cells ≡ find is_four 5 1 cells)
    × (find_r no_threads is_four true 5 1 cells ≡ blocked)
slist_reentrant-same_example =
    slist_reentrant-same no_threads false true true by_address is_four 5 1 3 cells refl refl

-- A node appended, found, and removed again.
appended : append 5 1 3 cells ≡ ok true (put (put cells 4 3) 3 0)
unfolding append load store seek
appended = refl

found_four : find is_four 5 2 cells ≡ ok 4 cells
unfolding find load
found_four = refl

-- A list that leads through memory that holds no node.
dangling : find is_four 5 7 cells ≡ fault
unfolding find load
dangling = refl
