-- ===== src/MemPool/Tests.antt =====
-- The theorems on mem_pool.c at a pool of three blocks, and runs of its functions.
use mathlib.Core.List.{Mem, mem-cons_self, mem-cons, not-mem-nil}
use mathlib.Core.Logic.Or
use mathlib.Core.HLevel.{×_prop}
use native.Mathlib.Bridge.{le_prop}
use mathlib.Core.List.Perm
use common_utils_lib.Base.{
  ◌≡◌, refl, ◌≢◌, true, none, some, List, [], ◌∷◌, arith, inl, ◌<◌, ◌≤◌, ltb, leb, ◌&&◌,
  if◌then◌else◌, ◌+◌, ◌*◌, ◌%◌,
}
use common_utils_lib.Machine.{Ptr, null, ok, fault, ◌>>=◌, ◌>>◌}
use common_utils_lib.Machine.Returns.{Returns}
use common_utils_lib.MemPool.{
  nil, live, Bytes, World, covers, zeroed, size_mod, padded, free, malloc, new,
}
use common_utils_lib.MemPool.Inv.{Holds}
use common_utils_lib.MemPool.New.{block_list, padded_bounds, new-Holds, new_no_blocks}
use common_utils_lib.MemPool.Blocks.{malloc-lends, malloc-refuses, free-takes_back}
use common_utils_lib.MemPool.Reuse.{both, free-free-malloc-malloc}

-- Memory from 100 to 123.
abbrev memory : Bytes
memory a = if leb 100 a && ltb a 124 then some 1 else none

abbrev bare : World
bare = record { pool = nil; bytes = memory }

-- The block at 108 is free, those at 104 and 100 are handed out.
abbrev one_left : World
one_left = record {
  pool = live (record {
    data_buffer = 100;
    available_blocks = 100 ∷ 104 ∷ 108 ∷ [];
    next_free_block = 2;
    total_blocks = 3;
    block_size = 4;
  });
  bytes = memory;
}

abbrev blocks : List Ptr
blocks = 108 ∷ 104 ∷ 100 ∷ []

block_bounds : (a : Ptr) → Mem a blocks → (100 ≤ a) × (a ≤ 108)
block_bounds a m =
    Or.elim (×_prop le_prop le_prop) (mem-cons.0 m) (λ e. omega (arith, e))
      λ m1.
        Or.elim (×_prop le_prop le_prop) (mem-cons.0 m1) (λ e. omega (arith, e))
          λ m2.
            Or.elim (×_prop le_prop le_prop) (mem-cons.0 m2) (λ e. omega (arith, e))
              λ m3. absurd (not-mem-nil m3)

block_cases : (a : Ptr) → Mem a blocks → (covers memory a 4 ≡ true) × (a ≢ null)
block_cases a m = let (lo, hi) = block_bounds a m in (ground arith, λ e. omega (arith, e, lo))

one_left-Holds : Holds blocks (108 ∷ []) (104 ∷ 100 ∷ []) 4 one_left
one_left-Holds = record {
  pool = _;
  there = refl;
  sized = refl;
  valid = record {
    room = refl;
    within = omega arith;
    next = refl;
    lent = refl;
    all = Perm.refl _;
    mapped = λ a m. (block_cases a m).0;
    not_null = λ a m. (block_cases a m).1;
  };
}

malloc-lends_example :
    Returns
      (λ rv w'.
        (rv ≡ 108)
        × Holds blocks [] (108 ∷ 104 ∷ 100 ∷ []) 4 w'
        × ((a : Ptr) → w'.bytes a ≡ zeroed memory 108 4 a))
      (malloc 3 one_left)
malloc-lends_example =
    malloc-lends blocks (104 ∷ 100 ∷ []) 4 one_left 108 [] 3 one_left-Holds (omega arith)

malloc-refuses_run : malloc 5 one_left ≡ ok null one_left
malloc-refuses_run =
    malloc-refuses blocks (104 ∷ 100 ∷ []) 4 one_left (108 ∷ []) 5 one_left-Holds
      (inl (omega arith))

free-takes_back_example :
    Returns
      (λ _ w'. Holds blocks (100 ∷ 108 ∷ []) (104 ∷ []) 4 w' × (w'.bytes ≡ memory))
      (free 100 one_left)
free-takes_back_example =
    free-takes_back blocks (104 ∷ 100 ∷ []) 4 one_left (108 ∷ []) (104 ∷ []) 100 [] refl
      one_left-Holds

free-free-malloc-malloc_example :
    Returns
      (λ r _. (r.0 ≡ 108) × (r.1 ≡ 108))
      ((do free 108; free 108; a ← malloc 4; b ← malloc 4; both a b) one_left)
free-free-malloc-malloc_example =
    free-free-malloc-malloc blocks (108 ∷ []) (104 ∷ 100 ∷ []) 4 one_left 108 4 one_left-Holds
      mem-cons_self (omega arith) (omega arith)

padded_rounds_up : (padded 5 % 4 ≡ 0) × (5 ≤ padded 5) × (padded 5 < 5 + 4)
padded_rounds_up = padded_bounds 5 (omega arith)

padded_five : padded 5 ≡ 8
unfolding padded
padded_five = refl

memory_enough : covers memory 100 (padded 5 * 3 % size_mod) ≡ true
unfolding padded
memory_enough = refl

new-Holds_example :
    Returns
      (λ h w'.
        (w' ≡ bare)
        × Holds
            (block_list 100 (padded 5) 3)
            (block_list 100 (padded 5) 3)
            []
            (padded 5)
            (record w' { pool = h }))
      (new true 100 true 0 5 3 bare)
unfolding padded
new-Holds_example =
    new-Holds bare 100 0 5 3 (omega arith) (omega arith) (omega arith) (omega arith) memory_enough

no_blocks_faults : new true 100 true 0 5 0 bare ≡ fault
no_blocks_faults = new_no_blocks bare 100 0 5 (omega arith)

new_blocks : block_list 100 8 3 ≡ 100 ∷ 108 ∷ 116 ∷ []
unfolding block_list
new_blocks = refl
