-- ===== src/MemPool/Reuse.antt =====
-- mem_pool_free does not ask whether the block is handed out.
use mathlib.Core.List.{Mem}
use common_utils_lib.Base.{
  ℕ, ◌+◌, ◌-◌, ◌≤◌, ◌≡◌, refl, ap, ◌∙◌, true, false, some, List, arith, ltb, ◌==◌, ==-ne, length,
  get_elem?, set, length-set, get_elem?-set_self, get_elem?-set_ne,
}
use common_utils_lib.Machine.{Ptr, null, Run, ok, ◌>>=◌, ◌>>◌}
use common_utils_lib.Machine.Returns.{Returns, returns}
use common_utils_lib.MemPool.{World, covers, zeroed, free, malloc}
use common_utils_lib.MemPool.Inv.{Holds, covers-zeroed}

abbrev pub both : Ptr → Ptr → World → Run World (Ptr × Ptr)
both a b w = ok (a, b) w

-- From a well-formed pool that has handed out at least two blocks, freeing the block `x` twice
-- makes the next two requests of at most the block size both return `x`.
pub free-free-malloc-malloc :
    (blocks free_blocks out : List Ptr) (size : ℕ) (w : World) (x num_bytes : ℕ)
    → Holds blocks free_blocks out size w
    → Mem x blocks
    → 2 ≤ length out
    → num_bytes ≤ size
    → Returns
        (λ r _. (r.0 ≡ x) × (r.1 ≡ x))
        ((do free x; free x; a ← malloc num_bytes; b ← malloc num_bytes; both a b) w)
unfolding free malloc
free-free-malloc-malloc blocks free_blocks out size w x num_bytes is m two small =
    let p = is.pool in
    let v = is.valid in
    let k = p.next_free_block in
    let xs = p.available_blocks in
    let ne : (x == null) ≡ false = ==-ne x null (v.not_null x m) in
    let a1 : ltb 0 k ≡ true = ground (arith, v.lent) in
    let a2 : ltb (k - 1) (length xs) ≡ true = ground (arith, v.lent, v.room, v.within) in
    let b1 : ltb 0 (k - 1) ≡ true = ground (arith, v.lent) in
    let b2 : ltb (k - 1 - 1) (length (set xs (k - 1) x)) ≡ true =
      ground (arith, v.lent, v.room, v.within, length-set xs (k - 1) x) in
    let fits : ltb p.block_size num_bytes ≡ false = ground (arith, is.sized) in
    let c1 : ltb (k - 1 - 1) p.total_blocks ≡ true = ground (arith, v.lent, v.within) in
    let c2 : ltb (k - 1 - 1 + 1) p.total_blocks ≡ true = ground (arith, v.lent, v.within) in
    let same : k - 1 - 1 + 1 ≡ k - 1 = omega (arith, v.lent) in
    let g1 : get_elem? (set (set xs (k - 1) x) (k - 1 - 1) x) (k - 1 - 1) ≡ some x =
      get_elem?-set_self (set xs (k - 1) x) (k - 1 - 1) x
        (omega (arith, v.lent, v.room, v.within, length-set xs (k - 1) x)) in
    let g2 : get_elem? (set (set xs (k - 1) x) (k - 1 - 1) x) (k - 1 - 1 + 1) ≡ some x =
      ap (λ j. get_elem? (set (set xs (k - 1) x) (k - 1 - 1) x) j) same
      ∙ get_elem?-set_ne (set xs (k - 1) x) x (omega (arith, v.lent))
      ∙ get_elem?-set_self xs (k - 1) x (omega (arith, v.lent, v.room, v.within)) in
    let d1 : covers w.bytes x p.block_size ≡ true = v.mapped x m in
    let d2 : covers (zeroed w.bytes x p.block_size) x p.block_size ≡ true =
      covers-zeroed w.bytes x p.block_size x p.block_size d1 in
    rw (is.there, ne, a1, a2)
      (rw (ne, b1, b2) (rw (fits, c1, g1, d1) (rw (fits, c2, g2, d2) (returns (refl, refl)))))
