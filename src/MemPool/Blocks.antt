-- ===== src/MemPool/Blocks.antt =====
-- mem_pool_malloc and mem_pool_free on a well-formed pool.
use mathlib.Core.List.{Mem, Perm, perm_middle, mem-cons_self, append_assoc}
use mathlib.Core.List.Perm
use mathlib.Core.Path.{subst}
use common_utils_lib.Base.{
  ℕ, suc, ◌+◌, ◌-◌, ◌<◌, ◌≤◌, ◌≡◌, refl, ap, sym, ◌∙◌, ◌≢◌, ◌⊎◌, inl, inr, true, false, some, List,
  [], ◌∷◌, ◌++◌, arith, ltb, ==-ne, length, get_elem?, drop, length-set, length-append, length-drop,
  drop-set_self, drop-get_elem?, Bool-cases,
}
use common_utils_lib.Machine.{Ptr, null, ok}
use common_utils_lib.Machine.Returns.{Returns, returns}
use common_utils_lib.MemPool.{Pool, Bytes, World, covers, zeroed, free, malloc}
use common_utils_lib.MemPool.Inv.{IsPool, Holds, covers-zeroed}

pub mem_middle : (xs : List Ptr) (a : Ptr) (ys zs : List Ptr) → Perm (xs ++ a ∷ ys) zs → Mem a zs
mem_middle xs a ys zs p =
    (Perm.mem_iff p).0 ((Perm.mem_iff (Perm.symm (perm_middle xs ys))).0 mem-cons_self)

abbrev tail_of : List Ptr → List Ptr
tail_of [] = []
tail_of (x ∷ xs) = xs

abbrev head_of : List Ptr → Ptr
head_of [] = null
head_of (x ∷ xs) = x

module _ (blocks : List Ptr) (x : Ptr) (rest out : List Ptr) (p : Pool) (b : Bytes)
    (v : IsPool blocks (x ∷ rest) out p b) where
  next_in : p.next_free_block < length p.available_blocks
  next_in = omega (arith, ap length v.next, length-drop p.next_free_block p.available_blocks)

  next_block :
      (get_elem? p.available_blocks p.next_free_block ≡ some x)
      × (drop (suc p.next_free_block) p.available_blocks ≡ rest)
  next_block =
      let (t, e, d) = drop-get_elem? p.available_blocks p.next_free_block next_in in
      let same : t ∷ drop (suc p.next_free_block) p.available_blocks ≡ x ∷ rest = sym d ∙ v.next in
      (e ∙ ap some (ap head_of same), ap tail_of same)

  lent-IsPool :
      IsPool blocks rest
        (x ∷ out)
        (record p { next_free_block = p.next_free_block + 1 })
        (zeroed b x p.block_size)
  lent-IsPool = record {
    room = v.room;
    within = omega (arith, next_in, v.room);
    next =
        ap (λ n. drop n p.available_blocks) {y = suc p.next_free_block} (omega arith)
        ∙ next_block.1;
    lent = omega (arith, v.lent);
    all = Perm.trans (perm_middle rest out) v.all;
    mapped = λ a m. covers-zeroed b x p.block_size a p.block_size (v.mapped a m);
    not_null = v.not_null;
  }

module _ (blocks out : List Ptr) (size : ℕ) (w : World) where
  -- From a well-formed pool that has the block `x` to give next, `mem_pool_malloc` of at most the
  -- block size returns `x`, with all its bytes 0 and the rest of memory as it was; the pool stays
  -- well-formed, with `x` handed out.
  pub malloc-lends :
      (x : Ptr) (rest : List Ptr) (num_bytes : ℕ)
      → Holds blocks (x ∷ rest) out size w
      → num_bytes ≤ size
      → Returns
          (λ rv w'.
            (rv ≡ x)
            × Holds blocks rest (x ∷ out) size w'
            × ((a : Ptr) → w'.bytes a ≡ zeroed w.bytes x size a))
          (malloc num_bytes w)
  unfolding malloc
  malloc-lends x rest num_bytes is small =
      let p = is.pool in
      let v = is.valid in
      let fits : ltb p.block_size num_bytes ≡ false = ground (arith, is.sized) in
      let more : ltb p.next_free_block p.total_blocks ≡ true =
        ground (arith, next_in blocks x rest out p w.bytes v, v.room) in
      let c : covers w.bytes x p.block_size ≡ true =
        v.mapped x (mem_middle [] x (rest ++ out) blocks v.all) in
      rw (is.there, fits, more, (next_block blocks x rest out p w.bytes v).0, c)
        (returns (
          refl,
          record {
            pool = _;
            there = refl;
            sized = is.sized;
            valid = lent-IsPool blocks x rest out p w.bytes v;
          },
          λ a. ap (λ n. zeroed w.bytes x n a) is.sized,
        ))

  -- A request for more than the block size, and any request when every block is handed out, gets
  -- `NULL` and changes nothing.
  pub malloc-refuses :
      (free : List Ptr) (num_bytes : ℕ)
      → Holds blocks free out size w
      → (size < num_bytes) ⊎ (free ≡ [])
      → malloc num_bytes w ≡ ok null w
  unfolding malloc
  malloc-refuses free num_bytes is (inl large) =
      let big : ltb is.pool.block_size num_bytes ≡ true = ground (arith, is.sized) in
      rw (is.there, big)
  malloc-refuses free num_bytes is (inr e) =
      let p = is.pool in
      let d : length p.available_blocks - p.next_free_block ≡ 0 =
        sym (length-drop p.next_free_block p.available_blocks) ∙ ap length (is.valid.next ∙ e) in
      let none_left : ltb p.next_free_block p.total_blocks ≡ false =
        ground (arith, d, is.valid.room, is.valid.within) in
      elim (Bool-cases (ltb p.block_size num_bytes)) [
        | inl big ↦ rw (is.there, big)
        | inr small ↦ rw (is.there, small, none_left)
      ]

  -- `mem_pool_free` of a block that is handed out takes it back, as the one to give next, and
  -- changes no byte of memory.
  pub free-takes_back :
      (free_blocks before : List Ptr) (x : Ptr) (after : List Ptr)
      → out ≡ before ++ x ∷ after
      → Holds blocks free_blocks out size w
      → Returns
          (λ _ w'. Holds blocks (x ∷ free_blocks) (before ++ after) size w' × (w'.bytes ≡ w.bytes))
          (free x w)
  unfolding free
  free-takes_back free_blocks before x after e is =
      let p = is.pool in
      let v = is.valid in
      let all : Perm (free_blocks ++ (before ++ x ∷ after)) blocks =
        subst (λ o. Perm (free_blocks ++ o) blocks) e v.all in
      let shape : free_blocks ++ (before ++ x ∷ after) ≡ (free_blocks ++ before) ++ x ∷ after =
        sym (append_assoc free_blocks before (x ∷ after)) in
      let all' : Perm ((free_blocks ++ before) ++ x ∷ after) blocks =
        subst (λ t. Perm t blocks) shape all in
      let ne : x ≢ null = v.not_null x (mem_middle (free_blocks ++ before) x after blocks all') in
      let n : length out ≡ length before + suc (length after) =
        ap length e ∙ length-append before (x ∷ after) in
      let lent : ltb 0 p.next_free_block ≡ true = ground (arith, n, v.lent) in
      let i : p.next_free_block - 1 < length p.available_blocks =
        omega (arith, n, v.lent, v.within, v.room) in
      let inside : ltb (p.next_free_block - 1) (length p.available_blocks) ≡ true = ground arith in
      let back : suc (p.next_free_block - 1) ≡ p.next_free_block = omega (arith, n, v.lent) in
      rw (is.there, ==-ne x null ne, lent, inside)
        (returns (
          record {
            pool = _;
            there = refl;
            sized = is.sized;
            valid = record {
              room = length-set p.available_blocks (p.next_free_block - 1) x ∙ v.room;
              within = omega (arith, v.within);
              next =
                  drop-set_self p.available_blocks (p.next_free_block - 1) x i
                  ∙ ap (λ k. x ∷ drop k p.available_blocks) back
                  ∙ ap (λ t. x ∷ t) v.next;
              lent = omega (arith, length-append before after, n, v.lent);
              all =
                  Perm.trans
                    (subst (λ t. Perm (x ∷ t) ((free_blocks ++ before) ++ x ∷ after))
                      (append_assoc free_blocks before after)
                      (Perm.symm (perm_middle (free_blocks ++ before) after)))
                    all';
              mapped = v.mapped;
              not_null = v.not_null;
            };
          },
          refl,
        ))
