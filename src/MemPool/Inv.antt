-- ===== src/MemPool/Inv.antt =====
-- The well-formed pool: which blocks are free and which are handed out.
use mathlib.Core.List.{Mem, Perm}
use common_utils_lib.Base.{
  ℕ, zero, suc, ◌+◌, ◌≤◌, ◌≡◌, refl, ◌≢◌, true, ◌&&◌, List, ◌++◌, arith, ltb, leb, length, drop,
  Bool-cases, inl, inr,
}
use common_utils_lib.Machine.{Ptr, null}
use common_utils_lib.MemPool.{Pool, live, Bytes, World, is_some, covers, zeroed}

-- The pool `p` has the blocks `free` to give, the next one first, and the blocks `out` are with the
-- clients; together they are `blocks`, each of which is memory of `block_size` bytes.
pub record IsPool (blocks free out : List Ptr) (p : Pool) (b : Bytes) : Type 0 where
  pub room : length p.available_blocks ≡ p.total_blocks
  pub within : p.next_free_block ≤ p.total_blocks
  pub next : drop p.next_free_block p.available_blocks ≡ free
  pub lent : length out ≡ p.next_free_block
  pub all : Perm (free ++ out) blocks
  pub mapped : (a : Ptr) → Mem a blocks → covers b a p.block_size ≡ true
  pub not_null : (a : Ptr) → Mem a blocks → a ≢ null

pub record Holds (blocks free out : List Ptr) (size : ℕ) (w : World) : Type 0 where
  pub pool : Pool
  pub there : w.pool ≡ live pool
  pub sized : pool.block_size ≡ size
  pub valid : IsPool blocks free out pool w.bytes

-- Clearing a block leaves the rest of memory, and no allocated byte is lost.
pub is_some-zeroed :
    (b : Bytes) (p n a : ℕ) → is_some (b a) ≡ true → is_some (zeroed b p n a) ≡ true
is_some-zeroed b p n a h = elim (Bool-cases (leb p a && ltb a (p + n))) [
  | inl e ↦ rw e
  | inr e ↦ rw e h
]

pub covers-zeroed :
    (b : Bytes) (p n a m : ℕ) → covers b a m ≡ true → covers (zeroed b p n) a m ≡ true
covers-zeroed b p n a zero h = refl
covers-zeroed b p n a (suc m) h =
    ground (arith, is_some-zeroed b p n (a + m), covers-zeroed b p n a m)
