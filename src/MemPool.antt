-- ===== src/MemPool.antt =====
-- mem_pool.c: a pool of equal blocks. The store is what the argument `pool` designates, with the
-- bytes of memory. Sizes are 64-bit, a pointer takes 8 bytes.
pub mod Inv
pub mod New
pub mod Blocks
pub mod Reuse
mod Tests
use common_utils_lib.Base.{
  ℕ, zero, suc, ◌+◌, ◌-◌, ◌*◌, ◌/◌, ◌%◌, ◌^◌, Bool, true, false, ◌&&◌, ◌||◌, Option, none, some,
  List, ltb, leb, ◌==◌, if◌then◌else◌, length, get_elem?, set, replicate,
}
use common_utils_lib.Machine.{Ptr, null, Run, ok, fault, Cmd}
use common_utils_lib.Machine.Mutex.{Pthread, with_copy}

abbrev pub size_mod : ℕ
size_mod = 2 ^ 64

abbrev pub ptr_size : ℕ
ptr_size = 8

-- `struct _mem_pool`; `available_blocks` is the array that the pointer designates.
pub record Pool : Type 0 where
  pub data_buffer : Ptr
  pub available_blocks : List Ptr
  pub next_free_block : ℕ
  pub total_blocks : ℕ
  pub block_size : ℕ

-- What a `p_mem_pool` designates.
pub data Handle : Type 0 where
  nil : Handle
  freed : Handle
  live : Pool → Handle

-- The byte at each address; `none` where no memory is allocated.
abbrev pub Bytes : Type 0
Bytes = Ptr → Option ℕ

pub record World : Type 0 where
  pub pool : Handle
  pub bytes : Bytes

abbrev pub is_some : Option ℕ → Bool
is_some none = false
is_some (some v) = true

abbrev pub covers : Bytes → Ptr → ℕ → Bool
covers b p zero = true
covers b p (suc n) = is_some (b (p + n)) && covers b p n

abbrev pub zeroed : Bytes → Ptr → ℕ → Bytes
zeroed b p n a = if leb p a && ltb a (p + n) then some 0 else b a

-- `if ( !(pool) ) return d;` and then the body
abbrev pub on_pool : {A : Type 0} → A → (Pool → Cmd World A) → Handle → Cmd World A
on_pool d body nil w = ok d w
on_pool d body freed w = fault
on_pool d body (live p) w = body p w

abbrev pub at_block : Option Ptr → (Ptr → Run World Ptr) → Run World Ptr
at_block none k = fault
at_block (some rv) k = k rv

-- `free ( p )` of a piece of `n` bytes
abbrev pub released : Bytes → Ptr → ℕ → Bytes
released b p n a = if leb p a && ltb a (p + n) then none else b a

unfoldable pub destroy : Cmd World (Unit {0})
destroy w =
    on_pool tt
      (λ p w. ok tt (record {
        pool = freed;
        bytes = released w.bytes p.data_buffer (p.block_size * p.total_blocks % size_mod);
      }))
      w.pool w

unfoldable pub free : Ptr → Cmd World (Unit {0})
free data_unit w =
    on_pool tt
      (λ p w.
        if data_unit == null
        then ok tt w
        else if ltb 0 p.next_free_block
        then (if ltb (p.next_free_block - 1) (length p.available_blocks)
            then ok tt (record w {
              pool = live (record p {
                next_free_block = p.next_free_block - 1;
                available_blocks = set p.available_blocks (p.next_free_block - 1) data_unit;
              });
            })
            else fault)
        else ok tt w)
      w.pool w

unfoldable pub malloc : ℕ → Cmd World Ptr
malloc num_bytes w =
    on_pool null
      (λ p w.
        if ltb p.block_size num_bytes
        then ok null w
        else if ltb p.next_free_block p.total_blocks
        then at_block (get_elem? p.available_blocks p.next_free_block) (λ rv.
          if covers w.bytes rv p.block_size
          then ok rv (record {
            pool = live (record p { next_free_block = p.next_free_block + 1 });
            bytes = zeroed w.bytes rv p.block_size;
          })
          else fault)
        else ok null w)
      w.pool w

-- `unit_size & 3` and what is added for it
unfoldable pub padded : ℕ → ℕ
padded unit_size =
    let padding = unit_size % 4 in
    if padding == 0 then unit_size else (unit_size + (4 - padding)) % size_mod

-- `for ( idx = i; ...; idx++ ) available_blocks[idx] = available_blocks[idx-1] + unit_size;`
-- for the `rounds` that are left; `prev` is what the round before has written.
unfoldable pub fill : (rounds idx : ℕ) → Ptr → ℕ → List Ptr → Option (List Ptr)
fill zero idx prev unit_size blocks = some blocks
fill (suc rounds) idx prev unit_size blocks =
    let rest =
      fill rounds (idx + 1) (prev + unit_size) unit_size (set blocks idx (prev + unit_size)) in
    if ltb idx (length blocks) then rest else none

abbrev pub made : World → Ptr → ℕ → ℕ → Option (List Ptr) → Run World Handle
made w buffer unit_size max_units none = fault
made w buffer unit_size max_units (some blocks) =
    ok
      (live (record {
        data_buffer = buffer;
        available_blocks = blocks;
        next_free_block = 0;
        total_blocks = max_units;
        block_size = unit_size;
      }))
      w

-- `malloc` of the struct and of the array of pointers succeed or not; `buffer` is what `malloc`
-- returns for the data. The array's entries are arbitrary until they are written.
unfoldable pub new :
    (struct_ok : Bool) (buffer : Ptr) (blocks_ok : Bool) (garbage : Ptr) → ℕ → ℕ → Cmd World Handle
unfolding padded fill
new struct_ok buffer blocks_ok garbage unit_size max_units w =
    let unit = padded unit_size in
    let blocks = replicate (max_units * ptr_size % size_mod / ptr_size) garbage in
    if struct_ok
    then (if buffer == null
        then ok nil w
        else if blocks_ok
        then (if ltb 0 (length blocks)
            then made w buffer unit max_units
                (fill (max_units - 1) 1 buffer unit (set blocks 0 buffer))
            else fault)
        else ok nil w)
    else ok nil w

module _ (posix : Pthread) where
  open posix use {Mutex}

  unfoldable pub free_r : Mutex → Ptr → Cmd World (Unit {0})
  free_r mutex data_unit = with_copy posix mutex (free data_unit)

  unfoldable pub malloc_r : Mutex → ℕ → Cmd World Ptr
  malloc_r mutex num_bytes = with_copy posix mutex (malloc num_bytes)
