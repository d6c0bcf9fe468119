-- ===== src/Stack/Fixed/Guards.antt =====
-- Where making a fixed stack goes wrong.
use common_utils_lib.Base.{
  ℕ, ◌-◌, ◌*◌, ◌/◌, ◌%◌, ◌<◌, ◌≤◌, ◌≡◌, ap, refl, true, false, arith, ◌==◌, length,
  length-replicate, replicate, ltb,
}
use common_utils_lib.Machine.{Ptr, null, ok, fault}
use common_utils_lib.Stack.{Stack, live, type_fixed, size_mod, ptr_size}
use common_utils_lib.Stack.Fixed.{fixed_push, fixed_size, fixed_init}

-- What `stack_fixed_init` makes.
abbrev made : ℕ → Stack
made cap = record {
  type = type_fixed;
  current = cap;
  limit = cap;
  free_top = null;
  fixed_base = replicate (cap * ptr_size % size_mod / ptr_size) null;
}

-- Where the bytes of the array overflow a `size_t`, `stack_fixed_init` makes a stack all the same,
-- an empty one whose capacity is the one asked for, and the first push writes outside its array.
pub fixed_init_overflow :
    (cap : ℕ) (v : Ptr)
    → cap < size_mod
    → size_mod ≤ cap * ptr_size
    → (s : Stack) × (fixed_init true true cap ≡ live s)
      × (s.limit ≡ cap)
      × (fixed_size (live s) ≡ ok 0 (live s))
      × (fixed_push v (live s) ≡ fault)
unfolding fixed_init fixed_push fixed_size
fixed_init_overflow cap v lt over =
    let ne : (cap == 0) ≡ false = ground arith in
    let pos : ltb 0 cap ≡ true = ground arith in
    let out : ltb (cap - 1) (length (replicate (cap * ptr_size % size_mod / ptr_size) null))
        ≡ false =
      ground (arith, length-replicate (cap * ptr_size % size_mod / ptr_size) null) in
    (made cap, rw ne, refl, ap (λ z. ok z (live (made cap))) (omega arith), rw (pos, out))
