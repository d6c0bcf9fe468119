-- ===== src/Stack/Fixed/Inv.antt =====
-- The well-formed fixed stack, what it holds, and how one is made.
use common_utils_lib.Base.{
  ℕ, zero, suc, ◌-◌, ◌*◌, ◌/◌, ◌%◌, ◌<◌, ◌≤◌, ◌≡◌, refl, ap, ◌∙◌, ◌≢◌, true, List, [], ◌∷◌, arith,
  ==-ne, length, length-replicate, drop-length, drop, replicate, length-drop,
}
use common_utils_lib.Machine.{Ptr, null}
use common_utils_lib.Stack.{Stack, Handle, live, type_fixed, size_mod, ptr_size}
use common_utils_lib.Stack.Fixed.{fixed_init, zero_fill}

-- The bytes of the array fit a `size_t`, the array has `limit` entries, `current` is in it or
-- just behind it.
pub record IsFixed (s : Stack) : Type 0 where
  pub kind : s.type ≡ type_fixed
  pub fits : s.limit * ptr_size < size_mod
  pub room : length s.fixed_base ≡ s.limit
  pub within : s.current ≤ s.limit

-- What the stack holds, top first.
abbrev pub contents : Stack → List Ptr
contents s = drop s.current s.fixed_base

-- The handle designates a well-formed fixed stack for `cap` pointers that holds `xs`.
pub record Holds (cap : ℕ) (xs : List Ptr) (h : Handle) : Type 0 where
  pub stack : Stack
  pub there : h ≡ live stack
  pub valid : IsFixed stack
  pub capacity : stack.limit ≡ cap
  pub holds : contents stack ≡ xs

pub length-contents : (s : Stack) → IsFixed s → length (contents s) ≡ s.limit - s.current
length-contents s v = omega (arith, length-drop s.current s.fixed_base, v.room)

pub zero_fill_all : (n : ℕ) (xs : List Ptr) → length xs ≡ n → length (zero_fill n xs) ≡ n
zero_fill_all zero xs h = h
zero_fill_all (suc n) [] h = h
zero_fill_all (suc n) (x ∷ xs) h = ap suc (zero_fill_all n xs (omega arith))

-- When memory is there and the array's bytes fit a `size_t`, `stack_fixed_init` of a capacity
-- other than 0 makes a well-formed empty stack of that capacity.
pub fixed_init-Holds :
    (cap : ℕ) → cap ≢ 0 → cap * ptr_size < size_mod → Holds cap [] (fixed_init true true cap)
unfolding fixed_init
fixed_init-Holds cap ne fits =
    let e : cap * ptr_size % size_mod / ptr_size ≡ cap = omega arith in
    let room : length (replicate (cap * ptr_size % size_mod / ptr_size) null) ≡ cap =
      length-replicate _ null ∙ e in
    record {
      stack = record {
        type = type_fixed;
        current = cap;
        limit = cap;
        free_top = null;
        fixed_base = replicate (cap * ptr_size % size_mod / ptr_size) null;
      };
      there = rw (==-ne cap 0 ne);
      valid = record { kind = refl; fits = fits; room = room; within = omega arith };
      capacity = refl;
      holds = drop-length cap _ (omega (arith, room));
    }
