-- ===== src/Stack.antt =====
-- stack.c: what its two kinds of stack share. Sizes are 64-bit, a pointer takes 8 bytes.
pub mod Fixed
pub mod Free
pub mod Reentrant
mod Tests
use common_utils_lib.Base.{ℕ, ◌^◌, ◌+◌, ◌-◌, ◌%◌, List, ◌==◌, if◌then◌else◌}
use common_utils_lib.Machine.{Ptr, Run, ok, fault, Cmd}

abbrev pub stack_error_full : ℕ
stack_error_full = 0xffffffff

abbrev pub stack_error_memory : ℕ
stack_error_memory = 0xfffffffe

abbrev pub stack_error_invalid_type : ℕ
stack_error_invalid_type = 0xfffffffd

abbrev pub stack_unlimited : ℕ
stack_unlimited = 0xffffffff

abbrev pub type_fixed : ℕ
type_fixed = 0

abbrev pub type_free : ℕ
type_free = 1

abbrev pub size_mod : ℕ
size_mod = 2 ^ 64

abbrev pub ptr_size : ℕ
ptr_size = 8

-- `size_t` arithmetic
abbrev pub add_size : ℕ → ℕ → ℕ
add_size a b = (a + b) % size_mod

abbrev pub sub_size : ℕ → ℕ → ℕ
sub_size a b = (a + size_mod - b) % size_mod

-- `struct _stack`. The last two fields are the union: which one is meant is told by `type`, and
-- every function asks for it first. `fixed_base` is the array that the pointer designates.
pub record Stack : Type 0 where
  pub type : ℕ
  pub current : ℕ
  pub limit : ℕ
  pub free_top : Ptr
  pub fixed_base : List Ptr

-- What a `p_stack_t` designates.
pub data Handle : Type 0 where
  nil : Handle
  freed : Handle
  live : Stack → Handle
