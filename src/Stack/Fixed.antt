-- ===== src/Stack/Fixed.antt =====
-- The fixed-size stack of stack.c. The store is what the argument `stack` designates.
pub mod Inv
pub mod Guards
pub mod Steps
pub mod Refine
use common_utils_lib.Base.{
  ℕ, zero, suc, ◌+◌, ◌-◌, ◌*◌, ◌/◌, ◌%◌, Bool, true, false, Option, none, some, List, [], ◌∷◌, ltb,
  leb, ◌==◌, if◌then◌else◌, length, get_elem?, set, replicate,
}
use common_utils_lib.Machine.{Ptr, null, Run, ok, fault, Cmd}
use common_utils_lib.Machine.Mutex.{Pthread, with_copy}
use common_utils_lib.Stack.{
  Stack, Handle, nil, freed, live, type_fixed, size_mod, ptr_size, add_size, sub_size,
  stack_error_full, stack_error_invalid_type,
}

-- `if ( !stack || ( stack->type != STACK_TYPE_FIXED ) ) return d;` and then the body
abbrev pub if_fixed : {A : Type 0} → A → (Stack → Run Handle A) → Cmd Handle A
if_fixed d body nil = ok d nil
if_fixed d body freed = fault
if_fixed d body (live s) = if s.type == type_fixed then body s else ok d (live s)

-- `fixed_base[ i ]`, a fault out of bounds
abbrev pub read : {A : Type 0} → Option Ptr → (Ptr → Run Handle A) → Run Handle A
read none k = fault
read (some v) k = k v

-- The first `n` pointers of an array set to `NULL`.
abbrev pub zero_fill : ℕ → List Ptr → List Ptr
zero_fill zero xs = xs
zero_fill (suc n) [] = []
zero_fill (suc n) (x ∷ xs) = null ∷ zero_fill n xs

-- `memset ( fixed_base, 0, bytes )`
abbrev pub memset_base : Stack → ℕ → (List Ptr → Run Handle (Unit {0})) → Run Handle (Unit {0})
memset_base s bytes k =
    if leb bytes (length s.fixed_base * ptr_size)
    then k (zero_fill (bytes / ptr_size) s.fixed_base)
    else fault

unfoldable pub fixed_clear : Cmd Handle (Unit {0})
fixed_clear = if_fixed tt λ s.
    memset_base s (s.limit * ptr_size % size_mod)
      λ base. ok tt (live (record s { fixed_base = base; current = s.limit }))

unfoldable pub fixed_destroy : Cmd Handle (Unit {0})
fixed_destroy = if_fixed tt λ s. ok tt freed

-- `malloc` of the struct and of the array succeed or not. `malloc ( array_size )` gives room for
-- `array_size / 8` pointers.
unfoldable pub fixed_init : (struct_ok base_ok : Bool) → ℕ → Handle
fixed_init struct_ok base_ok max_stack_size =
    let array_size = max_stack_size * ptr_size % size_mod in
    if max_stack_size == 0
    then nil
    else if struct_ok
    then (if base_ok
        then live (record {
          type = type_fixed;
          current = max_stack_size;
          limit = max_stack_size;
          free_top = null;
          fixed_base = replicate (array_size / ptr_size) null;
        })
        else nil)
    else nil

unfoldable pub fixed_is_empty : Cmd Handle Bool
fixed_is_empty = if_fixed false λ s. ok (s.current == s.limit) (live s)

unfoldable pub fixed_is_full : Cmd Handle Bool
fixed_is_full = if_fixed false λ s. ok (s.current == 0) (live s)

abbrev pub drop_top : Stack → Stack
drop_top s = record s {
  fixed_base = set s.fixed_base s.current null;
  current = add_size s.current 1;
}

unfoldable pub fixed_pop : Cmd Handle (Unit {0})
fixed_pop = if_fixed tt λ s.
    if ltb s.current s.limit
    then (if ltb s.current (length s.fixed_base) then ok tt (live (drop_top s)) else fault)
    else ok tt (live s)

unfoldable pub fixed_pop_and_return : Cmd Handle Ptr
fixed_pop_and_return = if_fixed null λ s.
    if ltb s.current s.limit
    then read (get_elem? s.fixed_base s.current) (λ rv. ok rv (live (drop_top s)))
    else ok null (live s)

-- `STACK_ERROR_...` and the index alike are a `ssize_t`.
unfoldable pub fixed_push : Ptr → Cmd Handle ℕ
fixed_push value = if_fixed stack_error_invalid_type λ s.
    if ltb 0 s.current
    then (if ltb (s.current - 1) (length s.fixed_base)
        then ok (s.current - 1) (
            live (record s {
              current = s.current - 1;
              fixed_base = set s.fixed_base (s.current - 1) value;
            }))
        else fault)
    else ok stack_error_full (live s)

unfoldable pub fixed_size : Cmd Handle ℕ
fixed_size = if_fixed 0 λ s. ok (sub_size s.limit s.current) (live s)

unfoldable pub fixed_top : Cmd Handle Ptr
fixed_top = if_fixed null λ s.
    if ltb s.current s.limit
    then read (get_elem? s.fixed_base s.current) (λ v. ok v (live s))
    else ok null (live s)

module _ (posix : Pthread) where
  open posix use {Mutex}

  unfoldable pub fixed_clear_r : Mutex → Cmd Handle (Unit {0})
  fixed_clear_r mutex = with_copy posix mutex fixed_clear

  unfoldable pub fixed_destroy_r : Mutex → Cmd Handle (Unit {0})
  fixed_destroy_r mutex = with_copy posix mutex fixed_destroy

  unfoldable pub fixed_is_empty_r : Mutex → Cmd Handle Bool
  fixed_is_empty_r mutex = with_copy posix mutex fixed_is_empty

  unfoldable pub fixed_is_full_r : Mutex → Cmd Handle Bool
  fixed_is_full_r mutex = with_copy posix mutex fixed_is_full

  unfoldable pub fixed_pop_r : Mutex → Cmd Handle (Unit {0})
  fixed_pop_r mutex = with_copy posix mutex fixed_pop

  unfoldable pub fixed_pop_and_return_r : Mutex → Cmd Handle Ptr
  fixed_pop_and_return_r mutex = with_copy posix mutex fixed_pop_and_return

  unfoldable pub fixed_push_r : Mutex → Ptr → Cmd Handle ℕ
  fixed_push_r mutex value = with_copy posix mutex (fixed_push value)

  unfoldable pub fixed_size_r : Mutex → Cmd Handle ℕ
  fixed_size_r mutex = with_copy posix mutex fixed_size

  unfoldable pub fixed_top_r : Mutex → Cmd Handle Ptr
  fixed_top_r mutex = with_copy posix mutex fixed_top
