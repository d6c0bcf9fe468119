-- ===== src/Stack/Free.antt =====
-- The list-based stack of stack.c. The store is what the argument `stack` designates, with the
-- nodes: their `next` and their `data`.
pub mod Inv
pub mod Clear
pub mod Steps
pub mod Refine
use common_utils_lib.Base.{
  ℕ, zero, suc, Bool, true, false, Option, none, some, [], ◌==◌, if◌then◌else◌,
}
use common_utils_lib.Machine.{Ptr, null, Run, ok, fault, out_of_fuel, Cmd, ◌>>=◌, ◌>>◌, then_run}
use common_utils_lib.Machine.Mutex.{Pthread, with_copy}
use common_utils_lib.Chain.{Field, put}
use common_utils_lib.Stack.{
  Stack, Handle, nil, freed, live, type_free, add_size, stack_error_memory,
  stack_error_invalid_type, stack_unlimited,
}

pub record World : Type 0 where
  pub handle : Handle
  pub next : Field
  pub payload : Ptr → Ptr

-- `if ( !stack || ( stack->type != STACK_TYPE_FREE ) ) return d;` and then the body
abbrev pub on_handle : {A : Type 0} → A → (Stack → Cmd World A) → Handle → Cmd World A
on_handle d body nil w = ok d w
on_handle d body freed w = fault
on_handle d body (live s) w = if s.type == type_free then body s w else ok d w

abbrev pub if_free : {A : Type 0} → A → (Stack → Cmd World A) → Cmd World A
if_free d body w = on_handle d body w.handle w

abbrev pub found : {A : Type 0} → Option Ptr → (Ptr → Run World A) → Run World A
found none k = fault
found (some q) k = k q

-- `nn->next`
unfoldable pub next_of : Ptr → Cmd World Ptr
next_of nn w = if nn == null then fault else found (w.next nn) λ q. ok q w

-- `free ( nn )`
abbrev pub give_back : Field → Ptr → Field
give_back f a b = if b == a then none else f b

unfoldable pub free : Ptr → Cmd World (Unit {0})
unfolding next_of
free nn = do _ ← next_of nn; λ w. ok tt (record w { next = give_back w.next nn })

-- `stack->free_top = p`
abbrev pub set_top : Stack → Ptr → Cmd World (Unit {0})
set_top s p w = ok tt (record w { handle = live (record s { free_top = p }) })

-- `malloc` of the struct succeeds or not.
unfoldable pub free_init : Bool → Handle
free_init struct_ok =
    if struct_ok
    then live (record {
      type = type_free;
      current = stack_unlimited;
      limit = stack_unlimited;
      free_top = null;
      fixed_base = [];
    })
    else nil

-- `while ( stack->free_top ) { nn = stack->free_top->next; free ( stack->free_top ); ... }`
unfoldable pub clear_loop : ℕ → Stack → Ptr → Cmd World (Unit {0})
clear_loop zero s top = λ _. out_of_fuel
clear_loop (suc fuel) s top =
    if top == null
    then (λ w. ok tt w)
    else do nn ← next_of top; free top; set_top s nn; clear_loop fuel s nn

unfoldable pub free_clear : ℕ → Cmd World (Unit {0})
free_clear fuel = if_free tt λ s. clear_loop fuel s s.free_top

unfoldable pub free_destroy : ℕ → Cmd World (Unit {0})
free_destroy fuel =
    if_free tt λ s. do clear_loop fuel s s.free_top; λ w. ok tt (record w { handle = freed })

unfoldable pub free_is_empty : Cmd World Bool
free_is_empty = if_free false λ s. ok (s.free_top == null)

unfoldable pub free_pop : Cmd World (Unit {0})
free_pop = if_free tt λ s.
    if s.free_top == null then ok tt else do q ← next_of s.free_top; set_top s q; free s.free_top

unfoldable pub free_pop_and_return : Cmd World Ptr
free_pop_and_return = if_free null λ s. if s.free_top == null then ok null else do
  rv ← (λ w. ok (w.payload s.free_top) w)
  q ← next_of s.free_top
  set_top s q
  free s.free_top
  ok rv

abbrev pub store_payload : (Ptr → Ptr) → Ptr → Ptr → Ptr → Ptr
store_payload d a v b = if b == a then v else d b

-- `malloc` of a node, given what is allocated.
unfoldable pub free_push : (malloc : Field → Ptr) → Ptr → Cmd World ℕ
free_push malloc value = if_free stack_error_invalid_type λ s w.
    let nn = malloc w.next in
    if nn == null
    then ok stack_error_memory w
    else ok 1 (record {
      handle = live (record s { free_top = nn });
      next = put w.next nn s.free_top;
      payload = store_payload w.payload nn value;
    })

unfoldable pub size_loop : ℕ → Ptr → ℕ → Cmd World ℕ
size_loop zero nn rv = λ _. out_of_fuel
size_loop (suc fuel) nn rv =
    if nn == null then ok rv else do q ← next_of nn; size_loop fuel q (add_size rv 1)

unfoldable pub free_size : ℕ → Cmd World ℕ
free_size fuel = if_free 0 λ s. size_loop fuel s.free_top 0

unfoldable pub free_top : Cmd World Ptr
free_top = if_free null λ s.
    if s.free_top == null
    then ok null
    else do _ ← next_of s.free_top; λ w. ok (w.payload s.free_top) w

module _ (posix : Pthread) where
  open posix use {Mutex}

  unfoldable pub free_clear_r : Mutex → ℕ → Cmd World (Unit {0})
  free_clear_r mutex fuel = with_copy posix mutex (free_clear fuel)

  unfoldable pub free_destroy_r : Mutex → ℕ → Cmd World (Unit {0})
  free_destroy_r mutex fuel = with_copy posix mutex (free_destroy fuel)

  unfoldable pub free_is_empty_r : Mutex → Cmd World Bool
  free_is_empty_r mutex = with_copy posix mutex free_is_empty

  unfoldable pub free_pop_r : Mutex → Cmd World (Unit {0})
  free_pop_r mutex = with_copy posix mutex free_pop

  unfoldable pub free_pop_and_return_r : Mutex → Cmd World Ptr
  free_pop_and_return_r mutex = with_copy posix mutex free_pop_and_return

  unfoldable pub free_push_r : (Field → Ptr) → Mutex → Ptr → Cmd World ℕ
  free_push_r malloc mutex value = with_copy posix mutex (free_push malloc value)

  unfoldable pub free_size_r : Mutex → ℕ → Cmd World ℕ
  free_size_r mutex fuel = with_copy posix mutex (free_size fuel)

  unfoldable pub free_top_r : Mutex → Cmd World Ptr
  free_top_r mutex = with_copy posix mutex free_top
