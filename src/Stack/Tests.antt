-- ===== src/Stack/Tests.antt =====
-- The theorems on stack.c at stacks of a few pointers, and runs of its functions.
use common_utils_lib.Base.{
  ◌≡◌, refl, ◌≢◌, Bool, true, false, Option, none, some, List, [], ◌∷◌, arith, ◌+◌, ◌==◌,
  if◌then◌else◌,
}
use common_utils_lib.Machine.{Ptr, null, ok, fault}
use common_utils_lib.Machine.Mutex.{Pthread}
use common_utils_lib.Machine.Returns.{Returns}
use common_utils_lib.Chain.{Field, put}
use common_utils_lib.Stack.{Stack, nil, freed, live, stack_error_full, stack_unlimited}
use common_utils_lib.Stack.Fixed.{
  fixed_clear, fixed_destroy, fixed_init, fixed_is_empty, fixed_is_full, fixed_pop,
  fixed_pop_and_return, fixed_push, fixed_size, fixed_top, fixed_clear_r, fixed_destroy_r,
  fixed_is_empty_r, fixed_is_full_r, fixed_pop_r, fixed_pop_and_return_r, fixed_push_r,
  fixed_size_r, fixed_top_r,
}
use common_utils_lib.Stack.Fixed.Inv.{Holds, fixed_init-Holds}
use common_utils_lib.Stack.Fixed.Steps.{Gives}
use common_utils_lib.Stack.Fixed.Refine.{
  Op, push, pop, top, size, is_full, call, list_call, run, list_run, call-list_call, run-list_run,
}
use common_utils_lib.Stack.Fixed.Guards.{fixed_init_overflow}
use common_utils_lib.Stack.Free.{
  World, free_clear, free_destroy, free_is_empty, free_pop, free_pop_and_return, free_push,
  free_size, free_top, free_clear_r, free_destroy_r, free_is_empty_r, free_pop_r,
  free_pop_and_return_r, free_push_r, free_size_r, free_top_r,
}
use common_utils_lib.Stack.Free.Inv
use common_utils_lib.Stack.Free.Clear.{Without, free_clear-Without, free_destroy-Without}
use common_utils_lib.Stack.Free.Refine
use common_utils_lib.Stack.Reentrant.{fixed_reentrant-same, free_reentrant-same}

fixed_init-Holds_run : Holds 2 [] (fixed_init true true 2)
fixed_init-Holds_run = fixed_init-Holds 2 (omega arith) (omega arith)

call-list_call_run :
    Returns
      (Gives 2 (list_call 2 (push 7) []).0 (list_call 2 (push 7) []).1)
      (call (push 7) (fixed_init true true 2))
call-list_call_run =
    call-list_call (push 7) 2 [] (fixed_init true true 2)
      (fixed_init-Holds 2 (omega arith) (omega arith))

-- Three pushes to a stack for two pointers, and what comes after.
abbrev busy : List Op
busy = push 7 ∷ push 8 ∷ push 9 ∷ is_full ∷ top ∷ pop ∷ size ∷ []

run-list_run_example :
    Returns
      (Gives 2 (list_run 2 busy []).0 (list_run 2 busy []).1)
      (run busy (fixed_init true true 2))
run-list_run_example =
    run-list_run busy 2 [] (fixed_init true true 2) (fixed_init-Holds 2 (omega arith) (omega arith))

busy_answers : list_run 2 busy [] ≡ (1 ∷ 0 ∷ stack_error_full ∷ 1 ∷ 8 ∷ 0 ∷ 1 ∷ [], 7 ∷ [])
unfolding list_run list_call
busy_answers = refl

fixed_init_overflow_example :
    (s : Stack) × (fixed_init true true 0x2000000000000000 ≡ live s)
    × (s.limit ≡ 0x2000000000000000)
    × (fixed_size (live s) ≡ ok 0 (live s))
    × (fixed_push 7 (live s) ≡ fault)
fixed_init_overflow_example = fixed_init_overflow 0x2000000000000000 7 (omega arith) (omega arith)

-- A stack of the nodes 3 and 5, which hold 8 and 7.
abbrev two_nodes : World
two_nodes = record {
  handle = live (Inv.free_stack stack_unlimited stack_unlimited [] 3);
  next = put (put (λ _. none) 3 5) 5 0;
  payload = λ a. a + (if a == 3 then 5 else 2);
}

two_nodes-Holds : Inv.Holds (8 ∷ 7 ∷ []) (3 ∷ 5 ∷ []) two_nodes
two_nodes-Holds = record {
  current = stack_unlimited;
  limit = stack_unlimited;
  base = [];
  there = refl;
  linked = (omega arith, refl, (omega arith, refl, tt));
  distinct = (refl, (refl, tt));
  holds = refl;
}

-- An allocator with one piece of memory to give, at 9.
abbrev nine_unless : Option Ptr → Ptr
nine_unless none = 9
nine_unless (some q) = null

abbrev one_piece : Field → Ptr
one_piece f = nine_unless (f 9)

nine_unless-none :
    (f : Field) (o : Option Ptr) → f 9 ≡ o → nine_unless o ≢ null → f (nine_unless o) ≡ none
nine_unless-none f none e ne = e
nine_unless-none f (some q) e ne = absurd (ne refl)

one_piece-none : (f : Field) → one_piece f ≢ null → f (one_piece f) ≡ none
one_piece-none f = nine_unless-none f (f 9) refl

abbrev requests : List Refine.Op
requests = Refine.push 6 ∷ Refine.push 4 ∷ Refine.size ∷ Refine.pop_and_return ∷ []

run-ListRun_example :
    Returns
      (λ rs w'.
        (ys : List Ptr) × (nodes' : List Ptr) × Refine.ListRun one_piece 10 requests two_nodes
          (8 ∷ 7 ∷ [])
          rs
          ys
          w'
        × Inv.Holds ys nodes' w')
      (Refine.run one_piece 10 requests two_nodes)
run-ListRun_example =
    Refine.run-ListRun one_piece one_piece-none 10 requests (8 ∷ 7 ∷ []) (3 ∷ 5 ∷ []) two_nodes
      two_nodes-Holds (omega arith) (omega arith)

free_clear-Without_run :
    Returns
      (λ _ w'. Inv.Holds [] [] w' × Without (3 ∷ 5 ∷ []) two_nodes.next w'.next)
      (free_clear 3 two_nodes)
free_clear-Without_run =
    free_clear-Without two_nodes 3 (8 ∷ 7 ∷ []) (3 ∷ 5 ∷ []) two_nodes-Holds (omega arith)

free_destroy-Without_example :
    Returns
      (λ _ w'. (w'.handle ≡ freed) × Without (3 ∷ 5 ∷ []) two_nodes.next w'.next)
      (free_destroy 3 two_nodes)
free_destroy-Without_example =
    free_destroy-Without two_nodes 3 (8 ∷ 7 ∷ []) (3 ∷ 5 ∷ []) two_nodes-Holds (omega arith)

abbrev no_threads : Pthread
no_threads = record { Mutex = Bool; lock = λ m. if m then none else some true; unlock = λ m. false }

fixed_reentrant-same_run :
    (fixed_clear_r no_threads false nil ≡ fixed_clear nil)
    × (fixed_destroy_r no_threads false nil ≡ fixed_destroy nil)
    × (fixed_is_empty_r no_threads false nil ≡ fixed_is_empty nil)
    × (fixed_is_full_r no_threads false nil ≡ fixed_is_full nil)
    × (fixed_pop_r no_threads false nil ≡ fixed_pop nil)
    × (fixed_pop_and_return_r no_threads false nil ≡ fixed_pop_and_return nil)
    × (fixed_push_r no_threads false 7 nil ≡ fixed_push 7 nil)
    × (fixed_size_r no_threads false nil ≡ fixed_size nil)
    × (fixed_top_r no_threads false nil ≡ fixed_top nil)
fixed_reentrant-same_run = fixed_reentrant-same no_threads false true refl 7 nil

free_reentrant-same_run :
    (free_clear_r no_threads false 3 two_nodes ≡ free_clear 3 two_nodes)
    × (free_destroy_r no_threads false 3 two_nodes ≡ free_destroy 3 two_nodes)
    × (free_is_empty_r no_threads false two_nodes ≡ free_is_empty two_nodes)
    × (free_pop_r no_threads false two_nodes ≡ free_pop two_nodes)
    × (free_pop_and_return_r no_threads false two_nodes ≡ free_pop_and_return two_nodes)
    × (free_push_r no_threads one_piece false 6 two_nodes ≡ free_push one_piece 6 two_nodes)
    × (free_size_r no_threads false 3 two_nodes ≡ free_size 3 two_nodes)
    × (free_top_r no_threads false two_nodes ≡ free_top two_nodes)
free_reentrant-same_run = free_reentrant-same no_threads false true refl one_piece 3 6 two_nodes
