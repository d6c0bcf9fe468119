-- ===== src/Stack/Reentrant.antt =====
-- The functions of stack.c that take a mutex.
use common_utils_lib.Base.{ℕ, ◌≡◌, some}
use common_utils_lib.Machine.{Ptr}
use common_utils_lib.Machine.Mutex.{Pthread, with_copy-ok}
use common_utils_lib.Chain.{Field}
use common_utils_lib.Stack.{Handle}
use common_utils_lib.Stack.Fixed.{
  fixed_clear, fixed_destroy, fixed_is_empty, fixed_is_full, fixed_pop, fixed_pop_and_return,
  fixed_push, fixed_size, fixed_top, fixed_clear_r, fixed_destroy_r, fixed_is_empty_r,
  fixed_is_full_r, fixed_pop_r, fixed_pop_and_return_r, fixed_push_r, fixed_size_r, fixed_top_r,
}
use common_utils_lib.Stack.Free.{
  World, free_clear, free_destroy, free_is_empty, free_pop, free_pop_and_return, free_push,
  free_size, free_top, free_clear_r, free_destroy_r, free_is_empty_r, free_pop_r,
  free_pop_and_return_r, free_push_r, free_size_r, free_top_r,
}

module _ (posix : Pthread) (mutex held : posix.Mutex) (granted : posix.lock mutex ≡ some held) where
  -- When the lock of the copied mutex is granted, every re-entrant function of the fixed stack does
  -- what its counterpart without a mutex does.
  pub fixed_reentrant-same :
      (v : Ptr) (h : Handle)
      → (fixed_clear_r posix mutex h ≡ fixed_clear h)
        × (fixed_destroy_r posix mutex h ≡ fixed_destroy h)
        × (fixed_is_empty_r posix mutex h ≡ fixed_is_empty h)
        × (fixed_is_full_r posix mutex h ≡ fixed_is_full h)
        × (fixed_pop_r posix mutex h ≡ fixed_pop h)
        × (fixed_pop_and_return_r posix mutex h ≡ fixed_pop_and_return h)
        × (fixed_push_r posix mutex v h ≡ fixed_push v h)
        × (fixed_size_r posix mutex h ≡ fixed_size h)
        × (fixed_top_r posix mutex h ≡ fixed_top h)
  unfolding fixed_clear_r fixed_destroy_r fixed_is_empty_r fixed_is_full_r fixed_pop_r
      fixed_pop_and_return_r fixed_push_r fixed_size_r fixed_top_r
  fixed_reentrant-same v h = (
    with_copy-ok posix mutex held fixed_clear h granted,
    with_copy-ok posix mutex held fixed_destroy h granted,
    with_copy-ok posix mutex held fixed_is_empty h granted,
    with_copy-ok posix mutex held fixed_is_full h granted,
    with_copy-ok posix mutex held fixed_pop h granted,
    with_copy-ok posix mutex held fixed_pop_and_return h granted,
    with_copy-ok posix mutex held (fixed_push v) h granted,
    with_copy-ok posix mutex held fixed_size h granted,
    with_copy-ok posix mutex held fixed_top h granted,
  )

  -- When the lock of the copied mutex is granted, every re-entrant function of the list-based
  -- stack does what its counterpart without a mutex does.
  pub free_reentrant-same :
      (malloc : Field → Ptr) (fuel : ℕ) (v : Ptr) (w : World)
      → (free_clear_r posix mutex fuel w ≡ free_clear fuel w)
        × (free_destroy_r posix mutex fuel w ≡ free_destroy fuel w)
        × (free_is_empty_r posix mutex w ≡ free_is_empty w)
        × (free_pop_r posix mutex w ≡ free_pop w)
        × (free_pop_and_return_r posix mutex w ≡ free_pop_and_return w)
        × (free_push_r posix malloc mutex v w ≡ free_push malloc v w)
        × (free_size_r posix mutex fuel w ≡ free_size fuel w)
        × (free_top_r posix mutex w ≡ free_top w)
  unfolding free_clear_r free_destroy_r free_is_empty_r free_pop_r free_pop_and_return_r free_push_r
      free_size_r free_top_r
  free_reentrant-same malloc fuel v w = (
    with_copy-ok posix mutex held (free_clear fuel) w granted,
    with_copy-ok posix mutex held (free_destroy fuel) w granted,
    with_copy-ok posix mutex held free_is_empty w granted,
    with_copy-ok posix mutex held free_pop w granted,
    with_copy-ok posix mutex held free_pop_and_return w granted,
    with_copy-ok posix mutex held (free_push malloc v) w granted,
    with_copy-ok posix mutex held (free_size fuel) w granted,
    with_copy-ok posix mutex held free_top w granted,
  )
