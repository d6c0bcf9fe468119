-- ===== src/Stack/Fixed/Refine.antt =====
-- The fixed stack as a client sees it: no sequence of calls tells it from a bounded list.
use common_utils_lib.Base.{
  ℕ, ◌-◌, refl, ap, Bool, true, false, List, [], ◌∷◌, ◌==◌, if◌then◌else◌, length, Bool-cases, inl,
  inr,
}
use common_utils_lib.Machine.{Ptr, ok, Cmd, ◌>>=◌}
use common_utils_lib.Machine.Returns.{Returns, returns, chain, weaken}
use common_utils_lib.Stack.{Handle, stack_error_full}
use common_utils_lib.Stack.Fixed.{
  fixed_clear, fixed_is_empty, fixed_is_full, fixed_pop, fixed_pop_and_return, fixed_push,
  fixed_size, fixed_top,
}
use common_utils_lib.Stack.Fixed.Inv.{Holds}
use common_utils_lib.Stack.Fixed.Steps.{
  Gives, top_of, rest_of, lift-Holds, pop_and_return-Gives, pop-Gives, top-Gives, size-Gives,
  is_empty-Gives, is_full-Gives, clear-Gives, push-Gives,
}

-- What a client can ask.
pub data Op : Type 0 where
  push : Ptr → Op
  pop pop_and_return top size is_empty is_full clear : Op

-- `bool_t` as the number that it is; a call that returns nothing answers 0.
abbrev pub bool_t : Bool → ℕ
bool_t true = 1
bool_t false = 0

abbrev pub answer : {A : Type 0} → (A → ℕ) → Cmd Handle A → Cmd Handle ℕ
answer f m = m >>= λ a. ok (f a)

-- One call of the library.
unfoldable pub call : Op → Cmd Handle ℕ
call (push v) = fixed_push v
call pop = answer (λ _. 0) fixed_pop
call pop_and_return = fixed_pop_and_return
call top = fixed_top
call size = fixed_size
call is_empty = answer bool_t fixed_is_empty
call is_full = answer bool_t fixed_is_full
call clear = answer (λ _. 0) fixed_clear

-- The same call of a list of at most `cap` pointers, top first: what it answers and leaves. A push
-- answers how many more pushes there is room for, or the error code.
module _ (cap : ℕ) where
  unfoldable pub list_call : Op → List Ptr → ℕ × List Ptr
  list_call (push v) xs =
      if length xs == cap then (stack_error_full, xs) else (cap - length xs - 1, v ∷ xs)
  list_call pop xs = (0, rest_of xs)
  list_call pop_and_return xs = (top_of xs, rest_of xs)
  list_call top xs = (top_of xs, xs)
  list_call size xs = (length xs, xs)
  list_call is_empty xs = (bool_t (length xs == 0), xs)
  list_call is_full xs = (bool_t (length xs == cap), xs)
  list_call clear xs = (0, [])

  unfoldable pub list_run : List Op → List Ptr → List ℕ × List Ptr
  list_run [] xs = ([], xs)
  list_run (op ∷ ops) xs =
      let (r, ys) = list_call op xs in let (rs, zs) = list_run ops ys in (r ∷ rs, zs)

unfoldable pub run : List Op → Cmd Handle (List ℕ)
run [] = ok []
run (op ∷ ops) = do r ← call op; rs ← run ops; ok (r ∷ rs)

answer-Gives :
    {A : Type 0} (f : A → ℕ) (m : Cmd Handle A) {cap : ℕ} {r : A} {xs : List Ptr} (h : Handle)
    → Returns (Gives cap r xs) (m h)
    → Returns (Gives cap (f r) xs) (answer f m h)
answer-Gives f m h t = chain t λ a g (e, is). returns (ap f e, is)

-- Every call of a well-formed stack answers as the bounded list does, and leaves the stack
-- well-formed, of the same capacity, and holding what the list then holds.
pub call-list_call :
    (op : Op) (cap : ℕ) (xs : List Ptr) (h : Handle)
    → Holds cap xs h
    → Returns (Gives cap (list_call cap op xs).0 (list_call cap op xs).1) (call op h)
unfolding call list_call
call-list_call (push v) cap xs h is =
    weaken
      (lift-Holds
        (λ n l g.
          Returns
            (Gives n (if length l == n then stack_error_full else n - length l - 1)
              (if length l == n then l else v ∷ l))
            (fixed_push v g))
        (λ s w. push-Gives s w v) cap xs h is)
      λ r g t. elim (Bool-cases (length xs == cap)) [
        | inl e ↦ rw e (rw e at t)
        | inr e ↦ rw e (rw e at t)
      ]
call-list_call pop cap xs h is =
    answer-Gives (λ _. 0) fixed_pop h
      (lift-Holds (λ n l g. Returns (Gives n tt (rest_of l)) (fixed_pop g)) pop-Gives cap xs h is)
call-list_call pop_and_return cap xs h is =
    lift-Holds (λ n l g. Returns (Gives n (top_of l) (rest_of l)) (fixed_pop_and_return g))
      pop_and_return-Gives cap xs h is
call-list_call top cap xs h is =
    lift-Holds (λ n l g. Returns (Gives n (top_of l) l) (fixed_top g)) top-Gives cap xs h is
call-list_call size cap xs h is =
    lift-Holds (λ n l g. Returns (Gives n (length l) l) (fixed_size g)) size-Gives cap xs h is
call-list_call is_empty cap xs h is = answer-Gives bool_t fixed_is_empty h (
    lift-Holds (λ n l g. Returns (Gives n (length l == 0) l) (fixed_is_empty g)) is_empty-Gives cap
      xs h is)
call-list_call is_full cap xs h is = answer-Gives bool_t fixed_is_full h (
    lift-Holds (λ n l g. Returns (Gives n (length l == n) l) (fixed_is_full g)) is_full-Gives cap xs
      h is)
call-list_call clear cap xs h is =
    answer-Gives (λ _. 0) fixed_clear h
      (lift-Holds (λ n l g. Returns (Gives n tt []) (fixed_clear g)) clear-Gives cap xs h is)

-- Every sequence of calls of a well-formed fixed stack gets from it the answers that it gets from
-- the bounded list, and leaves it well-formed and holding what the list then holds: no call
-- faults, and none reads or writes outside the array.
pub run-list_run :
    (ops : List Op) (cap : ℕ) (xs : List Ptr) (h : Handle)
    → Holds cap xs h
    → Returns (Gives cap (list_run cap ops xs).0 (list_run cap ops xs).1) (run ops h)
unfolding run list_run
run-list_run [] cap xs h is = returns (refl, is)
run-list_run (op ∷ ops) cap xs h is = chain (call-list_call op cap xs h is) λ r g (e, there).
    chain (run-list_run ops cap (list_call cap op xs).1 g there)
      λ rs g' (e', there'). returns (cc, there')
