-- ===== src/Stack/Free/Refine.antt =====
-- The list-based stack as a client sees it: every sequence of calls behaves as a list, where a
-- push may find no memory.
use common_utils_lib.Base.{
  ℕ, ◌+◌, ◌<◌, ◌≡◌, ◌≢◌, Bool, true, false, none, List, [], ◌∷◌, arith, ◌==◌, length, Bool-cases,
  inl, inr,
}
use common_utils_lib.Machine.{Ptr, null, ok, Cmd, ◌>>=◌}
use common_utils_lib.Machine.Returns.{Returns, returns, chain, weaken, result}
use common_utils_lib.Chain.{Field}
use common_utils_lib.Stack.{size_mod, stack_error_memory}
use common_utils_lib.Stack.Free.{
  World, free_push, free_pop, free_pop_and_return, free_top, free_size, free_is_empty, free_clear,
}
use common_utils_lib.Stack.Free.Inv.{Holds}
use common_utils_lib.Stack.Free.Steps.{
  top_of, rest_of, Gives, free_pop-Gives, free_pop_and_return-Gives, free_top-Gives,
  free_size-Gives, free_is_empty-Gives, free_push-Gives,
}
use common_utils_lib.Stack.Free.Clear.{free_clear-Without}

-- What a client can ask.
pub data Op : Type 0 where
  push : Ptr → Op
  pop pop_and_return top size is_empty clear : Op

-- `bool_t` as the number that it is; a call that returns nothing answers 0.
abbrev pub bool_t : Bool → ℕ
bool_t true = 1
bool_t false = 0

abbrev pub answer : {A : Type 0} → (A → ℕ) → Cmd World A → Cmd World ℕ
answer f m = m >>= λ a. ok (f a)

-- What a list answers to a call, and what it then is, where `no_mem` says that there is no memory
-- for a push.
pub data ListStep : (no_mem : Bool) → Op → List Ptr → ℕ → List Ptr → Type 0 where
  pushed : (v : Ptr) (xs : List Ptr) → ListStep false (push v) xs 1 (v ∷ xs)
  no_memory : (v : Ptr) (xs : List Ptr) → ListStep true (push v) xs stack_error_memory xs
  popped : {b : Bool} (xs : List Ptr) → ListStep b pop xs 0 (rest_of xs)
  returned : {b : Bool} (xs : List Ptr) → ListStep b pop_and_return xs (top_of xs) (rest_of xs)
  looked : {b : Bool} (xs : List Ptr) → ListStep b top xs (top_of xs) xs
  sized : {b : Bool} (xs : List Ptr) → ListStep b size xs (length xs) xs
  tested : {b : Bool} (xs : List Ptr) → ListStep b is_empty xs (bool_t (length xs == 0)) xs
  cleared : {b : Bool} (xs : List Ptr) → ListStep b clear xs 0 []

module _ (malloc : Field → Ptr) (fuel : ℕ) where
  -- One call of the library.
  unfoldable pub call : Op → Cmd World ℕ
  call (push v) = free_push malloc v
  call pop = answer (λ _. 0) free_pop
  call pop_and_return = free_pop_and_return
  call top = free_top
  call size = free_size fuel
  call is_empty = answer bool_t free_is_empty
  call clear = answer (λ _. 0) (free_clear fuel)

  unfoldable pub run : List Op → Cmd World (List ℕ)
  run [] = ok []
  run (op ∷ ops) = do r ← call op; rs ← run ops; ok (r ∷ rs)

-- A sequence of calls from a store, whose answers are those of a list: there is no memory for a
-- push exactly when `malloc` returns `NULL` on the store that the push meets.
pub data ListRun (malloc : Field → Ptr) (fuel : ℕ)
    : List Op → World → List Ptr → List ℕ → List Ptr → World → Type 0 where
  done : (w : World) (xs : List Ptr) → ListRun malloc fuel [] w xs [] xs w
  step :
      {op : Op} {ops : List Op} {w w' w'' : World} {xs ys zs : List Ptr} {r : ℕ} {rs : List ℕ}
      → call malloc fuel op w ≡ ok r w'
      → ListStep (malloc w.next == null) op xs r ys
      → ListRun malloc fuel ops w' ys rs zs w''
      → ListRun malloc fuel (op ∷ ops) w xs (r ∷ rs) zs w''

rest_of_short : (xs : List Ptr) → length (rest_of xs) < length xs + 2
rest_of_short [] = omega arith
rest_of_short (x ∷ xs) = omega arith

-- A call answered as a list answers it.
pub record Answers (no_mem : Bool) (op : Op) (xs : List Ptr) (r : ℕ) (w : World) : Type 0 where
  pub after : List Ptr
  pub nodes : List Ptr
  pub holds : Holds after nodes w
  pub as_list : ListStep no_mem op xs r after
  pub grown : length after < length xs + 2

module _ (malloc : Field → Ptr) (fresh : (f : Field) → malloc f ≢ null → f (malloc f) ≡ none)
    (fuel : ℕ) where
  call-Answers :
      (op : Op) (xs nodes : List Ptr) (w : World)
      → Holds xs nodes w
      → length xs < fuel
      → length xs < size_mod
      → Returns (Answers (malloc w.next == null) op xs) (call malloc fuel op w)
  unfolding call
  call-Answers (push v) xs nodes w is h b =
      weaken (free_push-Gives w malloc v xs nodes is (fresh w.next)) λ r w' g.
        elim (Bool-cases (malloc w.next == null)) [
          | inl e ↦
              let (e', is') : Gives stack_error_memory xs nodes r w' = rw e at g in
              rw e' (record {
                after = xs;
                nodes = nodes;
                holds = is';
                as_list = rw e (no_memory v xs);
                grown = omega arith;
              })
          | inr e ↦
              let (e', is') : Gives 1 (v ∷ xs) (malloc w.next ∷ nodes) r w' = rw e at g in
              rw e' (record {
                after = v ∷ xs;
                nodes = malloc w.next ∷ nodes;
                holds = is';
                as_list = rw e (pushed v xs);
                grown = omega arith;
              })
        ]
  call-Answers pop xs nodes w is h b = chain (free_pop-Gives w xs nodes is) λ r w' (e, is').
      returns (record {
        after = _;
        nodes = _;
        holds = is';
        as_list = popped xs;
        grown = rest_of_short xs;
      })
  call-Answers pop_and_return xs nodes w is h b =
      weaken (free_pop_and_return-Gives w xs nodes is) λ r w' (e, is'). rw e (record {
        after = _;
        nodes = _;
        holds = is';
        as_list = returned xs;
        grown = rest_of_short xs;
      })
  call-Answers top xs nodes w is h b = weaken (free_top-Gives w xs nodes is) λ r w' (e, is').
      rw e (record {
        after = xs;
        nodes = nodes;
        holds = is';
        as_list = looked xs;
        grown = omega arith;
      })
  call-Answers size xs nodes w is h b =
      weaken (free_size-Gives w fuel xs nodes is h b) λ r w' (e, is').
        rw e (record {
          after = xs;
          nodes = nodes;
          holds = is';
          as_list = sized xs;
          grown = omega arith;
        })
  call-Answers is_empty xs nodes w is h b =
      chain (free_is_empty-Gives w xs nodes is) λ r w' (e, is'). returns (
        rw e (record {
          after = xs;
          nodes = nodes;
          holds = is';
          as_list = tested xs;
          grown = omega arith;
        }))
  call-Answers clear xs nodes w is h b =
      chain (free_clear-Without w fuel xs nodes is h) λ r w' (is', _).
        returns (record {
          after = [];
          nodes = [];
          holds = is';
          as_list = cleared xs;
          grown = omega arith;
        })

  -- With a `malloc` that returns `NULL` or unused memory, and more rounds than the stack can come
  -- to hold, every sequence of calls of a well-formed list-based stack succeeds, answers as a list
  -- answers, and leaves the stack well-formed and holding that list. A push answers that there is
  -- no memory, and pushes nothing, exactly when `malloc` returns `NULL` on the store it meets.
  pub run-ListRun :
      (ops : List Op) (xs nodes : List Ptr) (w : World)
      → Holds xs nodes w
      → length xs + length ops < fuel
      → length xs + length ops < size_mod
      → Returns
          (λ rs w'.
            (ys : List Ptr) × (nodes' : List Ptr) × ListRun malloc fuel ops w xs rs ys w'
            × Holds ys nodes' w')
          (run malloc fuel ops w)
  unfolding run
  run-ListRun [] xs nodes w is h b = returns (xs, nodes, done w xs, is)
  run-ListRun (op ∷ ops) xs nodes w is h b =
      let (r, w', e, a) =
        result (call malloc fuel op w)
          (call-Answers op xs nodes w is (omega arith) (omega arith)) in
      rw e (
        chain
          (run-ListRun ops a.after a.nodes w' a.holds (omega (arith, a.grown))
            (omega (arith, a.grown)))
          λ rs w'' (ys, nodes', l, is'). returns (ys, nodes', step e a.as_list l, is'))
