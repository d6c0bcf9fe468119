-- ===== src/Stack/Free/Clear.antt =====
-- stack_free_clear and stack_free_destroy: every node is given back, and no other.
use common_utils_lib.Base.{
  ℕ, zero, suc, ◌<◌, ◌≡◌, refl, ap, sym, ◌∙◌, none, List, [], ◌∷◌, arith, ==-ne, if◌then◌else◌,
  length, length-map,
}
use common_utils_lib.Machine.{Ptr, null}
use common_utils_lib.Machine.Returns.{Returns, returns, weaken, chain}
use common_utils_lib.Chain.{Field, has, IsDistinct, first, IsLinked}
use common_utils_lib.Stack.{Stack, live, freed}
use common_utils_lib.Stack.Free.{World, give_back, clear_loop, free_clear, free_destroy}
use common_utils_lib.Stack.Free.Inv.{Holds, next_of-ok, free-ok, frame-give_back}
use common_utils_lib.Stack.Free.Steps.{if_free-live, stack_of}

-- `g` is `f` less the nodes.
abbrev pub Without : List Ptr → Field → Field → Type 0
Without nodes f g = (a : Ptr) → g a ≡ (if has a nodes then none else f a)

-- What the loop leaves.
pub record Cleared (s : Stack) (nodes : List Ptr) (w w' : World) : Type 0 where
  pub emptied : w'.handle ≡ live (record s { free_top = null })
  pub given_back : Without nodes w.next w'.next

clear_loop-Cleared :
    (fuel : ℕ) (s : Stack) (nodes : List Ptr) (w : World)
    → w.handle ≡ live (record s { free_top = first nodes null })
    → IsLinked w.next nodes null
    → IsDistinct nodes
    → length nodes < fuel
    → Returns (λ _ w'. Cleared s nodes w w') (clear_loop fuel s (first nodes null) w)
unfolding clear_loop
clear_loop-Cleared zero s nodes w e l d h = absurd (omega arith)
clear_loop-Cleared (suc fuel) s [] w e l d h =
    returns (record { emptied = e; given_back = λ a. refl })
clear_loop-Cleared (suc fuel) s (x ∷ nodes) w e l d h =
    rw
      (
        ==-ne x null l.0,
        next_of-ok w x (first nodes null) l.0 l.1,
        free-ok w x (first nodes null) l.0 l.1,
      )
      (weaken
        (clear_loop-Cleared fuel s nodes
          (record w {
            handle = live (record s { free_top = first nodes null });
            next = give_back w.next x;
          })
          refl (frame-give_back w.next x nodes null l.2 d.0) d.1 (omega arith))
        λ _ w' c. record {
          emptied = c.emptied;
          given_back = λ a. ground (arith, c.given_back a, d.0);
        })

module _ (w : World) (fuel : ℕ) (xs nodes : List Ptr) (is : Holds xs nodes w) where
  length-nodes : length nodes ≡ length xs
  length-nodes = sym (length-map nodes w.payload) ∙ ap length is.holds

  -- On a well-formed list-based stack, with more rounds than elements, `stack_free_clear` leaves
  -- a well-formed empty stack and frees each of its nodes and nothing else.
  pub free_clear-Without :
      length xs < fuel
      → Returns (λ _ w'. Holds [] [] w' × Without nodes w.next w'.next) (free_clear fuel w)
  unfolding free_clear
  free_clear-Without h = rw (if_free-live tt _ w is) (
      weaken
        (clear_loop-Cleared fuel (stack_of is) nodes w is.there is.linked is.distinct
          (omega (arith, length-nodes)))
        λ _ w' c. (
          record {
            current = is.current;
            limit = is.limit;
            base = is.base;
            there = c.emptied;
            linked = tt;
            distinct = tt;
            holds = refl;
          },
          c.given_back,
        ))

  -- On a well-formed list-based stack, with more rounds than elements, `stack_free_destroy` frees
  -- the stack and each of its nodes, and nothing else.
  pub free_destroy-Without :
      length xs < fuel
      → Returns (λ _ w'. (w'.handle ≡ freed) × Without nodes w.next w'.next) (free_destroy fuel w)
  unfolding free_destroy
  free_destroy-Without h = rw (if_free-live tt _ w is) (
      chain
        (clear_loop-Cleared fuel (stack_of is) nodes w is.there is.linked is.distinct
          (omega (arith, length-nodes)))
        λ _ w' c. returns (refl, c.given_back))
