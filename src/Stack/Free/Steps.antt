-- ===== src/Stack/Free/Steps.antt =====
-- Each operation of the list-based stack against the list that the stack holds.
use mathlib.Core.Path.{ap₂}
use common_utils_lib.Base.{
  ℕ, zero, suc, ◌+◌, ◌<◌, ◌≡◌, refl, ap, sym, ◌∙◌, ◌≢◌, inl, inr, false, none, List, [], ◌∷◌, arith,
  ◌==◌, ==-ne, if◌then◌else◌, length, length-map, Bool-cases,
}
use common_utils_lib.Machine.{Ptr, null, Run, ok}
use common_utils_lib.Machine.Returns.{Returns, returns}
use common_utils_lib.Chain.{Field, first, IsLinked, frame, has-ne}
use common_utils_lib.Stack.{Stack, live, add_size, size_mod, stack_error_memory}
use common_utils_lib.Stack.Free.{
  World, give_back, on_handle, if_free, free_pop, free_pop_and_return, free_push, free_size,
  size_loop, free_top, free_is_empty,
}
use common_utils_lib.Stack.Free.Inv.{
  Holds, not_has_of_none, map-store_payload, next_of-ok, free-ok, frame-give_back, free_stack,
}

abbrev pub top_of : List Ptr → Ptr
top_of [] = null
top_of (x ∷ xs) = x

abbrev pub rest_of : List Ptr → List Ptr
rest_of [] = []
rest_of (x ∷ xs) = xs

-- A run that returns `r` and leaves the stack `xs` on `nodes`.
abbrev pub Gives : {A : Type 0} → A → List Ptr → List Ptr → A → World → Type 0
Gives r xs nodes r' w = (r' ≡ r) × Holds xs nodes w

-- The stack that the handle designates.
abbrev pub stack_of : {xs nodes : List Ptr} {w : World} → Holds xs nodes w → Stack
stack_of {nodes} is = free_stack is.current is.limit is.base (first nodes null)

-- The body of a call runs on a well-formed stack.
pub if_free-live :
    {A : Type 0} (d : A) (body : Stack → World → Run World A) {xs nodes : List Ptr} (w : World)
    (is : Holds xs nodes w)
    → if_free d body w ≡ body (stack_of is) w
if_free-live d body w is = ap (λ h. on_handle d body h w) is.there

module _ (w : World) where
  -- The node on top taken off and given back.
  pub unlinked-Holds :
      (x v : Ptr) (xs nodes : List Ptr) (is : Holds (v ∷ xs) (x ∷ nodes) w)
      → Holds xs nodes (record w {
        handle = live (free_stack is.current is.limit is.base (first nodes null));
        next = give_back w.next x;
      })
  unlinked-Holds x v xs nodes is = record {
    current = is.current;
    limit = is.limit;
    base = is.base;
    there = refl;
    linked = frame-give_back w.next x nodes null is.linked.2 is.distinct.0;
    distinct = is.distinct.1;
    holds = ap rest_of is.holds;
  }

  pub free_pop_and_return-Gives :
      (xs nodes : List Ptr)
      → Holds xs nodes w
      → Returns (Gives (top_of xs) (rest_of xs) (rest_of nodes)) (free_pop_and_return w)
  unfolding free_pop_and_return
  free_pop_and_return-Gives [] [] is = rw (if_free-live null _ w is) (returns (refl, is))
  free_pop_and_return-Gives (v ∷ xs) [] is = cc (is.holds)
  free_pop_and_return-Gives [] (x ∷ nodes) is = cc (is.holds)
  free_pop_and_return-Gives (v ∷ xs) (x ∷ nodes) is =
      rw
        (
          if_free-live null _ w is,
          ==-ne x null is.linked.0,
          next_of-ok w x (first nodes null) is.linked.0 is.linked.1,
          free-ok
              (record w {
                handle = live (free_stack is.current is.limit is.base (first nodes null));
              })
              x (first nodes null) is.linked.0 is.linked.1,
        )
        (returns (ap top_of is.holds, unlinked-Holds x v xs nodes is))

  pub free_pop-Gives :
      (xs nodes : List Ptr)
      → Holds xs nodes w
      → Returns (Gives tt (rest_of xs) (rest_of nodes)) (free_pop w)
  unfolding free_pop
  free_pop-Gives [] [] is = rw (if_free-live tt _ w is) (returns (refl, is))
  free_pop-Gives (v ∷ xs) [] is = cc (is.holds)
  free_pop-Gives [] (x ∷ nodes) is = cc (is.holds)
  free_pop-Gives (v ∷ xs) (x ∷ nodes) is =
      rw
        (
          if_free-live tt _ w is,
          ==-ne x null is.linked.0,
          next_of-ok w x (first nodes null) is.linked.0 is.linked.1,
          free-ok
              (record w {
                handle = live (free_stack is.current is.limit is.base (first nodes null));
              })
              x (first nodes null) is.linked.0 is.linked.1,
        )
        (returns (refl, unlinked-Holds x v xs nodes is))

  pub free_top-Gives :
      (xs nodes : List Ptr) → Holds xs nodes w → Returns (Gives (top_of xs) xs nodes) (free_top w)
  unfolding free_top
  free_top-Gives [] [] is = rw (if_free-live null _ w is) (returns (refl, is))
  free_top-Gives (v ∷ xs) [] is = cc (is.holds)
  free_top-Gives [] (x ∷ nodes) is = cc (is.holds)
  free_top-Gives (v ∷ xs) (x ∷ nodes) is =
      rw
        (
          if_free-live null _ w is,
          ==-ne x null is.linked.0,
          next_of-ok w x (first nodes null) is.linked.0 is.linked.1,
        )
        (returns (ap top_of is.holds, is))

  pub free_is_empty-Gives :
      (xs nodes : List Ptr)
      → Holds xs nodes w
      → Returns (Gives (length xs == 0) xs nodes) (free_is_empty w)
  unfolding free_is_empty
  free_is_empty-Gives [] [] is = rw (if_free-live false _ w is) (returns (refl, is))
  free_is_empty-Gives (v ∷ xs) [] is = cc (is.holds)
  free_is_empty-Gives [] (x ∷ nodes) is = cc (is.holds)
  free_is_empty-Gives (v ∷ xs) (x ∷ nodes) is =
      rw (if_free-live false _ w is) (returns (ground (arith, is.linked.0), is))

  size_loop-ok :
      (fuel : ℕ) (nodes : List Ptr) (rv : ℕ)
      → IsLinked w.next nodes null
      → length nodes < fuel
      → rv + length nodes < size_mod
      → size_loop fuel (first nodes null) rv w ≡ ok (rv + length nodes) w
  unfolding size_loop
  size_loop-ok zero nodes rv l h b = absurd (omega arith)
  size_loop-ok (suc fuel) [] rv l h b = ap (λ n. ok n w) (omega arith)
  size_loop-ok (suc fuel) (x ∷ nodes) rv l h b =
      let e : add_size rv 1 ≡ rv + 1 = omega arith in
      rw (==-ne x null l.0, next_of-ok w x (first nodes null) l.0 l.1, e)
        (size_loop-ok fuel nodes (rv + 1) l.2 (omega arith) (omega arith)
          ∙ ap (λ n. ok n w) (omega arith))

  pub free_size-Gives :
      (fuel : ℕ) (xs nodes : List Ptr)
      → Holds xs nodes w
      → length xs < fuel
      → length xs < size_mod
      → Returns (Gives (length xs) xs nodes) (free_size fuel w)
  unfolding free_size
  free_size-Gives fuel xs nodes is h b =
      let e : length nodes ≡ length xs = sym (length-map nodes w.payload) ∙ ap length is.holds in
      rw
        (
          if_free-live {A = ℕ} 0 _ w is,
          size_loop-ok fuel nodes 0 is.linked (omega arith) (omega arith),
        )
        (returns (omega arith, is))

  pub free_push-Gives :
      (malloc : Field → Ptr) (value : Ptr) (xs nodes : List Ptr)
      → Holds xs nodes w
      → (malloc w.next ≢ null → w.next (malloc w.next) ≡ none)
      → Returns
          (Gives
            (if malloc w.next == null then stack_error_memory else 1)
            (if malloc w.next == null then xs else value ∷ xs)
            (if malloc w.next == null then nodes else malloc w.next ∷ nodes))
          (free_push malloc value w)
  unfolding free_push
  free_push-Gives malloc value xs nodes is fresh =
      rw (if_free-live _ _ w is) (elim (Bool-cases (malloc w.next == null)) [
        | inl e ↦ rw e (returns (refl, is))
        | inr e ↦
            let ne : malloc w.next ≢ null = ground arith in
            let out = not_has_of_none w.next nodes null (malloc w.next) is.linked (fresh ne) in
            rw e (
              returns (
                refl,
                record {
                  current = is.current;
                  limit = is.limit;
                  base = is.base;
                  there = refl;
                  linked = (
                    ne,
                    ground arith,
                    frame nodes null is.linked
                        λ a i. ground (arith, has-ne a (malloc w.next) nodes i out),
                  );
                  distinct = (out, is.distinct);
                  holds =
                      ap₂ ◌∷◌ (ground arith)
                        (map-store_payload w.payload (malloc w.next) value nodes out ∙ is.holds);
                },
              ))
      ])
