-- ===== src/Stack/Free/Inv.antt =====
-- The well-formed list-based stack and what it holds.
use common_utils_lib.Base.{
  ℕ, ◌≡◌, refl, ap, ◌≢◌, true, false, none, some, List, [], ◌∷◌, map, arith, ◌==◌, ==-ne,
}
use common_utils_lib.Machine.{Ptr, null, ok}
use common_utils_lib.Chain.{Field, has, IsDistinct, first, IsLinked, frame, has-ne}
use common_utils_lib.Stack.{Stack, live, type_free, stack_unlimited}
use common_utils_lib.Stack.Free.{World, next_of, free, free_init, give_back, store_payload, found}

abbrev pub free_stack : ℕ → ℕ → List Ptr → Ptr → Stack
free_stack current limit base top = record {
  type = type_free;
  current = current;
  limit = limit;
  free_top = top;
  fixed_base = base;
}

-- The handle designates a list-based stack whose nodes are `nodes` and whose data are `xs`, top
-- first.
pub record Holds (xs : List Ptr) (nodes : List Ptr) (w : World) : Type 0 where
  pub current : ℕ
  pub limit : ℕ
  pub base : List Ptr
  pub there : w.handle ≡ live (free_stack current limit base (first nodes null))
  pub linked : IsLinked w.next nodes null
  pub distinct : IsDistinct nodes
  pub holds : map w.payload nodes ≡ xs

pub not_has_of_none :
    (f : Field) (xs : List Ptr) (stop a : Ptr) → IsLinked f xs stop → f a ≡ none → has a xs ≡ false
not_has_of_none f [] stop a l e = refl
not_has_of_none f (x ∷ xs) stop a l e = ground (arith, not_has_of_none f xs stop a l.2 e, l.1)

pub map-store_payload :
    (d : Ptr → Ptr) (a v : Ptr) (xs : List Ptr)
    → has a xs ≡ false
    → map (store_payload d a v) xs ≡ map d xs
map-store_payload d a v [] o = refl
map-store_payload d a v (x ∷ xs) o =
    let e : (x == a) ≡ false = ground arith in rw (e, map-store_payload d a v xs (ground arith))

pub next_of-ok : (w : World) (p q : Ptr) → p ≢ null → w.next p ≡ some q → next_of p w ≡ ok q w
unfolding next_of
next_of-ok w p q ne e = rw (==-ne p null ne) (ap (λ o. found o λ q. ok q w) e)

pub free-ok :
    (w : World) (p q : Ptr)
    → p ≢ null
    → w.next p ≡ some q
    → free p w ≡ ok tt (record w { next = give_back w.next p })
unfolding free
free-ok w p q ne e = rw (next_of-ok w p q ne e)

-- Giving a node back spares the others.
pub frame-give_back :
    (f : Field) (p : Ptr) (xs : List Ptr) (stop : Ptr)
    → IsLinked f xs stop
    → has p xs ≡ false
    → IsLinked (give_back f p) xs stop
frame-give_back f p xs stop l o = frame xs stop l λ a i. ground (arith, has-ne a p xs i o)

-- A new list-based stack is well-formed and empty.
pub free_init-Holds :
    (next : Field) (payload : Ptr → Ptr)
    → Holds [] [] (record { handle = free_init true; next = next; payload = payload })
unfolding free_init
free_init-Holds next payload = record {
  current = stack_unlimited;
  limit = stack_unlimited;
  base = [];
  there = refl;
  linked = tt;
  distinct = tt;
  holds = refl;
}
