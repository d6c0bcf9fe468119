-- ===== src/Chain/Walk.antt =====
-- Where a loop stops that walks along a chain as long as a test holds.
use mathlib.Core.List.{append_assoc}
use common_utils_lib.Base.{
  ◌≡◌, refl, ap, sym, ◌∙◌, Bool, true, List, [], ◌∷◌, ◌++◌, if◌then◌else◌, Bool-cases, inl, inr,
}
use common_utils_lib.Machine.{Ptr}

abbrev pub take_while : (Ptr → Bool) → List Ptr → List Ptr
take_while keep [] = []
take_while keep (x ∷ xs) = if keep x then x ∷ take_while keep xs else []

abbrev pub drop_while : (Ptr → Bool) → List Ptr → List Ptr
drop_while keep [] = []
drop_while keep (x ∷ xs) = if keep x then drop_while keep xs else x ∷ xs

-- Started at `x`, in front of `xs`, the loop stops at the last node that it keeps.
pub record Stopped (keep : Ptr → Bool) (x : Ptr) (xs : List Ptr) (p : Ptr) : Type 0 where
  pub front : List Ptr
  pub kept : front ++ p ∷ [] ≡ x ∷ take_while keep xs
  pub split : x ∷ xs ≡ front ++ p ∷ drop_while keep xs

pub last_kept : (keep : Ptr → Bool) (x : Ptr) (xs : List Ptr) → (p : Ptr) × Stopped keep x xs p
last_kept keep x [] = (x, record { front = []; kept = refl; split = refl })
last_kept keep x (y ∷ ys) = elim (Bool-cases (keep y)) [
  | inl k ↦
      let (p, s) = last_kept keep y ys in
      (
        p,
        record {
          front = x ∷ s.front;
          kept = rw k (ap (λ t. x ∷ t) s.kept);
          split = rw k (ap (λ t. x ∷ t) s.split);
        },
      )
  | inr k ↦ (x, record { front = []; kept = rw k; split = rw k })
]

pub take_while_all :
    (xs : List Ptr) → (take_while (λ _. true) xs ≡ xs) × (drop_while (λ _. true) xs ≡ [])
take_while_all [] = (refl, refl)
take_while_all (x ∷ xs) = (ap (λ t. x ∷ t) (take_while_all xs).0, (take_while_all xs).1)

pub append_after :
    (front : List Ptr) (p : Ptr) (zs ws : List Ptr)
    → front ++ p ∷ [] ≡ zs
    → front ++ p ∷ ws ≡ zs ++ ws
append_after front p zs ws e = sym (append_assoc front (p ∷ []) ws) ∙ ap (λ t. t ++ ws) e

-- The last node of a chain.
pub split_last :
    (x : Ptr) (xs : List Ptr) → (front : List Ptr) × (p : Ptr) × (x ∷ xs ≡ front ++ p ∷ [])
split_last x [] = ([], x, refl)
split_last x (y ∷ ys) = let (front, p, e) = split_last y ys in (x ∷ front, p, ap (λ t. x ∷ t) e)
