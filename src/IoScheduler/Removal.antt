-- ===== src/IoScheduler/Removal.antt =====
-- Which tasks of a list the pump removes, and lemmas on the lists of those that go and stay.
use common_utils_lib.Base.{
  ◌+◌, ◌≡◌, refl, ap, Bool, true, false, not, ◌&&◌, List, [], ◌∷◌, ◌++◌, arith, if◌then◌else◌,
  length, Bool-cases, inl, inr,
}
use common_utils_lib.Machine.{Ptr}
use common_utils_lib.Chain.{has, IsDistinct}
use common_utils_lib.Chain.Walk.{take_while, drop_while}
use common_utils_lib.IoScheduler.{Task, same, minus_one}

-- Asked to be removed, and not one of the tasks that stay for good.
abbrev pub is_removable : Task → Bool
is_removable k = k.opts.remove && not (same k.fd minus_one)

abbrev pub kept : (Ptr → Task) → List Ptr → List Ptr
kept task [] = []
kept task (t ∷ ts) = if is_removable (task t) then kept task ts else t ∷ kept task ts

abbrev pub removed : (Ptr → Task) → List Ptr → List Ptr
removed task [] = []
removed task (t ∷ ts) = if is_removable (task t) then t ∷ removed task ts else removed task ts

-- Only the tasks of the list matter.
pub while_same :
    (keep keep' : Ptr → Bool) (xs : List Ptr)
    → ((a : Ptr) → has a xs ≡ true → keep a ≡ keep' a)
    → (take_while keep xs ≡ take_while keep' xs) × (drop_while keep xs ≡ drop_while keep' xs)
while_same keep keep' [] same_keep = (refl, refl)
while_same keep keep' (x ∷ xs) same_keep =
    let (ts, ds) = while_same keep keep' xs λ a i. same_keep a (ground (arith, i)) in
    rw (same_keep x (ground arith), ts, ds) (refl, refl)

pub kept_same :
    (task task' : Ptr → Task) (xs : List Ptr)
    → ((a : Ptr) → has a xs ≡ true → task a ≡ task' a)
    → (kept task xs ≡ kept task' xs) × (removed task xs ≡ removed task' xs)
kept_same task task' [] same_task = (refl, refl)
kept_same task task' (x ∷ xs) same_task =
    let (ks, rs) = kept_same task task' xs λ a i. same_task a (ground (arith, i)) in
    rw (same_task x (ground arith), ks, rs) (refl, refl)

-- The first run of removable tasks, and what is behind it.
pub kept-drop_while :
    (task : Ptr → Task) (xs : List Ptr)
    → let goes = λ (a : Ptr). is_removable (task a) in
      (kept task xs ≡ kept task (drop_while goes xs))
      × (removed task xs ≡ take_while goes xs ++ removed task (drop_while goes xs))
kept-drop_while task [] = (refl, refl)
kept-drop_while task (x ∷ xs) = elim (Bool-cases (is_removable (task x))) [
  | inl e ↦ let (ks, rs) = kept-drop_while task xs in rw e (ks, ap (λ t. x ∷ t) rs)
  | inr e ↦ rw (e, e) (refl, refl)
]

-- Pushed one after the other.
abbrev pub push_all : List Ptr → List Ptr → List Ptr
push_all [] pool = pool
push_all (t ∷ ts) pool = push_all ts (t ∷ pool)

pub push_all-append :
    (ts us pool : List Ptr) → push_all (ts ++ us) pool ≡ push_all us (push_all ts pool)
push_all-append [] us pool = refl
push_all-append (t ∷ ts) us pool = push_all-append ts us (t ∷ pool)

pub length-push_all : (ts pool : List Ptr) → length (push_all ts pool) ≡ length ts + length pool
length-push_all [] pool = omega arith
length-push_all (t ∷ ts) pool = omega (arith, length-push_all ts (t ∷ pool))

pub has-kept :
    (task : Ptr → Task) (a : Ptr) (xs : List Ptr) → has a (kept task xs) ≡ true → has a xs ≡ true
has-kept task a [] i = i
has-kept task a (x ∷ xs) i = elim (Bool-cases (is_removable (task x))) [
  | inl e ↦ ground (arith, has-kept task a xs (rw e at i))
  | inr e ↦ ground (arith, rw e at i, has-kept task a xs)
]

pub has-drop_while :
    (keep : Ptr → Bool) (a : Ptr) (xs : List Ptr)
    → has a (drop_while keep xs) ≡ true
    → has a xs ≡ true
has-drop_while keep a [] i = i
has-drop_while keep a (x ∷ xs) i = elim (Bool-cases (keep x)) [
  | inl e ↦ ground (arith, has-drop_while keep a xs (rw e at i))
  | inr e ↦ rw e at i
]

pub IsDistinct-drop_while :
    (keep : Ptr → Bool) (xs : List Ptr) → IsDistinct xs → IsDistinct (drop_while keep xs)
IsDistinct-drop_while keep [] d = tt
IsDistinct-drop_while keep (x ∷ xs) d = elim (Bool-cases (keep x)) [
  | inl e ↦ rw e (IsDistinct-drop_while keep xs d.1)
  | inr e ↦ rw e d
]

pub not_has_sub :
    (a : Ptr) (left xs : List Ptr)
    → ((b : Ptr) → has b left ≡ true → has b xs ≡ true)
    → has a xs ≡ false
    → has a left ≡ false
not_has_sub a left xs sub o = elim (Bool-cases (has a left)) [
  | inl e ↦ absurd (ground (arith, sub a e, o))
  | inr e ↦ e
]

-- What goes does not stay.
pub not_has-take_while :
    (keep : Ptr → Bool) (a : Ptr) (xs : List Ptr)
    → IsDistinct xs
    → has a (drop_while keep xs) ≡ true
    → has a (take_while keep xs) ≡ false
not_has-take_while keep a [] d i = refl
not_has-take_while keep a (x ∷ xs) d i = elim (Bool-cases (keep x)) [
  | inl e ↦
      let j = rw e at i in
      rw e (ground (arith, d, not_has-take_while keep a xs d.1 j, has-drop_while keep a xs j))
  | inr e ↦ rw e refl
]

pub length-while :
    (keep : Ptr → Bool) (xs : List Ptr)
    → length (take_while keep xs) + length (drop_while keep xs) ≡ length xs
length-while keep [] = refl
length-while keep (x ∷ xs) = elim (Bool-cases (keep x)) [
  | inl e ↦ rw e (omega (arith, length-while keep xs))
  | inr e ↦ rw e (omega arith)
]

pub IsDistinct-kept :
    (task : Ptr → Task) (xs : List Ptr) → IsDistinct xs → IsDistinct (kept task xs)
IsDistinct-kept task [] d = tt
IsDistinct-kept task (x ∷ xs) d = elim (Bool-cases (is_removable (task x))) [
  | inl e ↦ rw e (IsDistinct-kept task xs d.1)
  | inr e ↦ rw e (
    not_has_sub x (kept task xs) xs (λ a i. has-kept task a xs i) d.0,
    IsDistinct-kept task xs d.1,
  )
]
