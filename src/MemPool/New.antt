-- ===== src/MemPool/New.antt =====
-- mem_pool_new: the blocks of a new pool, their alignment, and a pool of no blocks.
use mathlib.Core.List.{Mem, Perm, append-nil, append_assoc, mem-cons, not-mem-nil}
use mathlib.Core.Logic.Or
use mathlib.Core.HLevel.{×_prop}
use native.Mathlib.Bridge.{le_prop}
use common_utils_lib.Machine.Returns.{Returns, returns}
use common_utils_lib.MemPool.{is_some}
use common_utils_lib.MemPool.Inv.{Holds}
use mathlib.Core.List.Perm
use mathlib.Core.Path.{subst}
use common_utils_lib.Base.{
  ℕ, zero, suc, ◌+◌, ◌-◌, ◌*◌, ◌/◌, ◌%◌, ◌<◌, ◌≤◌, ◌≡◌, refl, ap, sym, ◌∙◌, ◌≢◌, true, some, List,
  [], ◌∷◌, ◌++◌, arith, ltb, ◌==◌, ==-ne, length, set, take, length-set, replicate,
  length-replicate, Bool-cases, inl, inr,
}
use common_utils_lib.Machine.{Ptr, null, fault}
use common_utils_lib.MemPool.{Bytes, World, covers, size_mod, ptr_size, padded, fill, new}

-- The addresses of `n` blocks of `unit` bytes from `a` on.
unfoldable pub block_list : Ptr → ℕ → ℕ → List Ptr
block_list a unit zero = []
block_list a unit (suc n) = a ∷ block_list (a + unit) unit n

-- The unit size is rounded up to a multiple of 4.
pub padded_bounds :
    (unit : ℕ)
    → unit + 3 < size_mod
    → (padded unit % 4 ≡ 0) × (unit ≤ padded unit) × (padded unit < unit + 4)
unfolding padded
padded_bounds unit h = ground arith

-- Writing the entry behind the first `i` ones extends them.
take-set :
    (xs : List Ptr) (i : ℕ) (v : Ptr)
    → i < length xs
    → take (suc i) (set xs i v) ≡ take i xs ++ v ∷ []
take-set [] i v h = elim h [ ]
take-set (x ∷ xs) zero v h = refl
take-set (x ∷ xs) (suc i) v h = ap (λ t. x ∷ t) (take-set xs i v (omega arith))

take_all : (xs : List Ptr) (n : ℕ) → length xs ≡ n → take n xs ≡ xs
take_all [] zero e = refl
take_all [] (suc n) e = refl
take_all (x ∷ xs) zero e = absurd (omega arith)
take_all (x ∷ xs) (suc n) e = ap (λ t. x ∷ t) (take_all xs n (omega arith))

-- The loop writes the addresses of the blocks that are left behind those that are there.
fill-block_list :
    (rounds idx : ℕ) (prev unit : ℕ) (blocks : List Ptr)
    → length blocks ≡ idx + rounds
    → (full : List Ptr) × (fill rounds idx prev unit blocks ≡ some full)
      × (full ≡ take idx blocks ++ block_list (prev + unit) unit rounds)
unfolding fill block_list
fill-block_list zero idx prev unit blocks e =
    (blocks, refl, sym (append-nil (take idx blocks) ∙ take_all blocks idx (omega arith)))
fill-block_list (suc rounds) idx prev unit blocks e =
    let i : ltb idx (length blocks) ≡ true = ground arith in
    let (full, r, f) =
      fill-block_list rounds (suc idx) (prev + unit) unit (set blocks idx (prev + unit))
        (omega (arith, length-set blocks idx (prev + unit))) in
    (
      full,
      rw i (
          ap (λ k. fill rounds k (prev + unit) unit (set blocks idx (prev + unit))) {y = suc idx}
            (omega arith)
          ∙ r),
      f
          ∙ ap (λ t. t ++ block_list (prev + unit + unit) unit rounds)
              (take-set blocks idx (prev + unit) (omega arith))
          ∙ append_assoc (take idx blocks) ((prev + unit) ∷ [])
              (block_list (prev + unit + unit) unit rounds),
    )

-- A block lies within the memory of all blocks.
block_list_bounds :
    (a b unit n : ℕ) → Mem a (block_list b unit n) → (b ≤ a) × (a + unit ≤ b + unit * n)
unfolding block_list
block_list_bounds a b unit zero m = absurd (not-mem-nil m)
block_list_bounds a b unit (suc n) m =
    Or.elim (×_prop le_prop le_prop) (mem-cons.0 m) (λ e. rw e (omega arith, grind arith))
      λ m'. let (lo, hi) = block_list_bounds a (b + unit) unit n m' in (omega arith, omega arith)

length-block_list : (b unit n : ℕ) → length (block_list b unit n) ≡ n
unfolding block_list
length-block_list b unit zero = refl
length-block_list b unit (suc n) = ap suc (length-block_list (b + unit) unit n)

covers-at : (b : Bytes) (p n i : ℕ) → covers b p n ≡ true → i < n → is_some (b (p + i)) ≡ true
covers-at b p zero i h lt = absurd (omega arith)
covers-at b p (suc n) i h lt = elim (Bool-cases (i == n)) [
  | inl e ↦
      let same : i ≡ n = ground arith in
      subst (λ k. is_some (b (p + k)) ≡ true) (sym same) (ground arith)
  | inr e ↦ covers-at b p n i (ground arith) (ground arith)
]

covers-within :
    (b : Bytes) (p n q m : ℕ) → covers b p n ≡ true → p ≤ q → q + m ≤ p + n → covers b q m ≡ true
covers-within b p n q zero h lo hi = refl
covers-within b p n q (suc m) h lo hi =
    let there : is_some (b (p + (q + m - p))) ≡ true =
      covers-at b p n (q + m - p) h (omega arith) in
    let same : p + (q + m - p) ≡ q + m = omega arith in
    let there' : is_some (b (q + m)) ≡ true = subst (λ k. is_some (b k) ≡ true) same there in
    rw there' (covers-within b p n q m h lo (omega arith))

-- Where memory is there and no size overflows a `size_t`, `mem_pool_new` of at least one block
-- makes a well-formed pool with every block free, each of the size asked for rounded up to a
-- multiple of 4, one behind the other from the buffer on.
pub new-Holds :
    (w : World) (buffer garbage unit_size max_units : ℕ)
    → max_units ≢ 0
    → buffer ≢ null
    → max_units * ptr_size < size_mod
    → padded unit_size * max_units < size_mod
    → covers w.bytes buffer (padded unit_size * max_units % size_mod) ≡ true
    → Returns
        (λ h w'.
          (w' ≡ w)
          × Holds
              (block_list buffer (padded unit_size) max_units)
              (block_list buffer (padded unit_size) max_units)
              []
              (padded unit_size)
              (record w' { pool = h }))
        (new true buffer true garbage unit_size max_units w)
unfolding new block_list
new-Holds w buffer garbage unit_size zero ne nb fits size c = absurd (ne refl)
new-Holds w buffer garbage unit_size (suc m) ne nb fits size c =
    let unit = padded unit_size in
    let entries = replicate (suc m * ptr_size % size_mod / ptr_size) garbage in
    let room : length entries ≡ suc m = length-replicate _ garbage ∙ omega arith in
    let (full, r, f) =
      fill-block_list (suc m - 1) 1 buffer unit (set entries 0 buffer)
        (omega (arith, room, length-set entries 0 buffer)) in
    let shape : full ≡ block_list buffer unit (suc m) =
      f
      ∙ ap (λ t. t ++ block_list (buffer + unit) unit (suc m - 1))
          (take-set entries 0 buffer (omega (arith, room)))
      ∙ ap (λ k. buffer ∷ block_list (buffer + unit) unit k) {y = m} (omega arith) in
    let some_room : ltb 0 (length entries) ≡ true = ground (arith, room) in
    rw (==-ne buffer null nb, some_room, r)
      (returns (
        refl,
        record {
          pool = _;
          there = refl;
          sized = refl;
          valid = record {
            room = ap length shape ∙ length-block_list buffer unit (suc m);
            within = omega arith;
            next = shape;
            lent = refl;
            all =
                subst (λ t. Perm t (block_list buffer unit (suc m)))
                  (sym (append-nil (block_list buffer unit (suc m)))) (Perm.refl _);
            mapped = λ a i.
                let (lo, hi) = block_list_bounds a buffer unit (suc m) i in
                covers-within w.bytes buffer (unit * suc m % size_mod) a unit c lo
                  (omega (arith, hi, size));
            not_null = λ a i e. nb (omega (arith, (block_list_bounds a buffer unit (suc m) i).0));
          };
        },
      ))

-- A pool of no blocks: where `malloc ( 0 )` does not return `NULL`, `mem_pool_new` writes outside
-- its array.
pub new_no_blocks :
    (w : World) (buffer garbage unit_size : ℕ)
    → buffer ≢ null
    → new true buffer true garbage unit_size 0 w ≡ fault
unfolding new
new_no_blocks w buffer garbage unit_size nb = rw (==-ne buffer null nb)
