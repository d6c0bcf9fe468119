-- ===== src/Stack/Fixed/Steps.antt =====
-- Each operation of the fixed stack against the list that the stack holds.
use mathlib.Core.Path.{subst}
use common_utils_lib.Base.{
  ℕ, suc, ◌-◌, ◌*◌, ◌/◌, ◌%◌, ◌<◌, ◌≡◌, refl, ap, sym, ◌∙◌, true, false, List, [], ◌∷◌, arith, ◌==◌,
  ltb, leb, if◌then◌else◌, length, get_elem?, set, drop, length-set, drop-length, drop-set,
  drop-set_self, drop-get_elem?, some, inl, inr, Bool-cases,
}
use common_utils_lib.Machine.{Ptr, null}
use common_utils_lib.Machine.Returns.{Returns, returns}
use common_utils_lib.Stack.{
  Stack, Handle, live, type_fixed, size_mod, ptr_size, stack_error_full, add_size,
}
use common_utils_lib.Stack.Fixed.{
  zero_fill, drop_top, fixed_clear, fixed_is_empty, fixed_is_full, fixed_pop, fixed_pop_and_return,
  fixed_push, fixed_size, fixed_top,
}
use common_utils_lib.Stack.Fixed.Inv.{IsFixed, Holds, contents, length-contents, zero_fill_all}

-- The stack `cap` as a list, top first.
abbrev pub top_of : List Ptr → Ptr
top_of [] = null
top_of (x ∷ xs) = x

abbrev pub rest_of : List Ptr → List Ptr
rest_of [] = []
rest_of (x ∷ xs) = xs

-- A run that returns `r` and leaves a stack that holds `xs`.
abbrev pub Gives : {A : Type 0} → ℕ → A → List Ptr → A → Handle → Type 0
Gives cap r xs r' h = (r' ≡ r) × Holds cap xs h

module _ {s : Stack} (v : IsFixed s) where
  pub drop_top-IsFixed : s.current < s.limit → IsFixed (drop_top s)
  drop_top-IsFixed h = record {
    kind = v.kind;
    fits = v.fits;
    room = length-set s.fixed_base s.current null ∙ v.room;
    within = omega (arith, v.fits);
  }

  pub contents-drop_top : s.current < s.limit → contents (drop_top s) ≡ rest_of (contents s)
  contents-drop_top h =
      let i : s.current < length s.fixed_base = omega (arith, v.room) in
      let (top, e, d) = drop-get_elem? s.fixed_base s.current i in
      let e' : add_size s.current 1 ≡ suc s.current = omega (arith, v.fits) in
      ap (λ n. drop n (set s.fixed_base s.current null)) e'
      ∙ drop-set s.fixed_base s.current (suc s.current) null (omega arith)
      ∙ sym (ap rest_of d)

  pub contents_empty : s.current ≡ s.limit → contents s ≡ []
  contents_empty e = drop-length s.current s.fixed_base (omega (arith, v.room))

  -- On a stack with something in it, the element on top is read in bounds.
  pub read-top :
      s.current < s.limit
      → (t : Ptr) × (get_elem? s.fixed_base s.current ≡ some t) × (top_of (contents s) ≡ t)
  read-top h =
      let (t, e, d) = drop-get_elem? s.fixed_base s.current (omega (arith, v.room)) in
      (t, e, ap top_of d)

  pub Holds-same : Holds s.limit (contents s) (live s)
  Holds-same = record { stack = s; there = refl; valid = v; capacity = refl; holds = refl }

  pub Holds-rest : s.current < s.limit → Holds s.limit (rest_of (contents s)) (live (drop_top s))
  Holds-rest h = record {
    stack = drop_top s;
    there = refl;
    valid = drop_top-IsFixed h;
    capacity = refl;
    holds = contents-drop_top h;
  }

-- What holds of every well-formed stack and its contents holds of a handle that holds a list.
pub lift-Holds :
    (P : ℕ → List Ptr → Handle → Type 0)
    → ((s : Stack) → IsFixed s → P s.limit (contents s) (live s))
    → (cap : ℕ) (xs : List Ptr) (h : Handle) → Holds cap xs h
    → P cap xs h
lift-Holds P all cap xs h is =
    subst (λ n. P n xs h) is.capacity
      (subst (λ l. P is.stack.limit l h) is.holds
        (subst (λ g. P is.stack.limit (contents is.stack) g) (sym is.there)
          (all is.stack is.valid)))

module _ (s : Stack) (v : IsFixed s) where
  kind_test : (s.type == type_fixed) ≡ true
  kind_test = ground (arith, v.kind)

  pub pop_and_return-Gives :
      Returns
        (Gives s.limit (top_of (contents s)) (rest_of (contents s)))
        (fixed_pop_and_return (live s))
  unfolding fixed_pop_and_return
  pop_and_return-Gives = elim (Bool-cases (ltb s.current s.limit)) [
    | inl some_left ↦
        let (t, e, d) = read-top v (ground arith) in
        rw (kind_test, some_left, e) (returns (sym d, Holds-rest v (ground arith)))
    | inr none_left ↦
        let e = contents_empty v (ground (arith, v.within)) in
        rw (kind_test, none_left, e)
          (returns (refl, subst (λ l. Holds s.limit l (live s)) e (Holds-same v)))
  ]

  pub pop-Gives : Returns (Gives s.limit tt (rest_of (contents s))) (fixed_pop (live s))
  unfolding fixed_pop
  pop-Gives = elim (Bool-cases (ltb s.current s.limit)) [
    | inl some_left ↦
        let i : ltb s.current (length s.fixed_base) ≡ true = ground (arith, v.room) in
        rw (kind_test, some_left, i) (returns (refl, Holds-rest v (ground arith)))
    | inr none_left ↦
        let e = contents_empty v (ground (arith, v.within)) in
        rw (kind_test, none_left, e)
          (returns (refl, subst (λ l. Holds s.limit l (live s)) e (Holds-same v)))
  ]

  pub top-Gives : Returns (Gives s.limit (top_of (contents s)) (contents s)) (fixed_top (live s))
  unfolding fixed_top
  top-Gives = elim (Bool-cases (ltb s.current s.limit)) [
    | inl some_left ↦
        let (t, e, d) = read-top v (ground arith) in
        rw (kind_test, some_left, e) (returns (sym d, Holds-same v))
    | inr none_left ↦
        let e = contents_empty v (ground (arith, v.within)) in
        rw (kind_test, none_left) (returns (sym (ap top_of e), Holds-same v))
  ]

  pub size-Gives : Returns (Gives s.limit (length (contents s)) (contents s)) (fixed_size (live s))
  unfolding fixed_size
  size-Gives =
      rw kind_test (returns (omega (arith, length-contents s v, v.fits, v.within), Holds-same v))

  pub is_empty-Gives :
      Returns (Gives s.limit (length (contents s) == 0) (contents s)) (fixed_is_empty (live s))
  unfolding fixed_is_empty
  is_empty-Gives =
      rw kind_test (returns (ground (arith, length-contents s v, v.within), Holds-same v))

  pub is_full-Gives :
      Returns (Gives s.limit (length (contents s) == s.limit) (contents s)) (fixed_is_full (live s))
  unfolding fixed_is_full
  is_full-Gives =
      rw kind_test (returns (ground (arith, length-contents s v, v.within), Holds-same v))

  pub clear-Gives : Returns (Gives s.limit tt []) (fixed_clear (live s))
  unfolding fixed_clear
  clear-Gives =
      let e : s.limit * ptr_size % size_mod ≡ s.limit * ptr_size = omega (arith, v.fits) in
      let i : leb (s.limit * ptr_size % size_mod) (length s.fixed_base * ptr_size) ≡ true =
        ground (arith, e, v.room) in
      let n : s.limit * ptr_size % size_mod / ptr_size ≡ s.limit = omega (arith, v.fits) in
      let room : length (zero_fill (s.limit * ptr_size % size_mod / ptr_size) s.fixed_base)
          ≡ s.limit =
        ap (λ k. length (zero_fill k s.fixed_base)) n ∙ zero_fill_all s.limit s.fixed_base v.room in
      rw (kind_test, i)
        (returns (
          refl,
          record {
            stack = _;
            there = refl;
            valid = record { kind = v.kind; fits = v.fits; room = room; within = omega arith };
            capacity = refl;
            holds = drop-length s.limit _ (omega (arith, room));
          },
        ))

  pub push-Gives :
      (value : Ptr)
      → Returns
          (Gives s.limit
            (if length (contents s) == s.limit
              then stack_error_full
              else s.limit - length (contents s) - 1)
            (if length (contents s) == s.limit then contents s else value ∷ contents s))
          (fixed_push value (live s))
  unfolding fixed_push
  push-Gives value = elim (Bool-cases (ltb 0 s.current)) [
    | inl space ↦
        let j : s.current - 1 < length s.fixed_base = ground (arith, v.room, v.within) in
        let i : ltb (s.current - 1) (length s.fixed_base) ≡ true = ground arith in
        let nf : (length (contents s) == s.limit) ≡ false =
          ground (arith, length-contents s v, v.within) in
        let d : suc (s.current - 1) ≡ s.current = ground arith in
        rw (kind_test, space, i, nf)
          (returns (
            ground (arith, length-contents s v, v.within),
            record {
              stack = _;
              there = refl;
              valid = record {
                kind = v.kind;
                fits = v.fits;
                room = length-set s.fixed_base (s.current - 1) value ∙ v.room;
                within = omega (arith, v.within);
              };
              capacity = refl;
              holds =
                  drop-set_self s.fixed_base (s.current - 1) value j
                  ∙ ap (λ n. value ∷ drop n s.fixed_base) d;
            },
          ))
    | inr full ↦
        let f : (length (contents s) == s.limit) ≡ true =
          ground (arith, length-contents s v, v.within) in
        rw (kind_test, full, f) (returns (refl, Holds-same v))
  ]
