-- ===== src/ChildProcessMgr/Without.antt =====
-- Taking a process out of the list of those that are watched.
use mathlib.Core.Path.{subst}
use mathlib.Core.Option.{some-injective}
use common_utils_lib.Base.{
  ◌≡◌, refl, ap, sym, ◌∙◌, true, false, none, some, List, [], ◌∷◌, arith, ==-eq, if◌then◌else◌,
  Bool-cases, inl, inr, ◌==◌,
}
use common_utils_lib.Base.Int.{ℤ}
use common_utils_lib.Machine.{Ptr}
use common_utils_lib.Chain.{has}
use common_utils_lib.IoScheduler.{same}
use common_utils_lib.IoScheduler.Same.{same_eq, same_refl}
use common_utils_lib.ChildProcessMgr.{World, Child}
use common_utils_lib.ChildProcessMgr.Loops.{
  Watched, processes, has_pid, IsUnique, WatchesAll, lookup, without,
}

pub lookup-pid :
    (pid : ℤ) (vs : List Watched) (v : Watched) → lookup pid vs ≡ some v → v.info.pid ≡ pid
lookup-pid pid [] v e = cc
lookup-pid pid (x ∷ vs) v e = elim (Bool-cases (same x.info.pid pid)) [
  | inl s ↦
      let here : some x ≡ some v =
        subst (λ b. (if b then some x else lookup pid vs) ≡ some v) s e in
      ap (λ t. t.info.pid) (sym (some-injective x v here)) ∙ same_eq x.info.pid pid s
  | inr s ↦ lookup-pid pid vs v (subst (λ b. (if b then some x else lookup pid vs) ≡ some v) s e)
]

pub without-absent : (pid : ℤ) (vs : List Watched) → lookup pid vs ≡ none → without pid vs ≡ vs
without-absent pid [] e = refl
without-absent pid (v ∷ vs) e = elim (Bool-cases (same v.info.pid pid)) [
  | inl s ↦
      let found : some v ≡ none = subst (λ b. (if b then some v else lookup pid vs) ≡ none) s e in
      cc
  | inr s ↦
      let later : lookup pid vs ≡ none =
        subst (λ b. (if b then some v else lookup pid vs) ≡ none) s e in
      rw s (ap (λ t. v ∷ t) (without-absent pid vs later))
]

pub WatchesAll-without :
    (w : World) (pid : ℤ) (vs : List Watched) → WatchesAll w vs → WatchesAll w (without pid vs)
WatchesAll-without w pid [] a = tt
WatchesAll-without w pid (v ∷ vs) a = elim (Bool-cases (same v.info.pid pid)) [
  | inl s ↦ rw s a.1
  | inr s ↦ rw s (a.0, WatchesAll-without w pid vs a.1)
]

pub has_pid-without :
    (a pid : ℤ) (vs : List Watched) → has_pid a vs ≡ false → has_pid a (without pid vs) ≡ false
has_pid-without a pid [] o = refl
has_pid-without a pid (v ∷ vs) o = elim (Bool-cases (same v.info.pid pid)) [
  | inl s ↦ rw s (ground (arith, o))
  | inr s ↦ rw s (ground (arith, o, has_pid-without a pid vs))
]

-- The ids stay distinct, and the one taken out is gone.
pub IsUnique-without :
    (pid : ℤ) (vs : List Watched)
    → IsUnique vs
    → IsUnique (without pid vs) × (has_pid pid (without pid vs) ≡ false)
IsUnique-without pid [] u = (tt, refl)
IsUnique-without pid (v ∷ vs) u = elim (Bool-cases (same v.info.pid pid)) [
  | inl s ↦ rw s (u.1, subst (λ t. has_pid t vs ≡ false) (same_eq v.info.pid pid s) u.0)
  | inr s ↦
      let ih = IsUnique-without pid vs u.1 in
      rw s ((has_pid-without v.info.pid pid vs u.0, ih.0), ground (arith, s, ih.1))
]

-- A process whose id is not in the list is none of the list.
pub process-absent :
    (w : World) (p : Ptr) (c : Child) (vs : List Watched)
    → WatchesAll w vs
    → w.procs p ≡ some c
    → has_pid c.pid vs ≡ false
    → has p (processes vs) ≡ false
process-absent w p c [] a e o = refl
process-absent w p c (v ∷ vs) a e o = elim (Bool-cases (p == v.process)) [
  | inl s ↦
      let info : v.info ≡ c =
        some-injective v.info c (sym a.0.proc ∙ ap w.procs (sym (==-eq p v.process s)) ∙ e) in
      let here : same v.info.pid c.pid ≡ true =
        subst (λ t. same v.info.pid t.pid ≡ true) info (same_refl v.info.pid) in
      absurd (ground (arith, here, o))
  | inr s ↦ rw s (process-absent w p c vs a.1 e (ground (arith, o)))
]
