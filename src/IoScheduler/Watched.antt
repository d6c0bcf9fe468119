-- ===== src/IoScheduler/Watched.antt =====
-- What the first loop of the pump makes of the sets and of `maxfd`.
use mathlib.Core.Path.{subst}
use common_utils_lib.Base.{
  ℕ, ◌≤◌, ◌≡◌, refl, ap, sym, ◌∙◌, ◌⊎◌, inl, inr, Bool, true, false, not, ◌&&◌, ◌||◌, List, [], ◌∷◌,
  arith, Bool-cases, ltb, if◌then◌else◌,
}
use common_utils_lib.Base.Int.{ℤ, pos, negsuc}
use common_utils_lib.Machine.{Ptr, ok, Cmd, ◌>>=◌}
use common_utils_lib.Chain.{has}
use common_utils_lib.IoScheduler.{World, Task, Opts, same}
use common_utils_lib.IoScheduler.Same.{same_eq, same_refl}
use common_utils_lib.IoScheduler.Process.{Sets, FdSet, fd_set, larger}
use common_utils_lib.IoScheduler.Pump.{fits, add, watch}

-- A task that waits on its descriptor at all.
abbrev pub waits : Opts → Bool
waits o = o.read || o.write || o.error

-- The descriptor of the task is one that the sets have room for, if the task waits on it.
abbrev pub IsWatchable : ℕ → Task → Type 0
IsWatchable fd_setsize k = (waits k.opts ≡ false) ⊎ (fits fd_setsize k.fd ≡ true)

-- Some task of the list, whose options `wants` picks, waits on the descriptor.
abbrev pub awaited : (wants : Opts → Bool) → (Ptr → Task) → List Ptr → ℤ → Bool
awaited wants task [] fd = false
awaited wants task (t ∷ ts) fd =
    (wants (task t).opts && same fd (task t).fd) || awaited wants task ts fd

-- The order of `int`s.
abbrev pub IsAtMost : ℤ → ℤ → Type 0
IsAtMost (pos a) (pos b) = a ≤ b
IsAtMost (pos a) (negsuc b) = ⊥
IsAtMost (negsuc a) (pos b) = Unit
IsAtMost (negsuc a) (negsuc b) = b ≤ a

-- The descriptors on which a task of `ts` waits have joined the sets, and no others; and the number
-- is the largest of what it was and of these descriptors.
pub record Watched (task : Ptr → Task) (ts : List Ptr) (seen seen' : ℤ × Sets) : Type 0 where
  pub reads : (fd : ℤ) → seen'.1.rds fd ≡ (seen.1.rds fd || awaited (λ o. o.read) task ts fd)
  pub writes : (fd : ℤ) → seen'.1.wrs fd ≡ (seen.1.wrs fd || awaited (λ o. o.write) task ts fd)
  pub errors : (fd : ℤ) → seen'.1.ers fd ≡ (seen.1.ers fd || awaited (λ o. o.error) task ts fd)
  pub above : IsAtMost seen.0 seen'.0
  pub bound : (fd : ℤ) → awaited waits task ts fd ≡ true → IsAtMost fd seen'.0
  pub attained : (seen'.0 ≡ seen.0) ⊎ (awaited waits task ts seen'.0 ≡ true)

IsAtMost-refl : (a : ℤ) → IsAtMost a a
IsAtMost-refl (pos a) = omega arith
IsAtMost-refl (negsuc a) = omega arith

IsAtMost-trans : (a b c : ℤ) → IsAtMost a b → IsAtMost b c → IsAtMost a c
IsAtMost-trans (pos a) (pos b) (pos c) p q = omega (arith, p, q)
IsAtMost-trans (pos a) (pos b) (negsuc c) p q = q
IsAtMost-trans (pos a) (negsuc b) c p q = absurd p
IsAtMost-trans (negsuc a) b (pos c) p q = tt
IsAtMost-trans (negsuc a) (pos b) (negsuc c) p q = absurd q
IsAtMost-trans (negsuc a) (negsuc b) (negsuc c) p q = omega (arith, p, q)

larger-IsAtMost :
    (a b : ℤ)
    → IsAtMost a (larger a b) × IsAtMost b (larger a b) × ((larger a b ≡ a) ⊎ (larger a b ≡ b))
larger-IsAtMost (pos a) (negsuc b) = (omega arith, tt, inl refl)
larger-IsAtMost (negsuc a) (pos b) = (tt, omega arith, inr refl)
larger-IsAtMost (pos a) (pos b) = elim (Bool-cases (ltb b a)) [
  | inl e ↦ rw e (omega arith, ground (arith, e), inl refl)
  | inr e ↦ rw e (ground (arith, e), omega arith, inr refl)
]
larger-IsAtMost (negsuc a) (negsuc b) = elim (Bool-cases (ltb a b)) [
  | inl e ↦ rw e (omega arith, ground (arith, e), inl refl)
  | inr e ↦ rw e (ground (arith, e), omega arith, inr refl)
]

larger-larger : (a b : ℤ) → larger a (larger a b) ≡ larger a b
larger-larger (pos a) (negsuc b) = ground arith
larger-larger (negsuc a) (pos b) = refl
larger-larger (pos a) (pos b) = elim (Bool-cases (ltb b a)) [
  | inl e ↦ ground (arith, e)
  | inr e ↦ rw (e, e) refl
]
larger-larger (negsuc a) (negsuc b) = elim (Bool-cases (ltb a b)) [
  | inl e ↦ ground (arith, e)
  | inr e ↦ rw (e, e) refl
]

-- What three options make of the sets and of `maxfd`.
abbrev pub joins : (r w e : Bool) → ℤ → ℤ × Sets → ℤ × Sets
joins r w e fd (maxfd, sets) =
    let add : Bool → FdSet → FdSet = λ wants s. if wants then fd_set s fd else s in
    (
      if r || w || e then larger fd maxfd else maxfd,
      record { rds = add r sets.rds; wrs = add w sets.wrs; ers = add e sets.ers },
    )

-- What the loop makes of one task.
abbrev pub joined : Task → ℤ × Sets → ℤ × Sets
joined k seen = joins k.opts.read k.opts.write k.opts.error k.fd seen

abbrev add_all : ℕ → (r w e : Bool) → ℤ → ℤ × Sets → Cmd World (ℤ × Sets)
add_all fd_setsize r w e fd (maxfd, sets) = do
  (maxfd1, rds) ← add fd_setsize r fd (maxfd, sets.rds)
  (maxfd2, wrs) ← add fd_setsize w fd (maxfd1, sets.wrs)
  (maxfd3, ers) ← add fd_setsize e fd (maxfd2, sets.ers)
  ok (maxfd3, record { rds = rds; wrs = wrs; ers = ers })

module _ (fd_setsize : ℕ) (fd m : ℤ) (sets : Sets) (s : World) (f : fits fd_setsize fd ≡ true) where
  add_all-ok :
      (r w e : Bool) → add_all fd_setsize r w e fd (m, sets) s ≡ ok (joins r w e fd (m, sets)) s
  add_all-ok false false false = refl
  add_all-ok true false false = rw f refl
  add_all-ok false true false = rw f refl
  add_all-ok false false true = rw f refl
  add_all-ok true true false = rw (f, larger-larger fd m) refl
  add_all-ok true false true = rw (f, larger-larger fd m) refl
  add_all-ok false true true = rw (f, larger-larger fd m) refl
  add_all-ok true true true = rw (f, larger-larger fd m, larger-larger fd m) refl

-- No option, no change.
add_all-none :
    (fd_setsize : ℕ) (fd m : ℤ) (sets : Sets) (s : World) (r w e : Bool)
    → (r || w || e) ≡ false
    → (add_all fd_setsize r w e fd (m, sets) s ≡ ok (m, sets) s)
      × (joins r w e fd (m, sets) ≡ (m, sets))
add_all-none fd_setsize fd m sets s false false false h = (refl, refl)
add_all-none fd_setsize fd m sets s true w e h = cc
add_all-none fd_setsize fd m sets s false true e h = cc
add_all-none fd_setsize fd m sets s false false true h = cc

-- A task for its timer only waits on no descriptor.
only_timer-none : (t r w e m : Bool) → (t && not (r || w || e || m)) ≡ true → (r || w || e) ≡ false
only_timer-none t r w e m h = ground arith

pub watch-ok :
    (fd_setsize : ℕ) (k : Task) (seen : ℤ × Sets) (w : World)
    → IsWatchable fd_setsize k
    → watch fd_setsize k seen w ≡ ok (joined k seen) w
unfolding watch
watch-ok fd_setsize k (m, sets) w fit =
    let o = k.opts in
    elim (Bool-cases (o.timer && not (o.read || o.write || o.error || o.remove))) [
      | inl e ↦
          let none = only_timer-none o.timer o.read o.write o.error o.remove e in
          let all = add_all-none fd_setsize k.fd m sets w o.read o.write o.error none in
          rw e (ap (λ z. ok z w) (sym all.1))
      | inr e ↦ elim fit [
        | inl none ↦
            let all = add_all-none fd_setsize k.fd m sets w o.read o.write o.error none in
            rw e (all.0 ∙ ap (λ z. ok z w) (sym all.1))
        | inr f ↦ rw e (add_all-ok fd_setsize k.fd m sets w f o.read o.write o.error)
      ]
    ]

-- Every task of the list, joined one after the other.
abbrev pub watch_all : (Ptr → Task) → List Ptr → ℤ × Sets → ℤ × Sets
watch_all task [] seen = seen
watch_all task (t ∷ ts) seen = watch_all task ts (joined (task t) seen)

pub watch_all_same :
    (task task' : Ptr → Task) (xs : List Ptr) (seen : ℤ × Sets)
    → ((a : Ptr) → has a xs ≡ true → task a ≡ task' a)
    → watch_all task xs seen ≡ watch_all task' xs seen
watch_all_same task task' [] seen same_task = refl
watch_all_same task task' (x ∷ xs) seen same_task =
    rw (same_task x (ground arith))
      (watch_all_same task task' xs (joined (task' x) seen) λ a i. same_task a (ground (arith, i)))

-- A set that one task has joined, and then the tasks `ts`.
joined-set :
    (wants : Bool) (s : FdSet) (k fd : ℤ) (later : Bool)
    → ((if wants then fd_set s k else s) fd || later) ≡ (s fd || ((wants && same fd k) || later))
joined-set true s k fd later = elim (Bool-cases (same fd k)) [
  | inl e ↦ rw e (ground arith)
  | inr e ↦ rw e refl
]
joined-set false s k fd later = refl

-- `maxfd` when one task has joined.
joined-IsAtMost :
    (any : Bool) (fd m : ℤ)
    → let after = (if any then larger fd m else m) in
      IsAtMost m after
      × (any ≡ true → IsAtMost fd after)
      × ((after ≡ m) ⊎ ((any ≡ true) × (after ≡ fd)))
joined-IsAtMost false fd m = (IsAtMost-refl m, λ h. cc, inl refl)
joined-IsAtMost true fd m =
    let (a, b, c) = larger-IsAtMost fd m in
    (b, λ h. a, elim c [ inl e ↦ inr (refl, e) | inr e ↦ inl e ])

pub watch_all-Watched :
    (task : Ptr → Task) (ts : List Ptr) (seen : ℤ × Sets)
    → Watched task ts seen (watch_all task ts seen)
watch_all-Watched task [] seen = record {
  reads = λ fd. ground arith;
  writes = λ fd. ground arith;
  errors = λ fd. ground arith;
  above = IsAtMost-refl seen.0;
  bound = λ fd h. cc;
  attained = inl refl;
}
watch_all-Watched task (t ∷ ts) seen =
    let k = task t in
    let rest = watch_all-Watched task ts (joined k seen) in
    let (over, reaches, is) = joined-IsAtMost (waits k.opts) k.fd seen.0 in
    let last : ℤ = (watch_all task ts (joined k seen)).0 in
    record {
      reads = λ fd. rest.reads fd ∙ joined-set k.opts.read seen.1.rds k.fd fd _;
      writes = λ fd. rest.writes fd ∙ joined-set k.opts.write seen.1.wrs k.fd fd _;
      errors = λ fd. rest.errors fd ∙ joined-set k.opts.error seen.1.ers k.fd fd _;
      above = IsAtMost-trans seen.0 (joined k seen).0 last over rest.above;
      bound = λ fd h. elim (Bool-cases (waits k.opts && same fd k.fd)) [
        | inl e ↦
            let same_fd : fd ≡ k.fd = same_eq fd k.fd (ground (arith, e)) in
            subst (λ z. IsAtMost z last) (sym same_fd)
              (IsAtMost-trans k.fd (joined k seen).0 last (reaches (ground (arith, e))) rest.above)
        | inr e ↦ rest.bound fd (ground (arith, h, e))
      ];
      attained = elim rest.attained [
        | inr later ↦ inr (ground (arith, later))
        | inl e ↦ elim is [
          | inl e' ↦ inl (e ∙ e')
          | inr (any, e') ↦
              let same_fd : same last k.fd ≡ true =
                subst (λ z. same z k.fd ≡ true) (sym (e ∙ e')) (same_refl k.fd) in
              inr (ground (arith, any, same_fd))
        ]
      ];
    }
