-- ===== src/IoScheduler/Clock.antt =====
-- The expiry of a task: when it is set to, and when it is reached.
use common_utils_lib.Base.{
  ℕ, zero, suc, ◌+◌, ◌-◌, ◌*◌, ◌<◌, ◌≤◌, ◌≡◌, refl, ap, ◌∙◌, ◌≢◌, false, some, arith, ltb, leb,
  ==_refl, Bool-cases, inl, inr,
}
use common_utils_lib.Base.Int.{pos}
use common_utils_lib.Machine.{Ptr, null, ok}
use common_utils_lib.Machine.Returns.{Returns, returns, weaken}
use common_utils_lib.Slist.Shape.{load-ok}
use common_utils_lib.IoScheduler.{
  World, Task, Timespec, one_second, same, minus_one, task_of, store_task, expire_from, add_seconds,
  add_rest, populate_expire_time,
}
use common_utils_lib.IoScheduler.Process.{task_expired}

-- A time as nanoseconds.
abbrev pub total : Timespec → ℕ
total t = t.sec * one_second + t.nsec

pub task_of-ok :
    (w : World) (t q : Ptr) → t ≢ null → w.next t ≡ some q → task_of t w ≡ ok (w.task t) w
unfolding task_of
task_of-ok w t q ne e = rw (load-ok w.next t q ne e)

pub add_seconds-total :
    (fuel n sec : ℕ) (w : World)
    → n < fuel * one_second
    → (rest : ℕ) × (sec' : ℕ) × (add_seconds fuel n sec w ≡ ok (rest, sec') w)
      × (rest ≤ one_second)
      × (sec' * one_second + rest ≡ sec * one_second + n)
unfolding add_seconds
add_seconds-total zero n sec w h = absurd (omega arith)
add_seconds-total (suc fuel) n sec w h = elim (Bool-cases (ltb one_second n)) [
  | inl more ↦
      let big : one_second < n = ground arith in
      let (rest, sec', e, le, sum) =
        add_seconds-total fuel (n - one_second) (sec + 1) w (omega arith) in
      (rest, sec', rw more e, le, omega (arith, sum, big))
  | inr less ↦ (n, sec, rw less, ground arith, refl)
]

add_rest-total :
    (sec nsec rest : ℕ)
    → nsec < one_second
    → rest ≤ one_second
    → (total (add_rest sec nsec rest) ≡ sec * one_second + (nsec + rest))
      × ((add_rest sec nsec rest).nsec ≤ one_second)
unfolding add_rest
add_rest-total sec nsec rest a b = elim (Bool-cases (ltb one_second (nsec + rest))) [
  | inl e ↦ let big : one_second < nsec + rest = ground arith in rw e (omega arith, omega arith)
  | inr e ↦ rw e (refl, ground arith)
]

-- What setting the expiry of `t` leaves: the time `n` nanoseconds ahead, and all else as it was.
pub record Expires (t : Ptr) (n : ℕ) (w g : World) : Type 0 where
  pub expire_time : Timespec
  pub ahead : total expire_time ≡ total w.clock + n
  pub carried : expire_time.nsec ≤ one_second
  pub leaves :
      g ≡ record w { task = store_task w.task t (record (w.task t) { expire_time = expire_time }) }

module _ (t : Ptr) (n : ℕ) (w : World) (old : Ptr) (ne : t ≢ null) (there : w.next t ≡ some old)
    (clock : w.clock.nsec < one_second) (fuel : ℕ) (h : n < fuel * one_second) where
  expire_from-Expires : Returns (λ _ g. Expires t n w g) (expire_from fuel t (pos n) w)
  expire_from-Expires =
      let (rest, sec, e, le, sum) = add_seconds-total fuel n w.clock.sec w h in
      let (tot, carried) = add_rest-total sec w.clock.nsec rest clock le in
      rw (e, task_of-ok w t old ne there)
        (returns (record {
          expire_time = add_rest sec w.clock.nsec rest;
          ahead = omega (arith, tot, sum);
          carried = carried;
          leaves = refl;
        }))

  pub populate_expire_time-Expires :
      (w.task t).time_out ≡ pos n → Returns (λ _ g. Expires t n w g) (populate_expire_time fuel t w)
  unfolding populate_expire_time
  populate_expire_time-Expires e = rw (task_of-ok w t old ne there, e) expire_from-Expires

task_expired-total :
    (k : Task) (now : Timespec)
    → now.nsec < one_second
    → k.expire_time.nsec ≤ one_second
    → same k.time_out minus_one ≡ false
    → task_expired k now ≡ leb (total k.expire_time) (total now)
unfolding task_expired
task_expired-total k now a b e = rw e (ground arith)

-- When a task of a timeout of `n` nanoseconds has its expiry set, on a clock whose nanoseconds are
-- less than a second and with rounds for the seconds, it is expired from `n` nanoseconds later on
-- and not before.
pub populate_expire_time-task_expired :
    (t : Ptr) (n : ℕ) (w : World) (old : Ptr) (fuel : ℕ)
    → t ≢ null
    → w.next t ≡ some old
    → w.clock.nsec < one_second
    → n < fuel * one_second
    → (w.task t).time_out ≡ pos n
    → Returns
        (λ _ g.
          (now : Timespec)
          → now.nsec < one_second
          → task_expired (g.task t) now ≡ leb (total w.clock + n) (total now))
        (populate_expire_time fuel t w)
populate_expire_time-task_expired t n w old fuel ne there clock h e =
    weaken (populate_expire_time-Expires t n w old ne there clock fuel h e) λ _ g x now b.
      let k : Task = record (w.task t) { expire_time = x.expire_time } in
      let is_k : g.task t ≡ k = ap (λ u. u.task t) x.leaves ∙ rw (==_refl t) refl in
      let timed : same (w.task t).time_out minus_one ≡ false = ap (λ z. same z minus_one) e in
      ap (λ z. task_expired z now) is_k
      ∙ task_expired-total k now b x.carried timed
      ∙ ap (λ z. leb z (total now)) x.ahead
