-- ===== src/IoScheduler/Schedule.antt =====
-- io_sched_schedule_task on a well-formed task list.
use common_utils_lib.Base.{
  ℕ, ◌+◌, not, ◌||◌, ◌==◌, ◌*◌, ◌<◌, ◌≡◌, refl, ap, sym, ◌∙◌, ◌≢◌, ◌⊎◌, inl, inr, Bool, true, false,
  some, List, [], ◌∷◌, ◌++◌, arith, ==-ne, ==_refl, if◌then◌else◌, length,
}
use common_utils_lib.Base.Int.{pos}
use common_utils_lib.Machine.{Ptr, null, Run, ok, fault, aborted, blocked, out_of_fuel, ◌>>◌}
use common_utils_lib.Machine.Returns.{Returns, returns, weaken, chain}
use mathlib.Core.Path.{subst}
use common_utils_lib.Chain.{Field, has, IsLinked, has-ne, has-middle, IsLinked-at, put_self, put_ne}
use common_utils_lib.Chain.Walk.{take_while_all, append_after}
use common_utils_lib.Slist.{store}
use common_utils_lib.Slist.Shape.{IsList, load-ok, store-ok, seek-Stopped, IsList-insert}
use common_utils_lib.IoScheduler.{
  World, Task, Opts, Timespec, same, minus_one, one_second, store_task, on_links, with_links,
  populate_expire_time,
}
use common_utils_lib.IoScheduler.Tasks.{usable, link_last, schedule_task}
use common_utils_lib.IoScheduler.Clock.{total, task_of-ok, Expires, populate_expire_time-Expires}

-- A task that is in no place of the list, with no successor.
pub record IsNew (f : Field) (owner : Ptr) (xs : List Ptr) (t : Ptr) : Type 0 where
  pub ne : t ≢ null
  pub out : has t (owner ∷ xs) ≡ false
  pub last : f t ≡ some null

module _ (f : Field) (owner t : Ptr) (xs : List Ptr) (is : IsList f owner xs)
    (new : IsNew f owner xs t) where
  -- The write at the last node `p`.
  store-snoc :
      (front : List Ptr) (p : Ptr)
      → owner ∷ xs ≡ front ++ p ∷ []
      → front ++ p ∷ t ∷ [] ≡ owner ∷ (xs ++ t ∷ [])
      → Returns (λ _ g. IsList g owner (xs ++ t ∷ [])) (store p t f)
  store-snoc front p e e' =
      let at = IsLinked-at f front p [] null (subst (λ z. IsLinked f z null) e is.linked) in
      let i : has p (owner ∷ xs) ≡ true =
        subst (λ z. has p z ≡ true) (sym e) (has-middle front p []) in
      let d : p ≢ t = has-ne p t (owner ∷ xs) i new.out in
      rw (store-ok f p null at.0 at.1 t) (
        returns (
          IsList-insert front p t [] (xs ++ t ∷ []) is e e' new.out new.ne (record {
            before = put_self f p t;
            inserted = put_ne f p t t (λ u. d (sym u)) ∙ new.last;
            rest = λ a o. ground arith;
          })))

link_last-snoc :
    (f : Field) (owner t : Ptr) (xs : List Ptr) (fuel : ℕ)
    → IsList f owner xs
    → IsNew f owner xs t
    → length xs < fuel
    → Returns (λ _ g. IsList g owner (xs ++ t ∷ [])) (link_last fuel owner t f)
unfolding link_last
link_last-snoc f owner t [] fuel is new h =
    rw (load-ok f owner null is.linked.0 is.linked.1)
      (store-snoc f owner t [] is new [] owner refl refl)
link_last-snoc f owner t (x ∷ xs) fuel is new h =
    let (p, e, stop) = seek-Stopped (λ _. true) fuel x xs is.linked.2 (omega arith) in
    let all = take_while_all xs in
    rw (load-ok f owner x is.linked.0 is.linked.1, ==-ne x null is.linked.2.0, e)
      (store-snoc f owner t (x ∷ xs) is new (owner ∷ stop.front) p
        (ap (λ z. owner ∷ z) (stop.split ∙ ap (λ z. stop.front ++ p ∷ z) all.1))
        (ap (λ z. owner ∷ z)
          (append_after stop.front p (x ∷ xs) (t ∷ []) (stop.kept ∙ ap (λ z. x ∷ z) all.0))))

on_links-Returns :
    {A : Type 0} {P : A → Field → Type 0} (w : World) (r : Run Field A)
    → Returns P r
    → Returns (λ a g. P a g.next × (g.task ≡ w.task)) (with_links w r)
on_links-Returns w (ok a f) (returns h) = returns (h, refl)
on_links-Returns w fault h = elim h [ ]
on_links-Returns w aborted h = elim h [ ]
on_links-Returns w blocked h = elim h [ ]
on_links-Returns w out_of_fuel h = elim h [ ]

-- What a task can be scheduled for: what was asked, where its callback is there.
abbrev pub offered : (asked : Bool) (callback : Ptr) → Bool
offered asked callback = if callback == null then false else asked

-- A task without a timeout has no timer.
abbrev pub times_out : Task → Bool
times_out k = if same k.time_out minus_one then false else offered k.opts.timer k.on_timeout_cbk

-- The options `o` are what the task `k` can be scheduled for, and its removal if that is nothing.
pub record AreOffered (k : Task) (o : Opts) : Type 0 where
  pub read : o.read ≡ offered k.opts.read k.on_read_rdy_cbk
  pub write : o.write ≡ offered k.opts.write k.on_write_rdy_cbk
  pub error : o.error ≡ offered k.opts.error k.on_err_rdy_cbk
  pub timer : o.timer ≡ times_out k
  pub remove :
      o.remove ≡ (if k.opts.remove then true else not (o.read || o.write || o.error || o.timer))

usable-AreOffered : (k : Task) → AreOffered k (usable k)
unfolding usable
usable-AreOffered k = record {
  read = ground arith;
  write = ground arith;
  error = ground arith;
  timer = ground arith;
  remove = ground arith;
}

-- What is left when the options are stored and, for a timer, the expiry is set.
pub record Prepared (t : Ptr) (w g : World) (n : ℕ) (timer : Bool) : Type 0 where
  pub links : g.next ≡ w.next
  pub expire_time : Timespec
  pub expiry :
      total expire_time ≡ (if timer then total w.clock + n else total (w.task t).expire_time)
  pub made : g.task t ≡ record (w.task t) { opts = usable (w.task t); expire_time = expire_time }
  pub others : (a : Ptr) → a ≢ t → g.task a ≡ w.task a

abbrev with_usable : Ptr → World → World
with_usable t w = record w {
  task = store_task w.task t (record (w.task t) { opts = usable (w.task t) });
}

with_usable-Prepared : (t : Ptr) (w : World) (n : ℕ) → Prepared t w (with_usable t w) n false
with_usable-Prepared t w n = record {
  links = refl;
  expire_time = (w.task t).expire_time;
  expiry = refl;
  made = rw (==_refl t) refl;
  others = λ a ne. rw (==-ne a t ne) refl;
}

Expires-Prepared :
    (t : Ptr) (n : ℕ) (w g : World) → Expires t n (with_usable t w) g → Prepared t w g n true
Expires-Prepared t n w g x = record {
  links = ap (λ u. u.next) x.leaves;
  expire_time = x.expire_time;
  expiry = x.ahead;
  made = ap (λ u. u.task t) x.leaves ∙ rw (==_refl t) refl;
  others = λ a ne. ap (λ u. u.task a) x.leaves ∙ rw (==-ne a t ne) refl;
}

-- The expiry is set for a timer only.
prepare-Prepared :
    (t : Ptr) (w : World) (n rounds : ℕ)
    → t ≢ null
    → w.next t ≡ some null
    → w.clock.nsec < one_second
    → n < rounds * one_second
    → (timer : Bool) → (timer ≡ false) ⊎ ((w.task t).time_out ≡ pos n)
    → Returns
        (λ _ g. Prepared t w g n timer)
        ((if timer then populate_expire_time rounds t else ok tt) (with_usable t w))
prepare-Prepared t w n rounds ne last clock less false timed = returns (with_usable-Prepared t w n)
prepare-Prepared t w n rounds ne last clock less true (inl e) = absurd (ground (arith, e))
prepare-Prepared t w n rounds ne last clock less true (inr e) =
    weaken
      (populate_expire_time-Expires t n (with_usable t w) null ne last clock rounds less
        (rw (==_refl t) e))
      λ _ g x. Expires-Prepared t n w g x

-- True, the task at the end of the list with the options it can be scheduled for, its expiry `n`
-- nanoseconds ahead if it has a timer, and all else as it was.
pub record Scheduled (t : Ptr) (xs : List Ptr) (w : World) (n : ℕ) (b : Bool) (g : World)
    : Type 0 where
  pub done : b ≡ true
  pub list : IsList g.next (w.task t).owner (xs ++ t ∷ [])
  pub opts : AreOffered (w.task t) (g.task t).opts
  pub expiry :
      total (g.task t).expire_time
      ≡ (if times_out (w.task t) then total w.clock + n else total (w.task t).expire_time)
  pub rest :
      g.task t ≡ record (w.task t) { opts = (g.task t).opts; expire_time = (g.task t).expire_time }
  pub others : (a : Ptr) → a ≢ t → g.task a ≡ w.task a

-- A task that has been linked after it was prepared.
Prepared-Scheduled :
    (t : Ptr) (xs : List Ptr) (w g g' : World) (n : ℕ)
    → Prepared t w g n (times_out (w.task t))
    → IsList g'.next (w.task t).owner (xs ++ t ∷ [])
    → g'.task ≡ g.task
    → Scheduled t xs w n true g'
Prepared-Scheduled t xs w g g' n p list kept =
    let made = ap (λ d. d t) kept ∙ p.made in
    record {
      done = refl;
      list = list;
      opts =
          subst (AreOffered (w.task t)) (sym (ap (λ k. k.opts) made))
            (usable-AreOffered (w.task t));
      expiry = ap (λ k. total k.expire_time) made ∙ p.expiry;
      rest =
          made
          ∙ sym (ap (λ k. record (w.task t) { opts = k.opts; expire_time = k.expire_time }) made);
      others = λ a ne. ap (λ d. d a) kept ∙ p.others a ne;
    }

link-Scheduled :
    (t : Ptr) (xs : List Ptr) (w g : World) (n fuel : ℕ)
    → IsList w.next (w.task t).owner xs
    → IsNew w.next (w.task t).owner xs t
    → length xs < fuel
    → Prepared t w g n (times_out (w.task t))
    → Returns (Scheduled t xs w n) ((on_links (link_last fuel (w.task t).owner t) >> ok true) g)
link-Scheduled t xs w g n fuel is new h p =
    chain
      (on_links-Returns g (link_last fuel (w.task t).owner t g.next) (
        subst
          (λ f.
            Returns (λ _ f'. IsList f' (w.task t).owner (xs ++ t ∷ []))
              (link_last fuel (w.task t).owner t f))
          (sym p.links) (link_last-snoc w.next (w.task t).owner t xs fuel is new h)))
      λ _ g' (list, kept). returns (Prepared-Scheduled t xs w g g' n p list kept)

-- With a new task, a well-formed task list and more rounds than tasks, and for a task that keeps
-- its timer a timeout that is not negative and whose seconds are fewer than `rounds`,
-- `io_sched_schedule_task` returns true and puts the task at the end of the list. The task keeps
-- each of the options to read, to write, to see errors and to time out just if it was asked for and
-- its callback is there (and, to time out, if it has a timeout), and it is to be removed just if
-- that was asked for or no option is left. With a timer its expiry is its timeout from now, and
-- without one what it was; the rest of the task and every other task stay as they were.
pub schedule_task-snoc :
    (t : Ptr) (xs : List Ptr) (w : World) (n fuel rounds : ℕ)
    → IsList w.next (w.task t).owner xs
    → IsNew w.next (w.task t).owner xs t
    → length xs < fuel
    → w.clock.nsec < one_second
    → n < rounds * one_second
    → (times_out (w.task t) ≡ false) ⊎ ((w.task t).time_out ≡ pos n)
    → Returns (Scheduled t xs w n) (schedule_task fuel rounds t w)
unfolding schedule_task
schedule_task-snoc t xs w n fuel rounds is new h clock less timed =
    let timer = (usable-AreOffered (w.task t)).timer in
    rw (==-ne t null new.ne, task_of-ok w t null new.ne new.last)
      (chain
        (prepare-Prepared t w n rounds new.ne new.last clock less (usable (w.task t)).timer
          (subst (λ b. (b ≡ false) ⊎ ((w.task t).time_out ≡ pos n)) (sym timer) timed))
        λ _ g p. link-Scheduled t xs w g n fuel is new h (subst (Prepared t w g n) timer p))
