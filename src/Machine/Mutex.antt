-- ===== src/Machine/Mutex.antt =====
-- The re-entrant functions of the library (`..._r`) and gccpch.h's LOCK_MUTEX / UNLOCK_MUTEX.
use common_utils_lib.Base.{Option, none, some, ◌≡◌, refl}
use common_utils_lib.Machine.{Run, ok, fault, aborted, blocked, out_of_fuel, Cmd, then_run}

-- POSIX threads: `lock` gives the mutex as held, or does not return.
pub record Pthread : Type 1 where
  pub Mutex : Type 0
  pub lock : Mutex → Option Mutex
  pub unlock : Mutex → Mutex

module _ (posix : Pthread) {S A : Type 0} where
  open posix use {Mutex, lock, unlock}

  abbrev after_lock : Option Mutex → Cmd S A → Cmd S A
  after_lock none body = λ s. blocked
  after_lock (some held) body = λ s. then_run (body s) λ a s'. let released = unlock held in ok a s'

  -- `LOCK_MUTEX( m ); body; UNLOCK_MUTEX( m );` where `m` is a parameter passed by value: what is
  -- locked and released is the callee's copy.
  unfoldable pub with_copy : Mutex → Cmd S A → Cmd S A
  with_copy m body = after_lock (lock m) body

  then_run-ok : (r : Run S A) → then_run r ok ≡ r
  then_run-ok (ok a s) = refl
  then_run-ok fault = refl
  then_run-ok aborted = refl
  then_run-ok blocked = refl
  then_run-ok out_of_fuel = refl

  -- Where the lock of the copy is granted, the call is its body.
  pub with_copy-ok :
      (m held : Mutex) (body : Cmd S A) (s : S) → lock m ≡ some held → with_copy m body s ≡ body s
  unfolding with_copy
  with_copy-ok m held body s h = rw h (then_run-ok (body s))

  -- Where it is not granted, the call does not return.
  pub with_copy-blocked :
      (m : Mutex) (body : Cmd S A) (s : S) → lock m ≡ none → with_copy m body s ≡ blocked
  unfolding with_copy
  with_copy-blocked m body s h = rw h

-- A store beside the mutex that guards it.
pub record Guarded (posix : Pthread) (S : Type 0) : Type 0 where
  pub mutex : posix.Mutex
  pub store : S

module _ (posix : Pthread) {S A : Type 0} where
  open posix use {Mutex, lock, unlock}

  abbrev release : Mutex → Run S A → Run (Guarded posix S) A
  release held (ok a s) = ok a (record { mutex = unlock held; store = s })
  release held fault = fault
  release held aborted = aborted
  release held blocked = blocked
  release held out_of_fuel = out_of_fuel

  abbrev granted : Option Mutex → Cmd S A → S → Run (Guarded posix S) A
  granted none body s = blocked
  granted (some held) body s = release held (body s)

  -- `LOCK_MUTEX_PTR( m ); body; UNLOCK_MUTEX_PTR( m );`: the caller's own mutex.
  unfoldable pub with_lock : Cmd S A → Cmd (Guarded posix S) A
  with_lock body g = granted (lock g.mutex) body g.store

  -- Where the lock is granted the body runs on the store, and the mutex is released behind it.
  pub with_lock-ok :
      (held : Mutex) (body : Cmd S A) (g : Guarded posix S) (a : A) (s : S)
      → lock g.mutex ≡ some held
      → body g.store ≡ ok a s
      → with_lock body g ≡ ok a (record { mutex = unlock held; store = s })
  unfolding with_lock
  with_lock-ok held body g a s h e = rw h (rw e refl)
