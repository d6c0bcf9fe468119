-- ===== src/ChildProcessMgr.antt =====
-- child-process-mgr.c, with child-process.c. The store of one manager: the ring of its monitors,
-- the processes they watch, and the scheduler. The answers that `waitpid` has to give are a list;
-- when it is empty, no child has ended. The callbacks of processes are a list of events. The mutex
-- is not modelled: a call is one step. `ndebug` tells what the ASSERT_EXIT macros do, a loop is
-- given `fuel` rounds.
pub mod Manage
pub mod Loops
pub mod Without
pub mod Monitor
pub mod Dismiss
pub mod Reap
pub mod Lifecycle
mod Tests
use common_utils_lib.Base.{
  ℕ, zero, suc, Bool, true, false, not, ◌||◌, Option, none, some, List, [], ◌∷◌, ◌++◌, ltb, ◌==◌,
  if◌then◌else◌,
}
use common_utils_lib.Base.Int.{ℤ, pos, negsuc}
use common_utils_lib.Machine.{
  Ptr, null, Run, ok, fault, aborted, blocked, out_of_fuel, Cmd, ◌>>=◌, ◌>>◌,
}
use common_utils_lib.Machine.Mutex.{Pthread}
use common_utils_lib.Chain.{put}
use common_utils_lib.Clist.{Nodes, next_of, prev_of, set_next, set_prev, assert_exit, is_nonnull}
use common_utils_lib.Stack.Free.{give_back}
use common_utils_lib.IoScheduler.{same, one_second}
use common_utils_lib.IoScheduler
use common_utils_lib.IoScheduler.Tasks.{create_timer_task, schedule_task, unschedule_task}

-- `struct _child_proc`
pub record Child : Type 0 where
  pub pid : ℤ
  pub fd : ℤ
  pub user_data : Ptr
  pub on_exit : Ptr

-- `on_exit ( child, status )`
pub record Exit : Type 0 where
  pub callback : Ptr
  pub child : Ptr
  pub status : ℕ

-- `links`, `child` and `owned_by_mgr` are the members of the monitors, `procs` the processes.
pub record World : Type 0 where
  pub head : Ptr
  pub links : Nodes
  pub child : Ptr → Ptr
  pub owned_by_mgr : Ptr → Bool
  pub procs : Ptr → Option Child
  pub exits : List (ℤ × ℕ)
  pub events : List Exit
  pub monitor_task : Ptr
  pub scheduler : IoScheduler.World

module _ {A : Type 0} where
  abbrev pub with_links : World → Run Nodes A → Run World A
  with_links w (ok a h) = ok a (record w { links = h })
  with_links w fault = fault
  with_links w aborted = aborted
  with_links w blocked = blocked
  with_links w out_of_fuel = out_of_fuel

  abbrev pub on_links : Cmd Nodes A → Cmd World A
  on_links m w = with_links w (m w.links)

  abbrev pub with_scheduler : World → Run IoScheduler.World A → Run World A
  with_scheduler w (ok a s) = ok a (record w { scheduler = s })
  with_scheduler w fault = fault
  with_scheduler w aborted = aborted
  with_scheduler w blocked = blocked
  with_scheduler w out_of_fuel = out_of_fuel

  abbrev pub on_scheduler : Cmd IoScheduler.World A → Cmd World A
  on_scheduler m w = with_scheduler w (m w.scheduler)

abbrev pub store : {A : Type 0} → (Ptr → A) → Ptr → A → Ptr → A
store f a v b = if b == a then v else f b

abbrev pub at_proc : Option Child → Cmd World Child
at_proc none w = fault
at_proc (some c) w = ok c w

-- `*child`
unfoldable pub proc_of : Ptr → Cmd World Child
proc_of child w = at_proc (w.procs child) w

-- `mp->child`
unfoldable pub child_of : Ptr → Cmd World Ptr
child_of mp = do _ ← on_links (next_of mp); λ w. ok (w.child mp) w

-- The manager at `address` with the head of its ring at `head_address`.
unfoldable pub init : (address head_address : Ptr) → Cmd World Ptr
init address head_address w =
    if address == null
    then ok null w
    else if head_address == null
    then ok null w
    else ok address (record w {
      head = head_address;
      links = record {
        next = put w.links.next head_address head_address;
        prev = put w.links.prev head_address head_address;
      };
      child = store w.child head_address null;
      owned_by_mgr = store w.owned_by_mgr head_address false;
      monitor_task = null;
    })

-- child_proc_destroy: `free ( child )`
unfoldable pub child_proc_destroy : Ptr → Cmd World (Unit {0})
child_proc_destroy child w =
    if child == null then ok tt w else ok tt (record w { procs = store w.procs child none })

-- child_proc_init_full, where `address` is what `malloc` returns; child_proc_init passes no callback.
unfoldable pub child_proc_init_full : (address : Ptr) → ℤ → ℤ → Ptr → Ptr → Cmd World Ptr
child_proc_init_full address pid fd userdata on_exit_cbk w =
    if address == null
    then ok null w
    else ok address (record w {
      procs =
          store w.procs address
            (some (record { pid = pid; fd = fd; user_data = userdata; on_exit = on_exit_cbk }));
    })

unfoldable pub child_proc_init : (address : Ptr) → ℤ → ℤ → Ptr → Cmd World Ptr
child_proc_init address pid fd userdata = child_proc_init_full address pid fd userdata null

-- `while ( mp && ( mp != head ) ) { if ( mp->child->pid == pid ) break; mp = mp->next; }`
unfoldable pub find_loop : ℕ → Cmd World ℤ → Ptr → Cmd World Ptr
find_loop zero pid mp = λ _. out_of_fuel
find_loop (suc fuel) pid mp = do
  head ← (λ w. ok w.head w)
  if (mp == null) || (mp == head) then ok mp else (do
    child ← child_of mp
    c ← proc_of child
    p ← pid
    if same c.pid p then ok mp else (do q ← on_links (next_of mp); find_loop fuel pid q))

-- `find_loop` from the head on.
abbrev pub find_from_head : ℕ → Cmd World ℤ → Cmd World Ptr
find_from_head fuel pid = do
  head ← (λ w. ok w.head w)
  mp ← on_links (next_of head)
  find_loop fuel pid mp

-- `pid > 1`
abbrev pub is_proper : ℤ → Bool
is_proper (pos n) = ltb 1 n
is_proper (negsuc n) = false

abbrev pub is_positive : ℤ → Bool
is_positive (pos n) = ltb 0 n
is_positive (negsuc n) = false

abbrev pub set_events : List Exit → Cmd World (Unit {0})
set_events es w = ok tt (record w { events = es })

-- The manager is waitpid's caller: one answer is used up.
abbrev pub answer : List (ℤ × ℕ) → Cmd World (ℤ × ℕ)
answer [] w = ok (pos 0, 0) w
answer (e ∷ es) w = ok e (record w { exits = es })

unfoldable pub waitpid : Cmd World (ℤ × ℕ)
waitpid w = answer w.exits w

-- The new monitor goes to the end of the ring.
unfoldable pub link_last : Ptr → Ptr → Cmd Nodes (Unit {0})
link_last head mp = do
  last ← prev_of head
  set_next last mp
  set_prev mp last
  set_next mp head
  set_prev head mp

-- `mp->prev->next = mp->next; mp->next->prev = mp->prev;`
unfoldable pub skip : Ptr → Cmd Nodes (Unit {0})
skip mp = do
  p ← prev_of mp
  q ← next_of mp
  set_next p q
  q' ← next_of mp
  p' ← prev_of mp
  set_prev q' p'

module _ (ndebug : Bool) where
  -- The argument `cpmgr` is not `NULL`.
  unfoldable pub find_monitored_proc : ℕ → ℤ → Cmd World Ptr
  find_monitored_proc fuel pid = assert_exit ndebug (is_proper pid) null do
    head ← (λ w. ok w.head w)
    assert_exit ndebug (is_nonnull head) null
        (do rv ← find_from_head fuel (ok pid); ok (if rv == head then null else rv))

  -- The monitor and, if it is the manager's, the process are freed.
  unfoldable pub monitored_proc_destroy : Ptr → Cmd World (Unit {0})
  monitored_proc_destroy mp = assert_exit ndebug (is_nonnull mp) tt do
    child ← child_of mp
    owned ← (λ w. ok (w.owned_by_mgr mp) w)
    if owned then child_proc_destroy child else ok tt
    λ w. ok tt (record w {
      links = record { next = give_back w.links.next mp; prev = give_back w.links.prev mp };
    })

  -- `address` is what `malloc` returns.
  unfoldable pub monitored_proc_init : (address child : Ptr) → Bool → Cmd World Ptr
  monitored_proc_init address child owns_child = assert_exit ndebug (is_nonnull child) null λ w.
      if address == null
      then ok null w
      else ok address (record w {
        links = record {
          next = put w.links.next address null;
          prev = put w.links.prev address null;
        };
        child = store w.child address child;
        owned_by_mgr = store w.owned_by_mgr address owns_child;
      })

  unfoldable pub monitor_child : (address : Ptr) → ℕ → Ptr → Cmd World Bool
  monitor_child address fuel child = assert_exit ndebug (is_nonnull child) false do
    head ← (λ w. ok w.head w)
    mp ← find_from_head fuel (do c ← proc_of child; ok c.pid)
    if mp == head
        then (do
          new ← monitored_proc_init address child false
          if new == null then ok false else (do on_links (link_last head new); ok true))
        else (do there ← child_of mp; ok (there == child))

  unfoldable pub monitor_pid :
      (address child_address : Ptr) → ℕ → ℤ → ℤ → Ptr → Ptr → Cmd World Bool
  monitor_pid address child_address fuel pid fd userdata on_pid_exit =
      assert_exit ndebug (is_proper pid) false do
        head ← (λ w. ok w.head w)
        mp ← find_from_head fuel (ok pid)
        if mp == head
            then (do
              child ← child_proc_init_full child_address pid fd userdata on_pid_exit
              new ← monitored_proc_init address child true
              if new == null
                  then (do child_proc_destroy child; ok false)
                  else (do on_links (link_last head new); ok true))
            else ok false
