-- ===== src/TcpListener.antt =====
-- tcp_service.c, one TCP listener and the remote clients that it serves, which form a ring. The
-- callbacks of the listener are code of the library's user: commands on the store, `none` for
-- `NULL`. The mutex of the ring is not modelled: a call is one step. Asserts are on; a loop is
-- given `fuel` rounds.
pub mod Serve
pub mod Drop
mod Tests
use common_utils_lib.Base.{
  ℕ, zero, suc, ◌-◌, ◌^◌, Bool, true, false, not, ◌&&◌, ◌||◌, ◌==◌, if◌then◌else◌, Option, none,
  some, List,
}
use common_utils_lib.Base.Int.{ℤ, pos, negsuc}
use common_utils_lib.Machine.{
  Ptr, null, Run, ok, fault, aborted, blocked, out_of_fuel, Cmd, ◌>>=◌, ◌>>◌,
}
use common_utils_lib.Machine.Mutex.{Pthread}
use common_utils_lib.Chain.{put}
use common_utils_lib.Clist.{Nodes, next_of, prev_of, set_next, set_prev, is_nonnull}
use common_utils_lib.Stack.Free.{give_back}
use common_utils_lib.IoScheduler.{same, minus_one, is_positive, fd_of_ptr, task_of, Task}
use common_utils_lib.IoScheduler.Tasks.{create_reader_task, schedule_task, unschedule_task}
use common_utils_lib.Sockets.{Sockets, call, is_invalid}
use common_utils_lib.SocketMgr
use common_utils_lib.SocketMgr.{get_or_create_tcp, close_tcp}
use common_utils_lib.TcpSocks.{tcp_accept_full, tcp_receive}
use common_utils_lib.TcpSocks.Pending
use common_utils_lib.TcpSocks.Pending.{on_sockets, on_scheduler}
use common_utils_lib.ChildProcessMgr.{skip, link_last}

-- `struct _tcp_remote_client`, less the links, the address as text and the owner, which is the
-- listener.
pub record Remote : Type 0 where
  pub fd : ℤ
  pub remote_ip : ℕ
  pub remote_port : ℕ
  pub io_task : Ptr
  pub read_buffer : Ptr
  pub read_buffer_size : ℕ
  pub user_data : Ptr

-- `struct _tcp_listener`, less its callbacks and the links, which the library does not use.
pub record Listener : Type 0 where
  pub port : ℕ
  pub fd : ℤ
  pub io_task : Ptr
  pub user_data : Ptr
  pub clients : Ptr

-- `listener` is `none` when the memory of the listener is not allocated.
pub record World (os : Sockets) : Type 0 where
  pub tcp : Pending.World os
  pub mgr : SocketMgr.World
  pub listener : Option Listener
  pub links : Nodes
  pub remotes : Ptr → Option Remote

pub record Callbacks (os : Sockets) : Type 0 where
  pub on_client_connected : Option (Ptr → Cmd (World os) (Unit {0}))
  pub on_client_disconnected : Option (Ptr → Cmd (World os) (Unit {0}))
  pub on_client_request : Option (Ptr → List ℕ → Cmd (World os) Bool)
  pub on_client_waiting : Option (Cmd (World os) Bool)
  pub on_closed : Option (Cmd (World os) (Unit {0}))

module _ {os : Sockets} {A : Type 0} where
  abbrev pub with_tcp : World os → Run (Pending.World os) A → Run (World os) A
  with_tcp w (ok a t) = ok a (record w { tcp = t })
  with_tcp w fault = fault
  with_tcp w aborted = aborted
  with_tcp w blocked = blocked
  with_tcp w out_of_fuel = out_of_fuel

  abbrev pub on_tcp : Cmd (Pending.World os) A → Cmd (World os) A
  on_tcp m w = with_tcp w (m w.tcp)

  abbrev pub with_mgr : World os → Run SocketMgr.World A → Run (World os) A
  with_mgr w (ok a t) = ok a (record w { mgr = t })
  with_mgr w fault = fault
  with_mgr w aborted = aborted
  with_mgr w blocked = blocked
  with_mgr w out_of_fuel = out_of_fuel

  abbrev pub on_mgr : Cmd SocketMgr.World A → Cmd (World os) A
  on_mgr m w = with_mgr w (m w.mgr)

  abbrev pub with_links : World os → Run Nodes A → Run (World os) A
  with_links w (ok a t) = ok a (record w { links = t })
  with_links w fault = fault
  with_links w aborted = aborted
  with_links w blocked = blocked
  with_links w out_of_fuel = out_of_fuel

  abbrev pub on_links : Cmd Nodes A → Cmd (World os) A
  on_links m w = with_links w (m w.links)

  abbrev pub assert : Bool → Cmd (World os) A → Cmd (World os) A
  assert test body = if test then body else λ _. aborted

  abbrev pub found : Option A → Cmd (World os) A
  found none w = fault
  found (some k) w = ok k w

-- The bits of an `int`.
abbrev pub bits : ℤ → ℕ
bits (pos n) = n
bits (negsuc n) = 2 ^ 32 - 1 - n

module _ (os : Sockets) where
  abbrev pub store_remote : (Ptr → Option Remote) → Ptr → Option Remote → Ptr → Option Remote
  store_remote d c k b = if b == c then k else d b

  -- `*remcli` and `*listener`, and writes to them.
  unfoldable pub remote_of : Ptr → Cmd (World os) Remote
  remote_of remcli w = found (w.remotes remcli) w

  unfoldable pub put_remote : Ptr → Remote → Cmd (World os) (Unit {0})
  put_remote remcli k w = ok tt (record w { remotes = store_remote w.remotes remcli (some k) })

  unfoldable pub the_listener : Cmd (World os) Listener
  the_listener w = found w.listener w

  unfoldable pub put_listener : Option Listener → Cmd (World os) (Unit {0})
  put_listener l w = ok tt (record w { listener = l })

  unfoldable pub free_remote : Ptr → Cmd (World os) (Unit {0})
  free_remote remcli w = ok tt (record w {
    remotes = store_remote w.remotes remcli none;
    links = record { next = give_back w.links.next remcli; prev = give_back w.links.prev remcli };
  })

  -- `debug` as for io_sched_unschedule_task.
  unfoldable pub tcp_remote_client_destroy : (debug : Bool) → Ptr → Cmd (World os) (Unit {0})
  tcp_remote_client_destroy debug remcli = if remcli == null then ok tt else (do
    k ← remote_of remcli
    if k.io_task == null then ok tt else on_tcp (on_scheduler (unschedule_task debug k.io_task))
    if is_invalid k.fd then ok tt else (do on_tcp (on_sockets (call (os.close k.fd))); ok tt)
    free_remote remcli)

  unfoldable pub tcp_remote_client_stop : (debug : Bool) → Ptr → Cmd (World os) (Unit {0})
  tcp_remote_client_stop debug remcli = if remcli == null then ok tt else (do
    k ← remote_of remcli
    on_tcp (on_scheduler (unschedule_task debug k.io_task))
    put_remote remcli (record k { io_task = null }))

  unfoldable pub tcp_listener_drop_client : (debug : Bool) → Ptr → Cmd (World os) (Unit {0})
  tcp_listener_drop_client debug remcli = assert (is_nonnull remcli) (do
    p ← on_links (prev_of remcli)
    assert (is_nonnull p) (do
      q ← on_links (next_of remcli)
      assert (is_nonnull q) (do on_links (skip remcli); tcp_remote_client_destroy debug remcli)))

  -- The loop of tcp_listener_stop.
  unfoldable pub stop_loop : (debug : Bool) → ℕ → Ptr → Cmd (World os) (Unit {0})
  stop_loop debug zero clients = λ _. out_of_fuel
  stop_loop debug (suc fuel) clients = do
    nn ← on_links (next_of clients)
    if nn == clients then ok tt else (do
      after ← on_links (next_of nn)
      on_links (set_next clients after)
      tcp_remote_client_stop debug nn
      tcp_remote_client_destroy debug nn
      λ w. stop_loop debug fuel clients w)

  unfoldable pub tcp_listener_stop : (debug : Bool) → ℕ → Cmd (World os) (Unit {0})
  tcp_listener_stop debug fuel = do
    l ← the_listener
    if l.io_task == null then ok tt else (do
      on_tcp (on_scheduler (unschedule_task debug l.io_task))
      put_listener (some (record l { io_task = null })))
    stop_loop debug fuel l.clients
    on_links (set_prev l.clients l.clients)

  unfoldable pub tcp_listener_destroy :
      Callbacks os → (debug : Bool) → ℕ → Cmd (World os) (Unit {0})
  tcp_listener_destroy callbacks debug fuel = do
    l ← the_listener
    if l.io_task == null then ok tt else tcp_listener_stop debug fuel
    first ← on_links (next_of l.clients)
    assert (first == l.clients) (do
      if is_invalid l.fd then ok tt else (do
        on_mgr (close_tcp (bits l.fd))
        elim callbacks.on_closed [ none ↦ ok tt | some on_closed ↦ on_closed ])
      tcp_remote_client_destroy debug l.clients
      put_listener none)
