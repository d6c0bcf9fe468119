-- ===== src/TcpClient.antt =====
-- tcp_service.c, the TCP client. A client is a cell of the store; the callbacks that are called are
-- a list of events, and what on_server_responded returns is `finished`. The callback that
-- tcp_connect_timeout_ud may call before it returns, on_tcp_client_connected_to_server, is a step
-- of its own behind tcp_client_connect. Asserts are on; a loop is given `fuel` rounds.
pub mod Disconnect
pub mod Respond
mod Tests
use common_utils_lib.Base.{
  ℕ, Bool, true, false, not, ◌&&◌, ◌||◌, ltb, ◌==◌, if◌then◌else◌, Option, none, some, List, [],
  ◌∷◌, ◌++◌,
}
use common_utils_lib.Base.Int.{ℤ, pos, negsuc}
use common_utils_lib.Machine.{
  Ptr, null, Run, ok, fault, aborted, blocked, out_of_fuel, Cmd, ◌>>=◌, ◌>>◌,
}
use common_utils_lib.Machine.Mutex.{Pthread}
use common_utils_lib.Clist.{is_nonnull}
use common_utils_lib.IoScheduler.{int_of, same, minus_one, is_positive, Task}
use common_utils_lib.IoScheduler.Tasks.{create_reader_task, schedule_task, unschedule_task}
use common_utils_lib.Sockets.{up_to, Sockets, call, is_invalid}
use common_utils_lib.TcpSocks.{tcp_create_client_socket, tcp_receive}
use common_utils_lib.TcpSocks.Pending
use common_utils_lib.TcpSocks.Pending.{on_sockets, on_scheduler, tcp_connect_timeout_ud}

-- `struct _tcp_client`, less the links, which the library does not use, and the address as text. A
-- callback is the address of its function.
pub record Client : Type 0 where
  pub fd : ℤ
  pub remote_ip : ℕ
  pub remote_port : ℕ
  pub io_task : Ptr
  pub read_buffer : Ptr
  pub read_buffer_size : ℕ
  pub user_data : Ptr
  pub on_closed : Ptr
  pub on_connected : Ptr
  pub on_server_responded : Ptr

-- TCP_CLIENT_CLOSED_LOCAL and TCP_CLIENT_CLOSED_REMOTE
pub data Reason : Type 0 where
  closed_local : Reason
  closed_remote : Reason

pub data Event : Type 0 where
  closed : (callback client : Ptr) → Reason → Event
  connected : (callback client : Ptr) → Event
  responded : (callback client : Ptr) (response : List ℕ) → Event

pub record World (os : Sockets) : Type 0 where
  pub tcp : Pending.World os
  pub clients : Ptr → Option Client
  pub events : List Event

module _ {os : Sockets} {A : Type 0} where
  abbrev pub with_tcp : World os → Run (Pending.World os) A → Run (World os) A
  with_tcp w (ok a t) = ok a (record w { tcp = t })
  with_tcp w fault = fault
  with_tcp w aborted = aborted
  with_tcp w blocked = blocked
  with_tcp w out_of_fuel = out_of_fuel

  abbrev pub on_tcp : Cmd (Pending.World os) A → Cmd (World os) A
  on_tcp m w = with_tcp w (m w.tcp)

  abbrev pub assert : Bool → Cmd (World os) A → Cmd (World os) A
  assert test body = if test then body else λ _. aborted

module _ (os : Sockets) where
  abbrev pub at_client : Option Client → Cmd (World os) Client
  at_client none w = fault
  at_client (some k) w = ok k w

  abbrev pub store_client : (Ptr → Option Client) → Ptr → Option Client → Ptr → Option Client
  store_client d c k b = if b == c then k else d b

  -- `*client`, and a write to it.
  unfoldable pub client_of : Ptr → Cmd (World os) Client
  client_of client w = at_client (w.clients client) w

  unfoldable pub put_client : Ptr → Client → Cmd (World os) (Unit {0})
  put_client client k w = ok tt (record w { clients = store_client w.clients client (some k) })

  abbrev pub emit : Event → Cmd (World os) (Unit {0})
  emit e w = ok tt (record w { events = w.events ++ e ∷ [] })

  -- `if ( client->on_closed ) client->on_closed ( client, reason );`
  abbrev pub report_closed : Ptr → Client → Reason → Cmd (World os) (Unit {0})
  report_closed client k reason =
      if k.on_closed == null then ok tt else emit (closed k.on_closed client reason)

  -- The task is unscheduled and forgotten, if there is one.
  abbrev pub drop_task : (debug : Bool) → Ptr → Cmd (World os) (Unit {0})
  drop_task debug client = do
    k ← client_of client
    if k.io_task == null then ok tt else (do
      on_tcp (on_scheduler (unschedule_task debug k.io_task))
      put_client client (record k { io_task = null }))

  -- `debug` as for io_sched_unschedule_task.
  unfoldable pub tcp_client_disconnect : (debug : Bool) → Ptr → Cmd (World os) (Unit {0})
  tcp_client_disconnect debug client = if client == null then ok tt else (do
    drop_task debug client
    k ← client_of client
    if is_invalid k.fd then ok tt else (do
      on_tcp (on_sockets (call (os.close k.fd)))
      put_client client (record k { fd = minus_one })
      report_closed client k closed_local))

  unfoldable pub tcp_client_destroy : (debug : Bool) → Ptr → Cmd (World os) (Unit {0})
  tcp_client_destroy debug client = if client == null then ok tt else (do
    tcp_client_disconnect debug client
    λ w. ok tt (record w { clients = store_client w.clients client none }))

  -- `address` and `buffer` are what `malloc` returns; `inet_aton` gives the address, if the string
  -- is one.
  unfoldable pub tcp_client_init :
      (address buffer : Ptr) → Option ℕ → ℕ → ℕ → Ptr → Cmd (World os) Ptr
  tcp_client_init address buffer rem_ip rem_port buffer_size client_userdata =
      if address == null then ok null else if buffer == null then ok null else (do
        put_client address (record {
          fd = minus_one;
          remote_ip = elim rem_ip [ none ↦ 0 | some ip ↦ ip ];
          remote_port = rem_port;
          io_task = null;
          read_buffer = buffer;
          read_buffer_size = if ltb 0 buffer_size then buffer_size else 512;
          user_data = client_userdata;
          on_closed = null;
          on_connected = null;
          on_server_responded = null;
        })
        ok address)

  unfoldable pub tcp_client_stop : (debug : Bool) → Ptr → Cmd (World os) (Unit {0})
  tcp_client_stop debug client = if client == null then ok tt else drop_task debug client

  -- `responded_cbk` is the address of on_tcp_client_server_responded, `connected_cbk` that of
  -- on_tcp_client_connected_to_server, `connect_cbk` that of tcp_io_scheduler_connect_cbk.
  module _ (posix : Pthread) (task_pool_mutex timer_pool_mutex : posix.Mutex)
      (fuel rounds : ℕ) where
    unfoldable pub tcp_client_start : (responded_cbk client scheduler : Ptr) → Cmd (World os) Bool
    tcp_client_start responded_cbk client scheduler = assert (is_nonnull client) (
        assert (is_nonnull scheduler) (do
          k ← client_of client
          assert (k.io_task == null) (do
            task ← on_tcp (
                on_scheduler (
                  create_reader_task posix task_pool_mutex timer_pool_mutex scheduler k.fd minus_one
                    client responded_cbk))
            put_client client (record k { io_task = task })
            on_tcp (on_scheduler (schedule_task fuel rounds task)))))

    -- `address` is what `malloc` returns for the pending connection.
    unfoldable pub tcp_client_connect :
        (address connect_cbk connected_cbk client scheduler : Ptr) → Cmd (World os) Bool
    tcp_client_connect address connect_cbk connected_cbk client scheduler =
        assert (is_nonnull client) (
          assert (is_nonnull scheduler) (do
            k ← client_of client
            fd ←
                (if is_invalid k.fd
                  then on_tcp (on_sockets (tcp_create_client_socket os))
                  else ok k.fd)
            put_client client (record k { fd = fd })
            if is_invalid fd then ok false else (do
              connecting ← on_tcp (
                  tcp_connect_timeout_ud os posix task_pool_mutex timer_pool_mutex connect_cbk fuel
                    rounds address fd k.remote_ip k.remote_port scheduler client connected_cbk
                    (pos 3))
              if connecting then ok true else (do
                on_tcp (on_sockets (call (os.close fd)))
                put_client client (record k { fd = minus_one })
                ok false))))

    unfoldable pub on_tcp_client_connected_to_server :
        (debug : Bool) (responded_cbk scheduler : Ptr)
        → ℤ
        → ℤ
        → (userdata : Ptr) → Cmd (World os) (Unit {0})
    on_tcp_client_connected_to_server debug responded_cbk scheduler fd err client =
        assert (is_nonnull client) (
          if same err (pos 0)
          then (do
            k ← client_of client
            if k.on_connected == null then ok tt else emit (connected k.on_connected client)
            started ← tcp_client_start responded_cbk client scheduler
            if started then ok tt else tcp_client_disconnect debug client)
          else ok tt)

  -- The server has closed its side, or the socket is broken.
  abbrev pub hang_up : Ptr → Cmd (World os) Bool
  hang_up client = do
    k ← client_of client
    put_client client (record k { io_task = null })
    on_tcp (on_sockets (call (os.close k.fd)))
    put_client client (record k { io_task = null; fd = minus_one })
    report_closed client k closed_remote
    ok true

  -- What was read goes to on_server_responded, if there is one.
  abbrev pub respond :
      (finished : Ptr → List ℕ → Bool) (debug : Bool) → Ptr → List ℕ → Cmd (World os) Bool
  respond finished debug client bytes = do
    k ← client_of client
    if k.on_server_responded == null then ok false else (do
      emit (responded k.on_server_responded client bytes)
      if finished client bytes then (do tcp_client_disconnect debug client; ok true) else ok false)

  abbrev pub is_negative : ℤ → Bool
  is_negative (pos n) = false
  is_negative (negsuc n) = true

  -- The callback of the task that tcp_client_start makes: true if the task is done.
  unfoldable pub on_tcp_client_server_responded :
      (finished : Ptr → List ℕ → Bool) (debug : Bool) → Task → Cmd (World os) Bool
  on_tcp_client_server_responded finished debug task =
      if task.user_data == null then ok true else (do
        k ← client_of task.user_data
        if is_invalid k.fd
            then ok true
            else assert (is_nonnull k.read_buffer) (do
              (count, bytes) ←
                  on_tcp (on_sockets (tcp_receive os k.fd k.read_buffer k.read_buffer_size))
              let bytes_read = int_of count
              errno ← (λ w. ok (os.errno w.tcp.sockets) w)
              if is_positive bytes_read
                  then respond finished debug task.user_data (up_to bytes_read bytes)
                  else (if is_negative bytes_read
                        && (same errno (pos os.eagain) || same errno (pos os.eintr))
                      then ok false
                      else hang_up task.user_data)))
