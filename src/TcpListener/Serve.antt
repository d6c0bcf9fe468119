-- ===== src/TcpListener/Serve.antt =====
-- tcp_service.c: making and starting a listener, taking clients in and serving them.
use common_utils_lib.Base.{ℕ, Bool, true, false, not, ◌&&◌, ◌||◌, ◌==◌, if◌then◌else◌, none, some}
use common_utils_lib.Base.Int.{ℤ, pos, negsuc}
use common_utils_lib.Machine.{Ptr, null, ok, Cmd, ◌>>=◌, ◌>>◌}
use common_utils_lib.Machine.Mutex.{Pthread}
use common_utils_lib.Chain.{put}
use common_utils_lib.Clist.{set_next, set_prev, is_nonnull}
use common_utils_lib.IoScheduler.{int_of, same, minus_one, is_positive, fd_of_ptr, task_of, Task}
use common_utils_lib.IoScheduler.Tasks.{create_reader_task, schedule_task}
use common_utils_lib.Sockets.{up_to, Sockets, call, is_invalid}
use common_utils_lib.SocketMgr.{get_or_create_tcp}
use common_utils_lib.TcpSocks.{tcp_accept_full, tcp_receive}
use common_utils_lib.TcpSocks.Pending.{on_sockets, on_scheduler}
use common_utils_lib.ChildProcessMgr.{link_last}
use common_utils_lib.TcpListener.{
  World, Callbacks, on_tcp, on_mgr, on_links, assert, remote_of, put_remote, the_listener,
  put_listener, tcp_remote_client_destroy, tcp_listener_drop_client,
}

module _ (os : Sockets) where
  module _ (posix : Pthread) (task_pool_mutex timer_pool_mutex : posix.Mutex) (request_cbk : Ptr)
      (fuel rounds : ℕ) where
    -- `address` is what `malloc` returns, `request_cbk` the address of
    -- on_tcp_listener_client_request. The new task belongs to the scheduler of the listener's task.
    unfoldable pub tcp_remote_client_init : (address : Ptr) → ℤ → ℕ → ℕ → Cmd (World os) Ptr
    tcp_remote_client_init address fd rem_ip rem_port = if address == null then ok null else (do
      (λ w. ok tt (record w {
        links = record {
          next = put w.links.next address null;
          prev = put w.links.prev address null;
        };
      }))
      l ← the_listener os
      owner_task ← on_tcp (on_scheduler (task_of l.io_task))
      task ← on_tcp (
          on_scheduler (
            create_reader_task posix task_pool_mutex timer_pool_mutex owner_task.owner fd minus_one
              address request_cbk))
      put_remote os address (record {
        fd = fd;
        remote_ip = rem_ip;
        remote_port = rem_port;
        io_task = task;
        read_buffer = null;
        read_buffer_size = 0;
        user_data = null;
      })
      ok address)

    unfoldable pub tcp_remote_client_start : Ptr → Cmd (World os) Bool
    tcp_remote_client_start remcli = if remcli == null then ok false else (do
      k ← remote_of os remcli
      on_tcp (on_scheduler (schedule_task fuel rounds k.io_task)))

    -- `address` and `head_address` are what `malloc` returns, `create` and `malloc_ok` are as for
    -- sockmgr_get_or_create_tcp.
    unfoldable pub tcp_listener_init :
        (create : ℕ → ℕ) (malloc_ok : Bool) (address head_address : Ptr)
        → ℕ
        → Ptr
        → Cmd (World os) Ptr
    tcp_listener_init create malloc_ok address head_address port listener_userdata =
        if address == null then ok null else (do
          fd ← on_mgr (get_or_create_tcp create malloc_ok port)
          put_listener os (
              some (record {
                port = port;
                fd = fd_of_ptr fd;
                io_task = null;
                user_data = null;
                clients = null;
              }))
          if is_invalid (fd_of_ptr fd) then (do put_listener os none; ok null) else (do
            clients ← tcp_remote_client_init head_address minus_one 0 0
            assert (is_nonnull clients) (do
              on_links (set_prev clients clients)
              on_links (set_next clients clients)
              put_listener os (
                  some (record {
                    port = port;
                    fd = fd_of_ptr fd;
                    io_task = null;
                    user_data = listener_userdata;
                    clients = clients;
                  }))
              ok address)))

    -- `listener` is the address of the listener, `waiting_cbk` that of
    -- on_tcp_listener_client_waiting. A task that was made is always scheduled, so the code that
    -- frees one is not reached.
    unfoldable pub tcp_listener_start : (listener waiting_cbk scheduler : Ptr) → Cmd (World os) Bool
    tcp_listener_start listener waiting_cbk scheduler =
        if (listener == null) || (scheduler == null) then ok false else (do
          l ← the_listener os
          task ← on_tcp (
              on_scheduler (
                create_reader_task posix task_pool_mutex timer_pool_mutex scheduler l.fd minus_one
                  listener waiting_cbk))
          put_listener os (some (record l { io_task = task }))
          on_tcp (on_scheduler (schedule_task fuel rounds task)))

    -- The client is made and joins the ring, unless on_client_connected has dealt with it.
    abbrev pub welcome :
        (debug : Bool) (address : Ptr) (on_connected : Ptr → Cmd (World os) (Unit {0}))
        → ℤ
        → ℕ
        → ℕ
        → Cmd (World os) (Unit {0})
    welcome debug address on_connected fd remip remport = do
      remcli ← tcp_remote_client_init address fd remip remport
      if remcli == null then (do on_tcp (on_sockets (call (os.close fd))); ok tt) else (do
        on_connected remcli
        k ← remote_of os remcli
        if k.io_task == null then tcp_remote_client_destroy os debug remcli else (do
          l ← the_listener os
          on_links (link_last l.clients remcli)
          started ← tcp_remote_client_start remcli
          if started then ok tt else tcp_listener_drop_client os debug remcli))

    -- The callback of the listener's task: true if the task is done.
    unfoldable pub on_tcp_listener_client_waiting :
        Callbacks os → (debug : Bool) (address : Ptr) → Task → Cmd (World os) Bool
    on_tcp_listener_client_waiting callbacks debug address task =
        if task.user_data == null then ok true else (do
          l ← the_listener os
          if is_invalid l.fd then ok true else (do
            accepts ← elim callbacks.on_client_waiting [ none ↦ ok true | some waiting ↦ waiting ]
            if not accepts then ok false else (do
              (fd, (remip, remport)) ← on_tcp (on_sockets (tcp_accept_full os l.fd))
              if is_invalid fd then ok tt else elim callbacks.on_client_connected [
                | none ↦ (do on_tcp (on_sockets (call (os.close fd))); ok tt)
                | some connected ↦ welcome debug address connected fd remip remport
              ]
              ok false)))

  abbrev pub is_negative : ℤ → Bool
  is_negative (pos n) = false
  is_negative (negsuc n) = true

  abbrev pub say_goodbye : Callbacks os → (debug : Bool) → Ptr → Cmd (World os) Bool
  say_goodbye callbacks debug remcli = do
    elim callbacks.on_client_disconnected [ none ↦ ok tt | some disconnected ↦ disconnected remcli ]
    tcp_listener_drop_client os debug remcli
    ok true

  -- The callback of a remote client's task: true if the task is done.
  unfoldable pub on_tcp_listener_client_request :
      Callbacks os → (debug : Bool) → Task → Cmd (World os) Bool
  on_tcp_listener_client_request callbacks debug task =
      if task.user_data == null then ok true else (do
        k ← remote_of os task.user_data
        if is_invalid k.fd then ok true else (do
          l ← the_listener os
          if is_invalid l.fd
              then ok true
              else assert (is_nonnull k.read_buffer) (do
                (count, bytes) ←
                    on_tcp (on_sockets (tcp_receive os k.fd k.read_buffer k.read_buffer_size))
                let bytes_read = int_of count
                errno ← (λ w. ok (os.errno w.tcp.sockets) w)
                if is_positive bytes_read
                    then (do
                      complete ← elim callbacks.on_client_request [
                        | none ↦ ok false
                        | some request ↦ request task.user_data (up_to bytes_read bytes)
                      ]
                      if complete then say_goodbye callbacks debug task.user_data else ok false)
                    else (if is_negative bytes_read
                          && (same errno (pos os.eagain) || same errno (pos os.eintr))
                        then ok false
                        else say_goodbye callbacks debug task.user_data))))
