-- ===== src/TcpSocks/Pending.antt =====
-- tcp_socks.c: connecting. The pending connections are linked by their `next`; the callbacks that
-- are called are a list of events. A loop is given `fuel` rounds.
use common_utils_lib.Base.{
  ℕ, zero, suc, ◌+◌, ◌-◌, ◌*◌, Bool, true, false, not, ◌&&◌, ◌||◌, ◌==◌, if◌then◌else◌, Option,
  none, some, List, [], ◌∷◌, ◌++◌,
}
use common_utils_lib.Base.Int.{ℤ, pos, negsuc}
use common_utils_lib.Machine.{
  Ptr, null, Run, ok, fault, aborted, blocked, out_of_fuel, Cmd, ◌>>=◌, ◌>>◌,
}
use common_utils_lib.Machine.Mutex.{Pthread}
use common_utils_lib.Chain.{Field, put}
use common_utils_lib.Slist.{load, store}
use common_utils_lib.Stack.Free.{give_back}
use common_utils_lib.IoScheduler.{same, minus_one, one_second, Task}
use common_utils_lib.IoScheduler
use common_utils_lib.IoScheduler.Tasks.{create_writer_task, schedule_task}
use common_utils_lib.Sockets.{Sockets, call, is_invalid}
use common_utils_lib.TcpSocks.{set_flag, clear_flag}

-- `struct _pending_connection`, less `next`. A callback is the address of its function.
pub record Pending : Type 0 where
  pub sockfd : ℤ
  pub status : ℤ
  pub on_connect : Ptr
  pub on_connect_ud : Ptr
  pub user_data : Ptr
  pub remote_addr : ℕ × ℕ

-- A callback that is called: a `tcp_callback_t`, or a `tcp_callback_ud_t`.
pub data Called : Type 0 where
  plain : (callback : Ptr) (sockfd errcode : ℤ) → Called
  with_data : (callback scheduler : Ptr) (sockfd errcode : ℤ) (userdata : Ptr) → Called

-- `pending` is the variable `pending_connections`.
pub record World (os : Sockets) : Type 0 where
  pub sockets : os.State
  pub pending : Ptr
  pub next : Field
  pub conns : Ptr → Pending
  pub events : List Called
  pub scheduler : IoScheduler.World

module _ {os : Sockets} {A : Type 0} where
  abbrev pub with_sockets : World os → Run os.State A → Run (World os) A
  with_sockets w (ok a s) = ok a (record w { sockets = s })
  with_sockets w fault = fault
  with_sockets w aborted = aborted
  with_sockets w blocked = blocked
  with_sockets w out_of_fuel = out_of_fuel

  abbrev pub on_sockets : Cmd os.State A → Cmd (World os) A
  on_sockets m w = with_sockets w (m w.sockets)

  abbrev pub with_links : World os → Run Field A → Run (World os) A
  with_links w (ok a f) = ok a (record w { next = f })
  with_links w fault = fault
  with_links w aborted = aborted
  with_links w blocked = blocked
  with_links w out_of_fuel = out_of_fuel

  abbrev pub on_links : Cmd Field A → Cmd (World os) A
  on_links m w = with_links w (m w.next)

  abbrev pub with_scheduler : World os → Run IoScheduler.World A → Run (World os) A
  with_scheduler w (ok a s) = ok a (record w { scheduler = s })
  with_scheduler w fault = fault
  with_scheduler w aborted = aborted
  with_scheduler w blocked = blocked
  with_scheduler w out_of_fuel = out_of_fuel

  abbrev pub on_scheduler : Cmd IoScheduler.World A → Cmd (World os) A
  on_scheduler m w = with_scheduler w (m w.scheduler)

-- The callback that a caller of the connect functions gives; the address is `null` if it gives none.
pub data Callback : Type 0 where
  without_userdata : (callback : Ptr) → Callback
  with_userdata : (userdata callback : Ptr) → Callback

abbrev pub address_of : Callback → Ptr
address_of (without_userdata callback) = callback
address_of (with_userdata userdata callback) = callback

abbrev pub calling : Callback → Ptr → ℤ → ℤ → Called
calling (without_userdata callback) scheduler sockfd errcode = plain callback sockfd errcode
calling (with_userdata userdata callback) scheduler sockfd errcode =
    with_data callback scheduler sockfd errcode userdata

-- The members of a pending connection that hold the callback.
abbrev pub set_user_data : Callback → Pending → Pending
set_user_data (without_userdata callback) k = k
set_user_data (with_userdata userdata callback) k = record k { user_data = userdata }

abbrev pub set_callback : Callback → Pending → Pending
set_callback (without_userdata callback) k = record k { on_connect = callback }
set_callback (with_userdata userdata callback) k = record k { on_connect_ud = callback }

-- `(int64_t) IO_SCHEDULER_TIME_ONE_SECOND * (int64_t) timeout_secs`
abbrev pub in_nanoseconds : ℤ → ℤ
in_nanoseconds (pos n) = pos (one_second * n)
in_nanoseconds (negsuc n) = negsuc (one_second * (n + 1) - 1)

module _ (os : Sockets) where
  abbrev pub emit : Called → Cmd (World os) (Unit {0})
  emit e w = ok tt (record w { events = w.events ++ e ∷ [] })

  abbrev pub store_conn : (Ptr → Pending) → Ptr → Pending → Ptr → Pending
  store_conn d a k b = if b == a then k else d b

  -- `*pconn`, and a write to it.
  unfoldable pub conn_of : Ptr → Cmd (World os) Pending
  conn_of pconn = do _ ← on_links (load pconn); λ w. ok (w.conns pconn) w

  unfoldable pub put_conn : Ptr → Pending → Cmd (World os) (Unit {0})
  put_conn pconn k = do
    _ ← on_links (load pconn)
    λ w. ok tt (record w { conns = store_conn w.conns pconn k })

  -- `address` is what `malloc` returns.
  unfoldable pub tcp_pending_connection_new : (address : Ptr) → ℤ → ℕ → ℕ → Cmd (World os) Ptr
  tcp_pending_connection_new address sockfd ip_addr port w =
      if address == null
      then ok null w
      else ok address (record w {
        next = put w.next address null;
        conns = store_conn w.conns address (record {
          sockfd = sockfd;
          status = pos os.einprogress;
          on_connect = null;
          on_connect_ud = null;
          user_data = null;
          remote_addr = (ip_addr, os.htons port);
        });
      })

  unfoldable pub tcp_pending_connection_free : Ptr → Cmd (World os) (Unit {0})
  tcp_pending_connection_free pconn w = ok tt (record w { next = give_back w.next pconn })

  module _ (posix : Pthread) (task_pool_mutex timer_pool_mutex : posix.Mutex) (connect_cbk : Ptr)
      (fuel rounds : ℕ) where
    -- The connection is in progress: it becomes a pending one, and a task watches it. `connect_cbk`
    -- is the address of tcp_io_scheduler_connect_cbk.
    unfoldable pub watch : Ptr → ℤ → Ptr → Callback → ℤ → Cmd (World os) Bool
    watch pconn sockfd scheduler callback timeout_secs = do
      k ← conn_of pconn
      put_conn pconn (set_callback callback k)
      first ← (λ w. ok w.pending w)
      on_links (store pconn first)
      (λ w. ok tt (record w { pending = pconn }))
      task ← on_scheduler (
          create_writer_task posix task_pool_mutex timer_pool_mutex scheduler sockfd
            (in_nanoseconds timeout_secs) pconn connect_cbk)
      on_scheduler (schedule_task fuel rounds task)
      ok true

    -- What follows the call of connect() that returned `rc`.
    unfoldable pub conclude : Ptr → ℤ → Ptr → Callback → ℤ → ℤ → Cmd (World os) Bool
    conclude pconn sockfd scheduler callback timeout_secs rc = do
      errno ← (λ w. ok (os.errno w.sockets) w)
      if same rc (pos 0)
          then (do
            tcp_pending_connection_free pconn
            if address_of callback == null
                then ok tt
                else emit (calling callback scheduler sockfd (pos 0))
            ok true)
          else (if same rc minus_one && not (same errno (pos os.einprogress))
              then (do tcp_pending_connection_free pconn; ok false)
              else (if scheduler == null
                  then (do
                    tcp_pending_connection_free pconn
                    on_sockets (call (os.close sockfd))
                    ok false)
                  else watch pconn sockfd scheduler callback timeout_secs))

    -- tcp_connect_timeout and tcp_connect_timeout_ud, which differ in their callbacks.
    unfoldable pub connect_timeout :
        (address : Ptr) → ℤ → ℕ → ℕ → Ptr → Callback → (timeout_secs : ℤ) → Cmd (World os) Bool
    connect_timeout address sockfd remote_ip remote_port scheduler callback timeout_secs =
        if is_invalid sockfd then ok false else (do
          pconn ← tcp_pending_connection_new address sockfd remote_ip remote_port
          if pconn == null then ok false else (do
            k ← conn_of pconn
            put_conn pconn (set_user_data callback k)
            flags ← on_sockets (call (os.getfl sockfd))
            on_sockets (call (os.setfl sockfd (set_flag os.nonblock_bit flags)))
            k' ← conn_of pconn
            rc ← on_sockets (call (os.connect sockfd k'.remote_addr))
            conclude pconn sockfd scheduler callback timeout_secs rc))

    unfoldable pub tcp_connect_timeout :
        (address : Ptr) → ℤ → ℕ → ℕ → Ptr → Ptr → (timeout_secs : ℤ) → Cmd (World os) Bool
    tcp_connect_timeout address sockfd remote_ip remote_port scheduler on_conn_cbk timeout_secs =
        connect_timeout address sockfd remote_ip remote_port scheduler
          (without_userdata on_conn_cbk) timeout_secs

    unfoldable pub tcp_connect_timeout_ud :
        (address : Ptr) → ℤ → ℕ → ℕ → Ptr → Ptr → Ptr → (timeout_secs : ℤ) → Cmd (World os) Bool
    tcp_connect_timeout_ud address sockfd remote_ip remote_port scheduler userdata on_conn_cbk
          timeout_secs =
        connect_timeout address sockfd remote_ip remote_port scheduler
          (with_userdata userdata on_conn_cbk) timeout_secs

    unfoldable pub tcp_connect : (address : Ptr) → ℤ → ℕ → ℕ → Ptr → Ptr → Cmd (World os) Bool
    tcp_connect address sockfd remote_ip remote_port scheduler on_conn_cbk =
        tcp_connect_timeout address sockfd remote_ip remote_port scheduler on_conn_cbk (pos 2)

    -- `inet_aton` gives the address, if the string is one.
    unfoldable pub tcp_connect_s :
        (address : Ptr) → ℤ → Option ℕ → ℕ → Ptr → Ptr → Cmd (World os) Bool
    tcp_connect_s address sockfd none remote_port scheduler on_conn_cbk = ok false
    tcp_connect_s address sockfd (some ip) remote_port scheduler on_conn_cbk =
        tcp_connect_timeout address sockfd ip remote_port scheduler on_conn_cbk (pos 2)

  -- The while loop that looks for the connection `pconn` whose `next` is the one that is done.
  unfoldable pub remove_loop : ℕ → (done pconn : Ptr) → Cmd (World os) Ptr
  remove_loop zero done pconn = λ _. out_of_fuel
  remove_loop (suc fuel) done pconn = if pconn == null then ok null else (do
    q ← on_links (load pconn)
    if q == done
        then (do after ← on_links (load q); on_links (store pconn after); ok done)
        else (λ w. remove_loop fuel done q w))

  -- The connection that is done, out of the list if it was in it.
  unfoldable pub remove_pending : ℕ → (done : Ptr) → Cmd (World os) Ptr
  remove_pending fuel done = do
    pconn ← (λ w. ok w.pending w)
    found ←
        (if pconn == done
          then (do q ← on_links (load pconn); (λ w. ok tt (record w { pending = q })); ok pconn)
          else (λ w. remove_loop fuel done pconn w))
    ok (if found == null then done else found)

  -- A call of the callback that a pending connection has; a call of `NULL` is a fault.
  unfoldable pub report : Ptr → Ptr → ℤ → ℤ → Cmd (World os) (Unit {0})
  report pconn owner sockfd errcode = do
    k ← conn_of pconn
    if k.on_connect_ud == null
        then (if k.on_connect == null
            then (λ _. fault)
            else emit (plain k.on_connect sockfd errcode))
        else emit (with_data k.on_connect_ud owner sockfd errcode k.user_data)

  abbrev pub give_up : Ptr → Task → ℤ → Cmd (World os) Bool
  give_up pconn task errcode = do
    report pconn task.owner task.fd errcode
    on_sockets (call (os.close task.fd))
    ok true

  -- What follows once the connection is out of the list.
  unfoldable pub decide : Ptr → Task → (errcode : ℤ) → Cmd (World os) Bool
  decide pconn task errcode =
      if same errcode (pos os.etime) then give_up pconn task (pos 1) else (do
        (rc, sockerr) ← on_sockets (call (os.so_error task.fd))
        errno ← (λ w. ok (os.errno w.sockets) w)
        if not (same rc (pos 0)) || not (same sockerr (pos 0))
            then give_up pconn task (if same rc (pos 0) then sockerr else errno)
            else (do
              flags ← on_sockets (call (os.getfl task.fd))
              on_sockets (call (os.setfl task.fd (clear_flag os.nonblock_bit flags)))
              report pconn task.owner task.fd (pos 0)
              ok true))

  -- The callback of the task that watches a pending connection.
  unfoldable pub tcp_io_scheduler_connect_cbk : ℕ → Task → (errcode : ℤ) → Cmd (World os) Bool
  tcp_io_scheduler_connect_cbk fuel task errcode = do
    pconn ← remove_pending fuel task.user_data
    decide pconn task errcode
