-- ===== src/TcpSocks/Attempt.antt =====
-- tcp_connect_timeout and tcp_connect_timeout_ud: an attempt to connect that is over at once.
use common_utils_lib.Base.{
  ℕ, ◌≡◌, refl, sym, ◌≢◌, Bool, true, false, not, ◌&&◌, none, some, List, [], ◌∷◌, ◌++◌, arith,
  ◌==◌, ==-ne, ==_refl, if◌then◌else◌, Bool-cases, inl, inr,
}
use mathlib.Core.List.{append-nil}
use common_utils_lib.Base.Int.{ℤ, pos}
use common_utils_lib.Machine.{Ptr, null, ok}
use common_utils_lib.Machine.Mutex.{Pthread}
use common_utils_lib.Machine.Returns.{Returns, returns}
use common_utils_lib.Chain.{put, put_self}
use common_utils_lib.Stack.Free.{give_back}
use common_utils_lib.Slist.Shape.{load-ok}
use common_utils_lib.IoScheduler.{same, minus_one}
use common_utils_lib.Sockets.{Sockets, is_invalid}
use common_utils_lib.TcpSocks.{set_flag}
use common_utils_lib.TcpSocks.Pending.{
  World, Pending, Called, Callback, without_userdata, with_userdata, address_of, calling,
  set_user_data, put_conn, store_conn, tcp_pending_connection_new, tcp_pending_connection_free,
  conclude, connect_timeout,
}
use common_utils_lib.TcpSocks.Removal.{conn_of-ok}

module _ (os : Sockets) where
  pub put_conn-ok :
      (w : World os) (p q : Ptr) (k : Pending)
      → p ≢ null
      → w.next p ≡ some q
      → put_conn os p k w ≡ ok tt (record w { conns = store_conn os w.conns p k })
  unfolding put_conn
  put_conn-ok w p q k ne e = rw (load-ok w.next p q ne e)

  -- A pending connection as tcp_pending_connection_new makes it.
  abbrev pub fresh : ℤ → ℕ × ℕ → Pending
  fresh sockfd addr = record {
    sockfd = sockfd;
    status = pos os.einprogress;
    on_connect = null;
    on_connect_ud = null;
    user_data = null;
    remote_addr = addr;
  }

  -- What connect() returns, on the socket made non-blocking, and the state it leaves.
  abbrev pub tried : ℤ → ℕ × ℕ → os.State → ℤ × os.State
  tried sockfd addr s =
      let (flags, s') = os.getfl sockfd s in
      os.connect sockfd addr (os.setfl sockfd (set_flag os.nonblock_bit flags) s').1

  -- The store behind the call of connect().
  abbrev pub begun : World os → Ptr → ℤ → ℕ × ℕ → Callback → World os
  begun w address sockfd addr callback = record w {
    sockets = (tried sockfd addr w.sockets).1;
    next = put w.next address null;
    conns =
        store_conn os (store_conn os w.conns address (fresh sockfd addr)) address
          (set_user_data callback (fresh sockfd addr));
  }

  -- How an attempt turns out, from what connect() returned and whether there is a scheduler.
  pub data Verdict : Type 0 where
    connected : Verdict
    refused : Verdict
    unwatched : Verdict
    in_progress : Verdict

  abbrev pub verdict : ℤ × os.State → Ptr → Verdict
  verdict r scheduler =
      if same r.0 (pos 0)
      then connected
      else if same r.0 minus_one && not (same (os.errno r.1) (pos os.einprogress))
      then refused
      else if scheduler == null
      then unwatched
      else in_progress

  abbrev pub is_over : Verdict → Bool
  is_over connected = true
  is_over refused = true
  is_over unwatched = true
  is_over in_progress = false

  abbrev pub is_connected : Verdict → Bool
  is_connected connected = true
  is_connected refused = false
  is_connected unwatched = false
  is_connected in_progress = true

  -- The sockets as the attempt leaves them, and the callback that it calls.
  abbrev pub left : Verdict → ℤ → os.State → os.State
  left unwatched sockfd s = (os.close sockfd s).1
  left v sockfd s = s

  abbrev pub answered : Verdict → Callback → Ptr → ℤ → List Called
  answered connected callback scheduler sockfd =
      if address_of callback == null then [] else calling callback scheduler sockfd (pos 0) ∷ []
  answered v callback scheduler sockfd = []

  -- The connection that was allocated is freed again; the pending ones and the scheduler stay.
  pub record Over (w g : World os) (address : Ptr) (sockets : os.State) (events : List Called)
      : Type 0 where
    pub pending : g.pending ≡ w.pending
    pub freed : g.next address ≡ none
    pub others : (a : Ptr) → a ≢ address → g.next a ≡ w.next a
    pub told : g.events ≡ w.events ++ events
    pub state : g.sockets ≡ sockets
    pub scheduler : g.scheduler ≡ w.scheduler

  address-kept :
      (callback : Callback) (k : Pending) → (set_user_data callback k).remote_addr ≡ k.remote_addr
  address-kept (without_userdata c) k = refl
  address-kept (with_userdata u c) k = refl

  freed-Over :
      (w : World os) (address : Ptr) (s : os.State) (conns : Ptr → Pending) (es all : List Called)
      → all ≡ w.events ++ es
      → Over w
          (record w {
            sockets = s;
            next = give_back (put w.next address null) address;
            conns = conns;
            events = all;
          })
          address
          s
          es
  freed-Over w address s conns es all e = record {
    pending = refl;
    freed = rw (==_refl address) refl;
    others = λ a ne. rw (==-ne a address ne) refl;
    told = e;
    state = refl;
    scheduler = refl;
  }

  module _ (posix : Pthread) (task_pool_mutex timer_pool_mutex : posix.Mutex) (connect_cbk : Ptr)
      (fuel rounds : ℕ) (w : World os) (address : Ptr) (sockfd : ℤ) (ip port : ℕ) (scheduler : Ptr)
      (timeout_secs : ℤ) (ne : address ≢ null) (valid : is_invalid sockfd ≡ false) where
    -- Whatever a pending connection holds, it is freed when the attempt is over.
    conclude-Over :
        (callback : Callback) (r : ℤ × os.State) (conns : Ptr → Pending)
        → is_over (verdict r scheduler) ≡ true
        → Returns
            (λ b g.
              (b ≡ is_connected (verdict r scheduler))
              × Over w g address
                  (left (verdict r scheduler) sockfd r.1)
                  (answered (verdict r scheduler) callback scheduler sockfd))
            (conclude os posix task_pool_mutex timer_pool_mutex connect_cbk fuel rounds address
              sockfd scheduler callback timeout_secs r.0
              (record w { sockets = r.1; next = put w.next address null; conns = conns }))
    unfolding conclude tcp_pending_connection_free
    conclude-Over callback (rc, s) conns over = elim (Bool-cases (same rc (pos 0))) [
      | inl now ↦ elim (Bool-cases (address_of callback == null)) [
        | inl quiet ↦
            rw (now, quiet)
              (returns
                (refl, (freed-Over w address s conns [] w.events (sym (append-nil w.events)))))
        | inr loud ↦ rw (now, loud) (returns (refl, (freed-Over w address s conns _ _ refl)))
      ]
      | inr later ↦
          elim (Bool-cases (same rc minus_one && not (same (os.errno s) (pos os.einprogress)))) [
            | inl no_way ↦
                rw (later, no_way)
                  (returns
                    (refl, (freed-Over w address s conns [] w.events (sym (append-nil w.events)))))
            | inr waiting ↦ elim (Bool-cases (scheduler == null)) [
              | inl nobody ↦
                  rw (later, waiting, nobody)
                    (returns (
                      refl,
                      (freed-Over w address (os.close sockfd s).1 conns [] w.events
                          (sym (append-nil w.events))),
                    ))
              | inr somebody ↦
                  let not_over : is_over (verdict (rc, s) scheduler) ≡ false =
                    rw (later, waiting, somebody) refl in
                  absurd (ground (arith, over, not_over))
            ]
          ]
    ]

    pub begun-ok :
        (callback : Callback)
        → connect_timeout os posix task_pool_mutex timer_pool_mutex connect_cbk fuel rounds address
            sockfd ip port scheduler callback timeout_secs w
          ≡ conclude os posix task_pool_mutex timer_pool_mutex connect_cbk fuel rounds address
              sockfd scheduler callback timeout_secs
              (tried sockfd (ip, os.htons port) w.sockets).0
              (begun w address sockfd (ip, os.htons port) callback)
    unfolding connect_timeout tcp_pending_connection_new
    begun-ok callback =
        let addr : ℕ × ℕ = (ip, os.htons port) in
        let k = fresh sockfd addr in
        let k' = set_user_data callback k in
        let there = put_self w.next address null in
        let w0 : World os = record w {
          next = put w.next address null;
          conns = store_conn os w.conns address k;
        } in
        let w1 : World os = record w0 { conns = store_conn os w0.conns address k' } in
        let (flags, s') = os.getfl sockfd w.sockets in
        let w2 : World os = record w1 {
          sockets = (os.setfl sockfd (set_flag os.nonblock_bit flags) s').1;
        } in
        rw
          (
            valid,
            ==-ne address null ne,
            ==-ne address null ne,
            conn_of-ok os w0 address null ne there,
            ==_refl address,
            put_conn-ok w0 address null k' ne there,
            conn_of-ok os w2 address null ne there,
            ==_refl address,
            address-kept callback k,
          )
          refl

    -- With a pending connection allocated and a socket, an attempt that connect() decides at once,
    -- or that no scheduler can wait for, is over when the call returns: it returns whether the
    -- socket is connected; the pending connection is freed, the others and the scheduler are as
    -- they were; the callback, if there is one, is called if the socket is connected, and the
    -- socket is closed only if there is no scheduler to wait with.
    pub connect_timeout-Over :
        (callback : Callback)
        → is_over (verdict (tried sockfd (ip, os.htons port) w.sockets) scheduler) ≡ true
        → Returns
            (λ b g.
              let v = verdict (tried sockfd (ip, os.htons port) w.sockets) scheduler in
              (b ≡ is_connected v)
              × Over w g address
                  (left v sockfd (tried sockfd (ip, os.htons port) w.sockets).1)
                  (answered v callback scheduler sockfd))
            (connect_timeout os posix task_pool_mutex timer_pool_mutex connect_cbk fuel rounds
              address sockfd ip port scheduler callback timeout_secs w)
    connect_timeout-Over callback over =
        rw (begun-ok callback)
          (conclude-Over callback (tried sockfd (ip, os.htons port) w.sockets) _ over)
