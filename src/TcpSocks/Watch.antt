-- ===== src/TcpSocks/Watch.antt =====
-- tcp_connect_timeout and tcp_connect_timeout_ud: a connection that is not made at once.
use mathlib.Core.Path.{subst}
use common_utils_lib.Base.{
  ℕ, ◌*◌, ◌<◌, ◌≡◌, refl, ap, sym, ◌∙◌, ◌≢◌, true, false, not, ◌&&◌, some, List, [], ◌∷◌, ◌++◌,
  arith, ==-ne, ==_refl, Bool-cases, inl, inr, length,
}
use common_utils_lib.Base.Int.{ℤ, pos}
use common_utils_lib.Machine.{Ptr, null, Run, ok, fault, aborted, blocked, out_of_fuel}
use common_utils_lib.Machine.Mutex.{Pthread}
use common_utils_lib.Machine.Returns.{Returns, returns, chain, weaken}
use common_utils_lib.Chain.{put, has, has-ne, first, frame, put_ne, put_self, IsLinked}
use common_utils_lib.Slist.Shape.{IsList, store-ok}
use common_utils_lib.IoScheduler
use common_utils_lib.IoScheduler.{same, minus_one, one_second}
use common_utils_lib.IoScheduler.Writer.{HasRoom, create_writer_task-Ready, schedule_task-Ready}
use common_utils_lib.Sockets.{Sockets, is_invalid}
use common_utils_lib.TcpSocks.Pending.{
  World, Pending, Callback, set_user_data, set_callback, store_conn, watch, conclude,
  connect_timeout, with_scheduler,
}
use common_utils_lib.TcpSocks.Removal.{IsPending, conn_of-ok}
use common_utils_lib.TcpSocks.Attempt.{tried, verdict, is_over, begun, begun-ok, fresh, put_conn-ok}

module _ (os : Sockets) where
  -- The connection is the first of the pending ones, with its callback, and nothing is called yet;
  -- the task that watches it is the last of the scheduler's.
  pub record Waiting (w g : World os) (address scheduler : Ptr) (xs ts : List Ptr) (t : Ptr)
      (sockets : os.State) (k : Pending) : Type 0 where
    pub list : IsPending os g (address ∷ xs)
    pub conn : g.conns address ≡ k
    pub events : g.events ≡ w.events
    pub state : g.sockets ≡ sockets
    pub tasks : IsList g.scheduler.next scheduler (ts ++ t ∷ [])

  module _ {A : Type 0} {P : A → IoScheduler.World → Type 0} where
    on_scheduler-Returns :
        (w : World os) (r : Run IoScheduler.World A)
        → Returns P r
        → Returns
            (λ a g. (s : IoScheduler.World) × P a s × (g ≡ record w { scheduler = s }))
            (with_scheduler w r)
    on_scheduler-Returns w (ok a s) (returns p) = returns (s, p, refl)
    on_scheduler-Returns w fault p = elim p [ ]
    on_scheduler-Returns w aborted p = elim p [ ]
    on_scheduler-Returns w blocked p = elim p [ ]
    on_scheduler-Returns w out_of_fuel p = elim p [ ]

  -- A new connection in front of the list.
  linked_first :
      (w : World os) (address : Ptr) (xs : List Ptr)
      → IsPending os w xs
      → address ≢ null
      → has address xs ≡ false
      → (g : World os) → g.pending ≡ address
      → g.next ≡ put w.next address (first xs null)
      → IsPending os g (address ∷ xs)
  linked_first w address xs is ne out g p n = record {
    start = p;
    linked =
        subst (λ f. IsLinked f (address ∷ xs) null) (sym n)
          (
            ne,
            put_self w.next address (first xs null),
            frame xs null is.linked
                λ a i. put_ne w.next address (first xs null) a (has-ne a address xs i out),
          );
    distinct = (out, is.distinct);
  }

  module _ (posix : Pthread) (mutex held timer_mutex : posix.Mutex)
      (granted : posix.lock mutex ≡ some held) (connect_cbk : Ptr) (fuel rounds : ℕ)
      (scheduler : Ptr) (ns : scheduler ≢ null) (ts : List Ptr) (enough : length ts < fuel)
      (timeout_secs : ℕ) (less : one_second * timeout_secs < rounds * one_second) (cap : ℕ)
      (t : Ptr) (rest : List Ptr) where
    watch-Waiting :
        (w : World os) (address : Ptr) (sockfd : ℤ) (callback : Callback) (xs : List Ptr)
        → HasRoom w.scheduler scheduler ts cap t rest
        → IsPending os w xs
        → address ≢ null
        → w.next address ≡ some null
        → has address xs ≡ false
        → Returns
            (λ b g.
              (b ≡ true)
              × Waiting w g address scheduler xs ts t w.sockets
                  (set_callback callback (w.conns address)))
            (watch os posix mutex timer_mutex connect_cbk fuel rounds address sockfd scheduler
              callback
              (pos timeout_secs)
              w)
    unfolding watch
    watch-Waiting w address sockfd callback xs room is ne cell out =
        let k = set_callback callback (w.conns address) in
        let w1 : World os = record w { conns = store_conn os w.conns address k } in
        let w2 : World os = record w1 { next = put w.next address w.pending; pending = address } in
        rw
          (
            conn_of-ok os w address null ne cell,
            put_conn-ok os w address null k ne cell,
            store-ok w.next address null ne cell w.pending,
          )
          (chain
            (on_scheduler-Returns w2 _ (
              create_writer_task-Ready posix mutex held timer_mutex w.scheduler scheduler ts cap t
                rest sockfd (one_second * timeout_secs) address connect_cbk granted room ns))
            λ p g (s, (same_t, ready), g_is).
              rw (same_t, g_is)
                (chain
                  (on_scheduler-Returns (record w2 { scheduler = s }) _
                    (schedule_task-Ready s scheduler ts (one_second * timeout_secs) t fuel rounds
                      ready enough less))
                  λ b g' (s', (scheduled, list), g'_is). rw g'_is (
                    returns (
                      refl,
                      record {
                        list =
                            linked_first w address xs is ne out _ refl
                              (ap (put w.next address) is.start);
                        conn = rw (==_refl address) refl;
                        events = refl;
                        state = refl;
                        tasks = list;
                      },
                    ))))

    conclude-watch :
        (r : ℤ × os.State) (w : World os) (address : Ptr) (sockfd : ℤ) (callback : Callback)
        → w.sockets ≡ r.1
        → is_over os (verdict os r scheduler) ≡ false
        → conclude os posix mutex timer_mutex connect_cbk fuel rounds address sockfd scheduler
            callback
            (pos timeout_secs)
            r.0
            w
          ≡ watch os posix mutex timer_mutex connect_cbk fuel rounds address sockfd scheduler
              callback
              (pos timeout_secs)
              w
    unfolding conclude
    conclude-watch (rc, s) w address sockfd callback same_s open_end =
        let waits = not (same (os.errno s) (pos os.einprogress)) in
        let errno : os.errno w.sockets ≡ os.errno s = ap os.errno same_s in
        elim (Bool-cases (same rc (pos 0))) [
          | inl now ↦
              let over : is_over os (verdict os (rc, s) scheduler) ≡ true = rw now refl in
              absurd (ground (arith, over, open_end))
          | inr later ↦ elim (Bool-cases (same rc minus_one && waits)) [
            | inl no_way ↦
                let over : is_over os (verdict os (rc, s) scheduler) ≡ true =
                  rw (later, no_way) refl in
                absurd (ground (arith, over, open_end))
            | inr waiting ↦ rw (errno, later, waiting, ==-ne scheduler null ns) refl
          ]
        ]

    -- With a pending connection and a task to be had, the lock of the copied mutex granted, more
    -- rounds than tasks and than seconds of the timeout, an attempt that connect() leaves in
    -- progress returns true: the connection, with its callback, is the first of the pending ones
    -- and the others stay in order, nothing is called or closed, and the new task is the last of
    -- the scheduler's tasks.
    pub connect_timeout-Waiting :
        (w : World os) (address : Ptr) (sockfd : ℤ) (ip port : ℕ) (callback : Callback)
        (xs : List Ptr)
        → HasRoom w.scheduler scheduler ts cap t rest
        → IsPending os w xs
        → address ≢ null
        → has address xs ≡ false
        → is_invalid sockfd ≡ false
        → is_over os (verdict os (tried os sockfd (ip, os.htons port) w.sockets) scheduler) ≡ false
        → Returns
            (λ b g.
              (b ≡ true)
              × Waiting w g address scheduler xs ts t
                  (tried os sockfd (ip, os.htons port) w.sockets).1
                  (set_callback callback
                    (set_user_data callback (fresh os sockfd (ip, os.htons port)))))
            (connect_timeout os posix mutex timer_mutex connect_cbk fuel rounds address sockfd ip
              port scheduler callback
              (pos timeout_secs)
              w)
    connect_timeout-Waiting w address sockfd ip port callback xs room is ne out valid open_end =
        let addr : ℕ × ℕ = (ip, os.htons port) in
        let w1 = begun os w address sockfd addr callback in
        let is1 : IsPending os w1 xs = record {
          start = is.start;
          linked =
              frame xs null is.linked
                λ a i. put_ne w.next address null a (has-ne a address xs i out);
          distinct = is.distinct;
        } in
        let kept : w1.conns address ≡ set_user_data callback (fresh os sockfd addr) =
          rw (==_refl address) refl in
        rw
          (
            begun-ok os posix mutex timer_mutex connect_cbk fuel rounds w address sockfd ip port
                scheduler (pos timeout_secs) ne valid callback,
            conclude-watch (tried os sockfd addr w.sockets) w1 address sockfd callback refl
                open_end,
          )
          (weaken
            (watch-Waiting w1 address sockfd callback xs room is1 ne (put_self w.next address null)
              out)
            λ b g (connecting, waiting). (
              connecting,
              record {
                list = waiting.list;
                conn = waiting.conn ∙ ap (set_callback callback) kept;
                events = waiting.events;
                state = waiting.state;
                tasks = waiting.tasks;
              },
            ))
