-- ===== src/TcpClient/Disconnect.antt =====
-- tcp_client_disconnect.
use common_utils_lib.Base.{
  ◌≡◌, refl, ap, sym, ◌∙◌, ◌≢◌, ◌⊎◌, inl, inr, Bool, true, false, some, List, [], ◌∷◌, ◌++◌, arith,
  ◌==◌, ==-ne, ==_refl, if◌then◌else◌, Bool-cases,
}
use mathlib.Core.List.{append-nil}
use common_utils_lib.Machine.{Ptr, null, Run, ok, fault, aborted, blocked, out_of_fuel}
use common_utils_lib.Machine.Returns.{Returns, returns, chain, weaken}
use common_utils_lib.IoScheduler
use common_utils_lib.IoScheduler.{same, minus_one}
use common_utils_lib.IoScheduler.Same.{same_eq}
use common_utils_lib.IoScheduler.Tasks.{unschedule_task}
use common_utils_lib.IoScheduler.Unschedule.{unschedule_task-Unscheduled}
use common_utils_lib.Sockets.{Sockets, is_invalid}
use common_utils_lib.TcpSocks.Pending
use common_utils_lib.TcpClient.{
  World, Client, Event, closed, closed_local, client_of, put_client, drop_task, with_tcp,
  tcp_client_disconnect,
}

-- What is called when the socket of the client is closed on this side.
abbrev pub told : Ptr → Client → List Event
told client k = if k.on_closed == null then [] else closed k.on_closed client closed_local ∷ []

-- The client without a socket and without a task, as the call leaves it.
abbrev pub offline : Client → Client
offline k = record k { fd = minus_one; io_task = null }

module _ (os : Sockets) where
  pub client_of-ok :
      (w : World os) (client : Ptr) (k : Client)
      → w.clients client ≡ some k
      → client_of os client w ≡ ok k w
  unfolding client_of
  client_of-ok w client k e = rw e

  -- The task of the client is one of the scheduler's, if it has one.
  abbrev pub HasTask : World os → Client → Type 0
  HasTask w k = (k.io_task ≡ null) ⊎ ((q : Ptr) × (w.tcp.scheduler.next k.io_task ≡ some q))

  module _ {A : Type 0} {P : A → IoScheduler.World → Type 0} where
    on_scheduler-Returns :
        (w : World os) (r : Run IoScheduler.World A)
        → Returns P r
        → Returns
            (λ a g.
              (s : IoScheduler.World) × P a s
              × (g ≡ record w { tcp = record w.tcp { scheduler = s } }))
            (with_tcp w (Pending.with_scheduler w.tcp r))
    on_scheduler-Returns w (ok a s) (returns p) = returns (s, p, refl)
    on_scheduler-Returns w fault p = elim p [ ]
    on_scheduler-Returns w aborted p = elim p [ ]
    on_scheduler-Returns w blocked p = elim p [ ]
    on_scheduler-Returns w out_of_fuel p = elim p [ ]

  -- The client without a task; the sockets and what has been called are as before.
  pub record Dropped (w g : World os) (client : Ptr) (k : Client) : Type 0 where
    pub cleared : g.clients client ≡ some (record k { io_task = null })
    pub sockets : g.tcp.sockets ≡ w.tcp.sockets
    pub events : g.events ≡ w.events
    pub marked :
        k.io_task ≢ null
        → same (w.tcp.scheduler.task k.io_task).fd minus_one ≡ false
        → (g.tcp.scheduler.task k.io_task).opts.remove ≡ true
    pub others : (a : Ptr) → a ≢ client → g.clients a ≡ w.clients a

  pub drop_task-Dropped :
      (debug : Bool) (w : World os) (client : Ptr) (k : Client)
      → w.clients client ≡ some k
      → HasTask w k
      → Returns (λ _ g. Dropped w g client k) (drop_task os debug client w)
  unfolding put_client
  drop_task-Dropped debug w client k e has = elim (Bool-cases (k.io_task == null)) [
    | inl idle ↦
        let z : k.io_task ≡ null = ground arith in
        rw (client_of-ok w client k e, idle)
          (returns (record {
            cleared = e ∙ ap (λ t. some (record k { io_task = t })) z;
            sockets = refl;
            events = refl;
            marked = λ ne. absurd (ne z);
            others = λ a ne. refl;
          }))
    | inr busy ↦ elim has [
      | inl z ↦ absurd (ground (arith, z, busy))
      | inr (q, there) ↦
          let ne : k.io_task ≢ null = ground arith in
          rw (client_of-ok w client k e, busy)
            (chain
              (on_scheduler-Returns w (unschedule_task debug k.io_task w.tcp.scheduler)
                (unschedule_task-Unscheduled debug w.tcp.scheduler k.io_task q ne there))
              λ _ g (s, gone, g_is). rw g_is (
                returns (record {
                  cleared = rw (==_refl client) refl;
                  sockets = refl;
                  events = refl;
                  marked = λ _ valid. gone.marked valid;
                  others = λ a other. rw (==-ne a client other) refl;
                })))
    ]
  ]

  -- The socket is closed and on_closed called if there was a socket, and the task, if there was
  -- one, is marked for removal.
  pub record Disconnected (w g : World os) (client : Ptr) (k : Client) : Type 0 where
    pub cleared : g.clients client ≡ some (offline k)
    pub sockets :
        g.tcp.sockets ≡ (if is_invalid k.fd then w.tcp.sockets else (os.close k.fd w.tcp.sockets).1)
    pub events : g.events ≡ w.events ++ (if is_invalid k.fd then [] else told client k)
    pub marked :
        k.io_task ≢ null
        → same (w.tcp.scheduler.task k.io_task).fd minus_one ≡ false
        → (g.tcp.scheduler.task k.io_task).opts.remove ≡ true
    pub others : (a : Ptr) → a ≢ client → g.clients a ≡ w.clients a

  pub disconnect-Disconnected :
      (debug : Bool) (w : World os) (client : Ptr) (k : Client)
      → client ≢ null
      → w.clients client ≡ some k
      → HasTask w k
      → Returns (λ _ g. Disconnected w g client k) (tcp_client_disconnect os debug client w)
  unfolding tcp_client_disconnect put_client
  disconnect-Disconnected debug w client k ne e has = rw (==-ne client null ne) (
      chain (drop_task-Dropped debug w client k e has) λ _ g d.
        rw (client_of-ok g client (record k { io_task = null }) d.cleared)
          (elim (Bool-cases (is_invalid k.fd)) [
            | inl none_open ↦ rw none_open (
                returns (record {
                  cleared =
                      d.cleared
                      ∙ ap (λ f. some (record k { fd = f; io_task = null }))
                          (same_eq k.fd minus_one none_open);
                  sockets = rw none_open d.sockets;
                  events = rw none_open (d.events ∙ sym (append-nil w.events));
                  marked = d.marked;
                  others = d.others;
                }))
            | inr valid ↦ elim (Bool-cases (k.on_closed == null)) [
              | inl quiet ↦
                  rw (valid, quiet)
                    (returns (record {
                      cleared = rw (==_refl client) refl;
                      sockets = rw valid (ap (λ s. (os.close k.fd s).1) d.sockets);
                      events = rw (valid, quiet) (d.events ∙ sym (append-nil w.events));
                      marked = d.marked;
                      others = λ a other. rw (==-ne a client other) (d.others a other);
                    }))
              | inr loud ↦
                  rw (valid, loud)
                    (returns (record {
                      cleared = rw (==_refl client) refl;
                      sockets = rw valid (ap (λ s. (os.close k.fd s).1) d.sockets);
                      events =
                          rw (valid, loud)
                            (ap (λ t. t ++ closed k.on_closed client closed_local ∷ []) d.events);
                      marked = d.marked;
                      others = λ a other. rw (==-ne a client other) (d.others a other);
                    }))
            ]
          ]))

  offline-disconnect :
      (debug : Bool) (g : World os) (client : Ptr) (k : Client)
      → client ≢ null
      → g.clients client ≡ some (offline k)
      → tcp_client_disconnect os debug client g ≡ ok tt g
  unfolding tcp_client_disconnect
  offline-disconnect debug g client k ne e =
      rw
        (
          ==-ne client null ne,
          client_of-ok g client (offline k) e,
          client_of-ok g client (offline k) e,
        )
        refl

  -- For a client whose task, if it has one, is one of the scheduler's, `tcp_client_disconnect`
  -- leaves it with neither socket nor task and no other client changed: a socket that it had is
  -- closed and `on_closed` called, if it is set; a task that it had is marked for removal, unless
  -- its descriptor is −1. A second call changes nothing and so closes no descriptor twice.
  pub tcp_client_disconnect-Disconnected :
      (debug : Bool) (w : World os) (client : Ptr) (k : Client)
      → client ≢ null
      → w.clients client ≡ some k
      → HasTask w k
      → Returns
          (λ _ g. Disconnected w g client k × (tcp_client_disconnect os debug client g ≡ ok tt g))
          (tcp_client_disconnect os debug client w)
  tcp_client_disconnect-Disconnected debug w client k ne e has =
      weaken (disconnect-Disconnected debug w client k ne e has)
        λ _ g d. (d, offline-disconnect debug g client k ne d.cleared)
