-- ===== src/TcpSocks/Connect.antt =====
-- tcp_io_scheduler_connect_cbk: what is done when a pending connection is decided.
use mathlib.Core.Path.{subst}
use common_utils_lib.Base.{
  ℕ, ◌<◌, ◌≡◌, refl, ap, sym, ◌≢◌, Bool, true, false, not, ◌&&◌, some, List, [], ◌∷◌, ◌++◌, arith,
  ◌==◌, if◌then◌else◌, Bool-cases, inl, inr, length,
}
use common_utils_lib.Base.Int.{ℤ, pos}
use common_utils_lib.Machine.{Ptr, null, ok}
use common_utils_lib.Machine.Returns.{Returns, returns, chain}
use common_utils_lib.Chain.{first, IsLinked-at}
use common_utils_lib.IoScheduler.{same, Task}
use common_utils_lib.IoScheduler.Same.{same_eq}
use common_utils_lib.Sockets.{Sockets}
use common_utils_lib.TcpSocks.{clear_flag}
use common_utils_lib.TcpSocks.Pending.{
  World, Pending, Called, plain, with_data, report, decide, tcp_io_scheduler_connect_cbk,
}
use common_utils_lib.TcpSocks.Removal.{IsPending, conn_of-ok, remove_pending-Removed}

module _ (os : Sockets) where
  -- The callback of a pending connection that has one.
  abbrev pub callback_of : Pending → Ptr → ℤ → ℤ → Called
  callback_of k owner sockfd errcode =
      if k.on_connect_ud == null
      then plain k.on_connect sockfd errcode
      else with_data k.on_connect_ud owner sockfd errcode k.user_data

  abbrev pub HasCallback : Pending → Type 0
  HasCallback k = ((k.on_connect_ud == null) && (k.on_connect == null)) ≡ false

  report-ok :
      (w : World os) (pconn owner q : Ptr) (sockfd errcode : ℤ)
      → pconn ≢ null
      → w.next pconn ≡ some q
      → HasCallback (w.conns pconn)
      → report os pconn owner sockfd errcode w
        ≡ ok tt (record w {
          events = w.events ++ callback_of (w.conns pconn) owner sockfd errcode ∷ [];
        })
  unfolding report
  report-ok w pconn owner q sockfd errcode ne e has_one =
      elim (Bool-cases ((w.conns pconn).on_connect_ud == null)) [
        | inl ud ↦
            let plain_one : ((w.conns pconn).on_connect == null) ≡ false =
              ground (arith, has_one) in
            rw (conn_of-ok os w pconn q ne e, ud, plain_one) refl
        | inr ud ↦ rw (conn_of-ok os w pconn q ne e, ud) refl
      ]

  -- How the connection of a descriptor turned out: the code that its callback is given, whether it
  -- failed, and the state of the sockets behind the calls that find it out.
  pub record Outcome (s : os.State) : Type 0 where
    pub code : ℤ
    pub failed : Bool
    pub after : os.State

  abbrev pub outcome : Task → ℤ → (s : os.State) → Outcome s
  outcome task errcode s =
      let (rc, sockerr) = (os.so_error task.fd s).0 in
      let asked = (os.so_error task.fd s).1 in
      if same errcode (pos os.etime)
      then record { code = pos 1; failed = true; after = s }
      else (if not (same rc (pos 0))
          then record { code = os.errno asked; failed = true; after = asked }
          else record { code = sockerr; failed = not (same sockerr (pos 0)); after = asked })

  -- The socket of a connection that failed is closed, that of another one made blocking.
  abbrev pub settled : Task → Bool → os.State → os.State
  settled task true s = (os.close task.fd s).1
  settled task false s =
      let (flags, s') = os.getfl task.fd s in
      (os.setfl task.fd (clear_flag os.nonblock_bit flags) s').1

  -- What tcp_io_scheduler_connect_cbk leaves.
  pub record Decided (w g : World os) (task : Task) (errcode : ℤ) (xs : List Ptr) : Type 0 where
    pub list : IsPending os g xs
    pub events :
        g.events
        ≡ w.events
          ++ callback_of
              (w.conns task.user_data)
              task.owner
              task.fd
              (outcome task errcode w.sockets).code
            ∷ []
    pub sockets :
        g.sockets
        ≡ settled task
            (outcome task errcode w.sockets).failed
            (outcome task errcode w.sockets).after

  decide-ok :
      (w : World os) (pconn q : Ptr) (task : Task) (errcode : ℤ)
      → pconn ≢ null
      → w.next pconn ≡ some q
      → HasCallback (w.conns pconn)
      → decide os pconn task errcode w
        ≡ ok true (record w {
          events =
              w.events
              ++ callback_of
                  (w.conns pconn)
                  task.owner
                  task.fd
                  (outcome task errcode w.sockets).code
                ∷ [];
          sockets =
              settled task
                (outcome task errcode w.sockets).failed
                (outcome task errcode w.sockets).after;
        })
  unfolding decide
  decide-ok w pconn q task errcode ne e has_one = elim (Bool-cases (same errcode (pos os.etime))) [
    | inl late ↦ rw (late, report-ok w pconn task.owner q task.fd (pos 1) ne e has_one)
    | inr in_time ↦
        let rc = (os.so_error task.fd w.sockets).0.0 in
        let sockerr = (os.so_error task.fd w.sockets).0.1 in
        let asked = (os.so_error task.fd w.sockets).1 in
        let w1 : World os = record w { sockets = asked } in
        elim (Bool-cases (same rc (pos 0))) [
          | inr bad ↦
              rw
                (
                  in_time,
                  bad,
                  report-ok w1 pconn task.owner q task.fd (os.errno asked) ne e has_one,
                )
                refl
          | inl good ↦ elim (Bool-cases (same sockerr (pos 0))) [
            | inr bad ↦
                rw
                  (in_time, good, bad, report-ok w1 pconn task.owner q task.fd sockerr ne e has_one)
                  refl
            | inl fine ↦
                let w2 : World os = record w { sockets = settled task false asked } in
                rw
                  (
                    in_time,
                    good,
                    fine,
                    report-ok w2 pconn task.owner q task.fd (pos 0) ne e has_one,
                  )
                  (ap
                    (λ c. ok true (record w2 {
                      events = w.events ++ callback_of (w.conns pconn) task.owner task.fd c ∷ [];
                    }))
                    (sym (same_eq sockerr (pos 0) fine)))
          ]
        ]
  ]

  -- For a pending connection that is in the list and has a callback, with more rounds than
  -- connections in front of it, `tcp_io_scheduler_connect_cbk` is done with its task: the
  -- connection leaves the list and the others stay in order, its callback is called once, with the
  -- code of how the connection turned out, and the socket is closed if it failed and made blocking
  -- if not.
  pub connect_cbk-Decided :
      (fuel : ℕ) (w : World os) (task : Task) (errcode : ℤ) (front back : List Ptr)
      → IsPending os w (front ++ task.user_data ∷ back)
      → HasCallback (w.conns task.user_data)
      → length front < fuel
      → Returns
          (λ complete g. (complete ≡ true) × Decided w g task errcode (front ++ back))
          (tcp_io_scheduler_connect_cbk os fuel task errcode w)
  unfolding tcp_io_scheduler_connect_cbk
  connect_cbk-Decided fuel w task errcode front back is has_one b =
      let there : task.user_data ≢ null =
        (IsLinked-at w.next front task.user_data back null is.linked).0 in
      chain (remove_pending-Removed os fuel w front task.user_data back is b)
        λ p g (same_p, removed).
          let conns : g.conns ≡ w.conns = ap (λ z. z.conns) removed.kept in
          let sockets : g.sockets ≡ w.sockets = ap (λ z. z.sockets) removed.kept in
          rw
            (
              same_p,
              decide-ok g task.user_data (first back null) task errcode there removed.own
                  (subst (λ c. HasCallback (c task.user_data)) (sym conns) has_one),
            )
            (returns (
              refl,
              record {
                list = record {
                  start = removed.list.start;
                  linked = removed.list.linked;
                  distinct = removed.list.distinct;
                };
                events =
                    ap
                      (λ z.
                        z.events
                        ++ callback_of (z.conns task.user_data) task.owner task.fd
                            (outcome task errcode z.sockets).code
                          ∷ [])
                      removed.kept;
                sockets =
                    ap
                      (λ s.
                        settled task (outcome task errcode s).failed (outcome task errcode s).after)
                      sockets;
              },
            ))
