-- ===== src/TcpClient/Respond.antt =====
-- on_tcp_client_server_responded.
use common_utils_lib.Base.{
  ℕ, zero, suc, ◌<◌, ◌≡◌, refl, ◌∙◌, ◌≢◌, sym, inl, inr, ◌⊎◌, Bool, true, false, ◌||◌, some, List,
  [], ◌∷◌, ◌++◌, arith, ◌==◌, ==-ne, ==_refl, Bool-cases, if◌then◌else◌, take,
}
use common_utils_lib.Base.Int.{ℤ, pos, negsuc}
use mathlib.Core.List.{append_assoc, append-nil}
use common_utils_lib.Machine.{Ptr, null}
use common_utils_lib.Machine.Returns.{Returns, returns, chain, weaken}
use common_utils_lib.IoScheduler.{same, is_positive, int_of, Task}
use common_utils_lib.Sockets.{Sockets, is_invalid}
use common_utils_lib.TcpSocks.{tcp_receive}
use common_utils_lib.TcpClient.{
  World, Client, Event, Reason, closed, closed_local, closed_remote, responded, put_client, hang_up,
  respond, on_tcp_client_server_responded,
}
use common_utils_lib.TcpClient.Disconnect.{client_of-ok, HasTask, disconnect-Disconnected, offline}

-- An answer of `read` as an `int`: the end of the stream, a number of bytes, or an error.
sign-cases :
    (z : ℤ) → (z ≡ pos 0) ⊎ (((n : ℕ) × (z ≡ pos n) × (0 < n)) ⊎ ((n : ℕ) × (z ≡ negsuc n)))
sign-cases (pos zero) = inl refl
sign-cases (pos (suc n)) = inr (inl (suc n, refl, omega arith))
sign-cases (negsuc n) = inr (inr (n, refl))

-- The call of on_closed, if it is set.
abbrev pub said : Client → Ptr → Reason → List Event
said k client reason = if k.on_closed == null then [] else closed k.on_closed client reason ∷ []

module _ (os : Sockets) where
  -- The error is that the read is to be tried again.
  abbrev pub try_again : ℤ → Bool
  try_again errno = same errno (pos os.eagain) || same errno (pos os.eintr)

  -- Why the task is done or not, and what is called: `count` is what the read answered, with
  -- `errno` and the bytes read, and `finished` what on_server_responded says.
  pub data Cause (finished : Ptr → List ℕ → Bool) (client : Ptr) (k : Client) (count errno : ℤ)
      (bytes : List ℕ) : (complete : Bool) → List Event → Type 0 where
    unheard :
        (n : ℕ)
        → count ≡ pos n
        → 0 < n
        → k.on_server_responded ≡ null
        → Cause finished client k count errno bytes false []
    goes_on :
        (n : ℕ)
        → count ≡ pos n
        → 0 < n
        → k.on_server_responded ≢ null
        → finished client (take n bytes) ≡ false
        → Cause finished client k count errno bytes false
            (responded k.on_server_responded client (take n bytes) ∷ [])
    told_to_stop :
        (n : ℕ)
        → count ≡ pos n
        → 0 < n
        → k.on_server_responded ≢ null
        → finished client (take n bytes) ≡ true
        → Cause finished client k count errno bytes true
            (responded k.on_server_responded client (take n bytes) ∷ said k client closed_local)
    nothing_yet :
        (n : ℕ)
        → count ≡ negsuc n
        → try_again errno ≡ true
        → Cause finished client k count errno bytes false []
    server_hung_up :
        count ≡ pos 0 → Cause finished client k count errno bytes true (said k client closed_remote)
    failed :
        (n : ℕ)
        → count ≡ negsuc n
        → try_again errno ≡ false
        → Cause finished client k count errno bytes true (said k client closed_remote)

  -- How the call ends, where `asked` are the sockets behind the read: the task is done, and the
  -- client is off line with its socket closed; or the task is not done, and both are as they were.
  pub record Served (asked : os.State) (client : Ptr) (k : Client) (complete : Bool) (g : World os)
      : Type 0 where
    pub done :
        complete ≡ true
        → (g.clients client ≡ some (offline k)) × (g.tcp.sockets ≡ (os.close k.fd asked).1)
    pub waits : complete ≡ false → (g.clients client ≡ some k) × (g.tcp.sockets ≡ asked)

  -- What is called, and its cause.
  abbrev pub Caused :
      (w : World os) (finished : Ptr → List ℕ → Bool) (client : Ptr) (k : Client) (count errno : ℤ)
      (bytes : List ℕ)
      → Bool
      → World os
      → Type 0
  Caused w finished client k count errno bytes complete g =
      (es : List Event) × (g.events ≡ w.events ++ es)
      × Cause finished client k count errno bytes complete es

  done-Served :
      (asked : os.State) (client : Ptr) (k : Client) (g : World os)
      → g.clients client ≡ some (offline k)
      → g.tcp.sockets ≡ (os.close k.fd asked).1
      → Served asked client k true g
  done-Served asked client k g c s = record { done = λ e. (c, s); waits = λ e. cc }

  waits-Served :
      (client : Ptr) (k : Client) (g : World os)
      → g.clients client ≡ some k
      → Served g.tcp.sockets client k false g
  waits-Served client k g c = record { done = λ e. cc; waits = λ e. (c, refl) }

  module _ (w : World os) (client : Ptr) (k : Client) (ne : client ≢ null)
      (e : w.clients client ≡ some k) (valid : is_invalid k.fd ≡ false) where
    hang_up-Served :
        Returns
          (λ b g.
            (b ≡ true)
            × Served w.tcp.sockets client k b g
            × (g.events ≡ w.events ++ said k client closed_remote))
          (hang_up os client w)
    unfolding put_client
    hang_up-Served = elim (Bool-cases (k.on_closed == null)) [
      | inl quiet ↦
          rw (client_of-ok os w client k e, quiet)
            (returns (
              refl,
              done-Served w.tcp.sockets client k _ (rw (==_refl client) refl) refl,
              sym (append-nil w.events),
            ))
      | inr loud ↦
          rw (client_of-ok os w client k e, loud)
            (returns
              (refl, done-Served w.tcp.sockets client k _ (rw (==_refl client) refl) refl, refl))
    ]

    respond-Served :
        (finished : Ptr → List ℕ → Bool) (debug : Bool) (n : ℕ) (count errno : ℤ) (bytes : List ℕ)
        → HasTask os w k
        → count ≡ pos n
        → 0 < n
        → Returns
            (λ b g.
              Served w.tcp.sockets client k b g × Caused w finished client k count errno bytes b g)
            (respond os finished debug client (take n bytes) w)
    respond-Served finished debug n count errno bytes has is_n more_than =
        elim (Bool-cases (k.on_server_responded == null)) [
          | inl quiet ↦
              rw (client_of-ok os w client k e, quiet)
                (returns (
                  waits-Served client k w e,
                  ([], sym (append-nil w.events), unheard n is_n more_than (ground (arith, quiet))),
                ))
          | inr loud ↦ elim (Bool-cases (finished client (take n bytes))) [
            | inr more ↦
                rw (client_of-ok os w client k e, loud, more)
                  (returns (
                    waits-Served client k _ e,
                    (_, refl, goes_on n is_n more_than (ground (arith, loud)) more),
                  ))
            | inl last ↦
                rw (client_of-ok os w client k e, loud, last)
                  (chain (disconnect-Disconnected os debug _ client k ne e has) λ _ g d. returns (
                    done-Served w.tcp.sockets client k g d.cleared (d.sockets ∙ rw valid refl),
                    (
                      responded k.on_server_responded client (take n bytes)
                          ∷ said k client closed_local,
                      d.events
                          ∙ rw valid (
                              append_assoc w.events
                                (responded k.on_server_responded client (take n bytes) ∷ [])
                                (said k client closed_local)),
                      told_to_stop n is_n more_than (ground (arith, loud)) last,
                    ),
                  ))
          ]
        ]

  -- For a client with a socket and a read buffer, whose task, if it has one, is one of the
  -- scheduler's, `on_tcp_client_server_responded` says that its task is done exactly when it has
  -- taken the client off line and closed its socket; if not, the client and its socket stay as they
  -- were. The task is done, and on_closed is told that the server closed, when the read returns 0,
  -- or fails with an error other than EAGAIN and EINTR; it is done, and on_closed is told that this
  -- side closed, when on_server_responded, called with the bytes read, returns true. It is not done
  -- when the read fails with EAGAIN or EINTR, when on_server_responded returns false, and when bytes
  -- are read but there is no on_server_responded. What the read returns counts as the `int` that it
  -- is stored in.
  pub responded-Served :
      (finished : Ptr → List ℕ → Bool) (debug : Bool) (w : World os) (task : Task) (k : Client)
      → task.user_data ≢ null
      → w.clients task.user_data ≡ some k
      → is_invalid k.fd ≡ false
      → k.read_buffer ≢ null
      → HasTask os w k
      → Returns
          (λ complete g.
            let answer = os.read k.fd k.read_buffer_size w.tcp.sockets in
            Served answer.1 task.user_data k complete g
            × Caused w finished task.user_data k
                (int_of answer.0.0)
                (os.errno answer.1)
                answer.0.1
                complete
                g)
          (on_tcp_client_server_responded os finished debug task w)
  unfolding on_tcp_client_server_responded tcp_receive
  responded-Served finished debug w task k ne e valid buffer has =
      let client = task.user_data in
      let answer = os.read k.fd k.read_buffer_size w.tcp.sockets in
      let count = int_of answer.0.0 in
      let errno = os.errno answer.1 in
      let w1 : World os = record w { tcp = record w.tcp { sockets = answer.1 } } in
      let hung = hang_up-Served w1 client k ne e valid in
      rw
        (==-ne client null ne, client_of-ok os w client k e, valid, ==-ne k.read_buffer null buffer)
        (elim (sign-cases count) [
          | inl end ↦ rw end (
              weaken hung
                λ b g (done, served, events). (served, (_, events, rw done (server_hung_up refl))))
          | inr (inl (n, is_n, more)) ↦
              let positive : is_positive (pos n) ≡ true = ground (arith, more) in
              rw (is_n, positive)
                (respond-Served w1 client k ne e valid finished debug n (pos n) errno answer.0.1 has
                  refl more)
          | inr (inr (n, is_n)) ↦ elim (Bool-cases (try_again errno)) [
            | inl again ↦
                rw (is_n, again)
                  (returns (
                    waits-Served client k w1 e,
                    ([], sym (append-nil w.events), nothing_yet n refl again),
                  ))
            | inr over ↦
                rw (is_n, over)
                  (weaken hung λ b g (done, served, events).
                    (served, (_, events, rw done (failed n refl over))))
          ]
        ])
