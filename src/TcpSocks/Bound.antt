-- ===== src/TcpSocks/Bound.antt =====
-- tcp_create_bound_socket_full: which descriptors are open behind it.
use common_utils_lib.Base.{
  ℕ, ◌≡◌, refl, ap, ◌∙◌, Bool, true, false, not, ◌&&◌, ◌||◌, some, arith, Bool-cases, inl, inr,
}
use common_utils_lib.Base.Int.{ℤ}
use common_utils_lib.Machine.Returns.{Returns, returns}
use common_utils_lib.IoScheduler.{same, minus_one}
use common_utils_lib.IoScheduler.Same.{same_eq}
use common_utils_lib.Sockets.{Sockets, Descriptors, is_invalid, so_keepalive, so_reuseaddr}
use common_utils_lib.TcpSocks.{tcp_create_bound_socket_full}

-- A call that returned `fd`, asked for a socket that listens at an address: nothing is open that
-- was not open before but `fd`, if it is a descriptor, which is then new, bound and listening.
pub record Opened (os : Sockets) (d : Descriptors os) (addr : ℕ × ℕ) (s : os.State) (fd : ℤ)
    (g : os.State) : Type 0 where
  pub descriptors : (a : ℤ) → d.is_open g a ≡ ((not (is_invalid fd) && same a fd) || d.is_open s a)
  pub fresh : is_invalid fd ≡ false → d.is_open s fd ≡ false
  pub bound : is_invalid fd ≡ false → d.address g fd ≡ some addr
  pub listening : is_invalid fd ≡ false → d.is_listening g fd ≡ true

module _ (os : Sockets) (d : Descriptors os) where
  open d use {is_open}

  -- Closing what is not open changes nothing.
  absent :
      (s : os.State) (fd a : ℤ)
      → is_open s fd ≡ false
      → (not (same a fd) && is_open s a) ≡ is_open s a
  absent s fd a o = elim (Bool-cases (same a fd)) [
    | inl e ↦
        let closed : is_open s a ≡ false = ap (is_open s) (same_eq a fd e) ∙ o in
        rw (closed, e) refl
    | inr e ↦ rw e refl
  ]

  -- A call that fails leaves the descriptors as they were.
  none-Opened :
      (addr : ℕ × ℕ) (s g : os.State)
      → ((a : ℤ) → is_open g a ≡ is_open s a)
      → Opened os d addr s minus_one g
  none-Opened addr s g kept = record {
    descriptors = kept;
    fresh = λ e. cc;
    bound = λ e. cc;
    listening = λ e. cc;
  }

  module _ (s : os.State) (addr : ℕ × ℕ) (valid : is_invalid (os.socket s).0 ≡ false) where
    abbrev fd : ℤ
    fd = (os.socket s).0

    abbrev made : os.State
    made = (os.setsockopt fd so_reuseaddr 1 (os.setsockopt fd so_keepalive 0 (os.socket s).1).1).1

    abbrev bound_s : os.State
    bound_s = (os.bind fd addr made).1

    bound-open : (a : ℤ) → is_open bound_s a ≡ (same a fd || is_open s a)
    bound-open a =
        d.bind-open fd addr made a
        ∙ d.setsockopt-open fd so_reuseaddr 1 (os.setsockopt fd so_keepalive 0 (os.socket s).1).1 a
        ∙ d.setsockopt-open fd so_keepalive 0 (os.socket s).1 a
        ∙ d.socket-open s a
        ∙ ap (λ b. (not b && same a fd) || is_open s a) valid

    -- The descriptor closed again.
    closed-open :
        (t : os.State)
        → ((a : ℤ) → is_open t a ≡ (same a fd || is_open s a))
        → (a : ℤ) → is_open (os.close fd t).1 a ≡ is_open s a
    closed-open t e a =
        d.close-open fd t a
        ∙ ap (λ b. not (same a fd) && b) (e a)
        ∙ both (same a fd) (is_open s a)
        ∙ absent s fd a (d.socket-new s valid)
      where
        both : (x y : Bool) → (not x && (x || y)) ≡ (not x && y)
        both x y = ground arith

    -- bind() fails: the descriptor is closed, and listen() and close() are called without one.
    abbrev no_bind : os.State
    no_bind = (os.close fd bound_s).1

    no_listen : same (os.listen minus_one 5 no_bind).0 minus_one ≡ true
    no_listen = ap (λ r. same r minus_one) (d.listen-bad minus_one 5 no_bind (d.invalid no_bind))

    no_bind-open :
        (a : ℤ) → is_open (os.close minus_one (os.listen minus_one 5 no_bind).1).1 a ≡ is_open s a
    no_bind-open a =
        d.close-open minus_one (os.listen minus_one 5 no_bind).1 a
        ∙ absent (os.listen minus_one 5 no_bind).1 minus_one a
            (d.invalid (os.listen minus_one 5 no_bind).1)
        ∙ d.listen-open minus_one 5 no_bind a
        ∙ closed-open bound_s bound-open a

    listen-kept : (a : ℤ) → is_open (os.listen fd 5 bound_s).1 a ≡ (same a fd || is_open s a)
    listen-kept a = d.listen-open fd 5 bound_s a ∙ bound-open a

    listening-Opened :
        same (os.bind fd addr made).0 minus_one ≡ false
        → same (os.listen fd 5 bound_s).0 minus_one ≡ false
        → Opened os d addr s fd (os.listen fd 5 bound_s).1
    listening-Opened b l = record {
      descriptors = λ a. rw valid (listen-kept a);
      fresh = λ _. d.socket-new s valid;
      bound = λ _. d.listen-address fd 5 bound_s ∙ d.bind-address fd addr made b;
      listening = λ _. d.listen-listening fd 5 bound_s l;
    }

  no_socket-Opened :
      (s : os.State) (addr : ℕ × ℕ)
      → is_invalid (os.socket s).0 ≡ true
      → Opened os d addr s (os.socket s).0 (os.socket s).1
  no_socket-Opened s addr e = record {
    descriptors = d.socket-open s;
    fresh = λ o. absurd (ground (arith, e, o));
    bound = λ o. absurd (ground (arith, e, o));
    listening = λ o. absurd (ground (arith, e, o));
  }

  -- On a system that behaves as documented, `tcp_create_bound_socket_full` returns, and leaves
  -- open just what was open before and the descriptor that it returns, if it returns one: that is
  -- a new one, bound to the address asked for, and it listens. Where it returns -1, just what was
  -- open before is open.
  pub tcp_create_bound_socket_full-Opened :
      (s : os.State) (local_ip local_port : ℕ)
      → Returns
          (λ fd g. Opened os d (local_ip, os.htons local_port) s fd g)
          (tcp_create_bound_socket_full os local_ip local_port s)
  unfolding tcp_create_bound_socket_full
  tcp_create_bound_socket_full-Opened s local_ip local_port =
      let addr : ℕ × ℕ = (local_ip, os.htons local_port) in
      elim (Bool-cases (is_invalid (os.socket s).0)) [
        | inl e ↦ rw e (returns (no_socket-Opened s addr e))
        | inr valid ↦
            elim (Bool-cases
              (same (os.bind (os.socket s).0 addr (made s addr valid)).0 minus_one)) [
                | inl b ↦
                    rw (valid, b, no_listen s addr valid)
                      (returns (none-Opened addr s _ (no_bind-open s addr valid)))
                | inr b ↦
                    elim (Bool-cases
                      (same (os.listen (os.socket s).0 5 (bound_s s addr valid)).0 minus_one)) [
                        | inl l ↦
                            rw (valid, b, l)
                              (returns (
                                none-Opened addr s _
                                  (closed-open s addr valid _ (listen-kept s addr valid))))
                        | inr l ↦ rw (valid, b, l) (returns (listening-Opened s addr valid b l))
                      ]
              ]
      ]
