-- ===== src/TcpSocks/Tests.antt =====
-- The theorems on tcp_socks.c at a small system, and runs of its functions.
use common_utils_lib.Base.{
  ℕ, ◌≤◌, ◌≡◌, refl, ap, ◌∙◌, Bool, true, false, not, ◌&&◌, ◌||◌, Option, none, some, List, [], ◌∷◌,
  ◌++◌, arith, if◌then◌else◌, Bool-cases, inl, inr, length, take,
}
use common_utils_lib.Base.Int.{ℤ, pos}
use common_utils_lib.Machine.{null}
use common_utils_lib.Machine.Returns.{Returns}
use common_utils_lib.Chain.{put}
use common_utils_lib.Stack.{nil}
use common_utils_lib.IoScheduler.{same, minus_one, no_opts, Task}
use common_utils_lib.IoScheduler.Same.{same_eq, same_refl}
use common_utils_lib.Sockets.{Sockets, Descriptors, Wire, is_invalid}
use common_utils_lib.TcpSocks.{tcp_create_bound_socket_full, tcp_send}
use common_utils_lib.TcpSocks.Bound.{Opened, tcp_create_bound_socket_full-Opened}
use common_utils_lib.TcpSocks.Send.{Sent, tcp_send-Sent}
use common_utils_lib.TcpSocks.Pending.{World, tcp_io_scheduler_connect_cbk}
use common_utils_lib.TcpSocks.Connect.{Decided, connect_cbk-Decided}

-- A system with one descriptor to give, 3, which takes two bytes at a time.
record Small : Type 0 where
  opened : ℤ → Bool
  bound : ℤ → Option (ℕ × ℕ)
  listens : ℤ → Bool
  wrote : ℤ → List ℕ

abbrev update : {A : Type 0} → (ℤ → A) → ℤ → A → ℤ → A
update f a v b = if same b a then v else f b

abbrev is_open : Small → ℤ → Bool
is_open s a = not (is_invalid a) && s.opened a

abbrev get_socket : Bool → Small → ℤ × Small
get_socket true s = (minus_one, s)
get_socket false s = (pos 3, record s { opened = update s.opened (pos 3) true })

abbrev do_listen : Bool → ℤ → Small → ℤ × Small
do_listen true fd s = (pos 0, record s { listens = update s.listens fd true })
do_listen false fd s = (minus_one, s)

abbrev small : Sockets
small = record {
  State = Small;
  errno = λ s. pos 11;
  eagain = 11;
  eintr = 4;
  einprogress = 115;
  etime = 62;
  nonblock_bit = 11;
  htons = λ p. p;
  ntohs = λ p. p;
  socket = λ s. get_socket (s.opened (pos 3)) s;
  setsockopt = λ fd opt v s. (pos 0, s);
  bind = λ fd addr s. (pos 0, record s { bound = update s.bound fd (some addr) });
  listen = λ fd n s. do_listen (is_open s fd) fd s;
  close = λ fd s. (pos 0, record s { opened = λ a. not (same a fd) && s.opened a });
  getfl = λ fd s. (pos 2, s);
  setfl = λ fd flags s. (pos 0, s);
  accept = λ fd s. ((minus_one, (0, 0)), s);
  connect = λ fd addr s. (minus_one, s);
  so_error = λ fd s. ((pos 0, pos 111), s);
  send = λ fd bytes s. (
    pos (length (take 2 bytes)),
    record s { wrote = update s.wrote fd (s.wrote fd ++ take 2 bytes) },
  );
  read = λ fd n s. ((pos 0, []), s);
}

update_self : {A : Type 0} (f : ℤ → A) (a : ℤ) (v : A) → update f a v a ≡ v
update_self f a v = rw (same_refl a)

get_socket-new :
    (b : Bool) (s : Small)
    → s.opened (pos 3) ≡ b
    → is_invalid (get_socket b s).0 ≡ false
    → is_open s (get_socket b s).0 ≡ false
get_socket-new true s e valid = cc
get_socket-new false s e valid = e

get_socket-open :
    (b : Bool) (s : Small) (a : ℤ)
    → is_open (get_socket b s).1 a
      ≡ ((not (is_invalid (get_socket b s).0) && same a (get_socket b s).0) || is_open s a)
get_socket-open true s a = refl
get_socket-open false s a = elim (Bool-cases (same a (pos 3))) [
  | inl e ↦
      let valid : is_invalid a ≡ false = ap is_invalid (same_eq a (pos 3) e) in rw (e, valid) refl
  | inr e ↦ rw e refl
]

do_listen-open :
    (b : Bool) (fd : ℤ) (s : Small)
    → ((do_listen b fd s).1.opened ≡ s.opened)
      × ((do_listen b fd s).1.bound ≡ s.bound)
      × (same (do_listen b fd s).0 minus_one ≡ false → (do_listen b fd s).1.listens fd ≡ true)
      × (b ≡ false → (do_listen b fd s).0 ≡ minus_one)
do_listen-open true fd s = (refl, refl, (λ e. update_self s.listens fd true), λ e. cc)
do_listen-open false fd s = (refl, refl, (λ e. cc), λ e. refl)

small-Descriptors : Descriptors small
small-Descriptors = record {
  is_open = is_open;
  address = λ s. s.bound;
  is_listening = λ s. s.listens;
  invalid = λ s. refl;
  socket-new = λ s e. get_socket-new (s.opened (pos 3)) s refl e;
  socket-open = λ s a. get_socket-open (s.opened (pos 3)) s a;
  setsockopt-open = λ fd opt v s a. refl;
  bind-open = λ fd addr s a. refl;
  bind-address = λ fd addr s e. update_self s.bound fd (some addr);
  listen-open =
      λ fd n s a. ap (λ f. not (is_invalid a) && f a) (do_listen-open (is_open s fd) fd s).0;
  listen-address = λ fd n s. ap (λ f. f fd) (do_listen-open (is_open s fd) fd s).1;
  listen-listening = λ fd n s e. (do_listen-open (is_open s fd) fd s).2 e;
  listen-bad = λ fd n s e. (do_listen-open (is_open s fd) fd s).3 e;
  close-open = λ fd s a. ground arith;
}

take_two :
    (bytes : List ℕ)
    → (length (take 2 bytes) ≤ length bytes) × (take 2 bytes ≡ take (length (take 2 bytes)) bytes)
take_two [] = (omega arith, refl)
take_two (a ∷ []) = (omega arith, refl)
take_two (a ∷ b ∷ bytes) = (omega arith, refl)

small-Wire : Wire small
small-Wire = record {
  sent = λ s. s.wrote;
  send-takes = λ fd bytes s. inr (
    length (take 2 bytes),
    refl,
    (take_two bytes).0,
    update_self s.wrote fd (s.wrote fd ++ take 2 bytes)
        ∙ ap (λ t. s.wrote fd ++ t) (take_two bytes).1,
  );
}

abbrev at_start : Small
at_start = record {
  opened = λ fd. same fd (pos 2);
  bound = λ fd. none;
  listens = λ fd. false;
  wrote = λ fd. [];
}

tcp_create_bound_socket_full-Opened_example :
    Returns
      (λ fd g. Opened small small-Descriptors (0, 80) at_start fd g)
      (tcp_create_bound_socket_full small 0 80 at_start)
tcp_create_bound_socket_full-Opened_example =
    tcp_create_bound_socket_full-Opened small small-Descriptors at_start 0 80

tcp_send-Sent_example :
    Returns
      (Sent small small-Wire (pos 2) (7 ∷ 8 ∷ 9 ∷ []) 0 at_start)
      (tcp_send small 4 (pos 2) (some (7 ∷ 8 ∷ 9 ∷ [])) at_start)
tcp_send-Sent_example =
    tcp_send-Sent small small-Wire (pos 2) 4 (7 ∷ 8 ∷ 9 ∷ []) at_start refl (omega arith)

-- The task that watches the connection at 20.
abbrev watcher : Task
watcher = record {
  owner = 1;
  fd = pos 7;
  opts = record no_opts { write = true; timer = true };
  time_out = pos 2000000000;
  expire_time = record { sec = 0; nsec = 0 };
  user_data = 20;
  on_read_rdy_cbk = null;
  on_write_rdy_cbk = 60;
  on_err_rdy_cbk = null;
  on_timeout_cbk = 60;
}

-- Two connections are pending, the one at 20 on the descriptor 7 with the callback 70.
abbrev waiting : World small
waiting = record {
  sockets = at_start;
  pending = 10;
  next = put (put (λ _. none) 10 20) 20 null;
  conns = λ p. record {
    sockfd = pos 7;
    status = pos 115;
    on_connect = 70;
    on_connect_ud = null;
    user_data = null;
    remote_addr = (1, 80);
  };
  events = [];
  scheduler = record {
    next = λ _. none;
    task = λ _. watcher;
    task_pool = nil;
    timer_id_pool = nil;
    threaded = false;
    stop_scheduler = false;
    clock = record { sec = 0; nsec = 0 };
  };
}

connect_cbk-Decided_example :
    Returns
      (λ complete g. (complete ≡ true) × Decided small waiting g watcher (pos 0) (10 ∷ []))
      (tcp_io_scheduler_connect_cbk small 2 watcher (pos 0) waiting)
connect_cbk-Decided_example =
    connect_cbk-Decided small 2 waiting watcher (pos 0) (10 ∷ []) []
      (record {
        start = refl;
        linked = (omega arith, refl, (omega arith, refl, tt));
        distinct = (refl, (refl, tt));
      })
      refl (omega arith)
