-- ===== src/Sockets.antt =====
-- The operating system's calls on sockets, which tcp_socks.c and tcp_service.c make, and the
-- documented behaviour of these calls that the theorems on those files rely on.
pub mod Closing
use common_utils_lib.Base.{
  ℕ, ◌+◌, ◌-◌, ◌/◌, ◌%◌, ◌^◌, ◌≤◌, ◌≡◌, ◌⊎◌, Bool, true, false, not, ◌&&◌, ◌||◌, Option, some, List,
  [], ◌++◌, ◌==◌, if◌then◌else◌, length, take,
}
use common_utils_lib.Base.Int.{ℤ, pos, negsuc}
use common_utils_lib.IoScheduler.{same, minus_one}
use common_utils_lib.Machine.{Cmd, ok}

-- The options that the library sets.
pub data SockOpt : Type 0 where
  so_keepalive : SockOpt
  so_reuseaddr : SockOpt

-- `getfl` and `setfl` are `fcntl` with F_GETFL and F_SETFL, `so_error` is `getsockopt` with
-- SO_ERROR: what it returns, and the error. An address is the IP address and the port, as in a
-- `sockaddr_in`.
pub record Sockets : Type 1 where
  pub State : Type 0
  pub errno : State → ℤ
  pub eagain : ℕ
  pub eintr : ℕ
  pub einprogress : ℕ
  pub etime : ℕ
  pub nonblock_bit : ℕ
  pub htons : ℕ → ℕ
  pub ntohs : ℕ → ℕ
  pub socket : State → ℤ × State
  pub setsockopt : ℤ → SockOpt → ℕ → State → ℤ × State
  pub bind : ℤ → ℕ × ℕ → State → ℤ × State
  pub listen : ℤ → ℕ → State → ℤ × State
  pub close : ℤ → State → ℤ × State
  pub getfl : ℤ → State → ℤ × State
  pub setfl : ℤ → ℤ → State → ℤ × State
  pub accept : ℤ → State → (ℤ × (ℕ × ℕ)) × State
  pub connect : ℤ → ℕ × ℕ → State → ℤ × State
  pub so_error : ℤ → State → (ℤ × ℤ) × State
  pub send : ℤ → List ℕ → State → ℤ × State
  pub read : ℤ → ℕ → State → (ℤ × List ℕ) × State

-- A call of the operating system.
abbrev pub call : {S A : Type 0} → (S → A × S) → Cmd S A
call f s = ok (f s).0 (f s).1

-- INVALID_SOCKET_FD
abbrev pub is_invalid : ℤ → Bool
is_invalid fd = same fd minus_one

-- Which descriptors are open, which addresses they are bound to, and which listen.
pub record Descriptors (os : Sockets) : Type 1 where
  pub is_open : os.State → ℤ → Bool
  pub address : os.State → ℤ → Option (ℕ × ℕ)
  pub is_listening : os.State → ℤ → Bool
  pub invalid : (s : os.State) → is_open s minus_one ≡ false
  pub socket-new :
      (s : os.State) → is_invalid (os.socket s).0 ≡ false → is_open s (os.socket s).0 ≡ false
  pub socket-open :
      (s : os.State) (a : ℤ)
      → is_open (os.socket s).1 a
        ≡ ((not (is_invalid (os.socket s).0) && same a (os.socket s).0) || is_open s a)
  pub setsockopt-open :
      (fd : ℤ) (opt : SockOpt) (v : ℕ) (s : os.State) (a : ℤ)
      → is_open (os.setsockopt fd opt v s).1 a ≡ is_open s a
  pub bind-open :
      (fd : ℤ) (addr : ℕ × ℕ) (s : os.State) (a : ℤ) → is_open (os.bind fd addr s).1 a ≡ is_open s a
  pub bind-address :
      (fd : ℤ) (addr : ℕ × ℕ) (s : os.State)
      → same (os.bind fd addr s).0 minus_one ≡ false
      → address (os.bind fd addr s).1 fd ≡ some addr
  pub listen-open :
      (fd : ℤ) (n : ℕ) (s : os.State) (a : ℤ) → is_open (os.listen fd n s).1 a ≡ is_open s a
  pub listen-address :
      (fd : ℤ) (n : ℕ) (s : os.State) → address (os.listen fd n s).1 fd ≡ address s fd
  pub listen-listening :
      (fd : ℤ) (n : ℕ) (s : os.State)
      → same (os.listen fd n s).0 minus_one ≡ false
      → is_listening (os.listen fd n s).1 fd ≡ true
  pub listen-bad :
      (fd : ℤ) (n : ℕ) (s : os.State) → is_open s fd ≡ false → (os.listen fd n s).0 ≡ minus_one
  pub close-open :
      (fd : ℤ) (s : os.State) (a : ℤ)
      → is_open (os.close fd s).1 a ≡ (not (same a fd) && is_open s a)

-- What `send` does with the bytes it is given, where `sent` are those taken so far on a socket.
pub record Wire (os : Sockets) : Type 1 where
  pub sent : os.State → ℤ → List ℕ
  pub send-takes :
      (fd : ℤ) (bytes : List ℕ) (s : os.State)
      → ((os.send fd bytes s).0 ≡ minus_one) × (sent (os.send fd bytes s).1 fd ≡ sent s fd)
        ⊎ ((n : ℕ) × ((os.send fd bytes s).0 ≡ pos n)
            × (n ≤ length bytes)
            × (sent (os.send fd bytes s).1 fd ≡ sent s fd ++ take n bytes))

-- What a callback sees that is told to read `n` bytes of the buffer.
abbrev pub up_to : ℤ → List ℕ → List ℕ
up_to (pos n) bytes = take n bytes
up_to (negsuc n) bytes = []
