-- ===== src/TcpSocks.antt =====
-- tcp_socks.c: making sockets, accepting, reading and sending. The calls of the operating system
-- are those of a `Sockets`. A loop is given `fuel` rounds.
mod Tests
mod ConnectTests
pub mod Bound
pub mod Send
pub mod Pending
pub mod Removal
pub mod Connect
pub mod Attempt
pub mod Watch
use common_utils_lib.Base.{
  ℕ, zero, suc, ◌+◌, ◌-◌, ◌*◌, ◌/◌, ◌%◌, ◌^◌, Bool, true, false, not, ◌&&◌, ◌||◌, ltb, ◌==◌,
  if◌then◌else◌, Option, none, some, List, [], ◌∷◌, ◌++◌, length, drop,
}
use common_utils_lib.Base.Int.{ℤ, pos, negsuc}
use common_utils_lib.Machine.{
  Ptr, null, Run, ok, fault, aborted, blocked, out_of_fuel, Cmd, ◌>>=◌, ◌>>◌,
}
use common_utils_lib.IoScheduler.{same, minus_one, one_second, Task}
use common_utils_lib.Sockets.{Sockets, call, is_invalid, so_keepalive, so_reuseaddr}

-- `flags | O_NONBLOCK` and `flags & ~O_NONBLOCK` on the number, and on the `int`.
abbrev pub has_bit : ℕ → ℕ → Bool
has_bit b n = (n / 2 ^ b) % 2 == 1

unfoldable pub with_bit : ℕ → ℕ → ℕ
with_bit b n = if has_bit b n then n else n + 2 ^ b

unfoldable pub without_bit : ℕ → ℕ → ℕ
without_bit b n = if has_bit b n then n - 2 ^ b else n

unfoldable pub set_flag : ℕ → ℤ → ℤ
set_flag b (pos n) = pos (with_bit b n)
set_flag b (negsuc n) = negsuc (without_bit b n)

unfoldable pub clear_flag : ℕ → ℤ → ℤ
clear_flag b (pos n) = pos (without_bit b n)
clear_flag b (negsuc n) = negsuc (with_bit b n)

module _ (os : Sockets) where
  -- What accept() gave: the socket, `minus_one` if there is none, and the address of its peer.
  unfoldable pub tcp_accept_full : ℤ → Cmd os.State (ℤ × (ℕ × ℕ))
  tcp_accept_full sockfd = do
    flags ← call (os.getfl sockfd)
    call (os.setfl sockfd (set_flag os.nonblock_bit flags))
    (remote_sock_fd, (ip, port)) ← call (os.accept sockfd)
    call (os.setfl sockfd flags)
    if is_invalid remote_sock_fd then ok (remote_sock_fd, (ip, port)) else (do
      call (os.setsockopt remote_sock_fd so_keepalive 0)
      ok (remote_sock_fd, (ip, os.ntohs port)))

  unfoldable pub tcp_accept : ℤ → Cmd os.State ℤ
  tcp_accept sockfd = do (fd, _) ← tcp_accept_full sockfd; ok fd

  unfoldable pub tcp_create_bound_socket_full : (local_ip local_port : ℕ) → Cmd os.State ℤ
  tcp_create_bound_socket_full local_ip local_port = do
    fd ← call os.socket
    if is_invalid fd then ok fd else (do
      call (os.setsockopt fd so_keepalive 0)
      call (os.setsockopt fd so_reuseaddr 1)
      bound ← call (os.bind fd (local_ip, os.htons local_port))
      rv ← (if same bound minus_one then (do call (os.close fd); ok minus_one) else ok fd)
      listening ← call (os.listen rv 5)
      if same listening minus_one then (do call (os.close rv); ok minus_one) else ok rv)

  -- INADDR_ANY is 0.
  unfoldable pub tcp_create_bound_socket : (local_port : ℕ) → Cmd os.State ℤ
  tcp_create_bound_socket local_port = tcp_create_bound_socket_full 0 local_port

  -- `inet_aton` gives the address, if the string is one.
  unfoldable pub tcp_create_bound_socket_full_s : Option ℕ → (local_port : ℕ) → Cmd os.State ℤ
  tcp_create_bound_socket_full_s none local_port = ok minus_one
  tcp_create_bound_socket_full_s (some ip) local_port = tcp_create_bound_socket_full ip local_port

  unfoldable pub tcp_create_client_socket : Cmd os.State ℤ
  tcp_create_client_socket = do
    rv ← call os.socket
    if is_invalid rv then ok rv else (do call (os.setsockopt rv so_keepalive 0); ok rv)

  -- What was read, and the bytes.
  unfoldable pub tcp_receive : ℤ → (buffer : Ptr) (buffer_size : ℕ) → Cmd os.State (ℤ × List ℕ)
  tcp_receive sockfd buffer buffer_size =
      if is_invalid sockfd || (buffer == null)
      then ok (minus_one, [])
      else call (os.read sockfd buffer_size)

  -- `bytes += bytes_sent` and what follows, where the buffer has so many bytes.
  abbrev pub advance : (List ℕ → ℕ → Cmd os.State ℤ) → List ℕ → ℕ → ℤ → Cmd os.State ℤ
  advance again bytes total (pos n) =
      if ltb (length bytes) n then (λ _. fault) else again (drop n bytes) (total + n)
  advance again bytes total (negsuc n) = λ _. fault

  -- The loop; the bytes that remain are those behind `bytes`.
  unfoldable pub send_loop : ℕ → ℤ → List ℕ → (total : ℕ) → Cmd os.State ℤ
  send_loop zero sockfd bytes total = λ _. out_of_fuel
  send_loop (suc fuel) sockfd bytes total =
      if ltb 0 (length bytes)
      then (do
        bytes_sent ← call (os.send sockfd bytes)
        if same bytes_sent minus_one
            then (λ s.
                (if same bytes_sent (pos os.eagain) || same bytes_sent (pos os.eintr)
                    then send_loop fuel sockfd bytes total
                    else ok minus_one)
                  s)
            else (if same bytes_sent (pos 0)
                then ok (pos 0)
                else advance (λ rest sum s. send_loop fuel sockfd rest sum s) bytes total
                    bytes_sent))
      else ok (pos total)

  -- `data` is `none` for `NULL`, else the bytes; their number is `data_length`.
  unfoldable pub tcp_send : ℕ → ℤ → Option (List ℕ) → Cmd os.State ℤ
  tcp_send fuel sockfd none = ok (pos 0)
  tcp_send fuel sockfd (some bytes) =
      if not (is_invalid sockfd) && ltb 0 (length bytes)
      then send_loop fuel sockfd bytes 0
      else ok (pos 0)

  unfoldable pub tcp_set_socket_nonblocking : ℤ → Bool → Cmd os.State (Unit {0})
  tcp_set_socket_nonblocking sockfd on = if is_invalid sockfd then ok tt else (do
    flags ← call (os.getfl sockfd)
    call (
        os.setfl sockfd
          (if on then set_flag os.nonblock_bit flags else clear_flag os.nonblock_bit flags))
    ok tt)
