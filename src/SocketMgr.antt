-- ===== src/SocketMgr.antt =====
-- socket-mgr.c. The nodes of its three lists are its own, so the lists are modelled as lists of
-- their members. A descriptor is the 32-bit pattern of an `int`. What the manager does to the
-- outside is a list of events. The mutexes are not modelled: a call is one step.
pub mod Share
pub mod Close
mod Tests
use common_utils_lib.Base.{
  ℕ, ◌+◌, ◌-◌, ◌%◌, ◌^◌, Bool, true, false, List, [], ◌∷◌, ◌++◌, map, ltb, ◌==◌, if◌then◌else◌,
}
use common_utils_lib.Machine.{Ptr, null, Run, ok, fault, aborted, blocked, out_of_fuel, Cmd}

abbrev pub invalid_fd : ℕ
invalid_fd = 0xffffffff

abbrev pub size_mod : ℕ
size_mod = 2 ^ 64

-- `struct _sockmgr_sockinf`
pub record Sock : Type 0 where
  pub port : ℕ
  pub sockfd : ℕ
  pub connections : ℕ

-- `close ( fd )`, and a handler called with a descriptor.
pub data Event : Type 0 where
  closed : ℕ → Event
  notified : Ptr → ℕ → Event

pub record World : Type 0 where
  pub tcp : List Sock
  pub udp : List Sock
  pub handlers : List Ptr
  pub events : List Event

-- notify_listeners_socket_closed
unfoldable pub notify : List Ptr → ℕ → List Event
notify [] fd = []
notify (cbkfn ∷ handlers) fd = notified cbkfn fd ∷ notify handlers fd

-- `connections--`
abbrev pub one_less : Sock → Sock
one_less s = record s { connections = (s.connections + size_mod - 1) % size_mod }

-- `connections++`
abbrev pub one_more : Sock → Sock
one_more s = record s { connections = (s.connections + 1) % size_mod }

unfoldable pub close_socket : List Ptr → ℕ → List Sock → List Sock × List Event
close_socket handlers fd [] = ([], [])
close_socket handlers fd (s ∷ socks) =
    let (rest, events) = close_socket handlers fd socks in
    if s.sockfd == fd
    then (if ltb (one_less s).connections 1
        then (socks, closed fd ∷ notify handlers fd)
        else (one_less s ∷ socks, []))
    else (s ∷ rest, events)

-- create_sockinf, whose `malloc` succeeds or not.
unfoldable pub create_sockinf : Bool → ℕ → ℕ → List Sock
create_sockinf malloc_ok port sockfd =
    if malloc_ok then record { port = port; sockfd = sockfd; connections = 1 } ∷ [] else []

-- The loop `while ( pinf->next )`: the list up to the `pinf` that it ends with, the list behind it,
-- and `rv`.
unfoldable pub scan : ℕ → Sock → List Sock → List Sock × List Sock × ℕ
scan port pinf [] = (pinf ∷ [], [], invalid_fd)
scan port pinf (s ∷ socks) =
    let (front, back, rv) = scan port s socks in
    if s.port == port then (pinf ∷ [], one_more s ∷ socks, s.sockfd) else (pinf ∷ front, back, rv)

-- The socket made for the port joins the list behind `front`, in place of `back`.
abbrev pub join : Bool → ℕ → ℕ → List Sock → List Sock → Run (List Sock) ℕ
join malloc_ok port fd front back =
    if fd == invalid_fd
    then ok invalid_fd (front ++ back)
    else ok fd (front ++ create_sockinf malloc_ok port fd)

-- Where the first socket of the list has the port, `pinf` stays `NULL`.
abbrev pub reuse_first : ℕ → Sock → List Sock → Run (List Sock) ℕ
reuse_first fd s socks =
    if s.sockfd == invalid_fd
    then (if fd == invalid_fd then ok invalid_fd (one_more s ∷ socks) else fault)
    else ok s.sockfd (one_more s ∷ socks)

-- The two functions sockmgr_get_or_create_... differ in the list and in how a socket is made:
-- `create port` is what tcp_create_bound_socket or udp_create_bound_socket returns.
unfoldable pub get_or_create : (create : ℕ → ℕ) (malloc_ok : Bool) → ℕ → Cmd (List Sock) ℕ
get_or_create create malloc_ok port [] = join malloc_ok port (create port) [] []
get_or_create create malloc_ok port (s ∷ socks) =
    if s.port == port
    then reuse_first (create port) s socks
    else let (front, back, rv) = scan port s socks in
      if rv == invalid_fd
      then join malloc_ok port (create port) front back
      else ok rv (front ++ back)

abbrev pub with_tcp : World → Run (List Sock) ℕ → Run World ℕ
with_tcp w (ok fd socks) = ok fd (record w { tcp = socks })
with_tcp w fault = fault
with_tcp w aborted = aborted
with_tcp w blocked = blocked
with_tcp w out_of_fuel = out_of_fuel

abbrev pub with_udp : World → Run (List Sock) ℕ → Run World ℕ
with_udp w (ok fd socks) = ok fd (record w { udp = socks })
with_udp w fault = fault
with_udp w aborted = aborted
with_udp w blocked = blocked
with_udp w out_of_fuel = out_of_fuel

unfoldable pub get_or_create_tcp : (create : ℕ → ℕ) (malloc_ok : Bool) → ℕ → Cmd World ℕ
get_or_create_tcp create malloc_ok port w = with_tcp w (get_or_create create malloc_ok port w.tcp)

unfoldable pub get_or_create_udp : (create : ℕ → ℕ) (malloc_ok : Bool) → ℕ → Cmd World ℕ
get_or_create_udp create malloc_ok port w = with_udp w (get_or_create create malloc_ok port w.udp)

unfoldable pub close_tcp : ℕ → Cmd World (Unit {0})
close_tcp fd w =
    let (socks, events) = close_socket w.handlers fd w.tcp in
    ok tt (record w { tcp = socks; events = w.events ++ events })

unfoldable pub close_udp : ℕ → Cmd World (Unit {0})
close_udp fd w =
    let (socks, events) = close_socket w.handlers fd w.udp in
    ok tt (record w { udp = socks; events = w.events ++ events })

unfoldable pub add_socket_closed_evhandler : (malloc_ok : Bool) → Ptr → Cmd World (Unit {0})
add_socket_closed_evhandler malloc_ok onclosecbk w =
    if onclosecbk == null
    then ok tt w
    else if malloc_ok
    then ok tt (record w { handlers = w.handlers ++ onclosecbk ∷ [] })
    else ok tt w

-- `while ( list != NIL_SOCKINF ) { close ( list->sockfd ); ... }`
unfoldable pub close_all : List Sock → List Event
close_all [] = []
close_all (s ∷ socks) = closed s.sockfd ∷ close_all socks

unfoldable pub shutdown : Cmd World (Unit {0})
shutdown w =
    ok tt
      (record w { tcp = []; udp = []; events = (w.events ++ close_all w.tcp) ++ close_all w.udp })
