-- ===== src/SocketMgr/Tests.antt =====
-- The theorems on socket-mgr.c at a list of two sockets, and runs of its functions.
use common_utils_lib.Base.{ℕ, ◌+◌, ◌-◌, ◌≡◌, refl, true, List, [], ◌∷◌, arith, ◌==◌, if◌then◌else◌}
use common_utils_lib.Machine.{ok}
use common_utils_lib.Machine.Returns.{Returns}
use common_utils_lib.SocketMgr.{
  Sock, World, closed, notified, notify, close_socket, get_or_create, scan, get_or_create_tcp,
  close_tcp,
}
use common_utils_lib.SocketMgr.Share.{IsTable, Undoes, get_or_create-Undoes}
use common_utils_lib.SocketMgr.Close.{references, close_socket-IsTable}

-- Port 80 with two users, port 22 with one.
abbrev two_ports : List Sock
two_ports =
    record { port = 80; sockfd = 5; connections = 2 }
    ∷ record { port = 22; sockfd = 6; connections = 1 }
    ∷ []

two_ports-IsTable : IsTable two_ports
two_ports-IsTable = record {
  distinct = (refl, (refl, tt));
  valid = refl;
  counted = (omega arith, omega arith, (omega arith, omega arith, tt));
}

-- Sockets are numbered from 1000 on.
abbrev numbered : ℕ → ℕ
numbered port = port + 1000

get_or_create-Undoes_example :
    Returns (Undoes (70 ∷ []) 443 two_ports) (get_or_create numbered true 443 two_ports)
get_or_create-Undoes_example =
    get_or_create-Undoes numbered (70 ∷ []) 443 two_ports two_ports-IsTable (omega arith) refl

close_socket-IsTable_example :
    IsTable (close_socket (70 ∷ []) 6 two_ports).0
    × (references 6 (close_socket (70 ∷ []) 6 two_ports).0 ≡ references 6 two_ports - 1)
    × ((close_socket (70 ∷ []) 6 two_ports).1
        ≡ (if references 6 two_ports == 1 then closed 6 ∷ notify (70 ∷ []) 6 else []))
close_socket-IsTable_example = close_socket-IsTable (70 ∷ []) 6 two_ports two_ports-IsTable

abbrev start : World
start = record { tcp = two_ports; udp = []; handlers = 70 ∷ 71 ∷ []; events = [] }

-- The last user of port 22 is gone.
last_closed :
    close_tcp 6 start
    ≡ ok tt (record start {
      tcp = record { port = 80; sockfd = 5; connections = 2 } ∷ [];
      events = closed 6 ∷ notified 70 6 ∷ notified 71 6 ∷ [];
    })
unfolding close_tcp close_socket notify
last_closed = refl

shared :
    get_or_create_tcp numbered true 22 start
    ≡ ok 6 (record start {
      tcp =
          record { port = 80; sockfd = 5; connections = 2 }
          ∷ record { port = 22; sockfd = 6; connections = 2 }
          ∷ [];
    })
unfolding get_or_create_tcp get_or_create scan
shared = refl
