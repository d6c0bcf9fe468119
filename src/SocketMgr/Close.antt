-- ===== src/SocketMgr/Close.antt =====
-- What closing a socket leaves.
use common_utils_lib.Base.{
  ℕ, ◌+◌, ◌-◌, ◌<◌, ◌≤◌, ◌≡◌, refl, true, false, List, [], ◌∷◌, arith, ltb, ◌==◌, if◌then◌else◌,
  Bool-cases, inl, inr,
}
use common_utils_lib.Machine.{Ptr}
use common_utils_lib.Chain.{has}
use common_utils_lib.SocketMgr.{Sock, closed, size_mod, notify, one_less, close_socket}
use common_utils_lib.SocketMgr.Share.{fds, IsTable}

-- The number of references to a descriptor.
unfoldable pub references : ℕ → List Sock → ℕ
references fd [] = 0
references fd (s ∷ socks) =
    let rest = references fd socks in if s.sockfd == fd then s.connections + rest else rest

-- No descriptor appears.
close-fds :
    (handlers : List Ptr) (fd a : ℕ) (socks : List Sock)
    → has a (fds socks) ≡ false
    → has a (fds (close_socket handlers fd socks).0) ≡ false
unfolding close_socket
close-fds handlers fd a [] o = refl
close-fds handlers fd a (s ∷ socks) o = elim (Bool-cases (s.sockfd == fd)) [
  | inl e ↦ elim (Bool-cases (ltb (one_less s).connections 1)) [
    | inl last ↦ rw (e, last) (ground (arith, o))
    | inr more ↦ rw (e, more) o
  ]
  | inr e ↦ rw e (ground (arith, o, close-fds handlers fd a socks))
]

references-absent :
    (fd : ℕ) (socks : List Sock) → has fd (fds socks) ≡ false → references fd socks ≡ 0
unfolding references
references-absent fd [] o = refl
references-absent fd (s ∷ socks) o =
    let ne : (s.sockfd == fd) ≡ false = ground (arith, o) in
    rw (ne, references-absent fd socks (ground (arith, o)))

-- Closing keeps a list such as the manager keeps it, with one reference less to the descriptor if
-- there is any; the socket is closed and the handlers called when it was the last one.
pub close_socket-IsTable :
    (handlers : List Ptr) (fd : ℕ) (socks : List Sock)
    → IsTable socks
    → IsTable (close_socket handlers fd socks).0
      × (references fd (close_socket handlers fd socks).0 ≡ references fd socks - 1)
      × ((close_socket handlers fd socks).1
          ≡ (if references fd socks == 1 then closed fd ∷ notify handlers fd else []))
unfolding close_socket references
close_socket-IsTable handlers fd [] is = (is, refl, refl)
close_socket-IsTable handlers fd (s ∷ socks) is =
    let rest : IsTable socks = record {
      distinct = is.distinct.1;
      valid = ground (arith, is.valid);
      counted = is.counted.2;
    } in
    elim (Bool-cases (s.sockfd == fd)) [
      | inl e ↦
          let none_left : references fd socks ≡ 0 =
            references-absent fd socks (ground (arith, is.distinct.0)) in
          let less : (one_less s).connections ≡ s.connections - 1 =
            omega (arith, is.counted.0, is.counted.1) in
          elim (Bool-cases (s.connections == 1)) [
            | inl one ↦
                let last : ltb (one_less s).connections 1 ≡ true = ground (arith, less) in
                rw (e, last, none_left) (rest, ground arith, ground arith)
            | inr many ↦
                let more : ltb (one_less s).connections 1 ≡ false =
                  ground (arith, less, is.counted.0) in
                let low : 1 ≤ (one_less s).connections = ground (arith, less, is.counted.0) in
                let high : (one_less s).connections + 1 < size_mod =
                  omega (arith, less, is.counted.1) in
                rw (e, more, none_left)
                  (
                    record {
                      distinct = is.distinct;
                      valid = is.valid;
                      counted = (low, high, is.counted.2);
                    },
                    ground (arith, less, e),
                    ground arith,
                  )
          ]
      | inr e ↦
          let (table, count, events) = close_socket-IsTable handlers fd socks rest in
          rw e (
            record {
              distinct = (close-fds handlers fd s.sockfd socks is.distinct.0, table.distinct);
              valid = ground (arith, is.valid, table.valid);
              counted = (is.counted.0, is.counted.1, table.counted);
            },
            rw e count,
            events,
          )
    ]
