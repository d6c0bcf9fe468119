-- ===== src/SocketMgr/Share.antt =====
-- What asking for a socket and closing it do together.
use common_utils_lib.Base.{
  ℕ, ◌+◌, ◌-◌, ◌%◌, ◌<◌, ◌≤◌, ◌≡◌, refl, sym, ◌≢◌, Bool, true, false, ◌||◌, List, [], ◌∷◌, ◌++◌,
  arith, ltb, ◌==◌, ==-ne, ==_refl, if◌then◌else◌, Bool-cases, ◌⊎◌, inl, inr,
}
use common_utils_lib.Machine.{Ptr}
use common_utils_lib.Machine.Returns.{Returns, returns}
use common_utils_lib.Chain.{has, IsDistinct, has-ne}
use common_utils_lib.SocketMgr.{
  Sock, Event, closed, invalid_fd, size_mod, notify, one_more, close_socket, create_sockinf, scan,
  get_or_create,
}

abbrev pub fds : List Sock → List ℕ
fds [] = []
fds (s ∷ socks) = s.sockfd ∷ fds socks

abbrev pub has_port : ℕ → List Sock → Bool
has_port port [] = false
has_port port (s ∷ socks) = (s.port == port) || has_port port socks

-- Every count is at least 1 and has room for one more.
abbrev pub IsCounted : List Sock → Type 0
IsCounted [] = Unit
IsCounted (s ∷ socks) = (1 ≤ s.connections) × (s.connections + 1 < size_mod) × IsCounted socks

-- A list as the manager keeps it: valid descriptors, no two the same.
pub record IsTable (socks : List Sock) : Type 0 where
  pub distinct : IsDistinct (fds socks)
  pub valid : has invalid_fd (fds socks) ≡ false
  pub counted : IsCounted socks

-- A count up and down again.
close-one_more :
    (handlers : List Ptr) (s : Sock) (socks : List Sock)
    → 1 ≤ s.connections
    → s.connections + 1 < size_mod
    → close_socket handlers s.sockfd (one_more s ∷ socks) ≡ (s ∷ socks, [])
unfolding close_socket
close-one_more handlers s socks lo hi =
    let back : ((s.connections + 1) % size_mod + size_mod - 1) % size_mod ≡ s.connections =
      omega (arith, lo, hi) in
    let more : ltb s.connections 1 ≡ false = ground (arith, lo) in rw (==_refl s.sockfd, back, more)

close-skips :
    (handlers : List Ptr) (fd : ℕ) (s : Sock) (socks rest : List Sock) (events : List Event)
    → s.sockfd ≢ fd
    → close_socket handlers fd socks ≡ (rest, events)
    → close_socket handlers fd (s ∷ socks) ≡ (s ∷ rest, events)
unfolding close_socket
close-skips handlers fd s socks rest events ne e = rw (==-ne s.sockfd fd ne, e)

-- The last reference to a socket of its own.
close-created :
    (handlers : List Ptr) (port fd : ℕ) (socks : List Sock)
    → has fd (fds socks) ≡ false
    → close_socket handlers fd (socks ++ create_sockinf true port fd)
      ≡ (socks, closed fd ∷ notify handlers fd)
unfolding close_socket create_sockinf
close-created handlers port fd [] o = rw (==_refl fd)
close-created handlers port fd (s ∷ socks) o =
    close-skips handlers fd s (socks ++ create_sockinf true port fd) socks
      (closed fd ∷ notify handlers fd) (ground (arith, o))
      (close-created handlers port fd socks (ground arith))

-- How the loop ends: at the end of the list, or at a socket whose closing undoes it.
scan-ends :
    (handlers : List Ptr) (port : ℕ) (s : Sock) (socks : List Sock)
    → IsTable socks
    → has s.sockfd (fds socks) ≡ false
    → ((has_port port socks ≡ false) × (scan port s socks ≡ (s ∷ socks, [], invalid_fd)))
      ⊎ ((has_port port socks ≡ true)
          × (front : List Sock) × (back : List Sock) × (fd : ℕ) × (scan port s socks
              ≡ (front, back, fd))
          × (fd ≢ invalid_fd)
          × (has fd (fds socks) ≡ true)
          × (close_socket handlers fd (front ++ back) ≡ (s ∷ socks, [])))
unfolding scan
scan-ends handlers port s [] is o = inl (refl, refl)
scan-ends handlers port s (x ∷ socks) is o = elim (Bool-cases (x.port == port)) [
  | inl e ↦ inr (
    rw e,
    s ∷ [],
    one_more x ∷ socks,
    x.sockfd,
    rw e,
    ground (arith, is.valid),
    ground arith,
    close-skips handlers x.sockfd s (one_more x ∷ socks) (x ∷ socks) [] (ground (arith, o))
        (close-one_more handlers x socks is.counted.0 is.counted.1),
  )
  | inr e ↦
      let rest : IsTable socks = record {
        distinct = is.distinct.1;
        valid = ground (arith, is.valid);
        counted = is.counted.2;
      } in
      elim (scan-ends handlers port x socks rest is.distinct.0) [
        | inl (absent, end) ↦ inl (rw (e, absent), rw (e, end))
        | inr (there, front, back, fd, at, valid, member, undone) ↦ inr (
          rw (e, there),
          s ∷ front,
          back,
          fd,
          rw (e, at),
          valid,
          ground (arith, member),
          close-skips handlers fd s (front ++ back) (x ∷ socks) []
              (λ same.
                has-ne fd s.sockfd (x.sockfd ∷ fds socks) (ground (arith, member)) o (sym same))
              undone,
        )
      ]
]

-- What closing the socket does that was asked for: it undoes the count, or closes the socket that
-- was made for the port and calls the handlers.
abbrev pub Undoes : List Ptr → ℕ → List Sock → ℕ → List Sock → Type 0
Undoes handlers port socks fd socks' =
    close_socket handlers fd socks'
    ≡ (socks, if has_port port socks then [] else closed fd ∷ notify handlers fd)

-- On a list as the manager keeps it, where memory is there and the socket made for a port, if one
-- is made, has a valid descriptor that no other socket of the list has: asking for a socket and
-- closing it leaves the list as it was; the socket is closed and the handlers are called, once
-- each, when the list had none for the port, and neither happens when it had one.
pub get_or_create-Undoes :
    (create : ℕ → ℕ) (handlers : List Ptr) (port : ℕ) (socks : List Sock)
    → IsTable socks
    → create port ≢ invalid_fd
    → has (create port) (fds socks) ≡ false
    → Returns (Undoes handlers port socks) (get_or_create create true port socks)
unfolding get_or_create
get_or_create-Undoes create handlers port [] is ne fresh =
    rw (==-ne (create port) invalid_fd ne)
      (returns (close-created handlers port (create port) [] refl))
get_or_create-Undoes create handlers port (s ∷ socks) is ne fresh =
    elim (Bool-cases (s.port == port)) [
      | inl e ↦
          let valid : (s.sockfd == invalid_fd) ≡ false = ground (arith, is.valid) in
          rw (e, valid) (returns (rw e (close-one_more handlers s socks is.counted.0 is.counted.1)))
      | inr e ↦
          let rest : IsTable socks = record {
            distinct = is.distinct.1;
            valid = ground (arith, is.valid);
            counted = is.counted.2;
          } in
          elim (scan-ends handlers port s socks rest is.distinct.0) [
            | inl (absent, end) ↦
                rw (e, end, ==-ne (create port) invalid_fd ne)
                  (returns
                    (rw (e, absent) (close-created handlers port (create port) (s ∷ socks) fresh)))
            | inr (there, front, back, fd, at, valid, member, undone) ↦
                rw (e, at, ==-ne fd invalid_fd valid) (returns (rw (e, there) undone))
          ]
    ]
