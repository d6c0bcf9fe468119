-- ===== src/Sockets/Closing.antt =====
-- A small system that the tests on tcp_service.c run on.
use common_utils_lib.Base.{List, [], ◌∷◌}
use common_utils_lib.Base.Int.{ℤ, pos, negsuc}
use common_utils_lib.Sockets.{Sockets}

-- A system whose state is the list of the descriptors that have been closed, and that reads two
-- bytes each time.
abbrev pub closing : Sockets
closing = record {
  State = List ℤ;
  errno = λ s. pos 0;
  eagain = 11;
  eintr = 4;
  einprogress = 115;
  etime = 62;
  nonblock_bit = 11;
  htons = λ p. p;
  ntohs = λ p. p;
  socket = λ s. (negsuc 0, s);
  setsockopt = λ fd opt v s. (pos 0, s);
  bind = λ fd addr s. (pos 0, s);
  listen = λ fd n s. (pos 0, s);
  close = λ fd s. (pos 0, fd ∷ s);
  getfl = λ fd s. (pos 2, s);
  setfl = λ fd flags s. (pos 0, s);
  accept = λ fd s. ((negsuc 0, (0, 0)), s);
  connect = λ fd addr s. (negsuc 0, s);
  so_error = λ fd s. ((pos 0, pos 0), s);
  send = λ fd bytes s. (negsuc 0, s);
  read = λ fd n s. ((pos 2, 7 ∷ 8 ∷ []), s);
}
