-- ===== src/TcpListener/Tests.antt =====
-- The theorems on the TCP listener of tcp_service.c at a listener with two clients.
use common_utils_lib.Base.{
  ℕ, ◌≡◌, refl, Bool, true, false, none, some, [], ◌∷◌, arith, ◌==◌, if◌then◌else◌, inr,
}
use common_utils_lib.Base.Int.{pos, negsuc}
use common_utils_lib.Machine.{Ptr, null, ok, fault}
use common_utils_lib.Machine.Returns.{Returns}
use common_utils_lib.Machine.Mutex.{Pthread}
use common_utils_lib.Chain.{put}
use common_utils_lib.Clist.Ring.{IsRing}
use common_utils_lib.Stack.{nil}
use common_utils_lib.IoScheduler.{no_opts, Task, fd_of_ptr}
use common_utils_lib.SocketMgr.{get_or_create_tcp, get_or_create, create_sockinf}
use common_utils_lib.Sockets.{is_invalid}
use common_utils_lib.Sockets.Closing.{closing}
use common_utils_lib.TcpListener.{World, Remote, tcp_listener_drop_client}
use common_utils_lib.TcpListener.Serve.{tcp_listener_init}
use common_utils_lib.TcpListener.Drop.{Dropped, drop_client-Dropped, tcp_listener_init-faults}

abbrev visitor : ℕ → Ptr → Remote
visitor fd io_task = record {
  fd = pos fd;
  remote_ip = 1;
  remote_port = 80;
  io_task = io_task;
  read_buffer = 40;
  read_buffer_size = 512;
  user_data = null;
}

abbrev reading : Task
reading = record {
  owner = 1;
  fd = pos 5;
  opts = record no_opts { read = true };
  time_out = negsuc 0;
  expire_time = record { sec = 0; nsec = 0 };
  user_data = 32;
  on_read_rdy_cbk = 80;
  on_write_rdy_cbk = null;
  on_err_rdy_cbk = null;
  on_timeout_cbk = 80;
}

-- The head of the ring is at 31; the client at 32, whose task is at 2, and the one at 33.
abbrev two_clients : World closing
two_clients = record {
  tcp = record {
    sockets = [];
    pending = null;
    next = λ _. none;
    conns = λ p. record {
      sockfd = negsuc 0;
      status = pos 0;
      on_connect = null;
      on_connect_ud = null;
      user_data = null;
      remote_addr = (0, 0);
    };
    events = [];
    scheduler = record {
      next = put (put (λ _. none) 1 2) 2 null;
      task = λ _. reading;
      task_pool = nil;
      timer_id_pool = nil;
      threaded = false;
      stop_scheduler = false;
      clock = record { sec = 0; nsec = 0 };
    };
  };
  mgr = record { tcp = []; udp = []; handlers = []; events = [] };
  listener = none;
  links = record {
    next = put (put (put (λ _. none) 31 32) 32 33) 33 31;
    prev = put (put (put (λ _. none) 31 33) 32 31) 33 32;
  };
  remotes =
      λ c. if c == 32 then some (visitor 5 2) else if c == 33 then some (visitor 6 null) else none;
}

two_clients-IsRing : IsRing two_clients.links 31 (32 ∷ 33 ∷ [])
two_clients-IsRing = record {
  forward = (omega arith, refl, (omega arith, refl, (omega arith, refl, tt)));
  distinct = (refl, (refl, (refl, tt)));
  back = λ a b i e. ground arith;
}

drop_client-Dropped_example :
    Returns
      (λ _ g. IsRing g.links 31 (33 ∷ []) × Dropped closing two_clients g 32 (visitor 5 2))
      (tcp_listener_drop_client closing true 32 two_clients)
drop_client-Dropped_example =
    drop_client-Dropped closing two_clients 31 (32 ∷ 33 ∷ []) two_clients-IsRing [] 31 32 (33 ∷ [])
      refl (33 ∷ []) refl (visitor 5 2) refl (inr (null, refl)) true

abbrev one_thread : Pthread
one_thread = record { Mutex = Bool; lock = λ m. if m then none else some true; unlock = λ m. false }

made_socket :
    get_or_create_tcp (λ port. 9) true 80 two_clients.mgr
    ≡ ok 9 (record {
      tcp = record { port = 80; sockfd = 9; connections = 1 } ∷ [];
      udp = [];
      handlers = [];
      events = [];
    })
unfolding get_or_create_tcp get_or_create create_sockinf
made_socket = refl

valid_fd : is_invalid (fd_of_ptr 9) ≡ false
unfolding fd_of_ptr
valid_fd = refl

tcp_listener_init-faults_example :
    tcp_listener_init closing one_thread false false 80 5 5
      (λ port. 9)
      true
      30
      31
      80
      null
      two_clients
    ≡ fault
tcp_listener_init-faults_example =
    tcp_listener_init-faults closing one_thread false false 80 5 5 (λ port. 9) true 30 31 80 null
      two_clients 9 _ (omega arith) (omega arith) made_socket valid_fd
