-- ===== src/TcpClient/Tests.antt =====
-- The theorems on the TCP client of tcp_service.c at a client that is connected, and runs of its
-- functions.
use common_utils_lib.Base.{◌≡◌, refl, true, false, none, some, [], arith, ◌==◌, if◌then◌else◌, inr}
use common_utils_lib.Base.Int.{pos, negsuc}
use common_utils_lib.Machine.{null, ok}
use common_utils_lib.Machine.Returns.{Returns}
use common_utils_lib.Chain.{put}
use common_utils_lib.Stack.{nil}
use common_utils_lib.IoScheduler.{int_of, no_opts, Task}
use common_utils_lib.Sockets.Closing.{closing}
use common_utils_lib.TcpClient.{
  World, Client, tcp_client_disconnect, on_tcp_client_server_responded,
}
use common_utils_lib.TcpClient.Disconnect.{Disconnected, tcp_client_disconnect-Disconnected}
use common_utils_lib.TcpClient.Respond.{Served, Caused, responded-Served}

-- The task at 2, which reads for the client at 30.
abbrev reader : Task
reader = record {
  owner = 1;
  fd = pos 5;
  opts = record no_opts { read = true };
  time_out = negsuc 0;
  expire_time = record { sec = 0; nsec = 0 };
  user_data = 30;
  on_read_rdy_cbk = 80;
  on_write_rdy_cbk = null;
  on_err_rdy_cbk = null;
  on_timeout_cbk = 80;
}

abbrev online : Client
online = record {
  fd = pos 5;
  remote_ip = 1;
  remote_port = 80;
  io_task = 2;
  read_buffer = 40;
  read_buffer_size = 512;
  user_data = null;
  on_closed = 90;
  on_connected = null;
  on_server_responded = 91;
}

-- The client at 30, whose task is at 2.
abbrev one_client : World closing
one_client = record {
  tcp = record {
    sockets = [];
    pending = null;
    next = λ _. none;
    conns = λ p. record {
      sockfd = negsuc 0;
      status = pos 0;
      on_connect = null;
      on_connect_ud = null;
      user_data = null;
      remote_addr = (0, 0);
    };
    events = [];
    scheduler = record {
      next = put (put (λ _. none) 1 2) 2 null;
      task = λ _. reader;
      task_pool = nil;
      timer_id_pool = nil;
      threaded = false;
      stop_scheduler = false;
      clock = record { sec = 0; nsec = 0 };
    };
  };
  clients = λ c. if c == 30 then some online else none;
  events = [];
}

tcp_client_disconnect-Disconnected_example :
    Returns
      (λ _ g.
        Disconnected closing one_client g 30 online
        × (tcp_client_disconnect closing true 30 g ≡ ok tt g))
      (tcp_client_disconnect closing true 30 one_client)
tcp_client_disconnect-Disconnected_example =
    tcp_client_disconnect-Disconnected closing true one_client 30 online (omega arith) refl
      (inr (null, refl))

responded-Served_example :
    Returns
      (λ complete g.
        let answer = closing.read (pos 5) online.read_buffer_size [] in
        Served closing answer.1 30 online complete g
        × Caused closing one_client
            (λ c bytes. true)
            30
            online
            (int_of answer.0.0)
            (closing.errno answer.1)
            answer.0.1
            complete
            g)
      (on_tcp_client_server_responded closing (λ c bytes. true) true reader one_client)
responded-Served_example =
    responded-Served closing (λ c bytes. true) true one_client reader online (omega arith) refl refl
      (omega arith) (inr (null, refl))
