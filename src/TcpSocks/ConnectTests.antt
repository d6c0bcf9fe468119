-- ===== src/TcpSocks/ConnectTests.antt =====
-- The theorems on the connect functions of tcp_socks.c at small systems.
use common_utils_lib.Base.{◌≡◌, refl, Bool, true, false, none, some, [], ◌∷◌, arith, if◌then◌else◌}
use common_utils_lib.Base.Int.{pos, negsuc}
use common_utils_lib.Machine.{null}
use common_utils_lib.Machine.Mutex.{Pthread}
use common_utils_lib.Machine.Returns.{Returns}
use common_utils_lib.Chain.{put}
use common_utils_lib.Stack.{nil, live, type_fixed}
use common_utils_lib.IoScheduler.{no_opts}
use common_utils_lib.IoScheduler
use common_utils_lib.IoScheduler.Writer.{HasRoom}
use common_utils_lib.Sockets.{Sockets}
use common_utils_lib.Sockets.Closing.{closing}
use common_utils_lib.TcpSocks.Pending.{
  World, connect_timeout, without_userdata, with_userdata, set_callback, set_user_data,
}
use common_utils_lib.TcpSocks.Attempt.{
  tried, verdict, Over, is_connected, left, answered, fresh, connect_timeout-Over,
}
use common_utils_lib.TcpSocks.Watch.{Waiting, connect_timeout-Waiting}

-- A system on which no connection is made at once.
abbrev slow : Sockets
slow = record closing { errno = λ s. pos 115 }

abbrev one_thread : Pthread
one_thread = record { Mutex = Bool; lock = λ m. if m then none else some true; unlock = λ m. false }

-- The scheduler at 1 has the task 2; the task 3 is on top of the pool.
abbrev with_room : IoScheduler.World
with_room = record {
  next = put (put (put (λ _. none) 1 2) 2 null) 3 null;
  task = λ _. record {
    owner = 1;
    fd = pos 5;
    opts = no_opts;
    time_out = negsuc 0;
    expire_time = record { sec = 0; nsec = 0 };
    user_data = null;
    on_read_rdy_cbk = null;
    on_write_rdy_cbk = null;
    on_err_rdy_cbk = null;
    on_timeout_cbk = null;
  };
  task_pool = live (record {
    type = type_fixed;
    current = 1;
    limit = 2;
    free_top = null;
    fixed_base = 0 ∷ 3 ∷ [];
  });
  timer_id_pool = nil;
  threaded = false;
  stop_scheduler = false;
  clock = record { sec = 7; nsec = 0 };
}

has_room : HasRoom with_room 1 (2 ∷ []) 2 3 []
has_room = record {
  pool = record {
    stack = _;
    there = refl;
    valid = record { kind = refl; fits = omega arith; room = refl; within = omega arith };
    capacity = refl;
    holds = refl;
  };
  ne = omega arith;
  old = null;
  cell = refl;
  list = record {
    linked = (omega arith, refl, (omega arith, refl, tt));
    distinct = (refl, (refl, tt));
  };
  out = refl;
  clock = omega arith;
}

-- One connection is pending, at 20.
abbrev one_pending : (os : Sockets) → os.State → World os
one_pending os s = record {
  sockets = s;
  pending = 20;
  next = put (λ _. none) 20 null;
  conns = λ p. fresh os (pos 7) (1, 80);
  events = [];
  scheduler = with_room;
}

connect_timeout-Over_example :
    Returns
      (λ b g.
        let v = verdict closing (tried closing (pos 4) (1, 80) []) 1 in
        (b ≡ is_connected closing v)
        × Over closing
            (one_pending closing [])
            g
            30
            (left closing v (pos 4) (tried closing (pos 4) (1, 80) []).1)
            (answered closing v (without_userdata 70) 1 (pos 4)))
      (connect_timeout closing one_thread false false 60 5 5 30
        (pos 4)
        1
        80
        1
        (without_userdata 70)
        (pos 2)
        (one_pending closing []))
connect_timeout-Over_example =
    connect_timeout-Over closing one_thread false false 60 5 5 (one_pending closing []) 30 (pos 4) 1
      80 1 (pos 2) (omega arith) refl (without_userdata 70) refl

connect_timeout-Waiting_example :
    Returns
      (λ b g.
        (b ≡ true)
        × Waiting slow
            (one_pending slow [])
            g
            30
            1
            (20 ∷ [])
            (2 ∷ [])
            3
            (tried slow (pos 4) (1, 80) []).1
            (set_callback
              (with_userdata 9 70)
              (set_user_data (with_userdata 9 70) (fresh slow (pos 4) (1, 80)))))
      (connect_timeout slow one_thread false false 60 2 4 30
        (pos 4)
        1
        80
        1
        (with_userdata 9 70)
        (pos 3)
        (one_pending slow []))
connect_timeout-Waiting_example =
    connect_timeout-Waiting slow one_thread false true false refl 60 2 4 1 (omega arith) (2 ∷ [])
      (omega arith) 3 (omega arith) 2 3 [] (one_pending slow []) 30 (pos 4) 1 80
      (with_userdata 9 70) (20 ∷ []) has_room
      (record { start = refl; linked = (omega arith, refl, tt); distinct = (refl, tt) })
      (omega arith) refl refl refl
