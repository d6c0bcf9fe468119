-- ===== src/Lib.antt =====
-- A verification library for CommonUtilsLib, a C library of containers and of services for
-- programs that wait on descriptors. Paths are from the repository's root.
--
-- The program's parts. The containers are on their own: src/stack.c (a stack in an array and a
-- stack in a linked list), src/single-link-list.c, src/circ-link-list.c (a ring of nodes) and
-- src/mem_pool.c (a pool of equal blocks). Their functions suffixed with _r lock a mutex with the
-- macros of src/gccpch.h.in. src/io-scheduler.c keeps its free tasks and its free timer ids in two
-- fixed stacks, its scheduled tasks in a linked list, and calls back the functions of the tasks
-- whose descriptors `select` reports or whose time is over.
-- src/socket-mgr.c counts the users of the sockets of a program, by port. src/child-process-mgr.c
-- keeps a ring of the processes of src/child-process.c that it watches, and asks once a second,
-- with a task of the scheduler, which have ended. src/tcp_socks.c makes TCP sockets and connects
-- them, with a task for each connection that is not made at once; src/tcp_service.c puts a client
-- and a listener on top of it, each connection served by a task of the scheduler.
--
-- Which module models which part:
-- - Base, with children: names that all modules share, Boolean tests on the native numbers, lists
--   indexed by them, signed integers.
-- - Machine: a call is a function from the store to what it returns and the store that it leaves.
--   A fault is undefined behaviour; a failed assert, a lock that is never granted and a loop cut
--   off have outcomes of their own. Machine.Returns: a run ends normally and meets a
--   postcondition. Machine.Mutex: LOCK_MUTEX and LOCK_MUTEX_PTR over a record for POSIX mutexes.
-- - Chain, with children: nodes linked by one pointer field, for every list of the library.
-- - Slist: src/single-link-list.c. `append` is slinklst_append, and so on for each function. The
--   store is the `next` pointers; Slist.Shape says which list a store holds.
-- - Clist: src/circ-link-list.c. `insert_after` is circ_list_insert_after, and so on;
--   Clist.Reentrant has the functions with a mutex. The argument `ndebug` tells what the
--   ASSERT_EXIT macros do. Clist.Ring says which ring a store holds.
-- - Stack.Fixed: the functions stack_fixed_... of src/stack.c, as `fixed_...`. The store is what the
--   argument designates: NULL, a freed stack, or a stack with its array. Stack.Fixed.Inv is the
--   invariant, Stack.Fixed.Refine has the list of bounded length that clients see.
-- - Stack.Free: the functions stack_free_... of src/stack.c, as `free_...`. The store also has the
--   nodes. Stack.Free.Refine has the list that clients see.
-- - MemPool: src/mem_pool.c. `malloc` is mem_pool_malloc, and so on. The store is the pool and the
--   bytes of memory; MemPool.Inv says which blocks are free and which are handed out.
-- - IoScheduler: src/io-scheduler.c. IoScheduler.Tasks makes, finds, schedules and unschedules
--   tasks, IoScheduler.Process calls back, IoScheduler.Pump is one round, IoScheduler.Stop the
--   stop and the loop. The pools are stacks of Stack.Fixed, with its functions.
-- - SocketMgr: src/socket-mgr.c. The lists of sockets and of handlers are lists of their members;
--   sockets closed and handlers called are a list of events. `get_or_create` is what
--   sockmgr_get_or_create_tcp and sockmgr_get_or_create_udp share.
-- - ChildProcessMgr: src/child-process-mgr.c and src/child-process.c. `monitor_pid` is
--   child_proc_mgr_monitor_pid, and so on. The store is the ring of the monitors, the processes,
--   the answers that waitpid has to give, and the scheduler; ChildProcessMgr.Manage has the timer,
--   the start and the end, ChildProcessMgr.Loops says which processes a manager watches.
-- - Sockets: the calls of the operating system on sockets, a record of functions on a state of its
--   own, and records of the documented behaviour that theorems rely on.
-- - TcpSocks: src/tcp_socks.c, with the functions' names. TcpSocks.Pending has the functions that
--   connect, with the list of pending connections and the scheduler.
-- - TcpClient and TcpListener: src/tcp_service.c, with the functions' names. Their stores hold that
--   of TcpSocks.Pending; the listener's also that of SocketMgr and the ring of its clients.
--   TcpListener.Serve takes clients in and serves them.
-- The children of a module named for what they prove have its theorems, `Tests` the runs and the
-- theorems at concrete stores.
--
-- Sizes. A size_t has 64 bits and a pointer 8 bytes; the wrap-around of sizes is written out, and so
-- is the cut of what `read` returns to an `int`. The counters of the clock are not bounded.
--
-- Descriptor sets. FD_SET of a descriptor below 0, or from FD_SETSIZE on, is a fault; FD_SETSIZE is
-- an argument. A set is a test on descriptors, and FD_ISSET and FD_CLR are asked of any.
--
-- Fuel. A loop over nodes takes a number of rounds; one more than the nodes on its way is enough,
-- and a hypothesis asks for it. The loop that adds the seconds of a timeout takes one round for each
-- second begun, and at least one.
--
-- Parameters. What malloc returns is an argument (a flag, an address, or a function of what is
-- allocated, which returns NULL or memory not in use). Callbacks of the lists are functions of
-- addresses without effect; those of the scheduler and of a listener are arbitrary commands. The
-- callbacks of child processes, of connections and of a client are recorded as events in the order
-- of the calls; what they do to the store is not followed. The mutex operations, `select` and the
-- calls on sockets are arguments too, as are the functions that make a socket for SocketMgr.
--
-- Not modelled: the effect of threads on each other (a call under a mutex is one step; what is
-- modelled of a mutex is whether it is granted and released), io_sched_create_scheduler,
-- io_sched_destroy_scheduler and the scheduler's thread, logging (src/logging-svc.c), IP addresses
-- as text, and the services that are sequences of system calls: src/udp_socks.c, src/unix_socks.c,
-- src/custom-pipes.c and src/process_mgmt.c. The asserts of src/io-scheduler.c and
-- src/tcp_service.c are taken as on; in a build with debug messages,
-- io_sched_unschedule_task reads its argument before it tests it, which the argument `debug` tells.
pub mod Base
pub mod Machine
pub mod Chain
pub mod Slist
pub mod Clist
pub mod Stack
pub mod MemPool
pub mod IoScheduler
pub mod SocketMgr
pub mod ChildProcessMgr
pub mod Sockets
pub mod TcpSocks
pub mod TcpClient
pub mod TcpListener
