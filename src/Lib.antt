-- ===== src/Lib.antt =====
-- A model of hi-im-core, the message hub of an instant messaging system, and proofs about it.
--
-- The hub has two planes. Access nodes connect to the forward plane and business nodes to the
-- backend plane, both over TCP with the bus wire v1 protocol. On each plane a listener accepts
-- connections and deals them to reactors; a reactor owns its sessions, reassembles frames, answers
-- system frames and hands the other ones to workers; a worker calls the bridge, which publishes what
-- comes from the forward plane to the subscribers on the backend plane, and sends what comes from
-- the backend plane to the node that its IM header names; the distributor moves frames to the send
-- queues of the reactors.
--
-- The parts and their files:
--   Prelude: names and lemmas that the parts share: tests on numbers, lists, hash tables as
--     association lists (Maps), the ways a step of a thread ends (Outcomes), texts (Text).
--   Wire: include/hiim/wire/header.hpp (Bytes, Header), include/hiim/wire/sys_cmd.hpp (SysCmd),
--     include/hiim/wire/auth.hpp (Auth), src/wire/frame_buffer.hpp (FrameBuffer).
--   Im: include/hiim/im/header.hpp.
--   Hub.Status: include/hiim/status.hpp.
--   Hub.Router: include/hiim/hub/router.hpp and src/hub/router.cpp. Router/View is the abstract view
--     that Router/Refine proves it to implement.
--   Hub.Queue: src/hub/queue.hpp (Spsc, Mpsc) and src/hub/queue_push.hpp (Backoff). Queue/Spec is the
--     contract of both queues; Queue/Steps interleaves a producer and a consumer access by access.
--   Hub.Messages, Hub.Context: include/hiim/hub/context.hpp and src/hub/context_impl.cpp.
--   Hub.Bridge: src/hub/bridge.cpp. Hub.Worker: src/hub/worker.cpp.
--   Hub.Distributor: src/hub/distributor.cpp.
--   Hub.Reactor: src/hub/reactor.cpp and src/hub/reactor.hpp, its state in Reactor, what it sends in
--     Output, what it receives in Input, the thread in Loop.
--   Hub.Sockets: the listening sockets that src/hub/listener.cpp and src/hub/health_server.cpp open.
--   Hub.SocketTuning: src/hub/socket_tuning.hpp.
--   Hub.Listener: src/hub/listener.cpp. Hub.Health: src/hub/health_server.cpp.
--   Hub.Thread: Start and Join of src/hub/worker.cpp, src/hub/distributor.cpp and
--     src/hub/reactor.cpp.
--   Hub.Server: src/hub/hub_server.cpp, the constructor in Server and the rest in Server/Lifecycle.
--   Hub.RouteLog: src/hub/route_log.hpp, its lines in RouteLog/Lines; what the bridge handlers log on
--     the way of a message is in RouteLog/Handlers.
--   Options: the loop over the command line that both programs have.
--   Program: cmd/hi-im-hub/main.cpp.
--   Hub.Wakeup: src/hub/pipe_wakeup.hpp; Wakeup/Steps interleaves producers with the loop of a worker.
--   Hub.Delivery: a worker, the distributor and a reactor after one another.
--   Hub.Interleaving: the thread of a reactor with the steps of the other threads between its own.
--   Bench: cmd/hi-im-bench/main.cpp, what the benchmark client sends and how it reads; its options,
--     connection and login are in Bench/Setup, its threads in Bench/Threads, and what main makes of
--     them in Bench/Report.
--
-- A function has the name of the C++ function in lower case with underscores (TryPopFrame is
-- try_pop_frame), takes the object's state and returns the new one. Bytes and fixed-width integers
-- are natural numbers; a conversion or a sum that can wrap is written with its remainder. The byte
-- order of the host is a parameter. A reference into a map of the reactor is the key it was taken
-- at, and a use of it after the entry is erased is the outcome `dangling`.
--
-- What other threads and the kernel do is a parameter: what they do to a queue before each attempt
-- of a push, what send and recv return. Each method under a lock is one step.
--
-- Loops that the data bounds are by recursion on the data. The others have fuel: the popping loop
-- one more than the bytes in the buffer, since each frame has 20 bytes at least; the write loop one
-- more than the bytes that wait, and WriteAll one more than the bytes to send, since each send takes
-- one at least; the loops that drain a queue, which other threads may fill meanwhile, any number.
--
-- A thread that is started is the flag that it is to be joined, and which threads end after Stop is
-- a parameter, but for the thread of the health server, which ends unless a client stays silent. What socket, bind, listen and
-- epoll_create1 return is a parameter. What the other threads do to the plane between the steps of a
-- reactor is a function of the reactor's state, so they may react to it. A loop of the benchmark is
-- the list of its rounds: what its test finds, and what recv returns; where the list of what recv
-- returns is over, recv does not return. The capacity of a queue is below 2^64 - 1, so that
-- `capacity + 1` does not wrap.
--
-- A line of the log is the list of what is put into std::cerr; only the way of a message between
-- the planes has its log modelled, as functions of their own beside those that do the work.
--
-- Not modelled: the rest of the log, the kqueue and pipe variants, and the tests.
pub mod Prelude
pub mod Wire
pub mod Im
pub mod Hub
pub mod Bench
pub mod Options
pub mod Program
