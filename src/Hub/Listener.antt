-- ===== src/Hub/Listener.antt =====
-- src/hub/listener.cpp: the thread that accepts connections and deals them to the reactors.
pub mod Laws
pub mod Numbering
pub mod Feeding
pub mod Opening
use mathlib.Core.Option
use hi_im_core.Hub.Queue.Spsc
use hi_im_core.Prelude.{
  Bool, List, Option, Run, [], at_least_one, done, false, if◌then◌else◌, none, or_throw, set, some,
  true, ℕ, ℤ, ◌%◌, ◌++◌, ◌+◌, ◌>>=◌, ◌^◌, ◌∷◌,
}
use hi_im_core.Hub.Context.{
  HubContext, conn_queue, mark_listening, next_session_id, notify, reactor_wakeup, request_stop,
}
use hi_im_core.Hub.Messages.{NewConnection}
use hi_im_core.Hub.Queue.Spsc.{SpscQueue}
use hi_im_core.Hub.Reactor.{Call, closed, tuned}
use hi_im_core.Hub.Sockets.{
  Parsed, SocketCall, SocketEnv, close_calls, no_colon, open_socket, parse_port, parsed, throws,
}
use hi_im_core.Hub.Thread.{joins}

-- `round` is the static counter of PickReactor, which both planes share; `listen_fd` is -1 as `none`;
-- `joinable` tells whether the thread has been started and not joined.
pub record Listener : Type 0 where
  pub ctx : HubContext
  pub reactor_count : ℕ
  pub round : ℕ
  pub listen_fd : Option ℕ
  pub started : Bool
  pub joinable : Bool
  pub calls : List Call
  pub socket_calls : List SocketCall

unfoldable pub make_listener : HubContext → ℤ → ℕ → Listener
make_listener ctx reactor_count round = record {
  ctx = ctx;
  reactor_count = at_least_one reactor_count;
  round = round;
  listen_fd = none;
  started = false;
  joinable = false;
  calls = [];
  socket_calls = [];
}

-- The index, and the counter after it.
unfoldable pub pick_reactor : ℕ → ℕ → ℕ × ℕ
pick_reactor reactor_count round = (round % reactor_count, (round + 1) % 2 ^ 64)

-- The test that Start makes of the address.
unfoldable pub parse_listen_addr : (List ℕ → Option ℤ) → Listener → Parsed
unfolding parse_port
parse_listen_addr stoi l = parse_port stoi l.ctx.cfg.listen_addr

-- How Start ends: its answer, or the exception of std::stoi.
pub data Started : Type 0 where
  answered : Bool → Listener → Started
  threw : Listener → Started

-- What Start does with the socket that it got, or did not.
abbrev pub finish_start : Listener → Option ℕ × List SocketCall → Started
finish_start l (none, calls) =
    answered false
      (record l { listen_fd = none; started = false; socket_calls = l.socket_calls ++ calls })
finish_start l (some fd, calls) = answered true (record l {
  ctx = mark_listening true l.ctx;
  listen_fd = some fd;
  started = true;
  joinable = true;
  socket_calls = l.socket_calls ++ calls;
})

unfoldable pub start_parsed : SocketEnv → Listener → Parsed → Started
unfolding mark_listening
start_parsed env l no_colon = answered false (record l { started = false })
start_parsed env l throws = threw (record l { started = true })
start_parsed env l (parsed port) = finish_start l (open_socket env port 512)

unfoldable pub start : SocketEnv → (List ℕ → Option ℤ) → Listener → Started
unfolding start_parsed parse_listen_addr
start env stoi l =
    if l.started then answered true l else start_parsed env l (parse_listen_addr stoi l)

unfoldable pub stop : Listener → Listener
unfolding request_stop
stop l = record l {
  ctx = request_stop l.ctx;
  listen_fd = none;
  socket_calls = l.socket_calls ++ close_calls l.listen_fd;
}

-- Join, with whether Run ends; `none` means that Join waits for ever.
unfoldable pub join : Bool → Listener → Option Listener
join ends l = if joins l.joinable ends then some (record l { joinable = false }) else none

-- What one call of accept returns: -1, or a descriptor and whether SetNonBlocking works on it.
pub data Accept : Type 0 where
  refused : Accept
  accepted : ℕ → Bool → Accept

-- The push of a new connection, and what follows it.
abbrev pub finish_accept : ℕ → ℕ → Listener → SpscQueue NewConnection × Bool → Listener
finish_accept fd i l (q, true) = record l {
  ctx = notify (reactor_wakeup i) (record (l.ctx) { conn_queues = set l.ctx.conn_queues i q });
}
finish_accept fd i l (q, false) = record l {
  ctx = record (l.ctx) { conn_queues = set l.ctx.conn_queues i q };
  calls = l.calls ++ (closed (some fd) ∷ []);
}

-- What the reactor does to its queue before the push.
abbrev pub ConnEnv : Type 0
ConnEnv = SpscQueue NewConnection → SpscQueue NewConnection

-- A connection that accept has returned, once it is nonblocking.
unfoldable pub deal : ConnEnv → ℕ → Listener → Run Listener
deal others fd l =
    let (i, round) = pick_reactor l.reactor_count l.round in
    let (sid, ctx) = next_session_id l.ctx in
    or_throw (conn_queue i ctx) >>= λ q. done (
      finish_accept fd i
        (record l { ctx = ctx; round = round; calls = l.calls ++ (tuned (some fd) ∷ []) })
        (Spsc.push (others q) (record { fd = some fd; sid = sid })))

-- One round of the loop of Run.
unfoldable pub on_accept : ConnEnv → Accept → Listener → Run Listener
unfolding deal
on_accept others refused l = done l
on_accept others (accepted fd true) l = deal others fd l
on_accept others (accepted fd false) l =
    done (record l { calls = l.calls ++ (closed (some fd) ∷ []) })

-- The rounds of the loop, until Running() is false.
unfoldable pub run : List (ConnEnv × Accept) → Listener → Run Listener
run [] l = done l
run ((others, a) ∷ rounds) l = on_accept others a l >>= λ l'. run rounds l'
