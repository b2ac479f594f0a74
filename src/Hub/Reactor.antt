-- ===== src/Hub/Reactor.antt =====
-- src/hub/reactor.cpp and src/hub/reactor.hpp: a reactor thread and the sessions it serves. The
-- state is here; what goes out is in Output, and what comes in is in
-- Input; Loop is the thread itself.
pub mod Output
pub mod Input
pub mod Loop
pub mod Laws
pub mod Running
mod Tests
use mathlib.Core.Option
use hi_im_core.Hub.Router
use hi_im_core.Wire.FrameBuffer
use hi_im_core.Prelude.{
  Bool, List, Option, Run, Table, [], at_least_one, dangling, done, erase, false, if◌then◌else◌,
  insert, lookup, none, some, ℕ, ℤ, ◌%◌, ◌++◌, ◌+◌, ◌∷◌,
}
use hi_im_core.Hub.Context.{HubContext}
use hi_im_core.Hub.Router.{Router}
use hi_im_core.Wire.FrameBuffer.{FrameBuffer}

pub record Session : Type 0 where
  pub sid : ℕ
  pub fd : Option ℕ
  pub authed : Bool
  pub gid : ℕ
  pub nid : ℕ
  pub fb : FrameBuffer
  pub outbuf : List ℕ

-- A system call of the reactor: epoll_ctl with EPOLL_CTL_ADD, _MOD (want_read, want_write) and
-- _DEL, TuneTcpSocket, the bytes that a send took, close, and the wakeup's Drain.
pub data Call : Type 0 where
  epoll_add : Option ℕ → Call
  epoll_mod : Option ℕ → Bool → Bool → Call
  epoll_del : Option ℕ → Call
  tuned : Option ℕ → Call
  wrote : Option ℕ → List ℕ → Call
  closed : Option ℕ → Call
  drained_wakeup : Call

-- The context is the plane's, which the reactor shares with the other threads. `calls` are the
-- system calls so far, oldest first; `clock` counts the steps that another party decides.
pub record Reactor : Type 0 where
  pub ctx : HubContext
  pub idx : ℕ
  pub worker_count : ℕ
  pub wakeup_fd : ℕ
  pub fd_to_sid : Table ℕ
  pub sessions : Table Session
  pub calls : List Call
  pub clock : ℕ

-- The constructor.
unfoldable pub make_reactor : HubContext → ℕ → ℤ → ℕ → Reactor
make_reactor ctx idx worker_count wakeup_fd = record {
  ctx = ctx;
  idx = idx;
  worker_count = at_least_one worker_count;
  wakeup_fd = wakeup_fd;
  fd_to_sid = [];
  sessions = [];
  calls = [];
  clock = 0;
}

-- `Session{}`
abbrev pub no_session : Session
no_session = record {
  sid = 0;
  fd = none;
  authed = false;
  gid = 0;
  nid = 0;
  fb = FrameBuffer.empty;
  outbuf = [];
}

-- The key of a descriptor in a table: -1 is `none`.
abbrev pub fd_key : Option ℕ → ℕ
fd_key none = 0
fd_key (some fd) = fd + 1

abbrev pub call : Call → Reactor → Reactor
call c r = record r { calls = r.calls ++ (c ∷ []) }

abbrev pub tick : Reactor → Reactor
tick r = record r { clock = r.clock + 1 }

abbrev pub put_session : ℕ → Session → Reactor → Reactor
put_session k s r = record r { sessions = insert k s r.sessions }

abbrev pub with_router : (Router → Router) → Reactor → Reactor
with_router f r = record r { ctx = record (r.ctx) { router = f r.ctx.router } }

abbrev pub or_dangling : Option Session → Run Session
or_dangling none = dangling
or_dangling (some s) = done s

-- A use of a `Session&` that was taken at the key `k`.
abbrev pub deref : ℕ → Reactor → Run Session
deref k r = or_dangling (lookup k r.sessions)

-- `sessions_[k]`: a missing entry becomes a default one.
unfoldable pub touch : ℕ → Reactor → Reactor
touch k r = elim (lookup k r.sessions) [ none ↦ put_session k no_session r | some s ↦ r ]

unfoldable pub pick_worker : ℕ → Reactor → ℕ
pick_worker sid r = sid % r.worker_count

unfoldable pub update_interest : Session → Bool → Bool → Reactor → Reactor
update_interest s want_read want_write r = call (epoll_mod s.fd want_read want_write) r

-- CloseSession at an entry that is found.
unfoldable pub close_found : ℕ → Session → Reactor → Reactor
close_found sid s r = record r {
  ctx =
      if s.authed
      then record (r.ctx) { router = Router.remove_session s.sid s.nid r.ctx.router }
      else r.ctx;
  fd_to_sid = erase (fd_key s.fd) r.fd_to_sid;
  sessions = erase sid r.sessions;
  calls = r.calls ++ (epoll_del s.fd ∷ closed s.fd ∷ []);
}

unfoldable pub close_session : ℕ → Reactor → Reactor
unfolding close_found
close_session sid r = elim (lookup sid r.sessions) [ none ↦ r | some s ↦ close_found sid s r ]

-- The loop at the end of Run.
unfoldable pub close_all : List ℕ → Reactor → Reactor
unfolding close_session
close_all [] r = r
close_all (sid ∷ sids) r = close_all sids (close_session sid r)
