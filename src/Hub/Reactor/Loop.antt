-- ===== src/Hub/Reactor/Loop.antt =====
-- Reactor::Run of src/hub/reactor.cpp, on Linux.
use hi_im_core.Prelude.{Bool, List, Run, [], done, if◌then◌else◌, map, some, ℕ, ◌>>=◌, ◌∷◌}
use hi_im_core.Hub.Context.{HubContext}
use hi_im_core.Hub.Reactor.{Reactor, close_all}
use hi_im_core.Hub.Reactor.Input.{RecvEnv, handle_readable}
use hi_im_core.Hub.Reactor.Output.{Kernel, drain_send_queue, handle_writable}
use hi_im_core.Wire.Bytes.{Endian}

-- What the other threads have done to the plane, as far as the reactor has come: new connections and
-- frames in its queues, and whatever they do to the rest.
abbrev pub Meanwhile : Type 0
Meanwhile = Reactor → HubContext

abbrev pub absorb : Meanwhile → Reactor → Reactor
absorb others r = record r { ctx = others r }

-- An entry of epoll_wait: EPOLLIN, EPOLLERR or EPOLLHUP, what recv returns then, and EPOLLOUT.
pub record Event : Type 0 where
  pub meanwhile : Reactor → HubContext
  pub fd : ℕ
  pub readable : Bool
  pub chunks : List (List ℕ)
  pub more_later : Bool
  pub writable : Bool

-- A round of the loop, for one time that Running() was still true.
pub record Round : Type 0 where
  pub events : List Event
  pub before_sends : Reactor → HubContext

module _ (e : Endian) (kernel : Kernel) (others : RecvEnv) (fuel : ℕ) where
  abbrev pub if_readable : Event → Reactor → Run Reactor
  if_readable ev r =
      if ev.readable
      then handle_readable e kernel others fuel ev.fd ev.chunks ev.more_later r
      else done r

  abbrev pub if_writable : Event → Reactor → Run Reactor
  if_writable ev r = if ev.writable then handle_writable kernel (some ev.fd) r else done r

  unfoldable pub on_event : Event → Reactor → Run Reactor
  on_event ev r = if_readable ev (absorb ev.meanwhile r) >>= λ r'. if_writable ev r'

  unfoldable pub on_events : List Event → Reactor → Run Reactor
  on_events [] r = done r
  on_events (ev ∷ evs) r = on_event ev r >>= λ r'. on_events evs r'

  unfoldable pub on_round : Round → Reactor → Run Reactor
  unfolding on_events
  on_round round r =
      on_events round.events r >>= λ r'. drain_send_queue kernel fuel (absorb round.before_sends r')

  -- The rounds of the loop, and the closing of every session after it.
  unfoldable pub run : List Round → Reactor → Run Reactor
  unfolding on_round
  run [] r = done (close_all (map (λ entry. entry.0) r.sessions) r)
  run (round ∷ rounds) r = on_round round r >>= λ r'. run rounds r'
