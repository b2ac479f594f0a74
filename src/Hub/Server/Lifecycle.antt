-- ===== src/Hub/Server/Lifecycle.antt =====
-- Start, Stop, Wait and the destructor of HubServer (src/hub/hub_server.cpp).
pub mod Listening
pub mod Outcome
use mathlib.Core.Option
use hi_im_core.Hub.Listener
use hi_im_core.Hub.Health
use hi_im_core.Prelude.{
  Bool, List, Option, [], at_least_one, false, if◌then◌else◌, none, some, suc, true, zero, ℕ, ℤ,
  ◌*◌, ◌+◌, ◌||◌, ◌∷◌,
}
use hi_im_core.Hub.Bridge.{Hub, with_context}
use hi_im_core.Hub.Context.{dist_wakeup, reactor_wakeup, worker_wakeup}
use hi_im_core.Hub.Health.{Client, HealthServer, HealthStarted, has_returned, make_health}
use hi_im_core.Hub.Listener.{Listener, Started}
use hi_im_core.Hub.Messages.{backend, forward}
use hi_im_core.Hub.Server.{DualHubConfig, make_hub, request_stop_all, start_listener}
use hi_im_core.Hub.Sockets.{SocketEnv}
use hi_im_core.Hub.Thread.{Poller, join_poller, no_poller, start_poller, start_reactor_poller}

pub record Server : Type 0 where
  pub cfg : DualHubConfig
  pub hub : Hub
  pub forward_listener : Option Listener
  pub backend_listener : Option Listener
  pub distributors : List Poller
  pub reactors : List Poller
  pub workers : List Poller
  pub health : Option HealthServer

unfoldable pub make_server : DualHubConfig → Server
make_server cfg = record {
  cfg = cfg;
  hub = make_hub cfg;
  forward_listener = none;
  backend_listener = none;
  distributors = [];
  reactors = [];
  workers = [];
  health = none;
}

-- Which threads end once Stop has been called, those of a list by their place in it, and what the
-- rounds of the health server meet; `to_decimal` is `operator<<` on a length.
pub record Endings : Type 0 where
  pub forward_ends : Bool
  pub backend_ends : Bool
  pub distributor_ends : ℕ → Bool
  pub reactor_ends : ℕ → Bool
  pub worker_ends : ℕ → Bool
  pub to_decimal : ℕ → List ℕ
  pub health_rounds : List (Hub × Client)

-- What the kernel answers: the three sockets, and the calls of epoll_create1 in order. `stoi` is
-- std::stoi, `round` the counter of PickReactor.
pub record ServerEnv : Type 0 where
  pub forward_socket : SocketEnv
  pub backend_socket : SocketEnv
  pub health_socket : SocketEnv
  pub epolls : ℕ → Option ℕ
  pub stoi : List ℕ → Option ℤ
  pub round : ℕ
  pub endings : Endings

-- How Start ends: its answer, or the exception of std::stoi.
pub data ServerStarted : Type 0 where
  answered : Bool → Server → ServerStarted
  threw : Server → ServerStarted

abbrev pub after_listener :
    Started → (Listener → Server) → (Bool → Server → ServerStarted) → ServerStarted
after_listener (Started.answered b l) put continue = continue b (put l)
after_listener (Started.threw l) put continue = ServerStarted.threw (put l)

abbrev pub put_forward : Server → Listener → Server
put_forward s l = record s { hub = with_context forward l.ctx s.hub; forward_listener = some l }

abbrev pub put_backend : Server → Listener → Server
put_backend s l = record s { hub = with_context backend l.ctx s.hub; backend_listener = some l }

-- The pollers numbered from `i` on: two for each number, on the forward and the backend plane.
unfoldable pub pollers : (ℕ → ℕ → Poller) → ℕ → ℕ → List Poller
pollers start i zero = []
pollers start i (suc n) = start (2 * i) i ∷ start (2 * i + 1) i ∷ pollers start (i + 1) n

module _ (env : ServerEnv) where
  abbrev pub reactor_count : Server → ℕ
  reactor_count s = at_least_one s.cfg.reactor_threads

  abbrev pub worker_count : Server → ℕ
  worker_count s = at_least_one s.cfg.worker_threads

  -- The threads between the listeners and the health server.
  unfoldable pub start_threads : Server → Server
  unfolding pollers
  start_threads s = record s {
    distributors =
        start_poller (env.epolls 0) dist_wakeup no_poller
        ∷ start_poller (env.epolls 1) dist_wakeup no_poller
        ∷ [];
    reactors =
        pollers (λ k i. start_reactor_poller (env.epolls (2 + k)) (reactor_wakeup i) no_poller) 0
          (reactor_count s);
    workers =
        pollers
          (λ k i.
            start_poller (env.epolls (2 + 2 * reactor_count s + k)) (worker_wakeup i) no_poller)
          0 (worker_count s);
  }

  abbrev pub finish_health : Server → HealthStarted → ServerStarted
  finish_health s (HealthStarted.answered b h) =
      ServerStarted.answered b (record s { health = some h })
  finish_health s (HealthStarted.threw h) = ServerStarted.threw (record s { health = some h })

  unfoldable pub start_rest : Server → ServerStarted
  unfolding start_threads make_health
  start_rest s =
      finish_health (start_threads s)
        (Health.start env.health_socket env.stoi (make_health s.cfg.health_listen))

  -- `||` starts the backend listener only if the forward one has answered true.
  unfoldable pub start_backend : Listener → Bool → Server → ServerStarted
  unfolding start_rest
  start_backend l false s = ServerStarted.answered false s
  start_backend l true s =
      after_listener (Listener.start env.backend_socket env.stoi l) (put_backend s)
        (λ b s'. if b then start_rest s' else ServerStarted.answered false s')

  -- Both listeners are there before the first of them is started.
  unfoldable pub start_server : Server → ServerStarted
  unfolding start_backend start_listener
  start_server s =
      let fl = start_listener s.cfg forward env.round s.hub in
      let bl = start_listener s.cfg backend env.round s.hub in
      let s' = record s { forward_listener = some fl; backend_listener = some bl } in
      after_listener (Listener.start env.forward_socket env.stoi fl) (put_forward s')
        (start_backend bl)

unfoldable pub stop_server : Server → Server
unfolding request_stop_all Listener.stop Health.stop
stop_server s = record s {
  hub = request_stop_all s.hub;
  forward_listener = Option.map Listener.stop s.forward_listener;
  backend_listener = Option.map Listener.stop s.backend_listener;
  health = Option.map Health.stop s.health;
}

-- What follows a Join, if it returns.
abbrev pub once_joined : {A B : Type 0} → Option A → (A → Option B) → Option B
once_joined none continue = none
once_joined (some a) continue = continue a

-- `if (p) p->Join();`
abbrev pub join_if : {A : Type 0} → (A → Option A) → Option A → Option (Option A)
join_if join_it none = some none
join_if join_it (some a) = Option.map some (join_it a)

unfoldable pub join_pollers : (ℕ → Bool) → ℕ → List Poller → Option (List Poller)
unfolding join_poller
join_pollers ends k [] = some []
join_pollers ends k (p ∷ ps) =
    once_joined (join_poller (ends k) p)
      (λ p'. let rest = join_pollers ends (k + 1) ps in once_joined rest (λ ps'. some (p' ∷ ps')))

-- The joins of Wait; `none` means that one of them never returns.
unfoldable pub wait : Endings → Server → Option Server
unfolding Listener.join Health.join Health.run join_pollers
wait ends s = once_joined (join_if (Listener.join ends.forward_ends) s.forward_listener) (λ fl.
    once_joined (join_if (Listener.join ends.backend_ends) s.backend_listener) (λ bl.
      once_joined (join_pollers ends.reactor_ends 0 s.reactors) (λ reactors.
        once_joined (join_pollers ends.worker_ends 0 s.workers) (λ workers.
          once_joined (join_pollers ends.distributor_ends 0 s.distributors) (λ distributors.
            once_joined
              (join_if (Health.join (has_returned (Health.run ends.to_decimal ends.health_rounds)))
                s.health)
              (λ health. some (record s {
                forward_listener = fl;
                backend_listener = bl;
                distributors = distributors;
                reactors = reactors;
                workers = workers;
                health = health;
              })))))))

abbrev pub any_joinable : List Poller → Bool
any_joinable [] = false
any_joinable (p ∷ ps) = p.joinable || any_joinable ps

abbrev pub has_thread : Option Listener → Bool
has_thread none = false
has_thread (some l) = l.joinable

abbrev pub has_health_thread : Option HealthServer → Bool
has_health_thread none = false
has_health_thread (some h) = h.joinable

-- A std::thread that is destroyed before it is joined ends the program by std::terminate. `true`:
-- the destructor of the server does that. It calls Stop first, which joins nothing.
unfoldable pub destructor_terminates : Server → Bool
unfolding stop_server
destructor_terminates s =
    let s' = stop_server s in
    has_thread s'.forward_listener
    || (has_thread s'.backend_listener
        || (any_joinable s'.distributors
            || (any_joinable s'.reactors
                || (any_joinable s'.workers || has_health_thread s'.health))))
