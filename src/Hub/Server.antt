-- ===== src/Hub/Server.antt =====
-- include/hiim/hub/hub_server.hpp and src/hub/hub_server.cpp: the two planes put together. The
-- threads that Start makes are those of Listener, Reactor, Worker and Distributor.
pub mod Laws
pub mod Lifecycle
use hi_im_core.Prelude.{Bool, List, at_least_one, pos, ℕ, ℤ, ◌&&◌}
use hi_im_core.Hub.Bridge.{Hub, context, register_bridge_handlers}
use hi_im_core.Hub.Context.{make_context, request_stop}
use hi_im_core.Hub.Listener.{Listener, make_listener}
use hi_im_core.Hub.Messages.{HubConfig, Plane, backend, forward}
use hi_im_core.Hub.Reactor.{Reactor, make_reactor}

pub record DualHubConfig : Type 0 where
  pub forward_listen : List ℕ
  pub backend_listen : List ℕ
  pub reactor_threads : ℤ
  pub worker_threads : ℤ
  pub queue_capacity : ℕ
  pub auth_user : List ℕ
  pub auth_pass : List ℕ
  pub health_listen : List ℕ

-- The constructor.
unfoldable pub make_hub : DualHubConfig → Hub
unfolding make_context register_bridge_handlers
make_hub cfg =
    let forward_cfg : HubConfig = record {
      listen_addr = cfg.forward_listen;
      reactor_threads = cfg.reactor_threads;
      worker_threads = cfg.worker_threads;
      queue_capacity = cfg.queue_capacity;
      auth_user = cfg.auth_user;
      auth_pass = cfg.auth_pass;
    } in
    let backend_cfg = record forward_cfg { listen_addr = cfg.backend_listen } in
    register_bridge_handlers (record {
      forward_ctx = make_context forward forward_cfg;
      backend_ctx = make_context backend backend_cfg;
    })

-- The worker count that Start hands to each reactor, and a reactor of a plane.
unfoldable pub start_reactor : DualHubConfig → Plane → ℕ → ℕ → Hub → Reactor
start_reactor cfg plane i wakeup_fd hub =
    make_reactor (context plane hub) i (pos (at_least_one cfg.worker_threads)) wakeup_fd

unfoldable pub start_listener : DualHubConfig → Plane → ℕ → Hub → Listener
start_listener cfg plane round hub =
    make_listener (context plane hub) (pos (at_least_one cfg.reactor_threads)) round

-- What Stop does to the contexts.
unfoldable pub request_stop_all : Hub → Hub
unfolding request_stop
request_stop_all hub = record {
  forward_ctx = request_stop hub.forward_ctx;
  backend_ctx = request_stop hub.backend_ctx;
}

unfoldable pub is_ready : Hub → Bool
is_ready hub = hub.forward_ctx.listening && hub.backend_ctx.listening
