-- ===== src/Hub/Server/Lifecycle/Outcome.antt =====
-- How Start of HubServer ends, and what the destructor does after it.
use hi_im_core.Hub.Listener
use hi_im_core.Prelude.{Bool, ap, false, if◌then◌else◌, refl, some, true, ◌&&◌, ◌≡◌, ◌≢◌}
use hi_im_core.Hub.Health.{HealthServer, make_health}
use hi_im_core.Hub.Listener.{Listener, make_listener}
use hi_im_core.Hub.Messages.{backend, forward}
use hi_im_core.Hub.Server.{DualHubConfig, make_hub, start_listener}
use hi_im_core.Hub.Server.Lifecycle.{
  Server, ServerEnv, ServerStarted, destructor_terminates, finish_health, make_server, put_backend,
  put_forward, start_backend, start_rest, start_server, start_threads,
}
use hi_im_core.Hub.Server.Lifecycle.Listening.{health_start-Answers, opens, start-Answers}
use hi_im_core.Hub.Sockets.{parse_port, throws}

-- A thread of the forward listener is enough to end the program.
destructor-joinable :
    (s : Server) (l : Listener)
    → s.forward_listener ≡ some l
    → l.joinable ≡ true
    → destructor_terminates s ≡ true
unfolding destructor_terminates Listener.stop
destructor-joinable s l there running = rw (there, running) refl

-- The health server has a thread, if Start has answered true.
abbrev pub Serves : Bool → Server → Type 0
Serves true s = (h : HealthServer) × (s.health ≡ some h) × (h.joinable ≡ true)
Serves false s = Unit {0}

Serves-by :
    (b : Bool) (h : HealthServer) (s : Server) → s.health ≡ some h → h.joinable ≡ b → Serves b s
Serves-by true h s there running = (h, there, running)
Serves-by false h s there running = tt

-- Start answers `b` and leaves a server for which the destructor does `ends`.
abbrev pub Leaves : ServerStarted → Bool → Bool → Type 0
Leaves r b ends =
    (s : Server) × (r ≡ ServerStarted.answered b s) × (destructor_terminates s ≡ ends) × Serves b s

module _ (env : ServerEnv) (cfg : DualHubConfig) where
  abbrev pub forward_opens : Bool
  forward_opens = opens env.forward_socket env.stoi cfg.forward_listen

  abbrev pub backend_opens : Bool
  backend_opens = opens env.backend_socket env.stoi cfg.backend_listen

  abbrev pub health_opens : Bool
  health_opens = opens env.health_socket env.stoi cfg.health_listen

  -- std::stoi throws on none of the three ports.
  abbrev pub HasPorts : Type 0
  HasPorts =
      (parse_port env.stoi cfg.forward_listen ≢ throws)
      × (parse_port env.stoi cfg.backend_listen ≢ throws)
      × (parse_port env.stoi cfg.health_listen ≢ throws)

  start_rest-Leaves :
      (s : Server) (l : Listener)
      → s.forward_listener ≡ some l
      → l.joinable ≡ true
      → parse_port env.stoi s.cfg.health_listen ≢ throws
      → Leaves (start_rest env s) (opens env.health_socket env.stoi s.cfg.health_listen) true
  unfolding start_rest start_threads make_health
  start_rest-Leaves s l there running numeric =
      let (h, ends, its_thread) =
        health_start-Answers env.health_socket env.stoi (make_health s.cfg.health_listen) refl
          numeric in
      (
        _,
        ap (finish_health env (start_threads env s)) ends,
        destructor-joinable _ l there running,
        Serves-by (opens env.health_socket env.stoi s.cfg.health_listen) h _ refl its_thread,
      )

  -- What follows the answer of the backend listener.
  backend_answer-Leaves :
      (s : Server) (l bl : Listener) (b : Bool)
      → s.forward_listener ≡ some l
      → l.joinable ≡ true
      → parse_port env.stoi s.cfg.health_listen ≢ throws
      → Leaves
          (if b
            then start_rest env (put_backend s bl)
            else ServerStarted.answered false (put_backend s bl))
          (b && opens env.health_socket env.stoi s.cfg.health_listen)
          true
  backend_answer-Leaves s l bl true there running numeric =
      start_rest-Leaves (put_backend s bl) l there running numeric
  backend_answer-Leaves s l bl false there running numeric =
      (_, refl, destructor-joinable _ l there running, tt)

  start_backend-Leaves :
      (s : Server) (l bl : Listener)
      → s.forward_listener ≡ some l
      → l.joinable ≡ true
      → bl.started ≡ false
      → bl.joinable ≡ false
      → parse_port env.stoi bl.ctx.cfg.listen_addr ≢ throws
      → parse_port env.stoi s.cfg.health_listen ≢ throws
      → Leaves
          (start_backend env bl true s)
          (opens env.backend_socket env.stoi bl.ctx.cfg.listen_addr
            && opens env.health_socket env.stoi s.cfg.health_listen)
          true
  unfolding start_backend
  start_backend-Leaves s l bl there running fresh unjoined backend_port health_port =
      let (bl', ends, run) =
        start-Answers env.backend_socket env.stoi bl fresh unjoined backend_port in
      rw ends (
        backend_answer-Leaves s l bl' (opens env.backend_socket env.stoi bl.ctx.cfg.listen_addr)
          there running health_port)

  -- The server with its two listeners, before the first of them is started.
  abbrev with_listeners : Server
  with_listeners = record (make_server cfg) {
    forward_listener = some (start_listener cfg forward env.round (make_hub cfg));
    backend_listener = some (start_listener cfg backend env.round (make_hub cfg));
  }

  -- What follows the answer of the forward listener.
  forward_answer-Leaves :
      (l : Listener) (b : Bool)
      → l.joinable ≡ b
      → HasPorts
      → Leaves
          (start_backend env
            (start_listener cfg backend env.round (make_hub cfg))
            b
            (put_forward with_listeners l))
          (b && (backend_opens && health_opens))
          b
  unfolding start_backend start_listener make_listener make_hub make_server destructor_terminates
      Listener.stop
  forward_answer-Leaves l true run (forward_port, backend_port, health_port) =
      start_backend-Leaves (put_forward with_listeners l) l
        (start_listener cfg backend env.round (make_hub cfg)) refl run refl refl backend_port
        health_port
  forward_answer-Leaves l false run ports = (_, refl, rw run refl, tt)

  -- Where no port makes std::stoi throw, Start answers true just when all three addresses can be
  -- listened on. Whatever it answers, if the forward address can be listened on, then destroying
  -- the server without Wait ends the program by std::terminate, and otherwise it does not.
  pub start_server-Leaves :
      HasPorts
      → Leaves
          (start_server env (make_server cfg))
          (forward_opens && (backend_opens && health_opens))
          forward_opens
  unfolding start_server start_listener make_listener make_hub make_server
  start_server-Leaves (forward_port, backend_port, health_port) =
      let (l, ends, run) =
        start-Answers env.forward_socket env.stoi
          (start_listener cfg forward env.round (make_hub cfg)) refl refl forward_port in
      rw ends (forward_answer-Leaves l forward_opens run (forward_port, backend_port, health_port))
