-- ===== src/Program/Laws.antt =====
-- The hub program: its command line, and how it ends.
use mathlib.Core.Option
use hi_im_core.Hub.Listener
use hi_im_core.Hub.Health
use hi_im_core.Prelude.{
  Bool, List, Option, [], codes, false, if◌then◌else◌, map, none, not, refl, same_text, some, true,
  ℕ, ◌&&◌, ◌++◌, ◌+◌, ◌∷◌, ◌≡◌,
}
use hi_im_core.Hub.Health.{HealthServer}
use hi_im_core.Hub.Health.Laws.{any_silent, run-any_silent}
use hi_im_core.Hub.Listener.{Listener}
use hi_im_core.Hub.Server.{DualHubConfig}
use hi_im_core.Hub.Server.Lifecycle.{
  Endings, Server, ServerEnv, ServerStarted, any_joinable, destructor_terminates, has_health_thread,
  has_thread, join_if, join_pollers, once_joined, stop_server, wait,
}
use hi_im_core.Hub.Server.Lifecycle.Outcome.{
  HasPorts, Leaves, Serves, backend_opens, forward_opens, health_opens, start_server-Leaves,
}
use hi_im_core.Hub.Thread.{Poller, join_poller, joins, poll_closes}
use hi_im_core.Options.{config, parse_options, setting_in}
use hi_im_core.Program.{
  Numbers, exits, hangs, hub_setting, leave, main, parse_args, serve, terminates,
}

-- The command line that sets every field, with the texts of its three numbers.
abbrev pub arguments : DualHubConfig → List ℕ → List ℕ → List ℕ → List (List ℕ)
arguments cfg reactors workers capacity =
    codes "--forward-listen"
    ∷ cfg.forward_listen
    ∷ codes "--backend-listen"
    ∷ cfg.backend_listen
    ∷ codes "--reactor-threads"
    ∷ reactors
    ∷ codes "--worker-threads"
    ∷ workers
    ∷ codes "--queue-capacity"
    ∷ capacity
    ∷ codes "--auth-user"
    ∷ cfg.auth_user
    ∷ codes "--auth-pass"
    ∷ cfg.auth_pass
    ∷ codes "--health-listen"
    ∷ cfg.health_listen
    ∷ []

-- ParseArgs gives back any configuration from the command line that names its fields, if the
-- standard library reads the texts of its numbers back.
pub parse_args-arguments :
    (numbers : Numbers) (cfg : DualHubConfig) (reactors workers capacity : List ℕ)
    → numbers.stoi reactors ≡ some cfg.reactor_threads
    → numbers.stoi workers ≡ some cfg.worker_threads
    → numbers.stoull capacity ≡ some cfg.queue_capacity
    → parse_args numbers (arguments cfg reactors workers capacity) ≡ config cfg
unfolding parse_args parse_options hub_setting setting_in same_text
parse_args-arguments numbers cfg reactors workers capacity reads_r reads_w reads_c =
    rw (reads_r, reads_w, reads_c) refl

-- Joined threads.
abbrev unjoin_listener : Listener → Listener
unjoin_listener l = record l { joinable = false }

abbrev unjoin_health : HealthServer → HealthServer
unjoin_health h = record h { joinable = false }

abbrev unjoin_poller : Poller → Poller
unjoin_poller p = record {
  epfd = none;
  joinable = false;
  poll_calls = p.poll_calls ++ poll_closes p.epfd;
}

abbrev all_joined : Server → Server
all_joined s = record s {
  forward_listener = Option.map unjoin_listener s.forward_listener;
  backend_listener = Option.map unjoin_listener s.backend_listener;
  distributors = map unjoin_poller s.distributors;
  reactors = map unjoin_poller s.reactors;
  workers = map unjoin_poller s.workers;
  health = Option.map unjoin_health s.health;
}

joins-true : (b : Bool) → joins b true ≡ true
joins-true true = refl
joins-true false = refl

join_listener-ends :
    (l : Option Listener) → join_if (Listener.join true) l ≡ some (Option.map unjoin_listener l)
unfolding Listener.join
join_listener-ends none = refl
join_listener-ends (some l) = rw (joins-true l.joinable) refl

join_health-ends :
    (h : Option HealthServer) → join_if (Health.join true) h ≡ some (Option.map unjoin_health h)
unfolding Health.join
join_health-ends none = refl
join_health-ends (some h) = rw (joins-true h.joinable) refl

join_pollers-ends :
    (ends : ℕ → Bool) (k : ℕ) (ps : List Poller)
    → ((i : ℕ) → ends i ≡ true)
    → join_pollers ends k ps ≡ some (map unjoin_poller ps)
unfolding join_pollers join_poller
join_pollers-ends ends k [] all = refl
join_pollers-ends ends k (p ∷ ps) all =
    rw (all k, joins-true p.joinable, join_pollers-ends ends (k + 1) ps all) refl

-- The threads other than that of the health server end once Stop has been called.
pub record OthersEnd (ends : Endings) : Type 0 where
  pub forward_listener_ends : ends.forward_ends ≡ true
  pub backend_listener_ends : ends.backend_ends ≡ true
  pub distributors_end : (i : ℕ) → ends.distributor_ends i ≡ true
  pub reactors_end : (i : ℕ) → ends.reactor_ends i ≡ true
  pub workers_end : (i : ℕ) → ends.worker_ends i ≡ true

-- Wait returns if no client of the health server stays silent, and never returns otherwise.
pub wait-ends :
    (ends : Endings) (s : Server)
    → OthersEnd ends
    → Serves true s
    → wait ends s ≡ (if any_silent ends.health_rounds then none else some (all_joined s))
unfolding wait Health.join
wait-ends ends s others (h, there, running) =
    rw
      (
        wait,
        others.forward_listener_ends,
        others.backend_listener_ends,
        join_listener-ends s.forward_listener,
        join_listener-ends s.backend_listener,
        join_pollers-ends ends.reactor_ends 0 s.reactors others.reactors_end,
        join_pollers-ends ends.worker_ends 0 s.workers others.workers_end,
        join_pollers-ends ends.distributor_ends 0 s.distributors others.distributors_end,
        run-any_silent ends.to_decimal ends.health_rounds,
      )
      (by_silence (any_silent ends.health_rounds))
  where
    by_silence :
        (quiet : Bool)
        → once_joined
            (join_if (Health.join (not quiet)) s.health)
            (λ health. some (record (all_joined s) { health = health }))
          ≡ (if quiet then none else some (all_joined s))
    by_silence true = rw (there, running) refl
    by_silence false = rw (join_health-ends s.health) refl

any_joinable-joined : (ps : List Poller) → any_joinable (map unjoin_poller ps) ≡ false
any_joinable-joined [] = refl
any_joinable-joined (p ∷ ps) = any_joinable-joined ps

has_thread-joined :
    (l : Option Listener)
    → has_thread (Option.map Listener.stop (Option.map unjoin_listener l)) ≡ false
unfolding Listener.stop
has_thread-joined none = refl
has_thread-joined (some l) = refl

has_health_thread-joined :
    (h : Option HealthServer)
    → has_health_thread (Option.map Health.stop (Option.map unjoin_health h)) ≡ false
unfolding Health.stop
has_health_thread-joined none = refl
has_health_thread-joined (some h) = refl

-- After Wait the destructor finds no thread that is not joined.
destructor-joined : (s : Server) → destructor_terminates (all_joined s) ≡ false
unfolding destructor_terminates stop_server
destructor-joined s =
    rw
      (
        has_thread-joined s.forward_listener,
        has_thread-joined s.backend_listener,
        any_joinable-joined s.distributors,
        any_joinable-joined s.reactors,
        any_joinable-joined s.workers,
      )
      (has_health_thread-joined s.health)

Serves-stop : (s : Server) → Serves true s → Serves true (stop_server s)
unfolding stop_server Health.stop
Serves-stop s (h, there, running) = (Health.stop h, rw there refl, running)

serve-Leaves :
    (ends : Endings) (r : ServerStarted) (b f : Bool)
    → OthersEnd ends
    → Leaves r b f
    → serve ends r ≡ (
        if b
        then (if any_silent ends.health_rounds then hangs else exits 0)
        else if f
        then terminates
        else exits 1)
unfolding serve leave
serve-Leaves ends r true f others (s, answers, after, serves) =
    rw (answers, serve, wait-ends ends (stop_server s) others (Serves-stop s serves))
      (by_silence (any_silent ends.health_rounds))
  where
    by_silence :
        (quiet : Bool)
        → elim (if quiet then none else some (all_joined (stop_server s))) [
          | none ↦ hangs
          | some s' ↦ leave 0 s'
        ]
          ≡ (if quiet then hangs else exits 0)
    by_silence true = refl
    by_silence false = rw (destructor-joined (stop_server s)) refl
serve-Leaves ends r false f others (s, answers, after, _) = rw (answers, after) refl

-- Where the command line is read to a configuration, no port of it makes std::stoi throw, and the
-- threads other than that of the health server end once Stop has been called: if all three
-- addresses can be listened on, then after a signal the program ends with the exit code 0, unless
-- the health server has accepted a connection on which nothing comes, and then it never ends. If
-- the forward address cannot be listened on, it ends with the exit code 1. Otherwise, where the
-- backend address or the health address cannot, it ends by std::terminate.
pub main_ends :
    (numbers : Numbers) (env : DualHubConfig → ServerEnv) (args : List (List ℕ))
    (cfg : DualHubConfig)
    → parse_args numbers args ≡ config cfg
    → HasPorts (env cfg) cfg
    → OthersEnd (env cfg).endings
    → main numbers env args ≡ (
        if forward_opens (env cfg) cfg
          && (backend_opens (env cfg) cfg && health_opens (env cfg) cfg)
        then (if any_silent (env cfg).endings.health_rounds then hangs else exits 0)
        else if forward_opens (env cfg) cfg
        then terminates
        else exits 1)
unfolding main
main_ends numbers env args cfg read ports others =
    rw (main, read)
      (serve-Leaves (env cfg).endings _ _ _ others (start_server-Leaves (env cfg) cfg ports))
