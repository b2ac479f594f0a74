-- ===== src/Program/Tests.antt =====
-- The hub program, run without arguments where the port of the backend plane is taken.
use hi_im_core.Prelude.{[], false, if◌then◌else◌, pos, refl, some, true, ◌&&◌, ◌+◌, ◌∷◌, ◌≡◌}
use hi_im_core.Hub.Health.{silent}
use hi_im_core.Hub.Health.Laws.{any_silent}
use hi_im_core.Hub.Server.{DualHubConfig, make_hub}
use hi_im_core.Hub.Server.Lifecycle.{Endings, ServerEnv}
use hi_im_core.Hub.Server.Lifecycle.Listening.{opens}
use hi_im_core.Hub.Server.Lifecycle.Outcome.{HasPorts, backend_opens, forward_opens, health_opens}
use hi_im_core.Hub.Sockets.{SocketEnv, after_last_colon, parse_port}
use hi_im_core.Options.{config, parse_options}
use hi_im_core.Program.{Numbers, default_config, exits, hangs, main, parse_args, terminates}
use hi_im_core.Program.Laws.{OthersEnd, arguments, main_ends, parse_args-arguments}

abbrev numbers : Numbers
numbers = record { stoi = λ text. some (pos 4); stoull = λ text. some 262144 }

abbrev free_port : SocketEnv
free_port = record { socket = some 3; binds = true; listens = true }

abbrev taken_port : SocketEnv
taken_port = record { socket = some 4; binds = false; listens = true }

-- A client of the health endpoint that sends nothing.
abbrev all_end : Endings
all_end = record {
  forward_ends = true;
  backend_ends = true;
  distributor_ends = λ i. true;
  reactor_ends = λ i. true;
  worker_ends = λ i. true;
  to_decimal = λ n. n ∷ [];
  health_rounds = (make_hub default_config, silent 9) ∷ [];
}

all_end-OthersEnd : OthersEnd all_end
all_end-OthersEnd = record {
  forward_listener_ends = refl;
  backend_listener_ends = refl;
  distributors_end = λ i. refl;
  reactors_end = λ i. refl;
  workers_end = λ i. refl;
}

abbrev env : DualHubConfig → ServerEnv
env cfg = record {
  forward_socket = free_port;
  backend_socket = taken_port;
  health_socket = free_port;
  epolls = λ k. some (10 + k);
  stoi = numbers.stoi;
  round = 0;
  endings = all_end;
}

parse_args-arguments_example :
    parse_args numbers (arguments default_config (52 ∷ []) (52 ∷ []) (50 ∷ []))
    ≡ config default_config
parse_args-arguments_example =
    parse_args-arguments numbers default_config (52 ∷ []) (52 ∷ []) (50 ∷ []) refl refl refl

no_arguments : parse_args numbers [] ≡ config default_config
unfolding parse_args parse_options
no_arguments = refl

ports : HasPorts (env default_config) default_config
unfolding parse_port after_last_colon
ports = (λ h. cc, λ h. cc, λ h. cc)

main_ends_example : main numbers env [] ≡ (
    if forward_opens (env default_config) default_config
      && (backend_opens (env default_config) default_config
          && health_opens (env default_config) default_config)
    then (if any_silent all_end.health_rounds then hangs else exits 0)
    else if forward_opens (env default_config) default_config
    then terminates
    else exits 1)
main_ends_example = main_ends numbers env [] default_config no_arguments ports all_end-OthersEnd

-- The forward listener has started, so the program is terminated.
main_terminates : main numbers env [] ≡ terminates
unfolding opens parse_port after_last_colon
main_terminates = main_ends_example

-- Where all ports are free the silent client keeps the program from ending.
abbrev free_env : DualHubConfig → ServerEnv
free_env cfg = record (env cfg) { backend_socket = free_port }

free_ports : HasPorts (free_env default_config) default_config
unfolding parse_port after_last_colon
free_ports = (λ h. cc, λ h. cc, λ h. cc)

main_hangs : main numbers free_env [] ≡ hangs
unfolding opens parse_port after_last_colon
main_hangs = main_ends numbers free_env [] default_config no_arguments free_ports all_end-OthersEnd
