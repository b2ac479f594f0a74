-- ===== src/Program.antt =====
-- cmd/hi-im-hub/main.cpp: the hub program.
pub mod Laws
mod Tests
use mathlib.Core.Option
use hi_im_core.Prelude.{
  List, Option, [], codes, false, if◌then◌else◌, none, pos, same_text, some, true, ℕ, ℤ, ◌∷◌,
}
use hi_im_core.Hub.Server.{DualHubConfig}
use hi_im_core.Hub.Server.Lifecycle.{
  Endings, Server, ServerEnv, ServerStarted, destructor_terminates, make_server, start_server,
  stop_server, wait,
}
use hi_im_core.Options.{
  Args, Setting, asks_help, bad_number, config, helps, parse_options, setting_in, unknown,
}

-- The numbers of the standard library: `none` if it throws.
pub record Numbers : Type 0 where
  pub stoi : List ℕ → Option ℤ
  pub stoull : List ℕ → Option ℕ

abbrev pub default_config : DualHubConfig
default_config = record {
  forward_listen = codes "0.0.0.0:28888";
  backend_listen = codes "0.0.0.0:28889";
  reactor_threads = pos 4;
  worker_threads = pos 4;
  queue_capacity = 262144;
  auth_user = codes "proxy";
  auth_pass = codes "proxy";
  health_listen = codes "0.0.0.0:8080";
}

abbrev pub hub_options : Numbers → List (List ℕ × (List ℕ → DualHubConfig → Option DualHubConfig))
hub_options numbers =
    (codes "--forward-listen", λ v cfg. some (record cfg { forward_listen = v }))
    ∷ (codes "--backend-listen", λ v cfg. some (record cfg { backend_listen = v }))
    ∷ (
      codes "--reactor-threads",
      λ v cfg. Option.map (λ n. record cfg { reactor_threads = n }) (numbers.stoi v),
    )
    ∷ (
      codes "--worker-threads",
      λ v cfg. Option.map (λ n. record cfg { worker_threads = n }) (numbers.stoi v),
    )
    ∷ (codes "--auth-user", λ v cfg. some (record cfg { auth_user = v }))
    ∷ (codes "--auth-pass", λ v cfg. some (record cfg { auth_pass = v }))
    ∷ (codes "--health-listen", λ v cfg. some (record cfg { health_listen = v }))
    ∷ (
      codes "--queue-capacity",
      λ v cfg. Option.map (λ n. record cfg { queue_capacity = n }) (numbers.stoull v),
    )
    ∷ []

-- What one argument is.
unfoldable pub hub_setting : Numbers → List ℕ → Setting DualHubConfig
unfolding setting_in
hub_setting numbers arg =
    setting_in (hub_options numbers) (if same_text arg (codes "--help") then helps else unknown) arg

-- The arguments behind the program's name.
unfoldable pub parse_args : Numbers → List (List ℕ) → Args DualHubConfig
unfolding parse_options hub_setting
parse_args numbers args = parse_options (hub_setting numbers) args default_config

-- How the program ends: with an exit code, by std::terminate, or not at all, because Wait does not
-- return.
pub data Exit : Type 0 where
  exits : ℕ → Exit
  terminates : Exit
  hangs : Exit

-- `return code;`, which destroys the server.
unfoldable pub leave : ℕ → Server → Exit
unfolding destructor_terminates
leave code s = if destructor_terminates s then terminates else exits code

-- The program from the constructor of the server on. Where Start answers true, the loop waits for a
-- signal, and it has come.
unfoldable pub serve : Endings → ServerStarted → Exit
unfolding leave stop_server wait
serve ends (ServerStarted.answered false s) = leave 1 s
serve ends (ServerStarted.answered true s) = elim (wait ends (stop_server s)) [
  | none ↦ hangs
  | some s' ↦ leave 0 s'
]
serve ends (ServerStarted.threw s) = terminates

-- `epolls` and the rest of `env` are what the kernel answers.
unfoldable pub main : Numbers → (DualHubConfig → ServerEnv) → List (List ℕ) → Exit
unfolding parse_args serve start_server make_server
main numbers env args = elim (parse_args numbers args) [
  | config cfg ↦ serve (env cfg).endings (start_server (env cfg) (make_server cfg))
  | bad_number ↦ terminates
  | asks_help ↦ exits 0
]
