-- ===== src/Hub/Health/Tests.antt =====
-- The health endpoint of a server that does not listen yet.
use hi_im_core.Hub.Health
use hi_im_core.Prelude.{List, [], arith, codes, false, pos, true, ℕ, ◌∷◌, ◌≡◌, ◌⊎◌}
use hi_im_core.Hub.Health.Laws.{AsksReady, all_well, on_request_decides, unavailable}
use hi_im_core.Hub.Server.{DualHubConfig, is_ready, make_hub}

abbrev cfg : DualHubConfig
cfg = record {
  forward_listen = [];
  backend_listen = [];
  reactor_threads = pos 1;
  worker_threads = pos 1;
  queue_capacity = 1;
  auth_user = [];
  auth_pass = [];
  health_listen = [];
}

abbrev request : List ℕ
request = codes "GET /readyz HTTP/1.1"

on_request_decides_example :
    ((Health.on_request (λ n. n ∷ []) (make_hub cfg) request ≡ unavailable (λ n. n ∷ []))
      × (is_ready (make_hub cfg) ≡ false)
      × AsksReady request)
    ⊎ ((Health.on_request (λ n. n ∷ []) (make_hub cfg) request ≡ all_well (λ n. n ∷ []))
        × ((is_ready (make_hub cfg) ≡ true) ⊎ (¬ AsksReady request)))
on_request_decides_example = on_request_decides (λ n. n ∷ []) (make_hub cfg) request (omega arith)
