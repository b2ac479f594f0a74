-- ===== src/Hub/Server/Laws.antt =====
-- What the constructor of the server and Start set up.
use native.Mathlib.Nat.{mod-lt}
use hi_im_core.Hub.Queue.Mpsc
use hi_im_core.Hub.Queue.Spsc
use hi_im_core.Prelude.{
  arith, at_least_one, get_elem?, insert, negsuc, pos, refl, replicate, some, subst, suc, sym, zero,
  ℕ, ℤ, ◌%◌, ◌<◌, ◌≡◌,
}
use hi_im_core.Hub.Bridge.{context, register_bridge_handlers}
use hi_im_core.Hub.Bridge.Laws.{IsBridged}
use hi_im_core.Hub.Context.{conn_queue, make_context, recv_queue, register_handler, set_peer}
use hi_im_core.Hub.Listener.{make_listener, pick_reactor}
use hi_im_core.Hub.Messages.{Plane, backend, forward, no_connection}
use hi_im_core.Hub.Reactor.{make_reactor, pick_worker}
use hi_im_core.Hub.Server.{DualHubConfig, make_hub, start_listener, start_reactor}

get_elem?-replicate {ℓ} :
    {A : Type ℓ} (n i : ℕ) (a : A) → i < n → get_elem? (replicate n a) i ≡ some a
get_elem?-replicate zero i a h = absurd (omega arith)
get_elem?-replicate (suc n) zero a h = refl
get_elem?-replicate (suc n) (suc i) a h = get_elem?-replicate n i a (omega arith)

at_least_one-pos : (n : ℤ) → 0 < at_least_one n
at_least_one-pos (pos n) = omega arith
at_least_one-pos (negsuc n) = omega arith

at_least_one_idem : (n : ℤ) → at_least_one (pos (at_least_one n)) ≡ at_least_one n
at_least_one_idem n = omega (arith, at_least_one-pos n)

in_range {ℓ} :
    {A : Type ℓ} (n : ℤ) (k : ℕ) (a : A)
    → get_elem? (replicate (at_least_one n) a) (k % at_least_one (pos (at_least_one n))) ≡ some a
in_range n k a = get_elem?-replicate (at_least_one n) _ a (
    subst (λ m. k % m < at_least_one n) (sym (at_least_one_idem n)) (mod-lt k (at_least_one-pos n)))

-- The server that the constructor makes has its planes bridged.
pub make_hub-IsBridged : (cfg : DualHubConfig) → IsBridged (make_hub cfg)
unfolding make_hub make_context register_bridge_handlers register_handler set_peer insert
make_hub-IsBridged cfg = record {
  forward_peer = refl;
  backend_peer = refl;
  forward_handlers = refl;
  backend_handlers = refl;
}

-- Whatever the configured numbers, and for any session number, the worker that a reactor of a new
-- server picks has a queue, and so has the reactor that a listener picks: `.at` does not throw.
pub pick-in_range :
    (cfg : DualHubConfig) (plane : Plane) (i wakeup_fd sid round : ℕ)
    → let hub = make_hub cfg in
      (recv_queue (pick_worker sid (start_reactor cfg plane i wakeup_fd hub)) (context plane hub)
        ≡ some (Mpsc.make cfg.queue_capacity))
      × (conn_queue
            (pick_reactor (start_listener cfg plane round hub).reactor_count round).0
            (context plane hub)
          ≡ some (Spsc.make cfg.queue_capacity no_connection))
unfolding make_hub make_context register_bridge_handlers set_peer register_handler recv_queue
    conn_queue pick_worker pick_reactor start_reactor start_listener make_reactor make_listener
pick-in_range cfg forward i wakeup_fd sid round =
    (in_range cfg.worker_threads sid _, in_range cfg.reactor_threads round _)
pick-in_range cfg backend i wakeup_fd sid round =
    (in_range cfg.worker_threads sid _, in_range cfg.reactor_threads round _)
