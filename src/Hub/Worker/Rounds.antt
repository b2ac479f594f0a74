-- ===== src/Hub/Worker/Rounds.antt =====
-- The thread of a worker of the forward plane.
use hi_im_core.Hub.Worker
use hi_im_core.Prelude.{
  List, [], ap, done, length, map, refl, suc, ℕ, ◌+◌, ◌<◌, ◌>>=◌, ◌∙◌, ◌∷◌, ◌≡◌,
}
use hi_im_core.Hub.Bridge.{Hub}
use hi_im_core.Hub.Bridge.Laws.{IsBridged}
use hi_im_core.Hub.Context.{DistEnv, HubContext, publish}
use hi_im_core.Hub.Context.Frame.{rest_of, rest_of-publish}
use hi_im_core.Hub.Messages.{InboundMessage, forward}
use hi_im_core.Hub.Queue.Mpsc.{MpscQueue}
use hi_im_core.Hub.Worker.Drain.{drain_uplink, handle_all, holding, set_twice}
use hi_im_core.Wire.Bytes.{Endian}

-- A round in which the messages come in before the loop over the queue.
abbrev pub round_of : ℕ → ℕ → (ℕ → DistEnv) × List InboundMessage → ℕ × (ℕ → DistEnv) × (Hub → Hub)
round_of idx capacity (others, msgs) =
    (suc (length msgs), others, λ hub. holding idx capacity msgs hub)

-- What the rounds do to the backend plane.
abbrev pub handle_batches :
    Endian → List ((ℕ → DistEnv) × List InboundMessage) → HubContext → HubContext
handle_batches e [] ctx = ctx
handle_batches e ((others, msgs) ∷ batches) ctx =
    handle_batches e batches (handle_all e others 0 msgs ctx)

module _ (e : Endian) where
  rest_of-handle_all :
      (others : ℕ → DistEnv) (msgs : List InboundMessage) (k : ℕ) (ctx : HubContext)
      → rest_of (handle_all e others k msgs ctx) ≡ rest_of ctx
  rest_of-handle_all others [] k ctx = refl
  rest_of-handle_all others (msg ∷ msgs) k ctx =
      rest_of-handle_all others msgs (k + 1) (publish e (others k) msg.type msg.payload ctx).1
      ∙ rest_of-publish e (others k) msg.type msg.payload ctx

  -- On a bridged hub, a worker of the forward plane that goes round with some messages put into its
  -- empty queue before each round ends each round with the queue empty, and has then published all
  -- of them on the backend plane, batch by batch and in order, whatever the other threads do to the
  -- distributor's queue meanwhile.
  pub run_uplink :
      (batches : List ((ℕ → DistEnv) × List InboundMessage)) (idx capacity : ℕ) (hub : Hub)
      → IsBridged hub
      → idx < length hub.forward_ctx.recv_queues
      → Worker.run e (map (round_of idx capacity) batches) forward idx (holding idx capacity [] hub)
        ≡ done (record (holding idx capacity [] hub) {
          backend_ctx = handle_batches e batches hub.backend_ctx;
        })
  unfolding Worker.run
  run_uplink [] idx capacity hub b inside = refl
  run_uplink ((others, msgs) ∷ batches) idx capacity hub b inside =
      ap
        (λ h. Worker.drain e (suc (length msgs)) others 0 forward idx h >>= λ hub'.
          Worker.run e (map (round_of idx capacity) batches) forward idx hub')
        refilled
      ∙ ap (λ m. m >>= λ hub'. Worker.run e (map (round_of idx capacity) batches) forward idx hub')
          (drain_uplink e others msgs idx capacity hub b inside)
      ∙ run_uplink batches idx capacity
          (record hub { backend_ctx = handle_all e others 0 msgs hub.backend_ctx }) bridged inside
    where
      refilled :
          holding idx capacity msgs (holding idx capacity [] hub) ≡ holding idx capacity msgs hub
      refilled =
          ap
            (λ (qs : List (MpscQueue InboundMessage)). record hub {
              forward_ctx = record (hub.forward_ctx) { recv_queues = qs };
            })
            (set_twice hub.forward_ctx.recv_queues idx _ _)

      bridged : IsBridged (record hub { backend_ctx = handle_all e others 0 msgs hub.backend_ctx })
      bridged =
          let untouched = rest_of-handle_all others msgs 0 hub.backend_ctx in
          record {
            forward_peer = b.forward_peer;
            backend_peer = ap (λ (c : HubContext). c.peer) untouched ∙ b.backend_peer;
            forward_handlers = b.forward_handlers;
            backend_handlers = ap (λ (c : HubContext). c.handlers) untouched ∙ b.backend_handlers;
          }
