-- ===== src/Hub/Worker/Drain.antt =====
-- The loop of a worker over its queue.
use hi_im_core.Hub.Queue.Mpsc
use hi_im_core.Prelude.{
  List, [], ap, done, get_elem?-set_self, length, refl, set, some, suc, zero, ℕ, ◌+◌, ◌<◌, ◌∙◌, ◌∷◌,
  ◌≡◌,
}
use hi_im_core.Hub.Bridge.{Hub}
use hi_im_core.Hub.Bridge.Laws.{IsBridged}
use hi_im_core.Hub.Context.{DistEnv, HubContext, publish, recv_queue}
use hi_im_core.Hub.Context.Frame.{rest_of, rest_of-publish}
use hi_im_core.Hub.Messages.{InboundMessage, forward}
use hi_im_core.Hub.Queue.Mpsc.{MpscQueue}
use hi_im_core.Hub.Worker.{dispatch, drain, with_recv_queue}
use hi_im_core.Hub.Worker.Laws.{dispatch_uplink}
use hi_im_core.Wire.Bytes.{Endian}

-- The messages, handled one after the other, by what each one does to the hub.
abbrev pub handle_all : Endian → (ℕ → DistEnv) → ℕ → List InboundMessage → HubContext → HubContext
handle_all e others k [] ctx = ctx
handle_all e others k (msg ∷ msgs) ctx =
    handle_all e others (k + 1) msgs (publish e (others k) msg.type msg.payload ctx).1

-- The forward plane with the messages `msgs` in the queue `idx`.
abbrev pub holding : ℕ → ℕ → List InboundMessage → Hub → Hub
holding idx capacity msgs hub =
    with_recv_queue forward idx (record { capacity = capacity; queue = msgs }) hub

pub set_twice {ℓ} : {A : Type ℓ} (xs : List A) (i : ℕ) (v w : A) → set (set xs i v) i w ≡ set xs i w
set_twice [] i v w = refl
set_twice (x ∷ xs) zero v w = refl
set_twice (x ∷ xs) (suc i) v w = ap (◌∷◌ x) (set_twice xs i v w)

module _ (e : Endian) (others : ℕ → DistEnv) where
  held :
      (ms : List InboundMessage) (idx capacity : ℕ) (hub : Hub)
      → idx < length hub.forward_ctx.recv_queues
      → recv_queue idx (holding idx capacity ms hub).forward_ctx
        ≡ some (record { capacity = capacity; queue = ms })
  unfolding recv_queue
  held ms idx capacity hub inside = get_elem?-set_self hub.forward_ctx.recv_queues idx _ inside

  drain-holding :
      (msgs : List InboundMessage) (k idx capacity : ℕ) (hub : Hub)
      → IsBridged hub
      → idx < length hub.forward_ctx.recv_queues
      → drain e (suc (length msgs)) others k forward idx (holding idx capacity msgs hub)
        ≡ done (record (holding idx capacity [] hub) {
          backend_ctx = handle_all e others k msgs hub.backend_ctx;
        })
  unfolding drain Mpsc.pop
  drain-holding [] k idx capacity hub b inside = rw (held [] idx capacity hub inside) refl
  drain-holding (msg ∷ msgs) k idx capacity hub b inside =
      step
      ∙ ap (drain e (suc (length msgs)) others (k + 1) forward idx) one
      ∙ drain-holding msgs (k + 1) idx capacity
          (record hub {
            backend_ctx = (publish e (others k) msg.type msg.payload hub.backend_ctx).1;
          })
          bridged inside
    where
      taken_off : Hub
      taken_off =
          with_recv_queue forward idx (record { capacity = capacity; queue = msgs })
            (holding idx capacity (msg ∷ msgs) hub)

      untouched :
          rest_of (publish e (others k) msg.type msg.payload hub.backend_ctx).1
          ≡ rest_of hub.backend_ctx
      untouched = rest_of-publish e (others k) msg.type msg.payload hub.backend_ctx

      bridged : IsBridged (record hub {
        backend_ctx = (publish e (others k) msg.type msg.payload hub.backend_ctx).1;
      })
      bridged = record {
        forward_peer = b.forward_peer;
        backend_peer = ap (λ (c : HubContext). c.peer) untouched ∙ b.backend_peer;
        forward_handlers = b.forward_handlers;
        backend_handlers = ap (λ (c : HubContext). c.handlers) untouched ∙ b.backend_handlers;
      }

      step :
          drain e
            (suc (length (msg ∷ msgs)))
            others
            k
            forward
            idx
            (holding idx capacity (msg ∷ msgs) hub)
          ≡ drain e
              (suc (length msgs))
              others
              (k + 1)
              forward
              idx
              (dispatch e (others k) forward msg taken_off)
      step = rw (held (msg ∷ msgs) idx capacity hub inside) refl

      one :
          dispatch e (others k) forward msg taken_off
          ≡ holding idx capacity msgs (record hub {
            backend_ctx = (publish e (others k) msg.type msg.payload hub.backend_ctx).1;
          })
      one =
          dispatch_uplink e (others k) msg taken_off (record {
            forward_peer = b.forward_peer;
            backend_peer = b.backend_peer;
            forward_handlers = b.forward_handlers;
            backend_handlers = b.backend_handlers;
          })
          ∙ ap
              (λ (qs : List (MpscQueue InboundMessage)). record hub {
                forward_ctx = record (hub.forward_ctx) { recv_queues = qs };
                backend_ctx = (publish e (others k) msg.type msg.payload hub.backend_ctx).1;
              })
              (set_twice hub.forward_ctx.recv_queues idx _ _)

  -- On a bridged hub, the loop of a worker of the forward plane over its queue ends, with fuel for
  -- its messages, if nobody adds to the queue meanwhile: the queue is empty then, and the messages
  -- have been published on the backend plane one after the other, in order, whatever the other
  -- threads do to the distributor's queue.
  pub drain_uplink :
      (msgs : List InboundMessage) (idx capacity : ℕ) (hub : Hub)
      → IsBridged hub
      → idx < length hub.forward_ctx.recv_queues
      → drain e (suc (length msgs)) others 0 forward idx (holding idx capacity msgs hub)
        ≡ done (record (holding idx capacity [] hub) {
          backend_ctx = handle_all e others 0 msgs hub.backend_ctx;
        })
  drain_uplink msgs idx capacity hub b inside = drain-holding msgs 0 idx capacity hub b inside
