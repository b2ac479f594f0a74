-- ===== src/Hub/Worker/Laws.antt =====
-- What a worker does with the messages in its queue.
use hi_im_core.Im
use hi_im_core.Hub.Router
use hi_im_core.Prelude.{
  List, [], ap, arith, if◌then◌else◌, lookup, lt→ltb, ne→not_==, some, ℕ, ◌<◌, ◌==◌, ◌^◌, ◌∙◌, ◌∷◌,
  ◌≡◌,
}
use hi_im_core.Hub.Bridge.{Hub}
use hi_im_core.Hub.Bridge.Laws.{IsBridged, downlink_sends, uplink_publishes}
use hi_im_core.Hub.Context.{
  DistEnv, Handler, HubContext, async_send, backend_downlink, dist_wakeup, find_handler,
  forward_uplink, notify, publish,
}
use hi_im_core.Hub.Context.Publish.{alone, async_send_lem, enqueue, frame_along, free}
use hi_im_core.Hub.Health.{body}
use hi_im_core.Hub.Messages.{InboundMessage, backend, forward}
use hi_im_core.Hub.Router.{NidRoute, Router}
use hi_im_core.Hub.Status.{Status, ok}
use hi_im_core.Hub.Worker.{choose_handler, dispatch}
use hi_im_core.Im.Laws.{read-pack_payload}
use hi_im_core.Wire.Bytes.{Endian}

choose_default :
    (type : ℕ) (h : Handler) (ctx : HubContext)
    → ctx.handlers ≡ (0, h) ∷ []
    → choose_handler type ctx ≡ some h
unfolding choose_handler find_handler lookup
choose_default type h ctx eq = ground arith

module _ (e : Endian) (others : DistEnv) (msg : InboundMessage) (hub : Hub)
    (b : IsBridged hub) where
  -- On a bridged hub, a message on the forward plane, whatever its type, is published on the backend
  -- plane under its type and with its payload, and the forward plane stays as it is.
  pub dispatch_uplink :
      dispatch e others forward msg hub
      ≡ record hub { backend_ctx = (publish e others msg.type msg.payload hub.backend_ctx).1 }
  unfolding dispatch
  dispatch_uplink =
      rw (choose_default msg.type forward_uplink hub.forward_ctx b.forward_handlers, dispatch)
        (uplink_publishes e others msg hub b)

  -- Whatever its type, a message on the backend plane goes to the node that its IM header names, on
  -- the forward plane, and is dropped if that reads as 0; the backend plane stays as it is.
  pub dispatch_downlink : dispatch e others backend msg hub ≡ (
      if Im.read_dest_nid e msg.payload == 0 then hub else record hub {
        forward_ctx =
            (async_send e others msg.type
              (Im.read_dest_nid e msg.payload)
              msg.payload
              hub.forward_ctx).1;
      })
  unfolding dispatch
  dispatch_downlink =
      rw (choose_default msg.type backend_downlink hub.backend_ctx b.backend_handlers, dispatch)
        (downlink_sends e others msg hub b)

module _ (e : Endian) where
  -- On a bridged hub, the worker that dispatches a message on the backend plane whose payload is
  -- packed for the node `dest`, not 0, which has a route, puts one frame of the message's type, for
  -- `dest`, with the payload unchanged, and with the session and the reactor of the route, into the
  -- distributor's queue of the forward plane and notifies the distributor, if the queue has room and
  -- no other thread is at it. Nothing else changes.
  pub downlink_delivers :
      (msg : InboundMessage) (hub : Hub) (route : NidRoute) (cmd sid dest seq : ℕ) (body : List ℕ)
      → IsBridged hub
      → msg.payload ≡ Im.pack_payload e cmd sid dest seq body
      → 0 < dest
      → dest < 2 ^ 32
      → seq < 2 ^ 64
      → Router.find_nid_route dest hub.forward_ctx.router ≡ some route
      → 0 < free hub.forward_ctx
      → dispatch e alone backend msg hub ≡ record hub {
        forward_ctx =
            notify dist_wakeup
              (enqueue (frame_along e msg.type dest msg.payload route ∷ []) hub.forward_ctx);
      }
  downlink_delivers msg hub route cmd sid dest seq body b packed nonzero fits seq_fits found room =
      dispatch_downlink e alone msg hub b
      ∙ rw (addressed, ne→not_== dest 0 (λ z. absurd (omega arith)))
          (ap (λ (c : Status × HubContext). record hub { forward_ctx = c.1 }) sent)
    where
      addressed : Im.read_dest_nid e msg.payload ≡ dest
      addressed =
          ap (Im.read_dest_nid e) packed
          ∙ (read-pack_payload e cmd sid dest seq body fits seq_fits).0

      sent : async_send e alone msg.type dest msg.payload hub.forward_ctx ≡ (
        ok,
        notify dist_wakeup
            (enqueue (frame_along e msg.type dest msg.payload route ∷ []) hub.forward_ctx),
      )
      sent =
          async_send_lem e msg.type dest msg.payload hub.forward_ctx
          ∙ rw (found, lt→ltb 0 (free hub.forward_ctx) room)
