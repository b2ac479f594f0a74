-- ===== src/Hub/Worker/Feeding.antt =====
-- What a worker leaves for the reactors when it handles a message.
use hi_im_core.Im
use hi_im_core.Hub.Router
use hi_im_core.Prelude.{
  Bool, Bool-cases, List, Option-cases, [], false, get_elem?, if◌then◌else◌, inl, inr, is_empty,
  length, length-set, refl, subst, sym, true, ℕ, ◌++◌, ◌+◌, ◌==◌, ◌∙◌, ◌∷◌, ◌≡◌,
}
use hi_im_core.Hub.Bridge.{
  Hub, backend_downlink_handler, context, forward_uplink_handler, handle, publish_on, send_on,
  with_context,
}
use hi_im_core.Hub.Context.{
  DistEnv, Handler, HubContext, Signal, async_send, backend_downlink, dist_wakeup, forward_uplink,
  frame_for, notify, publish, publish_loop, push_dist, send_along, send_queue,
}
use hi_im_core.Hub.Messages.{InboundMessage, OutboundFrame, Plane, backend, forward}
use hi_im_core.Hub.Queue.Mpsc.{MpscQueue}
use hi_im_core.Hub.Reactor.{Reactor}
use hi_im_core.Hub.Reactor.Running.{Feeds, IsFed, sends-IsFed}
use hi_im_core.Hub.Router.{NidRoute, Router, Subscriber}
use hi_im_core.Hub.Status.{Status, not_found, ok, queue_full}
use hi_im_core.Hub.Worker.{choose_handler, dispatch, with_recv_queue}
use hi_im_core.Wire.Bytes.{Endian}
use hi_im_core.Wire.Header.{encode_frame, flag_exp}

-- What a reactor relies on of a plane is in both alike.
record KeepsQueues (ctx ctx' : HubContext) : Type 0 where
  number_kept : ctx'.next_sid ≡ ctx.next_sid
  conns_kept : ctx'.conn_queues ≡ ctx.conn_queues
  sends_kept : ctx'.send_queues ≡ ctx.send_queues
  messages_kept : length ctx'.recv_queues ≡ length ctx.recv_queues

-- The queue of the distributor and the signals do not count.
KeepsQueues-dist :
    (ctx : HubContext) (q : MpscQueue OutboundFrame) (signals : List Signal)
    → KeepsQueues ctx (record ctx { dist_queue = q; signals = signals })
KeepsQueues-dist ctx q signals = record {
  number_kept = refl;
  conns_kept = refl;
  sends_kept = refl;
  messages_kept = refl;
}

KeepsQueues-refl : (ctx : HubContext) → KeepsQueues ctx ctx
KeepsQueues-refl ctx = KeepsQueues-dist ctx ctx.dist_queue ctx.signals

KeepsQueues-trans : {a b c : HubContext} → KeepsQueues a b → KeepsQueues b c → KeepsQueues a c
KeepsQueues-trans p q = record {
  number_kept = q.number_kept ∙ p.number_kept;
  conns_kept = q.conns_kept ∙ p.conns_kept;
  sends_kept = q.sends_kept ∙ p.sends_kept;
  messages_kept = q.messages_kept ∙ p.messages_kept;
}

KeepsQueues-if :
    {ctx : HubContext} (c : Bool) (a b : Status × HubContext)
    → KeepsQueues ctx a.1
    → KeepsQueues ctx b.1
    → KeepsQueues ctx (if c then a else b).1
KeepsQueues-if true a b yes_kept no_kept = yes_kept
KeepsQueues-if false a b yes_kept no_kept = no_kept

KeepsQueues-IsFed :
    (fuel : ℕ) (r : Reactor) {ctx ctx' : HubContext}
    → KeepsQueues ctx ctx'
    → IsFed fuel r ctx
    → IsFed fuel r ctx'
unfolding send_queue
KeepsQueues-IsFed fuel r {ctx} {ctx'} kept fed =
    sends-IsFed fuel r ctx ctx' fed kept.number_kept kept.conns_kept kept.messages_kept (
      fed.frames,
      subst (λ queues. Feeds fuel (get_elem? queues r.idx) fed.frames) (sym kept.sends_kept)
          fed.its_frames,
    )

-- Both planes of a hub.
abbrev KeepsPlanes : Hub → Hub → Type 0
KeepsPlanes hub hub' =
    KeepsQueues hub.forward_ctx hub'.forward_ctx × KeepsQueues hub.backend_ctx hub'.backend_ctx

KeepsPlanes-refl : (hub : Hub) → KeepsPlanes hub hub
KeepsPlanes-refl hub = (KeepsQueues-refl hub.forward_ctx, KeepsQueues-refl hub.backend_ctx)

on_plane :
    (hub hub' : Hub) (p : Plane)
    → KeepsPlanes hub hub'
    → KeepsQueues (context p hub) (context p hub')
on_plane hub hub' forward kept = kept.0
on_plane hub hub' backend kept = kept.1

with_context-KeepsPlanes :
    (p : Plane) (ctx : HubContext) (hub : Hub)
    → KeepsQueues (context p hub) ctx
    → KeepsPlanes hub (with_context p ctx hub)
with_context-KeepsPlanes forward ctx hub kept = (kept, KeepsQueues-refl hub.backend_ctx)
with_context-KeepsPlanes backend ctx hub kept = (KeepsQueues-refl hub.forward_ctx, kept)

module _ (e : Endian) (others : DistEnv) where
  publish_loop-KeepsQueues :
      (subs : List Subscriber) (k cmd : ℕ) (bytes : List ℕ) (ctx : HubContext)
      → KeepsQueues ctx (publish_loop e others k cmd bytes subs ctx).1
  unfolding publish_loop
  publish_loop-KeepsQueues [] k cmd bytes ctx =
      KeepsQueues-dist ctx ctx.dist_queue (ctx.signals ++ (dist_wakeup ∷ []))
  publish_loop-KeepsQueues (sub ∷ subs) k cmd bytes ctx =
      let p = push_dist (others k) ctx.dist_queue (frame_for e cmd bytes sub) in
      let ctx' = record ctx { dist_queue = p.0 } in
      KeepsQueues-if p.1 (publish_loop e others (k + 1) cmd bytes subs ctx') (queue_full, ctx')
        (KeepsQueues-trans (KeepsQueues-dist ctx p.0 ctx.signals)
          (publish_loop-KeepsQueues subs (k + 1) cmd bytes ctx'))
        (KeepsQueues-dist ctx p.0 ctx.signals)

  publish-KeepsQueues :
      (cmd : ℕ) (bytes : List ℕ) (ctx : HubContext)
      → KeepsQueues ctx (publish e others cmd bytes ctx).1
  unfolding publish
  publish-KeepsQueues cmd bytes ctx =
      let subs = Router.find_subscribers cmd ctx.router in
      KeepsQueues-if (is_empty subs) (not_found, ctx) (publish_loop e others 0 cmd bytes subs ctx)
        (KeepsQueues-refl ctx) (publish_loop-KeepsQueues subs 0 cmd bytes ctx)

  send_along-KeepsQueues :
      (cmd dest_nid : ℕ) (bytes : List ℕ) (route : NidRoute) (ctx : HubContext)
      → KeepsQueues ctx (send_along e others cmd dest_nid bytes route ctx).1
  unfolding send_along
  send_along-KeepsQueues cmd dest_nid bytes route ctx =
      let out : OutboundFrame = record {
        sid = route.sid;
        reactor_idx = route.reactor_idx;
        bytes = encode_frame e cmd dest_nid flag_exp bytes;
      } in
      let p = push_dist (others 0) ctx.dist_queue out in
      let ctx' = record ctx { dist_queue = p.0 } in
      KeepsQueues-if p.1 (ok, notify dist_wakeup ctx') (queue_full, ctx')
        (KeepsQueues-dist ctx p.0 (ctx.signals ++ (dist_wakeup ∷ [])))
        (KeepsQueues-dist ctx p.0 ctx.signals)

  async_send-KeepsQueues :
      (cmd dest_nid : ℕ) (bytes : List ℕ) (ctx : HubContext)
      → KeepsQueues ctx (async_send e others cmd dest_nid bytes ctx).1
  unfolding async_send
  async_send-KeepsQueues cmd dest_nid bytes ctx =
      elim (Option-cases (Router.find_nid_route dest_nid ctx.router)) [
        | inl nowhere ↦ rw (nowhere, async_send) (KeepsQueues-refl ctx)
        | inr (route, found) ↦
            rw (found, async_send) (send_along-KeepsQueues cmd dest_nid bytes route ctx)
      ]

  publish_on-KeepsPlanes :
      (p : Plane) (msg : InboundMessage) (hub : Hub)
      → KeepsPlanes hub (publish_on e others p msg hub)
  unfolding publish_on
  publish_on-KeepsPlanes p msg hub =
      with_context-KeepsPlanes p _ hub (publish-KeepsQueues msg.type msg.payload (context p hub))

  send_on-KeepsPlanes :
      (p : Plane) (msg : InboundMessage) (hub : Hub) → KeepsPlanes hub (send_on e others p msg hub)
  unfolding send_on
  send_on-KeepsPlanes p msg hub =
      let dest_nid = Im.read_dest_nid e msg.payload in
      elim (Bool-cases (dest_nid == 0)) [
        | inl nowhere ↦ rw (nowhere) (KeepsPlanes-refl hub)
        | inr known ↦ rw (known) (
            with_context-KeepsPlanes p _ hub
              (async_send-KeepsQueues msg.type dest_nid msg.payload (context p hub)))
      ]

  handle-KeepsPlanes :
      (h : Handler) (self : Plane) (msg : InboundMessage) (hub : Hub)
      → KeepsPlanes hub (handle e others h self msg hub)
  unfolding handle
  handle-KeepsPlanes forward_uplink self msg hub = elim (Option-cases (context self hub).peer) [
    | inl alone ↦ rw (alone, handle, forward_uplink_handler) (KeepsPlanes-refl hub)
    | inr (p, joined) ↦
        rw (joined, handle, forward_uplink_handler) (publish_on-KeepsPlanes p msg hub)
  ]
  handle-KeepsPlanes backend_downlink self msg hub = elim (Option-cases (context self hub).peer) [
    | inl alone ↦ rw (alone, handle, backend_downlink_handler) (KeepsPlanes-refl hub)
    | inr (p, joined) ↦
        rw (joined, handle, backend_downlink_handler) (send_on-KeepsPlanes p msg hub)
  ]

  dispatch-KeepsPlanes :
      (self : Plane) (msg : InboundMessage) (hub : Hub)
      → KeepsPlanes hub (dispatch e others self msg hub)
  unfolding dispatch
  dispatch-KeepsPlanes self msg hub =
      elim (Option-cases (choose_handler msg.type (context self hub))) [
        | inl unhandled ↦ rw (unhandled, dispatch) (KeepsPlanes-refl hub)
        | inr (h, chosen) ↦ rw (chosen, dispatch) (handle-KeepsPlanes h self msg hub)
      ]

  with_recv_queue-KeepsPlanes :
      (self : Plane) (idx : ℕ) (q : MpscQueue InboundMessage) (hub : Hub)
      → KeepsPlanes hub (with_recv_queue self idx q hub)
  with_recv_queue-KeepsPlanes self idx q hub = with_context-KeepsPlanes self _ hub (record {
    number_kept = refl;
    conns_kept = refl;
    sends_kept = refl;
    messages_kept = length-set (context self hub).recv_queues idx q;
  })

  -- The messages that the handlers publish or send on, and the queue from which the message is
  -- taken, are of no concern to what a reactor of either plane relies on: it holds after a round of
  -- the loop of a worker if it held before, whatever the other threads do to the queues of the
  -- distributors meanwhile.
  pub dispatch-IsFed :
      (fuel : ℕ) (p self : Plane) (r : Reactor) (idx : ℕ) (q : MpscQueue InboundMessage)
      (msg : InboundMessage) (hub : Hub)
      → IsFed fuel r (context p hub)
      → IsFed fuel r (context p (dispatch e others self msg (with_recv_queue self idx q hub)))
  dispatch-IsFed fuel p self r idx q msg hub = KeepsQueues-IsFed fuel r (
      KeepsQueues-trans (on_plane _ _ p (with_recv_queue-KeepsPlanes self idx q hub))
        (on_plane _ _ p (dispatch-KeepsPlanes self msg (with_recv_queue self idx q hub))))
