-- ===== src/Hub/RouteLog/Telling.antt =====
-- The log of the downlink tells what became of the message, that of the distributor what became of
-- the frame.
use hi_im_core.Im
use hi_im_core.Hub.Router
use hi_im_core.Prelude.{
  ==_refl, Bool, Bool-cases, List, Option, Option-cases, [], ap, arith, codes, done, false,
  if◌then◌else◌, inl, inr, length, ne→not_==, none, not, or_throw, refl, some, true, ℕ, ◌&&◌, ◌++◌,
  ◌<◌, ◌==◌, ◌>>=◌, ◌^◌, ◌∷◌, ◌≡◌, ◌≢◌,
}
use hi_im_core.Hub.Bridge.{Hub, context}
use hi_im_core.Hub.Context.{DistEnv, HubContext, async_send, push_dist, send_along, send_queue}
use hi_im_core.Hub.Distributor.{SendEnv, finish_route, push_send, route_to, route_to_send_queue}
use hi_im_core.Hub.Messages.{InboundMessage, OutboundFrame, Plane}
use hi_im_core.Hub.Queue.Spsc.{SpscQueue}
use hi_im_core.Hub.RouteLog.{RouteLogMeta, parse_route_log_meta}
use hi_im_core.Hub.RouteLog.Handlers.{downlink_lines, send_on_lines}
use hi_im_core.Hub.RouteLog.Laws.{parse_route_log_meta-frame}
use hi_im_core.Hub.RouteLog.Lines.{
  Line, async_send_lines, log_async_send_enqueue, log_distributor_route_fail,
  log_distributor_route_ok, route_line, send_along_lines,
}
use hi_im_core.Hub.RouteLog.Told.{told, told_receipt, told_status, told_status_lem}
use hi_im_core.Hub.Router.{NidRoute, Router}
use hi_im_core.Hub.Status.{Status, not_found}
use hi_im_core.Wire.Bytes.{Endian}
use hi_im_core.Wire.Header.{encode_frame, flag_exp}

&&_false : (b : Bool) → b && false ≡ false
&&_false true = refl
&&_false false = refl

module _ (e : Endian) (others : DistEnv) where
  -- What the log knows of a message for `dest_nid`.
  abbrev pub sent : InboundMessage → RouteLogMeta
  sent msg = record {
    wire_cmd = msg.type;
    wire_nid = Im.read_dest_nid e msg.payload;
    im_dest_nid = Im.read_dest_nid e msg.payload;
    im_seq = Im.read_seq e msg.payload;
  }

  abbrev pub frame_along : InboundMessage → NidRoute → OutboundFrame
  frame_along msg route = record {
    sid = route.sid;
    reactor_idx = route.reactor_idx;
    bytes = encode_frame e msg.type (Im.read_dest_nid e msg.payload) flag_exp msg.payload;
  }

  told_along :
      (msg : InboundMessage) (ctx : HubContext) (route : NidRoute)
      → msg.type < 2 ^ 32
      → Im.read_dest_nid e msg.payload < 2 ^ 32
      → length msg.payload < 2 ^ 32
      → let dest_nid = Im.read_dest_nid e msg.payload in
        send_along_lines e others msg.type dest_nid msg.payload route ctx
        ≡ told ctx.plane
            (sent msg)
            (send_along e others msg.type dest_nid msg.payload route ctx).0
            (some route)
  unfolding send_along_lines send_along log_async_send_enqueue
  told_along msg ctx route ht hd hp =
      elim (Bool-cases (push_dist (others 0) ctx.dist_queue (frame_along msg route)).1) [
        | inl queued ↦ rw (wire, queued, ==_refl dest_nid, &&_false (not (dest_nid == 0))) refl
        | inr full ↦ rw (wire, full) refl
      ]
    where
      dest_nid : ℕ
      dest_nid = Im.read_dest_nid e msg.payload

      wire :
          parse_route_log_meta e (encode_frame e msg.type dest_nid flag_exp msg.payload) ≡ sent msg
      wire =
          parse_route_log_meta-frame e msg.type dest_nid flag_exp msg.payload ht hd (omega arith) hp

  -- AsyncSend for the node of the payload, whatever the other threads do at the queue: its log is
  -- one line on the frame it queued, one on the queue that is full, or none if the node is unknown.
  -- There is no warning of a mismatch.
  pub async_send_lines-told :
      (msg : InboundMessage) (ctx : HubContext)
      → msg.type < 2 ^ 32
      → Im.read_dest_nid e msg.payload < 2 ^ 32
      → length msg.payload < 2 ^ 32
      → let dest_nid = Im.read_dest_nid e msg.payload in
        async_send_lines e others msg.type dest_nid msg.payload ctx
        ≡ told ctx.plane
            (sent msg)
            (async_send e others msg.type dest_nid msg.payload ctx).0
            (Router.find_nid_route dest_nid ctx.router)
  unfolding async_send_lines async_send
  async_send_lines-told msg ctx ht hd hp =
      by_route (Router.find_nid_route (Im.read_dest_nid e msg.payload) ctx.router)
    where
      by_route :
          (found : Option NidRoute)
          → (elim found as (λ _. List Line) [
            | none ↦ []
            | some route ↦
                send_along_lines e others msg.type
                  (Im.read_dest_nid e msg.payload)
                  msg.payload
                  route
                  ctx
          ])
            ≡ told ctx.plane
                (sent msg)
                (elim found as (λ _. Status × HubContext) [
                  | none ↦ (not_found, ctx)
                  | some route ↦
                      send_along e others msg.type
                        (Im.read_dest_nid e msg.payload)
                        msg.payload
                        route
                        ctx
                ]).0
                found
      by_route none = refl
      by_route (some route) = told_along msg ctx route ht hd hp

  -- A message of the backend plane that names a node, with a peer plane to send on: whatever the
  -- other threads do at the queue, the log has the line on its receipt, then what AsyncSend did with
  -- it, which is one line on the frame it queued, one on the queue that is full, or none if the
  -- node is unknown, and last whether AsyncSend returned kOk, with the message of its status if it
  -- did not. There is no
  -- warning that the node differs from that of the IM header.
  pub downlink_lines-told :
      (self p : Plane) (msg : InboundMessage) (hub : Hub)
      → (context self hub).peer ≡ some p
      → Im.read_dest_nid e msg.payload ≢ 0
      → msg.type < 2 ^ 32
      → Im.read_dest_nid e msg.payload < 2 ^ 32
      → length msg.payload < 2 ^ 32
      → let dest_nid = Im.read_dest_nid e msg.payload in
        let ctx = context p hub in
        let st = (async_send e others msg.type dest_nid msg.payload ctx).0 in
        downlink_lines e others self msg hub
        ≡ told_receipt (sent msg) msg.sid
          ∷ (told ctx.plane (sent msg) st (Router.find_nid_route dest_nid ctx.router)
              ++ (told_status (sent msg) st ∷ []))
  unfolding downlink_lines send_on_lines
  downlink_lines-told self p msg hub peer named ht hd hp = rw (
    peer,
    downlink_lines,
    ne→not_== (Im.read_dest_nid e msg.payload) 0 named,
    async_send_lines-told msg (context p hub) ht hd hp,
    told_status_lem (sent msg)
        (async_send e others msg.type (Im.read_dest_nid e msg.payload) msg.payload
          (context p hub)).0,
  )

-- What there is to say of a frame by the answer of RouteToSendQueue.
abbrev pub told_route : OutboundFrame → RouteLogMeta → Bool → Line
told_route frame meta true = log_distributor_route_ok frame meta
told_route frame meta false = elim frame.reactor_idx [
  | none ↦ log_distributor_route_fail frame meta (codes "invalid reactor_idx")
  | some i ↦ log_distributor_route_fail frame meta (codes "send queue full")
]

told_route-finish_route :
    (frame : OutboundFrame) (meta : RouteLogMeta) (i : ℕ) (ctx : HubContext)
    → let to = record frame { reactor_idx = some i } in
      (r : SpscQueue OutboundFrame × Bool)
      → told_route to meta (finish_route i ctx r).0 ≡ (
          if r.1
          then log_distributor_route_ok to meta
          else log_distributor_route_fail to meta (codes "send queue full"))
told_route-finish_route frame meta i ctx (q, true) = refl
told_route-finish_route frame meta i ctx (q, false) = refl

-- The distributor logs one line for each frame, that which fits the answer of RouteToSendQueue,
-- and none exactly where the call throws.
pub route_line-told :
    (e : Endian) (others : SendEnv) (frame : OutboundFrame) (ctx : HubContext)
    → (route_to_send_queue others frame ctx >>= λ r.
        done (told_route frame (parse_route_log_meta e frame.bytes) r.0))
      ≡ or_throw (route_line e others frame ctx)
unfolding route_line route_to_send_queue route_to
route_line-told e others frame ctx = by_index frame.reactor_idx
  where
    by_index :
        (to : Option ℕ)
        → let f = record frame { reactor_idx = to } in
          (route_to_send_queue others f ctx >>= λ r.
          done (told_route f (parse_route_log_meta e frame.bytes) r.0))
          ≡ or_throw (route_line e others f ctx)
    by_index none = refl
    by_index (some i) = elim (Option-cases (send_queue i ctx)) [
      | inl outside ↦ rw (outside)
      | inr (q, inside) ↦ rw (inside) (
          ap done (
            told_route-finish_route frame (parse_route_log_meta e frame.bytes) i ctx
              (push_send others q (record frame { reactor_idx = some i }))))
    ]
