-- ===== src/Hub/RouteLog/Handlers.antt =====
-- src/hub/context_impl.cpp, src/hub/bridge.cpp: what a message on its way between the planes leaves
-- in the log.
use hi_im_core.Im
use hi_im_core.Hub.Router
use hi_im_core.Prelude.{
  Bool, List, [], codes, false, if◌then◌else◌, none, some, true, ℕ, ◌++◌, ◌+◌, ◌==◌, ◌∷◌,
}
use hi_im_core.Hub.Bridge.{Hub, context}
use hi_im_core.Hub.Context.{DistEnv, HubContext, async_send, frame_for, publish, push_dist}
use hi_im_core.Hub.Messages.{InboundMessage, Plane}
use hi_im_core.Hub.RouteLog.{parse_route_log_meta}
use hi_im_core.Hub.RouteLog.Lines.{
  Line, async_send_lines, hex, log_bridge_async_send, log_dist_queue_push_fail, log_publish_enqueue,
  number, text,
}
use hi_im_core.Hub.Router.{Router, Subscriber}
use hi_im_core.Hub.Status.{Status, not_found, ok}
use hi_im_core.Wire.Bytes.{Endian}

-- The message of the status that Publish returns.
abbrev pub publish_message : Status → List ℕ
publish_message not_found = codes "no subscribers"
publish_message _ = []

-- The message of the status that AsyncSend returns.
abbrev pub async_send_message : Status → List ℕ
async_send_message not_found = codes "nid not connected"
async_send_message _ = []

abbrev pub downlink_received : ℕ → ℕ → InboundMessage → Line
downlink_received dest_nid im_seq msg =
    text (codes "[bridge] backend recv downlink dest_nid=")
    ∷ number dest_nid
    ∷ text (codes " seq=")
    ∷ number im_seq
    ∷ text (codes " cmd=0x")
    ∷ hex msg.type
    ∷ text (codes " sid=")
    ∷ number msg.sid
    ∷ []

abbrev pub missing_dest_nid : ℕ → Line
missing_dest_nid im_seq = text (codes "[bridge] missing IM dest nid seq=") ∷ number im_seq ∷ []

abbrev pub publish_failed : Status → Line
publish_failed st =
    text (codes "[bridge] forward publish failed: ") ∷ text (publish_message st) ∷ []

-- `!st.ok() && st.code != StatusCode::kNotFound`.
abbrev pub is_failure : Status → Bool
is_failure ok = false
is_failure not_found = false
is_failure _ = true

module _ (e : Endian) (others : DistEnv) where
  -- The loop of Publish; `k` counts the pushes.
  unfoldable pub publish_loop_lines : ℕ → ℕ → List ℕ → List Subscriber → HubContext → List Line
  unfolding log_publish_enqueue log_dist_queue_push_fail
  publish_loop_lines k cmd bytes [] ctx = []
  publish_loop_lines k cmd bytes (sub ∷ subs) ctx =
      let frame = frame_for e cmd bytes sub in
      let meta = parse_route_log_meta e frame.bytes in
      let (q, queued) = push_dist (others k) ctx.dist_queue frame in
      let rest = publish_loop_lines (k + 1) cmd bytes subs (record ctx { dist_queue = q }) in
      if queued
      then log_publish_enqueue ctx.plane sub.nid sub.sid sub.reactor_idx meta ∷ rest
      else log_dist_queue_push_fail ctx.plane meta (codes "publish") ∷ []

  unfoldable pub publish_lines : ℕ → List ℕ → HubContext → List Line
  unfolding publish_loop_lines
  publish_lines cmd bytes ctx =
      publish_loop_lines 0 cmd bytes (Router.find_subscribers cmd ctx.router) ctx

  -- ForwardUplinkHandler.
  unfoldable pub uplink_lines : Plane → InboundMessage → Hub → List Line
  unfolding publish_lines
  uplink_lines self msg hub = elim (context self hub).peer [
    | none ↦ []
    | some p ↦
        let st = (publish e others msg.type msg.payload (context p hub)).0 in
        publish_lines msg.type msg.payload (context p hub)
        ++ (if is_failure st then publish_failed st ∷ [] else [])
  ]

  -- AsyncSend, then LogBridgeAsyncSend.
  unfoldable pub send_on_lines : Plane → InboundMessage → Hub → List Line
  unfolding async_send_lines log_bridge_async_send
  send_on_lines p msg hub =
      let dest_nid = Im.read_dest_nid e msg.payload in
      let im_seq = Im.read_seq e msg.payload in
      let st = (async_send e others msg.type dest_nid msg.payload (context p hub)).0 in
      async_send_lines e others msg.type dest_nid msg.payload (context p hub)
      ++ (log_bridge_async_send dest_nid im_seq msg.type st (async_send_message st) ∷ [])

  -- BackendDownlinkHandler.
  unfoldable pub downlink_lines : Plane → InboundMessage → Hub → List Line
  unfolding send_on_lines
  downlink_lines self msg hub = elim (context self hub).peer [
    | none ↦ []
    | some p ↦
        let dest_nid = Im.read_dest_nid e msg.payload in
        let im_seq = Im.read_seq e msg.payload in
        downlink_received dest_nid im_seq msg
        ∷ (if dest_nid == 0 then missing_dest_nid im_seq ∷ [] else send_on_lines p msg hub)
  ]
