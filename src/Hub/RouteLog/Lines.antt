-- ===== src/Hub/RouteLog/Lines.antt =====
-- src/hub/route_log.hpp: the lines of the log.
use mathlib.Core.Option
use hi_im_core.Hub.Router
use hi_im_core.Prelude.{List, Option, [], codes, if◌then◌else◌, none, not, some, ℕ, ◌&&◌, ◌==◌, ◌∷◌}
use hi_im_core.Hub.Context.{DistEnv, HubContext, push_dist, send_queue}
use hi_im_core.Hub.Distributor.{SendEnv, push_send}
use hi_im_core.Hub.Messages.{OutboundFrame, Plane, backend, forward}
use hi_im_core.Hub.RouteLog.{RouteLogMeta, parse_route_log_meta}
use hi_im_core.Hub.Router.{NidRoute, Router}
use hi_im_core.Hub.Status.{Status, is_ok}
use hi_im_core.Wire.Bytes.{Endian}
use hi_im_core.Wire.Header.{encode_frame, flag_exp}

-- What is put into std::cerr: a text, a number, a number after std::hex, and an `int`, whose -1 is
-- `none`.
pub data Piece : Type 0 where
  text : List ℕ → Piece
  number : ℕ → Piece
  hex : ℕ → Piece
  index : Option ℕ → Piece

abbrev pub Line : Type 0
Line = List Piece

abbrev pub plane_name : Plane → List ℕ
plane_name forward = codes "forward"
plane_name backend = codes "backend"

-- `message` is that of the status.
unfoldable pub log_bridge_async_send : ℕ → ℕ → ℕ → Status → List ℕ → Line
log_bridge_async_send im_dest_nid im_seq cmd st message =
    if is_ok st
    then text (codes "[bridge] backend async_send ok dest_nid=")
      ∷ number im_dest_nid
      ∷ text (codes " seq=")
      ∷ number im_seq
      ∷ text (codes " cmd=0x")
      ∷ hex cmd
      ∷ []
    else text (codes "[bridge] backend async_send fail dest_nid=")
      ∷ number im_dest_nid
      ∷ text (codes " seq=")
      ∷ number im_seq
      ∷ text (codes " cmd=0x")
      ∷ hex cmd
      ∷ text (codes " err=")
      ∷ text message
      ∷ []

-- The warning of LogAsyncSendEnqueue.
abbrev pub mismatch : ℕ → RouteLogMeta → Line
mismatch dest_nid meta =
    text (codes "[hub] WARN async_send dest_nid mismatch param=")
    ∷ number dest_nid
    ∷ text (codes " im_header=")
    ∷ number meta.im_dest_nid
    ∷ text (codes " seq=")
    ∷ number meta.im_seq
    ∷ []

abbrev pub async_send_line : Plane → ℕ → ℕ → Option ℕ → RouteLogMeta → Line
async_send_line plane dest_nid route_sid route_reactor meta =
    text (codes "[hub] async_send enqueue plane=")
    ∷ text (plane_name plane)
    ∷ text (codes " dest_nid=")
    ∷ number dest_nid
    ∷ text (codes " route_sid=")
    ∷ number route_sid
    ∷ text (codes " route_reactor=")
    ∷ index route_reactor
    ∷ text (codes " wire_nid=")
    ∷ number meta.wire_nid
    ∷ text (codes " im_dest_nid=")
    ∷ number meta.im_dest_nid
    ∷ text (codes " seq=")
    ∷ number meta.im_seq
    ∷ text (codes " cmd=0x")
    ∷ hex meta.wire_cmd
    ∷ []

unfoldable pub log_async_send_enqueue : Plane → ℕ → ℕ → Option ℕ → RouteLogMeta → List Line
log_async_send_enqueue plane dest_nid route_sid route_reactor meta =
    async_send_line plane dest_nid route_sid route_reactor meta
    ∷ (if not (meta.im_dest_nid == 0) && not (meta.im_dest_nid == dest_nid)
        then mismatch dest_nid meta ∷ []
        else [])

unfoldable pub log_publish_enqueue : Plane → ℕ → ℕ → Option ℕ → RouteLogMeta → Line
log_publish_enqueue plane sub_nid route_sid route_reactor meta =
    text (codes "[hub] publish enqueue plane=")
    ∷ text (plane_name plane)
    ∷ text (codes " sub_nid=")
    ∷ number sub_nid
    ∷ text (codes " route_sid=")
    ∷ number route_sid
    ∷ text (codes " route_reactor=")
    ∷ index route_reactor
    ∷ text (codes " seq=")
    ∷ number meta.im_seq
    ∷ text (codes " cmd=0x")
    ∷ hex meta.wire_cmd
    ∷ []

-- `op` is "publish" or "async_send".
unfoldable pub log_dist_queue_push_fail : Plane → RouteLogMeta → List ℕ → Line
log_dist_queue_push_fail plane meta op =
    text (codes "[hub] dist queue full plane=")
    ∷ text (plane_name plane)
    ∷ text (codes " op=")
    ∷ text op
    ∷ text (codes " im_dest_nid=")
    ∷ number meta.im_dest_nid
    ∷ text (codes " seq=")
    ∷ number meta.im_seq
    ∷ text (codes " cmd=0x")
    ∷ hex meta.wire_cmd
    ∷ []

unfoldable pub log_distributor_route_ok : OutboundFrame → RouteLogMeta → Line
log_distributor_route_ok frame meta =
    text (codes "[distributor] route ok sid=")
    ∷ number frame.sid
    ∷ text (codes " reactor=")
    ∷ index frame.reactor_idx
    ∷ text (codes " wire_nid=")
    ∷ number meta.wire_nid
    ∷ text (codes " im_dest_nid=")
    ∷ number meta.im_dest_nid
    ∷ text (codes " seq=")
    ∷ number meta.im_seq
    ∷ text (codes " cmd=0x")
    ∷ hex meta.wire_cmd
    ∷ []

unfoldable pub log_distributor_route_fail : OutboundFrame → RouteLogMeta → List ℕ → Line
log_distributor_route_fail frame meta reason =
    text (codes "[distributor] route fail sid=")
    ∷ number frame.sid
    ∷ text (codes " reactor=")
    ∷ index frame.reactor_idx
    ∷ text (codes " reason=")
    ∷ text reason
    ∷ text (codes " wire_nid=")
    ∷ number meta.wire_nid
    ∷ text (codes " im_dest_nid=")
    ∷ number meta.im_dest_nid
    ∷ text (codes " seq=")
    ∷ number meta.im_seq
    ∷ text (codes " cmd=0x")
    ∷ hex meta.wire_cmd
    ∷ []

module _ (e : Endian) (others : DistEnv) where
  -- What AsyncSend of src/hub/context_impl.cpp logs once the route is found.
  unfoldable pub send_along_lines : ℕ → ℕ → List ℕ → NidRoute → HubContext → List Line
  unfolding log_async_send_enqueue log_dist_queue_push_fail
  send_along_lines cmd dest_nid bytes route ctx =
      let frame = encode_frame e cmd dest_nid flag_exp bytes in
      let meta = parse_route_log_meta e frame in
      let (q, queued) =
        push_dist (others 0) ctx.dist_queue
          (record { sid = route.sid; reactor_idx = route.reactor_idx; bytes = frame }) in
      if queued
      then log_async_send_enqueue ctx.plane dest_nid route.sid route.reactor_idx meta
      else log_dist_queue_push_fail ctx.plane meta (codes "async_send") ∷ []

  -- What AsyncSend logs.
  unfoldable pub async_send_lines : ℕ → ℕ → List ℕ → HubContext → List Line
  unfolding send_along_lines
  async_send_lines cmd dest_nid bytes ctx = elim (Router.find_nid_route dest_nid ctx.router) [
    | none ↦ []
    | some route ↦ send_along_lines cmd dest_nid bytes route ctx
  ]

-- What RouteToSendQueue of src/hub/distributor.cpp logs; `none` where `.at` throws.
unfoldable pub route_line : Endian → SendEnv → OutboundFrame → HubContext → Option Line
unfolding log_distributor_route_ok log_distributor_route_fail
route_line e others frame ctx =
    let meta = parse_route_log_meta e frame.bytes in
    elim frame.reactor_idx [
      | none ↦ some (log_distributor_route_fail frame meta (codes "invalid reactor_idx"))
      | some i ↦
          Option.map
            (λ q.
              if (push_send others q frame).1
              then log_distributor_route_ok frame meta
              else log_distributor_route_fail frame meta (codes "send queue full"))
            (send_queue i ctx)
    ]
