-- ===== src/Hub/Bridge.antt =====
-- include/hiim/hub/bridge.hpp and src/hub/bridge.cpp: the handlers that join the two planes.
pub mod Laws
use hi_im_core.Im
use hi_im_core.Prelude.{if◌then◌else◌, none, some, ◌==◌}
use hi_im_core.Hub.Context.{
  DistEnv, Handler, HubContext, async_send, backend_downlink, forward_uplink, publish,
  register_handler, set_peer,
}
use hi_im_core.Hub.Messages.{InboundMessage, Plane, backend, forward}
use hi_im_core.Wire.Bytes.{Endian}

pub record Hub : Type 0 where
  pub forward_ctx : HubContext
  pub backend_ctx : HubContext

abbrev pub context : Plane → Hub → HubContext
context forward hub = hub.forward_ctx
context backend hub = hub.backend_ctx

abbrev pub with_context : Plane → HubContext → Hub → Hub
with_context forward ctx hub = record hub { forward_ctx = ctx }
with_context backend ctx hub = record hub { backend_ctx = ctx }

module _ (e : Endian) (others : DistEnv) where
  unfoldable pub publish_on : Plane → InboundMessage → Hub → Hub
  publish_on p msg hub =
      with_context p (publish e others msg.type msg.payload (context p hub)).1 hub

  -- The status is only logged, as Hub.RouteLog has it.
  unfoldable pub forward_uplink_handler : Plane → InboundMessage → Hub → Hub
  unfolding publish_on
  forward_uplink_handler self msg hub = elim (context self hub).peer [
    | none ↦ hub
    | some p ↦ publish_on p msg hub
  ]

  unfoldable pub send_on : Plane → InboundMessage → Hub → Hub
  send_on p msg hub =
      let dest_nid = Im.read_dest_nid e msg.payload in
      if dest_nid == 0
      then hub
      else with_context p (async_send e others msg.type dest_nid msg.payload (context p hub)).1 hub

  unfoldable pub backend_downlink_handler : Plane → InboundMessage → Hub → Hub
  unfolding send_on
  backend_downlink_handler self msg hub = elim (context self hub).peer [
    | none ↦ hub
    | some p ↦ send_on p msg hub
  ]

  -- A call of the std::function.
  unfoldable pub handle : Handler → Plane → InboundMessage → Hub → Hub
  unfolding forward_uplink_handler backend_downlink_handler
  handle forward_uplink self msg hub = forward_uplink_handler self msg hub
  handle backend_downlink self msg hub = backend_downlink_handler self msg hub

unfoldable pub register_bridge_handlers : Hub → Hub
unfolding set_peer register_handler
register_bridge_handlers hub = record {
  forward_ctx = register_handler 0 forward_uplink (set_peer backend hub.forward_ctx);
  backend_ctx = register_handler 0 backend_downlink (set_peer forward hub.backend_ctx);
}
