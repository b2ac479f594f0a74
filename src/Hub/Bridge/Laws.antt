-- ===== src/Hub/Bridge/Laws.antt =====
-- A hub with the bridge registered: what a message on one plane does on the other.
use hi_im_core.Im
use hi_im_core.Prelude.{[], if◌then◌else◌, insert, refl, some, ◌==◌, ◌∷◌, ◌≡◌}
use hi_im_core.Hub.Bridge.{Hub, handle, register_bridge_handlers}
use hi_im_core.Hub.Context.{DistEnv, async_send, backend_downlink, forward_uplink, publish}
use hi_im_core.Hub.Messages.{InboundMessage, backend, forward}
use hi_im_core.Wire.Bytes.{Endian}

-- Each plane's peer is the other one, and its handlers are the bridge's for type 0 and no more.
pub record IsBridged (hub : Hub) : Type 0 where
  pub forward_peer : hub.forward_ctx.peer ≡ some backend
  pub backend_peer : hub.backend_ctx.peer ≡ some forward
  pub forward_handlers : hub.forward_ctx.handlers ≡ (0, forward_uplink) ∷ []
  pub backend_handlers : hub.backend_ctx.handlers ≡ (0, backend_downlink) ∷ []

-- Registering on two contexts without handlers bridges them.
pub register_bridge_handlers-IsBridged :
    (hub : Hub)
    → hub.forward_ctx.handlers ≡ []
    → hub.backend_ctx.handlers ≡ []
    → IsBridged (register_bridge_handlers hub)
unfolding register_bridge_handlers insert
register_bridge_handlers-IsBridged hub hf hb = record {
  forward_peer = refl;
  backend_peer = refl;
  forward_handlers = rw hf;
  backend_handlers = rw hb;
}

module _ (e : Endian) where
  pub uplink_publishes :
      (others : DistEnv) (msg : InboundMessage) (hub : Hub)
      → IsBridged hub
      → handle e others forward_uplink forward msg hub
        ≡ record hub { backend_ctx = (publish e others msg.type msg.payload hub.backend_ctx).1 }
  unfolding handle
  uplink_publishes others msg hub b = rw b.forward_peer

  pub downlink_sends :
      (others : DistEnv) (msg : InboundMessage) (hub : Hub)
      → IsBridged hub
      → handle e others backend_downlink backend msg hub ≡ (
          if Im.read_dest_nid e msg.payload == 0 then hub else record hub {
            forward_ctx =
                (async_send e others msg.type
                  (Im.read_dest_nid e msg.payload)
                  msg.payload
                  hub.forward_ctx).1;
          })
  unfolding handle
  downlink_sends others msg hub b = rw b.backend_peer
