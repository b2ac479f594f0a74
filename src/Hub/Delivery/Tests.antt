-- ===== src/Hub/Delivery/Tests.antt =====
-- A server where session 4, on the descriptor 9, serves the node 20001.
use hi_im_core.Im
use hi_im_core.Hub.Router
use hi_im_core.Hub.Queue.Mpsc
use hi_im_core.Hub.Queue.Spsc
use hi_im_core.Prelude.{
  [], arith, insert, length, lookup, pos, refl, some, true, ◌++◌, ◌<◌, ◌∷◌, ◌≡◌,
}
use hi_im_core.Hub.Bridge.{Hub, register_bridge_handlers}
use hi_im_core.Hub.Bridge.Laws.{IsBridged}
use hi_im_core.Hub.Context.{make_context, register_handler, send_queue, set_peer}
use hi_im_core.Hub.Delivery.{relay, relay_delivers}
use hi_im_core.Hub.Delivery.Stages.{Delivered, with_messages}
use hi_im_core.Hub.Messages.{InboundMessage, no_frame}
use hi_im_core.Hub.Queue.Spsc.Refine.{make-Holds}
use hi_im_core.Hub.Reactor.{Reactor, Session, fd_key, make_reactor, no_session}
use hi_im_core.Hub.Reactor.Laws.Eager.{IsEager}
use hi_im_core.Hub.Reactor.Laws.Sending.{Ends}
use hi_im_core.Hub.Reactor.Output.{Kernel, sent}
use hi_im_core.Hub.Router.{Router}
use hi_im_core.Hub.Server.{DualHubConfig, make_hub}
use hi_im_core.Wire.Bytes.{little}
use hi_im_core.Wire.Header.{encode_frame, flag_exp}

abbrev cfg : DualHubConfig
cfg = record {
  forward_listen = [];
  backend_listen = [];
  reactor_threads = pos 1;
  worker_threads = pos 1;
  queue_capacity = 1;
  auth_user = [];
  auth_pass = [];
  health_listen = [];
}

abbrev hub : Hub
hub =
    let fresh = make_hub cfg in
    record fresh {
      forward_ctx = record (fresh.forward_ctx) {
        router = Router.bind_nid 20001 4 (some 0) Router.empty;
      };
    }

hub-IsBridged : IsBridged hub
unfolding make_hub make_context register_bridge_handlers register_handler set_peer insert
hub-IsBridged = record {
  forward_peer = refl;
  backend_peer = refl;
  forward_handlers = refl;
  backend_handlers = refl;
}

abbrev msg : InboundMessage
msg = record {
  sid = 6;
  reactor_idx = some 0;
  gid = 1;
  nid = 30001;
  type = 769;
  flag = 1;
  payload = Im.pack_payload little 769 5 20001 9 (104 ∷ []);
}

abbrev session : Session
session = record no_session { sid = 4; fd = some 9; authed = true; nid = 20001 }

abbrev reactor : Reactor
reactor = record (make_reactor hub.forward_ctx 0 (pos 1) 8) {
  fd_to_sid = insert 10 4 [];
  sessions = insert 4 session [];
}

abbrev kernel : Kernel
kernel k = sent 3

eager : IsEager kernel
eager k = (3, omega arith, refl)

routed_to :
    Router.find_nid_route 20001 hub.forward_ctx.router
    ≡ some (record { sid = 4; reactor_idx = some 0 })
unfolding make_hub Router.find_nid_route Router.bind_nid lookup insert
routed_to = refl

queue_there : 0 < length hub.backend_ctx.recv_queues
unfolding make_hub make_context register_bridge_handlers register_handler set_peer
queue_there = omega arith

no_frames : hub.forward_ctx.dist_queue.queue ≡ []
unfolding make_hub make_context register_bridge_handlers register_handler set_peer Mpsc.make
no_frames = refl

some_room : 0 < hub.forward_ctx.dist_queue.capacity
unfolding make_hub make_context register_bridge_handlers register_handler set_peer Mpsc.make
some_room = omega arith

its_ring : send_queue reactor.idx hub.forward_ctx ≡ some (Spsc.make 1 no_frame)
unfolding make_hub make_context register_bridge_handlers register_handler set_peer send_queue
    make_reactor
its_ring = refl

ring_room : 1 < (Spsc.make 1 no_frame).capacity
unfolding Spsc.make
ring_room = omega arith

its_route : some 0 ≡ some reactor.idx
unfolding make_reactor
its_route = refl

its_session : lookup 4 reactor.sessions ≡ some session
unfolding lookup insert
its_session = refl

its_descriptor : lookup (fd_key session.fd) reactor.fd_to_sid ≡ some 4
unfolding lookup insert
its_descriptor = refl

relay_delivers_example : Ends (relay little kernel 2 0 (with_messages 0 1 (msg ∷ []) hub) reactor) (
    Delivered 4 session
      (session.outbuf ++ encode_frame little 769 20001 flag_exp msg.payload)
      reactor)
relay_delivers_example =
    relay_delivers little kernel eager 0 0 1 0 msg hub (record { sid = 4; reactor_idx = some 0 })
      769 5 20001 9 (104 ∷ []) (Spsc.make 1 no_frame) session reactor hub-IsBridged queue_there refl
      (omega arith) (omega arith) (omega arith) routed_to its_route no_frames some_room its_ring
      (make-Holds 1 no_frame) ring_room its_session its_descriptor
