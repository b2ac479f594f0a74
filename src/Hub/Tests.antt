-- ===== src/Hub/Tests.antt =====
-- The planes at concrete values: contexts, bridge, worker, distributor, listener and server.
use hi_im_core.Im
use hi_im_core.Hub.Router
use hi_im_core.Hub.Worker
use hi_im_core.Hub.Queue.Spsc
use hi_im_core.Hub.Queue.Mpsc
use hi_im_core.Hub.Listener
use hi_im_core.Prelude.{
  List, [], ap, arith, done, false, if◌then◌else◌, insert, is_empty, leb, length, length-append,
  lookup, ltb, map, none, pos, refl, set, some, take, true, ℕ, ◌%◌, ◌++◌, ◌+◌, ◌<◌, ◌^◌, ◌∙◌, ◌∷◌,
  ◌≡◌,
}
use hi_im_core.Hub.Bridge.{Hub, context, register_bridge_handlers}
use hi_im_core.Hub.Bridge.Laws.{IsBridged}
use hi_im_core.Hub.Context.{
  HubContext, async_send, conn_queue, dist_wakeup, make_context, notify, publish, reactor_wakeup,
  recv_queue, register_handler, send_queue, set_peer,
}
use hi_im_core.Hub.Context.Publish.{
  alone, async_send_lem, enqueue, frame_along, frame_to, free, publish_lem,
}
use hi_im_core.Hub.Listener.{Listener, accepted, make_listener, on_accept, pick_reactor}
use hi_im_core.Hub.Listener.Laws.{on_accept_room}
use hi_im_core.Hub.Listener.Opening.{left_open, listener_of, stop-start}
use hi_im_core.Hub.Messages.{
  InboundMessage, NewConnection, OutboundFrame, backend, forward, no_connection, no_frame,
}
use hi_im_core.Hub.Queue.Spsc.Fifo.{Holds}
use hi_im_core.Hub.Queue.Spsc.Refine.{make-Holds}
use hi_im_core.Hub.Reactor.{pick_worker, tuned}
use hi_im_core.Hub.RouteLog.Handlers.{downlink_lines}
use hi_im_core.Hub.RouteLog.Telling.{downlink_lines-told, sent}
use hi_im_core.Hub.RouteLog.Told.{told, told_receipt, told_status}
use hi_im_core.Hub.Router.{NidRoute, Router, Subscriber}
use hi_im_core.Hub.Server.{DualHubConfig, make_hub, start_listener, start_reactor}
use hi_im_core.Hub.Server.Laws.{pick-in_range}
use hi_im_core.Hub.Status.{not_found, ok, queue_full}
use hi_im_core.Hub.Worker.{dispatch}
use hi_im_core.Hub.Worker.Drain.{holding}
use hi_im_core.Hub.Worker.Laws.{downlink_delivers}
use hi_im_core.Hub.Worker.Rounds.{handle_batches, round_of, run_uplink}
use hi_im_core.Im.Laws.{im_header_bytes, pack_payload-layout, read-pack_payload}
use hi_im_core.Wire.Bytes.{little}

abbrev cfg : DualHubConfig
cfg = record {
  forward_listen = [];
  backend_listen = [];
  reactor_threads = pos 2;
  worker_threads = pos 2;
  queue_capacity = 1;
  auth_user = 112 ∷ [];
  auth_pass = 113 ∷ [];
  health_listen = [];
}

-- A server where session 4 serves the node 20001.
abbrev hub : Hub
hub =
    let fresh = make_hub cfg in
    record fresh {
      forward_ctx = record (fresh.forward_ctx) {
        router = Router.bind_nid 20001 4 (some 0) Router.empty;
      };
    }

abbrev sub : Subscriber
sub = record { gid = 1; sid = 4; nid = 20001; reactor_idx = some 0 }

-- A plane with one subscriber of the command 769.
abbrev ctx : HubContext
ctx = record ((make_hub cfg).forward_ctx) { router = (Router.subscribe 769 sub Router.empty).1 }

abbrev payload : List ℕ
payload = Im.pack_payload little 769 5 20001 9 (104 ∷ [])

abbrev msg : InboundMessage
msg = record {
  sid = 6;
  reactor_idx = some 0;
  gid = 1;
  nid = 30001;
  type = 769;
  flag = 1;
  payload = payload;
}

publish_lem_example :
    let subs = Router.find_subscribers 769 ctx.router in
    let frames = map (frame_to little 769 payload) subs in
    publish little alone 769 payload ctx ≡ (
      if is_empty subs
      then (not_found, ctx)
      else (if leb (length subs) (free ctx)
          then (ok, notify dist_wakeup (enqueue frames ctx))
          else (queue_full, enqueue (take (free ctx) frames) ctx)))
publish_lem_example = publish_lem little 769 payload ctx

async_send_lem_example :
    async_send little alone 769 7 payload ctx ≡ elim (Router.find_nid_route 7 ctx.router) [
      | none ↦ (not_found, ctx)
      | some route ↦
          if ltb 0 (free ctx)
          then (ok, notify dist_wakeup (enqueue (frame_along little 769 7 payload route ∷ []) ctx))
          else (queue_full, ctx)
    ]
async_send_lem_example = async_send_lem little 769 7 payload ctx

hub-IsBridged : IsBridged hub
unfolding make_hub make_context register_bridge_handlers register_handler set_peer insert
hub-IsBridged = record {
  forward_peer = refl;
  backend_peer = refl;
  forward_handlers = refl;
  backend_handlers = refl;
}

abbrev route : NidRoute
route = record { sid = 4; reactor_idx = some 0 }

routed : Router.find_nid_route 20001 hub.forward_ctx.router ≡ some route
unfolding make_hub Router.find_nid_route Router.bind_nid lookup insert
routed = refl

has_room : 0 < free hub.forward_ctx
unfolding make_hub make_context register_bridge_handlers register_handler set_peer Mpsc.make
has_room = omega arith

downlink_delivers_example : dispatch little alone backend msg hub ≡ record hub {
  forward_ctx =
      notify dist_wakeup
        (enqueue (frame_along little 769 20001 payload route ∷ []) hub.forward_ctx);
}
downlink_delivers_example =
    downlink_delivers little msg hub route 769 5 20001 9 (104 ∷ []) hub-IsBridged refl (omega arith)
      (omega arith) (omega arith) routed has_room

abbrev frame : OutboundFrame
frame = record { sid = 4; reactor_idx = some 0; bytes = 65 ∷ [] }

-- A plane whose first send queue takes one frame.
abbrev sending : HubContext
sending = record ctx { send_queues = Spsc.make 1 no_frame ∷ [] }

one_queue : send_queue 0 sending ≡ some (Spsc.make 1 no_frame)
unfolding send_queue
one_queue = refl

ring_room : length {A = OutboundFrame} [] + 1 < (Spsc.make 1 no_frame).capacity
unfolding Spsc.make
ring_room = omega arith

-- A plane with a send queue of capacity 0.
abbrev blocked : HubContext
blocked = record ctx { send_queues = Spsc.make 0 no_frame ∷ [] }

blocked_queue : send_queue 0 blocked ≡ some (Spsc.make 0 no_frame)
unfolding send_queue
blocked_queue = refl

ring_full : length {A = OutboundFrame} [] + 1 ≡ (Spsc.make 0 no_frame).capacity
unfolding Spsc.make
ring_full = refl

-- A listener whose only reactor has an empty queue.
abbrev listener : Listener
listener = record {
  ctx = record ctx { conn_queues = Spsc.make 1 no_connection ∷ [] };
  reactor_count = 1;
  round = 5;
  listen_fd = some 3;
  started = true;
  joinable = true;
  calls = [];
  socket_calls = [];
}

turn : conn_queue (5 % 1) listener.ctx ≡ some (Spsc.make 1 no_connection)
unfolding conn_queue
turn = refl

conn_room : length {A = NewConnection} [] + 1 < (Spsc.make 1 no_connection).capacity
unfolding Spsc.make
conn_room = omega arith

on_accept_room_example :
    (on_accept (λ p. p) (accepted 9 true) listener
      ≡ done (record listener {
        ctx = notify (reactor_wakeup (5 % 1)) (record (listener.ctx) {
          next_sid = (listener.ctx.next_sid + 1) % 2 ^ 64;
          conn_queues =
              set listener.ctx.conn_queues
                (5 % 1)
                (Spsc.push
                  (Spsc.make 1 no_connection)
                  (record { fd = some 9; sid = listener.ctx.next_sid })).0;
        });
        round = (5 + 1) % 2 ^ 64;
        calls = tuned (some 9) ∷ [];
      }))
    × Holds
        (Spsc.push
          (Spsc.make 1 no_connection)
          (record { fd = some 9; sid = listener.ctx.next_sid })).0
        0
        (record { fd = some 9; sid = listener.ctx.next_sid } ∷ [])
on_accept_room_example =
    on_accept_room 9 listener (Spsc.make 1 no_connection) 0 [] turn (make-Holds 1 no_connection)
      conn_room

pick-in_range_example :
    (recv_queue
        (pick_worker 5 (start_reactor cfg forward 0 8 (make_hub cfg)))
        (context forward (make_hub cfg))
      ≡ some (Mpsc.make 1))
    × (conn_queue
          (pick_reactor (start_listener cfg forward 3 (make_hub cfg)).reactor_count 3).0
          (context forward (make_hub cfg))
        ≡ some (Spsc.make 1 no_connection))
pick-in_range_example = pick-in_range cfg forward 0 8 5 3

worker_there : 0 < length hub.forward_ctx.recv_queues
unfolding make_hub make_context register_bridge_handlers register_handler set_peer
worker_there = omega arith

run_uplink_example :
    Worker.run little
      (map (round_of 0 1) ((λ k. alone, msg ∷ []) ∷ (λ k. alone, msg ∷ []) ∷ []))
      forward
      0
      (holding 0 1 [] hub)
    ≡ done (record (holding 0 1 [] hub) {
      backend_ctx =
          handle_batches little
            ((λ k. alone, msg ∷ []) ∷ (λ k. alone, msg ∷ []) ∷ [])
            hub.backend_ctx;
    })
run_uplink_example =
    run_uplink little ((λ k. alone, msg ∷ []) ∷ (λ k. alone, msg ∷ []) ∷ []) 0 1 hub hub-IsBridged
      worker_there

stop-start_example :
    left_open
      (Listener.stop (
        listener_of (
          Listener.start
            (record { socket = some 3; binds = false; listens = true })
            (λ text. some (pos 28888))
            (make_listener ctx (pos 1) 0)))).socket_calls
      []
    ≡ []
stop-start_example =
    stop-start (record { socket = some 3; binds = false; listens = true })
      (λ text. some (pos 28888)) ctx (pos 1) 0

msg_dest : Im.read_dest_nid little msg.payload ≡ 20001
msg_dest = (read-pack_payload little 769 5 20001 9 (104 ∷ []) (omega arith) (omega arith)).0

msg_size : length msg.payload ≡ 53
msg_size =
    ap length (pack_payload-layout little 769 5 20001 9 (104 ∷ []))
    ∙ omega (arith, length-append (im_header_bytes 769 1 5 20001 9) (104 ∷ []))

downlink_lines-told_example :
    let dest_nid = Im.read_dest_nid little payload in
    let st = (async_send little alone 769 dest_nid payload hub.forward_ctx).0 in
    downlink_lines little alone backend msg hub
    ≡ told_receipt (sent little alone msg) 6
      ∷ (told hub.forward_ctx.plane
            (sent little alone msg)
            st
            (Router.find_nid_route dest_nid hub.forward_ctx.router)
          ++ (told_status (sent little alone msg) st ∷ []))
downlink_lines-told_example =
    downlink_lines-told little alone backend forward msg hub hub-IsBridged.backend_peer
      (omega (arith, msg_dest)) (omega arith) (omega (arith, msg_dest)) (omega (arith, msg_size))
