-- ===== src/Hub/Delivery/Stages.antt =====
-- The stages of a message on its way down: what the worker, the distributor and the reactor do.
use hi_im_core.Im
use hi_im_core.Hub.Worker
use hi_im_core.Hub.Distributor
use hi_im_core.Hub.Router
use hi_im_core.Hub.Queue.Mpsc
use hi_im_core.Hub.Queue.Spsc
use hi_im_core.Prelude.{
  List, [], ap, ap₂, arith, done, false, get_elem?-set_self, is_empty, length, lookup, refl, set,
  some, suc, ℕ, ◌++◌, ◌+◌, ◌<◌, ◌>>=◌, ◌^◌, ◌∙◌, ◌∷◌, ◌≡◌,
}
use hi_im_core.Hub.Bridge.{Hub}
use hi_im_core.Hub.Bridge.Laws.{IsBridged}
use hi_im_core.Hub.Context.{HubContext, dist_wakeup, notify, reactor_wakeup, recv_queue, send_queue}
use hi_im_core.Hub.Context.Publish.{alone, enqueue, frame_along, free}
use hi_im_core.Hub.Distributor.Laws.{route_to_send_queue_room, undisturbed}
use hi_im_core.Hub.Messages.{InboundMessage, OutboundFrame, backend}
use hi_im_core.Hub.Queue.Mpsc.{MpscQueue}
use hi_im_core.Hub.Queue.Spsc.{SpscQueue}
use hi_im_core.Hub.Queue.Spsc.Fifo.{Holds}
use hi_im_core.Hub.Queue.Spsc.Refine.{pop_ok}
use hi_im_core.Hub.Reactor.{Reactor, Session, fd_key}
use hi_im_core.Hub.Reactor.Laws.Draining.{reactor_rests, reactor_takes}
use hi_im_core.Hub.Reactor.Laws.Eager.{IsEager, Written, send_bytes-Written}
use hi_im_core.Hub.Reactor.Laws.Sending.{Ends, Ends-by, bytes_to}
use hi_im_core.Hub.Reactor.Output.{
  Kernel, drain_send_queue, send_bytes, send_frame, with_send_queue,
}
use hi_im_core.Hub.Router.{NidRoute, Router}
use hi_im_core.Hub.Worker.{dispatch, with_recv_queue}
use hi_im_core.Hub.Worker.Drain.{set_twice}
use hi_im_core.Hub.Worker.Laws.{downlink_delivers}
use hi_im_core.Wire.Bytes.{Endian}
use hi_im_core.Wire.Header.{encode_frame}
use hi_im_core.Wire.Header.Laws.{encode_frame-layout}

-- The backend plane with the messages `msgs` in the queue `idx`.
abbrev pub with_messages : ℕ → ℕ → List InboundMessage → Hub → Hub
with_messages idx capacity msgs hub =
    with_recv_queue backend idx (record { capacity = capacity; queue = msgs }) hub

module _ (e : Endian) where
  held :
      (ms : List InboundMessage) (idx capacity : ℕ) (hub : Hub)
      → idx < length hub.backend_ctx.recv_queues
      → recv_queue idx (with_messages idx capacity ms hub).backend_ctx
        ≡ some (record { capacity = capacity; queue = ms })
  unfolding recv_queue
  held ms idx capacity hub inside = get_elem?-set_self hub.backend_ctx.recv_queues idx _ inside

  -- The loop of a worker over a queue that is empty, and over one with a message.
  worker_rests :
      (fuel k idx capacity : ℕ) (hub : Hub)
      → idx < length hub.backend_ctx.recv_queues
      → Worker.drain e (suc fuel) (λ k. alone) k backend idx (with_messages idx capacity [] hub)
        ≡ done (with_messages idx capacity [] hub)
  unfolding Worker.drain Mpsc.pop
  worker_rests fuel k idx capacity hub inside = rw (held [] idx capacity hub inside) refl

  worker_takes :
      (fuel idx capacity : ℕ) (msg : InboundMessage) (hub : Hub)
      → idx < length hub.backend_ctx.recv_queues
      → Worker.drain e
          (suc (suc fuel))
          (λ k. alone)
          0
          backend
          idx
          (with_messages idx capacity (msg ∷ []) hub)
        ≡ Worker.drain e
            (suc fuel)
            (λ k. alone)
            1
            backend
            idx
            (dispatch e alone backend msg
              (with_messages idx capacity [] (with_messages idx capacity (msg ∷ []) hub)))
  unfolding Worker.drain Mpsc.pop
  worker_takes fuel idx capacity msg hub inside = rw (held (msg ∷ []) idx capacity hub inside) refl

  -- The forward plane with a frame in the distributor's queue.
  abbrev pub forwarded : OutboundFrame → HubContext → HubContext
  forwarded frame ctx = notify dist_wakeup (enqueue (frame ∷ []) ctx)

  pub worker_delivers :
      (fuel idx capacity : ℕ) (msg : InboundMessage) (hub : Hub) (route : NidRoute)
      (cmd sid dest seq : ℕ) (body : List ℕ)
      → IsBridged hub
      → idx < length hub.backend_ctx.recv_queues
      → msg.payload ≡ Im.pack_payload e cmd sid dest seq body
      → 0 < dest
      → dest < 2 ^ 32
      → seq < 2 ^ 64
      → Router.find_nid_route dest hub.forward_ctx.router ≡ some route
      → 0 < free hub.forward_ctx
      → Worker.drain e
          (suc (suc fuel))
          (λ k. alone)
          0
          backend
          idx
          (with_messages idx capacity (msg ∷ []) hub)
        ≡ done (
            with_messages idx capacity [] (record hub {
              forward_ctx =
                  forwarded (frame_along e msg.type dest msg.payload route) hub.forward_ctx;
            }))
  worker_delivers fuel idx capacity msg hub route cmd sid dest seq body b inside packed nonzero fits
        seq_fits found room =
      worker_takes fuel idx capacity msg hub inside
      ∙ ap (Worker.drain e (suc fuel) (λ k. alone) 1 backend idx) dispatched
      ∙ worker_rests fuel 1 idx capacity after inside
    where
      after : Hub
      after = record hub {
        forward_ctx = forwarded (frame_along e msg.type dest msg.payload route) hub.forward_ctx;
      }

      bridged :
          IsBridged (with_messages idx capacity [] (with_messages idx capacity (msg ∷ []) hub))
      bridged = record {
        forward_peer = b.forward_peer;
        backend_peer = b.backend_peer;
        forward_handlers = b.forward_handlers;
        backend_handlers = b.backend_handlers;
      }

      dispatched :
          dispatch e alone backend msg
            (with_messages idx capacity [] (with_messages idx capacity (msg ∷ []) hub))
          ≡ with_messages idx capacity [] after
      dispatched =
          downlink_delivers e msg
            (with_messages idx capacity [] (with_messages idx capacity (msg ∷ []) hub)) route cmd
            sid dest seq body bridged packed nonzero fits seq_fits found room
          ∙ ap
              (λ (qs : List (MpscQueue InboundMessage)). record after {
                backend_ctx = record (hub.backend_ctx) { recv_queues = qs };
              })
              (set_twice hub.backend_ctx.recv_queues idx _ _)

-- The loop of the distributor over a queue with one frame, for the reactor i.
abbrev pub routed : ℕ → SpscQueue OutboundFrame → OutboundFrame → HubContext → HubContext
routed i q frame ctx = notify (reactor_wakeup i) (record ctx {
  dist_queue = record (ctx.dist_queue) { queue = [] };
  send_queues = set ctx.send_queues i (Spsc.push q frame).0;
})

pub distributor_routes :
    (fuel i c : ℕ) (frame : OutboundFrame) (ctx : HubContext) (q : SpscQueue OutboundFrame)
    → ctx.dist_queue.queue ≡ frame ∷ []
    → frame.reactor_idx ≡ some i
    → send_queue i ctx ≡ some q
    → Holds q c []
    → 1 < q.capacity
    → Distributor.drain (suc (suc fuel)) (λ k. undisturbed) 0 ctx ≡ done (routed i q frame ctx)
unfolding Distributor.drain Mpsc.pop send_queue
distributor_routes fuel i c frame ctx q waiting to_i there h room = rw waiting (
    rw
      (route_to_send_queue_room frame i
        (record ctx { dist_queue = record (ctx.dist_queue) { queue = [] } }) q c [] to_i there h
        (omega arith)).0
      refl)

-- The session has nothing left to send, and `bytes` went out after what was sent before.
abbrev pub Delivered : ℕ → Session → List ℕ → Reactor → Reactor → Type 0
Delivered k s bytes r r' =
    (lookup k r'.sessions ≡ some (record s { outbuf = [] }))
    × (bytes_to (fd_key s.fd) r'.calls ≡ bytes_to (fd_key s.fd) r.calls ++ bytes)

module _ (kernel : Kernel) (eager : IsEager kernel) where
  send_frame-Written :
      (frame : OutboundFrame) (s : Session) (r : Reactor)
      → is_empty frame.bytes ≡ false
      → lookup frame.sid r.sessions ≡ some s
      → lookup (fd_key s.fd) r.fd_to_sid ≡ some frame.sid
      → Ends (send_frame kernel frame r) (Written frame.sid s (s.outbuf ++ frame.bytes) r)
  unfolding send_frame
  send_frame-Written frame s r some_bytes there leads =
      Ends-by (rw (send_frame, there)) (bytes_case frame.bytes some_bytes)
    where
      bytes_case :
          (bytes : List ℕ)
          → is_empty bytes ≡ false
          → Ends (send_bytes kernel frame.sid bytes r) (Written frame.sid s (s.outbuf ++ bytes) r)
      bytes_case [] no_bytes = absurd (cc no_bytes)
      bytes_case (b ∷ bytes) h = send_bytes-Written kernel eager frame.sid b bytes s r there leads

  pub reactor_sends :
      (fuel c : ℕ) (q : SpscQueue OutboundFrame) (frame : OutboundFrame) (s : Session) (r : Reactor)
      → send_queue r.idx r.ctx ≡ some q
      → r.idx < length r.ctx.send_queues
      → Holds q c (frame ∷ [])
      → is_empty frame.bytes ≡ false
      → lookup frame.sid r.sessions ≡ some s
      → lookup (fd_key s.fd) r.fd_to_sid ≡ some frame.sid
      → Ends
          (drain_send_queue kernel (suc (suc fuel)) r)
          (Delivered frame.sid s (s.outbuf ++ frame.bytes) r)
  unfolding send_queue
  reactor_sends fuel c q frame s r its_queue inside h some_bytes there leads =
      let (r', ends, (left, out, same_ctx, same_idx)) =
        send_frame-Written frame s (with_send_queue kernel (Spsc.pop q).1 r) some_bytes there
          leads in
      (
        r',
        reactor_takes kernel (suc fuel) c q frame [] r its_queue h
            ∙ ap (λ m. m >>= λ r''. drain_send_queue kernel (suc fuel) r'') ends
            ∙ reactor_rests kernel fuel (c + 1) (Spsc.pop q).1 r'
                (ap₂ (λ i (ctx : HubContext). send_queue i ctx) same_idx same_ctx
                  ∙ get_elem?-set_self r.ctx.send_queues r.idx _ inside)
                (pop_ok h).1,
        (left, out),
      )

pub frame_not_empty :
    (e : Endian) (type nid flag : ℕ) (payload : List ℕ)
    → is_empty (encode_frame e type nid flag payload) ≡ false
frame_not_empty e type nid flag payload = rw (encode_frame-layout e type nid flag payload) refl
