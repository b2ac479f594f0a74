-- ===== src/Hub/Delivery.antt =====
-- A message on its way down through the threads: from the queue of a backend worker (src/hub/worker.cpp)
-- over the distributor of the forward plane (src/hub/distributor.cpp) and its reactor
-- (src/hub/reactor.cpp) to the socket of the client.
pub mod Stages
mod Tests
use hi_im_core.Im
use hi_im_core.Hub.Worker
use hi_im_core.Hub.Distributor
use hi_im_core.Hub.Router
use hi_im_core.Hub.Queue.Mpsc
use hi_im_core.Hub.Queue.Spsc
use hi_im_core.Prelude.{
  List, Run, [], ap, arith, get_elem?-set_self, length, length-set, lookup, some, suc, ℕ, ◌++◌, ◌<◌,
  ◌>>=◌, ◌^◌, ◌∙◌, ◌∷◌, ◌≡◌,
}
use hi_im_core.Hub.Bridge.{Hub}
use hi_im_core.Hub.Bridge.Laws.{IsBridged}
use hi_im_core.Hub.Context.{send_queue}
use hi_im_core.Hub.Context.Publish.{alone, frame_along}
use hi_im_core.Hub.Delivery.Stages.{
  Delivered, distributor_routes, forwarded, frame_not_empty, reactor_sends, routed, with_messages,
  worker_delivers,
}
use hi_im_core.Hub.Distributor.Laws.{undisturbed}
use hi_im_core.Hub.Messages.{InboundMessage, OutboundFrame, backend}
use hi_im_core.Hub.Queue.Spsc.{SpscQueue}
use hi_im_core.Hub.Queue.Spsc.Fifo.{Holds}
use hi_im_core.Hub.Queue.Spsc.Refine.{push_ok}
use hi_im_core.Hub.Reactor.{Reactor, Session, fd_key}
use hi_im_core.Hub.Reactor.Laws.Draining.{inside_of}
use hi_im_core.Hub.Reactor.Laws.Eager.{IsEager}
use hi_im_core.Hub.Reactor.Laws.Sending.{Ends}
use hi_im_core.Hub.Reactor.Output.{Kernel, drain_send_queue}
use hi_im_core.Hub.Router.{NidRoute, Router}
use hi_im_core.Wire.Bytes.{Endian}
use hi_im_core.Wire.Header.{encode_frame, flag_exp}

-- The three threads after one another, the reactor with the context of its plane.
unfoldable pub relay : Endian → Kernel → ℕ → ℕ → Hub → Reactor → Run Reactor
relay e kernel fuel idx hub r = Worker.drain e fuel (λ k. alone) 0 backend idx hub >>= λ hub'.
    Distributor.drain fuel (λ k. undisturbed) 0 hub'.forward_ctx >>= λ ctx.
    drain_send_queue kernel fuel (record r { ctx = ctx })

module _ (e : Endian) (kernel : Kernel) (eager : IsEager kernel) where
  -- A message in the queue of a backend worker, whose payload is packed for a node that a session of a
  -- reactor serves, gets through: if the planes are bridged, the queue has no other message, the
  -- other queues on the way are empty and have room, both tables of the reactor have the session,
  -- and the kernel takes some bytes in each send, then the worker, the distributor and the reactor,
  -- one after the other and undisturbed, end with the frame of the message written to the
  -- descriptor of the session, behind what the session still had to send, and with nothing left.
  pub relay_delivers :
      (fuel idx capacity c : ℕ) (msg : InboundMessage) (hub : Hub) (route : NidRoute)
      (cmd sid dest seq : ℕ) (text : List ℕ) (q : SpscQueue OutboundFrame) (s : Session)
      (r : Reactor)
      → IsBridged hub
      → idx < length hub.backend_ctx.recv_queues
      → msg.payload ≡ Im.pack_payload e cmd sid dest seq text
      → 0 < dest
      → dest < 2 ^ 32
      → seq < 2 ^ 64
      → Router.find_nid_route dest hub.forward_ctx.router ≡ some route
      → route.reactor_idx ≡ some r.idx
      → hub.forward_ctx.dist_queue.queue ≡ []
      → 0 < hub.forward_ctx.dist_queue.capacity
      → send_queue r.idx hub.forward_ctx ≡ some q
      → Holds q c []
      → 1 < q.capacity
      → lookup route.sid r.sessions ≡ some s
      → lookup (fd_key s.fd) r.fd_to_sid ≡ some route.sid
      → Ends
          (relay e kernel (suc (suc fuel)) idx (with_messages idx capacity (msg ∷ []) hub) r)
          (Delivered route.sid s (s.outbuf ++ encode_frame e msg.type dest flag_exp msg.payload) r)
  unfolding relay send_queue
  relay_delivers fuel idx capacity c msg hub route cmd sid dest seq text q s r b inside packed
        nonzero fits seq_fits found to_r no_frames some_room its_queue h ring_room there leads =
      let (r', ends, out) =
        reactor_sends kernel eager fuel c (Spsc.push q frame).0 frame s
          (record r { ctx = routed r.idx q frame (forwarded e frame hub.forward_ctx) })
          (get_elem?-set_self hub.forward_ctx.send_queues r.idx _ ring_there)
          (omega
            (arith, length-set hub.forward_ctx.send_queues r.idx (Spsc.push q frame).0, ring_there))
          (push_ok frame h (omega arith)).1 (frame_not_empty e msg.type dest flag_exp msg.payload)
          there leads in
      (
        r',
        ap
              (λ m. m >>= λ hub'.
                Distributor.drain (suc (suc fuel)) (λ k. undisturbed) 0 hub'.forward_ctx >>= λ ctx.
                drain_send_queue kernel (suc (suc fuel)) (record r { ctx = ctx }))
              (worker_delivers e fuel idx capacity msg hub route cmd sid dest seq text b inside
                packed nonzero fits seq_fits found (omega (arith, ap length no_frames, some_room)))
            ∙ ap
                (λ m.
                  m >>= λ ctx. drain_send_queue kernel (suc (suc fuel)) (record r { ctx = ctx }))
                (distributor_routes fuel r.idx c frame (forwarded e frame hub.forward_ctx) q
                  (ap (λ l. l ++ (frame ∷ [])) no_frames) to_r its_queue h ring_room)
            ∙ ends,
        out,
      )
    where
      frame : OutboundFrame
      frame = frame_along e msg.type dest msg.payload route

      ring_there : r.idx < length hub.forward_ctx.send_queues
      ring_there = inside_of hub.forward_ctx.send_queues r.idx q its_queue
