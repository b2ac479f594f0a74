-- ===== src/Hub/Distributor/Laws.antt =====
-- What the distributor does with a frame.
use hi_im_core.Hub.Queue.Spsc
use hi_im_core.Prelude.{
  List, [], ap, done, false, length, none, set, some, true, ℕ, ◌++◌, ◌+◌, ◌<◌, ◌∙◌, ◌∷◌, ◌≡◌,
}
use hi_im_core.Hub.Context.{HubContext, notify, reactor_wakeup, send_queue}
use hi_im_core.Hub.Distributor.{SendEnv, push_send, route_to, route_to_send_queue}
use hi_im_core.Hub.Messages.{OutboundFrame, moved_frame}
use hi_im_core.Hub.Queue.Backoff.{default_retries}
use hi_im_core.Hub.Queue.Backoff.Laws.{push_with_backoff_at_once, push_with_backoff_refused}
use hi_im_core.Hub.Queue.Spsc.{SpscQueue}
use hi_im_core.Hub.Queue.Spsc.Fifo.{Holds}
use hi_im_core.Hub.Queue.Spsc.Refine.{push_full, push_ok}

-- No other thread is at the send queue.
abbrev pub undisturbed : SendEnv
undisturbed i q = q

pub opened :
    (others : SendEnv) (frame : OutboundFrame) (i : ℕ) (ctx : HubContext)
    → frame.reactor_idx ≡ some i
    → route_to_send_queue others frame ctx ≡ route_to others i frame ctx
unfolding route_to_send_queue
opened others frame i ctx to_i =
    ap (λ o. elim o [ none ↦ done (false, ctx) | some j ↦ route_to others j frame ctx ]) to_i

-- A frame for the reactor i, whose send queue holds `xs` with room for one more while the reactor
-- leaves it alone: the queue then holds the frame behind them, the reactor is notified, and the
-- answer is true.
pub route_to_send_queue_room :
    (frame : OutboundFrame) (i : ℕ) (ctx : HubContext) (q : SpscQueue OutboundFrame) (c : ℕ)
    (xs : List OutboundFrame)
    → frame.reactor_idx ≡ some i
    → send_queue i ctx ≡ some q
    → Holds q c xs
    → length xs + 1 < q.capacity
    → (route_to_send_queue undisturbed frame ctx
        ≡ done (
          true,
          notify
              (reactor_wakeup i)
              (record ctx { send_queues = set ctx.send_queues i (Spsc.push q frame).0 }),
        ))
      × Holds (Spsc.push q frame).0 c (xs ++ (frame ∷ []))
unfolding route_to
route_to_send_queue_room frame i ctx q c xs to_i there h room =
    (opened undisturbed frame i ctx to_i ∙ rw there (rw queued), (push_ok frame h room).1)
  where
    accepted : Spsc.push q frame ≡ ((Spsc.push q frame).0, true)
    accepted = ap (λ b. ((Spsc.push q frame).0, b)) (push_ok frame h room).0

    queued : push_send undisturbed q frame ≡ ((Spsc.push q frame).0, true)
    queued =
        push_with_backoff_at_once Spsc.push moved_frame undisturbed default_retries q
          (Spsc.push q frame).0 frame accepted

-- If the send queue of the frame's reactor is full and stays full, the frame is dropped: the answer
-- is false, and nobody is notified.
pub route_to_send_queue_full :
    (frame : OutboundFrame) (i : ℕ) (ctx : HubContext) (q : SpscQueue OutboundFrame) (c : ℕ)
    (xs : List OutboundFrame)
    → frame.reactor_idx ≡ some i
    → send_queue i ctx ≡ some q
    → Holds q c xs
    → length xs + 1 ≡ q.capacity
    → route_to_send_queue undisturbed frame ctx
      ≡ done (false, record ctx { send_queues = set ctx.send_queues i q })
unfolding route_to
route_to_send_queue_full frame i ctx q c xs to_i there h full =
    opened undisturbed frame i ctx to_i ∙ rw there (rw refused)
  where
    refused : push_send undisturbed q frame ≡ (q, false)
    refused =
        push_with_backoff_refused Spsc.push moved_frame undisturbed default_retries q frame
          (λ k w. push_full w h full)
