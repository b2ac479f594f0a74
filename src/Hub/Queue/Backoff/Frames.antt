-- ===== src/Hub/Queue/Backoff/Frames.antt =====
-- PushWithBackoff on the queues of the hub.
use hi_im_core.Prelude.{[], length, true, ℕ, ◌++◌, ◌+◌, ◌<◌, ◌∷◌, ◌≡◌, ◌≤◌}
use hi_im_core.Hub.Messages.{OutboundFrame, moved_frame}
use hi_im_core.Hub.Queue.Backoff.{push_with_backoff}
use hi_im_core.Hub.Queue.Backoff.Laws.{push_with_backoff_second}
use hi_im_core.Hub.Queue.Mpsc.{MpscQueue, push, push_accepted, push_refused}

module _ (others : ℕ → MpscQueue OutboundFrame → MpscQueue OutboundFrame) (retries : ℕ) where
  -- A frame that the distributor's queue refuses once and then accepts is queued without its
  -- bytes, and the answer is true all the same.
  pub retry_empties_frame :
      (q : MpscQueue OutboundFrame) (f : OutboundFrame)
      → let first = others 0 q in
        let second = others 1 first in
        first.capacity ≤ length first.queue
        → length second.queue < second.capacity
        → push_with_backoff push moved_frame others (retries + 1) q f
          ≡ (record second { queue = second.queue ++ (record f { bytes = [] } ∷ []) }, true)
  retry_empties_frame q f full room =
      push_with_backoff_second push moved_frame others retries q (others 0 q) _ f
        (push_refused (others 0 q) f full)
        (push_accepted (others 1 (others 0 q)) (moved_frame f) room)
