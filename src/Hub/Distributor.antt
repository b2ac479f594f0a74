-- ===== src/Hub/Distributor.antt =====
-- src/hub/distributor.cpp: the thread that moves frames to the send queues of the reactors.
pub mod Laws
pub mod Feeding
use hi_im_core.Hub.Queue.Mpsc
use hi_im_core.Hub.Queue.Spsc
use hi_im_core.Prelude.{
  Bool, List, Run, [], done, false, none, on_pop, or_throw, out_of_fuel, set, some, suc, true, zero,
  ℕ, ◌+◌, ◌>>=◌, ◌∷◌,
}
use hi_im_core.Hub.Context.{HubContext, notify, reactor_wakeup, send_queue}
use hi_im_core.Hub.Messages.{OutboundFrame, moved_frame}
use hi_im_core.Hub.Queue.Backoff.{default_retries, push_with_backoff}
use hi_im_core.Hub.Queue.Spsc.{SpscQueue}

-- What the reactor does to its send queue before each attempt.
abbrev pub SendEnv : Type 0
SendEnv = ℕ → SpscQueue OutboundFrame → SpscQueue OutboundFrame

abbrev pub push_send :
    SendEnv → SpscQueue OutboundFrame → OutboundFrame → SpscQueue OutboundFrame × Bool
push_send others q frame = push_with_backoff Spsc.push moved_frame others default_retries q frame

-- What RouteToSendQueue does after the push: the answer, and Notify if the frame is queued.
abbrev pub finish_route : ℕ → HubContext → SpscQueue OutboundFrame × Bool → Bool × HubContext
finish_route i ctx (q, true) =
    (true, notify (reactor_wakeup i) (record ctx { send_queues = set ctx.send_queues i q }))
finish_route i ctx (q, false) = (false, record ctx { send_queues = set ctx.send_queues i q })

unfoldable pub route_to : SendEnv → ℕ → OutboundFrame → HubContext → Run (Bool × HubContext)
route_to others i frame ctx =
    or_throw (send_queue i ctx) >>= λ q. done (finish_route i ctx (push_send others q frame))

-- `none` is the negative index.
unfoldable pub route_to_send_queue : SendEnv → OutboundFrame → HubContext → Run (Bool × HubContext)
unfolding route_to
route_to_send_queue others frame ctx = elim frame.reactor_idx [
  | none ↦ done (false, ctx)
  | some i ↦ route_to others i frame ctx
]

-- `while (auto frame = ctx_.DistQueue().Pop())` of Run.
unfoldable pub drain : ℕ → (ℕ → SendEnv) → ℕ → HubContext → Run HubContext
drain zero others k ctx = out_of_fuel
drain (suc fuel) others k ctx =
    on_pop (Mpsc.pop ctx.dist_queue) (λ q. done ctx)
      (λ frame q. route_to_send_queue (others k) frame (record ctx { dist_queue = q }) >>= λ r.
        drain fuel others (k + 1) r.1)

-- The rounds of Run, one for each time that Running() was still true: what the other threads do to
-- the plane before the loop over the queue, and to the send queues during it.
unfoldable pub run :
    List (ℕ × (ℕ → SendEnv) × (HubContext → HubContext)) → HubContext → Run HubContext
unfolding drain
run [] ctx = done ctx
run ((fuel, others, meanwhile) ∷ rounds) ctx =
    drain fuel others 0 (meanwhile ctx) >>= λ ctx'. run rounds ctx'
