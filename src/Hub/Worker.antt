-- ===== src/Hub/Worker.antt =====
-- src/hub/worker.cpp: a worker thread takes messages off its queue and calls their handlers.
pub mod Laws
pub mod Feeding
pub mod Drain
pub mod Rounds
use hi_im_core.Hub.Queue.Mpsc
use hi_im_core.Prelude.{
  List, Option, Run, [], done, none, on_pop, or_throw, out_of_fuel, set, some, suc, zero, ℕ, ◌+◌,
  ◌>>=◌, ◌∷◌,
}
use hi_im_core.Hub.Bridge.{Hub, context, handle, with_context}
use hi_im_core.Hub.Context.{DistEnv, Handler, HubContext, find_handler, recv_queue}
use hi_im_core.Hub.Messages.{InboundMessage, Plane}
use hi_im_core.Hub.Queue.Mpsc.{MpscQueue}
use hi_im_core.Wire.Bytes.{Endian}

-- The handler of the type, or else the default handler.
unfoldable pub choose_handler : ℕ → HubContext → Option Handler
choose_handler type ctx = elim (find_handler type ctx) [
  | none ↦ find_handler 0 ctx
  | some h ↦ some h
]

-- The hub with another queue `idx` in a plane.
abbrev pub with_recv_queue : Plane → ℕ → MpscQueue InboundMessage → Hub → Hub
with_recv_queue self idx q hub =
    with_context self
      (record (context self hub) { recv_queues = set (context self hub).recv_queues idx q }) hub

module _ (e : Endian) where
  unfoldable pub dispatch : DistEnv → Plane → InboundMessage → Hub → Hub
  unfolding choose_handler
  dispatch others self msg hub = elim (choose_handler msg.type (context self hub)) [
    | none ↦ hub
    | some h ↦ handle e others h self msg hub
  ]

  -- `while (auto msg = q.Pop())` of Run, on the queue `idx` of the plane; `others k` is what the
  -- other threads do during the k-th message.
  unfoldable pub drain : ℕ → (ℕ → DistEnv) → ℕ → Plane → ℕ → Hub → Run Hub
  drain zero others k self idx hub = out_of_fuel
  drain (suc fuel) others k self idx hub = or_throw (recv_queue idx (context self hub)) >>= λ q.
      on_pop (Mpsc.pop q) (λ q'. done hub)
        (λ msg q'.
          drain fuel others (k + 1) self idx
            (dispatch (others k) self msg (with_recv_queue self idx q' hub)))

  -- The rounds of Run, one for each time that Running() was still true: what the other threads do
  -- to the hub before the loop over the queue, and during it.
  unfoldable pub run : List (ℕ × (ℕ → DistEnv) × (Hub → Hub)) → Plane → ℕ → Hub → Run Hub
  unfolding drain
  run [] self idx hub = done hub
  run ((fuel, others, meanwhile) ∷ rounds) self idx hub =
      drain fuel others 0 self idx (meanwhile hub) >>= λ hub'. run rounds self idx hub'
