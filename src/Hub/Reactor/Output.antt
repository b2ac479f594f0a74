-- ===== src/Hub/Reactor/Output.antt =====
-- The functions of src/hub/reactor.cpp that send: SendBytes, HandleWritable and DrainSendQueue.
use hi_im_core.Hub.Queue.Spsc
use hi_im_core.Prelude.{
  List, Option, Run, done, drop, false, if◌then◌else◌, is_empty, length, lookup, ltb, none, not,
  on_pop, or_throw, out_of_fuel, set, some, suc, take, true, zero, ℕ, ◌++◌, ◌+◌, ◌>>=◌,
}
use hi_im_core.Hub.Context.{send_queue}
use hi_im_core.Hub.Messages.{OutboundFrame}
use hi_im_core.Hub.Queue.Spsc.{SpscQueue}
use hi_im_core.Hub.Reactor.{
  Reactor, Session, call, close_session, deref, fd_key, put_session, tick, touch, update_interest,
  wrote,
}

-- What a call of send returns: n ≥ 0, or -1 with EAGAIN or EWOULDBLOCK, or -1 with another errno.
pub data SendResult : Type 0 where
  sent : ℕ → SendResult
  would_block send_failed : SendResult

-- The kernel: what the send at each point of the reactor's clock returns.
abbrev pub Kernel : Type 0
Kernel = ℕ → SendResult

-- One round of the loop of HandleWritable with bytes to send, and the rest of the loop.
abbrev pub after_send : SendResult → ℕ → Session → Reactor → (Reactor → Run Reactor) → Run Reactor
after_send (sent n) k s r continue = elim (ltb 0 n) [
  | true ↦ continue (
      put_session k (record s { outbuf = drop n s.outbuf })
        (call (wrote s.fd (take n s.outbuf)) (tick r)))
  | false ↦ done (close_session s.sid (tick r))
]
after_send would_block k s r continue =
    done (update_interest s true (not (is_empty s.outbuf)) (tick r))
after_send send_failed k s r continue = done (close_session s.sid (tick r))

module _ (kernel : Kernel) where
  unfoldable pub write_loop : ℕ → ℕ → Reactor → Run Reactor
  write_loop zero k r = out_of_fuel
  write_loop (suc fuel) k r = deref k r >>= λ s. elim (is_empty s.outbuf) [
    | true ↦ done (update_interest s true (not (is_empty s.outbuf)) r)
    | false ↦ after_send (kernel r.clock) k s r (write_loop fuel k)
  ]

  -- Each round takes a byte from the buffer, so its length and one are fuel enough.
  unfoldable pub handle_writable : Option ℕ → Reactor → Run Reactor
  unfolding touch
  handle_writable fd r = elim (lookup (fd_key fd) r.fd_to_sid) [
    | none ↦ done r
    | some k ↦ deref k (touch k r) >>= λ s. write_loop (length s.outbuf + 1) k (touch k r)
  ]

  unfoldable pub send_bytes : ℕ → List ℕ → Reactor → Run Reactor
  unfolding update_interest
  send_bytes k bytes r =
      if is_empty bytes
      then done r
      else (deref k r >>= λ s.
          let s' = record s { outbuf = s.outbuf ++ bytes } in
          handle_writable s.fd (update_interest s' true true (put_session k s' r)))

  -- A frame that DrainSendQueue has taken off the queue.
  unfoldable pub send_frame : OutboundFrame → Reactor → Run Reactor
  send_frame item r = elim (lookup item.sid r.sessions) [
    | none ↦ done r
    | some s ↦ send_bytes item.sid item.bytes r
  ]

  abbrev pub with_send_queue : SpscQueue OutboundFrame → Reactor → Reactor
  with_send_queue q r = record r {
    ctx = record (r.ctx) { send_queues = set r.ctx.send_queues r.idx q };
  }

  unfoldable pub drain_send_queue : ℕ → Reactor → Run Reactor
  drain_send_queue zero r = out_of_fuel
  drain_send_queue (suc fuel) r = or_throw (send_queue r.idx r.ctx) >>= λ q.
      on_pop (Spsc.pop q) (λ q'. done r)
        (λ item q'. send_frame item (with_send_queue q' r) >>= λ r'. drain_send_queue fuel r')
