-- ===== src/Hub/Reactor/Laws/Draining.antt =====
-- DrainSendQueue: it ends with the send queue empty, and it keeps the tables of the reactor.
use hi_im_core.Hub.Queue.Spsc
use hi_im_core.Prelude.{
  List, Option, Option-cases, Run, [], ap, arith, done, get_elem?, get_elem?-set_self, inl, inr,
  length, lookup, refl, some, subst, suc, true, zero, ℕ, ◌++◌, ◌+◌, ◌<◌, ◌>>=◌, ◌∙◌, ◌∷◌, ◌≡◌,
}
use hi_im_core.Hub.Context.{send_queue}
use hi_im_core.Hub.Messages.{OutboundFrame}
use hi_im_core.Hub.Queue.Spsc.{SpscQueue}
use hi_im_core.Hub.Queue.Spsc.Fifo.{Holds}
use hi_im_core.Hub.Queue.Spsc.Refine.{capacity-pop, pop_empty, pop_ok}
use hi_im_core.Hub.Reactor.{Reactor, Session, put_session, update_interest}
use hi_im_core.Hub.Reactor.Laws.Linked.{Coming, lookup-insert_same}
use hi_im_core.Hub.Reactor.Laws.Sending.{Ends, handle_writable-IsSent}
use hi_im_core.Hub.Reactor.Laws.Sound.{Fixed, IsSound, Reaches, Stays, fixed}
use hi_im_core.Hub.Reactor.Laws.Writing.{send_bytes-Keeps}
use hi_im_core.Hub.Reactor.Output.{
  Kernel, drain_send_queue, send_bytes, send_frame, with_send_queue,
}

pub inside_of {ℓ} :
    {A : Type ℓ} (xs : List A) (i : ℕ) (a : A) → get_elem? xs i ≡ some a → i < length xs
inside_of [] i a h = cc
inside_of (x ∷ xs) zero a h = omega arith
inside_of (x ∷ xs) (suc i) a h = omega (arith, inside_of xs i a h)

module _ (kernel : Kernel) where
  -- DrainSendQueue on a ring that is empty, and on one with a frame.
  pub reactor_rests :
      (fuel c : ℕ) (q : SpscQueue OutboundFrame) (r : Reactor)
      → send_queue r.idx r.ctx ≡ some q
      → Holds q c []
      → drain_send_queue kernel (suc fuel) r ≡ done r
  unfolding drain_send_queue
  reactor_rests fuel c q r its_queue h = rw its_queue (rw (pop_empty h) refl)

  pub reactor_takes :
      (fuel c : ℕ) (q : SpscQueue OutboundFrame) (frame : OutboundFrame) (xs : List OutboundFrame)
      (r : Reactor)
      → send_queue r.idx r.ctx ≡ some q
      → Holds q c (frame ∷ xs)
      → drain_send_queue kernel (suc fuel) r ≡ (
          send_frame kernel frame (with_send_queue kernel (Spsc.pop q).1 r) >>= λ r'.
          drain_send_queue kernel fuel r')
  unfolding drain_send_queue
  reactor_takes fuel c q frame xs r its_queue h = rw its_queue (rw popped_frame refl)
    where
      popped_frame : Spsc.pop q ≡ (some frame, (Spsc.pop q).1)
      popped_frame = ap (λ (o : Option OutboundFrame). (o, (Spsc.pop q).1)) (pop_ok h).0

  -- SendBytes on a session that is there ends.
  send_bytes_ends :
      (k : ℕ) (bytes : List ℕ) (s : Session) (base : Fixed) (r : Reactor)
      → IsSound base r
      → lookup k r.sessions ≡ some s
      → (r' : Reactor) × (send_bytes kernel k bytes r ≡ done r')
  unfolding send_bytes update_interest
  send_bytes_ends k [] s base r sound there = (r, refl)
  send_bytes_ends k (b ∷ bytes) s base r sound there =
      let s' : Session = record s { outbuf = s.outbuf ++ (b ∷ bytes) } in
      let r' = update_interest s' true true (put_session k s' r) in
      let (r'', ends, sent_well) =
        handle_writable-IsSent kernel k s' r' (sound.linked.listed k s there)
          (lookup-insert_same k s' r.sessions) (sound.linked.own k s there) in
      (r'', rw there ends)

  Reaches-at :
      {A : Type 0} (D : Type 0) (Q : A → Type 0) (m : Run A) (a : A)
      → m ≡ done a
      → Reaches D Q m
      → Q a
  Reaches-at D Q m a ends reaches = subst (Reaches D Q) ends reaches

  send_frame-IsSound :
      (frame : OutboundFrame) (base : Fixed) (r : Reactor)
      → IsSound base r
      → Ends (send_frame kernel frame r) (IsSound base)
  unfolding send_frame
  send_frame-IsSound frame base r sound = elim (Option-cases (lookup frame.sid r.sessions)) [
    | inl missing ↦ (r, rw (send_frame, missing) refl, sound)
    | inr (s, there) ↦
        let (r', ends) = send_bytes_ends frame.sid frame.bytes s base r sound there in
        (
          r',
          rw (send_frame, there) ends,
          (Reaches-at (Unit {0}) (Stays base (Unit {0}) (length s.fb.buf) frame.sid)
              (send_bytes kernel frame.sid frame.bytes r) r' ends
              (send_bytes-Keeps kernel base (Unit {0}) (λ failure. tt) (length s.fb.buf) frame.sid
                frame.bytes r (sound, inl (s, there, (inr tt, omega arith))))).0,
        )
  ]

  -- From tables that agree, with the frames `xs` in the reactor's send queue, DrainSendQueue ends
  -- whatever the kernel answers, if the fuel is more than the frames: the tables agree, and the
  -- queue is empty.
  pub drain_send_queue-IsSound :
      (coming : Coming) (xs : List OutboundFrame) (fuel c : ℕ) (q : SpscQueue OutboundFrame)
      (r : Reactor)
      → IsSound (fixed coming r) r
      → send_queue r.idx r.ctx ≡ some q
      → Holds q c xs
      → length xs < fuel
      → Ends (drain_send_queue kernel fuel r) (λ r'.
        IsSound (fixed coming r') r'
        × (r'.idx ≡ r.idx)
        × (r'.ctx.conn_queues ≡ r.ctx.conn_queues)
        × (r'.ctx.next_sid ≡ r.ctx.next_sid)
        × ((q' : SpscQueue OutboundFrame) × (send_queue r'.idx r'.ctx ≡ some q')
            × (q'.capacity ≡ q.capacity)
            × Holds q' (c + length xs) []))
  unfolding send_queue
  drain_send_queue-IsSound coming [] zero c q r sound its_queue h enough = absurd (omega arith)
  drain_send_queue-IsSound coming [] (suc fuel) c q r sound its_queue h enough = (
    r,
    reactor_rests fuel c q r its_queue h,
    (sound, refl, refl, refl, (q, its_queue, refl, subst (λ n. Holds q n []) (omega arith) h)),
  )
  drain_send_queue-IsSound coming (frame ∷ xs) zero c q r sound its_queue h enough =
      absurd (omega arith)
  drain_send_queue-IsSound coming (frame ∷ xs) (suc fuel) c q r sound its_queue h enough =
      let r1 = with_send_queue kernel (Spsc.pop q).1 r in
      let sound1 : IsSound (fixed coming r1) r1 = record {
        linked = sound.linked;
        fresh = sound.fresh;
        owns = sound.owns;
        some_worker = sound.some_worker;
        queues = sound.queues;
        same = refl;
      } in
      let (r2, ends, sound2) = send_frame-IsSound frame (fixed coming r1) r1 sound1 in
      let kept : IsSound (fixed coming r2) r2 = record {
        linked = sound2.linked;
        fresh = sound2.fresh;
        owns = sound2.owns;
        some_worker = sound2.some_worker;
        queues = sound2.queues;
        same = refl;
      } in
      let (r3, ends', (sound3, idx3, conns3, sid3, (q', its_queue', size', h'))) =
        drain_send_queue-IsSound coming xs fuel (c + 1) (Spsc.pop q).1 r2 kept
          (ap (λ (f : Fixed). send_queue f.idx (record (r.ctx) { send_queues = f.send_queues }))
              sound2.same
            ∙ get_elem?-set_self r.ctx.send_queues r.idx _
                (inside_of r.ctx.send_queues r.idx q its_queue))
          (pop_ok h).1 (omega arith) in
      (
        r3,
        reactor_takes fuel c q frame xs r its_queue h
            ∙ ap (λ m. m >>= λ r'. drain_send_queue kernel fuel r') ends
            ∙ ends',
        (
          sound3,
          idx3 ∙ ap (λ (f : Fixed). f.idx) sound2.same,
          conns3 ∙ ap (λ (f : Fixed). f.conn_queues) sound2.same,
          sid3 ∙ ap (λ (f : Fixed). f.next_sid) sound2.same,
          (q', its_queue', size' ∙ capacity-pop q, subst (λ n. Holds q' n []) (omega arith) h'),
        ),
      )
