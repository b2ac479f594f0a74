-- ===== src/Hub/Reactor/Laws/Receiving.antt =====
-- What a frame of a client does to a reactor: it keeps the tables.
use native.Mathlib.Nat.{mod-lt}
use hi_im_core.Prelude.{
  Bool, List, Option, Run, [], arith, done, false, get_elem?, inl, inr, length, length-set, lookup,
  not, or_throw, refl, some, suc, true, zero, ℕ, ◌%◌, ◌<◌, ◌==◌, ◌>>=◌, ◌∷◌, ◌≡◌, ◌≤◌,
}
use hi_im_core.Hub.Context.{recv_queue}
use hi_im_core.Hub.Messages.{InboundMessage}
use hi_im_core.Hub.Queue.Mpsc.{MpscQueue}
use hi_im_core.Hub.Reactor.{Reactor, Session, pick_worker, put_session, tick}
use hi_im_core.Hub.Reactor.Input.{
  RecvEnv, enqueue_inbound, finish_inbound, handle_frame, inbound, push_recv,
}
use hi_im_core.Hub.Reactor.Laws.Linked.{lookup-insert_same}
use hi_im_core.Hub.Reactor.Laws.Reading.{Answers, Reaches-if, handle_system-Answers}
use hi_im_core.Hub.Reactor.Laws.Sound.{
  Failure, Fixed, IsSound, Keeps, Known, Reaches, Reaches-then, Stays, access-Keeps, closed-Stays,
  put_session-IsSound, tick-IsSound,
}
use hi_im_core.Hub.Reactor.Output.{Kernel}
use hi_im_core.Wire.Bytes.{Endian}
use hi_im_core.Wire.FrameBuffer.{FrameBuffer, FrameView}
use hi_im_core.Wire.Header.{flag_sys, header_field_host}

get_elem?-in_range {ℓ} :
    {A : Type ℓ} (xs : List A) (i : ℕ) → i < length xs → (a : A) × (get_elem? xs i ≡ some a)
get_elem?-in_range [] i h = absurd (omega arith)
get_elem?-in_range (x ∷ xs) zero h = (x, refl)
get_elem?-in_range (x ∷ xs) (suc i) h = get_elem?-in_range xs i (omega arith)

finish_inbound-Stays :
    (base : Fixed) (D : Type 0) (n k w : ℕ) (r : Reactor) (result : MpscQueue InboundMessage × Bool)
    → Stays base D n k r
    → Stays base D n k (finish_inbound w r result)
finish_inbound-Stays base D n k w r (q, true) (sound, here_or_not) = (
  record {
    linked = sound.linked;
    fresh = sound.fresh;
    owns = sound.owns;
    some_worker = sound.some_worker;
    queues = omega (arith, sound.queues, length-set r.ctx.recv_queues w q);
    same = sound.same;
  },
  here_or_not,
)
finish_inbound-Stays base D n k w r (q, false) (sound, here_or_not) = (
  record {
    linked = sound.linked;
    fresh = sound.fresh;
    owns = sound.owns;
    some_worker = sound.some_worker;
    queues = omega (arith, sound.queues, length-set r.ctx.recv_queues w q);
    same = sound.same;
  },
  here_or_not,
)

Reaches-throw :
    {A B : Type 0} (D : Type 0) (Q : B → Type 0) (o : Option A) (a : A) (f : A → Run B)
    → o ≡ some a
    → Reaches D Q (f a)
    → Reaches D Q (or_throw o >>= f)
Reaches-throw D Q o a f there rest = rw there rest

Known-anonymous : (D : Type 0) (n : ℕ) (s : Session) → Known D n s → not s.authed ≡ true → D
Known-anonymous D n s (inl authed, few) anonymous = absurd (ground arith)
Known-anonymous D n s (inr d, few) anonymous = d

-- The buffer of a session is changed.
pub rebuffered-Stays :
    (base : Fixed) (D : Type 0) (n m k : ℕ) (s : Session) (fb : FrameBuffer) (r : Reactor)
    → IsSound base r
    → lookup k r.sessions ≡ some s
    → Known D n s
    → length fb.buf ≤ m
    → Stays base D m k (put_session k (record s { fb = fb }) r)
rebuffered-Stays base D n m k s fb r sound there known few = (
  put_session-IsSound k s (record s { fb = fb }) r sound there refl refl,
  inl (
    record s { fb = fb },
    lookup-insert_same k (record s { fb = fb }) r.sessions,
    (known.0, few),
  ),
)

module _ (e : Endian) (kernel : Kernel) (others : RecvEnv) (base : Fixed) (D : Type 0)
    (failed : Failure kernel → D) (n k : ℕ) where
  -- The worker of any session has a queue.
  worker_queue-there :
      (sid : ℕ) (r : Reactor)
      → IsSound base r
      → (q : MpscQueue InboundMessage) × (recv_queue (pick_worker sid r) r.ctx ≡ some q)
  unfolding recv_queue pick_worker
  worker_queue-there sid r sound =
      get_elem?-in_range r.ctx.recv_queues (sid % r.worker_count)
        (omega (arith, mod-lt sid sound.some_worker, sound.queues))

  enqueue_inbound-Keeps :
      (frame : FrameView) (r : Reactor)
      → Stays base D n k r
      → Keeps base D n k (enqueue_inbound e kernel others k frame r)
  unfolding enqueue_inbound
  enqueue_inbound-Keeps frame r stays =
      access-Keeps base D (Stays base D n k) n k r _ stays (λ s there known.
        Reaches-if D (Stays base D n k) (not s.authed) _ _
          (λ anonymous.
            closed-Stays base D n k s r stays.0 there (Known-anonymous D n s known anonymous))
          (λ authed.
            let (q, q_there) = worker_queue-there s.sid r stays.0 in
            Reaches-throw D (Stays base D n k) _ q _ q_there (
              finish_inbound-Stays base D n k (pick_worker s.sid r) (tick r)
                (push_recv others r.clock q (inbound e frame s r))
                (tick-IsSound r stays.0, stays.1))))

  pub handle_frame-Answers :
      (frame : FrameView) (r : Reactor)
      → Stays base D n k r
      → Reaches D (Answers base D n k) (handle_frame e kernel others k frame r)
  unfolding handle_frame
  handle_frame-Answers frame r stays =
      Reaches-if D (Answers base D n k) (header_field_host e frame.header.flag == flag_sys) _ _
        (λ system. handle_system-Answers e kernel base D failed n k frame r stays)
        (λ business.
          Reaches-then D (Stays base D n k) (Answers base D n k)
            (enqueue_inbound e kernel others k frame r) (λ r'. done (true, r'))
            (enqueue_inbound-Keeps frame r stays) (λ r' stays'. (stays'.0, λ h. stays')))
