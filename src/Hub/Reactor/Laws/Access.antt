-- ===== src/Hub/Reactor/Laws/Access.antt =====
-- What the flag `authed` of a session decides.
use hi_im_core.Wire.FrameBuffer
use hi_im_core.Hub.Queue.Mpsc
use hi_im_core.Prelude.{
  ==_refl, Bool, List, [], ap, arith, dangling, done, false, is_empty, length, length-append,
  lookup, lookup-insert, ne→not_==, none, refl, set, some, suc, true, ℕ, ◌%◌, ◌++◌, ◌+◌, ◌-◌, ◌<◌,
  ◌∙◌, ◌∷◌, ◌≡◌, ◌≢◌,
}
use hi_im_core.Hub.Context.{notify, recv_queue, worker_wakeup}
use hi_im_core.Hub.Messages.{InboundMessage, moved_message}
use hi_im_core.Hub.Queue.Backoff.{default_retries}
use hi_im_core.Hub.Queue.Backoff.Laws.{push_with_backoff_at_once}
use hi_im_core.Hub.Queue.Mpsc.{MpscQueue, push_accepted}
use hi_im_core.Hub.Reactor.{Reactor, Session, close_session, pick_worker, put_session}
use hi_im_core.Hub.Reactor.Input.{
  RecvEnv, enqueue_inbound, handle_frame, inbound, pop_frames, push_recv, read_loop,
}
use hi_im_core.Hub.Reactor.Laws.Sending.{close_session-gone}
use hi_im_core.Hub.Reactor.Output.{Kernel}
use hi_im_core.Wire.Bytes.{Endian, be_to_host32}
use hi_im_core.Wire.FrameBuffer.{FrameBuffer, FrameView, try_pop_frame}
use hi_im_core.Wire.Header.{flag_sys, header_field_host}

not_empty : (l : List ℕ) → 0 < length l → is_empty l ≡ false
not_empty [] p = absurd (omega (arith, p))
not_empty (x ∷ l) p = refl

module _ (e : Endian) (kernel : Kernel) (others : RecvEnv) where
  -- A frame that is not a system frame, on a session that is not authenticated, closes the session.
  enqueue_inbound_closes :
      (k : ℕ) (s : Session) (frame : FrameView) (r : Reactor)
      → lookup k r.sessions ≡ some s
      → s.authed ≡ false
      → enqueue_inbound e kernel others k frame r ≡ done (close_session s.sid r)
  unfolding enqueue_inbound
  enqueue_inbound_closes k s frame r found anonymous = rw found (rw anonymous)

  -- Once the session at `k` is gone, the loop over its frames is an access to it.
  pop_frames_gone :
      (fuel k : ℕ) (r : Reactor)
      → lookup k r.sessions ≡ none
      → pop_frames e kernel others (suc fuel) k r ≡ dangling
  unfolding pop_frames
  pop_frames_gone fuel k r gone = rw gone

  -- On a session that is not authenticated, a frame that is not a system frame ends in an access to
  -- a session that is no longer there.
  pop_frames_anonymous :
      (fuel k : ℕ) (s : Session) (frame : FrameView) (fb : FrameBuffer) (r : Reactor)
      → lookup k r.sessions ≡ some s
      → s.sid ≡ k
      → s.authed ≡ false
      → try_pop_frame e s.fb ≡ (some frame, fb)
      → header_field_host e frame.header.flag ≢ flag_sys
      → pop_frames e kernel others (suc (suc fuel)) k r ≡ dangling
  unfolding pop_frames handle_frame
  pop_frames_anonymous fuel k s frame fb r found own anonymous came business = rw found (
      rw came (
        rw (ne→not_== (header_field_host e frame.header.flag) 0 business, handle_frame)
          (rw (enqueue_inbound_closes k s' frame r' found' anonymous)
            (pop_frames_gone fuel k (close_session s.sid r') gone))))
    where
      s' : Session
      s' = record s { fb = fb }

      r' : Reactor
      r' = put_session k s' r

      found' : lookup k r'.sessions ≡ some s'
      found' = lookup-insert k k s' r.sessions ∙ rw (==_refl k)

      gone : lookup k (close_session s.sid r').sessions ≡ none
      gone = ap (λ j. lookup k (close_session j r').sessions) own ∙ close_session-gone k r'

  -- Bytes that complete a business frame on a session that has not authenticated end in an access
  -- to the session after it is erased, whatever else arrives: EnqueueInbound closes the session, and
  -- HandleReadable goes on with its buffer.
  pub read_loop_anonymous :
      (k : ℕ) (s : Session) (chunk : List ℕ) (chunks : List (List ℕ)) (more_later : Bool)
      (frame : FrameView) (fb : FrameBuffer) (r : Reactor)
      → lookup k r.sessions ≡ some s
      → s.sid ≡ k
      → s.authed ≡ false
      → 0 < length chunk
      → try_pop_frame e (FrameBuffer.append s.fb chunk) ≡ (some frame, fb)
      → header_field_host e frame.header.flag ≢ flag_sys
      → read_loop e kernel others (chunk ∷ chunks) more_later k r ≡ dangling
  unfolding read_loop FrameBuffer.append
  read_loop_anonymous k s chunk chunks more_later frame fb r found own anonymous some_bytes came
        business =
      rw found (rw nonempty (rw fuel_eq (rw ends)))
    where
      s' : Session
      s' = record s { fb = FrameBuffer.append s.fb chunk }

      r' : Reactor
      r' = put_session k s' r

      size : ℕ
      size = length (s.fb.buf ++ chunk)

      fuel_eq : size + 1 ≡ suc (suc (size - 1))
      fuel_eq = omega (arith, length-append s.fb.buf chunk)

      nonempty : is_empty chunk ≡ false
      nonempty = not_empty chunk some_bytes

      ends : pop_frames e kernel others (suc (suc (size - 1))) k r' ≡ dangling
      ends =
          pop_frames_anonymous (size - 1) k s' frame fb r'
            (lookup-insert k k s' r.sessions ∙ rw (==_refl k)) own anonymous came business

module _ (e : Endian) (kernel : Kernel) where
  -- On an authenticated session, EnqueueInbound makes of a frame a message at the end of the queue of
  -- the worker that the session's number picks, with the session's group and node and the frame's
  -- type, flag and payload, and notifies that worker: if the queue has room and no other thread is at
  -- it.
  pub enqueue_inbound_queues :
      (k : ℕ) (s : Session) (frame : FrameView) (r : Reactor) (q : MpscQueue InboundMessage)
      → lookup k r.sessions ≡ some s
      → s.authed ≡ true
      → recv_queue (s.sid % r.worker_count) r.ctx ≡ some q
      → length q.queue < q.capacity
      → enqueue_inbound e kernel (λ c i p. p) k frame r ≡ (
          let w = s.sid % r.worker_count in
          done (record r {
            clock = r.clock + 1;
            ctx = notify (worker_wakeup w) (record (r.ctx) {
              recv_queues = set r.ctx.recv_queues w (record q {
                queue =
                    q.queue
                    ++ (record {
                      sid = s.sid;
                      reactor_idx = some r.idx;
                      gid = s.gid;
                      nid = s.nid;
                      type = be_to_host32 e frame.header.type;
                      flag = be_to_host32 e frame.header.flag;
                      payload = frame.payload;
                    }
                        ∷ []);
              });
            });
          }))
  unfolding enqueue_inbound pick_worker header_field_host
  enqueue_inbound_queues k s frame r q found authenticated picked room =
      rw found (rw authenticated (rw picked (rw queued)))
    where
      queued :
          push_recv (λ c i p. p) r.clock q (inbound e frame s r)
          ≡ (record q { queue = q.queue ++ (inbound e frame s r ∷ []) }, true)
      queued =
          push_with_backoff_at_once Mpsc.push moved_message (λ i p. p) default_retries q _
            (inbound e frame s r) (push_accepted q (inbound e frame s r) room)
