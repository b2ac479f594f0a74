-- ===== src/Hub/Reactor/Input.antt =====
-- The functions of src/hub/reactor.cpp that take in: new connections, system frames, inbound
-- messages, and the loop over the events.
use mathlib.Core.Option
use hi_im_core.Hub.Router
use hi_im_core.Hub.Queue.Spsc
use hi_im_core.Hub.Queue.Mpsc
use hi_im_core.Wire.FrameBuffer
use hi_im_core.Prelude.{
  Bool, List, Run, [], c_string, done, false, if◌then◌else◌, insert, is_empty, length, lookup, ltb,
  none, not, on_pop, or_throw, out_of_fuel, same_text, set, some, suc, true, zero, ℕ, ◌&&◌, ◌++◌,
  ◌+◌, ◌==◌, ◌>>=◌, ◌||◌, ◌∷◌,
}
use hi_im_core.Hub.Context.{conn_queue, notify, recv_queue, worker_wakeup}
use hi_im_core.Hub.Messages.{HubConfig, InboundMessage, NewConnection, moved_message}
use hi_im_core.Hub.Queue.Backoff.{default_retries, push_with_backoff}
use hi_im_core.Hub.Queue.Mpsc.{MpscQueue}
use hi_im_core.Hub.Queue.Spsc.{SpscQueue}
use hi_im_core.Hub.Reactor.{
  Reactor, Session, call, close_session, deref, drained_wakeup, epoll_add, fd_key, no_session,
  pick_worker, put_session, tick, touch, tuned, with_router,
}
use hi_im_core.Hub.Reactor.Output.{Kernel, drain_send_queue, send_bytes}
use hi_im_core.Hub.Router.{Router, Subscriber}
use hi_im_core.Wire.Auth.{AuthPayload, decode_auth_payload}
use hi_im_core.Wire.Bytes.{Endian, be_to_host32, load32}
use hi_im_core.Wire.FrameBuffer.{FrameBuffer, FrameView, try_pop_frame}
use hi_im_core.Wire.Header.{encode_frame, flag_sys, header_field_host}
use hi_im_core.Wire.SysCmd.{
  SysCmd, auth_ack, auth_req, code, kpalive_ack, kpalive_req, sub_ack, sub_req, unsub_ack,
  unsub_req,
}

abbrev pub with_conn_queue : SpscQueue NewConnection → Reactor → Reactor
with_conn_queue q r = record r {
  ctx = record (r.ctx) { conn_queues = set r.ctx.conn_queues r.idx q };
}

-- A connection that DrainNewConnections has taken off the queue; `emplace` keeps a present entry.
unfoldable pub add_connection : NewConnection → Reactor → Reactor
add_connection conn r =
    let session = record no_session { sid = conn.sid; fd = conn.fd } in
    let s = Option.get_or (lookup conn.sid r.sessions) session in
    record r {
      fd_to_sid = insert (fd_key conn.fd) conn.sid r.fd_to_sid;
      sessions = insert conn.sid s r.sessions;
      calls = r.calls ++ (tuned s.fd ∷ epoll_add s.fd ∷ []);
    }

unfoldable pub drain_new_connections : ℕ → Reactor → Run Reactor
drain_new_connections zero r = out_of_fuel
drain_new_connections (suc fuel) r = or_throw (conn_queue r.idx r.ctx) >>= λ q.
    on_pop (Spsc.pop q) (λ q'. done r)
      (λ conn q'. drain_new_connections fuel (add_connection conn (with_conn_queue q' r)))

unfoldable pub credentials_match : HubConfig → AuthPayload → Bool
unfolding c_string same_text
credentials_match cfg auth =
    same_text (c_string auth.user) cfg.auth_user && same_text (c_string auth.passwd) cfg.auth_pass

-- What the other threads do to the queue of a worker before each attempt of a push, by the
-- reactor's clock.
abbrev pub RecvEnv : Type 0
RecvEnv = ℕ → ℕ → MpscQueue InboundMessage → MpscQueue InboundMessage

abbrev pub push_recv :
    RecvEnv → ℕ → MpscQueue InboundMessage → InboundMessage → MpscQueue InboundMessage × Bool
push_recv others k q msg =
    push_with_backoff Mpsc.push moved_message (others k) default_retries q msg

abbrev pub finish_inbound : ℕ → Reactor → MpscQueue InboundMessage × Bool → Reactor
finish_inbound w r (q, true) = record r {
  ctx = notify (worker_wakeup w) (record (r.ctx) { recv_queues = set r.ctx.recv_queues w q });
}
finish_inbound w r (q, false) = record r {
  ctx = record (r.ctx) { recv_queues = set r.ctx.recv_queues w q };
}

module _ (e : Endian) where
  -- The command that a SUB or UNSUB payload starts with.
  abbrev pub read_cmd : FrameView → ℕ
  read_cmd frame = be_to_host32 e (load32 e frame.payload)

  -- The message that EnqueueInbound makes.
  abbrev pub inbound : FrameView → Session → Reactor → InboundMessage
  inbound frame s r = record {
    sid = s.sid;
    reactor_idx = some r.idx;
    gid = s.gid;
    nid = s.nid;
    type = header_field_host e frame.header.type;
    flag = header_field_host e frame.header.flag;
    payload = frame.payload;
  }

module _ (e : Endian) (kernel : Kernel) where
  -- `SendBytes(session, EncodeFrame(ack, session.nid, kFlagSys, {}))`, and the answer true.
  unfoldable pub acknowledge : SysCmd → ℕ → ℕ → Reactor → Run (Bool × Reactor)
  acknowledge ack nid k r =
      send_bytes kernel k (encode_frame e (code ack) nid flag_sys []) r >>= λ r'. done (true, r')

  unfoldable pub authenticate : AuthPayload → ℕ → Session → Reactor → Run (Bool × Reactor)
  unfolding acknowledge
  authenticate auth k s r =
      if credentials_match r.ctx.cfg auth
      then (let gid = be_to_host32 e auth.gid in
          let nid = be_to_host32 e auth.nid in
          let s' = record s { authed = true; gid = gid; nid = nid } in
          acknowledge auth_ack nid k
            (with_router (Router.bind_nid nid s.sid (some r.idx)) (put_session k s' r)))
      else done (false, close_session s.sid r)

  unfoldable pub on_auth : FrameView → ℕ → Session → Reactor → Run (Bool × Reactor)
  unfolding authenticate
  on_auth frame k s r = elim (decode_auth_payload e frame.payload) [
    | none ↦ done (false, close_session s.sid r)
    | some auth ↦ authenticate auth k s r
  ]

  unfoldable pub on_sub : FrameView → ℕ → Session → Reactor → Run (Bool × Reactor)
  unfolding acknowledge
  on_sub frame k s r =
      if not s.authed || ltb (length frame.payload) 4
      then done (false, close_session s.sid r)
      else (let sub : Subscriber = record {
        gid = s.gid;
        sid = s.sid;
        nid = s.nid;
        reactor_idx = some r.idx;
      } in
          acknowledge sub_ack s.nid k
            (with_router (λ router. (Router.subscribe (read_cmd e frame) sub router).1) r))

  unfoldable pub on_unsub : FrameView → ℕ → Session → Reactor → Run (Bool × Reactor)
  unfolding acknowledge
  on_unsub frame k s r =
      if not s.authed || ltb (length frame.payload) 4
      then done (false, r)
      else acknowledge unsub_ack s.nid k
          (with_router (λ router. (Router.unsubscribe (read_cmd e frame) s.sid router).1) r)

  -- HandleSystem, with the answer.
  unfoldable pub handle_system : ℕ → FrameView → Reactor → Run (Bool × Reactor)
  unfolding on_auth on_sub on_unsub acknowledge
  handle_system k frame r = deref k r >>= λ s.
      let type = header_field_host e frame.header.type in
      if type == code auth_req
      then on_auth frame k s r
      else if type == code sub_req
      then on_sub frame k s r
      else if type == code unsub_req
      then on_unsub frame k s r
      else if type == code kpalive_req
      then acknowledge kpalive_ack s.nid k r
      else done (true, r)

  module _ (others : RecvEnv) where
    unfoldable pub enqueue_inbound : ℕ → FrameView → Reactor → Run Reactor
    enqueue_inbound k frame r = deref k r >>= λ s.
        if not s.authed
        then done (close_session s.sid r)
        else (let w = pick_worker s.sid r in
            or_throw (recv_queue w r.ctx) >>= λ q.
            done (finish_inbound w (tick r) (push_recv others r.clock q (inbound e frame s r))))

    -- A frame that HandleReadable has taken off the buffer; false makes it return.
    unfoldable pub handle_frame : ℕ → FrameView → Reactor → Run (Bool × Reactor)
    unfolding enqueue_inbound handle_system
    handle_frame k frame r =
        if header_field_host e frame.header.flag == flag_sys
        then handle_system k frame r
        else (enqueue_inbound k frame r >>= λ r'. done (true, r'))

    -- The loop over the frames in the session's buffer.
    unfoldable pub pop_frames : ℕ → ℕ → Reactor → Run (Bool × Reactor)
    pop_frames zero k r = out_of_fuel
    pop_frames (suc fuel) k r = deref k r >>= λ s.
        on_pop (try_pop_frame e s.fb) (λ fb. done (true, put_session k (record s { fb = fb }) r))
          (λ frame fb. handle_frame k frame (put_session k (record s { fb = fb }) r) >>= λ answer.
            elim answer.0 [ true ↦ pop_frames fuel k answer.1 | false ↦ done (false, answer.1) ])

    -- The loop over recv: the chunks that it returns, and how it ends, with EAGAIN or EWOULDBLOCK
    -- (`more_later`) or not. An empty chunk is the result 0.
    unfoldable pub read_loop : List (List ℕ) → Bool → ℕ → Reactor → Run Reactor
    read_loop [] more_later k r =
        deref k r >>= λ s. done (if more_later then r else close_session s.sid r)
    read_loop (chunk ∷ chunks) more_later k r = deref k r >>= λ s. elim (is_empty chunk) [
      | true ↦ done (close_session s.sid r)
      | false ↦
          let fb = FrameBuffer.append s.fb chunk in
          pop_frames (length fb.buf + 1) k (put_session k (record s { fb = fb }) r) >>= λ answer.
          elim answer.0 [ true ↦ read_loop chunks more_later k answer.1 | false ↦ done answer.1 ]
    ]

    -- The branch of HandleReadable for the reactor's own wakeup.
    unfoldable pub on_wakeup : ℕ → Reactor → Run Reactor
    on_wakeup fuel r =
        drain_new_connections fuel (call drained_wakeup r) >>= λ r'. drain_send_queue kernel fuel r'

    -- `fuel` bounds the items in the two queues.
    unfoldable pub handle_readable : ℕ → ℕ → List (List ℕ) → Bool → Reactor → Run Reactor
    unfolding on_wakeup
    handle_readable fuel fd chunks more_later r =
        if fd == r.wakeup_fd
        then on_wakeup fuel r
        else elim (lookup (fd_key (some fd)) r.fd_to_sid) [
          | none ↦ done r
          | some k ↦ read_loop chunks more_later k (touch k r)
        ]
