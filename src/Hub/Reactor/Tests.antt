-- ===== src/Hub/Reactor/Tests.antt =====
-- A reactor with one session.
mod Beside
use hi_im_core.Hub.Router
use hi_im_core.Hub.Queue.Spsc
use hi_im_core.Wire.FrameBuffer
use hi_im_core.Wire.FrameBuffer.Pop
use hi_im_core.Prelude.{
  [], ap, arith, dangling, done, false, if◌then◌else◌, insert, length, length-append, lookup, none,
  pos, refl, same_text, set, some, true, ◌%◌, ◌&&◌, ◌++◌, ◌+◌, ◌<◌, ◌∷◌, ◌≡◌, ◌≢◌,
}
use hi_im_core.Hub.Context.{
  HubContext, conn_queue, make_context, next_session_id, notify, reactor_wakeup, recv_queue,
  send_queue, worker_wakeup,
}
use hi_im_core.Hub.Listener.{Listener, accepted, deal, on_accept, pick_reactor}
use hi_im_core.Hub.Listener.Feeding.{IsNewFd, on_accept-IsFed}
use hi_im_core.Hub.Messages.{
  HubConfig, InboundMessage, NewConnection, forward, no_connection, no_frame,
}
use hi_im_core.Hub.Queue.Mpsc.{MpscQueue}
use hi_im_core.Hub.Queue.Spsc.Refine.{make-Holds, push_ok}
use hi_im_core.Hub.Queue.Steps.{taken}
use hi_im_core.Hub.Reactor.{
  Reactor, Session, close_session, epoll_add, no_session, put_session, tuned, with_router,
}
use hi_im_core.Hub.Reactor.Input.{
  RecvEnv, acknowledge, enqueue_inbound, handle_readable, handle_system, read_loop,
}
use hi_im_core.Hub.Reactor.Laws.Access.{enqueue_inbound_queues, read_loop_anonymous}
use hi_im_core.Hub.Reactor.Laws.Closing.{close_session_forgets, close_session_keeps}
use hi_im_core.Hub.Reactor.Laws.Events.{Reason, handle_readable-IsSound}
use hi_im_core.Hub.Reactor.Laws.Held.{AreHeld-add, held}
use hi_im_core.Hub.Reactor.Laws.Linked.{AreLinked-add, Coming, empty-AreLinked}
use hi_im_core.Hub.Reactor.Laws.Login.{handle_system_login}
use hi_im_core.Hub.Reactor.Laws.Sending.{Ends, IsSent, handle_writable-IsSent}
use hi_im_core.Hub.Reactor.Laws.Sound.{IsSound, Reaches, fixed}
use hi_im_core.Hub.Reactor.Output.{Kernel, handle_writable, sent}
use hi_im_core.Hub.Reactor.Running.{IsFed, Serves, any_of}
use hi_im_core.Hub.Router.{Router, is_route_of}
use hi_im_core.Hub.Router.View.{of_session}
use hi_im_core.Hub.Server.Lifecycle.{reactor_count, worker_count}
use hi_im_core.Wire.Auth.{auth_struct_bytes, make_auth_payload}
use hi_im_core.Wire.Bytes.{be_to_host32, host_to_be32, little}
use hi_im_core.Wire.FrameBuffer.{FrameBuffer, FrameView}
use hi_im_core.Wire.FrameBuffer.Pop.{Frame, IsSendable, encode, encode-layout, try_pop_frame-encode}
use hi_im_core.Wire.Header.{flag_sys, header_field_host, make_header}
use hi_im_core.Wire.Header.Laws.{header_bytes}
use hi_im_core.Wire.SysCmd.{auth_ack, auth_req, code}

abbrev cfg : HubConfig
cfg = record {
  listen_addr = [];
  reactor_threads = pos 1;
  worker_threads = pos 1;
  queue_capacity = 1;
  auth_user = 112 ∷ [];
  auth_pass = 113 ∷ [];
}

-- The kernel takes three bytes at a time.
abbrev kernel : Kernel
kernel k = sent 3

abbrev quiet_workers : RecvEnv
quiet_workers c i q = q

abbrev worker_queue : MpscQueue InboundMessage
worker_queue = record { capacity = 1; queue = [] }

abbrev ctx : HubContext
ctx = record (make_context forward cfg) {
  router = Router.bind_nid 7 4 (some 0) Router.empty;
  recv_queues = worker_queue ∷ [];
}

-- Session 4 on the descriptor 9, before and after it authenticates.
abbrev anonymous : Session
anonymous = record no_session { sid = 4; fd = some 9 }

abbrev known : Session
known = record anonymous { authed = true; gid = 1; nid = 20001; outbuf = 65 ∷ 66 ∷ [] }

abbrev with_session : Session → Reactor
with_session s = record {
  ctx = ctx;
  idx = 0;
  worker_count = 1;
  wakeup_fd = 8;
  fd_to_sid = (10, 4) ∷ [];
  sessions = (4, s) ∷ [];
  calls = tuned (some 9) ∷ epoll_add (some 9) ∷ [];
  clock = 0;
}

found_anonymous : lookup 4 (with_session anonymous).sessions ≡ some anonymous
unfolding lookup
found_anonymous = refl

found_known : lookup 4 (with_session known).sessions ≡ some known
unfolding lookup
found_known = refl

listed : lookup 10 (with_session known).fd_to_sid ≡ some 4
unfolding lookup
listed = refl

abbrev hello : Frame
hello = record { type = 769; nid = 20001; flag = 1; payload = 104 ∷ [] }

hello-IsSendable : IsSendable hello
hello-IsSendable = record {
  type_fits = omega arith;
  nid_fits = omega arith;
  flag_fits = omega arith;
  payload_fits = omega arith;
}

some_bytes : 0 < length (encode little hello ++ [])
some_bytes = filled (encode-layout little hello-IsSendable)
  where
    filled :
        encode little hello ≡ header_bytes 769 20001 1 1 ++ (104 ∷ [])
        → 0 < length (encode little hello ++ [])
    filled layout = omega (arith, ap length layout, length-append (encode little hello) [])

business : header_field_host little (Pop.view little hello).header.flag ≢ flag_sys
unfolding make_header header_field_host host_to_be32 be_to_host32
business = λ e. omega (arith, e)

read_loop_anonymous_example :
    read_loop little kernel quiet_workers
      ((encode little hello ++ []) ∷ [])
      true
      4
      (with_session anonymous)
    ≡ dangling
unfolding FrameBuffer.append
read_loop_anonymous_example =
    read_loop_anonymous little kernel quiet_workers 4 anonymous (encode little hello ++ []) [] true
      (Pop.view little hello) FrameBuffer.empty (with_session anonymous) found_anonymous refl refl
      some_bytes (try_pop_frame-encode little {f = hello} [] hello-IsSendable) business

handle_writable-IsSent_example :
    Ends
      (handle_writable kernel (some 9) (with_session known))
      (IsSent kernel 4 known (with_session known))
handle_writable-IsSent_example =
    handle_writable-IsSent kernel 4 known (with_session known) listed found_known refl

abbrev login : FrameView
login = record {
  header = make_header little 1 20001 0 56;
  payload = auth_struct_bytes little (make_auth_payload little 1 (112 ∷ []) (113 ∷ []) 20001);
}

asked : header_field_host little login.header.type ≡ code auth_req
unfolding make_header header_field_host host_to_be32 be_to_host32
asked = omega arith

handle_system_login_example : handle_system little kernel 4 login (with_session anonymous) ≡ (
    if same_text (112 ∷ []) (112 ∷ []) && same_text (113 ∷ []) (113 ∷ [])
    then acknowledge little kernel auth_ack 20001 4 (
        with_router (Router.bind_nid 20001 4 (some 0)) (
          put_session 4
            (record anonymous { authed = true; gid = 1; nid = 20001 })
            (with_session anonymous)))
    else done (false, close_session 4 (with_session anonymous)))
unfolding make_context
handle_system_login_example =
    handle_system_login little kernel 4 anonymous login (with_session anonymous) 1 20001 (112 ∷ [])
      (113 ∷ []) found_anonymous asked refl (omega arith) (omega arith) (omega arith, tt)
      (omega arith, tt) (omega arith) (omega arith)

close_session_forgets_example :
    (lookup 4 (close_session 4 (with_session known)).sessions ≡ none)
    × (of_session 4 (Router.find_subscribers 769 (close_session 4 (with_session known)).ctx.router)
        ≡ none)
    × (is_route_of 4 (Router.find_nid_route 20001 (close_session 4 (with_session known)).ctx.router)
        ≡ false)
close_session_forgets_example =
    close_session_forgets 4 known (with_session known) 769 found_known refl refl

-- The node 7, as which session 4 authenticated before, is still routed to it.
close_session_keeps_example :
    Router.find_nid_route 7 (close_session 4 (with_session known)).ctx.router
    ≡ Router.find_nid_route 7 (with_session known).ctx.router
close_session_keeps_example =
    close_session_keeps 4 known (with_session known) 7 found_known refl (λ e. omega (arith, e))

picked : recv_queue (4 % 1) ctx ≡ some worker_queue
unfolding recv_queue
picked = refl

enqueue_inbound_queues_example :
    enqueue_inbound little kernel quiet_workers 4 (Pop.view little hello) (with_session known)
    ≡ done (record (with_session known) {
      clock = 0 + 1;
      ctx = notify (worker_wakeup (4 % 1)) (record ctx {
        recv_queues = set (worker_queue ∷ []) (4 % 1) (record worker_queue {
          queue =
              record {
                sid = 4;
                reactor_idx = some 0;
                gid = known.gid;
                nid = known.nid;
                type = be_to_host32 little (Pop.view little hello).header.type;
                flag = be_to_host32 little (Pop.view little hello).header.flag;
                payload = hello.payload;
              }
              ∷ [];
        });
      });
    })
enqueue_inbound_queues_example =
    enqueue_inbound_queues little kernel 4 known (Pop.view little hello) (with_session known)
      worker_queue found_known refl picked (omega arith)

-- No other connection is to come.
abbrev none_coming : Coming
none_coming = record { sid = λ k. false; key = λ f. false }

known-IsSound : IsSound (fixed none_coming (with_session known)) (with_session known)
unfolding lookup insert held any_of
known-IsSound = record {
  linked = AreLinked-add empty-AreLinked 4 known refl refl refl;
  fresh = record { no_sid = λ k s found. refl; no_key = λ f k found. refl };
  owns = AreHeld-add [] [] (λ key. refl) (some 9) 4;
  some_worker = omega arith;
  queues = omega arith;
  same = refl;
}

handle_readable-IsSound_example :
    Reaches
      (Reason kernel 9 (with_session known))
      (IsSound (fixed none_coming (with_session known)))
      (handle_readable little kernel quiet_workers 1 9
        ((1 ∷ 2 ∷ []) ∷ [])
        true
        (with_session known))
handle_readable-IsSound_example =
    handle_readable-IsSound little kernel quiet_workers 1 9 ((1 ∷ 2 ∷ []) ∷ []) true
      (fixed none_coming (with_session known)) (with_session known) (λ h. absurd (omega arith))
      known-IsSound

-- A new reactor with a connection in its queue.
abbrev arrival : NewConnection
arrival = record { sid = 4; fd = some 9 }

abbrev new_reactor : Reactor
new_reactor = record (with_session known) {
  ctx = record ctx {
    next_sid = 5;
    conn_queues = (Spsc.push (Spsc.make 2 no_connection) arrival).0 ∷ [];
    send_queues = Spsc.make 1 no_frame ∷ [];
  };
  fd_to_sid = [];
  sessions = [];
  calls = [];
}

new_reactor-Serves : Serves 3 new_reactor
unfolding lookup held any_of conn_queue send_queue Spsc.make Spsc.push
new_reactor-Serves = record {
  linked = empty-AreLinked;
  owns = λ key. refl;
  some_worker = omega arith;
  fed = record {
    conns = arrival ∷ [];
    frames = [];
    distinct = (refl, refl, tt);
    fresh = record {
      no_sid = λ k s found. absurd (cc found);
      no_key = λ f k found. absurd (cc found);
    };
    queues = omega arith;
    its_conns = record {
      queue = (Spsc.push (Spsc.make 2 no_connection) arrival).0;
      taken = 0;
      there = refl;
      holds = (push_ok arrival (make-Holds 2 no_connection) (omega arith)).1;
      few = omega arith;
    };
    its_frames = record {
      queue = Spsc.make 1 no_frame;
      taken = 0;
      there = refl;
      holds = make-Holds 1 no_frame;
      few = omega arith;
    };
  };
}

-- The listener of its plane, and a connection that fits the queue.
abbrev its_listener : Listener
its_listener = record {
  ctx = new_reactor.ctx;
  reactor_count = 1;
  round = 0;
  listen_fd = some 3;
  started = true;
  joinable = true;
  calls = [];
  socket_calls = [];
}

abbrev after_accept : Listener
after_accept = record its_listener {
  ctx = notify (reactor_wakeup 0) (record (new_reactor.ctx) {
    next_sid = 6;
    conn_queues =
        (Spsc.push (Spsc.push (Spsc.make 2 no_connection) arrival).0
          (record { fd = some 11; sid = 5 })).0
        ∷ [];
  });
  round = 1;
  calls = tuned (some 11) ∷ [];
}

accepts : on_accept (λ q. q) (accepted 11 true) its_listener ≡ done after_accept
unfolding on_accept deal pick_reactor next_session_id conn_queue Spsc.push Spsc.make
accepts = refl

new_fd : IsNewFd 11 3 new_reactor new_reactor-Serves
unfolding lookup any_of new_reactor-Serves
new_fd = record { not_listed = refl; not_queued = refl }

on_accept-IsFed_example : IsFed 3 new_reactor after_accept.ctx
on_accept-IsFed_example =
    on_accept-IsFed 3 new_reactor its_listener after_accept (accepted 11 true) new_reactor-Serves
      new_fd (omega arith) accepts
