-- ===== src/Hub/Context.antt =====
-- include/hiim/hub/context.hpp and src/hub/context_impl.cpp: one plane of the hub.
pub mod Publish
pub mod Frame
use hi_im_core.Hub.Queue.Spsc
use hi_im_core.Hub.Queue.Mpsc
use hi_im_core.Hub.Router
use hi_im_core.Prelude.{
  Bool, List, Option, Table, [], at_least_one, false, get_elem?, if◌then◌else◌, insert, is_empty,
  lookup, none, replicate, some, true, ℕ, ◌%◌, ◌++◌, ◌+◌, ◌^◌, ◌∷◌,
}
use hi_im_core.Hub.Messages.{
  HubConfig, InboundMessage, NewConnection, OutboundFrame, Plane, moved_frame, no_connection,
  no_frame,
}
use hi_im_core.Hub.Queue.Backoff.{default_retries, push_with_backoff}
use hi_im_core.Hub.Queue.Mpsc.{MpscQueue}
use hi_im_core.Hub.Queue.Spsc.{SpscQueue}
use hi_im_core.Hub.Router.{NidRoute, Router, Subscriber}
use hi_im_core.Hub.Status.{Status, not_found, ok, queue_full}
use hi_im_core.Wire.Bytes.{Endian}
use hi_im_core.Wire.Header.{encode_frame, flag_exp}

-- The two handlers that the program registers (src/hub/bridge.cpp).
pub data Handler : Type 0 where
  forward_uplink backend_downlink : Handler

-- A call of Notify, which writes to an eventfd or a pipe.
pub data Signal : Type 0 where
  reactor_wakeup worker_wakeup : ℕ → Signal
  dist_wakeup : Signal

-- `signals` are the calls of Notify so far, oldest first. The peer is named by its plane.
pub record HubContext : Type 0 where
  pub plane : Plane
  pub cfg : HubConfig
  pub peer : Option Plane
  pub router : Router
  pub running : Bool
  pub listening : Bool
  pub next_sid : ℕ
  pub conn_queues : List (SpscQueue NewConnection)
  pub recv_queues : List (MpscQueue InboundMessage)
  pub send_queues : List (SpscQueue OutboundFrame)
  pub dist_queue : MpscQueue OutboundFrame
  pub handlers : Table Handler
  pub signals : List Signal

unfoldable pub make_context : Plane → HubConfig → HubContext
make_context plane cfg =
    let reactors = at_least_one cfg.reactor_threads in
    let workers = at_least_one cfg.worker_threads in
    record {
      plane = plane;
      cfg = cfg;
      peer = none;
      router = Router.empty;
      running = true;
      listening = false;
      next_sid = 1;
      conn_queues = replicate reactors (Spsc.make cfg.queue_capacity no_connection);
      recv_queues = replicate workers (Mpsc.make cfg.queue_capacity);
      send_queues = replicate reactors (Spsc.make cfg.queue_capacity no_frame);
      dist_queue = Mpsc.make cfg.queue_capacity;
      handlers = [];
      signals = [];
    }

unfoldable pub set_peer : Plane → HubContext → HubContext
set_peer p ctx = record ctx { peer = some p }

unfoldable pub register_handler : ℕ → Handler → HubContext → HubContext
register_handler cmd handler ctx = record ctx { handlers = insert cmd handler ctx.handlers }

-- `none` is nullptr.
unfoldable pub find_handler : ℕ → HubContext → Option Handler
find_handler cmd ctx = lookup cmd ctx.handlers

unfoldable pub request_stop : HubContext → HubContext
request_stop ctx = record ctx { running = false }

unfoldable pub mark_listening : Bool → HubContext → HubContext
mark_listening v ctx = record ctx { listening = v }

unfoldable pub next_session_id : HubContext → ℕ × HubContext
next_session_id ctx = (ctx.next_sid, record ctx { next_sid = (ctx.next_sid + 1) % 2 ^ 64 })

-- `.at(i)`: `none` is std::out_of_range.
unfoldable pub conn_queue : ℕ → HubContext → Option (SpscQueue NewConnection)
conn_queue i ctx = get_elem? ctx.conn_queues i

unfoldable pub recv_queue : ℕ → HubContext → Option (MpscQueue InboundMessage)
recv_queue i ctx = get_elem? ctx.recv_queues i

unfoldable pub send_queue : ℕ → HubContext → Option (SpscQueue OutboundFrame)
send_queue i ctx = get_elem? ctx.send_queues i

abbrev pub notify : Signal → HubContext → HubContext
notify s ctx = record ctx { signals = ctx.signals ++ (s ∷ []) }

-- What the other threads do to the distributor's queue before each attempt of each push.
abbrev pub DistEnv : Type 0
DistEnv = ℕ → ℕ → MpscQueue OutboundFrame → MpscQueue OutboundFrame

-- PushWithBackoff on the distributor's queue.
abbrev pub push_dist :
    (ℕ → MpscQueue OutboundFrame → MpscQueue OutboundFrame)
    → MpscQueue OutboundFrame
    → OutboundFrame
    → MpscQueue OutboundFrame × Bool
push_dist others q frame = push_with_backoff Mpsc.push moved_frame others default_retries q frame

-- The frame that Publish makes for a subscriber.
abbrev pub frame_for : Endian → ℕ → List ℕ → Subscriber → OutboundFrame
frame_for e cmd bytes sub = record {
  sid = sub.sid;
  reactor_idx = sub.reactor_idx;
  bytes = encode_frame e cmd sub.nid flag_exp bytes;
}

module _ (e : Endian) (others : DistEnv) where
  -- The loop over the subscribers; `k` counts the pushes. The early return skips the Notify.
  unfoldable pub publish_loop : ℕ → ℕ → List ℕ → List Subscriber → HubContext → Status × HubContext
  publish_loop k cmd bytes [] ctx = (ok, notify dist_wakeup ctx)
  publish_loop k cmd bytes (sub ∷ subs) ctx =
      let (q, done) = push_dist (others k) ctx.dist_queue (frame_for e cmd bytes sub) in
      let rest = publish_loop (k + 1) cmd bytes subs (record ctx { dist_queue = q }) in
      if done then rest else (queue_full, record ctx { dist_queue = q })

  unfoldable pub publish : ℕ → List ℕ → HubContext → Status × HubContext
  publish cmd bytes ctx =
      let subs = Router.find_subscribers cmd ctx.router in
      if is_empty subs then (not_found, ctx) else publish_loop 0 cmd bytes subs ctx

  unfoldable pub send_along : ℕ → ℕ → List ℕ → NidRoute → HubContext → Status × HubContext
  send_along cmd dest_nid bytes route ctx =
      let out : OutboundFrame = record {
        sid = route.sid;
        reactor_idx = route.reactor_idx;
        bytes = encode_frame e cmd dest_nid flag_exp bytes;
      } in
      let (q, done) = push_dist (others 0) ctx.dist_queue out in
      if done
      then (ok, notify dist_wakeup (record ctx { dist_queue = q }))
      else (queue_full, record ctx { dist_queue = q })

  unfoldable pub async_send : ℕ → ℕ → List ℕ → HubContext → Status × HubContext
  unfolding send_along
  async_send cmd dest_nid bytes ctx = elim (Router.find_nid_route dest_nid ctx.router) [
    | none ↦ (not_found, ctx)
    | some route ↦ send_along cmd dest_nid bytes route ctx
  ]
