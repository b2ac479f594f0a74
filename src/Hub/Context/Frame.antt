-- ===== src/Hub/Context/Frame.antt =====
-- Publish and AsyncSend change the distributor's queue and the notifications, and nothing else.
use hi_im_core.Hub.Router
use hi_im_core.Prelude.{
  Bool, Bool-cases, List, Option-cases, [], inl, inr, is_empty, refl, ℕ, ◌+◌, ◌∷◌, ◌≡◌,
}
use hi_im_core.Hub.Context.{
  DistEnv, HubContext, async_send, frame_for, publish, publish_loop, push_dist, send_along,
}
use hi_im_core.Hub.Messages.{OutboundFrame}
use hi_im_core.Hub.Queue.Mpsc.{MpscQueue}
use hi_im_core.Hub.Router.{NidRoute, Router, Subscriber}
use hi_im_core.Wire.Bytes.{Endian}
use hi_im_core.Wire.Header.{encode_frame, flag_exp}

-- The rest of a context.
abbrev pub rest_of : HubContext → HubContext
rest_of ctx = record ctx { dist_queue = record { capacity = 0; queue = [] }; signals = [] }

module _ (e : Endian) (others : DistEnv) where
  rest_of-publish_loop :
      (subs : List Subscriber) (k cmd : ℕ) (bytes : List ℕ) (ctx : HubContext)
      → rest_of (publish_loop e others k cmd bytes subs ctx).1 ≡ rest_of ctx
  unfolding publish_loop
  rest_of-publish_loop [] k cmd bytes ctx = refl
  rest_of-publish_loop (sub ∷ subs) k cmd bytes ctx = elim (Bool-cases answer.1) [
    | inl queued ↦
        rw queued
          (rest_of-publish_loop subs (k + 1) cmd bytes (record ctx { dist_queue = answer.0 }))
    | inr refused ↦ rw refused
  ]
    where
      answer : MpscQueue OutboundFrame × Bool
      answer = push_dist (others k) ctx.dist_queue (frame_for e cmd bytes sub)

  -- Whatever the other threads do meanwhile, Publish leaves the router, the peer, the handlers and
  -- the other queues of its plane alone.
  pub rest_of-publish :
      (cmd : ℕ) (bytes : List ℕ) (ctx : HubContext)
      → rest_of (publish e others cmd bytes ctx).1 ≡ rest_of ctx
  unfolding publish
  rest_of-publish cmd bytes ctx =
      elim (Bool-cases (is_empty (Router.find_subscribers cmd ctx.router))) [
        | inl none_there ↦ rw none_there
        | inr some_there ↦
            rw some_there
              (rest_of-publish_loop (Router.find_subscribers cmd ctx.router) 0 cmd bytes ctx)
      ]

  rest_of-send_along :
      (cmd dest_nid : ℕ) (bytes : List ℕ) (route : NidRoute) (ctx : HubContext)
      → rest_of (send_along e others cmd dest_nid bytes route ctx).1 ≡ rest_of ctx
  unfolding send_along
  rest_of-send_along cmd dest_nid bytes route ctx = elim (Bool-cases answer) [
    | inl queued ↦ rw queued
    | inr refused ↦ rw refused
  ]
    where
      answer : Bool
      answer =
          (push_dist (others 0) ctx.dist_queue (record {
            sid = route.sid;
            reactor_idx = route.reactor_idx;
            bytes = encode_frame e cmd dest_nid flag_exp bytes;
          })).1

  -- So does AsyncSend.
  pub rest_of-async_send :
      (cmd dest_nid : ℕ) (bytes : List ℕ) (ctx : HubContext)
      → rest_of (async_send e others cmd dest_nid bytes ctx).1 ≡ rest_of ctx
  unfolding async_send
  rest_of-async_send cmd dest_nid bytes ctx =
      elim (Option-cases (Router.find_nid_route dest_nid ctx.router)) [
        | inl missing ↦ rw (missing, async_send)
        | inr (route, found) ↦
            rw (found, async_send) (rest_of-send_along cmd dest_nid bytes route ctx)
      ]
