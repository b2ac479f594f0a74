-- ===== src/Hub/Context/Publish.antt =====
-- What Publish and AsyncSend put into the distributor's queue, while no other thread touches it.
use hi_im_core.Hub.Queue.Mpsc
use hi_im_core.Hub.Router
use hi_im_core.Prelude.{
  List, [], ap, append-nil, append_assoc, arith, dec_lt, false, if◌then◌else◌, is_empty, leb,
  length, length-append, le→leb, le→not_leb, le→not_ltb, ltb, lt→ltb, map, none, some, suc, sym,
  take, true, ℕ, ◌++◌, ◌+◌, ◌-◌, ◌<◌, ◌∙◌, ◌∷◌, ◌≡◌, ◌≤◌,
}
use hi_im_core.Hub.Context.{
  DistEnv, HubContext, async_send, dist_wakeup, frame_for, notify, publish, publish_loop, push_dist,
  send_along,
}
use hi_im_core.Hub.Messages.{OutboundFrame, moved_frame}
use hi_im_core.Hub.Queue.Backoff.{default_retries}
use hi_im_core.Hub.Queue.Backoff.Laws.{push_with_backoff_at_once, push_with_backoff_refused}
use hi_im_core.Hub.Queue.Mpsc.{MpscQueue, push_accepted, push_refused}
use hi_im_core.Hub.Router.{NidRoute, Router, Subscriber}
use hi_im_core.Hub.Status.{Status, not_found, ok, queue_full}
use hi_im_core.Wire.Bytes.{Endian}
use hi_im_core.Wire.Header.{encode_frame, flag_exp}

abbrev pub alone : DistEnv
alone k i q = q

-- The queue with frames put in behind.
abbrev pub enqueue : List OutboundFrame → HubContext → HubContext
enqueue fs ctx = record ctx {
  dist_queue = record (ctx.dist_queue) { queue = ctx.dist_queue.queue ++ fs };
}

-- How many frames the queue still takes.
abbrev pub free : HubContext → ℕ
free ctx = ctx.dist_queue.capacity - length ctx.dist_queue.queue

push_dist_room :
    (q : MpscQueue OutboundFrame) (f : OutboundFrame)
    → length q.queue < q.capacity
    → push_dist (alone 0) q f ≡ (record q { queue = q.queue ++ (f ∷ []) }, true)
push_dist_room q f h =
    push_with_backoff_at_once Mpsc.push moved_frame (alone 0) default_retries q _ f
      (push_accepted q f h)

push_dist_full :
    (q : MpscQueue OutboundFrame) (f : OutboundFrame)
    → q.capacity ≤ length q.queue
    → push_dist (alone 0) q f ≡ (q, false)
push_dist_full q f h =
    push_with_backoff_refused Mpsc.push moved_frame (alone 0) default_retries q f
      (λ i w. push_refused q w h)

enqueue-enqueue :
    (f : OutboundFrame) (fs : List OutboundFrame) (ctx : HubContext)
    → enqueue fs (enqueue (f ∷ []) ctx) ≡ enqueue (f ∷ fs) ctx
enqueue-enqueue f fs ctx =
    ap (λ l. record ctx { dist_queue = record (ctx.dist_queue) { queue = l } })
      (append_assoc ctx.dist_queue.queue (f ∷ []) fs)

take-suc {ℓ} :
    {A : Type ℓ} {n m : ℕ} (x : A) (xs : List A) → n ≡ suc m → take n (x ∷ xs) ≡ x ∷ take m xs
take-suc x xs eq = rw eq

module _ (e : Endian) where
  publish_loop_room :
      (subs : List Subscriber) (k cmd : ℕ) (bytes : List ℕ) (ctx : HubContext)
      → length subs ≤ free ctx
      → publish_loop e alone k cmd bytes subs ctx
        ≡ (ok, notify dist_wakeup (enqueue (map (frame_for e cmd bytes) subs) ctx))
  unfolding publish_loop
  publish_loop_room [] k cmd bytes ctx h =
      ap
        (λ l. (
          ok,
          notify dist_wakeup (record ctx { dist_queue = record (ctx.dist_queue) { queue = l } }),
        ))
        (sym (append-nil ctx.dist_queue.queue))
  publish_loop_room (sub ∷ subs) k cmd bytes ctx h =
      rw (push_dist_room ctx.dist_queue (frame_for e cmd bytes sub) (omega arith)) (
        publish_loop_room subs (k + 1) cmd bytes (enqueue (frame_for e cmd bytes sub ∷ []) ctx)
          (omega (arith, length-append ctx.dist_queue.queue (frame_for e cmd bytes sub ∷ [])))
        ∙ ap (λ c. (ok, notify dist_wakeup c)) (enqueue-enqueue _ _ ctx))

  publish_loop_full :
      (subs : List Subscriber) (k cmd : ℕ) (bytes : List ℕ) (ctx : HubContext)
      → free ctx < length subs
      → publish_loop e alone k cmd bytes subs ctx
        ≡ (queue_full, enqueue (take (free ctx) (map (frame_for e cmd bytes) subs)) ctx)
  unfolding publish_loop
  publish_loop_full [] k cmd bytes ctx h = absurd (omega arith)
  publish_loop_full (sub ∷ subs) k cmd bytes ctx h = elim (dec_lt 0 (free ctx)) [
    | yes room ↦ rw (push_dist_room ctx.dist_queue first (omega arith)) (
        publish_loop_full subs (k + 1) cmd bytes (enqueue (first ∷ []) ctx)
          (omega (arith, length-append ctx.dist_queue.queue (first ∷ [])))
        ∙ ap (λ c. (queue_full, c)) (enqueue-enqueue first _ ctx)
        ∙ ap (λ fs. (queue_full, enqueue fs ctx)) (shorter room))
    | no full ↦ rw (push_dist_full ctx.dist_queue first (omega arith)) (
        ap (λ l. (queue_full, record ctx { dist_queue = record (ctx.dist_queue) { queue = l } }))
          (sym (append-nil ctx.dist_queue.queue))
        ∙ ap (λ n. (queue_full, enqueue (take n (map (frame_for e cmd bytes) (sub ∷ subs))) ctx))
            (none_free full))
  ]
    where
      first : OutboundFrame
      first = frame_for e cmd bytes sub

      none_free : ¬ (0 < free ctx) → 0 ≡ free ctx
      none_free full = omega arith

      shorter :
          0 < free ctx
          → first ∷ take (free (enqueue (first ∷ []) ctx)) (map (frame_for e cmd bytes) subs)
            ≡ take (free ctx) (first ∷ map (frame_for e cmd bytes) subs)
      shorter room =
          sym (take-suc first _ (omega (arith, length-append ctx.dist_queue.queue (first ∷ []))))

  -- What a subscriber is promised: a frame on its session and reactor, for its node, with the payload.
  abbrev pub frame_to : ℕ → List ℕ → Subscriber → OutboundFrame
  frame_to cmd bytes sub = record {
    sid = sub.sid;
    reactor_idx = sub.reactor_idx;
    bytes = encode_frame e cmd sub.nid flag_exp bytes;
  }

  -- Publish with no other thread at the queue: without subscribers nothing happens; if all the
  -- frames fit, there is one for each subscriber, in order, on its session and reactor, for its node
  -- and with the payload, and the distributor is notified once; if not, the first ones that fit are queued, the answer is
  -- queue_full, and nobody is notified.
  pub publish_lem :
      (cmd : ℕ) (bytes : List ℕ) (ctx : HubContext)
      → let subs = Router.find_subscribers cmd ctx.router in
        let frames = map (frame_to cmd bytes) subs in
        publish e alone cmd bytes ctx ≡ (
          if is_empty subs
          then (not_found, ctx)
          else (if leb (length subs) (free ctx)
              then (ok, notify dist_wakeup (enqueue frames ctx))
              else (queue_full, enqueue (take (free ctx) frames) ctx)))
  unfolding publish
  publish_lem cmd bytes ctx = elim (dec_lt (free ctx) (length subs)) [
    | yes over ↦
        rw (publish_loop_full subs 0 cmd bytes ctx over, le→not_leb (length subs) (free ctx) over)
    | no fits ↦ rw (
      publish_loop_room subs 0 cmd bytes ctx (omega arith),
      le→leb (length subs) (free ctx) (omega arith),
    )
  ]
    where
      subs : List Subscriber
      subs = Router.find_subscribers cmd ctx.router

  -- The frame that AsyncSend makes for a route.
  abbrev pub frame_along : ℕ → ℕ → List ℕ → NidRoute → OutboundFrame
  frame_along cmd dest_nid bytes route = record {
    sid = route.sid;
    reactor_idx = route.reactor_idx;
    bytes = encode_frame e cmd dest_nid flag_exp bytes;
  }

  -- What AsyncSend does with a route: one frame if there is room, nothing otherwise.
  abbrev sent_along : ℕ → ℕ → List ℕ → NidRoute → HubContext → Status × HubContext
  sent_along cmd dest_nid bytes route ctx =
      if ltb 0 (free ctx)
      then (ok, notify dist_wakeup (enqueue (frame_along cmd dest_nid bytes route ∷ []) ctx))
      else (queue_full, ctx)

  send_along-sent_along :
      (cmd dest_nid : ℕ) (bytes : List ℕ) (route : NidRoute) (ctx : HubContext)
      → send_along e alone cmd dest_nid bytes route ctx ≡ sent_along cmd dest_nid bytes route ctx
  unfolding send_along
  send_along-sent_along cmd dest_nid bytes route ctx = elim (dec_lt 0 (free ctx)) [
    | yes room ↦ rw (
      push_dist_room ctx.dist_queue (frame_along cmd dest_nid bytes route) (omega arith),
      lt→ltb 0 (free ctx) room,
    )
    | no full ↦ rw (
      push_dist_full ctx.dist_queue (frame_along cmd dest_nid bytes route) (omega arith),
      le→not_ltb 0 (free ctx) (omega arith),
    )
  ]

  -- AsyncSend with no other thread at the queue: an unknown node is not_found and changes nothing;
  -- a known one gets one frame on its session and a notification, if there is room, and else the
  -- answer is queue_full and nothing changes.
  pub async_send_lem :
      (cmd dest_nid : ℕ) (bytes : List ℕ) (ctx : HubContext)
      → async_send e alone cmd dest_nid bytes ctx
        ≡ elim (Router.find_nid_route dest_nid ctx.router) [
          | none ↦ (not_found, ctx)
          | some route ↦
              if ltb 0 (free ctx)
              then (
                ok,
                notify dist_wakeup (enqueue (frame_along cmd dest_nid bytes route ∷ []) ctx),
              )
              else (queue_full, ctx)
        ]
  unfolding async_send
  async_send_lem cmd dest_nid bytes ctx = λ i. elim (Router.find_nid_route dest_nid ctx.router) [
    | none ↦ (not_found, ctx)
    | some route ↦ send_along-sent_along cmd dest_nid bytes route ctx i
  ]
