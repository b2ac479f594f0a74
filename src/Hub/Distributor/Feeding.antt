-- ===== src/Hub/Distributor/Feeding.antt =====
-- What the distributor leaves for a reactor when it moves a frame to a send queue.
use hi_im_core.Hub.Queue.Spsc
use hi_im_core.Prelude.{
  some_inj, Bool, List, Option-cases, [], ap, arith, dec_lt, done, false, get_elem?,
  get_elem?-set_ne, get_elem?-set_self, inl, inr, length, none, out_of_range, refl, set, some,
  subst, sym, true, ℕ, ℕ_discrete, ◌++◌, ◌+◌, ◌∙◌, ◌∷◌, ◌≡◌, ◌≤◌, ◌⊎◌,
}
use hi_im_core.Hub.Context.{HubContext, send_queue}
use hi_im_core.Hub.Distributor.{finish_route, push_send, route_to, route_to_send_queue}
use hi_im_core.Hub.Distributor.Laws.{opened, undisturbed}
use hi_im_core.Hub.Messages.{OutboundFrame, moved_frame}
use hi_im_core.Hub.Queue.Backoff.{default_retries}
use hi_im_core.Hub.Queue.Backoff.Laws.{push_with_backoff_at_once, push_with_backoff_refused}
use hi_im_core.Hub.Queue.Spsc.{SpscQueue}
use hi_im_core.Hub.Queue.Spsc.Fifo.{Holds}
use hi_im_core.Hub.Queue.Spsc.Refine.{capacity-push, push_full, push_ok}
use hi_im_core.Hub.Reactor.{Reactor}
use hi_im_core.Hub.Reactor.Laws.Draining.{inside_of}
use hi_im_core.Hub.Reactor.Running.{Feeds, IsFed, sends-IsFed}

-- A send queue with a frame put in or refused still holds a list, and no more than before fits.
push_send-Feeds :
    (fuel : ℕ) (frame : OutboundFrame) (q : SpscQueue OutboundFrame) (xs : List OutboundFrame)
    → Feeds fuel (some q) xs
    → (ys : List OutboundFrame) × Feeds fuel (some (push_send undisturbed q frame).0) ys
push_send-Feeds fuel frame q xs feeds = elim (dec_lt (length xs + 1) q.capacity) [
  | yes room ↦ (
    xs ++ (frame ∷ []),
    record {
      queue = (Spsc.push q frame).0;
      taken = feeds.taken;
      there = ap (λ p. some p.0) (at_once (push_ok frame holds room).0);
      holds = (push_ok frame holds room).1;
      few = omega (arith, capacity-push q frame, few);
    },
  )
  | no full ↦ (
    xs,
    record {
      queue = q;
      taken = feeds.taken;
      there = ap (λ p. some p.0) (refused (omega (arith, holds.room)));
      holds = holds;
      few = few;
    },
  )
]
  where
    same : feeds.queue ≡ q
    same = some_inj (sym feeds.there)

    holds : Holds q feeds.taken xs
    holds = subst (λ p. Holds p feeds.taken xs) same feeds.holds

    few : q.capacity ≤ fuel
    few = subst (λ (p : SpscQueue OutboundFrame). p.capacity ≤ fuel) same feeds.few

    at_once :
        (Spsc.push q frame).1 ≡ true → push_send undisturbed q frame ≡ ((Spsc.push q frame).0, true)
    at_once accepted =
        push_with_backoff_at_once Spsc.push moved_frame undisturbed default_retries q
          (Spsc.push q frame).0 frame (ap (λ b. ((Spsc.push q frame).0, b)) accepted)

    refused : length xs + 1 ≡ q.capacity → push_send undisturbed q frame ≡ (q, false)
    refused full =
        push_with_backoff_refused Spsc.push moved_frame undisturbed default_retries q frame
          (λ k w. push_full w holds full)

module _ (fuel : ℕ) (r : Reactor) (ctx : HubContext) (fed : IsFed fuel r ctx) where
  -- The send queue `i`, which was `q`, has become `p`.
  set-Feeds :
      (i : ℕ) (frame : OutboundFrame) (q : SpscQueue OutboundFrame)
      → send_queue i ctx ≡ some q
      → (ys : List OutboundFrame) × Feeds fuel
          (get_elem? (set ctx.send_queues i (push_send undisturbed q frame).0) r.idx)
          ys
  unfolding send_queue
  set-Feeds i frame q there = elim (ℕ_discrete i r.idx) [
    | no other ↦ (
      fed.frames,
      subst (λ ring. Feeds fuel ring fed.frames)
          (sym (get_elem?-set_ne ctx.send_queues (push_send undisturbed q frame).0 other))
          fed.its_frames,
    )
    | yes own ↦
        let (ys, feeds) = push_send-Feeds fuel frame q fed.frames (its own) in
        (ys, subst (λ ring. Feeds fuel ring ys) (sym (found own)) feeds)
  ]
    where
      its : i ≡ r.idx → Feeds fuel (some q) fed.frames
      its own =
          subst (λ ring. Feeds fuel ring fed.frames)
            (ap (get_elem? ctx.send_queues) (sym own) ∙ there) fed.its_frames

      found :
          i ≡ r.idx
          → get_elem? (set ctx.send_queues i (push_send undisturbed q frame).0) r.idx
            ≡ some (push_send undisturbed q frame).0
      found own =
          ap (get_elem? (set ctx.send_queues i (push_send undisturbed q frame).0)) (sym own)
          ∙ get_elem?-set_self ctx.send_queues i (push_send undisturbed q frame).0
              (inside_of ctx.send_queues i q there)

  finish_route-IsFed :
      (i : ℕ) (p : SpscQueue OutboundFrame × Bool)
      → (ys : List OutboundFrame) × Feeds fuel (get_elem? (set ctx.send_queues i p.0) r.idx) ys
      → IsFed fuel r (finish_route i ctx p).1
  unfolding send_queue
  finish_route-IsFed i (q, true) feeds = sends-IsFed fuel r ctx _ fed refl refl refl feeds
  finish_route-IsFed i (q, false) feeds = sends-IsFed fuel r ctx _ fed refl refl refl feeds

  -- RouteToSendQueue, with the reactors away from the send queues for the time of the call, keeps
  -- what every reactor of the plane relies on, also if the queue is full; or the frame names a send
  -- queue that is not there, and `.at` throws.
  pub route_to_send_queue-IsFed :
      (frame : OutboundFrame)
      → ((i : ℕ) × (frame.reactor_idx ≡ some i)
          × (send_queue i ctx ≡ none)
          × (route_to_send_queue undisturbed frame ctx ≡ out_of_range))
        ⊎ ((b : Bool) × (ctx' : HubContext) × (route_to_send_queue undisturbed frame ctx
              ≡ done (b, ctx'))
            × IsFed fuel r ctx')
  unfolding route_to_send_queue route_to
  route_to_send_queue-IsFed frame = elim (Option-cases frame.reactor_idx) [
    | inl negative ↦ inr (false, ctx, rw negative, fed)
    | inr (i, to_i) ↦ elim (Option-cases (send_queue i ctx)) [
      | inl outside ↦ inl (i, to_i, outside, rw (to_i, outside))
      | inr (q, inside) ↦
          let out = finish_route i ctx (push_send undisturbed q frame) in
          inr (
            out.0,
            out.1,
            opened undisturbed frame i ctx to_i ∙ rw inside,
            finish_route-IsFed i (push_send undisturbed q frame) (set-Feeds i frame q inside),
          )
    ]
  ]
