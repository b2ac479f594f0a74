-- ===== src/Hub/Interleaving.antt =====
-- src/hub/reactor.cpp beside src/hub/listener.cpp, src/hub/distributor.cpp and src/hub/worker.cpp:
-- the thread of a reactor, and what the other threads of the hub do to its plane between its steps.
use hi_im_core.Prelude.{
  Bool, List, [], ap, done, done_inj, inl, inr, subst, sym, ℕ, ◌+◌, ◌<◌, ◌^◌, ◌∙◌, ◌∷◌, ◌≡◌,
}
use hi_im_core.Hub.Bridge.{Hub, context}
use hi_im_core.Hub.Context.{DistEnv, HubContext}
use hi_im_core.Hub.Distributor.{route_to_send_queue}
use hi_im_core.Hub.Distributor.Feeding.{route_to_send_queue-IsFed}
use hi_im_core.Hub.Distributor.Laws.{undisturbed}
use hi_im_core.Hub.Listener.{Accept, Listener, on_accept}
use hi_im_core.Hub.Listener.Feeding.{AcceptsNew, on_accept-IsFed}
use hi_im_core.Hub.Messages.{InboundMessage, OutboundFrame, Plane}
use hi_im_core.Hub.Queue.Mpsc.{MpscQueue}
use hi_im_core.Hub.Reactor.{Reactor}
use hi_im_core.Hub.Reactor.Input.{RecvEnv}
use hi_im_core.Hub.Reactor.Laws.Sound.{Reaches}
use hi_im_core.Hub.Reactor.Loop.{Event, Meanwhile, Round, run}
use hi_im_core.Hub.Reactor.Output.{Kernel}
use hi_im_core.Hub.Reactor.Running.{IsFair, IsFed, Serves}
use hi_im_core.Hub.Reactor.Running.Ending.{AllFairRounds, HasClosed, RunReason, run-HasClosed}
use hi_im_core.Hub.Reactor.Running.Steps.{AllFair}
use hi_im_core.Hub.Worker.{dispatch, with_recv_queue}
use hi_im_core.Hub.Worker.Feeding.{dispatch-IsFed}
use hi_im_core.Wire.Bytes.{Endian}

-- The reactor, with its plane as the other threads have left it.
abbrev pub on_plane_of : Reactor → HubContext → Reactor
on_plane_of r ctx = record r { ctx = ctx }

-- A step of another thread on the plane of the reactor: a round of the accept loop, where accept
-- returns a descriptor that the reactor does not have and the numbers have not reached 2^64; a frame
-- that the distributor moves; a message that a worker of either plane handles.
pub data OtherStep (fuel : ℕ) (r : Reactor) (ctx ctx' : HubContext) : Type 0 where
  accepts :
      (l l' : Listener) (a : Accept)
      → ((serves : Serves fuel (on_plane_of r ctx)) → AcceptsNew a fuel (on_plane_of r ctx) serves)
      → ctx.next_sid + 1 < 2 ^ 64
      → on_accept (λ q. q) a (record l { ctx = ctx }) ≡ done l'
      → ctx' ≡ l'.ctx
      → OtherStep fuel r ctx ctx'
  routes :
      (frame : OutboundFrame) (b : Bool)
      → route_to_send_queue undisturbed frame ctx ≡ done (b, ctx')
      → OtherStep fuel r ctx ctx'
  handles :
      (e : Endian) (others : DistEnv) (p self : Plane) (idx : ℕ) (q : MpscQueue InboundMessage)
      (msg : InboundMessage) (hub : Hub)
      → ctx ≡ context p hub
      → ctx' ≡ context p (dispatch e others self msg (with_recv_queue self idx q hub))
      → OtherStep fuel r ctx ctx'

-- Any number of them, in any order.
pub data OtherSteps (fuel : ℕ) (r : Reactor) (ctx : HubContext) : HubContext → Type 0 where
  none_yet : OtherSteps fuel r ctx ctx
  and_then :
      {ctx' ctx'' : HubContext}
      → OtherSteps fuel r ctx ctx'
      → OtherStep fuel r ctx' ctx''
      → OtherSteps fuel r ctx ctx''

module _ (fuel : ℕ) (r : Reactor) where
  -- What is left for the reactor does not depend on the plane that the reactor sees.
  IsFed-on_plane_of :
      (seen ctx : HubContext) → IsFed fuel (on_plane_of r seen) ctx → IsFed fuel r ctx
  IsFed-on_plane_of seen ctx fed = record {
    conns = fed.conns;
    frames = fed.frames;
    distinct = fed.distinct;
    fresh = fed.fresh;
    queues = fed.queues;
    its_conns = fed.its_conns;
    its_frames = fed.its_frames;
  }

  Serves-on_plane_of :
      (ctx : HubContext) → Serves fuel r → IsFed fuel r ctx → Serves fuel (on_plane_of r ctx)
  Serves-on_plane_of ctx serves fed = record {
    linked = serves.linked;
    owns = serves.owns;
    some_worker = serves.some_worker;
    fed = record {
      conns = fed.conns;
      frames = fed.frames;
      distinct = fed.distinct;
      fresh = fed.fresh;
      queues = fed.queues;
      its_conns = fed.its_conns;
      its_frames = fed.its_frames;
    };
  }

  OtherStep-IsFed :
      (ctx ctx' : HubContext)
      → Serves fuel r
      → IsFed fuel r ctx
      → OtherStep fuel r ctx ctx'
      → IsFed fuel r ctx'
  OtherStep-IsFed ctx ctx' serves fed (accepts l l' a new small ends last) =
      let serves' = Serves-on_plane_of ctx serves fed in
      IsFed-on_plane_of ctx ctx' (
        subst (IsFed fuel (on_plane_of r ctx)) (sym last)
          (on_accept-IsFed fuel (on_plane_of r ctx) l l' a serves' (new serves') small ends))
  OtherStep-IsFed ctx ctx' serves fed (routes frame b ends) =
      elim (route_to_send_queue-IsFed fuel r ctx fed frame) [
        | inl (i, to_i, outside, throws) ↦ absurd (cc (throws, ends))
        | inr (b', ctx'', ends', fed') ↦
            subst (IsFed fuel r) (ap (λ o. o.1) (done_inj (sym ends' ∙ ends))) fed'
      ]
  OtherStep-IsFed ctx ctx' serves fed (handles e others p self idx q msg hub first last) =
      subst (IsFed fuel r) (sym last)
        (dispatch-IsFed e others fuel p self r idx q msg hub (subst (IsFed fuel r) first fed))

  OtherSteps-IsFed :
      {ctx ctx' : HubContext}
      → Serves fuel r
      → IsFed fuel r ctx
      → OtherSteps fuel r ctx ctx'
      → IsFed fuel r ctx'
  OtherSteps-IsFed serves fed none_yet = fed
  OtherSteps-IsFed serves fed (and_then before step) =
      OtherStep-IsFed _ _ serves (OtherSteps-IsFed serves fed before) step

-- The other threads take such steps only.
abbrev pub IsHub : ℕ → Meanwhile → Type 0
IsHub fuel others = (r : Reactor) → Serves fuel r → OtherSteps fuel r r.ctx (others r)

IsHub-IsFair : (fuel : ℕ) (others : Meanwhile) → IsHub fuel others → IsFair fuel others
IsHub-IsFair fuel others hub r serves = OtherSteps-IsFed fuel r serves serves.fed (hub r serves)

abbrev pub AllHub : ℕ → List Event → Type 0
AllHub fuel [] = Unit {0}
AllHub fuel (ev ∷ evs) = IsHub fuel ev.meanwhile × AllHub fuel evs

abbrev pub AllHubRounds : ℕ → List Round → Type 0
AllHubRounds fuel [] = Unit {0}
AllHubRounds fuel (round ∷ rounds) =
    AllHub fuel round.events × IsHub fuel round.before_sends × AllHubRounds fuel rounds

AllHub-AllFair : (fuel : ℕ) (evs : List Event) → AllHub fuel evs → AllFair fuel evs
AllHub-AllFair fuel [] hub = tt
AllHub-AllFair fuel (ev ∷ evs) hub =
    (IsHub-IsFair fuel ev.meanwhile hub.0, AllHub-AllFair fuel evs hub.1)

AllHubRounds-AllFairRounds :
    (fuel : ℕ) (rounds : List Round) → AllHubRounds fuel rounds → AllFairRounds fuel rounds
AllHubRounds-AllFairRounds fuel [] hub = tt
AllHubRounds-AllFairRounds fuel (round ∷ rounds) hub = (
  AllHub-AllFair fuel round.events hub.0,
  IsHub-IsFair fuel round.before_sends hub.1,
  AllHubRounds-AllFairRounds fuel rounds hub.2,
)

-- The thread of a reactor beside the other threads of the hub: if between its steps the listener,
-- the distributor and the workers take any steps in any order, where accept returns descriptors that
-- the reactor does not have, the numbers stay below 2^64, and a push of the listener or the
-- distributor to a queue of the reactor is one step, then whatever events come and whatever the
-- kernel answers, no `.at` of the thread throws, and one of two things happens. It ends with no
-- session left and every descriptor closed that it has taken over; or it uses an erased session, and
-- then some send returns 0 or an error other than EAGAIN and EWOULDBLOCK, or a round brings bytes on
-- the descriptor of a session that has not authenticated by then.
pub run-HasClosed_beside :
    (e : Endian) (kernel : Kernel) (others : RecvEnv) (fuel : ℕ) (rounds : List Round) (r : Reactor)
    → AllHubRounds fuel rounds
    → Serves fuel r
    → Reaches
        (RunReason e kernel others fuel rounds r)
        HasClosed
        (run e kernel others fuel rounds r)
run-HasClosed_beside e kernel others fuel rounds r hub =
    run-HasClosed e kernel others fuel rounds r (AllHubRounds-AllFairRounds fuel rounds hub)
