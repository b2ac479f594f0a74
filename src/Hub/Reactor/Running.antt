-- ===== src/Hub/Reactor/Running.antt =====
-- The thread of a reactor: what holds between its steps, and how it takes over new connections.
pub mod Joining
pub mod Steps
pub mod Ending
use hi_im_core.Prelude.{
  Bool, List, Option, [], arith, false, get_elem?, leb, length, refl, some, subst, sym, ℕ, ◌<◌,
  ◌==◌, ◌||◌, ◌∷◌, ◌≡◌, ◌≤◌,
}
use hi_im_core.Hub.Context.{HubContext, conn_queue, send_queue}
use hi_im_core.Hub.Messages.{NewConnection, OutboundFrame}
use hi_im_core.Hub.Queue.Spsc.{SpscQueue}
use hi_im_core.Hub.Queue.Spsc.Fifo.{Holds}
use hi_im_core.Hub.Reactor.{Reactor, fd_key}
use hi_im_core.Hub.Reactor.Laws.Held.{AreHeld}
use hi_im_core.Hub.Reactor.Laws.Linked.{AreFresh, AreLinked, Coming}
use hi_im_core.Hub.Reactor.Laws.Sound.{IsSound, fixed}
use hi_im_core.Hub.Reactor.Loop.{Meanwhile, absorb}

-- The connections of a list, as those that are still to come.
unfoldable pub any_of : (NewConnection → Bool) → List NewConnection → Bool
any_of p [] = false
any_of p (c ∷ cs) = p c || any_of p cs

-- Also the numbers from the plane's next one on are still to come.
abbrev pub coming_of : ℕ → List NewConnection → Coming
coming_of next_sid conns = record {
  sid = λ k. any_of (λ c. c.sid == k) conns || leb next_sid k;
  key = λ f. any_of (λ c. fd_key c.fd == f) conns;
}

-- No two of them have one number or one descriptor, and their numbers are below the next one.
abbrev pub AllDistinct : ℕ → List NewConnection → Type 0
AllDistinct next_sid [] = Unit {0}
AllDistinct next_sid (c ∷ cs) =
    ((coming_of next_sid cs).sid c.sid ≡ false)
    × ((coming_of next_sid cs).key (fd_key c.fd) ≡ false)
    × AllDistinct next_sid cs

-- A ring that holds the values, and cannot hold more than the fuel allows.
pub record Feeds {A : Type 0} (fuel : ℕ) (ring : Option (SpscQueue A)) (xs : List A) : Type 0 where
  pub queue : SpscQueue A
  pub taken : ℕ
  pub there : ring ≡ some queue
  pub holds : Holds queue taken xs
  pub few : queue.capacity ≤ fuel

-- What the other threads leave for the reactor: connections whose numbers and descriptors it does
-- not have, frames to send, and the queues of its workers.
pub record IsFed (fuel : ℕ) (r : Reactor) (ctx : HubContext) : Type 0 where
  pub conns : List NewConnection
  pub frames : List OutboundFrame
  pub distinct : AllDistinct ctx.next_sid conns
  pub fresh : AreFresh (coming_of ctx.next_sid conns) r.sessions r.fd_to_sid
  pub queues : r.worker_count ≤ length ctx.recv_queues
  pub its_conns : Feeds fuel (conn_queue r.idx ctx) conns
  pub its_frames : Feeds fuel (send_queue r.idx ctx) frames

-- What holds between the steps of the thread.
pub record Serves (fuel : ℕ) (r : Reactor) : Type 0 where
  pub linked : AreLinked r.sessions r.fd_to_sid
  pub owns : AreHeld r.calls r.fd_to_sid
  pub some_worker : 0 < r.worker_count
  pub fed : IsFed fuel r r.ctx

-- The other threads keep to that, whatever the reactor has done.
abbrev pub IsFair : ℕ → Meanwhile → Type 0
IsFair fuel others = (r : Reactor) → Serves fuel r → IsFed fuel r (others r)

pub Serves-absorb :
    (fuel : ℕ) (others : Meanwhile) (r : Reactor)
    → IsFair fuel others
    → Serves fuel r
    → Serves fuel (absorb others r)
Serves-absorb fuel others r fair serves =
    let fed = fair r serves in
    record {
      linked = serves.linked;
      owns = serves.owns;
      some_worker = serves.some_worker;
      fed = record {
        conns = fed.conns;
        frames = fed.frames;
        distinct = fed.distinct;
        fresh = fed.fresh;
        queues = fed.queues;
        its_conns = fed.its_conns;
        its_frames = fed.its_frames;
      };
    }

pub Serves-IsSound :
    (fuel : ℕ) (r : Reactor) (serves : Serves fuel r)
    → IsSound (fixed (coming_of r.ctx.next_sid serves.fed.conns) r) r
Serves-IsSound fuel r serves = record {
  linked = serves.linked;
  fresh = serves.fed.fresh;
  owns = serves.owns;
  some_worker = serves.some_worker;
  queues = serves.fed.queues;
  same = refl;
}

-- Another plane that differs in the send queues, which still feed the reactor, and in what is of no
-- concern to it.
pub sends-IsFed :
    (fuel : ℕ) (r : Reactor) (ctx ctx' : HubContext)
    → IsFed fuel r ctx
    → ctx'.next_sid ≡ ctx.next_sid
    → ctx'.conn_queues ≡ ctx.conn_queues
    → length ctx'.recv_queues ≡ length ctx.recv_queues
    → (frames : List OutboundFrame) × Feeds fuel (send_queue r.idx ctx') frames
    → IsFed fuel r ctx'
unfolding conn_queue
sends-IsFed fuel r ctx ctx' fed same_number same_conns as_many (frames, feeds) = record {
  conns = fed.conns;
  frames = frames;
  distinct = subst (λ n. AllDistinct n fed.conns) (sym same_number) fed.distinct;
  fresh =
      subst (λ n. AreFresh (coming_of n fed.conns) r.sessions r.fd_to_sid) (sym same_number)
        fed.fresh;
  queues = omega (arith, as_many, fed.queues);
  its_conns =
      subst (λ queues. Feeds fuel (get_elem? queues r.idx) fed.conns) (sym same_conns)
        fed.its_conns;
  its_frames = feeds;
}
