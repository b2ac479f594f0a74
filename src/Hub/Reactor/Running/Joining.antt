-- ===== src/Hub/Reactor/Running/Joining.antt =====
-- DrainNewConnections: it ends with the connection queue empty, and it keeps the tables of the
-- reactor if the connections are new to it.
use hi_im_core.Hub.Queue.Spsc
use hi_im_core.Prelude.{
  ==_refl, Bool, List, Option, [], ap, arith, false, get_elem?-set_self, length, lookup, none, refl,
  some, subst, suc, true, zero, ℕ, ◌+◌, ◌<◌, ◌==◌, ◌||◌, ◌∙◌, ◌∷◌, ◌≡◌,
}
use hi_im_core.Hub.Context.{conn_queue}
use hi_im_core.Hub.Messages.{NewConnection}
use hi_im_core.Hub.Queue.Spsc.{SpscQueue}
use hi_im_core.Hub.Queue.Spsc.Fifo.{Holds}
use hi_im_core.Hub.Queue.Spsc.Refine.{capacity-pop, pop_empty, pop_ok}
use hi_im_core.Hub.Reactor.{Reactor, Session, fd_key, no_session}
use hi_im_core.Hub.Reactor.Input.{add_connection, drain_new_connections, with_conn_queue}
use hi_im_core.Hub.Reactor.Laws.Draining.{inside_of}
use hi_im_core.Hub.Reactor.Laws.Held.{AreHeld-add}
use hi_im_core.Hub.Reactor.Laws.Linked.{AreFresh-add, AreLinked-add, new_key, new_sid}
use hi_im_core.Hub.Reactor.Laws.Sending.{Ends}
use hi_im_core.Hub.Reactor.Laws.Sound.{IsSound, fixed}
use hi_im_core.Hub.Reactor.Running.{AllDistinct, any_of, coming_of}

fewer :
    (p : NewConnection → Bool) (c : NewConnection) (cs : List NewConnection)
    → any_of p (c ∷ cs) ≡ false
    → any_of p cs ≡ false
unfolding any_of
fewer p c cs h = ground arith

first_of :
    (p : NewConnection → Bool) (c : NewConnection) (cs : List NewConnection)
    → p c ≡ true
    → any_of p (c ∷ cs) ≡ true
unfolding any_of
first_of p c cs h = rw h refl

fewer_numbers :
    (n : ℕ) (c : NewConnection) (cs : List NewConnection) (j : ℕ)
    → (coming_of n (c ∷ cs)).sid j ≡ false
    → (coming_of n cs).sid j ≡ false
unfolding any_of
fewer_numbers n c cs j h = ground arith

either_first : (a b : Bool) → a ≡ true → a || b ≡ true
either_first true b h = refl
either_first false b h = cc

-- The session of a connection.
abbrev pub joined : NewConnection → Session
joined conn = record no_session { sid = conn.sid; fd = conn.fd }

add_connection-IsSound :
    (n : ℕ) (conn : NewConnection) (conns : List NewConnection) (r : Reactor)
    → IsSound (fixed (coming_of n (conn ∷ conns)) r) r
    → AllDistinct n (conn ∷ conns)
    → IsSound (fixed (coming_of n conns) r) (add_connection conn r)
unfolding add_connection
add_connection-IsSound n conn conns r sound distinct =
    rw (add_connection, missing)
      (record {
        linked = AreLinked-add sound.linked conn.sid (joined conn) refl missing no_fd;
        fresh =
            AreFresh-add sound.fresh (coming_of n conns) conn.sid (fd_key conn.fd) (joined conn)
              (λ j. fewer_numbers n conn conns j) (λ g. fewer (λ c. fd_key c.fd == g) conn conns)
              distinct.0 distinct.1;
        owns = AreHeld-add r.calls r.fd_to_sid sound.owns conn.fd conn.sid;
        some_worker = sound.some_worker;
        queues = sound.queues;
        same = refl;
      })
  where
    missing : lookup conn.sid r.sessions ≡ none
    missing =
        new_sid sound.fresh conn.sid
          (either_first _ _ (first_of (λ c. c.sid == conn.sid) conn conns (==_refl conn.sid)))

    no_fd : lookup (fd_key conn.fd) r.fd_to_sid ≡ none
    no_fd =
        new_key sound.fresh (fd_key conn.fd)
          (first_of (λ c. fd_key c.fd == fd_key conn.fd) conn conns (==_refl (fd_key conn.fd)))

-- What the loop leaves: its queue is empty, and the rest of the plane is as it was.
pub record HasJoined (r r' : Reactor) (c size : ℕ) : Type 0 where
  pub sound : IsSound (fixed (coming_of r.ctx.next_sid []) r') r'
  pub same_next : r'.ctx.next_sid ≡ r.ctx.next_sid
  pub same_idx : r'.idx ≡ r.idx
  pub same_frames : r'.ctx.send_queues ≡ r.ctx.send_queues
  pub queue : SpscQueue NewConnection
  pub there : conn_queue r'.idx r'.ctx ≡ some queue
  pub empty : Holds queue c []
  pub same_size : queue.capacity ≡ size

pub drain_new_connections-HasJoined :
    (conns : List NewConnection) (fuel c : ℕ) (q : SpscQueue NewConnection) (r : Reactor)
    → IsSound (fixed (coming_of r.ctx.next_sid conns) r) r
    → AllDistinct r.ctx.next_sid conns
    → conn_queue r.idx r.ctx ≡ some q
    → Holds q c conns
    → length conns < fuel
    → Ends (drain_new_connections fuel r) (λ r'. HasJoined r r' (c + length conns) q.capacity)
unfolding drain_new_connections conn_queue add_connection
drain_new_connections-HasJoined conns zero c q r sound distinct its_queue h enough =
    absurd (omega arith)
drain_new_connections-HasJoined [] (suc fuel) c q r sound distinct its_queue h enough = (
  r,
  rw its_queue (rw (pop_empty h) refl),
  record {
    sound = sound;
    same_next = refl;
    same_idx = refl;
    same_frames = refl;
    queue = q;
    there = its_queue;
    empty = subst (λ n. Holds q n []) (omega arith) h;
    same_size = refl;
  },
)
drain_new_connections-HasJoined (conn ∷ conns) (suc fuel) c q r sound distinct its_queue h enough =
    let r1 = with_conn_queue (Spsc.pop q).1 r in
    let sound1 : IsSound (fixed (coming_of r.ctx.next_sid (conn ∷ conns)) r1) r1 = record {
      linked = sound.linked;
      fresh = sound.fresh;
      owns = sound.owns;
      some_worker = sound.some_worker;
      queues = sound.queues;
      same = refl;
    } in
    let (r2, ends, joined_all) =
      drain_new_connections-HasJoined conns fuel (c + 1) (Spsc.pop q).1 (add_connection conn r1)
        (add_connection-IsSound r.ctx.next_sid conn conns r1 sound1 distinct) distinct.2
        (get_elem?-set_self r.ctx.conn_queues r.idx _
          (inside_of r.ctx.conn_queues r.idx q its_queue))
        (pop_ok h).1 (omega arith) in
    (
      r2,
      rw its_queue (rw popped_conn ends),
      record {
        sound = joined_all.sound;
        same_next = joined_all.same_next;
        same_idx = joined_all.same_idx;
        same_frames = joined_all.same_frames;
        queue = joined_all.queue;
        there = joined_all.there;
        empty = subst (λ n. Holds joined_all.queue n []) (omega arith) joined_all.empty;
        same_size = joined_all.same_size ∙ capacity-pop q;
      },
    )
  where
    popped_conn : Spsc.pop q ≡ (some conn, (Spsc.pop q).1)
    popped_conn = ap (λ (o : Option NewConnection). (o, (Spsc.pop q).1)) (pop_ok h).0
