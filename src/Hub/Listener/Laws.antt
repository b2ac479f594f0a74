-- ===== src/Hub/Listener/Laws.antt =====
-- Where a new connection goes.
use hi_im_core.Hub.Queue.Spsc
use hi_im_core.Prelude.{
  List, [], ap, done, length, set, some, true, ℕ, ◌%◌, ◌++◌, ◌+◌, ◌<◌, ◌^◌, ◌∷◌, ◌≡◌,
}
use hi_im_core.Hub.Context.{conn_queue, next_session_id, notify, reactor_wakeup}
use hi_im_core.Hub.Listener.{Listener, accepted, deal, on_accept, pick_reactor}
use hi_im_core.Hub.Messages.{NewConnection}
use hi_im_core.Hub.Queue.Spsc.{SpscQueue}
use hi_im_core.Hub.Queue.Spsc.Fifo.{Holds}
use hi_im_core.Hub.Queue.Spsc.Refine.{push_ok}
use hi_im_core.Hub.Reactor.{tuned}

-- An accepted connection that is made nonblocking gets the next session number and goes to the
-- reactor whose turn it is: if that one's queue holds `xs` and has room, the queue then holds the
-- connection behind them, and the reactor is notified.
pub on_accept_room :
    (fd : ℕ) (l : Listener) (q : SpscQueue NewConnection) (c : ℕ) (xs : List NewConnection)
    → conn_queue (l.round % l.reactor_count) l.ctx ≡ some q
    → Holds q c xs
    → length xs + 1 < q.capacity
    → (on_accept (λ p. p) (accepted fd true) l ≡ (
        let i = l.round % l.reactor_count in
        done (record l {
          ctx = notify (reactor_wakeup i) (record (l.ctx) {
            next_sid = (l.ctx.next_sid + 1) % 2 ^ 64;
            conn_queues =
                set l.ctx.conn_queues i
                  (Spsc.push q (record { fd = some fd; sid = l.ctx.next_sid })).0;
          });
          round = (l.round + 1) % 2 ^ 64;
          calls = l.calls ++ (tuned (some fd) ∷ []);
        })))
      × Holds
          (Spsc.push q (record { fd = some fd; sid = l.ctx.next_sid })).0
          c
          (xs ++ (record { fd = some fd; sid = l.ctx.next_sid } ∷ []))
unfolding on_accept deal pick_reactor next_session_id conn_queue
on_accept_room fd l q c xs there h room = (rw there (rw taken), (push_ok conn h room).1)
  where
    conn : NewConnection
    conn = record { fd = some fd; sid = l.ctx.next_sid }

    taken : Spsc.push q conn ≡ ((Spsc.push q conn).0, true)
    taken = ap (λ b. ((Spsc.push q conn).0, b)) (push_ok conn h room).0
