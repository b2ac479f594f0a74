-- ===== src/Hub/Listener/Feeding.antt =====
-- What a listener leaves for the reactors of its plane.
use hi_im_core.Hub.Queue.Spsc
use hi_im_core.Prelude.{
  some_inj, done_inj, Bool, List, Option, [], ap, ap₂, arith, dec_lt, done, false, get_elem?,
  get_elem?-set_ne, get_elem?-set_self, length, lookup, none, or_throw, refl, set, some, subst, sym,
  true, ℕ, ℕ_discrete, ◌%◌, ◌++◌, ◌+◌, ◌<◌, ◌==◌, ◌>>=◌, ◌^◌, ◌∙◌, ◌∷◌, ◌≡◌, ◌≢◌,
}
use hi_im_core.Hub.Context.{HubContext, conn_queue, next_session_id, send_queue}
use hi_im_core.Hub.Listener.{
  Accept, Listener, accepted, deal, finish_accept, on_accept, pick_reactor, refused,
}
use hi_im_core.Hub.Listener.Numbering.{
  AllDistinct-snoc, AllDistinct-suc, AreFresh-snoc, AreFresh-suc, new_conn,
}
use hi_im_core.Hub.Messages.{NewConnection}
use hi_im_core.Hub.Queue.Spsc.{SpscQueue}
use hi_im_core.Hub.Queue.Spsc.Fifo.{Holds}
use hi_im_core.Hub.Queue.Spsc.Refine.{capacity-push, push_full, push_ok}
use hi_im_core.Hub.Reactor.{Reactor, fd_key, tuned}
use hi_im_core.Hub.Reactor.Laws.Draining.{inside_of}
use hi_im_core.Hub.Reactor.Laws.Linked.{AreFresh}
use hi_im_core.Hub.Reactor.Running.{AllDistinct, Feeds, IsFed, Serves, any_of, coming_of}

-- A descriptor that the reactor does not know: neither its tables have it nor its queue.
pub record IsNewFd (fd fuel : ℕ) (r : Reactor) (serves : Serves fuel r) : Type 0 where
  pub not_listed : lookup (fd_key (some fd)) r.fd_to_sid ≡ none
  pub not_queued : any_of (λ c. fd_key c.fd == fd_key (some fd)) serves.fed.conns ≡ false

-- A plane in which the queue `i` of new connections has become `q`, and a number is used up.
record HasDealt (i : ℕ) (q : SpscQueue NewConnection) (before after : HubContext) : Type 0 where
  conns : after.conn_queues ≡ set before.conn_queues i q
  number : after.next_sid ≡ before.next_sid + 1
  messages : after.recv_queues ≡ before.recv_queues
  sends : after.send_queues ≡ before.send_queues

module _ (fuel : ℕ) (r : Reactor) (serves : Serves fuel r) (i fd : ℕ) (q : SpscQueue NewConnection)
    (ctx : HubContext) (dealt : HasDealt i q r.ctx ctx) where
  -- The reactor's queue holds what it has held.
  same_conns-IsFed : Feeds fuel (conn_queue r.idx ctx) serves.fed.conns → IsFed fuel r ctx
  unfolding send_queue
  same_conns-IsFed its_conns = record {
    conns = serves.fed.conns;
    frames = serves.fed.frames;
    distinct =
        subst (λ n. AllDistinct n serves.fed.conns) (sym dealt.number)
          (AllDistinct-suc r.ctx.next_sid serves.fed.conns serves.fed.distinct);
    fresh =
        subst (λ n. AreFresh (coming_of n serves.fed.conns) r.sessions r.fd_to_sid)
          (sym dealt.number) (AreFresh-suc r.ctx.next_sid fd serves.fed.conns serves.fed.fresh);
    queues = omega (arith, ap length dealt.messages, serves.fed.queues);
    its_conns = its_conns;
    its_frames =
        subst (λ queues. Feeds fuel (get_elem? queues r.idx) serves.fed.frames) (sym dealt.sends)
          serves.fed.its_frames;
  }

  other-IsFed : i ≢ r.idx → IsFed fuel r ctx
  unfolding conn_queue
  other-IsFed other = same_conns-IsFed (
      subst (λ ring. Feeds fuel ring serves.fed.conns)
        (sym (
          ap (λ queues. get_elem? queues r.idx) dealt.conns
          ∙ get_elem?-set_ne r.ctx.conn_queues q other))
        serves.fed.its_conns)

  -- The reactor's own queue, after a push.
  its_queue : i ≡ r.idx → conn_queue r.idx ctx ≡ some q
  unfolding conn_queue
  its_queue own =
      ap₂ get_elem? dealt.conns (sym own)
      ∙ get_elem?-set_self r.ctx.conn_queues i q (
          subst (λ j. j < length r.ctx.conn_queues) (sym own)
            (inside_of r.ctx.conn_queues r.idx serves.fed.its_conns.queue
              serves.fed.its_conns.there))

  full-IsFed : i ≡ r.idx → q ≡ serves.fed.its_conns.queue → IsFed fuel r ctx
  full-IsFed own same = same_conns-IsFed (record {
    queue = serves.fed.its_conns.queue;
    taken = serves.fed.its_conns.taken;
    there = its_queue own ∙ ap some same;
    holds = serves.fed.its_conns.holds;
    few = serves.fed.its_conns.few;
  })

  room-IsFed :
      i ≡ r.idx
      → IsNewFd fd fuel r serves
      → Holds q serves.fed.its_conns.taken (serves.fed.conns ++ (new_conn fd r.ctx.next_sid ∷ []))
      → q.capacity ≡ serves.fed.its_conns.queue.capacity
      → IsFed fuel r ctx
  unfolding send_queue
  room-IsFed own new holds size =
      let conns = serves.fed.conns ++ (new_conn fd r.ctx.next_sid ∷ []) in
      record {
        conns = conns;
        frames = serves.fed.frames;
        distinct =
            subst (λ n. AllDistinct n conns) (sym dealt.number)
              (AllDistinct-snoc r.ctx.next_sid fd serves.fed.conns serves.fed.distinct
                new.not_queued);
        fresh =
            subst (λ n. AreFresh (coming_of n conns) r.sessions r.fd_to_sid) (sym dealt.number)
              (AreFresh-snoc r.ctx.next_sid fd serves.fed.conns serves.fed.fresh new.not_listed);
        queues = omega (arith, ap length dealt.messages, serves.fed.queues);
        its_conns = record {
          queue = q;
          taken = serves.fed.its_conns.taken;
          there = its_queue own;
          holds = holds;
          few = omega (arith, size, serves.fed.its_conns.few);
        };
        its_frames =
            subst (λ queues. Feeds fuel (get_elem? queues r.idx) serves.fed.frames)
              (sym dealt.sends) serves.fed.its_frames;
      }

module _ (fuel fd : ℕ) (r : Reactor) (serves : Serves fuel r) (new : IsNewFd fd fuel r serves) where
  -- The push into the queue `i`, which is `q`.
  pushed-IsFed :
      (i : ℕ) (q : SpscQueue NewConnection) (ctx : HubContext)
      → conn_queue i r.ctx ≡ some q
      → HasDealt i (Spsc.push q (new_conn fd r.ctx.next_sid)).0 r.ctx ctx
      → IsFed fuel r ctx
  unfolding conn_queue
  pushed-IsFed i q ctx its_queue dealt = elim (ℕ_discrete i r.idx) [
    | no other ↦
        other-IsFed fuel r serves i fd (Spsc.push q (new_conn fd r.ctx.next_sid)).0 ctx dealt other
    | yes own ↦ elim (dec_lt (length conns + 1) ring.queue.capacity) [
      | yes more ↦
          room-IsFed fuel r serves i fd (Spsc.push q (new_conn fd r.ctx.next_sid)).0 ctx dealt own
            new
            (subst
              (λ p.
                Holds (Spsc.push p (new_conn fd r.ctx.next_sid)).0 ring.taken
                  (conns ++ (new_conn fd r.ctx.next_sid ∷ [])))
              (same own) (push_ok (new_conn fd r.ctx.next_sid) ring.holds more).1)
            (capacity-push q (new_conn fd r.ctx.next_sid)
              ∙ ap (λ (p : SpscQueue NewConnection). p.capacity) (sym (same own)))
      | no last ↦
          full-IsFed fuel r serves i fd (Spsc.push q (new_conn fd r.ctx.next_sid)).0 ctx dealt own (
            ap (λ p. (Spsc.push p (new_conn fd r.ctx.next_sid)).0) (sym (same own))
            ∙ ap (λ p. p.0)
                (push_full (new_conn fd r.ctx.next_sid) ring.holds
                  (omega (arith, ring.holds.room))))
    ]
  ]
    where
      conns : List NewConnection
      conns = serves.fed.conns

      ring : Feeds fuel (conn_queue r.idx r.ctx) serves.fed.conns
      ring = serves.fed.its_conns

      same : i ≡ r.idx → ring.queue ≡ q
      same own = some_inj (sym ring.there ∙ ap (get_elem? r.ctx.conn_queues) (sym own) ∙ its_queue)

-- What follows the push, for both of its answers.
finish_accept-HasDealt :
    (i fd : ℕ) (l : Listener) (before : HubContext) (pushed : SpscQueue NewConnection × Bool)
    → before.next_sid + 1 < 2 ^ 64
    → l.ctx ≡ record before { next_sid = (before.next_sid + 1) % 2 ^ 64 }
    → HasDealt i pushed.0 before (finish_accept fd i l pushed).ctx
finish_accept-HasDealt i fd l before (q, true) small same = record {
  conns = ap (λ (c : HubContext). set c.conn_queues i q) same;
  number = ap (λ (c : HubContext). c.next_sid) same ∙ omega arith;
  messages = ap (λ (c : HubContext). c.recv_queues) same;
  sends = ap (λ (c : HubContext). c.send_queues) same;
}
finish_accept-HasDealt i fd l before (q, false) small same = record {
  conns = ap (λ (c : HubContext). set c.conn_queues i q) same;
  number = ap (λ (c : HubContext). c.next_sid) same ∙ omega arith;
  messages = ap (λ (c : HubContext). c.recv_queues) same;
  sends = ap (λ (c : HubContext). c.send_queues) same;
}

-- The descriptor that accept returns, if it returns one, is new.
abbrev pub AcceptsNew : Accept → (fuel : ℕ) (r : Reactor) → Serves fuel r → Type 0
AcceptsNew refused fuel r serves = Unit {0}
AcceptsNew (accepted fd nonblocking) fuel r serves = IsNewFd fd fuel r serves

-- A round of the listener keeps what every reactor of its plane relies on, between two steps of the
-- reactor: if accept returns a descriptor that the reactor does not know, and the numbers have not
-- reached 2^64, then the numbers in its queue and in its tables are still different, and the
-- descriptors too, whichever reactor the connection is dealt to, and also if the queue is full.
pub on_accept-IsFed :
    (fuel : ℕ) (r : Reactor) (l l' : Listener) (a : Accept) (serves : Serves fuel r)
    → AcceptsNew a fuel r serves
    → r.ctx.next_sid + 1 < 2 ^ 64
    → on_accept (λ q. q) a (record l { ctx = r.ctx }) ≡ done l'
    → IsFed fuel r l'.ctx
unfolding on_accept deal pick_reactor next_session_id conn_queue
on_accept-IsFed fuel r l l' refused serves new small ends =
    subst (λ (m : Listener). IsFed fuel r m.ctx) (done_inj ends) serves.fed
on_accept-IsFed fuel r l l' (accepted fd false) serves new small ends =
    subst (λ (m : Listener). IsFed fuel r m.ctx) (done_inj ends) serves.fed
on_accept-IsFed fuel r l l' (accepted fd true) serves new small ends =
    dealt (get_elem? r.ctx.conn_queues i) refl ends
  where
    i : ℕ
    i = l.round % l.reactor_count

    numbered : Listener
    numbered = record l {
      ctx = record (r.ctx) { next_sid = (r.ctx.next_sid + 1) % 2 ^ 64 };
      round = (l.round + 1) % 2 ^ 64;
      calls = l.calls ++ (tuned (some fd) ∷ []);
    }

    dealt :
        (o : Option (SpscQueue NewConnection))
        → get_elem? r.ctx.conn_queues i ≡ o
        → (or_throw o >>= λ q.
            done (finish_accept fd i numbered (Spsc.push q (new_conn fd r.ctx.next_sid))))
          ≡ done l'
        → IsFed fuel r l'.ctx
    dealt none its eq = absurd (cc eq)
    dealt (some q) its eq =
        subst (λ (m : Listener). IsFed fuel r m.ctx) (done_inj eq)
          (pushed-IsFed fuel fd r serves new i q
            (finish_accept fd i numbered (Spsc.push q (new_conn fd r.ctx.next_sid))).ctx its
            (finish_accept-HasDealt i fd numbered r.ctx (Spsc.push q (new_conn fd r.ctx.next_sid))
              small refl))
