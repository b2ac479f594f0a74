-- ===== src/Hub/Reactor/Running/Steps.antt =====
-- Each step of a reactor's thread keeps what holds between the steps.
use hi_im_core.Prelude.{
  ==_iff, Bool, List, Option, Option-cases, Run, [], ap, ap₂, arith, dangling, done, false,
  get_elem?, if◌then◌else◌, inl, inr, length, lookup, none, out_of_fuel, out_of_range, refl, some,
  subst, sym, true, ℕ, ℕ_discrete, ◌+◌, ◌>>=◌, ◌∙◌, ◌∷◌, ◌≡◌, ◌⊎◌,
}
use hi_im_core.Hub.Context.{conn_queue, send_queue}
use hi_im_core.Hub.Messages.{NewConnection, OutboundFrame}
use hi_im_core.Hub.Reactor.{Reactor, call, drained_wakeup, fd_key}
use hi_im_core.Hub.Reactor.Input.{RecvEnv, handle_readable, on_wakeup}
use hi_im_core.Hub.Reactor.Laws.Draining.{drain_send_queue-IsSound}
use hi_im_core.Hub.Reactor.Laws.Events.{Anonymous, Reason, handle_readable-IsSound}
use hi_im_core.Hub.Reactor.Laws.Held.{drained_wakeup-IsNeutral}
use hi_im_core.Hub.Reactor.Laws.Linked.{AreFresh}
use hi_im_core.Hub.Reactor.Laws.Sending.{Ends, handle_writable-IsSent}
use hi_im_core.Hub.Reactor.Laws.Sound.{
  Failure, Fixed, IsSound, Reaches, Reaches-then, Stays, call-IsSound, fixed,
}
use hi_im_core.Hub.Reactor.Laws.Writing.{handle_writable-Keeps}
use hi_im_core.Hub.Reactor.Loop.{
  Event, Round, absorb, if_readable, if_writable, on_event, on_events, on_round,
}
use hi_im_core.Hub.Reactor.Output.{Kernel, drain_send_queue, handle_writable}
use hi_im_core.Hub.Reactor.Running.{
  AllDistinct, Feeds, IsFair, Serves, Serves-IsSound, Serves-absorb, coming_of,
}
use hi_im_core.Hub.Reactor.Running.Joining.{drain_new_connections-HasJoined}
use hi_im_core.Wire.Bytes.{Endian}

-- A step that leaves the queues of the reactor alone.
Serves-after :
    (fuel : ℕ) (r r' : Reactor) (serves : Serves fuel r)
    → IsSound (fixed (coming_of r.ctx.next_sid serves.fed.conns) r) r'
    → Serves fuel r'
unfolding conn_queue send_queue
Serves-after fuel r r' serves sound = record {
  linked = sound.linked;
  owns = sound.owns;
  some_worker = sound.some_worker;
  fed = record {
    conns = serves.fed.conns;
    frames = serves.fed.frames;
    distinct = subst (λ n. AllDistinct n serves.fed.conns) (sym same_next) serves.fed.distinct;
    fresh =
        subst (λ n. AreFresh (coming_of n serves.fed.conns) r'.sessions r'.fd_to_sid)
          (sym same_next) sound.fresh;
    queues = sound.queues;
    its_conns = record {
      queue = serves.fed.its_conns.queue;
      taken = serves.fed.its_conns.taken;
      there =
          ap (λ (f : Fixed). get_elem? f.conn_queues f.idx) sound.same ∙ serves.fed.its_conns.there;
      holds = serves.fed.its_conns.holds;
      few = serves.fed.its_conns.few;
    };
    its_frames = record {
      queue = serves.fed.its_frames.queue;
      taken = serves.fed.its_frames.taken;
      there =
          ap (λ (f : Fixed). get_elem? f.send_queues f.idx) sound.same
          ∙ serves.fed.its_frames.there;
      holds = serves.fed.its_frames.holds;
      few = serves.fed.its_frames.few;
    };
  };
}
  where
    same_next : r'.ctx.next_sid ≡ r.ctx.next_sid
    same_next = ap (λ (f : Fixed). f.next_sid) sound.same

pub Reaches-weaken :
    {A : Type 0} (D D' : Type 0) (P Q : A → Type 0) (m : Run A)
    → (D → D')
    → ((a : A) → P a → Q a)
    → Reaches D P m
    → Reaches D' Q m
Reaches-weaken D D' P Q (done a) why weaker h = weaker a h
Reaches-weaken D D' P Q dangling why weaker h = why h
Reaches-weaken D D' P Q out_of_range why weaker h = h
Reaches-weaken D D' P Q out_of_fuel why weaker h = h

-- With the state that the first step has reached.
pub Reaches-next :
    {A B : Type 0} (D : Type 0) (P : A → Type 0) (Q : B → Type 0) (m : Run A) (f : A → Run B)
    → Reaches D P m
    → ((a : A) → m ≡ done a → P a → Reaches D Q (f a))
    → Reaches D Q (m >>= f)
Reaches-next D P Q (done a) f p rest = rest a refl p
Reaches-next D P Q dangling f d rest = d
Reaches-next D P Q out_of_range f p rest = p
Reaches-next D P Q out_of_fuel f p rest = p

Reaches-Ends :
    {A : Type 0} (D : Type 0) (P Q : A → Type 0) (m : Run A)
    → Ends m P
    → ((a : A) → P a → Q a)
    → Reaches D Q m
Reaches-Ends D P Q m (a, ends, p) weaker = rw ends (weaker a p)

of_key : (its_fd : Option ℕ) (fd : ℕ) → fd_key its_fd ≡ fd + 1 → its_fd ≡ some fd
of_key none fd eq = absurd (omega arith)
of_key (some f) fd eq = ap some (omega arith)

abbrev pub AllFair : ℕ → List Event → Type 0
AllFair fuel [] = Unit {0}
AllFair fuel (ev ∷ evs) = IsFair fuel ev.meanwhile × AllFair fuel evs

module _ (e : Endian) (kernel : Kernel) (others : RecvEnv) (fuel : ℕ) where
  -- DrainSendQueue, with the connections that are still in the queue.
  sends-Serves :
      (conns : List NewConnection) (frames : List OutboundFrame) (r : Reactor)
      → IsSound (fixed (coming_of r.ctx.next_sid conns) r) r
      → AllDistinct r.ctx.next_sid conns
      → Feeds fuel (conn_queue r.idx r.ctx) conns
      → Feeds fuel (send_queue r.idx r.ctx) frames
      → Ends (drain_send_queue kernel fuel r) (Serves fuel)
  unfolding conn_queue
  sends-Serves conns frames r sound distinct its_conns its_frames =
      let (r', ends, (sound', same_idx, same_conns, same_next, (q', its_queue', size', h'))) =
        drain_send_queue-IsSound kernel (coming_of r.ctx.next_sid conns) frames fuel
          its_frames.taken its_frames.queue r sound its_frames.there its_frames.holds
          (omega (arith, its_frames.holds.room, its_frames.few)) in
      (
        r',
        ends,
        record {
          linked = sound'.linked;
          owns = sound'.owns;
          some_worker = sound'.some_worker;
          fed = record {
            conns = conns;
            frames = [];
            distinct = subst (λ n. AllDistinct n conns) (sym same_next) distinct;
            fresh =
                subst (λ n. AreFresh (coming_of n conns) r'.sessions r'.fd_to_sid) (sym same_next)
                  sound'.fresh;
            queues = sound'.queues;
            its_conns = record {
              queue = its_conns.queue;
              taken = its_conns.taken;
              there = ap₂ get_elem? same_conns same_idx ∙ its_conns.there;
              holds = its_conns.holds;
              few = its_conns.few;
            };
            its_frames = record {
              queue = q';
              taken = its_frames.taken + length frames;
              there = its_queue';
              holds = h';
              few = omega (arith, size', its_frames.few);
            };
          };
        },
      )

  pub drain_send_queue-Serves :
      (r : Reactor) → Serves fuel r → Ends (drain_send_queue kernel fuel r) (Serves fuel)
  drain_send_queue-Serves r serves =
      sends-Serves serves.fed.conns serves.fed.frames r (Serves-IsSound fuel r serves)
        serves.fed.distinct serves.fed.its_conns serves.fed.its_frames

  on_wakeup-Serves :
      (r : Reactor) → Serves fuel r → Ends (on_wakeup e kernel others fuel r) (Serves fuel)
  unfolding on_wakeup send_queue
  on_wakeup-Serves r serves =
      let its_conns = serves.fed.its_conns in
      let its_frames = serves.fed.its_frames in
      let r0 = call drained_wakeup r in
      let (r1, ends1, joined_all) =
        drain_new_connections-HasJoined serves.fed.conns fuel its_conns.taken its_conns.queue r0
          (call-IsSound drained_wakeup r drained_wakeup-IsNeutral (Serves-IsSound fuel r serves))
          serves.fed.distinct its_conns.there its_conns.holds
          (omega (arith, its_conns.holds.room, its_conns.few)) in
      let (r2, ends2, serves2) =
        sends-Serves [] serves.fed.frames r1
          (subst (λ n. IsSound (fixed (coming_of n []) r1) r1) (sym joined_all.same_next)
            joined_all.sound)
          tt
          (record {
            queue = joined_all.queue;
            taken = its_conns.taken + length serves.fed.conns;
            there = joined_all.there;
            holds = joined_all.empty;
            few = omega (arith, joined_all.same_size, its_conns.few);
          })
          (record {
            queue = its_frames.queue;
            taken = its_frames.taken;
            there = ap₂ get_elem? joined_all.same_frames joined_all.same_idx ∙ its_frames.there;
            holds = its_frames.holds;
            few = its_frames.few;
          }) in
      (r2, ap (λ m. m >>= λ r'. drain_send_queue kernel fuel r') ends1 ∙ ends2, serves2)

  handle_readable-Serves :
      (fd : ℕ) (chunks : List (List ℕ)) (more_later : Bool) (r : Reactor)
      → Serves fuel r
      → Reaches
          (Reason kernel fd r)
          (Serves fuel)
          (handle_readable e kernel others fuel fd chunks more_later r)
  unfolding handle_readable
  handle_readable-Serves fd chunks more_later r serves = elim (ℕ_discrete fd r.wakeup_fd) [
    | yes own ↦
        rw (handle_readable, (==_iff fd r.wakeup_fd).1 own)
          (Reaches-Ends (Reason kernel fd r) (Serves fuel) (Serves fuel)
            (on_wakeup e kernel others fuel r) (on_wakeup-Serves r serves) (λ r' h. h))
    | no other_fd ↦
        Reaches-weaken (Reason kernel fd r) (Reason kernel fd r)
          (IsSound (fixed (coming_of r.ctx.next_sid serves.fed.conns) r)) (Serves fuel)
          (handle_readable e kernel others fuel fd chunks more_later r) (λ why. why)
          (λ r' sound. Serves-after fuel r r' serves sound)
          (handle_readable-IsSound e kernel others fuel fd chunks more_later
            (fixed (coming_of r.ctx.next_sid serves.fed.conns) r) r other_fd
            (Serves-IsSound fuel r serves))
  ]

  handle_writable-Serves :
      (fd : ℕ) (r : Reactor)
      → Serves fuel r
      → Ends (handle_writable kernel (some fd) r) (Serves fuel)
  unfolding handle_writable
  handle_writable-Serves fd r serves = elim (Option-cases (lookup (fd_key (some fd)) r.fd_to_sid)) [
    | inl missing ↦ (r, rw (handle_writable, missing) refl, serves)
    | inr (k, leads) ↦
        let base = fixed (coming_of r.ctx.next_sid serves.fed.conns) r in
        let sound = Serves-IsSound fuel r serves in
        let (s, there, its_key) = sound.linked.owned (fd_key (some fd)) k leads in
        let (r', ends, _) =
          handle_writable-IsSent kernel k s r (sound.linked.listed k s there) there
            (sound.linked.own k s there) in
        let stays : Stays base (Unit {0}) (length s.fb.buf) k r' =
          subst (Reaches (Unit {0}) (Stays base (Unit {0}) (length s.fb.buf) k)) ends (
            handle_writable-Keeps kernel base (Unit {0}) (λ failure. tt) (length s.fb.buf) k s r
              sound there (inr tt, omega arith)) in
        (
          r',
          subst (λ its_fd. handle_writable kernel its_fd r ≡ done r') (of_key s.fd fd its_key) ends,
          Serves-after fuel r r' serves stays.0,
        )
  ]

  -- A use of an erased session while one event is handled: some send fails, or bytes have come on a
  -- descriptor whose session has not authenticated.
  abbrev EventReason : Event → Reactor → Type 0
  EventReason ev r =
      Failure kernel ⊎ ((ev.readable ≡ true) × Anonymous ev.fd (absorb ev.meanwhile r))

  on_event-Serves :
      (ev : Event) (r : Reactor)
      → IsFair fuel ev.meanwhile
      → Serves fuel r
      → Reaches (EventReason ev r) (Serves fuel) (on_event e kernel others fuel ev r)
  unfolding on_event
  on_event-Serves ev r fair serves =
      Reaches-then (EventReason ev r) (Serves fuel) (Serves fuel)
        (if_readable e kernel others fuel ev (absorb ev.meanwhile r))
        (λ r'. if_writable e kernel others fuel ev r')
        (reads ev.readable refl (absorb ev.meanwhile r) refl
          (Serves-absorb fuel ev.meanwhile r fair serves))
        (writes ev.writable)
    where
      why :
          (now : Reactor)
          → now ≡ absorb ev.meanwhile r
          → ev.readable ≡ true
          → Reason kernel ev.fd now
          → EventReason ev r
      why now same ready (inl failure) = inl failure
      why now same ready (inr anonymous) = inr (ready, subst (Anonymous ev.fd) same anonymous)

      reads :
          (b : Bool)
          → ev.readable ≡ b
          → (now : Reactor) → now ≡ absorb ev.meanwhile r
          → Serves fuel now
          → Reaches (EventReason ev r) (Serves fuel) (
              if b
              then handle_readable e kernel others fuel ev.fd ev.chunks ev.more_later now
              else done now)
      reads true ready now same h =
          Reaches-weaken (Reason kernel ev.fd now) (EventReason ev r) (Serves fuel) (Serves fuel)
            (handle_readable e kernel others fuel ev.fd ev.chunks ev.more_later now)
            (why now same ready) (λ r' h'. h')
            (handle_readable-Serves ev.fd ev.chunks ev.more_later now h)
      reads false ready now same h = h

      writes :
          (b : Bool) (now : Reactor)
          → Serves fuel now
          → Reaches
              (EventReason ev r)
              (Serves fuel)
              (if b then handle_writable kernel (some ev.fd) now else done now)
      writes true now h =
          Reaches-Ends (EventReason ev r) (Serves fuel) (Serves fuel)
            (handle_writable kernel (some ev.fd) now) (handle_writable-Serves ev.fd now h)
            (λ r' h'. h')
      writes false now h = h

  -- While the events are handled, one of them brings bytes on a descriptor whose session has not
  -- authenticated by then.
  pub data MeetsAnonymous : List Event → Reactor → Type 0 where
    at_once :
        {ev : Event} {evs : List Event} {r : Reactor}
        → ev.readable ≡ true
        → Anonymous ev.fd (absorb ev.meanwhile r)
        → MeetsAnonymous (ev ∷ evs) r
    after_event :
        {ev : Event} {evs : List Event} {r r' : Reactor}
        → on_event e kernel others fuel ev r ≡ done r'
        → MeetsAnonymous evs r'
        → MeetsAnonymous (ev ∷ evs) r

  abbrev pub EventsReason : List Event → Reactor → Type 0
  EventsReason evs r = Failure kernel ⊎ MeetsAnonymous evs r

  on_events-Serves :
      (evs : List Event) (r : Reactor)
      → AllFair fuel evs
      → Serves fuel r
      → Reaches (EventsReason evs r) (Serves fuel) (on_events e kernel others fuel evs r)
  unfolding on_events
  on_events-Serves [] r fair serves = serves
  on_events-Serves (ev ∷ evs) r fair serves =
      Reaches-next (EventsReason (ev ∷ evs) r) (Serves fuel) (Serves fuel)
        (on_event e kernel others fuel ev r) _
        (Reaches-weaken (EventReason ev r) (EventsReason (ev ∷ evs) r) (Serves fuel) (Serves fuel)
          (on_event e kernel others fuel ev r) now (λ r' h. h) (on_event-Serves ev r fair.0 serves))
        (λ r' ends h.
          Reaches-weaken (EventsReason evs r') (EventsReason (ev ∷ evs) r) (Serves fuel)
            (Serves fuel) (on_events e kernel others fuel evs r') (later r' ends) (λ r'' h'. h')
            (on_events-Serves evs r' fair.1 h))
    where
      now : EventReason ev r → EventsReason (ev ∷ evs) r
      now (inl failure) = inl failure
      now (inr (ready, anonymous)) = inr (at_once ready anonymous)

      later :
          (r' : Reactor)
          → on_event e kernel others fuel ev r ≡ done r'
          → EventsReason evs r'
          → EventsReason (ev ∷ evs) r
      later r' ends (inl failure) = inl failure
      later r' ends (inr met) = inr (after_event ends met)

  pub on_round-Serves :
      (round : Round) (r : Reactor)
      → AllFair fuel round.events
      → IsFair fuel round.before_sends
      → Serves fuel r
      → Reaches (EventsReason round.events r) (Serves fuel) (on_round e kernel others fuel round r)
  unfolding on_round
  on_round-Serves round r all_fair fair serves =
      Reaches-then (EventsReason round.events r) (Serves fuel) (Serves fuel)
        (on_events e kernel others fuel round.events r) _
        (on_events-Serves round.events r all_fair serves)
        (λ r' h.
          Reaches-Ends (EventsReason round.events r) (Serves fuel) (Serves fuel)
            (drain_send_queue kernel fuel (absorb round.before_sends r'))
            (drain_send_queue-Serves (absorb round.before_sends r')
              (Serves-absorb fuel round.before_sends r' fair h))
            (λ r'' h'. h'))
