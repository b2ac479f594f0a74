-- ===== src/Hub/Reactor/Laws/Sound.antt =====
-- What every step of a reactor keeps: its two tables agree, and the queues of its workers are there.
use hi_im_core.Hub.Router
use hi_im_core.Prelude.{
  Bool, List, Option-cases, Run, ap, dangling, done, false, if◌then◌else◌, inl, inr, length, lookup,
  ltb, none, not, out_of_fuel, out_of_range, some, true, ℕ, ◌<◌, ◌>>=◌, ◌∙◌, ◌≡◌, ◌≤◌, ◌⊎◌,
}
use hi_im_core.Hub.Messages.{NewConnection, OutboundFrame}
use hi_im_core.Hub.Queue.Spsc.{SpscQueue}
use hi_im_core.Hub.Reactor.{
  Call, Reactor, Session, call, close_found, close_session, deref, fd_key, put_session, tick,
}
use hi_im_core.Hub.Reactor.Laws.Held.{AreHeld, AreHeld-close, AreHeld-neutral, IsNeutral}
use hi_im_core.Hub.Reactor.Laws.Linked.{
  AreFresh, AreFresh-erase, AreFresh-put, AreLinked, AreLinked-erase, AreLinked-put, Coming,
}
use hi_im_core.Hub.Reactor.Laws.Sending.{close_session-gone}
use hi_im_core.Hub.Reactor.Output.{Kernel, SendResult, send_failed, sent, would_block}
use hi_im_core.Hub.Router.{Router}

-- What the input of a client does not touch, and the connections that are still to come.
pub record Fixed : Type 0 where
  pub coming : Coming
  pub idx : ℕ
  pub wakeup_fd : ℕ
  pub next_sid : ℕ
  pub send_queues : List (SpscQueue OutboundFrame)
  pub conn_queues : List (SpscQueue NewConnection)

abbrev pub fixed : Coming → Reactor → Fixed
fixed coming r = record {
  coming = coming;
  idx = r.idx;
  wakeup_fd = r.wakeup_fd;
  next_sid = r.ctx.next_sid;
  send_queues = r.ctx.send_queues;
  conn_queues = r.ctx.conn_queues;
}

pub record IsSound (base : Fixed) (r : Reactor) : Type 0 where
  pub linked : AreLinked r.sessions r.fd_to_sid
  pub fresh : AreFresh base.coming r.sessions r.fd_to_sid
  pub owns : AreHeld r.calls r.fd_to_sid
  pub some_worker : 0 < r.worker_count
  pub queues : r.worker_count ≤ length r.ctx.recv_queues
  pub same : fixed base.coming r ≡ base

-- The step ends in a state with P, or it uses an erased session and D holds. It does not throw
-- std::out_of_range and does not run out of fuel.
abbrev pub Reaches : {A : Type 0} → Type 0 → (A → Type 0) → Run A → Type 0
Reaches D P (done a) = P a
Reaches D P out_of_range = ⊥
Reaches D P dangling = D
Reaches D P out_of_fuel = ⊥

pub Reaches-then :
    {A B : Type 0} (D : Type 0) (P : A → Type 0) (Q : B → Type 0) (m : Run A) (f : A → Run B)
    → Reaches D P m
    → ((a : A) → P a → Reaches D Q (f a))
    → Reaches D Q (m >>= f)
Reaches-then D P Q (done a) f p rest = rest a p
Reaches-then D P Q dangling f d rest = d
Reaches-then D P Q out_of_range f p rest = p
Reaches-then D P Q out_of_fuel f p rest = p

-- A use of a session that is there.
pub Reaches-deref :
    {B : Type 0} (D : Type 0) (Q : B → Type 0) (k : ℕ) (s : Session) (r : Reactor)
    (f : Session → Run B)
    → lookup k r.sessions ≡ some s
    → Reaches D Q (f s)
    → Reaches D Q (deref k r >>= f)
Reaches-deref D Q k s r f there rest = rw there rest

-- The session is authenticated or D holds, and its buffer has at most n bytes.
abbrev pub Known : Type 0 → ℕ → Session → Type 0
Known D n s = ((s.authed ≡ true) ⊎ D) × (length s.fb.buf ≤ n)

abbrev pub IsLive : Type 0 → ℕ → ℕ → Reactor → Type 0
IsLive D n k r = (s : Session) × (lookup k r.sessions ≡ some s) × Known D n s

-- send takes nothing, or fails with another error than EAGAIN.
abbrev pub fails : SendResult → Bool
fails (sent n) = not (ltb 0 n)
fails would_block = false
fails send_failed = true

abbrev pub Failure : Kernel → Type 0
Failure kernel = (k : ℕ) × (fails (kernel k) ≡ true)

pub close_session-IsSound :
    {base : Fixed} (sid : ℕ) (r : Reactor) → IsSound base r → IsSound base (close_session sid r)
unfolding close_session close_found
close_session-IsSound {base} sid r sound = elim (Option-cases (lookup sid r.sessions)) [
  | inl missing ↦ rw (close_session, missing) sound
  | inr (s, there) ↦
      rw (close_session, there)
        (record {
          linked = AreLinked-erase sound.linked sid s there;
          fresh = AreFresh-erase sound.fresh sid (fd_key s.fd);
          owns = AreHeld-close r.calls r.fd_to_sid sound.owns s.fd;
          some_worker = sound.some_worker;
          queues = same_queues s.authed s;
          same = same_fixed s.authed s;
        })
]
  where
    same_queues :
        (b : Bool) (s : Session)
        → r.worker_count
          ≤ length
              (if b
                then record (r.ctx) { router = Router.remove_session s.sid s.nid r.ctx.router }
                else r.ctx).recv_queues
    same_queues true s = sound.queues
    same_queues false s = sound.queues

    same_fixed :
        (b : Bool) (s : Session)
        → fixed base.coming (record r {
          ctx =
              if b
              then record (r.ctx) { router = Router.remove_session s.sid s.nid r.ctx.router }
              else r.ctx;
        })
          ≡ base
    same_fixed true s = sound.same
    same_fixed false s = sound.same

-- The clock does not matter, and most calls do not.
pub tick-IsSound : {base : Fixed} (r : Reactor) → IsSound base r → IsSound base (tick r)
tick-IsSound r sound = record {
  linked = sound.linked;
  fresh = sound.fresh;
  owns = sound.owns;
  some_worker = sound.some_worker;
  queues = sound.queues;
  same = sound.same;
}

pub call-IsSound :
    {base : Fixed} (c : Call) (r : Reactor) → IsNeutral c → IsSound base r → IsSound base (call c r)
call-IsSound c r neutral sound = record {
  linked = sound.linked;
  fresh = sound.fresh;
  owns = AreHeld-neutral r.calls r.fd_to_sid sound.owns c neutral;
  some_worker = sound.some_worker;
  queues = sound.queues;
  same = sound.same;
}

-- A session is changed in place.
pub put_session-IsSound :
    {base : Fixed} (k : ℕ) (s s' : Session) (r : Reactor)
    → IsSound base r
    → lookup k r.sessions ≡ some s
    → s'.sid ≡ s.sid
    → s'.fd ≡ s.fd
    → IsSound base (put_session k s' r)
put_session-IsSound k s s' r sound there same_sid same_fd = record {
  linked = AreLinked-put sound.linked k s s' there same_sid same_fd;
  fresh = AreFresh-put sound.fresh k s s' there;
  owns = sound.owns;
  some_worker = sound.some_worker;
  queues = sound.queues;
  same = sound.same;
}

-- What a step on the session at `k` leaves where it does not use an erased session: the session is
-- there, or it is closed and D holds.
abbrev pub Stays : Fixed → Type 0 → ℕ → ℕ → Reactor → Type 0
Stays base D n k r = IsSound base r × (IsLive D n k r ⊎ (D × (lookup k r.sessions ≡ none)))

abbrev pub Keeps : Fixed → Type 0 → ℕ → ℕ → Run Reactor → Type 0
Keeps base D n k m = Reaches D (Stays base D n k) m

pub closed-Stays :
    (base : Fixed) (D : Type 0) (n k : ℕ) (s : Session) (r : Reactor)
    → IsSound base r
    → lookup k r.sessions ≡ some s
    → D
    → Stays base D n k (close_session s.sid r)
closed-Stays base D n k s r sound there why = (
  close_session-IsSound s.sid r sound,
  inr (
    why,
    ap (λ j. lookup k (close_session j r).sessions) (sound.linked.own k s there)
        ∙ close_session-gone k r,
  ),
)

-- A use of a session that may have been closed.
pub access-Keeps :
    {B : Type 0} (base : Fixed) (D : Type 0) (Q : B → Type 0) (n k : ℕ) (r : Reactor)
    (f : Session → Run B)
    → Stays base D n k r
    → ((s : Session) → lookup k r.sessions ≡ some s → Known D n s → Reaches D Q (f s))
    → Reaches D Q (deref k r >>= f)
access-Keeps base D Q n k r f (sound, inl (s, there, known)) rest =
    Reaches-deref D Q k s r f there (rest s there known)
access-Keeps base D Q n k r f (sound, inr (d, missing)) rest = rw missing d
