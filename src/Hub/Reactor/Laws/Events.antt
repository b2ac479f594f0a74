-- ===== src/Hub/Reactor/Laws/Events.antt =====
-- What a reactor keeps from event to event.
use hi_im_core.Prelude.{
  Bool, Bool-cases, List, Option, arith, done, false, inl, inr, length, lookup, ne→not_==, none,
  refl, some, ℕ, ◌≡◌, ◌≢◌, ◌⊎◌,
}
use hi_im_core.Hub.Reactor.{Reactor, Session, fd_key, touch}
use hi_im_core.Hub.Reactor.Input.{RecvEnv, handle_readable, read_loop}
use hi_im_core.Hub.Reactor.Laws.Looping.{read_loop-IsSound}
use hi_im_core.Hub.Reactor.Laws.Sound.{Failure, Fixed, IsSound, Known, Reaches}
use hi_im_core.Hub.Reactor.Output.{Kernel}
use hi_im_core.Wire.Bytes.{Endian}

-- The descriptor leads to a session that has not authenticated.
abbrev pub Anonymous : ℕ → Reactor → Type 0
Anonymous fd r =
    (k : ℕ) × (s : Session) × (lookup (fd_key (some fd)) r.fd_to_sid ≡ some k)
    × (lookup k r.sessions ≡ some s)
    × (s.authed ≡ false)

-- A use of an erased session has one of these reasons.
abbrev pub Reason : Kernel → ℕ → Reactor → Type 0
Reason kernel fd r = Failure kernel ⊎ Anonymous fd r

-- The session is authenticated, or the event is of one that is not.
Known-at_start :
    (kernel : Kernel) (fd k : ℕ) (s : Session) (r : Reactor)
    → lookup (fd_key (some fd)) r.fd_to_sid ≡ some k
    → lookup k r.sessions ≡ some s
    → Known (Reason kernel fd r) (length s.fb.buf) s
Known-at_start kernel fd k s r leads there = elim (Bool-cases s.authed) [
  | inl authed ↦ (inl authed, omega arith)
  | inr anonymous ↦ (inr (inr (k, s, leads, there, anonymous)), omega arith)
]

-- EPOLLIN on the descriptor of a client keeps the tables of a reactor in agreement, whatever bytes
-- arrive and whatever the kernel answers: the call ends, no `.at` of it throws, and it uses an erased
-- session only if a send fails or if the session has not authenticated before the call. The number
-- and the wakeup of the reactor, and the send and connection queues of its plane, stay as they are.
pub handle_readable-IsSound :
    (e : Endian) (kernel : Kernel) (others : RecvEnv) (fuel fd : ℕ) (chunks : List (List ℕ))
    (more_later : Bool) (base : Fixed) (r : Reactor)
    → fd ≢ r.wakeup_fd
    → IsSound base r
    → Reaches
        (Reason kernel fd r)
        (IsSound base)
        (handle_readable e kernel others fuel fd chunks more_later r)
unfolding handle_readable touch
handle_readable-IsSound e kernel others fuel fd chunks more_later base r other_fd sound =
    rw (handle_readable, ne→not_== fd r.wakeup_fd other_fd)
      (found (lookup (fd_key (some fd)) r.fd_to_sid) refl)
  where
    found :
        (o : Option ℕ)
        → lookup (fd_key (some fd)) r.fd_to_sid ≡ o
        → Reaches (Reason kernel fd r) (IsSound base) (elim o [
          | none ↦ done r
          | some k ↦ read_loop e kernel others chunks more_later k (touch k r)
        ])
    found none leads = sound
    found (some k) leads =
        let (s, there, its_fd) = sound.linked.owned (fd_key (some fd)) k leads in
        rw (touch, there)
          (read_loop-IsSound e kernel others base (Reason kernel fd r) (λ failure. inl failure) k
            chunks more_later (length s.fb.buf) r
            (sound, inl (s, there, Known-at_start kernel fd k s r leads there)))
