-- ===== src/Hub/Reactor/Laws/Sending.antt =====
-- The loop of HandleWritable: it ends, and it neither loses nor reorders bytes.
use hi_im_core.Prelude.{
  ==_refl, Bool, Bool-cases, List, Option, Option-cases, Run, [], ap, append-nil, append_assoc,
  arith, dec_lt, done, drop, false, if◌then◌else◌, inl, inr, is_empty, length, length-drop,
  le→not_ltb, lookup, lookup-erase, lookup-insert, lt→ltb, none, not, refl, some, subst, suc, sym,
  take, take-append-drop, true, zero, ℕ, ◌++◌, ◌+◌, ◌<◌, ◌==◌, ◌>>=◌, ◌∙◌, ◌∷◌, ◌≡◌, ◌≤◌, ◌⊎◌,
}
use hi_im_core.Hub.Reactor.{
  Call, Reactor, Session, call, close_found, close_session, closed, deref, drained_wakeup,
  epoll_add, epoll_del, epoll_mod, fd_key, put_session, tick, touch, tuned, update_interest, wrote,
}
use hi_im_core.Hub.Reactor.Output.{
  Kernel, SendResult, after_send, handle_writable, send_failed, sent, would_block, write_loop,
}

-- The bytes that went out on a descriptor, by its key.
unfoldable pub bytes_to : ℕ → List Call → List ℕ
bytes_to key [] = []
bytes_to key (wrote fd bytes ∷ calls) =
    if fd_key fd == key then bytes ++ bytes_to key calls else bytes_to key calls
bytes_to key (epoll_add fd ∷ calls) = bytes_to key calls
bytes_to key (epoll_mod fd r w ∷ calls) = bytes_to key calls
bytes_to key (epoll_del fd ∷ calls) = bytes_to key calls
bytes_to key (tuned fd ∷ calls) = bytes_to key calls
bytes_to key (closed fd ∷ calls) = bytes_to key calls
bytes_to key (drained_wakeup ∷ calls) = bytes_to key calls

pub bytes_to-append :
    (key : ℕ) (l m : List Call) → bytes_to key (l ++ m) ≡ bytes_to key l ++ bytes_to key m
unfolding bytes_to
bytes_to-append key [] m = refl
bytes_to-append key (wrote fd bytes ∷ l) m =
    ground (arith, bytes_to-append key l m, append_assoc bytes (bytes_to key l) (bytes_to key m))
bytes_to-append key (epoll_add fd ∷ l) m = bytes_to-append key l m
bytes_to-append key (epoll_mod fd a b ∷ l) m = bytes_to-append key l m
bytes_to-append key (epoll_del fd ∷ l) m = bytes_to-append key l m
bytes_to-append key (tuned fd ∷ l) m = bytes_to-append key l m
bytes_to-append key (closed fd ∷ l) m = bytes_to-append key l m
bytes_to-append key (drained_wakeup ∷ l) m = bytes_to-append key l m

-- The answers of send that are an end of the connection: 0, and an error other than EAGAIN or
-- EWOULDBLOCK.
abbrev pub Breaks : SendResult → Type 0
Breaks (sent n) = n ≡ 0
Breaks would_block = ⊥
Breaks send_failed = Unit {0}

-- How a session `s` at the key `k` is left: gone, and then a send from the reactor's clock on has
-- met the end of the connection; or as it was except that the front of its buffer has moved to the
-- descriptor, which epoll watches for writing just when some bytes still wait.
abbrev pub IsSent : Kernel → ℕ → Session → Reactor → Reactor → Type 0
IsSent kernel k s r r' =
    ((lookup k r'.sessions ≡ none) × (t : ℕ) × (r.clock ≤ t) × Breaks (kernel t))
    ⊎ ((out : List ℕ) × (before : List Call) × (lookup k r'.sessions
          ≡ some (record s { outbuf = out }))
        × (bytes_to (fd_key s.fd) r'.calls ++ out ≡ bytes_to (fd_key s.fd) r.calls ++ s.outbuf)
        × (r'.calls ≡ before ++ (epoll_mod s.fd true (not (is_empty out)) ∷ [])))

pub close_session-gone : (k : ℕ) (r : Reactor) → lookup k (close_session k r).sessions ≡ none
unfolding close_session close_found
close_session-gone k r = elim (Option-cases (lookup k r.sessions)) [
  | inl missing ↦ rw (missing, close_session) missing
  | inr (s, found) ↦ rw (found, close_session) (lookup-erase k k r.sessions ∙ rw (==_refl k))
]

-- Some `A` is reached and has the property.
abbrev pub Ends : {A : Type 0} → Run A → (A → Type 0) → Type 0
Ends {A} m P = (a : A) × (m ≡ done a) × P a

pub bytes_to-wrote :
    (fd : Option ℕ) (bytes rest : List ℕ) (calls : List Call)
    → bytes_to (fd_key fd) (calls ++ (wrote fd bytes ∷ [])) ++ rest
      ≡ bytes_to (fd_key fd) calls ++ (bytes ++ rest)
unfolding bytes_to
bytes_to-wrote fd bytes rest calls =
    rw
      (
        bytes_to-append (fd_key fd) calls (wrote fd bytes ∷ []),
        ==_refl (fd_key fd),
        append-nil bytes,
      )
      (append_assoc (bytes_to (fd_key fd) calls) bytes rest)

pub Ends-by : {A : Type 0} {m m' : Run A} {P : A → Type 0} → m ≡ m' → Ends m' P → Ends m P
Ends-by eq (a, ends, p) = (a, eq ∙ ends, p)

module _ (kernel : Kernel) (k : ℕ) (s : Session) (r : Reactor) (own : s.sid ≡ k) where
  -- The session and the calls after a send that took n bytes.
  abbrev took : ℕ → Reactor
  took n =
      put_session k (record s { outbuf = drop n s.outbuf })
        (call (wrote s.fd (take n s.outbuf)) (tick r))

  took-IsSent :
      (n : ℕ) (r' : Reactor)
      → IsSent kernel k (record s { outbuf = drop n s.outbuf }) (took n) r'
      → IsSent kernel k s r r'
  took-IsSent n r' (inl (gone, t, later, breaks)) = inl (gone, t, omega (arith, later), breaks)
  took-IsSent n r' (inr (out, before, there, conserved, watched)) = inr (
    out,
    before,
    there,
    conserved
        ∙ bytes_to-wrote s.fd (take n s.outbuf) (drop n s.outbuf) r.calls
        ∙ ap (λ l. bytes_to (fd_key s.fd) r.calls ++ l) (take-append-drop n s.outbuf),
    watched,
  )

  took-Ends :
      (n : ℕ) (m : Run Reactor)
      → Ends m (IsSent kernel k (record s { outbuf = drop n s.outbuf }) (took n))
      → Ends m (IsSent kernel k s r)
  took-Ends n m (r', ends, there) = (r', ends, took-IsSent n r' there)

  close_own-gone : lookup k (close_session s.sid (tick r)).sessions ≡ none
  close_own-gone =
      ap (λ j. lookup k (close_session j (tick r)).sessions) own ∙ close_session-gone k (tick r)

  interest-IsSent :
      (w : Bool) (r' : Reactor)
      → not (is_empty s.outbuf) ≡ w
      → r'.calls ≡ r.calls
      → lookup k r'.sessions ≡ some s
      → IsSent kernel k s r (update_interest s true w r')
  unfolding bytes_to update_interest
  interest-IsSent w r' waiting same found = inr (
    s.outbuf,
    r'.calls,
    found,
    ap (λ l. l ++ s.outbuf)
        (ap (λ l. bytes_to (fd_key s.fd) (l ++ (epoll_mod s.fd true w ∷ []))) same
          ∙ bytes_to-append (fd_key s.fd) r.calls (epoll_mod s.fd true w ∷ [])
          ∙ append-nil _),
    ap (λ b. r'.calls ++ (epoll_mod s.fd true b ∷ [])) (sym waiting),
  )

  after_send-IsSent :
      (result : SendResult) (continue : Reactor → Run Reactor)
      → kernel r.clock ≡ result
      → lookup k r.sessions ≡ some s
      → ((n : ℕ) → 0 < n → Ends (continue (took n)) (IsSent kernel k s r))
      → Ends (after_send result k s r continue) (IsSent kernel k s r)
  after_send-IsSent (sent n) continue answer found rest = elim (dec_lt 0 n) [
    | yes p ↦ rw (lt→ltb 0 n p, after_send) (rest n p)
    | no z ↦
        rw (le→not_ltb 0 n (omega arith), after_send)
          (
            close_session s.sid (tick r),
            refl,
            inl (close_own-gone, r.clock, omega arith, subst Breaks (sym answer) (omega arith)),
          )
  ]
  after_send-IsSent would_block continue answer found rest = (
    update_interest s true (not (is_empty s.outbuf)) (tick r),
    refl,
    interest-IsSent (not (is_empty s.outbuf)) (tick r) refl refl found,
  )
  after_send-IsSent send_failed continue answer found rest = (
    close_session s.sid (tick r),
    refl,
    inl (close_own-gone, r.clock, omega arith, subst Breaks (sym answer) tt),
  )

module _ (kernel : Kernel) where
  pub shorter :
      (n fuel : ℕ) (l : List ℕ)
      → 0 < n
      → is_empty l ≡ false
      → length l < suc fuel
      → length (drop n l) < fuel
  shorter n fuel [] p ne enough = absurd (ground arith)
  shorter n fuel (x ∷ l) p ne enough = omega (arith, length-drop n (x ∷ l))

  write_loop-IsSent :
      (fuel k : ℕ) (s : Session) (r : Reactor)
      → length s.outbuf < fuel
      → s.sid ≡ k
      → lookup k r.sessions ≡ some s
      → Ends (write_loop kernel fuel k r) (IsSent kernel k s r)
  unfolding write_loop
  write_loop-IsSent zero k s r enough own found = absurd (omega arith)
  write_loop-IsSent (suc fuel) k s r enough own found = elim (Bool-cases (is_empty s.outbuf)) [
    | inl e ↦ Ends-by (step found ∙ rw e (rw e)) (
      update_interest s true false r,
      refl,
      interest-IsSent kernel k s r own false r (rw e refl) refl found,
    )
    | inr ne ↦ Ends-by (step found ∙ rw ne) (
        after_send-IsSent kernel k s r own (kernel r.clock) (write_loop kernel fuel k) refl found
          (λ n p.
            took-Ends kernel k s r own n (write_loop kernel fuel k (took kernel k s r own n)) (
              write_loop-IsSent fuel k (record s { outbuf = drop n s.outbuf })
                (took kernel k s r own n) (shorter n fuel s.outbuf p ne enough) own
                (lookup-insert k k _ r.sessions ∙ rw (==_refl k)))))
  ]
    where
      step :
          lookup k r.sessions ≡ some s
          → write_loop kernel (suc fuel) k r ≡ elim (is_empty s.outbuf) [
            | true ↦ done (update_interest s true (not (is_empty s.outbuf)) r)
            | false ↦ after_send (kernel r.clock) k s r (write_loop kernel fuel k)
          ]
      step found = rw (found, write_loop)

  -- HandleWritable on the descriptor of a session that both tables have ends, whatever the kernel
  -- answers. Either a send has returned 0 or an error other than EAGAIN and EWOULDBLOCK, and the
  -- session is gone; or nothing of the session but its output buffer has changed, the bytes that have
  -- gone out with those that still wait are the ones there were, in the same order, and the last call
  -- makes epoll watch the descriptor for writing just when some bytes still wait.
  pub handle_writable-IsSent :
      (k : ℕ) (s : Session) (r : Reactor)
      → lookup (fd_key s.fd) r.fd_to_sid ≡ some k
      → lookup k r.sessions ≡ some s
      → s.sid ≡ k
      → Ends (handle_writable kernel s.fd r) (IsSent kernel k s r)
  unfolding handle_writable touch
  handle_writable-IsSent k s r listed found own =
      Ends-by (opened ∙ reached)
        (write_loop-IsSent (length s.outbuf + 1) k s r (omega arith) own found)
    where
      touched : touch k r ≡ r
      touched = rw (found, touch)

      opened :
          handle_writable kernel s.fd r
          ≡ (deref k (touch k r) >>= λ s'. write_loop kernel (length s'.outbuf + 1) k (touch k r))
      opened = rw (listed, handle_writable)

      reached :
          (deref k (touch k r) >>= λ s'. write_loop kernel (length s'.outbuf + 1) k (touch k r))
          ≡ write_loop kernel (length s.outbuf + 1) k r
      reached = rw touched (rw found)
