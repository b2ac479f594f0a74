-- ===== src/Hub/Reactor/Laws/Writing.antt =====
-- What the functions of a reactor that send keep.
use hi_im_core.Prelude.{
  Bool, List, Run, [], arith, dec_lt, done, drop, false, inl, is_empty, length, le→not_ltb, lookup,
  lt→ltb, not, refl, some, suc, take, true, zero, ℕ, ◌++◌, ◌+◌, ◌<◌, ◌∷◌, ◌≡◌,
}
use hi_im_core.Hub.Reactor.{
  Reactor, Session, call, epoll_mod, put_session, tick, touch, update_interest, wrote,
}
use hi_im_core.Hub.Reactor.Laws.Held.{epoll_mod-IsNeutral, wrote-IsNeutral}
use hi_im_core.Hub.Reactor.Laws.Linked.{lookup-insert_same}
use hi_im_core.Hub.Reactor.Laws.Sending.{shorter}
use hi_im_core.Hub.Reactor.Laws.Sound.{
  Failure, Fixed, IsSound, Keeps, Known, Reaches-deref, Stays, access-Keeps, call-IsSound,
  closed-Stays, fails, put_session-IsSound, tick-IsSound,
}
use hi_im_core.Hub.Reactor.Output.{
  Kernel, SendResult, after_send, handle_writable, send_bytes, send_failed, sent, would_block,
  write_loop,
}

module _ (kernel : Kernel) (base : Fixed) (D : Type 0) (failed : Failure kernel → D) (n : ℕ) where
  after_send-Keeps :
      (result : SendResult) (k : ℕ) (s : Session) (r : Reactor) (continue : Reactor → Run Reactor)
      → (fails result ≡ true → Failure kernel)
      → IsSound base r
      → lookup k r.sessions ≡ some s
      → Known D n s
      → ((m : ℕ)
          → 0 < m
          → Keeps base D n k (
              continue (
                put_session k
                  (record s { outbuf = drop m s.outbuf })
                  (call (wrote s.fd (take m s.outbuf)) (tick r)))))
      → Keeps base D n k (after_send result k s r continue)
  unfolding update_interest
  after_send-Keeps (sent m) k s r continue failure sound there known rest = elim (dec_lt 0 m) [
    | yes p ↦ rw (after_send, lt→ltb 0 m p) (rest m p)
    | no z ↦
        rw (after_send, le→not_ltb 0 m (omega arith))
          (closed-Stays base D n k s (tick r) (tick-IsSound r sound) there
            (failed (failure (rw (le→not_ltb 0 m (omega arith)) refl))))
  ]
  after_send-Keeps would_block k s r continue failure sound there known rest = (
    call-IsSound (epoll_mod s.fd true (not (is_empty s.outbuf))) (tick r)
        (epoll_mod-IsNeutral s.fd true (not (is_empty s.outbuf))) (tick-IsSound r sound),
    inl (s, there, known),
  )
  after_send-Keeps send_failed k s r continue failure sound there known rest =
      closed-Stays base D n k s (tick r) (tick-IsSound r sound) there (failed (failure refl))

  -- One round of the write loop, and what follows a send of m bytes.
  round-Keeps :
      (fuel k : ℕ) (s : Session) (r : Reactor) (b : Bool)
      → is_empty s.outbuf ≡ b
      → IsSound base r
      → lookup k r.sessions ≡ some s
      → Known D n s
      → ((m : ℕ)
          → 0 < m
          → is_empty s.outbuf ≡ false
          → (r' : Reactor) → IsSound base r'
          → lookup k r'.sessions ≡ some (record s { outbuf = drop m s.outbuf })
          → Keeps base D n k (write_loop kernel fuel k r'))
      → Keeps base D n k (elim b [
        | true ↦ done (update_interest s true (not (is_empty s.outbuf)) r)
        | false ↦ after_send (kernel r.clock) k s r (write_loop kernel fuel k)
      ])
  unfolding update_interest
  round-Keeps fuel k s r true nothing sound there known rest = (
    call-IsSound (epoll_mod s.fd true (not (is_empty s.outbuf))) r
        (epoll_mod-IsNeutral s.fd true (not (is_empty s.outbuf))) sound,
    inl (s, there, known),
  )
  round-Keeps fuel k s r false some_bytes sound there known rest =
      after_send-Keeps (kernel r.clock) k s r (write_loop kernel fuel k)
        (λ failure. (r.clock, failure)) sound there known
        (λ m p.
          rest m p some_bytes _
            (put_session-IsSound k s (record s { outbuf = drop m s.outbuf })
              (call (wrote s.fd (take m s.outbuf)) (tick r))
              (call-IsSound (wrote s.fd (take m s.outbuf)) (tick r)
                (wrote-IsNeutral s.fd (take m s.outbuf)) (tick-IsSound r sound))
              there refl refl)
            (lookup-insert_same k _ r.sessions))

  write_loop-Keeps :
      (fuel k : ℕ) (s : Session) (r : Reactor)
      → length s.outbuf < fuel
      → IsSound base r
      → lookup k r.sessions ≡ some s
      → Known D n s
      → Keeps base D n k (write_loop kernel fuel k r)
  unfolding write_loop
  write_loop-Keeps zero k s r enough sound there known = absurd (omega arith)
  write_loop-Keeps (suc fuel) k s r enough sound there known =
      Reaches-deref D (Stays base D n k) k s r _ there (
        round-Keeps fuel k s r (is_empty s.outbuf) refl sound there known
          (λ m p some_bytes r' sound' there'.
            write_loop-Keeps fuel k (record s { outbuf = drop m s.outbuf }) r'
              (shorter kernel m fuel s.outbuf p some_bytes enough) sound' there' known))

  pub handle_writable-Keeps :
      (k : ℕ) (s : Session) (r : Reactor)
      → IsSound base r
      → lookup k r.sessions ≡ some s
      → Known D n s
      → Keeps base D n k (handle_writable kernel s.fd r)
  unfolding handle_writable touch
  handle_writable-Keeps k s r sound there known =
      rw (handle_writable, sound.linked.listed k s there, touch, there)
        (Reaches-deref D (Stays base D n k) k s r
          (λ s'. write_loop kernel (length s'.outbuf + 1) k r) there
          (write_loop-Keeps (length s.outbuf + 1) k s r (omega arith) sound there known))

  pub send_bytes-Keeps :
      (k : ℕ) (bytes : List ℕ) (r : Reactor)
      → Stays base D n k r
      → Keeps base D n k (send_bytes kernel k bytes r)
  unfolding send_bytes update_interest
  send_bytes-Keeps k [] r stays = stays
  send_bytes-Keeps k (b ∷ bytes) r stays =
      access-Keeps base D (Stays base D n k) n k r _ stays (λ s there known.
        handle_writable-Keeps k (record s { outbuf = s.outbuf ++ (b ∷ bytes) })
          (update_interest (record s { outbuf = s.outbuf ++ (b ∷ bytes) }) true true
            (put_session k (record s { outbuf = s.outbuf ++ (b ∷ bytes) }) r))
          (call-IsSound _ _ (epoll_mod-IsNeutral s.fd true true) (
            put_session-IsSound k s (record s { outbuf = s.outbuf ++ (b ∷ bytes) }) r stays.0 there
              refl refl))
          (lookup-insert_same k _ r.sessions) known)
