-- ===== src/Hub/Reactor/Laws/Eager.antt =====
-- HandleWritable where the kernel takes some bytes in each send: everything goes out.
-- The kernel takes some bytes in each send.
use hi_im_core.Prelude.{
  Bool, Bool-cases, List, Option, [], ap, append-nil, arith, done, drop, false, inl, inr, is_empty,
  length, lookup, lt→ltb, not, refl, some, suc, sym, take, take-append-drop, true, zero, ℕ, ◌++◌,
  ◌+◌, ◌<◌, ◌>>=◌, ◌∙◌, ◌∷◌, ◌≡◌,
}
use hi_im_core.Hub.Reactor.{
  Call, Reactor, Session, call, deref, epoll_mod, fd_key, put_session, tick, touch, update_interest,
  wrote,
}
use hi_im_core.Hub.Reactor.Laws.Linked.{lookup-insert_same}
use hi_im_core.Hub.Reactor.Laws.Sending.{Ends, bytes_to, bytes_to-append, bytes_to-wrote, shorter}
use hi_im_core.Hub.Reactor.Output.{
  Kernel, after_send, handle_writable, send_bytes, sent, write_loop,
}

abbrev pub IsEager : Kernel → Type 0
IsEager kernel = (k : ℕ) → (m : ℕ) × (0 < m) × (kernel k ≡ sent m)

-- The session has nothing left to send, `bytes` went out after what was sent before, and the context
-- is as it was.
abbrev pub Written : ℕ → Session → List ℕ → Reactor → Reactor → Type 0
Written k s bytes r r' =
    (lookup k r'.sessions ≡ some (record s { outbuf = [] }))
    × (bytes_to (fd_key s.fd) r'.calls ≡ bytes_to (fd_key s.fd) r.calls ++ bytes)
    × (r'.ctx ≡ r.ctx)
    × (r'.idx ≡ r.idx)

nothing_left : (l : List ℕ) → is_empty l ≡ true → l ≡ []
nothing_left [] h = refl
nothing_left (x ∷ l) h = cc

bytes_to-mod :
    (key : ℕ) (calls : List Call) (fd : Option ℕ) (want_read want_write : Bool)
    → bytes_to key (calls ++ (epoll_mod fd want_read want_write ∷ [])) ≡ bytes_to key calls
unfolding bytes_to
bytes_to-mod key calls fd want_read want_write =
    bytes_to-append key calls (epoll_mod fd want_read want_write ∷ []) ∙ append-nil _

-- A send of m bytes, and the rest of them after it.
took-Written :
    (k m : ℕ) (s : Session) (r r' : Reactor)
    → Written k
        (record s { outbuf = drop m s.outbuf })
        (drop m s.outbuf)
        (put_session k
          (record s { outbuf = drop m s.outbuf })
          (call (wrote s.fd (take m s.outbuf)) (tick r)))
        r'
    → Written k s s.outbuf r r'
took-Written k m s r r' (there, out, same_ctx, same_idx) = (
  there,
  out
      ∙ bytes_to-wrote s.fd (take m s.outbuf) (drop m s.outbuf) r.calls
      ∙ ap (λ l. bytes_to (fd_key s.fd) r.calls ++ l) (take-append-drop m s.outbuf),
  same_ctx,
  same_idx,
)

module _ (kernel : Kernel) (eager : IsEager kernel) where
  -- A round of the loop on a session that is there.
  round :
      (fuel k : ℕ) (s : Session) (r : Reactor)
      → lookup k r.sessions ≡ some s
      → write_loop kernel (suc fuel) k r ≡ elim (is_empty s.outbuf) [
        | true ↦ done (update_interest s true (not (is_empty s.outbuf)) r)
        | false ↦ after_send (kernel r.clock) k s r (write_loop kernel fuel k)
      ]
  unfolding write_loop
  round fuel k s r there = rw (there, write_loop)

  write_loop-Written :
      (fuel k : ℕ) (s : Session) (r : Reactor)
      → length s.outbuf < fuel
      → lookup k r.sessions ≡ some s
      → Ends (write_loop kernel fuel k r) (Written k s s.outbuf r)
  unfolding write_loop update_interest
  write_loop-Written zero k s r enough there = absurd (omega arith)
  write_loop-Written (suc fuel) k s r enough there = elim (Bool-cases (is_empty s.outbuf)) [
    | inl over ↦
        let none_left = nothing_left s.outbuf over in
        (
          update_interest s true false r,
          round fuel k s r there ∙ rw over (rw over),
          (
            there ∙ ap (λ l. some (record s { outbuf = l })) none_left,
            bytes_to-mod (fd_key s.fd) r.calls s.fd true false
                ∙ sym (append-nil _)
                ∙ ap (λ l. bytes_to (fd_key s.fd) r.calls ++ l) (sym none_left),
            refl,
            refl,
          ),
        )
    | inr more ↦
        let (m, some_taken, takes) = eager r.clock in
        let (r', ends, out) =
          write_loop-Written fuel k (record s { outbuf = drop m s.outbuf })
            (put_session k (record s { outbuf = drop m s.outbuf })
              (call (wrote s.fd (take m s.outbuf)) (tick r)))
            (shorter kernel m fuel s.outbuf some_taken more enough)
            (lookup-insert_same k _ r.sessions) in
        (
          r',
          round fuel k s r there ∙ rw more (rw takes (rw (lt→ltb 0 m some_taken, after_send) ends)),
          took-Written k m s r r' out,
        )
  ]

  handle_writable_there :
      (k : ℕ) (s : Session) (r : Reactor)
      → lookup k r.sessions ≡ some s
      → lookup (fd_key s.fd) r.fd_to_sid ≡ some k
      → handle_writable kernel s.fd r ≡ write_loop kernel (length s.outbuf + 1) k r
  unfolding handle_writable touch
  handle_writable_there k s r there leads = opened ∙ reached
    where
      touched : touch k r ≡ r
      touched = rw (there, touch)

      opened :
          handle_writable kernel s.fd r
          ≡ (deref k (touch k r) >>= λ s'. write_loop kernel (length s'.outbuf + 1) k (touch k r))
      opened = rw (leads, handle_writable)

      reached :
          (deref k (touch k r) >>= λ s'. write_loop kernel (length s'.outbuf + 1) k (touch k r))
          ≡ write_loop kernel (length s.outbuf + 1) k r
      reached = rw touched (rw there)

  -- SendBytes on a session that both tables have.
  pub send_bytes-Written :
      (k b : ℕ) (bytes : List ℕ) (s : Session) (r : Reactor)
      → lookup k r.sessions ≡ some s
      → lookup (fd_key s.fd) r.fd_to_sid ≡ some k
      → Ends (send_bytes kernel k (b ∷ bytes) r) (Written k s (s.outbuf ++ (b ∷ bytes)) r)
  unfolding send_bytes handle_writable touch update_interest
  send_bytes-Written k b bytes s r there leads =
      let s' : Session = record s { outbuf = s.outbuf ++ (b ∷ bytes) } in
      let r' = update_interest s' true true (put_session k s' r) in
      let there' : lookup k r'.sessions ≡ some s' = lookup-insert_same k s' r.sessions in
      let (r'', ends, (left, out, same_ctx, same_idx)) =
        write_loop-Written (length s'.outbuf + 1) k s' r' (omega arith) there' in
      (
        r'',
        rw there (handle_writable_there k s' r' there' leads ∙ ends),
        (
          left,
          out ∙ ap (λ l. l ++ s'.outbuf) (bytes_to-mod (fd_key s.fd) r.calls s.fd true true),
          same_ctx,
          same_idx,
        ),
      )
