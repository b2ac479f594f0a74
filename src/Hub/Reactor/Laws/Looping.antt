-- ===== src/Hub/Reactor/Laws/Looping.antt =====
-- The loops of HandleReadable on a session: they end, and they keep the tables of the reactor.
use hi_im_core.Wire.FrameBuffer
use hi_im_core.Prelude.{
  Bool, Bool-cases, List, Run, [], arith, done, false, inl, inr, is_empty, length, length-drop,
  lookup, refl, some, suc, true, zero, ℕ, ◌+◌, ◌-◌, ◌<◌, ◌>>=◌, ◌∷◌, ◌≡◌, ◌≤◌,
}
use hi_im_core.Hub.Reactor.{Reactor, Session, put_session}
use hi_im_core.Hub.Reactor.Input.{RecvEnv, handle_frame, pop_frames, read_loop}
use hi_im_core.Hub.Reactor.Laws.Reading.{Answers}
use hi_im_core.Hub.Reactor.Laws.Receiving.{handle_frame-Answers, rebuffered-Stays}
use hi_im_core.Hub.Reactor.Laws.Sound.{
  Failure, Fixed, IsSound, Known, Reaches, Reaches-then, Stays, access-Keeps, close_session-IsSound,
}
use hi_im_core.Hub.Reactor.Output.{Kernel}
use hi_im_core.Wire.Bytes.{Endian}
use hi_im_core.Wire.FrameBuffer.{FrameBuffer, FrameView}
use hi_im_core.Wire.FrameBuffer.Pop.{delivers, resets, try_pop_frame-Outcome, waits}
use hi_im_core.Wire.Header.{header_field_host}

module _ (e : Endian) (kernel : Kernel) (others : RecvEnv) (base : Fixed) (D : Type 0)
    (failed : Failure kernel → D) (k : ℕ) where
  -- What follows the answer to a frame, if the rest of the loop is right.
  answered_frame-Answers :
      (fuel m n : ℕ) (answer : Bool × Reactor)
      → m ≤ n
      → Answers base D m k answer
      → ((r' : Reactor)
          → Stays base D m k r'
          → Reaches D (Answers base D n k) (pop_frames e kernel others fuel k r'))
      → Reaches D (Answers base D n k) (elim answer.0 [
        | true ↦ pop_frames e kernel others fuel k answer.1
        | false ↦ done (false, answer.1)
      ])
  answered_frame-Answers fuel m n (true, r) le (sound, stays) rest = rest r (stays refl)
  answered_frame-Answers fuel m n (false, r) le (sound, stays) rest = (sound, λ h. absurd (cc h))

  popped_frame-Answers :
      (fuel m n : ℕ) (frame : FrameView) (r : Reactor)
      → m ≤ n
      → Stays base D m k r
      → ((r' : Reactor)
          → Stays base D m k r'
          → Reaches D (Answers base D n k) (pop_frames e kernel others fuel k r'))
      → Reaches D (Answers base D n k) (
          handle_frame e kernel others k frame r >>= λ answer. elim answer.0 [
            | true ↦ pop_frames e kernel others fuel k answer.1
            | false ↦ done (false, answer.1)
          ])
  popped_frame-Answers fuel m n frame r le stays rest =
      Reaches-then D (Answers base D m k) (Answers base D n k)
        (handle_frame e kernel others k frame r) _
        (handle_frame-Answers e kernel others base D failed m k frame r stays)
        (λ answer well. answered_frame-Answers fuel m n answer le well rest)

  pop_frames-Answers :
      (fuel n m : ℕ) (r : Reactor)
      → n < fuel
      → n ≤ m
      → Stays base D n k r
      → Reaches D (Answers base D m k) (pop_frames e kernel others fuel k r)
  unfolding pop_frames
  pop_frames-Answers zero n m r enough le stays = absurd (omega arith)
  pop_frames-Answers (suc fuel) n m r enough le stays =
      access-Keeps base D (Answers base D m k) n k r _ stays (λ s there known.
        elim (try_pop_frame-Outcome e s.fb.buf) [
          | waits eq ↦ rw eq (kept s s.fb.buf there known (omega (arith, known.1)))
          | resets many bad eq ↦ rw eq (kept s [] there known (omega arith))
          | delivers hdr good room eq ↦ rw eq (
              popped_frame-Answers fuel (n - 1) m _ _ (omega arith)
                (rebuffered-Stays base D n (n - 1) k s _ r stays.0 there known (
                  omega (
                    arith,
                    known.1,
                    room,
                    length-drop (20 + header_field_host e hdr.length_field) s.fb.buf,
                  )))
                (λ r' stays'.
                  pop_frames-Answers fuel (n - 1) m r' (omega (arith, known.1, room)) (omega arith)
                    stays'))
        ])
    where
      kept :
          (s : Session) (b : List ℕ)
          → lookup k r.sessions ≡ some s
          → Known D n s
          → length b ≤ m
          → Answers base D m k (true, put_session k (record s { fb = record { buf = b } }) r)
      kept s b there known few =
          let stays' =
            rebuffered-Stays base D n m k s (record { buf = b }) r stays.0 there known few in
          (stays'.0, λ h. stays')

  -- What follows the answer of the loop over the frames.
  answered-IsSound :
      (m : ℕ) (answer : Bool × Reactor) (continue : Reactor → Run Reactor)
      → Answers base D m k answer
      → ((r' : Reactor) → Stays base D m k r' → Reaches D (IsSound base) (continue r'))
      → Reaches D
          (IsSound base)
          (elim answer.0 [ true ↦ continue answer.1 | false ↦ done answer.1 ])
  answered-IsSound m (true, r) continue (sound, stays) rest = rest r (stays refl)
  answered-IsSound m (false, r) continue (sound, stays) rest = sound

  pub read_loop-IsSound :
      (chunks : List (List ℕ)) (more_later : Bool) (n : ℕ) (r : Reactor)
      → Stays base D n k r
      → Reaches D (IsSound base) (read_loop e kernel others chunks more_later k r)
  unfolding read_loop
  read_loop-IsSound [] true n r stays =
      access-Keeps base D (IsSound base) n k r _ stays (λ s there known. stays.0)
  read_loop-IsSound [] false n r stays =
      access-Keeps base D (IsSound base) n k r _ stays
        (λ s there known. close_session-IsSound s.sid r stays.0)
  read_loop-IsSound (chunk ∷ chunks) more_later n r stays =
      access-Keeps base D (IsSound base) n k r _ stays (λ s there known.
        elim (Bool-cases (is_empty chunk)) [
          | inl over ↦ rw over (close_session-IsSound s.sid r stays.0)
          | inr some_bytes ↦ rw some_bytes (
              let fb = FrameBuffer.append s.fb chunk in
              Reaches-then D (Answers base D (length fb.buf) k) (IsSound base)
                (pop_frames e kernel others (length fb.buf + 1) k
                  (put_session k (record s { fb = fb }) r))
                _
                (pop_frames-Answers (length fb.buf + 1) (length fb.buf) (length fb.buf) _
                  (omega arith) (omega arith)
                  (rebuffered-Stays base D n (length fb.buf) k s fb r stays.0 there known
                    (omega arith)))
                (λ answer well.
                  answered-IsSound (length fb.buf) answer _ well
                    (λ r' stays'. read_loop-IsSound chunks more_later (length fb.buf) r' stays')))
        ])
