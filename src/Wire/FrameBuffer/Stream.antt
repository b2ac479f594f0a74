-- ===== src/Wire/FrameBuffer/Stream.antt =====
-- A stream of frames through a FrameBuffer: how TCP cuts the stream into chunks does not matter.
use hi_im_core.Prelude.{
  List, [], ap, append-nil, append_assoc, append_split, arith, dec_lt, drop, length, length-append,
  length-drop, map, none, refl, some, subst, suc, sym, zero, ℕ, ◌++◌, ◌+◌, ◌<◌, ◌∙◌, ◌∷◌, ◌≡◌, ◌≤◌,
}
use hi_im_core.Wire.Bytes.{Endian}
use hi_im_core.Wire.FrameBuffer.{FrameBuffer, FrameView, empty, pop_all, receive, try_pop_frame}
use hi_im_core.Wire.FrameBuffer.Pop.{
  Frame, IsSendable, Outcome, delivers, encode, encode-layout, resets, try_pop_frame-Outcome,
  try_pop_frame-encode, try_pop_frame_prefix, try_pop_frame_short, view, waits,
}
use hi_im_core.Wire.Header.{header_field_host}

module _ (e : Endian) where
  -- What the senders put on the connection.
  abbrev pub encode_all : List Frame → List ℕ
  encode_all [] = []
  encode_all (f ∷ fs) = encode e f ++ encode_all fs

  -- Nothing complete is left in the buffer `b`, of a stream that goes on with the frames.
  abbrev Waiting : List ℕ → List Frame → Type 0
  Waiting b [] = Unit {0}
  Waiting b (f ∷ fs) = length b < length (encode e f)

abbrev pub AllSendable : List Frame → Type 0
AllSendable [] = Unit {0}
AllSendable (f ∷ fs) = IsSendable f × AllSendable fs

abbrev pub concat : List (List ℕ) → List ℕ
concat [] = []
concat (c ∷ cs) = c ++ concat cs

module _ (e : Endian) where
  -- What draining the buffer `b` has done, when `c` is still to come and `fs` are the frames of both.
  record Drained (fuel : ℕ) (b c : List ℕ) (fs : List Frame) : Type 0 where
    done : List Frame
    left : List Frame
    rest : List ℕ
    frames : fs ≡ done ++ left
    result : pop_all e fuel (record { buf = b }) ≡ some (map (view e) done, record { buf = rest })
    stream : rest ++ c ≡ encode_all e left
    waiting : Waiting e rest left
    sendable : AllSendable left

  pop_all_waits :
      (fuel : ℕ) (b : List ℕ) {fb : FrameBuffer}
      → try_pop_frame e (record { buf = b }) ≡ (none, fb)
      → pop_all e (suc fuel) (record { buf = b }) ≡ some ([], fb)
  unfolding pop_all
  pop_all_waits fuel b h = rw (pop_all, h)

  pop_all_delivers :
      (fuel : ℕ) (b : List ℕ) (f : FrameView) (fb : FrameBuffer) (fs : List FrameView)
      (last : FrameBuffer)
      → try_pop_frame e (record { buf = b }) ≡ (some f, fb)
      → pop_all e fuel fb ≡ some (fs, last)
      → pop_all e (suc fuel) (record { buf = b }) ≡ some (f ∷ fs, last)
  unfolding pop_all
  pop_all_delivers fuel b f fb fs last h r = rw (pop_all, h, r)

  -- The bytes of the first frame are not all there yet: they wait.
  drain_short :
      (fuel : ℕ) (b c : List ℕ) (f : Frame) (fs : List Frame)
      → AllSendable (f ∷ fs)
      → b ++ c ≡ encode_all e (f ∷ fs)
      → length b < length (encode e f)
      → Drained (suc fuel) b c (f ∷ fs)
  drain_short fuel b c f fs s eq short = record {
    done = [];
    left = f ∷ fs;
    rest = b;
    frames = refl;
    result = pop_all_waits fuel b (
        try_pop_frame_prefix e b (drop (length b) (encode e f)) s.0
          (append_split b c (encode e f) (encode_all e fs) eq (omega arith)).0 short);
    stream = eq;
    waiting = short;
    sendable = s;
  }

  -- They are there: the frame comes out, and the rest of the buffer is drained.
  drain_long :
      (fuel : ℕ) (b c : List ℕ) (f : Frame) (fs : List Frame)
      → IsSendable f
      → encode e f ++ drop (length (encode e f)) b ≡ b
      → Drained fuel (drop (length (encode e f)) b) c fs
      → Drained (suc fuel) b c (f ∷ fs)
  drain_long fuel b c f fs s eq tail = record {
    done = f ∷ tail.done;
    left = tail.left;
    rest = tail.rest;
    frames = ap (◌∷◌ f) tail.frames;
    result =
        pop_all_delivers fuel b (view e f) (record { buf = drop (length (encode e f)) b })
          (map (view e) tail.done) (record { buf = tail.rest }) popped tail.result;
    stream = tail.stream;
    waiting = tail.waiting;
    sendable = tail.sendable;
  }
    where
      popped :
          try_pop_frame e (record { buf = b })
          ≡ (some (view e f), record { buf = drop (length (encode e f)) b })
      popped =
          subst
            (λ z.
              try_pop_frame e (record { buf = z })
              ≡ (some (view e f), record { buf = drop (length (encode e f)) b }))
            eq (try_pop_frame-encode e (drop (length (encode e f)) b) s)

  pub encode-length : {f : Frame} → IsSendable f → 20 ≤ length (encode e f)
  encode-length s = omega (arith, ap length (encode-layout e s))

  drain :
      (fuel : ℕ) (b c : List ℕ) (fs : List Frame)
      → length b < fuel
      → AllSendable fs
      → b ++ c ≡ encode_all e fs
      → Drained fuel b c fs
  drain zero b c fs h s eq = absurd (omega arith)
  drain (suc fuel) b c [] h s eq = record {
    done = [];
    left = [];
    rest = b;
    frames = refl;
    result =
        pop_all_waits fuel b
          (try_pop_frame_short e b (omega (arith, ap length eq, length-append b c)));
    stream = eq;
    waiting = tt;
    sendable = tt;
  }
  drain (suc fuel) b c (f ∷ fs) h s eq =
      let size = length (encode e f) in
      let tail = drain fuel (drop size b) c fs in
      elim (dec_lt (length b) size) [
        | yes short ↦ drain_short fuel b c f fs s eq short
        | no long ↦
            let cut = append_split (encode e f) (encode_all e fs) b c (sym eq) (omega arith) in
            drain_long fuel b c f fs s.0 cut.0
              (tail (omega (arith, encode-length s.0, length-drop size b)) s.1 (sym cut.1))
      ]

  receive_chunk :
      (b chunk : List ℕ) (chunks : List (List ℕ)) (fs gs : List FrameView) (rest : List ℕ)
      (last : FrameBuffer)
      → pop_all e (suc (length (b ++ chunk))) (record { buf = b ++ chunk })
        ≡ some (fs, record { buf = rest })
      → receive e (record { buf = rest }) chunks ≡ some (gs, last)
      → receive e (record { buf = b }) (chunk ∷ chunks) ≡ some (fs ++ gs, last)
  unfolding receive
  receive_chunk b chunk chunks fs gs rest last p r = rw (receive, p, r)

  map-view-append :
      (xs ys : List Frame) → map (view e) xs ++ map (view e) ys ≡ map (view e) (xs ++ ys)
  map-view-append [] ys = refl
  map-view-append (x ∷ xs) ys = ap (◌∷◌ (view e x)) (map-view-append xs ys)

  -- With the whole stream received nothing can wait.
  nothing_waits :
      (b : List ℕ) (fs : List Frame)
      → b ++ [] ≡ encode_all e fs
      → Waiting e b fs
      → (fs ≡ []) × (b ≡ [])
  nothing_waits b [] eq w = (refl, sym (append-nil b) ∙ eq)
  nothing_waits b (f ∷ fs) eq w = absurd (
      omega
        (arith, ap length (sym (append-nil b) ∙ eq), length-append (encode e f) (encode_all e fs)))

  receive-Waiting :
      (chunks : List (List ℕ)) (b : List ℕ) (fs : List Frame)
      → AllSendable fs
      → b ++ concat chunks ≡ encode_all e fs
      → Waiting e b fs
      → receive e (record { buf = b }) chunks ≡ some (map (view e) fs, empty)
  unfolding receive
  receive-Waiting [] b fs s eq w =
      let (none_left, drained) = nothing_waits b fs eq w in rw (none_left, drained)
  receive-Waiting (chunk ∷ chunks) b fs s eq w =
      let d =
        drain (suc (length (b ++ chunk))) (b ++ chunk) (concat chunks) fs (omega arith) s
          (append_assoc b chunk (concat chunks) ∙ eq) in
      let rest = receive-Waiting chunks d.rest d.left d.sendable d.stream d.waiting in
      receive_chunk b chunk chunks _ _ d.rest empty d.result rest
      ∙ ap (λ l. some (l, empty)) (map-view-append d.done d.left ∙ ap (map (view e)) (sym d.frames))

  -- However the stream of some frames, whose fields fit 32 bits, is cut into chunks, a fresh buffer
  -- delivers exactly those frames, in order, and is empty at the end.
  pub receive-encode_all :
      (fs : List Frame) (chunks : List (List ℕ))
      → AllSendable fs
      → concat chunks ≡ encode_all e fs
      → receive e empty chunks ≡ some (map (view e) fs, empty)
  receive-encode_all fs chunks s eq = receive-Waiting chunks [] fs s eq (start fs s)
    where
      start : (gs : List Frame) → AllSendable gs → Waiting e [] gs
      start [] _ = tt
      start (g ∷ gs) t = omega (arith, encode-length t.0)

  -- The loop of TryPopFrame ends on any bytes, valid or not, if the fuel is more than their number.
  pub pop_all_total :
      (fuel : ℕ) (b : List ℕ)
      → length b < fuel
      → (r : List FrameView × FrameBuffer) × (pop_all e fuel (record { buf = b }) ≡ some r)
  pop_all_total zero b h = absurd (omega arith)
  pop_all_total (suc fuel) b h = by_outcome (pop_all_total fuel) (try_pop_frame-Outcome e b)
    where
      by_outcome :
          ((c : List ℕ)
            → length c < fuel
            → (r : List FrameView × FrameBuffer) × (pop_all e fuel (record { buf = c }) ≡ some r))
          → Outcome e b (try_pop_frame e (record { buf = b }))
          → (r : List FrameView × FrameBuffer) × (pop_all e (suc fuel) (record { buf = b })
              ≡ some r)
      by_outcome more (waits eq) = (_, pop_all_waits fuel b eq)
      by_outcome more (resets _ _ eq) = (_, pop_all_waits fuel b eq)
      by_outcome more (delivers hdr good room eq) =
          let size = 20 + header_field_host e hdr.length_field in
          let ((fs, last), run) = more (drop size b) (omega (arith, length-drop size b)) in
          (_, pop_all_delivers fuel b _ _ fs last eq run)
