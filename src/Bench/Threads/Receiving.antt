-- ===== src/Bench/Threads/Receiving.antt =====
-- The receiving loops of the benchmark on a stream of frames.
use mathlib.Core.Option
use hi_im_core.Wire.FrameBuffer
use hi_im_core.Wire.FrameBuffer.Pop
use hi_im_core.Prelude.{
  List, Option, [], ap, arith, false, if◌then◌else◌, is_empty, length, map, none, refl, some,
  some_inj, suc, sym, true, ℕ, ◌++◌, ◌+◌, ◌==◌, ◌∙◌, ◌∷◌, ◌≡◌,
}
use hi_im_core.Bench.{and_then, or_starved}
use hi_im_core.Bench.Setup.Greeting.{AllFilled}
use hi_im_core.Bench.Threads.{Turn, count_frames, received, receiving_loop}
use hi_im_core.Wire.Bytes.{Endian}
use hi_im_core.Wire.FrameBuffer.{FrameBuffer, FrameView}
use hi_im_core.Wire.FrameBuffer.Pop.{Frame}
use hi_im_core.Wire.FrameBuffer.Stream.{AllSendable, concat, encode_all, receive-encode_all}
use hi_im_core.Wire.Header.{flag_exp}
use hi_im_core.Wire.Header.Laws.{make_header-fields}

-- How many of the frames have the flag of a business frame.
unfoldable pub business_frames : List Frame → ℕ
business_frames [] = 0
business_frames (f ∷ fs) = if f.flag == flag_exp then 1 + business_frames fs else business_frames fs

module _ (e : Endian) where
  count_frames-append :
      (fs gs : List FrameView) (n : ℕ)
      → count_frames e true (fs ++ gs) n ≡ count_frames e true gs (count_frames e true fs n)
  unfolding count_frames
  count_frames-append [] gs n = refl
  count_frames-append (f ∷ fs) gs n = count_frames-append fs gs _

  count_frames-view :
      (fs : List Frame) (n : ℕ)
      → AllSendable fs
      → count_frames e true (map (Pop.view e) fs) n ≡ n + business_frames fs
  unfolding count_frames business_frames
  count_frames-view [] n s = omega arith
  count_frames-view (f ∷ fs) n s =
      counted ∙ count_frames-view fs (if f.flag == flag_exp then n + 1 else n) s.1 ∙ ground arith
    where
      counted :
          count_frames e true (Pop.view e f ∷ map (Pop.view e) fs) n
          ≡ count_frames e true (map (Pop.view e) fs) (if f.flag == flag_exp then n + 1 else n)
      counted =
          ap
            (λ flag.
              count_frames e true (map (Pop.view e) fs) (if flag == flag_exp then n + 1 else n))
            (make_header-fields e f.type f.nid f.flag (length f.payload) s.0.type_fits s.0.nid_fits
              s.0.flag_fits s.0.payload_fits).2

  -- A chunk that recv returns, taken apart.
  received_chunk :
      (turns : List Turn) (chunk : List ℕ) (chunks : List (List ℕ)) (fb last : FrameBuffer)
      (gs : List FrameView) (n : ℕ)
      → is_empty chunk ≡ false
      → ((fb' : FrameBuffer) (hs : List FrameView) (m : ℕ)
          → FrameBuffer.receive e fb' chunks ≡ some (hs, last)
          → receiving_loop e (map (received true) chunks ++ turns) fb' m
            ≡ receiving_loop e turns last (count_frames e true hs m))
      → FrameBuffer.receive e fb (chunk ∷ chunks) ≡ some (gs, last)
      → receiving_loop e (map (received true) (chunk ∷ chunks) ++ turns) fb n
        ≡ receiving_loop e turns last (count_frames e true gs n)
  unfolding receiving_loop FrameBuffer.receive
  received_chunk turns chunk chunks fb last gs n filled rest ends =
      rw (receiving_loop, filled)
        (popped
          (FrameBuffer.pop_all e (suc (length (FrameBuffer.append fb chunk).buf))
            (FrameBuffer.append fb chunk))
          ends)
    where
      later :
          (fs : List FrameView) (fb' : FrameBuffer) (o : Option (List FrameView × FrameBuffer))
          → FrameBuffer.receive e fb' chunks ≡ o
          → Option.map {B = List FrameView × FrameBuffer} (λ r. (fs ++ r.0, r.1)) o
            ≡ some (gs, last)
          → receiving_loop e (map (received true) chunks ++ turns) fb' (count_frames e true fs n)
            ≡ receiving_loop e turns last (count_frames e true gs n)
      later fs fb' none its eq = cc
      later fs fb' (some (hs, last')) its eq =
          let same = some_inj eq in
          rest fb' hs (count_frames e true fs n)
            (its ∙ ap (λ (r : List FrameView × FrameBuffer). some (hs, r.1)) same)
          ∙ ap (receiving_loop e turns last) (
              sym (count_frames-append fs hs n)
              ∙ ap (λ (r : List FrameView × FrameBuffer). count_frames e true r.0 n) same)

      popped :
          (o : Option (List FrameView × FrameBuffer))
          → FrameBuffer.after_pop e o (λ last'. FrameBuffer.receive e last' chunks)
            ≡ some (gs, last)
          → and_then (or_starved o) (λ r.
            receiving_loop e (map (received true) chunks ++ turns) r.1 (count_frames e true r.0 n))
            ≡ receiving_loop e turns last (count_frames e true gs n)
      popped none eq = cc
      popped (some (fs, fb')) eq = later fs fb' (FrameBuffer.receive e fb' chunks) refl eq

  receiving_loop-receive :
      (turns : List Turn) (chunks : List (List ℕ)) (fb last : FrameBuffer) (gs : List FrameView)
      (n : ℕ)
      → AllFilled chunks
      → FrameBuffer.receive e fb chunks ≡ some (gs, last)
      → receiving_loop e (map (received true) chunks ++ turns) fb n
        ≡ receiving_loop e turns last (count_frames e true gs n)
  unfolding receiving_loop FrameBuffer.receive
  receiving_loop-receive turns [] fb last gs n filled ends =
      let same = some_inj ends in
      ap
        (λ (r : List FrameView × FrameBuffer).
          receiving_loop e turns r.1 (count_frames e true r.0 n))
        same
  receiving_loop-receive turns (chunk ∷ chunks) fb last gs n filled ends =
      received_chunk turns chunk chunks fb last gs n filled.0
        (λ fb' hs m ends'. receiving_loop-receive turns chunks fb' last hs m filled.1 ends') ends

  -- However the stream of some frames, whose fields fit 32 bits, is cut into chunks that recv returns
  -- in time, a receiving loop that starts with an empty buffer and counts them all then goes on as
  -- one that has an empty buffer and has counted exactly the business frames more.
  pub receiving_loop-counts :
      (turns : List Turn) (fs : List Frame) (chunks : List (List ℕ)) (n : ℕ)
      → AllSendable fs
      → AllFilled chunks
      → concat chunks ≡ encode_all e fs
      → receiving_loop e (map (received true) chunks ++ turns) FrameBuffer.empty n
        ≡ receiving_loop e turns FrameBuffer.empty (n + business_frames fs)
  receiving_loop-counts turns fs chunks n s filled eq =
      receiving_loop-receive turns chunks FrameBuffer.empty FrameBuffer.empty (map (Pop.view e) fs)
        n filled (receive-encode_all e fs chunks s eq)
      ∙ ap (receiving_loop e turns FrameBuffer.empty) (count_frames-view fs n s)
