-- ===== src/Wire/FrameBuffer.antt =====
-- src/wire/frame_buffer.hpp: reassembly of frames from the chunks of a TCP stream.
use mathlib.Core.Option
pub mod Pop
pub mod Stream
use hi_im_core.Prelude.{
  List, Option, [], drop, if◌then◌else◌, length, ltb, none, some, suc, take, zero, ℕ, ◌++◌, ◌+◌,
  ◌∷◌,
}
use hi_im_core.Wire.Bytes.{Endian}
use hi_im_core.Wire.Header.{WireHeader, decode_header, header_field_host, wire_header_size}

pub record FrameView : Type 0 where
  pub header : WireHeader
  pub payload : List ℕ

-- The bytes that wait, oldest first (`buf_`).
pub record FrameBuffer : Type 0 where
  pub buf : List ℕ

abbrev pub empty : FrameBuffer
empty = record { buf = [] }

unfoldable pub append : FrameBuffer → List ℕ → FrameBuffer
append fb bytes = record { buf = fb.buf ++ bytes }

unfoldable pub clear : FrameBuffer → FrameBuffer
clear fb = record { buf = [] }

unfoldable pub buffered_bytes : FrameBuffer → ℕ
buffered_bytes fb = length fb.buf

module _ (e : Endian) where
  -- `TryPopFrame` once the header is accepted. A uint32_t plus 20 does not wrap a 64-bit size_t.
  unfoldable pub pop_body : FrameBuffer → WireHeader → Option FrameView × FrameBuffer
  pop_body fb hdr =
      let payload_len = header_field_host e hdr.length_field in
      let frame_len = wire_header_size + payload_len in
      if ltb (length fb.buf) frame_len then (none, fb) else (
        some (record { header = hdr; payload = take payload_len (drop wire_header_size fb.buf) }),
        record { buf = drop frame_len fb.buf },
      )

  unfoldable pub try_pop_frame : FrameBuffer → Option FrameView × FrameBuffer
  try_pop_frame fb =
      if ltb (length fb.buf) wire_header_size
      then (none, fb)
      else elim (decode_header e fb.buf) [ none ↦ (none, clear fb) | some hdr ↦ pop_body fb hdr ]

  abbrev pub pop_step :
      Option FrameView × FrameBuffer
      → (FrameBuffer → Option (List FrameView × FrameBuffer))
      → Option (List FrameView × FrameBuffer)
  pop_step (none, fb) continue = some ([], fb)
  pop_step (some f, fb) continue = Option.map (λ r. (f ∷ r.0, r.1)) (continue fb)

  -- `while (auto frame = fb.TryPopFrame())`, as in Reactor::HandleReadable and in the benchmark:
  -- the frames in order and the buffer at the end. `none` means that the fuel ran out.
  unfoldable pub pop_all : ℕ → FrameBuffer → Option (List FrameView × FrameBuffer)
  pop_all zero fb = none
  pop_all (suc fuel) fb = pop_step (try_pop_frame fb) (pop_all fuel)

  abbrev pub after_pop :
      Option (List FrameView × FrameBuffer)
      → (FrameBuffer → Option (List FrameView × FrameBuffer))
      → Option (List FrameView × FrameBuffer)
  after_pop none continue = none
  after_pop (some (fs, fb)) continue = Option.map (λ r. (fs ++ r.0, r.1)) (continue fb)

  -- One `recv` after another: append the chunk, then pop what is complete.
  unfoldable pub receive : FrameBuffer → List (List ℕ) → Option (List FrameView × FrameBuffer)
  unfolding append
  receive fb [] = some ([], fb)
  receive fb (chunk ∷ chunks) =
      let fb' = append fb chunk in
      after_pop (pop_all (suc (length fb'.buf)) fb') (λ last. receive last chunks)
