-- ===== src/Wire/FrameBuffer/Pop.antt =====
-- One call of TryPopFrame: what it takes, when it waits, when it resets.
use hi_im_core.Prelude.{
  List, Option, Option-cases, ap, ap₂, arith, dec_lt, drop, drop-append_seam, drop-drop, inl, inr,
  length, length-append, length-drop, length-take, le→not_ltb, lt→ltb, none, refl, some, subst, sym,
  take, take-append-drop, take-append_le, take-append_seam, ℕ, ◌++◌, ◌+◌, ◌<◌, ◌^◌, ◌∙◌, ◌≡◌, ◌≤◌,
}
use hi_im_core.Wire.Bytes.{Endian, be_to_host32, load32}
use hi_im_core.Wire.FrameBuffer.{FrameBuffer, FrameView, clear, empty, pop_body, try_pop_frame}
use hi_im_core.Wire.Header.{
  WireHeader, decode_header, encode_frame, header_field_host, make_header, wire_checksum,
  wire_header_size,
}
use hi_im_core.Wire.Header.Laws.{
  decode_header-header_bytes, decode_header_accepts, encode_frame-layout, header_bytes,
  make_header-fields,
}

-- A frame as the sender knows it.
pub record Frame : Type 0 where
  pub type : ℕ
  pub nid : ℕ
  pub flag : ℕ
  pub payload : List ℕ

-- The fields fit their 32 bits.
pub record IsSendable (f : Frame) : Type 0 where
  pub type_fits : f.type < 2 ^ 32
  pub nid_fits : f.nid < 2 ^ 32
  pub flag_fits : f.flag < 2 ^ 32
  pub payload_fits : length f.payload < 2 ^ 32

module _ (e : Endian) where
  abbrev pub encode : Frame → List ℕ
  encode f = encode_frame e f.type f.nid f.flag f.payload

  abbrev pub view : Frame → FrameView
  view f = record {
    header = make_header e f.type f.nid f.flag (length f.payload);
    payload = f.payload;
  }

  pub encode-layout :
      {f : Frame}
      → IsSendable f
      → encode f ≡ header_bytes f.type f.nid f.flag (length f.payload) ++ f.payload
  encode-layout {f} s =
      rw (encode_frame-layout e f.type f.nid f.flag f.payload)
        (ap (λ n. header_bytes f.type f.nid f.flag n ++ f.payload) (omega arith))

  decode-encoded :
      {f : Frame} (rest : List ℕ)
      → IsSendable f
      → decode_header e (header_bytes f.type f.nid f.flag (length f.payload) ++ rest)
        ≡ some (view f).header
  decode-encoded {f} rest s =
      decode_header-header_bytes e f.type f.nid f.flag (length f.payload) rest s.type_fits
        s.nid_fits s.flag_fits s.payload_fits

  length_field-view :
      {f : Frame}
      → IsSendable f
      → header_field_host e (view f).header.length_field ≡ length f.payload
  length_field-view {f} s =
      (make_header-fields e f.type f.nid f.flag (length f.payload) s.type_fits s.nid_fits
        s.flag_fits s.payload_fits).3

  -- The four ways a call ends.
  pub try_pop_frame_short :
      (buf : List ℕ)
      → length buf < 20
      → try_pop_frame e (record { buf = buf }) ≡ (none, record { buf = buf })
  unfolding try_pop_frame
  try_pop_frame_short buf h = rw (lt→ltb (length buf) wire_header_size h)

  pub try_pop_frame_invalid :
      (buf : List ℕ)
      → 20 ≤ length buf
      → decode_header e buf ≡ none
      → try_pop_frame e (record { buf = buf }) ≡ (none, empty)
  unfolding try_pop_frame clear
  try_pop_frame_invalid buf h d = rw (le→not_ltb (length buf) wire_header_size h, d)

  pub try_pop_frame_incomplete :
      (buf : List ℕ) (hdr : WireHeader)
      → 20 ≤ length buf
      → decode_header e buf ≡ some hdr
      → length buf < 20 + header_field_host e hdr.length_field
      → try_pop_frame e (record { buf = buf }) ≡ (none, record { buf = buf })
  unfolding try_pop_frame pop_body
  try_pop_frame_incomplete buf hdr h d l = rw (
    le→not_ltb (length buf) wire_header_size h,
    d,
    lt→ltb (length buf) (wire_header_size + header_field_host e hdr.length_field) l,
  )

  pub try_pop_frame_complete :
      (buf : List ℕ) (hdr : WireHeader)
      → decode_header e buf ≡ some hdr
      → 20 + header_field_host e hdr.length_field ≤ length buf
      → let n = header_field_host e hdr.length_field in
        try_pop_frame e (record { buf = buf }) ≡ (
          some (record { header = hdr; payload = take n (drop 20 buf) }),
          record { buf = drop (20 + n) buf },
        )
  unfolding try_pop_frame pop_body
  try_pop_frame_complete buf hdr d l = rw (
    le→not_ltb (length buf) wire_header_size (omega arith),
    d,
    le→not_ltb (length buf) (wire_header_size + header_field_host e hdr.length_field) l,
  )

  -- A complete frame at the front whose fields fit 32 bits is popped, with its fields and payload,
  -- and the rest stays.
  pub try_pop_frame-encode :
      {f : Frame} (rest : List ℕ)
      → IsSendable f
      → try_pop_frame e (record { buf = encode f ++ rest }) ≡ (some (view f), record { buf = rest })
  try_pop_frame-encode {f} rest s = rw (encode-layout s) (
      try_pop_frame_complete bytes (view f).header (decode-encoded (f.payload ++ rest) s)
        (omega (arith, length_field-view s, length-append f.payload rest))
      ∙ ap₂ result taken dropped)
    where
      bytes : List ℕ
      bytes = header_bytes f.type f.nid f.flag (length f.payload) ++ (f.payload ++ rest)

      result : List ℕ → List ℕ → Option FrameView × FrameBuffer
      result p b = (some (record { header = (view f).header; payload = p }), record { buf = b })

      taken : take (header_field_host e (view f).header.length_field) (drop 20 bytes) ≡ f.payload
      taken = take-append_seam _ f.payload rest (length_field-view s)

      dropped : drop (20 + header_field_host e (view f).header.length_field) bytes ≡ rest
      dropped =
          sym (drop-drop (header_field_host e (view f).header.length_field) 20 bytes)
          ∙ drop-append_seam _ f.payload rest (length_field-view s)

  -- A proper prefix of a frame whose fields fit 32 bits stays in the buffer, and nothing is
  -- delivered.
  pub try_pop_frame_prefix :
      {f : Frame} (b c : List ℕ)
      → IsSendable f
      → b ++ c ≡ encode f
      → length b < length (encode f)
      → try_pop_frame e (record { buf = b }) ≡ (none, record { buf = b })
  try_pop_frame_prefix {f} b c s eq short = elim (dec_lt (length b) 20) [
    | yes few ↦ try_pop_frame_short b few
    | no many ↦
        try_pop_frame_incomplete b (view f).header (omega arith)
          (subst (λ z. decode_header e z ≡ some (view f).header) (sym (split (omega arith)))
            (decode-encoded (drop 20 b) s))
          (omega (arith, length_field-view s, ap length (encode-layout s)))
  ]
    where
      bytes : List ℕ
      bytes = header_bytes f.type f.nid f.flag (length f.payload)

      split : 20 ≤ length b → b ≡ bytes ++ drop 20 b
      split h =
          sym (take-append-drop 20 b)
          ∙ ap (λ z. z ++ drop 20 b)
              (sym (take-append_le 20 b c h)
                ∙ ap (take 20) (eq ∙ encode-layout s)
                ∙ take-append_seam 20 bytes f.payload refl)

  -- What a call can do to any bytes: wait, throw everything away, or split a frame off.
  pub data Outcome (buf : List ℕ) (r : Option FrameView × FrameBuffer) : Type 0 where
    waits : r ≡ (none, record { buf = buf }) → Outcome buf r
    resets : 20 ≤ length buf → decode_header e buf ≡ none → r ≡ (none, empty) → Outcome buf r
    delivers :
        (hdr : WireHeader)
        → decode_header e buf ≡ some hdr
        → 20 + header_field_host e hdr.length_field ≤ length buf
        → r ≡ (
          some (record {
            header = hdr;
            payload = take (header_field_host e hdr.length_field) (drop 20 buf);
          }),
          record { buf = drop (20 + header_field_host e hdr.length_field) buf },
        )
        → Outcome buf r

  pub try_pop_frame-Outcome : (buf : List ℕ) → Outcome buf (try_pop_frame e (record { buf = buf }))
  try_pop_frame-Outcome buf = elim (dec_lt (length buf) 20) [
    | yes few ↦ waits (try_pop_frame_short buf few)
    | no many ↦ elim (Option-cases (decode_header e buf)) [
      | inl bad ↦ resets (omega arith) bad (try_pop_frame_invalid buf (omega arith) bad)
      | inr (hdr, good) ↦ elim (dec_lt (length buf) (20 + header_field_host e hdr.length_field)) [
        | yes short ↦ waits (try_pop_frame_incomplete buf hdr (omega arith) good short)
        | no long ↦
            delivers hdr good (omega arith) (try_pop_frame_complete buf hdr good (omega arith))
      ]
    ]
  ]

  -- The fields that stand at the front of the buffer, four bytes each.
  abbrev pub fields_of : List ℕ → WireHeader
  fields_of buf = record {
    type = load32 e buf;
    nid = load32 e (drop 4 buf);
    flag = load32 e (drop 8 buf);
    length_field = load32 e (drop 12 buf);
    chksum = load32 e (drop 16 buf);
  }

  decode_header-fields :
      (buf : List ℕ) (hdr : WireHeader) → decode_header e buf ≡ some hdr → hdr ≡ fields_of buf
  unfolding decode_header
  decode_header-fields buf hdr eq = ground arith

  abbrev Sound : List ℕ → Option FrameView × FrameBuffer → Type 0
  Sound buf (none, fb) = Unit {0}
  Sound buf (some f, fb) =
      (f.header ≡ fields_of buf)
      × (be_to_host32 e f.header.chksum ≡ wire_checksum)
      × (length f.payload ≡ header_field_host e f.header.length_field)
      × (buf ≡ take 20 buf ++ (f.payload ++ fb.buf))

  Outcome-Sound : (buf : List ℕ) {r : Option FrameView × FrameBuffer} → Outcome buf r → Sound buf r
  Outcome-Sound buf (waits eq) = subst (Sound buf) (sym eq) tt
  Outcome-Sound buf (resets _ _ eq) = subst (Sound buf) (sym eq) tt
  Outcome-Sound buf (delivers hdr good room eq) = subst (Sound buf) (sym eq) (
    decode_header-fields buf hdr good,
    (decode_header_accepts e buf hdr good).1,
    omega (arith, length-take n (drop 20 buf), length-drop 20 buf),
    sym (
        ap (λ z. take 20 buf ++ (take n (drop 20 buf) ++ z)) (sym (drop-drop n 20 buf))
        ∙ ap (λ z. take 20 buf ++ z) (take-append-drop n (drop 20 buf))
        ∙ take-append-drop 20 buf),
  )
    where
      n : ℕ
      n = header_field_host e hdr.length_field

  -- Whatever the bytes: the header of a frame that is delivered has the five fields that stand at
  -- the front of the buffer, the last of them the magic number, its payload is as long as its header
  -- says, and the 20 bytes of the header, the payload and what stays make up the buffer.
  pub try_pop_frame_sound :
      (buf : List ℕ) (f : FrameView) (fb : FrameBuffer)
      → try_pop_frame e (record { buf = buf }) ≡ (some f, fb)
      → (f.header ≡ fields_of buf)
        × (be_to_host32 e f.header.chksum ≡ wire_checksum)
        × (length f.payload ≡ header_field_host e f.header.length_field)
        × (buf ≡ take 20 buf ++ (f.payload ++ fb.buf))
  try_pop_frame_sound buf f fb eq =
      subst (Sound buf) eq (Outcome-Sound buf (try_pop_frame-Outcome buf))
