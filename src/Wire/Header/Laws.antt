-- ===== src/Wire/Header/Laws.antt =====
-- What the encoder of header.hpp writes and what its decoder reads back.
use hi_im_core.Prelude.{
  List, arith, false, length, length-replicate, le→not_ltb, ltb, memcpy-fill, refl, replicate, some,
  ℕ, ◌%◌, ◌++◌, ◌+◌, ◌<◌, ◌^◌, ◌≡◌, ◌≤◌,
}
use hi_im_core.Wire.Bytes.{
  Endian, be32, be_to_host32, be_to_host32-host_to_be32, load32-be32, store32-host_to_be32,
}
use hi_im_core.Wire.Header.{
  WireHeader, decode_header, encode_frame, header_field_host, make_header, struct_bytes,
  wire_checksum, wire_header_size,
}

-- The 20 bytes of the protocol: five big-endian fields.
abbrev pub header_bytes : ℕ → ℕ → ℕ → ℕ → List ℕ
header_bytes t n f l = be32 t ++ (be32 n ++ (be32 f ++ (be32 l ++ be32 wire_checksum)))

module _ (e : Endian) where
  struct_bytes-make_header :
      (t n f l : ℕ) → struct_bytes e (make_header e t n f l) ≡ header_bytes t n f l
  unfolding struct_bytes make_header
  struct_bytes-make_header t n f l = rw (
    store32-host_to_be32 e t,
    store32-host_to_be32 e n,
    store32-host_to_be32 e f,
    store32-host_to_be32 e l,
    store32-host_to_be32 e wire_checksum,
  )

  -- A frame is the big-endian header followed by the payload, on a host of either byte order.
  pub encode_frame-layout :
      (t n f : ℕ) (payload : List ℕ)
      → encode_frame e t n f payload ≡ header_bytes t n f (length payload % 2 ^ 32) ++ payload
  unfolding encode_frame
  encode_frame-layout t n f payload =
      rw (room, struct_bytes-make_header t n f (length payload % 2 ^ 32))
        (memcpy-fill 20 zeros (header_bytes t n f (length payload % 2 ^ 32)) payload refl
          (length-replicate {A = ℕ} (wire_header_size + length payload) 0))
    where
      zeros : List ℕ
      zeros = replicate (wire_header_size + length payload) 0

      room : ltb (length zeros) wire_header_size ≡ false
      room =
          le→not_ltb _ _
            (omega (arith, length-replicate {A = ℕ} (wire_header_size + length payload) 0))

  -- Decoding the 20 protocol bytes of four fields that fit 32 bits, whatever follows them, gives the
  -- header that was made of the same fields.
  pub decode_header-header_bytes :
      (t n f l : ℕ) (rest : List ℕ)
      → t < 2 ^ 32
      → n < 2 ^ 32
      → f < 2 ^ 32
      → l < 2 ^ 32
      → decode_header e (header_bytes t n f l ++ rest) ≡ some (make_header e t n f l)
  unfolding decode_header make_header
  decode_header-header_bytes t n f l rest ht hn hf hl = rw (
    le→not_ltb (length (header_bytes t n f l ++ rest)) wire_header_size (omega arith),
    load32-be32 e t _ ht,
    load32-be32 e n _ hn,
    load32-be32 e f _ hf,
    load32-be32 e l _ hl,
    load32-be32 e wire_checksum rest (omega arith),
    be_to_host32-host_to_be32 e wire_checksum (omega arith),
  )

  -- The fields of a made header, read in host order.
  pub make_header-fields :
      (t n f l : ℕ)
      → t < 2 ^ 32
      → n < 2 ^ 32
      → f < 2 ^ 32
      → l < 2 ^ 32
      → let h = make_header e t n f l in
        (header_field_host e h.type ≡ t)
        × (header_field_host e h.nid ≡ n)
        × (header_field_host e h.flag ≡ f)
        × (header_field_host e h.length_field ≡ l)
  unfolding make_header header_field_host
  make_header-fields t n f l ht hn hf hl = (
    be_to_host32-host_to_be32 e t ht,
    be_to_host32-host_to_be32 e n hn,
    be_to_host32-host_to_be32 e f hf,
    be_to_host32-host_to_be32 e l hl,
  )

  -- A header that is accepted carries the magic number.
  pub decode_header_accepts :
      (bs : List ℕ) (h : WireHeader)
      → decode_header e bs ≡ some h
      → (20 ≤ length bs) × (be_to_host32 e h.chksum ≡ wire_checksum)
  unfolding decode_header
  decode_header_accepts bs h eq = ground arith
