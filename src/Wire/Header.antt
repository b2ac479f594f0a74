-- ===== src/Wire/Header.antt =====
-- include/hiim/wire/header.hpp: the 20-byte frame header, and frames.
pub mod Laws
use hi_im_core.Prelude.{
  Bool, List, Option, drop, if◌then◌else◌, length, ltb, memcpy, none, replicate, some, ℕ, ◌%◌, ◌++◌,
  ◌+◌, ◌==◌, ◌^◌,
}
use hi_im_core.Wire.Bytes.{Endian, be_to_host32, host_to_be32, load32, store32}

abbrev pub wire_checksum : ℕ
wire_checksum = 0x1fe23dc4

abbrev pub flag_sys : ℕ
flag_sys = 0

abbrev pub flag_exp : ℕ
flag_exp = 1

abbrev pub wire_header_size : ℕ
wire_header_size = 20

-- The fields hold network order, read as integers of the host.
pub record WireHeader : Type 0 where
  pub type : ℕ
  pub nid : ℕ
  pub flag : ℕ
  pub length_field : ℕ
  pub chksum : ℕ

module _ (e : Endian) where
  -- The packed struct in memory: what `memcpy(out, &h, kWireHeaderSize)` writes.
  unfoldable pub struct_bytes : WireHeader → List ℕ
  struct_bytes h =
      store32 e h.type
      ++ (store32 e h.nid ++ (store32 e h.flag ++ (store32 e h.length_field ++ store32 e h.chksum)))

  -- `memcpy(&h, in, kWireHeaderSize)`
  unfoldable pub of_struct_bytes : List ℕ → WireHeader
  of_struct_bytes bs = record {
    type = load32 e bs;
    nid = load32 e (drop 4 bs);
    flag = load32 e (drop 8 bs);
    length_field = load32 e (drop 12 bs);
    chksum = load32 e (drop 16 bs);
  }

  unfoldable pub validate_checksum : WireHeader → Bool
  validate_checksum h = be_to_host32 e h.chksum == wire_checksum

  unfoldable pub make_header : ℕ → ℕ → ℕ → ℕ → WireHeader
  make_header type nid flag payload_len = record {
    type = host_to_be32 e type;
    nid = host_to_be32 e nid;
    flag = host_to_be32 e flag;
    length_field = host_to_be32 e payload_len;
    chksum = host_to_be32 e wire_checksum;
  }

  -- The span that is written comes back as the result.
  unfoldable pub encode_header : WireHeader → List ℕ → List ℕ
  unfolding struct_bytes
  encode_header src out =
      if ltb (length out) wire_header_size then out else memcpy out 0 (struct_bytes src)

  -- `none` is the result false; no caller reads the header then.
  unfoldable pub decode_header : List ℕ → Option WireHeader
  unfolding of_struct_bytes validate_checksum
  decode_header bs =
      if ltb (length bs) wire_header_size
      then none
      else let out = of_struct_bytes bs in if validate_checksum out then some out else none

  -- The conversion of the payload's size to uint32_t is the `% 2 ^ 32`.
  unfoldable pub encode_frame : ℕ → ℕ → ℕ → List ℕ → List ℕ
  unfolding make_header encode_header
  encode_frame type nid flag payload =
      let hdr = make_header type nid flag (length payload % 2 ^ 32) in
      memcpy (encode_header hdr (replicate (wire_header_size + length payload) 0)) wire_header_size
        payload

  -- HeaderFieldHost at each member that the program asks for.
  unfoldable pub header_field_host : ℕ → ℕ
  header_field_host field = be_to_host32 e field
