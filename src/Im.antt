-- ===== src/Im.antt =====
-- include/hiim/im/header.hpp: the 52-byte IM header inside a business payload.
pub mod Laws
mod Tests
use hi_im_core.Prelude.{List, drop, if◌then◌else◌, length, ltb, memcpy, replicate, ℕ, ◌%◌, ◌+◌, ◌^◌}
use hi_im_core.Wire.Bytes.{
  Endian, be_to_host32, be_to_host64, host_to_be32, host_to_be64, load32, load64, store32, store64,
}

abbrev pub header_size : ℕ
header_size = 52

abbrev pub offset_cmd : ℕ
offset_cmd = 0

abbrev pub offset_length : ℕ
offset_length = 4

abbrev pub offset_sid : ℕ
offset_sid = 8

abbrev pub offset_cid : ℕ
offset_cid = 16

abbrev pub offset_nid : ℕ
offset_nid = 24

abbrev pub offset_seq : ℕ
offset_seq = 28

module _ (e : Endian) where
  -- The writes in the order of the code; the span comes back as the result.
  unfoldable pub write_header : List ℕ → ℕ → ℕ → ℕ → ℕ → ℕ → List ℕ
  write_header buf cmd length_field sid dest_nid seq =
      if ltb (length buf) header_size
      then buf
      else (let buf1 = memcpy buf offset_cmd (store32 e (host_to_be32 e cmd)) in
          let buf2 = memcpy buf1 offset_length (store32 e (host_to_be32 e length_field)) in
          let buf3 = memcpy buf2 offset_sid (store64 e (host_to_be64 e sid)) in
          let buf4 = memcpy buf3 offset_cid (replicate 8 0) in
          let buf5 = memcpy buf4 offset_nid (store32 e (host_to_be32 e dest_nid)) in
          let buf6 = memcpy buf5 offset_seq (store64 e (host_to_be64 e seq)) in
          memcpy buf6 (offset_seq + 8) (replicate 16 0))

  -- The conversion of the body's size to uint32_t is the `% 2 ^ 32`.
  unfoldable pub pack_payload : ℕ → ℕ → ℕ → ℕ → List ℕ → List ℕ
  pack_payload cmd sid dest_nid seq body =
      let out = replicate (header_size + length body) 0 in
      memcpy (write_header out cmd (length body % 2 ^ 32) sid dest_nid seq) header_size body

  unfoldable pub read_dest_nid : List ℕ → ℕ
  read_dest_nid payload =
      if ltb (length payload) header_size
      then 0
      else be_to_host32 e (load32 e (drop offset_nid payload))

  unfoldable pub read_seq : List ℕ → ℕ
  read_seq payload =
      if ltb (length payload) header_size
      then 0
      else be_to_host64 e (load64 e (drop offset_seq payload))
