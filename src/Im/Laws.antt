-- ===== src/Im/Laws.antt =====
-- The layout that PackPayload writes, and the two fields that the hub reads back.
use hi_im_core.Prelude.{
  List, arith, drop, length, length-replicate, le→not_ltb, memcpy-tail, refl, replicate,
  replicate-add, ℕ, ◌%◌, ◌++◌, ◌<◌, ◌^◌, ◌≡◌,
}
use hi_im_core.Im.{header_size, pack_payload, read_dest_nid, read_seq, write_header}
use hi_im_core.Wire.Bytes.{
  Endian, be32, be64, be_to_host32-load32, be_to_host64-load64, store32-host_to_be32,
  store64-host_to_be64,
}

-- The 52 bytes: the client id and the last 16 bytes are zero.
abbrev pub im_header_bytes : ℕ → ℕ → ℕ → ℕ → ℕ → List ℕ
im_header_bytes cmd len sid dest seq =
    be32 cmd
    ++ (be32 len ++ (be64 sid ++ (replicate 8 0 ++ (be32 dest ++ (be64 seq ++ replicate 16 0)))))

module _ (e : Endian) where
  write_header-layout :
      (cmd len sid dest seq : ℕ) (rest : List ℕ)
      → write_header e (replicate 52 0 ++ rest) cmd len sid dest seq
        ≡ im_header_bytes cmd len sid dest seq ++ rest
  unfolding write_header
  write_header-layout cmd len sid dest seq rest = rw (
    le→not_ltb (length (replicate {A = ℕ} 52 0 ++ rest)) 52 (omega arith),
    store32-host_to_be32 e cmd,
    store32-host_to_be32 e len,
    store64-host_to_be64 e sid,
    store32-host_to_be32 e dest,
    store64-host_to_be64 e seq,
  )

  -- A packed payload is the header followed by the body, on a host of either byte order.
  pub pack_payload-layout :
      (cmd sid dest seq : ℕ) (body : List ℕ)
      → pack_payload e cmd sid dest seq body
        ≡ im_header_bytes cmd (length body % 2 ^ 32) sid dest seq ++ body
  unfolding pack_payload
  pack_payload-layout cmd sid dest seq body =
      rw
        (
          replicate-add {A = ℕ} 52 (length body) 0,
          write_header-layout cmd (length body % 2 ^ 32) sid dest seq (replicate (length body) 0),
        )
        (memcpy-tail 52 (im_header_bytes cmd (length body % 2 ^ 32) sid dest seq)
          (replicate (length body) 0) body refl (length-replicate (length body) 0))

  -- The hub reads the destination and the sequence number that the sender packed, if they fit 32 and
  -- 64 bits, and behind the 52 bytes comes the body.
  pub read-pack_payload :
      (cmd sid dest seq : ℕ) (body : List ℕ)
      → dest < 2 ^ 32
      → seq < 2 ^ 64
      → (read_dest_nid e (pack_payload e cmd sid dest seq body) ≡ dest)
        × (read_seq e (pack_payload e cmd sid dest seq body) ≡ seq)
        × (drop header_size (pack_payload e cmd sid dest seq body) ≡ body)
  unfolding read_dest_nid read_seq
  read-pack_payload cmd sid dest seq body hd hs =
      rw
        (
          pack_payload-layout cmd sid dest seq body,
          le→not_ltb (length (im_header_bytes cmd (length body % 2 ^ 32) sid dest seq ++ body)) 52
              (omega arith),
        )
        (
          be_to_host32-load32 e dest _ hd,
          be_to_host64-load64 e seq (replicate 16 0 ++ body) hs,
          refl,
        )
