-- ===== src/Hub/RouteLog/Laws.antt =====
-- The log tells the truth about a frame.
use hi_im_core.Im
use hi_im_core.Prelude.{
  Bool-cases, List, ap, ap₂, arith, drop, inl, inr, length, length-append, le→leb, le→not_leb,
  le→not_ltb, ltb, ltb→lt, not_ltb→le, ℕ, ◌%◌, ◌++◌, ◌+◌, ◌<◌, ◌^◌, ◌∙◌, ◌≡◌,
}
use hi_im_core.Hub.Health.{body}
use hi_im_core.Hub.RouteLog.{meta_of, parse_route_log_meta}
use hi_im_core.Im.Laws.{im_header_bytes, pack_payload-layout, read-pack_payload}
use hi_im_core.Wire.Bytes.{Endian, be_to_host32}
use hi_im_core.Wire.FrameBuffer.Pop.{Frame, IsSendable, encode-layout}
use hi_im_core.Wire.Header.{WireHeader, encode_frame, header_field_host, make_header}
use hi_im_core.Wire.Header.Laws.{decode_header-header_bytes, header_bytes, make_header-fields}

module _ (e : Endian) where
  -- Of an encoded frame the log shows the command and the node that were encoded, and the
  -- destination and the sequence number of the payload, which are 0 if it is too short for them.
  pub parse_route_log_meta-frame :
      (cmd nid flag : ℕ) (payload : List ℕ)
      → cmd < 2 ^ 32
      → nid < 2 ^ 32
      → flag < 2 ^ 32
      → length payload < 2 ^ 32
      → parse_route_log_meta e (encode_frame e cmd nid flag payload) ≡ record {
        wire_cmd = cmd;
        wire_nid = nid;
        im_dest_nid = Im.read_dest_nid e payload;
        im_seq = Im.read_seq e payload;
      }
  unfolding parse_route_log_meta meta_of header_field_host Im.read_dest_nid Im.read_seq
  parse_route_log_meta-frame cmd nid flag payload hc hn hf hp =
      ap (parse_route_log_meta e) layout ∙ parsed_bytes ∙ read_fields
    where
      frame : Frame
      frame = record { type = cmd; nid = nid; flag = flag; payload = payload }

      sendable : IsSendable frame
      sendable = record { type_fits = hc; nid_fits = hn; flag_fits = hf; payload_fits = hp }

      bytes : List ℕ
      bytes = header_bytes cmd nid flag (length payload) ++ payload

      header : WireHeader
      header = make_header e cmd nid flag (length payload)

      layout : encode_frame e cmd nid flag payload ≡ bytes
      layout = encode-layout e sendable

      size : length bytes ≡ 20 + length payload
      size = length-append (header_bytes cmd nid flag (length payload)) payload

      fields : (be_to_host32 e header.type ≡ cmd) × (be_to_host32 e header.nid ≡ nid)
      fields =
          let all = make_header-fields e cmd nid flag (length payload) hc hn hf hp in (all.0, all.1)

      parsed_bytes : parse_route_log_meta e bytes ≡ meta_of e bytes header
      parsed_bytes = rw (
        le→not_ltb (length bytes) 20 (omega (arith, size)),
        decode_header-header_bytes e cmd nid flag (length payload) payload hc hn hf hp,
      )

      read_fields : meta_of e bytes header ≡ record {
        wire_cmd = cmd;
        wire_nid = nid;
        im_dest_nid = Im.read_dest_nid e payload;
        im_seq = Im.read_seq e payload;
      }
      read_fields = elim (Bool-cases (ltb (length payload) 52)) [
        | inl short ↦ rw (
          le→not_leb 72 (length bytes) (omega (arith, size, ltb→lt (length payload) 52 short)),
          short,
          fields.0,
          fields.1,
        )
        | inr long ↦ rw (
          le→leb 72 (length bytes) (omega (arith, size, not_ltb→le (length payload) 52 long)),
          fields.0,
          fields.1,
        )
      ]

  -- Of a frame that carries a packed payload, the log shows the command, the node, the destination
  -- and the sequence number that were encoded, if they fit their fields and the payload fits 32 bits.
  pub parse_route_log_meta-encode_frame :
      (cmd nid flag sid dest seq : ℕ) (body : List ℕ)
      → cmd < 2 ^ 32
      → nid < 2 ^ 32
      → flag < 2 ^ 32
      → dest < 2 ^ 32
      → seq < 2 ^ 64
      → length body + 52 < 2 ^ 32
      → parse_route_log_meta e
          (encode_frame e cmd nid flag (Im.pack_payload e cmd sid dest seq body))
        ≡ record { wire_cmd = cmd; wire_nid = nid; im_dest_nid = dest; im_seq = seq }
  parse_route_log_meta-encode_frame cmd nid flag sid dest seq body hc hn hf hd hs hb =
      parse_route_log_meta-frame cmd nid flag (Im.pack_payload e cmd sid dest seq body) hc hn hf
        (omega (arith, packed))
      ∙ ap₂ (λ d n. record { wire_cmd = cmd; wire_nid = nid; im_dest_nid = d; im_seq = n }) read.0
          read.1
    where
      read :
          (Im.read_dest_nid e (Im.pack_payload e cmd sid dest seq body) ≡ dest)
          × (Im.read_seq e (Im.pack_payload e cmd sid dest seq body) ≡ seq)
          × (drop Im.header_size (Im.pack_payload e cmd sid dest seq body) ≡ body)
      read = read-pack_payload e cmd sid dest seq body hd hs

      packed : length (Im.pack_payload e cmd sid dest seq body) ≡ 52 + length body
      packed =
          ap length (pack_payload-layout e cmd sid dest seq body)
          ∙ omega
              (arith, length-append (im_header_bytes cmd (length body % 2 ^ 32) sid dest seq) body)
