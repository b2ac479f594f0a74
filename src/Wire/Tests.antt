-- ===== src/Wire/Tests.antt =====
-- The frames and headers at concrete values.
use hi_im_core.Prelude.{
  List, [], ap, append-nil, arith, drop, length, some, take, take-append-drop, ℕ, ◌%◌, ◌++◌, ◌^◌,
  ◌∙◌, ◌∷◌, ◌≡◌,
}
use hi_im_core.Wire.Bytes.{be_to_host32, little}
use hi_im_core.Wire.FrameBuffer.{empty, receive}
use hi_im_core.Wire.FrameBuffer.Pop.{
  Frame, IsSendable, encode, fields_of, try_pop_frame-encode, try_pop_frame_sound, view,
}
use hi_im_core.Wire.FrameBuffer.Stream.{encode_all, receive-encode_all}
use hi_im_core.Wire.Header.{encode_frame, header_field_host, wire_checksum}
use hi_im_core.Wire.Header.Laws.{encode_frame-layout, header_bytes}

abbrev ping : Frame
ping = record { type = 3; nid = 7; flag = 0; payload = [] }

abbrev hello : Frame
hello = record { type = 0x0301; nid = 20001; flag = 1; payload = 104 ∷ 105 ∷ [] }

abbrev stream : List ℕ
stream = encode_all little (ping ∷ hello ∷ [])

ping-IsSendable : IsSendable ping
ping-IsSendable = record {
  type_fits = omega arith;
  nid_fits = omega arith;
  flag_fits = omega arith;
  payload_fits = omega arith;
}

hello-IsSendable : IsSendable hello
hello-IsSendable = record {
  type_fits = omega arith;
  nid_fits = omega arith;
  flag_fits = omega arith;
  payload_fits = omega arith;
}

receive-encode_all_example :
    receive little empty (take 7 stream ∷ drop 7 stream ∷ [])
    ≡ some (view little ping ∷ view little hello ∷ [], empty)
receive-encode_all_example =
    receive-encode_all little (ping ∷ hello ∷ []) (take 7 stream ∷ drop 7 stream ∷ [])
      (ping-IsSendable, (hello-IsSendable, tt))
      (ap (λ l. take 7 stream ++ l) (append-nil (drop 7 stream)) ∙ take-append-drop 7 stream)

try_pop_frame_sound_example :
    ((view little hello).header ≡ fields_of little (encode little hello ++ (9 ∷ [])))
    × (be_to_host32 little (view little hello).header.chksum ≡ wire_checksum)
    × (length (view little hello).payload
        ≡ header_field_host little (view little hello).header.length_field)
    × (encode little hello ++ (9 ∷ [])
        ≡ take 20 (encode little hello ++ (9 ∷ [])) ++ ((view little hello).payload ++ (9 ∷ [])))
try_pop_frame_sound_example =
    try_pop_frame_sound little (encode little hello ++ (9 ∷ [])) (view little hello)
      (record { buf = 9 ∷ [] }) (try_pop_frame-encode little {f = hello} (9 ∷ []) hello-IsSendable)

encode_frame-layout_example :
    encode_frame little 3 7 0 (104 ∷ []) ≡ header_bytes 3 7 0 (1 % 2 ^ 32) ++ (104 ∷ [])
encode_frame-layout_example = encode_frame-layout little 3 7 0 (104 ∷ [])
