-- ===== src/Im/Tests.antt =====
-- A packed payload.
use hi_im_core.Prelude.{[], arith, drop, ◌∷◌, ◌≡◌}
use hi_im_core.Im.{header_size, pack_payload, read_dest_nid, read_seq}
use hi_im_core.Im.Laws.{read-pack_payload}
use hi_im_core.Wire.Bytes.{little}

read-pack_payload_example :
    (read_dest_nid little (pack_payload little 0x0301 5 20001 9 (104 ∷ [])) ≡ 20001)
    × (read_seq little (pack_payload little 0x0301 5 20001 9 (104 ∷ [])) ≡ 9)
    × (drop header_size (pack_payload little 0x0301 5 20001 9 (104 ∷ [])) ≡ 104 ∷ [])
read-pack_payload_example =
    read-pack_payload little 0x0301 5 20001 9 (104 ∷ []) (omega arith) (omega arith)
