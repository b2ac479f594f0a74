-- ===== src/Hub/RouteLog.antt =====
-- src/hub/route_log.hpp: what the log reads from a frame on its way.
pub mod Lines
pub mod Handlers
pub mod Laws
pub mod Told
pub mod Telling
use mathlib.Core.Option
use hi_im_core.Im
use hi_im_core.Prelude.{List, drop, if◌then◌else◌, leb, length, ltb, none, some, ℕ, ◌+◌}
use hi_im_core.Wire.Bytes.{Endian, be_to_host32}
use hi_im_core.Wire.Header.{WireHeader, decode_header, wire_header_size}

pub record RouteLogMeta : Type 0 where
  pub wire_cmd : ℕ
  pub wire_nid : ℕ
  pub im_dest_nid : ℕ
  pub im_seq : ℕ

abbrev pub no_meta : RouteLogMeta
no_meta = record { wire_cmd = 0; wire_nid = 0; im_dest_nid = 0; im_seq = 0 }

module _ (e : Endian) where
  -- ParseRouteLogMeta once the header is decoded.
  unfoldable pub meta_of : List ℕ → WireHeader → RouteLogMeta
  meta_of wire_bytes wh =
      let im = drop wire_header_size wire_bytes in
      let long = leb (wire_header_size + Im.header_size) (length wire_bytes) in
      record {
        wire_cmd = be_to_host32 e wh.type;
        wire_nid = be_to_host32 e wh.nid;
        im_dest_nid = if long then Im.read_dest_nid e im else 0;
        im_seq = if long then Im.read_seq e im else 0;
      }

  unfoldable pub parse_route_log_meta : List ℕ → RouteLogMeta
  unfolding meta_of
  parse_route_log_meta wire_bytes =
      if ltb (length wire_bytes) wire_header_size
      then no_meta
      else elim (decode_header e wire_bytes) [ none ↦ no_meta | some wh ↦ meta_of wire_bytes wh ]
