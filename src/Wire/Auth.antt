-- ===== src/Wire/Auth.antt =====
-- include/hiim/wire/auth.hpp: the payload of an AUTH_REQ frame.
pub mod Laws
use hi_im_core.Prelude.{
  List, Option, drop, if◌then◌else◌, is_empty, length, ltb, memcpy, min, none, replicate, some,
  take, ℕ, ◌++◌, ◌+◌,
}
use hi_im_core.Wire.Bytes.{Endian, host_to_be32, load32, store32}
use hi_im_core.Wire.Header.{encode_frame, flag_sys}
use hi_im_core.Wire.SysCmd.{auth_req, code}

abbrev pub auth_user_len : ℕ
auth_user_len = 32

abbrev pub auth_pass_len : ℕ
auth_pass_len = 16

abbrev pub auth_payload_size : ℕ
auth_payload_size = 4 + auth_user_len + auth_pass_len + 4

-- `gid` and `nid` hold network order, read as integers of the host.
pub record AuthPayload : Type 0 where
  pub gid : ℕ
  pub user : List ℕ
  pub passwd : List ℕ
  pub nid : ℕ

-- A fixed char array: zeroed, then the front of the text copied in.
unfoldable pub fixed_chars : ℕ → List ℕ → List ℕ
fixed_chars size text =
    if is_empty text
    then replicate size 0
    else memcpy (replicate size 0) 0 (take (min (length text) size) text)

module _ (e : Endian) where
  unfoldable pub make_auth_payload : ℕ → List ℕ → List ℕ → ℕ → AuthPayload
  make_auth_payload gid user passwd nid = record {
    gid = host_to_be32 e gid;
    user = fixed_chars auth_user_len user;
    passwd = fixed_chars auth_pass_len passwd;
    nid = host_to_be32 e nid;
  }

  -- The packed struct in memory.
  unfoldable pub auth_struct_bytes : AuthPayload → List ℕ
  auth_struct_bytes p = store32 e p.gid ++ (p.user ++ (p.passwd ++ store32 e p.nid))

  -- `none` is the result false.
  unfoldable pub decode_auth_payload : List ℕ → Option AuthPayload
  decode_auth_payload payload =
      if ltb (length payload) auth_payload_size
      then none
      else some (record {
        gid = load32 e payload;
        user = take auth_user_len (drop 4 payload);
        passwd = take auth_pass_len (drop (4 + auth_user_len) payload);
        nid = load32 e (drop (4 + auth_user_len + auth_pass_len) payload);
      })

  unfoldable pub encode_auth_frame : ℕ → List ℕ → List ℕ → ℕ → List ℕ
  encode_auth_frame gid user passwd nid =
      encode_frame e (code auth_req) nid flag_sys
        (auth_struct_bytes (make_auth_payload gid user passwd nid))
