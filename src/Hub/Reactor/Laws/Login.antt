-- ===== src/Hub/Reactor/Laws/Login.antt =====
-- Authentication: what AUTH_REQ does with the credentials that a client packs.
use hi_im_core.Hub.Router
use hi_im_core.Prelude.{
  List, [], ap, arith, c_string, done, false, if◌then◌else◌, length, lookup, refl, replicate,
  same_text, some, suc, sym, take, true, zero, ℕ, ◌&&◌, ◌++◌, ◌-◌, ◌<◌, ◌^◌, ◌∙◌, ◌∷◌, ◌≡◌, ◌≤◌,
}
use hi_im_core.Hub.Reactor.{Reactor, Session, close_session, put_session, with_router}
use hi_im_core.Hub.Reactor.Input.{
  acknowledge, authenticate, credentials_match, handle_system, on_auth,
}
use hi_im_core.Hub.Reactor.Output.{Kernel}
use hi_im_core.Hub.Router.{Router}
use hi_im_core.Wire.Auth.{
  AuthPayload, auth_struct_bytes, decode_auth_payload, fixed_chars, make_auth_payload,
}
use hi_im_core.Wire.Auth.Laws.{decode_auth_payload-make, fixed_chars-layout}
use hi_im_core.Wire.Bytes.{Endian, be_to_host32, be_to_host32-load32, host_to_be32, load32-be32}
use hi_im_core.Wire.FrameBuffer.{FrameView}
use hi_im_core.Wire.Header.{header_field_host}
use hi_im_core.Wire.SysCmd.{auth_ack, auth_req, code}

-- A text without the byte 0, which a C string can hold.
abbrev pub IsText : List ℕ → Type 0
IsText [] = Unit {0}
IsText (c ∷ cs) = (0 < c) × IsText cs

c_string-pad : (text : List ℕ) (n : ℕ) → IsText text → c_string (text ++ replicate n 0) ≡ text
unfolding c_string
c_string-pad [] zero t = refl
c_string-pad [] (suc n) t = refl
c_string-pad (c ∷ text) n (p, t) = ground (arith, c_string-pad text n t)

take_all : (text : List ℕ) (n : ℕ) → length text ≤ n → take n text ≡ text
take_all [] zero fits = refl
take_all [] (suc n) fits = refl
take_all (c ∷ text) zero fits = absurd (omega arith)
take_all (c ∷ text) (suc n) fits = ap (◌∷◌ c) (take_all text n (omega arith))

c_string-fixed_chars :
    (n : ℕ) (text : List ℕ) → IsText text → length text ≤ n → c_string (fixed_chars n text) ≡ text
c_string-fixed_chars n text t fits =
    ap c_string (
      fixed_chars-layout n text
      ∙ ap (λ l. l ++ replicate (n - length text) 0) (take_all text n fits))
    ∙ c_string-pad text (n - length text) t

host-round : (e : Endian) (v : ℕ) → v < 2 ^ 32 → be_to_host32 e (host_to_be32 e v) ≡ v
host-round e v h = ap (be_to_host32 e) (sym (load32-be32 e v [] h)) ∙ be_to_host32-load32 e v [] h

module _ (e : Endian) (kernel : Kernel) where
  -- An AUTH_REQ that a client packs, with texts that fit and hold no zero byte, is granted if both
  -- texts are the configured ones: the session gets the group and the node and is authenticated, the
  -- node is bound to it, and AUTH_ACK goes out. If not, the session is closed.
  pub handle_system_login :
      (k : ℕ) (s : Session) (frame : FrameView) (r : Reactor) (gid nid : ℕ) (user passwd : List ℕ)
      → lookup k r.sessions ≡ some s
      → header_field_host e frame.header.type ≡ code auth_req
      → frame.payload ≡ auth_struct_bytes e (make_auth_payload e gid user passwd nid)
      → gid < 2 ^ 32
      → nid < 2 ^ 32
      → IsText user
      → IsText passwd
      → length user ≤ 32
      → length passwd ≤ 16
      → handle_system e kernel k frame r ≡ (
          if same_text user r.ctx.cfg.auth_user && same_text passwd r.ctx.cfg.auth_pass
          then acknowledge e kernel auth_ack nid k (
              with_router
                (Router.bind_nid nid s.sid (some r.idx))
                (put_session k (record s { authed = true; gid = gid; nid = nid }) r))
          else done (false, close_session s.sid r))
  unfolding handle_system on_auth authenticate credentials_match make_auth_payload
  handle_system_login k s frame r gid nid user passwd found asked packed hg hn tu tp lu lp =
      rw found (rw asked (rw (decoded, on_auth) authenticated))
    where
      auth : AuthPayload
      auth = make_auth_payload e gid user passwd nid

      decoded : decode_auth_payload e frame.payload ≡ some auth
      decoded =
          ap (decode_auth_payload e) packed ∙ decode_auth_payload-make e gid user passwd nid hg hn

      matches :
          credentials_match r.ctx.cfg auth
          ≡ (same_text user r.ctx.cfg.auth_user && same_text passwd r.ctx.cfg.auth_pass)
      matches = rw (c_string-fixed_chars 32 user tu lu, c_string-fixed_chars 16 passwd tp lp)

      authenticated : authenticate e kernel auth k s r ≡ (
          if same_text user r.ctx.cfg.auth_user && same_text passwd r.ctx.cfg.auth_pass
          then acknowledge e kernel auth_ack nid k (
              with_router
                (Router.bind_nid nid s.sid (some r.idx))
                (put_session k (record s { authed = true; gid = gid; nid = nid }) r))
          else done (false, close_session s.sid r))
      authenticated = rw (matches, authenticate, host-round e gid hg, host-round e nid hn)
