-- ===== src/Wire/Auth/Laws.antt =====
-- What a client packs into an AUTH_REQ is what the hub decodes.
use hi_im_core.Prelude.{
  List, [], ap, ap₂, arith, drop, drop-append_seam, drop-drop, drop-replicate, length,
  length-append, length-replicate, length-take, le→not_ltb, refl, replicate, some, suc, sym, take,
  take-append_seam, take-min-length, zero, ℕ, ◌++◌, ◌+◌, ◌-◌, ◌<◌, ◌^◌, ◌∙◌, ◌∷◌, ◌≡◌,
}
use hi_im_core.Wire.Auth.{auth_struct_bytes, decode_auth_payload, fixed_chars, make_auth_payload}
use hi_im_core.Wire.Bytes.{Endian, be32, host_to_be32, load32-be32, store32-host_to_be32}

-- What fits of the text, then zeros.
pub fixed_chars-layout :
    (n : ℕ) (text : List ℕ) → fixed_chars n text ≡ take n text ++ replicate (n - length text) 0
unfolding fixed_chars
fixed_chars-layout n [] = sym (ap₂ ◌++◌ (take_none n) (ap (λ k. replicate k 0) (omega arith)))
  where
    take_none : (m : ℕ) → take {A = ℕ} m [] ≡ []
    take_none zero = refl
    take_none (suc m) = refl
fixed_chars-layout n (c ∷ text) =
    rw (take-min-length n (c ∷ text), drop-replicate {A = ℕ} (0 + length (take n (c ∷ text))) n 0)
      (ap (λ k. take n (c ∷ text) ++ replicate k 0) (omega (arith, length-take n (c ∷ text))))

pub length-fixed_chars : (n : ℕ) (text : List ℕ) → length (fixed_chars n text) ≡ n
length-fixed_chars n text = rw (fixed_chars-layout n text) (
    omega (
      arith,
      length-append (take n text) (replicate (n - length text) 0),
      length-take n text,
      length-replicate {A = ℕ} (n - length text) 0,
    ))

module _ (e : Endian) where
  decode_auth_payload_bytes :
      (gid nid : ℕ) (user passwd : List ℕ)
      → gid < 2 ^ 32
      → nid < 2 ^ 32
      → length user ≡ 32
      → length passwd ≡ 16
      → decode_auth_payload e (be32 gid ++ (user ++ (passwd ++ be32 nid)))
        ≡ some (record {
          gid = host_to_be32 e gid;
          user = user;
          passwd = passwd;
          nid = host_to_be32 e nid;
        })
  unfolding decode_auth_payload
  decode_auth_payload_bytes gid nid user passwd hg hn hu hp = rw (
    le→not_ltb (length (be32 gid ++ tail)) 56
        (omega (arith, length-append user (passwd ++ be32 nid), length-append passwd (be32 nid))),
    load32-be32 e gid tail hg,
    take-append_seam 32 user (passwd ++ be32 nid) (sym hu),
    drop-append_seam 32 user (passwd ++ be32 nid) (sym hu),
    take-append_seam 16 passwd (be32 nid) (sym hp),
    past,
    load32-be32 e nid [] hn,
  )
    where
      tail : List ℕ
      tail = user ++ (passwd ++ be32 nid)

      past : drop 48 tail ≡ be32 nid
      past =
          sym (drop-drop 16 32 tail)
          ∙ ap (drop 16) (drop-append_seam 32 user (passwd ++ be32 nid) (sym hu))
          ∙ drop-append_seam 16 passwd (be32 nid) (sym hp)

  -- The hub reads the group, the node and the two zero-padded texts that the client packed, if group
  -- and node fit 32 bits.
  pub decode_auth_payload-make :
      (gid : ℕ) (user passwd : List ℕ) (nid : ℕ)
      → gid < 2 ^ 32
      → nid < 2 ^ 32
      → decode_auth_payload e (auth_struct_bytes e (make_auth_payload e gid user passwd nid))
        ≡ some (make_auth_payload e gid user passwd nid)
  unfolding auth_struct_bytes make_auth_payload
  decode_auth_payload-make gid user passwd nid hg hn =
      rw (store32-host_to_be32 e gid, store32-host_to_be32 e nid)
        (decode_auth_payload_bytes gid nid (fixed_chars 32 user) (fixed_chars 16 passwd) hg hn
          (length-fixed_chars 32 user) (length-fixed_chars 16 passwd))
