-- ===== src/Bench/Setup/Greeting.antt =====
-- ReadFrame on a stream, and the handshake of the benchmark.
use hi_im_core.Wire.FrameBuffer
use hi_im_core.Wire.FrameBuffer.Pop
use hi_im_core.Prelude.{
  Bool, Bool-cases, List, [], ap, append-nil, append_assoc, append_split, arith, dec_lt, drop,
  false, inl, inr, is_empty, length, length-append, le→not_ltb, lt→ltb, ne→not_==, refl, some,
  subst, suc, sym, take, true, zero, ℕ, ◌&&◌, ◌++◌, ◌+◌, ◌-◌, ◌<◌, ◌==◌, ◌∙◌, ◌∷◌, ◌≡◌, ◌≢◌, ◌≤◌,
}
use hi_im_core.Bench.{Ending, after_write, ended, read_frame, write_all, write_from}
use hi_im_core.Bench.Setup.{BenchOptions, PeerEnv, expect, handshake}
use hi_im_core.Hub.Reactor.Laws.Eager.{IsEager}
use hi_im_core.Hub.Reactor.Output.{Kernel}
use hi_im_core.Wire.Auth.{encode_auth_frame}
use hi_im_core.Wire.Bytes.{Endian, host_to_be32, store32}
use hi_im_core.Wire.FrameBuffer.{FrameBuffer, try_pop_frame}
use hi_im_core.Wire.FrameBuffer.Pop.{
  Frame, IsSendable, encode, try_pop_frame-encode, try_pop_frame_prefix,
}
use hi_im_core.Wire.FrameBuffer.Stream.{concat}
use hi_im_core.Wire.Header.{encode_frame, flag_sys}
use hi_im_core.Wire.Header.Laws.{make_header-fields}
use hi_im_core.Wire.SysCmd.{SysCmd, auth_ack, code, sub_ack, sub_req}

-- recv returns no 0 and no error.
abbrev pub AllFilled : List (List ℕ) → Type 0
AllFilled [] = Unit {0}
AllFilled (c ∷ cs) = (is_empty c ≡ false) × AllFilled cs

module _ (e : Endian) where
  -- ReadFrame takes off the frame, and `rest` is still to be read.
  record Reads (chunks : List (List ℕ)) (b : List ℕ) (f : Frame) (rest : List ℕ) : Type 0 where
    left : List ℕ
    later : List (List ℕ)
    result :
        read_frame e chunks (record { buf = b })
        ≡ ended (some (Pop.view e f, record { buf = left }, later))
    stream : left ++ concat later ≡ rest
    filled : AllFilled later

  popped_front :
      (b c rest : List ℕ) (f : Frame)
      → IsSendable f
      → b ++ c ≡ encode e f ++ rest
      → length (encode e f) ≤ length b
      → (try_pop_frame e (record { buf = b })
          ≡ (some (Pop.view e f), record { buf = drop (length (encode e f)) b }))
        × (drop (length (encode e f)) b ++ c ≡ rest)
  popped_front b c rest f s eq long =
      let cut = append_split (encode e f) rest b c (sym eq) long in
      (
        subst
            (λ z.
              try_pop_frame e (record { buf = z })
              ≡ (some (Pop.view e f), record { buf = drop (length (encode e f)) b }))
            cut.0 (try_pop_frame-encode e (drop (length (encode e f)) b) s),
        sym cut.1,
      )

  read_frame-Reads :
      (chunks : List (List ℕ)) (b rest : List ℕ) (f : Frame)
      → IsSendable f
      → AllFilled chunks
      → b ++ concat chunks ≡ encode e f ++ rest
      → Reads chunks b f rest
  unfolding read_frame FrameBuffer.append
  read_frame-Reads [] b rest f s filled eq =
      let whole : b ≡ encode e f ++ rest = sym (append-nil b) ∙ eq in
      let (popped_now, tail) =
        popped_front b [] rest f s eq
          (omega (arith, ap length whole, length-append (encode e f) rest)) in
      record {
        left = drop (length (encode e f)) b;
        later = [];
        result = rw (read_frame, popped_now) refl;
        stream = tail;
        filled = filled;
      }
  read_frame-Reads (chunk ∷ chunks) b rest f s filled eq =
      elim (dec_lt (length b) (length (encode e f))) [
        | no long ↦
            let (popped_now, tail) =
              popped_front b (chunk ++ concat chunks) rest f s eq (omega arith) in
            record {
              left = drop (length (encode e f)) b;
              later = chunk ∷ chunks;
              result = rw (read_frame, popped_now) refl;
              stream = tail;
              filled = filled;
            }
        | yes short ↦
            let r =
              read_frame-Reads chunks (b ++ chunk) rest f s filled.1
                (append_assoc b chunk (concat chunks) ∙ eq) in
            let front =
              append_split b (chunk ++ concat chunks) (encode e f) rest eq (omega arith) in
            record {
              left = r.left;
              later = r.later;
              result =
                  rw
                    (
                      read_frame,
                      try_pop_frame_prefix e b (drop (length b) (encode e f)) s front.0 short,
                      filled.0,
                    )
                    r.result;
              stream = r.stream;
              filled = r.filled;
            }
      ]

and_true : (b : Bool) → b && true ≡ b
and_true true = refl
and_true false = refl

-- Where the kernel takes some bytes in each send, WriteAll answers true.
write_from-eager :
    (kernel : Kernel) (fuel k off : ℕ) (bytes : List ℕ)
    → IsEager kernel
    → length bytes - off < fuel
    → (out : List ℕ) × (write_from kernel fuel k off bytes ≡ some (true, out))
unfolding write_from
write_from-eager kernel zero k off bytes eager enough = absurd (omega arith)
write_from-eager kernel (suc fuel) k off bytes eager enough = elim (dec_lt off (length bytes)) [
  | no over ↦ ([], rw (write_from, le→not_ltb off (length bytes) (omega arith)) refl)
  | yes more ↦
      let (m, some_taken, takes) = eager k in
      let (out, ends) = write_from-eager kernel fuel (k + 1) (off + m) bytes eager (omega arith) in
      (
        take m (drop off bytes) ++ out,
        rw (write_from, lt→ltb off (length bytes) more)
            (rw takes (rw (after_write, lt→ltb 0 m some_taken) (rw ends refl))),
      )
]

write_all-eager :
    (kernel : Kernel) (bytes : List ℕ)
    → IsEager kernel
    → (out : List ℕ) × (write_all kernel bytes ≡ some (true, out))
unfolding write_all
write_all-eager kernel bytes eager =
    write_from-eager kernel (length bytes + 1) 0 0 bytes eager (omega arith)

module _ (e : Endian) where
  -- ReadFrame takes the next frame, and its type is tested.
  expect_lem :
      (ack : SysCmd) (chunks : List (List ℕ)) (b rest : List ℕ) (f : Frame)
      (continue : List (List ℕ) → FrameBuffer → Ending Bool) (answer : Bool)
      → IsSendable f
      → AllFilled chunks
      → b ++ concat chunks ≡ encode e f ++ rest
      → ((later : List (List ℕ)) (left : List ℕ)
          → AllFilled later
          → left ++ concat later ≡ rest
          → continue later (record { buf = left }) ≡ ended answer)
      → expect e ack chunks (record { buf = b }) continue ≡ ended ((f.type == code ack) && answer)
  expect_lem ack chunks b rest f continue answer s filled eq goes_on =
      let r = read_frame-Reads e chunks b rest f s filled eq in
      let typed =
        (make_header-fields e f.type f.nid f.flag (length f.payload) s.type_fits s.nid_fits
          s.flag_fits s.payload_fits).0 in
      elim (Bool-cases (f.type == code ack)) [
        | inl same ↦
            rw (expect, r.result, typed) (rw same (goes_on r.later r.left r.filled r.stream))
        | inr other ↦ rw (expect, r.result, typed) (rw other refl)
      ]

  -- If the kernel takes some bytes in each send, and the stream that comes in, however it is cut,
  -- starts with two frames whose fields fit 32 bits, then Handshake for a command other than 0 ends,
  -- and answers true just when the first of them is an AUTH_ACK and the second a SUB_ACK.
  pub handshake_decides :
      (env : PeerEnv) (nid sub_cmd : ℕ) (opt : BenchOptions) (first second : Frame) (rest : List ℕ)
      → IsEager env.auth_kernel
      → IsEager env.sub_kernel
      → AllFilled env.chunks
      → IsSendable first
      → IsSendable second
      → concat env.chunks ≡ encode e first ++ (encode e second ++ rest)
      → sub_cmd ≢ 0
      → handshake e env nid opt sub_cmd
        ≡ ended ((first.type == code auth_ack) && (second.type == code sub_ack))
  unfolding handshake
  handshake_decides env nid sub_cmd opt first second rest auth_eager sub_eager filled s1 s2 eq
        some_cmd =
      let auth = encode_auth_frame e 1 opt.auth_user opt.auth_pass nid in
      let sub = encode_frame e (code sub_req) nid flag_sys (store32 e (host_to_be32 e sub_cmd)) in
      let (out, written_auth) = write_all-eager env.auth_kernel auth auth_eager in
      let (out', written_sub) = write_all-eager env.sub_kernel sub sub_eager in
      rw (handshake, written_auth)
        (expect_lem auth_ack env.chunks [] (encode e second ++ rest) first _
          (second.type == code sub_ack) s1 filled eq
          (λ later left filled' stream. rw (ne→not_== sub_cmd 0 some_cmd) (
            rw written_sub (
              expect_lem sub_ack later left rest second (λ chunks fb. ended true) true s2 filled'
                stream (λ later' left' filled'' stream'. refl)
              ∙ ap ended (and_true (second.type == code sub_ack))))))

  -- The same for the command 0, without a subscription: one frame decides.
  pub handshake_publisher :
      (env : PeerEnv) (nid : ℕ) (opt : BenchOptions) (first : Frame) (rest : List ℕ)
      → IsEager env.auth_kernel
      → AllFilled env.chunks
      → IsSendable first
      → concat env.chunks ≡ encode e first ++ rest
      → handshake e env nid opt 0 ≡ ended (first.type == code auth_ack)
  unfolding handshake
  handshake_publisher env nid opt first rest auth_eager filled sendable eq =
      let auth = encode_auth_frame e 1 opt.auth_user opt.auth_pass nid in
      let (out, written_auth) = write_all-eager env.auth_kernel auth auth_eager in
      rw (handshake, written_auth)
        (expect_lem auth_ack env.chunks [] rest first _ true sendable filled eq
            (λ later left filled' stream. refl)
          ∙ ap ended (and_true (first.type == code auth_ack)))
