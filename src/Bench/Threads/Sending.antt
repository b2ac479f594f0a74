-- ===== src/Bench/Threads/Sending.antt =====
-- What the sending threads of the benchmark put on their connections, and what they leave open.
use hi_im_core.Wire.FrameBuffer
use hi_im_core.Prelude.{
  Bool, Bool-cases, List, Option, [], ap, append-nil, append_assoc, ap₂, arith, false, inl, inr,
  is_empty, none, on_pop, refl, some, subst, suc, sym, true, zero, ℕ, ◌++◌, ◌+◌, ◌==◌, ◌∙◌, ◌∷◌,
  ◌≡◌, ◌⊎◌,
}
use hi_im_core.Bench.{Ending, and_then, ended, read_frame, waits_in_recv, write_all}
use hi_im_core.Bench.Setup.{
  BenchOptions, ClientCall, PeerEnv, after_written, connect_tcp, expect, handshake, socket_closed,
  tested,
}
use hi_im_core.Bench.Setup.Connecting.{
  LeavesOpen, connect_tcp-LeavesOpen, open_after, open_after-append,
}
use hi_im_core.Bench.Threads.{
  ThreadEnd, ThreadEnv, after_connect, after_frame, after_greeting, business_frame, sending_loop,
  sending_thread, stopped,
}
use hi_im_core.Bench.Writing.{IsWritten, write_all-Writes}
use hi_im_core.Hub.Listener.Opening.{close_only}
use hi_im_core.Hub.Reactor.Output.{Kernel}
use hi_im_core.Wire.Auth.{encode_auth_frame}
use hi_im_core.Wire.Bytes.{Endian, host_to_be32, store32}
use hi_im_core.Wire.FrameBuffer.{FrameBuffer, FrameView, try_pop_frame}
use hi_im_core.Wire.Header.{encode_frame, flag_sys, header_field_host}
use hi_im_core.Wire.SysCmd.{SysCmd, auth_ack, code, sub_ack, sub_req}

-- n copies of the bytes.
abbrev pub copies : ℕ → List ℕ → List ℕ
copies zero bytes = []
copies (suc n) bytes = bytes ++ copies n bytes

copies-snoc : (n : ℕ) (bytes : List ℕ) → copies n bytes ++ bytes ≡ copies (n + 1) bytes
copies-snoc n bytes =
    subst (λ m. copies n bytes ++ bytes ≡ copies m bytes) {x = suc n} (omega arith) (at_end n)
  where
    at_end : (m : ℕ) → copies m bytes ++ bytes ≡ copies (suc m) bytes
    at_end zero = sym (append-nil bytes)
    at_end (suc m) = append_assoc bytes (copies m bytes) bytes ∙ ap (λ l. bytes ++ l) (at_end m)

-- The frame has gone out whole n times, and after that a front of it.
abbrev pub AreFrames : List ℕ → ℕ → List ℕ → Type 0
AreFrames frame n out =
    (front : List ℕ) × (rest : List ℕ) × (front ++ rest ≡ frame) × (out ≡ copies n frame ++ front)

abbrev Sends : List ℕ → Ending (ℕ × List ℕ) → Type 0
Sends frame m = (r : ℕ × List ℕ) × (m ≡ ended r) × AreFrames frame r.0 r.1

after_frame-Sends :
    (frame out : List ℕ) (n : ℕ) (r : Bool × List ℕ) (continue : ℕ → List ℕ → Ending (ℕ × List ℕ))
    → out ≡ copies n frame
    → IsWritten frame r
    → ((out' : List ℕ) → out' ≡ copies (n + 1) frame → Sends frame (continue (n + 1) out'))
    → Sends frame (after_frame (some r) n out continue)
after_frame-Sends frame out n (true, bytes) continue so_far (inl (success, all)) rest =
    rest (out ++ bytes) (ap₂ ◌++◌ so_far all ∙ copies-snoc n frame)
after_frame-Sends frame out n (true, bytes) continue so_far (inr (failure, front)) rest =
    absurd (cc failure)
after_frame-Sends frame out n (false, bytes) continue so_far (inl (success, all)) rest =
    absurd (cc success)
after_frame-Sends frame out n (false, bytes) continue so_far (inr (failure, (more, front))) rest =
    ((n, out ++ bytes), refl, (bytes, more, front, ap (λ l. l ++ bytes) so_far))

sending_loop-Sends :
    (kernels : List Kernel) (frame out : List ℕ) (n : ℕ)
    → out ≡ copies n frame
    → Sends frame (sending_loop kernels frame n out)
unfolding sending_loop
sending_loop-Sends [] frame out n so_far =
    ((n, out), refl, ([], frame, refl, so_far ∙ sym (append-nil (copies n frame))))
sending_loop-Sends (kernel ∷ kernels) frame out n so_far =
    let (r, all_written, good) = write_all-Writes kernel frame in
    rw all_written (
      after_frame-Sends frame out n r _ so_far good
        (λ out' so_far'. sending_loop-Sends kernels frame out' (n + 1) so_far'))

-- With an answer, or in recv.
abbrev pub EndsOrWaits : Ending Bool → Type 0
EndsOrWaits m = ((b : Bool) × (m ≡ ended b)) ⊎ (m ≡ waits_in_recv 0)

-- Handshake ends or waits for the peer in recv, whatever the peer does.
after_written-ends :
    (kernel : Kernel) (bytes : List ℕ) (m : Ending Bool)
    → EndsOrWaits m
    → EndsOrWaits (after_written (write_all kernel bytes) m)
after_written-ends kernel bytes m rest =
    let (r, all_written, good) = write_all-Writes kernel bytes in
    rw all_written (by_answer r.0 r.1 rest)
  where
    by_answer :
        (a : Bool) (out : List ℕ) → EndsOrWaits m → EndsOrWaits (after_written (some (a, out)) m)
    by_answer true out h = h
    by_answer false out h = inl (false, refl)

-- ReadFrame too.
read_frame-ends :
    (e : Endian) (chunks : List (List ℕ)) (fb : FrameBuffer)
    → ((r : Option (FrameView × FrameBuffer × List (List ℕ))) × (read_frame e chunks fb ≡ ended r))
      ⊎ (read_frame e chunks fb ≡ waits_in_recv 0)
unfolding read_frame
read_frame-ends e [] fb = last (try_pop_frame e fb)
  where
    at_end :
        Option FrameView × FrameBuffer → Ending (Option (FrameView × FrameBuffer × List (List ℕ)))
    at_end p = on_pop p (λ fb'. waits_in_recv 0) (λ frame fb'. ended (some (frame, fb', [])))

    last :
        (p : Option FrameView × FrameBuffer)
        → ((r : Option (FrameView × FrameBuffer × List (List ℕ))) × (at_end p ≡ ended r))
          ⊎ (at_end p ≡ waits_in_recv 0)
    last (none, fb') = inr refl
    last (some frame, fb') = inl (some (frame, fb', []), refl)
read_frame-ends e (chunk ∷ chunks) fb =
    next (λ fb'. read_frame-ends e chunks (FrameBuffer.append fb' chunk)) (try_pop_frame e fb)
  where
    reading :
        Option FrameView × FrameBuffer → Ending (Option (FrameView × FrameBuffer × List (List ℕ)))
    reading p =
        on_pop p
          (λ fb'. elim (is_empty chunk) [
            | true ↦ ended none
            | false ↦ read_frame e chunks (FrameBuffer.append fb' chunk)
          ])
          (λ frame fb'. ended (some (frame, fb', chunk ∷ chunks)))

    next :
        ((fb' : FrameBuffer)
          → ((r : Option (FrameView × FrameBuffer × List (List ℕ))) × (read_frame e chunks
                  (FrameBuffer.append fb' chunk)
                ≡ ended r))
            ⊎ (read_frame e chunks (FrameBuffer.append fb' chunk) ≡ waits_in_recv 0))
        → (p : Option FrameView × FrameBuffer)
        → ((r : Option (FrameView × FrameBuffer × List (List ℕ))) × (reading p ≡ ended r))
          ⊎ (reading p ≡ waits_in_recv 0)
    next later (none, fb') = elim (Bool-cases (is_empty chunk)) [
      | inl over ↦ inl (none, rw over refl)
      | inr more ↦ rw more (later fb')
    ]
    next later (some frame, fb') = inl (some (frame, fb', chunk ∷ chunks), refl)

expect-ends :
    (e : Endian) (ack : SysCmd) (chunks : List (List ℕ)) (fb : FrameBuffer)
    (continue : List (List ℕ) → FrameBuffer → Ending Bool)
    → ((chunks' : List (List ℕ)) (fb' : FrameBuffer) → EndsOrWaits (continue chunks' fb'))
    → EndsOrWaits (expect e ack chunks fb continue)
expect-ends e ack chunks fb continue rest = elim (read_frame-ends e chunks fb) [
  | inl (r, reading) ↦ rw (expect, reading) (by_type r)
  | inr silent ↦ inr (rw (expect, silent) refl)
]
  where
    by_type :
        (r : Option (FrameView × FrameBuffer × List (List ℕ)))
        → EndsOrWaits (tested e ack continue r)
    by_type none = inl (false, refl)
    by_type (some (frame, fb', chunks')) =
        elim (Bool-cases (header_field_host e frame.header.type == code ack)) [
          | inl same ↦ rw same (rest chunks' fb')
          | inr other ↦ inl (false, rw other refl)
        ]

pub handshake_ends :
    (e : Endian) (env : PeerEnv) (nid sub_cmd : ℕ) (opt : BenchOptions)
    → EndsOrWaits (handshake e env nid opt sub_cmd)
unfolding handshake
handshake_ends e env nid sub_cmd opt =
    after_written-ends env.auth_kernel (encode_auth_frame e 1 opt.auth_user opt.auth_pass nid) _ (
      expect-ends e auth_ack env.chunks FrameBuffer.empty (subscribing (sub_cmd == 0))
        (subscribing-ends (sub_cmd == 0)))
  where
    sub_frame : List ℕ
    sub_frame = encode_frame e (code sub_req) nid flag_sys (store32 e (host_to_be32 e sub_cmd))

    granted : List (List ℕ) → FrameBuffer → Ending Bool
    granted chunks fb = expect e sub_ack chunks fb (λ chunks' fb'. ended true)

    subscribing : Bool → List (List ℕ) → FrameBuffer → Ending Bool
    subscribing none_asked chunks fb = elim none_asked [
      | true ↦ ended true
      | false ↦ after_written (write_all env.sub_kernel sub_frame) (granted chunks fb)
    ]

    subscribing-ends :
        (none_asked : Bool) (chunks : List (List ℕ)) (fb : FrameBuffer)
        → EndsOrWaits (subscribing none_asked chunks fb)
    subscribing-ends true chunks fb = inl (true, refl)
    subscribing-ends false chunks fb =
        after_written-ends env.sub_kernel sub_frame (granted chunks fb) (
          expect-ends e sub_ack chunks fb (λ chunks' fb'. ended true)
            (λ chunks' fb'. inl (true, refl)))

module _ (e : Endian) (opt : BenchOptions) (addr : List ℕ) (nid dest_nid : ℕ)
    (env : ThreadEnv) where
  -- The thread ends with its descriptors closed, after some whole frames and a front of one.
  abbrev pub Tidy : Ending ThreadEnd → Type 0
  Tidy m =
      (t : ThreadEnd) × (m ≡ ended t)
      × (open_after t.calls [] ≡ [])
      × AreFrames (business_frame e opt nid dest_nid) t.counted t.written

  closing :
      (fd : ℕ) (calls : List ClientCall)
      → LeavesOpen (some fd, calls)
      → open_after (calls ++ (socket_closed fd ∷ [])) [] ≡ []
  unfolding open_after
  closing fd calls only =
      open_after-append calls (socket_closed fd ∷ []) []
      ∙ ap (open_after (socket_closed fd ∷ [])) only
      ∙ close_only fd

  greeted-Tidy :
      (fd : ℕ) (calls : List ClientCall) (b : Bool)
      → LeavesOpen (some fd, calls)
      → Tidy (
          after_greeting fd calls
            (ended b)
            (sending_loop env.kernels (business_frame e opt nid dest_nid) 0 []))
  greeted-Tidy fd calls false only = (
    stopped (calls ++ (socket_closed fd ∷ [])),
    refl,
    closing fd calls only,
    ([], business_frame e opt nid dest_nid, refl, refl),
  )
  greeted-Tidy fd calls true only =
      let frame = business_frame e opt nid dest_nid in
      let (r, ends, frames) = sending_loop-Sends env.kernels frame [] 0 refl in
      (
        record {
          stops = false;
          counted = r.0;
          written = r.1;
          calls = calls ++ (socket_closed fd ∷ []);
        },
        ap
            (λ m. and_then m (λ r'. ended (record {
              stops = false;
              counted = r'.0;
              written = r'.1;
              calls = calls ++ (socket_closed fd ∷ []);
            })))
            ends,
        closing fd calls only,
        frames,
      )

  -- Tidy, or the thread waits for ever for the answer of the peer to its login.
  abbrev pub TidyOrWaits : Ending ThreadEnd → Type 0
  TidyOrWaits m =
      Tidy m ⊎ ((handshake e env.peer nid opt 0 ≡ waits_in_recv 0) × (m ≡ waits_in_recv 0))

  connected-Tidy :
      (r : Option ℕ × List ClientCall)
      → LeavesOpen r
      → TidyOrWaits (
          after_connect (some r) (λ fd calls.
            after_greeting fd calls
              (handshake e env.peer nid opt 0)
              (sending_loop env.kernels (business_frame e opt nid dest_nid) 0 [])))
  connected-Tidy (none, calls) only =
      inl (stopped calls, refl, only, ([], business_frame e opt nid dest_nid, refl, refl))
  connected-Tidy (some fd, calls) only = elim (handshake_ends e env.peer nid 0 opt) [
    | inl (b, greets) ↦ inl (rw greets (greeted-Tidy fd calls b only))
    | inr silent ↦ inr (silent, rw silent refl)
  ]

  pub sending_thread-Tidy :
      (r : Option ℕ × List ClientCall)
      → connect_tcp env.stoi env.resolve addr ≡ some r
      → TidyOrWaits (sending_thread e opt addr nid dest_nid env)
  unfolding sending_thread
  sending_thread-Tidy r connects =
      rw connects (connected-Tidy r (connect_tcp-LeavesOpen env.stoi env.resolve addr r connects))
