-- ===== src/Bench/Report/Laws.antt =====
-- How the unicast benchmark ends.
use native.Mathlib.Nat.{zero-add}
use hi_im_core.Wire.FrameBuffer
use hi_im_core.Prelude.{
  Bool, List, Option, [], ap, append-nil, codes, inl, inr, map, refl, same_text, some, sym, true, ℕ,
  ◌∙◌, ◌≡◌,
}
use hi_im_core.Bench.{ended, waits_in_recv}
use hi_im_core.Bench.Report.{BenchEnv, Doubles, bench_main, run_mode, run_unicast_bench}
use hi_im_core.Bench.Setup.{
  BenchNumbers, BenchOptions, ClientCall, connect_tcp, handshake, parse_bench_args,
}
use hi_im_core.Bench.Setup.Greeting.{AllFilled}
use hi_im_core.Bench.Threads.{ThreadEnv, counts, received, receiving_loop, receiving_thread}
use hi_im_core.Bench.Threads.Receiving.{business_frames, receiving_loop-counts}
use hi_im_core.Bench.Threads.Sending.{sending_thread-Tidy}
use hi_im_core.Options.{config}
use hi_im_core.Wire.Bytes.{Endian}
use hi_im_core.Wire.FrameBuffer.{FrameBuffer}
use hi_im_core.Wire.FrameBuffer.Pop.{Frame}
use hi_im_core.Wire.FrameBuffer.Stream.{AllSendable, concat, encode_all}

module _ (e : Endian) (opt : BenchOptions) where
  -- What the receiver of the unicast benchmark meets: it connects, its handshake succeeds, and then
  -- come the chunks, in time, and no more.
  pub record Meets (env : ThreadEnv) (chunks : List (List ℕ)) : Type 0 where
    pub fd : ℕ
    pub calls : List ClientCall
    pub connects : connect_tcp env.stoi env.resolve opt.forward_addr ≡ some (some fd, calls)
    pub greets : handshake e env.peer 20002 opt opt.cmd ≡ ended true
    pub arrives : map counts env.turns ≡ map (received true) chunks

module _ (e : Endian) (opt : BenchOptions) (receiver : ThreadEnv) (chunks : List (List ℕ))
    (fs : List Frame) where
  receiving_thread-waits :
      Meets e opt receiver chunks
      → AllSendable fs
      → AllFilled chunks
      → concat chunks ≡ encode_all e fs
      → receiving_thread e opt opt.forward_addr 20002 (map counts receiver.turns) receiver
        ≡ waits_in_recv (business_frames fs)
  unfolding receiving_thread receiving_loop
  receiving_thread-waits meets s filled eq =
      rw (meets.connects, meets.greets, meets.arrives) (rw still_in_recv refl)
    where
      still_in_recv :
          receiving_loop e (map (received true) chunks) FrameBuffer.empty 0
          ≡ waits_in_recv (business_frames fs)
      still_in_recv =
          ap (λ turns. receiving_loop e turns FrameBuffer.empty 0)
            (sym (append-nil (map (received true) chunks)))
          ∙ receiving_loop-counts e [] fs chunks 0 s filled eq
          ∙ ap waits_in_recv (zero-add (business_frames fs))

  run_unicast_bench-waits :
      (sender : ThreadEnv) (r : Option ℕ × List ClientCall) (welcome : Bool)
      → connect_tcp sender.stoi sender.resolve opt.backend_addr ≡ some r
      → handshake e sender.peer 30002 opt 0 ≡ ended welcome
      → Meets e opt receiver chunks
      → AllSendable fs
      → AllFilled chunks
      → concat chunks ≡ encode_all e fs
      → run_unicast_bench e opt receiver sender ≡ waits_in_recv (business_frames fs)
  unfolding run_unicast_bench
  run_unicast_bench-waits sender r welcome connects greeted meets s filled eq =
      elim (sending_thread-Tidy e opt opt.backend_addr 30002 20002 sender r connects) [
        | inl (t, ends, tidy, frames) ↦ rw (ends, receiving_thread-waits meets s filled eq) refl
        | inr (silent, _) ↦ absurd (cc (silent, greeted))
      ]

-- The unicast benchmark does not end where the frames stop before the time is over: if the Handshake
-- of its sender is answered, well or not, its receiver has logged in, and then gets a stream of
-- frames, however cut, whose fields fit 32 bits, and all of it in time, then the sender ends, and main waits for the receiver, which has counted exactly the
-- business frames of the stream and is in recv again, also with no frame at all.
pub bench_main-waits :
    (d : Doubles) (e : Endian) (numbers : BenchNumbers) (env : BenchOptions → BenchEnv)
    (args : List (List ℕ)) (opt : BenchOptions) (chunks : List (List ℕ)) (fs : List Frame)
    (r : Option ℕ × List ClientCall) (welcome : Bool)
    → parse_bench_args numbers args ≡ config opt
    → same_text opt.mode (codes "unicast") ≡ true
    → connect_tcp (env opt).sender.stoi (env opt).sender.resolve opt.backend_addr ≡ some r
    → handshake e (env opt).sender.peer 30002 opt 0 ≡ ended welcome
    → Meets e opt (env opt).receiver chunks
    → AllSendable fs
    → AllFilled chunks
    → concat chunks ≡ encode_all e fs
    → bench_main d e numbers env args ≡ waits_in_recv (business_frames fs)
unfolding bench_main run_mode
bench_main-waits d e numbers env args opt chunks fs r welcome parsed_as unicast connects greeted
      meets s filled eq =
    rw (bench_main, parsed_as)
      (rw (run_mode, unicast)
        (rw
          (run_unicast_bench-waits e opt (env opt).receiver chunks fs (env opt).sender r welcome
            connects greeted meets s filled eq)
          refl))
