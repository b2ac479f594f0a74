-- ===== src/Bench/Threads.antt =====
-- cmd/hi-im-bench/main.cpp: the threads of the benchmark.
pub mod Receiving
pub mod Sending
mod Tests
use hi_im_core.Wire.FrameBuffer
use hi_im_core.Prelude.{
  Bool, List, Option, [], false, if◌then◌else◌, is_empty, length, none, some, suc, true, ℕ, ℤ, ◌&&◌,
  ◌++◌, ◌+◌, ◌==◌, ◌∷◌,
}
use hi_im_core.Bench.{
  Ending, and_then, ended, make_business_payload, or_starved, starved, threw, waits_in_recv,
  write_all,
}
use hi_im_core.Bench.Setup.{
  BenchOptions, ClientCall, PeerEnv, Resolver, connect_tcp, handshake, socket_closed,
}
use hi_im_core.Hub.Queue.Spec.{popped}
use hi_im_core.Hub.Reactor.Output.{Kernel}
use hi_im_core.Wire.Bytes.{Endian}
use hi_im_core.Wire.FrameBuffer.{FrameBuffer, FrameView}
use hi_im_core.Wire.Header.{encode_frame, flag_exp, header_field_host}

-- What a thread leaves when it ends: whether it has stored false in `running`, what it has counted,
-- the bytes of its loop that went out, and its calls on sockets.
pub record ThreadEnd : Type 0 where
  pub stops : Bool
  pub counted : ℕ
  pub written : List ℕ
  pub calls : List ClientCall

-- A round of a receiving loop: its test is true and recv returns the bytes, none for 0 or an error,
-- where `count_now` tells whether frames are counted; or its test is false.
pub data Turn : Type 0 where
  received : Bool → List ℕ → Turn
  time_over : Turn

-- The inner loop of a receiving thread: the frames with kFlagExp are counted.
unfoldable pub count_frames : Endian → Bool → List FrameView → ℕ → ℕ
count_frames e count_now [] n = n
count_frames e count_now (f ∷ fs) n =
    count_frames e count_now fs
      (if count_now && header_field_host e f.header.flag == flag_exp then n + 1 else n)

-- The loop of the subscriber and of the receiver. The list ends with a recv that does not return.
unfoldable pub receiving_loop : Endian → List Turn → FrameBuffer → ℕ → Ending ℕ
unfolding count_frames
receiving_loop e [] fb n = waits_in_recv n
receiving_loop e (time_over ∷ turns) fb n = ended n
receiving_loop e (received count_now bytes ∷ turns) fb n = elim (is_empty bytes) [
  | true ↦ ended n
  | false ↦
      let fb' = FrameBuffer.append fb bytes in
      and_then (or_starved (FrameBuffer.pop_all e (suc (length fb'.buf)) fb'))
        (λ popped. receiving_loop e turns popped.1 (count_frames e count_now popped.0 n))
]

-- The receiver of the unicast benchmark counts from the start.
abbrev pub counts : Turn → Turn
counts (received count_now bytes) = received true bytes
counts time_over = time_over

-- The loop of a publisher and of the unicast sender, with what send returns in each WriteAll of a
-- round whose test is true: the frames that went out whole, and all the bytes that went out.
abbrev pub after_frame :
    Option (Bool × List ℕ) → ℕ → List ℕ → (ℕ → List ℕ → Ending (ℕ × List ℕ)) → Ending (ℕ × List ℕ)
after_frame none n out continue = starved
after_frame (some (false, bytes)) n out continue = ended (n, out ++ bytes)
after_frame (some (true, bytes)) n out continue = continue (n + 1) (out ++ bytes)

unfoldable pub sending_loop : List Kernel → List ℕ → ℕ → List ℕ → Ending (ℕ × List ℕ)
sending_loop [] frame n out = ended (n, out)
sending_loop (kernel ∷ kernels) frame n out =
    after_frame (write_all kernel frame) n out (sending_loop kernels frame)

-- What std::stoi, getaddrinfo and the peer do for a thread.
pub record ThreadEnv : Type 0 where
  pub stoi : List ℕ → Option ℤ
  pub resolve : Resolver
  pub peer : PeerEnv
  pub turns : List Turn
  pub kernels : List Kernel

-- A thread connects, logs in, goes through its loop and closes its descriptor; where it cannot
-- connect or log in it stops the others, which the unicast sender, that runs in the main thread,
-- leaves out.
abbrev pub stopped : List ClientCall → ThreadEnd
stopped calls = record { stops = true; counted = 0; written = []; calls = calls }

abbrev pub after_greeting :
    ℕ → List ClientCall → Ending Bool → Ending (ℕ × List ℕ) → Ending ThreadEnd
after_greeting fd calls greeting loop = and_then greeting (λ welcome. elim welcome [
  | false ↦ ended (stopped (calls ++ (socket_closed fd ∷ [])))
  | true ↦ and_then loop (λ r. ended (record {
    stops = false;
    counted = r.0;
    written = r.1;
    calls = calls ++ (socket_closed fd ∷ []);
  }))
])

abbrev pub after_connect :
    Option (Option ℕ × List ClientCall)
    → (ℕ → List ClientCall → Ending ThreadEnd)
    → Ending ThreadEnd
after_connect none continue = threw
after_connect (some (none, calls)) continue = ended (stopped calls)
after_connect (some (some fd, calls)) continue = continue fd calls

module _ (e : Endian) (opt : BenchOptions) where
  unfoldable pub receiving_thread : List ℕ → ℕ → List Turn → ThreadEnv → Ending ThreadEnd
  unfolding connect_tcp handshake receiving_loop
  receiving_thread addr nid turns env =
      after_connect (connect_tcp env.stoi env.resolve addr) (λ fd calls.
        after_greeting fd calls (handshake e env.peer nid opt opt.cmd)
          (and_then (receiving_loop e turns FrameBuffer.empty 0) (λ n. ended (n, []))))

  -- The frame that a sending loop writes.
  abbrev pub business_frame : ℕ → ℕ → List ℕ
  business_frame nid dest_nid =
      encode_frame e opt.cmd nid flag_exp (make_business_payload e opt.payload_size dest_nid)

  unfoldable pub sending_thread : List ℕ → ℕ → ℕ → ThreadEnv → Ending ThreadEnd
  unfolding connect_tcp handshake sending_loop make_business_payload
  sending_thread addr nid dest_nid env =
      after_connect (connect_tcp env.stoi env.resolve addr) (λ fd calls.
        after_greeting fd calls (handshake e env.peer nid opt 0)
          (sending_loop env.kernels (business_frame nid dest_nid) 0 []))
