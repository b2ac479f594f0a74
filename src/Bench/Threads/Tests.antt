-- ===== src/Bench/Threads/Tests.antt =====
-- The threads of the benchmark at concrete values.
use hi_im_core.Prelude.{
  List, [], ap, append-nil, arith, codes, false, ltb, none, pos, refl, same_text, some, true, ℕ,
  ◌++◌, ◌/◌, ◌∷◌, ◌≡◌,
}
use hi_im_core.Bench.{ended, parse_host_port, split_last_colon, waits_in_recv}
use hi_im_core.Bench.Report.{BenchEnv, Doubles, bench_main, rounds_of}
use hi_im_core.Bench.Report.Laws.{Meets, bench_main-waits}
use hi_im_core.Bench.Setup.{
  BenchNumbers, BenchOptions, ClientCall, connect_tcp, connect_tried, default_options, handshake,
  parse_bench_args, socket_closed, socket_made, socket_tuned, try_addresses,
}
use hi_im_core.Bench.Setup.Greeting.{handshake_decides, handshake_publisher}
use hi_im_core.Bench.Tests.{
  addresses, auth_answer, auth_answer-IsSendable, peer, sub_answer, sub_answer-IsSendable,
}
use hi_im_core.Bench.Threads.{ThreadEnv, received}
use hi_im_core.Bench.Threads.Receiving.{business_frames}
use hi_im_core.Hub.Delivery.Stages.{frame_not_empty}
use hi_im_core.Hub.Reactor.Output.{sent}
use hi_im_core.Options.{config}
use hi_im_core.Wire.Bytes.{little}
use hi_im_core.Wire.FrameBuffer.Pop.{Frame, IsSendable, encode}
use hi_im_core.Wire.Header.{flag_exp, flag_sys}
use hi_im_core.Wire.SysCmd.{auth_ack, code, sub_ack}

abbrev business : Frame
business = record { type = 779; nid = 30002; flag = flag_exp; payload = 1 ∷ 2 ∷ [] }

business-IsSendable : IsSendable business
business-IsSendable = record {
  type_fits = omega arith;
  nid_fits = omega arith;
  flag_fits = omega arith;
  payload_fits = omega arith;
}

abbrev whole_env : ThreadEnv
whole_env = record {
  stoi = λ text. some (pos 1);
  resolve = addresses;
  peer = peer;
  turns = received false (encode little business) ∷ [];
  kernels = (λ k. sent 1000) ∷ (λ k. sent 1000) ∷ [];
}

abbrev unicast_options : BenchOptions
unicast_options = record default_options { mode = codes "unicast" }

abbrev no_numbers : BenchNumbers
no_numbers = record { stoi = λ text. none; stoul = λ text. none; stoul_any = λ text. none }

-- Division is that of the integers.
abbrev whole_doubles : Doubles
whole_doubles = record {
  Double = ℕ;
  of_nat = λ n. n;
  of_int = rounds_of;
  over = λ a b. a / b;
  below = ltb;
}

abbrev bench_env : BenchOptions → BenchEnv
bench_env opt = record { receiver = whole_env; sender = whole_env; publishers = λ i. whole_env }

parsed_unicast :
    parse_bench_args no_numbers (codes "-mode" ∷ codes "unicast" ∷ []) ≡ config unicast_options
unfolding parse_bench_args same_text
parsed_unicast = refl

is_unicast : same_text unicast_options.mode (codes "unicast") ≡ true
unfolding same_text
is_unicast = refl

abbrev used : List ClientCall
used =
    socket_made 5
    ∷ connect_tried 5 false
    ∷ socket_closed 5
    ∷ socket_made 6
    ∷ connect_tried 6 true
    ∷ socket_tuned 6
    ∷ []

-- The two addresses of the hub.
reaches_backend :
    connect_tcp (λ text. some (pos 1)) addresses (codes "127.0.0.1:28889") ≡ some (some 6, used)
unfolding connect_tcp parse_host_port split_last_colon try_addresses
reaches_backend = refl

reaches_forward :
    connect_tcp (λ text. some (pos 1)) addresses (codes "127.0.0.1:28888") ≡ some (some 6, used)
unfolding connect_tcp parse_host_port split_last_colon try_addresses
reaches_forward = refl

whole_env-Meets : Meets little unicast_options whole_env (encode little business ∷ [])
whole_env-Meets = record {
  fd = 6;
  calls = used;
  connects = reaches_forward;
  greets =
      handshake_decides little peer 20002 779 unicast_options auth_answer sub_answer []
        (λ k. (3, omega arith, refl)) (λ k. (3, omega arith, refl))
        (
          frame_not_empty little (code auth_ack) 1 flag_sys [],
          (frame_not_empty little (code sub_ack) 1 flag_sys [], tt),
        )
        auth_answer-IsSendable sub_answer-IsSendable refl (λ h. absurd (omega arith));
  arrives = refl;
}

sender_answered : handshake little whole_env.peer 30002 unicast_options 0 ≡ ended true
sender_answered =
    handshake_publisher little peer 30002 unicast_options auth_answer (encode little sub_answer)
      (λ k. (3, omega arith, refl))
      (
        frame_not_empty little (code auth_ack) 1 flag_sys [],
        (frame_not_empty little (code sub_ack) 1 flag_sys [], tt),
      )
      auth_answer-IsSendable
      (ap (λ l. encode little auth_answer ++ l) (append-nil (encode little sub_answer)))

bench_main-waits_example :
    bench_main whole_doubles little no_numbers bench_env (codes "-mode" ∷ codes "unicast" ∷ [])
    ≡ waits_in_recv (business_frames (business ∷ []))
bench_main-waits_example =
    bench_main-waits whole_doubles little no_numbers bench_env
      (codes "-mode" ∷ codes "unicast" ∷ []) unicast_options (encode little business ∷ [])
      (business ∷ []) (some 6, used) true parsed_unicast is_unicast reaches_backend sender_answered
      whole_env-Meets (business-IsSendable, tt)
      (frame_not_empty little 779 30002 flag_exp (1 ∷ 2 ∷ []), tt) refl

-- One frame of the benchmark is counted, and the thread is in recv again.
counted_one : business_frames (business ∷ []) ≡ 1
unfolding business_frames
counted_one = refl
