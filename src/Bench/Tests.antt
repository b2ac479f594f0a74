-- ===== src/Bench/Tests.antt =====
-- The benchmark client at concrete values.
use hi_im_core.Im
use hi_im_core.Prelude.{[], arith, false, none, pos, refl, some, true, ◌∷◌, ◌≡◌}
use hi_im_core.Bench.{ended, make_business_payload, parse_host_port, split_last_colon}
use hi_im_core.Bench.Laws.{read_dest_nid-make_business_payload}
use hi_im_core.Bench.Setup.{
  PeerEnv, Resolver, connect_tcp, connect_tried, default_options, handshake, socket_closed,
  socket_made, socket_tuned, try_addresses,
}
use hi_im_core.Bench.Setup.Greeting.{handshake_decides}
use hi_im_core.Bench.Setup.Parsing.{only_port, parse_port-parse_host_port}
use hi_im_core.Hub.Delivery.Stages.{frame_not_empty}
use hi_im_core.Hub.Reactor.Output.{sent}
use hi_im_core.Hub.Sockets.{parse_port}
use hi_im_core.Wire.Bytes.{little}
use hi_im_core.Wire.FrameBuffer.Pop.{Frame, IsSendable, encode}
use hi_im_core.Wire.Header.{flag_sys}
use hi_im_core.Wire.SysCmd.{auth_ack, code, sub_ack}

read_dest_nid-make_business_payload_example :
    Im.read_dest_nid little (make_business_payload little 256 30001) ≡ 0
read_dest_nid-make_business_payload_example = read_dest_nid-make_business_payload little 256 30001

abbrev pub addresses : Resolver
addresses host port = some (
    record { socket = none; connects = true }
    ∷ record { socket = some 5; connects = false }
    ∷ record { socket = some 6; connects = true }
    ∷ [])

pub connected :
    connect_tcp (λ text. some (pos 1)) addresses (97 ∷ 58 ∷ 49 ∷ [])
    ≡ some (
      some 6,
      socket_made 5
          ∷ connect_tried 5 false
          ∷ socket_closed 5
          ∷ socket_made 6
          ∷ connect_tried 6 true
          ∷ socket_tuned 6
          ∷ [],
    )
unfolding connect_tcp parse_host_port split_last_colon try_addresses
connected = refl

parse_port-parse_host_port_example :
    parse_port (λ text. some (pos 1)) (97 ∷ 58 ∷ 49 ∷ [])
    ≡ only_port (parse_host_port (λ text. some (pos 1)) (97 ∷ 58 ∷ 49 ∷ []))
parse_port-parse_host_port_example =
    parse_port-parse_host_port (λ text. some (pos 1)) (97 ∷ 58 ∷ 49 ∷ [])

-- The answers of a hub that accepts.
abbrev pub auth_answer : Frame
auth_answer = record { type = code auth_ack; nid = 1; flag = flag_sys; payload = [] }

abbrev pub sub_answer : Frame
sub_answer = record { type = code sub_ack; nid = 1; flag = flag_sys; payload = [] }

abbrev pub peer : PeerEnv
peer = record {
  auth_kernel = λ k. sent 3;
  sub_kernel = λ k. sent 3;
  chunks = encode little auth_answer ∷ encode little sub_answer ∷ [];
}

pub auth_answer-IsSendable : IsSendable auth_answer
auth_answer-IsSendable = record {
  type_fits = omega arith;
  nid_fits = omega arith;
  flag_fits = omega arith;
  payload_fits = omega arith;
}

pub sub_answer-IsSendable : IsSendable sub_answer
sub_answer-IsSendable = record {
  type_fits = omega arith;
  nid_fits = omega arith;
  flag_fits = omega arith;
  payload_fits = omega arith;
}

handshake_decides_example : handshake little peer 1 default_options 779 ≡ ended true
handshake_decides_example =
    handshake_decides little peer 1 779 default_options auth_answer sub_answer []
      (λ k. (3, omega arith, refl)) (λ k. (3, omega arith, refl))
      (
        frame_not_empty little (code auth_ack) 1 flag_sys [],
        (frame_not_empty little (code sub_ack) 1 flag_sys [], tt),
      )
      auth_answer-IsSendable sub_answer-IsSendable refl (λ h. absurd (omega arith))
