-- ===== src/Bench/Setup.antt =====
-- cmd/hi-im-bench/main.cpp: the arguments of the benchmark, and how it connects and logs in.
pub mod Connecting
pub mod Greeting
pub mod Parsing
use mathlib.Core.Option
use hi_im_core.Wire.FrameBuffer
use hi_im_core.Prelude.{
  Bool, List, Option, [], codes, false, if◌then◌else◌, none, not, pos, some, true, ℕ, ℤ, ◌%◌, ◌++◌,
  ◌==◌, ◌^◌, ◌∷◌,
}
use hi_im_core.Bench.{
  Ending, and_then, bad_port, ended, host_port, no_separator, parse_host_port, read_frame, starved,
  write_all,
}
use hi_im_core.Hub.Reactor.Output.{Kernel}
use hi_im_core.Options.{Args, Setting, parse_options, setting_in, unknown}
use hi_im_core.Wire.Auth.{encode_auth_frame}
use hi_im_core.Wire.Bytes.{Endian, host_to_be32, store32}
use hi_im_core.Wire.FrameBuffer.{FrameBuffer, FrameView}
use hi_im_core.Wire.Header.{encode_frame, flag_sys, header_field_host}
use hi_im_core.Wire.SysCmd.{SysCmd, auth_ack, code, sub_ack, sub_req}

-- `duration` in seconds.
pub record BenchOptions : Type 0 where
  pub forward_addr : List ℕ
  pub backend_addr : List ℕ
  pub mode : List ℕ
  pub duration : ℤ
  pub payload_size : ℕ
  pub publishers : ℤ
  pub cmd : ℕ
  pub auth_user : List ℕ
  pub auth_pass : List ℕ

abbrev pub default_options : BenchOptions
default_options = record {
  forward_addr = codes "127.0.0.1:28888";
  backend_addr = codes "127.0.0.1:28889";
  mode = codes "publish";
  duration = pos 10;
  payload_size = 256;
  publishers = pos 4;
  cmd = 0x030B;
  auth_user = codes "proxy";
  auth_pass = codes "proxy";
}

-- The numbers of the standard library: `none` if it throws. `stoul_any` is std::stoul with the base
-- that the text says.
pub record BenchNumbers : Type 0 where
  pub stoi : List ℕ → Option ℤ
  pub stoul : List ℕ → Option ℕ
  pub stoul_any : List ℕ → Option ℕ

-- A text without its last byte, if that is an 's'.
unfoldable pub without_s : List ℕ → List ℕ
without_s [] = []
without_s (c ∷ []) = if c == 115 then [] else c ∷ []
without_s (c ∷ d ∷ text) = c ∷ without_s (d ∷ text)

-- What an option sets.
abbrev Setter : Type 0
Setter = List ℕ → BenchOptions → Option BenchOptions

abbrev pub bench_options :
    BenchNumbers → List (List ℕ × (List ℕ → BenchOptions → Option BenchOptions))
bench_options numbers =
    let mode : Setter = λ v o. some (record o { mode = v }) in
    let duration : Setter =
      λ v o. Option.map (λ n. record o { duration = n }) (numbers.stoi (without_s v)) in
    let payload : Setter =
      λ v o. Option.map (λ n. record o { payload_size = n }) (numbers.stoul v) in
    let publishers : Setter =
      λ v o. Option.map (λ n. record o { publishers = n }) (numbers.stoi v) in
    let forward_to : Setter = λ v o. some (record o { forward_addr = v }) in
    let backend_to : Setter = λ v o. some (record o { backend_addr = v }) in
    let command : Setter =
      λ v o. Option.map (λ n. record o { cmd = n % 2 ^ 32 }) (numbers.stoul_any v) in
    (codes "-mode", mode)
    ∷ (codes "--mode", mode)
    ∷ (codes "-duration", duration)
    ∷ (codes "--duration", duration)
    ∷ (codes "-payload", payload)
    ∷ (codes "--payload", payload)
    ∷ (codes "-publishers", publishers)
    ∷ (codes "--publishers", publishers)
    ∷ (codes "-forward", forward_to)
    ∷ (codes "--forward", forward_to)
    ∷ (codes "-backend", backend_to)
    ∷ (codes "--backend", backend_to)
    ∷ (codes "-cmd", command)
    ∷ (codes "--cmd", command)
    ∷ (codes "--auth-user", λ v o. some (record o { auth_user = v }))
    ∷ (codes "--auth-pass", λ v o. some (record o { auth_pass = v }))
    ∷ []

unfoldable pub bench_setting : BenchNumbers → List ℕ → Setting BenchOptions
unfolding setting_in
bench_setting numbers arg = setting_in (bench_options numbers) unknown arg

-- The arguments behind the program's name.
unfoldable pub parse_bench_args : BenchNumbers → List (List ℕ) → Args BenchOptions
unfolding parse_options bench_setting
parse_bench_args numbers args = parse_options (bench_setting numbers) args default_options

-- An address that getaddrinfo found: what socket returns for it, `none` for -1, and whether connect
-- succeeds.
pub record Attempt : Type 0 where
  pub socket : Option ℕ
  pub connects : Bool

-- The calls on sockets.
pub data ClientCall : Type 0 where
  socket_made : ℕ → ClientCall
  connect_tried : ℕ → Bool → ClientCall
  socket_closed : ℕ → ClientCall
  socket_tuned : ℕ → ClientCall

abbrev pub before_calls : List ClientCall → Option ℕ × List ClientCall → Option ℕ × List ClientCall
before_calls calls (fd, later) = (fd, calls ++ later)

-- The loop over the addresses: the connected descriptor, and the calls.
unfoldable pub try_addresses : List Attempt → Option ℕ × List ClientCall
try_addresses [] = (none, [])
try_addresses (a ∷ attempts) =
    let rest = try_addresses attempts in
    elim a.socket [
      | none ↦ rest
      | some fd ↦
          if a.connects
          then (some fd, socket_made fd ∷ connect_tried fd true ∷ [])
          else before_calls (socket_made fd ∷ connect_tried fd false ∷ socket_closed fd ∷ []) rest
    ]

abbrev pub tune : Option ℕ × List ClientCall → Option ℕ × List ClientCall
tune (none, calls) = (none, calls)
tune (some fd, calls) = (some fd, calls ++ (socket_tuned fd ∷ []))

-- What getaddrinfo finds for a host and a port, `none` where it fails.
abbrev pub Resolver : Type 0
Resolver = List ℕ → ℤ → Option (List Attempt)

-- How ConnectTcp ends: its descriptor or -1 with the calls, or what std::stoi throws.
unfoldable pub connect_tcp :
    (List ℕ → Option ℤ) → Resolver → List ℕ → Option (Option ℕ × List ClientCall)
unfolding parse_host_port try_addresses
connect_tcp stoi resolve addr = elim (parse_host_port stoi addr) [
  | no_separator ↦ some (none, [])
  | bad_port ↦ none
  | host_port host port ↦ elim (resolve host port) [
    | none ↦ some (none, [])
    | some attempts ↦ some (tune (try_addresses attempts))
  ]
]

-- The three writes and reads of Handshake: what send returns during each WriteAll, and the chunks
-- that recv returns.
pub record PeerEnv : Type 0 where
  pub auth_kernel : Kernel
  pub sub_kernel : Kernel
  pub chunks : List (List ℕ)

abbrev pub after_written : Option (Bool × List ℕ) → Ending Bool → Ending Bool
after_written none continue = starved
after_written (some (false, bytes)) continue = ended false
after_written (some (true, bytes)) continue = continue

-- The test of the type of the frame that ReadFrame has delivered, and what follows.
abbrev pub tested :
    Endian
    → SysCmd
    → (List (List ℕ) → FrameBuffer → Ending Bool)
    → Option (FrameView × FrameBuffer × List (List ℕ))
    → Ending Bool
tested e ack continue none = ended false
tested e ack continue (some (frame, fb, chunks)) =
    if not (header_field_host e frame.header.type == code ack)
    then ended false
    else continue chunks fb

abbrev pub expect :
    Endian
    → SysCmd
    → List (List ℕ)
    → FrameBuffer
    → (List (List ℕ) → FrameBuffer → Ending Bool)
    → Ending Bool
expect e ack chunks fb continue = and_then (read_frame e chunks fb) (tested e ack continue)

-- Handshake, with its answer, or still in recv; the fuel of its writes never runs out.
unfoldable pub handshake : Endian → PeerEnv → ℕ → BenchOptions → ℕ → Ending Bool
unfolding encode_auth_frame write_all read_frame
handshake e env nid opt sub_cmd =
    after_written
      (write_all env.auth_kernel (encode_auth_frame e 1 opt.auth_user opt.auth_pass nid))
      (expect e auth_ack env.chunks FrameBuffer.empty (λ chunks fb. elim (sub_cmd == 0) [
        | true ↦ ended true
        | false ↦
            after_written
              (write_all env.sub_kernel
                (encode_frame e (code sub_req) nid flag_sys (store32 e (host_to_be32 e sub_cmd))))
              (expect e sub_ack chunks fb (λ chunks' fb'. ended true))
      ]))
