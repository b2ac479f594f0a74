-- ===== src/Bench.antt =====
-- cmd/hi-im-bench/main.cpp: what the benchmark client sends and how it reads the answers.
pub mod Laws
pub mod Writing
pub mod Setup
pub mod Threads
pub mod Report
mod Tests
use mathlib.Core.Option
use hi_im_core.Wire.FrameBuffer
use hi_im_core.Prelude.{
  Bool, List, Option, [], drop, false, if◌then◌else◌, is_empty, length, ltb, max, memcpy, none,
  on_pop, replicate, some, suc, take, true, zero, ℕ, ℤ, ◌++◌, ◌+◌, ◌==◌, ◌∷◌,
}
use hi_im_core.Hub.Reactor.Output.{Kernel, SendResult, send_failed, sent, would_block}
use hi_im_core.Wire.Bytes.{Endian, host_to_be32, store32}
use hi_im_core.Wire.FrameBuffer.{FrameBuffer, FrameView, try_pop_frame}

-- `std::vector<uint8_t>(max(payload_size, 48), 0)` with the command and the node written into it.
unfoldable pub make_business_payload : Endian → ℕ → ℕ → List ℕ
make_business_payload e payload_size dest_nid =
    let payload = replicate (max payload_size 48) 0 in
    let typed = memcpy payload 0 (store32 e (host_to_be32 e 0x030B)) in
    memcpy typed 4 (store32 e (host_to_be32 e dest_nid))

-- The loop of WriteAll from the offset `off` on, at the k-th send: the answer, and the bytes that
-- went out. `none` means that the fuel ran out.
module _ (kernel : Kernel) where
  abbrev pub after_write :
      SendResult → ℕ → List ℕ → (ℕ → Option (Bool × List ℕ)) → Option (Bool × List ℕ)
  after_write (sent n) off bytes continue = elim (ltb 0 n) [
    | true ↦ Option.map (λ r. (r.0, take n (drop off bytes) ++ r.1)) (continue (off + n))
    | false ↦ some (false, [])
  ]
  after_write would_block off bytes continue = some (false, [])
  after_write send_failed off bytes continue = some (false, [])

  unfoldable pub write_from : ℕ → ℕ → ℕ → List ℕ → Option (Bool × List ℕ)
  write_from zero k off bytes = none
  write_from (suc fuel) k off bytes = elim (ltb off (length bytes)) [
    | true ↦ after_write (kernel k) off bytes (λ off'. write_from fuel (k + 1) off' bytes)
    | false ↦ some (true, [])
  ]

  unfoldable pub write_all : List ℕ → Option (Bool × List ℕ)
  unfolding write_from
  write_all bytes = write_from (length bytes + 1) 0 0 bytes

-- How a thread, or a function that reads or waits for threads, ends: with a value, still in recv after
-- it has counted some frames, or by an exception, which ends the program. A `fetch_add` is counted, and the
-- uint64_t is the remainder that `load` takes. `starved` means that the model's fuel ran out.
pub data Ending (A : Type 0) : Type 0 where
  ended : A → Ending A
  waits_in_recv : ℕ → Ending A
  threw : Ending A
  starved : Ending A

abbrev pub and_then : {A B : Type 0} → Ending A → (A → Ending B) → Ending B
and_then (ended a) f = f a
and_then (waits_in_recv n) f = waits_in_recv n
and_then threw f = threw
and_then starved f = starved

abbrev pub or_starved : {A : Type 0} → Option A → Ending A
or_starved none = starved
or_starved (some a) = ended a

module _ (e : Endian) where
  -- ReadFrame, with the chunks that recv returns: the frame, the buffer and the chunks left, or
  -- `none` for the answer false. An empty chunk is a result of 0 or less. The socket blocks, so the
  -- list ends with a recv that does not return.
  unfoldable pub read_frame :
      List (List ℕ) → FrameBuffer → Ending (Option (FrameView × FrameBuffer × List (List ℕ)))
  unfolding FrameBuffer.append
  read_frame [] fb =
      on_pop (try_pop_frame e fb) (λ fb'. waits_in_recv 0)
        (λ frame fb'. ended (some (frame, fb', [])))
  read_frame (chunk ∷ chunks) fb =
      on_pop (try_pop_frame e fb)
        (λ fb'. elim (is_empty chunk) [
          | true ↦ ended none
          | false ↦ read_frame chunks (FrameBuffer.append fb' chunk)
        ])
        (λ frame fb'. ended (some (frame, fb', chunk ∷ chunks)))

-- What is before and behind the last ':'; `none` if there is no ':'.
unfoldable pub split_last_colon : List ℕ → Option (List ℕ × List ℕ)
split_last_colon [] = none
split_last_colon (c ∷ text) =
    let rest = split_last_colon text in
    elim rest [
      | some (host, port) ↦ some (c ∷ host, port)
      | none ↦ if c == 58 then some ([], text) else none
    ]

-- How ParseHostPort ends: false, the host and the port, or what std::stoi throws.
pub data HostPort : Type 0 where
  no_separator bad_port : HostPort
  host_port : List ℕ → ℤ → HostPort

-- `stoi` is std::stoi: `none` if it throws.
unfoldable pub parse_host_port : (List ℕ → Option ℤ) → List ℕ → HostPort
unfolding split_last_colon
parse_host_port stoi addr = elim (split_last_colon addr) [
  | none ↦ no_separator
  | some (host, text) ↦ elim (stoi text) [ none ↦ bad_port | some port ↦ host_port host port ]
]
