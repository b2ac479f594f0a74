-- ===== src/Bench/Setup/Parsing.antt =====
-- The benchmark and the hub read an address alike.
use mathlib.Core.Option
use hi_im_core.Prelude.{
  Bool-cases, List, Option, Option-cases, [], inl, inr, refl, ℕ, ℤ, ◌==◌, ◌∷◌, ◌≡◌,
}
use hi_im_core.Bench.{
  HostPort, bad_port, host_port, no_separator, parse_host_port, split_last_colon,
}
use hi_im_core.Hub.Sockets.{Parsed, after_last_colon, no_colon, parse_port, parsed, throws}

split_last_colon_lem :
    (text : List ℕ) → after_last_colon text ≡ Option.map (λ r. r.1) (split_last_colon text)
unfolding split_last_colon after_last_colon
split_last_colon_lem [] = refl
split_last_colon_lem (c ∷ text) = elim (Option-cases (split_last_colon text)) [
  | inl nowhere ↦ elim (Bool-cases (c == 58)) [
    | inl colon ↦ rw (split_last_colon_lem text, nowhere) (rw colon refl)
    | inr other ↦ rw (split_last_colon_lem text, nowhere) (rw other refl)
  ]
  | inr (parts, somewhere) ↦ rw (split_last_colon_lem text, somewhere) refl
]

-- What the hub would make of the answer of the benchmark.
abbrev pub only_port : HostPort → Parsed
only_port no_separator = no_colon
only_port bad_port = throws
only_port (host_port host port) = parsed port

-- For any text, the hub and the benchmark find the same port, or both find no ':', or std::stoi
-- throws for both.
pub parse_port-parse_host_port :
    (stoi : List ℕ → Option ℤ) (addr : List ℕ)
    → parse_port stoi addr ≡ only_port (parse_host_port stoi addr)
unfolding parse_port parse_host_port
parse_port-parse_host_port stoi addr = elim (Option-cases (split_last_colon addr)) [
  | inl nowhere ↦ rw (parse_port, parse_host_port, split_last_colon_lem addr, nowhere) refl
  | inr ((host, text), somewhere) ↦ elim (Option-cases (stoi text)) [
    | inl bad ↦ rw (parse_port, parse_host_port, split_last_colon_lem addr, somewhere) (rw bad refl)
    | inr (port, good) ↦
        rw (parse_port, parse_host_port, split_last_colon_lem addr, somewhere) (rw good refl)
  ]
]
