-- ===== src/Hub/Sockets.antt =====
-- The listening sockets of src/hub/listener.cpp and src/hub/health_server.cpp. What the kernel
-- answers is a parameter.
use hi_im_core.Prelude.{
  Bool, List, Option, [], if◌then◌else◌, negsuc, none, not, pos, some, ℕ, ℤ, ◌%◌, ◌-◌, ◌==◌, ◌^◌,
  ◌∷◌,
}

-- A call on a listening socket: `bind_to fd port`, `listen_on fd backlog`.
pub data SocketCall : Type 0 where
  created reuse_addr : ℕ → SocketCall
  bind_to listen_on : ℕ → ℕ → SocketCall
  shut_down close_socket : ℕ → SocketCall

-- What socket returns (`none` is -1), and whether bind and listen succeed.
pub record SocketEnv : Type 0 where
  pub socket : Option ℕ
  pub binds : Bool
  pub listens : Bool

-- `static_cast<uint16_t>(port)`
abbrev pub port16 : ℤ → ℕ
port16 (pos n) = n % 2 ^ 16
port16 (negsuc n) = 2 ^ 16 - 1 - n % 2 ^ 16

-- bind and listen on a descriptor, closing it where one fails.
unfoldable pub bind_and_listen : SocketEnv → ℤ → ℕ → ℕ → Option ℕ × List SocketCall
bind_and_listen env port backlog fd =
    if not env.binds
    then (none, created fd ∷ reuse_addr fd ∷ bind_to fd (port16 port) ∷ close_socket fd ∷ [])
    else if not env.listens
    then (
      none,
      created fd
          ∷ reuse_addr fd
          ∷ bind_to fd (port16 port)
          ∷ listen_on fd backlog
          ∷ close_socket fd
          ∷ [],
    )
    else (
      some fd,
      created fd ∷ reuse_addr fd ∷ bind_to fd (port16 port) ∷ listen_on fd backlog ∷ [],
    )

-- The listening descriptor, or `none` for failure, and the calls.
unfoldable pub open_socket : SocketEnv → ℤ → ℕ → Option ℕ × List SocketCall
unfolding bind_and_listen
open_socket env port backlog = elim env.socket [
  | none ↦ (none, [])
  | some fd ↦ bind_and_listen env port backlog fd
]

-- `if (listen_fd_ >= 0) { shutdown; close; }`
abbrev pub close_calls : Option ℕ → List SocketCall
close_calls none = []
close_calls (some fd) = shut_down fd ∷ close_socket fd ∷ []

-- What is behind the last ':' of a text; `none` if there is no ':'.
unfoldable pub after_last_colon : List ℕ → Option (List ℕ)
after_last_colon [] = none
after_last_colon (c ∷ text) =
    let rest = after_last_colon text in
    elim rest [ some port ↦ some port | none ↦ if c == 58 then some text else none ]

-- How ParseListenAddr and ParsePort end: false, the port, or what std::stoi throws.
pub data Parsed : Type 0 where
  no_colon throws : Parsed
  parsed : ℤ → Parsed

-- `stoi` is std::stoi: `none` if it throws.
unfoldable pub parse_port : (List ℕ → Option ℤ) → List ℕ → Parsed
unfolding after_last_colon
parse_port stoi addr = elim (after_last_colon addr) [
  | none ↦ no_colon
  | some text ↦ elim (stoi text) [ none ↦ throws | some port ↦ parsed port ]
]
