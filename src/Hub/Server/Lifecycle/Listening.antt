-- ===== src/Hub/Server/Lifecycle/Listening.antt =====
-- How Start of a listener and of the health server ends.
use hi_im_core.Hub.Listener
use hi_im_core.Hub.Health
use hi_im_core.Prelude.{
  Bool, Bool-cases, List, Option, Option-cases, false, inl, inr, none, refl, some, sym, true, ℕ, ℤ,
  ◌&&◌, ◌≡◌, ◌≢◌,
}
use hi_im_core.Hub.Health.{HealthServer, HealthStarted}
use hi_im_core.Hub.Listener.{Listener, Started, parse_listen_addr}
use hi_im_core.Hub.Sockets.{
  Parsed, SocketCall, SocketEnv, bind_and_listen, no_colon, open_socket, parse_port, parsed, throws,
}

-- The kernel gives a socket, binds it and listens on it.
abbrev pub socket_works : SocketEnv → Bool
socket_works env = elim env.socket [ none ↦ false | some fd ↦ env.binds && env.listens ]

-- An address is listened on: it has a port, and its socket works.
unfoldable pub opens : SocketEnv → (List ℕ → Option ℤ) → List ℕ → Bool
opens env stoi addr = elim (parse_port stoi addr) [
  | no_colon ↦ false
  | throws ↦ false
  | parsed port ↦ socket_works env
]

-- There is a descriptor.
abbrev is_open : Option ℕ → Bool
is_open none = false
is_open (some fd) = true

open_socket-works :
    (env : SocketEnv) (port : ℤ) (backlog : ℕ)
    → is_open (open_socket env port backlog).0 ≡ socket_works env
unfolding open_socket bind_and_listen
open_socket-works env port backlog = elim (Option-cases env.socket) [
  | inl missing ↦ rw (missing) refl
  | inr (fd, got) ↦ elim (Bool-cases env.binds) [
    | inr unbound ↦ rw (got, unbound) refl
    | inl bound ↦ elim (Bool-cases env.listens) [
      | inr deaf ↦ rw (got, bound, deaf) refl
      | inl listens ↦ rw (got, bound, listens) refl
    ]
  ]
]

-- Start of a listener answers, and leaves a thread behind just when it answers true.
abbrev pub Answers : Started → Bool → Type 0
Answers r b = (l : Listener) × (r ≡ Started.answered b l) × (l.joinable ≡ b)

finish_start-Answers :
    (l : Listener) (r : Option ℕ × List SocketCall)
    → l.joinable ≡ false
    → Answers (Listener.finish_start l r) (is_open r.0)
finish_start-Answers l (none, calls) unjoined = (_, refl, unjoined)
finish_start-Answers l (some fd, calls) unjoined = (_, refl, refl)

start_parsed-Answers :
    (env : SocketEnv) (stoi : List ℕ → Option ℤ) (l : Listener) (p : Parsed)
    → parse_port stoi l.ctx.cfg.listen_addr ≡ p
    → p ≢ throws
    → l.joinable ≡ false
    → Answers (Listener.start_parsed env l p) (opens env stoi l.ctx.cfg.listen_addr)
unfolding Listener.start_parsed opens
start_parsed-Answers env stoi l no_colon parses numeric unjoined =
    rw (opens, parses) (_, refl, unjoined)
start_parsed-Answers env stoi l throws parses numeric unjoined = absurd (numeric refl)
start_parsed-Answers env stoi l (parsed port) parses numeric unjoined =
    rw (opens, parses, sym (open_socket-works env port 512))
      (finish_start-Answers l (open_socket env port 512) unjoined)

pub start-Answers :
    (env : SocketEnv) (stoi : List ℕ → Option ℤ) (l : Listener)
    → l.started ≡ false
    → l.joinable ≡ false
    → parse_port stoi l.ctx.cfg.listen_addr ≢ throws
    → Answers (Listener.start env stoi l) (opens env stoi l.ctx.cfg.listen_addr)
unfolding Listener.start parse_listen_addr
start-Answers env stoi l fresh unjoined numeric =
    rw fresh (
      start_parsed-Answers env stoi l (parse_port stoi l.ctx.cfg.listen_addr) refl numeric unjoined)

-- The same of the health server.
abbrev pub HealthAnswers : HealthStarted → Bool → Type 0
HealthAnswers r b = (h : HealthServer) × (r ≡ HealthStarted.answered b h) × (h.joinable ≡ b)

health_finish-Answers :
    (h : HealthServer) (r : Option ℕ × List SocketCall)
    → h.joinable ≡ false
    → HealthAnswers (Health.finish_start h r) (is_open r.0)
health_finish-Answers h (none, calls) unjoined = (_, refl, unjoined)
health_finish-Answers h (some fd, calls) unjoined = (_, refl, refl)

health_parsed-Answers :
    (env : SocketEnv) (stoi : List ℕ → Option ℤ) (h : HealthServer) (p : Parsed)
    → parse_port stoi h.listen_addr ≡ p
    → p ≢ throws
    → h.joinable ≡ false
    → HealthAnswers (Health.start_parsed env h p) (opens env stoi h.listen_addr)
unfolding Health.start_parsed opens
health_parsed-Answers env stoi h no_colon parses numeric unjoined =
    rw (opens, parses) (_, refl, unjoined)
health_parsed-Answers env stoi h throws parses numeric unjoined = absurd (numeric refl)
health_parsed-Answers env stoi h (parsed port) parses numeric unjoined =
    rw (opens, parses, sym (open_socket-works env port 32))
      (health_finish-Answers h (open_socket env port 32) unjoined)

pub health_start-Answers :
    (env : SocketEnv) (stoi : List ℕ → Option ℤ) (h : HealthServer)
    → h.joinable ≡ false
    → parse_port stoi h.listen_addr ≢ throws
    → HealthAnswers (Health.start env stoi h) (opens env stoi h.listen_addr)
unfolding Health.start
health_start-Answers env stoi h unjoined numeric =
    health_parsed-Answers env stoi h (parse_port stoi h.listen_addr) refl numeric unjoined
