-- ===== src/Hub/Listener/Opening.antt =====
-- Start and Stop of a listener: what they open, they close.
use hi_im_core.Hub.Listener
use hi_im_core.Prelude.{
  ==_refl, Bool-cases, List, Option, Option-cases, [], ap, false, inl, inr, keep, none, not, refl,
  some, ℕ, ℤ, ◌++◌, ◌==◌, ◌∙◌, ◌∷◌, ◌≡◌,
}
use hi_im_core.Hub.Context.{HubContext}
use hi_im_core.Hub.Listener.{
  Listener, Started, answered, finish_start, make_listener, parse_listen_addr, start_parsed, threw,
}
use hi_im_core.Hub.Sockets.{
  Parsed, SocketCall, SocketEnv, bind_and_listen, bind_to, close_calls, close_socket, created,
  listen_on, no_colon, open_socket, parsed, reuse_addr, shut_down, throws,
}

-- The descriptors that a sequence of calls leaves open, of those that are open before.
unfoldable pub left_open : List SocketCall → List ℕ → List ℕ
left_open [] fds = fds
left_open (created fd ∷ calls) fds = left_open calls (fd ∷ fds)
left_open (reuse_addr fd ∷ calls) fds = left_open calls fds
left_open (bind_to fd port ∷ calls) fds = left_open calls fds
left_open (listen_on fd backlog ∷ calls) fds = left_open calls fds
left_open (shut_down fd ∷ calls) fds = left_open calls fds
left_open (close_socket fd ∷ calls) fds = left_open calls (keep (λ g. not (g == fd)) fds)

left_open-append :
    (l m : List SocketCall) (fds : List ℕ) → left_open (l ++ m) fds ≡ left_open m (left_open l fds)
unfolding left_open
left_open-append [] m fds = refl
left_open-append (created fd ∷ l) m fds = left_open-append l m (fd ∷ fds)
left_open-append (reuse_addr fd ∷ l) m fds = left_open-append l m fds
left_open-append (bind_to fd port ∷ l) m fds = left_open-append l m fds
left_open-append (listen_on fd backlog ∷ l) m fds = left_open-append l m fds
left_open-append (shut_down fd ∷ l) m fds = left_open-append l m fds
left_open-append (close_socket fd ∷ l) m fds = left_open-append l m (keep (λ g. not (g == fd)) fds)

abbrev pub held : Option ℕ → List ℕ
held none = []
held (some fd) = fd ∷ []

-- The listener holds open exactly the descriptor that it remembers.
abbrev pub IsTidy : Listener → Type 0
IsTidy l = left_open l.socket_calls [] ≡ held l.listen_fd

abbrev pub listener_of : Started → Listener
listener_of (answered b l) = l
listener_of (threw l) = l

pub close_only : (fd : ℕ) → keep (λ g. not (g == fd)) (fd ∷ []) ≡ []
close_only fd = rw (==_refl fd)

-- What open_socket opens and does not close is what it returns.
open_socket-held :
    (env : SocketEnv) (port : ℤ) (backlog : ℕ)
    → left_open (open_socket env port backlog).1 [] ≡ held (open_socket env port backlog).0
unfolding open_socket left_open
open_socket-held env port backlog = elim (Option-cases env.socket) [
  | inl missing ↦ rw (missing, open_socket)
  | inr (fd, got) ↦ rw (got, open_socket) (closes fd)
]
  where
    closes :
        (fd : ℕ)
        → left_open (bind_and_listen env port backlog fd).1 []
          ≡ held (bind_and_listen env port backlog fd).0
    closes fd = elim (Bool-cases env.binds) [
      | inr unbound ↦ rw unbound (close_only fd)
      | inl bound ↦ elim (Bool-cases env.listens) [
        | inr deaf ↦ rw bound (rw deaf (close_only fd))
        | inl listens ↦ rw bound (rw listens refl)
      ]
    ]

finish_start-IsTidy :
    (l : Listener) (r : Option ℕ × List SocketCall)
    → left_open l.socket_calls [] ≡ []
    → left_open r.1 [] ≡ held r.0
    → IsTidy (listener_of (finish_start l r))
finish_start-IsTidy l (none, calls) before opened =
    left_open-append l.socket_calls calls [] ∙ ap (left_open calls) before ∙ opened
finish_start-IsTidy l (some fd, calls) before opened =
    left_open-append l.socket_calls calls [] ∙ ap (left_open calls) before ∙ opened

start_parsed-IsTidy :
    (env : SocketEnv) (l : Listener) (p : Parsed)
    → IsTidy l
    → l.listen_fd ≡ none
    → IsTidy (listener_of (start_parsed env l p))
unfolding start_parsed
start_parsed-IsTidy env l no_colon tidy closed_now = tidy
start_parsed-IsTidy env l throws tidy closed_now = tidy
start_parsed-IsTidy env l (parsed port) tidy closed_now =
    finish_start-IsTidy l (open_socket env port 512) (tidy ∙ ap held closed_now)
      (open_socket-held env port 512)

start-IsTidy :
    (env : SocketEnv) (stoi : List ℕ → Option ℤ) (l : Listener)
    → IsTidy l
    → l.started ≡ false
    → l.listen_fd ≡ none
    → IsTidy (listener_of (Listener.start env stoi l))
unfolding Listener.start
start-IsTidy env stoi l tidy fresh closed_now =
    rw fresh (start_parsed-IsTidy env l (parse_listen_addr stoi l) tidy closed_now)

stop-closes : (l : Listener) → IsTidy l → left_open (Listener.stop l).socket_calls [] ≡ []
unfolding Listener.stop left_open
stop-closes l tidy =
    left_open-append l.socket_calls (close_calls l.listen_fd) []
    ∙ ap (left_open (close_calls l.listen_fd)) tidy
    ∙ closes l.listen_fd
  where
    closes : (fd : Option ℕ) → left_open (close_calls fd) (held fd) ≡ []
    closes none = refl
    closes (some fd) = close_only fd

-- However Start of a fresh listener ends, with its answer or with the exception, Stop after it
-- leaves no descriptor open that Start has opened.
pub stop-start :
    (env : SocketEnv) (stoi : List ℕ → Option ℤ) (ctx : HubContext) (reactors : ℤ) (round : ℕ)
    → left_open
        (Listener.stop
          (listener_of (Listener.start env stoi (make_listener ctx reactors round)))).socket_calls
        []
      ≡ []
unfolding make_listener left_open
stop-start env stoi ctx reactors round =
    stop-closes (listener_of (Listener.start env stoi (make_listener ctx reactors round)))
      (start-IsTidy env stoi (make_listener ctx reactors round) refl refl refl)
