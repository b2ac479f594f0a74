-- ===== src/Hub/SocketTuning.antt =====
-- src/hub/socket_tuning.hpp: the options of a connection.
use hi_im_core.Hub.Queue.Spsc
use hi_im_core.Prelude.{
  done_inj, Bool, List, Option, [], ap, append-nil, append_assoc, done, false, get_elem?, lookup,
  none, or_throw, refl, some, sym, true, ℕ, ◌%◌, ◌++◌, ◌+◌, ◌>>=◌, ◌^◌, ◌∙◌, ◌∷◌, ◌≡◌,
}
use hi_im_core.Hub.Context.{conn_queue, next_session_id}
use hi_im_core.Hub.Listener.{ConnEnv, Listener, deal, finish_accept, pick_reactor}
use hi_im_core.Hub.Messages.{NewConnection}
use hi_im_core.Hub.Queue.Spsc.{SpscQueue}
use hi_im_core.Hub.Reactor.{Call, Reactor, call, closed, tuned}
use hi_im_core.Hub.Reactor.Input.{add_connection}

-- A call of setsockopt: the descriptor and the value of the option.
pub data SetOption : Type 0 where
  tcp_nodelay rcvbuf sndbuf : ℕ → ℕ → SetOption

-- 512 * 1024
abbrev buffer_size : ℕ
buffer_size = 524288

unfoldable pub tune_tcp_socket : Option ℕ → List SetOption
tune_tcp_socket none = []
tune_tcp_socket (some fd) = tcp_nodelay fd 1 ∷ rcvbuf fd buffer_size ∷ sndbuf fd buffer_size ∷ []

-- The options that a thread has set: the listener and the reactor record a call of TuneTcpSocket.
abbrev pub option_calls : Call → List SetOption
option_calls (tuned fd) = tune_tcp_socket fd
option_calls _ = []

unfoldable pub options_set : List Call → List SetOption
options_set [] = []
options_set (call ∷ calls) = option_calls call ++ options_set calls

pub options_set-append :
    (calls later : List Call)
    → options_set (calls ++ later) ≡ options_set calls ++ options_set later
unfolding options_set
options_set-append [] later = refl
options_set-append (call ∷ calls) later =
    ap (λ os. option_calls call ++ os) (options_set-append calls later)
    ∙ sym (append_assoc (option_calls call) (options_set calls) (options_set later))

-- What follows the push of a connection sets no option.
finish_accept-options :
    (fd i : ℕ) (l : Listener) (p : SpscQueue NewConnection × Bool)
    → options_set (finish_accept fd i l p).calls ≡ options_set l.calls
unfolding options_set
finish_accept-options fd i l (q, true) = refl
finish_accept-options fd i l (q, false) =
    options_set-append l.calls (closed (some fd) ∷ []) ∙ append-nil (options_set l.calls)

-- The listener sets the three options on a connection that it deals, and none on another
-- descriptor.
pub deal-options :
    (others : ConnEnv) (fd : ℕ) (l l' : Listener)
    → deal others fd l ≡ done l'
    → options_set l'.calls ≡ options_set l.calls ++ tune_tcp_socket (some fd)
unfolding deal pick_reactor next_session_id conn_queue options_set
deal-options others fd l l' ends = dealt (get_elem? l.ctx.conn_queues i) ends
  where
    i : ℕ
    i = l.round % l.reactor_count

    numbered : Listener
    numbered = record l {
      ctx = record (l.ctx) { next_sid = (l.ctx.next_sid + 1) % 2 ^ 64 };
      round = (l.round + 1) % 2 ^ 64;
      calls = l.calls ++ (tuned (some fd) ∷ []);
    }

    conn : NewConnection
    conn = record { fd = some fd; sid = l.ctx.next_sid }

    dealt :
        (o : Option (SpscQueue NewConnection))
        → (or_throw o >>= λ q. done (finish_accept fd i numbered (Spsc.push (others q) conn)))
          ≡ done l'
        → options_set l'.calls ≡ options_set l.calls ++ tune_tcp_socket (some fd)
    dealt none eq = absurd (cc eq)
    dealt (some q) eq =
        sym (ap (λ (m : Listener). options_set m.calls) (done_inj eq))
        ∙ finish_accept-options fd i numbered (Spsc.push (others q) conn)
        ∙ options_set-append l.calls (tuned (some fd) ∷ [])
        ∙ ap (λ os. options_set l.calls ++ os) (append-nil (tune_tcp_socket (some fd)))

-- The reactor sets them again on a connection with a new number that it takes over.
pub add_connection-options :
    (conn : NewConnection) (r : Reactor)
    → lookup conn.sid r.sessions ≡ none
    → options_set (add_connection conn r).calls ≡ options_set r.calls ++ tune_tcp_socket conn.fd
unfolding add_connection options_set
add_connection-options conn r new =
    options_set-append r.calls _
    ∙ ap (λ os. options_set r.calls ++ os) (rw new (append-nil (tune_tcp_socket conn.fd)))
