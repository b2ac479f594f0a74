-- ===== src/Hub/Health.antt =====
-- src/hub/health_server.cpp: the HTTP endpoint for health checks.
pub mod Laws
mod Tests
use hi_im_core.Prelude.{
  Bool, List, Option, [], c_string, codes, contains, false, if◌then◌else◌, is_empty, length, none,
  not, some, true, ℕ, ℤ, ◌++◌, ◌∷◌,
}
use hi_im_core.Hub.Bridge.{Hub}
use hi_im_core.Hub.Server.{is_ready}
use hi_im_core.Hub.Sockets.{
  Parsed, SocketCall, SocketEnv, close_calls, no_colon, open_socket, parse_port, parsed, throws,
}
use hi_im_core.Hub.Status.{ok}
use hi_im_core.Hub.Thread.{joins}

pub record HealthServer : Type 0 where
  pub listen_addr : List ℕ
  pub listen_fd : Option ℕ
  pub running : Bool
  pub joinable : Bool
  pub socket_calls : List SocketCall

unfoldable pub make_health : List ℕ → HealthServer
make_health listen_addr = record {
  listen_addr = listen_addr;
  listen_fd = none;
  running = false;
  joinable = false;
  socket_calls = [];
}

-- How Start ends: its answer, or the exception of std::stoi.
pub data HealthStarted : Type 0 where
  answered : Bool → HealthServer → HealthStarted
  threw : HealthServer → HealthStarted

abbrev pub finish_start : HealthServer → Option ℕ × List SocketCall → HealthStarted
finish_start h (none, calls) =
    HealthStarted.answered false
      (record h { listen_fd = none; socket_calls = h.socket_calls ++ calls })
finish_start h (some fd, calls) = HealthStarted.answered true (record h {
  listen_fd = some fd;
  running = true;
  joinable = true;
  socket_calls = h.socket_calls ++ calls;
})

unfoldable pub start_parsed : SocketEnv → HealthServer → Parsed → HealthStarted
start_parsed env h no_colon = HealthStarted.answered false h
start_parsed env h throws = HealthStarted.threw h
start_parsed env h (parsed port) = finish_start h (open_socket env port 32)

unfoldable pub start : SocketEnv → (List ℕ → Option ℤ) → HealthServer → HealthStarted
unfolding start_parsed parse_port
start env stoi h = start_parsed env h (parse_port stoi h.listen_addr)

unfoldable pub stop : HealthServer → HealthServer
stop h = record h {
  running = false;
  listen_fd = none;
  socket_calls = h.socket_calls ++ close_calls h.listen_fd;
}

-- Join, with whether Run ends; `none` means that Join waits for ever.
unfoldable pub join : Bool → HealthServer → Option HealthServer
join ends h = if joins h.joinable ends then some (record h { joinable = false }) else none

-- The request as strstr sees it: up to the first zero byte, and behind the bytes that recv returned
-- there is one.
abbrev pub ready_path : List ℕ → Bool
ready_path req = contains (codes "/readyz") (c_string req)

-- `ok` of Run; the server always passes itself as the hub.
unfoldable pub is_ok_answer : Bool → List ℕ → Bool
is_ok_answer ready req = if ready_path req then ready else true

abbrev pub new_line : List ℕ
new_line = 13 ∷ 10 ∷ []

abbrev pub status_line : Bool → List ℕ
status_line true = codes "HTTP/1.1 200 OK"
status_line false = codes "HTTP/1.1 503 Service Unavailable"

abbrev pub body : Bool → List ℕ
body true = codes "ok" ++ (10 ∷ [])
body false = codes "not ready" ++ (10 ∷ [])

-- The answer that Run writes; `to_decimal` is `operator<<` on the length.
unfoldable pub response : (ℕ → List ℕ) → Bool → List ℕ
response to_decimal good =
    status_line good
    ++ (new_line
        ++ (codes "Content-Type: text/plain"
            ++ (new_line
                ++ (codes "Content-Length: "
                    ++ (to_decimal (length (body good))
                        ++ (new_line
                            ++ (codes "Connection: close"
                                ++ (new_line ++ (new_line ++ body good)))))))))

-- One round of Run: what recv returned on the accepted connection, at most 1023 bytes, empty for 0
-- or an error, and what is sent before it is closed.
unfoldable pub on_request : (ℕ → List ℕ) → Hub → List ℕ → List ℕ
unfolding is_ok_answer response
on_request to_decimal hub req =
    if is_empty req then [] else response to_decimal (is_ok_answer (is_ready hub) req)

-- What accept returns in a round of Run: -1, or a connection and what recv returns on it. The
-- connection blocks: on that of a client that stays silent recv does not return.
pub data Client : Type 0 where
  no_client : Client
  client : ℕ → List ℕ → Client
  silent : ℕ → Client

-- A send on a connection, and a close of it.
pub data HealthCall : Type 0 where
  replied : ℕ → List ℕ → HealthCall
  hung_up : ℕ → HealthCall

unfoldable pub serve : (ℕ → List ℕ) → Hub → ℕ → List ℕ → List HealthCall
unfolding on_request
serve to_decimal hub fd req =
    if is_empty req
    then hung_up fd ∷ []
    else replied fd (on_request to_decimal hub req) ∷ hung_up fd ∷ []

-- How Run is left: it has returned, or it is still in recv on a connection. With its calls.
pub data HealthRun : Type 0 where
  returned : List HealthCall → HealthRun
  stuck_in_recv : ℕ → List HealthCall → HealthRun

abbrev pub after_calls : List HealthCall → HealthRun → HealthRun
after_calls calls (returned later) = returned (calls ++ later)
after_calls calls (stuck_in_recv fd later) = stuck_in_recv fd (calls ++ later)

-- The rounds of Run, until running_ is false, each with the hub as it is then.
unfoldable pub run : (ℕ → List ℕ) → List (Hub × Client) → HealthRun
unfolding serve
run to_decimal [] = returned []
run to_decimal ((hub, no_client) ∷ rounds) = run to_decimal rounds
run to_decimal ((hub, client fd req) ∷ rounds) =
    after_calls (serve to_decimal hub fd req) (run to_decimal rounds)
run to_decimal ((hub, silent fd) ∷ rounds) = stuck_in_recv fd []

abbrev pub has_returned : HealthRun → Bool
has_returned (returned calls) = true
has_returned (stuck_in_recv fd calls) = false
