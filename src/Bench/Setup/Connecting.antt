-- ===== src/Bench/Setup/Connecting.antt =====
-- What ConnectTcp leaves open.
use hi_im_core.Prelude.{
  some_inj, Bool-cases, List, Option, Option-cases, [], ap, inl, inr, keep, none, not, refl, some,
  subst, ℕ, ℤ, ◌++◌, ◌==◌, ◌∙◌, ◌∷◌, ◌≡◌,
}
use hi_im_core.Bench.{HostPort, bad_port, host_port, no_separator, parse_host_port}
use hi_im_core.Bench.Setup.{
  Attempt, ClientCall, Resolver, connect_tcp, connect_tried, socket_closed, socket_made,
  socket_tuned, try_addresses, tune,
}
use hi_im_core.Hub.Listener.Opening.{close_only}

-- The descriptors that a sequence of calls leaves open, of those that are open before.
unfoldable pub open_after : List ClientCall → List ℕ → List ℕ
open_after [] fds = fds
open_after (socket_made fd ∷ calls) fds = open_after calls (fd ∷ fds)
open_after (connect_tried fd good ∷ calls) fds = open_after calls fds
open_after (socket_closed fd ∷ calls) fds = open_after calls (keep (λ g. not (g == fd)) fds)
open_after (socket_tuned fd ∷ calls) fds = open_after calls fds

pub open_after-append :
    (l m : List ClientCall) (fds : List ℕ)
    → open_after (l ++ m) fds ≡ open_after m (open_after l fds)
unfolding open_after
open_after-append [] m fds = refl
open_after-append (socket_made fd ∷ l) m fds = open_after-append l m (fd ∷ fds)
open_after-append (connect_tried fd good ∷ l) m fds = open_after-append l m fds
open_after-append (socket_closed fd ∷ l) m fds =
    open_after-append l m (keep (λ g. not (g == fd)) fds)
open_after-append (socket_tuned fd ∷ l) m fds = open_after-append l m fds

abbrev pub returned : Option ℕ → List ℕ
returned none = []
returned (some fd) = fd ∷ []

-- Only the descriptor that is returned stays open.
abbrev pub LeavesOpen : Option ℕ × List ClientCall → Type 0
LeavesOpen (fd, calls) = open_after calls [] ≡ returned fd

try_addresses-LeavesOpen : (attempts : List Attempt) → LeavesOpen (try_addresses attempts)
unfolding try_addresses open_after
try_addresses-LeavesOpen [] = refl
try_addresses-LeavesOpen (a ∷ attempts) = elim (Option-cases a.socket) [
  | inl missing ↦ rw missing (try_addresses-LeavesOpen attempts)
  | inr (fd, got) ↦ elim (Bool-cases a.connects) [
    | inl good ↦ rw (got, good) refl
    | inr bad ↦
        rw (got, bad)
          (ap (open_after (try_addresses attempts).1) (close_only fd)
            ∙ try_addresses-LeavesOpen attempts)
  ]
]

tune-LeavesOpen : (r : Option ℕ × List ClientCall) → LeavesOpen r → LeavesOpen (tune r)
unfolding open_after
tune-LeavesOpen (none, calls) h = h
tune-LeavesOpen (some fd, calls) h = open_after-append calls (socket_tuned fd ∷ []) [] ∙ h

-- However ConnectTcp goes on, whatever addresses there are and whichever of them connect, the
-- descriptor that it returns is the only one that it leaves open; where it returns -1, it leaves
-- none.
pub connect_tcp-LeavesOpen :
    (stoi : List ℕ → Option ℤ) (resolve : Resolver) (addr : List ℕ) (r : Option ℕ × List ClientCall)
    → connect_tcp stoi resolve addr ≡ some r
    → LeavesOpen r
unfolding connect_tcp open_after
connect_tcp-LeavesOpen stoi resolve addr r ends = found (parse_host_port stoi addr) ends
  where
    resolved :
        (o : Option (List Attempt))
        → elim o [ none ↦ some (none, []) | some attempts ↦ some (tune (try_addresses attempts)) ]
          ≡ some r
        → LeavesOpen r
    resolved none eq = subst LeavesOpen (some_inj eq) refl
    resolved (some attempts) eq =
        subst LeavesOpen (some_inj eq)
          (tune-LeavesOpen (try_addresses attempts) (try_addresses-LeavesOpen attempts))

    found :
        (p : HostPort)
        → elim p [
          | no_separator ↦ some (none, [])
          | bad_port ↦ none
          | host_port host port ↦ elim (resolve host port) [
            | none ↦ some (none, [])
            | some attempts ↦ some (tune (try_addresses attempts))
          ]
        ]
          ≡ some r
        → LeavesOpen r
    found no_separator eq = subst LeavesOpen (some_inj eq) refl
    found bad_port eq = cc
    found (host_port host port) eq = resolved (resolve host port) eq
