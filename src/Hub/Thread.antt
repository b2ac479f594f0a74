-- ===== src/Hub/Thread.antt =====
-- Start and Join of Worker (src/hub/worker.cpp), Distributor (src/hub/distributor.cpp) and Reactor
-- (src/hub/reactor.cpp), on Linux: a thread with an epoll descriptor.
use hi_im_core.Prelude.{
  Bool, List, Option, [], false, if◌then◌else◌, none, not, some, true, ℕ, ◌++◌, ◌||◌, ◌∷◌,
}
use hi_im_core.Hub.Context.{Signal}

-- epoll_ctl with EPOLL_CTL_ADD for a wakeup on an epoll descriptor, and close of the latter.
pub data PollCall : Type 0 where
  poll_add : Option ℕ → Signal → PollCall
  poll_close : ℕ → PollCall

-- `joinable` tells whether the thread has been started and not joined; `epfd` is -1 as `none`.
pub record Poller : Type 0 where
  pub epfd : Option ℕ
  pub joinable : Bool
  pub poll_calls : List PollCall

abbrev pub no_poller : Poller
no_poller = record { epfd = none; joinable = false; poll_calls = [] }

-- Start of a worker or a distributor; `opened` is what epoll_create1 returns, and -1 is not looked
-- at.
unfoldable pub start_poller : Option ℕ → Signal → Poller → Poller
start_poller opened wakeup p = record {
  epfd = opened;
  joinable = true;
  poll_calls = p.poll_calls ++ (poll_add opened wakeup ∷ []);
}

-- Start of a reactor, which gives up without a descriptor.
unfoldable pub start_reactor_poller : Option ℕ → Signal → Poller → Poller
unfolding start_poller
start_reactor_poller opened wakeup p = elim opened [
  | none ↦ record p { epfd = none }
  | some fd ↦ start_poller (some fd) wakeup p
]

abbrev pub poll_closes : Option ℕ → List PollCall
poll_closes none = []
poll_closes (some fd) = poll_close fd ∷ []

-- `if (thread_.joinable()) thread_.join();` returns: there is no thread to wait for, or its function
-- ends.
abbrev pub joins : Bool → Bool → Bool
joins joinable ends = not joinable || ends

-- Join, with whether the function of the thread ends; `none` means that Join waits for ever. The
-- descriptor is closed behind it.
unfoldable pub join_poller : Bool → Poller → Option Poller
join_poller ends p =
    if joins p.joinable ends
    then some
        (record { epfd = none; joinable = false; poll_calls = p.poll_calls ++ poll_closes p.epfd })
    else none
