-- ===== src/Hub/Wakeup/Tests.antt =====
-- An eventfd as a counter.
use hi_im_core.Hub.Wakeup
use hi_im_core.Hub.Queue.Mpsc
use hi_im_core.Prelude.{[], arith, false, ltb, lt→ltb, refl, some, true, ℕ, ◌+◌, ◌∷◌, ◌≡◌}
use hi_im_core.Hub.Wakeup.{EventFd, IsEventFd, make_wakeup}
use hi_im_core.Hub.Wakeup.Laws.{drain-notify_times, notify_times}
use hi_im_core.Hub.Wakeup.Steps.{
  Exchange, Moves, announces, at_start, no_lost_wakeup, polling, pushes, resting, then_move,
}

abbrev counter : EventFd ℕ
counter = record {
  read = λ fd k. (ltb 0 k, 0);
  write = λ fd k. k + 1;
  readable = λ fd k. ltb 0 k;
  close = λ fd k. k;
}

counter-IsEventFd : IsEventFd counter
counter-IsEventFd = record {
  write_wakes = λ fd k. lt→ltb 0 (k + 1) (omega arith);
  read_ready = λ fd k. refl;
  read_resets = λ fd k. refl;
}

drain-notify_times_example :
    (counter.readable 7 (notify_times counter 3 (make_wakeup (some 7)) 0) ≡ true)
    × ((k : ℕ) × (Wakeup.drain counter 2
            (make_wakeup (some 7))
            (notify_times counter 3 (make_wakeup (some 7)) 0)
          ≡ some k)
        × (counter.readable 7 k ≡ false))
drain-notify_times_example = drain-notify_times counter counter-IsEventFd 7 0 2 0

-- A push and its Notify.
abbrev announced : Exchange ℕ ℕ
announced = record {
  queue = record { capacity = 4; queue = 5 ∷ [] };
  os_state = 1;
  unannounced = 0;
  phase = polling;
}

one_push : Moves counter 7 (resting 4 0) announced
unfolding resting Mpsc.make Mpsc.push Wakeup.notify make_wakeup
one_push =
    then_move (then_move at_start (pushes 5 (record { capacity = 4; queue = 5 ∷ [] }) refl))
      (announces 0 refl)

no_lost_wakeup_example : counter.readable 7 1 ≡ true
no_lost_wakeup_example =
    no_lost_wakeup counter 7 counter-IsEventFd 4 0 announced one_push refl (λ h. absurd (cc h)) refl
