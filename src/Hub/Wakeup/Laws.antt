-- ===== src/Hub/Wakeup/Laws.antt =====
-- Notify and Drain of a wakeup.
use hi_im_core.Hub.Wakeup
use hi_im_core.Prelude.{Bool-cases, false, inl, inr, refl, some, suc, true, zero, ℕ, ◌≡◌}
use hi_im_core.Hub.Wakeup.{EventFd, IsEventFd, PipeWakeup, make_wakeup}

-- `n` calls of Notify.
abbrev pub notify_times : {K : Type 0} → EventFd K → ℕ → PipeWakeup → K → K
notify_times os zero w k = k
notify_times os (suc n) w k = notify_times os n w (Wakeup.notify os w k)

module _ {K : Type 0} (os : EventFd K) (laws : IsEventFd os) (fd : ℕ) where
  notified :
      (n : ℕ) (k : K)
      → os.readable fd k ≡ true
      → os.readable fd (notify_times os n (make_wakeup (some fd)) k) ≡ true
  unfolding Wakeup.notify make_wakeup
  notified zero k h = h
  notified (suc n) k h = notified n (os.write fd k) (laws.write_wakes fd k)

  drained :
      (fuel : ℕ) (k : K)
      → (k' : K) × (Wakeup.drain os (suc (suc fuel)) (make_wakeup (some fd)) k ≡ some k')
        × (os.readable fd k' ≡ false)
  unfolding Wakeup.drain make_wakeup
  drained fuel k = elim (Bool-cases (os.readable fd k)) [
    | inr unready ↦
        ((os.read fd k).1, rw (laws.read_ready fd k, unready) refl, laws.read_resets fd k)
    | inl ready ↦
        let k' = (os.read fd k).1 in
        (
          (os.read fd k').1,
          rw (laws.read_ready fd k, ready) (rw (laws.read_ready fd k', laws.read_resets fd k) refl),
          laws.read_resets fd k',
        )
  ]

  -- Once there has been a Notify, however many others follow, the next poll reports the wakeup; one
  -- Drain, which ends after two reads at most, takes them all in, and a poll after it does not
  -- report the wakeup.
  pub drain-notify_times :
      (fuel n : ℕ) (k : K)
      → let k' = notify_times os (suc n) (make_wakeup (some fd)) k in
        (os.readable fd k' ≡ true)
        × ((k'' : K) × (Wakeup.drain os (suc (suc fuel)) (make_wakeup (some fd)) k' ≡ some k'')
            × (os.readable fd k'' ≡ false))
  unfolding Wakeup.notify make_wakeup
  drain-notify_times fuel n k = (
    notified n (os.write fd k) (laws.write_wakes fd k),
    drained fuel (notify_times os (suc n) (make_wakeup (some fd)) k),
  )
