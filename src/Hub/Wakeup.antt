-- ===== src/Hub/Wakeup.antt =====
-- src/hub/pipe_wakeup.hpp on Linux: the eventfd by which one thread wakes another.
pub mod Laws
pub mod Steps
mod Tests
use hi_im_core.Prelude.{Bool, Option, false, none, some, suc, true, zero, ℕ, ◌≡◌}

-- The kernel's part of eventfd, on a state K of the kernel: whether a read of 8 bytes succeeds, and
-- the state after it; the state after a write of the number 1; whether a poll reports the
-- descriptor as readable; the state after a close.
pub record EventFd (K : Type 0) : Type 0 where
  pub read : ℕ → K → Bool × K
  pub write : ℕ → K → K
  pub readable : ℕ → K → Bool
  pub close : ℕ → K → K

-- What the manual promises of an eventfd that is no semaphore: a write makes it readable, a read
-- succeeds just when it is readable, and after a read it is not.
pub record IsEventFd {K : Type 0} (os : EventFd K) : Type 0 where
  pub write_wakes : (fd : ℕ) (k : K) → os.readable fd (os.write fd k) ≡ true
  pub read_ready : (fd : ℕ) (k : K) → (os.read fd k).0 ≡ os.readable fd k
  pub read_resets : (fd : ℕ) (k : K) → os.readable fd (os.read fd k).1 ≡ false

-- `fd` is -1 as `none`.
pub record PipeWakeup : Type 0 where
  pub fd : Option ℕ

-- The constructor, with what eventfd returns.
unfoldable pub make_wakeup : Option ℕ → PipeWakeup
make_wakeup made = record { fd = made }

unfoldable pub is_valid : PipeWakeup → Bool
is_valid w = elim w.fd [ none ↦ false | some fd ↦ true ]

module _ {K : Type 0} (os : EventFd K) where
  unfoldable pub notify : PipeWakeup → K → K
  notify w k = elim w.fd [ none ↦ k | some fd ↦ os.write fd k ]

  -- The loop of Drain; `none` means that the fuel ran out. A read of the descriptor -1 fails.
  unfoldable pub drain : ℕ → PipeWakeup → K → Option K
  drain zero w k = none
  drain (suc fuel) w k = elim w.fd [
    | none ↦ some k
    | some fd ↦ elim (os.read fd k).0 [
      | true ↦ drain fuel w (os.read fd k).1
      | false ↦ some (os.read fd k).1
    ]
  ]

  -- The destructor.
  unfoldable pub destroy : PipeWakeup → K → K
  destroy w k = elim w.fd [ none ↦ k | some fd ↦ os.close fd k ]
