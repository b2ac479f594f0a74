-- ===== src/Hub/Queue/Backoff.antt =====
-- PushWithBackoff of src/hub/queue_push.hpp, for any queue and value type. The queue's methods,
-- what is left of a value that has been moved from, and what the other threads do to the queue
-- before each attempt are parameters.
pub mod Laws
pub mod Frames
use hi_im_core.Prelude.{Bool, false, suc, true, zero, ℕ, ◌+◌}

abbrev pub unless_pushed : {Q : Type 0} → Q × Bool → (Q → Q × Bool) → Q × Bool
unless_pushed (q, true) retry = (q, true)
unless_pushed (q, false) retry = retry q

module _ {Q T : Type 0} (push : Q → T → Q × Bool) (moved_from : T → T) (others : ℕ → Q → Q) where
  -- The rounds left, the number of the attempt, the queue and the value. Push takes its argument by
  -- value, so the value is moved from by the attempt, also when the queue refuses it.
  unfoldable pub attempts : ℕ → ℕ → Q → T → Q × Bool
  attempts zero i q value = push (others i q) value
  attempts (suc rounds) i q value =
      unless_pushed (push (others i q) value) (λ q'. attempts rounds (i + 1) q' (moved_from value))

  unfoldable pub push_with_backoff : ℕ → Q → T → Q × Bool
  push_with_backoff max_retries q value = attempts max_retries 0 q value

-- The default of `max_retries`.
abbrev pub default_retries : ℕ
default_retries = 1000000

-- No other thread interferes.
abbrev pub quiet : {Q : Type 0} → ℕ → Q → Q
quiet i q = q
