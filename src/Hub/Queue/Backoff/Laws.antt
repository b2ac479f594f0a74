-- ===== src/Hub/Queue/Backoff/Laws.antt =====
-- When PushWithBackoff succeeds, and with which value.
use native.Mathlib.Numerals.{add-one}
use native.Mathlib.Nat.{zero-add, add-zero}
use hi_im_core.Prelude.{Bool, ap, arith, false, refl, suc, true, zero, ℕ, ◌+◌, ◌∙◌, ◌≡◌, ◌≤◌}
use hi_im_core.Hub.Queue.Backoff.{attempts, push_with_backoff, unless_pushed}

module _ {Q T : Type 0} (push : Q → T → Q × Bool) (moved_from : T → T) (others : ℕ → Q → Q) where
  -- The value in attempt `k`.
  abbrev pub value_at : ℕ → T → T
  value_at zero v = v
  value_at (suc k) v = value_at k (moved_from v)

  -- A push that is accepted at once is all that happens.
  pub push_with_backoff_at_once :
      (retries : ℕ) (q q' : Q) (v : T)
      → push (others 0 q) v ≡ (q', true)
      → push_with_backoff push moved_from others retries q v ≡ (q', true)
  unfolding push_with_backoff attempts
  push_with_backoff_at_once zero q q' v h = h
  push_with_backoff_at_once (suc retries) q q' v h = rw h

  -- After one refusal the value that goes in is the one that was moved from.
  pub push_with_backoff_second :
      (retries : ℕ) (q q' q'' : Q) (v : T)
      → push (others 0 q) v ≡ (q', false)
      → push (others 1 q') (moved_from v) ≡ (q'', true)
      → push_with_backoff push moved_from others (retries + 1) q v ≡ (q'', true)
  unfolding push_with_backoff attempts
  push_with_backoff_second retries q q' q'' v h k = second retries
    where
      last_try : (n : ℕ) → attempts push moved_from others n 1 q' (moved_from v) ≡ (q'', true)
      last_try zero = k
      last_try (suc n) = rw k

      second : (n : ℕ) → attempts push moved_from others (n + 1) 0 q v ≡ (q'', true)
      second n = rw add-one (rw (h, zero-add) (last_try n))

  -- If every attempt on `q` is refused and leaves it as it is, so does the whole.
  pub push_with_backoff_refused :
      (retries : ℕ) (q : Q) (v : T)
      → ((i : ℕ) (w : T) → push (others i q) w ≡ (q, false))
      → push_with_backoff push moved_from others retries q v ≡ (q, false)
  unfolding push_with_backoff attempts
  push_with_backoff_refused retries q v h = refused retries 0 v
    where
      refused : (n i : ℕ) (w : T) → attempts push moved_from others n i q w ≡ (q, false)
      refused zero i w = h i w
      refused (suc n) i w = rw (h i w) (refused n (i + 1) (moved_from w))

  -- What an answer true means: an attempt was accepted, with the value that was left to it.
  abbrev Succeeds : ℕ → ℕ → Q → T → Type 0
  Succeeds rounds i last v =
      (k : ℕ) × (before : Q) × (k ≤ rounds)
      × (push (others (i + k) before) (value_at k v) ≡ (last, true))

  pub attempts_succeed :
      (rounds i : ℕ) (q last : Q) (v : T)
      → attempts push moved_from others rounds i q v ≡ (last, true)
      → Succeeds rounds i last v
  unfolding attempts
  attempts_succeed zero i q last v h =
      (0, q, omega arith, ap (λ j. push (others j q) v) (add-zero i) ∙ h)
  attempts_succeed (suc rounds) i q last v h =
      by_first (push (others i q) v) refl (attempts_succeed rounds (i + 1)) h
    where
      shift : (k : ℕ) → i + suc k ≡ i + 1 + k
      shift k = omega arith

      by_first :
          (r : Q × Bool)
          → push (others i q) v ≡ r
          → ((q' last' : Q) (w : T)
              → attempts push moved_from others rounds (i + 1) q' w ≡ (last', true)
              → Succeeds rounds (i + 1) last' w)
          → unless_pushed r (λ q'. attempts push moved_from others rounds (i + 1) q' (moved_from v))
            ≡ (last, true)
          → Succeeds (suc rounds) i last v
      by_first (q', true) e rec h' =
          (0, q, omega arith, ap (λ j. push (others j q) v) (add-zero i) ∙ e ∙ h')
      by_first (q', false) e rec h' =
          let (k, before, bound, eq) = rec q' last (moved_from v) h' in
          (
            suc k,
            before,
            omega arith,
            ap (λ j. push (others j before) (value_at k (moved_from v))) (shift k) ∙ eq,
          )
