-- ===== src/Hub/Queue/Mpsc.antt =====
-- MpscQueue of src/hub/queue.hpp. Each method holds the mutex, so each is one step.
pub mod Refine
use hi_im_core.Prelude.{
  Bool, List, Option, [], false, if◌then◌else◌, leb, length, le→leb, le→not_leb, none, some, true,
  ℕ, ◌++◌, ◌<◌, ◌∷◌, ◌≡◌, ◌≤◌,
}

pub record MpscQueue {ℓ} (A : Type ℓ) : Type ℓ where
  pub capacity : ℕ
  pub queue : List A

module _ {ℓ} {A : Type ℓ} where
  unfoldable pub make : ℕ → MpscQueue A
  make capacity = record { capacity = capacity; queue = [] }

  unfoldable pub push : MpscQueue A → A → MpscQueue A × Bool
  push q value =
      if leb q.capacity (length q.queue)
      then (q, false)
      else (record q { queue = q.queue ++ (value ∷ []) }, true)

  unfoldable pub pop : MpscQueue A → Option A × MpscQueue A
  pop q = elim q.queue [ [] ↦ (none, q) | x ∷ xs ↦ (some x, record q { queue = xs }) ]

  unfoldable pub capacity_of : MpscQueue A → ℕ
  capacity_of q = q.capacity

  pub push_refused : (q : MpscQueue A) (v : A) → q.capacity ≤ length q.queue → push q v ≡ (q, false)
  unfolding push
  push_refused q v h = rw (le→leb q.capacity (length q.queue) h)

  pub push_accepted :
      (q : MpscQueue A) (v : A)
      → length q.queue < q.capacity
      → push q v ≡ (record q { queue = q.queue ++ (v ∷ []) }, true)
  unfolding push
  push_accepted q v h = rw (le→not_leb q.capacity (length q.queue) h)
