-- ===== src/Hub/Queue/Spsc.antt =====
-- SpscQueue of src/hub/queue.hpp: a ring with one slot more than its capacity. Each method is run
-- to its end here; the methods of two threads are interleaved in Hub.Queue.Steps.
pub mod Fifo
pub mod Refine
use hi_im_core.Prelude.{
  Bool, List, Option, false, get_elem?, if◌then◌else◌, leb, none, replicate, set, true, ℕ, ◌%◌, ◌+◌,
  ◌-◌, ◌==◌,
}

pub record SpscQueue {ℓ} (A : Type ℓ) : Type ℓ where
  pub capacity : ℕ
  pub slots : List A
  pub head : ℕ
  pub tail : ℕ

module _ {ℓ} {A : Type ℓ} where
  -- The constructor: `blank` is the value of `T{}`, with which vector fills the slots. The capacity
  -- is below 2^64 - 1, so that `capacity + 1` does not wrap.
  unfoldable pub make : ℕ → A → SpscQueue A
  make capacity blank = record {
    capacity = capacity + 1;
    slots = replicate (capacity + 1) blank;
    head = 0;
    tail = 0;
  }

  unfoldable pub push : SpscQueue A → A → SpscQueue A × Bool
  push q value =
      let next = (q.tail + 1) % q.capacity in
      if next == q.head
      then (q, false)
      else (record q { slots = set q.slots q.tail value; tail = next }, true)

  -- The value leaves a moved-from one in its slot, which nothing reads before it is written again;
  -- the model keeps the old value there. `none` in the slot is a read out of range.
  unfoldable pub pop : SpscQueue A → Option A × SpscQueue A
  pop q =
      if q.head == q.tail
      then (none, q)
      else (get_elem? q.slots q.head, record q { head = (q.head + 1) % q.capacity })

  unfoldable pub size_approx : SpscQueue A → ℕ
  size_approx q = if leb q.head q.tail then q.tail - q.head else q.capacity - q.head + q.tail

  unfoldable pub capacity_of : SpscQueue A → ℕ
  capacity_of q = q.capacity - 1
