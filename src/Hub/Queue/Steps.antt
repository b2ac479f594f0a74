-- ===== src/Hub/Queue/Steps.antt =====
-- One producer and one consumer in SpscQueue at once: every access to `head_`, `tail_` or a slot is
-- a step, and the two threads interleave. The acquire loads see the release stores with all that
-- was written before them, so between two threads the accesses are taken in one order.
pub mod Invariant
pub mod Safety
use hi_im_core.Prelude.{List, Option, [], get_elem?, set, ℕ, ◌%◌, ◌++◌, ◌+◌, ◌∷◌, ◌≡◌, ◌≢◌}
use hi_im_core.Hub.Queue.Spsc.{SpscQueue}

-- Where the producer is in Push, with the value that it pushes.
pub data Producer (A : Type 0) : Type 0 where
  idle : Producer A
  -- `tail` is loaded
  loaded : A → ℕ → Producer A
  -- the test `next == head_` has failed
  checked : A → ℕ → Producer A
  -- the slot is written
  written : A → ℕ → Producer A

-- Where the consumer is in Pop.
pub data Consumer (A : Type 0) : Type 0 where
  idle : Consumer A
  loaded : ℕ → Consumer A
  -- the test `head == tail_` has failed
  checked : ℕ → Consumer A
  -- the slot is read
  taken : Option A → ℕ → Consumer A

-- The queue, the threads, and what has gone in and come out so far, oldest first.
pub record System (A : Type 0) : Type 0 where
  pub queue : SpscQueue A
  pub producer : Producer A
  pub consumer : Consumer A
  pub pushed : List A
  pub popped : List (Option A)

pub data Step {A : Type 0} (s : System A) : System A → Type 0 where
  load_tail :
      (v : A)
      → s.producer ≡ Producer.idle
      → Step s (record s { producer = Producer.loaded v s.queue.tail })
  refuse :
      (v : A) (tail : ℕ)
      → s.producer ≡ Producer.loaded v tail
      → (tail + 1) % s.queue.capacity ≡ s.queue.head
      → Step s (record s { producer = Producer.idle })
  check_head :
      (v : A) (tail : ℕ)
      → s.producer ≡ Producer.loaded v tail
      → (tail + 1) % s.queue.capacity ≢ s.queue.head
      → Step s (record s { producer = Producer.checked v tail })
  write_slot :
      (v : A) (tail : ℕ)
      → s.producer ≡ Producer.checked v tail
      → Step s (record s {
        queue = record (s.queue) { slots = set s.queue.slots tail v };
        producer = Producer.written v tail;
      })
  store_tail :
      (v : A) (tail : ℕ)
      → s.producer ≡ Producer.written v tail
      → Step s (record s {
        queue = record (s.queue) { tail = (tail + 1) % s.queue.capacity };
        producer = Producer.idle;
        pushed = s.pushed ++ (v ∷ []);
      })
  load_head :
      s.consumer ≡ Consumer.idle → Step s (record s { consumer = Consumer.loaded s.queue.head })
  find_empty :
      (head : ℕ)
      → s.consumer ≡ Consumer.loaded head
      → head ≡ s.queue.tail
      → Step s (record s { consumer = Consumer.idle })
  check_tail :
      (head : ℕ)
      → s.consumer ≡ Consumer.loaded head
      → head ≢ s.queue.tail
      → Step s (record s { consumer = Consumer.checked head })
  read_slot :
      (head : ℕ)
      → s.consumer ≡ Consumer.checked head
      → Step s (record s { consumer = Consumer.taken (get_elem? s.queue.slots head) head })
  store_head :
      (v : Option A) (head : ℕ)
      → s.consumer ≡ Consumer.taken v head
      → Step s (record s {
        queue = record (s.queue) { head = (head + 1) % s.queue.capacity };
        consumer = Consumer.idle;
        popped = s.popped ++ (v ∷ []);
      })

pub data Reach {A : Type 0} (s : System A) : System A → Type 0 where
  here : Reach s s
  next : {t u : System A} → Reach s t → Step t u → Reach s u

abbrev pub start : {A : Type 0} → SpscQueue A → System A
start q = record {
  queue = q;
  producer = Producer.idle;
  consumer = Consumer.idle;
  pushed = [];
  popped = [];
}
