-- ===== src/Hub/Queue/Steps/Invariant.antt =====
-- What holds between any two steps of the producer and the consumer.
use hi_im_core.Prelude.{
  List, Option, [], ap, append_assoc, arith, dec_lt, get_elem?, get_elem?-set_self, length,
  length-append, map, map-append, refl, set, some, subst, subst₂, sym, ℕ, ◌%◌, ◌++◌, ◌+◌, ◌<◌, ◌∙◌,
  ◌∷◌, ◌≡◌, ◌≢◌,
}
use hi_im_core.Hub.Queue.Spsc.{SpscQueue}
use hi_im_core.Hub.Queue.Spsc.Fifo.{
  Holds, empty_iff, full_iff, oldest, publish-Holds, tail_inside, take-Holds, write-Holds,
}
use hi_im_core.Hub.Queue.Steps.{
  Consumer, Producer, Step, System, check_head, check_tail, find_empty, load_head, load_tail,
  read_slot, refuse, store_head, store_tail, write_slot,
}

module _ {A : Type 0} where
  -- What each thread knows, of the ring's fields and of the values `xs` that it holds.
  abbrev pub ProducerKnows : Producer A → SpscQueue A → List A → Type 0
  ProducerKnows Producer.idle q xs = Unit {0}
  ProducerKnows (Producer.loaded v t) q xs = t ≡ q.tail
  ProducerKnows (Producer.checked v t) q xs = (t ≡ q.tail) × (length xs + 1 < q.capacity)
  ProducerKnows (Producer.written v t) q xs =
      (t ≡ q.tail) × (length xs + 1 < q.capacity) × (get_elem? q.slots q.tail ≡ some v)

  abbrev pub ConsumerKnows : Consumer A → ℕ → List A → Type 0
  ConsumerKnows Consumer.idle head xs = Unit {0}
  ConsumerKnows (Consumer.loaded h) head xs = h ≡ head
  ConsumerKnows (Consumer.checked h) head xs = (h ≡ head) × (0 < length xs)
  ConsumerKnows (Consumer.taken v h) head xs = (h ≡ head) × (0 < length xs) × (v ≡ get_elem? xs 0)

  pub record Inv (s : System A) : Type 0 where
    pub values : List A
    pub held : Holds s.queue (length s.popped) values
    pub history : map some s.pushed ≡ s.popped ++ map some values
    pub producer : ProducerKnows s.producer s.queue values
    pub consumer : ConsumerKnows s.consumer s.queue.head values

  -- A value that goes in at the back disturbs no consumer.
  ConsumerKnows-append :
      (c : Consumer A) (head : ℕ) (xs : List A) (v : A)
      → ConsumerKnows c head xs
      → ConsumerKnows c head (xs ++ (v ∷ []))
  ConsumerKnows-append Consumer.idle head xs v k = tt
  ConsumerKnows-append (Consumer.loaded h) head xs v k = k
  ConsumerKnows-append (Consumer.checked h) head xs v k =
      (k.0, omega (arith, k.1, length-append xs (v ∷ [])))
  ConsumerKnows-append (Consumer.taken w h) head [] v k = absurd (omega (arith, k.1))
  ConsumerKnows-append (Consumer.taken w h) head (x ∷ xs) v k = (k.0, omega arith, k.2)

  -- A value that goes out at the front disturbs no producer.
  ProducerKnows-tail :
      (p : Producer A) (q : SpscQueue A) (x : A) (xs : List A) (head : ℕ)
      → ProducerKnows p q (x ∷ xs)
      → ProducerKnows p (record q { head = head }) xs
  ProducerKnows-tail Producer.idle q x xs head k = tt
  ProducerKnows-tail (Producer.loaded v t) q x xs head k = k
  ProducerKnows-tail (Producer.checked v t) q x xs head k = (k.0, omega (arith, k.1))
  ProducerKnows-tail (Producer.written v t) q x xs head k = (k.0, omega (arith, k.1), k.2)

  -- The steps that only move a thread on.
  moved :
      {s u : System A}
      → (i : Inv s) → u.queue ≡ s.queue
      → u.pushed ≡ s.pushed
      → u.popped ≡ s.popped
      → ProducerKnows u.producer s.queue i.values
      → ConsumerKnows u.consumer s.queue.head i.values
      → Inv u
  moved {s} {u} i eq ep eo kp kc = record {
    values = i.values;
    held = subst₂ (λ q o. Holds q (length o) i.values) (sym eq) (sym eo) i.held;
    history = subst₂ (λ p o. map some p ≡ o ++ map some i.values) (sym ep) (sym eo) i.history;
    producer = subst (λ q. ProducerKnows u.producer q i.values) (sym eq) kp;
    consumer = subst (λ q. ConsumerKnows u.consumer q.head i.values) (sym eq) kc;
  }

  -- The producer's knowledge in a known place.
  pub at_producer :
      {s : System A} {p : Producer A}
      → (i : Inv s) → s.producer ≡ p
      → ProducerKnows p s.queue i.values
  at_producer {s} i e = subst (λ p. ProducerKnows p s.queue i.values) e i.producer

  pub at_consumer :
      {s : System A} {c : Consumer A}
      → (i : Inv s) → s.consumer ≡ c
      → ConsumerKnows c s.queue.head i.values
  at_consumer {s} i e = subst (λ c. ConsumerKnows c s.queue.head i.values) e i.consumer

  -- The test that passes shows room for a value.
  room_left :
      {s : System A} {t : ℕ}
      → (i : Inv s) → t ≡ s.queue.tail
      → (t + 1) % s.queue.capacity ≢ s.queue.head
      → length i.values + 1 < s.queue.capacity
  room_left {s} {t} i at open_slot = elim (dec_lt (length i.values + 1) s.queue.capacity) [
    | yes more ↦ more
    | no last ↦ absurd (
        open_slot (
          ap (λ k. (k + 1) % s.queue.capacity) at
          ∙ (full_iff i.held).1 (omega (arith, i.held.room))))
  ]

  not_nil : (xs : List A) → xs ≢ [] → 0 < length xs
  not_nil [] h = absurd (h refl)
  not_nil (x ∷ xs) h = omega arith

  -- The head moves: the oldest value is out.
  took :
      (s : System A) (v : Option A) (h : ℕ) (xs : List A)
      → Holds s.queue (length s.popped) xs
      → map some s.pushed ≡ s.popped ++ map some xs
      → ProducerKnows s.producer s.queue xs
      → ConsumerKnows (Consumer.taken v h) s.queue.head xs
      → Inv (record s {
        queue = record (s.queue) { head = (h + 1) % s.queue.capacity };
        consumer = Consumer.idle;
        popped = s.popped ++ (v ∷ []);
      })
  took s v h [] held history kp kc = absurd (omega (arith, kc.1))
  took s v h (x ∷ xs) held history kp kc = record {
    values = xs;
    held =
        subst₂ (λ k n. Holds (record (s.queue) { head = (k + 1) % s.queue.capacity }) n xs)
          (sym kc.0) (sym (length-append s.popped (v ∷ []))) (take-Holds held).1;
    history =
        history
        ∙ sym (append_assoc s.popped (some x ∷ []) (map some xs))
        ∙ ap (λ y. (s.popped ++ (y ∷ [])) ++ map some xs) (sym kc.2);
    producer = ProducerKnows-tail s.producer s.queue x xs _ kp;
    consumer = tt;
  }

  -- Every step of either thread keeps the invariant.
  pub Step-Inv : {s u : System A} → Step s u → Inv s → Inv u
  Step-Inv (load_tail v e) i = moved i refl refl refl refl i.consumer
  Step-Inv (refuse v t e full) i = moved i refl refl refl tt i.consumer
  Step-Inv (check_head v t e open_slot) i =
      let at = at_producer i e in moved i refl refl refl (at, room_left i at open_slot) i.consumer
  Step-Inv {s} (write_slot v t e) i =
      let (at, more) = at_producer i e in
      record {
        values = i.values;
        held =
            subst
              (λ k.
                Holds (record (s.queue) { slots = set s.queue.slots k v }) (length s.popped)
                  i.values)
              (sym at) (write-Holds v i.held);
        history = i.history;
        producer = (
          at,
          more,
          subst (λ k. get_elem? (set s.queue.slots k v) s.queue.tail ≡ some v) (sym at)
              (get_elem?-set_self s.queue.slots s.queue.tail v (tail_inside i.held)),
        );
        consumer = i.consumer;
      }
  Step-Inv {s} (store_tail v t e) i =
      let (at, more, there) = at_producer i e in
      record {
        values = i.values ++ (v ∷ []);
        held =
            subst
              (λ k.
                Holds (record (s.queue) { tail = (k + 1) % s.queue.capacity }) (length s.popped)
                  (i.values ++ (v ∷ [])))
              (sym at) (publish-Holds v i.held more there);
        history =
            map-append some s.pushed (v ∷ [])
            ∙ ap (λ l. l ++ (some v ∷ [])) i.history
            ∙ append_assoc s.popped (map some i.values) (some v ∷ [])
            ∙ ap (◌++◌ s.popped) (sym (map-append some i.values (v ∷ [])));
        producer = tt;
        consumer = ConsumerKnows-append s.consumer s.queue.head i.values v i.consumer;
      }
  Step-Inv (load_head e) i = moved i refl refl refl i.producer refl
  Step-Inv (find_empty h e none_left) i = moved i refl refl refl i.producer tt
  Step-Inv (check_tail h e some_left) i =
      let at = at_consumer i e in
      moved i refl refl refl i.producer
        (at, not_nil i.values (λ n. some_left (at ∙ (empty_iff i.held).1 n)))
  Step-Inv {s} (read_slot h e) i =
      let (at, more) = at_consumer i e in
      moved i refl refl refl i.producer
        (at, more, ap (get_elem? s.queue.slots) at ∙ oldest i.values i.held more)
  Step-Inv {s} (store_head v h e) i =
      took s v h i.values i.held i.history i.producer (at_consumer i e)
