-- ===== src/Hub/Queue/Steps/Safety.antt =====
-- What the interleaving of a producer and a consumer cannot break.
use hi_im_core.Prelude.{
  List, [], ap, append-nil, arith, length, length-append, length-map, map, refl, some, sym, ℕ, ◌%◌,
  ◌++◌, ◌+◌, ◌∙◌, ◌≡◌, ◌≢◌, ◌≤◌,
}
use hi_im_core.Hub.Queue.Spsc.{make}
use hi_im_core.Hub.Queue.Spsc.Fifo.{empty_iff, full_iff}
use hi_im_core.Hub.Queue.Spsc.Refine.{make-Holds}
use hi_im_core.Hub.Queue.Steps.{
  Consumer, Producer, Reach, Step, System, here, load_tail, next, start,
}
use hi_im_core.Hub.Queue.Steps.Invariant.{Inv, Step-Inv, at_consumer, at_producer}

module _ {A : Type 0} where
  start-Inv : (capacity : ℕ) (blank : A) → Inv (start (make capacity blank))
  start-Inv capacity blank = record {
    values = [];
    held = make-Holds capacity blank;
    history = refl;
    producer = tt;
    consumer = tt;
  }

  pub Reach-Inv : {s u : System A} → Inv s → Reach s u → Inv u
  Reach-Inv i here = i
  Reach-Inv i (next r st) = Step-Inv st (Reach-Inv i r)

  capacity-Step : {s u : System A} → Step s u → u.queue.capacity ≡ s.queue.capacity
  capacity-Step (load_tail v e) = refl
  capacity-Step _ = refl

  capacity-Reach : {s u : System A} → Reach s u → u.queue.capacity ≡ s.queue.capacity
  capacity-Reach here = refl
  capacity-Reach (next r st) = capacity-Step st ∙ capacity-Reach r

  capacity-make : (capacity : ℕ) (blank : A) → (make capacity blank).capacity ≡ capacity + 1
  unfolding make
  capacity-make capacity blank = refl

  -- The counts of what went in, came out and is held.
  held_at_most : {s : System A} (i : Inv s) → length s.pushed ≡ length s.popped + length i.values
  held_at_most {s} i = omega (
    arith,
    ap length i.history,
    length-map some s.pushed,
    length-map some i.values,
    length-append s.popped (map some i.values),
  )

  -- In every interleaving: what was pushed is what was popped and, after that, what the ring still
  -- holds, in order, so no value is lost, repeated, overtaken or read from a slot never written;
  -- and the ring never holds more than its capacity.
  pub fifo :
      (capacity : ℕ) (blank : A) {s : System A}
      → Reach (start (make capacity blank)) s
      → (xs : List A) × (map some s.pushed ≡ s.popped ++ map some xs) × (length xs ≤ capacity)
  fifo capacity blank r =
      let i = Reach-Inv (start-Inv capacity blank) r in
      (
        i.values,
        i.history,
        omega (arith, i.held.room, capacity-Reach r, capacity-make capacity blank),
      )

  -- At the test by which Push answers false, `capacity` values more have gone in than come out.
  pub refused_when_full :
      (capacity : ℕ) (blank : A) {s : System A} (v : A) (tail : ℕ)
      → Reach (start (make capacity blank)) s
      → s.producer ≡ Producer.loaded v tail
      → (tail + 1) % s.queue.capacity ≡ s.queue.head
      → length s.pushed ≡ length s.popped + capacity
  refused_when_full capacity blank {s} v tail r e full =
      let i = Reach-Inv (start-Inv capacity blank) r in
      let at = at_producer i e in
      omega (
        arith,
        held_at_most i,
        (full_iff i.held).0 (ap (λ k. (k + 1) % s.queue.capacity) (sym at) ∙ full),
        capacity-Reach r,
        capacity-make capacity blank,
      )

  -- At the test by which Pop finds nothing, all that went in has come out.
  pub empty_when_drained :
      (capacity : ℕ) (blank : A) {s : System A} (head : ℕ)
      → Reach (start (make capacity blank)) s
      → s.consumer ≡ Consumer.loaded head
      → head ≡ s.queue.tail
      → map some s.pushed ≡ s.popped
  empty_when_drained capacity blank {s} head r e same =
      let i = Reach-Inv (start-Inv capacity blank) r in
      let at = at_consumer i e in
      i.history
      ∙ ap (λ xs. s.popped ++ map some xs) ((empty_iff i.held).0 (sym at ∙ same))
      ∙ append-nil s.popped

  -- While the producer writes a slot and the consumer reads one, they are different slots.
  pub no_race :
      (capacity : ℕ) (blank : A) {s : System A} (v : A) (tail head : ℕ)
      → Reach (start (make capacity blank)) s
      → s.producer ≡ Producer.checked v tail
      → s.consumer ≡ Consumer.checked head
      → tail ≢ head
  no_race capacity blank {s} v tail head r ep ec same =
      let i = Reach-Inv (start-Inv capacity blank) r in
      let (at_tail, _) = at_producer i ep in
      let (at_head, more) = at_consumer i ec in
      absurd
        (omega (arith, more, ap length ((empty_iff i.held).0 (sym at_head ∙ sym same ∙ at_tail))))
