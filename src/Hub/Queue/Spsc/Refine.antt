-- ===== src/Hub/Queue/Spsc/Refine.antt =====
-- A SpscQueue whose methods run to their ends keeps the contract of a bounded FIFO.
use native.Mathlib.Nat.{mod-eq_of_lt, mod-lt, mod-add-mod, mod-eq-sub-mod}
use hi_im_core.Hub.Queue.Spec
use hi_im_core.Prelude.{
  ==_refl, List, [], ap, ap₂, arith, dec_lt, false, get_elem?-set_self, length, length-replicate,
  le→leb, le→not_leb, ne→not_==, none, refl, some, sym, true, ℕ, ◌%◌, ◌++◌, ◌+◌, ◌-◌, ◌<◌, ◌==◌,
  ◌∙◌, ◌∷◌, ◌≡◌,
}
use hi_im_core.Hub.Listener.Opening.{held}
use hi_im_core.Hub.Queue.Spec.{Op, Reply, popped, pops, pushed, pushes}
use hi_im_core.Hub.Queue.Spsc.{SpscQueue, make, pop, push, size_approx}
use hi_im_core.Hub.Queue.Spsc.Fifo.{
  Holds, empty_iff, full_iff, publish-Holds, tail_inside, take-Holds, write-Holds,
}

module _ {ℓ} {A : Type ℓ} where
  -- A fresh queue holds nothing.
  pub make-Holds : (capacity : ℕ) (blank : A) → Holds (make capacity blank) 0 []
  unfolding make
  make-Holds capacity blank = record {
    head_at = sym (mod-eq_of_lt (omega arith));
    tail_at = sym (mod-eq_of_lt (omega arith));
    room = omega arith;
    storage = length-replicate (capacity + 1) blank;
    live = λ i below. absurd (omega arith);
  }

  pub push_full :
      {q : SpscQueue A} {c : ℕ} {xs : List A} (v : A)
      → Holds q c xs
      → length xs + 1 ≡ q.capacity
      → push q v ≡ (q, false)
  unfolding push
  push_full {q} v h e = rw ((full_iff h).1 e, ==_refl q.head)

  pub push_ok :
      {q : SpscQueue A} {c : ℕ} {xs : List A} (v : A)
      → Holds q c xs
      → length xs + 1 < q.capacity
      → ((push q v).1 ≡ true) × Holds (push q v).0 c (xs ++ (v ∷ []))
  unfolding push
  push_ok {q} {c} {xs} v h more = rw open_slot (
    refl,
    publish-Holds v (write-Holds v h) more (get_elem?-set_self q.slots q.tail v (tail_inside h)),
  )
    where
      open_slot : ((q.tail + 1) % q.capacity == q.head) ≡ false
      open_slot = ne→not_== _ _ (λ (e : (q.tail + 1) % q.capacity ≡ q.head).
          absurd (omega (arith, more, (full_iff h).0 e)))

  pub pop_empty : {q : SpscQueue A} {c : ℕ} → Holds q c [] → pop q ≡ (none, q)
  unfolding pop
  pop_empty {q} h = rw ((empty_iff h).1 refl, ==_refl q.tail)

  pub pop_ok :
      {q : SpscQueue A} {c : ℕ} {x : A} {xs : List A}
      → Holds q c (x ∷ xs)
      → ((pop q).0 ≡ some x) × Holds (pop q).1 (c + 1) xs
  unfolding pop
  pop_ok {q} {x} {xs} h = rw busy (take-Holds h)
    where
      busy : (q.head == q.tail) ≡ false
      busy = ne→not_== _ _ (λ (e : q.head ≡ q.tail). cc ((empty_iff h).0 e))

  -- A client's calls in order, with what each returns.
  unfoldable pub run : SpscQueue A → List (Op A) → List (Reply A)
  run q [] = []
  run q (pushes v ∷ ops) = let (q', done) = push q v in pushed done ∷ run q' ops
  run q (pops ∷ ops) = let (out, q') = pop q in popped out ∷ run q' ops

  pub capacity-push : (q : SpscQueue A) (v : A) → (push q v).0.capacity ≡ q.capacity
  unfolding push
  capacity-push q v = ground arith

  pub capacity-pop : (q : SpscQueue A) → (pop q).1.capacity ≡ q.capacity
  unfolding pop
  capacity-pop q = ground arith

  -- No sequence of whole calls tells the ring from the bounded FIFO of what it holds; the bound is
  -- one less than the number of slots.
  pub run_spsc_refines :
      (ops : List (Op A)) (bound : ℕ) {q : SpscQueue A} {c : ℕ} {xs : List A}
      → Holds q c xs
      → q.capacity ≡ bound + 1
      → run q ops ≡ Spec.run bound xs ops
  unfolding run Spec.run Spec.push
  run_spsc_refines [] bound h e = refl
  run_spsc_refines (pushes v ∷ ops) bound {q} {c} {xs} h e =
      elim (dec_lt (length xs + 1) q.capacity) [
        | yes more ↦
            let (done, held) = push_ok v h more in
            rw (le→not_leb bound (length xs) (omega arith)) (
              ap₂ (λ b r. pushed b ∷ r) done
                (run_spsc_refines ops bound held (capacity-push q v ∙ e)))
        | no last ↦
            rw
              (
                push_full v h (omega (arith, h.room)),
                le→leb bound (length xs) (omega (arith, h.room)),
              )
              (ap (◌∷◌ (pushed false)) (run_spsc_refines ops bound h e))
      ]
  run_spsc_refines (pops ∷ ops) bound {q} {xs = []} h e =
      rw (pop_empty h) (ap (◌∷◌ (popped none)) (run_spsc_refines ops bound h e))
  run_spsc_refines (pops ∷ ops) bound {q} {xs = x ∷ xs} h e =
      let (out, held) = pop_ok h in
      ap₂ (λ o r. popped o ∷ r) out (run_spsc_refines ops bound held (capacity-pop q ∙ e))

  -- SizeApprox is the number of values that the ring holds, while no other thread is in a method.
  pub size_approx-length :
      {q : SpscQueue A} {c : ℕ} {xs : List A} → Holds q c xs → size_approx q ≡ length xs
  unfolding size_approx
  size_approx-length {q} {c} {xs} h = elim (dec_lt (q.head + length xs) q.capacity) [
    | yes straight ↦
        let at : q.tail ≡ q.head + length xs = from_head ∙ mod-eq_of_lt straight in ground arith
    | no round ↦
        let at : q.tail ≡ q.head + length xs - q.capacity =
          from_head
          ∙ mod-eq-sub-mod {n = q.head + length xs} {m = q.capacity} (omega arith)
          ∙ mod-eq_of_lt (omega (arith, head_in, h.room)) in
        ground (arith, head_in, h.room)
  ]
    where
      from_head : q.tail ≡ (q.head + length xs) % q.capacity
      from_head =
          h.tail_at
          ∙ sym (mod-add-mod c q.capacity (length xs))
          ∙ ap (λ k. (k + length xs) % q.capacity) (sym h.head_at)

      head_in : q.head < q.capacity
      head_in = rw h.head_at (mod-lt c (omega (arith, h.room)))
