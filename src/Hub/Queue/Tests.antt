-- ===== src/Hub/Queue/Tests.antt =====
-- The queues on short histories.
use hi_im_core.Hub.Queue.Spec
use hi_im_core.Hub.Queue.Spsc
use hi_im_core.Hub.Queue.Mpsc
use hi_im_core.Prelude.{
  List, [], arith, length, map, refl, set, some, suc, true, zero, ℕ, ◌%◌, ◌++◌, ◌+◌, ◌∷◌, ◌≡◌, ◌≢◌,
  ◌≤◌,
}
use hi_im_core.Hub.Messages.{OutboundFrame, moved_frame}
use hi_im_core.Hub.Queue.Backoff.{push_with_backoff}
use hi_im_core.Hub.Queue.Backoff.Frames.{retry_empties_frame}
use hi_im_core.Hub.Queue.Mpsc.{MpscQueue}
use hi_im_core.Hub.Queue.Spec.{pops, pushed, pushes}
use hi_im_core.Hub.Queue.Spsc.{SpscQueue}
use hi_im_core.Hub.Queue.Spsc.Refine.{make-Holds, run_spsc_refines}
use hi_im_core.Hub.Queue.Steps.{
  Consumer, Producer, Reach, System, check_head, check_tail, here, load_head, load_tail, next,
  start, store_tail, write_slot,
}
use hi_im_core.Hub.Queue.Steps.Safety.{empty_when_drained, fifo, no_race}

-- A ring of capacity 1 for numbers, and what two threads do to it.
abbrev ring : SpscQueue ℕ
ring = Spsc.make 1 0

abbrev loading : System ℕ
loading = record (start ring) { producer = Producer.loaded 5 0 }

abbrev checking : System ℕ
checking = record (start ring) { producer = Producer.checked 5 0 }

abbrev writing : System ℕ
writing = record (start ring) {
  queue = record ring { slots = set ring.slots 0 5 };
  producer = Producer.written 5 0;
}

abbrev full : System ℕ
full = record (start ring) {
  queue = record ring { slots = set ring.slots 0 5; tail = (0 + 1) % 2 };
  pushed = 5 ∷ [];
}

checking_reached : Reach (start ring) checking
unfolding Spsc.make
checking_reached = next (next here (load_tail 5 refl)) (check_head 5 0 refl (λ e. omega (arith, e)))

full_reached : Reach (start ring) full
unfolding Spsc.make
full_reached = next (next checking_reached (write_slot 5 0 refl)) (store_tail 5 0 refl)

fifo_example : (xs : List ℕ) × (map some full.pushed ≡ full.popped ++ map some xs) × (length xs ≤ 1)
fifo_example = fifo 1 0 full_reached

empty_when_drained_example : map some loading.pushed ≡ loading.popped
unfolding Spsc.make
empty_when_drained_example =
    empty_when_drained 1 0 {s = record loading { consumer = Consumer.loaded 0 }} 0
      (next (next here (load_tail 5 refl)) (load_head refl)) refl refl

run_spsc_refines_example :
    Spsc.Refine.run ring (pushes 5 ∷ pushes 6 ∷ pops ∷ pops ∷ [])
    ≡ Spec.run 1 [] (pushes 5 ∷ pushes 6 ∷ pops ∷ pops ∷ [])
unfolding Spsc.make
run_spsc_refines_example =
    run_spsc_refines (pushes 5 ∷ pushes 6 ∷ pops ∷ pops ∷ []) 1 (make-Holds 1 0) refl

-- A full distributor's queue whose frame is taken out before the second attempt.
abbrev frame : OutboundFrame
frame = record { sid = 1; reactor_idx = some 0; bytes = 65 ∷ [] }

abbrev busy : MpscQueue OutboundFrame
busy = record { capacity = 1; queue = frame ∷ [] }

abbrev emptied : ℕ → MpscQueue OutboundFrame → MpscQueue OutboundFrame
emptied zero q = q
emptied (suc i) q = record q { queue = [] }

retry_empties_frame_example :
    push_with_backoff Mpsc.push moved_frame emptied 1 busy frame
    ≡ (record { capacity = 1; queue = record frame { bytes = [] } ∷ [] }, true)
retry_empties_frame_example = retry_empties_frame emptied 0 busy frame (omega arith) (omega arith)

-- A ring of capacity 2 with one value in, where both threads are past their tests.
abbrev one_in : System ℕ
one_in = record (start (Spsc.make 2 0)) {
  queue = record (Spsc.make 2 0) { slots = set (Spsc.make 2 0).slots 0 5; tail = (0 + 1) % 3 };
  pushed = 5 ∷ [];
}

one_in_reached : Reach (start (Spsc.make 2 0)) one_in
unfolding Spsc.make
one_in_reached =
    next
      (next (next (next here (load_tail 5 refl)) (check_head 5 0 refl (λ e. omega (arith, e))))
        (write_slot 5 0 refl))
      (store_tail 5 0 refl)

both_reached :
    Reach
      (start (Spsc.make 2 0))
      (record one_in { producer = Producer.checked 6 1; consumer = Consumer.checked 0 })
unfolding Spsc.make
both_reached =
    next
      (next
        (next (next one_in_reached (load_tail 6 refl))
          (check_head 6 1 refl (λ e. omega (arith, e))))
        (load_head refl))
      (check_tail 0 refl (λ e. omega (arith, e)))

no_race_example : ◌≢◌ {A = ℕ} 1 0
no_race_example = no_race 2 0 6 1 0 both_reached refl refl
