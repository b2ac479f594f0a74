-- ===== src/Hub/Queue/Mpsc/Refine.antt =====
-- MpscQueue keeps the contract with its own capacity as the bound.
use hi_im_core.Hub.Queue.Spec
use hi_im_core.Prelude.{
  Bool-cases, List, [], ap, false, inl, inr, leb, length, none, refl, some, true, ℕ, ◌++◌, ◌∷◌, ◌≡◌,
}
use hi_im_core.Hub.Queue.Mpsc.{MpscQueue, pop, push}
use hi_im_core.Hub.Queue.Spec.{Op, Reply, popped, pops, pushed, pushes}

-- A client's calls in order, with what each returns.
unfoldable pub run {ℓ} : {A : Type ℓ} → MpscQueue A → List (Op A) → List (Reply A)
run q [] = []
run q (pushes v ∷ ops) = let (q', done) = push q v in pushed done ∷ run q' ops
run q (pops ∷ ops) = let (out, q') = pop q in popped out ∷ run q' ops

-- No sequence of whole calls tells an MpscQueue from the bounded FIFO of what it holds.
pub run_mpsc_refines {ℓ} :
    {A : Type ℓ} (capacity : ℕ) (xs : List A) (ops : List (Op A))
    → run (record { capacity = capacity; queue = xs }) ops ≡ Spec.run capacity xs ops
unfolding run Spec.run push pop Spec.push
run_mpsc_refines capacity xs [] = refl
run_mpsc_refines capacity xs (pushes v ∷ ops) = elim (Bool-cases (leb capacity (length xs))) [
  | inl full ↦ rw full (ap (◌∷◌ (pushed false)) (run_mpsc_refines capacity xs ops))
  | inr room ↦ rw room (ap (◌∷◌ (pushed true)) (run_mpsc_refines capacity (xs ++ (v ∷ [])) ops))
]
run_mpsc_refines capacity [] (pops ∷ ops) =
    ap (◌∷◌ (popped none)) (run_mpsc_refines capacity [] ops)
run_mpsc_refines capacity (x ∷ xs) (pops ∷ ops) =
    ap (◌∷◌ (popped (some x))) (run_mpsc_refines capacity xs ops)
