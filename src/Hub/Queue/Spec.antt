-- ===== src/Hub/Queue/Spec.antt =====
-- The contract of both queues: a first-in first-out buffer of bounded size.
use hi_im_core.Prelude.{
  Bool, List, Option, [], false, if◌then◌else◌, leb, length, none, some, true, ℕ, ◌++◌, ◌∷◌,
}

pub data Op {ℓ} (A : Type ℓ) : Type ℓ where
  pushes : A → Op A
  pops : Op A

-- What the caller of a method sees.
pub data Reply {ℓ} (A : Type ℓ) : Type ℓ where
  pushed : Bool → Reply A
  popped : Option A → Reply A

module _ {ℓ} {A : Type ℓ} (bound : ℕ) where
  unfoldable pub push : List A → A → List A × Bool
  push xs v = if leb bound (length xs) then (xs, false) else (xs ++ (v ∷ []), true)

  unfoldable pub run : List A → List (Op A) → List (Reply A)
  run xs [] = []
  run xs (pushes v ∷ ops) = let (xs', done) = push xs v in pushed done ∷ run xs' ops
  run [] (pops ∷ ops) = popped none ∷ run [] ops
  run (x ∷ xs) (pops ∷ ops) = popped (some x) ∷ run xs ops
