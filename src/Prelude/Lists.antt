-- ===== src/Prelude/Lists.antt =====
-- Lists measured and indexed by native numbers, and the memory writes of the program on them.
use Prim.Native.Nat.{ℕ, zero, suc, ◌+◌, ◌-◌, ◌≤◌, ◌<◌, min}
use mathlib.Core.Path.{◌≡◌, refl, ap, sym, ◌∙◌}
use mathlib.Core.Logic.{◌≢◌}
use mathlib.Core.Bool.{Bool, true, false}
use mathlib.Core.List.{List, [], ◌∷◌, ◌++◌, map, append-nil}
use mathlib.Core.Option.{Option, none, some}
use native.Mathlib.Omega.{arith}
use hi_im_core.Prelude.Tests.{if◌then◌else◌}

module _ {ℓ} {A : Type ℓ} where
  abbrev pub length : List A → ℕ
  length [] = 0
  length (x ∷ xs) = suc (length xs)

  abbrev pub get_elem? : List A → ℕ → Option A
  get_elem? [] i = none
  get_elem? (x ∷ xs) zero = some x
  get_elem? (x ∷ xs) (suc i) = get_elem? xs i

  abbrev pub get_or : List A → ℕ → A → A
  get_or [] i d = d
  get_or (x ∷ xs) zero d = x
  get_or (x ∷ xs) (suc i) d = get_or xs i d

  -- A write out of bounds changes nothing.
  abbrev pub set : List A → ℕ → A → List A
  set [] i v = []
  set (x ∷ xs) zero v = v ∷ xs
  set (x ∷ xs) (suc i) v = x ∷ set xs i v

  abbrev pub take : ℕ → List A → List A
  take zero xs = []
  take (suc n) [] = []
  take (suc n) (x ∷ xs) = x ∷ take n xs

  abbrev pub drop : ℕ → List A → List A
  drop zero xs = xs
  drop (suc n) [] = []
  drop (suc n) (x ∷ xs) = drop n xs

  abbrev pub replicate : ℕ → A → List A
  replicate zero a = []
  replicate (suc n) a = a ∷ replicate n a

  abbrev pub is_empty : List A → Bool
  is_empty [] = true
  is_empty (x ∷ xs) = false

  -- The elements that pass the test, in order.
  abbrev pub keep : (A → Bool) → List A → List A
  keep p [] = []
  keep p (x ∷ xs) = if p x then x ∷ keep p xs else keep p xs

  -- The first element that passes the test.
  abbrev pub find_first : (A → Bool) → List A → Option A
  find_first p [] = none
  find_first p (x ∷ xs) = if p x then some x else find_first p xs

  -- `memcpy(dst.data() + offset, src.data(), src.size())`, inside `dst`.
  abbrev pub memcpy : List A → ℕ → List A → List A
  memcpy dst offset src = take offset dst ++ (src ++ drop (offset + length src) dst)

  pub length-append : (xs ys : List A) → length (xs ++ ys) ≡ length xs + length ys
  length-append [] ys = omega arith
  length-append (x ∷ xs) ys = omega (arith, length-append xs ys)

  pub length-set : (xs : List A) (i : ℕ) (v : A) → length (set xs i v) ≡ length xs
  length-set [] i v = refl
  length-set (x ∷ xs) zero v = refl
  length-set (x ∷ xs) (suc i) v = ap suc (length-set xs i v)

  pub length-take : (n : ℕ) (xs : List A) → length (take n xs) ≡ min n (length xs)
  length-take zero xs = omega arith
  length-take (suc n) [] = omega arith
  length-take (suc n) (x ∷ xs) = omega (arith, length-take n xs)

  pub length-drop : (n : ℕ) (xs : List A) → length (drop n xs) ≡ length xs - n
  length-drop zero xs = omega arith
  length-drop (suc n) [] = omega arith
  length-drop (suc n) (x ∷ xs) = omega (arith, length-drop n xs)

  pub length-replicate : (n : ℕ) (a : A) → length (replicate n a) ≡ n
  length-replicate zero a = refl
  length-replicate (suc n) a = ap suc (length-replicate n a)

  pub take-append-drop : (n : ℕ) (xs : List A) → take n xs ++ drop n xs ≡ xs
  take-append-drop zero xs = refl
  take-append-drop (suc n) [] = refl
  take-append-drop (suc n) (x ∷ xs) = rw (take-append-drop n xs)

  -- Cutting at the seam of an append gives back its parts.
  pub take-append_seam : (n : ℕ) (xs ys : List A) → n ≡ length xs → take n (xs ++ ys) ≡ xs
  take-append_seam zero [] ys e = refl
  take-append_seam zero (x ∷ xs) ys e = absurd (omega arith)
  take-append_seam (suc n) [] ys e = absurd (omega arith)
  take-append_seam (suc n) (x ∷ xs) ys e = ap (◌∷◌ x) (take-append_seam n xs ys (omega arith))

  pub drop-append_seam : (n : ℕ) (xs ys : List A) → n ≡ length xs → drop n (xs ++ ys) ≡ ys
  drop-append_seam zero [] ys e = refl
  drop-append_seam zero (x ∷ xs) ys e = absurd (omega arith)
  drop-append_seam (suc n) [] ys e = absurd (omega arith)
  drop-append_seam (suc n) (x ∷ xs) ys e = drop-append_seam n xs ys (omega arith)

  -- Cutting before the seam cuts the first part.
  pub take-append_le : (n : ℕ) (xs ys : List A) → n ≤ length xs → take n (xs ++ ys) ≡ take n xs
  take-append_le zero xs ys h = refl
  take-append_le (suc n) [] ys h = absurd (omega arith)
  take-append_le (suc n) (x ∷ xs) ys h = ap (◌∷◌ x) (take-append_le n xs ys (omega arith))

  pub drop-append_le :
      (n : ℕ) (xs ys : List A) → n ≤ length xs → drop n (xs ++ ys) ≡ drop n xs ++ ys
  drop-append_le zero xs ys h = refl
  drop-append_le (suc n) [] ys h = absurd (omega arith)
  drop-append_le (suc n) (x ∷ xs) ys h = drop-append_le n xs ys (omega arith)

  pub drop_all : (n : ℕ) (xs : List A) → length xs ≤ n → drop n xs ≡ []
  drop_all zero [] h = refl
  drop_all zero (x ∷ xs) h = absurd (omega arith)
  drop_all (suc n) [] h = refl
  drop_all (suc n) (x ∷ xs) h = drop_all n xs (omega arith)

  drop-nil : (n : ℕ) → drop n [] ≡ []
  drop-nil zero = refl
  drop-nil (suc n) = refl

  pub drop-drop : (m n : ℕ) (xs : List A) → drop m (drop n xs) ≡ drop (n + m) xs
  drop-drop m zero xs = ap (λ k. drop k xs) (omega arith)
  drop-drop m (suc n) [] = rw (drop-nil m, drop-nil (suc n + m))
  drop-drop m (suc n) (x ∷ xs) = rw (drop-drop m n xs) (ap (λ k. drop k (x ∷ xs)) step)
    where
      step : suc (n + m) ≡ suc n + m
      step = omega arith

  -- A buffer filled by a head of `k` elements and then by the rest holds exactly those.
  pub memcpy-fill :
      (k : ℕ) (dst head rest : List A)
      → length head ≡ k
      → length dst ≡ k + length rest
      → memcpy (memcpy dst 0 head) k rest ≡ head ++ rest
  memcpy-fill k dst head rest eh ed = rw (
    take-append_seam k head (drop (0 + length head) dst) (sym eh),
    drop_all (k + length rest) (head ++ drop (0 + length head) dst) short,
    append-nil,
  )
    where
      short : length (head ++ drop (0 + length head) dst) ≤ k + length rest
      short = omega (
        arith,
        length-append head (drop (0 + length head) dst),
        length-drop (0 + length head) dst,
      )

  -- Two ways to cut one list: the longer front extends the shorter one.
  pub append_split :
      (xs ys zs ws : List A)
      → xs ++ ys ≡ zs ++ ws
      → length xs ≤ length zs
      → (xs ++ drop (length xs) zs ≡ zs) × (ys ≡ drop (length xs) zs ++ ws)
  append_split xs ys zs ws eq h = (
    ap (λ l. l ++ drop (length xs) zs) front ∙ take-append-drop (length xs) zs,
    sym (drop-append_seam (length xs) xs ys refl)
        ∙ ap (drop (length xs)) eq
        ∙ drop-append_le (length xs) zs ws h,
  )
    where
      front : xs ≡ take (length xs) zs
      front =
          sym (take-append_seam (length xs) xs ys refl)
          ∙ ap (take (length xs)) eq
          ∙ take-append_le (length xs) zs ws h

  pub replicate-add : (m n : ℕ) (a : A) → replicate (m + n) a ≡ replicate m a ++ replicate n a
  replicate-add zero n a = ap (λ k. replicate k a) (omega arith)
  replicate-add (suc m) n a = ap (λ k. replicate k a) step ∙ ap (◌∷◌ a) (replicate-add m n a)
    where
      step : suc m + n ≡ suc (m + n)
      step = omega arith

  -- Writing over the tail of a buffer.
  pub memcpy-tail :
      (k : ℕ) (head dst rest : List A)
      → length head ≡ k
      → length dst ≡ length rest
      → memcpy (head ++ dst) k rest ≡ head ++ rest
  memcpy-tail k head dst rest eh ed = rw (
    take-append_seam k head dst (sym eh),
    drop_all (k + length rest) (head ++ dst) (omega (arith, length-append head dst)),
    append-nil,
  )

  pub drop-replicate : (k n : ℕ) (a : A) → drop k (replicate n a) ≡ replicate (n - k) a
  drop-replicate zero n a = ap (λ j. replicate j a) (omega arith)
  drop-replicate (suc k) zero a = ap (λ j. replicate j a) none_left
    where
      none_left : 0 ≡ 0 - suc k
      none_left = omega arith
  drop-replicate (suc k) (suc n) a = drop-replicate k n a ∙ ap (λ j. replicate j a) step
    where
      step : n - k ≡ suc n - suc k
      step = omega arith

  pub take-min-length : (n : ℕ) (xs : List A) → take (min (length xs) n) xs ≡ take n xs
  take-min-length n [] = rw (drop_nothing (min 0 n), drop_nothing n)
    where
      drop_nothing : (m : ℕ) → take m [] ≡ []
      drop_nothing zero = refl
      drop_nothing (suc m) = refl
  take-min-length zero (x ∷ xs) = ap (λ k. take k (x ∷ xs)) none_left
    where
      none_left : min (suc (length xs)) 0 ≡ 0
      none_left = omega arith
  take-min-length (suc n) (x ∷ xs) =
      ap (λ k. take k (x ∷ xs)) step ∙ ap (◌∷◌ x) (take-min-length n xs)
    where
      step : min (suc (length xs)) (suc n) ≡ suc (min (length xs) n)
      step = omega arith

  pub get_elem?-set_self :
      (xs : List A) (i : ℕ) (v : A) → i < length xs → get_elem? (set xs i v) i ≡ some v
  get_elem?-set_self [] i v h = absurd (omega arith)
  get_elem?-set_self (x ∷ xs) zero v h = refl
  get_elem?-set_self (x ∷ xs) (suc i) v h = get_elem?-set_self xs i v (omega arith)

  pub get_elem?-set_ne :
      (xs : List A) {i j : ℕ} (v : A) → i ≢ j → get_elem? (set xs i v) j ≡ get_elem? xs j
  get_elem?-set_ne [] v h = refl
  get_elem?-set_ne (x ∷ xs) {i = zero} {j = zero} v h = absurd (h refl)
  get_elem?-set_ne (x ∷ xs) {i = zero} {j = suc j} v h = refl
  get_elem?-set_ne (x ∷ xs) {i = suc i} {j = zero} v h = refl
  get_elem?-set_ne (x ∷ xs) {i = suc i} {j = suc j} v h = get_elem?-set_ne xs v (λ e. h (ap suc e))

pub length-map {ℓ κ} :
    {A : Type ℓ} {B : Type κ} (f : A → B) (xs : List A) → length (map f xs) ≡ length xs
length-map f [] = refl
length-map f (x ∷ xs) = ap suc (length-map f xs)
