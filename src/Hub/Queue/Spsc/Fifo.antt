-- ===== src/Hub/Queue/Spsc/Fifo.antt =====
-- What the ring holds, and how each access to it changes that.
use native.Mathlib.Nat.{mod-add-mod, mod-eq-sub-mod, add-zero, mod-lt}
use hi_im_core.Prelude.{
  List, [], ap, arith, dec_lt, get_elem?, get_elem?-set_ne, length, length-append, length-set, refl,
  set, some, suc, sym, zero, ℕ, ◌%◌, ◌++◌, ◌+◌, ◌-◌, ◌<◌, ◌↔◌, ◌∙◌, ◌∷◌, ◌≡◌, ◌≢◌,
}
use hi_im_core.Hub.Queue.Spsc.{SpscQueue}

module _ {ℓ} {A : Type ℓ} where
  -- The ring `q` holds the values `xs`, oldest first, after `c` values have been taken out.
  pub record Holds (q : SpscQueue A) (c : ℕ) (xs : List A) : Type ℓ where
    pub head_at : q.head ≡ c % q.capacity
    pub tail_at : q.tail ≡ (c + length xs) % q.capacity
    pub room : length xs < q.capacity
    pub storage : length q.slots ≡ q.capacity
    pub live : (i : ℕ) → i < length xs → get_elem? q.slots ((c + i) % q.capacity) ≡ get_elem? xs i

-- Two places less than a round apart have different indices.
mod_ne : (n c i j : ℕ) → i < j → j < n → (c + i) % n ≢ (c + j) % n
mod_ne n c i j h k = λ e. grind arith

full_round : (n c : ℕ) → (c + n) % n ≡ c % n
full_round n c = mod-eq-sub-mod {n = c + n} {m = n} (omega arith) ∙ ap (λ k. k % n) step
  where
    step : c + n - n ≡ c
    step = omega arith

get_elem?-append_left {ℓ} :
    {A : Type ℓ} (xs ys : List A) (i : ℕ) → i < length xs → get_elem? (xs ++ ys) i ≡ get_elem? xs i
get_elem?-append_left [] ys i h = absurd (omega arith)
get_elem?-append_left (x ∷ xs) ys zero h = refl
get_elem?-append_left (x ∷ xs) ys (suc i) h = get_elem?-append_left xs ys i (omega arith)

get_elem?-append_last {ℓ} :
    {A : Type ℓ} (xs : List A) (v : A) (i : ℕ)
    → i ≡ length xs
    → get_elem? (xs ++ (v ∷ [])) i ≡ some v
get_elem?-append_last [] v zero e = refl
get_elem?-append_last [] v (suc i) e = absurd (omega arith)
get_elem?-append_last (x ∷ xs) v zero e = absurd (omega arith)
get_elem?-append_last (x ∷ xs) v (suc i) e = get_elem?-append_last xs v i (omega arith)

module _ {ℓ} {A : Type ℓ} {q : SpscQueue A} {c : ℕ} where
  -- The producer's next index, and when it meets the head.
  next_at :
      {xs : List A} → Holds q c xs → (q.tail + 1) % q.capacity ≡ (c + (length xs + 1)) % q.capacity
  next_at {xs} h =
      ap (λ t. (t + 1) % q.capacity) h.tail_at
      ∙ mod-add-mod (c + length xs) q.capacity 1
      ∙ ap (λ k. k % q.capacity) (omega arith)

  pub full_iff :
      {xs : List A}
      → Holds q c xs
      → ((q.tail + 1) % q.capacity ≡ q.head) ↔ (length xs + 1 ≡ q.capacity)
  full_iff {xs} h = (meets, reaches)
    where
      meets : (q.tail + 1) % q.capacity ≡ q.head → length xs + 1 ≡ q.capacity
      meets e = elim (dec_lt (length xs + 1) q.capacity) [
        | yes more ↦ absurd (
            mod_ne q.capacity c 0 (length xs + 1) (omega arith) more
              (ap (λ k. k % q.capacity) (add-zero c) ∙ sym h.head_at ∙ sym e ∙ next_at h))
        | no last ↦ omega arith
      ]

      reaches : length xs + 1 ≡ q.capacity → (q.tail + 1) % q.capacity ≡ q.head
      reaches e =
          next_at h ∙ ap (λ k. (c + k) % q.capacity) e ∙ full_round q.capacity c ∙ sym h.head_at

  pub empty_iff : {xs : List A} → Holds q c xs → (q.head ≡ q.tail) ↔ (xs ≡ [])
  empty_iff {xs = []} h =
      (λ _. refl, λ _. h.head_at ∙ ap (λ k. k % q.capacity) (sym (add-zero c)) ∙ sym h.tail_at)
  empty_iff {xs = x ∷ xs} h = (
    λ e. absurd (
        mod_ne q.capacity c 0 (length (x ∷ xs)) (omega arith) h.room
          (ap (λ k. k % q.capacity) (add-zero c) ∙ sym h.head_at ∙ e ∙ h.tail_at)),
    λ e. cc,
  )

  -- Writing the slot at the tail is not seen.
  pub write-Holds :
      {xs : List A} (v : A) → Holds q c xs → Holds (record q { slots = set q.slots q.tail v }) c xs
  write-Holds {xs} v h = record {
    head_at = h.head_at;
    tail_at = h.tail_at;
    room = h.room;
    storage = length-set q.slots q.tail v ∙ h.storage;
    live = λ i below.
        get_elem?-set_ne q.slots v
          (λ e. mod_ne q.capacity c i (length xs) below h.room (sym e ∙ h.tail_at))
        ∙ h.live i below;
  }

  -- Moving the tail past a slot that holds `v` appends `v`.
  pub publish-Holds :
      {xs : List A} (v : A)
      → Holds q c xs
      → length xs + 1 < q.capacity
      → get_elem? q.slots q.tail ≡ some v
      → Holds (record q { tail = (q.tail + 1) % q.capacity }) c (xs ++ (v ∷ []))
  publish-Holds {xs} v h more stored = record {
    head_at = h.head_at;
    tail_at = next_at h ∙ ap (λ k. (c + k) % q.capacity) (sym longer);
    room = rw longer more;
    storage = h.storage;
    live = λ i below. elim (dec_lt i (length xs)) [
      | yes old ↦ h.live i old ∙ sym (get_elem?-append_left xs (v ∷ []) i old)
      | no new ↦ last i (omega (arith, longer))
    ];
  }
    where
      longer : length (xs ++ (v ∷ [])) ≡ length xs + 1
      longer = length-append xs (v ∷ [])

      last :
          (i : ℕ)
          → i ≡ length xs
          → get_elem? q.slots ((c + i) % q.capacity) ≡ get_elem? (xs ++ (v ∷ [])) i
      last i e =
          ap (λ k. get_elem? q.slots ((c + k) % q.capacity)) e
          ∙ ap (get_elem? q.slots) (sym h.tail_at)
          ∙ stored
          ∙ sym (get_elem?-append_last xs v i e)

  -- Moving the head drops the oldest value, which is in the slot that it leaves.
  pub take-Holds :
      {x : A} {xs : List A}
      → Holds q c (x ∷ xs)
      → (get_elem? q.slots q.head ≡ some x)
        × Holds (record q { head = (q.head + 1) % q.capacity }) (c + 1) xs
  take-Holds {x} {xs} h = (
    ap (get_elem? q.slots) (h.head_at ∙ ap (λ k. k % q.capacity) (sym (add-zero c)))
        ∙ h.live 0 (omega arith),
    record {
      head_at = ap (λ k. (k + 1) % q.capacity) h.head_at ∙ mod-add-mod c q.capacity 1;
      tail_at = h.tail_at ∙ ap (λ k. k % q.capacity) (omega arith);
      room = omega (arith, h.room);
      storage = h.storage;
      live = λ i below.
          ap (λ k. get_elem? q.slots (k % q.capacity)) (shift i) ∙ h.live (suc i) (omega arith);
    },
  )
    where
      shift : (i : ℕ) → c + 1 + i ≡ c + suc i
      shift i = omega arith

  -- Push writes, and Pop reads, inside the slots.
  pub tail_inside : {xs : List A} → Holds q c xs → q.tail < length q.slots
  tail_inside {xs} h = rw (h.storage, h.tail_at) (mod-lt (c + length xs) (omega (arith, h.room)))

  pub oldest :
      (xs : List A) → Holds q c xs → 0 < length xs → get_elem? q.slots q.head ≡ get_elem? xs 0
  oldest [] h more = absurd (omega arith)
  oldest (x ∷ xs) h more = (take-Holds h).0
