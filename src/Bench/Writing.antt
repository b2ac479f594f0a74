-- ===== src/Bench/Writing.antt =====
-- The loop of WriteAll: it ends, and it sends the bytes in order.
use mathlib.Core.Option
use hi_im_core.Prelude.{
  Bool, List, Option, [], ap, append_assoc, arith, dec_lt, drop, drop-drop, drop_all, false, inl,
  inr, length, le→not_ltb, lt→ltb, refl, some, subst, suc, sym, take, take-append-drop, true, zero,
  ℕ, ◌++◌, ◌+◌, ◌-◌, ◌<◌, ◌∙◌, ◌≡◌, ◌⊎◌,
}
use hi_im_core.Bench.{after_write, write_all, write_from}
use hi_im_core.Hub.Reactor.Output.{Kernel, SendResult, send_failed, sent, would_block}

-- What an answer says about the bytes: true if all went out, and else a front of them did.
abbrev pub IsWritten : List ℕ → Bool × List ℕ → Type 0
IsWritten bytes r =
    ((r.0 ≡ true) × (r.1 ≡ bytes)) ⊎ ((r.0 ≡ false) × ((rest : List ℕ) × (r.1 ++ rest ≡ bytes)))

-- The loop ends with such an answer.
abbrev pub Writes : List ℕ → Option (Bool × List ℕ) → Type 0
Writes bytes m = (r : Bool × List ℕ) × (m ≡ some r) × IsWritten bytes r

IsWritten-take :
    (n : ℕ) (bytes : List ℕ) (r : Bool × List ℕ)
    → IsWritten (drop n bytes) r
    → IsWritten bytes (r.0, take n bytes ++ r.1)
IsWritten-take n bytes r (inl (success, all)) =
    inl (success, ap (λ l. take n bytes ++ l) all ∙ take-append-drop n bytes)
IsWritten-take n bytes r (inr (failure, (rest, front))) = inr (
  failure,
  (
    rest,
    append_assoc (take n bytes) r.1 rest
        ∙ ap (λ l. take n bytes ++ l) front
        ∙ take-append-drop n bytes,
  ),
)

after_write-Writes :
    (kernel : Kernel) (result : SendResult) (off : ℕ) (bytes : List ℕ)
    (continue : ℕ → Option (Bool × List ℕ))
    → ((n : ℕ) → 0 < n → Writes (drop (off + n) bytes) (continue (off + n)))
    → Writes (drop off bytes) (after_write kernel result off bytes continue)
after_write-Writes kernel (sent n) off bytes continue rest = elim (dec_lt 0 n) [
  | yes p ↦ rw (lt→ltb 0 n p, after_write) (taken n (rest n p))
  | no z ↦
      rw (le→not_ltb 0 n (omega arith), after_write)
        ((false, []), refl, inr (refl, (drop off bytes, refl)))
]
  where
    taken :
        (m : ℕ)
        → Writes (drop (off + m) bytes) (continue (off + m))
        → Writes (drop off bytes) (
            Option.map
              (λ (r : Bool × List ℕ). (r.0, take m (drop off bytes) ++ r.1))
              (continue (off + m)))
    taken m (r, ends, there) = (
      (r.0, take m (drop off bytes) ++ r.1),
      ap (Option.map _) ends,
      IsWritten-take m (drop off bytes) r
          (subst (λ l. IsWritten l r) (sym (drop-drop m off bytes)) there),
    )
after_write-Writes kernel would_block off bytes continue rest =
    ((false, []), refl, inr (refl, (drop off bytes, refl)))
after_write-Writes kernel send_failed off bytes continue rest =
    ((false, []), refl, inr (refl, (drop off bytes, refl)))

module _ (kernel : Kernel) where
  write_from-Writes :
      (fuel k off : ℕ) (bytes : List ℕ)
      → length bytes - off < fuel
      → Writes (drop off bytes) (write_from kernel fuel k off bytes)
  unfolding write_from
  write_from-Writes zero k off bytes enough = absurd (omega arith)
  write_from-Writes (suc fuel) k off bytes enough = elim (dec_lt off (length bytes)) [
    | yes more ↦
        rw (lt→ltb off (length bytes) more, write_from)
          (after_write-Writes kernel (kernel k) off bytes _
            (λ n p. write_from-Writes fuel (k + 1) (off + n) bytes (omega arith)))
    | no last ↦
        rw (le→not_ltb off (length bytes) (omega arith), write_from)
          ((true, []), refl, inl (refl, sym (drop_all off bytes (omega arith))))
  ]

  -- WriteAll ends, whatever the kernel answers: it returns true if all the bytes went out, in order,
  -- and false if only a front of them did.
  pub write_all-Writes : (bytes : List ℕ) → Writes bytes (write_all kernel bytes)
  unfolding write_all
  write_all-Writes bytes = write_from-Writes (length bytes + 1) 0 0 bytes (omega arith)
