-- ===== src/Prelude/Maps.antt =====
-- std::unordered_map with integer keys, as an association list with one entry to a key. The order
-- of the entries is not the order of the hash table, and nothing below depends on it.
use hi_im_core.Prelude.Tests.{◌==◌, if◌then◌else◌}
use Prim.Native.Nat.{ℕ}
use mathlib.Core.Path.{◌≡◌, refl}
use mathlib.Core.Option
use mathlib.Core.Option.{Option, none, some}
use mathlib.Core.List.{List, [], ◌∷◌}
use native.Mathlib.Omega.{arith}

abbrev pub Table {ℓ} : Type ℓ → Type ℓ
Table V = List (ℕ × V)

module _ {ℓ} {V : Type ℓ} where
  -- `find`
  unfoldable pub lookup : ℕ → Table V → Option V
  lookup k [] = none
  lookup k ((j, v) ∷ t) = if j == k then some v else lookup k t

  -- `t[k] = v`
  unfoldable pub insert : ℕ → V → Table V → Table V
  insert k v [] = (k, v) ∷ []
  insert k v ((j, w) ∷ t) = if j == k then (k, v) ∷ t else (j, w) ∷ insert k v t

  -- `erase(k)`
  unfoldable pub erase : ℕ → Table V → Table V
  erase k [] = []
  erase k ((j, w) ∷ t) = if j == k then erase k t else (j, w) ∷ erase k t

  -- `for (auto& [k, v] : t) v = f(v);`
  unfoldable pub map_values : (V → V) → Table V → Table V
  map_values f [] = []
  map_values f ((j, w) ∷ t) = (j, f w) ∷ map_values f t

  pub lookup-insert :
      (k j : ℕ) (v : V) (t : Table V)
      → lookup j (insert k v t) ≡ (if k == j then some v else lookup j t)
  unfolding lookup insert
  lookup-insert k j v [] = refl
  lookup-insert k j v ((i, w) ∷ t) = ground (arith, lookup-insert k j v t)

  pub lookup-erase :
      (k j : ℕ) (t : Table V) → lookup j (erase k t) ≡ (if k == j then none else lookup j t)
  unfolding lookup erase
  lookup-erase k j [] = ground arith
  lookup-erase k j ((i, w) ∷ t) = ground (arith, lookup-erase k j t)

  pub lookup-map_values :
      (f : V → V) (j : ℕ) (t : Table V) → lookup j (map_values f t) ≡ Option.map f (lookup j t)
  unfolding lookup map_values
  lookup-map_values f j [] = refl
  lookup-map_values f j ((i, w) ∷ t) = ground (arith, lookup-map_values f j t)
