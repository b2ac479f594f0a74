-- ===== src/Prelude/Outcomes.antt =====
-- How a step of a thread ends.
use mathlib.Core.Option.{Option, none, some}
use mathlib.Core.Path.{◌≡◌}

pub data Run (A : Type 0) : Type 0 where
  done : A → Run A
  -- std::out_of_range from `.at`
  out_of_range : Run A
  -- an access through a reference to an erased map entry
  dangling : Run A
  -- the model's fuel is used up; never reached with the fuel that the theorems give
  out_of_fuel : Run A

infixl 5 ◌>>=◌
abbrev pub ◌>>=◌ : {A B : Type 0} → Run A → (A → Run B) → Run B
done a >>= f = f a
out_of_range >>= f = out_of_range
dangling >>= f = dangling
out_of_fuel >>= f = out_of_fuel

-- `if (auto x = q.Pop())`: without a value, and with one; both see the queue after the call.
abbrev pub on_pop : {A Q R : Type 0} → Option A × Q → (Q → R) → (A → Q → R) → R
on_pop (none, q) nothing something = nothing q
on_pop (some a, q) nothing something = something a q

-- `.at(i)`
abbrev pub or_throw : {A : Type 0} → Option A → Run A
or_throw none = out_of_range
or_throw (some a) = done a

pub some_inj {ℓ} : {A : Type ℓ} {a b : A} → some a ≡ some b → a ≡ b
some_inj eq = cc

pub done_inj : {A : Type 0} {a b : A} → done a ≡ done b → a ≡ b
done_inj eq = cc
