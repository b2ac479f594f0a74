-- ===== src/Prelude/Text.antt =====
-- Texts, as the lists of their bytes.
use hi_im_core.Prelude.Tests.{◌==◌, if◌then◌else◌, Bool-cases}
use Prim.Native.Nat.{ℕ}
use Prim.Native.Char.{code}
use Prim.Native.String.{String}
use mathlib.Core.Path.{◌≡◌, refl, ap, ◌∙◌}
use mathlib.Core.Logic.{◌↔◌, inl, inr}
use mathlib.Core.Bool.{Bool, true, false, ◌&&◌, ◌||◌}
use mathlib.Core.List.{List, [], ◌∷◌, ◌++◌}
use native.Mathlib.Omega.{arith}

-- The bytes of an ASCII text.
abbrev pub codes : String → List ℕ
codes String.[] = []
codes (String.◌∷◌ c s) = code c ∷ codes s

-- `std::string(text, strnlen(text, n))` of an array of n chars.
unfoldable pub c_string : List ℕ → List ℕ
c_string [] = []
c_string (c ∷ cs) = if c == 0 then [] else c ∷ c_string cs

-- `==` of std::string
unfoldable pub same_text : List ℕ → List ℕ → Bool
same_text [] [] = true
same_text [] (b ∷ m) = false
same_text (a ∷ l) [] = false
same_text (a ∷ l) (b ∷ m) = (a == b) && same_text l m

-- Whether the text begins with the word, and whether it has it somewhere: `strstr` finds it.
unfoldable pub begins : List ℕ → List ℕ → Bool
begins [] text = true
begins (a ∷ word) [] = false
begins (a ∷ word) (b ∷ text) = (a == b) && begins word text

unfoldable pub contains : List ℕ → List ℕ → Bool
unfolding begins
contains word [] = begins word []
contains word (b ∷ text) = begins word (b ∷ text) || contains word text

begins_iff :
    (word text : List ℕ) → (begins word text ≡ true) ↔ ((rest : List ℕ) × (text ≡ word ++ rest))
unfolding begins
begins_iff [] text = (λ h. (text, refl), λ h. refl)
begins_iff (a ∷ word) [] = (λ h. cc, λ h. cc (h.1))
begins_iff (a ∷ word) (b ∷ text) = (
  λ h. begun ((begins_iff word text).0 (ground arith)) (ground arith),
  λ h. ground (arith, (begins_iff word text).1 (h.0, ground arith)),
)
  where
    begun :
        ((rest : List ℕ) × (text ≡ word ++ rest))
        → b ≡ a
        → (rest : List ℕ) × (b ∷ text ≡ a ∷ (word ++ rest))
    begun (rest, eq) same = (rest, cc)

contains_found :
    (word text : List ℕ)
    → contains word text ≡ true
    → (before : List ℕ) × (rest : List ℕ) × (text ≡ before ++ (word ++ rest))
unfolding contains
contains_found word [] h = let (rest, eq) = (begins_iff word []).0 h in ([], rest, eq)
contains_found word (b ∷ text) h = elim (Bool-cases (begins word (b ∷ text))) [
  | inl here ↦ let (rest, eq) = (begins_iff word (b ∷ text)).0 here in ([], rest, eq)
  | inr later ↦
      let (before, rest, eq) = contains_found word text (ground arith) in
      (b ∷ before, rest, ap (◌∷◌ b) eq)
]

begins-contains : (word text : List ℕ) → begins word text ≡ true → contains word text ≡ true
unfolding contains
begins-contains word [] h = h
begins-contains word (b ∷ text) h = ground arith

contains-append : (word before rest : List ℕ) → contains word (before ++ (word ++ rest)) ≡ true
unfolding contains
contains-append word [] rest =
    begins-contains word (word ++ rest) ((begins_iff word (word ++ rest)).1 (rest, refl))
contains-append word (b ∷ before) rest = ground (arith, contains-append word before rest)

-- `strstr` finds the word exactly when the text has it somewhere.
pub contains_iff :
    (word text : List ℕ)
    → (contains word text ≡ true)
      ↔ ((before : List ℕ) × (rest : List ℕ) × (text ≡ before ++ (word ++ rest)))
contains_iff word text =
    (contains_found word text, λ h. ap (contains word) h.2 ∙ contains-append word h.0 h.1)

pub same_text_iff : (a b : List ℕ) → (same_text a b ≡ true) ↔ (a ≡ b)
unfolding same_text
same_text_iff [] [] = (λ h. refl, λ h. refl)
same_text_iff [] (b ∷ m) = (λ h. cc, λ h. cc)
same_text_iff (a ∷ l) [] = (λ h. cc, λ h. cc)
same_text_iff (a ∷ l) (b ∷ m) =
    (λ h. ground (arith, (same_text_iff l m).0), λ h. ground (arith, (same_text_iff l m).1))
