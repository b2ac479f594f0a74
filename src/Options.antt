-- ===== src/Options.antt =====
-- The loop over the command line that both programs have: ParseArgs of cmd/hi-im-hub/main.cpp and of
-- cmd/hi-im-bench/main.cpp.
use hi_im_core.Prelude.{List, Option, [], if◌then◌else◌, none, same_text, some, ℕ, ◌∷◌}

-- What one argument is, for a configuration of type C: an option that takes the next argument and
-- sets something, or throws what std::stoi and its likes throw (`none`), --help, or neither.
pub data Setting {ℓ} (C : Type ℓ) : Type ℓ where
  sets : (List ℕ → C → Option C) → Setting C
  helps : Setting C
  unknown : Setting C

-- How ParseArgs ends: it returns, it throws, or it ends the program by std::exit(0).
pub data Args {ℓ} (C : Type ℓ) : Type ℓ where
  config : C → Args C
  bad_number : Args C
  asks_help : Args C

abbrev pub after_set {ℓ} : {C : Type ℓ} → Option C → (C → Args C) → Args C
after_set none continue = bad_number
after_set (some cfg) continue = continue cfg

-- `next()` is empty behind the last argument.
unfoldable pub parse_options {ℓ} : {C : Type ℓ} → (List ℕ → Setting C) → List (List ℕ) → C → Args C
parse_options setting [] cfg = config cfg
parse_options setting (arg ∷ []) cfg = elim (setting arg) [
  | sets f ↦ after_set (f [] cfg) config
  | helps ↦ asks_help
  | unknown ↦ config cfg
]
parse_options setting (arg ∷ value ∷ args) cfg = elim (setting arg) [
  | sets f ↦ after_set (f value cfg) (parse_options setting args)
  | helps ↦ asks_help
  | unknown ↦ parse_options setting (value ∷ args) cfg
]

-- The chain of tests `arg == "..."`: the names that are tested with what they set, in order, and the
-- rest of the chain.
unfoldable pub setting_in {ℓ} :
    {C : Type ℓ} → List (List ℕ × (List ℕ → C → Option C)) → Setting C → List ℕ → Setting C
setting_in [] others arg = others
setting_in ((name, f) ∷ tests) others arg =
    if same_text arg name then sets f else setting_in tests others arg
