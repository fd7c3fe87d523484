-- ===== src/Prelude/Texts.antt =====
-- The equality test of strings, and tests of texts that may be missing.
use text.Mathlib.Text.{◌==◌ as str_eq}
use text.Mathlib.TextEquality.{eq_iff}
use mathlib.Core.Path.{◌≡◌, refl, sym}
use Prim.Native.String.{String}
use mathlib.Core.Logic.{inl, inr}
use mathlib.Core.Bool.{Bool, true, false}
use mathlib.Core.Option.{Option, none, some}
use crypto_exchange_pro.Prelude.Tests.{Bool-cases, if◌then◌else◌}

pub str_eq_refl : (s : String) → str_eq s s ≡ true
str_eq_refl s = (eq_iff s s).1 refl

pub str_eq_sym : (s t : String) → str_eq s t ≡ false → str_eq t s ≡ false
str_eq_sym s t f = elim (Bool-cases (str_eq t s)) [
  | inl e ↦ absurd (cc ((eq_iff s t).1 (sym ((eq_iff t s).0 e)), f))
  | inr e ↦ e
]

-- `if text: query.where(...)`: a text that is missing or empty asks for nothing.
abbrev pub if_given : Option String → (String → Bool) → Bool
if_given none test = true
if_given (some s) test = if str_eq s "" then true else test s
