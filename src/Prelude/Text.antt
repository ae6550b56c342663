-- ===== src/Prelude/Text.antt =====
-- Text: operations of Python's `str` that the library does not have.
use Prim.Native.Nat.{ℕ, zero, suc}
use Prim.Native.Char.{Char}
use Prim.Native.String.{String, ◌++◌, count}
use mathlib.Core.Path.{◌≡◌, refl, ap}
use mathlib.Core.Option.{Option, none, some}
use mathlib.Core.Option
use mathlib.Core.Logic.{inl, inr}
use native.Mathlib.Omega.{arith}
use text.Mathlib.Text.{◌==◌}
use text.Mathlib.TextEquality.{eq_iff}
use text.Mathlib.TextPositions.{eq_refl}
use text.Mathlib.TextLemmas.{nil-append, cons-append, length-append, length-cons}
use mathlib.Core.Bool.{false}
use mathlib.Core.HLevel.{hedberg}
use platform_gitops.Prelude.Tests.{if◌then◌else◌, Bool-cases}

-- `s[:n]`
abbrev pub take : ℕ → String → String
take zero s = String.[]
take (suc n) String.[] = String.[]
take (suc n) (String.◌∷◌ c s) = String.◌∷◌ c (take n s)

-- `s[1:]`
abbrev pub tail : String → String
tail String.[] = String.[]
tail (String.◌∷◌ c s) = s

-- `s[:-len(suffix)]` where `s.endswith(suffix)`, and `none` where it does not.
unfoldable pub strip_suffix : String → String → Option String
strip_suffix suffix String.[] = if String.[] == suffix then some String.[] else none
strip_suffix suffix (String.◌∷◌ c s) =
    let rest = strip_suffix suffix s in
    if String.◌∷◌ c s == suffix then some String.[] else Option.map (λ p. String.◌∷◌ c p) rest

-- A longer text is not its own suffix.
cons-append-ne : (c : Char) (s suffix : String) → (String.◌∷◌ c (s ++ suffix) == suffix) ≡ false
cons-append-ne c s suffix = elim (Bool-cases (String.◌∷◌ c (s ++ suffix) == suffix)) [
  | inr e ↦ e
  | inl e ↦
      let same : count (String.◌∷◌ c (s ++ suffix)) ≡ count suffix =
        ap count ((eq_iff (String.◌∷◌ c (s ++ suffix)) suffix).0 e) in
      absurd (omega (arith, same, length-cons c (s ++ suffix), length-append s suffix))
]

-- A suffix that was appended is stripped again.
pub strip_suffix-append : (suffix s : String) → strip_suffix suffix (s ++ suffix) ≡ some s
unfolding strip_suffix
strip_suffix-append String.[] String.[] = refl
strip_suffix-append (String.◌∷◌ d t) String.[] =
    rw (nil-append (String.◌∷◌ d t)) (rw (eq_refl (String.◌∷◌ d t)))
strip_suffix-append suffix (String.◌∷◌ c s) =
    rw (cons-append c s suffix) (rw (cons-append-ne c s suffix, strip_suffix-append suffix s))

-- The equality of texts is decidable.
pub String_discrete : Discrete String
String_discrete s t = elim (Bool-cases (s == t)) [
  | inl e ↦ yes ((eq_iff s t).0 e)
  | inr e ↦ no (λ p. cc (e, (eq_iff s t).1 p))
]

pub String_set : IsSet String
String_set = hedberg String_discrete
