-- ===== src/BoundedSubprocess/OutputLimit.antt =====
-- bounded_output_max_bytes and _explicit_output_max_bytes: the limit on what a child may write.
use platform_gitops.Prelude.{
  ℕ, ◌*◌, ◌≤◌, ◌<◌, String, ◌==◌, ◌≡◌, eq_iff, Option, none, some, arith, Bool-cases, inl, inr,
}
use platform_gitops.Prelude.Result.{Result, ok}
use platform_gitops.BoundedFile.Limit.{
  LimitValue, whole, LimitError, checked_limit, checked_limit_bounds, Texts, or_blank, limit_from,
}

abbrev pub max_output_max_bytes : ℕ
max_output_max_bytes = 256 * 1024 * 1024

abbrev pub default_output_max_bytes : ℕ
default_output_max_bytes = 32 * 1024 * 1024

unfoldable pub bounded_output_max_bytes : Texts → Option String → Result LimitError ℕ
bounded_output_max_bytes texts variable =
    limit_from texts max_output_max_bytes default_output_max_bytes variable

unfoldable pub explicit_output_max_bytes : LimitValue → Result LimitError ℕ
explicit_output_max_bytes value = checked_limit max_output_max_bytes value

-- `output_max_bytes`, where it is given, and the variable.
unfoldable pub selected_limit : Texts → Option String → Option LimitValue → Result LimitError ℕ
selected_limit texts variable none = bounded_output_max_bytes texts variable
selected_limit texts variable (some value) = explicit_output_max_bytes value

from_variable :
    (texts : Texts) (variable : Option String) (n : ℕ)
    → bounded_output_max_bytes texts variable ≡ ok n
    → (0 < n) × (n ≤ max_output_max_bytes)
unfolding bounded_output_max_bytes limit_from
from_variable texts variable n h = elim (Bool-cases (texts.strip (or_blank variable) == "")) [
  | inl e ↦
      checked_limit_bounds max_output_max_bytes n (whole default_output_max_bytes)
        (ground (arith, h, e))
  | inr e ↦
      checked_limit_bounds max_output_max_bytes n (texts.parse (texts.strip (or_blank variable)))
        (ground (arith, h, e))
]

in_range :
    (texts : Texts) (variable : Option String) (given : Option LimitValue) (n : ℕ)
    → selected_limit texts variable given ≡ ok n
    → (0 < n) × (n ≤ max_output_max_bytes)
unfolding selected_limit explicit_output_max_bytes
in_range texts variable none n h = from_variable texts variable n h
in_range texts variable (some value) n h = checked_limit_bounds max_output_max_bytes n value h

by_default :
    (texts : Texts) (variable : Option String)
    → texts.strip (or_blank variable) ≡ ""
    → selected_limit texts variable none ≡ ok default_output_max_bytes
unfolding selected_limit bounded_output_max_bytes limit_from checked_limit
by_default texts variable e = ground (arith, (eq_iff (texts.strip (or_blank variable)) "").1 e)

-- Whatever the argument and the variable hold, a limit that is accepted is at least 1 and at most 256
-- MiB, and it is 32 MiB where no argument is given and the variable is unset or blank.
pub selected_limit_bounds :
    (texts : Texts) (variable : Option String)
    → ((given : Option LimitValue) (n : ℕ)
        → selected_limit texts variable given ≡ ok n
        → (0 < n) × (n ≤ max_output_max_bytes))
      × (texts.strip (or_blank variable) ≡ ""
          → selected_limit texts variable none ≡ ok default_output_max_bytes)
selected_limit_bounds texts variable = (in_range texts variable, by_default texts variable)
