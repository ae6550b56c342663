-- ===== src/BoundedFile/Limit.antt =====
-- _explicit_limit and bounded_file_input_max_bytes: a limit is positive and has a ceiling.
use platform_gitops.Prelude.{
  ℕ, ◌≤◌, ◌<◌, ◌≡◌, arith, String, ◌==◌, ◌||◌, Option, none, some, ltb, leb, ◌*◌, if◌then◌else◌,
}
use platform_gitops.Prelude.Result.{Result, ok, err}

-- A Python value that is given as a limit: a number, a negative one, or no number (a bool, too).
pub data LimitValue : Type 0 where
  whole : ℕ → LimitValue
  negative : ℕ → LimitValue
  not_whole : LimitValue

pub data LimitError : Type 0 where
  not_a_whole_number out_of_range : LimitError

-- `value <= 0 or value > MAX_FILE_INPUT_BYTES`, for any ceiling.
unfoldable pub checked_limit : ℕ → LimitValue → Result LimitError ℕ
checked_limit ceiling not_whole = err not_a_whole_number
checked_limit ceiling (negative n) = err out_of_range
checked_limit ceiling (whole n) = if leb n 0 || ltb ceiling n then err out_of_range else ok n

abbrev pub max_file_input_bytes : ℕ
max_file_input_bytes = 512 * 1024 * 1024

abbrev pub default_file_input_max_bytes : ℕ
default_file_input_max_bytes = 64 * 1024 * 1024

unfoldable pub explicit_limit : LimitValue → Result LimitError ℕ
unfolding checked_limit
explicit_limit value = checked_limit max_file_input_bytes value

-- What the text of an environment variable stands for: `strip`, and `int(text, 10)`.
pub record Texts : Type 0 where
  pub strip : String → String
  pub parse : String → LimitValue

abbrev pub or_blank : Option String → String
or_blank none = ""
or_blank (some s) = s

-- The variable where it is set to more than blanks, and the default.
unfoldable pub limit_from : Texts → ℕ → ℕ → Option String → Result LimitError ℕ
unfolding checked_limit
limit_from texts ceiling default variable =
    if texts.strip (or_blank variable) == ""
    then checked_limit ceiling (whole default)
    else checked_limit ceiling (texts.parse (texts.strip (or_blank variable)))

unfoldable pub bounded_file_input_max_bytes : Texts → Option String → Result LimitError ℕ
unfolding limit_from
bounded_file_input_max_bytes texts variable =
    limit_from texts max_file_input_bytes default_file_input_max_bytes variable

pub checked_limit_bounds :
    (ceiling n : ℕ) (value : LimitValue)
    → checked_limit ceiling value ≡ ok n
    → (0 < n) × (n ≤ ceiling)
unfolding checked_limit
checked_limit_bounds ceiling n not_whole h = absurd (ground (arith, h))
checked_limit_bounds ceiling n (negative k) h = absurd (ground (arith, h))
checked_limit_bounds ceiling n (whole k) h = (ground (arith, h), ground (arith, h))
