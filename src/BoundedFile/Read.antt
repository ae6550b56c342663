-- ===== src/BoundedFile/Read.antt =====
-- read_bounded_stream: the loop of reads, each of which asks for one byte more than may be kept.
use platform_gitops.Prelude.{
  ℕ, zero, suc, ◌+◌, ◌-◌, ◌*◌, ◌≤◌, ◌<◌, min, ◌≡◌, Option, none, some, List, [], ◌∷◌, ◌++◌, length,
  ltb, if◌then◌else◌,
}
use platform_gitops.Prelude.Result.{Result, ok, err}
use platform_gitops.BoundedFile.Limit.{LimitValue, LimitError, explicit_limit}

-- What Python documents of a binary stream: a read of n bytes returns at most n of those that are
-- left, and where n is positive, none of them only at the end.
pub record ByteStream : Type 1 where
  pub S : Type 0
  pub left : S → List ℕ
  pub read : ℕ → S → List ℕ × S
  pub read_left : (n : ℕ) (s : S) → left s ≡ (read n s).0 ++ left (read n s).1
  pub read_length : (n : ℕ) (s : S) → length (read n s).0 ≤ n
  pub read_end : (n : ℕ) (s : S) → 0 < n → (read n s).0 ≡ [] → left s ≡ []

pub data StreamError : Type 0 where
  bad_limit : LimitError → StreamError
  stream_input_too_large : StreamError

abbrev pub chunk_bytes : ℕ
chunk_bytes = 64 * 1024

-- What a round does with its chunk, and the rounds after it.
unfoldable pub after_chunk :
    ℕ
    → List ℕ
    → List ℕ
    → Option (Result StreamError (List ℕ))
    → Option (Result StreamError (List ℕ))
after_chunk limit kept [] more = some (ok kept)
after_chunk limit kept (c ∷ cs) more =
    if ltb limit (length (kept ++ c ∷ cs)) then some (err stream_input_too_large) else more

module _ (stream : ByteStream) where
  -- `total` is the length of what was kept; none is the end of the fuel.
  unfoldable pub read_loop : ℕ → ℕ → List ℕ → stream.S → Option (Result StreamError (List ℕ))
  read_loop limit zero kept s = none
  read_loop limit (suc fuel) kept s =
      let (chunk, after) = stream.read (min chunk_bytes (limit + 1 - length kept)) s in
      let more = read_loop limit fuel (kept ++ chunk) after in after_chunk limit kept chunk more

  unfoldable pub read_bounded_stream : LimitValue → stream.S → Option (Result StreamError (List ℕ))
  read_bounded_stream max_bytes s = elim (explicit_limit max_bytes) [
    | err e ↦ some (err (bad_limit e))
    | ok limit ↦ read_loop limit (limit + 2) [] s
  ]
