-- ===== src/BoundedFile/Stream.antt =====
-- What read_bounded_stream returns.
use platform_gitops.Prelude.{
  ℕ, zero, suc, ◌+◌, ◌-◌, ◌≤◌, ◌<◌, min, ◌≡◌, inl, inr, refl, arith, ap, sym, ◌∙◌, Option, some,
  List, [], ◌∷◌, ◌++◌, length, length-append, leb, ltb, ltb→le, if◌then◌else◌, Bool-cases,
}
use platform_gitops.Prelude.Sequences.{append_nil, append_assoc}
use platform_gitops.Prelude.Result.{Result, ok, err}
use platform_gitops.BoundedFile.Limit.{LimitValue, explicit_limit}
use platform_gitops.BoundedFile.Read.{
  ByteStream, StreamError, stream_input_too_large, chunk_bytes, after_chunk, read_loop,
  read_bounded_stream,
}

-- All that is left, or the error where that is more than the limit.
abbrev pub bounded : ℕ → List ℕ → Result StreamError (List ℕ)
bounded limit content =
    if leb (length content) limit then ok content else err stream_input_too_large

after_chunk_lem :
    (limit : ℕ) (kept chunk left rest : List ℕ) (more : Option (Result StreamError (List ℕ)))
    → length kept ≤ limit
    → (chunk ≡ [] → left ≡ [])
    → left ≡ chunk ++ rest
    → (0 < length chunk
        → length (kept ++ chunk) ≤ limit
        → more ≡ some (bounded limit (kept ++ left)))
    → after_chunk limit kept chunk more ≡ some (bounded limit (kept ++ left))
unfolding after_chunk
after_chunk_lem limit kept [] left rest more h ends split ih =
    let whole : kept ++ left ≡ kept = ap (λ l. kept ++ l) (ends refl) ∙ append_nil kept in
    rw whole (ground arith)
after_chunk_lem limit kept (c ∷ cs) left rest more h ends split ih =
    elim (Bool-cases (ltb limit (length (kept ++ c ∷ cs)))) [
      | inl over ↦
          let longer : length (kept ++ left) ≡ length (kept ++ c ∷ cs) + length rest =
            ap (λ l. length (kept ++ l)) split
            ∙ (ap length (sym (append_assoc kept (c ∷ cs) rest))
                ∙ length-append (kept ++ c ∷ cs) rest) in
          ground (arith, over, longer)
      | inr under ↦
          ground (arith, under, ih (omega arith) (ltb→le limit (length (kept ++ c ∷ cs)) under))
    ]

module _ (stream : ByteStream) where
  read_loop_lem :
      (limit fuel : ℕ) (kept : List ℕ) (s : stream.S)
      → length kept ≤ limit
      → limit + 1 < fuel + length kept
      → read_loop stream limit fuel kept s ≡ some (bounded limit (kept ++ stream.left s))
  unfolding read_loop
  read_loop_lem limit zero kept s h f = absurd (omega arith)
  read_loop_lem limit (suc fuel) kept s h f =
      let n : ℕ = min chunk_bytes (limit + 1 - length kept) in
      let chunk : List ℕ = (stream.read n s).0 in
      let after : stream.S = (stream.read n s).1 in
      after_chunk_lem limit kept chunk (stream.left s) (stream.left after) _ h
        (stream.read_end n s (omega arith)) (stream.read_left n s)
        λ longer within.
          read_loop_lem limit fuel (kept ++ chunk) after within
            (omega (arith, length-append kept chunk))
          ∙ ap (λ c. some (bounded limit c))
              (append_assoc kept chunk (stream.left after)
                ∙ ap (λ l. kept ++ l) (sym (stream.read_left n s)))

  -- With a limit that is accepted, the loop ends: it returns all that the stream has left where that
  -- is no more than the limit, and raises otherwise.
  pub read_bounded_stream-bounded :
      (max_bytes : LimitValue) (limit : ℕ) (s : stream.S)
      → explicit_limit max_bytes ≡ ok limit
      → read_bounded_stream stream max_bytes s ≡ some (bounded limit (stream.left s))
  unfolding read_bounded_stream
  read_bounded_stream-bounded max_bytes limit s h =
      ground (arith, h, read_loop_lem limit (limit + 2) [] s (omega arith) (omega arith))
