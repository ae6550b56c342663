-- ===== src/BoundedFile/Witnesses.antt =====
-- The theorems at a stream of a known content and a small file.
use platform_gitops.Prelude.{
  ℕ, zero, suc, ◌≤◌, ◌<◌, ◌≡◌, ◌↔◌, refl, arith, true, false, some, List, [], ◌∷◌, ◌++◌, length,
  if◌then◌else◌,
}
use platform_gitops.Prelude.Result.{ok}
use platform_gitops.BoundedFile.Limit.{whole, explicit_limit}
use platform_gitops.BoundedFile.Read.{ByteStream, read_bounded_stream}
use platform_gitops.BoundedFile.Stream.{bounded, read_bounded_stream-bounded}
use platform_gitops.BoundedFile.Descriptor.{
  OsFile, IsReadable, opened, closed, read_bounded_bytes, read_bounded_bytes-IsReadable,
  read_bounded_bytes-closed,
}
use platform_gitops.BoundedFile.Newlines.{
  normalize_newlines, universal, normalize_newlines-universal,
}

-- A stream that returns one byte at a time.
abbrev read_one : ℕ → List ℕ → List ℕ × List ℕ
read_one zero s = ([], s)
read_one (suc n) [] = ([], [])
read_one (suc n) (x ∷ s) = (x ∷ [], s)

read_one-left : (n : ℕ) (s : List ℕ) → s ≡ (read_one n s).0 ++ (read_one n s).1
read_one-left zero s = refl
read_one-left (suc n) [] = refl
read_one-left (suc n) (x ∷ s) = refl

length-read_one : (n : ℕ) (s : List ℕ) → length (read_one n s).0 ≤ n
length-read_one zero s = omega arith
length-read_one (suc n) [] = omega arith
length-read_one (suc n) (x ∷ s) = omega arith

read_one_end : (n : ℕ) (s : List ℕ) → 0 < n → (read_one n s).0 ≡ [] → s ≡ []
read_one_end zero s p h = absurd (omega arith)
read_one_end (suc n) [] p h = refl
read_one_end (suc n) (x ∷ s) p h = cc

abbrev stream : ByteStream
stream = record {
  S = List ℕ;
  left = λ s. s;
  read = read_one;
  read_left = read_one-left;
  read_length = length-read_one;
  read_end = read_one_end;
}

abbrev content : List ℕ
content = 104 ∷ 105 ∷ 13 ∷ 10 ∷ []

read_bounded_stream-bounded_example :
    read_bounded_stream stream (whole 8) content ≡ some (bounded 8 content)
unfolding explicit_limit
read_bounded_stream-bounded_example = read_bounded_stream-bounded stream (whole 8) 8 content refl

abbrev file : OsFile
file = record {
  opens = true;
  fstats = true;
  fdopens = true;
  reads = true;
  regular = true;
  st_size = 4;
  content = content;
}

read_bounded_bytes-IsReadable_example :
    ((read_bounded_bytes 8 file).1 ≡ ok content) ↔ (IsReadable 8 file × (file.content ≡ content))
read_bounded_bytes-IsReadable_example = read_bounded_bytes-IsReadable 8 file content

read_bounded_bytes-closed_example :
    (read_bounded_bytes 8 file).0 ≡ (if file.opens then opened ∷ closed ∷ [] else [])
read_bounded_bytes-closed_example = read_bounded_bytes-closed 8 file

normalize_newlines-universal_example : normalize_newlines content ≡ universal false content
normalize_newlines-universal_example = normalize_newlines-universal content
