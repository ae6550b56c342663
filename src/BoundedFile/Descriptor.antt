-- ===== src/BoundedFile/Descriptor.antt =====
-- read_bounded_bytes: its checks, and the descriptor that it opens.
use platform_gitops.Prelude.{
  ℕ, suc, ◌≤◌, ◌<◌, ◌≡◌, ◌⊎◌, ◌↔◌, inl, inr, arith, Bool, true, false, not, List, [], ◌∷◌, ◌++◌,
  length, leb, ltb, leb→le, leb→lt, if◌then◌else◌, Bool-cases,
}
use platform_gitops.Prelude.Sequences.{take, take_all, length-take}
use platform_gitops.Prelude.Result.{Result, ok, err}

-- The operating system's view of the file: which calls succeed, what fstat says, and what a read
-- then finds, which may have grown since.
pub record OsFile : Type 0 where
  pub opens : Bool
  pub fstats : Bool
  pub fdopens : Bool
  pub reads : Bool
  pub regular : Bool
  pub st_size : ℕ
  pub content : List ℕ

pub data FileError : Type 0 where
  os_error file_input_not_regular file_input_too_large : FileError

pub data DescriptorEvent : Type 0 where
  opened closed : DescriptorEvent

-- The try block: whether `descriptor` is still set, the events, and the data or the error. Once
-- fdopen has succeeded, the handle closes the descriptor, also where its read raises.
unfoldable pub read_opened : ℕ → OsFile → Bool × List DescriptorEvent × Result FileError (List ℕ)
read_opened limit file =
    if not file.fstats
    then (true, [], err os_error)
    else if not file.regular
    then (true, [], err file_input_not_regular)
    else if ltb limit file.st_size
    then (true, [], err file_input_too_large)
    else if not file.fdopens
    then (true, [], err os_error)
    else if not file.reads
    then (false, closed ∷ [], err os_error)
    else (false, closed ∷ [], ok (take (suc limit) file.content))

-- `if descriptor is not None: os.close(descriptor)`
unfoldable pub finally_close : Bool → List DescriptorEvent
finally_close true = closed ∷ []
finally_close false = []

-- `if len(data) > limit`
unfoldable pub check_length : ℕ → Result FileError (List ℕ) → Result FileError (List ℕ)
check_length limit (err e) = err e
check_length limit (ok bytes) =
    if ltb limit (length bytes) then err file_input_too_large else ok bytes

unfoldable pub read_bounded_bytes : ℕ → OsFile → List DescriptorEvent × Result FileError (List ℕ)
unfolding read_opened finally_close check_length
read_bounded_bytes limit file =
    let (owned, events, r) = read_opened limit file in
    if not file.opens
    then ([], err os_error)
    else (opened ∷ (events ++ finally_close owned), check_length limit r)

-- One byte more than the limit shows whether there are more.
take-cases :
    (n : ℕ) (xs : List ℕ)
    → ((length xs ≤ n) × (take (suc n) xs ≡ xs))
      ⊎ ((n < length xs) × (length (take (suc n) xs) ≡ suc n))
take-cases n xs = elim (Bool-cases (leb (length xs) n)) [
  | inl few ↦ inl (leb→le (length xs) n few, take_all (suc n) xs (ground arith))
  | inr many ↦
      inr (
        leb→lt (length xs) n many,
        omega (arith, length-take (suc n) xs, leb→lt (length xs) n many),
      )
]

-- What has to hold for a file to be read.
abbrev pub IsReadable : ℕ → OsFile → Type 0
IsReadable limit file =
    (file.opens ≡ true)
    × (file.fstats ≡ true)
    × (file.fdopens ≡ true)
    × (file.reads ≡ true)
    × (file.regular ≡ true)
    × (file.st_size ≤ limit)
    × (length file.content ≤ limit)

-- A file is read exactly where every call succeeds, it is a regular file, and neither its size nor
-- what is then found is more than the limit; the data are the whole content.
pub read_bounded_bytes-IsReadable :
    (limit : ℕ) (file : OsFile) (bytes : List ℕ)
    → ((read_bounded_bytes limit file).1 ≡ ok bytes)
      ↔ (IsReadable limit file × (file.content ≡ bytes))
unfolding read_bounded_bytes
read_bounded_bytes-IsReadable limit file bytes = elim (take-cases limit file.content) [
  | inl (few, same) ↦ ((λ h. ground (arith, same, h)), λ h. ground (arith, same, h))
  | inr (many, full) ↦ ((λ h. absurd (ground (arith, full, h))), λ h. absurd (omega (arith, h.0.6)))
]

-- A descriptor that was opened is closed exactly once, however the read ends.
pub read_bounded_bytes-closed :
    (limit : ℕ) (file : OsFile)
    → (read_bounded_bytes limit file).0 ≡ (if file.opens then opened ∷ closed ∷ [] else [])
unfolding read_bounded_bytes
read_bounded_bytes-closed limit file = ground arith
