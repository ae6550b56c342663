-- ===== src/AtomicFile/Witnesses.antt =====
-- The theorem where the file cannot be flushed, and the state in which a write ends that does not fail.
use platform_gitops.Prelude.{ℕ, ◌≡◌, refl, Bool, true, false, Option, none, some, List, [], ◌∷◌}
use platform_gitops.Prelude.Result.{ok}
use platform_gitops.AtomicFile.Write.{
  File, Os, Operation, flush, perform, set_open, nothing, choose, mkstemp, fdopen, write, fsync,
  close, replace, close_fd, unlink_temporary, clean_up, fchmod, flush_handle, chmod, fill, publish,
  body, on_error, with_handle, ◌>>◌, atomic_write_text,
}
use platform_gitops.AtomicFile.Whole.{AllWhole, Published, start, atomic_write_text-AllWhole}

abbrev fails_at_flush : Operation → Bool
fails_at_flush flush = true
fails_at_flush _ = false

abbrev full_disk : Os
full_disk = record { fails = fails_at_flush; reached = 123 ∷ []; new_mode = 384; posix = true }

abbrev sound_disk : Os
sound_disk = record { fails = λ op. false; reached = []; new_mode = 384; posix = true }

abbrev text : List ℕ
text = 123 ∷ 125 ∷ []

abbrev old : Option File
old = some (record { content = 91 ∷ 93 ∷ []; mode = 384; synced = true })

atomic_write_text-AllWhole_example :
    AllWhole full_disk text 384 old (atomic_write_text full_disk text 384 (start old)).0
    × ((atomic_write_text full_disk text 384 (start old)).1 ≡ ok tt
        → Published full_disk text 384 old (atomic_write_text full_disk text 384 (start old)).0)
atomic_write_text-AllWhole_example = atomic_write_text-AllWhole full_disk text 384 old

-- The temporary file is gone, and the old content stands.
cleaned :
    (atomic_write_text full_disk text 384 (start old)).0.now
    ≡ record { destination = old; temporary = none; is_open = false }
unfolding perform set_open nothing choose mkstemp fdopen write fsync close replace close_fd
    unlink_temporary clean_up fchmod flush_handle chmod fill publish body on_error with_handle ◌>>◌
    atomic_write_text
cleaned = refl

written : (atomic_write_text sound_disk text 384 (start old)).0.now ≡ record {
  destination = some (record { content = text; mode = 384; synced = true });
  temporary = none;
  is_open = false;
}
unfolding perform set_open nothing choose mkstemp fdopen write fsync close replace close_fd
    unlink_temporary clean_up fchmod flush_handle chmod fill publish body on_error with_handle ◌>>◌
    atomic_write_text
written = refl
