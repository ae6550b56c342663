-- ===== src/AtomicFile/Write.antt =====
-- atomic_write_text, as operations on a destination and its temporary file, any of which may fail.
use platform_gitops.Prelude.{ℕ, Bool, true, false, Option, none, some, List, [], ◌∷◌, if◌then◌else◌}
use platform_gitops.Prelude.Result.{Result, ok, err}

-- `synced` says whether the content has reached the device since it was last written.
pub record File : Type 0 where
  pub content : List ℕ
  pub mode : ℕ
  pub synced : Bool

-- What stands at the destination and at the temporary name, and whether a descriptor or a handle of
-- the temporary file is open.
pub record Folder : Type 0 where
  pub destination : Option File
  pub temporary : Option File
  pub is_open : Bool

pub data Operation : Type 0 where
  make_temporary set_mode open_handle write_text flush sync close_handle rename set_destination_mode
        close_descriptor unlink :
      Operation

-- The folder, every earlier one, newest first, and the variable `descriptor_open`.
pub record Machine : Type 0 where
  pub now : Folder
  pub seen : List Folder
  pub descriptor_open : Bool

pub data Raised : Type 0 where
  raised : Raised

abbrev pub Action : Type 0
Action = Machine → Machine × Result Raised (Unit {0})

infixl 5 ◌>>◌
unfoldable pub ◌>>◌ : Action → Action → Action
(m >> k) s = let (after, r) = m s in elim r [ ok u ↦ k after | err e ↦ (after, err e) ]

-- `try: m` with `except BaseException: handler; raise`.
unfoldable pub on_error : Action → Action → Action
on_error m handler s =
    let (after, r) = m s in
    let (cleaned, q) = handler after in elim r [ ok u ↦ (after, ok u) | err e ↦ (cleaned, err e) ]

-- `with handle: m`, which closes the handle however m ends.
unfoldable pub with_handle : Action → Action → Action
with_handle m close s =
    let (after, r) = m s in
    let (closed, q) = close after in elim r [ ok u ↦ (closed, q) | err e ↦ (closed, err e) ]

abbrev pub with_content : List ℕ → Bool → Option File → Option File
with_content text synced none = none
with_content text synced (some f) = some (record f { content = text; synced = synced })

abbrev pub with_mode : ℕ → Option File → Option File
with_mode mode none = none
with_mode mode (some f) = some (record f { mode = mode })

abbrev pub is_synced : Option File → Option File
is_synced none = none
is_synced (some f) = some (record f { synced = true })

-- What fails, and how much of the text has reached the file before it is flushed. `new_mode` is that of
-- mkstemp.
pub record Os : Type 0 where
  pub fails : Operation → Bool
  pub reached : List ℕ
  pub new_mode : ℕ
  pub posix : Bool

module _ (os : Os) where
  -- An operation that changes the folder in one way where it succeeds, and in another where it fails.
  unfoldable pub perform : Operation → (Folder → Folder) → (Folder → Folder) → Action
  perform op good bad s =
      if os.fails op
      then (record s { now = bad s.now; seen = s.now ∷ s.seen }, err raised)
      else (record s { now = good s.now; seen = s.now ∷ s.seen }, ok tt)

  abbrev pub same : Folder → Folder
  same d = d

  unfoldable pub set_open : Bool → Action
  set_open b s = (record s { descriptor_open = b }, ok tt)

  unfoldable pub nothing : Action
  nothing s = (s, ok tt)

  -- The branches of a test, as actions.
  unfoldable pub choose : (Machine → Bool) → Action → Action → Action
  choose b m k s = if b s then m s else k s

  -- mkstemp: a new, empty file, with an open descriptor.
  unfoldable pub mkstemp : Action
  mkstemp =
      perform make_temporary
        (λ d. record d {
          temporary = some (record { content = []; mode = os.new_mode; synced = false });
          is_open = true;
        })
        same

  unfoldable pub fdopen : Action
  fdopen = perform open_handle same same

  unfoldable pub write : Action
  write =
      perform write_text (λ d. record d { temporary = with_content os.reached false d.temporary })
        (λ d. record d { temporary = with_content os.reached false d.temporary })

  unfoldable pub fsync : Action
  fsync = perform sync (λ d. record d { temporary = is_synced d.temporary }) same

  unfoldable pub close : Action
  close =
      perform close_handle (λ d. record d { is_open = false }) (λ d. record d { is_open = false })

  unfoldable pub replace : Action
  replace = perform rename (λ d. record d { destination = d.temporary; temporary = none }) same

  unfoldable pub close_fd : Action
  close_fd = perform close_descriptor (λ d. record d { is_open = false }) same

  unfoldable pub unlink_temporary : Action
  unlink_temporary = perform unlink (λ d. record d { temporary = none }) same

  -- The except clause: the descriptor, if it is not the handle's, and the temporary file.
  unfoldable pub clean_up : Action
  clean_up = choose (λ s. s.descriptor_open) close_fd nothing >> unlink_temporary

  module _ (text : List ℕ) (mode : ℕ) where
    unfoldable pub fchmod : Action
    fchmod = perform set_mode (λ d. record d { temporary = with_mode mode d.temporary }) same

    unfoldable pub flush_handle : Action
    flush_handle =
        perform flush (λ d. record d { temporary = with_content text false d.temporary })
          (λ d. record d { temporary = with_content os.reached false d.temporary })

    unfoldable pub chmod : Action
    chmod =
        perform set_destination_mode (λ d. record d { destination = with_mode mode d.destination })
          same

    unfoldable pub fill : Action
    fill = write >> flush_handle >> fsync

    -- _fsync_directory changes nothing that is seen here and lets no OSError through.
    unfoldable pub publish : Action
    publish = replace >> choose (λ s. os.posix) chmod nothing

    unfoldable pub body : Action
    body = fchmod >> fdopen >> set_open false >> with_handle fill close >> publish

    unfoldable pub atomic_write_text : Action
    atomic_write_text = mkstemp >> set_open true >> on_error body clean_up
