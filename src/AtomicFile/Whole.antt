-- ===== src/AtomicFile/Whole.antt =====
-- However the operations fail, the destination is never seen half written.
use platform_gitops.Prelude.{
  Each, ℕ, ◌≡◌, ◌⊎◌, refl, ◌∙◌, Bool, true, false, Option, none, some, List, [], ◌∷◌, arith,
  Bool-cases, inl, inr, if◌then◌else◌,
}
use platform_gitops.Prelude.Result.{Result, ok, err}
use platform_gitops.AtomicFile.Write.{
  File, Folder, Operation, make_temporary, set_mode, open_handle, write_text, flush, sync,
  close_handle, rename, set_destination_mode, close_descriptor, unlink, Machine, Raised, Action,
  ◌>>◌, on_error, with_handle, with_content, with_mode, is_synced, Os, perform, set_open, nothing,
  choose, mkstemp, fdopen, write, fsync, close, replace, close_fd, unlink_temporary, fchmod,
  flush_handle, chmod, fill, publish, body, clean_up, atomic_write_text,
}

-- The folder with no temporary file and no open descriptor.
abbrev pub start : Option File → Machine
start old = record {
  now = record { destination = old; temporary = none; is_open = false };
  seen = [];
  descriptor_open = false;
}

module _ (os : Os) (text : List ℕ) (mode : ℕ) (old : Option File) where
  abbrev pub IsNew : File → Type 0
  IsNew f = (f.content ≡ text) × (f.synced ≡ true)

  -- The destination is what it was, or has the complete text on the device.
  abbrev pub IsWhole : Folder → Type 0
  IsWhole d = (d.destination ≡ old) ⊎ ((f : File) × (d.destination ≡ some f) × IsNew f)

  abbrev pub AllWhole : Machine → Type 0
  AllWhole s = IsWhole s.now × Each IsWhole s.seen

  unfoldable Ends : (Machine → Type 0) → Machine × Result Raised (Unit {0}) → Type 0
  Ends Q (s, ok u) = AllWhole s × Q s
  Ends Q (s, err e) = AllWhole s

  abbrev Any : Machine → Type 0
  Any s = Unit {0}

  abbrev HasTemporary : Machine → Type 0
  HasTemporary s = (f : File) × (s.now.temporary ≡ some f)

  abbrev HasText : Machine → Type 0
  HasText s = (f : File) × (s.now.temporary ≡ some f) × (f.content ≡ text)

  abbrev HasNew : Machine → Type 0
  HasNew s = (f : File) × (s.now.temporary ≡ some f) × IsNew f

  -- From a machine with P, the action ends with Q where it succeeds, and every folder is whole.
  record Leads (P : Machine → Type 0) (m : Action) (Q : Machine → Type 0) : Type 0 where
    runs : (s : Machine) → AllWhole s → P s → Ends Q (m s)

  after_first :
      (Q R : Machine → Type 0) (k : Action) (x : Machine × Result Raised (Unit {0}))
      → Ends Q x
      → ((s : Machine) → AllWhole s → Q s → Ends R (k s))
      → Ends R (((λ s. x) >> k) x.0)
  unfolding Ends ◌>>◌
  after_first Q R k (s, ok u) h c = c s h.0 h.1
  after_first Q R k (s, err e) h c = h

  then-Leads :
      {P Q R : Machine → Type 0} {m k : Action} → Leads P m Q → Leads Q k R → Leads P (m >> k) R
  unfolding ◌>>◌
  then-Leads {P} {Q} {R} {m} {k} l n = record {
    runs = λ s a p. after_first Q R k (m s) (l.runs s a p) n.runs;
  }

  perform-Ends :
      (Q : Machine → Type 0) (op : Operation) (good bad : Folder → Folder) (s : Machine)
      → AllWhole s
      → IsWhole (good s.now)
      → IsWhole (bad s.now)
      → Q (record s { now = good s.now; seen = s.now ∷ s.seen })
      → Ends Q (perform os op good bad s)
  unfolding perform Ends
  perform-Ends Q op good bad s a g b q = elim (Bool-cases (os.fails op)) [
    | inl e ↦ rw e (b, (a.0, a.1))
    | inr e ↦ rw e ((g, (a.0, a.1)), q)
  ]

  -- An operation on the temporary file alone.
  perform-Leads :
      {P Q : Machine → Type 0} (op : Operation) (good bad : Folder → Folder)
      → ((s : Machine) → P s → Q (record s { now = good s.now; seen = s.now ∷ s.seen }))
      → ((d : Folder) → (good d).destination ≡ d.destination)
      → ((d : Folder) → (bad d).destination ≡ d.destination)
      → Leads P (perform os op good bad) Q
  perform-Leads {P} {Q} op good bad k g b = record {
    runs = λ s a p.
        perform-Ends Q op good bad s a (moved s.now (good s.now) (g s.now) a.0)
          (moved s.now (bad s.now) (b s.now) a.0) (k s p);
  }
    where
      moved : (d e : Folder) → e.destination ≡ d.destination → IsWhole d → IsWhole e
      moved d e q (inl w) = inl (q ∙ w)
      moved d e q (inr (f, w, n)) = inr (f, q ∙ w, n)

  set_open-Leads :
      {P : Machine → Type 0} (b : Bool)
      → ((s : Machine) → P s → P (record s { descriptor_open = b }))
      → Leads P (set_open os b) P
  unfolding set_open Ends
  set_open-Leads b k = record { runs = λ s a p. (a, k s p) }

  nothing-Leads : {P : Machine → Type 0} → Leads P (nothing os) P
  unfolding nothing Ends
  nothing-Leads = record { runs = λ s a p. (a, p) }

  choose-Leads :
      {P Q : Machine → Type 0} (b : Machine → Bool) {m k : Action}
      → Leads P m Q
      → Leads P k Q
      → Leads P (choose os b m k) Q
  unfolding choose
  choose-Leads {P} {Q} b {m} {k} l n = record {
    runs = λ s a p. branch (b s) (m s) (k s) (l.runs s a p) (n.runs s a p);
  }
    where
      branch :
          (c : Bool) (x y : Machine × Result Raised (Unit {0}))
          → Ends Q x
          → Ends Q y
          → Ends Q (if c then x else y)
      branch true x y h i = h
      branch false x y h i = i

  mode_of :
      (m : ℕ) (o : Option File)
      → ((f : File) × (o ≡ some f))
      → (f : File) × (with_mode m o ≡ some f)
  mode_of m none h = absurd (ground (arith, h.1))
  mode_of m (some f) h = (_, refl)

  content_of :
      (c : List ℕ) (b : Bool) (o : Option File)
      → ((f : File) × (o ≡ some f))
      → (f : File) × (with_content c b o ≡ some f) × (f.content ≡ c)
  content_of c b none h = absurd (ground (arith, h.1))
  content_of c b (some f) h = (_, refl, refl)

  synced_of :
      (o : Option File)
      → ((f : File) × (o ≡ some f) × (f.content ≡ text))
      → (f : File) × (is_synced o ≡ some f) × IsNew f
  synced_of none h = absurd (ground (arith, h.1))
  synced_of (some f) h = (_, refl, (ground (arith, h), refl))

  mkstemp-Leads : Leads Any (mkstemp os) HasTemporary
  unfolding mkstemp
  mkstemp-Leads = perform-Leads make_temporary _ _ (λ s p. (_, refl)) (λ d. refl) (λ d. refl)

  fchmod-Leads : Leads HasTemporary (fchmod os text mode) HasTemporary
  unfolding fchmod
  fchmod-Leads =
      perform-Leads set_mode _ _ (λ s p. mode_of mode s.now.temporary p) (λ d. refl) (λ d. refl)

  fdopen-Leads : Leads HasTemporary (fdopen os) HasTemporary
  unfolding fdopen
  fdopen-Leads = perform-Leads open_handle _ _ (λ s p. p) (λ d. refl) (λ d. refl)

  write-Leads : Leads HasTemporary (write os) HasTemporary
  unfolding write
  write-Leads =
      perform-Leads write_text _ _
        (λ s p. let (f, e, c) = content_of os.reached false s.now.temporary p in (f, e)) (λ d. refl)
        (λ d. refl)

  flush-Leads : Leads HasTemporary (flush_handle os text mode) HasText
  unfolding flush_handle
  flush-Leads =
      perform-Leads flush _ _ (λ s p. content_of text false s.now.temporary p) (λ d. refl)
        (λ d. refl)

  fsync-Leads : Leads HasText (fsync os) HasNew
  unfolding fsync
  fsync-Leads = perform-Leads sync _ _ (λ s p. synced_of s.now.temporary p) (λ d. refl) (λ d. refl)

  fill-Leads : Leads HasTemporary (fill os text mode) HasNew
  unfolding fill
  fill-Leads = then-Leads (then-Leads write-Leads flush-Leads) fsync-Leads

  close-Leads : Leads HasNew (close os) HasNew
  unfolding close
  close-Leads = perform-Leads close_handle _ _ (λ s p. p) (λ d. refl) (λ d. refl)

  close-Whole : Leads Any (close os) Any
  unfolding close
  close-Whole = perform-Leads close_handle _ _ (λ s p. tt) (λ d. refl) (λ d. refl)

  whole_of :
      (Q : Machine → Type 0) (x : Machine × Result Raised (Unit {0})) → Ends Q x → AllWhole x.0
  unfolding Ends
  whole_of Q (t, ok v) i = i.0
  whole_of Q (t, err v) i = i

  after_handle :
      (c : Action) (x : Machine × Result Raised (Unit {0}))
      → Ends HasNew x
      → Leads HasNew c HasNew
      → Leads Any c Any
      → Ends HasNew (with_handle (λ s. x) c x.0)
  unfolding Ends with_handle
  after_handle c (s, ok u) h k l = k.runs s h.0 h.1
  after_handle c (s, err e) h k l = whole_of Any (c s) (l.runs s h tt)

  handle-Leads : Leads HasTemporary (with_handle (fill os text mode) (close os)) HasNew
  unfolding with_handle
  handle-Leads = record {
    runs = λ s a p.
        after_handle (close os) (fill os text mode s) (fill-Leads.runs s a p) close-Leads
          close-Whole;
  }

  abbrev pub Published : Machine → Type 0
  Published s = (f : File) × (s.now.destination ≡ some f) × IsNew f

  replace-Leads : Leads HasNew (replace os) Published
  unfolding replace
  replace-Leads = record { runs = λ s a p. perform-Ends Published rename _ _ s a (inr p) a.0 p }

  moded :
      (o : Option File)
      → ((f : File) × (o ≡ some f) × IsNew f)
      → (f : File) × (with_mode mode o ≡ some f) × IsNew f
  moded none (f, e, n) = absurd (ground (arith, e))
  moded (some g) (f, e, n) = (_, refl, (ground (arith, e, n), ground (arith, e, n)))

  chmod-Leads : Leads Published (chmod os text mode) Published
  unfolding chmod
  chmod-Leads = record {
    runs = λ s a p.
        perform-Ends Published set_destination_mode _ _ s a (inr (moded s.now.destination p)) a.0
          (moded s.now.destination p);
  }

  publish-Leads : Leads HasNew (publish os text mode) Published
  unfolding publish
  publish-Leads = then-Leads replace-Leads (choose-Leads (λ s. os.posix) chmod-Leads nothing-Leads)

  body-Leads : Leads HasTemporary (body os text mode) Published
  unfolding body
  body-Leads =
      then-Leads
        (then-Leads
          (then-Leads (then-Leads fchmod-Leads fdopen-Leads) (set_open-Leads false (λ s p. p)))
          handle-Leads)
        publish-Leads

  close_fd-Leads : Leads Any (close_fd os) Any
  unfolding close_fd
  close_fd-Leads = perform-Leads close_descriptor _ _ (λ s p. tt) (λ d. refl) (λ d. refl)

  unlink-Leads : Leads Any (unlink_temporary os) Any
  unfolding unlink_temporary
  unlink-Leads = perform-Leads unlink _ _ (λ s p. tt) (λ d. refl) (λ d. refl)

  clean_up-Leads : Leads Any (clean_up os) Any
  unfolding clean_up
  clean_up-Leads =
      then-Leads (choose-Leads (λ s. s.descriptor_open) close_fd-Leads nothing-Leads) unlink-Leads

  after_error :
      (c : Action) (x : Machine × Result Raised (Unit {0}))
      → Ends Published x
      → Leads Any c Any
      → Ends Published (on_error (λ s. x) c x.0)
  unfolding Ends on_error
  after_error c (s, ok u) h k = h
  after_error c (s, err e) h k = whole_of Any (c s) (k.runs s h tt)

  guarded-Leads : Leads HasTemporary (on_error (body os text mode) (clean_up os)) Published
  unfolding on_error
  guarded-Leads = record {
    runs = λ s a p.
        after_error (clean_up os) (body os text mode s) (body-Leads.runs s a p) clean_up-Leads;
  }

  atomic_write_text-Leads : Leads Any (atomic_write_text os text mode) Published
  unfolding atomic_write_text
  atomic_write_text-Leads =
      then-Leads (then-Leads mkstemp-Leads (set_open-Leads true (λ s p. p))) guarded-Leads

  Published-of :
      (x : Machine × Result Raised (Unit {0})) → Ends Published x → x.1 ≡ ok tt → Published x.0
  unfolding Ends
  Published-of (s, ok u) h e = h.1
  Published-of (s, err u) h e = absurd (ground (arith, e))

  -- Whichever operations fail, and however much of the text reaches the temporary file before it is
  -- flushed, the destination is at every moment what it was, or has the complete text, written to the
  -- device; it has that text where no exception is raised.
  pub atomic_write_text-AllWhole :
      AllWhole (atomic_write_text os text mode (start old)).0
      × ((atomic_write_text os text mode (start old)).1 ≡ ok tt
          → Published (atomic_write_text os text mode (start old)).0)
  atomic_write_text-AllWhole =
      let h = atomic_write_text-Leads.runs (start old) (inl refl, tt) tt in
      (whole_of Published _ h, Published-of _ h)
