-- ===== src/Transition/Keeps.antt =====
-- Predicates on the calls made that an action keeps, however it ends.
use platform_gitops.Prelude.{String, ◌≡◌, sym, subst, arith, Bool, true, false, List, [], ◌∷◌}
use platform_gitops.Prelude.Result.{Result, ok, err}
use platform_gitops.Transition.State.{
  Call, Failure, migration_error, other_exception, Forge, Machine, Action, TransitionState,
  write_state, write_proof, for_each, ◌>>=◌, pure, raise, require, change, next, attempt,
  attempt_migration,
}
use platform_gitops.Transition.Store.{
  perform, perform_snapshot, perform_inventory, store_state, store_proof,
}

pub store_state-calls :
    (forge : Forge) (st : TransitionState) (s : Machine)
    → (store_state forge st s).0.calls ≡ write_state st ∷ s.calls
unfolding store_state
store_state-calls forge st s = ground arith

pub store_proof-calls :
    (forge : Forge) (command : String) (verified : Bool) (s : Machine)
    → (store_proof forge command verified s).0.calls ≡ write_proof command verified ∷ s.calls
unfolding store_proof
store_proof-calls forge command verified s = ground arith

module _ (P : List Call → Type 0) where
  after_bind :
      {A B : Type 0} (f : A → Action B) (x : Machine × Result Failure A)
      → P x.0.calls
      → ((a : A) (t : Machine) → P t.calls → P (f a t).0.calls)
      → P ((((λ s. x) >>= f) x.0).0).calls
  unfolding ◌>>=◌
  after_bind f (s, ok a) p k = k a s p
  after_bind f (s, err e) p k = p

  after_attempt :
      {A : Type 0} (x : Machine × Result Failure A) → P x.0.calls → P (attempt (λ t. x) x.0).0.calls
  unfolding attempt
  after_attempt (t, ok a) q = q
  after_attempt (t, err e) q = q

  after_attempt_migration :
      {A : Type 0} (x : Machine × Result Failure A)
      → P x.0.calls
      → P (attempt_migration (λ t. x) x.0).0.calls
  unfolding attempt_migration
  after_attempt_migration (t, ok a) q = q
  after_attempt_migration (t, err migration_error) q = q
  after_attempt_migration (t, err other_exception) q = q

-- A predicate on calls that the calls allowed by `allowed` keep.
pub record Invariant : Type 1 where
  pub holds : List Call → Type 0
  pub allowed : Call → Bool
  pub keep : (c : Call) (cs : List Call) → allowed c ≡ true → holds cs → holds (c ∷ cs)

pub record Keeps {A : Type 0} (i : Invariant) (m : Action A) : Type 0 where
  pub kept : (s : Machine) → i.holds s.calls → i.holds (m s).0.calls

module _ {i : Invariant} where
  pub bind-Keeps :
      {A B : Type 0} {m : Action A} {f : A → Action B}
      → Keeps i m
      → ((a : A) → Keeps i (f a))
      → Keeps i (m >>= f)
  unfolding ◌>>=◌
  bind-Keeps {m = m} {f = f} km kf = record {
    kept = λ s p. after_bind i.holds f (m s) (km.kept s p) λ a. (kf a).kept;
  }

  pub pure-Keeps : {A : Type 0} (a : A) → Keeps i (pure a)
  unfolding pure
  pure-Keeps a = record { kept = λ s p. p }

  pub for_each-Keeps :
      {A B : Type 0} {f : A → Action B} (xs : List A)
      → ((a : A) → Keeps i (f a))
      → Keeps i (for_each f xs)
  unfolding for_each
  for_each-Keeps [] k = pure-Keeps _
  for_each-Keeps (x ∷ xs) k =
      bind-Keeps (k x) λ b. bind-Keeps (for_each-Keeps xs k) λ bs. pure-Keeps _

  pub perform-Keeps : (forge : Forge) (c : Call) → i.allowed c ≡ true → Keeps i (perform forge c)
  unfolding perform
  perform-Keeps forge c a = record { kept = λ s p. i.keep c s.calls a p }

  pub perform_snapshot-Keeps :
      (forge : Forge) (c : Call) (name : String)
      → i.allowed c ≡ true
      → Keeps i (perform_snapshot forge c name)
  unfolding perform_snapshot
  perform_snapshot-Keeps forge c name a = record { kept = λ s p. i.keep c s.calls a p }

  pub perform_inventory-Keeps :
      (forge : Forge) (c : Call) (name : String)
      → i.allowed c ≡ true
      → Keeps i (perform_inventory forge c name)
  unfolding perform_inventory
  perform_inventory-Keeps forge c name a = record { kept = λ s p. i.keep c s.calls a p }

  pub next-Keeps : Keeps i next
  unfolding next
  next-Keeps = record { kept = λ s p. p }

  pub change-Keeps : (f : TransitionState → TransitionState) → Keeps i (change f)
  unfolding change
  change-Keeps f = record { kept = λ s p. p }

  pub raise-Keeps : {A : Type 0} → Keeps i (raise {A = A})
  unfolding raise
  raise-Keeps = record { kept = λ s p. p }

  pub require-Keeps : (b : Bool) → Keeps i (require b)
  unfolding require
  require-Keeps true = record { kept = λ s p. p }
  require-Keeps false = record { kept = λ s p. p }

  pub attempt-Keeps : {A : Type 0} {m : Action A} → Keeps i m → Keeps i (attempt m)
  unfolding attempt
  attempt-Keeps {m = m} k = record { kept = λ s p. after_attempt i.holds (m s) (k.kept s p) }

  pub attempt_migration-Keeps :
      {A : Type 0} {m : Action A} → Keeps i m → Keeps i (attempt_migration m)
  unfolding attempt_migration
  attempt_migration-Keeps {m = m} k = record {
    kept = λ s p. after_attempt_migration i.holds (m s) (k.kept s p);
  }

  pub store_state-Keeps :
      (forge : Forge) (st : TransitionState)
      → i.allowed (write_state st) ≡ true
      → Keeps i (store_state forge st)
  store_state-Keeps forge st a = record {
    kept = λ s p.
        subst i.holds (sym (store_state-calls forge st s)) (i.keep (write_state st) s.calls a p);
  }

  pub store_proof-Keeps :
      (forge : Forge) (command : String) (verified : Bool)
      → i.allowed (write_proof command verified) ≡ true
      → Keeps i (store_proof forge command verified)
  store_proof-Keeps forge command verified a = record {
    kept = λ s p.
        subst i.holds (sym (store_proof-calls forge command verified s))
          (i.keep (write_proof command verified) s.calls a p);
  }
