-- ===== src/Finalizers.antt =====
-- controllers/misc.go: adding a finalizer to an object of the cluster and removing it, with the
-- object read again on every try.
pub mod Saved
use resource_model.Base.{
  ◌≡◌, ◌≢◌, Bool, true, false, Option, none, some, Text, Result, ok, err, if◌then◌else◌, arith,
  Bool-cases, Result-cases, refl, inl, inr, ◌⊎◌, sym,
}

-- What belongs to other repositories: the state `S` of the world, in which other processes may act
-- during a call, and the errors `E`; the client's `Get` and `Update`, of which the second writes
-- into the object; the functions of controllerutil on an object `O`; and `retry.RetryOnConflict`.
pub record Library (S O E : Type 0) : Type 1 where
  pub get : S → S × Result E O
  pub update : S → O → S × O × Option E
  pub contains_finalizer : O → Text → Bool
  pub add_finalizer : O → Text → O
  pub remove_finalizer : O → Text → O
  pub retry_on_conflict : (S × O → S × O × Option E) → S × O → S × O × Option E

module _ {S O E : Type 0} (lib : Library S O E) where
  -- One try of the two functions, with the change that is between `Get` and `Update`.
  unfoldable pub try_change : (O → O) → S × O → S × O × Option E
  try_change change (s, obj) =
      let (s1, got) = lib.get s in
      elim got [ err e ↦ (s1, obj, some e) | ok read ↦ lib.update s1 (change read) ]

  -- `AddFinalizer`: the state, the caller's object and the error.
  unfoldable pub add_finalizer : Text → S × O → S × O × Option E
  add_finalizer name (s, obj) =
      if lib.contains_finalizer obj name
      then (s, obj, none)
      else lib.retry_on_conflict (try_change (λ o. lib.add_finalizer o name)) (s, obj)

  -- `RemoveFinalizer`
  unfoldable pub remove_finalizer : Text → S × O → S × O × Option E
  remove_finalizer name (s, obj) =
      if lib.contains_finalizer obj name
      then lib.retry_on_conflict (try_change (λ o. lib.remove_finalizer o name)) (s, obj)
      else (s, obj, none)
