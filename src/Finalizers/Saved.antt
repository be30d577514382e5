-- ===== src/Finalizers/Saved.antt =====
-- What holds of an object after `AddFinalizer` and `RemoveFinalizer` without an error.
use resource_model.Base.{
  ◌≡◌, ◌≢◌, Bool, true, false, Option, none, Text, ok, arith, Bool-cases, Result-cases, inl, inr,
  ◌⊎◌, sym, ◌∙◌,
}
use resource_model.Finalizers.{Library, try_change, add_finalizer, remove_finalizer}

-- What the functions of other repositories document: `RetryOnConflict` calls the function at least
-- once and returns what its last call returned; the functions of controllerutil change one
-- finalizer; and an object that `Update` stored has the finalizers that it was sent with.
pub record IsLawful {S O E : Type 0} (lib : Library S O E) : Type 0 where
  pub last_try :
      (f : S × O → S × O × Option E) (p : S × O) → (q : S × O) × (lib.retry_on_conflict f p ≡ f q)
  pub contains_added : (o : O) (n : Text) → lib.contains_finalizer (lib.add_finalizer o n) n ≡ true
  pub contains_removed :
      (o : O) (n : Text) → lib.contains_finalizer (lib.remove_finalizer o n) n ≡ false
  pub added_others :
      (o : O) (n m : Text)
      → m ≢ n
      → lib.contains_finalizer (lib.add_finalizer o n) m ≡ lib.contains_finalizer o m
  pub removed_others :
      (o : O) (n m : Text)
      → m ≢ n
      → lib.contains_finalizer (lib.remove_finalizer o n) m ≡ lib.contains_finalizer o m
  pub update_keeps :
      (s s' : S) (o o' : O) (m : Text)
      → lib.update s o ≡ (s', o', none)
      → lib.contains_finalizer o' m ≡ lib.contains_finalizer o m

module _ {S O E : Type 0} (lib : Library S O E) where
  -- An update that succeeded left this state and this object, which has the finalizers of the
  -- object that was read just before, but for the named one.
  abbrev pub IsSaved : Text → S → O → Type 0
  IsSaved name after obj =
      (before : S) × (between : S) × (read : O) × (sent : O) × (lib.get before ≡ (between, ok read))
      × (lib.update between sent ≡ (after, obj, none))
      × ((m : Text) → m ≢ name → lib.contains_finalizer obj m ≡ lib.contains_finalizer read m)

  try_change-IsSaved :
      (change : O → O) (name : Text) (has : Bool) (q : S × O) (s' : S) (obj' : O)
      → IsLawful lib
      → ((o : O) → lib.contains_finalizer (change o) name ≡ has)
      → ((o : O) (m : Text)
          → m ≢ name
          → lib.contains_finalizer (change o) m ≡ lib.contains_finalizer o m)
      → try_change lib change q ≡ (s', obj', none)
      → (lib.contains_finalizer obj' name ≡ has) × IsSaved name s' obj'
  unfolding try_change
  try_change-IsSaved change name has (s, obj) s' obj' law own others e =
      let between : S = (lib.get s).0 in
      elim (Result-cases (lib.get s).1) [
        | inr (x, bad) ↦ absurd (ground arith)
        | inl (read, good) ↦
            let up : lib.update between (change read) ≡ (s', obj', none) = ground arith in
            let keep : (m : Text)
                → lib.contains_finalizer obj' m ≡ lib.contains_finalizer (change read) m =
              λ m. law.update_keeps between s' (change read) obj' m up in
            (
              keep name ∙ own read,
              (s, between, read, change read, ground arith, up, λ m d. keep m ∙ others read m d),
            )
      ]

  add_finalizer_lem :
      (name : Text) (s s' : S) (obj obj' : O)
      → IsLawful lib
      → add_finalizer lib name (s, obj) ≡ (s', obj', none)
      → (lib.contains_finalizer obj' name ≡ true)
        × (((s' ≡ s) × (obj' ≡ obj)) ⊎ IsSaved name s' obj')
  unfolding add_finalizer
  add_finalizer_lem name s s' obj obj' law e = elim (Bool-cases (lib.contains_finalizer obj name)) [
    | inl has ↦ ground arith
    | inr not_yet ↦
        let change : O → O = λ o. lib.add_finalizer o name in
        let (q, last) = law.last_try (try_change lib change) (s, obj) in
        let (own, saved) =
          try_change-IsSaved change name true q s' obj' law (λ o. law.contains_added o name)
            (λ o m. law.added_others o name m) (sym last ∙ ground arith) in
        (own, inr saved)
  ]

  remove_finalizer_lem :
      (name : Text) (s s' : S) (obj obj' : O)
      → IsLawful lib
      → remove_finalizer lib name (s, obj) ≡ (s', obj', none)
      → (lib.contains_finalizer obj' name ≡ false)
        × (((s' ≡ s) × (obj' ≡ obj)) ⊎ IsSaved name s' obj')
  unfolding remove_finalizer
  remove_finalizer_lem name s s' obj obj' law e =
      elim (Bool-cases (lib.contains_finalizer obj name)) [
        | inr not_there ↦ ground arith
        | inl has ↦
            let change : O → O = λ o. lib.remove_finalizer o name in
            let (q, last) = law.last_try (try_change lib change) (s, obj) in
            let (own, saved) =
              try_change-IsSaved change name false q s' obj' law (λ o. law.contains_removed o name)
                (λ o m. law.removed_others o name m) (sym last ∙ ground arith) in
            (own, inr saved)
      ]

  -- `AddFinalizer` without an error leaves the caller's object with the finalizer, and
  -- `RemoveFinalizer` without an error leaves it without. In both cases either nothing changed, or
  -- an update that succeeded stored the object, with all other finalizers as they were in the
  -- object that was read just before. This holds whatever other processes do during the call, for
  -- libraries that do what they document.
  pub finalizers_lem :
      (name : Text) (s s1 s2 : S) (obj obj1 obj2 : O)
      → IsLawful lib
      → add_finalizer lib name (s, obj) ≡ (s1, obj1, none)
      → remove_finalizer lib name (s, obj) ≡ (s2, obj2, none)
      → (lib.contains_finalizer obj1 name ≡ true)
        × (lib.contains_finalizer obj2 name ≡ false)
        × (((s1 ≡ s) × (obj1 ≡ obj)) ⊎ IsSaved name s1 obj1)
        × (((s2 ≡ s) × (obj2 ≡ obj)) ⊎ IsSaved name s2 obj2)
  finalizers_lem name s s1 s2 obj obj1 obj2 law added removed =
      let (own1, saved1) = add_finalizer_lem name s s1 obj obj1 law added in
      let (own2, saved2) = remove_finalizer_lem name s s2 obj obj2 law removed in
      (own1, own2, saved1, saved2)
