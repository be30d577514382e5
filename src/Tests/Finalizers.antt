-- ===== src/Tests/Finalizers.antt =====
-- Finalizers for one process alone, with an object that is its set of finalizers and is the whole
-- state.
use resource_model.Base.{
  ◌≡◌, ◌⊎◌, refl, Bool, true, false, none, ok, Text, text, text_dec, ite, arith,
}
use resource_model.Finalizers.{Library, add_finalizer, remove_finalizer, try_change}
use resource_model.Finalizers.Saved.{IsLawful, IsSaved, finalizers_lem}

abbrev Finalizers : Type 0
Finalizers = Text → Bool

abbrev alone : Library Finalizers Finalizers Text
alone = record {
  get = λ s. (s, ok s);
  update = λ s o. (o, o, none);
  contains_finalizer = λ o n. o n;
  add_finalizer = λ o n m. ite (text_dec m n) true (o m);
  remove_finalizer = λ o n m. ite (text_dec m n) false (o m);
  retry_on_conflict = λ f p. f p;
}

alone-IsLawful : IsLawful alone
alone-IsLawful = record {
  last_try = λ f p. (p, refl);
  contains_added = λ o n. ground arith;
  contains_removed = λ o n. ground arith;
  added_others = λ o n m d. ground arith;
  removed_others = λ o n m d. ground arith;
  update_keeps = λ s s' o o' m e. ground arith;
}

abbrev own_name : Text
own_name = text "epic"

abbrev other_only : Finalizers
other_only n = ite (text_dec n (text "other")) true false

abbrev both : Finalizers
both = alone.add_finalizer other_only own_name

finalizers_lem_example :
    (both own_name ≡ true)
    × (other_only own_name ≡ false)
    × (((both ≡ other_only) × (both ≡ other_only)) ⊎ IsSaved alone own_name both both)
    × (((other_only ≡ other_only) × (other_only ≡ other_only))
        ⊎ IsSaved alone own_name other_only other_only)
unfolding add_finalizer remove_finalizer try_change text_dec
finalizers_lem_example =
    finalizers_lem alone own_name other_only both other_only other_only both other_only
      alone-IsLawful refl refl
