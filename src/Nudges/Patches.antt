-- ===== src/Nudges/Patches.antt =====
-- What the patch of a nudge does to the annotations.
use mathlib.Core.Option.{get_or}
use resource_model.Base.{
  ◌≡◌, ◌≢◌, refl, List, [], ◌∷◌, ◌++◌, Option, none, some, arith, All, Text, text, text_dec, ite,
  Result, ok,
}
use resource_model.GoMap.{GoMap, lookup, insert, lookup-insert}
use resource_model.Nudges.{Operation, string, object, nudge_patch}

-- JSON patch, RFC 6902, on the annotations of an object: adding the member that is there already
-- replaces it, and adding a member to an object keeps the others. A key without `/` and `~` stands
-- in a path as it is.
pub record IsJsonPatch {E : Type 0}
    (apply : List Operation → Option (GoMap Text Text) → Result E (Option (GoMap Text Text)))
    : Type 0 where
  pub add_annotations :
      (before : Option (GoMap Text Text)) (m : GoMap Text Text)
      → apply
          (record { op = text "add"; path = text "/metadata/annotations"; value = object m } ∷ [])
          before
        ≡ ok (some m)
  pub add_member :
      (m : GoMap Text Text) (k v : Text)
      → All (λ c. (c ≢ 47) × (c ≢ 126)) k
      → apply
          (record { op = text "add"; path = text "/metadata/annotations/" ++ k; value = string v }
            ∷ [])
          (some m)
        ≡ ok (some (insert text_dec k v m))

-- The patch of a nudge applies, whether the object has annotations or not: afterwards the
-- annotation `nudge` has the new value and every other annotation is as it was.
pub nudge_patch_lem :
    {E : Type 0}
    (apply : List Operation → Option (GoMap Text Text) → Result E (Option (GoMap Text Text)))
    (annotations : Option (GoMap Text Text)) (raw : Text)
    → IsJsonPatch apply
    → (after : GoMap Text Text) × (apply (nudge_patch annotations raw) annotations
        ≡ ok (some after))
      × ((k : Text)
          → lookup text_dec k after
            ≡ ite
                (text_dec (text "nudge") k)
                (some raw)
                (lookup text_dec k (get_or annotations [])))
unfolding nudge_patch lookup
nudge_patch_lem apply none raw law =
    ((text "nudge", raw) ∷ [], law.add_annotations none ((text "nudge", raw) ∷ []), λ k. refl)
nudge_patch_lem apply (some m) raw law = (
  insert text_dec (text "nudge") raw m,
  law.add_member m (text "nudge") raw (ground arith),
  λ k. lookup-insert text_dec (text "nudge") k raw m,
)
