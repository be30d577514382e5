-- ===== src/Base/Affixes.antt =====
-- Prefixes and suffixes of texts.
use mathlib.Core.Bool.{Bool, true, false}
use mathlib.Core.List.{[], ◌∷◌, ◌++◌}
use mathlib.Core.Logic.{inl, inr, ite}
use mathlib.Core.Option.{Option, none, some}
use mathlib.Core.Path.{◌≡◌, ap}
use native.Mathlib.Omega.{arith}
use resource_model.Base.Lists.{length, length-append}
use resource_model.Base.Tests.{Text, text_dec, if◌then◌else◌, ◌==◌, Option-cases}

-- The rest of a text behind a prefix, if it has the prefix.
unfoldable pub trim_prefix? : Text → Text → Option Text
trim_prefix? [] s = some s
trim_prefix? (p ∷ ps) [] = none
trim_prefix? (p ∷ ps) (c ∷ cs) = if p == c then trim_prefix? ps cs else none

-- The rest of a text before a suffix, if it has the suffix.
unfoldable pub trim_suffix? : Text → Text → Option Text
trim_suffix? suffix [] = ite (text_dec [] suffix) (some []) none
trim_suffix? suffix (c ∷ cs) =
    let rest = trim_suffix? suffix cs in
    ite (text_dec (c ∷ cs) suffix) (some [])
      (elim rest [ none ↦ none | some before ↦ some (c ∷ before) ])

pub trim_suffix?-some :
    (suffix s before : Text) → trim_suffix? suffix s ≡ some before → s ≡ before ++ suffix
unfolding trim_suffix?
trim_suffix?-some suffix [] before e = ground arith
trim_suffix?-some suffix (c ∷ cs) before e = elim (text_dec (c ∷ cs) suffix) [
  | yes same ↦ ground arith
  | no d ↦ elim (Option-cases (trim_suffix? suffix cs)) [
    | inl none_yet ↦ absurd (ground arith)
    | inr (b, found) ↦ ground (arith, trim_suffix?-some suffix cs b found)
  ]
]

pub trim_suffix?-append :
    (suffix before : Text) → trim_suffix? suffix (before ++ suffix) ≡ some before
unfolding trim_suffix?
trim_suffix?-append [] [] = ground arith
trim_suffix?-append (x ∷ suffix) [] = ground arith
trim_suffix?-append suffix (c ∷ before) = elim (text_dec (c ∷ before ++ suffix) suffix) [
  | yes same ↦
      let h = ap length same in absurd (omega (arith, h, length-append (c ∷ before) suffix))
  | no d ↦ ground (arith, trim_suffix?-append suffix before)
]

-- `strings.Contains(s, part)`
unfoldable pub contains : Text → Text → Bool
contains part [] = elim (trim_prefix? part []) [ none ↦ false | some _ ↦ true ]
contains part (c ∷ cs) =
    let rest = contains part cs in elim (trim_prefix? part (c ∷ cs)) [ none ↦ rest | some _ ↦ true ]
