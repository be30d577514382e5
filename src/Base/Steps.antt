-- ===== src/Base/Steps.antt =====
-- Steps on a state of the world that may report an error.
use mathlib.Core.List.{List, [], ◌∷◌}
use mathlib.Core.Logic.{inl, inr}
use mathlib.Core.Option.{Option, none, some}
use mathlib.Core.Path.{◌≡◌}
use native.Mathlib.Omega.{arith}
use resource_model.Base.Lists.{In}
use resource_model.Base.Tests.{Option-cases}

-- A step, and the rest if it reports no error.
infixl 5 ◌andthen◌
abbrev pub ◌andthen◌ : {S E : Type 0} → S × Option E → (S → S × Option E) → S × Option E
r andthen k = elim r.1 [ some e ↦ (r.0, some e) | none ↦ k r.0 ]

pub andthen-none :
    {S E : Type 0} (r : S × Option E) (k : S → S × Option E) (s' : S)
    → (r andthen k) ≡ (s', none)
    → (r ≡ (r.0, none)) × (k r.0 ≡ (s', none))
andthen-none r k s' e = elim (Option-cases r.1) [
  | inr (x, bad) ↦ absurd (ground arith)
  | inl good ↦ (ground arith, ground arith)
]

-- A loop that returns at the first error.
unfoldable pub until_error : {S E A : Type 0} → (S → A → S × Option E) → List A → S → S × Option E
until_error body [] s = (s, none)
until_error body (x ∷ xs) s =
    let (s1, e) = body s x in elim e [ some e ↦ (s1, some e) | none ↦ until_error body xs s1 ]

-- A loop that ended without an error ran its body without an error for each element.
pub until_error-In :
    {S E A : Type 0} (body : S → A → S × Option E) (xs : List A) (s s' : S) (x : A)
    → until_error body xs s ≡ (s', none)
    → In x xs
    → (before : S) × (after : S) × (body before x ≡ (after, none))
unfolding until_error
until_error-In body [] s s' x e i = absurd i
until_error-In body (y ∷ ys) s s' x e i = elim (Option-cases (body s y).1) [
  | inr (z, bad) ↦ absurd (ground arith)
  | inl good ↦ elim i [
    | inl same ↦ (s, (body s y).0, ground arith)
    | inr j ↦ until_error-In body ys (body s y).0 s' x (ground arith) j
  ]
]

-- Steps one after the other are a loop over what they are done for.
module _ {S E A : Type 0} (body : S → A → S × Option E) where
  pub until_error-one : (x : A) (s : S) → body s x ≡ until_error body (x ∷ []) s
  unfolding until_error
  until_error-one x s = elim (Option-cases (body s x).1) [
    | inl good ↦ ground arith
    | inr (e, bad) ↦ ground arith
  ]

  pub andthen-until_error :
      (x : A) (xs : List A) (s : S) (k : S → S × Option E)
      → ((s1 : S) → k s1 ≡ until_error body xs s1)
      → (body s x andthen k) ≡ until_error body (x ∷ xs) s
  unfolding until_error
  andthen-until_error x xs s k h = elim (Option-cases (body s x).1) [
    | inl good ↦ ground (arith, h (body s x).0)
    | inr (e, bad) ↦ ground arith
  ]
