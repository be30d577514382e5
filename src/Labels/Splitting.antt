-- ===== src/Labels/Splitting.antt =====
-- Splitting a text that was joined, and trimming quotes.
use resource_model.Base.{ℕ, ◌≡◌, ◌≢◌, refl, ap, ◌∙◌, List, [], ◌∷◌, ◌++◌, arith, All, Text}
use resource_model.Labels.{comma, quote, split, trim_left, trim_right, join}

-- The character does not occur in the text.
abbrev pub Lacks : ℕ → Text → Type 0
Lacks c = All (λ x. x ≢ c)

pub split-alone : (c : ℕ) (t : Text) → Lacks c t → split c t ≡ t ∷ []
unfolding split
split-alone c [] h = refl
split-alone c (x ∷ xs) h = ground (arith, split-alone c xs h.1)

pub split-append : (c : ℕ) (t rest : Text) → Lacks c t → split c (t ++ c ∷ rest) ≡ t ∷ split c rest
unfolding split
split-append c [] rest h = ground arith
split-append c (x ∷ xs) rest h = ground (arith, split-append c xs rest h.1)

-- Texts without a comma that are joined by commas come back.
pub split-join :
    (t : Text) (ts : List Text) → All (Lacks comma) (t ∷ ts) → split comma (join (t ∷ ts)) ≡ t ∷ ts
unfolding join
split-join t [] h = split-alone comma t h.0
split-join t (u ∷ us) h =
    split-append comma t (join (u ∷ us)) h.0 ∙ ap (λ ts. t ∷ ts) (split-join u us h.1)

-- A text without quotes is not trimmed, and one in quotes loses them.
trim_left-alone : (t : Text) → Lacks quote t → trim_left t ≡ t
unfolding trim_left
trim_left-alone [] h = refl
trim_left-alone (x ∷ xs) h = ground arith

trim_right-alone : (t : Text) → Lacks quote t → trim_right t ≡ t
unfolding trim_right
trim_right-alone [] h = refl
trim_right-alone (x ∷ []) h = ground arith
trim_right-alone (x ∷ y ∷ ys) h = ground (arith, trim_right-alone (y ∷ ys) h.1)

-- A quote at the end goes.
trim_right-quoted : (t : Text) → Lacks quote t → trim_right (t ++ quote ∷ []) ≡ t
unfolding trim_right
trim_right-quoted [] h = refl
trim_right-quoted (x ∷ []) h = ground arith
trim_right-quoted (x ∷ y ∷ ys) h = ground (arith, trim_right-quoted (y ∷ ys) h.1)

-- `strings.Trim(labelText, "\"")`
abbrev pub trim : Text → Text
trim t = trim_right (trim_left t)

pub trim-alone : (t : Text) → Lacks quote t → trim t ≡ t
trim-alone t h = ap trim_right (trim_left-alone t h) ∙ trim_right-alone t h

pub trim-quoted : (t : Text) → Lacks quote t → trim (quote ∷ t ++ quote ∷ []) ≡ t
unfolding trim_left trim_right
trim-quoted [] h = ground arith
trim-quoted (x ∷ t) h =
    let e : trim_left (quote ∷ x ∷ t ++ quote ∷ []) ≡ x ∷ t ++ quote ∷ [] = ground arith in
    ap trim_right e ∙ trim_right-quoted (x ∷ t) h
