-- ===== src/Labels/RoundTrip.antt =====
-- Reading labels that were written as a text gives them back.
use resource_model.Base.{
  ℕ, ◌≡◌, ◌≢◌, refl, sym, ap, subst, ◌∙◌, ◌⊎◌, inl, inr, List, [], ◌∷◌, ◌++◌, map, some, arith, All,
  All-append, In, Text, text, Bool, true, false, text_dec, trim_prefix?,
}
use resource_model.GoMap.{GoMap, keys, lookup, insert, lookup-insert_self, lookup-insert_ne}
use resource_model.Labels.{
  comma, equals, quote, heritage, heritage_token, token, read_label, read_token, read_tokens, split,
  join, sort_keys, serialize, new_labels_from_string,
}
use resource_model.Labels.Splitting.{
  Lacks, split-alone, split-append, split-join, trim, trim-alone, trim-quoted,
}
use resource_model.Labels.Sorted.{All-sort_keys, In-sort_keys}

-- A key or a value without a comma, an equals sign and a quote.
abbrev pub Clean : Text → Type 0
Clean t = Lacks comma t × Lacks equals t × Lacks quote t

-- The key has a value in the map, and both are clean.
abbrev IsKept : GoMap Text Text → Text → Type 0
IsKept l k = (v : Text) × (lookup text_dec k l ≡ some v) × Clean k × Clean v

abbrev token_of : Text → Text → Text
token_of k v = heritage ++ text "/" ++ k ++ equals ∷ v

key-Lacks :
    (c : ℕ) (k : Text)
    → Lacks c (heritage ++ text "/")
    → Lacks c k
    → Lacks c (heritage ++ text "/" ++ k)
key-Lacks c k hh h = All-append (λ x. x ≢ c) (heritage ++ text "/") k hh h

prefix-Lacks : Lacks equals (heritage ++ text "/")
prefix-Lacks = ground arith

read_key :
    (k v : Text) (found : Bool) (m : GoMap Text Text)
    → read_label (heritage ++ text "/" ++ k) v found m ≡ some (found, insert text_dec k v m)
unfolding read_label trim_prefix?
read_key k v found m =
    let ne : heritage ++ text "/" ++ k ≢ text "heritage" = λ e. ground arith in ground arith

read_token-token_of :
    (k v : Text) (found : Bool) (m : GoMap Text Text)
    → Clean k
    → Clean v
    → read_token (token_of k v) found m ≡ some (found, insert text_dec k v m)
unfolding read_token read_label trim_prefix? split insert
read_token-token_of k v found m hk hv =
    let parts : split equals (token_of k v) ≡ (heritage ++ text "/" ++ k) ∷ v ∷ [] =
      split-append equals (heritage ++ text "/" ++ k) v (key-Lacks equals k prefix-Lacks hk.1)
      ∙ ap (λ ts. (heritage ++ text "/" ++ k) ∷ ts) (split-alone equals v hv.1) in
    rw (parts, read_key k v found m)

token-IsKept :
    (l : GoMap Text Text) (k v : Text) → lookup text_dec k l ≡ some v → token l k ≡ token_of k v
token-IsKept l k v e = rw (e) refl

insert-agrees :
    (l m : GoMap Text Text) (j v k : Text) (ks : List Text)
    → lookup text_dec j l ≡ some v
    → In k (j ∷ ks) ⊎ (lookup text_dec k m ≡ lookup text_dec k l)
    → In k ks ⊎ (lookup text_dec k (insert text_dec j v m) ≡ lookup text_dec k l)
insert-agrees l m j v k ks e h = elim (text_dec k j) [
  | yes same ↦ inr (
      subst (λ i. lookup text_dec i (insert text_dec j v m) ≡ lookup text_dec i l) (sym same)
        (lookup-insert_self text_dec j v m ∙ sym e))
  | no d ↦
      let away = lookup-insert_ne text_dec j k v m (λ q. d (sym q)) in
      elim h [
        | inl i ↦ elim i [ inl same ↦ absurd (d same) | inr r ↦ inl r ]
        | inr agree ↦ inr (away ∙ agree)
      ]
]

-- The labels that the loop has read so far agree with those written.
abbrev Reads : GoMap Text Text → List Text → Bool → GoMap Text Text → Type 0
Reads l ks found m =
    (m' : GoMap Text Text) × (read_tokens (map (token l) ks) found m ≡ some (found, m'))
    × ((k : Text)
        → In k ks ⊎ (lookup text_dec k m ≡ lookup text_dec k l)
        → lookup text_dec k m' ≡ lookup text_dec k l)

read_tokens-map :
    (l : GoMap Text Text) (ks : List Text) (found : Bool) (m : GoMap Text Text)
    → All (IsKept l) ks
    → Reads l ks found m
unfolding read_tokens
read_tokens-map l [] found m h = (m, refl, λ k i. elim i [ inl a ↦ absurd a | inr e ↦ e ])
read_tokens-map l (j ∷ ks) found m ((v, e, hj, hv), hs) =
    let (m', is, agrees) = read_tokens-map l ks found (insert text_dec j v m) hs in
    let one : read_token (token l j) found m ≡ some (found, insert text_dec j v m) =
      ap (λ t. read_token t found m) (token-IsKept l j v e)
      ∙ read_token-token_of j v found m hj hv in
    (m', rw (one, read_tokens) is, λ k i. agrees k (insert-agrees l m j v k ks e i))

-- Every label is clean.
abbrev pub IsClean : GoMap Text Text → Type 0
IsClean = All (λ e. Clean e.0 × Clean e.1)

lookup-Clean : (l : GoMap Text Text) (k : Text) → IsClean l → In k (keys l) → IsKept l k
unfolding lookup
lookup-Clean [] k h i = absurd i
lookup-Clean ((j, w) ∷ l) k ((hj, hw), hl) i = elim (text_dec j k) [
  | yes same ↦ (w, ground arith, subst Clean same hj, hw)
  | no d ↦ elim i [
    | inl same ↦ absurd (d (sym same))
    | inr r ↦ let (v, e, hk, hv) = lookup-Clean l k hl r in (v, ground arith, hk, hv)
  ]
]

All-from_In : {P : Text → Type 0} (ks : List Text) → ((k : Text) → In k ks → P k) → All P ks
All-from_In [] h = tt
All-from_In (k ∷ ks) h = (h k (inl refl), All-from_In ks (λ j i. h j (inr i)))

In-or_none :
    (l : GoMap Text Text) (k : Text) → In k (keys l) ⊎ (lookup text_dec k [] ≡ lookup text_dec k l)
unfolding lookup
In-or_none [] k = inr refl
In-or_none ((j, w) ∷ l) k = elim (text_dec j k) [
  | yes same ↦ inl (inl (sym same))
  | no d ↦ elim (In-or_none l k) [ inl i ↦ inl (inr i) | inr e ↦ inr (ground arith) ]
]

keys-IsKept : (l : GoMap Text Text) → IsClean l → All (IsKept l) (sort_keys (keys l))
keys-IsKept l h = All-sort_keys (IsKept l) (keys l) (All-from_In (keys l) (λ k. lookup-Clean l k h))

token_of-Lacks :
    (c : ℕ) (k v : Text)
    → Lacks c (heritage ++ text "/")
    → c ≢ equals
    → Lacks c k
    → Lacks c v
    → Lacks c (token_of k v)
token_of-Lacks c k v hh ne hk hv =
    All-append (λ x. x ≢ c) (heritage ++ text "/" ++ k) (equals ∷ v) (key-Lacks c k hh hk)
      (λ e. ne (sym e), hv)

map-Lacks :
    (c : ℕ) (l : GoMap Text Text) (ks : List Text)
    → Lacks c (heritage ++ text "/")
    → c ≢ equals
    → ((t : Text) → Clean t → Lacks c t)
    → All (IsKept l) ks
    → All (Lacks c) (map (token l) ks)
map-Lacks c l [] hh ne f h = tt
map-Lacks c l (k ∷ ks) hh ne f ((v, e, hk, hv), hs) = (
  subst (Lacks c) (sym (token-IsKept l k v e)) (token_of-Lacks c k v hh ne (f k hk) (f v hv)),
  map-Lacks c l ks hh ne f hs,
)

join-Lacks : (t : Text) (ts : List Text) → All (Lacks quote) (t ∷ ts) → Lacks quote (join (t ∷ ts))
unfolding join
join-Lacks t [] h = h.0
join-Lacks t (u ∷ us) h =
    All-append (λ x. x ≢ quote) t (comma ∷ join (u ∷ us)) h.0 (ground arith, join-Lacks u us h.1)

heritage_first :
    (ts : List Text) → read_tokens (heritage_token ∷ ts) false [] ≡ read_tokens ts true []
unfolding read_tokens read_token read_label split trim_prefix?
heritage_first ts = ground arith

-- The text between the quotes.
abbrev written : GoMap Text Text → Text
written l = join (heritage_token ∷ map (token l) (sort_keys (keys l)))

written-Lacks : (l : GoMap Text Text) → IsClean l → Lacks quote (written l)
written-Lacks l h = join-Lacks heritage_token (map (token l) (sort_keys (keys l))) (
  ground arith,
  map-Lacks quote l (sort_keys (keys l)) (ground arith) (ground arith) (λ t c. c.2)
      (keys-IsKept l h),
)

split-written :
    (l : GoMap Text Text)
    → IsClean l
    → split comma (written l) ≡ heritage_token ∷ map (token l) (sort_keys (keys l))
split-written l h = split-join heritage_token (map (token l) (sort_keys (keys l))) (
  ground arith,
  map-Lacks comma l (sort_keys (keys l)) (ground arith) (ground arith) (λ t c. c.0)
      (keys-IsKept l h),
)

trim-serialize : (q : Bool) (l : GoMap Text Text) → IsClean l → trim (serialize q l) ≡ written l
unfolding serialize
trim-serialize true l h = trim-quoted (written l) (written-Lacks l h)
trim-serialize false l h = trim-alone (written l) (written-Lacks l h)

-- For labels whose keys and values have no comma, no equals sign and no quote, with quotes around
-- the text or without, `NewLabelsFromString` reads what `Serialize` wrote without an error, and
-- every key has in the labels it returns the value that it has in the labels written, or is absent
-- from both.
pub new_labels_from_string-serialize :
    (q : Bool) (l : GoMap Text Text)
    → IsClean l
    → (m : GoMap Text Text) × (new_labels_from_string (serialize q l) ≡ some m)
      × ((k : Text) → lookup text_dec k m ≡ lookup text_dec k l)
unfolding new_labels_from_string
new_labels_from_string-serialize q l h =
    let ks : List Text = sort_keys (keys l) in
    let (m, is, agrees) = read_tokens-map l ks true [] (keys-IsKept l h) in
    let parts : split comma (trim (serialize q l)) ≡ heritage_token ∷ map (token l) ks =
      ap (split comma) (trim-serialize q l h) ∙ split-written l h in
    let read : read_tokens (split comma (trim (serialize q l))) false [] ≡ some (true, m) =
      ap (λ ts. read_tokens ts false []) parts ∙ heritage_first (map (token l) ks) ∙ is in
    (
      m,
      rw (read, new_labels_from_string) refl,
      λ k.
          agrees k
            (elim (In-or_none l k) [ inl i ↦ inl (In-sort_keys k (keys l) i) | inr e ↦ inr e ]),
    )
