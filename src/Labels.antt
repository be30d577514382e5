-- ===== src/Labels.antt =====
-- api/v1/dns_labels.go: the labels of a DNS record as a text, and back.
pub mod Splitting
pub mod Sorted
pub mod RoundTrip
use Prim.Native.Nat.{Ordering}
use mathlib.Core.Option.{get_or}
use resource_model.Base.{
  ℕ, Bool, true, false, List, [], ◌∷◌, ◌++◌, map, Option, none, some, Text, text, text_dec, ite,
  if◌then◌else◌, ◌==◌, trim_prefix?,
}
use resource_model.GoMap.{GoMap, keys, lookup, insert}
use resource_model.Allocator.Ip.{compare_bytes}

abbrev pub comma : ℕ
comma = 44

abbrev pub equals : ℕ
equals = 61

abbrev pub quote : ℕ
quote = 34

abbrev pub heritage : Text
heritage = text "external-dns"

-- `strings.Split` by one character.
unfoldable pub split : ℕ → Text → List Text
split c [] = [] ∷ []
split c (x ∷ xs) =
    let rest = split c xs in
    if x == c then [] ∷ rest else elim rest [ [] ↦ (x ∷ []) ∷ [] | t ∷ ts ↦ (x ∷ t) ∷ ts ]

-- `strings.Trim(labelText, "\"")`
unfoldable pub trim_left : Text → Text
trim_left [] = []
trim_left (x ∷ xs) = if x == quote then trim_left xs else x ∷ xs

unfoldable pub trim_right : Text → Text
trim_right [] = []
trim_right (x ∷ xs) =
    let rest = trim_right xs in
    elim rest [ [] ↦ (if x == quote then [] else x ∷ []) | y ∷ ys ↦ x ∷ y ∷ ys ]

-- `strings.TrimPrefix(key, heritage+"/")`
abbrev trim_heritage : Text → Text
trim_heritage key = get_or (trim_prefix? (heritage ++ text "/") key) key

-- One token with its key and value: whether the heritage was found, and the labels so far. `none`
-- is the return of `ErrInvalidHeritage`.
unfoldable pub read_label : Text → Text → Bool → GoMap Text Text → Option (Bool × GoMap Text Text)
read_label key val found labels =
    ite (text_dec key (text "heritage")) (ite (text_dec val heritage) (some (true, labels)) none)
      (elim (trim_prefix? heritage key) [
        | none ↦ some (found, labels)
        | some rest ↦ some (found, insert text_dec (trim_heritage key) val labels)
      ])

-- The body of the loop: a token that is not a key and a value is skipped.
unfoldable pub read_token : Text → Bool → GoMap Text Text → Option (Bool × GoMap Text Text)
read_token token found labels = elim (split equals token) [
  | [] ↦ some (found, labels)
  | key ∷ vals ↦ elim vals [
    | [] ↦ some (found, labels)
    | val ∷ more ↦ elim more [
      | [] ↦ read_label key val found labels
      | m ∷ ms ↦ some (found, labels)
    ]
  ]
]

unfoldable pub read_tokens : List Text → Bool → GoMap Text Text → Option (Bool × GoMap Text Text)
read_tokens [] found labels = some (found, labels)
read_tokens (token ∷ tokens) found labels = elim (read_token token found labels) [
  | none ↦ none
  | some (found', labels') ↦ read_tokens tokens found' labels'
]

-- `NewLabelsFromString`: `none` is `ErrInvalidHeritage`.
unfoldable pub new_labels_from_string : Text → Option (GoMap Text Text)
new_labels_from_string label_text =
    elim (read_tokens (split comma (trim_right (trim_left label_text))) false []) [
      | none ↦ none
      | some (found, labels) ↦ if found then some labels else none
    ]

-- `sort.Strings`
unfoldable pub insert_key : Text → List Text → List Text
insert_key k [] = k ∷ []
insert_key k (x ∷ xs) =
    let rest = insert_key k xs in
    elim (compare_bytes k x) [
      | Ordering.gt ↦ x ∷ rest
      | Ordering.lt ↦ k ∷ x ∷ xs
      | Ordering.eq ↦ k ∷ x ∷ xs
    ]

unfoldable pub sort_keys : List Text → List Text
sort_keys [] = []
sort_keys (k ∷ ks) = insert_key k (sort_keys ks)

-- `strings.Join(tokens, ",")`
unfoldable pub join : List Text → Text
join [] = []
join (t ∷ ts) = elim ts [ [] ↦ t | u ∷ us ↦ t ++ comma ∷ join ts ]

-- The token of a label; a missing key reads as the empty text.
abbrev pub token : GoMap Text Text → Text → Text
token l key = heritage ++ text "/" ++ key ++ equals ∷ get_or (lookup text_dec key l) []

abbrev pub heritage_token : Text
heritage_token = text "heritage=external-dns"

abbrev tokens : GoMap Text Text → List Text
tokens l = heritage_token ∷ map (token l) (sort_keys (keys l))

unfoldable pub serialize : Bool → GoMap Text Text → Text
serialize true l = quote ∷ join (tokens l) ++ quote ∷ []
serialize false l = join (tokens l)
