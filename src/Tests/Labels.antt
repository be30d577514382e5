-- ===== src/Tests/Labels.antt =====
-- The labels of an endpoint with an owner and a resource.
use resource_model.Base.{◌≡◌, refl, [], ◌∷◌, none, some, true, Text, text, text_dec, arith}
use resource_model.GoMap.{GoMap, lookup}
use resource_model.Allocator.Ip.{compare_bytes}
use resource_model.Labels.{
  new_labels_from_string, serialize, join, sort_keys, insert_key, trim_left, trim_right, split,
  read_tokens, read_token, read_label,
}
use resource_model.Labels.RoundTrip.{IsClean, new_labels_from_string-serialize}

abbrev labels : GoMap Text Text
labels = (text "resource", text "service/web") ∷ (text "owner", text "epic") ∷ []

labels-IsClean : IsClean labels
labels-IsClean = ground arith

-- The keys are written in order.
serialize-labels :
    serialize true labels
    ≡ text "\"heritage=external-dns,external-dns/owner=epic,external-dns/resource=service/web\""
unfolding serialize join sort_keys insert_key lookup compare_bytes text_dec
serialize-labels = refl

-- A text of another program is refused.
new_labels_from_string-other : new_labels_from_string (text "heritage=other") ≡ none
unfolding new_labels_from_string trim_left trim_right split read_tokens read_token read_label
    text_dec
new_labels_from_string-other = refl

new_labels_from_string-serialize_example :
    (m : GoMap Text Text) × (new_labels_from_string (serialize true labels) ≡ some m)
    × ((k : Text) → lookup text_dec k m ≡ lookup text_dec k labels)
new_labels_from_string-serialize_example =
    new_labels_from_string-serialize true labels labels-IsClean
