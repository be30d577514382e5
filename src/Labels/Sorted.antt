-- ===== src/Labels/Sorted.antt =====
-- What sorting the keys keeps.
use Prim.Native.Nat.{Ordering}
use resource_model.Base.{◌≡◌, refl, sym, subst, ◌⊎◌, inl, inr, List, [], ◌∷◌, All, In, Text}
use resource_model.Labels.{insert_key, sort_keys}
use resource_model.Allocator.Ip.{compare_bytes}

by_order :
    (o : Ordering) (xs ys : List Text)
    → let r : List Text = elim o [ Ordering.gt ↦ ys | Ordering.lt ↦ xs | Ordering.eq ↦ xs ] in
      (r ≡ xs) ⊎ (r ≡ ys)
by_order Ordering.gt xs ys = inr refl
by_order Ordering.lt xs ys = inl refl
by_order Ordering.eq xs ys = inl refl

insert_key-cases :
    (k x : Text) (xs : List Text)
    → (insert_key k (x ∷ xs) ≡ k ∷ x ∷ xs) ⊎ (insert_key k (x ∷ xs) ≡ x ∷ insert_key k xs)
unfolding insert_key
insert_key-cases k x xs = by_order (compare_bytes k x) (k ∷ x ∷ xs) (x ∷ insert_key k xs)

All-insert_key :
    (P : Text → Type 0) (k : Text) (xs : List Text) → P k → All P xs → All P (insert_key k xs)
unfolding insert_key
All-insert_key P k [] hk h = (hk, tt)
All-insert_key P k (x ∷ xs) hk h = elim (insert_key-cases k x xs) [
  | inl e ↦ subst (All P) (sym e) (hk, h)
  | inr e ↦ subst (All P) (sym e) (h.0, All-insert_key P k xs hk h.1)
]

pub All-sort_keys : (P : Text → Type 0) (xs : List Text) → All P xs → All P (sort_keys xs)
unfolding sort_keys
All-sort_keys P [] h = tt
All-sort_keys P (x ∷ xs) h = All-insert_key P x (sort_keys xs) h.0 (All-sort_keys P xs h.1)

In-insert_key : (j k : Text) (xs : List Text) → In j (k ∷ xs) → In j (insert_key k xs)
unfolding insert_key
In-insert_key j k [] i = i
In-insert_key j k (x ∷ xs) i = elim (insert_key-cases k x xs) [
  | inl e ↦ subst (In j) (sym e) i
  | inr e ↦ subst (In j) (sym e) (elim i [
    | inl same ↦ inr (In-insert_key j k xs (inl same))
    | inr r ↦ elim r [ inl same ↦ inl same | inr s ↦ inr (In-insert_key j k xs (inr s)) ]
  ])
]

pub In-sort_keys : (j : Text) (xs : List Text) → In j xs → In j (sort_keys xs)
unfolding sort_keys
In-sort_keys j [] i = absurd i
In-sort_keys j (x ∷ xs) (inl e) = In-insert_key j x (sort_keys xs) (inl e)
In-sort_keys j (x ∷ xs) (inr i) = In-insert_key j x (sort_keys xs) (inr (In-sort_keys j xs i))
