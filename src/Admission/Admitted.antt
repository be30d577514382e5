-- ===== src/Admission/Admitted.antt =====
-- What `Default` and `ValidateCreate` of a proxy promise together.
use resource_model.Base.{
  ℕ, ◌≡◌, ◌≢◌, ◌<◌, refl, inl, inr, [], Option, none, some, arith, Text, Result, ok, err,
  Result-cases,
}
use resource_model.Allocator.Ip.{Ip}
use resource_model.Allocator.Allocations.{Allocator}
use resource_model.Allocator.Allocations.Exclusive.{IsSound}
use resource_model.Admission.{GwProxy, ServiceGroup, namespaced, default_proxy}
use resource_model.Admission.Addresses.{HoldsAddress, default_proxy-HoldsAddress}
use resource_model.Admission.Validation.{Error, validate_create_proxy}

-- The group and its account are found, and the namespace has fewer proxies than the account allows.
abbrev pub IsAllowed :
    Result Error ServiceGroup → (ServiceGroup → Result Error ℕ) → Result Error ℕ → Type 0
IsAllowed found account proxies =
    (sg : ServiceGroup) × (limit : ℕ) × (items : ℕ) × (found ≡ ok sg)
    × (account sg ≡ ok limit)
    × (proxies ≡ ok items)
    × (items < limit)

pub validate_create_proxy-IsAllowed :
    (found : Result Error ServiceGroup) (account : ServiceGroup → Result Error ℕ)
    (proxies : Result Error ℕ) (r : GwProxy)
    → validate_create_proxy found account proxies r ≡ none
    → (r.public_address ≢ []) × IsAllowed found account proxies
unfolding validate_create_proxy
validate_create_proxy-IsAllowed (err x) account proxies r e = absurd (ground arith)
validate_create_proxy-IsAllowed (ok sg) account proxies r e = elim (Result-cases (account sg)) [
  | inr (x, h) ↦ absurd (ground arith)
  | inl (limit, h) ↦ elim (Result-cases proxies) [
    | inr (x, k) ↦ absurd (ground arith)
    | inl (items, k) ↦ (ground arith, (sg, limit, items, refl, h, k, ground arith))
  ]
]

-- A proxy that was created without an address and passes `Default` and `ValidateCreate` has an
-- address that the allocator handed out to it under its name, and the allocator is sound again, if
-- it was. Its group and account are found, and the namespace has fewer proxies than the account
-- allows.
pub admitted_lem :
    (show : Ip → Text) (dns_name : Text → Option Text) (fuel : ℕ) (group : Option ServiceGroup)
    (found : Result Error ServiceGroup) (account : ServiceGroup → Result Error ℕ)
    (proxies : Result Error ℕ) (r r' : GwProxy) (a b : Allocator)
    → IsSound a
    → r.public_address ≡ []
    → default_proxy show dns_name fuel group r a ≡ some (r', b)
    → validate_create_proxy found account proxies r' ≡ none
    → IsSound b
      × HoldsAddress show dns_name fuel b (namespaced r.namespace r.name) r'.public_address
      × IsAllowed found account proxies
admitted_lem show dns_name fuel group found account proxies r r' a b sound empty done valid =
    let (filled, allowed) = validate_create_proxy-IsAllowed found account proxies r' valid in
    let (sound', address) =
      default_proxy-HoldsAddress show dns_name fuel group r r' a b sound empty done in
    elim address [
      | inl still_empty ↦ absurd (filled still_empty)
      | inr held ↦ (sound', held, allowed)
    ]
