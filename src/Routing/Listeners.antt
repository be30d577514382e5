-- ===== src/Routing/Listeners.antt =====
-- internal/envoy/resource.go: which routes belong to a listener of a gateway, and the listeners
-- that are combined into one.
pub mod Collapsing
pub mod Collapsed
use resource_model.Base.{
  ℕ, Bool, true, false, ◌&&◌, ◌||◌, List, [], ◌∷◌, ◌++◌, Option, none, some, Text, text, text_dec,
  ℕ_discrete, if◌then◌else◌, ◌==◌, ltb, ite, length,
}
use resource_model.GoMap.{GoMap, keys, lookup, insert}

-- `Listener`, which is a map key here. A pointer field is compared as a pointer, so it is the
-- address with what stands there.
pub record Listener : Type 0 where
  pub name : Text
  pub hostname : Option (ℕ × Text)
  pub port : ℕ
  pub protocol : Text
  pub tls : Option ℕ
  pub allowed_routes : Option ℕ

unfoldable pub listener_dec : Discrete Listener
unfolding text_dec ℕ_discrete
listener_dec = hlevel (text_dec, ℕ_discrete)

abbrev pub https : Text
https = text "HTTPS"

abbrev pub tls_protocol : Text
tls_protocol = text "TLS"

-- `p == HTTPSProtocolType || p == TLSProtocolType`
abbrev is_secure : Text → Bool
is_secure p = ite (text_dec p https) true (ite (text_dec p tls_protocol) true false)

unfoldable pub compatible_listeners : Listener → Listener → Bool
compatible_listeners l1 l2 =
    ite (ℕ_discrete l1.port l2.port)
      (ite (text_dec l1.protocol l2.protocol) true
        (if is_secure l1.protocol && is_secure l2.protocol then true else false))
      false

module _ {R : Type 0} where
  -- The inner loop of `collapse` over the listeners that were collapsed when it began. It only adds
  -- the listener that it compares with them, and skips it, so it does not matter whether Go's loop
  -- visits an entry that it adds.
  unfoldable pub compare_with :
      Listener → List R → List Listener → GoMap Listener (List R) → GoMap Listener (List R)
  compare_with l1 r1 [] collapsed = collapsed
  compare_with l1 r1 (l2 ∷ others) collapsed = compare_with l1 r1 others (
      ite (listener_dec l1 l2) collapsed (
        if compatible_listeners l1 l2
        then (elim (lookup listener_dec l2 collapsed) [
          | none ↦ insert listener_dec l2 r1 collapsed
          | some r2 ↦ insert listener_dec l2 (r2 ++ r1) collapsed
        ])
        else insert listener_dec l1 r1 collapsed))

  -- The loop of `collapse`, in the order of the map.
  unfoldable pub collapse_loop :
      GoMap Listener (List R) → GoMap Listener (List R) → GoMap Listener (List R)
  collapse_loop [] collapsed = collapsed
  collapse_loop ((l1, r1) ∷ listeners) [] = collapse_loop listeners ((l1, r1) ∷ [])
  collapse_loop ((l1, r1) ∷ listeners) (e ∷ es) =
      collapse_loop listeners (compare_with l1 r1 (keys (e ∷ es)) (e ∷ es))

  unfoldable pub collapse : GoMap Listener (List R) → GoMap Listener (List R)
  collapse listeners = if ltb 1 (length listeners) then collapse_loop listeners [] else listeners

-- `ParentReference`: `none` is a nil section name.
pub record ParentRef : Type 0 where
  pub name : Text
  pub section_name : Option Text

unfoldable pub refers_to_section : List ParentRef → Listener → Bool
refers_to_section [] listener = false
refers_to_section (ref ∷ refs) listener =
    let rest = refers_to_section refs listener in
    elim ref.section_name [
      | none ↦ true
      | some section ↦ ite (text_dec section listener.name) true rest
    ]

module _ {R : Type 0} (parents : R → List ParentRef) where
  unfoldable pub filter_referent_routes : Listener → List R → List R
  filter_referent_routes listener [] = []
  filter_referent_routes listener (route ∷ routes) =
      let rest = filter_referent_routes listener routes in
      if refers_to_section (parents route) listener then route ∷ rest else rest
