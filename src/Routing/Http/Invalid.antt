-- ===== src/Routing/Http/Invalid.antt =====
-- `preprocessHTTPRoutes` where a route has an invalid hostname.
use resource_model.Base.{
  ◌≡◌, refl, subst, inl, inr, Bool, false, List, [], ◌∷◌, Option, none, arith, In, Text,
}
use resource_model.Routing.Rules.{LongSort}
use resource_model.Routing.Hosts.{compute_hosts, is_valid_hostname}
use resource_model.Routing.Hosts.Computed.{compute_hosts_lem}
use resource_model.Routing.Http.{HttpRoute, explicit, explicit_all, preprocess_http_routes}

module _ (is_ip is_wildcard_subdomain is_subdomain : Text → Bool) (raw : Option Text) (h : Text)
    (invalid : is_valid_hostname is_ip is_wildcard_subdomain is_subdomain h ≡ false) where
  has_error :
      (hostnames : List Text)
      → In h hostnames
      → In h (compute_hosts is_ip is_wildcard_subdomain is_subdomain hostnames raw).1
  has_error [] i = absurd i
  has_error (first ∷ rest) i =
      (compute_hosts_lem is_ip is_wildcard_subdomain is_subdomain first rest raw h).1.1 (i, invalid)

  module _ {F B : Type 0} where
    explicit-none :
        (route : HttpRoute F B)
        → In h route.hostnames
        → explicit is_ip is_wildcard_subdomain is_subdomain raw route ≡ none
    unfolding explicit
    explicit-none route i = ground (arith, has_error route.hostnames i)

    explicit_all-none :
        (route : HttpRoute F B) (raws : List (HttpRoute F B))
        → In route raws
        → In h route.hostnames
        → explicit_all is_ip is_wildcard_subdomain is_subdomain raw raws ≡ none
    unfolding explicit_all
    explicit_all-none route [] i ih = absurd i
    explicit_all-none route (r ∷ raws) (inl same) ih =
        ground (arith, explicit-none r (subst (λ r. In h r.hostnames) same ih))
    explicit_all-none route (r ∷ raws) (inr later) ih =
        ground (arith, explicit_all-none route raws later ih)

    -- Where some route has an invalid hostname, `preprocessHTTPRoutes` panics.
    pub preprocess_http_routes_invalid :
        (filter_dec : Discrete F) (sort_long : LongSort F B) (route : HttpRoute F B)
        (raws : List (HttpRoute F B))
        → In route raws
        → In h route.hostnames
        → preprocess_http_routes filter_dec sort_long is_ip is_wildcard_subdomain is_subdomain raw
            raws
          ≡ none
    unfolding preprocess_http_routes
    preprocess_http_routes_invalid filter_dec sort_long route raws i ih =
        rw (preprocess_http_routes, explicit_all-none route raws i ih) refl
