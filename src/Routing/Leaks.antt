-- ===== src/Routing/Leaks.antt =====
-- The warning of setup.go about the cache plugin, which keys on the question alone.
use coredns_nextdns.Prelude.{
  subst, ◌≡◌, ◌≢◌, ◌≤◌, List, [], ◌∷◌, Bool, true, false, ◌&&◌, Option, none, ltb, length, arith,
}
use coredns_nextdns.Prelude.Text.{Text}
use coredns_nextdns.Addr.{Addr}
use coredns_nextdns.Routing.{Routes, Asked, metadata_profile, profile_for, reachable_routes}
use coredns_nextdns.Routing.{valid_route, valid_profile}
use coredns_nextdns.Prelude.Text.{text_discrete}
use coredns_nextdns.Routing.Valid.{IsRoute, IsChecked, profile_for-IsRoute}
use coredns_nextdns.Routing.Reachable.{IsAmong, profile_for-reachable}

-- Whether a block is warned of: `has_cache` is whether it loads the cache plugin.
unfoldable pub leak_warning : Routes → Text → Bool → Bool
leak_warning n view has_cache = ltb 1 (length (reachable_routes n view)) && has_cache

IsRoute-nonempty : (p : Text) → IsRoute p → p ≢ []
unfolding valid_route valid_profile text_discrete
IsRoute-nonempty p r e = absurd (ground (arith, subst IsRoute e r))

only_one : (l : List Text) (p q : Text) → length l ≤ 1 → IsAmong p l → IsAmong q l → p ≡ q
only_one [] p q short a b = absurd a
only_one (x ∷ []) p q short a b = ground (arith, a, b)
only_one (x ∷ y ∷ l) p q short a b = absurd (ground (arith, short))

-- A block with the cache plugin and a checked configuration that is not warned of answers all queries of its view in one way:
-- any two queries whose profile no metadata overrides are sent to the same profile, whoever asks,
-- so that the cache plugin cannot give one client the answer of another profile.
pub leak_warning_lem :
    (parse_addr : Text → Option Addr) (n : Routes) (a b : Asked)
    → IsChecked n
    → leak_warning n a.view true ≡ false
    → b.view ≡ a.view
    → metadata_profile a.metadata ≡ none
    → metadata_profile b.metadata ≡ none
    → profile_for parse_addr n a ≡ profile_for parse_addr n b
unfolding leak_warning
leak_warning_lem parse_addr n a b checked quiet same ma mb =
    let pa =
      IsRoute-nonempty (profile_for parse_addr n a) (profile_for-IsRoute parse_addr n a checked) in
    let pb =
      IsRoute-nonempty (profile_for parse_addr n b) (profile_for-IsRoute parse_addr n b checked) in
    let short : length (reachable_routes n a.view) ≤ 1 = ground (arith, quiet) in
    let first = (profile_for-reachable parse_addr n a ma pa).0 in
    let second =
      subst (λ v. IsAmong (profile_for parse_addr n b) (reachable_routes n v)) same
        (profile_for-reachable parse_addr n b mb pb).0 in
    only_one (reachable_routes n a.view) (profile_for parse_addr n a) (profile_for parse_addr n b)
      short first second
