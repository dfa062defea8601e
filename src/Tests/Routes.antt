-- ===== src/Tests/Routes.antt =====
-- Runs of the routing.
use coredns_nextdns.Prelude.{
  ◌+◌, ◌^◌, true, ℕ_discrete, ◌*◌, false, Option, if◌then◌else◌, ◌≡◌, ◌≢◌, refl, List, [], ◌∷◌,
  none, some, arith,
}
use coredns_nextdns.Prelude.Text.{text_eq, Text, codes, text_discrete}
use coredns_nextdns.Prelude.Dict
use coredns_nextdns.Addr.{Addr, Prefix, v6, is_4in6, v4, contains, unmap, with_zone, client_addr}
use coredns_nextdns.Routing.Prefixes.{parse_prefix_mapped}
use coredns_nextdns.Routing.{
  has, add_routes, add_route, parse_prefix, ClientProfile, Routes, Asked, metadata_profile,
  profile_for, reachable_routes, first_match, sort_longest, valid_profile, valid_route,
  view_profile, client_profile, all_bytes,
}
use coredns_nextdns.Device.Name.{is_alnum}
use coredns_nextdns.Routing.Leaks.{leak_warning, leak_warning_lem}
use coredns_nextdns.Routing.Valid.{IsRoute, IsChecked, profile_for-IsRoute}
use coredns_nextdns.Tests.Data.{alice, home, parse_addr}

program : Unit {0}
unfolding contains unmap with_zone client_addr metadata_profile profile_for first_match sort_longest
    valid_profile valid_route view_profile client_profile is_alnum Dict.get text_discrete all_bytes
program = tt

-- 192.0.2.0/24 and 192.0.2.7/32
abbrev subnets : List ClientProfile
subnets =
    record {
      prefix = record { addr = v4 3221225984; bits_plus_one = 25 };
      profile = codes "subnet";
    }
    ∷ record { prefix = record { addr = alice; bits_plus_one = 33 }; profile = codes "alice1" }
    ∷ []

abbrev routes : Routes
routes = record { profile = home; view_profiles = []; client_profiles = subnets }

abbrev from_alice : Asked
from_alice = record { metadata = some (codes "no!"); view = []; ip = codes "192.0.2.7" }

routes-IsChecked : IsChecked routes
unfolding program
routes-IsChecked = record { default = refl; views = tt; clients = (refl, (refl, tt)) }

profile_for-IsRoute_example : IsRoute (profile_for parse_addr routes from_alice)
profile_for-IsRoute_example = profile_for-IsRoute parse_addr routes from_alice routes-IsChecked

no_override : metadata_profile from_alice.metadata ≡ none
unfolding program
no_override = refl

answered : profile_for parse_addr routes from_alice ≢ []
unfolding program
answered e = ground (arith, e)

abbrev values : List (Option Text)
values = some (codes "no!") ∷ some home ∷ none ∷ some (codes "x") ∷ []

-- ::ffff:192.0.2.0/120
abbrev mapped : Prefix
mapped = record { addr = v6 (0xFFFF * 2 ^ 32 + 3221225984) []; bits_plus_one = 121 }

abbrev parse_cidr : Text → Option Prefix
parse_cidr t = if text_eq t (codes "alice") then none else some mapped

mapped_4in6 : is_4in6 (0xFFFF * 2 ^ 32 + 3221225984) ≡ true
unfolding is_4in6
mapped_4in6 = refl

cidr_mapped : parse_cidr (codes "::ffff:192.0.2.0/120") ≡ some mapped
unfolding text_discrete ℕ_discrete
cidr_mapped = refl

parse_prefix_mapped_example :
    (q : Prefix) × (parse_prefix parse_cidr parse_addr (codes "::ffff:192.0.2.0/120") ≡ some q)
    × ((a : Addr) → contains q a ≡ false)
parse_prefix_mapped_example =
    parse_prefix_mapped parse_cidr parse_addr (codes "::ffff:192.0.2.0/120") mapped
      (0xFFFF * 2 ^ 32 + 3221225984) [] cidr_mapped refl mapped_4in6 (omega arith)

no_cidr : parse_cidr (codes "alice") ≡ none
unfolding text_discrete ℕ_discrete
no_cidr = refl

abbrev single : Routes
single = record { profile = home; view_profiles = []; client_profiles = [] }

single-IsChecked : IsChecked single
unfolding program
single-IsChecked = record { default = refl; views = tt; clients = tt }

abbrev from : Text → Asked
from ip = record { metadata = none; view = []; ip = ip }

unwarned_block : leak_warning single [] true ≡ false
unfolding leak_warning reachable_routes view_profile add_route add_routes has
unwarned_block = refl

no_metadata : metadata_profile none ≡ none
unfolding metadata_profile
no_metadata = refl

leak_warning_lem_example :
    profile_for parse_addr single (from (codes "a"))
    ≡ profile_for parse_addr single (from (codes "b"))
leak_warning_lem_example =
    leak_warning_lem parse_addr single (from (codes "a")) (from (codes "b")) single-IsChecked
      unwarned_block refl no_metadata no_metadata
