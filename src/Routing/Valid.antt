-- ===== src/Routing/Valid.antt =====
-- Where a query can go: only to routes that were checked, and only to those that reachableRoutes
-- lists for the block.
use coredns_nextdns.Prelude.{
  ◌≡◌, inl, inr, List, [], ◌∷◌, true, Option, none, some, All, arith, Option-cases,
}
use coredns_nextdns.Prelude.Text.{Text, text_discrete}
use coredns_nextdns.Prelude.Dict
use coredns_nextdns.Prelude.Dict.{Dict}
use coredns_nextdns.Cache.Key.{LacksNul}
use coredns_nextdns.Addr.{Addr, client_addr}
use coredns_nextdns.Device.Name.{is_alnum}
use coredns_nextdns.Routing.{
  ClientProfile, Routes, Asked, passthrough, all_bytes, valid_profile, valid_route, first_match,
  view_profile, metadata_profile, client_profile, profile_for,
}

abbrev pub IsRoute : Text → Type 0
IsRoute p = valid_route p ≡ true

-- A configuration that setup has checked.
pub record IsChecked (n : Routes) : Type 0 where
  pub default : valid_profile n.profile ≡ true
  pub views : All (λ v. IsRoute v.1) n.view_profiles
  pub clients : All (λ cp. IsRoute cp.profile) n.client_profiles

first_match-IsRoute :
    (ip : Addr) (l : List ClientProfile) (cp : ClientProfile)
    → All (λ x. IsRoute x.profile) l
    → first_match ip l ≡ some cp
    → IsRoute cp.profile
unfolding first_match
first_match-IsRoute ip [] cp h e = absurd (ground arith)
first_match-IsRoute ip (x ∷ l) cp h e = ground (arith, h.0, first_match-IsRoute ip l cp h.1)

metadata_profile-IsRoute : (m : Option Text) (p : Text) → metadata_profile m ≡ some p → IsRoute p
unfolding metadata_profile
metadata_profile-IsRoute none p h = absurd (ground arith)
metadata_profile-IsRoute (some x) p h = ground arith

view_profile-IsRoute :
    (n : Routes) (v p : Text) → IsChecked n → view_profile n v ≡ some p → IsRoute p
unfolding view_profile
view_profile-IsRoute n v p h e =
    let found : Dict.get text_discrete v n.view_profiles ≡ some p = ground (arith, e) in
    Dict.get-All text_discrete (λ x. IsRoute x.1) v n.view_profiles h.views found

client_profile-IsRoute :
    (parse_addr : Text → Option Addr) (n : Routes) (ip p : Text)
    → IsChecked n
    → client_profile parse_addr n ip ≡ some p
    → IsRoute p
unfolding client_profile
client_profile-IsRoute parse_addr n ip p h e = elim (Option-cases (client_addr parse_addr ip)) [
  | inl bad ↦ absurd (ground arith)
  | inr (a, good) ↦ elim (Option-cases (first_match a n.client_profiles)) [
    | inl miss ↦ absurd (ground arith)
    | inr (cp, found) ↦ ground (arith, first_match-IsRoute a n.client_profiles cp h.clients found)
  ]
]

valid_profile-IsRoute : (p : Text) → valid_profile p ≡ true → IsRoute p
unfolding valid_route
valid_profile-IsRoute p h = ground arith

-- With a checked configuration every query is sent to a valid route, whatever another plugin has
-- put into the metadata label: a value that is no valid route never gets through.
pub profile_for-IsRoute :
    (parse_addr : Text → Option Addr) (n : Routes) (q : Asked)
    → IsChecked n
    → IsRoute (profile_for parse_addr n q)
unfolding profile_for
profile_for-IsRoute parse_addr n q h = ground (
  arith,
  metadata_profile-IsRoute q.metadata (profile_for parse_addr n q),
  view_profile-IsRoute n q.view (profile_for parse_addr n q) h,
  client_profile-IsRoute parse_addr n q.ip (profile_for parse_addr n q) h,
  valid_profile-IsRoute n.profile h.default,
)

-- A valid route has no NUL byte, so that it can be told from the question in a cache key.
all_bytes-LacksNul : (t : Text) → all_bytes is_alnum t ≡ true → LacksNul t
unfolding all_bytes is_alnum
all_bytes-LacksNul [] h = tt
all_bytes-LacksNul (c ∷ t) h = (ground arith, all_bytes-LacksNul t (ground arith))

pub IsRoute-LacksNul : (p : Text) → IsRoute p → LacksNul p
unfolding valid_route valid_profile
IsRoute-LacksNul p h = elim (text_discrete p passthrough) [
  | yes e ↦ rw e (λ z. omega arith, tt)
  | no ne ↦ all_bytes-LacksNul p (ground arith)
]
