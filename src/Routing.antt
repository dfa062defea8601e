-- ===== src/Routing.antt =====
-- Which profile a query is resolved under: profileFor and reachableRoutes of nextdns.go, with the
-- checks of profile IDs, parsePrefix and the order of the client subnets from setup.go.
pub mod Longest
pub mod Valid
pub mod Reachable
pub mod Warnings
pub mod Prefixes
pub mod Leaks
use coredns_nextdns.Prelude.{
  ◌-◌, ℕ, suc, ◌+◌, ◌≤◌, ◌≡◌, List, [], ◌∷◌, ◌++◌, Bool, true, false, not, ◌&&◌, ◌||◌, Option, none,
  some, length, leb, ltb, if◌then◌else◌, is_some,
}
use coredns_nextdns.Prelude.Text.{Text, codes, text_eq, is_empty, text_discrete}
use coredns_nextdns.Prelude.Dict
use coredns_nextdns.Prelude.Dict.{Dict}
use coredns_nextdns.Addr.{Addr, Prefix, contains, prefix_from, unmap, masked, bit_len, client_addr}
use coredns_nextdns.Device.Name.{is_alnum, max_name_len}

-- clientProfile
pub record ClientProfile : Type 0 where
  pub prefix : Prefix
  pub profile : Text

-- The fields of NextDNS that routing reads.
pub record Routes : Type 0 where
  pub profile : Text
  pub view_profiles : Dict Text Text
  pub client_profiles : List ClientProfile

-- passthrough: "-", hand the query to the next plugin
abbrev pub passthrough : Text
passthrough = codes "-"

unfoldable pub all_bytes : (ℕ → Bool) → Text → Bool
all_bytes ok [] = true
all_bytes ok (c ∷ t) = ok c && all_bytes ok t

-- validProfile: ^[A-Za-z0-9]{4,64}$
unfoldable pub valid_profile : Text → Bool
valid_profile p = leb 4 (length p) && (leb (length p) 64 && all_bytes is_alnum p)

-- validRoute
unfoldable pub valid_route : Text → Bool
valid_route p = text_eq p passthrough || valid_profile p

-- validDeviceModel: 1 to 63 bytes of printable ASCII
unfoldable pub valid_device_model : Text → Bool
valid_device_model m =
    not (is_empty m) && (leb (length m) max_name_len && all_bytes (λ c. leb 0x20 c && leb c 0x7e) m)

-- The loop over the client subnets: the first one that contains the address.
unfoldable pub first_match : Addr → List ClientProfile → Option ClientProfile
first_match ip [] = none
first_match ip (cp ∷ rest) = if contains cp.prefix ip then some cp else first_match ip rest

-- sort.SliceStable by falling Bits, as insertion from the right.
unfoldable pub insert_longest : ClientProfile → List ClientProfile → List ClientProfile
insert_longest cp [] = cp ∷ []
insert_longest cp (x ∷ rest) =
    if ltb cp.prefix.bits_plus_one x.prefix.bits_plus_one
    then x ∷ insert_longest cp rest
    else cp ∷ x ∷ rest

unfoldable pub sort_longest : List ClientProfile → List ClientProfile
sort_longest [] = []
sort_longest (cp ∷ rest) = insert_longest cp (sort_longest rest)

-- What a query brings to the choice: the value of the metadata label (if another plugin has set
-- the label), the view's name, empty for none, and the client's address as text.
pub record Asked : Type 0 where
  pub metadata : Option Text
  pub view : Text
  pub ip : Text

-- The view's profile, if the view has one.
unfoldable pub view_profile : Routes → Text → Option Text
view_profile n view = if is_empty view then none else Dict.get text_discrete view n.view_profiles

-- The metadata value that overrides, if there is one and it is a valid route.
unfoldable pub metadata_profile : Option Text → Option Text
metadata_profile none = none
metadata_profile (some p) = if is_empty p then none else if valid_route p then some p else none

-- Whether the metadata value is counted as invalid.
unfoldable pub is_rejected : Option Text → Bool
is_rejected none = false
is_rejected (some p) = not (is_empty p) && not (valid_route p)

module _ (parse_addr : Text → Option Addr) where
  unfoldable pub client_profile : Routes → Text → Option Text
  client_profile n ip = elim (client_addr parse_addr ip) [
    | none ↦ none
    | some a ↦ elim (first_match a n.client_profiles) [ none ↦ none | some cp ↦ some cp.profile ]
  ]

  -- profileFor: metadata, then view, then client subnet, then the default.
  unfoldable pub profile_for : Routes → Asked → Text
  profile_for n q = elim (metadata_profile q.metadata) [
    | some p ↦ p
    | none ↦ elim (view_profile n q.view) [
      | some p ↦ p
      | none ↦ elim (client_profile n q.ip) [ some p ↦ p | none ↦ n.profile ]
    ]
  ]

-- invalidProfileCount, and the warning that badProfile lets through once per instance.
pub record BadProfiles : Type 0 where
  pub count : ℕ
  pub warned : Bool
  pub warnings : ℕ

unfoldable pub note_metadata : BadProfiles → Option Text → BadProfiles
note_metadata b m =
    if is_rejected m
    then record {
      count = b.count + 1;
      warned = true;
      warnings = if b.warned then b.warnings else b.warnings + 1;
    }
    else b

unfoldable pub has : List Text → Text → Bool
has [] p = false
has (x ∷ xs) p = text_eq x p || has xs p

-- add of reachableRoutes: `seen` is the list so far.
unfoldable pub add_route : List Text → Text → List Text
add_route out p = if is_empty p || has out p then out else out ++ p ∷ []

unfoldable pub add_routes : List Text → List ClientProfile → List Text
add_routes out [] = out
add_routes out (cp ∷ rest) = add_routes (add_route out cp.profile) rest

unfoldable pub reachable_routes : Routes → Text → List Text
reachable_routes n view = elim (view_profile n view) [
  | some p ↦ p ∷ []
  | none ↦ add_routes (add_route [] n.profile) n.client_profiles
]

-- parsePrefix: a CIDR, or a bare address as a host route. Both parsers of netip are parameters;
-- what the first returns is valid.
unfoldable pub parse_prefix : (Text → Option Prefix) → (Text → Option Addr) → Text → Option Prefix
parse_prefix parse_cidr parse_addr s = elim (parse_cidr s) [
  | some p ↦ some (masked (prefix_from (unmap p.addr) (p.bits_plus_one - 1)))
  | none ↦ elim (parse_addr s) [
    | none ↦ none
    | some a ↦ some (prefix_from (unmap a) (bit_len (unmap a)))
  ]
]
