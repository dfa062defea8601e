-- ===== src/Tests/Setup.antt =====
-- Runs of the configuration parser.
use coredns_nextdns.Prelude.{
  ◌≡◌, ◌≢◌, inl, inr, refl, [], ◌∷◌, ◌++◌, Bool, true, false, none, some, arith, Any, ℕ_discrete,
}
use coredns_nextdns.Prelude.Text.{codes, text_discrete}
use coredns_nextdns.Prelude.Int.{pos}
use coredns_nextdns.Prelude.Fields.{
  split, has_byte, before_byte, after_byte, trim_space, trim_suffix,
}
use coredns_nextdns.Prelude.Result.{Result, ok, err, fold_steps}
use coredns_nextdns.Prelude.Dict
use coredns_nextdns.Device.{parse_id_mode}
use coredns_nextdns.Device.Lookup.{no_client}
use coredns_nextdns.Device.Name.{is_alnum}
use coredns_nextdns.Discovery.{new_discoverer}
use coredns_nextdns.Doh.{Endpoint}
use coredns_nextdns.Doh.Setup.{
  apply_bootstrap, with_bootstrap, parse_addresses, parse_bootstrap, parse_spec, parse_endpoint,
  build_endpoints, fill_bootstrap, new_doh_client,
}
use coredns_nextdns.Doh.Request.{new_request}
use coredns_nextdns.Routing.{
  first_match, Asked, profile_for, passthrough, valid_profile, valid_route, all_bytes, has,
  parse_prefix, metadata_profile,
}
use coredns_nextdns.Routing.Valid.{IsRoute}
use coredns_nextdns.Config.{Parsers, Block, new_settings}
use coredns_nextdns.Config.Property.{
  next_arg, some_args, two_args, parse_duration, positive_duration, parse_positive_int, set_profile,
  set_view_profile, set_client_profile, add_endpoints, add_bootstrap, set_tls_server_name,
  set_timeout, set_max_idle_conns, set_max_concurrent, set_cache, set_cache_ttl, set_device_id,
  set_device_model, set_device_ip, add_device_name, add_device_names, host_ports, which_resolver,
  set_discovery, set_discovery_ttl, set_discovery_retry, set_discovery_wait, set_discovery_timeout,
  set_discovery_max, set_arp, set_reload,
}
use coredns_nextdns.Config.Parse.{
  Configured, properties, set_property, line_properties, read_line, read_args, read_block,
  read_blocks, is_tuned, tune_discoverer, tune, has_source, make_cache, configured, finish,
  parse_nextdns,
}
use coredns_nextdns.Config.Usable.{IsUsable}
use coredns_nextdns.Config.Accepted.{parse_nextdns-IsUsable, profile_for-parse_nextdns}
use coredns_nextdns.Config.Refused.{IsUnknown}
use coredns_nextdns.Config.Switches.{IsMatched, parse_nextdns-IsMatched}
use coredns_nextdns.Config.Subnets.{first_match-parse_nextdns}
use coredns_nextdns.Config.Subnets.Lines.{flat_map, subnets_of_line}
use coredns_nextdns.Routing.Longest.{best}
use coredns_nextdns.Config.Requests.{before_query, split-url}
use coredns_nextdns.Tests.Data.{alice, home, parse_addr}

abbrev parsers : Parsers
parsers = record {
  atoi = λ t. some (pos 5);
  parse_bool = λ t. some true;
  parse_duration = λ t. some (pos 10_000_000_000);
  parse_cidr = λ t. none;
  parse_addr = parse_addr;
  host_port = λ t. some t;
  is_ip = λ t. true;
  parse_url = λ t. some (record {
    scheme = codes "https";
    host = codes "dns.nextdns.io";
    hostname = codes "dns.nextdns.io";
    text = t;
  });
}

abbrev block : Block
block = record {
  args = home ∷ [];
  lines =
      (codes "cache" ∷ codes "5" ∷ [])
      ∷ (codes "cache_ttl" ∷ codes "10s" ∷ codes "10s" ∷ [])
      ∷ (codes "client_profile" ∷ codes "192.0.2.7" ∷ codes "-" ∷ [])
      ∷ (codes "timeout" ∷ codes "10s" ∷ codes "discovery" ∷ codes "internal" ∷ [])
      ∷ (codes "discovery_max" ∷ codes "5" ∷ codes "arp" ∷ [])
      ∷ (codes "reload" ∷ codes "10s" ∷ [])
      ∷ (codes "device_id" ∷ codes "mac" ∷ [])
      ∷ [];
}

abbrev is_ok : {E A : Type 0} → Result E A → Bool
is_ok (ok a) = true
is_ok (err e) = false

value_of_ok : {E A : Type 0} (r : Result E A) → is_ok r ≡ true → (a : A) × (r ≡ ok a)
value_of_ok (ok a) h = (a, refl)
value_of_ok (err e) h = cc

program : Unit {0}
unfolding next_arg some_args two_args parse_duration positive_duration parse_positive_int
    set_profile set_view_profile set_client_profile add_endpoints add_bootstrap set_tls_server_name
    set_timeout set_max_idle_conns set_max_concurrent set_cache set_cache_ttl set_device_id
    set_device_model set_device_ip add_device_name add_device_names host_ports which_resolver
    set_discovery set_discovery_ttl set_discovery_retry set_discovery_wait set_discovery_timeout
    set_discovery_max set_arp set_reload properties set_property line_properties read_line read_args
    read_block read_blocks is_tuned tune_discoverer tune has_source make_cache configured finish
    parse_nextdns new_settings apply_bootstrap with_bootstrap parse_addresses parse_bootstrap
    parse_spec parse_endpoint build_endpoints fill_bootstrap new_doh_client split has_byte
    before_byte after_byte trim_space trim_suffix fold_steps parse_id_mode is_alnum new_discoverer
    valid_profile valid_route all_bytes has parse_prefix metadata_profile profile_for Dict.get
    Dict.put text_discrete ℕ_discrete
program = tt

accepted_ok : is_ok (parse_nextdns parsers (block ∷ [])) ≡ true
unfolding program
accepted_ok = refl

accepted : (c : Configured) × (parse_nextdns parsers (block ∷ []) ≡ ok c)
accepted = value_of_ok (parse_nextdns parsers (block ∷ [])) accepted_ok

parse_nextdns-IsUsable_example : IsUsable accepted.0
parse_nextdns-IsUsable_example = parse_nextdns-IsUsable parsers (block ∷ []) accepted.0 accepted.1

abbrev overridden : Asked
overridden = record { metadata = some home; view = []; ip = codes "192.0.2.7" }

profile_for-parse_nextdns_example :
    IsRoute (profile_for parse_addr accepted.0.handler.routes overridden)
profile_for-parse_nextdns_example =
    profile_for-parse_nextdns parsers (block ∷ []) accepted.0 overridden accepted.1

overridden-home : profile_for parse_addr accepted.0.handler.routes overridden ≡ home
unfolding program
overridden-home = refl

not_handed_on : profile_for parse_addr accepted.0.handler.routes overridden ≢ passthrough
not_handed_on e = absurd (ground (arith, overridden-home, e))

abbrev far : Endpoint
far = record { base = codes "https://far"; host = codes "far"; bootstrap = []; next = 0 }

far-plain : (has_byte b'?' far.base ≡ false) × (has_byte b'#' far.base ≡ false)
unfolding has_byte
far-plain = (refl, refl)

split-url_example :
    let profile = profile_for parse_addr accepted.0.handler.routes overridden in
    let url = (new_request far profile (codes "wire") no_client).url in
    (before_query url ≡ url)
    × (split b'/' (before_query url) ≡ split b'/' (before_query far.base) ++ profile ∷ [])
split-url_example =
    split-url parsers (block ∷ []) accepted.0 overridden (codes "wire") far no_client accepted.1
      not_handed_on far-plain.0 far-plain.1

-- A property that is not known, behind one that reads a single argument.
abbrev misspelt : Block
misspelt = record {
  args = home ∷ [];
  lines = (codes "timeout" ∷ codes "5s" ∷ codes "cahce" ∷ []) ∷ [];
}

misspelt-IsUnknown : Any (λ line. Any (IsUnknown parsers) (line_properties line)) misspelt.lines
unfolding program
misspelt-IsUnknown = inl (inr (inl refl))

parse_nextdns-IsMatched_example : IsMatched block accepted.0
parse_nextdns-IsMatched_example = parse_nextdns-IsMatched parsers block accepted.0 accepted.1

first_match-parse_nextdns_example :
    first_match alice accepted.0.handler.routes.client_profiles
    ≡ best alice (flat_map (subnets_of_line parsers) block.lines)
first_match-parse_nextdns_example =
    first_match-parse_nextdns parsers block accepted.0 alice accepted.1
