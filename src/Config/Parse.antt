-- ===== src/Config/Parse.antt =====
-- parseNextDNS: the switch over the properties, the loops over the block, and what is done at its
-- end.
use coredns_nextdns.Prelude.{
  ℕ, ◌==◌, List, [], ◌∷◌, Bool, true, false, not, Option, none, some, ◌&&◌, ◌||◌, is_some,
  if◌then◌else◌, length,
}
use coredns_nextdns.Prelude.Text.{Text, codes, is_empty, text_discrete}
use coredns_nextdns.Prelude.Result.{Result, ok, err, ◌>>=◌, check, map_err, fold_steps}
use coredns_nextdns.Prelude.Dict
use coredns_nextdns.Prelude.Dict.{Dict}
use coredns_nextdns.Cache.{MsgCache, new_msg_cache}
use coredns_nextdns.Device.{IdMode, id_mac}
use coredns_nextdns.Discovery.{Discoverer}
use coredns_nextdns.Doh.{DohClient}
use coredns_nextdns.Doh.Setup.{HttpSettings, apply_bootstrap, new_doh_client}
use coredns_nextdns.Plugin.{NextDns}
use coredns_nextdns.Routing.{has, sort_longest}
use coredns_nextdns.Config.{
  Parsers, Block, ConfigError, used_twice, arg_error, unknown_property, no_profile, ttl_needs_cache,
  nothing_to_reload, needs_discovery, needs_mac_source, bad_endpoint, Resolver, CacheSettings,
  SourceSettings, Tuning, Settings, new_settings,
}
use coredns_nextdns.Config.Property.{
  Outcome, set_profile, set_view_profile, set_client_profile, add_endpoints, add_bootstrap,
  set_tls_server_name, set_timeout, set_max_idle_conns, set_max_concurrent, set_cache,
  set_cache_ttl, set_device_id, set_device_model, set_device_ip, add_device_name, add_device_names,
  set_discovery, set_discovery_ttl, set_discovery_retry, set_discovery_wait, set_discovery_timeout,
  set_discovery_max, set_arp, set_reload,
}

-- What newDiscoverer's discoverer has beside the tables: its resolver and its timeout.
pub record Lookups : Type 0 where
  pub resolver : Resolver
  pub timeout : ℕ

-- What an accepted configuration makes: the handler, the transport of its client, and what the
-- background work reads.
pub record Configured : Type 0 where
  pub handler : NextDns
  pub http : HttpSettings
  pub sources : SourceSettings
  pub lookups : Option Lookups

abbrev pub default_discovery_timeout : ℕ
default_discovery_timeout = 2_000_000_000

-- The cases of the switch.
unfoldable pub properties : Parsers → Dict Text (Settings → List Text → Outcome)
properties p =
    (codes "profile", set_profile p)
    ∷ (codes "view_profile", set_view_profile p)
    ∷ (codes "client_profile", set_client_profile p)
    ∷ (codes "endpoint", add_endpoints p)
    ∷ (codes "bootstrap", add_bootstrap p)
    ∷ (codes "tls_servername", set_tls_server_name p)
    ∷ (codes "timeout", set_timeout p)
    ∷ (codes "max_idle_conns", set_max_idle_conns p)
    ∷ (codes "max_concurrent", set_max_concurrent p)
    ∷ (codes "cache", set_cache p)
    ∷ (codes "cache_ttl", set_cache_ttl p)
    ∷ (codes "device_id", set_device_id p)
    ∷ (codes "device_model", set_device_model p)
    ∷ (codes "device_ip", set_device_ip p)
    ∷ (codes "device_name", add_device_name p)
    ∷ (codes "device_names", add_device_names p)
    ∷ (codes "discovery", set_discovery p)
    ∷ (codes "discovery_ttl", set_discovery_ttl p)
    ∷ (codes "discovery_retry", set_discovery_retry p)
    ∷ (codes "discovery_wait", set_discovery_wait p)
    ∷ (codes "discovery_timeout", set_discovery_timeout p)
    ∷ (codes "discovery_max", set_discovery_max p)
    ∷ (codes "arp", set_arp p)
    ∷ (codes "reload", set_reload p)
    ∷ []

unfoldable pub set_property : Parsers → Settings → Text × List Text → Outcome
set_property p s (name, args) = elim (Dict.get text_discrete name (properties p)) [
  | some set ↦ set s args
  | none ↦ err unknown_property
]

-- The properties that read one argument, by NextArg: what follows it on the line is read as the
-- names of further properties. All others read the whole line, by RemainingArgs.
abbrev pub one_argument : List Text
one_argument =
    codes "profile"
    ∷ codes "tls_servername"
    ∷ codes "timeout"
    ∷ codes "max_idle_conns"
    ∷ codes "max_concurrent"
    ∷ codes "device_id"
    ∷ codes "discovery_ttl"
    ∷ codes "discovery_retry"
    ∷ codes "discovery_wait"
    ∷ codes "discovery_timeout"
    ∷ codes "discovery_max"
    ∷ codes "reload"
    ∷ []

-- A line's properties, each with the arguments that it reads.
unfoldable pub line_properties : List Text → List (Text × List Text)
line_properties [] = []
line_properties (name ∷ []) = (name, []) ∷ []
line_properties (name ∷ v ∷ rest) =
    let more = line_properties rest in
    if has one_argument name then (name, v ∷ []) ∷ more else (name, v ∷ rest) ∷ []

module _ (p : Parsers) where
  unfoldable pub read_line : Settings → List Text → Outcome
  read_line s line = fold_steps (set_property p) s (line_properties line)

  -- A profile on the line of the plugin itself.
  unfoldable pub read_args : Settings → List Text → Outcome
  read_args s [] = ok s
  read_args s (v ∷ []) = set_profile p s (v ∷ [])
  read_args s (v ∷ w ∷ rest) = err arg_error

  unfoldable pub read_block : Settings → Block → Outcome
  read_block s b = read_args s b.args >>= λ s'. fold_steps read_line s' b.lines

  -- The loop over the uses of the plugin in a server block: the second one is an error.
  unfoldable pub read_blocks : Settings → List Block → Outcome
  read_blocks s [] = ok s
  read_blocks s (b ∷ []) = read_block s b
  read_blocks s (b ∷ c ∷ rest) = read_block s b >>= λ _. err used_twice

abbrev pub or_else : ℕ → Option ℕ → ℕ
or_else d (some v) = v
or_else d none = d

unfoldable pub is_tuned : Tuning → Bool
is_tuned t =
    is_some t.ttl || (is_some t.retry || (is_some t.timeout || (is_some t.wait || is_some t.max)))

-- The tuning options applied to the discoverer, whose resolver is known then.
unfoldable pub tune_discoverer : Tuning → Discoverer → Discoverer
tune_discoverer t d = record d {
  ttl = or_else d.ttl t.ttl;
  retry = or_else d.retry t.retry;
  wait = or_else d.wait t.wait;
  max = or_else d.max t.max;
}

unfoldable pub tune : Settings → Result ConfigError (Option Discoverer)
tune s = elim s.devices.discovery [
  | some d ↦ ok (some (tune_discoverer s.tuning d))
  | none ↦ if is_tuned s.tuning then err needs_discovery else ok none
]

-- len(n.devices.files) > 0 || n.devices.useARP
unfoldable pub has_source : SourceSettings → Bool
has_source d = not (length d.files == 0) || d.use_arp

abbrev pub is_id_mac : IdMode → Bool
is_id_mac id_mac = true
is_id_mac _ = false

unfoldable pub make_cache : CacheSettings → Option MsgCache
make_cache c =
    if c.on
    then some (record (new_msg_cache c.capacity) { min_ttl = c.min_ttl; max_ttl = c.max_ttl })
    else none

-- n as parseNextDNS returns it.
unfoldable pub configured : Settings → Option Discoverer → DohClient × HttpSettings → Configured
configured s discovery client = record {
  handler = record {
    routes = record (s.routes) { client_profiles = sort_longest s.routes.client_profiles };
    bad = record { count = 0; warned = false; warnings = 0 };
    devices = record (s.devices) { discovery = discovery };
    client = client.0;
    cache = make_cache s.cache;
    concurrent = 0;
    max_concurrent = s.max_concurrent;
  };
  http = client.1;
  sources = s.sources;
  lookups = elim s.resolver [
    | some r ↦
        some (record { resolver = r; timeout = or_else default_discovery_timeout s.tuning.timeout })
    | none ↦ none
  ];
}

-- What parseNextDNS does when it has read the block.
unfoldable pub finish : Parsers → Settings → Result ConfigError Configured
finish p s = check (not (is_empty s.routes.profile)) no_profile >>= λ _.
    check (not (s.cache.ttl_on && not s.cache.on)) ttl_needs_cache >>= λ _.
    check (not (s.sources.reload_on && not (has_source s.sources))) nothing_to_reload >>= λ _.
    tune s >>= λ discovery.
    map_err bad_endpoint (
      new_doh_client p.is_ip p.parse_url
        (record (s.doh) { endpoints = apply_bootstrap s.endpoints s.bootstrap }))
    >>= λ client.
        check (not (is_id_mac s.devices.mode && not (has_source s.sources))) needs_mac_source
        >>= λ _. ok (configured s discovery client)

unfoldable pub parse_nextdns : Parsers → List Block → Result ConfigError Configured
parse_nextdns p blocks = read_blocks p new_settings blocks >>= finish p
