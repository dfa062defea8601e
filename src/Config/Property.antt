-- ===== src/Config/Property.antt =====
-- The properties of the block: one function for each case of the switch of parseNextDNS, with
-- validProfile, parsePrefix, parseDuration and parsePositiveInt as it calls them.
use coredns_nextdns.Prelude.{
  ℕ, zero, suc, List, [], ◌∷◌, ◌++◌, Bool, true, false, Option, none, some, if◌then◌else◌, ◌&&◌,
}
use coredns_nextdns.Prelude.Text.{Text, codes, text_eq, text_discrete}
use coredns_nextdns.Prelude.Int.{ℤ, pos, negsuc, leb_ℤ, pos_part}
use coredns_nextdns.Prelude.Result.{Result, ok, err, ◌>>=◌, check, from_option}
use coredns_nextdns.Prelude.Dict
use coredns_nextdns.Prelude.Dict.{Dict}
use coredns_nextdns.Addr.{addr_discrete, client_addr}
use coredns_nextdns.Device.{parse_id_mode}
use coredns_nextdns.Discovery.{new_discoverer}
use coredns_nextdns.Routing.{valid_profile, valid_route, valid_device_model, parse_prefix}
use coredns_nextdns.Sources.{parse_format}
use coredns_nextdns.Config.{
  Resolver, Parsers, ConfigError, arg_error, invalid_profile, needs_two, invalid_prefix,
  invalid_duration, not_positive, negative_duration, invalid_range, invalid_mode, invalid_model,
  invalid_flag, invalid_address, unknown_format, invalid_resolver, internal, external, Settings,
}

abbrev pub Outcome : Type 0
Outcome = Result ConfigError Settings

-- c.NextArg() and c.Val(): the argument, which must be there
unfoldable pub next_arg : List Text → Result ConfigError Text
next_arg [] = err arg_error
next_arg (v ∷ rest) = ok v

-- c.RemainingArgs() where there must be some
unfoldable pub some_args : List Text → Result ConfigError (List Text)
some_args [] = err arg_error
some_args (v ∷ rest) = ok (v ∷ rest)

-- c.RemainingArgs() where there must be two
unfoldable pub two_args : List Text → Result ConfigError (Text × Text)
two_args (a ∷ b ∷ []) = ok (a, b)
two_args _ = err needs_two

-- What is more than 0, and what is not less than 0.
abbrev pub positive : ℤ → Option ℕ
positive (pos (suc n)) = some (suc n)
positive (pos zero) = none
positive (negsuc n) = none

abbrev pub natural : ℤ → Option ℕ
natural (pos n) = some n
natural (negsuc n) = none

-- len(args) == 1 && args[0] == "internal"
abbrev pub names_internal : List Text → Bool
names_internal (a ∷ []) = text_eq a (codes "internal")
names_internal _ = false

module _ (p : Parsers) where
  unfoldable pub parse_duration : List Text → Result ConfigError ℤ
  parse_duration args = next_arg args >>= λ v. from_option (p.parse_duration v) invalid_duration

  -- parseDuration with the test that the duration is more than 0
  unfoldable pub positive_duration : List Text → Result ConfigError ℕ
  positive_duration args = parse_duration args >>= λ d. from_option (positive d) not_positive

  unfoldable pub parse_positive_int : List Text → Result ConfigError ℕ
  parse_positive_int args = next_arg args >>= λ v.
      from_option (p.atoi v) not_positive >>= λ n. from_option (positive n) not_positive

  unfoldable pub set_profile : Settings → List Text → Outcome
  set_profile s args = next_arg args >>= λ v. check (valid_profile v) invalid_profile >>= λ _.
      ok (record s { routes = record (s.routes) { profile = v } })

  unfoldable pub set_view_profile : Settings → List Text → Outcome
  set_view_profile s args = two_args args >>= λ a. check (valid_route a.1) invalid_profile >>= λ _.
      ok (record s {
        routes = record (s.routes) {
          view_profiles = Dict.put text_discrete a.0 a.1 s.routes.view_profiles;
        };
      })

  unfoldable pub set_client_profile : Settings → List Text → Outcome
  set_client_profile s args = two_args args >>= λ a.
      from_option (parse_prefix p.parse_cidr p.parse_addr a.0) invalid_prefix >>= λ q.
      check (valid_route a.1) invalid_profile >>= λ _. ok (record s {
        routes = record (s.routes) {
          client_profiles = s.routes.client_profiles ++ record { prefix = q; profile = a.1 } ∷ [];
        };
      })

  unfoldable pub add_endpoints : Settings → List Text → Outcome
  add_endpoints s args = some_args args >>= λ l. ok (record s { endpoints = s.endpoints ++ l })

  unfoldable pub add_bootstrap : Settings → List Text → Outcome
  add_bootstrap s args = some_args args >>= λ l. ok (record s { bootstrap = s.bootstrap ++ l })

  unfoldable pub set_tls_server_name : Settings → List Text → Outcome
  set_tls_server_name s args =
      next_arg args >>= λ v. ok (record s { doh = record (s.doh) { tls_server_name = v } })

  unfoldable pub set_timeout : Settings → List Text → Outcome
  set_timeout s args =
      parse_duration args >>= λ d. ok (record s { doh = record (s.doh) { timeout = d } })

  unfoldable pub set_max_idle_conns : Settings → List Text → Outcome
  set_max_idle_conns s args =
      parse_positive_int args >>= λ n. ok (record s { doh = record (s.doh) { max_idle_conns = n } })

  unfoldable pub set_max_concurrent : Settings → List Text → Outcome
  set_max_concurrent s args = parse_positive_int args >>= λ n. ok (record s { max_concurrent = n })

  unfoldable pub set_cache : Settings → List Text → Outcome
  set_cache s [] = ok (record s { cache = record (s.cache) { on = true } })
  set_cache s (v ∷ []) = from_option (p.atoi v) not_positive >>= λ n.
      from_option (positive n) not_positive >>= λ c.
      ok (record s { cache = record (s.cache) { on = true; capacity = c } })
  set_cache s (v ∷ w ∷ rest) = err arg_error

  unfoldable pub set_cache_ttl : Settings → List Text → Outcome
  set_cache_ttl s args = two_args args >>= λ a.
      from_option (p.parse_duration a.0) invalid_duration >>= λ lo.
      from_option (p.parse_duration a.1) invalid_duration >>= λ hi.
      check (leb_ℤ (pos 0) lo && leb_ℤ lo hi) invalid_range >>= λ _. ok (record s {
        cache = record (s.cache) { min_ttl = pos_part lo; max_ttl = pos_part hi; ttl_on = true };
      })

  unfoldable pub set_device_id : Settings → List Text → Outcome
  set_device_id s args = next_arg args >>= λ v. from_option (parse_id_mode v) invalid_mode >>= λ m.
      ok (record s { devices = record (s.devices) { mode = m } })

  unfoldable pub set_device_model : Settings → List Text → Outcome
  set_device_model s (v ∷ []) = check (valid_device_model v) invalid_model >>= λ _.
      ok (record s { devices = record (s.devices) { model = v } })
  set_device_model s _ = err arg_error

  unfoldable pub set_device_ip : Settings → List Text → Outcome
  set_device_ip s [] = ok (record s { devices = record (s.devices) { send_ip = true } })
  set_device_ip s (v ∷ []) = from_option (p.parse_bool v) invalid_flag >>= λ b.
      ok (record s { devices = record (s.devices) { send_ip = b } })
  set_device_ip s (v ∷ w ∷ rest) = err arg_error

  unfoldable pub add_device_name : Settings → List Text → Outcome
  add_device_name s args = two_args args >>= λ a.
      from_option (client_addr p.parse_addr a.0) invalid_address >>= λ addr. ok (record s {
        devices = record (s.devices) { static = Dict.put addr_discrete addr a.1 s.devices.static };
      })

  unfoldable pub add_device_names : Settings → List Text → Outcome
  add_device_names s args = two_args args >>= λ a.
      from_option (parse_format a.0) unknown_format >>= λ f.
      ok (record s { sources = record (s.sources) { files = s.sources.files ++ (f, a.1) ∷ [] } })

  -- The loop over the resolvers of discovery.
  unfoldable pub host_ports : List Text → Result ConfigError (List Text)
  host_ports [] = ok []
  host_ports (a ∷ rest) =
      from_option (p.host_port a) invalid_resolver >>= λ hp. host_ports rest >>= λ l. ok (hp ∷ l)

  unfoldable pub which_resolver : List Text → Result ConfigError Resolver
  which_resolver l =
      if names_internal l then ok internal else host_ports l >>= λ hps. ok (external hps)

  unfoldable pub set_discovery : Settings → List Text → Outcome
  set_discovery s args = some_args args >>= λ l. which_resolver l >>= λ r. ok (record s {
    resolver = some r;
    devices = record (s.devices) { discovery = some new_discoverer };
  })

  unfoldable pub set_discovery_ttl : Settings → List Text → Outcome
  set_discovery_ttl s args =
      positive_duration args >>= λ d. ok (record s { tuning = record (s.tuning) { ttl = some d } })

  unfoldable pub set_discovery_retry : Settings → List Text → Outcome
  set_discovery_retry s args = positive_duration args >>= λ d.
      ok (record s { tuning = record (s.tuning) { retry = some d } })

  unfoldable pub set_discovery_wait : Settings → List Text → Outcome
  set_discovery_wait s args = parse_duration args >>= λ d.
      from_option (natural d) negative_duration >>= λ n.
      ok (record s { tuning = record (s.tuning) { wait = some n } })

  unfoldable pub set_discovery_timeout : Settings → List Text → Outcome
  set_discovery_timeout s args = positive_duration args >>= λ d.
      ok (record s { tuning = record (s.tuning) { timeout = some d } })

  unfoldable pub set_discovery_max : Settings → List Text → Outcome
  set_discovery_max s args =
      parse_positive_int args >>= λ n. ok (record s { tuning = record (s.tuning) { max = some n } })

  unfoldable pub set_arp : Settings → List Text → Outcome
  set_arp s [] = ok (record s { sources = record (s.sources) { use_arp = true } })
  set_arp s (path ∷ []) =
      ok (record s { sources = record (s.sources) { use_arp = true; arp_path = path } })
  set_arp s (path ∷ other ∷ rest) = err arg_error

  unfoldable pub set_reload : Settings → List Text → Outcome
  set_reload s args = positive_duration args >>= λ d.
      ok (record s { sources = record (s.sources) { reload = d; reload_on = true } })
