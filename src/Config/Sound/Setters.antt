-- ===== src/Config/Sound/Setters.antt =====
-- Each case of the switch keeps the settings sound.
use coredns_nextdns.Prelude.{◌&&◌, ◌≤◌, refl, List, [], ◌∷◌, All-append, arith}
use coredns_nextdns.Prelude.Text.{Text}
use coredns_nextdns.Prelude.Int.{pos, leb_ℤ}
use coredns_nextdns.Prelude.Result.{IsOk, >>=-IsOk, any-IsOk, check-IsOk, from_option}
use coredns_nextdns.Routing.{valid_profile, valid_route, parse_prefix, valid_device_model}
use coredns_nextdns.Routing.Valid.{IsRoute}
use coredns_nextdns.Config.{
  unknown_format, invalid_address, invalid_mode, invalid_range, invalid_flag, invalid_prefix,
  invalid_model, invalid_duration, negative_duration, not_positive, invalid_profile, Parsers,
  Settings,
}
use coredns_nextdns.Config.Property.{
  which_resolver, next_arg, some_args, two_args, positive, natural, parse_duration,
  positive_duration, parse_positive_int, set_profile, set_view_profile, set_client_profile,
  add_endpoints, add_bootstrap, set_tls_server_name, set_timeout, set_max_idle_conns,
  set_max_concurrent, set_cache, set_cache_ttl, set_device_id, set_device_model, set_device_ip,
  add_device_name, add_device_names, set_discovery, set_discovery_ttl, set_discovery_retry,
  set_discovery_wait, set_discovery_timeout, set_discovery_max, set_arp, set_reload,
}
use coredns_nextdns.Config.Sound.{
  IsSound, put-IsRoute, leb_ℤ-pos_part, positive_duration-IsOk, parse_positive_int-IsOk,
}
use coredns_nextdns.Device.{parse_id_mode}
use coredns_nextdns.Addr.{client_addr}
use coredns_nextdns.Sources.{parse_format}

module _ (p : Parsers) where
  pub set_profile-IsOk :
      (s : Settings) (args : List Text) → IsSound s → IsOk IsSound (set_profile p s args)
  unfolding set_profile
  set_profile-IsOk s args (read, range, tuning, reload, fresh) =
      any-IsOk IsSound (next_arg args) _ (λ v.
        check-IsOk IsSound (valid_profile v) invalid_profile _ (λ good. (
          record { default = λ _. good; views = read.views; clients = read.clients },
          range,
          tuning,
          reload,
          fresh,
        )))

  pub set_view_profile-IsOk :
      (s : Settings) (args : List Text) → IsSound s → IsOk IsSound (set_view_profile p s args)
  unfolding set_view_profile
  set_view_profile-IsOk s args (read, range, tuning, reload, fresh) =
      any-IsOk IsSound (two_args args) _ (λ a.
        check-IsOk IsSound (valid_route a.1) invalid_profile _ (λ good. (
          record {
            default = read.default;
            views = put-IsRoute a.0 a.1 s.routes.view_profiles read.views good;
            clients = read.clients;
          },
          range,
          tuning,
          reload,
          fresh,
        )))

  pub set_client_profile-IsOk :
      (s : Settings) (args : List Text) → IsSound s → IsOk IsSound (set_client_profile p s args)
  unfolding set_client_profile
  set_client_profile-IsOk s args (read, range, tuning, reload, fresh) =
      any-IsOk IsSound (two_args args) _ (λ a.
        any-IsOk IsSound (from_option (parse_prefix p.parse_cidr p.parse_addr a.0) invalid_prefix) _
          (λ q. check-IsOk IsSound (valid_route a.1) invalid_profile _ (λ good. (
            record {
              default = read.default;
              views = read.views;
              clients =
                  All-append (λ cp. IsRoute cp.profile) s.routes.client_profiles _ read.clients
                    (good, tt);
            },
            range,
            tuning,
            reload,
            fresh,
          ))))

  pub add_endpoints-IsOk :
      (s : Settings) (args : List Text) → IsSound s → IsOk IsSound (add_endpoints p s args)
  unfolding add_endpoints
  add_endpoints-IsOk s args h = any-IsOk IsSound (some_args args) _ (λ _. h)

  pub add_bootstrap-IsOk :
      (s : Settings) (args : List Text) → IsSound s → IsOk IsSound (add_bootstrap p s args)
  unfolding add_bootstrap
  add_bootstrap-IsOk s args h = any-IsOk IsSound (some_args args) _ (λ _. h)

  pub set_tls_server_name-IsOk :
      (s : Settings) (args : List Text) → IsSound s → IsOk IsSound (set_tls_server_name p s args)
  unfolding set_tls_server_name
  set_tls_server_name-IsOk s args h = any-IsOk IsSound (next_arg args) _ (λ _. h)

  pub set_timeout-IsOk :
      (s : Settings) (args : List Text) → IsSound s → IsOk IsSound (set_timeout p s args)
  unfolding set_timeout
  set_timeout-IsOk s args h = any-IsOk IsSound (parse_duration p args) _ (λ _. h)

  pub set_max_idle_conns-IsOk :
      (s : Settings) (args : List Text) → IsSound s → IsOk IsSound (set_max_idle_conns p s args)
  unfolding set_max_idle_conns
  set_max_idle_conns-IsOk s args h = any-IsOk IsSound (parse_positive_int p args) _ (λ _. h)

  pub set_max_concurrent-IsOk :
      (s : Settings) (args : List Text) → IsSound s → IsOk IsSound (set_max_concurrent p s args)
  unfolding set_max_concurrent
  set_max_concurrent-IsOk s args h = any-IsOk IsSound (parse_positive_int p args) _ (λ _. h)

  pub set_cache-IsOk :
      (s : Settings) (args : List Text) → IsSound s → IsOk IsSound (set_cache p s args)
  unfolding set_cache
  set_cache-IsOk s [] h = h
  set_cache-IsOk s (v ∷ []) h =
      any-IsOk IsSound (from_option (p.atoi v) not_positive) _
        (λ n. any-IsOk IsSound (from_option (positive n) not_positive) _ (λ _. h))
  set_cache-IsOk s (v ∷ w ∷ rest) h = tt

  pub set_cache_ttl-IsOk :
      (s : Settings) (args : List Text) → IsSound s → IsOk IsSound (set_cache_ttl p s args)
  unfolding set_cache_ttl
  set_cache_ttl-IsOk s args (read, range, tuning, reload, fresh) =
      any-IsOk IsSound (two_args args) _ (λ a.
        any-IsOk IsSound (from_option (p.parse_duration a.0) invalid_duration) _ (λ lo.
          any-IsOk IsSound (from_option (p.parse_duration a.1) invalid_duration) _ (λ hi.
            check-IsOk IsSound (leb_ℤ (pos 0) lo && leb_ℤ lo hi) invalid_range _ (λ good. (
              read,
              leb_ℤ-pos_part lo hi (ground (arith, good)) (ground (arith, good)),
              tuning,
              reload,
              fresh,
            )))))

  pub set_device_id-IsOk :
      (s : Settings) (args : List Text) → IsSound s → IsOk IsSound (set_device_id p s args)
  unfolding set_device_id
  set_device_id-IsOk s args h =
      any-IsOk IsSound (next_arg args) _
        (λ v. any-IsOk IsSound (from_option (parse_id_mode v) invalid_mode) _ (λ _. h))

  pub set_device_model-IsOk :
      (s : Settings) (args : List Text) → IsSound s → IsOk IsSound (set_device_model p s args)
  unfolding set_device_model
  set_device_model-IsOk s [] h = tt
  set_device_model-IsOk s (v ∷ []) h =
      check-IsOk IsSound (valid_device_model v) invalid_model _ (λ _. h)
  set_device_model-IsOk s (v ∷ w ∷ rest) h = tt

  pub set_device_ip-IsOk :
      (s : Settings) (args : List Text) → IsSound s → IsOk IsSound (set_device_ip p s args)
  unfolding set_device_ip
  set_device_ip-IsOk s [] h = h
  set_device_ip-IsOk s (v ∷ []) h =
      any-IsOk IsSound (from_option (p.parse_bool v) invalid_flag) _ (λ _. h)
  set_device_ip-IsOk s (v ∷ w ∷ rest) h = tt

  pub add_device_name-IsOk :
      (s : Settings) (args : List Text) → IsSound s → IsOk IsSound (add_device_name p s args)
  unfolding add_device_name
  add_device_name-IsOk s args h = any-IsOk IsSound (two_args args) _ (λ a.
      any-IsOk IsSound (from_option (client_addr p.parse_addr a.0) invalid_address) _ (λ _. h))

  pub add_device_names-IsOk :
      (s : Settings) (args : List Text) → IsSound s → IsOk IsSound (add_device_names p s args)
  unfolding add_device_names
  add_device_names-IsOk s args h =
      any-IsOk IsSound (two_args args) _
        (λ a. any-IsOk IsSound (from_option (parse_format a.0) unknown_format) _ (λ _. h))

  pub set_discovery-IsOk :
      (s : Settings) (args : List Text) → IsSound s → IsOk IsSound (set_discovery p s args)
  unfolding set_discovery
  set_discovery-IsOk s args (read, range, tuning, reload, fresh) =
      any-IsOk IsSound (some_args args) _
        (λ l. any-IsOk IsSound (which_resolver p l) _ (λ r. (read, range, tuning, reload, refl)))

  pub set_discovery_ttl-IsOk :
      (s : Settings) (args : List Text) → IsSound s → IsOk IsSound (set_discovery_ttl p s args)
  unfolding set_discovery_ttl
  set_discovery_ttl-IsOk s args (read, range, tuning, reload, fresh) =
      >>=-IsOk (λ n. 1 ≤ n) IsSound (positive_duration p args) _ (positive_duration-IsOk p args)
        (λ _ good. (
          read,
          range,
          record { ttl = good; retry = tuning.retry; timeout = tuning.timeout; max = tuning.max },
          reload,
          fresh,
        ))

  pub set_discovery_retry-IsOk :
      (s : Settings) (args : List Text) → IsSound s → IsOk IsSound (set_discovery_retry p s args)
  unfolding set_discovery_retry
  set_discovery_retry-IsOk s args (read, range, tuning, reload, fresh) =
      >>=-IsOk (λ n. 1 ≤ n) IsSound (positive_duration p args) _ (positive_duration-IsOk p args)
        (λ _ good. (
          read,
          range,
          record { ttl = tuning.ttl; retry = good; timeout = tuning.timeout; max = tuning.max },
          reload,
          fresh,
        ))

  pub set_discovery_timeout-IsOk :
      (s : Settings) (args : List Text) → IsSound s → IsOk IsSound (set_discovery_timeout p s args)
  unfolding set_discovery_timeout
  set_discovery_timeout-IsOk s args (read, range, tuning, reload, fresh) =
      >>=-IsOk (λ n. 1 ≤ n) IsSound (positive_duration p args) _ (positive_duration-IsOk p args)
        (λ _ good. (
          read,
          range,
          record { ttl = tuning.ttl; retry = tuning.retry; timeout = good; max = tuning.max },
          reload,
          fresh,
        ))

  pub set_discovery_wait-IsOk :
      (s : Settings) (args : List Text) → IsSound s → IsOk IsSound (set_discovery_wait p s args)
  unfolding set_discovery_wait
  set_discovery_wait-IsOk s args (read, range, tuning, reload, fresh) =
      any-IsOk IsSound (parse_duration p args) _ (λ d.
        any-IsOk IsSound (from_option (natural d) negative_duration) _ (λ _. (
          read,
          range,
          record {
            ttl = tuning.ttl;
            retry = tuning.retry;
            timeout = tuning.timeout;
            max = tuning.max;
          },
          reload,
          fresh,
        )))

  pub set_discovery_max-IsOk :
      (s : Settings) (args : List Text) → IsSound s → IsOk IsSound (set_discovery_max p s args)
  unfolding set_discovery_max
  set_discovery_max-IsOk s args (read, range, tuning, reload, fresh) =
      >>=-IsOk (λ n. 1 ≤ n) IsSound (parse_positive_int p args) _ (parse_positive_int-IsOk p args)
        (λ _ good. (
          read,
          range,
          record { ttl = tuning.ttl; retry = tuning.retry; timeout = tuning.timeout; max = good },
          reload,
          fresh,
        ))

  pub set_arp-IsOk : (s : Settings) (args : List Text) → IsSound s → IsOk IsSound (set_arp p s args)
  unfolding set_arp
  set_arp-IsOk s [] h = h
  set_arp-IsOk s (path ∷ []) h = h
  set_arp-IsOk s (path ∷ other ∷ rest) h = tt

  pub set_reload-IsOk :
      (s : Settings) (args : List Text) → IsSound s → IsOk IsSound (set_reload p s args)
  unfolding set_reload
  set_reload-IsOk s args (read, range, tuning, reload, fresh) =
      >>=-IsOk (λ n. 1 ≤ n) IsSound (positive_duration p args) _ (positive_duration-IsOk p args)
        (λ _ good. (read, range, tuning, good, fresh))
