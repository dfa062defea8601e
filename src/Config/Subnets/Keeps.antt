-- ===== src/Config/Subnets/Keeps.antt =====
-- Each case of the switch but that of client_profile leaves the subnets as they are, and none takes
-- back what another one has switched on.
use coredns_nextdns.Prelude.{true, arith, ◌≡◌, ◌&&◌, refl, List, [], ◌∷◌}
use coredns_nextdns.Prelude.Text.{Text}
use coredns_nextdns.Prelude.Int.{pos, leb_ℤ}
use coredns_nextdns.Prelude.Result.{check, IsOk, any-IsOk, from_option}
use coredns_nextdns.Routing.{parse_prefix, valid_profile, valid_route, valid_device_model}
use coredns_nextdns.Config.{
  unknown_format, invalid_address, invalid_mode, invalid_range, invalid_flag, invalid_model,
  invalid_duration, negative_duration, not_positive, invalid_profile, Parsers, Settings,
  invalid_prefix,
}
use coredns_nextdns.Config.Property.{
  set_client_profile, which_resolver, next_arg, some_args, two_args, positive, natural,
  parse_duration, positive_duration, parse_positive_int, set_profile, set_view_profile,
  add_endpoints, add_bootstrap, set_tls_server_name, set_timeout, set_max_idle_conns,
  set_max_concurrent, set_cache, set_cache_ttl, set_device_id, set_device_model, set_device_ip,
  add_device_name, add_device_names, set_discovery, set_discovery_ttl, set_discovery_retry,
  set_discovery_wait, set_discovery_timeout, set_discovery_max, set_arp, set_reload,
}
use coredns_nextdns.Config.Parse.{is_tuned}
use coredns_nextdns.Device.{parse_id_mode}
use coredns_nextdns.Addr.{client_addr}
use coredns_nextdns.Sources.{parse_format}

-- What no case of the switch takes back: that there was a reload, a cache_ttl, a tuning of discovery.
abbrev pub IsKept : Settings → Settings → Type 0
IsKept s t =
    (s.sources.reload_on ≡ true → t.sources.reload_on ≡ true)
    × (s.cache.ttl_on ≡ true → t.cache.ttl_on ≡ true)
    × (is_tuned s.tuning ≡ true → is_tuned t.tuning ≡ true)

abbrev pub IsSame : Settings → Settings → Type 0
IsSame s t = (t.routes.client_profiles ≡ s.routes.client_profiles) × IsKept s t

module _ (p : Parsers) where
  pub set_profile-IsSame :
      (s : Settings) (args : List Text) → IsOk (IsSame s) (set_profile p s args)
  unfolding set_profile
  set_profile-IsSame s args = any-IsOk (IsSame s) (next_arg args) _ (λ v.
      any-IsOk (IsSame s) (check (valid_profile v) invalid_profile) _
        (λ _. (refl, ((λ h. h), (λ h. h), (λ h. h)))))

  pub set_view_profile-IsSame :
      (s : Settings) (args : List Text) → IsOk (IsSame s) (set_view_profile p s args)
  unfolding set_view_profile
  set_view_profile-IsSame s args = any-IsOk (IsSame s) (two_args args) _ (λ a.
      any-IsOk (IsSame s) (check (valid_route a.1) invalid_profile) _
        (λ _. (refl, ((λ h. h), (λ h. h), (λ h. h)))))

  pub add_endpoints-IsSame :
      (s : Settings) (args : List Text) → IsOk (IsSame s) (add_endpoints p s args)
  unfolding add_endpoints
  add_endpoints-IsSame s args =
      any-IsOk (IsSame s) (some_args args) _ (λ _. (refl, ((λ h. h), (λ h. h), (λ h. h))))

  pub add_bootstrap-IsSame :
      (s : Settings) (args : List Text) → IsOk (IsSame s) (add_bootstrap p s args)
  unfolding add_bootstrap
  add_bootstrap-IsSame s args =
      any-IsOk (IsSame s) (some_args args) _ (λ _. (refl, ((λ h. h), (λ h. h), (λ h. h))))

  pub set_tls_server_name-IsSame :
      (s : Settings) (args : List Text) → IsOk (IsSame s) (set_tls_server_name p s args)
  unfolding set_tls_server_name
  set_tls_server_name-IsSame s args =
      any-IsOk (IsSame s) (next_arg args) _ (λ _. (refl, ((λ h. h), (λ h. h), (λ h. h))))

  pub set_timeout-IsSame :
      (s : Settings) (args : List Text) → IsOk (IsSame s) (set_timeout p s args)
  unfolding set_timeout
  set_timeout-IsSame s args =
      any-IsOk (IsSame s) (parse_duration p args) _ (λ _. (refl, ((λ h. h), (λ h. h), (λ h. h))))

  pub set_max_idle_conns-IsSame :
      (s : Settings) (args : List Text) → IsOk (IsSame s) (set_max_idle_conns p s args)
  unfolding set_max_idle_conns
  set_max_idle_conns-IsSame s args =
      any-IsOk (IsSame s) (parse_positive_int p args) _
        (λ _. (refl, ((λ h. h), (λ h. h), (λ h. h))))

  pub set_max_concurrent-IsSame :
      (s : Settings) (args : List Text) → IsOk (IsSame s) (set_max_concurrent p s args)
  unfolding set_max_concurrent
  set_max_concurrent-IsSame s args =
      any-IsOk (IsSame s) (parse_positive_int p args) _
        (λ _. (refl, ((λ h. h), (λ h. h), (λ h. h))))

  pub set_cache-IsSame : (s : Settings) (args : List Text) → IsOk (IsSame s) (set_cache p s args)
  unfolding set_cache
  set_cache-IsSame s [] = (refl, ((λ h. h), (λ h. h), (λ h. h)))
  set_cache-IsSame s (v ∷ []) = any-IsOk (IsSame s) (from_option (p.atoi v) not_positive) _ (λ n.
      any-IsOk (IsSame s) (from_option (positive n) not_positive) _
        (λ _. (refl, ((λ h. h), (λ h. h), (λ h. h)))))
  set_cache-IsSame s (v ∷ w ∷ rest) = tt

  pub set_cache_ttl-IsSame :
      (s : Settings) (args : List Text) → IsOk (IsSame s) (set_cache_ttl p s args)
  unfolding set_cache_ttl
  set_cache_ttl-IsSame s args = any-IsOk (IsSame s) (two_args args) _ (λ a.
      any-IsOk (IsSame s) (from_option (p.parse_duration a.0) invalid_duration) _ (λ lo.
        any-IsOk (IsSame s) (from_option (p.parse_duration a.1) invalid_duration) _ (λ hi.
          any-IsOk (IsSame s) (check (leb_ℤ (pos 0) lo && leb_ℤ lo hi) invalid_range) _
            (λ _. (refl, ((λ h. h), (λ _. refl), (λ h. h)))))))

  pub set_device_id-IsSame :
      (s : Settings) (args : List Text) → IsOk (IsSame s) (set_device_id p s args)
  unfolding set_device_id
  set_device_id-IsSame s args = any-IsOk (IsSame s) (next_arg args) _ (λ v.
      any-IsOk (IsSame s) (from_option (parse_id_mode v) invalid_mode) _
        (λ _. (refl, ((λ h. h), (λ h. h), (λ h. h)))))

  pub set_device_model-IsSame :
      (s : Settings) (args : List Text) → IsOk (IsSame s) (set_device_model p s args)
  unfolding set_device_model
  set_device_model-IsSame s [] = tt
  set_device_model-IsSame s (v ∷ []) =
      any-IsOk (IsSame s) (check (valid_device_model v) invalid_model) _
        (λ _. (refl, ((λ h. h), (λ h. h), (λ h. h))))
  set_device_model-IsSame s (v ∷ w ∷ rest) = tt

  pub set_device_ip-IsSame :
      (s : Settings) (args : List Text) → IsOk (IsSame s) (set_device_ip p s args)
  unfolding set_device_ip
  set_device_ip-IsSame s [] = (refl, ((λ h. h), (λ h. h), (λ h. h)))
  set_device_ip-IsSame s (v ∷ []) =
      any-IsOk (IsSame s) (from_option (p.parse_bool v) invalid_flag) _
        (λ _. (refl, ((λ h. h), (λ h. h), (λ h. h))))
  set_device_ip-IsSame s (v ∷ w ∷ rest) = tt

  pub add_device_name-IsSame :
      (s : Settings) (args : List Text) → IsOk (IsSame s) (add_device_name p s args)
  unfolding add_device_name
  add_device_name-IsSame s args = any-IsOk (IsSame s) (two_args args) _ (λ a.
      any-IsOk (IsSame s) (from_option (client_addr p.parse_addr a.0) invalid_address) _
        (λ _. (refl, ((λ h. h), (λ h. h), (λ h. h)))))

  pub add_device_names-IsSame :
      (s : Settings) (args : List Text) → IsOk (IsSame s) (add_device_names p s args)
  unfolding add_device_names
  add_device_names-IsSame s args = any-IsOk (IsSame s) (two_args args) _ (λ a.
      any-IsOk (IsSame s) (from_option (parse_format a.0) unknown_format) _
        (λ _. (refl, ((λ h. h), (λ h. h), (λ h. h)))))

  pub set_discovery-IsSame :
      (s : Settings) (args : List Text) → IsOk (IsSame s) (set_discovery p s args)
  unfolding set_discovery
  set_discovery-IsSame s args = any-IsOk (IsSame s) (some_args args) _ (λ l.
      any-IsOk (IsSame s) (which_resolver p l) _ (λ _. (refl, ((λ h. h), (λ h. h), (λ h. h)))))

  pub set_discovery_ttl-IsSame :
      (s : Settings) (args : List Text) → IsOk (IsSame s) (set_discovery_ttl p s args)
  unfolding set_discovery_ttl is_tuned
  set_discovery_ttl-IsSame s args =
      any-IsOk (IsSame s) (positive_duration p args) _
        (λ _. (refl, ((λ h. h), (λ h. h), (λ _. ground arith))))

  pub set_discovery_retry-IsSame :
      (s : Settings) (args : List Text) → IsOk (IsSame s) (set_discovery_retry p s args)
  unfolding set_discovery_retry is_tuned
  set_discovery_retry-IsSame s args =
      any-IsOk (IsSame s) (positive_duration p args) _
        (λ _. (refl, ((λ h. h), (λ h. h), (λ _. ground arith))))

  pub set_discovery_timeout-IsSame :
      (s : Settings) (args : List Text) → IsOk (IsSame s) (set_discovery_timeout p s args)
  unfolding set_discovery_timeout is_tuned
  set_discovery_timeout-IsSame s args =
      any-IsOk (IsSame s) (positive_duration p args) _
        (λ _. (refl, ((λ h. h), (λ h. h), (λ _. ground arith))))

  pub set_discovery_wait-IsSame :
      (s : Settings) (args : List Text) → IsOk (IsSame s) (set_discovery_wait p s args)
  unfolding set_discovery_wait is_tuned
  set_discovery_wait-IsSame s args = any-IsOk (IsSame s) (parse_duration p args) _ (λ d.
      any-IsOk (IsSame s) (from_option (natural d) negative_duration) _
        (λ _. (refl, ((λ h. h), (λ h. h), (λ _. ground arith)))))

  pub set_discovery_max-IsSame :
      (s : Settings) (args : List Text) → IsOk (IsSame s) (set_discovery_max p s args)
  unfolding set_discovery_max is_tuned
  set_discovery_max-IsSame s args =
      any-IsOk (IsSame s) (parse_positive_int p args) _
        (λ _. (refl, ((λ h. h), (λ h. h), (λ _. ground arith))))

  pub set_arp-IsSame : (s : Settings) (args : List Text) → IsOk (IsSame s) (set_arp p s args)
  unfolding set_arp
  set_arp-IsSame s [] = (refl, ((λ h. h), (λ h. h), (λ h. h)))
  set_arp-IsSame s (path ∷ []) = (refl, ((λ h. h), (λ h. h), (λ h. h)))
  set_arp-IsSame s (path ∷ other ∷ rest) = tt

  pub set_reload-IsSame : (s : Settings) (args : List Text) → IsOk (IsSame s) (set_reload p s args)
  unfolding set_reload
  set_reload-IsSame s args =
      any-IsOk (IsSame s) (positive_duration p args) _
        (λ _. (refl, ((λ _. refl), (λ h. h), (λ h. h))))

  pub set_client_profile-IsKept :
      (s : Settings) (args : List Text) → IsOk (IsKept s) (set_client_profile p s args)
  unfolding set_client_profile
  set_client_profile-IsKept s args = any-IsOk (IsKept s) (two_args args) _ (λ a.
      any-IsOk (IsKept s) (from_option (parse_prefix p.parse_cidr p.parse_addr a.0) invalid_prefix)
        _
        (λ q.
          any-IsOk (IsKept s) (check (valid_route a.1) invalid_profile) _
            (λ _. ((λ h. h), (λ h. h), (λ h. h)))))
