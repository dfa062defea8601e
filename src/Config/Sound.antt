-- ===== src/Config/Sound.antt =====
-- What the settings satisfy after every property of the block that has been read.
pub mod Setters
use coredns_nextdns.Prelude.{
  ◌&&◌, ite, ℕ, zero, suc, ◌≤◌, ◌≡◌, refl, subst, List, [], ◌∷◌, true, false, Option, none, some,
  All, All-append, arith, Option-cases, inl, inr,
}
use coredns_nextdns.Prelude.Text.{Text, text_discrete, is_empty}
use coredns_nextdns.Prelude.Int.{ℤ, pos, negsuc, leb_ℤ, pos_part}
use coredns_nextdns.Prelude.Result.{
  from_option_last, ok, err, IsOk, >>=-IsOk, any-IsOk, check-IsOk, from_option-IsOk, check,
  from_option,
}
use coredns_nextdns.Prelude.Dict
use coredns_nextdns.Prelude.Dict.{Dict}
use coredns_nextdns.Discovery.{Discoverer, new_discoverer}
use coredns_nextdns.Routing.{Routes, valid_profile, valid_route, parse_prefix, valid_device_model}
use coredns_nextdns.Routing.Valid.{IsRoute}
use coredns_nextdns.Config.{
  invalid_range, invalid_flag, invalid_prefix, invalid_model, invalid_duration, negative_duration,
  not_positive, invalid_profile, Parsers, Settings, Tuning,
}
use coredns_nextdns.Config.Property.{
  which_resolver, Outcome, next_arg, some_args, two_args, positive, natural, parse_duration,
  positive_duration, parse_positive_int, set_profile, set_view_profile, set_client_profile,
  add_endpoints, add_bootstrap, set_tls_server_name, set_timeout, set_max_idle_conns,
  set_max_concurrent, set_cache, set_cache_ttl, set_device_id, set_device_model, set_device_ip,
  add_device_name, add_device_names, set_discovery, set_discovery_ttl, set_discovery_retry,
  set_discovery_wait, set_discovery_timeout, set_discovery_max, set_arp, set_reload,
}

-- Every profile that has been read is valid; the default one may be missing yet.
pub record IsRead (n : Routes) : Type 0 where
  pub default : is_empty n.profile ≡ false → valid_profile n.profile ≡ true
  pub views : All (λ v. IsRoute v.1) n.view_profiles
  pub clients : All (λ cp. IsRoute cp.profile) n.client_profiles

abbrev pub IsAbsentOr : {A : Type 0} → (A → Type 0) → Option A → Type 0
IsAbsentOr P none = Unit
IsAbsentOr P (some a) = P a

pub record IsTuning (t : Tuning) : Type 0 where
  pub ttl : IsAbsentOr (λ n. 1 ≤ n) t.ttl
  pub retry : IsAbsentOr (λ n. 1 ≤ n) t.retry
  pub timeout : IsAbsentOr (λ n. 1 ≤ n) t.timeout
  pub max : IsAbsentOr (λ n. 1 ≤ n) t.max

abbrev pub IsSound : Settings → Type 0
IsSound s =
    IsRead s.routes
    × (s.cache.min_ttl ≤ s.cache.max_ttl)
    × IsTuning s.tuning
    × (1 ≤ s.sources.reload)
    × IsAbsentOr (λ d. d ≡ new_discoverer) s.devices.discovery

pub put-IsRoute :
    (k v : Text) (m : Dict Text Text)
    → All (λ e. IsRoute e.1) m
    → IsRoute v
    → All (λ e. IsRoute e.1) (Dict.put text_discrete k v m)
unfolding Dict.put
put-IsRoute k v [] h r = (r, tt)
put-IsRoute k v (e ∷ m) h r =
    elim (text_discrete e.0 k)
      as (λ d. All (λ x. IsRoute x.1) (ite d ((k, v) ∷ m) (e ∷ Dict.put text_discrete k v m))) [
        | yes same ↦ (r, h.1)
        | no other ↦ (h.0, put-IsRoute k v m h.1 r)
      ]

positive-1-le : (z : ℤ) (n : ℕ) → positive z ≡ some n → 1 ≤ n
positive-1-le (pos zero) n h = absurd (ground (arith, h))
positive-1-le (pos (suc m)) n h = ground (arith, h)
positive-1-le (negsuc m) n h = absurd (ground (arith, h))

pub leb_ℤ-pos_part :
    (lo hi : ℤ) → leb_ℤ (pos 0) lo ≡ true → leb_ℤ lo hi ≡ true → pos_part lo ≤ pos_part hi
leb_ℤ-pos_part (pos a) (pos b) n h = ground (arith, h)
leb_ℤ-pos_part (pos a) (negsuc b) n h = absurd (ground (arith, h))
leb_ℤ-pos_part (negsuc a) hi n h = absurd (ground (arith, n))

module _ (p : Parsers) where
  pub positive_duration-IsOk : (args : List Text) → IsOk (λ n. 1 ≤ n) (positive_duration p args)
  unfolding positive_duration
  positive_duration-IsOk args =
      any-IsOk (λ n. 1 ≤ n) (parse_duration p args) (λ d. from_option (positive d) not_positive)
        (λ d. from_option_last (λ n. 1 ≤ n) (positive d) not_positive (positive-1-le d))

  pub parse_positive_int-IsOk : (args : List Text) → IsOk (λ n. 1 ≤ n) (parse_positive_int p args)
  unfolding parse_positive_int
  parse_positive_int-IsOk args =
      any-IsOk (λ n. 1 ≤ n) (next_arg args) _
        (λ v.
          any-IsOk (λ n. 1 ≤ n) (from_option (p.atoi v) not_positive) _
            (λ d. from_option_last (λ n. 1 ≤ n) (positive d) not_positive (positive-1-le d)))
