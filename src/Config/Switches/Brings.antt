-- ===== src/Config/Switches/Brings.antt =====
-- The cases of the switch that turn on what the end of parseNextDNS tests.
use coredns_nextdns.Prelude.{ℕ_discrete, ◌≡◌, refl, List, true, arith, ◌&&◌}
use coredns_nextdns.Prelude.Text.{Text, codes, text_discrete}
use coredns_nextdns.Prelude.Result.{ok, IsOk-ok, any-IsOk, check, from_option}
use coredns_nextdns.Prelude.Int.{pos, leb_ℤ}
use coredns_nextdns.Prelude.Dict
use coredns_nextdns.Config.{Parsers, Settings, invalid_duration, invalid_range, negative_duration}
use coredns_nextdns.Config.Property.{
  two_args, natural, parse_duration, positive_duration, parse_positive_int, set_cache_ttl,
  set_discovery_ttl, set_discovery_retry, set_discovery_wait, set_discovery_timeout,
  set_discovery_max, set_reload,
}
use coredns_nextdns.Config.Parse.{properties, set_property, is_tuned}

module _ (p : Parsers) where
  -- A reload line sets its switch, a cache_ttl line its own, and a discovery_* line tunes.
  pub reload_brings :
      (s : Settings) (args : List Text) (t : Settings)
      → set_property p s (codes "reload", args) ≡ ok t
      → t.sources.reload_on ≡ true
  unfolding set_property properties Dict.get text_discrete ℕ_discrete set_reload
  reload_brings s args t e =
      IsOk-ok (λ x. x.sources.reload_on ≡ true) (set_reload p s args) e
        (any-IsOk (λ x. x.sources.reload_on ≡ true) (positive_duration p args) _ (λ _. refl))

  pub cache_ttl_brings :
      (s : Settings) (args : List Text) (t : Settings)
      → set_property p s (codes "cache_ttl", args) ≡ ok t
      → t.cache.ttl_on ≡ true
  unfolding set_property properties Dict.get text_discrete ℕ_discrete set_cache_ttl
  cache_ttl_brings s args t e =
      let P = (λ (x : Settings). x.cache.ttl_on ≡ true) in
      IsOk-ok P (set_cache_ttl p s args) e (
        any-IsOk P (two_args args) _ (λ a.
          any-IsOk P (from_option (p.parse_duration a.0) invalid_duration) _ (λ lo.
            any-IsOk P (from_option (p.parse_duration a.1) invalid_duration) _ (λ hi.
              any-IsOk P (check (leb_ℤ (pos 0) lo && leb_ℤ lo hi) invalid_range) _ (λ _. refl)))))

  pub discovery_ttl_brings :
      (s : Settings) (args : List Text) (t : Settings)
      → set_property p s (codes "discovery_ttl", args) ≡ ok t
      → is_tuned t.tuning ≡ true
  unfolding set_property properties Dict.get text_discrete ℕ_discrete set_discovery_ttl is_tuned
  discovery_ttl_brings s args t e =
      let P = (λ (x : Settings). is_tuned x.tuning ≡ true) in
      IsOk-ok P (set_discovery_ttl p s args) e
        (any-IsOk P (positive_duration p args) _ (λ _. ground arith))

  pub discovery_retry_brings :
      (s : Settings) (args : List Text) (t : Settings)
      → set_property p s (codes "discovery_retry", args) ≡ ok t
      → is_tuned t.tuning ≡ true
  unfolding set_property properties Dict.get text_discrete ℕ_discrete set_discovery_retry is_tuned
  discovery_retry_brings s args t e =
      let P = (λ (x : Settings). is_tuned x.tuning ≡ true) in
      IsOk-ok P (set_discovery_retry p s args) e
        (any-IsOk P (positive_duration p args) _ (λ _. ground arith))

  pub discovery_timeout_brings :
      (s : Settings) (args : List Text) (t : Settings)
      → set_property p s (codes "discovery_timeout", args) ≡ ok t
      → is_tuned t.tuning ≡ true
  unfolding set_property properties Dict.get text_discrete ℕ_discrete set_discovery_timeout is_tuned
  discovery_timeout_brings s args t e =
      let P = (λ (x : Settings). is_tuned x.tuning ≡ true) in
      IsOk-ok P (set_discovery_timeout p s args) e
        (any-IsOk P (positive_duration p args) _ (λ _. ground arith))

  pub discovery_max_brings :
      (s : Settings) (args : List Text) (t : Settings)
      → set_property p s (codes "discovery_max", args) ≡ ok t
      → is_tuned t.tuning ≡ true
  unfolding set_property properties Dict.get text_discrete ℕ_discrete set_discovery_max is_tuned
  discovery_max_brings s args t e =
      let P = (λ (x : Settings). is_tuned x.tuning ≡ true) in
      IsOk-ok P (set_discovery_max p s args) e
        (any-IsOk P (parse_positive_int p args) _ (λ _. ground arith))

  pub discovery_wait_brings :
      (s : Settings) (args : List Text) (t : Settings)
      → set_property p s (codes "discovery_wait", args) ≡ ok t
      → is_tuned t.tuning ≡ true
  unfolding set_property properties Dict.get text_discrete ℕ_discrete set_discovery_wait is_tuned
  discovery_wait_brings s args t e =
      let P = (λ (x : Settings). is_tuned x.tuning ≡ true) in
      IsOk-ok P (set_discovery_wait p s args) e (
        any-IsOk P (parse_duration p args) _
          (λ d. any-IsOk P (from_option (natural d) negative_duration) _ (λ _. ground arith)))
