-- ===== src/Config/Finish.antt =====
-- What has been tested when the end of parseNextDNS returns a handler.
use coredns_nextdns.Prelude.{◌≡◌, refl, true, not, ◌&&◌, Option}
use coredns_nextdns.Prelude.Text.{is_empty}
use coredns_nextdns.Prelude.Result.{Result, ok, IsOk-ok, eq-IsOk, check-IsOk, map_err}
use coredns_nextdns.Discovery.{Discoverer}
use coredns_nextdns.Doh.{DohClient}
use coredns_nextdns.Doh.Setup.{HttpSettings, apply_bootstrap, new_doh_client}
use coredns_nextdns.Config.{
  Parsers, ConfigError, Settings, no_profile, ttl_needs_cache, nothing_to_reload, needs_mac_source,
  bad_endpoint,
}
use coredns_nextdns.Config.Parse.{Configured, tune, has_source, is_id_mac, finish, configured}

-- The client that the settings ask for.
unfoldable pub build_client : Parsers → Settings → Result ConfigError (DohClient × HttpSettings)
build_client p s = map_err bad_endpoint (
    new_doh_client p.is_ip p.parse_url
      (record (s.doh) { endpoints = apply_bootstrap s.endpoints s.bootstrap }))

pub record IsFinished (p : Parsers) (s : Settings) (d : Option Discoverer)
    (client : DohClient × HttpSettings) : Type 0 where
  pub named : not (is_empty s.routes.profile) ≡ true
  pub cached : not (s.cache.ttl_on && not s.cache.on) ≡ true
  pub reloads : not (s.sources.reload_on && not (has_source s.sources)) ≡ true
  pub tuned : tune s ≡ ok d
  pub built : build_client p s ≡ ok client
  pub mac : not (is_id_mac s.devices.mode && not (has_source s.sources)) ≡ true

pub finish-eq-ok :
    (p : Parsers) (s : Settings) (c : Configured)
    → finish p s ≡ ok c
    → (d : Option Discoverer) × (client : DohClient × HttpSettings) × IsFinished p s d client
      × (c ≡ configured s d client)
unfolding finish build_client
finish-eq-ok p s c e =
    let P : Configured → Type 0 = λ x.
      (d : Option Discoverer) × (client : DohClient × HttpSettings) × IsFinished p s d client
      × (x ≡ configured s d client) in
    IsOk-ok P (finish p s) e (
      check-IsOk P (not (is_empty s.routes.profile)) no_profile _ (λ named.
        check-IsOk P (not (s.cache.ttl_on && not s.cache.on)) ttl_needs_cache _ (λ cached.
          check-IsOk P (not (s.sources.reload_on && not (has_source s.sources))) nothing_to_reload _
            (λ reloads. eq-IsOk P (tune s) _ (λ d tuned.
              eq-IsOk P (build_client p s) _ (λ client built.
                check-IsOk P (not (is_id_mac s.devices.mode && not (has_source s.sources)))
                  needs_mac_source _
                  (λ mac. (
                    d,
                    client,
                    record {
                      named = named;
                      cached = cached;
                      reloads = reloads;
                      tuned = tuned;
                      built = built;
                      mac = mac;
                    },
                    refl,
                  ))))))))
