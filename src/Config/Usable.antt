-- ===== src/Config/Usable.antt =====
-- What the end of parseNextDNS makes of sound settings.
use coredns_nextdns.Prelude.{
  ap, sym, if◌then◌else◌, Bool-cases, ℕ, ◌≤◌, ◌≡◌, refl, subst, inl, inr, List, [], ◌∷◌, true,
  Option, none, some, All, arith, Option-cases,
}
use coredns_nextdns.Prelude.Text.{Text}
use coredns_nextdns.Prelude.Result.{IsOk-ok, ok, map_err-IsOk, IsOk, any-IsOk, map_err}
use coredns_nextdns.Prelude.Dict
use coredns_nextdns.Prelude.Int.{ℤ, pos, negsuc, leb_ℤ, pos_part}
use coredns_nextdns.Prelude.Dict.{Dict}
use coredns_nextdns.Device.{id_mac}
use coredns_nextdns.Discovery.{Discoverer, new_discoverer}
use coredns_nextdns.Doh.Setup.{
  DohOptions, Url, new_doh_client, apply_bootstrap, build_endpoints, default_timeout,
}
use coredns_nextdns.Discovery.Valid.{IsValid}
use coredns_nextdns.Routing.{ClientProfile, sort_longest, insert_longest}
use coredns_nextdns.Routing.Valid.{IsRoute, IsChecked}
use coredns_nextdns.Config.{CacheSettings, ℤ, bad_endpoint, Tuning, Bool, Parsers, Settings}
use coredns_nextdns.Config.Finish.{build_client, finish-eq-ok}
use coredns_nextdns.Config.Parse.{
  configured, is_tuned, is_id_mac, Configured, tune, tune_discoverer, has_source, make_cache,
  finish, or_else, Lookups, default_discovery_timeout,
}
use coredns_nextdns.Config.Sound.{IsAbsentOr, IsTuning, IsSound}

insert_longest-All :
    (P : ClientProfile → Type 0) (cp : ClientProfile) (l : List ClientProfile)
    → P cp
    → All P l
    → All P (insert_longest cp l)
unfolding insert_longest
insert_longest-All P cp [] h all = (h, tt)
insert_longest-All P cp (x ∷ l) h all =
    ground (arith, h, all.0, all.1, insert_longest-All P cp l h all.1)

sort_longest-All :
    (P : ClientProfile → Type 0) (l : List ClientProfile) → All P l → All P (sort_longest l)
unfolding sort_longest
sort_longest-All P [] all = tt
sort_longest-All P (cp ∷ l) all =
    insert_longest-All P cp (sort_longest l) all.0 (sort_longest-All P l all.1)

abbrev pub IsUsableDiscoverer : Discoverer → Type 0
IsUsableDiscoverer d = IsValid d × (1 ≤ d.ttl) × (1 ≤ d.retry)

-- What the handler and its background work can rely on.
pub record IsUsable (c : Configured) : Type 0 where
  pub routes : IsChecked c.handler.routes
  pub cache : IsAbsentOr (λ m. m.min_ttl ≤ m.max_ttl) c.handler.cache
  pub discovery : IsAbsentOr IsUsableDiscoverer c.handler.devices.discovery
  pub reload : 1 ≤ c.sources.reload
  pub mac_source : c.handler.devices.mode ≡ id_mac → has_source c.sources ≡ true
  pub deadline : 1 ≤ c.http.timeout
  pub lookups : IsAbsentOr (λ l. 1 ≤ l.timeout) c.lookups

or_else-1-le : (d : ℕ) (o : Option ℕ) → 1 ≤ d → IsAbsentOr (λ n. 1 ≤ n) o → 1 ≤ or_else d o
or_else-1-le d none h k = h
or_else-1-le d (some n) h k = k

tuned-IsUsable : (t : Tuning) → IsTuning t → IsUsableDiscoverer (tune_discoverer t new_discoverer)
unfolding tune_discoverer new_discoverer Dict.get
tuned-IsUsable t h = (
  record {
    positive = or_else-1-le 4096 t.max (omega arith) h.max;
    counted = refl;
    few = omega arith;
    bounded = omega arith;
    entries_distinct = tt;
    inflight_distinct = tt;
    owned = λ a done e. cc;
  },
  or_else-1-le 300_000_000_000 t.ttl (omega arith) h.ttl,
  or_else-1-le 300_000_000_000 t.retry (omega arith) h.retry,
)

tune-IsOk : (s : Settings) → IsSound s → IsOk (IsAbsentOr IsUsableDiscoverer) (tune s)
unfolding tune
tune-IsOk s (read, range, tuning, reload, fresh) = elim (Option-cases s.devices.discovery) [
  | inl off ↦ elim (Bool-cases (is_tuned s.tuning)) [
    | inl tuned ↦ rw (off, tuned, tune) tt
    | inr untuned ↦ rw (off, untuned, tune) tt
  ]
  | inr (d, on) ↦
      rw (on, tune)
        (subst (λ x. IsUsableDiscoverer (tune_discoverer s.tuning x))
          (sym (subst (IsAbsentOr (λ x. x ≡ new_discoverer)) on fresh))
          (tuned-IsUsable s.tuning tuning))
]

deadline-1-le : (t : ℤ) → 1 ≤ (if leb_ℤ t (pos 0) then default_timeout else pos_part t)
deadline-1-le (pos n) = ground arith
deadline-1-le (negsuc n) = ground arith

new_doh_client-IsOk :
    (is_ip : Text → Bool) (parse_url : Text → Option Url) (o : DohOptions)
    → IsOk (λ c. 1 ≤ c.1.timeout) (map_err bad_endpoint (new_doh_client is_ip parse_url o))
unfolding new_doh_client
new_doh_client-IsOk is_ip parse_url o =
    map_err-IsOk (λ c. 1 ≤ c.1.timeout) bad_endpoint (new_doh_client is_ip parse_url o)
      (any-IsOk (λ c. 1 ≤ c.1.timeout) (build_endpoints is_ip parse_url _) _
        (λ eps. deadline-1-le o.timeout))

make_cache-range :
    (c : CacheSettings)
    → c.min_ttl ≤ c.max_ttl
    → IsAbsentOr (λ m. m.min_ttl ≤ m.max_ttl) (make_cache c)
unfolding make_cache
make_cache-range c h = elim (Bool-cases c.on) [
  | inl on ↦ rw (on, make_cache) h
  | inr off ↦ rw (off, make_cache) tt
]

-- The end of parseNextDNS makes a usable handler of sound settings, if it makes one.
pub finish-IsUsable :
    (p : Parsers) (s : Settings) (c : Configured) → IsSound s → finish p s ≡ ok c → IsUsable c
unfolding configured build_client
finish-IsUsable p s c (read, range, tuning, reload, fresh) e =
    let (d, client, f, same) = finish-eq-ok p s c e in
    let o : DohOptions = record (s.doh) { endpoints = apply_bootstrap s.endpoints s.bootstrap } in
    subst IsUsable (sym same) (record {
      routes = record {
        default = read.default (ground (arith, f.named));
        views = read.views;
        clients = sort_longest-All (λ cp. IsRoute cp.profile) s.routes.client_profiles read.clients;
      };
      cache = make_cache-range s.cache range;
      discovery =
          IsOk-ok (IsAbsentOr IsUsableDiscoverer) (tune s) f.tuned
            (tune-IsOk s (read, range, tuning, reload, fresh));
      reload = reload;
      mac_source = λ is. ground (arith, f.mac, ap is_id_mac is);
      deadline =
          IsOk-ok (λ x. 1 ≤ x.1.timeout) (build_client p s) f.built
            (new_doh_client-IsOk p.is_ip p.parse_url o);
      lookups =
          elim s.resolver
            as (λ r.
              IsAbsentOr (λ (l : Lookups). 1 ≤ l.timeout)
                (elim r [
                  | some x ↦ some (record {
                    resolver = x;
                    timeout = or_else default_discovery_timeout s.tuning.timeout;
                  })
                  | none ↦ none
                ])) [
                  | some r ↦
                      or_else-1-le default_discovery_timeout s.tuning.timeout (omega arith)
                        tuning.timeout
                  | none ↦ tt
                ];
    })
