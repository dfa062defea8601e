-- ===== src/Config/Accepted.antt =====
-- What a configuration that parseNextDNS accepts makes of the handler, and what it refuses.
use coredns_nextdns.Prelude.{◌≡◌, inl, inr, List, [], ◌∷◌, All, arith, Option-cases}
use coredns_nextdns.Prelude.Text.{Text, text_discrete}
use coredns_nextdns.Prelude.Result.{
  >>=-eq-ok, ok, IsOk, >>=-IsOk, any-IsOk, IsOk-ok, fold_steps-IsOk,
}
use coredns_nextdns.Prelude.Dict
use coredns_nextdns.Prelude.Dict.{Dict}
use coredns_nextdns.Routing.{Asked, profile_for}
use coredns_nextdns.Routing.Valid.{profile_for-IsRoute, IsRoute}
use coredns_nextdns.Config.{Parsers, Block, Settings, new_settings}
use coredns_nextdns.Config.Parse.{
  Configured, properties, set_property, line_properties, read_line, read_args, read_block,
  read_blocks, finish, parse_nextdns,
}
use coredns_nextdns.Config.Sound.{IsSound}
use coredns_nextdns.Config.Sound.Setters
use coredns_nextdns.Config.Usable.{IsUsable, finish-IsUsable}

module _ (p : Parsers) where
  properties-IsOk :
      All
        (λ e. (s : Settings) (args : List Text) → IsSound s → IsOk IsSound (e.1 s args))
        (properties p)
  unfolding properties
  properties-IsOk = (
    Setters.set_profile-IsOk p,
    (
      Setters.set_view_profile-IsOk p,
      (
        Setters.set_client_profile-IsOk p,
        (
          Setters.add_endpoints-IsOk p,
          (
            Setters.add_bootstrap-IsOk p,
            (
              Setters.set_tls_server_name-IsOk p,
              (
                Setters.set_timeout-IsOk p,
                (
                  Setters.set_max_idle_conns-IsOk p,
                  (
                    Setters.set_max_concurrent-IsOk p,
                    (
                      Setters.set_cache-IsOk p,
                      (
                        Setters.set_cache_ttl-IsOk p,
                        (
                          Setters.set_device_id-IsOk p,
                          (
                            Setters.set_device_model-IsOk p,
                            (
                              Setters.set_device_ip-IsOk p,
                              (
                                Setters.add_device_name-IsOk p,
                                (
                                  Setters.add_device_names-IsOk p,
                                  (
                                    Setters.set_discovery-IsOk p,
                                    (
                                      Setters.set_discovery_ttl-IsOk p,
                                      (
                                        Setters.set_discovery_retry-IsOk p,
                                        (
                                          Setters.set_discovery_wait-IsOk p,
                                          (
                                            Setters.set_discovery_timeout-IsOk p,
                                            (
                                              Setters.set_discovery_max-IsOk p,
                                              (
                                                Setters.set_arp-IsOk p,
                                                (Setters.set_reload-IsOk p, tt),
                                              ),
                                            ),
                                          ),
                                        ),
                                      ),
                                    ),
                                  ),
                                ),
                              ),
                            ),
                          ),
                        ),
                      ),
                    ),
                  ),
                ),
              ),
            ),
          ),
        ),
      ),
    ),
  )

  set_property-IsOk :
      (s : Settings) (a : Text × List Text) → IsSound s → IsOk IsSound (set_property p s a)
  unfolding set_property
  set_property-IsOk s (name, args) h =
      elim (Option-cases (Dict.get text_discrete name (properties p))) [
        | inl missing ↦ rw (missing, set_property) tt
        | inr (set, found) ↦
            rw (found, set_property)
              (Dict.get-All text_discrete
                (λ f. (s' : Settings) (l : List Text) → IsSound s' → IsOk IsSound (f.1 s' l)) name
                (properties p) properties-IsOk found s args h)
      ]

  read_line-IsOk : (s : Settings) (line : List Text) → IsSound s → IsOk IsSound (read_line p s line)
  unfolding read_line
  read_line-IsOk s line h =
      fold_steps-IsOk IsSound (set_property p) set_property-IsOk s (line_properties line) h

  read_args-IsOk : (s : Settings) (args : List Text) → IsSound s → IsOk IsSound (read_args p s args)
  unfolding read_args
  read_args-IsOk s [] h = h
  read_args-IsOk s (v ∷ []) h = Setters.set_profile-IsOk p s (v ∷ []) h
  read_args-IsOk s (v ∷ w ∷ rest) h = tt

  read_block-IsOk : (s : Settings) (b : Block) → IsSound s → IsOk IsSound (read_block p s b)
  unfolding read_block
  read_block-IsOk s b h =
      >>=-IsOk IsSound IsSound (read_args p s b.args) _ (read_args-IsOk s b.args h)
        (λ s' k. fold_steps-IsOk IsSound (read_line p) read_line-IsOk s' b.lines k)

  read_blocks-IsOk :
      (s : Settings) (blocks : List Block) → IsSound s → IsOk IsSound (read_blocks p s blocks)
  unfolding read_blocks
  read_blocks-IsOk s [] h = h
  read_blocks-IsOk s (b ∷ []) h = read_block-IsOk s b h
  read_blocks-IsOk s (b ∷ c ∷ rest) h = any-IsOk IsSound (read_block p s b) _ (λ _. tt)

new_settings-IsSound : IsSound new_settings
unfolding new_settings
new_settings-IsSound = (
  record { default = λ e. absurd (ground (arith, e)); views = tt; clients = tt },
  omega arith,
  record { ttl = tt; retry = tt; timeout = tt; max = tt },
  omega arith,
  tt,
)

-- Whatever the block says, what parseNextDNS accepts can be used: the default profile is valid, and
-- every other one is valid or `-`; the cache's lifetimes are a range; a discoverer is well formed
-- as at its start, with a lifetime, a retry interval and a lookup timeout of at least 1 ns each; so
-- is the interval of the refreshes, and the deadline of an exchange; and under a device_id of mac
-- there is a file or the ARP table to read.
pub parse_nextdns-IsUsable :
    (p : Parsers) (blocks : List Block) (c : Configured)
    → parse_nextdns p blocks ≡ ok c
    → IsUsable c
unfolding parse_nextdns
parse_nextdns-IsUsable p blocks c e =
    let (s, read, finished) = >>=-eq-ok (read_blocks p new_settings blocks) (finish p) e in
    finish-IsUsable p s c
      (IsOk-ok IsSound (read_blocks p new_settings blocks) read
        (read_blocks-IsOk p new_settings blocks new_settings-IsSound))
      finished

-- Under every accepted configuration every query is sent to a valid profile or handed on.
pub profile_for-parse_nextdns :
    (p : Parsers) (blocks : List Block) (c : Configured) (q : Asked)
    → parse_nextdns p blocks ≡ ok c
    → IsRoute (profile_for p.parse_addr c.handler.routes q)
profile_for-parse_nextdns p blocks c q e =
    profile_for-IsRoute p.parse_addr c.handler.routes q (parse_nextdns-IsUsable p blocks c e).routes
