-- ===== src/Plugin/Network.antt =====
-- nextdns.go and doh.go: what the handler asks of the network. Two networks that answer a query's
-- own requests alike cannot be told apart.
use coredns_nextdns.Prelude.{
  ℕ, ◌+◌, ◌≡◌, ◌≢◌, ◌<◌, ◌⊎◌, inl, inr, refl, sym, ◌∙◌, ◌||◌, List, [], ◌∷◌, true, none, some, All,
  arith, Option-cases, Bool-cases, ltb, ap, if◌then◌else◌,
}
use coredns_nextdns.Prelude.Text.{Text, text_eq, is_empty}
use coredns_nextdns.Prelude.Dict.{Dict}
use coredns_nextdns.Dns.{Msg}
use coredns_nextdns.Cache.{hit}
use coredns_nextdns.Device.{ClientInfo}
use coredns_nextdns.Doh.{Endpoint, Attempt, do_request, exchange_loop, exchange}
use coredns_nextdns.Doh.Request.{HttpRequest, new_request, exchange_query}
use coredns_nextdns.Routing.{note_metadata, passthrough}
use coredns_nextdns.Plugin.{
  conclude, Option, Libraries, NextDns, Query, override, reply, hand_on, refuse, accept, go_out,
  go_upstream, with_slot, look_up, published, serve_profile, route, serve_dns, serve_discovery,
  identify,
}
use coredns_nextdns.Plugin.Limits.{
  serve_dns-profile, IsProfileQuery, identified, missed, serve_profile_cases, serve_profile-hit,
  serve_profile-miss,
}

-- One round of the loop of exchange, given how the attempt ends and what the rest of the loop does.
round :
    Text
    → Endpoint
    → Attempt
    → (Dict Text ℕ → Option Msg × Dict Text ℕ × List Text)
    → Dict Text ℕ
    → Option Msg × Dict Text ℕ × List Text
round profile ep a rest m =
    let (reply, m') = do_request profile a.response m in
    let later = rest m' in
    elim reply [
      | some msg ↦ (some msg, m', [])
      | none ↦ if a.expired then (none, m', ep.host ∷ []) else (later.0, later.1, ep.host ∷ later.2)
    ]

module _ (profile : Text) (a b : Endpoint → Attempt) where
  -- The loop of exchange reads an attempt at the endpoints alone.
  exchange_loop-agree :
      (eps : List Endpoint)
      → All (λ ep. a ep ≡ b ep) eps
      → exchange_loop profile a eps ≡ exchange_loop profile b eps
  unfolding exchange_loop round
  exchange_loop-agree [] h = refl
  exchange_loop-agree (ep ∷ eps) (e, h) =
      let rest = exchange_loop-agree eps h in λ i. round profile ep (e i) (rest i)

-- The query under another network.
abbrev pub over : (Endpoint → HttpRequest → Attempt) → Query → Query
over network q = record q { network = network }

module _ (lib : Libraries) where
  -- The two networks answer alike to the request that carries `q`, with the ID 0, for `profile` and
  -- the device `ci`, at every endpoint of the plugin.
  unfoldable pub Agrees :
      (Endpoint → HttpRequest → Attempt) → NextDns → Query → Text → ClientInfo → Type 0
  Agrees network n q profile ci =
      (wire : Text)
      → lib.pack (record q.request.req { id = 0 }) ≡ some wire
      → All
          (λ ep.
            network ep (new_request ep profile wire ci)
            ≡ q.network ep (new_request ep profile wire ci))
          n.client.endpoints

  -- The query goes upstream: it is for a NextDNS profile, the cache cannot answer it, and there is
  -- a slot for it.
  pub record GoesUpstream (n : NextDns) (q : Query) : Type 0 where
    pub profile_query : IsProfileQuery lib n q
    pub miss : (m : Msg) → look_up lib n q (route lib n q) ≢ hit m
    pub admitted : (n.max_concurrent ≡ 0) ⊎ (n.concurrent < n.max_concurrent)

  go_out-over :
      (network : Endpoint → HttpRequest → Attempt) (n : NextDns) (q : Query) (profile : Text)
      (ci : ClientInfo)
      → Agrees network n q profile ci
      → go_out lib n (over network q) profile ci ≡ go_out lib n q profile ci
  unfolding Agrees go_out exchange_query exchange
  go_out-over network n q profile ci h =
      elim (Option-cases (lib.pack (record q.request.req { id = 0 }))) [
        | inl e ↦ rw (go_out, exchange_query, e) refl
        | inr (wire, e) ↦
            rw
              (
                go_out,
                exchange_query,
                e,
                exchange,
                exchange_loop-agree profile (λ ep. network ep (new_request ep profile wire ci))
                    (λ ep. q.network ep (new_request ep profile wire ci)) n.client.endpoints
                    (h wire e),
              )
              refl
      ]

  go_upstream-over :
      (network : Endpoint → HttpRequest → Attempt) (n : NextDns) (q : Query) (profile : Text)
      (ci : ClientInfo)
      → Agrees network n q profile ci
      → go_upstream lib n (over network q) profile ci ≡ go_upstream lib n q profile ci
  unfolding go_upstream conclude accept reply
  go_upstream-over network n q profile ci h =
      ap (conclude lib n q profile) (go_out-over network n q profile ci h)

  with_slot-over :
      (network : Endpoint → HttpRequest → Attempt) (n : NextDns) (q : Query) (profile : Text)
      (ci : ClientInfo)
      → ((n.max_concurrent ≡ 0) ⊎ (n.concurrent < n.max_concurrent) → Agrees network n q profile ci)
      → with_slot lib n (over network q) profile ci ≡ with_slot lib n q profile ci
  unfolding with_slot refuse Agrees
  with_slot-over network n q profile ci h = elim (Bool-cases (ltb 0 n.max_concurrent)) [
    | inr e ↦ rw (with_slot, e) (go_upstream-over network n q profile ci (h (ground arith)))
    | inl e ↦ elim (Bool-cases (ltb n.max_concurrent (n.concurrent + 1))) [
      | inl f ↦ rw (with_slot, e, f) refl
      | inr f ↦
          rw
            (
              with_slot,
              e,
              f,
              go_upstream-over network (record n { concurrent = n.concurrent + 1 }) q profile ci
                  (h (ground arith)),
            )
            refl
    ]
  ]

  serve_profile-over :
      (network : Endpoint → HttpRequest → Attempt) (n : NextDns) (q : Query) (profile : Text)
      → (((m : Msg) → look_up lib n q profile ≢ hit m)
          → (n.max_concurrent ≡ 0) ⊎ (n.concurrent < n.max_concurrent)
          → Agrees network n q profile (identify lib true n q profile).0)
      → serve_profile lib n (over network q) profile ≡ serve_profile lib n q profile
  unfolding missed identified Agrees look_up identify published reply
  serve_profile-over network n q profile h = elim (serve_profile_cases lib n q profile) [
    | inl (m, e, same) ↦ serve_profile-hit lib n (over network q) profile m e ∙ sym same
    | inr (e, same) ↦
        rw
          (
            serve_profile-miss lib n (over network q) profile e,
            same,
            missed,
            with_slot-over network (identified lib n q profile) q profile
                (identify lib true n q profile).0 (h e),
          )
          refl
  ]

  -- What a query does, to the plugin and to its client, depends on the network only through the
  -- answers to the query's own requests: the POST of its own question with the ID 0, for its own
  -- profile and with its own device's headers, at the plugin's endpoints. A query that is a reverse
  -- lookup of the plugin's own, or the next plugin's, or answered from the cache, or refused, does
  -- not depend on the network at all.
  pub serve_dns-over :
      (n : NextDns) (q : Query) (network : Endpoint → HttpRequest → Attempt)
      → (GoesUpstream n q
          → Agrees network n q (route lib n q) (identify lib true n q (route lib n q)).0)
      → serve_dns lib n (over network q) ≡ serve_dns lib n q
  unfolding serve_dns route override serve_discovery hand_on Agrees look_up identify
  serve_dns-over n q network h = elim (Bool-cases q.is_discovery) [
    | inl e ↦ ground (arith, e)
    | inr e ↦ elim (Bool-cases (is_empty (route lib n q) || text_eq (route lib n q) passthrough)) [
      | inl f ↦ ground (arith, e, f)
      | inr f ↦
          let p : IsProfileQuery lib n q = unfold IsProfileQuery in (e, f) in
          serve_dns-profile lib n (over network q) (unfold IsProfileQuery in (e, f))
          ∙ serve_profile-over network (record n { bad = note_metadata n.bad (override q) }) q
              (route lib n q)
              (λ miss admitted. h (record { profile_query = p; miss = miss; admitted = admitted }))
          ∙ sym (serve_dns-profile lib n q p)
    ]
  ]
