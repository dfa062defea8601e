-- ===== src/Plugin/Upstream.antt =====
-- nextdns.go: what the handler keeps and returns of what comes from upstream.
use coredns_nextdns.Prelude.{
  ◌≡◌, ◌+◌, refl, sym, ◌⊎◌, inl, inr, true, false, none, some, arith, Option-cases, Bool-cases, ltb,
  subst, ◌||◌, not,
}
use coredns_nextdns.Prelude.Text.{Text, text_eq, is_empty}
use coredns_nextdns.Dns.{Msg}
use coredns_nextdns.Dns.Rcode
use coredns_nextdns.Cache
use coredns_nextdns.Cache.{MsgCache, hit, absent, collided}
use coredns_nextdns.Doh.{DohClient}
use coredns_nextdns.Routing.{note_metadata, passthrough}
use coredns_nextdns.Plugin.{
  List, preceded, refuse, override, Option, ClientInfo, go_out, Libraries, NextDns, Query, hand_on,
  accept, conclude, go_upstream, with_slot, serve_profile, route, serve_dns, serve_discovery,
  identify, reply, set_rcode,
}
use coredns_nextdns.Plugin.Limits.{
  identified, serve_profile_cases, missed, IsProfileQuery, serve_dns-profile,
}

module _ (lib : Libraries) where
  -- The exchange of a query that goes upstream: made for its device, which the lookup that may hold
  -- the query identifies.
  unfoldable pub own_exchange : NextDns → Query → Text → Option Msg × DohClient × List Text
  own_exchange n q profile = go_out lib n q profile (identify lib true n q profile).0

  -- The cache afterwards: as it was, or with one reply stored under the profile of the query, which
  -- is the reply that `brought` has and answers its question.
  unfoldable pub KeepsReply : Option Msg → NextDns → Query → Text → NextDns → Type 0
  KeepsReply brought n q profile n' =
      (n'.cache ≡ n.cache)
      ⊎ ((mc : MsgCache) × (m : Msg) × (n.cache ≡ some mc)
          × (brought ≡ some m)
          × (lib.match_reply q.request m ≡ true)
          × (n'.cache
              ≡ some
                  (Cache.put lib.sum64 lib.minimal_ttl q.choice mc q.write_at profile q.request m)))

  -- The cache afterwards is kept or has the reply of the query's own exchange.
  unfoldable pub IsFaithful : NextDns → Query → Text → NextDns → Type 0
  IsFaithful n q profile n' = KeepsReply (own_exchange n q profile).0 n q profile n'

  go_upstream-KeepsReply :
      (n : NextDns) (q : Query) (profile : Text) (ci : ClientInfo)
      → KeepsReply (go_out lib n q profile ci).0 n q profile (go_upstream lib n q profile ci).0
  unfolding KeepsReply go_upstream conclude accept
  go_upstream-KeepsReply n q profile ci = elim (Option-cases (go_out lib n q profile ci).0) [
    | inl e ↦ inl (rw (go_upstream, conclude, e) refl)
    | inr (m, e) ↦ elim (Bool-cases (lib.match_reply q.request m)) [
      | inr f ↦ inl (rw (go_upstream, conclude, e, accept, f) refl)
      | inl f ↦ elim (Option-cases n.cache) [
        | inl g ↦ inl (rw (go_upstream, conclude, e, accept, f, g) g)
        | inr (mc, g) ↦ inr (mc, m, g, e, f, rw (go_upstream, conclude, e, accept, f, g) refl)
      ]
    ]
  ]

  with_slot-KeepsReply :
      (n : NextDns) (q : Query) (profile : Text) (ci : ClientInfo)
      → KeepsReply (go_out lib n q profile ci).0 n q profile (with_slot lib n q profile ci).0
  unfolding KeepsReply with_slot go_out
  with_slot-KeepsReply n q profile ci = elim (Bool-cases (ltb 0 n.max_concurrent)) [
    | inr e ↦ rw (with_slot, e) (go_upstream-KeepsReply n q profile ci)
    | inl e ↦ elim (Bool-cases (ltb n.max_concurrent (n.concurrent + 1))) [
      | inl f ↦ inl (rw (with_slot, e, f) refl)
      | inr f ↦
          rw (with_slot, e, f)
            (go_upstream-KeepsReply (record n { concurrent = n.concurrent + 1 }) q profile ci)
    ]
  ]

  serve_profile-IsFaithful :
      (n : NextDns) (q : Query) (profile : Text)
      → IsFaithful n q profile (serve_profile lib n q profile).0
  unfolding IsFaithful KeepsReply own_exchange go_out missed identified
  serve_profile-IsFaithful n q profile = elim (serve_profile_cases lib n q profile) [
    | inl (m, e, same) ↦ inl (rw same refl)
    | inr (e, same) ↦ rw same (
        with_slot-KeepsReply (identified lib n q profile) q profile
          (identify lib true n q profile).0)
  ]

  -- A query leaves the cache as it was, or stores exactly one reply under its own profile: the one
  -- that the exchange of its own question, for its own profile and its own device, brought, and
  -- only if that reply matches its question.
  pub serve_dns-IsFaithful :
      (n : NextDns) (q : Query) → IsFaithful n q (route lib n q) (serve_dns lib n q).0
  unfolding IsFaithful KeepsReply own_exchange go_out serve_dns IsProfileQuery identify
  serve_dns-IsFaithful n q = elim (Bool-cases q.is_discovery) [
    | inl e ↦ inl (ground (arith, e))
    | inr e ↦ elim (Bool-cases (is_empty (route lib n q) || text_eq (route lib n q) passthrough)) [
      | inl f ↦ inl (ground (arith, e, f))
      | inr f ↦
          subst (λ r. IsFaithful n q (route lib n q) r.0) (sym (serve_dns-profile lib n q (e, f)))
            (serve_profile-IsFaithful (record n { bad = note_metadata n.bad (override q) }) q
              (route lib n q))
    ]
  ]

  accept-id :
      (n : NextDns) (q : Query) (profile : Text) (m r : Msg)
      → (accept lib n q profile m).1.written ≡ some r
      → r.id ≡ q.request.req.id
  unfolding accept reply set_rcode
  accept-id n q profile m r e = ground arith

  go_upstream-id :
      (n : NextDns) (q : Query) (profile : Text) (ci : ClientInfo) (r : Msg)
      → (go_upstream lib n q profile ci).1.written ≡ some r
      → r.id ≡ q.request.req.id
  unfolding go_upstream conclude preceded
  go_upstream-id n q profile ci r = elim (Option-cases (go_out lib n q profile ci).0) [
    | inl e ↦ rw (go_upstream, conclude, e) (λ h. ground (arith, h))
    | inr (m, e) ↦
        rw (go_upstream, conclude, e)
          (accept-id (record n { client = (go_out lib n q profile ci).1 }) q profile m r)
  ]

  with_slot-id :
      (n : NextDns) (q : Query) (profile : Text) (ci : ClientInfo) (r : Msg)
      → (with_slot lib n q profile ci).1.written ≡ some r
      → r.id ≡ q.request.req.id
  unfolding with_slot refuse
  with_slot-id n q profile ci r h = ground (
    arith,
    go_upstream-id n q profile ci r,
    go_upstream-id (record n { concurrent = n.concurrent + 1 }) q profile ci r,
  )

  serve_profile-id :
      (n : NextDns) (q : Query) (profile : Text) (r : Msg)
      → (serve_profile lib n q profile).1.written ≡ some r
      → r.id ≡ q.request.req.id
  unfolding missed preceded reply
  serve_profile-id n q profile r = elim (serve_profile_cases lib n q profile) [
    | inl (m, e, same) ↦ rw same (λ h. ground (arith, h))
    | inr (e, same) ↦
        rw same
          (with_slot-id (identified lib n q profile) q profile (identify lib true n q profile).0 r)
  ]

  -- Every message that the handler writes itself, from the cache, from upstream or an error of its
  -- own, carries the ID of the query.
  pub serve_dns-id :
      (n : NextDns) (q : Query) (r : Msg)
      → (serve_dns lib n q).1.written ≡ some r
      → r.id ≡ q.request.req.id
  unfolding serve_dns serve_discovery hand_on set_rcode
  serve_dns-id n q r h = ground (
    arith,
    serve_profile-id (record n { bad = note_metadata n.bad (override q) }) q (route lib n q) r,
  )

  -- A query that carries the mark of the plugin's own reverse lookups never reaches NextDNS: the
  -- plugin is left exactly as it was, the outcome carries no error, and the answer is the next
  -- plugin's or an empty NXDOMAIN.
  pub serve_dns-discovery :
      (n : NextDns) (q : Query)
      → q.is_discovery ≡ true
      → ((serve_dns lib n q).0 ≡ n)
        × ((serve_dns lib n q).1.error ≡ none)
        × (((serve_dns lib n q).1.written ≡ none)
            ⊎ ((serve_dns lib n q).1.written ≡ some (set_rcode q.request.req Rcode.name_error)))
  unfolding serve_dns serve_discovery
  serve_dns-discovery n q e =
      elim (Bool-cases (not q.next.failed || lib.client_write q.next.rcode)) [
        | inl f ↦ rw (serve_dns, e, serve_discovery, f) (refl, refl, inl refl)
        | inr f ↦ rw (serve_dns, e, serve_discovery, f) (refl, refl, inr refl)
      ]

  -- A query whose profile is empty or `passthrough` is the next plugin's: its code and its error are
  -- handed on, nothing is written, and of the plugin only the record of bad metadata can change.
  pub serve_dns-passthrough :
      (n : NextDns) (q : Query)
      → q.is_discovery ≡ false
      → (is_empty (route lib n q) || text_eq (route lib n q) passthrough) ≡ true
      → serve_dns lib n q ≡ (record n { bad = note_metadata n.bad (override q) }, hand_on q)
  unfolding serve_dns
  serve_dns-passthrough n q e f = ground (arith, e, f)
