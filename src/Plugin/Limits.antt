-- ===== src/Plugin/Limits.antt =====
-- nextdns.go: the concurrency limit of the handler.
use coredns_nextdns.Prelude.{
  Option-cases, ◌+◌, ◌-◌, ◌≡◌, ◌≢◌, ◌⊎◌, inl, inr, ◌||◌, refl, ◌≤◌, ◌<◌, true, false, none, some,
  arith,
}
use coredns_nextdns.Prelude.Text.{Text, text_eq, is_empty}
use coredns_nextdns.Dns.{Msg}
use coredns_nextdns.Dns.Rcode
use coredns_nextdns.Cache.{Found, hit, absent, collided}
use coredns_nextdns.Routing.{passthrough, note_metadata}
use coredns_nextdns.Plugin.{
  published, go_out, count_cache, ClientInfo, serve_found, override, refuse, preceded, Libraries,
  NextDns, Query, max_concurrent_error, Outcome, accept, conclude, go_upstream, with_slot, look_up,
  serve_profile, route, serve_dns, identify, reply,
}

-- Each outcome of a lookup.
pub Found-cases : (f : Found) → (f ≡ absent ⊎ f ≡ collided) ⊎ ((m : Msg) × (f ≡ hit m))
Found-cases (hit m) = inr (m, refl)
Found-cases absent = inl (inl refl)
Found-cases collided = inl (inr refl)

module _ (lib : Libraries) where
  -- Accepting a reply leaves the counter of slots alone.
  accept-concurrent :
      (n : NextDns) (q : Query) (profile : Text) (m : Msg)
      → (accept lib n q profile m).0.concurrent ≡ n.concurrent
  unfolding accept
  accept-concurrent n q profile m = ground arith

  go_upstream-concurrent :
      (n : NextDns) (q : Query) (profile : Text) (ci : ClientInfo)
      → (go_upstream lib n q profile ci).0.concurrent ≡ n.concurrent
  unfolding go_upstream conclude
  go_upstream-concurrent n q profile ci = elim (Option-cases (go_out lib n q profile ci).0) [
    | inl e ↦ rw (go_upstream, conclude, e) refl
    | inr (m, e) ↦
        rw (go_upstream, conclude, e)
          (accept-concurrent (record n { client = (go_out lib n q profile ci).1 }) q profile m)
  ]

  with_slot-concurrent :
      (n : NextDns) (q : Query) (profile : Text) (ci : ClientInfo)
      → (with_slot lib n q profile ci).0.concurrent ≡ n.concurrent
  unfolding with_slot
  with_slot-concurrent n q profile ci = ground (
    arith,
    go_upstream-concurrent n q profile ci,
    go_upstream-concurrent (record n { concurrent = n.concurrent + 1 }) q profile ci,
  )

  -- The plugin once a query that may be held has been identified.
  unfoldable pub identified : NextDns → Query → Text → NextDns
  identified n q profile = record n { devices = (identify lib true n q profile).1 }

  -- What a query that the cache cannot answer comes to.
  unfoldable pub missed : NextDns → Query → Text → NextDns × Outcome
  missed n q profile =
      with_slot lib (identified n q profile) q profile (identify lib true n q profile).0

  -- The outcomes of serve_profile, a hit or a miss.
  pub serve_profile_cases :
      (n : NextDns) (q : Query) (profile : Text)
      → ((m : Msg) × (look_up lib n q profile ≡ hit m)
          × (serve_profile lib n q profile ≡ (
            record n { devices = (identify lib false n q profile).1 },
            preceded
                (count_cache lib n (hit m))
                (published lib q profile (identify lib false n q profile).0)
                (reply q profile m),
          )))
        ⊎ (((m : Msg) → look_up lib n q profile ≢ hit m)
            × (serve_profile lib n q profile ≡ (
              (missed n q profile).0,
              preceded
                  (count_cache lib n (look_up lib n q profile))
                  (published lib q profile (identify lib true n q profile).0)
                  (missed n q profile).1,
            )))
  unfolding serve_profile serve_found missed identified preceded
  serve_profile_cases n q profile = elim (Found-cases (look_up lib n q profile)) [
    | inl (inl e) ↦ inr (λ m f. ground (arith, e, f), rw (serve_profile, e) refl)
    | inl (inr e) ↦ inr (λ m f. ground (arith, e, f), rw (serve_profile, e) refl)
    | inr (m, e) ↦ inl (m, e, rw (serve_profile, e) refl)
  ]

  serve_profile-concurrent :
      (n : NextDns) (q : Query) (profile : Text)
      → (serve_profile lib n q profile).0.concurrent ≡ n.concurrent
  unfolding missed identified
  serve_profile-concurrent n q profile = elim (serve_profile_cases n q profile) [
    | inl (m, e, same) ↦ rw same refl
    | inr (e, same) ↦
        rw same (
          with_slot-concurrent (identified n q profile) q profile (identify lib true n q profile).0)
  ]

  -- Whatever a query meets, a cached reply, a refusal, a failed exchange, a mismatched reply or
  -- the next plugin, every slot that its handling took has been given back at the end.
  pub serve_dns-concurrent :
      (n : NextDns) (q : Query) → (serve_dns lib n q).0.concurrent ≡ n.concurrent
  unfolding serve_dns
  serve_dns-concurrent n q = ground (
    arith,
    serve_profile-concurrent (record n { bad = note_metadata n.bad (override q) }) q
        (route lib n q),
  )

  -- A query is for a NextDNS profile: it is not one of the plugin's own, and its profile is neither
  -- empty nor `passthrough`.
  unfoldable pub IsProfileQuery : NextDns → Query → Type 0
  IsProfileQuery n q =
      q.is_discovery ≡ false
      × (is_empty (route lib n q) || text_eq (route lib n q) passthrough) ≡ false

  -- What a query for a profile comes to.
  pub serve_dns-profile :
      (n : NextDns) (q : Query)
      → IsProfileQuery n q
      → serve_dns lib n q
        ≡ serve_profile lib (record n { bad = note_metadata n.bad (override q) }) q (route lib n q)
  unfolding IsProfileQuery serve_dns
  serve_dns-profile n q (d, p) = ground arith

  pub serve_profile-hit :
      (n : NextDns) (q : Query) (profile : Text) (m : Msg)
      → look_up lib n q profile ≡ hit m
      → serve_profile lib n q profile ≡ (
        record n { devices = (identify lib false n q profile).1 },
        preceded
            (count_cache lib n (hit m))
            (published lib q profile (identify lib false n q profile).0)
            (reply q profile m),
      )
  unfolding serve_profile serve_found preceded
  serve_profile-hit n q profile m h = rw (serve_profile, h) refl

  with_slot-refused :
      (n : NextDns) (q : Query) (profile : Text) (ci : ClientInfo)
      → 0 < n.max_concurrent
      → n.max_concurrent ≤ n.concurrent
      → with_slot lib n q profile ci ≡ (record n { concurrent = n.concurrent + 1 - 1 }, refuse q)
  unfolding with_slot
  with_slot-refused n q profile ci pos full = ground arith

  pub serve_profile-miss :
      (n : NextDns) (q : Query) (profile : Text)
      → ((m : Msg) → look_up lib n q profile ≢ hit m)
      → serve_profile lib n q profile ≡ (
        (missed n q profile).0,
        preceded
            (count_cache lib n (look_up lib n q profile))
            (published lib q profile (identify lib true n q profile).0)
            (missed n q profile).1,
      )
  serve_profile-miss n q profile miss = elim (serve_profile_cases n q profile) [
    | inl (m, e, same) ↦ absurd (miss m e)
    | inr (e, same) ↦ same
  ]

  -- A query for a profile that finds a reply in the cache is answered with it, under the client's
  -- own ID, however many slots are taken: the upstream client, the cache and the slots are left as
  -- they were.
  pub serve_dns-hit :
      (n : NextDns) (q : Query) (m : Msg)
      → IsProfileQuery n q
      → look_up lib n q (route lib n q) ≡ hit m
      → ((serve_dns lib n q).1.written ≡ some (record m { id = q.request.req.id }))
        × ((serve_dns lib n q).0.client ≡ n.client)
        × ((serve_dns lib n q).0.cache ≡ n.cache)
        × ((serve_dns lib n q).0.concurrent ≡ n.concurrent)
  unfolding look_up reply preceded
  serve_dns-hit n q m p h =
      rw
        (
          serve_dns-profile n q p,
          serve_profile-hit (record n { bad = note_metadata n.bad (override q) }) q (route lib n q)
              m h,
        )
        (refl, refl, refl, refl)

  -- When there is a limit and every slot is taken, a query for a profile that the cache cannot
  -- answer is refused with an error and no message, and neither the upstream client nor the cache
  -- is touched.
  pub serve_dns-refused :
      (n : NextDns) (q : Query)
      → IsProfileQuery n q
      → ((m : Msg) → look_up lib n q (route lib n q) ≢ hit m)
      → 0 < n.max_concurrent
      → n.max_concurrent ≤ n.concurrent
      → ((serve_dns lib n q).1.rcode ≡ Rcode.refused)
        × ((serve_dns lib n q).1.error ≡ some max_concurrent_error)
        × ((serve_dns lib n q).1.written ≡ none)
        × ((serve_dns lib n q).0.client ≡ n.client)
        × ((serve_dns lib n q).0.cache ≡ n.cache)
  unfolding look_up missed identified refuse preceded
  serve_dns-refused n q p miss pos full =
      let n' = record n { bad = note_metadata n.bad (override q) } in
      rw
        (
          serve_dns-profile n q p,
          serve_profile-miss n' q (route lib n q) miss,
          missed,
          with_slot-refused (identified n' q (route lib n q)) q (route lib n q)
              (identify lib true n' q (route lib n q)).0 pos full,
        )
        (refl, refl, refl, refl, refl)
