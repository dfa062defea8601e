-- ===== src/Plugin/History.antt =====
-- nextdns.go and cache.go: the handler with its cache over a sequence of queries, and where a reply
-- that the cache serves comes from.
use coredns_nextdns.Prelude.{
  All-weaken, ℕ, ◌≡◌, inl, inr, refl, sym, ◌∙◌, List, [], ◌∷◌, ◌++◌, true, none, some, All, Any,
  Any-weaken, All-append, All-weaken, arith, subst,
}
use coredns_nextdns.Prelude.Text.{Text}
use coredns_nextdns.Dns.{Msg}
use coredns_nextdns.Store
use coredns_nextdns.Store.Bounds.{IsValid}
use coredns_nextdns.Cache
use coredns_nextdns.Cache.{MsgCache, hit}
use coredns_nextdns.Cache.Hits
use coredns_nextdns.Cache.Hits.{Stored, Serves}
use coredns_nextdns.Doh.{conf_changed_at}
use coredns_nextdns.Plugin.{Libraries, NextDns, Query, look_up, route, serve_dns}
use coredns_nextdns.Plugin.Upstream.{KeepsReply, IsFaithful, own_exchange, serve_dns-IsFaithful}

-- The call of put for the reply `m` of a query.
abbrev pub stored_of : Query → Text → Msg → Stored
stored_of q profile m = record {
  choice = q.choice;
  at = q.write_at;
  profile = profile;
  request = q.request;
  reply = m;
}

module _ (lib : Libraries) where
  -- Queries one after the other.
  unfoldable pub serve_all : NextDns → List Query → NextDns
  serve_all n [] = n
  serve_all n (q ∷ rest) = serve_all (serve_dns lib n q).0 rest

  -- Each query of a run, with the plugin as the query finds it.
  unfoldable pub visits : NextDns → List Query → List (NextDns × Query)
  visits n [] = []
  visits n (q ∷ rest) = (n, q) ∷ visits (serve_dns lib n q).0 rest

  -- The reply `m` came to a query from its own exchange and matches its question.
  pub record Brought (m : Msg) (v : NextDns × Query) : Type 0 where
    pub exchanged : (own_exchange lib v.0 v.1 (route lib v.0 v.1)).0 ≡ some m
    pub matches : lib.match_reply v.1.request m ≡ true

  -- A call of put is that of a query for the reply that it brought.
  abbrev pub PutBy : Stored → NextDns × Query → Type 0
  PutBy a v = (a ≡ stored_of v.1 (route lib v.0 v.1) a.reply) × Brought a.reply v

  -- The cache after one query: some calls of put, each for the reply that the query brought.
  cache_after :
      (n : NextDns) (q : Query) (mc : MsgCache)
      → n.cache ≡ some mc
      → (calls : List Stored) × ((serve_dns lib n q).0.cache
          ≡ some (Hits.run lib.sum64 lib.minimal_ttl mc calls))
        × All (λ a. PutBy a (n, q)) calls
  unfolding KeepsReply IsFaithful Hits.run
  cache_after n q mc e = elim (serve_dns-IsFaithful lib n q) [
    | inl same ↦ ([], same ∙ e, tt)
    | inr (mc', m, e', brought, match, put) ↦ (
      stored_of q (route lib n q) m ∷ [],
      ground (arith, e, e', put),
      ((refl, record { exchanged = brought; matches = match }), tt),
    )
  ]

  pub run-append :
      (mc : MsgCache) (xs ys : List Stored)
      → Hits.run lib.sum64 lib.minimal_ttl mc (xs ++ ys)
        ≡ Hits.run lib.sum64 lib.minimal_ttl (Hits.run lib.sum64 lib.minimal_ttl mc xs) ys
  unfolding Hits.run
  run-append mc [] ys = refl
  run-append mc (a ∷ xs) ys =
      run-append (Cache.put lib.sum64 lib.minimal_ttl a.choice mc a.at a.profile a.request a.reply)
        xs ys

  -- A plugin that serves queries has a cache that is the store under some calls of put, each made by
  -- one of the queries for the reply that its own exchange brought.
  pub serve_all-cache :
      (n : NextDns) (qs : List Query) (mc : MsgCache)
      → n.cache ≡ some mc
      → (calls : List Stored) × ((serve_all n qs).cache
          ≡ some (Hits.run lib.sum64 lib.minimal_ttl mc calls))
        × All (λ a. Any (PutBy a) (visits n qs)) calls
  unfolding serve_all visits Hits.run
  serve_all-cache n [] mc e = ([], e, tt)
  serve_all-cache n (q ∷ rest) mc e =
      let (first, after, made) = cache_after n q mc e in
      let (later, end, rest_made) =
        serve_all-cache (serve_dns lib n q).0 rest (Hits.run lib.sum64 lib.minimal_ttl mc first)
          after in
      (
        first ++ later,
        end ∙ rw (run-append mc first later) refl,
        All-append (λ a. Any (PutBy a) (visits n (q ∷ rest))) first later
            (All-weaken (λ a. PutBy a (n, q)) (λ a. Any (PutBy a) (visits n (q ∷ rest)))
              (λ a p. inl p) first made)
            (All-weaken (λ a. Any (PutBy a) (visits (serve_dns lib n q).0 rest))
              (λ a. Any (PutBy a) (visits n (q ∷ rest))) (λ a p. inr p) later rest_made),
      )

  -- The query of a visit brought a reply that may serve `q` under `profile` as the message `m`.
  pub record Source (mc : MsgCache) (n : NextDns) (q : Query) (m : Msg) (v : NextDns × Query)
      : Type 0 where
    pub original : Msg
    pub brought : Brought original v
    pub serves :
        Serves lib.sum64 lib.minimal_ttl mc
          (conf_changed_at n.client.last_mod)
          q.read_at
          (route lib n q)
          q.request
          m
          (stored_of v.1 (route lib v.0 v.1) original)

  pub look_up-some :
      (n : NextDns) (q : Query) (profile : Text) (mc : MsgCache)
      → n.cache ≡ some mc
      → look_up lib n q profile
        ≡ Cache.get lib.sum64 lib.minimal_ttl mc
            (conf_changed_at n.client.last_mod)
            q.read_at
            profile
            q.request
  unfolding look_up
  look_up-some n q profile mc e = rw (look_up, e) refl

  -- What serves a query, among the calls of put, comes from a query that brought it.
  traced :
      (mc : MsgCache) (n : NextDns) (q : Query) (m : Msg) (vs : List (NextDns × Query))
      (calls : List Stored)
      → Any
          (Serves lib.sum64 lib.minimal_ttl mc
            (conf_changed_at n.client.last_mod)
            q.read_at
            (route lib n q)
            q.request
            m)
          calls
      → All (λ a. Any (PutBy a) vs) calls
      → Any (Source mc n q m) vs
  traced mc n q m vs [] h made = elim h [ ]
  traced mc n q m vs (a ∷ calls) (inl h) made =
      Any-weaken (PutBy a) (Source mc n q m)
        (λ v p. record {
          original = a.reply;
          brought = p.1;
          serves =
              subst
                (Serves lib.sum64 lib.minimal_ttl mc (conf_changed_at n.client.last_mod) q.read_at
                  (route lib n q) q.request m)
                p.0 h;
        })
        vs made.0
  traced mc n q m vs (a ∷ calls) (inr h) made = traced mc n q m vs calls h made.1

  -- A reply that the cache has for a query after any run of queries is one that a query of the run
  -- brought: by an exchange of its own for the same profile and with the same question, matched, put
  -- in the cache, not older than the profile's last configuration change, and still alive. This
  -- holds for a cache that starts empty and valid, whatever the hash and the evictions do.
  pub look_up-serve_all :
      (n : NextDns) (qs : List Query) (q : Query) (mc : MsgCache) (size : ℕ) (m : Msg)
      → n.cache ≡ some mc
      → IsValid size mc.c
      → ((key : ℕ) → Store.get key mc.c ≡ none)
      → let n' = serve_all n qs in
        look_up lib n' q (route lib n' q) ≡ hit m → Any (Source mc n' q m) (visits n qs)
  look_up-serve_all n qs q mc size m e valid empty h =
      let n' = serve_all n qs in
      let (calls, after, made) = serve_all-cache n qs mc e in
      let found = sym (look_up-some n' q (route lib n' q) _ after) ∙ h in
      let (served, not_ptr) =
        Hits.get-run lib.sum64 lib.minimal_ttl mc size calls (conf_changed_at n'.client.last_mod)
          q.read_at (route lib n' q) q.request m valid empty found in
      traced mc n' q m (visits n qs) calls served made
