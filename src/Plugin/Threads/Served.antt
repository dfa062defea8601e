-- ===== src/Plugin/Threads/Served.antt =====
-- The cache when the stages of many handlers interleave: where a reply that it serves comes from.
use coredns_nextdns.Prelude.{
  ℕ, ◌≡◌, inl, inr, refl, sym, ap, subst, ◌∙◌, List, [], ◌∷◌, ◌++◌, true, none, some, All, Any,
  All-append, All-weaken, All-set, All-get_elem?, Any-weaken, get_elem?, zero, suc, set, arith,
  Option-cases,
}
use coredns_nextdns.Prelude.Text.{Text}
use coredns_nextdns.Dns.{Msg}
use coredns_nextdns.Store
use coredns_nextdns.Store.Bounds.{IsValid}
use coredns_nextdns.Cache
use coredns_nextdns.Cache.{MsgCache, hit, absent, collided}
use coredns_nextdns.Cache.Hits
use coredns_nextdns.Cache.Hits.{Stored, Serves}
use coredns_nextdns.Discovery.Valid.{Any-set}
use coredns_nextdns.Doh.{conf_changed_at}
use coredns_nextdns.Plugin.{Libraries, NextDns, Query, look_up}
use coredns_nextdns.Plugin.History.{stored_of, run-append, look_up-some}
use coredns_nextdns.Plugin.Threads.{Stage, arrived, Thread, Server, proceed, step, run}
use coredns_nextdns.Plugin.Threads.Puts.{Brought, Pending, Puts, proceed-Pending, proceed-Puts}

module _ (lib : Libraries) where
  -- A call of put is that of a handler for the reply that it brought.
  abbrev pub PutBy : Stored → Thread → Type 0
  PutBy a t =
      (a ≡ stored_of t.query t.profile a.reply)
      × Brought lib t.query t.profile a.reply
      × (lib.match_reply t.query.request a.reply ≡ true)

  -- The cache is `mc` with some calls of put, each of one of the handlers.
  pub record IsSourced (mc : MsgCache) (s : Server) : Type 0 where
    pub calls : List Stored
    pub cache : s.plugin.cache ≡ some (Hits.run lib.sum64 lib.minimal_ttl mc calls)
    pub made : All (λ a. Any (PutBy a) s.threads) calls
    pub pending : All (λ t. Pending lib t.query t.profile t.stage) s.threads

  -- The handlers after a step of the `i`-th, which keeps its query.
  moved :
      (s : Server) (i : ℕ) (t : Thread) (stage : Stage) (calls : List Stored)
      → get_elem? s.threads i ≡ some t
      → All (λ a. Any (PutBy a) s.threads) calls
      → All (λ a. Any (PutBy a) (set s.threads i (record t { stage = stage }))) calls
  moved s i t stage calls e h =
      let u : Thread = record t { stage = stage } in
      All-weaken (λ a. Any (PutBy a) s.threads) (λ a. Any (PutBy a) (set s.threads i u))
        (λ a p. Any-set (PutBy a) s.threads i t u e (λ x. x) p) calls h

  at_place :
      (P : Thread → Type 0) (ts : List Thread) (i : ℕ) (t : Thread)
      → get_elem? ts i ≡ some t
      → P t
      → Any P ts
  at_place P [] i t e p = absurd (ground arith)
  at_place P (x ∷ ts) zero t e p = inl (subst P (ground (arith, e)) p)
  at_place P (x ∷ ts) (suc i) t e p = inr (at_place P ts i t e p)

  step-IsSourced :
      (mc : MsgCache) (s : Server) (i : ℕ) → IsSourced mc s → IsSourced mc (step lib s i)
  unfolding step Puts Hits.run
  step-IsSourced mc s i h = elim (Option-cases (get_elem? s.threads i)) [
    | inl e ↦ rw (step, e) h
    | inr (t, e) ↦
        let r = proceed lib s.plugin t.query t.profile t.stage in
        let u : Thread = record t { stage = r.1 } in
        let pending =
          All-set (λ t. Pending lib t.query t.profile t.stage) s.threads i u h.pending
            (proceed-Pending lib s.plugin t.query t.profile t.stage) in
        elim (proceed-Puts lib s.plugin t.query t.profile t.stage) [
          | inl same ↦
              rw (step, e)
                (record {
                  calls = h.calls;
                  cache = same ∙ h.cache;
                  made = moved s i t r.1 h.calls e h.made;
                  pending = pending;
                })
          | inr (m, mc', at, there, match, put) ↦
              let brought : Brought lib t.query t.profile m =
                subst (Pending lib t.query t.profile) at (
                  All-get_elem? (λ t. Pending lib t.query t.profile t.stage) s.threads i t h.pending
                    e) in
              let a = stored_of t.query t.profile m in
              rw (step, e)
                (record {
                  calls = h.calls ++ a ∷ [];
                  cache =
                      put
                      ∙ ap
                          (λ c. some (
                            Cache.put lib.sum64 lib.minimal_ttl a.choice c a.at a.profile a.request
                              a.reply))
                          (ground (arith, there, h.cache))
                      ∙ sym (ap some (run-append lib mc h.calls (a ∷ [])));
                  made =
                      All-append (λ a. Any (PutBy a) (set s.threads i u)) h.calls (a ∷ [])
                        (moved s i t r.1 h.calls e h.made)
                        (
                          Any-set (PutBy a) s.threads i t u e (λ x. x)
                              (at_place (PutBy a) s.threads i t e (refl, brought, match)),
                          tt,
                        );
                  pending = pending;
                })
        ]
  ]

  run-IsSourced :
      (mc : MsgCache) (s : Server) (order : List ℕ)
      → IsSourced mc s
      → IsSourced mc (run lib s order)
  unfolding run
  run-IsSourced mc s [] h = h
  run-IsSourced mc s (i ∷ rest) h = run-IsSourced mc (step lib s i) rest (step-IsSourced mc s i h)

  new-IsSourced :
      (mc : MsgCache) (s : Server)
      → s.plugin.cache ≡ some mc
      → All (λ t. t.stage ≡ arrived) s.threads
      → IsSourced mc s
  unfolding Hits.run
  new-IsSourced mc s e new = record {
    calls = [];
    cache = e;
    made = tt;
    pending =
        All-weaken (λ t. t.stage ≡ arrived) (λ t. Pending lib t.query t.profile t.stage)
          (λ t x. subst (Pending lib t.query t.profile) (sym x) tt) s.threads new;
  }

  -- A handler brought a reply that may serve `q` under `profile` as the message `m`.
  pub record Source (mc : MsgCache) (n : NextDns) (q : Query) (profile : Text) (m : Msg)
      (t : Thread) : Type 0 where
    pub original : Msg
    pub brought : Brought lib t.query t.profile original
    pub matches : lib.match_reply t.query.request original ≡ true
    pub serves :
        Serves lib.sum64 lib.minimal_ttl mc
          (conf_changed_at n.client.last_mod)
          q.read_at
          profile
          q.request
          m
          (stored_of t.query t.profile original)

  traced :
      (mc : MsgCache) (n : NextDns) (q : Query) (profile : Text) (m : Msg) (ts : List Thread)
      (calls : List Stored)
      → Any
          (Serves lib.sum64 lib.minimal_ttl mc
            (conf_changed_at n.client.last_mod)
            q.read_at
            profile
            q.request
            m)
          calls
      → All (λ a. Any (PutBy a) ts) calls
      → Any (Source mc n q profile m) ts
  traced mc n q profile m ts [] h made = elim h [ ]
  traced mc n q profile m ts (a ∷ calls) (inl h) made =
      Any-weaken (PutBy a) (Source mc n q profile m)
        (λ t p. record {
          original = a.reply;
          brought = p.1;
          matches = p.2;
          serves =
              subst
                (Serves lib.sum64 lib.minimal_ttl mc (conf_changed_at n.client.last_mod) q.read_at
                  profile q.request m)
                p.0 h;
        })
        ts made.0
  traced mc n q profile m ts (a ∷ calls) (inr h) made = traced mc n q profile m ts calls h made.1

  -- However handlers that start anew interleave, a reply that the cache then has for a query is
  -- one that one of the handlers brought by an exchange of its own, for the same profile and with
  -- the same question: matched, put in the cache, not older than the profile's last configuration
  -- change, and still alive. The cache starts empty and valid, and the hash and the evictions may do
  -- as they like.
  pub look_up-run :
      (s : Server) (order : List ℕ) (q : Query) (profile : Text) (mc : MsgCache) (size : ℕ)
      (m : Msg)
      → s.plugin.cache ≡ some mc
      → All (λ t. t.stage ≡ arrived) s.threads
      → IsValid size mc.c
      → ((key : ℕ) → Store.get key mc.c ≡ none)
      → look_up lib (run lib s order).plugin q profile ≡ hit m
      → Any (Source mc (run lib s order).plugin q profile m) (run lib s order).threads
  look_up-run s order q profile mc size m e new valid empty h =
      let n = (run lib s order).plugin in
      let sourced = run-IsSourced mc s order (new-IsSourced mc s e new) in
      let found = sym (look_up-some lib n q profile _ sourced.cache) ∙ h in
      let (served, not_ptr) =
        Hits.get-run lib.sum64 lib.minimal_ttl mc size sourced.calls
          (conf_changed_at n.client.last_mod) q.read_at profile q.request m valid empty found in
      traced mc n q profile m (run lib s order).threads sourced.calls served sourced.made
