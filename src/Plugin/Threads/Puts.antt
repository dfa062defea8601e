-- ===== src/Plugin/Threads/Puts.antt =====
-- What a step of a handler does to the cache, and what a handler knows of the reply that it holds.
use coredns_nextdns.Prelude.{
  ◌≡◌, ◌⊎◌, inl, inr, refl, sym, subst, true, none, some, ◌+◌, arith, Option-cases, Bool-cases, ltb,
}
use coredns_nextdns.Prelude.Text.{Text}
use coredns_nextdns.Dns.{Msg}
use coredns_nextdns.Cache
use coredns_nextdns.Cache.{MsgCache, hit, absent, collided}
use coredns_nextdns.Device.{ClientInfo}
use coredns_nextdns.Plugin.{Libraries, NextDns, Query, look_up, go_out}
use coredns_nextdns.Plugin.Limits.{Found-cases}
use coredns_nextdns.Plugin.Threads.{
  Stage, arrived, missed, refused, answering, entering, admitted, exchanged, leaving, finished,
  give_back, take_reply, proceed,
}

module _ (lib : Libraries) where
  -- An exchange for this query, this profile and some device brought the reply `m`, at some state of
  -- the plugin.
  pub record Brought (q : Query) (profile : Text) (m : Msg) : Type 0 where
    pub plugin : NextDns
    pub device : ClientInfo
    pub exchanged : (go_out lib plugin q profile device).0 ≡ some m

  -- What a handler that holds a reply of its exchange knows of it.
  abbrev pub Pending : Query → Text → Stage → Type 0
  Pending q profile arrived = Unit
  Pending q profile (answering m) = Unit
  Pending q profile missed = Unit
  Pending q profile (entering ci) = Unit
  Pending q profile refused = Unit
  Pending q profile (admitted ci) = Unit
  Pending q profile (exchanged none) = Unit
  Pending q profile (exchanged (some m)) = Brought q profile m
  Pending q profile (leaving w) = Unit
  Pending q profile (finished w) = Unit

  pub proceed-Pending :
      (n : NextDns) (q : Query) (profile : Text) (s : Stage)
      → Pending q profile (proceed lib n q profile s).1
  unfolding proceed take_reply
  proceed-Pending n q profile arrived = elim (Found-cases (look_up lib n q profile)) [
    | inl (inl e) ↦ rw (proceed, e) tt
    | inl (inr e) ↦ rw (proceed, e) tt
    | inr (m, e) ↦ rw (proceed, e) tt
  ]
  proceed-Pending n q profile (answering m) = tt
  proceed-Pending n q profile missed = tt
  proceed-Pending n q profile (entering ci) = elim (Bool-cases (ltb 0 n.max_concurrent)) [
    | inr e ↦ rw (proceed, e) tt
    | inl e ↦ elim (Bool-cases (ltb n.max_concurrent (n.concurrent + 1))) [
      | inl f ↦ rw (proceed, e, f) tt
      | inr f ↦ rw (proceed, e, f) tt
    ]
  ]
  proceed-Pending n q profile (admitted ci) = elim (Option-cases (go_out lib n q profile ci).0) [
    | inl e ↦ subst (λ x. Pending q profile (exchanged x)) (sym e) tt
    | inr (m, e) ↦
        subst (λ x. Pending q profile (exchanged x)) (sym e)
          (record { plugin = n; device = ci; exchanged = e })
  ]
  proceed-Pending n q profile (exchanged none) = tt
  proceed-Pending n q profile (exchanged (some m)) =
      elim (Bool-cases (lib.match_reply q.request m)) [
        | inr f ↦ rw (proceed, take_reply, f) tt
        | inl f ↦ elim (Option-cases n.cache) [
          | inl g ↦ rw (proceed, take_reply, f, g) tt
          | inr (mc, g) ↦ rw (proceed, take_reply, f, g) tt
        ]
      ]
  proceed-Pending n q profile refused = tt
  proceed-Pending n q profile (leaving w) = tt
  proceed-Pending n q profile (finished w) = tt

  -- A step leaves the cache as it is, or is the put of a reply that matches.
  unfoldable pub Puts : NextDns → Query → Text → Stage → NextDns → Type 0
  Puts n q profile s n' =
      (n'.cache ≡ n.cache)
      ⊎ ((m : Msg) × (mc : MsgCache) × (s ≡ exchanged (some m))
          × (n.cache ≡ some mc)
          × (lib.match_reply q.request m ≡ true)
          × (n'.cache
              ≡ some
                  (Cache.put lib.sum64 lib.minimal_ttl q.choice mc q.write_at profile q.request m)))

  pub proceed-Puts :
      (n : NextDns) (q : Query) (profile : Text) (s : Stage)
      → Puts n q profile s (proceed lib n q profile s).0
  unfolding Puts proceed take_reply give_back
  proceed-Puts n q profile arrived = inl (ground arith)
  proceed-Puts n q profile (answering m) = inl refl
  proceed-Puts n q profile missed = inl refl
  proceed-Puts n q profile (entering ci) = inl (ground arith)
  proceed-Puts n q profile (admitted ci) = inl refl
  proceed-Puts n q profile (exchanged none) = inl refl
  proceed-Puts n q profile (exchanged (some m)) = elim (Bool-cases (lib.match_reply q.request m)) [
    | inr f ↦ inl (rw (proceed, take_reply, f) refl)
    | inl f ↦ elim (Option-cases n.cache) [
      | inl g ↦ inl (rw (proceed, take_reply, f, g) g)
      | inr (mc, g) ↦ inr (m, mc, refl, g, f, rw (proceed, take_reply, f, g) refl)
    ]
  ]
  proceed-Puts n q profile refused = inl (ground arith)
  proceed-Puts n q profile (leaving w) = inl (ground arith)
  proceed-Puts n q profile (finished w) = inl refl
