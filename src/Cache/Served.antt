-- ===== src/Cache/Served.antt =====
-- What put promises: the stored reply is found again.
use coredns_nextdns.Prelude.{ℕ, ◌+◌, ◌-◌, ◌≤◌, ◌<◌, ◌≡◌, ◌≢◌, refl, ◌∙◌, arith, true, some}
use coredns_nextdns.Prelude.Text.{Text}
use coredns_nextdns.Dns.{Msg, Request, type_ptr}
use coredns_nextdns.Cache.{
  CacheEntry, MsgCache, hit, matches, set_ttl, echo_question, ttl_seconds, get_entry, clamp_ttl,
  is_cacheable, cache_key, key_bytes, get, put, new_entry,
}
use coredns_nextdns.Store
use coredns_nextdns.Store.Bounds.{IsValid}
use coredns_nextdns.Store.History.{get-add_self}
use coredns_nextdns.Cache.Match.{SameQuestion, matches_iff}

module _ (sum64 : Text → ℕ) (minimal_ttl : Msg → ℕ → ℕ) where
  get_entry_alive :
      (conf : Text → ℕ) (now : ℕ) (p : Text) (q : Request) (e : CacheEntry)
      → matches e p q ≡ true
      → conf p ≤ e.stored
      → now < e.stored + e.ttl
      → get_entry conf now p q e
        ≡ hit (echo_question q (set_ttl e.msg (ttl_seconds (e.stored + e.ttl - now))))
  unfolding get_entry
  get_entry_alive conf now p q e match current alive = ground arith

  not-ptr : (a : Request) (m : Msg) → is_cacheable a m ≡ true → a.qtype ≢ type_ptr
  unfolding is_cacheable
  not-ptr a m h = ground arith

  cache_key-SameQuestion :
      (p : Text) (a q : Request)
      → SameQuestion a q
      → cache_key sum64 minimal_ttl p q ≡ cache_key sum64 minimal_ttl p a
  unfolding cache_key key_bytes
  cache_key-SameQuestion p a q same = cc

  get_of_found :
      (c : MsgCache) (conf : Text → ℕ) (now : ℕ) (p : Text) (q : Request) (e : CacheEntry)
      → q.qtype ≢ type_ptr
      → Store.get (cache_key sum64 minimal_ttl p q) c.c ≡ some e
      → get sum64 minimal_ttl c conf now p q ≡ get_entry conf now p q e
  unfolding get
  get_of_found c conf now p q e no_ptr found = ground arith

  -- A reply that put stores in a cache with a valid store is served from that cache as put leaves
  -- it, and from any later one whose store still holds under the reply's key what put left there
  -- (neither evicted nor overwritten), for a query with the same profile, name, type, class and
  -- flags while it lives, unless the profile's configuration has changed since.
  pub get-put :
      (choice : ℕ) (mc : MsgCache) (size : ℕ) (at : ℕ) (p : Text) (a q : Request) (m : Msg)
      (conf : Text → ℕ) (now : ℕ) (later : MsgCache)
      → IsValid size mc.c
      → is_cacheable a m ≡ true
      → SameQuestion a q
      → conf p ≤ at
      → now < at + clamp_ttl mc.min_ttl mc.max_ttl (minimal_ttl m at)
      → Store.get (cache_key sum64 minimal_ttl p a) later.c
        ≡ Store.get (cache_key sum64 minimal_ttl p a) (put sum64 minimal_ttl choice mc at p a m).c
      → get sum64 minimal_ttl later conf now p q
        ≡ hit (
            echo_question q (
              set_ttl m
                (ttl_seconds (at + clamp_ttl mc.min_ttl mc.max_ttl (minimal_ttl m at) - now))))
  unfolding put new_entry
  get-put choice mc size at p a q m conf now later valid stores same current alive held =
      let key = cache_key sum64 minimal_ttl p a in
      let e = new_entry sum64 minimal_ttl mc at p a m in
      let stored : Store.get key (put sum64 minimal_ttl choice mc at p a m).c ≡ some e =
        rw stores (get-add_self size choice key e mc.c valid) in
      get_of_found later conf now p q e (ground (arith, not-ptr a m stores, same.qtype))
        (rw (cache_key-SameQuestion p a q same) (held ∙ stored))
      ∙ get_entry_alive conf now p q e
          ((matches_iff e p q).1
            (refl, same.name, same.qtype, same.qclass, same.dnssec_ok, same.cd))
          current alive
