-- ===== src/Tests/Caching.antt =====
-- Runs of the cache.
use coredns_nextdns.Prelude.{
  ℕ, ◌+◌, ◌-◌, ◌<◌, ◌≡◌, ◌≢◌, refl, [], ◌∷◌, true, false, arith, ℕ_discrete, Any,
}
use coredns_nextdns.Prelude.Text.{Text, codes, text_discrete}
use coredns_nextdns.Prelude.Dict
use coredns_nextdns.Dns.{Request, Msg, type_ptr}
use coredns_nextdns.Store
use coredns_nextdns.Store.{shard_size}
use coredns_nextdns.Store.Bounds.{new_store-IsValid}
use coredns_nextdns.Store.History.{get-new_store}
use coredns_nextdns.Cache
use coredns_nextdns.Cache.{
  CacheEntry, MsgCache, hit, default_cache_min_ttl, default_cache_max_ttl, matches, key_bytes,
  set_ttl_rr, set_ttl, echo_question, ttl_seconds, get_entry, clamp_ttl, is_cacheable, cache_key,
  big_endian16, flag_bits, new_entry,
}
use coredns_nextdns.Cache.Key.{LacksNul}
use coredns_nextdns.Cache.Hits
use coredns_nextdns.Cache.Hits.{Stored, Serves, get-run}
use coredns_nextdns.Cache.Match.{SameQuestion}
use coredns_nextdns.Cache.Served.{get-put}
use coredns_nextdns.Tests.Data.{asked, answered, request, home, sum64, minimal_ttl}

program : Unit {0}
unfolding Store.shard_size Store.new_store Store.get Store.lock_add Store.add Dict.get Dict.put
    Dict.delete Dict.first Dict.evict ℕ_discrete text_discrete matches key_bytes set_ttl_rr set_ttl
    echo_question ttl_seconds get_entry clamp_ttl is_cacheable cache_key big_endian16 flag_bits
    new_entry Cache.get Cache.put Hits.run
program = tt

abbrev mc : MsgCache
mc = record {
  c = Store.new_store 10;
  min_ttl = default_cache_min_ttl;
  max_ttl = default_cache_max_ttl;
}

abbrev stored : Stored
stored = record {
  choice = 0;
  at = 1_000_000_000;
  profile = home;
  request = request;
  reply = answered;
}

abbrev never : Text → ℕ
never p = 0

abbrev served : Msg
served = record asked { id = 0; answer = record { rrtype = 1; ttl = 59; rdata = codes "x" } ∷ [] }

abbrev now : ℕ
now = 2_500_000_000

hit_home :
    Cache.get sum64 minimal_ttl (Hits.run sum64 minimal_ttl mc (stored ∷ [])) never now home request
    ≡ hit served
unfolding program
hit_home = refl

get-run_example :
    Any (Serves sum64 minimal_ttl mc never now home request served) (stored ∷ []) × (1 ≢ type_ptr)
get-run_example =
    get-run sum64 minimal_ttl mc (shard_size 10) (stored ∷ []) never now home request served
      (new_store-IsValid CacheEntry 10) (get-new_store CacheEntry 10) hit_home

itself : SameQuestion request request
itself = record { name = refl; qtype = refl; qclass = refl; dnssec_ok = refl; cd = refl }

cacheable : is_cacheable request answered ≡ true
unfolding program
cacheable = refl

alive : now < 1_000_000_000 + clamp_ttl mc.min_ttl mc.max_ttl (minimal_ttl answered 1_000_000_000)
unfolding program
alive = omega arith

-- The cache after the put of a reply, and after another one of a reply to another question.
abbrev filled : MsgCache
filled = Cache.put sum64 minimal_ttl 0 mc 1_000_000_000 home request answered

abbrev other : Request
other = record request { name = codes "other." }

abbrev filled_later : MsgCache
filled_later = Cache.put sum64 minimal_ttl 0 filled 2_000_000_000 home other answered

held :
    Store.get (cache_key sum64 minimal_ttl home request) filled_later.c
    ≡ Store.get (cache_key sum64 minimal_ttl home request) filled.c
unfolding program
held = refl

get-put_example :
    Cache.get sum64 minimal_ttl filled_later never now home request
    ≡ hit (
        echo_question request (
          set_ttl answered (
            ttl_seconds (
              1_000_000_000
              + clamp_ttl mc.min_ttl mc.max_ttl (minimal_ttl answered 1_000_000_000)
              - now))))
get-put_example =
    get-put sum64 minimal_ttl 0 mc (shard_size 10) 1_000_000_000 home request request answered never
      now filled_later (new_store-IsValid CacheEntry 10) cacheable itself (omega arith) alive held

home-LacksNul : LacksNul home
home-LacksNul = ground arith

abbrev entry : CacheEntry
entry = record {
  stored = 0;
  ttl = 1;
  msg = answered;
  profile = home;
  qname = codes "a.";
  qtype = 1;
  qclass = 1;
  dnssec_ok = false;
  cd = false;
}
