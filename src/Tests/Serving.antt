-- ===== src/Tests/Serving.antt =====
-- Runs of the handler: its cache over several queries, its network, its metadata and its counters.
use mathlib.Core.List.Permᴰ
use coredns_nextdns.Prelude.{
  ℕ, arith, List, ◌≡◌, refl, [], ◌∷◌, true, none, some, Any, if◌then◌else◌,
}
use coredns_nextdns.Prelude.Text.{codes, text_eq}
use coredns_nextdns.Store
use coredns_nextdns.Store.{shard_size}
use coredns_nextdns.Store.History.{get-new_store}
use coredns_nextdns.Store.Bounds.{new_store-IsValid}
use coredns_nextdns.Cache.{CacheEntry, MsgCache, hit}
use coredns_nextdns.Doh.{Endpoint, Attempt}
use coredns_nextdns.Doh.Request.{HttpRequest}
use coredns_nextdns.Plugin.{Query, look_up, route, serve_dns, identify}
use coredns_nextdns.Plugin.Limits.{IsProfileQuery}
use coredns_nextdns.Plugin.Network.{over, Agrees, GoesUpstream, serve_dns-over}
use coredns_nextdns.Plugin.Labels.{device_of, IsPublished, serve_dns-IsPublished}
use coredns_nextdns.Plugin.Accounting.{lookups_of, exchanges_of, IsCounted, serve_dns-IsCounted}
use coredns_nextdns.Plugin.Threads.{
  Server, arrived, with_id, give_back, take_reply, proceed, step, run,
}
use coredns_nextdns.Plugin.Threads.Slots.{inside, counted_out, total, IsBalanced, run-IsBalanced}
use coredns_nextdns.Plugin.Threads.Served.{Source, look_up-run}
use coredns_nextdns.Tests.Data.{home}
use coredns_nextdns.Tests.Handler.{program, lib, idle, query, served}
use coredns_nextdns.Store.{shard_size}

abbrev pub small : MsgCache
small = record { c = Store.new_store 10; min_ttl = 5_000_000_000; max_ttl = 3600_000_000_000 }

-- A network that says nothing from any other host.
abbrev silent : Endpoint → HttpRequest → Attempt
silent ep r =
    if text_eq ep.host (codes "dns")
    then query.network ep r
    else record { response = none; expired = true }

agrees :
    GoesUpstream lib idle query
    → Agrees lib silent idle query
        (route lib idle query)
        (identify lib true idle query (route lib idle query)).0
unfolding program Agrees
agrees goes wire e = (refl, tt)

serve_dns-over_example : serve_dns lib idle (over silent query) ≡ serve_dns lib idle query
serve_dns-over_example = serve_dns-over lib idle query silent agrees

abbrev labelled : Query
labelled = record query { metadata = some [] }

profile_query : IsProfileQuery lib idle labelled
unfolding program
profile_query = (refl, refl)

serve_dns-IsPublished_example :
    IsPublished
      (some [])
      (route lib idle labelled)
      (device_of lib idle labelled (route lib idle labelled))
      (serve_dns lib idle labelled).1.metadata
serve_dns-IsPublished_example =
    serve_dns-IsPublished lib idle labelled [] (λ l. Permᴰ.refl l) profile_query refl

serve_dns-IsCounted_example :
    IsCounted
      (lookups_of lib idle)
      (exchanges_of lib idle (look_up lib idle labelled (route lib idle labelled)))
      (serve_dns lib idle labelled).1
serve_dns-IsCounted_example = serve_dns-IsCounted lib idle labelled profile_query

-- Two handlers of the same query, the second of which comes after the first.
abbrev pair : Server
pair = record {
  plugin = idle;
  threads =
      record { query = query; profile = home; stage = arrived }
      ∷ record { query = query; profile = home; stage = arrived }
      ∷ [];
}

abbrev order : List ℕ
order = 0 ∷ 1 ∷ 0 ∷ 0 ∷ 1 ∷ 0 ∷ 0 ∷ 1 ∷ 0 ∷ []

repeated : look_up lib (run lib pair order).plugin query home ≡ hit served
unfolding program run step proceed take_reply give_back with_id
repeated = refl

look_up-run_example :
    Any
      (Source lib small (run lib pair order).plugin query home served)
      (run lib pair order).threads
look_up-run_example =
    look_up-run lib pair order query home small (shard_size 10) served refl (refl, (refl, tt))
      (new_store-IsValid CacheEntry 10) (get-new_store CacheEntry 10) repeated

pair-IsBalanced : IsBalanced pair
unfolding inside counted_out total
pair-IsBalanced = record { counted = refl; within = omega arith }

run-IsBalanced_example : IsBalanced (run lib pair order)
run-IsBalanced_example = run-IsBalanced lib pair order (omega arith) pair-IsBalanced
