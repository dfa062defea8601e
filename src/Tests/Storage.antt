-- ===== src/Tests/Storage.antt =====
-- Runs of the store.
use coredns_nextdns.Prelude.{ℕ, ◌+◌, ◌*◌, ◌≤◌, ◌≡◌, refl, List, [], ◌∷◌, none, some, ℕ_discrete}
use coredns_nextdns.Prelude.Dict
use coredns_nextdns.Store.{Store, shard_size, new_store, capacity, get, lock_add, add, len}
use coredns_nextdns.Store.Bounds.{total}
use coredns_nextdns.Store.History
use coredns_nextdns.Store.History.{Addition, dropped, latest, get-run-latest, len-run, get-add_ne}
use coredns_nextdns.Store.Concurrent
use coredns_nextdns.Store.Concurrent.{Event, insert, count, run-count}

program : Unit {0}
unfolding shard_size new_store capacity get lock_add add len dropped latest History.run
    Concurrent.step Concurrent.run Dict.get Dict.put Dict.delete Dict.first Dict.evict ℕ_discrete
program = tt

abbrev empty : Store ℕ
empty = new_store 10

-- Keys 1 and 257 share a shard that holds one entry.
abbrev calls : List (Addition ℕ)
calls =
    record { choice = 0; key = 1; entry = 10 }
    ∷ record { choice = 0; key = 257; entry = 20 }
    ∷ record { choice = 0; key = 2; entry = 30 }
    ∷ []

found_257 : get 257 (History.run (new_store 10) calls) ≡ some 20
unfolding program
found_257 = refl

get-run-latest_example : latest 257 none calls ≡ some 20
get-run-latest_example = get-run-latest ℕ 10 calls 257 20 found_257

evicted_1 : get 1 (History.run (new_store 10) calls) ≡ none
unfolding program
evicted_1 = refl

-- Two Adds of one key: both insert before either counts.
abbrev events : List (Event ℕ)
events = insert 0 1 10 ∷ insert 0 2 20 ∷ count ∷ insert 0 1 30 ∷ []

run-count_example :
    (len (Concurrent.run (record { store = empty; pending = 0 }) events).store
        + (Concurrent.run (record { store = empty; pending = 0 }) events).pending
      ≡ total (Concurrent.run (record { store = empty; pending = 0 }) events).store.shards)
    × (total (Concurrent.run (record { store = empty; pending = 0 }) events).store.shards
        ≤ shard_size 10 * 256)
run-count_example = run-count ℕ 10 events
