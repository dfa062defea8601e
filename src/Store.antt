-- ===== src/Store.antt =====
-- store.go: the bounded, sharded key/value store behind the response cache, for any type of entry.
-- A shard's lock is taken for one whole `lock_add`; `Concurrent` interleaves it with the counter.
pub mod Bounds
pub mod History
pub mod Concurrent
use coredns_nextdns.Prelude.{
  ℕ, ◌+◌, ◌-◌, ◌*◌, ◌/◌, ◌%◌, List, [], Bool, false, not, ◌&&◌, Option, none, some, ℕ_discrete,
  length, get_elem?, set, replicate, leb, if◌then◌else◌, ltb, is_some,
}
use coredns_nextdns.Prelude.Dict
use coredns_nextdns.Prelude.Dict.{Dict}

-- const shards = 256
abbrev pub shard_count : ℕ
shard_count = 256

-- key & (shards - 1)
abbrev pub shard_index : ℕ → ℕ
shard_index key = key % 256

pub record StoreShard (V : Type 0) : Type 0 where
  pub items : Dict ℕ V
  pub size : ℕ

pub record Store (V : Type 0) : Type 0 where
  pub shards : List (StoreShard V)
  pub n : ℕ

-- The capacity divided over the shards and rounded up, and never less than one.
unfoldable pub shard_size : ℕ → ℕ
shard_size capacity =
    let size = (capacity + shard_count - 1) / shard_count in if ltb size 1 then 1 else size

module _ {V : Type 0} where
  unfoldable pub new_store : ℕ → Store V
  new_store capacity = record {
    shards = replicate shard_count (record { items = []; size = shard_size capacity });
    n = 0;
  }

  -- s.shards[0].size * shards; every store has 256 shards.
  unfoldable pub capacity : Store V → ℕ
  capacity s = elim (get_elem? s.shards 0) [ none ↦ 0 | some sh ↦ sh.size * shard_count ]

  unfoldable pub get : ℕ → Store V → Option V
  get key s = elim (get_elem? s.shards (shard_index key)) [
    | none ↦ none
    | some sh ↦ Dict.get ℕ_discrete key sh.items
  ]

  -- The part of Add under the shard's lock: the new shard, and `replacing`. `choice` is the entry
  -- that the `range` over the full shard meets first.
  unfoldable pub lock_add : ℕ → ℕ → V → StoreShard V → StoreShard V × Bool
  lock_add choice key e sh =
      let replacing = is_some (Dict.get ℕ_discrete key sh.items) in
      if not replacing && leb sh.size (length sh.items)
      then (
        record sh { items = Dict.put ℕ_discrete key e (Dict.evict ℕ_discrete choice sh.items) },
        is_some (Dict.first ℕ_discrete choice sh.items),
      )
      else (record sh { items = Dict.put ℕ_discrete key e sh.items }, replacing)

  unfoldable pub add : ℕ → ℕ → V → Store V → Store V
  add choice key e s = elim (get_elem? s.shards (shard_index key)) [
    | none ↦ s
    | some sh ↦
        let (sh', replacing) = lock_add choice key e sh in
        record s {
          shards = set s.shards (shard_index key) sh';
          n = if replacing then s.n else s.n + 1;
        }
  ]

  unfoldable pub len : Store V → ℕ
  len s = s.n
