-- ===== src/Store/Bounds.antt =====
-- The size of the store: what every shard and the counter keep.
use coredns_nextdns.Prelude.{
  ℕ, zero, suc, ◌+◌, ◌*◌, ◌≤◌, ◌<◌, ◌≡◌, refl, ap, List, [], ◌∷◌, some, ℕ_discrete, length,
  get_elem?, set, length-set, replicate, All, All-set, All-replicate, All-get_elem?,
  get_elem?_in_range, arith, if◌then◌else◌,
}
use coredns_nextdns.Prelude.Dict
use coredns_nextdns.Prelude.Dict.{Dict}
use coredns_nextdns.Prelude.Dict.Evict
use coredns_nextdns.Store.{
  Store, StoreShard, shard_count, shard_size, new_store, capacity, shard_index, lock_add, add, len,
}

module _ {V : Type 0} where
  -- A shard holds no key twice and no more than its size.
  pub record IsShard (size : ℕ) (sh : StoreShard V) : Type 0 where
    pub distinct : Dict.IsDistinct ℕ_discrete sh.items
    pub sized : sh.size ≡ size
    pub bounded : length sh.items ≤ size

  -- The entries of all shards.
  abbrev pub total : List (StoreShard V) → ℕ
  total [] = 0
  total (sh ∷ shs) = length sh.items + total shs

  -- `size` is the bound that newStore gives each shard.
  pub record IsValid (size : ℕ) (s : Store V) : Type 0 where
    pub positive : 0 < size
    pub count : length s.shards ≡ shard_count
    pub each : All (IsShard size) s.shards
    pub counted : s.n ≡ total s.shards

  -- What the locked part does to the items is an insertion that makes room first.
  pub lock_add-put_bounded :
      (choice key : ℕ) (e : V) (sh : StoreShard V)
      → (lock_add choice key e sh).0
        ≡ record sh { items = Evict.put_bounded ℕ_discrete sh.size choice key e sh.items }
  unfolding lock_add Evict.put_bounded
  lock_add-put_bounded choice key e sh = ground arith

  module _ (size choice key : ℕ) (e : V) (sh : StoreShard V) (h : IsShard size sh)
      (pos : 0 < size) where
    pub lock_add-IsShard : IsShard size (lock_add choice key e sh).0
    lock_add-IsShard = rw lock_add-put_bounded (record {
      distinct = Evict.put_bounded-IsDistinct ℕ_discrete sh.size choice key e sh.items h.distinct;
      sized = h.sized;
      bounded =
          rw h.sized (
            Evict.length-put_bounded ℕ_discrete size choice key e sh.items h.distinct pos
              h.bounded);
    })

    -- `replacing` says whether the number of entries stays.
    pub length-lock_add :
        length (lock_add choice key e sh).0.items
        ≡ (if (lock_add choice key e sh).1 then length sh.items else length sh.items + 1)
    unfolding lock_add
    length-lock_add = ground (
      arith,
      h.sized,
      Dict.length-put ℕ_discrete key e sh.items,
      Dict.length-put ℕ_discrete key e (Dict.evict ℕ_discrete choice sh.items),
      Evict.get-evict-none ℕ_discrete choice sh.items key,
      Evict.length-evict ℕ_discrete choice sh.items h.distinct,
      Evict.first_of_nonempty ℕ_discrete choice sh.items,
    )

  pub total-set :
      (shs : List (StoreShard V)) (i : ℕ) (old new : StoreShard V)
      → get_elem? shs i ≡ some old
      → total (set shs i new) + length old.items ≡ total shs + length new.items
  total-set [] i old new h = absurd (ground arith)
  total-set (sh ∷ shs) zero old new h = ground arith
  total-set (sh ∷ shs) (suc i) old new h = omega (arith, total-set shs i old new h)

  pub total-le :
      (size : ℕ) (shs : List (StoreShard V))
      → All (IsShard size) shs
      → total shs ≤ size * length shs
  total-le size [] h = omega arith
  total-le size (sh ∷ shs) h = grind (arith, total-le size shs h.1, h.0.bounded)

  -- The shard of a key is always there.
  pub IsShard-of_key :
      (size : ℕ) (s : Store V) (key : ℕ)
      → IsValid size s
      → (sh : StoreShard V) × (get_elem? s.shards (shard_index key) ≡ some sh) × IsShard size sh
  IsShard-of_key size s key h =
      let (sh, e) = get_elem?_in_range s.shards (shard_index key) (rw h.count (omega arith)) in
      (sh, e, All-get_elem? (IsShard size) s.shards (shard_index key) sh h.each e)

  -- Add keeps the store valid: in particular no shard outgrows its size and the counter stays
  -- exact, whichever entry an eviction picks.
  pub add-IsValid :
      (size choice key : ℕ) (e : V) (s : Store V)
      → IsValid size s
      → IsValid size (add choice key e s)
  unfolding add
  add-IsValid size choice key e s h =
      let (sh, at, valid) = IsShard-of_key size s key h in
      rw (at, add)
        (record {
          positive = h.positive;
          count = rw (length-set s.shards (shard_index key) (lock_add choice key e sh).0) h.count;
          each =
              All-set (IsShard size) s.shards (shard_index key) (lock_add choice key e sh).0 h.each
                (lock_add-IsShard size choice key e sh valid h.positive);
          counted = ground (
            arith,
            h.counted,
            length-lock_add size choice key e sh valid h.positive,
            total-set s.shards (shard_index key) sh (lock_add choice key e sh).0 at,
          );
        })

  capacity-eq : (size : ℕ) (s : Store V) → IsValid size s → capacity s ≡ size * 256
  unfolding capacity
  capacity-eq size s h =
      let (sh, at, valid) = IsShard-of_key size s 0 h in rw (at, capacity) (rw valid.sized)

  -- A valid store never holds more than its capacity.
  pub len-le-capacity : (size : ℕ) (s : Store V) → IsValid size s → len s ≤ capacity s
  unfolding len
  len-le-capacity size s h =
      rw (capacity-eq size s h)
        (omega (arith, h.counted, total-le size s.shards h.each, ap (λ (n : ℕ). size * n) h.count))

module _ (V : Type 0) where
  total-replicate :
      (n size : ℕ) → total {V = V} (replicate n (record { items = []; size = size })) ≡ 0
  total-replicate zero size = refl
  total-replicate (suc n) size = omega (arith, total-replicate n size)

  -- A new store is valid, with the bound that newStore computes for each shard.
  pub new_store-IsValid : (want : ℕ) → IsValid (shard_size want) (new_store {V = V} want)
  unfolding new_store shard_size
  new_store-IsValid want = record {
    positive = ground arith;
    count = refl;
    each =
        All-replicate (IsShard (shard_size want)) shard_count
          (record { items = []; size = shard_size want })
          (record { distinct = tt; sized = refl; bounded = omega arith });
    counted = total-replicate shard_count (shard_size want);
  }

  -- The capacity of a new store: the requested one rounded up to whole shards, never below 256.
  pub capacity-new_store :
      (want : ℕ)
      → (want ≤ capacity (new_store {V = V} want))
        × (256 ≤ capacity (new_store {V = V} want))
        × (0 < want → capacity (new_store {V = V} want) < want + 256)
  unfolding capacity new_store shard_size
  capacity-new_store want = (ground arith, ground arith, λ h. ground arith)
