-- ===== src/Store/History.antt =====
-- What can be read from the store after an Add, and after any sequence of them: the store against
-- a map that never evicts.
use coredns_nextdns.Prelude.{
  ℕ, ◌≤◌, ◌≡◌, ◌≢◌, ◌⊎◌, inl, inr, ite, List, [], ◌∷◌, Option, none, some, ℕ_discrete, length,
  get_elem?, get_elem?-set_self, get_elem?-set_ne, arith, replicate, zero, suc, Option-cases,
}
use coredns_nextdns.Prelude.Dict
use coredns_nextdns.Prelude.Dict.{Dict}
use coredns_nextdns.Prelude.Dict.Evict
use coredns_nextdns.Store.{
  Store, StoreShard, shard_count, shard_index, get, lock_add, add, new_store, len, capacity,
  shard_size,
}
use coredns_nextdns.Store.Bounds.{
  IsValid, IsShard-of_key, lock_add-put_bounded, add-IsValid, new_store-IsValid, len-le-capacity,
}

-- One call of Add: the eviction's choice, the key and the entry.
pub record Addition (V : Type 0) : Type 0 where
  pub choice : ℕ
  pub key : ℕ
  pub entry : V

module _ {V : Type 0} where
  -- The items that answer for a key.
  abbrev pub items_of : ℕ → Store V → Dict ℕ V
  items_of key s = elim (get_elem? s.shards (shard_index key)) [ none ↦ [] | some sh ↦ sh.items ]

  -- The key that an Add drops to make room, if it drops one.
  unfoldable pub dropped : ℕ → ℕ → Store V → Option ℕ
  dropped choice key s = elim (get_elem? s.shards (shard_index key)) [
    | none ↦ none
    | some sh ↦ Evict.evicted ℕ_discrete sh.size choice key sh.items
  ]

  module _ (size choice key : ℕ) (e : V) (s : Store V) (valid : IsValid size s) where
    get-add_at :
        (j : ℕ) (sh : StoreShard V)
        → get_elem? s.shards (shard_index key) ≡ some sh
        → get j (add choice key e s)
          ≡ ite
              (ℕ_discrete (shard_index key) (shard_index j))
              (Dict.get ℕ_discrete j (Evict.put_bounded ℕ_discrete sh.size choice key e sh.items))
              (get j s)
    unfolding get add
    get-add_at j sh at =
        let sh' = (lock_add choice key e sh).0 in
        ground (
          arith,
          valid.count,
          lock_add-put_bounded choice key e sh,
          get_elem?-set_self s.shards (shard_index key) sh',
          get_elem?-set_ne s.shards (shard_index key) (shard_index j) sh',
        )

    -- What was just added is found.
    pub get-add_self : get key (add choice key e s) ≡ some e
    get-add_self =
        let (sh, at, _) = IsShard-of_key size s key valid in
        ground (
          arith,
          get-add_at key sh at,
          Evict.get-put_bounded_self ℕ_discrete sh.size choice key e sh.items,
        )

    -- Any other key reads as before, unless it is the one that was dropped.
    pub get-add_ne :
        (j : ℕ) → key ≢ j → dropped choice key s ≢ some j → get j (add choice key e s) ≡ get j s
    unfolding dropped get
    get-add_ne j ne kept =
        let (sh, at, _) = IsShard-of_key size s key valid in
        ground (
          arith,
          get-add_at j sh at,
          Evict.get-put_bounded_ne ℕ_discrete sh.size choice key e sh.items j ne,
        )

    -- Nothing is made up: a value read after an Add was added now or could be read before.
    pub get-add-some :
        (j : ℕ) (v : V)
        → get j (add choice key e s) ≡ some v
        → ((key ≡ j) × (e ≡ v)) ⊎ (get j s ≡ some v)
    unfolding get
    get-add-some j v h =
        let (sh, at, _) = IsShard-of_key size s key valid in
        ground (
          arith,
          get-add_at j sh at,
          Evict.get-put_bounded-some ℕ_discrete sh.size choice key e sh.items j v,
        )

    -- An Add drops a key only from a full shard, for a key that the shard did not hold.
    pub dropped_full :
        (j : ℕ)
        → dropped choice key s ≡ some j
        → (size ≤ length (items_of key s)) × (get key s ≡ none)
    unfolding dropped get
    dropped_full j h =
        let (sh, at, shard) = IsShard-of_key size s key valid in
        ground (
          arith,
          shard.sized,
          Evict.get-put_bounded-evicted ℕ_discrete sh.size choice key e sh.items j,
        )

  unfoldable pub run : Store V → List (Addition V) → Store V
  run s [] = s
  run s (a ∷ rest) = run (add a.choice a.key a.entry s) rest

  -- The entry added last for a key, over a map that never evicts.
  unfoldable pub latest : ℕ → Option V → List (Addition V) → Option V
  latest j found [] = found
  latest j found (a ∷ rest) = latest j (ite (ℕ_discrete a.key j) (some a.entry) found) rest

  pub run-IsValid :
      (size : ℕ) (s : Store V) (calls : List (Addition V))
      → IsValid size s
      → IsValid size (run s calls)
  unfolding run
  run-IsValid size s [] h = h
  run-IsValid size s (a ∷ rest) h =
      run-IsValid size (add a.choice a.key a.entry s) rest
        (add-IsValid size a.choice a.key a.entry s h)

  run-latest_from :
      (size : ℕ) (s : Store V) (calls : List (Addition V)) (j : ℕ) (found : Option V) (v : V)
      → IsValid size s
      → ((w : V) → get j s ≡ some w → found ≡ some w)
      → get j (run s calls) ≡ some v
      → latest j found calls ≡ some v
  unfolding run latest
  run-latest_from size s [] j found v valid known h = known v h
  run-latest_from size s (a ∷ rest) j found v valid known h =
      run-latest_from size (add a.choice a.key a.entry s) rest j
        (ite (ℕ_discrete a.key j) (some a.entry) found) v
        (add-IsValid size a.choice a.key a.entry s valid)
        (λ w e. ground (
          arith,
          get-add-some size a.choice a.key a.entry s valid j w e,
          get-add_self size a.choice a.key a.entry s valid,
          known w,
        ))
        h

module _ (V : Type 0) where
  item_of_empty :
      (count i size key : ℕ) (sh : StoreShard V)
      → get_elem? (replicate count (record { items = []; size = size })) i ≡ some sh
      → Dict.get ℕ_discrete key sh.items ≡ none
  unfolding Dict.get
  item_of_empty zero i size key sh h = absurd (ground arith)
  item_of_empty (suc count) zero size key sh h = ground arith
  item_of_empty (suc count) (suc i) size key sh h = item_of_empty count i size key sh h

  get_of_empty :
      (count size key : ℕ)
      → get {V = V} key
          (record { shards = replicate count (record { items = []; size = size }); n = 0 })
        ≡ none
  unfolding get
  get_of_empty count size key =
      let cells : List (StoreShard V) = replicate count (record { items = []; size = size }) in
      elim (Option-cases (get_elem? cells (shard_index key))) [
        | inl e ↦ rw (e, get)
        | inr (sh, e) ↦ rw (e, get) (item_of_empty count (shard_index key) size key sh e)
      ]

  pub get-new_store : (want key : ℕ) → get key (new_store {V = V} want) ≡ none
  unfolding new_store
  get-new_store want key = get_of_empty shard_count (shard_size want) key

  -- The store against a map that never evicts: after any Adds to a new store, whatever evictions
  -- chose, an entry that is found is the one added last for that key.
  pub get-run-latest :
      (want : ℕ) (calls : List (Addition V)) (j : ℕ) (v : V)
      → get j (run (new_store want) calls) ≡ some v
      → latest j none calls ≡ some v
  get-run-latest want calls j v h =
      run-latest_from (shard_size want) (new_store want) calls j none v (new_store-IsValid V want)
        (λ w e. absurd (ground (arith, get-new_store want j))) h

  -- After any Adds to a new store the number of entries is within the capacity.
  pub len-run :
      (want : ℕ) (calls : List (Addition V))
      → len (run (new_store want) calls) ≤ capacity (run (new_store want) calls)
  len-run want calls =
      len-le-capacity (shard_size want) (run (new_store want) calls)
        (run-IsValid (shard_size want) (new_store want) calls (new_store-IsValid V want))
