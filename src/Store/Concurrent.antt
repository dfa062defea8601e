-- ===== src/Store/Concurrent.antt =====
-- Add in two steps, as other goroutines see it: the insertion under the shard's lock, and the
-- later n.Add(1) of an insertion that did not replace anything.
use coredns_nextdns.Prelude.{
  ℕ, zero, suc, ◌+◌, ◌*◌, ◌≤◌, ◌<◌, ◌≡◌, List, [], ◌∷◌, none, some, inl, inr, get_elem?, set, arith,
  ap, length, All, if◌then◌else◌, All-set, length-set, All-get_elem?, Option-cases,
}
use coredns_nextdns.Store.{
  Store, shard_count, shard_index, lock_add, new_store, shard_size, len, add,
}
use coredns_nextdns.Store.Bounds.{
  IsShard, total, total-set, total-le, length-lock_add, lock_add-IsShard, new_store-IsValid,
}

-- The store with the number of Adds that are between their two steps.
pub record Shared (V : Type 0) : Type 0 where
  pub store : Store V
  pub pending : ℕ

pub data Event (V : Type 0) : Type 0 where
  insert : ℕ → ℕ → V → Event V
  count : Event V

module _ {V : Type 0} where
  -- A goroutine inserts under the lock; one that has inserted counts.
  unfoldable pub step : Shared V → Event V → Shared V
  step c (insert choice key e) =
      let s = c.store in
      elim (get_elem? s.shards (shard_index key)) [
        | none ↦ c
        | some sh ↦
            let (sh', replacing) = lock_add choice key e sh in
            record {
              store = record s { shards = set s.shards (shard_index key) sh' };
              pending = if replacing then c.pending else c.pending + 1;
            }
      ]
  step c count = elim c.pending [
    | zero ↦ c
    | suc k ↦ record { store = record c.store { n = c.store.n + 1 }; pending = k }
  ]

  unfoldable pub run : Shared V → List (Event V) → Shared V
  run c [] = c
  run c (e ∷ rest) = run (step c e) rest

  pub record IsShared (size : ℕ) (c : Shared V) : Type 0 where
    pub positive : 0 < size
    pub each : All (IsShard size) c.store.shards
    pub number : length c.store.shards ≡ shard_count
    pub counted : c.store.n + c.pending ≡ total c.store.shards

  step-IsShared :
      (size : ℕ) (c : Shared V) (e : Event V) → IsShared size c → IsShared size (step c e)
  unfolding step
  step-IsShared size c (insert choice key e) h =
      elim (Option-cases (get_elem? c.store.shards (shard_index key))) [
        | inl at ↦ rw (at, step) h
        | inr (sh, at) ↦
            let shard =
              All-get_elem? (IsShard size) c.store.shards (shard_index key) sh h.each at in
            let sh' = (lock_add choice key e sh).0 in
            rw (at, step)
              (record {
                positive = h.positive;
                each =
                    All-set (IsShard size) c.store.shards (shard_index key) sh' h.each
                      (lock_add-IsShard size choice key e sh shard h.positive);
                number = rw (length-set c.store.shards (shard_index key) sh') h.number;
                counted = ground (
                  arith,
                  h.counted,
                  length-lock_add size choice key e sh shard h.positive,
                  total-set c.store.shards (shard_index key) sh sh' at,
                );
              })
      ]
  step-IsShared size c count h = ground arith

  run-IsShared :
      (size : ℕ) (c : Shared V) (events : List (Event V))
      → IsShared size c
      → IsShared size (run c events)
  unfolding run
  run-IsShared size c [] h = h
  run-IsShared size c (e ∷ rest) h = run-IsShared size (step c e) rest (step-IsShared size c e h)

  -- Add is its two steps with nothing in between.
  pub add-steps :
      (choice key : ℕ) (e : V) (s : Store V)
      → (step (step (record { store = s; pending = 0 }) (insert choice key e)) count).store
        ≡ add choice key e s
  unfolding step add
  add-steps choice key e s = ground arith

-- Whatever the interleaving of Adds on a new store: Len never says more than the store holds, falls
-- short by exactly the Adds that have not counted yet, and the store stays within its capacity.
pub run-count :
    (V : Type 0) (want : ℕ) (events : List (Event V))
    → let c = run (record { store = new_store want; pending = 0 }) events in
      (len c.store + c.pending ≡ total c.store.shards)
      × (total c.store.shards ≤ shard_size want * shard_count)
unfolding len
run-count V want events =
    let start : Shared V = record { store = new_store want; pending = 0 } in
    let new = new_store-IsValid V want in
    let h = run-IsShared (shard_size want) start events (record {
      positive = new.positive;
      each = new.each;
      number = new.count;
      counted = omega (arith, new.counted);
    }) in
    (
      h.counted,
      omega (
        arith,
        total-le (shard_size want) (run start events).store.shards h.each,
        ap (λ (k : ℕ). shard_size want * k) h.number,
      ),
    )
