-- ===== src/Discovery/Valid.antt =====
-- What a well-formed discoverer is, and that its single updates keep it so.
use coredns_nextdns.Prelude.{
  ℕ, zero, suc, ◌+◌, ◌≤◌, ◌<◌, ◌≡◌, inl, inr, List, [], ◌∷◌, none, some, Any, length, get_elem?,
  set, length-set, arith, subst,
}
use coredns_nextdns.Prelude.Text.{Text}
use coredns_nextdns.Prelude.Dict
use coredns_nextdns.Prelude.Dict.{Dict}
use coredns_nextdns.Prelude.Dict.Evict
use coredns_nextdns.Addr.{Addr, addr_discrete}
use coredns_nextdns.Discovery.{
  Discoverer, DiscoveryEntry, Lookup, Stage, resolving, storing, cleaning, recovering, releasing,
  finishing, max_discovery_inflight, start, store, to_stage, remove_at,
}

-- A lookup that has not yet taken its address out of `inflight`.
abbrev pub IsBefore : Stage → Type 0
IsBefore resolving = Unit
IsBefore (storing _ _) = Unit
IsBefore (cleaning _) = Unit
IsBefore recovering = ⊥
IsBefore releasing = ⊥
IsBefore finishing = ⊥

-- The lookup that will close the channel `done` of `a`.
pub record Owns (a : Addr) (done : ℕ) (g : Lookup) : Type 0 where
  pub same_addr : g.addr ≡ a
  pub same_done : g.done ≡ done
  pub before : IsBefore g.stage

pub record IsValid (d : Discoverer) : Type 0 where
  pub positive : 0 < d.max
  pub counted : d.wg ≡ length d.running
  pub few : length d.inflight ≤ max_discovery_inflight
  pub bounded : length d.entries ≤ d.max
  pub entries_distinct : Dict.IsDistinct addr_discrete d.entries
  pub inflight_distinct : Dict.IsDistinct addr_discrete d.inflight
  pub owned :
      (a : Addr) (done : ℕ)
      → Dict.get addr_discrete a d.inflight ≡ some done
      → Any (Owns a done) d.running

pub Any-set :
    {A : Type 0} (P : A → Type 0) (xs : List A) (i : ℕ) (x y : A)
    → get_elem? xs i ≡ some x
    → (P x → P y)
    → Any P xs
    → Any P (set xs i y)
Any-set P [] i x y e f h = h
Any-set P (z ∷ xs) zero x y e f (inl p) = inl (f (subst P (ground arith) p))
Any-set P (z ∷ xs) zero x y e f (inr h) = inr h
Any-set P (z ∷ xs) (suc i) x y e f (inl p) = inl p
Any-set P (z ∷ xs) (suc i) x y e f (inr h) = inr (Any-set P xs i x y e f h)

pub Any-remove_at :
    {A : Type 0} (P : A → Type 0) (xs : List A) (i : ℕ) (x : A)
    → get_elem? xs i ≡ some x
    → ¬ P x
    → Any P xs
    → Any P (remove_at i xs)
Any-remove_at P [] i x e f h = h
Any-remove_at P (z ∷ xs) zero x e f (inl p) = absurd (f (subst P (ground arith) p))
Any-remove_at P (z ∷ xs) zero x e f (inr h) = h
Any-remove_at P (z ∷ xs) (suc i) x e f (inl p) = inl p
Any-remove_at P (z ∷ xs) (suc i) x e f (inr h) = inr (Any-remove_at P xs i x e f h)

pub length-remove_at :
    {A : Type 0} (xs : List A) (i : ℕ) (x : A)
    → get_elem? xs i ≡ some x
    → length (remove_at i xs) + 1 ≡ length xs
length-remove_at [] i x e = absurd (ground arith)
length-remove_at (z ∷ xs) zero x e = omega arith
length-remove_at (z ∷ xs) (suc i) x e = omega (arith, length-remove_at xs i x e)

-- store makes room before it inserts.
pub store-put_bounded :
    (choice now : ℕ) (addr : Addr) (name : Text) (ttl : ℕ) (d : Discoverer)
    → store choice now addr name ttl d ≡ record d {
      entries =
          Evict.put_bounded addr_discrete d.max choice addr
            (record { name = name; expires = now + ttl })
            d.entries;
    }
unfolding store Evict.put_bounded
store-put_bounded choice now addr name ttl d = ground arith

pub store-IsValid :
    (choice now : ℕ) (addr : Addr) (name : Text) (ttl : ℕ) (d : Discoverer)
    → IsValid d
    → IsValid (store choice now addr name ttl d)
store-IsValid choice now addr name ttl d h =
    let e : DiscoveryEntry = record { name = name; expires = now + ttl } in
    rw store-put_bounded (record {
      positive = h.positive;
      counted = h.counted;
      few = h.few;
      bounded =
          Evict.length-put_bounded addr_discrete d.max choice addr e d.entries h.entries_distinct
            h.positive h.bounded;
      entries_distinct =
          Evict.put_bounded-IsDistinct addr_discrete d.max choice addr e d.entries
            h.entries_distinct;
      inflight_distinct = h.inflight_distinct;
      owned = h.owned;
    })

-- A lookup that only changes its stage, and still owns what it owned.
pub to_stage-IsValid :
    (d : Discoverer) (i : ℕ) (g : Lookup) (stage : Stage)
    → get_elem? d.running i ≡ some g
    → (IsBefore g.stage → IsBefore stage)
    → IsValid d
    → IsValid (to_stage d i g stage)
to_stage-IsValid d i g stage at keep h =
    let g' : Lookup = record g { stage = stage } in
    record {
      positive = h.positive;
      counted = rw (length-set d.running i g') h.counted;
      few = h.few;
      bounded = h.bounded;
      entries_distinct = h.entries_distinct;
      inflight_distinct = h.inflight_distinct;
      owned = λ a done e.
          Any-set (Owns a done) d.running i g g' at
            (λ o. record {
              same_addr = o.same_addr;
              same_done = o.same_done;
              before = keep o.before;
            })
            (h.owned a done e);
    }

pub start-IsValid :
    (d : Discoverer) (addr : Addr)
    → Dict.get addr_discrete addr d.inflight ≡ none
    → length d.inflight < max_discovery_inflight
    → IsValid d
    → IsValid (start d addr)
unfolding start
start-IsValid d addr new room h = record {
  positive = h.positive;
  counted = omega (arith, h.counted);
  few = ground (arith, Dict.length-put addr_discrete addr d.next d.inflight);
  bounded = h.bounded;
  entries_distinct = h.entries_distinct;
  inflight_distinct = Dict.put-IsDistinct addr_discrete addr d.next d.inflight h.inflight_distinct;
  owned = λ a done e. elim (addr_discrete addr a) [
    | yes p ↦ inl (record {
      same_addr = p;
      same_done = ground (arith, Dict.get-put addr_discrete addr a d.next d.inflight);
      before = tt;
    })
    | no p ↦
        inr (h.owned a done (ground (arith, Dict.get-put addr_discrete addr a d.next d.inflight)))
  ];
}
