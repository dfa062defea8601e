-- ===== src/Discovery/Names/Table.antt =====
-- What holds of every entry of the table of names, through the changes that store makes of it.
use coredns_nextdns.Prelude.{
  inr, inl, ℕ, ◌+◌, [], ◌∷◌, true, false, All, Option-cases, if◌then◌else◌, ◌&&◌, not, leb, length,
  is_some, ite,
}
use coredns_nextdns.Prelude.Text.{Text}
use coredns_nextdns.Prelude.Dict
use coredns_nextdns.Prelude.Dict.{Dict}
use coredns_nextdns.Addr.{Addr, addr_discrete}
use coredns_nextdns.Discovery.{Discoverer, DiscoveryEntry, store}

module _ (P : Addr × DiscoveryEntry → Type 0) where
  put-All :
      (addr : Addr) (e : DiscoveryEntry) (m : Dict Addr DiscoveryEntry)
      → All P m
      → P (addr, e)
      → All P (Dict.put addr_discrete addr e m)
  unfolding Dict.put
  put-All addr e [] h k = (k, tt)
  put-All addr e (x ∷ m) h k =
      elim (addr_discrete x.0 addr)
        as (λ d. All P (ite d ((addr, e) ∷ m) (x ∷ Dict.put addr_discrete addr e m))) [
          | yes same ↦ (k, h.1)
          | no other ↦ (h.0, put-All addr e m h.1 k)
        ]

  delete-All :
      (addr : Addr) (m : Dict Addr DiscoveryEntry)
      → All P m
      → All P (Dict.delete addr_discrete addr m)
  unfolding Dict.delete
  delete-All addr [] h = tt
  delete-All addr (x ∷ m) h =
      elim (addr_discrete x.0 addr)
        as (λ d.
          All P (ite d (Dict.delete addr_discrete addr m) (x ∷ Dict.delete addr_discrete addr m))) [
            | yes same ↦ delete-All addr m h.1
            | no other ↦ (h.0, delete-All addr m h.1)
          ]

  evict-All :
      (choice : ℕ) (m : Dict Addr DiscoveryEntry)
      → All P m
      → All P (Dict.evict addr_discrete choice m)
  unfolding Dict.evict
  evict-All choice m h = elim (Option-cases (Dict.first addr_discrete choice m)) [
    | inl e ↦ rw (e, Dict.evict) h
    | inr (x, e) ↦ rw (e, Dict.evict) (delete-All x.0 m h)
  ]

  pub store-All :
      (choice now : ℕ) (addr : Addr) (name : Text) (ttl : ℕ) (d : Discoverer)
      → All P d.entries
      → P (addr, record { name = name; expires = now + ttl })
      → All P (store choice now addr name ttl d).entries
  unfolding store
  store-All choice now addr name ttl d h k =
      let e : DiscoveryEntry = record { name = name; expires = now + ttl } in
      let full =
        not (is_some (Dict.get addr_discrete addr d.entries)) && leb d.max (length d.entries) in
      put-All addr e (if full then Dict.evict addr_discrete choice d.entries else d.entries)
        (elim full
          as (λ b. All P (if b then Dict.evict addr_discrete choice d.entries else d.entries)) [
            | true ↦ evict-All choice d.entries h
            | false ↦ h
          ])
        k
