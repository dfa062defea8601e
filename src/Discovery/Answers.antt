-- ===== src/Discovery/Answers.antt =====
-- What a query gets from discovery, and when it waits.
use coredns_nextdns.Prelude.{
  ℕ, ◌+◌, ◌<◌, ◌≡◌, inl, inr, refl, List, [], ◌∷◌, Bool, true, none, some, Any, arith, Option-cases,
}
use coredns_nextdns.Prelude.Text.{Text, is_empty}
use coredns_nextdns.Prelude.Dict
use coredns_nextdns.Prelude.Dict.{Dict}
use coredns_nextdns.Addr.{Addr, addr_discrete}
use coredns_nextdns.Discovery.{
  Discoverer, DiscoveryEntry, Resolved, found, Event, asks, advances, reply, hold_on, name_of,
  answer, ask, start, store, move, advance, after_resolve, step, run, hold, landed,
}
use coredns_nextdns.Discovery.Valid.{IsValid, Owns}
use coredns_nextdns.Discovery.Invariant.{step-IsValid}

-- The name on record for an address, empty if there is none.
abbrev pub known_name : Addr → Discoverer → Text
known_name addr d = name_of (Dict.get addr_discrete addr d.entries)

is_empty-eq : (t : Text) → is_empty t ≡ true → t ≡ []
is_empty-eq [] h = refl
is_empty-eq (c ∷ t) h = cc

answer-hold :
    (d : Discoverer) (may_hold : Bool) (name : Text) (n done : ℕ)
    → answer d may_hold name n ≡ hold_on done
    → (n ≡ done) × (may_hold ≡ true) × (0 < d.wait) × (name ≡ [])
unfolding answer
answer-hold d may_hold name n done h = ground (arith, is_empty-eq name)

answer-reply :
    (d : Discoverer) (may_hold : Bool) (name : Text) (n : ℕ) (t : Text)
    → answer d may_hold name n ≡ reply t
    → t ≡ name
unfolding answer
answer-reply d may_hold name n t h = ground arith

hold_in_flight :
    (may_hold : Bool) (now : ℕ) (addr : Addr) (d : Discoverer) (done : ℕ)
    → (ask may_hold now addr d).1 ≡ hold_on done
    → (Dict.get addr_discrete addr (ask may_hold now addr d).0.inflight ≡ some done)
      × (may_hold ≡ true)
      × (0 < d.wait)
      × (known_name addr d ≡ [])
unfolding ask start
hold_in_flight may_hold now addr d done h =
    let known = known_name addr d in
    elim (Option-cases (Dict.get addr_discrete addr d.inflight)) [
      | inl free ↦ ground (
        arith,
        answer-hold d may_hold known d.next done,
        Dict.get-put addr_discrete addr addr d.next d.inflight,
      )
      | inr (n, busy) ↦ ground (arith, answer-hold d may_hold known n done)
    ]

asked-IsValid :
    (may_hold : Bool) (now : ℕ) (addr : Addr) (d : Discoverer)
    → IsValid d
    → IsValid (ask may_hold now addr d).0
unfolding step
asked-IsValid may_hold now addr d v = step-IsValid d (asks may_hold now addr) v

-- With a valid discoverer a query only ever waits if it may be held, the wait is positive and no name is on record, not
-- even an expired one; and then a lookup of its address runs that has yet to land and will close the
-- channel that the query waits on.
pub ask-hold :
    (may_hold : Bool) (now : ℕ) (addr : Addr) (d : Discoverer) (done : ℕ)
    → IsValid d
    → (ask may_hold now addr d).1 ≡ hold_on done
    → (may_hold ≡ true)
      × (0 < d.wait)
      × (known_name addr d ≡ [])
      × Any (Owns addr done) (ask may_hold now addr d).0.running
ask-hold may_hold now addr d done v h =
    let (busy, may, positive, unnamed) = hold_in_flight may_hold now addr d done h in
    (may, positive, unnamed, (asked-IsValid may_hold now addr d v).owned addr done busy)

-- A query that does not wait goes on with the name on record, expired or not.
pub ask-reply :
    (may_hold : Bool) (now : ℕ) (addr : Addr) (d : Discoverer) (name : Text)
    → (ask may_hold now addr d).1 ≡ reply name
    → name ≡ known_name addr d
unfolding ask
ask-reply may_hold now addr d name h =
    let known = known_name addr d in
    elim (Option-cases (Dict.get addr_discrete addr d.inflight)) [
      | inl free ↦ ground (arith, answer-reply d may_hold known d.next name)
      | inr (n, busy) ↦ ground (arith, answer-reply d may_hold known n name)
    ]

ask_fresh :
    (may_hold : Bool) (now : ℕ) (addr : Addr) (d : Discoverer) (e : DiscoveryEntry)
    → Dict.get addr_discrete addr d.entries ≡ some e
    → now < e.expires
    → ask may_hold now addr d ≡ (d, reply e.name)
unfolding ask
ask_fresh may_hold now addr d e h fresh = ground arith

get-put_self :
    (addr : Addr) (e : DiscoveryEntry) (m : Dict Addr DiscoveryEntry)
    → Dict.get addr_discrete addr (Dict.put addr_discrete addr e m) ≡ some e
get-put_self addr e m = ground (arith, Dict.get-put addr_discrete addr addr e m)

-- The steps of one lookup whose goroutine is the newest, at one moment.
abbrev pub lookup_events : Resolved → ℕ → ℕ → List Event
lookup_events r now choice =
    let next = advances r now choice 0 in next ∷ next ∷ next ∷ next ∷ next ∷ []

-- If a lookup that has just started runs through its five steps at one moment with nothing in
-- between, and the resolver finds a name, then in the state that this leaves a hold that ends by the
-- lookup's landing goes on with the name, a query before the name expires gets it at once, held or
-- not, nothing of the lookup is left in flight or running, and the wait group is as before it.
pub lookup_named :
    (may_hold : Bool) (now later choice : ℕ) (addr : Addr) (d : Discoverer) (c : ℕ) (name : Text)
    → later < now + d.ttl
    → let d' = run (start d addr) (lookup_events (found (c ∷ name)) now choice) in
      (hold landed addr d' ≡ c ∷ name)
      × (ask may_hold later addr d' ≡ (d', reply (c ∷ name)))
      × (Dict.get addr_discrete addr d'.inflight ≡ none)
      × (d'.running ≡ d.running)
      × (d'.wg ≡ d.wg)
unfolding run step advance move start after_resolve store hold
lookup_named may_hold now later choice addr d c name fresh =
    let d' = run (start d addr) (lookup_events (found (c ∷ name)) now choice) in
    let e : DiscoveryEntry = record { name = c ∷ name; expires = now + d.ttl } in
    let stored : Dict.get addr_discrete addr d'.entries ≡ some e = get-put_self addr e _ in
    (
      rw stored,
      ask_fresh may_hold later addr d' e stored fresh,
      ground (
        arith,
        Dict.get-delete addr_discrete addr addr (Dict.put addr_discrete addr d.next d.inflight),
      ),
      refl,
      omega arith,
    )
