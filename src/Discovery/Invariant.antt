-- ===== src/Discovery/Invariant.antt =====
-- What every interleaving of queries, lookups and shutdown keeps.
use coredns_nextdns.Prelude.{
  ℕ, ◌-◌, ◌<◌, ◌≡◌, ◌⊎◌, inl, inr, refl, List, [], ◌∷◌, Bool, false, none, some, length, get_elem?,
  length-set, arith, if◌then◌else◌, Option-cases, subst,
}
use coredns_nextdns.Prelude.Text.{Text}
use coredns_nextdns.Prelude.Dict
use coredns_nextdns.Prelude.Dict.{Dict}
use coredns_nextdns.Addr.{Addr, addr_discrete}
use coredns_nextdns.Discovery.{
  Discoverer, Lookup, Stage, resolving, storing, cleaning, recovering, releasing, finishing,
  Resolved, failed, no_arpa, panicked, found, Event, asks, advances, closes, max_discovery_inflight,
  ask, start, store, after_resolve, to_stage, remove_at, move, advance, close_down, step, run,
}
use coredns_nextdns.Discovery.Valid.{
  IsBefore, Owns, IsValid, Any-set, Any-remove_at, length-remove_at, store-IsValid,
  to_stage-IsValid, start-IsValid,
}

-- A query leaves the discoverer as it is, or starts the one lookup of its address.
pub ask_cases :
    (may_hold : Bool) (now : ℕ) (addr : Addr) (d : Discoverer)
    → ((ask may_hold now addr d).0 ≡ d)
      ⊎ (((ask may_hold now addr d).0 ≡ start d addr)
          × (d.closing ≡ false)
          × (Dict.get addr_discrete addr d.inflight ≡ none)
          × (length d.inflight < max_discovery_inflight))
unfolding ask
ask_cases may_hold now addr d = ground arith

after_resolve-IsBefore : (d : Discoverer) (r : Resolved) → IsBefore (after_resolve d r)
unfolding after_resolve
after_resolve-IsBefore d failed = tt
after_resolve-IsBefore d no_arpa = tt
after_resolve-IsBefore d panicked = tt
after_resolve-IsBefore d (found []) = tt
after_resolve-IsBefore d (found (c ∷ name)) = tt

running-store :
    (choice now : ℕ) (addr : Addr) (name : Text) (ttl : ℕ) (d : Discoverer)
    → (store choice now addr name ttl d).running ≡ d.running
unfolding store
running-store choice now addr name ttl d = refl

ask-IsValid :
    (may_hold : Bool) (now : ℕ) (addr : Addr) (d : Discoverer)
    → IsValid d
    → IsValid (ask may_hold now addr d).0
unfolding ask
ask-IsValid may_hold now addr d h = elim (ask_cases may_hold now addr d) [
  | inl same ↦ rw same h
  | inr (started, _, new, room) ↦ rw started (start-IsValid d addr new room h)
]

cleaning-IsValid :
    (d : Discoverer) (i : ℕ) (g : Lookup) (stage : Stage)
    → get_elem? d.running i ≡ some g
    → IsValid d
    → IsValid
        (to_stage (record d { inflight = Dict.delete addr_discrete g.addr d.inflight }) i g stage)
cleaning-IsValid d i g stage at h =
    let g' : Lookup = record g { stage = stage } in
    record {
      positive = h.positive;
      counted = rw (length-set d.running i g') h.counted;
      few = omega (arith, h.few, Dict.length-delete-le addr_discrete g.addr d.inflight);
      bounded = h.bounded;
      entries_distinct = h.entries_distinct;
      inflight_distinct =
          Dict.delete-IsDistinct addr_discrete g.addr d.inflight h.inflight_distinct;
      owned = λ a done e. elim (addr_discrete g.addr a) [
        | yes p ↦ absurd (ground (arith, Dict.get-delete addr_discrete g.addr a d.inflight))
        | no p ↦
            Any-set (Owns a done) d.running i g g' at (λ o. absurd (p o.same_addr))
              (h.owned a done (ground (arith, Dict.get-delete addr_discrete g.addr a d.inflight)))
      ];
    }

finishing-IsValid :
    (d : Discoverer) (i : ℕ) (g : Lookup)
    → get_elem? d.running i ≡ some g
    → g.stage ≡ finishing
    → IsValid d
    → IsValid (record d { wg = d.wg - 1; running = remove_at i d.running })
finishing-IsValid d i g at last h = record {
  positive = h.positive;
  counted = omega (arith, h.counted, length-remove_at d.running i g at);
  few = h.few;
  bounded = h.bounded;
  entries_distinct = h.entries_distinct;
  inflight_distinct = h.inflight_distinct;
  owned = λ a done e.
      Any-remove_at (Owns a done) d.running i g at (λ o. subst IsBefore last o.before)
        (h.owned a done e);
}

move-IsValid :
    (r : Resolved) (now choice i : ℕ) (g : Lookup) (d : Discoverer) (stage : Stage)
    → get_elem? d.running i ≡ some g
    → g.stage ≡ stage
    → IsValid d
    → IsValid (move r now choice i g d stage)
unfolding move
move-IsValid r now choice i g d resolving at e h =
    to_stage-IsValid d i g (after_resolve d r) at (λ b. after_resolve-IsBefore d r) h
move-IsValid r now choice i g d (storing name ttl) at e h =
    to_stage-IsValid (store choice now g.addr name ttl d) i g (cleaning false) (rw running-store at)
      (λ b. tt) (store-IsValid choice now g.addr name ttl d h)
move-IsValid r now choice i g d (cleaning panic) at e h =
    cleaning-IsValid d i g (if panic then recovering else releasing) at h
move-IsValid r now choice i g d recovering at e h =
    to_stage-IsValid (store choice now g.addr [] d.retry d) i g releasing (rw running-store at)
      (λ b. subst IsBefore e b) (store-IsValid choice now g.addr [] d.retry d h)
move-IsValid r now choice i g d releasing at e h =
    to_stage-IsValid (record d { closed = g.done ∷ d.closed }) i g finishing at
      (λ b. subst IsBefore e b)
      (record {
        positive = h.positive;
        counted = h.counted;
        few = h.few;
        bounded = h.bounded;
        entries_distinct = h.entries_distinct;
        inflight_distinct = h.inflight_distinct;
        owned = h.owned;
      })
move-IsValid r now choice i g d finishing at e h = finishing-IsValid d i g at e h

-- Every step of a query, of a lookup and of the shutdown keeps the discoverer valid.
pub step-IsValid : (d : Discoverer) (e : Event) → IsValid d → IsValid (step d e)
unfolding step advance close_down
step-IsValid d (asks may_hold now addr) h = ask-IsValid may_hold now addr d h
step-IsValid d (advances r now choice i) h = elim (Option-cases (get_elem? d.running i)) [
  | inl e ↦ rw (e, advance) h
  | inr (g, e) ↦ rw (e, advance) (move-IsValid r now choice i g d g.stage e refl h)
]
step-IsValid d closes h = record {
  positive = h.positive;
  counted = h.counted;
  few = h.few;
  bounded = h.bounded;
  entries_distinct = h.entries_distinct;
  inflight_distinct = h.inflight_distinct;
  owned = h.owned;
}

pub run-IsValid : (d : Discoverer) (events : List Event) → IsValid d → IsValid (run d events)
unfolding run
run-IsValid d [] h = h
run-IsValid d (e ∷ rest) h = run-IsValid (step d e) rest (step-IsValid d e h)
