-- ===== src/Discovery/Shutdown.antt =====
-- The bounds of a discoverer in use, and what drain relies on.
use coredns_nextdns.Prelude.{
  ℕ, ◌≤◌, ◌<◌, ◌≡◌, inl, inr, refl, ◌∙◌, subst, List, [], ◌∷◌, true, none, Any, length, get_elem?,
  arith, Option-cases,
}
use coredns_nextdns.Prelude.Dict
use coredns_nextdns.Addr.{Addr, addr_discrete}
use coredns_nextdns.Discovery.{
  Discoverer, Lookup, Stage, resolving, storing, cleaning, recovering, releasing, finishing,
  Resolved, Event, asks, advances, closes, max_discovery_inflight, start, store, move, advance,
  close_down, step, run, new_discoverer,
}
use coredns_nextdns.Discovery.Valid.{IsValid, Owns}
use coredns_nextdns.Discovery.Invariant.{ask_cases, run-IsValid}

-- The discoverer that setup builds, with a configured table size.
abbrev pub configured : ℕ → Discoverer
configured max = record new_discoverer { max = max }

pub configured-IsValid : (max : ℕ) → 0 < max → IsValid (configured max)
unfolding new_discoverer
configured-IsValid max h = record {
  positive = h;
  counted = refl;
  few = omega arith;
  bounded = omega arith;
  entries_distinct = tt;
  inflight_distinct = tt;
  owned = λ a done e. absurd (unfold Dict.get in ground arith);
}

max-move :
    (r : Resolved) (now choice i : ℕ) (g : Lookup) (d : Discoverer) (s : Stage)
    → ((move r now choice i g d s).max ≡ d.max)
      × ((move r now choice i g d s).closing ≡ d.closing)
      × ((move r now choice i g d s).wg ≤ d.wg)
unfolding move store
max-move r now choice i g d resolving = (refl, refl, omega arith)
max-move r now choice i g d (storing name ttl) = (refl, refl, omega arith)
max-move r now choice i g d (cleaning panic) = (refl, refl, omega arith)
max-move r now choice i g d recovering = (refl, refl, omega arith)
max-move r now choice i g d releasing = (refl, refl, omega arith)
max-move r now choice i g d finishing = (refl, refl, omega arith)

max-step : (d : Discoverer) (e : Event) → (step d e).max ≡ d.max
unfolding step advance close_down start
max-step d (asks may_hold now addr) = ground (arith, ask_cases may_hold now addr d)
max-step d (advances r now choice i) = elim (Option-cases (get_elem? d.running i)) [
  | inl e ↦ rw (e, advance)
  | inr (g, e) ↦ rw (e, advance) (max-move r now choice i g d g.stage).0
]
max-step d closes = refl

max-run : (d : Discoverer) (events : List Event) → (run d events).max ≡ d.max
unfolding run
max-run d [] = refl
max-run d (e ∷ rest) = max-run (step d e) rest ∙ max-step d e

-- In every interleaving of queries, lookups and shutdown, at most 64 lookups are in flight, the
-- table holds at most the configured, positive number of names, and the wait group counts the goroutines.
pub run_bounds :
    (max : ℕ) (events : List Event)
    → 0 < max
    → let d = run (configured max) events in
      (length d.inflight ≤ max_discovery_inflight)
      × (length d.entries ≤ max)
      × (d.wg ≡ length d.running)
run_bounds max events h =
    let v = run-IsValid (configured max) events (configured-IsValid max h) in
    let same = max-run (configured max) events in (v.few, omega (arith, v.bounded, same), v.counted)

pub step-closing :
    (d : Discoverer) (e : Event)
    → d.closing ≡ true
    → ((step d e).closing ≡ true) × ((step d e).wg ≤ d.wg)
unfolding step advance close_down
step-closing d (asks may_hold now addr) h = ground (arith, ask_cases may_hold now addr d)
step-closing d (advances r now choice i) h = elim (Option-cases (get_elem? d.running i)) [
  | inl e ↦ rw (e, advance) (h, omega arith)
  | inr (g, e) ↦
      let (_, same, fewer) = max-move r now choice i g d g.stage in
      rw (e, advance) (same ∙ h, fewer)
]
step-closing d closes h = (refl, omega arith)

move-next :
    (r : Resolved) (now choice i : ℕ) (g : Lookup) (d : Discoverer) (s : Stage)
    → (move r now choice i g d s).next ≡ d.next
unfolding move store
move-next r now choice i g d resolving = refl
move-next r now choice i g d (storing name ttl) = refl
move-next r now choice i g d (cleaning panic) = refl
move-next r now choice i g d recovering = refl
move-next r now choice i g d releasing = refl
move-next r now choice i g d finishing = refl

-- Every lookup that starts takes the next channel, so none starts in a discoverer that is closing.
pub step-next : (d : Discoverer) (e : Event) → d.closing ≡ true → (step d e).next ≡ d.next
unfolding step advance close_down
step-next d (asks may_hold now addr) h = ground (arith, ask_cases may_hold now addr d)
step-next d (advances r now choice i) h = elim (Option-cases (get_elem? d.running i)) [
  | inl e ↦ rw (e, advance) refl
  | inr (g, e) ↦ rw (e, advance) (move-next r now choice i g d g.stage)
]
step-next d closes h = refl

-- Once drain has begun no lookup starts: whatever happens then, the wait group only counts down.
pub run-closing :
    (d : Discoverer) (events : List Event)
    → d.closing ≡ true
    → ((run d events).closing ≡ true) × ((run d events).wg ≤ d.wg)
unfolding run
run-closing d [] h = (h, omega arith)
run-closing d (e ∷ rest) h =
    let (closing, fewer) = step-closing d e h in
    let (still, fewest) = run-closing (step d e) rest closing in
    (still, omega (arith, fewer, fewest))

pub nothing_running : (xs : List Lookup) → length xs ≡ 0 → xs ≡ []
nothing_running [] h = refl
nothing_running (x ∷ xs) h = absurd (omega arith)

-- When the wait group of a valid discoverer is at 0 no query is left waiting: nothing is in flight
-- any more.
pub drained :
    (d : Discoverer) (addr : Addr)
    → IsValid d
    → d.wg ≡ 0
    → Dict.get addr_discrete addr d.inflight ≡ none
drained d addr v h = elim (Option-cases (Dict.get addr_discrete addr d.inflight)) [
  | inl e ↦ e
  | inr (done, e) ↦
      let none_left = nothing_running d.running (omega (arith, v.counted)) in
      absurd (subst (Any (Owns addr done)) none_left (v.owned addr done e))
]
