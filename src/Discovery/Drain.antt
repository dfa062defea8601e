-- ===== src/Discovery/Drain.antt =====
-- drain of discovery.go: the shutdown waits for the lookups that are running, and these end.
use coredns_nextdns.Prelude.{
  ℕ, zero, suc, ◌+◌, ◌*◌, ◌≤◌, ◌≡◌, inl, inr, refl, List, [], ◌∷◌, Bool, true, false, ◌||◌, Option,
  none, some, length, get_elem?, set, arith, ◌==◌, if◌then◌else◌, is_some, Option-cases,
}
use coredns_nextdns.Prelude.Dict
use coredns_nextdns.Addr.{Addr, addr_discrete}
use coredns_nextdns.Discovery.{
  Discoverer, Lookup, Stage, resolving, storing, cleaning, recovering, releasing, finishing,
  Resolved, failed, no_arpa, panicked, found, Event, asks, advances, closes, start, store,
  after_resolve, remove_at, move, advance, close_down, step, run,
}
use coredns_nextdns.Discovery.Valid.{IsValid}
use coredns_nextdns.Discovery.Invariant.{ask_cases, run-IsValid, step-IsValid}
use coredns_nextdns.Discovery.Shutdown.{step-closing, drained, nothing_running}

-- drain: no lookup starts any more, `meanwhile` is what happens until the lookups are done or the
-- time is up; and whether they are done. `none` is a nil discoverer.
unfoldable pub drain : List Event → Option Discoverer → Option Discoverer × Bool
drain meanwhile none = (none, true)
drain meanwhile (some d) = let d' = run (close_down d) meanwhile in (some d', d'.wg == 0)

-- The steps that a lookup may have before it.
unfoldable pub steps_left : Stage → ℕ
steps_left resolving = 6
steps_left (storing name ttl) = 5
steps_left (cleaning panic) = 4
steps_left recovering = 3
steps_left releasing = 2
steps_left finishing = 1

unfoldable pub work : List Lookup → ℕ
work [] = 0
work (g ∷ gs) = steps_left g.stage + work gs

-- Whether an event is a step of a lookup that is running.
unfoldable pub is_move : Discoverer → Event → Bool
is_move d (asks may_hold now addr) = false
is_move d (advances r now choice i) = is_some (get_elem? d.running i)
is_move d closes = false

-- How many of the events of a run are steps of lookups.
unfoldable pub moves : Discoverer → List Event → ℕ
moves d [] = 0
moves d (e ∷ rest) = let later = moves (step d e) rest in if is_move d e then later + 1 else later

-- How many of the events come while a lookup runs and are no step of one: queries, and steps of
-- lookups that are over.
unfoldable pub idle : Discoverer → List Event → ℕ
idle d [] = 0
idle d (e ∷ rest) =
    let later = idle (step d e) rest in if is_move d e || d.wg == 0 then later else later + 1

work-set :
    (gs : List Lookup) (i : ℕ) (g h : Lookup)
    → get_elem? gs i ≡ some g
    → work (set gs i h) + steps_left g.stage ≡ work gs + steps_left h.stage
unfolding work
work-set [] i g h e = absurd (ground arith)
work-set (x ∷ gs) zero g h e = ground arith
work-set (x ∷ gs) (suc i) g h e = omega (arith, work-set gs i g h e)

work-remove_at :
    (gs : List Lookup) (i : ℕ) (g : Lookup)
    → get_elem? gs i ≡ some g
    → work (remove_at i gs) + steps_left g.stage ≡ work gs
unfolding work
work-remove_at [] i g e = absurd (ground arith)
work-remove_at (x ∷ gs) zero g e = ground arith
work-remove_at (x ∷ gs) (suc i) g e = omega (arith, work-remove_at gs i g e)

after_resolve-steps_left : (d : Discoverer) (r : Resolved) → steps_left (after_resolve d r) ≤ 5
unfolding after_resolve steps_left
after_resolve-steps_left d failed = omega arith
after_resolve-steps_left d no_arpa = omega arith
after_resolve-steps_left d panicked = omega arith
after_resolve-steps_left d (found []) = omega arith
after_resolve-steps_left d (found (c ∷ name)) = omega arith

-- A step of a lookup leaves less work.
work-move :
    (r : Resolved) (now choice i : ℕ) (g : Lookup) (d : Discoverer) (s : Stage)
    → get_elem? d.running i ≡ some g
    → g.stage ≡ s
    → 1 + work (move r now choice i g d s).running ≤ work d.running
unfolding move store steps_left
work-move r now choice i g d resolving at e =
    let h : Lookup = record g { stage = after_resolve d r } in
    ground (arith, work-set d.running i g h at, after_resolve-steps_left d r, e)
work-move r now choice i g d (storing name ttl) at e =
    ground (arith, work-set d.running i g (record g { stage = cleaning false }) at, e)
work-move r now choice i g d (cleaning false) at e =
    ground (arith, work-set d.running i g (record g { stage = releasing }) at, e)
work-move r now choice i g d (cleaning true) at e =
    ground (arith, work-set d.running i g (record g { stage = recovering }) at, e)
work-move r now choice i g d recovering at e =
    ground (arith, work-set d.running i g (record g { stage = releasing }) at, e)
work-move r now choice i g d releasing at e =
    ground (arith, work-set d.running i g (record g { stage = finishing }) at, e)
work-move r now choice i g d finishing at e = ground (arith, work-remove_at d.running i g at, e)

-- Once no lookup starts any more, an event leaves the work as it is, or less of it if it is a step
-- of a lookup.
work-step :
    (d : Discoverer) (e : Event)
    → d.closing ≡ true
    → (if is_move d e then 1 else 0) + work (step d e).running ≤ work d.running
unfolding step is_move advance close_down start
work-step d (asks may_hold now addr) h = ground (arith, ask_cases may_hold now addr d)
work-step d (advances r now choice i) h = elim (Option-cases (get_elem? d.running i)) [
  | inl e ↦ rw (e, advance) (omega arith)
  | inr (g, e) ↦ rw (e, advance) (work-move r now choice i g d g.stage e refl)
]
work-step d closes h = omega arith

-- The steps of lookups in a run and the work after it are at most the work before it.
pub moves-work :
    (d : Discoverer) (events : List Event)
    → d.closing ≡ true
    → moves d events + work (run d events).running ≤ work d.running
unfolding moves run
moves-work d [] h = omega arith
moves-work d (e ∷ rest) h =
    ground (arith, work-step d e h, moves-work (step d e) rest (step-closing d e h).0)

steps_left_bound : (s : Stage) → (1 ≤ steps_left s) × (steps_left s ≤ 6)
unfolding steps_left
steps_left_bound resolving = (omega arith, omega arith)
steps_left_bound (storing name ttl) = (omega arith, omega arith)
steps_left_bound (cleaning panic) = (omega arith, omega arith)
steps_left_bound recovering = (omega arith, omega arith)
steps_left_bound releasing = (omega arith, omega arith)
steps_left_bound finishing = (omega arith, omega arith)

work_bound : (gs : List Lookup) → (length gs ≤ work gs) × (work gs ≤ 6 * length gs)
unfolding work steps_left
work_bound [] = (omega arith, omega arith)
work_bound (g ∷ gs) =
    let (low, high) = work_bound gs in
    let (least, most) = steps_left_bound g.stage in
    (omega (arith, low, least), omega (arith, high, most))

idle-le-length : (d : Discoverer) (events : List Event) → idle d events ≤ length events
unfolding idle
idle-le-length d [] = omega arith
idle-le-length d (e ∷ rest) = ground (arith, idle-le-length (step d e) rest)

-- A run with room for the work, beside its idle events, ends with no lookup running.
work-run :
    (d : Discoverer) (events : List Event)
    → IsValid d
    → d.closing ≡ true
    → work d.running + idle d events ≤ length events
    → (run d events).wg ≡ 0
unfolding idle run
work-run d [] v h room = omega (arith, (work_bound d.running).0, v.counted)
work-run d (e ∷ rest) v h room =
    work-run (step d e) rest (step-IsValid d e v) (step-closing d e h).0 (
      ground (
        arith,
        work-step d e h,
        (work_bound d.running).1,
        v.counted,
        idle-le-length (step d e) rest,
      ))

-- The lookups that are running when drain begins take, together, at most six steps each.
pub moves_bound :
    (d : Discoverer) (meanwhile : List Event)
    → IsValid d
    → moves (close_down d) meanwhile ≤ 6 * d.wg
unfolding close_down
moves_bound d meanwhile v =
    omega (arith, moves-work (close_down d) meanwhile refl, (work_bound d.running).1, v.counted)

-- The drain of a valid discoverer ends: if of the events that come while it waits six for each
-- running lookup are neither queries nor steps of lookups that are over, it returns with every
-- lookup done: none is running and nothing is in flight, whatever the resolver does and however the
-- lookups interleave.
pub drain_ends :
    (d : Discoverer) (meanwhile : List Event)
    → IsValid d
    → 6 * d.wg + idle (close_down d) meanwhile ≤ length meanwhile
    → ((drain meanwhile (some d)).1 ≡ true)
      × ((run (close_down d) meanwhile).running ≡ [])
      × ((addr : Addr) → Dict.get addr_discrete addr (run (close_down d) meanwhile).inflight ≡ none)
unfolding drain close_down step
drain_ends d meanwhile v room =
    let d' = close_down d in
    let v' = step-IsValid d closes v in
    let v'' = run-IsValid d' meanwhile v' in
    let high = (work_bound d.running).1 in
    let done = work-run d' meanwhile v' refl (omega (arith, room, high, v.counted)) in
    (
      ground (arith, done),
      nothing_running (run d' meanwhile).running (omega (arith, v''.counted, done)),
      λ addr. drained (run d' meanwhile) addr v'' done,
    )
