-- ===== src/Discovery.antt =====
-- discovery.go: device names by reverse DNS. A query runs `ask` under d.mu; a lookup is a goroutine
-- that goes through its stages, each a step that other goroutines may come between. What the
-- resolver returns, the clock and the entry that an eviction meets are arguments of a step.
pub mod Valid
pub mod Resolvers
pub mod Invariant
pub mod Shutdown
pub mod Answers
pub mod Names
pub mod Drain
use coredns_nextdns.Prelude.{
  ℕ, zero, suc, ◌+◌, ◌-◌, List, [], ◌∷◌, Bool, true, false, not, ◌&&◌, ◌||◌, Option, none, some,
  length, get_elem?, set, leb, ltb, if◌then◌else◌, is_some,
}
use coredns_nextdns.Prelude.Text.{Text, is_empty}
use coredns_nextdns.Prelude.Dict
use coredns_nextdns.Prelude.Dict.{Dict}
use coredns_nextdns.Addr.{Addr, addr_discrete}

abbrev pub max_discovery_inflight : ℕ
max_discovery_inflight = 64

pub record DiscoveryEntry : Type 0 where
  pub name : Text
  pub expires : ℕ

-- Where a lookup's goroutine stands. Its deferred calls run in the order cleaning (with the
-- recovery of a panic), releasing (close(done)), finishing (wg.Done).
pub data Stage : Type 0 where
  resolving : Stage
  storing : Text → ℕ → Stage
  cleaning : Bool → Stage
  recovering releasing finishing : Stage

pub record Lookup : Type 0 where
  pub addr : Addr
  pub done : ℕ
  pub stage : Stage

-- `inflight` maps an address to the channel of its lookup, `next` is the channel made next and
-- `closed` holds the channels that are closed.
pub record Discoverer : Type 0 where
  pub ttl : ℕ
  pub wait : ℕ
  pub retry : ℕ
  pub max : ℕ
  pub wg : ℕ
  pub closing : Bool
  pub entries : Dict Addr DiscoveryEntry
  pub inflight : Dict Addr ℕ
  pub running : List Lookup
  pub next : ℕ
  pub closed : List ℕ

-- newDiscoverer, with the defaults in nanoseconds
unfoldable pub new_discoverer : Discoverer
new_discoverer = record {
  ttl = 300_000_000_000;
  wait = 200_000_000;
  retry = 300_000_000_000;
  max = 4096;
  wg = 0;
  closing = false;
  entries = [];
  inflight = [];
  running = [];
  next = 0;
  closed = [];
}

-- What a query gets: a name at once, or the channel to hold on.
pub data Answer : Type 0 where
  reply : Text → Answer
  hold_on : ℕ → Answer

abbrev pub name_of : Option DiscoveryEntry → Text
name_of none = []
name_of (some e) = e.name

abbrev pub is_fresh : ℕ → Option DiscoveryEntry → Bool
is_fresh now none = false
is_fresh now (some e) = ltb now e.expires

unfoldable pub answer : Discoverer → Bool → Text → ℕ → Answer
answer d may_hold name done =
    if may_hold && (ltb 0 d.wait && is_empty name) then hold_on done else reply name

-- The start of a lookup: its channel, its goroutine and the wait group's count.
unfoldable pub start : Discoverer → Addr → Discoverer
start d addr = record d {
  wg = d.wg + 1;
  inflight = Dict.put addr_discrete addr d.next d.inflight;
  running = record { addr = addr; done = d.next; stage = resolving } ∷ d.running;
  next = d.next + 1;
}

-- discoverer.name up to the hold.
unfoldable pub ask : Bool → ℕ → Addr → Discoverer → Discoverer × Answer
ask may_hold now addr d =
    let e = Dict.get addr_discrete addr d.entries in
    let name = name_of e in
    if is_fresh now e then (d, reply name) else (elim (Dict.get addr_discrete addr d.inflight) [
      | some done ↦ (d, answer d may_hold name done)
      | none ↦
          if d.closing || leb max_discovery_inflight (length d.inflight)
          then (d, reply name)
          else (start d addr, answer d may_hold name d.next)
    ])

-- discoverer.store
unfoldable pub store : ℕ → ℕ → Addr → Text → ℕ → Discoverer → Discoverer
store choice now addr name ttl d =
    let exists = is_some (Dict.get addr_discrete addr d.entries) in
    let room =
      if not exists && leb d.max (length d.entries)
      then Dict.evict addr_discrete choice d.entries
      else d.entries in
    record d {
      entries = Dict.put addr_discrete addr (record { name = name; expires = now + ttl }) room;
    }

-- How the resolver's call ends; `no_arpa` is an address that dns.ReverseAddr refuses.
pub data Resolved : Type 0 where
  failed no_arpa panicked : Resolved
  found : Text → Resolved

-- What lookup goes on to store, and for how long.
unfoldable pub after_resolve : Discoverer → Resolved → Stage
after_resolve d failed = storing [] d.retry
after_resolve d no_arpa = cleaning false
after_resolve d panicked = cleaning true
after_resolve d (found []) = storing [] d.retry
after_resolve d (found (c ∷ name)) = storing (c ∷ name) d.ttl

abbrev pub to_stage : Discoverer → ℕ → Lookup → Stage → Discoverer
to_stage d i g stage = record d { running = set d.running i (record g { stage = stage }) }

abbrev pub remove_at {ℓ} : {A : Type ℓ} → ℕ → List A → List A
remove_at i [] = []
remove_at zero (x ∷ xs) = xs
remove_at (suc i) (x ∷ xs) = x ∷ remove_at i xs

-- One step of the goroutine `g`, which is the `i`-th.
unfoldable pub move : Resolved → ℕ → ℕ → ℕ → Lookup → Discoverer → Stage → Discoverer
move r now choice i g d resolving = to_stage d i g (after_resolve d r)
move r now choice i g d (storing name ttl) =
    to_stage (store choice now g.addr name ttl d) i g (cleaning false)
move r now choice i g d (cleaning panic) =
    to_stage (record d { inflight = Dict.delete addr_discrete g.addr d.inflight }) i g
      (if panic then recovering else releasing)
move r now choice i g d recovering = to_stage (store choice now g.addr [] d.retry d) i g releasing
move r now choice i g d releasing = to_stage (record d { closed = g.done ∷ d.closed }) i g finishing
move r now choice i g d finishing = record d { wg = d.wg - 1; running = remove_at i d.running }

unfoldable pub advance : Resolved → ℕ → ℕ → ℕ → Discoverer → Discoverer
advance r now choice i d = elim (get_elem? d.running i) [
  | none ↦ d
  | some g ↦ move r now choice i g d g.stage
]

-- The start of drain; it then waits for `wg` to reach 0, or gives up.
unfoldable pub close_down : Discoverer → Discoverer
close_down d = record d { closing = true }

pub data Event : Type 0 where
  asks : Bool → ℕ → Addr → Event
  advances : Resolved → ℕ → ℕ → ℕ → Event
  closes : Event

unfoldable pub step : Discoverer → Event → Discoverer
step d (asks may_hold now addr) = (ask may_hold now addr d).0
step d (advances r now choice i) = advance r now choice i d
step d closes = close_down d

unfoldable pub run : Discoverer → List Event → Discoverer
run d [] = d
run d (e ∷ rest) = run (step d e) rest

-- How the select of hold ends, and the name that the query goes on with.
pub data HoldEnd : Type 0 where
  landed timed_out cancelled : HoldEnd

unfoldable pub hold : HoldEnd → Addr → Discoverer → Text
hold landed addr d = name_of (Dict.get addr_discrete addr d.entries)
hold timed_out addr d = []
hold cancelled addr d = []
