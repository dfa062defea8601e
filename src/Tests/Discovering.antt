-- ===== src/Tests/Discovering.antt =====
-- Runs of the discovery.
use coredns_nextdns.Prelude.{◌+◌, ◌<◌, ◌≡◌, refl, List, [], ◌∷◌, true, none, arith, ℕ_discrete}
use coredns_nextdns.Prelude.Text.{Text, codes}
use coredns_nextdns.Prelude.Dict
use coredns_nextdns.Addr.{Addr, v4, addr_discrete}
use coredns_nextdns.Discovery.{
  failed, Discoverer, new_discoverer, reply, hold_on, ask, start, answer, Event, asks, advances,
  closes, found, step, run, hold, landed, advance, move, after_resolve, store, close_down,
}
use coredns_nextdns.Discovery.Valid.{IsValid}
use coredns_nextdns.Discovery.Invariant.{step-IsValid}
use coredns_nextdns.Discovery.Shutdown.{configured, configured-IsValid}
use coredns_nextdns.Discovery.Answers.{lookup_events, lookup_named}
use coredns_nextdns.Tests.Data.{alice}

program : Unit {0}
unfolding new_discoverer ask start answer step run hold advance move after_resolve store close_down
    Dict.get Dict.put Dict.delete addr_discrete ℕ_discrete
program = tt

abbrev idle : Discoverer
idle = configured 2

idle-IsValid : IsValid idle
idle-IsValid = configured-IsValid 2 (omega arith)

step-IsValid_example : IsValid (step idle (asks true 0 alice))
step-IsValid_example = step-IsValid idle (asks true 0 alice) idle-IsValid

abbrev events : List Event
events = asks true 0 alice ∷ advances (found (codes "bob.lan.")) 5 0 0 ∷ closes ∷ []

abbrev closing : Discoverer
closing = step (step idle (asks true 0 alice)) closes

closing_closes : closing.closing ≡ true
unfolding program
closing_closes = refl

idle_counts : idle.wg ≡ 0
unfolding program
idle_counts = refl

held : (ask true 0 alice idle).1 ≡ hold_on 0
unfolding program
held = refl

fresh : 9 < 5 + idle.ttl
unfolding program
fresh = omega arith

abbrev named : Discoverer
named = run (start idle alice) (lookup_events (found (codes "bob.lan.")) 5 0)

lookup_named_example :
    (hold landed alice named ≡ codes "bob.lan.")
    × (ask true 9 alice named ≡ (named, reply (codes "bob.lan.")))
    × (Dict.get addr_discrete alice named.inflight ≡ none)
    × (named.running ≡ idle.running)
    × (named.wg ≡ idle.wg)
lookup_named_example = lookup_named true 5 9 0 alice idle 98 (codes "ob.lan.") fresh

-- The resolver names alice's address, and no other one.
abbrev Named : Addr → Text → Type 0
Named addr name = (addr ≡ alice) × (name ≡ codes "phone.")

abbrev told : List Event
told =
    asks true 0 alice
    ∷ advances (found (codes "phone.")) 1 0 0
    ∷ asks true 1 (v4 9)
    ∷ advances failed 2 0 1
    ∷ []

told_named : hold landed alice (run (configured 2) told) ≡ codes "phone."
unfolding program
told_named = refl
