-- ===== src/Tests/Living.antt =====
-- Runs of an instance from its start to its shutdown, and of the metrics.
use coredns_nextdns.Prelude.{
  ◌+◌, ◌*◌, ◌≤◌, ◌≡◌, List, [], ◌∷◌, true, false, Option, none, some, arith, length, ℕ_discrete,
}
use coredns_nextdns.Prelude.Text.{Text, codes}
use coredns_nextdns.Prelude.Dict
use coredns_nextdns.Addr.{Addr, addr_discrete}
use coredns_nextdns.Device.{HardwareAddr}
use coredns_nextdns.Cache.Hits.{Stored}
use coredns_nextdns.Addr.{v4}
use coredns_nextdns.Discovery.{
  Discoverer, new_discoverer, Event, asks, advances, failed, run, step, ask, start, answer, advance,
  move, after_resolve, store, close_down,
}
use coredns_nextdns.Discovery.Valid.{IsValid}
use coredns_nextdns.Discovery.Invariant.{step-IsValid}
use coredns_nextdns.Discovery.Shutdown.{configured, configured-IsValid}
use coredns_nextdns.Discovery.Drain.{drain, idle, is_move, drain_ends}
use coredns_nextdns.Metrics.{MetricLabels, Series, Gauges}
use coredns_nextdns.Sources.{contents}
use coredns_nextdns.Metrics.Registered.{cache_hits_total, Metric}
use coredns_nextdns.Lifecycle.{looks_up, Disk, Process, Action, ticks, leaves, shuts_down, live}
use coredns_nextdns.Lifecycle.Stopped.{IsStopped, live-IsStopped}
use coredns_nextdns.Tests.Data.{alice, answered, request, home}
use coredns_nextdns.Tests.Handler.{lib, idle as unused}

-- One lookup runs; it fails, and goes through its stages, while a query comes in between.
abbrev asking : Discoverer
asking = step (configured 2) (asks true 0 alice)

asking-IsValid : IsValid asking
asking-IsValid =
    step-IsValid (configured 2) (asks true 0 alice) (configured-IsValid 2 (omega arith))

abbrev ending : List Event
ending =
    advances failed 1 0 0
    ∷ asks true 2 alice
    ∷ advances failed 3 0 0
    ∷ advances failed 4 0 0
    ∷ advances failed 5 0 0
    ∷ advances failed 6 0 0
    ∷ advances failed 7 0 0
    ∷ []

enough : 6 * asking.wg + idle (close_down asking) ending ≤ length ending
unfolding step ask start answer advance move after_resolve store close_down idle is_move
    new_discoverer Dict.get Dict.put Dict.delete addr_discrete ℕ_discrete
enough = omega arith

drain_ends_example :
    ((drain ending (some asking)).1 ≡ true)
    × ((run (close_down asking) ending).running ≡ [])
    × ((addr : Addr) → Dict.get addr_discrete addr (run (close_down asking) ending).inflight ≡ none)
drain_ends_example = drain_ends asking ending asking-IsValid enough

abbrev labels : MetricLabels
labels = record {
  servers = codes "dns://:53" ∷ codes "dns://:54" ∷ [];
  zone = codes ".";
  view = [];
}

abbrev series : Gauges
series = record { devices_known = []; discovery_entries = []; cache_size = [] }

abbrev begun : Process
begun = record {
  running = record {
    handler = unused;
    sources = record {
      files = [];
      use_arp = true;
      arp_path = codes "arp";
      reload = 30_000_000_000;
      reload_on = false;
    };
    labels = labels;
    ticking = false;
    done = false;
  };
  gauges = series;
}

abbrev disk : Disk
disk = record { open_file = λ path. contents (codes ""); choice = λ a. 0; order = λ m. m }

abbrev parse_mac : Text → Option HardwareAddr
parse_mac t = none

abbrev put_one : Stored
put_one = record { choice = 0; at = 0; profile = home; request = request; reply = answered }

-- An instance with a discoverer in which one lookup runs, and what comes after it has been shut
-- down: a query that would start a lookup, and the steps of the one that runs.
abbrev with_lookup : Process
with_lookup = record begun {
  running = record (begun.running) {
    handler = record unused { devices = record (unused.devices) { discovery = some asking } };
  };
}

abbrev after : List Action
after =
    looks_up (asks true 0 (v4 7)) ∷ looks_up (advances failed 1 0 0) ∷ ticks disk ∷ shuts_down ∷ []

live-IsStopped_example :
    IsStopped with_lookup.running.handler.devices
      (live lib parse_mac with_lookup (shuts_down ∷ leaves ∷ after))
live-IsStopped_example = live-IsStopped lib parse_mac with_lookup after (tt, (tt, (tt, (tt, tt))))

abbrev own_series : Series
own_series = (codes "dns://:53", codes ".", [])

abbrev metric : Metric
metric = cache_hits_total
