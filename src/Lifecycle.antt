-- ===== src/Lifecycle.antt =====
-- The life of an instance: the callbacks that setup registers (setup.go), the hooks of nextdns.go
-- that they call, start and stop of device.go, and the gauges that the goroutines of the instance
-- write meanwhile. Each action is one that the others may come between; that of discovery and of the
-- cache is one step with the write of its gauge. When the server calls back
-- is for the sequence of actions to say; the warning of the second OnStartup is in Routing.
pub mod Frozen
pub mod Stopped
use coredns_nextdns.Prelude.{
  ℕ, List, [], ◌∷◌, Bool, true, false, not, ◌&&◌, Option, none, some, length, get_elem?,
  if◌then◌else◌,
}
use coredns_nextdns.Prelude.Text.{Text}
use coredns_nextdns.Prelude.Dict.{Dict}
use coredns_nextdns.Addr.{Addr}
use coredns_nextdns.Config.{SourceSettings}
use coredns_nextdns.Device.{HardwareAddr, DeviceInfo, DeviceDb}
use coredns_nextdns.Discovery
use coredns_nextdns.Discovery.{
  Discoverer, Stage, resolving, storing, cleaning, recovering, releasing, finishing, Event, asks,
  advances, closes, close_down,
}
use coredns_nextdns.Store.{len}
use coredns_nextdns.Cache
use coredns_nextdns.Cache.{is_cacheable}
use coredns_nextdns.Cache.Hits.{Stored}
use coredns_nextdns.Sources.{Opened}
use coredns_nextdns.Sources.Learned.{refresh_sources}
use coredns_nextdns.Plugin.{Libraries, NextDns}
use coredns_nextdns.Metrics.{
  MetricLabels, Gauges, set_gauge, set_if_some, entries_count, cache_count, delete_gauges,
  republish_gauges,
}

-- An instance: `ticking` is whether the goroutine of start runs, `done` whether its channel is
-- closed. The labels are one field, since setMetricLabels gives the same to every part.
pub record Instance : Type 0 where
  pub handler : NextDns
  pub sources : SourceSettings
  pub labels : MetricLabels
  pub ticking : Bool
  pub done : Bool

-- The instance, and the gauges of the process.
pub record Process : Type 0 where
  pub running : Instance
  pub gauges : Gauges

-- What a refresh meets: the files, and the orders in which maps are walked.
pub record Disk : Type 0 where
  pub open_file : Text → Opened
  pub choice : Addr → ℕ
  pub order : Dict Addr DeviceInfo → List (Addr × DeviceInfo)

pub data Action : Type 0 where
  labels_set : MetricLabels → Action
  starts ticks : Disk → Action
  leaves : Action
  looks_up : Event → Action
  puts : Stored → Action
  restarts restart_fails shuts_down : Action

-- setMetricLabels
unfoldable pub set_metric_labels : MetricLabels → Process → Process
set_metric_labels l p = record p { running = record (p.running) { labels = l } }

unfoldable pub has_sources : SourceSettings → Bool
has_sources s = elim s.files [ [] ↦ s.use_arp | f ∷ fs ↦ true ]

unfoldable pub leave : Process → Process
leave p =
    if p.running.done then record p { running = record (p.running) { ticking = false } } else p

-- Whether a step of discovery stores an entry, which sets the gauge.
unfoldable pub is_storing : Stage → Bool
is_storing resolving = false
is_storing (storing name ttl) = true
is_storing (cleaning panic) = false
is_storing recovering = true
is_storing releasing = false
is_storing finishing = false

unfoldable pub stores : Discoverer → Event → Bool
stores d (asks may_hold now addr) = false
stores d (advances r now choice i) = elim (get_elem? d.running i) [
  | none ↦ false
  | some g ↦ is_storing g.stage
]
stores d closes = false

-- The instance with its discoverer replaced.
abbrev pub with_discovery : Discoverer → Instance → Instance
with_discovery d i = record i {
  handler = record (i.handler) { devices = record (i.handler.devices) { discovery = some d } };
}

-- A step of a query that asks for a name, or of a lookup; nothing without discovery.
unfoldable pub step_discovery : Event → Process → Process
step_discovery e p = elim p.running.handler.devices.discovery [
  | none ↦ p
  | some d ↦
      let d' = Discovery.step d e in
      record {
        running = with_discovery d' p.running;
        gauges =
            if stores d e
            then record (p.gauges) {
              discovery_entries =
                  set_gauge p.running.labels (length d'.entries) p.gauges.discovery_entries;
            }
            else p.gauges;
      }
]

-- OnRestart and OnRestartFailed
unfoldable pub on_restart : Process → Process
on_restart p = record p { gauges = delete_gauges p.running.labels p.gauges }

unfoldable pub on_restart_failed : Process → Process
on_restart_failed p = record p {
  gauges = republish_gauges p.running.labels p.running.handler p.gauges;
}

-- stop, as far as the wait of drain: `done` is closed, once, and no lookup starts any more
unfoldable pub on_shutdown : Process → Process
on_shutdown p =
    let i : Instance = elim p.running.handler.devices.discovery [
      | none ↦ p.running
      | some d ↦ with_discovery (close_down d) p.running
    ] in
    record p { running = record i { done = true } }

module _ (lib : Libraries) (parse_mac : Text → Option HardwareAddr) where
  -- The device tables of an instance, and the gauge that refresh sets at its end.
  unfoldable pub refresh_devices : Disk → Process → Process
  refresh_devices k p =
      let i = p.running in
      let devices =
        refresh_sources lib.parse_addr parse_mac k.open_file k.choice k.order i.sources
          i.handler.devices in
      record {
        running = record i { handler = record (i.handler) { devices = devices } };
        gauges = record (p.gauges) {
          devices_known = set_gauge i.labels (length devices.learned) p.gauges.devices_known;
        };
      }

  -- start: nothing where there is nothing to read, else a refresh and the goroutine
  unfoldable pub start_devices : Disk → Process → Process
  start_devices k p =
      if has_sources p.running.sources
      then (let p' = refresh_devices k p in
          record p' { running = record (p'.running) { ticking = true } })
      else p

  -- The goroutine of start: the ticker's case of its select, which can be taken as long as the
  -- goroutine runs, and the other case, for which `done` must be closed.
  unfoldable pub tick : Disk → Process → Process
  tick k p = if p.running.ticking then refresh_devices k p else p

  -- put of the cache, with its gauge
  unfoldable pub put_reply : Stored → Process → Process
  put_reply a p = elim p.running.handler.cache [
    | none ↦ p
    | some mc ↦
        if is_cacheable a.request a.reply
        then (let mc' =
              Cache.put lib.sum64 lib.minimal_ttl a.choice mc a.at a.profile a.request a.reply in
            record {
              running = record (p.running) {
                handler = record (p.running.handler) { cache = some mc' };
              };
              gauges = record (p.gauges) {
                cache_size = set_gauge p.running.labels (len mc'.c) p.gauges.cache_size;
              };
            })
        else p
  ]

  unfoldable pub act : Process → Action → Process
  act p (labels_set l) = set_metric_labels l p
  act p (starts k) = start_devices k p
  act p (ticks k) = tick k p
  act p leaves = leave p
  act p (looks_up e) = step_discovery e p
  act p (puts a) = put_reply a p
  act p restarts = on_restart p
  act p restart_fails = on_restart_failed p
  act p shuts_down = on_shutdown p

  unfoldable pub live : Process → List Action → Process
  live p [] = p
  live p (a ∷ rest) = live (act p a) rest
