-- ===== src/Metrics.antt =====
-- metrics.go and the gauges of nextdns.go: the series that an instance writes, deletes when a
-- reload starts, and writes again when the reload is abandoned. The counters are outside.
pub mod Restart
pub mod Registered
use coredns_nextdns.Prelude.{
  ℕ, ◌≡◌, refl, List, [], ◌∷◌, ◌++◌, Bool, true, false, ◌&&◌, Option, none, some, length, arith,
  map, if◌then◌else◌,
}
use coredns_nextdns.Prelude.Text.{Text, codes, text_eq, text_discrete}
use coredns_nextdns.Prelude.Dict
use coredns_nextdns.Prelude.Dict.{Dict}
use coredns_nextdns.Plugin.{NextDns}
use coredns_nextdns.Routing.{has}
use coredns_nextdns.Store.{len}

-- metricLabels
pub record MetricLabels : Type 0 where
  pub servers : List Text
  pub zone : Text
  pub view : Text

-- The values of the labels server, zone and view.
abbrev pub Series : Type 0
Series = Text × Text × Text

-- A *prometheus.GaugeVec, as its series.
abbrev pub GaugeVec : Type 0
GaugeVec = Dict Series ℕ

unfoldable pub series_discrete : Discrete Series
series_discrete (a, b, c) (x, y, z) = elim (text_discrete a x) [
  | no p ↦ no (λ e. p (cc))
  | yes p ↦ elim (text_discrete b y) [
    | no q ↦ no (λ e. q (cc))
    | yes q ↦ elim (text_discrete c z) [ no r ↦ no (λ e. r (cc)) | yes r ↦ yes (cc) ]
  ]
]

-- The fields of a *dnsserver.Config that labels are made of.
pub record ServerConfig : Type 0 where
  pub zone : Text
  pub view_name : Text
  pub transport : Text
  pub port : Text
  pub listen_hosts : List Text

-- metricLabelsFor; `join_host_port` is net.JoinHostPort
unfoldable pub metric_labels_for : (Text → Text → Text) → ServerConfig → MetricLabels
metric_labels_for join_host_port cfg = record {
  servers = map (λ h. cfg.transport ++ codes "://" ++ join_host_port h cfg.port) cfg.listen_hosts;
  zone = cfg.zone;
  view = cfg.view_name;
}

-- The loops of set and delete over the servers.
unfoldable pub set_series : List Text → Text → Text → ℕ → GaugeVec → GaugeVec
set_series [] zone view v g = g
set_series (s ∷ servers) zone view v g =
    set_series servers zone view v (Dict.put series_discrete (s, zone, view) v g)

unfoldable pub delete_series : List Text → Text → Text → GaugeVec → GaugeVec
delete_series [] zone view g = g
delete_series (s ∷ servers) zone view g =
    delete_series servers zone view (Dict.delete series_discrete (s, zone, view) g)

unfoldable pub set_gauge : MetricLabels → ℕ → GaugeVec → GaugeVec
set_gauge l v g = set_series l.servers l.zone l.view v g

unfoldable pub delete_gauge : MetricLabels → GaugeVec → GaugeVec
delete_gauge l g = delete_series l.servers l.zone l.view g

-- The gauges of the process.
pub record Gauges : Type 0 where
  pub devices_known : GaugeVec
  pub discovery_entries : GaugeVec
  pub cache_size : GaugeVec

-- deleteGauges
unfoldable pub delete_gauges : MetricLabels → Gauges → Gauges
delete_gauges l g = record {
  devices_known = delete_gauge l g.devices_known;
  discovery_entries = delete_gauge l g.discovery_entries;
  cache_size = delete_gauge l g.cache_size;
}

-- What an instance has to show: the sizes of its tables.
unfoldable pub entries_count : NextDns → Option ℕ
entries_count n = elim n.devices.discovery [ none ↦ none | some d ↦ some (length d.entries) ]

unfoldable pub cache_count : NextDns → Option ℕ
cache_count n = elim n.cache [ none ↦ none | some m ↦ some (len m.c) ]

unfoldable pub set_if_some : MetricLabels → Option ℕ → GaugeVec → GaugeVec
set_if_some l none g = g
set_if_some l (some v) g = set_gauge l v g

-- republishGauges
unfoldable pub republish_gauges : MetricLabels → NextDns → Gauges → Gauges
republish_gauges l n g = record {
  devices_known = set_gauge l (length n.devices.learned) g.devices_known;
  discovery_entries = set_if_some l (entries_count n) g.discovery_entries;
  cache_size = set_if_some l (cache_count n) g.cache_size;
}
