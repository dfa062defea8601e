-- ===== src/Metrics/Registered.antt =====
-- metrics.go: the metrics that are registered when the program starts, and every place that writes
-- one. Registering two metrics under one name panics, and so does writing one with other than as
-- many label values as it declares. The buckets and the help texts are left out.
use coredns_nextdns.Prelude.{ℕ, List, [], ◌∷◌, Option, none, some, if◌then◌else◌}
use coredns_nextdns.Prelude.Text.{Text, codes, text_eq}
use coredns_nextdns.Plugin.Counters.{
  Counter, cache_hits, cache_misses, cache_collisions, max_concurrent_rejects, mismatches,
  request_duration, responses, errors,
}
use coredns_nextdns.Metrics.{Series}

-- The variables of metrics.go, under the names that they register; all have the same namespace and
-- subsystem.
pub data Metric : Type 0 where
  request_duration_seconds responses_total errors_total bootstrap_failures_total
        max_concurrent_rejects_total cache_hits_total cache_misses_total cache_entries :
      Metric
  discovery_lookups_total discovery_waits_total discovery_entries mismatches_total
        cache_collisions_total invalid_profiles_total devices_known :
      Metric

unfoldable pub metric_name : Metric → Text
metric_name request_duration_seconds = codes "request_duration_seconds"
metric_name responses_total = codes "responses_total"
metric_name errors_total = codes "errors_total"
metric_name bootstrap_failures_total = codes "bootstrap_failures_total"
metric_name max_concurrent_rejects_total = codes "max_concurrent_rejects_total"
metric_name cache_hits_total = codes "cache_hits_total"
metric_name cache_misses_total = codes "cache_misses_total"
metric_name cache_entries = codes "cache_entries"
metric_name discovery_lookups_total = codes "discovery_lookups_total"
metric_name discovery_waits_total = codes "discovery_waits_total"
metric_name discovery_entries = codes "discovery_entries"
metric_name mismatches_total = codes "mismatches_total"
metric_name cache_collisions_total = codes "cache_collisions_total"
metric_name invalid_profiles_total = codes "invalid_profiles_total"
metric_name devices_known = codes "devices_known"

-- instanceLabels
abbrev pub instance_labels : List Text
instance_labels = codes "server" ∷ codes "zone" ∷ codes "view" ∷ []

-- The labels that each declares.
unfoldable pub label_names : Metric → List Text
label_names request_duration_seconds = codes "server" ∷ codes "profile" ∷ []
label_names responses_total = codes "server" ∷ codes "profile" ∷ codes "rcode" ∷ []
label_names errors_total = codes "endpoint" ∷ []
label_names bootstrap_failures_total = codes "endpoint" ∷ codes "address" ∷ []
label_names max_concurrent_rejects_total = codes "server" ∷ []
label_names cache_hits_total = codes "server" ∷ []
label_names cache_misses_total = codes "server" ∷ []
label_names cache_entries = instance_labels
label_names discovery_lookups_total = codes "result" ∷ []
label_names discovery_waits_total = codes "result" ∷ []
label_names discovery_entries = instance_labels
label_names mismatches_total = codes "server" ∷ []
label_names cache_collisions_total = []
label_names invalid_profiles_total = []
label_names devices_known = instance_labels

-- How a reverse lookup and a hold end.
pub data LookupResult : Type 0 where
  found notfound error panic : LookupResult

pub data WaitResult : Type 0 where
  timeout cancelled resolved : WaitResult

unfoldable pub lookup_result : LookupResult → Text
lookup_result found = codes "found"
lookup_result notfound = codes "notfound"
lookup_result error = codes "error"
lookup_result panic = codes "panic"

unfoldable pub wait_result : WaitResult → Text
wait_result timeout = codes "timeout"
wait_result cancelled = codes "cancelled"
wait_result resolved = codes "resolved"

-- The writes of the program: those of the handler for a query on `server`, of discovery, of a dial,
-- of profileFor and of the gauges of an instance.
pub data Write : Type 0 where
  handles : Text → Counter → Write
  looks_up : LookupResult → Write
  waits : WaitResult → Write
  fails_to_dial : Text → Text → Write
  rejects_profile : Write
  sets_devices sets_entries sets_cache : Series → Write

-- WithLabelValues for one of an instance's series
unfoldable pub series_values : Series → List Text
series_values (server, zone, view) = server ∷ zone ∷ view ∷ []

-- What a write is: the metric, and the label values that are given to it.
abbrev pub Given : Type 0
Given = Metric × List Text

-- The counters and the timer of ServeDNS; `rcode_text` is rcode.ToString. Of a failed endpoint the
-- exchange of doh.go counts the host, and get of cache.go counts a collision.
unfoldable pub handler_write : (ℕ → Text) → Text → Counter → Given
handler_write rcode_text server cache_hits = (cache_hits_total, server ∷ [])
handler_write rcode_text server cache_misses = (cache_misses_total, server ∷ [])
handler_write rcode_text server cache_collisions = (cache_collisions_total, [])
handler_write rcode_text server max_concurrent_rejects = (max_concurrent_rejects_total, server ∷ [])
handler_write rcode_text server mismatches = (mismatches_total, server ∷ [])
handler_write rcode_text server (request_duration profile) =
    (request_duration_seconds, server ∷ profile ∷ [])
handler_write rcode_text server (responses profile rcode) =
    (responses_total, server ∷ profile ∷ rcode_text rcode ∷ [])
handler_write rcode_text server (errors host) = (errors_total, host ∷ [])

-- The count of a reverse lookup
unfoldable pub lookup_write : LookupResult → Given
lookup_write r = (discovery_lookups_total, lookup_result r ∷ [])

-- The count of a hold
unfoldable pub wait_write : WaitResult → Given
wait_write r = (discovery_waits_total, wait_result r ∷ [])

-- The count of an address that could not be dialled
unfoldable pub dial_write : Text → Text → Given
dial_write host ip = (bootstrap_failures_total, host ∷ ip ∷ [])

-- The write of a gauge for one of an instance's series
unfoldable pub gauge_write : Metric → Series → Given
gauge_write g s = (g, series_values s)

-- Every write of the program, by where it is made.
unfoldable pub write : (ℕ → Text) → Write → Given
write rcode_text (handles server c) = handler_write rcode_text server c
write rcode_text (looks_up r) = lookup_write r
write rcode_text (waits r) = wait_write r
write rcode_text (fails_to_dial host ip) = dial_write host ip
write rcode_text rejects_profile = (invalid_profiles_total, [])
write rcode_text (sets_devices s) = gauge_write devices_known s
write rcode_text (sets_entries s) = gauge_write discovery_entries s
write rcode_text (sets_cache s) = gauge_write cache_entries s

-- The metric of a name, if one has it.
metric_named : Text → Option Metric
metric_named t =
    if text_eq t (codes "request_duration_seconds")
    then some request_duration_seconds
    else if text_eq t (codes "responses_total")
    then some responses_total
    else if text_eq t (codes "errors_total")
    then some errors_total
    else if text_eq t (codes "bootstrap_failures_total")
    then some bootstrap_failures_total
    else if text_eq t (codes "max_concurrent_rejects_total")
    then some max_concurrent_rejects_total
    else if text_eq t (codes "cache_hits_total")
    then some cache_hits_total
    else if text_eq t (codes "cache_misses_total")
    then some cache_misses_total
    else if text_eq t (codes "cache_entries")
    then some cache_entries
    else if text_eq t (codes "discovery_lookups_total")
    then some discovery_lookups_total
    else if text_eq t (codes "discovery_waits_total")
    then some discovery_waits_total
    else if text_eq t (codes "discovery_entries")
    then some discovery_entries
    else if text_eq t (codes "mismatches_total")
    then some mismatches_total
    else if text_eq t (codes "cache_collisions_total")
    then some cache_collisions_total
    else if text_eq t (codes "invalid_profiles_total")
    then some invalid_profiles_total
    else if text_eq t (codes "devices_known")
    then some devices_known
    else none
