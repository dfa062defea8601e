-- ===== src/Metrics/Restart.antt =====
-- What a reload does to the gauges.
use coredns_nextdns.Prelude.{
  ℕ, ◌≡◌, refl, List, [], ◌∷◌, Bool, ◌&&◌, Option, none, some, length, arith, if◌then◌else◌,
}
use coredns_nextdns.Prelude.Text.{Text, text_eq}
use coredns_nextdns.Prelude.Dict
use coredns_nextdns.Plugin.{NextDns}
use coredns_nextdns.Routing.{has}
use coredns_nextdns.Metrics.{
  MetricLabels, Series, GaugeVec, series_discrete, set_series, delete_series, set_gauge,
  delete_gauge, Gauges, delete_gauges, entries_count, cache_count, set_if_some, republish_gauges,
}

-- Whether a series has an instance's labels.
abbrev pub is_own : MetricLabels → Series → Bool
is_own l s = has l.servers s.0 && (text_eq l.zone s.1 && text_eq l.view s.2)

pub get-set_series :
    (servers : List Text) (zone view : Text) (v : ℕ) (g : GaugeVec) (s : Series)
    → Dict.get series_discrete s (set_series servers zone view v g) ≡ (
        if has servers s.0 && (text_eq zone s.1 && text_eq view s.2)
        then some v
        else Dict.get series_discrete s g)
unfolding set_series has series_discrete
get-set_series [] zone view v g s = refl
get-set_series (x ∷ servers) zone view v g s = ground (
  arith,
  get-set_series servers zone view v (Dict.put series_discrete (x, zone, view) v g) s,
  Dict.get-put series_discrete (x, zone, view) s v g,
)

pub get-delete_series :
    (servers : List Text) (zone view : Text) (g : GaugeVec) (s : Series)
    → Dict.get series_discrete s (delete_series servers zone view g) ≡ (
        if has servers s.0 && (text_eq zone s.1 && text_eq view s.2)
        then none
        else Dict.get series_discrete s g)
unfolding delete_series has series_discrete
get-delete_series [] zone view g s = refl
get-delete_series (x ∷ servers) zone view g s = ground (
  arith,
  get-delete_series servers zone view (Dict.delete series_discrete (x, zone, view) g) s,
  Dict.get-delete series_discrete (x, zone, view) s g,
)

get-set_if_some :
    (l : MetricLabels) (v : Option ℕ) (g : GaugeVec) (s : Series)
    → Dict.get series_discrete s (set_if_some l v (delete_gauge l g))
      ≡ (if is_own l s then v else Dict.get series_discrete s g)
unfolding set_if_some set_gauge delete_gauge
get-set_if_some l none g s = get-delete_series l.servers l.zone l.view g s
get-set_if_some l (some v) g s = ground (
  arith,
  get-set_series l.servers l.zone l.view v (delete_gauge l g) s,
  get-delete_series l.servers l.zone l.view g s,
)

-- The values of a gauge after a change: those of the labels' series are `v`, all others are as
-- they were.
abbrev pub IsShown : MetricLabels → Option ℕ → GaugeVec → GaugeVec → Type 0
IsShown l v old new =
    (s : Series)
    → Dict.get series_discrete s new ≡ (if is_own l s then v else Dict.get series_discrete s old)

-- A reload that is abandoned puts the series of the instance that keeps serving back, with the
-- sizes that its tables have now, and no series for a table that it does not have; no other
-- instance's series are touched.
pub republish-delete_gauges :
    (l : MetricLabels) (n : NextDns) (g : Gauges)
    → let g' = republish_gauges l n (delete_gauges l g) in
      IsShown l (some (length n.devices.learned)) g.devices_known g'.devices_known
      × IsShown l (entries_count n) g.discovery_entries g'.discovery_entries
      × IsShown l (cache_count n) g.cache_size g'.cache_size
unfolding republish_gauges delete_gauges set_gauge set_if_some
republish-delete_gauges l n g = (
  get-set_if_some l (some (length n.devices.learned)) g.devices_known,
  get-set_if_some l (entries_count n) g.discovery_entries,
  get-set_if_some l (cache_count n) g.cache_size,
)

-- A reload that succeeds, with the old instance's series deleted before the new one writes: the
-- new instance's series of a gauge that it writes are there, also those whose labels both have, and
-- of the old instance's none is left with a frozen value.
pub set-delete_gauge :
    (old new : MetricLabels) (v : ℕ) (g : GaugeVec) (s : Series)
    → Dict.get series_discrete s (set_gauge new v (delete_gauge old g)) ≡ (
        if is_own new s
        then some v
        else if is_own old s
        then none
        else Dict.get series_discrete s g)
unfolding set_gauge delete_gauge
set-delete_gauge old new v g s = ground (
  arith,
  get-set_series new.servers new.zone new.view v (delete_gauge old g) s,
  get-delete_series old.servers old.zone old.view g s,
)
