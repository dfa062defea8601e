-- ===== src/Lifecycle/Frozen.antt =====
-- deleteGauges at OnRestart, and the instance that goes on working until OnShutdown.
use coredns_nextdns.Prelude.{ℕ, ◌≡◌, some}
use coredns_nextdns.Prelude.Text.{Text}
use coredns_nextdns.Prelude.Dict
use coredns_nextdns.Metrics.{Series, GaugeVec, series_discrete}
use coredns_nextdns.Lifecycle.{
  Action, labels_set, starts, ticks, leaves, looks_up, puts, restarts, restart_fails, shuts_down,
}

-- The gauge has the series.
abbrev pub HasSeries : Series → GaugeVec → Type 0
HasSeries s g = (n : ℕ) × (Dict.get series_discrete s g ≡ some n)

-- An action other than OnRestart.
abbrev pub IsNoRestart : Action → Type 0
IsNoRestart (labels_set l) = Unit
IsNoRestart (starts k) = Unit
IsNoRestart (ticks k) = Unit
IsNoRestart leaves = Unit
IsNoRestart (looks_up e) = Unit
IsNoRestart (puts a) = Unit
IsNoRestart restarts = ⊥
IsNoRestart restart_fails = Unit
IsNoRestart shuts_down = Unit
