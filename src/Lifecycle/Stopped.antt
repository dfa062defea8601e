-- ===== src/Lifecycle/Stopped.antt =====
-- OnShutdown: what an instance that has been shut down no longer does.
use coredns_nextdns.Prelude.{
  ◌≤◌, ◌≡◌, inl, inr, refl, sym, subst, ◌∙◌, List, [], ◌∷◌, true, false, Option, some, All, arith,
  Option-cases, Bool-cases, if◌then◌else◌,
}
use coredns_nextdns.Prelude.Text.{Text}
use coredns_nextdns.Device.{HardwareAddr, DeviceDb}
use coredns_nextdns.Discovery.{step, Discoverer, Event, close_down}
use coredns_nextdns.Discovery.Shutdown.{step-closing, step-next}
use coredns_nextdns.Cache.{is_cacheable}
use coredns_nextdns.Cache.Hits.{Stored}
use coredns_nextdns.Plugin.{Libraries}
use coredns_nextdns.Lifecycle.{
  Process, Action, labels_set, starts, ticks, leaves, looks_up, puts, restarts, restart_fails,
  shuts_down, set_metric_labels, tick, leave, step_discovery, put_reply, on_restart,
  on_restart_failed, on_shutdown, act, live,
}

-- An action other than OnStartup.
abbrev pub IsNoStart : Action → Type 0
IsNoStart (labels_set l) = Unit
IsNoStart (starts k) = ⊥
IsNoStart (ticks k) = Unit
IsNoStart leaves = Unit
IsNoStart (looks_up e) = Unit
IsNoStart (puts a) = Unit
IsNoStart restarts = Unit
IsNoStart restart_fails = Unit
IsNoStart shuts_down = Unit

-- Discovery is closing, and since `before` it has started no lookup: no channel has been taken, and
-- the wait group has at most counted down.
pub record IsStill (before : DeviceDb) (d : Discoverer) : Type 0 where
  pub closing : d.closing ≡ true
  pub was : Discoverer
  pub found : before.discovery ≡ some was
  pub none_started : d.next ≡ was.next
  pub counts_down : d.wg ≤ was.wg

-- The ticker is gone, the learned table and the bindings are those of `before`, and discovery
-- has started no lookup since.
pub record IsStopped (before : DeviceDb) (p : Process) : Type 0 where
  pub ticking : p.running.ticking ≡ false
  pub learned : p.running.handler.devices.learned ≡ before.learned
  pub bindings : p.running.handler.devices.bindings ≡ before.bindings
  pub still : (d : Discoverer) → p.running.handler.devices.discovery ≡ some d → IsStill before d

-- The same, for an instance that has never been shut down or whose ticker is to see it.
record IsClosing (before : DeviceDb) (p : Process) : Type 0 where
  done : p.running.done ≡ true
  learned : p.running.handler.devices.learned ≡ before.learned
  bindings : p.running.handler.devices.bindings ≡ before.bindings
  still : (d : Discoverer) → p.running.handler.devices.discovery ≡ some d → IsStill before d

close_down-IsStill :
    (before : DeviceDb)
    → ((x : Discoverer) → before.discovery ≡ some x → IsStill before (close_down x))
      × ((x : Discoverer) → IsStill before x → IsStill before (close_down x))
unfolding close_down
close_down-IsStill before = (
  λ x e. record {
    closing = refl;
    was = x;
    found = e;
    none_started = refl;
    counts_down = omega arith;
  },
  λ x h. record {
    closing = refl;
    was = h.was;
    found = h.found;
    none_started = h.none_started;
    counts_down = h.counts_down;
  },
)

step-IsStill :
    (before : DeviceDb) (d : Discoverer) (e : Event) → IsStill before d → IsStill before (step d e)
step-IsStill before d e h =
    let (closing, fewer) = step-closing d e h.closing in
    record {
      closing = closing;
      was = h.was;
      found = h.found;
      none_started = step-next d e h.closing ∙ h.none_started;
      counts_down = omega (arith, fewer, h.counts_down);
    }

-- What OnShutdown leaves, where discovery is as it was or has been closed before.
on_shutdown-IsClosing :
    (before : DeviceDb) (p : Process)
    → p.running.handler.devices.learned ≡ before.learned
    → p.running.handler.devices.bindings ≡ before.bindings
    → ((d : Discoverer)
        → p.running.handler.devices.discovery ≡ some d
        → IsStill before (close_down d))
    → IsClosing before (on_shutdown p)
unfolding on_shutdown
on_shutdown-IsClosing before p learned bindings closed =
    elim (Option-cases p.running.handler.devices.discovery) [
      | inl e ↦
          rw (on_shutdown, e)
            (record {
              done = refl;
              learned = learned;
              bindings = bindings;
              still = λ d f. absurd (ground (arith, e, f));
            })
      | inr (d, e) ↦
          rw (on_shutdown, e)
            (record {
              done = refl;
              learned = learned;
              bindings = bindings;
              still = λ d' f. subst (IsStill before) (ground (arith, f)) (closed d e);
            })
    ]

leave-IsStopped :
    (before : DeviceDb) (p : Process) → IsClosing before p → IsStopped before (leave p)
unfolding leave
leave-IsStopped before p h =
    let left : leave p ≡ record p { running = record (p.running) { ticking = false } } =
      ground (arith, h.done) in
    subst (IsStopped before) (sym left)
      (record { ticking = refl; learned = h.learned; bindings = h.bindings; still = h.still })

still_ticking : (p : Process) → (on_shutdown p).running.ticking ≡ p.running.ticking
unfolding on_shutdown
still_ticking p = ground arith

step_discovery-IsStopped :
    (before : DeviceDb) (e : Event) (p : Process)
    → IsStopped before p
    → IsStopped before (step_discovery e p)
unfolding step_discovery
step_discovery-IsStopped before e p h = elim (Option-cases p.running.handler.devices.discovery) [
  | inl f ↦ rw (step_discovery, f) h
  | inr (d, f) ↦
      rw (step_discovery, f)
        (record {
          ticking = h.ticking;
          learned = h.learned;
          bindings = h.bindings;
          still = λ d' g.
              subst (IsStill before) (ground (arith, g)) (step-IsStill before d e (h.still d f));
        })
]

module _ (lib : Libraries) (parse_mac : Text → Option HardwareAddr) where
  put_reply-IsStopped :
      (before : DeviceDb) (a : Stored) (p : Process)
      → IsStopped before p
      → IsStopped before (put_reply lib parse_mac a p)
  unfolding put_reply
  put_reply-IsStopped before a p h = elim (Option-cases p.running.handler.cache) [
    | inl e ↦ rw (put_reply, e) h
    | inr (mc, e) ↦ elim (Bool-cases (is_cacheable a.request a.reply)) [
      | inl f ↦
          rw (put_reply, e, f)
            (record {
              ticking = h.ticking;
              learned = h.learned;
              bindings = h.bindings;
              still = h.still;
            })
      | inr f ↦ rw (put_reply, e, f) h
    ]
  ]

  act-IsStopped :
      (before : DeviceDb) (p : Process) (a : Action)
      → IsNoStart a
      → IsStopped before p
      → IsStopped before (act lib parse_mac p a)
  unfolding act set_metric_labels tick leave on_restart on_restart_failed on_shutdown close_down
  act-IsStopped before p (labels_set l) no_start h = record {
    ticking = h.ticking;
    learned = h.learned;
    bindings = h.bindings;
    still = h.still;
  }
  act-IsStopped before p (starts k) no_start h = absurd no_start
  act-IsStopped before p (ticks k) no_start h =
      let same : tick lib parse_mac k p ≡ p = ground (arith, h.ticking) in
      subst (IsStopped before) (sym same) h
  act-IsStopped before p leaves no_start h =
      elim p.running.done
        as (λ b.
          IsStopped before
            (if b then record p { running = record (p.running) { ticking = false } } else p)) [
              | false ↦ h
              | true ↦ record {
                ticking = refl;
                learned = h.learned;
                bindings = h.bindings;
                still = h.still;
              }
            ]
  act-IsStopped before p (looks_up e) no_start h = step_discovery-IsStopped before e p h
  act-IsStopped before p (puts a) no_start h = put_reply-IsStopped before a p h
  act-IsStopped before p restarts no_start h = record {
    ticking = h.ticking;
    learned = h.learned;
    bindings = h.bindings;
    still = h.still;
  }
  act-IsStopped before p restart_fails no_start h = record {
    ticking = h.ticking;
    learned = h.learned;
    bindings = h.bindings;
    still = h.still;
  }
  act-IsStopped before p shuts_down no_start h =
      let c =
        on_shutdown-IsClosing before p h.learned h.bindings
          (λ d e. (close_down-IsStill before).1 d (h.still d e)) in
      record {
        ticking = still_ticking p ∙ h.ticking;
        learned = c.learned;
        bindings = c.bindings;
        still = c.still;
      }

  stays-IsStopped :
      (before : DeviceDb) (p : Process) (actions : List Action)
      → All IsNoStart actions
      → IsStopped before p
      → IsStopped before (live lib parse_mac p actions)
  unfolding live
  stays-IsStopped before p [] none_ h = h
  stays-IsStopped before p (a ∷ rest) (no_start, more) h =
      stays-IsStopped before (act lib parse_mac p a) rest more (act-IsStopped before p a no_start h)

  -- An instance that has been shut down, and whose ticker has seen it, reads no source again and
  -- starts no lookup, whatever queries, lookups, further callbacks and a second OnShutdown come
  -- after, unless it is started anew: its learned table and its bindings stay as they were, and no
  -- channel of a lookup is taken and the wait group of discovery only counts down.
  pub live-IsStopped :
      (p : Process) (actions : List Action)
      → All IsNoStart actions
      → IsStopped p.running.handler.devices (live lib parse_mac p (shuts_down ∷ leaves ∷ actions))
  unfolding live act
  live-IsStopped p actions none_ =
      let before = p.running.handler.devices in
      stays-IsStopped before (leave (on_shutdown p)) actions none_ (
        leave-IsStopped before (on_shutdown p)
          (on_shutdown-IsClosing before p refl refl (close_down-IsStill before).0))
