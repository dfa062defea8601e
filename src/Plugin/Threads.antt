-- ===== src/Plugin/Threads.antt =====
-- nextdns.go: many queries for NextDNS profiles handled at once. A handler goes through the stages of
-- ServeDNS, each an atomic access to what the handlers share, and other handlers come in between.
-- What is counted and published is left to Plugin.
pub mod Alone
pub mod Slots
pub mod Puts
pub mod Served
use coredns_nextdns.Prelude.{
  ℕ, ◌+◌, ◌-◌, List, [], ◌∷◌, Bool, true, false, Option, none, some, get_elem?, set, ltb,
  if◌then◌else◌,
}
use coredns_nextdns.Prelude.Text.{Text}
use coredns_nextdns.Dns.{Msg}
use coredns_nextdns.Dns.Rcode
use coredns_nextdns.Cache
use coredns_nextdns.Cache.{hit, absent, collided}
use coredns_nextdns.Device.{ClientInfo}
use coredns_nextdns.Plugin.{Libraries, NextDns, Query, set_rcode, look_up, identify, go_out}

-- Where a handler stands: about to ask the cache, with its reply, or without one; at the limit with
-- its device; admitted, or refused; with what its exchange brought; about to return, with what it
-- has written; and over.
pub data Stage : Type 0 where
  arrived missed refused : Stage
  answering : Msg → Stage
  entering admitted : ClientInfo → Stage
  exchanged : Option Msg → Stage
  leaving finished : Option Msg → Stage

pub record Thread : Type 0 where
  pub query : Query
  pub profile : Text
  pub stage : Stage

-- The plugin, and the handlers of its queries.
pub record Server : Type 0 where
  pub plugin : NextDns
  pub threads : List Thread

-- A message with the ID of the query.
unfoldable pub with_id : Query → Msg → Msg
with_id q m = record m { id = q.request.req.id }

-- The deferred call.
unfoldable pub give_back : NextDns → NextDns
give_back n = if ltb 0 n.max_concurrent then record n { concurrent = n.concurrent - 1 } else n

module _ (lib : Libraries) where
  -- The reply of an exchange: stored if there is a cache, or refused for another question.
  unfoldable pub take_reply : NextDns → Query → Text → Msg → NextDns × Stage
  take_reply n q profile m =
      if lib.match_reply q.request m
      then (elim n.cache [
        | none ↦ (n, leaving (some (with_id q m)))
        | some mc ↦ (
          record n {
            cache =
                some
                  (Cache.put lib.sum64 lib.minimal_ttl q.choice mc q.write_at profile q.request m);
          },
          leaving (some (with_id q m)),
        )
      ])
      else (n, leaving (some (set_rcode q.request.req Rcode.format_error)))

  -- One step of a handler.
  unfoldable pub proceed : NextDns → Query → Text → Stage → NextDns × Stage
  proceed n q profile arrived = elim (look_up lib n q profile) [
    | hit m ↦ (n, answering m)
    | absent ↦ (n, missed)
    | collided ↦ (n, missed)
  ]
  proceed n q profile (answering m) =
      (record n { devices = (identify lib false n q profile).1 }, finished (some (with_id q m)))
  proceed n q profile missed =
      let (ci, devices) = identify lib true n q profile in
      (record n { devices = devices }, entering ci)
  proceed n q profile (entering ci) =
      if ltb 0 n.max_concurrent
      then (let n' = record n { concurrent = n.concurrent + 1 } in
          if ltb n.max_concurrent n'.concurrent then (n', refused) else (n', admitted ci))
      else (n, admitted ci)
  proceed n q profile (admitted ci) =
      let (answer, client, errors) = go_out lib n q profile ci in
      (record n { client = client }, exchanged answer)
  proceed n q profile (exchanged none) = (n, leaving none)
  proceed n q profile (exchanged (some m)) = take_reply n q profile m
  proceed n q profile refused = (give_back n, finished none)
  proceed n q profile (leaving w) = (give_back n, finished w)
  proceed n q profile (finished w) = (n, finished w)

  -- A step of the `i`-th handler.
  unfoldable pub step : Server → ℕ → Server
  step s i = elim (get_elem? s.threads i) [
    | none ↦ s
    | some t ↦
        let (n, stage) = proceed s.plugin t.query t.profile t.stage in
        record { plugin = n; threads = set s.threads i (record t { stage = stage }) }
  ]

  -- An interleaving: whose turn it is, step by step.
  unfoldable pub run : Server → List ℕ → Server
  run s [] = s
  run s (i ∷ rest) = run (step s i) rest
