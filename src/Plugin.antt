-- ===== src/Plugin.antt =====
-- nextdns.go: the handler. The other plugins, the network and the clock are arguments of a query;
-- the hash, the parsers and what the DNS libraries compute are one record of functions.
pub mod Upstream
pub mod Limits
pub mod Admission
pub mod Publish
pub mod Counters
pub mod Network
pub mod History
pub mod Labels
pub mod Accounting
pub mod Threads
use coredns_nextdns.Prelude.{
  take, ℕ, ◌+◌, ◌-◌, ◌≡◌, List, [], ◌∷◌, ◌++◌, Bool, true, false, not, ◌&&◌, ◌||◌, Option, none,
  some, ltb, if◌then◌else◌,
}
use coredns_nextdns.Prelude.Text.{Text, text_eq, is_empty}
use coredns_nextdns.Dns.{Msg, Request}
use coredns_nextdns.Dns.Rcode
use coredns_nextdns.Addr.{Addr}
use coredns_nextdns.Cache
use coredns_nextdns.Cache.{MsgCache, Found, hit, absent, collided}
use coredns_nextdns.Discovery.{Event, HoldEnd}
use coredns_nextdns.Device.{ClientInfo, DeviceDb}
use coredns_nextdns.Device.Lookup
use coredns_nextdns.Device.Lookup.{Hold}
use coredns_nextdns.Doh.{DohClient, Endpoint, Attempt, conf_changed_at}
use coredns_nextdns.Doh.Request.{HttpRequest, exchange_query}
use coredns_nextdns.Plugin.Publish.{Metadata, profile_label, value_of, publish}
use coredns_nextdns.Plugin.Counters.{
  Counter, max_concurrent_rejects, mismatches, request_duration, responses, count_found,
  count_errors,
}
use coredns_nextdns.Routing.{Routes, Asked, BadProfiles, passthrough, profile_for, note_metadata}

-- What the program takes from other packages: xxhash.Sum64, the lifetime of a reply, the parser
-- and the printer of addresses, request.Match, plugin.ClientWrite, Msg.Pack, and the order in which
-- a `range` walks the labels of publish.
pub record Libraries : Type 0 where
  pub sum64 : Text → ℕ
  pub minimal_ttl : Msg → ℕ → ℕ
  pub parse_addr : Text → Option Addr
  pub addr_text : Addr → Text
  pub match_reply : Request → Msg → Bool
  pub client_write : ℕ → Bool
  pub pack : Msg → Option Text
  pub label_order : List (Text × Text) → List (Text × Text)

-- NextDNS; a `max_concurrent` of 0 sets no limit.
pub record NextDns : Type 0 where
  pub routes : Routes
  pub bad : BadProfiles
  pub devices : DeviceDb
  pub client : DohClient
  pub cache : Option MsgCache
  pub concurrent : ℕ
  pub max_concurrent : ℕ

-- The result of the next plugin: its code, and whether it returned an error.
pub record NextResult : Type 0 where
  pub rcode : ℕ
  pub failed : Bool

-- A query with all that its environment decides: whether it is one of the plugin's own reverse
-- lookups, its metadata (`none` is a query without the metadata plugin) and its view, the next
-- plugin, how the endpoints answer a request, the clock when the cache is read and when it is
-- written, what happens while it is held, and the store's eviction.
pub record Query : Type 0 where
  pub request : Request
  pub is_discovery : Bool
  pub metadata : Option Metadata
  pub view : Text
  pub next : NextResult
  pub network : Endpoint → HttpRequest → Attempt
  pub read_at : ℕ
  pub write_at : ℕ
  pub meanwhile : List Event
  pub ends : HoldEnd
  pub choice : ℕ

pub data ServeError : Type 0 where
  next_error max_concurrent_error upstream_error : ServeError

-- What ServeDNS returns, the message that it wrote itself, the metadata that it leaves and what it
-- counted.
pub record Outcome : Type 0 where
  pub rcode : ℕ
  pub error : Option ServeError
  pub written : Option Msg
  pub metadata : Option Metadata
  pub counted : List Counter

-- The value of the label that overrides the profile, if another plugin has set it.
unfoldable pub override : Query → Option Text
override q = value_of profile_label q.metadata

-- new(dns.Msg).SetRcode(r, rcode): of the questions only the first one is kept.
unfoldable pub set_rcode : Msg → ℕ → Msg
set_rcode r rcode = record {
  id = r.id;
  rcode = rcode;
  truncated = false;
  checking_disabled = r.checking_disabled;
  question = take 1 r.question;
  answer = [];
  ns = [];
  extra = [];
}

-- reply: the client's ID is put back.
unfoldable pub reply : Query → Text → Msg → Outcome
reply q profile m = record {
  rcode = Rcode.success;
  error = none;
  written = some (record m { id = q.request.req.id });
  metadata = q.metadata;
  counted = responses profile m.rcode ∷ [];
}

-- What is counted before an outcome and the metadata that is set before it.
unfoldable pub preceded : List Counter → Option Metadata → Outcome → Outcome
preceded counters metadata out = record out {
  metadata = metadata;
  counted = counters ++ out.counted;
}

-- The result of plugin.NextOrFailure, handed on.
unfoldable pub hand_on : Query → Outcome
hand_on q = record {
  rcode = q.next.rcode;
  error = if q.next.failed then some next_error else none;
  written = none;
  metadata = q.metadata;
  counted = [];
}

-- A query that finds every slot taken.
unfoldable pub refuse : Query → Outcome
refuse q = record {
  rcode = Rcode.refused;
  error = some max_concurrent_error;
  written = none;
  metadata = q.metadata;
  counted = max_concurrent_rejects ∷ [];
}

module _ (lib : Libraries) where
  -- A reverse lookup of the plugin's own: only the next plugin may answer it.
  unfoldable pub serve_discovery : Query → Outcome
  serve_discovery q =
      if not q.next.failed || lib.client_write q.next.rcode
      then record {
        rcode = q.next.rcode;
        error = none;
        written = none;
        metadata = q.metadata;
        counted = [];
      }
      else record {
        rcode = Rcode.success;
        error = none;
        written = some (set_rcode q.request.req Rcode.name_error);
        metadata = q.metadata;
        counted = [];
      }

  -- devices.lookup, and the database afterwards
  unfoldable pub identify : Bool → NextDns → Query → Text → ClientInfo × DeviceDb
  identify may_hold n q profile =
      Lookup.lookup lib.sum64 lib.parse_addr lib.addr_text
        (record { may_hold = may_hold; now = q.read_at; meanwhile = q.meanwhile; ends = q.ends })
        n.devices q.request.ip profile

  -- The end of the handler, with the reply that the client brought.
  unfoldable pub accept : NextDns → Query → Text → Msg → NextDns × Outcome
  accept n q profile m =
      if lib.match_reply q.request m
      then (elim n.cache [
        | none ↦ (n, reply q profile m)
        | some mc ↦ (
          record n {
            cache =
                some
                  (Cache.put lib.sum64 lib.minimal_ttl q.choice mc q.write_at profile q.request m);
          },
          reply q profile m,
        )
      ])
      else (
        n,
        record {
          rcode = Rcode.success;
          error = none;
          written = some (set_rcode q.request.req Rcode.format_error);
          metadata = q.metadata;
          counted = mismatches ∷ [];
        },
      )

  -- The exchange of a query, made for the device `ci`.
  unfoldable pub go_out : NextDns → Query → Text → ClientInfo → Option Msg × DohClient × List Text
  go_out n q profile ci = exchange_query lib.pack q.network profile ci q.request.req n.client

  -- The rest of the handler after its exchange.
  unfoldable pub conclude :
      NextDns → Query → Text → Option Msg × DohClient × List Text → NextDns × Outcome
  conclude n q profile (answer, client, errors) =
      let n' = record n { client = client } in
      let counters = count_errors errors ++ request_duration profile ∷ [] in
      elim answer [
        | none ↦ (
          n',
          record {
            rcode = Rcode.server_failure;
            error = some upstream_error;
            written = none;
            metadata = q.metadata;
            counted = counters;
          },
        )
        | some m ↦
            let (n'', out) = accept n' q profile m in (n'', preceded counters out.metadata out)
      ]

  -- The exchange, within a slot.
  unfoldable pub go_upstream : NextDns → Query → Text → ClientInfo → NextDns × Outcome
  go_upstream n q profile ci = conclude n q profile (go_out n q profile ci)

  -- The limit: the slot is taken before the test and given back at the end, whatever happens.
  unfoldable pub with_slot : NextDns → Query → Text → ClientInfo → NextDns × Outcome
  with_slot n q profile ci =
      if ltb 0 n.max_concurrent
      then (let taken = record n { concurrent = n.concurrent + 1 } in
          let (n', out) =
            (if ltb n.max_concurrent taken.concurrent
              then (taken, refuse q)
              else go_upstream taken q profile ci) in
          (record n' { concurrent = n'.concurrent - 1 }, out))
      else go_upstream n q profile ci

  -- What the cache has for a query, if there is a cache.
  unfoldable pub look_up : NextDns → Query → Text → Found
  look_up n q profile = elim n.cache [
    | none ↦ absent
    | some mc ↦
        Cache.get lib.sum64 lib.minimal_ttl mc (conf_changed_at n.client.last_mod) q.read_at profile
          q.request
  ]

  -- What a query says of itself to other plugins.
  unfoldable pub published : Query → Text → ClientInfo → Option Metadata
  published q profile ci = publish lib.label_order profile ci q.metadata

  -- The handler once the cache has been asked: `found` is what it has.
  unfoldable pub serve_found : NextDns → Query → Text → Found → NextDns × Outcome
  serve_found n q profile (hit m) =
      let (ci, devices) = identify false n q profile in
      (record n { devices = devices }, preceded [] (published q profile ci) (reply q profile m))
  serve_found n q profile absent =
      let (ci, devices) = identify true n q profile in
      let (n', out) = with_slot (record n { devices = devices }) q profile ci in
      (n', preceded [] (published q profile ci) out)
  serve_found n q profile collided =
      let (ci, devices) = identify true n q profile in
      let (n', out) = with_slot (record n { devices = devices }) q profile ci in
      (n', preceded [] (published q profile ci) out)

  -- What is counted of the cache: nothing where there is none.
  unfoldable pub count_cache : NextDns → Found → List Counter
  count_cache n found = elim n.cache [ none ↦ [] | some mc ↦ count_found found ]

  -- A query for a NextDNS profile.
  unfoldable pub serve_profile : NextDns → Query → Text → NextDns × Outcome
  serve_profile n q profile =
      let found = look_up n q profile in
      let (n', out) = serve_found n q profile found in
      (n', preceded (count_cache n found) out.metadata out)

  -- The profile of a query.
  unfoldable pub route : NextDns → Query → Text
  route n q =
      profile_for lib.parse_addr n.routes
        (record { metadata = override q; view = q.view; ip = q.request.ip })

  -- ServeDNS
  unfoldable pub serve_dns : NextDns → Query → NextDns × Outcome
  serve_dns n q =
      let profile = route n q in
      let n' = record n { bad = note_metadata n.bad (override q) } in
      if q.is_discovery
      then (n, serve_discovery q)
      else if is_empty profile || text_eq profile passthrough
      then (n', hand_on q)
      else serve_profile n' q profile
