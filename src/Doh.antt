-- ===== src/Doh.antt =====
-- doh.go: the DNS-over-HTTPS client. A network is a function that says how each attempt ends; the
-- transport, TLS and the packing of messages are outside, and so are the log lines.
pub mod Bootstrap
pub mod Exchange
pub mod LastMod
pub mod Setup
pub mod Endpoints
pub mod Shared
pub mod Request
use coredns_nextdns.Prelude.{
  ℕ, zero, suc, ◌+◌, ◌%◌, ◌^◌, List, [], ◌∷◌, ◌++◌, Bool, true, false, not, ◌&&◌, ◌||◌, Option,
  none, some, length, get_elem?, ltb, if◌then◌else◌, ◌==◌, bool_eq,
}
use coredns_nextdns.Prelude.Text.{Text, codes, text_eq, text_discrete}
use coredns_nextdns.Prelude.Dict
use coredns_nextdns.Prelude.Dict.{Dict}
use coredns_nextdns.Dns.{Msg}

-- endpoint: `next` is a uint32
pub record Endpoint : Type 0 where
  pub base : Text
  pub host : Text
  pub bootstrap : List Text
  pub next : ℕ

-- dohClient, without its http.Client; times are instants, and a profile that is missing from
-- `last_mod` has the zero time.
pub record DohClient : Type 0 where
  pub endpoints : List Endpoint
  pub last_mod : Dict Text ℕ
  pub boot_failing : Dict Text Bool

-- matchesNetwork; `is4` is whether net.ParseIP gives an IPv4 address
unfoldable pub matches_network : (Text → Bool) → Text → Text → Bool
matches_network is4 network ip =
    if text_eq network (codes "tcp4") || text_eq network (codes "udp4")
    then is4 ip
    else if text_eq network (codes "tcp6") || text_eq network (codes "udp6")
    then not (is4 ip)
    else true

-- The loop of addrs: `count` rounds are left, and the next reads the address at `pos`, modulo the
-- number of addresses.
unfoldable pub addrs_from : (Text → Bool) → List Text → ℕ → ℕ → List Text
addrs_from ok boot zero pos = []
addrs_from ok boot (suc count) pos =
    let rest = addrs_from ok boot count (pos + 1) in
    elim (get_elem? boot (pos % length boot)) [
      | none ↦ rest
      | some ip ↦ if ok ip then ip ∷ rest else rest
    ]

-- addrs: the usable addresses, and the endpoint with its counter moved on
unfoldable pub addrs : (Text → Bool) → Text → Endpoint → List Text × Endpoint
addrs is4 network e = elim e.bootstrap [
  | [] ↦ ([], e)
  | _ ∷ _ ↦ (
    addrs_from (matches_network is4 network) e.bootstrap (length e.bootstrap) e.next,
    record e { next = (e.next + 1) % 2 ^ 32 },
  )
]

abbrev pub has_any : List Text → Bool
has_any [] = false
has_any (x ∷ xs) = true

-- The loop of dial over the endpoints: whether one with this host declared addresses, the union of
-- their usable addresses, and the endpoints afterwards.
unfoldable pub gather :
    (Text → Bool) → Text → Text → List Endpoint → Bool × List Text × List Endpoint
gather is4 network host [] = (false, [], [])
gather is4 network host (ep ∷ rest) =
    let (declared, boot, eps) = gather is4 network host rest in
    if text_eq ep.host host
    then (let (ips, ep') = addrs is4 network ep in
        (has_any ep.bootstrap || declared, ips ++ boot, ep' ∷ eps))
    else (declared, boot, ep ∷ eps)

-- noteBootstrap: a missing host is not failing
unfoldable pub note_bootstrap : Text → Bool → DohClient → DohClient
note_bootstrap host failing c =
    let known : Bool = (elim (Dict.get text_discrete host c.boot_failing) [
      | none ↦ false
      | some b ↦ b
    ]) in
    if bool_eq known failing
    then c
    else record c { boot_failing = Dict.put text_discrete host failing c.boot_failing }

-- How a dial ends: by the plain dial of the host, for want of a usable address, on an address, or
-- with every address failed.
pub data Dialled : Type 0 where
  plain unusable all_failed : Dialled
  connected : Text → Dialled

-- The loop over the addresses; `reach` says which of them answer.
unfoldable pub try_addresses : (Text → Bool) → List Text → Dialled
try_addresses reach [] = all_failed
try_addresses reach (ip ∷ rest) =
    let later = try_addresses reach rest in if reach ip then connected ip else later

-- dial, for an address that is split into `host` and a port
unfoldable pub dial : (Text → Bool) → (Text → Bool) → Text → Text → DohClient → Dialled × DohClient
dial is4 reach network host c =
    let (declared, boot, eps) = gather is4 network host c.endpoints in
    let c' = record c { endpoints = eps } in
    if not declared then (plain, c') else (elim boot [
      | [] ↦ (unusable, c')
      | ip ∷ ips ↦ elim (try_addresses reach (ip ∷ ips)) [
        | connected a ↦ (connected a, note_bootstrap host false c')
        | other ↦ (other, note_bootstrap host true c')
      ]
    ])

-- confChangedAt
unfoldable pub conf_changed_at : Dict Text ℕ → Text → ℕ
conf_changed_at m profile = elim (Dict.get text_discrete profile m) [ none ↦ 0 | some t ↦ t ]

-- updateLastMod: `header` is the time of the X-Conf-Last-Modified header, if it has one.
unfoldable pub update_last_mod : Text → Option ℕ → Dict Text ℕ → Dict Text ℕ
update_last_mod profile none m = m
update_last_mod profile (some t) m =
    if ltb (conf_changed_at m profile) t then Dict.put text_discrete profile t m else m

-- What an HTTP exchange brings: nothing, or a status, the message its body unpacks to, if it does,
-- and the time of its header.
pub record Response : Type 0 where
  pub status : ℕ
  pub body : Option Msg
  pub header : Option ℕ

-- How an attempt ends, and whether the deadline has passed by then.
pub record Attempt : Type 0 where
  pub response : Option Response
  pub expired : Bool

-- do: the reply, and the client's times; only a reply that is used is heard about changes.
unfoldable pub do_request : Text → Option Response → Dict Text ℕ → Option Msg × Dict Text ℕ
do_request profile none m = (none, m)
do_request profile (some r) m =
    if r.status == 200
    then (elim r.body [
      | none ↦ (none, m)
      | some msg ↦ (some msg, update_last_mod profile r.header m)
    ])
    else (none, m)

-- The loop of exchange: the reply, the times, and the hosts whose errors were counted. `attempts`
-- answers for each endpoint in turn.
unfoldable pub exchange_loop :
    Text → (Endpoint → Attempt) → List Endpoint → Dict Text ℕ → Option Msg × Dict Text ℕ × List Text
exchange_loop profile attempt [] m = (none, m, [])
exchange_loop profile attempt (ep ∷ rest) m =
    let a = attempt ep in
    let (reply, m') = do_request profile a.response m in
    let later = exchange_loop profile attempt rest m' in
    elim reply [
      | some msg ↦ (some msg, m', [])
      | none ↦ if a.expired then (none, m', ep.host ∷ []) else (later.0, later.1, ep.host ∷ later.2)
    ]

-- exchange, for a query that could be packed
unfoldable pub exchange :
    Text → (Endpoint → Attempt) → DohClient → Option Msg × DohClient × List Text
exchange profile attempt c =
    let (reply, m, errors) = exchange_loop profile attempt c.endpoints c.last_mod in
    (reply, record c { last_mod = m }, errors)
