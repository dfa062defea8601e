-- ===== src/Lib.antt =====
-- The verification library of the CoreDNS plugin `nextdns`: a DNS forwarder that sends each query
-- to NextDNS over DNS-over-HTTPS, under a profile that it picks per query, with a cache, with device
-- identities and with device names found by reverse DNS.
--
-- How the program's parts hang together. ServeDNS (nextdns.go) picks a profile (profileFor), asks
-- the cache (cache.go over store.go), identifies the client (device.go, which asks discovery.go for a
-- name where no table has one), takes a slot of the concurrency limit, lets the client of doh.go
-- exchange the query, checks that the reply matches, stores it and writes it. setup.go reads the
-- configuration into the handler and registers its callbacks, sources.go reads the files that name
-- devices, and metrics.go holds the metrics that are written.
--
-- Which file models which part:
--   * Prelude and its children: tests on numbers, lists, strings as lists of bytes, and Go maps as
--     association lists (Prelude/Dict), with the eviction of an arbitrary entry (Prelude/Dict/Evict):
--     the entry that a `range` meets first is an argument. Prelude/Fields is what is used of strings
--     and bufio, Prelude/Result fallible code, Prelude/Int signed numbers.
--   * Dns, Addr: the parts of miekg/dns, of coredns request.Request and of net/netip that the plugin
--     computes with.
--   * Store: store.go. newStore, Get, Add, Len and capacity are new_store, get, add, len and
--     capacity. lock_add is the part of Add under the lock; Store/Concurrent interleaves it with the
--     counter.
--   * Cache: cache.go. get, put, cacheKey, matches and setTTL keep their names.
--   * Device: device.go. Device/Lookup is lookup and deviceID, Device/ShortId is shortID, Device/Name
--     is normalizeName over the UTF-8 decoding of Device/Utf8, Device/Refresh is refresh.
--   * Discovery: discovery.go. `ask` is discoverer.name up to the point where it waits, `hold` what it
--     does then, `advance` one atomic step of the goroutine lookup with its deferred calls, and
--     `close_down` the start of drain; `run` is any interleaving of them. Discovery/Drain is drain
--     with what happens while it waits. Discovery/Resolvers is
--     internalResolver, externalResolver and ptrName.
--   * Doh: doh.go. dial, exchange, do and updateLastMod, with the network as a function that says how
--     each attempt ends. Doh/Setup is parseEndpoint, newDOHClient and applyBootstrap, Doh/Request the
--     request of do with setHeaders.
--   * Sources: sources.go. Each parser is a fold over the lines that bufio.Scanner gives: an entry a
--     line for hosts files, dnsmasq leases and the ARP table, and the state of the loop, Lease, for
--     dhcpd leases. Sources/Learned reads the files within refresh.
--   * Config: parseNextDNS of setup.go. Config/Property has one function for each case of the switch,
--     Config/Parse the loops over the block and what is done at its end; what it returns is the
--     handler of Plugin. Config/Requests, Config/Subnets and Config/Switches follow the lines of an
--     accepted configuration to the requests and the routing of a query and to its features.
--   * Metrics: the gauges of metrics.go, with metricLabelsFor, deleteGauges and republishGauges;
--     Metrics/Registered has every metric with its labels, and every write of one.
--   * Lifecycle: an instance from OnStartup to OnShutdown. Its actions are the callbacks of setup, the
--     cases of the goroutine that deviceDB.start runs, the steps of discovery and the calls of put of
--     its queries, with the gauges that each writes.
--   * Routing: profileFor and reachableRoutes of nextdns.go, and the checks, parsePrefix and the
--     order of the subnets of setup.go.
--   * Plugin: ServeDNS of nextdns.go, step by step, for one query; Plugin/Admission interleaves the
--     counter of the concurrency limit, Plugin/Publish is publish and Plugin/Counters what is counted.
--     The request of Doh/Request is built within the handler. Plugin/History serves queries in a row,
--     and Plugin/Threads interleaves the stages of many handlers, each an atomic access to what they
--     share: the cache, the device tables, the counter and the times of the client.
--   * Tests: runs on concrete inputs.
--
-- Parameters. The hash xxhash.Sum64, the lifetime of a reply (response.Typify with
-- dnsutil.MinimalTTL), the parser and the printer of addresses, request.Match and
-- plugin.ClientWrite are functions that the definitions take as arguments; no law of them is
-- assumed. So are net.ParseMAC, net.ParseIP, url.Parse, net.JoinHostPort, parse.HostPort, and the
-- parsers of numbers, flags and durations of a configuration. A configuration is the tokens that
-- caddy's Controller hands out: the arguments of the plugin's line, and those of each line of its
-- block. The clock, the network, the next plugin, the order of a map's range and the interleaving
-- of goroutines are arguments too. Where a property needs the order of a range (IsRange), it asks
-- for what Go says of it: the entries of the map, each at most once.
--
-- Bounds. Times and durations are natural numbers of nanoseconds and do not overflow in the model;
-- the conversions of the source to uint32 are written out (ttl_seconds, addrs). A store has 256
-- shards, at most 64 lookups are in flight (max_discovery_inflight), a device name has at most 63
-- bytes. The only fuel is that of the base-32 digits of a 64-bit hash: 13 digits, since 32 ^ 13 is
-- more than 2 ^ 64. All other loops are structural recursions.
--
-- Not modelled: the warnings about endpoints and the other log lines, the contexts and the writer of
-- reverse lookups, when tickers and timers fire (their effects are events that may come at any
-- time), HTTP and TLS, and the closing of idle connections. Messages are values, so aliasing between
-- a stored message and its copies is not modelled. Of what runs beside a query the model has the
-- store's counter (Store/Concurrent), the limit (Plugin/Admission), the other handlers
-- (Plugin/Threads), the discoverer, whose events while a query is held are an argument of the query,
-- and the instance (Lifecycle). In Plugin/Threads a lookup of a device with its hold is one step, and
-- so is an exchange, which shares nothing but the time that it notes at its end. In Lifecycle a
-- change of a table and the write of its gauge are one step, though in store and put another
-- goroutine may come between the two. The counters of a dial, of discovery and of rejected metadata are
-- writes in Metrics/Registered, and not results of the functions that count them.
pub mod Prelude
pub mod Dns
pub mod Store
pub mod Cache
pub mod Device
pub mod Addr
pub mod Routing
pub mod Discovery
pub mod Doh
pub mod Sources
pub mod Config
pub mod Metrics
pub mod Lifecycle
pub mod Plugin
pub mod Tests
