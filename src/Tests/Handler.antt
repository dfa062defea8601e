-- ===== src/Tests/Handler.antt =====
-- Runs of the handler.
use coredns_nextdns.Prelude.{◌≡◌, ◌≢◌, refl, [], ◌∷◌, true, false, none, some, arith, ℕ_discrete}
use coredns_nextdns.Prelude.Text.{codes, text_discrete}
use coredns_nextdns.Prelude.Dict
use coredns_nextdns.Dns.{Msg}
use coredns_nextdns.Dns.Rcode
use coredns_nextdns.Store
use coredns_nextdns.Cache
use coredns_nextdns.Cache.{MsgCache, hit, absent}
use coredns_nextdns.Device.{id_none}
use coredns_nextdns.Discovery.{timed_out}
use coredns_nextdns.Doh.{Endpoint, Attempt, DohClient, conf_changed_at}
use coredns_nextdns.Routing.{
  passthrough, metadata_profile, view_profile, client_profile, profile_for, note_metadata,
  valid_route,
}
use coredns_nextdns.Plugin.{
  Libraries, NextDns, Query, max_concurrent_error, set_rcode, reply, hand_on, look_up, route,
  serve_dns, accept, conclude, go_upstream, with_slot, serve_profile, serve_found, count_cache,
  published, override, refuse, preceded, go_out, identify,
}
use coredns_nextdns.Plugin.Limits.{IsProfileQuery, serve_dns-hit, serve_dns-refused}
use coredns_nextdns.Plugin.Upstream.{IsFaithful, serve_dns-IsFaithful, serve_dns-id}
use coredns_nextdns.Routing.{is_rejected, first_match}
use coredns_nextdns.Addr.{addr_discrete, client_addr, unmap, with_zone}
use coredns_nextdns.Device.Name.{normalize_name}
use coredns_nextdns.Device.Lookup
use coredns_nextdns.Device.Lookup.{
  known_device, local_name, raw_name, discover, device_id, device_model,
}
use coredns_nextdns.Doh
use coredns_nextdns.Doh.{exchange_loop, do_request, update_last_mod}
use coredns_nextdns.Cache.{
  cache_key, key_bytes, big_endian16, flag_bits, get_entry, matches, ttl_seconds, set_ttl,
  set_ttl_rr, echo_question, new_entry, clamp_ttl, is_cacheable,
}
use coredns_nextdns.Doh.Request.{exchange_query, new_request}
use coredns_nextdns.Plugin.Publish
use coredns_nextdns.Plugin.Publish.{profile_label, value_of}
use coredns_nextdns.Plugin.Counters.{count_found, count_errors}
use coredns_nextdns.Tests.Data.{asked, answered, request, home, sum64, minimal_ttl, parse_addr}

unfoldable pub program : Unit {0}
unfolding look_up route serve_dns accept go_upstream with_slot serve_profile serve_found count_cache
    published identify reply override refuse preceded conclude go_out exchange_query new_request
    Publish.publish value_of count_found count_errors set_rcode hand_on IsProfileQuery
    metadata_profile view_profile client_profile profile_for note_metadata is_rejected first_match
    valid_route client_addr unmap with_zone Lookup.lookup known_device raw_name local_name discover
    device_id normalize_name device_model Doh.exchange exchange_loop do_request update_last_mod
    conf_changed_at Cache.get Cache.put cache_key key_bytes big_endian16 flag_bits get_entry matches
    ttl_seconds set_ttl set_ttl_rr echo_question new_entry clamp_ttl is_cacheable Store.shard_size
    Store.new_store Store.get Store.lock_add Store.add Dict.get Dict.put Dict.first Dict.evict
    Dict.delete addr_discrete text_discrete ℕ_discrete
program = tt

abbrev pub lib : Libraries
lib = record {
  sum64 = sum64;
  minimal_ttl = minimal_ttl;
  parse_addr = parse_addr;
  addr_text = λ a. codes "192.0.2.7";
  match_reply = λ q m. true;
  client_write = λ rcode. false;
  pack = λ m. some (codes "wire");
  label_order = λ l. l;
}

-- One endpoint, a small cache, and the one slot taken.
abbrev pub busy : NextDns
busy = record {
  routes = record { profile = home; view_profiles = []; client_profiles = [] };
  bad = record { count = 0; warned = false; warnings = 0 };
  devices = record {
    mode = id_none;
    model = [];
    send_ip = false;
    max_bindings = 4;
    static = [];
    discovery = none;
    learned = [];
    bindings = [];
  };
  client = record {
    endpoints =
        record { base = codes "https://dns"; host = codes "dns"; bootstrap = []; next = 0 } ∷ [];
    last_mod = [];
    boot_failing = [];
  };
  cache =
      some (record { c = Store.new_store 10; min_ttl = 5_000_000_000; max_ttl = 3600_000_000_000 });
  concurrent = 1;
  max_concurrent = 1;
}

abbrev pub idle : NextDns
idle = record busy { concurrent = 0 }

abbrev pub query : Query
query = record {
  request = request;
  is_discovery = false;
  metadata = none;
  view = [];
  next = record { rcode = 5; failed = true };
  network = λ e r. record {
    response = some (record { status = 200; body = some answered; header = none });
    expired = false;
  };
  read_at = 1_000_000_000;
  write_at = 1_000_000_000;
  meanwhile = [];
  ends = timed_out;
  choice = 0;
}

abbrev own : Query
own = record query { is_discovery = true }

abbrev elsewhere : Query
elsewhere = record query { metadata = some ((profile_label, passthrough) ∷ []) }

serve_dns-IsFaithful_example :
    IsFaithful lib idle query (route lib idle query) (serve_dns lib idle query).0
serve_dns-IsFaithful_example = serve_dns-IsFaithful lib idle query

profile_query : IsProfileQuery lib busy query
unfolding program
profile_query = (refl, refl)

cold : (m : Msg) → look_up lib busy query (route lib busy query) ≢ hit m
unfolding program
cold m e = ground (arith, e)

serve_dns-refused_example :
    ((serve_dns lib busy query).1.rcode ≡ Rcode.refused)
    × ((serve_dns lib busy query).1.error ≡ some max_concurrent_error)
    × ((serve_dns lib busy query).1.written ≡ none)
    × ((serve_dns lib busy query).0.client ≡ busy.client)
    × ((serve_dns lib busy query).0.cache ≡ busy.cache)
serve_dns-refused_example =
    serve_dns-refused lib busy query profile_query cold (omega arith) (omega arith)

-- The cache as it is after the same query has been answered once, with the one slot taken.
abbrev warm : NextDns
warm = record (serve_dns lib idle query).0 { concurrent = 1 }

abbrev pub served : Msg
served = record answered { answer = record { rrtype = 1; ttl = 60; rdata = codes "x" } ∷ [] }

warm-query : IsProfileQuery lib warm query
unfolding program
warm-query = (refl, refl)

warm_hit : look_up lib warm query (route lib warm query) ≡ hit served
unfolding program
warm_hit = refl

serve_dns-hit_example :
    ((serve_dns lib warm query).1.written ≡ some (record served { id = 7 }))
    × ((serve_dns lib warm query).0.client ≡ warm.client)
    × ((serve_dns lib warm query).0.cache ≡ warm.cache)
    × ((serve_dns lib warm query).0.concurrent ≡ warm.concurrent)
serve_dns-hit_example = serve_dns-hit lib warm query served warm-query warm_hit

written : (serve_dns lib idle query).1.written ≡ some (record answered { id = 7 })
unfolding program
written = refl

serve_dns-id_example : 7 ≡ asked.id
serve_dns-id_example = serve_dns-id lib idle query (record answered { id = 7 }) written
