-- ===== src/Config.antt =====
-- setup.go: the configuration block. The state of parseNextDNS while it reads the block is here;
-- the children hold the properties of the block and what is done at its end. The tokens are those
-- that caddy's Controller hands out.
pub mod Property
pub mod Parse
pub mod Finish
pub mod Sound
pub mod Usable
pub mod Accepted
pub mod Refused
pub mod Switches
pub mod Requests
pub mod Subnets
use coredns_nextdns.Prelude.{ℕ, ◌*◌, List, [], ◌∷◌, Bool, true, false, Option, none, some}
use coredns_nextdns.Prelude.Text.{Text, codes}
use coredns_nextdns.Prelude.Int.{ℤ, pos}
use coredns_nextdns.Addr.{Addr, Prefix}
use coredns_nextdns.Dns.{second}
use coredns_nextdns.Cache.{default_cache_min_ttl, default_cache_max_ttl}
use coredns_nextdns.Device.{DeviceDb, id_auto}
use coredns_nextdns.Doh.Setup.{DohOptions, EndpointError, Url, default_timeout}
use coredns_nextdns.Routing.{Routes}
use coredns_nextdns.Sources.{Format}

-- The parsers of Go's libraries and of CoreDNS that the configuration is read with: `none` is an
-- error. `host_port` adds port 53 if there is none.
pub record Parsers : Type 0 where
  pub atoi : Text → Option ℤ
  pub parse_bool : Text → Option Bool
  pub parse_duration : Text → Option ℤ
  pub parse_cidr : Text → Option Prefix
  pub parse_addr : Text → Option Addr
  pub host_port : Text → Option Text
  pub is_ip : Text → Bool
  pub parse_url : Text → Option Url

-- A server block's use of the plugin: the arguments on its line, and the tokens of each line of
-- the block in braces.
pub record Block : Type 0 where
  pub args : List Text
  pub lines : List (List Text)

pub data ConfigError : Type 0 where
  used_twice arg_error invalid_profile needs_two invalid_prefix invalid_duration : ConfigError
  not_positive negative_duration invalid_range invalid_mode invalid_model : ConfigError
  invalid_flag invalid_address unknown_format invalid_resolver unknown_property : ConfigError
  no_profile ttl_needs_cache nothing_to_reload needs_discovery needs_mac_source : ConfigError
  bad_endpoint : EndpointError → ConfigError

-- How addresses are resolved: through this server, or by the resolvers that are listed.
pub data Resolver : Type 0 where
  internal : Resolver
  external : List Text → Resolver

-- cacheOn, cacheTTLOn, cacheCap, cacheMin and cacheMax
pub record CacheSettings : Type 0 where
  pub on : Bool
  pub ttl_on : Bool
  pub capacity : ℕ
  pub min_ttl : ℕ
  pub max_ttl : ℕ

-- The fields of deviceDB that say what is read again, and how often, with reloadOn.
pub record SourceSettings : Type 0 where
  pub files : List (Format × Text)
  pub use_arp : Bool
  pub arp_path : Text
  pub reload : ℕ
  pub reload_on : Bool

-- discoveryTTL, discoveryRetry, discoveryTimeout, discoveryWait and discoveryMax
pub record Tuning : Type 0 where
  pub ttl : Option ℕ
  pub retry : Option ℕ
  pub timeout : Option ℕ
  pub wait : Option ℕ
  pub max : Option ℕ

-- The local variables of parseNextDNS, with the parts of n that it sets.
pub record Settings : Type 0 where
  pub routes : Routes
  pub max_concurrent : ℕ
  pub endpoints : List Text
  pub bootstrap : List Text
  pub doh : DohOptions
  pub cache : CacheSettings
  pub devices : DeviceDb
  pub sources : SourceSettings
  pub resolver : Option Resolver
  pub tuning : Tuning

abbrev pub default_reload : ℕ
default_reload = 30 * second

abbrev pub default_arp_path : Text
default_arp_path = codes "/proc/net/arp"

abbrev pub default_max_bindings : ℕ
default_max_bindings = 8192

-- newDeviceDB
unfoldable pub new_device_db : DeviceDb × SourceSettings
new_device_db = (
  record {
    mode = id_auto;
    model = [];
    send_ip = true;
    max_bindings = default_max_bindings;
    static = [];
    discovery = none;
    learned = [];
    bindings = [];
  },
  record {
    files = [];
    use_arp = false;
    arp_path = default_arp_path;
    reload = default_reload;
    reload_on = false;
  },
)

abbrev pub no_tuning : Tuning
no_tuning = record { ttl = none; retry = none; timeout = none; wait = none; max = none }

-- The variables before the first token, with New.
unfoldable pub new_settings : Settings
unfolding new_device_db
new_settings = record {
  routes = record { profile = []; view_profiles = []; client_profiles = [] };
  max_concurrent = 0;
  endpoints = [];
  bootstrap = [];
  doh = record {
    endpoints = [];
    timeout = pos default_timeout;
    tls_server_name = [];
    max_idle_conns = 0;
  };
  cache = record {
    on = false;
    ttl_on = false;
    capacity = 0;
    min_ttl = default_cache_min_ttl;
    max_ttl = default_cache_max_ttl;
  };
  devices = new_device_db.0;
  sources = new_device_db.1;
  resolver = none;
  tuning = no_tuning;
}
