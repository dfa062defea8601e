-- ===== src/Doh/Setup.antt =====
-- doh.go: how endpoints are read and the client is built, with applyBootstrap of setup.go. url.Parse
-- and the test net.ParseIP(...) != nil are parameters; the transport itself is outside.
use coredns_nextdns.Prelude.{
  ℕ, ◌==◌, ◌*◌, List, [], ◌∷◌, ◌++◌, Bool, false, not, Option, none, some, if◌then◌else◌,
}
use coredns_nextdns.Prelude.Text.{Text, codes, text_eq, text_discrete, is_empty}
use coredns_nextdns.Prelude.Int.{ℤ, pos, leb_ℤ, pos_part}
use coredns_nextdns.Prelude.Fields.{
  trim_space, trim_suffix, before_byte, after_byte, has_byte, split, join,
}
use coredns_nextdns.Prelude.Result.{Result, ok, err, ◌>>=◌}
use coredns_nextdns.Prelude.Dict
use coredns_nextdns.Prelude.Dict.{Dict}
use coredns_nextdns.Dns.{second}
use coredns_nextdns.Doh.{Endpoint, DohClient, has_any}

-- What the program reads of a *url.URL: Scheme, Host, Hostname() and String().
pub record Url : Type 0 where
  pub scheme : Text
  pub host : Text
  pub hostname : Text
  pub text : Text

pub data EndpointError : Type 0 where
  invalid_bootstrap invalid_endpoint not_https no_host : EndpointError

-- dohOptions; `max_idle_conns` is 0 if it is not set
pub record DohOptions : Type 0 where
  pub endpoints : List Text
  pub timeout : ℤ
  pub tls_server_name : Text
  pub max_idle_conns : ℕ

-- What the http.Client and the deadline of the client are built with.
pub record HttpSettings : Type 0 where
  pub timeout : ℕ
  pub server_name : Text
  pub max_idle_conns : ℕ
  pub follows_redirects : Bool

abbrev pub default_timeout : ℕ
default_timeout = 5 * second

abbrev pub default_max_idle_conns : ℕ
default_max_idle_conns = 16

abbrev pub default_endpoints : List Text
default_endpoints =
    codes "https://dns.nextdns.io#45.90.28.0,2a07:a8c0::,45.90.30.0,2a07:a8c1::" ∷ []

abbrev pub well_known_bootstrap : Dict Text (List Text)
well_known_bootstrap =
    (
      codes "dns.nextdns.io",
      codes "45.90.28.0" ∷ codes "2a07:a8c0::" ∷ codes "45.90.30.0" ∷ codes "2a07:a8c1::" ∷ [],
    )
    ∷ (codes "dns1.nextdns.io", codes "45.90.28.0" ∷ codes "2a07:a8c0::" ∷ [])
    ∷ (codes "dns2.nextdns.io", codes "45.90.30.0" ∷ codes "2a07:a8c1::" ∷ [])
    ∷ []

-- wellKnownBootstrap[host]
unfoldable pub well_known : Text → List Text
well_known host = elim (Dict.get text_discrete host well_known_bootstrap) [ none ↦ [] | some l ↦ l ]

-- applyBootstrap of setup.go
unfoldable pub with_bootstrap : List Text → List Text → List Text
with_bootstrap bootstrap [] = []
with_bootstrap bootstrap (e ∷ rest) =
    (if has_byte b'#' e then e else e ++ b'#' ∷ join b',' bootstrap) ∷ with_bootstrap bootstrap rest

unfoldable pub apply_bootstrap : List Text → List Text → List Text
apply_bootstrap endpoints [] = endpoints
apply_bootstrap [] (b ∷ bootstrap) =
    with_bootstrap (b ∷ bootstrap) (codes "https://dns.nextdns.io" ∷ [])
apply_bootstrap (e ∷ endpoints) (b ∷ bootstrap) = with_bootstrap (b ∷ bootstrap) (e ∷ endpoints)

module _ (is_ip : Text → Bool) (parse_url : Text → Option Url) where
  -- The loop over the bootstrap addresses of an endpoint: empty ones are skipped.
  unfoldable pub parse_addresses : List Text → Result EndpointError (List Text)
  parse_addresses [] = ok []
  parse_addresses (part ∷ rest) =
      let ip = trim_space part in
      if is_empty ip
      then parse_addresses rest
      else if not (is_ip ip)
      then err invalid_bootstrap
      else (parse_addresses rest >>= λ boot. ok (ip ∷ boot))

  unfoldable pub parse_bootstrap : Text → Result EndpointError (List Text)
  parse_bootstrap s =
      if has_byte b'#' s then parse_addresses (split b',' (after_byte b'#' s)) else ok []

  -- The rest of parseEndpoint, for the addresses that it has read.
  unfoldable pub parse_spec : Text → List Text → Result EndpointError Endpoint
  parse_spec spec boot = elim (parse_url spec) [
    | none ↦ err invalid_endpoint
    | some u ↦
        if not (text_eq u.scheme (codes "https"))
        then err not_https
        else if is_empty u.host
        then err no_host
        else ok (record {
          base = trim_suffix (codes "/") u.text;
          host = u.hostname;
          bootstrap = boot;
          next = 0;
        })
  ]

  unfoldable pub parse_endpoint : Text → Result EndpointError Endpoint
  parse_endpoint s = parse_bootstrap s >>= λ boot. parse_spec (before_byte b'#' s) boot

  -- An endpoint without addresses of its own gets those of a NextDNS hostname.
  unfoldable pub fill_bootstrap : Endpoint → Endpoint
  fill_bootstrap ep =
      if has_any ep.bootstrap then ep else record ep { bootstrap = well_known ep.host }

  -- The loop of newDOHClient over the endpoints.
  unfoldable pub build_endpoints : List Text → Result EndpointError (List Endpoint)
  build_endpoints [] = ok []
  build_endpoints (s ∷ rest) =
      parse_endpoint s >>= λ ep. build_endpoints rest >>= λ eps. ok (fill_bootstrap ep ∷ eps)

  -- newDOHClient
  unfoldable pub new_doh_client : DohOptions → Result EndpointError (DohClient × HttpSettings)
  new_doh_client o =
      let specs = elim o.endpoints as (λ _. List Text) [
        | [] ↦ default_endpoints
        | s ∷ rest ↦ s ∷ rest
      ] in
      build_endpoints specs >>= λ eps. ok (
        record { endpoints = eps; last_mod = []; boot_failing = [] },
        record {
          timeout = if leb_ℤ o.timeout (pos 0) then default_timeout else pos_part o.timeout;
          server_name = o.tls_server_name;
          max_idle_conns =
              if o.max_idle_conns == 0 then default_max_idle_conns else o.max_idle_conns;
          follows_redirects = false;
        },
      )
